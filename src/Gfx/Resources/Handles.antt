-- ===== src/Gfx/Resources/Handles.antt =====
-- What a handle reaches: its own buffer while that is live, and after that never another one.
use kuula.Prelude.{
  ℕ, zero, suc, ◌<◌, ◌≡◌, ◌≢◌, refl, sym, ap, ◌∙◌, arith, false, none, some, List, [], ◌∷◌, ◌++◌,
  length, get_elem?, set, get_elem?-set_self, get_elem?-set_ne, ◌==◌, Bool-cases, inl, inr,
}
use kuula.Prelude.Result.{ok, err}
use kuula.Gfx.Resources.{
  Buf, BufKind, Slot, Resources, buf_released, is_held, insert, insert_in, put, generation_at,
  alloc, free, get, get_at, held_buf, emptied, with_ledger, zeroed, slot_of, generation_of, word32,
  buf_id, screen_id,
}
use kuula.Gfx.Resources.Slots.{IsFreeList, get_elem?-lt}
use kuula.Gfx.Resources.Budget.{IsSlab, alloc_lem, free_lem}

get_elem?-append_new :
    (slots : List Slot) (s : Slot) → get_elem? (slots ++ s ∷ []) (length slots) ≡ some s
get_elem?-append_new [] s = refl
get_elem?-append_new (x ∷ xs) s = get_elem?-append_new xs s

get_elem?-append_ne :
    (slots : List Slot) (s : Slot) (i : ℕ)
    → i ≢ length slots
    → get_elem? (slots ++ s ∷ []) i ≡ get_elem? slots i
get_elem?-append_ne [] s zero ne = absurd (ne refl)
get_elem?-append_ne [] s (suc i) ne = refl
get_elem?-append_ne (x ∷ xs) s zero ne = refl
get_elem?-append_ne (x ∷ xs) s (suc i) ne = get_elem?-append_ne xs s i (λ e. ne (ap suc e))

get_elem?-length : (slots : List Slot) → get_elem? slots (length slots) ≡ none
get_elem?-length [] = refl
get_elem?-length (x ∷ xs) = get_elem?-length xs

get_at-empty : (id : ℕ) (s : Slot) → is_held s.buf ≡ false → get_at id (some s) ≡ err buf_released
unfolding get_at held_buf
get_at-empty id s h = ground arith

get_at-stale :
    (id : ℕ) (s : Slot) → s.generation ≢ generation_of id → get_at id (some s) ≡ err buf_released
unfolding get_at
get_at-stale id s ne = ground arith

get_at-own :
    (id : ℕ) (s : Slot) (b : Buf)
    → s.buf ≡ some b
    → s.generation ≡ generation_of id
    → get_at id (some s) ≡ ok b
unfolding get_at held_buf
get_at-own id s b h gen = ground (arith)

-- Writing a slot that is empty before or after changes only what its new handle reaches.
get-set :
    (slots : List Slot) (i : ℕ) (old s : Slot) (other : ℕ)
    → get_elem? slots i ≡ some old
    → (slot_of other ≡ i → get_at other (some s) ≡ get_at other (some old))
    → get_at other (get_elem? (set slots i s) (slot_of other))
      ≡ get_at other (get_elem? slots (slot_of other))
get-set slots i old s other there agree = elim (Bool-cases (slot_of other == i)) [
  | inl hit ↦
      let same : slot_of other ≡ i = ground (arith, hit) in
      rw (same, get_elem?-set_self slots i s (get_elem?-lt slots i old there), there) (agree same)
  | inr miss ↦
      ap (λ o. get_at other o)
        (get_elem?-set_ne slots i (slot_of other) s (λ e. ground (arith, miss, e)))
]

slot_of-buf_id : (i g : ℕ) → i < word32 → slot_of (buf_id i g) ≡ i
slot_of-buf_id i g h = omega arith

generation_of-buf_id : (i g : ℕ) → i < word32 → generation_of (buf_id i g) ≡ g
generation_of-buf_id i g h = omega arith

buf_id_lem : (id i g : ℕ) → slot_of id ≡ i → g ≡ generation_of id → id ≡ buf_id i g
buf_id_lem id i g h k = omega arith

Answers : Resources → Buf → ℕ × Resources → Type 0
Answers r b made =
    (get made.1 made.0 ≡ ok b)
    × (get r made.0 ≡ err buf_released)
    × ((other : ℕ) → other ≢ made.0 → get made.1 other ≡ get r other)

get_at-none : (id : ℕ) → get_at id none ≡ err buf_released
unfolding get_at
get_at-none id = refl

get-append :
    (slots : List Slot) (s : Slot) (other : ℕ)
    → (slot_of other ≡ length slots → s.generation ≢ generation_of other)
    → get_at other (get_elem? (slots ++ s ∷ []) (slot_of other))
      ≡ get_at other (get_elem? slots (slot_of other))
get-append slots s other stale = elim (Bool-cases (slot_of other == length slots)) [
  | inl hit ↦
      let same : slot_of other ≡ length slots = ground (arith, hit) in
      ap (λ i. get_at other (get_elem? (slots ++ s ∷ []) i)) same
      ∙ ap (λ o. get_at other o) (get_elem?-append_new slots s)
      ∙ get_at-stale other s (stale same)
      ∙ sym (get_at-none other)
      ∙ ap (λ o. get_at other o) (sym (get_elem?-length slots))
      ∙ ap (λ i. get_at other (get_elem? slots i)) (sym same)
  | inr miss ↦
      ap (λ o. get_at other o)
        (get_elem?-append_ne slots s (slot_of other) (λ e. ground (arith, miss, e)))
]

insert_new :
    (r : Resources) (b : Buf) (n : ℕ) → length r.slots < word32 → Answers r b (insert_in r b n [])
unfolding Answers get insert_in
insert_new r b n small =
    let s : Slot = record { generation = 0; buf = some b; charged = n } in
    let id = buf_id (length r.slots) 0 in
    let slot = slot_of-buf_id (length r.slots) 0 small in
    let gen = generation_of-buf_id (length r.slots) 0 small in
    (
      ap (λ i. get_at id (get_elem? (r.slots ++ s ∷ []) i)) slot
          ∙ ap (λ o. get_at id o) (get_elem?-append_new r.slots s)
          ∙ get_at-own id s b refl (sym gen),
      ap (λ i. get_at id (get_elem? r.slots i)) slot
          ∙ ap (λ o. get_at id o) (get_elem?-length r.slots)
          ∙ get_at-none id,
      λ other ne.
          get-append r.slots s other (λ same e. ne (buf_id_lem other (length r.slots) 0 same e)),
    )

insert_again :
    (r : Resources) (b : Buf) (n i : ℕ) (is : List ℕ)
    → length r.slots < word32
    → IsFreeList r.slots (i ∷ is)
    → Answers r b (insert_in r b n (i ∷ is))
unfolding Answers get insert_in put generation_at IsFreeList
insert_again r b n i is small ((s, there, empty, c), apart, rest) =
    let inside = get_elem?-lt r.slots i s there in
    let new_slot : Slot = record { generation = s.generation; buf = some b; charged = n } in
    let id = buf_id i s.generation in
    let slot = slot_of-buf_id i s.generation (omega (arith, small, inside)) in
    let gen = generation_of-buf_id i s.generation (omega (arith, small, inside)) in
    let answers : (get_at id (get_elem? (set r.slots i new_slot) (slot_of id)) ≡ ok b)
        × (get_at id (get_elem? r.slots (slot_of id)) ≡ err buf_released)
        × ((other : ℕ)
            → other ≢ id
            → get_at other (get_elem? (set r.slots i new_slot) (slot_of other))
              ≡ get_at other (get_elem? r.slots (slot_of other))) =
      (
        ap (λ j. get_at id (get_elem? (set r.slots i new_slot) j)) slot
            ∙ ap (λ o. get_at id o) (get_elem?-set_self r.slots i new_slot inside)
            ∙ get_at-own id new_slot b refl (sym gen),
        ap (λ j. get_at id (get_elem? r.slots j)) slot
            ∙ ap (λ o. get_at id o) there
            ∙ get_at-empty id s empty,
        λ other ne. get-set r.slots i s new_slot other there (λ same.
            get_at-stale other new_slot (λ e. ne (buf_id_lem other i s.generation same e))
            ∙ sym (get_at-empty other s empty)),
      ) in
    rw (there) answers

insert_in-Answers :
    (r : Resources) (b : Buf) (n : ℕ) (is : List ℕ)
    → length r.slots < word32
    → IsFreeList r.slots is
    → Answers r b (insert_in r b n is)
insert_in-Answers r b n [] small h = insert_new r b n small
insert_in-Answers r b n (i ∷ is) small h = insert_again r b n i is small h

Answers-of :
    (r : Resources) (b : Buf) (m m' : ℕ × Resources) → m ≡ m' → Answers r b m → Answers r b m'
Answers-of r b m m' e h = rw (← e) h

alloc-Answers :
    (r r' : Resources) (kind : BufKind) (width height held id : ℕ)
    → IsSlab held r
    → length r.slots < word32
    → alloc r kind width height ≡ ok (id, r')
    → Answers r (zeroed kind width height) (id, r')
unfolding insert Answers get
alloc-Answers r r' kind width height held id v small e =
    let (n, l, sized, reserved, made) = alloc_lem r kind width height (id, r') e in
    let b = zeroed kind width height in
    let answers = insert_in-Answers (with_ledger r l) b n r.free_slots small v.free_list in
    Answers-of (with_ledger r l) b (insert_in (with_ledger r l) b n r.free_slots) (id, r') made
      answers

-- In a slab in order with fewer than 2^32 slots, allocating answers a handle that reached no buffer
-- before and reaches the new, zeroed one now.
pub alloc-fresh :
    (r r' : Resources) (kind : BufKind) (width height held id : ℕ)
    → IsSlab held r
    → length r.slots < word32
    → alloc r kind width height ≡ ok (id, r')
    → (get r' id ≡ ok (zeroed kind width height)) × (get r id ≡ err buf_released)
unfolding Answers
alloc-fresh r r' kind width height held id v small e =
    let (own, before, others) = alloc-Answers r r' kind width height held id v small e in
    (own, before)

-- In a slab in order with fewer than 2^32 slots, allocating changes nothing of what any other handle
-- reaches: also one of the same slot and an earlier generation stays released.
pub alloc-others :
    (r r' : Resources) (kind : BufKind) (width height held id other : ℕ)
    → IsSlab held r
    → length r.slots < word32
    → alloc r kind width height ≡ ok (id, r')
    → other ≢ id
    → get r' other ≡ get r other
unfolding Answers
alloc-others r r' kind width height held id other v small e ne =
    let (own, before, others) = alloc-Answers r r' kind width height held id v small e in
    others other ne

-- Freeing succeeds for no handle of the screen, and ends the handle.
pub free-ends :
    (r r' : Resources) (id : ℕ)
    → free r id ≡ ok r'
    → (id ≢ screen_id) × (get r' id ≡ err buf_released)
unfolding get
free-ends r r' id e =
    let (s, ne, there, gen, live, done) = free_lem r r' id e in
    let inside = get_elem?-lt r.slots (slot_of id) s there in
    (
      ne,
      ap (λ x. get_at id (get_elem? x.slots (slot_of id))) (sym done)
          ∙ ap (λ o. get_at id o) (get_elem?-set_self r.slots (slot_of id) (emptied s) inside)
          ∙ get_at-empty id (emptied s) refl,
    )

-- Freeing changes nothing of what any other handle reaches: also one of the same slot and another
-- generation.
pub free-others :
    (r r' : Resources) (id other : ℕ) → free r id ≡ ok r' → other ≢ id → get r' other ≡ get r other
unfolding get
free-others r r' id other e apart =
    let (s, ne, there, gen, live, done) = free_lem r r' id e in
    ap (λ x. get_at other (get_elem? x.slots (slot_of other))) (sym done)
    ∙ get-set r.slots (slot_of id) s (emptied s) other there (λ same.
      get_at-empty other (emptied s) refl
      ∙ sym (get_at-stale other s (λ g. apart (omega (arith, same, g, gen)))))
