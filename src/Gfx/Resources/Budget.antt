-- ===== src/Gfx/Resources/Budget.antt =====
-- What the ledger of the slab adds up to: every buffer's bytes, and what is reserved for a decode.
use kuula.Prelude.{
  ℕ, ◌+◌, ◌≤◌, ◌≡◌, ◌≢◌, refl, sym, ap, ◌∙◌, arith, true, none, some, List, [], ◌∷◌, get_elem?, set,
  get_elem?-set_self, Option-cases, inl, inr,
}
use kuula.Prelude.Result.{ok, ◌>>=◌, >>=-eq-ok}
use kuula.Gfx.Resources.{
  Buf, BufKind, Slot, Ledger, Resources, is_held, insert, insert_in, put, alloc, alloc_bytes, free,
  free_at, emptied, reserve_bytes, release_bytes, with_ledger, zeroed, bytes_for, slot_of,
  generation_of, retain, screen_id,
}
use kuula.Gfx.Resources.Slots.{
  total_charged, IsFreeList, IsScreen, total_charged-set, total_charged-append, get_elem?-lt,
  IsFreeList-set, held-apart, IsScreen-set, IsScreen-append, screen-apart,
}

-- The slab is in order, with `held` bytes reserved that no buffer has been put in for yet.
pub record IsSlab (held : ℕ) (r : Resources) : Type 0 where
  pub screen : IsScreen r.slots
  pub free_list : IsFreeList r.slots r.free_slots
  pub balance : r.ledger.used ≡ total_charged r.slots + held
  pub within : r.ledger.used ≤ r.ledger.cap

abbrev live_slot : Slot → Buf → ℕ → Slot
live_slot s b charged = record { generation = s.generation; buf = some b; charged = charged }

insert_in-IsSlab :
    (r : Resources) (b : Buf) (n held : ℕ) (is : List ℕ)
    → IsFreeList r.slots is
    → IsSlab (n + held) r
    → IsSlab held ((insert_in r b n is).1)
unfolding insert_in put IsFreeList
insert_in-IsSlab r b n held [] e v =
    let s : Slot = record { generation = 0; buf = some b; charged = n } in
    record {
      screen = IsScreen-append r.slots s v.screen;
      free_list = tt;
      balance = omega (arith, total_charged-append r.slots s, v.balance);
      within = v.within;
    }
insert_in-IsSlab r b n held (i ∷ is) e v =
    let ((s, there, empty, free_of_charge), apart, rest) = e in
    let ne = screen-apart r.slots i v.screen (s, there, empty, free_of_charge) in
    let sum = total_charged-set r.slots i s (live_slot s b n) there in
    rw (there) (record {
      screen = IsScreen-set r.slots i (live_slot s b n) ne v.screen;
      free_list = IsFreeList-set r.slots i (live_slot s b n) is apart rest;
      balance = omega (arith, sum, v.balance, free_of_charge);
      within = v.within;
    })

reserve_bytes_lem :
    (l l' : Ledger) (n : ℕ)
    → reserve_bytes l n ≡ ok l'
    → (l'.used ≡ l.used + n) × (l'.used ≤ l'.cap) × (l'.cap ≡ l.cap)
unfolding reserve_bytes
reserve_bytes_lem l l' n e = ground arith

reserve-IsSlab :
    (r : Resources) (n held : ℕ) (l : Ledger)
    → IsSlab held r
    → reserve_bytes r.ledger n ≡ ok l
    → IsSlab (n + held) (with_ledger r l)
reserve-IsSlab r n held l v e =
    let (sum, fits, same) = reserve_bytes_lem r.ledger l n e in
    record {
      screen = v.screen;
      free_list = v.free_list;
      balance = omega (arith, sum, v.balance);
      within = fits;
    }

pub alloc_lem :
    (r : Resources) (kind : BufKind) (width height : ℕ) (made : ℕ × Resources)
    → alloc r kind width height ≡ ok made
    → (n : ℕ) × (l : Ledger) × (bytes_for kind width height ≡ some n)
      × (reserve_bytes r.ledger n ≡ ok l)
      × (insert (with_ledger r l) (zeroed kind width height) n ≡ made)
unfolding alloc alloc_bytes
alloc_lem r kind width height made e = elim (Option-cases (bytes_for kind width height)) [
  | inl none_eq ↦ ground (arith, none_eq)
  | inr (n, some_eq) ↦
      let reserving : (reserve_bytes r.ledger n >>= λ l.
      ok (insert (with_ledger r l) (zeroed kind width height) n))
          ≡ ok made =
        ground (arith, some_eq) in
      let (l, reserved, done) = >>=-eq-ok (reserve_bytes r.ledger n) _ reserving in
      (n, l, some_eq, reserved, cc)
]

-- A successful allocation in a slab that is in order leaves it in order: what the ledger has in
-- use is what the slots are charged and what is held, within the cap, and the free slots are
-- empty.
pub alloc-IsSlab :
    (r r' : Resources) (kind : BufKind) (width height held id : ℕ)
    → IsSlab held r
    → alloc r kind width height ≡ ok (id, r')
    → IsSlab held r'
unfolding insert
alloc-IsSlab r r' kind width height held id v e =
    let (n, l, sized, reserved, made) = alloc_lem r kind width height (id, r') e in
    let kept =
      insert_in-IsSlab (with_ledger r l) (zeroed kind width height) n held r.free_slots v.free_list
        (reserve-IsSlab r n held l v reserved) in
    rw (← ap (λ m. m.1) made) kept

-- The slab after a slot is freed.
abbrev pub after_free : Resources → ℕ → Slot → Resources
after_free r id s = record {
  slots = set r.slots (slot_of id) (emptied s);
  free_slots = slot_of id ∷ r.free_slots;
  ledger = release_bytes r.ledger s.charged;
  names = retain r.names id;
}

free_at-none : (r r' : Resources) (id : ℕ) → free_at r id none ≢ ok r'
unfolding free_at
free_at-none r r' id = λ e. cc

free_at_lem :
    (r r' : Resources) (id : ℕ) (s : Slot)
    → free_at r id (some s) ≡ ok r'
    → (s.generation ≡ generation_of id) × (is_held s.buf ≡ true) × (after_free r id s ≡ r')
unfolding free_at
free_at_lem r r' id s e = (ground arith, ground arith, ground arith)

pub free_lem :
    (r r' : Resources) (id : ℕ)
    → free r id ≡ ok r'
    → (s : Slot) × (id ≢ screen_id)
      × (get_elem? r.slots (slot_of id) ≡ some s)
      × (s.generation ≡ generation_of id)
      × (is_held s.buf ≡ true)
      × (after_free r id s ≡ r')
unfolding free
free_lem r r' id e =
    let ne : id ≢ screen_id = λ same. ground (arith, same) in
    let tried : free_at r id (get_elem? r.slots (slot_of id)) ≡ ok r' = ground arith in
    elim (Option-cases (get_elem? r.slots (slot_of id))) [
      | inl none_eq ↦ absurd (free_at-none r r' id (ap (λ o. free_at r id o) (sym none_eq) ∙ tried))
      | inr (s, some_eq) ↦
          let (gen, live, done) =
            free_at_lem r r' id s (ap (λ o. free_at r id o) (sym some_eq) ∙ tried) in
          (s, ne, some_eq, gen, live, done)
    ]

freed_slot :
    (r : Resources) (s : Slot) (id : ℕ)
    → IsScreen r.slots
    → id ≢ screen_id
    → get_elem? r.slots (slot_of id) ≡ some s
    → s.generation ≡ generation_of id
    → slot_of id ≢ 0
freed_slot r s id (top, at, held, g, c) ne there gen =
    λ same. let one : top.generation ≡ s.generation = cc in ne (omega (arith, g, one, gen, same))

-- The freed slot: it has no buffer, is charged nothing, and is the first to be used again.
pub record IsFreed (r r' : Resources) (id : ℕ) : Type 0 where
  pub slot : Slot
  pub there : get_elem? r'.slots (slot_of id) ≡ some slot
  pub empty : slot.buf ≡ none
  pub free_of_charge : slot.charged ≡ 0
  pub next : r'.free_slots ≡ slot_of id ∷ r.free_slots

-- A successful free in a slab that is in order leaves it in order: what the ledger has in use is
-- what the slots are charged and what is held, and no slot is free twice. The freed slot is empty, is
-- charged nothing, and is the first on the list of the free ones.
pub free-IsSlab :
    (r r' : Resources) (held id : ℕ)
    → IsSlab held r
    → free r id ≡ ok r'
    → IsSlab held r' × IsFreed r r' id
unfolding IsFreeList
free-IsSlab r r' held id v e =
    let (s, ne, there, gen, live, done) = free_lem r r' id e in
    let inside = get_elem?-lt r.slots (slot_of id) s there in
    let apart = held-apart r.slots (slot_of id) s r.free_slots there live v.free_list in
    let sum = total_charged-set r.slots (slot_of id) s (emptied s) there in
    rw (← done) (
      record {
        screen =
            IsScreen-set r.slots (slot_of id) (emptied s) (freed_slot r s id v.screen ne there gen)
              v.screen;
        free_list = (
          (emptied s, get_elem?-set_self r.slots (slot_of id) (emptied s) inside, refl, refl),
          apart,
          IsFreeList-set r.slots (slot_of id) (emptied s) r.free_slots apart v.free_list,
        );
        balance = omega (arith, sum, v.balance);
        within = omega (arith, v.within);
      },
      record {
        slot = emptied s;
        there = get_elem?-set_self r.slots (slot_of id) (emptied s) inside;
        empty = refl;
        free_of_charge = refl;
        next = refl;
      },
    )
