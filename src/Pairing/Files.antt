-- ===== src/Pairing/Files.antt =====
-- The file of approved developers: what is read back after a write of it.
use kuula.Prelude.{
  ◌*◌, ◌≤◌, ◌<◌, ◌≡◌, refl, sym, ap, ap₂, ◌∙◌, inl, inr, true, false, ◌&&◌, ◌||◌, not, Option, none,
  some, List, [], ◌∷◌, ◌++◌, ltb, leb, ltb→lt, ◌==◌, length, length-append, All, All-append, arith,
  append_assoc, append-nil, Bool-cases, Option-cases, if◌then◌else◌,
}
use mathlib.Core.Path.{subst}
use kuula.Prelude.Bytes.{Bytes, same_bytes, split, onto_first}
use kuula.Prelude.Utf8.{is_utf8, is_utf8_ascii}
use kuula.Pairing.{
  max_approved, max_file, newline, strip_return, ended_lines, lines, contains, without, text_of,
  parse_lines, parse_approved, approved, write_approved, approve, revoke,
}
use kuula.Pairing.Lists.{
  IsCanonical, IsApprovals, NoRepeat, same_sym, NoRepeat-append, NoRepeat-without, All-without,
  length-without, without_same,
}

-- The bytes of an id end no line.
abbrev IsPlain : Bytes → Type 0
IsPlain = All (λ b. (48 ≤ b) × (b < 128))

split-line :
    (id rest : Bytes) → IsPlain id → split newline (id ++ newline ∷ rest) ≡ id ∷ split newline rest
unfolding split onto_first
split-line [] rest p = refl
split-line (c ∷ cs) rest p = ground (arith, p.0, split-line cs rest p.1)

strip_return-plain : (id : Bytes) → IsPlain id → strip_return id ≡ id
unfolding strip_return
strip_return-plain [] p = refl
strip_return-plain (c ∷ []) p = ground (arith, p.0)
strip_return-plain (c ∷ d ∷ cs) p = ap (λ l. c ∷ l) (strip_return-plain (d ∷ cs) p.1)

-- The split of a written file: the ids and an empty piece.
pieces : (ids : List Bytes) → All IsPlain ids → split newline (text_of ids) ≡ ids ++ [] ∷ []
unfolding text_of split
pieces [] p = refl
pieces (id ∷ ids) p = split-line id (text_of ids) p.0 ∙ ap (λ l. id ∷ l) (pieces ids p.1)

ended_lines-pieces : (ids : List Bytes) → All IsPlain ids → ended_lines (ids ++ [] ∷ []) ≡ ids
unfolding ended_lines
ended_lines-pieces [] p = refl
ended_lines-pieces (id ∷ []) p = ap (λ l. l ∷ []) (strip_return-plain id p.0)
ended_lines-pieces (id ∷ next ∷ ids) p =
    ap₂ (λ x y. x ∷ y) (strip_return-plain id p.0) (ended_lines-pieces (next ∷ ids) p.1)

all_middle {κ} : (P : Bytes → Type κ) (xs ys : List Bytes) (y : Bytes) → All P (xs ++ y ∷ ys) → P y
all_middle P [] ys y p = p.0
all_middle P (x ∷ xs) ys y p = all_middle P xs ys y p.1

contains_middle :
    (x y : Bytes) (xs ys : List Bytes) → contains x (xs ++ y ∷ ys) ≡ false → same_bytes x y ≡ false
unfolding contains
contains_middle x y [] ys h = ground (arith, h)
contains_middle x y (z ∷ xs) ys h = contains_middle x y xs ys (ground (arith, h))

middle_new : (xs ys : List Bytes) (y : Bytes) → NoRepeat (xs ++ y ∷ ys) → contains y xs ≡ false
unfolding contains
middle_new [] ys y d = refl
middle_new (x ∷ xs) ys y d =
    ground (arith, same_sym x y (contains_middle x y xs ys d.0), middle_new xs ys y d.1)

size_lem :
    (ids : List Bytes) → All (λ id. length id ≡ 64) ids → length (text_of ids) ≡ 65 * length ids
unfolding text_of
size_lem [] h = omega arith
size_lem (id ∷ ids) h =
    omega (arith, h.0, size_lem ids h.1, length-append id (newline ∷ text_of ids))

ascii_lem : (ids : List Bytes) → All IsPlain ids → All (λ b. b < 128) (text_of ids)
unfolding text_of
ascii_lem [] p = tt
ascii_lem (id ∷ ids) p =
    All-append _ id (newline ∷ text_of ids) (below id p.0) (omega arith, ascii_lem ids p.1)
  where
    below : (bs : Bytes) → IsPlain bs → All (λ b. b < 128) bs
    below [] q = tt
    below (b ∷ bs) q = (q.0.1, below bs q.1)

module _ (parse_id : Bytes → Option Bytes) (canonical : IsCanonical parse_id) where
  grow-IsApprovals :
      (out : List Bytes) (line id : Bytes)
      → parse_id line ≡ some id
      → contains id out ≡ false
      → length out < max_approved
      → IsApprovals parse_id out
      → IsApprovals parse_id (out ++ id ∷ [])
  grow-IsApprovals out line id e c l v = record {
    canonical = All-append _ out (id ∷ []) v.canonical (canonical.stable line id e, tt);
    distinct = NoRepeat-append out id v.distinct c;
    short = omega (arith, l, length-append out (id ∷ []));
  }

  push-IsApprovals :
      (out : List Bytes) (line id : Bytes)
      → parse_id line ≡ some id
      → IsApprovals parse_id out
      → IsApprovals parse_id
          (if not (contains id out) && ltb (length out) max_approved then out ++ id ∷ [] else out)
  push-IsApprovals out line id e v = elim (Bool-cases (contains id out)) [
    | inl c ↦ rw (c) v
    | inr c ↦ elim (Bool-cases (ltb (length out) max_approved)) [
      | inr l ↦ rw (c, l) v
      | inl l ↦ rw (c, l) (grow-IsApprovals out line id e c (ltb→lt (length out) max_approved l) v)
    ]
  ]

  parse_lines-IsApprovals :
      (rest out : List Bytes)
      → IsApprovals parse_id out
      → IsApprovals parse_id (parse_lines parse_id rest out)
  unfolding parse_lines
  parse_lines-IsApprovals [] out v = v
  parse_lines-IsApprovals (line ∷ rest) out v = elim (Option-cases (parse_id line)) [
    | inl e ↦ rw (parse_lines, e) (parse_lines-IsApprovals rest out v)
    | inr (id, e) ↦
        rw (parse_lines, e) (parse_lines-IsApprovals rest _ (push-IsApprovals out line id e v))
  ]

  nobody : IsApprovals parse_id []
  nobody = record { canonical = tt; distinct = tt; short = omega arith }

  -- If an id that reads is canonical, the approved ids are at most 32, canonical, and none of them
  -- twice, whatever the file holds.
  pub approved-IsApprovals : (file : Option Bytes) → IsApprovals parse_id (approved parse_id file)
  unfolding approved parse_approved
  approved-IsApprovals none = nobody
  approved-IsApprovals (some text) =
      elim (Bool-cases (not (is_utf8 text) || ltb max_file (length text))) [
        | inl e ↦ rw (e) nobody
        | inr e ↦ rw (e) (parse_lines-IsApprovals (lines text) [] nobody)
      ]

  -- Lines that are all canonical ids, none twice, are taken as they are.
  parse_lines-same :
      (rest out : List Bytes)
      → IsApprovals parse_id (out ++ rest)
      → parse_lines parse_id rest out ≡ out ++ rest
  unfolding parse_lines
  parse_lines-same [] out v = sym (append-nil out)
  parse_lines-same (line ∷ rest) out v =
      let e : parse_id line ≡ some line = all_middle _ out rest line v.canonical in
      let new : contains line out ≡ false = middle_new out rest line v.distinct in
      let room : length out < max_approved =
        omega (arith, v.short, length-append out (line ∷ rest)) in
      let next : out ++ line ∷ [] ++ rest ≡ out ++ line ∷ rest =
        append_assoc out (line ∷ []) rest in
      let step : parse_lines parse_id (line ∷ rest) out
          ≡ parse_lines parse_id rest (out ++ line ∷ []) =
        ground (arith, e, new, room) in
      step
      ∙ parse_lines-same rest (out ++ line ∷ []) (subst (IsApprovals parse_id) (sym next) v)
      ∙ next

  plain :
      (ids : List Bytes)
      → All (λ id. parse_id id ≡ some id) ids
      → All IsPlain ids × All (λ id. length id ≡ 64) ids
  plain [] h = (tt, tt)
  plain (id ∷ ids) h =
      let (p, s) = plain ids h.1 in ((canonical.digits id id h.0, p), (canonical.size id id h.0, s))

  -- A list of approvals that is written to the file is read back as it was.
  pub approved-text_of :
      (ids : List Bytes) → IsApprovals parse_id ids → approved parse_id (some (text_of ids)) ≡ ids
  unfolding approved parse_approved lines
  approved-text_of ids v =
      let (p, s) = plain ids v.canonical in
      let utf8 : is_utf8 (text_of ids) ≡ true = is_utf8_ascii (text_of ids) (ascii_lem ids p) in
      let fits : length (text_of ids) ≤ max_file = omega (arith, size_lem ids s, v.short) in
      let read : lines (text_of ids) ≡ ids =
        ap ended_lines (pieces ids p) ∙ ended_lines-pieces ids p in
      ground (arith, utf8, fits)
      ∙ ap (λ l. parse_lines parse_id l []) read
      ∙ parse_lines-same ids [] v

  -- If an id that reads is canonical, approving an id whose text reads, with a file system that takes
  -- the write and whatever the file held, adds it to the approved
  -- ids if it is new and there is room, and leaves them as they are otherwise.
  pub approved-approve :
      (text id : Bytes) (file : Option Bytes)
      → parse_id text ≡ some id
      → approved parse_id (approve parse_id none text file).0 ≡ (
          if not (contains id (approved parse_id file))
            && ltb (length (approved parse_id file)) max_approved
          then approved parse_id file ++ id ∷ []
          else approved parse_id file)
  unfolding approve write_approved
  approved-approve text id file e =
      let list = approved parse_id file in
      let v : IsApprovals parse_id list = approved-IsApprovals file in
      elim (Bool-cases (contains id list)) [
        | inl c ↦ ground (arith, e, c)
        | inr c ↦ elim (Bool-cases (leb max_approved (length list))) [
          | inl l ↦ ground (arith, e, c, l)
          | inr l ↦
              let room : length list < max_approved = ground (arith, l) in
              ground (
                arith,
                e,
                c,
                l,
                room,
                approved-text_of (list ++ id ∷ []) (grow-IsApprovals list text id e c room v),
              )
        ]
      ]

  -- If an id that reads is canonical, revoking an id whose text reads, with a file system that takes
  -- the write and whatever the file held, leaves the approved ids
  -- without it, and the others in their order.
  pub approved-revoke :
      (text id : Bytes) (file : Option Bytes)
      → parse_id text ≡ some id
      → approved parse_id (revoke parse_id none text file).0 ≡ without id (approved parse_id file)
  unfolding revoke write_approved
  approved-revoke text id file e =
      let list = approved parse_id file in
      let v : IsApprovals parse_id list = approved-IsApprovals file in
      let left : IsApprovals parse_id (without id list) = record {
        canonical = All-without _ id list v.canonical;
        distinct = NoRepeat-without id list v.distinct;
        short = omega (arith, v.short, length-without id list);
      } in
      elim (Bool-cases (length (without id list) == length list)) [
        | inl h ↦ ground (arith, e, h, without_same id list)
        | inr h ↦ ground (arith, e, h, approved-text_of (without id list) left)
      ]
