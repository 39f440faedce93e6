-- ===== src/Snapshot/Limits.antt =====
-- What a snapshot that was built promises.
use kuula.Prelude.{
  ℕ, ◌+◌, ◌≤◌, ◌<◌, ◌≡◌, ◌≢◌, refl, sym, ap, ◌∙◌, inl, inr, true, false, none, some, List, [], ◌∷◌,
  ◌++◌, length, All, All-append, All-map₂, arith, append_assoc, append-nil, length-append,
  Bool-cases,
}
use mathlib.Core.Path.{subst}
use kuula.Prelude.Bytes.{Bytes, same_bytes, same_bytes_iff}
use kuula.Prelude.Result.{ok, err, Result-cases}
use kuula.Prelude.Words.{saturating_add, u64_max}
use kuula.Snapshot.{
  Snapshot, SnapshotLimits, name_problem, lower, any_same, add, add_all, from_entries, find, get,
  empty,
}

abbrev File : Type 0
File = Bytes × Bytes

-- No two files have names that are equal when case is folded.
abbrev pub Distinct : List (Bytes × Bytes) → Type 0
Distinct [] = Unit
Distinct (f ∷ fs) = All (λ (g : Bytes × Bytes). lower f.0 ≢ lower g.0) fs × Distinct fs

unfoldable pub sum_sizes : List (Bytes × Bytes) → ℕ
sum_sizes [] = 0
sum_sizes (f ∷ fs) = length f.1 + sum_sizes fs

pub record IsWithin (limits : SnapshotLimits) (snap : Snapshot) : Type 0 where
  pub names : All (λ (f : Bytes × Bytes). name_problem f.0 ≡ none) snap.files
  pub distinct : Distinct snap.files
  pub count : length snap.files ≤ limits.max_files
  pub sizes : All (λ (f : Bytes × Bytes). length f.1 ≤ limits.max_file_bytes) snap.files
  pub total : snap.total_bytes ≡ sum_sizes snap.files
  pub bounded : snap.total_bytes ≤ limits.max_total_bytes

-- The folded names know every file.
Known : Snapshot × List Bytes → Type 0
Known (snap, folded) = All (λ (f : File). any_same (lower f.0) folded ≡ true) snap.files

Distinct-append :
    (fs : List File) (x : File)
    → Distinct fs
    → All (λ (f : File). lower f.0 ≢ lower x.0) fs
    → Distinct (fs ++ x ∷ [])
Distinct-append [] x d h = (tt, tt)
Distinct-append (f ∷ fs) x d h =
    (All-append _ fs (x ∷ []) d.0 (h.0, tt), Distinct-append fs x d.1 h.1)

sum_sizes-append :
    (fs : List File) (x : File) → sum_sizes (fs ++ x ∷ []) ≡ sum_sizes fs + length x.1
unfolding sum_sizes
sum_sizes-append [] x = omega arith
sum_sizes-append (f ∷ fs) x = omega (arith, sum_sizes-append fs x)

apart :
    (fs : List File) (name : Bytes) (folded : List Bytes)
    → All (λ (f : File). any_same (lower f.0) folded ≡ true) fs
    → any_same name folded ≡ false
    → All (λ (f : File). lower f.0 ≢ name) fs
apart [] name folded k h = tt
apart (f ∷ fs) name folded k h = (λ e. cc (k.0, h, e), apart fs name folded k.1 h)

grown :
    (fs : List File) (name : Bytes) (folded : List Bytes)
    → All (λ (f : File). any_same (lower f.0) folded ≡ true) fs
    → All (λ (f : File). any_same (lower f.0) (name ∷ folded) ≡ true) fs
unfolding any_same
grown [] name folded k = tt
grown (f ∷ fs) name folded k = (ground (arith, k.0), grown fs name folded k.1)

-- The tests that `add` passes.
record IsAdded (name bytes : Bytes) (limits : SnapshotLimits) (snap : Snapshot)
    (folded : List Bytes) (out : Snapshot × List Bytes) : Type 0 where
  portable : name_problem name ≡ none
  new : any_same (lower name) folded ≡ false
  room : length snap.files < limits.max_files
  small : length bytes ≤ limits.max_file_bytes
  fits : saturating_add snap.total_bytes (length bytes) ≤ limits.max_total_bytes
  files : out.0.files ≡ snap.files ++ (name, bytes) ∷ []
  total : out.0.total_bytes ≡ saturating_add snap.total_bytes (length bytes)
  folds : out.1 ≡ lower name ∷ folded

add_lem :
    (name bytes : Bytes) (limits : SnapshotLimits) (snap : Snapshot) (folded : List Bytes)
    (out : Snapshot × List Bytes)
    → add name bytes limits (snap, folded) ≡ ok out
    → IsAdded name bytes limits snap folded out
unfolding add
add_lem name bytes limits snap folded out e = ground (arith, e)

self_known : (name : Bytes) (folded : List Bytes) → any_same name (name ∷ folded) ≡ true
unfolding any_same
self_known name folded = ground (arith, (same_bytes_iff name name).1 refl)

module _ (limits : SnapshotLimits) (headroom : limits.max_total_bytes < u64_max) where
  not_saturated :
      (a b : ℕ) → saturating_add a b ≤ limits.max_total_bytes → saturating_add a b ≡ a + b
  unfolding saturating_add
  not_saturated a b h = omega (arith, h, headroom)

  add-IsWithin :
      (name bytes : Bytes) (snap : Snapshot) (folded : List Bytes) (out : Snapshot × List Bytes)
      → IsAdded name bytes limits snap folded out
      → IsWithin limits snap × Known (snap, folded)
      → IsWithin limits out.0 × Known out
  unfolding Known
  add-IsWithin name bytes snap folded out a (v, k) =
      let x : File = (name, bytes) in
      let sum : saturating_add snap.total_bytes (length bytes) ≡ snap.total_bytes + length bytes =
        not_saturated snap.total_bytes (length bytes) a.fits in
      let known : Known (
        record { files = snap.files ++ x ∷ []; total_bytes = out.0.total_bytes },
        lower name ∷ folded,
      ) =
        All-append _ snap.files (x ∷ []) (grown snap.files (lower name) folded k)
          (self_known (lower name) folded, tt) in
      (
        record {
          names = rw (a.files) (All-append _ snap.files (x ∷ []) v.names (a.portable, tt));
          distinct = rw (a.files) (
              Distinct-append snap.files x v.distinct
                (apart snap.files (lower name) folded k a.new));
          count = rw (a.files) (omega (arith, length-append snap.files (x ∷ []), a.room));
          sizes = rw (a.files) (All-append _ snap.files (x ∷ []) v.sizes (a.small, tt));
          total =
              rw (a.files, a.total) (omega (arith, sum, v.total, sum_sizes-append snap.files x));
          bounded = rw (a.total) (a.fits);
        },
        rw (a.files, a.folds) known,
      )

  add_all-IsWithin :
      (entries : List (Bytes × Bytes)) (s out : Snapshot × List Bytes)
      → add_all entries limits s ≡ ok out
      → IsWithin limits s.0 × Known s
      → IsWithin limits out.0 × (out.0.files ≡ s.0.files ++ entries)
  unfolding add_all
  add_all-IsWithin [] s out e v =
      let same : s ≡ out = ap (λ r. elim r [ ok a ↦ a | err why ↦ s ]) e in
      (
        subst (λ t. IsWithin limits t.0) same v.0,
        ap (λ t. t.0.files) (sym same) ∙ sym (append-nil s.0.files),
      )
  add_all-IsWithin ((name, bytes) ∷ entries) (snap, folded) out e v =
      elim (Result-cases (add name bytes limits (snap, folded))) [
        | inl (why, r) ↦ absurd (ground (arith, e, r))
        | inr (s', r) ↦
            let a : IsAdded name bytes limits snap folded s' =
              add_lem name bytes limits snap folded s' r in
            let (within, files) =
              add_all-IsWithin entries s' out (ground (arith, e, r))
                (add-IsWithin name bytes snap folded s' a v) in
            (
              within,
              files
                  ∙ ap (λ l. l ++ entries) a.files
                  ∙ append_assoc snap.files ((name, bytes) ∷ []) entries,
            )
      ]

abbrev pub IsFound : Snapshot → List (Bytes × Bytes) → Type 0
IsFound snap entries = All (λ (f : Bytes × Bytes). get f.0 snap ≡ some f.1) entries

later :
    (x g : File) (fs : List File)
    → lower x.0 ≢ lower g.0
    → find g.0 fs ≡ some g.1
    → find g.0 (x ∷ fs) ≡ some g.1
unfolding find
later x g fs n e = elim (Bool-cases (same_bytes g.0 x.0)) [
  | inl hit ↦ absurd (n (ap lower (sym ((same_bytes_iff g.0 x.0).0 hit))))
  | inr miss ↦ rw (miss) e
]

find_all : (fs : List File) → Distinct fs → All (λ (f : File). find f.0 fs ≡ some f.1) fs
unfolding find
find_all [] d = tt
find_all (x ∷ fs) d = (
  ground (arith, (same_bytes_iff x.0 x.0).1 refl),
  All-map₂ fs (λ g n e. later x g fs n e) d.0 (find_all fs d.1),
)

module _ (limits : SnapshotLimits) (headroom : limits.max_total_bytes < u64_max)
    (entries : List (Bytes × Bytes)) (snap : Snapshot)
    (built : from_entries entries limits ≡ ok snap) where
  built_all :
      (s : Snapshot × List Bytes) × (add_all entries limits (empty, []) ≡ ok s) × (s.0 ≡ snap)
  unfolding from_entries
  built_all = elim (Result-cases (add_all entries limits (empty, []))) [
    | inl (why, r) ↦ absurd (ground (arith, built, r))
    | inr (s, r) ↦
        let got : from_entries entries limits ≡ ok s.0 = rw (from_entries, r) refl in
        (s, r, ap (λ x. elim x [ ok a ↦ a | err why ↦ snap ]) (sym got ∙ built))
  ]

  start : IsWithin limits empty × Known (empty, [])
  unfolding sum_sizes Known
  start = (
    record {
      names = tt;
      distinct = tt;
      count = omega arith;
      sizes = tt;
      total = omega arith;
      bounded = omega arith;
    },
    tt,
  )

  whole : IsWithin limits snap × (snap.files ≡ entries)
  whole =
      let (s, r, same) = built_all in
      let (within, files) = add_all-IsWithin limits headroom entries (empty, []) s r start in
      (subst (IsWithin limits) same within, ap (λ x. x.files) (sym same) ∙ files)

  -- A snapshot that was built has portable names, no two of them equal when case is folded, no more
  -- and no larger files than its limits, and as its total the sum of their sizes, within its limit, if
  -- that is below the largest u64.
  pub from_entries-IsWithin : IsWithin limits snap
  from_entries-IsWithin = whole.0

  -- Every entry that a snapshot was built from is read back as it was, if the limit of the total is
  -- below the largest u64.
  pub from_entries-IsFound : IsFound snap entries
  unfolding get
  from_entries-IsFound =
      subst (λ fs. All (λ (f : File). find f.0 snap.files ≡ some f.1) fs) whole.1
        (find_all snap.files whole.0.distinct)
