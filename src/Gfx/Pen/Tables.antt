-- ===== src/Gfx/Pen/Tables.antt =====
-- The table is what its remap and its transparency say, after any changes.
use kuula.Prelude.{
  ℕ, zero, suc, ◌%◌, ◌≡◌, refl, ap, ◌∙◌, arith, Bool, true, false, ◌&&◌, List, [], ◌∷◌, ltb, ◌==◌,
  if◌then◌else◌, Bool-cases, inl, inr, ◌⊎◌, ◌≢◌,
}
use kuula.Gfx.Pen.{
  ColourTable, cell, rebuild_row, rebuild_rows, rebuild_all, reset, default, pal_map, clear_remap,
  rebuild_mapped, palt, palette_size, clear_transparency, lookup, Change, resets, clears_remap,
  clears_transparency, maps, makes, change, changes,
}

-- Every lookup gives the destination's colour where the remapped source is transparent, and the
-- remapped source elsewhere.
pub record IsTable (t : ColourTable) : Type 0 where
  pub cells : (src dst : ℕ) → lookup t src dst ≡ cell t (src % 128) (dst % 128)

rebuild_rows_lem :
    (n : ℕ) (t : ColourTable)
    → ((rebuild_rows n t).remap ≡ t.remap) × ((rebuild_rows n t).transparent ≡ t.transparent)
unfolding rebuild_rows rebuild_row
rebuild_rows_lem zero t = (refl, refl)
rebuild_rows_lem (suc n) t = rebuild_rows_lem n t

cell_lem :
    (t t' : ColourTable)
    → (t'.remap ≡ t.remap) × (t'.transparent ≡ t.transparent)
    → (s d : ℕ) → cell t' s d ≡ cell t s d
cell_lem t t' (same_remap, same_transparent) s d = rw (same_remap, same_transparent) refl

row_cell :
    (n s d : ℕ) (t : ColourTable)
    → (rebuild_row n t).table s d ≡ (if s == n then cell t s d else t.table s d)
unfolding rebuild_row
row_cell n s d t = elim (Bool-cases (s == n)) [
  | inl hit ↦ let same : s ≡ n = ground (arith, hit) in rw (hit, same) refl
  | inr miss ↦ rw (miss) refl
]

rebuild_rows-cell :
    (n s d : ℕ) (t : ColourTable)
    → (rebuild_rows n t).table s d ≡ (if ltb s n then cell t s d else t.table s d)
unfolding rebuild_rows
rebuild_rows-cell zero s d t = ground arith
rebuild_rows-cell (suc n) s d t = ground (
  arith,
  row_cell n s d (rebuild_rows n t),
  rebuild_rows-cell n s d t,
  cell_lem t (rebuild_rows n t) (rebuild_rows_lem n t) s d,
)

kept_if :
    (b : Bool) (t : ColourTable) (n : ℕ) (t' : ColourTable)
    → (t'.remap ≡ t.remap) × (t'.transparent ≡ t.transparent)
    → ((if b then rebuild_row n t' else t').remap ≡ t.remap)
      × ((if b then rebuild_row n t' else t').transparent ≡ t.transparent)
unfolding rebuild_row
kept_if true t n t' h = h
kept_if false t n t' h = h

rebuild_mapped_lem :
    (i n : ℕ) (t : ColourTable)
    → ((rebuild_mapped i n t).remap ≡ t.remap)
      × ((rebuild_mapped i n t).transparent ≡ t.transparent)
unfolding rebuild_mapped rebuild_row
rebuild_mapped_lem i zero t = (refl, refl)
rebuild_mapped_lem i (suc n) t =
    kept_if ((rebuild_mapped i n t).remap n == i) t n (rebuild_mapped i n t)
      (rebuild_mapped_lem i n t)

-- Whether a row is rebuilt depends on the row alone.
same_row :
    (s n i : ℕ) (t : ColourTable) (b : Bool)
    → (t.remap n == i) ≡ b
    → (s ≢ n) ⊎ ((s ≡ n) × ((t.remap s == i) ≡ b))
same_row s n i t b h = elim (Bool-cases (s == n)) [
  | inl hit ↦
      let same : s ≡ n = ground (arith, hit) in inr (same, ap (λ k. t.remap k == i) same ∙ h)
  | inr miss ↦ inl (λ e. ground (arith, miss, e))
]

rebuild_mapped-cell :
    (i n s d : ℕ) (t : ColourTable)
    → (rebuild_mapped i n t).table s d
      ≡ (if ltb s n && (t.remap s == i) then cell t s d else t.table s d)
unfolding rebuild_mapped
rebuild_mapped-cell i zero s d t = ground arith
rebuild_mapped-cell i (suc n) s d t =
    let (same_remap, same_transparent) = rebuild_mapped_lem i n t in
    let at : (rebuild_mapped i n t).remap n ≡ t.remap n = ap (λ f. f n) same_remap in
    elim (Bool-cases (t.remap n == i)) [
      | inl hit ↦
          rw (at, hit)
            (ground (
              arith,
              row_cell n s d (rebuild_mapped i n t),
              rebuild_mapped-cell i n s d t,
              cell_lem t (rebuild_mapped i n t) (same_remap, same_transparent) s d,
              same_row s n i t true hit,
            ))
      | inr miss ↦
          rw (at, miss) (ground (arith, rebuild_mapped-cell i n s d t, same_row s n i t false miss))
    ]

rebuild_all-IsTable : (t : ColourTable) → IsTable (rebuild_all t)
unfolding rebuild_all lookup
rebuild_all-IsTable t = record {
  cells = λ src dst. ground (
    arith,
    rebuild_rows-cell palette_size (src % 128) (dst % 128) t,
    cell_lem t (rebuild_rows palette_size t) (rebuild_rows_lem palette_size t) (src % 128)
        (dst % 128),
  );
}

pal_map-IsTable : (from to : ℕ) (t : ColourTable) → IsTable t → IsTable (pal_map from to t)
unfolding pal_map rebuild_row lookup
pal_map-IsTable from to t v = record {
  cells = λ src dst. elim (Bool-cases (src % 128 == from % 128)) [
    | inl hit ↦ rw (hit) (ground arith)
    | inr miss ↦ rw (miss) (v.cells src dst)
  ];
}

palt-IsTable : (i : ℕ) (on : Bool) (t : ColourTable) → IsTable t → IsTable (palt i on t)
unfolding palt lookup
palt-IsTable i on t v =
    let set_to : ColourTable = record {
      table = t.table;
      remap = t.remap;
      transparent = λ c. if c == i % 128 then on else t.transparent c;
    } in
    record {
      cells = λ src dst. ground (
        arith,
        v.cells src dst,
        rebuild_mapped-cell (i % 128) palette_size (src % 128) (dst % 128) set_to,
        cell_lem set_to (rebuild_mapped (i % 128) palette_size set_to)
            (rebuild_mapped_lem (i % 128) palette_size set_to) (src % 128) (dst % 128),
      );
    }

change-IsTable : (c : Change) (t : ColourTable) → IsTable t → IsTable (change c t)
unfolding change reset clear_remap clear_transparency
change-IsTable resets t v =
    rebuild_all-IsTable (record { table = t.table; remap = λ i. i; transparent = λ i. false })
change-IsTable clears_remap t v =
    rebuild_all-IsTable (record { table = t.table; remap = λ i. i; transparent = t.transparent })
change-IsTable clears_transparency t v =
    rebuild_all-IsTable (record { table = t.table; remap = t.remap; transparent = λ c. false })
change-IsTable (maps from to) t v = pal_map-IsTable from to t v
change-IsTable (makes i on) t v = palt-IsTable i on t v

changes-IsTable : (cs : List Change) (t : ColourTable) → IsTable t → IsTable (changes cs t)
unfolding changes
changes-IsTable [] t v = v
changes-IsTable (c ∷ cs) t v = changes-IsTable cs (change c t) (change-IsTable c t v)

-- After any changes of remap and transparency, from the default table, every lookup gives the
-- destination's colour where the remapped source is transparent, and the remapped source elsewhere:
-- the rows that a change does not rebuild are right as they are.
pub changes-default-IsTable : (cs : List Change) → IsTable (changes cs default)
unfolding default reset
changes-default-IsTable cs =
    changes-IsTable cs default
      (rebuild_all-IsTable (record { table = λ s d. 0; remap = λ i. i; transparent = λ i. false }))
