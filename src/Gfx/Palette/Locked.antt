-- ===== src/Gfx/Palette/Locked.antt =====
-- The system's colours stay, whatever is done to a palette: crates/kuula-core/src/palette.rs.
use kuula.Prelude.{
  ℕ, zero, suc, ◌≤◌, ◌≡◌, refl, ap, ◌∙◌, arith, List, [], ◌∷◌, take, drop, length, length-set,
  length-append, length-drop, take-append, set, leb, ltb, Bool-cases, inl, inr, All,
}
use kuula.Gfx.Pen.{palette_size}
use kuula.Gfx.Palette.{
  Rgb, Palette, Edit, puts, adopts, edit, edit_all, put, set_cart_entries, new, default_palette,
  shades, system_palette, system_colours,
}

-- A palette of 128 colours that begins with the system's.
pub record IsPalette (p : Palette) : Type 0 where
  pub count : length p.entries ≡ palette_size
  pub system : take system_colours p.entries ≡ system_palette

-- An array that is handed over has 128 colours.
abbrev pub IsEdit : Edit → Type 0
IsEdit (puts index colour) = Unit
IsEdit (adopts given) = length given ≡ palette_size

-- A colour past a bound does not change what is below it.
take-set : (n i : ℕ) (xs : List Rgb) (c : Rgb) → n ≤ i → take n (set xs i c) ≡ take n xs
take-set zero i xs c l = refl
take-set (suc n) i [] c l = refl
take-set (suc n) zero (x ∷ xs) c l = absurd (omega (arith, l))
take-set (suc n) (suc i) (x ∷ xs) c l = ap (λ ys. x ∷ ys) (take-set n i xs c (omega (arith, l)))

put-IsPalette : (i : ℕ) (c : Rgb) (p : Palette) → IsPalette p → IsPalette (edit (puts i c) p)
unfolding edit put
put-IsPalette i c p v = elim (Bool-cases (leb palette_size i)) [
  | inl far ↦ rw (edit, put, far) v
  | inr near ↦ elim (Bool-cases (ltb i system_colours)) [
    | inl low ↦ rw (edit, put, near, low) v
    | inr high ↦
        rw (edit, put, near, high)
          (record {
            count = length-set p.entries i c ∙ v.count;
            system = take-set system_colours i p.entries c (ground (arith, high)) ∙ v.system;
          })
  ]
]

adopt-IsPalette :
    (given : List Rgb) (p : Palette)
    → length given ≡ palette_size
    → IsPalette p
    → IsPalette (edit (adopts given) p)
unfolding edit set_cart_entries
adopt-IsPalette given p g v =
    let front = take system_colours p.entries in
    let n : length front ≡ system_colours = ap length v.system in
    record {
      count = omega (
        arith,
        length-append front (drop system_colours given),
        n,
        length-drop system_colours given,
        g,
      );
      system = take-append system_colours front (drop system_colours given) n ∙ v.system;
    }

edit-IsPalette : (e : Edit) (p : Palette) → IsEdit e → IsPalette p → IsPalette (edit e p)
edit-IsPalette (puts i c) p h v = put-IsPalette i c p v
edit-IsPalette (adopts given) p h v = adopt-IsPalette given p h v

-- Whatever a palette is given to hold and whatever is set in it, from a palette in order: it keeps 128
-- colours, and the first 16 are the system's.
pub edit_all-IsPalette :
    (es : List Edit) (p : Palette) → All IsEdit es → IsPalette p → IsPalette (edit_all es p)
unfolding edit_all
edit_all-IsPalette [] p h v = v
edit_all-IsPalette (e ∷ es) p h v = edit_all-IsPalette es (edit e p) h.1 (edit-IsPalette e p h.0 v)

pub new-IsPalette : IsPalette new
unfolding new default_palette shades
new-IsPalette = record { count = refl; system = refl }
