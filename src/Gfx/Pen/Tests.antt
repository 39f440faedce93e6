-- ===== src/Gfx/Pen/Tests.antt =====
-- A table with a transparent and a remapped colour, and the theorem at it.
use kuula.Prelude.{◌≡◌, refl, true, false, none, some, List, [], ◌∷◌}
use kuula.Gfx.Pen.{Fillp, pick, Change, maps, makes, changes, default}
use kuula.Gfx.Pen.Tables.{IsTable, changes-default-IsTable}

-- A pattern of alternate pixels.
abbrev checks : Fillp
checks = record { pattern = 0x5a5a; transparent = true }

skipped : pick 1 0 checks ≡ none
unfolding pick
skipped = refl

drawn : pick 0 0 checks ≡ some false
unfolding pick
drawn = refl

abbrev some_changes : List Change
some_changes = makes 0 true ∷ maps 5 0 ∷ maps 130 7 ∷ makes 0 false ∷ []

changes-default-IsTable_example : IsTable (changes some_changes default)
changes-default-IsTable_example = changes-default-IsTable some_changes
