-- ===== src/Gfx/Palette/Tests.antt =====
-- A cart that sets a colour of its own and one of the system's.
use kuula.Prelude.{List, [], ◌∷◌, ◌≡◌, refl}
use kuula.Gfx.Palette.{Rgb, Edit, puts, edit_all, edit, put, new, get, default_palette, shades}
use kuula.Gfx.Palette.Locked.{IsPalette, edit_all-IsPalette, new-IsPalette}

abbrev white : Rgb
white = record { red = 255; green = 255; blue = 255 }

abbrev art : List Edit
art = puts 20 white ∷ puts 3 white ∷ puts 128 white ∷ []

painted : get 148 (edit_all art new) ≡ white
unfolding edit_all edit put new default_palette shades get
painted = refl

edit_all-IsPalette_example : IsPalette (edit_all art new)
edit_all-IsPalette_example = edit_all-IsPalette art new (tt, (tt, (tt, tt))) new-IsPalette
