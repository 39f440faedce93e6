-- ===== src/Gfx/Palette.antt =====
-- The palette of crates/kuula-core/src/palette.rs: 128 colours, of which the first 16 are the system's
-- and stay. An index is a `usize`, and an array is a list of its length.
pub mod Locked
mod Tests
use kuula.Prelude.{
  ℕ, zero, suc, ◌+◌, ◌*◌, ◌/◌, ◌%◌, ◌-◌, List, [], ◌∷◌, ◌++◌, take, drop, get_or, set, leb, ltb,
  Bool, if◌then◌else◌,
}
use kuula.Prelude.Result.{Result, ok, err}
use kuula.Gfx.Pen.{palette_size}

pub record Rgb : Type 0 where
  pub red : ℕ
  pub green : ℕ
  pub blue : ℕ

abbrev pub system_colours : ℕ
system_colours = 16

abbrev rgb : ℕ → ℕ → ℕ → Rgb
rgb r g b = record { red = r; green = g; blue = b }

abbrev pub system_palette : List Rgb
system_palette =
    rgb 0 0 0
    ∷ rgb 29 43 83
    ∷ rgb 126 37 83
    ∷ rgb 0 135 81
    ∷ rgb 171 82 54
    ∷ rgb 95 87 79
    ∷ rgb 194 195 199
    ∷ rgb 255 241 232
    ∷ rgb 255 0 77
    ∷ rgb 255 163 0
    ∷ rgb 255 236 39
    ∷ rgb 0 228 54
    ∷ rgb 41 173 255
    ∷ rgb 131 118 156
    ∷ rgb 255 119 168
    ∷ rgb 255 204 170
    ∷ []

-- The second loop of `build_default_palette`, from `n` on and for `k` more colours.
unfoldable pub shades : ℕ → ℕ → List Rgb
shades zero n = []
shades (suc k) n = rgb (n % 4 * 85) (n / 4 % 4 * 85) (n / 16 % 7 * 42) ∷ shades k (n + 1)

unfoldable pub default_palette : List Rgb
unfolding shades
default_palette = system_palette ++ shades (palette_size - system_colours) 0

pub data PaletteError : Type 0 where
  out_of_range : ℕ → PaletteError
  locked : ℕ → PaletteError

pub record Palette : Type 0 where
  pub entries : List Rgb

unfoldable pub new : Palette
unfolding default_palette
new = record { entries = default_palette }

-- Palette::get, whose index is cut to seven bits.
unfoldable pub get : ℕ → Palette → Rgb
get index p = get_or p.entries (index % 128) (rgb 0 0 0)

-- Palette::set
unfoldable pub put : ℕ → Rgb → Palette → Result PaletteError Palette
put index colour p =
    if leb palette_size index
    then err (out_of_range index)
    else if ltb index system_colours
    then err (locked index)
    else ok (record { entries = set p.entries index colour })

unfoldable pub set_cart_entries : List Rgb → Palette → Palette
set_cart_entries given p = record {
  entries = take system_colours p.entries ++ drop system_colours given;
}

-- What a cart and its start do with the palette; a call that fails leaves it.
pub data Edit : Type 0 where
  puts : ℕ → Rgb → Edit
  adopts : List Rgb → Edit

unfoldable pub edit : Edit → Palette → Palette
unfolding put set_cart_entries
edit (puts index colour) p = elim (put index colour p) [ err e ↦ p | ok q ↦ q ]
edit (adopts given) p = set_cart_entries given p

unfoldable pub edit_all : List Edit → Palette → Palette
unfolding edit
edit_all [] p = p
edit_all (e ∷ es) p = edit_all es (edit e p)
