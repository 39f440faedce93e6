-- ===== src/Gfx/Pen.antt =====
-- Colours, fill patterns and the colour table: crates/kuula-core/src/pen.rs. An array is a function of
-- the index, which the code masks to the array's size; `c & 0x7f` is `c % 128`.
pub mod Tables
mod Tests
use kuula.Prelude.{
  ℕ, zero, suc, ◌+◌, ◌*◌, ◌/◌, ◌%◌, ◌^◌, ◌≤◌, ◌<◌, ◌≡◌, refl, ap, ◌∙◌, sym, arith, Bool, true,
  false, ◌&&◌, Option, none, some, List, [], ◌∷◌, ltb, ◌==◌, if◌then◌else◌,
}

abbrev pub palette_size : ℕ
palette_size = 128

pub record Colour : Type 0 where
  pub primary : ℕ
  pub secondary : ℕ

-- Colour::solid, and Colour::from_i64 on the two's complement of its argument.
abbrev pub solid : ℕ → Colour
solid c = record { primary = c % 128; secondary = 0 }

abbrev pub from_i64 : ℕ → Colour
from_i64 c = record { primary = c % 128; secondary = c / 2 ^ 8 % 128 }

pub record Fillp : Type 0 where
  pub pattern : ℕ
  pub transparent : Bool

-- Fillp::pick, on the two's complement of the coordinates.
unfoldable pub pick : ℕ → ℕ → Fillp → Option Bool
pick x y p =
    let bit = y % 4 * 4 + x % 4 in
    if p.pattern == 0
    then some false
    else if p.pattern / 2 ^ bit % 2 == 0
    then some false
    else if p.transparent
    then none
    else some true

pub record ColourTable : Type 0 where
  pub table : ℕ → ℕ → ℕ
  pub remap : ℕ → ℕ
  pub transparent : ℕ → Bool

-- The cell that the comment of `rebuild_row` describes.
abbrev pub cell : ColourTable → ℕ → ℕ → ℕ
cell t src dst = if t.transparent (t.remap src) then dst else t.remap src

-- ColourTable::rebuild_row
unfoldable pub rebuild_row : ℕ → ColourTable → ColourTable
rebuild_row src t = record {
  table = λ s dst. if s == src then cell t src dst else t.table s dst;
  remap = t.remap;
  transparent = t.transparent;
}

-- The rows below a bound, in order; `rebuild_all` does all of them.
unfoldable pub rebuild_rows : ℕ → ColourTable → ColourTable
rebuild_rows zero t = t
rebuild_rows (suc n) t = rebuild_row n (rebuild_rows n t)

-- ColourTable::rebuild_all
unfoldable pub rebuild_all : ColourTable → ColourTable
rebuild_all t = rebuild_rows palette_size t

-- ColourTable::reset, from any table; `default` starts from zeros.
unfoldable pub reset : ColourTable → ColourTable
reset t = rebuild_all (record { table = t.table; remap = λ i. i; transparent = λ i. false })

unfoldable pub default : ColourTable
default = reset (record { table = λ s d. 0; remap = λ i. 0; transparent = λ i. false })

-- ColourTable::pal_map
unfoldable pub pal_map : ℕ → ℕ → ColourTable → ColourTable
pal_map from to t = rebuild_row (from % 128) (record {
  table = t.table;
  remap = λ i. if i == from % 128 then to % 128 else t.remap i;
  transparent = t.transparent;
})

-- ColourTable::clear_remap
unfoldable pub clear_remap : ColourTable → ColourTable
clear_remap t =
    rebuild_all (record { table = t.table; remap = λ i. i; transparent = t.transparent })

-- The loop of `palt`: the rows below a bound whose remap lands on a colour.
unfoldable pub rebuild_mapped : ℕ → ℕ → ColourTable → ColourTable
rebuild_mapped i zero t = t
rebuild_mapped i (suc n) t =
    let t' = rebuild_mapped i n t in if t'.remap n == i then rebuild_row n t' else t'

-- ColourTable::palt
unfoldable pub palt : ℕ → Bool → ColourTable → ColourTable
palt i on t = rebuild_mapped (i % 128) palette_size (record {
  table = t.table;
  remap = t.remap;
  transparent = λ c. if c == i % 128 then on else t.transparent c;
})

-- ColourTable::clear_transparency
unfoldable pub clear_transparency : ColourTable → ColourTable
clear_transparency t =
    rebuild_all (record { table = t.table; remap = t.remap; transparent = λ c. false })

-- ColourTable::lookup
unfoldable pub lookup : ColourTable → ℕ → ℕ → ℕ
lookup t src dst = t.table (src % 128) (dst % 128)

-- What the API does to the table.
pub data Change : Type 0 where
  resets clears_remap clears_transparency : Change
  maps : ℕ → ℕ → Change
  makes : ℕ → Bool → Change

unfoldable pub change : Change → ColourTable → ColourTable
change resets t = reset t
change clears_remap t = clear_remap t
change clears_transparency t = clear_transparency t
change (maps from to) t = pal_map from to t
change (makes i on) t = palt i on t

unfoldable pub changes : List Change → ColourTable → ColourTable
changes [] t = t
changes (c ∷ cs) t = changes cs (change c t)
