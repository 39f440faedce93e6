-- ===== src/Meter/Price.antt =====
-- The price list: `mod price` of crates/kuula-core/src/meter.rs. Every argument is a u64. `pattern`
-- computes in floating point, and is not modelled.
pub mod Shape
pub mod Laws
use kuula.Prelude.{
  ℕ, zero, suc, ◌+◌, ◌/◌, ◌*◌, ◌%◌, max, Bool, true, false, Option, none, some, List, [], ◌∷◌, ltb,
  leb, ◌==◌, if◌then◌else◌,
}
use kuula.Prelude.Words.{saturating_add, saturating_mul}
use kuula.Meter.{hook_charge}

abbrev pub cls_pixels_per_cycle : ℕ
cls_pixels_per_cycle = 64

abbrev pub pixels_per_cycle : ℕ
pixels_per_cycle = 3

abbrev pub map_cycles_per_cell : ℕ
map_cycles_per_cell = 2

unfoldable pub cls : ℕ → ℕ
cls pixels = 1 + pixels / cls_pixels_per_cycle

unfoldable pub pixels : ℕ → ℕ
pixels touched = 1 + touched / pixels_per_cycle

unfoldable pub map_price : ℕ → ℕ → ℕ
unfolding saturating_add saturating_mul pixels
map_price cells touched = saturating_add (saturating_mul cells map_cycles_per_cell) (pixels touched)

unfoldable pub text_price : ℕ → ℕ → ℕ
unfolding saturating_add
text_price chars touched = saturating_add (max chars 1) (touched / pixels_per_cycle)

unfoldable pub bytes8 : ℕ → ℕ
bytes8 bytes = 1 + bytes / 8

unfoldable pub bytes128 : ℕ → ℕ
bytes128 bytes = 1 + bytes / 128

unfoldable pub compile : ℕ → ℕ
compile bytes = 1 + bytes / 4

-- `64 - n.leading_zeros()`: the number of bits of `n`, with a round for each bit of a u64.
pub bits : ℕ → ℕ → ℕ
bits zero n = 0
bits (suc k) n = let rest = bits k (n / 2) in if n == 0 then 0 else suc rest

-- The `log` of `sort`.
pub sort_log : ℕ → ℕ
sort_log n = if leb n 1 then 0 else bits 64 n

-- The outer addition is not a saturating one: it wraps at 2 ^ 64 in a release build.
unfoldable pub sort : ℕ → ℕ
unfolding sort_log saturating_mul
sort n = (1 + saturating_mul n (sort_log n)) % 18446744073709551616

unfoldable pub coroutine : ℕ
coroutine = hook_charge
