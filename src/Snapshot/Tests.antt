-- ===== src/Snapshot/Tests.antt =====
-- A snapshot of two files.
use kuula.Prelude.{◌≡◌, ◌<◌, refl, List, [], ◌∷◌, arith}
use kuula.Prelude.Bytes.{Bytes, codes, same_bytes, split, onto_first}
use kuula.Prelude.Result.{ok}
use kuula.Prelude.Words.{u64_max, saturating_add}
use kuula.Snapshot.{
  Snapshot, default_limits, from_entries, add_all, add, name_problem, starts_with, pieces_problem,
  piece_problem, ends_in, char_problem, any_same, lower, stem,
}
use kuula.Snapshot.Limits.{IsWithin, from_entries-IsWithin}

abbrev entries : List (Bytes × Bytes)
entries = (codes "main.lua", 1 ∷ 2 ∷ []) ∷ (codes "gfx/a.png", 3 ∷ []) ∷ []

abbrev snap : Snapshot
snap = record { files = entries; total_bytes = 3 }

built : from_entries entries default_limits ≡ ok snap
unfolding from_entries add_all add name_problem starts_with split onto_first pieces_problem
    piece_problem ends_in char_problem any_same lower stem same_bytes saturating_add
built = refl

headroom : default_limits.max_total_bytes < u64_max
headroom = omega arith

from_entries-IsWithin_example : IsWithin default_limits snap
from_entries-IsWithin_example = from_entries-IsWithin default_limits headroom entries snap built
