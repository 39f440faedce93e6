-- ===== src/Gfx/Resources/Tests.antt =====
-- A slab of a small screen with one buffer, and the theorems at it.
use kuula.Prelude.{ℕ, ◌≡◌, ◌≢◌, ◌<◌, refl, arith, none, some, [], ◌∷◌, length}
use kuula.Prelude.Result.{ok, err, ◌>>=◌}
use kuula.Gfx.Resources.{
  u8, i16, Slot, Resources, bad_dimensions, buf_protected, buf_released, new, alloc, free, retain,
  get, insert, reserve_bytes, zeroed, word32, screen_id, bytes_for, buf_id, graphics_cap,
}
use kuula.Gfx.Resources.Slots.{IsFreeList, total_charged}
use kuula.Gfx.Resources.Budget.{IsSlab, IsFreed, alloc-IsSlab, free-IsSlab}
use kuula.Gfx.Resources.Handles.{alloc-fresh, alloc-others, free-ends, free-others}

abbrev start : Resources
start = new 2 2

abbrev tile : Slot
tile = record { generation = 0; buf = some (zeroed i16 3 2); charged = 12 }

abbrev one_tile : Resources
one_tile = record {
  slots = record { generation = 0; buf = some (zeroed u8 2 2); charged = 0 } ∷ tile ∷ [];
  free_slots = [];
  ledger = record { used = 12; cap = graphics_cap };
  names = [];
}

abbrev freed : Resources
freed = record {
  slots =
      record { generation = 0; buf = some (zeroed u8 2 2); charged = 0 }
      ∷ record { generation = 1; buf = none; charged = 0 }
      ∷ [];
  free_slots = 1 ∷ [];
  ledger = record { used = 0; cap = graphics_cap };
  names = [];
}

allocated : alloc start i16 3 2 ≡ ok (1, one_tile)
unfolding alloc bytes_for new insert reserve_bytes
allocated = refl

released : free one_tile 1 ≡ ok freed
unfolding free retain
released = refl

-- The slot is used again, and the handle is another.
reused : (alloc freed u8 1 1 >>= λ made. ok made.0) ≡ ok (buf_id 1 1)
unfolding alloc bytes_for insert reserve_bytes
reused = refl

too_wide : alloc start u8 4097 1 ≡ err (bad_dimensions 4097 1 4096)
unfolding alloc
too_wide = refl

screen_stays : free one_tile 0 ≡ err buf_protected
unfolding free
screen_stays = refl

start-IsSlab : IsSlab 0 start
unfolding new total_charged IsFreeList
start-IsSlab = record {
  screen =
      (record { generation = 0; buf = some (zeroed u8 2 2); charged = 0 }, refl, refl, refl, refl);
  free_list = tt;
  balance = refl;
  within = omega arith;
}

start_small : length start.slots < word32
unfolding new
start_small = omega arith

alloc-IsSlab_example : IsSlab 0 one_tile
alloc-IsSlab_example = alloc-IsSlab start one_tile i16 3 2 0 1 start-IsSlab allocated

one_tile-IsSlab : IsSlab 0 one_tile
one_tile-IsSlab = alloc-IsSlab start one_tile i16 3 2 0 1 start-IsSlab allocated

free-IsSlab_example : IsSlab 0 freed × IsFreed one_tile freed 1
free-IsSlab_example = free-IsSlab one_tile freed 0 1 one_tile-IsSlab released

alloc-fresh_example : (get one_tile 1 ≡ ok (zeroed i16 3 2)) × (get start 1 ≡ err buf_released)
alloc-fresh_example = alloc-fresh start one_tile i16 3 2 0 1 start-IsSlab start_small allocated

zero_ne_one : (a : ℕ) → a ≡ 0 → a ≢ 1
zero_ne_one a h = λ e. omega (arith, h, e)

alloc-others_example : get one_tile 0 ≡ get start 0
alloc-others_example =
    alloc-others start one_tile i16 3 2 0 1 0 start-IsSlab start_small allocated
      (zero_ne_one 0 refl)

free-ends_example : (1 ≢ screen_id) × (get freed 1 ≡ err buf_released)
free-ends_example = free-ends one_tile freed 1 released

free-others_example : get freed 0 ≡ get one_tile 0
free-others_example = free-others one_tile freed 1 0 released (zero_ne_one 0 refl)
