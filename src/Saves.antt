-- ===== src/Saves.antt =====
-- The save slots of crates/kuula-core/src/save.rs: the store in memory, and the store that writes
-- through to a disk. The disk is any `SaveStore` over a world of its own.
pub mod Through
pub mod Slots
mod Tests
use kuula.Prelude.{
  ℕ, zero, suc, ◌+◌, ◌*◌, Bool, true, false, ◌&&◌, ◌||◌, Option, none, some, List, [], ◌∷◌, ◌++◌,
  ltb, leb, length, get_or, set, drop, replicate, ◌==◌, if◌then◌else◌,
}
use kuula.Prelude.Bytes.{Bytes}
use kuula.Prelude.Result.{Result, ok, err, ◌>>=◌, ◌>>◌}

abbrev pub slot_count : ℕ
slot_count = 8

abbrev pub slot_bytes : ℕ
slot_bytes = 256 * 1024

-- A SaveError, with what its text is formatted from; `io` is one of a disk.
pub data SaveError : Type 0 where
  bad_slot bad_size not_read : ℕ → SaveError
  io : Bytes → SaveError

unfoldable pub check_slot : ℕ → Result SaveError (Unit {0})
check_slot slot = if ltb slot slot_count then ok tt else err (bad_slot slot)

unfoldable pub check_size : ℕ → Result SaveError (Unit {0})
check_size len = if leb len slot_bytes then ok tt else err (bad_size len)

-- The trait's two calls, over what the store keeps.
pub record SaveStore : Type 1 where
  pub World : Type 0
  pub read : ℕ → World → World × Result SaveError (Option Bytes)
  pub write : ℕ → Bytes → World → World × Result SaveError (Unit {0})

pub record MemoryStore : Type 0 where
  pub slots : List (Option Bytes)

-- MemoryStore::new
unfoldable pub empty : MemoryStore
empty = record { slots = replicate slot_count none }

unfoldable pub read : ℕ → MemoryStore → MemoryStore × Result SaveError (Option Bytes)
unfolding check_slot
read slot m = elim (check_slot slot) [
  | err e ↦ (m, err e)
  | ok u ↦ (m, ok (get_or m.slots slot none))
]

unfoldable pub write : ℕ → Bytes → MemoryStore → MemoryStore × Result SaveError (Unit {0})
unfolding check_slot check_size
write slot bytes m = elim (check_slot slot >> check_size (length bytes)) [
  | err e ↦ (m, err e)
  | ok u ↦ (record { slots = set m.slots slot (some bytes) }, ok tt)
]

-- `impl SaveStore for MemoryStore`
abbrev pub memory_store : SaveStore
memory_store = record { World = MemoryStore; read = read; write = write }

-- The loop of MemoryStore::from_slots.
unfoldable pub write_all : List (ℕ × Bytes) → MemoryStore → Result SaveError MemoryStore
unfolding write
write_all [] m = ok m
write_all ((slot, bytes) ∷ rest) m =
    let (m', r) = write slot bytes m in elim r [ err e ↦ err e | ok u ↦ write_all rest m' ]

unfoldable pub from_slots : List (ℕ × Bytes) → Result SaveError MemoryStore
unfolding write_all empty
from_slots slots = write_all slots empty

-- SaveStore::all_slots of the store in memory, from a slot on.
unfoldable pub slots_from : ℕ → List (Option Bytes) → List (ℕ × Bytes)
slots_from slot [] = []
slots_from slot (none ∷ rest) = slots_from (slot + 1) rest
slots_from slot (some b ∷ rest) = (slot, b) ∷ slots_from (slot + 1) rest

unfoldable pub all_slots : MemoryStore → List (ℕ × Bytes)
unfolding slots_from
all_slots m = slots_from 0 m.slots

abbrev pub max_kept_failures : ℕ
max_kept_failures = 16

module _ (disk : SaveStore) where
  pub record WriteThroughStore : Type 0 where
    pub memory : MemoryStore
    pub world : disk.World
    pub failures : List SaveError
    pub unreadable : List Bool

module _ {disk : SaveStore} where
  -- One slot of the loop of `new`.
  unfoldable pub seed : ℕ → WriteThroughStore disk → WriteThroughStore disk
  seed slot s =
      let (world, got) = disk.read slot s.world in
      elim got [
        | err e ↦ record s {
          world = world;
          failures = s.failures ++ e ∷ [];
          unreadable = set s.unreadable slot true;
        }
        | ok none ↦ record s { world = world }
        | ok (some bytes) ↦
            let memory = s.memory in
            record s {
              world = world;
              memory = record { slots = set memory.slots slot (some bytes) };
            }
      ]

  -- The slots from one on, as many as are left.
  unfoldable pub seed_all : ℕ → ℕ → WriteThroughStore disk → WriteThroughStore disk
  unfolding seed
  seed_all zero slot s = s
  seed_all (suc left) slot s = seed_all left (slot + 1) (seed slot s)

  -- WriteThroughStore::new, before its loop and after it.
  unfoldable pub blank : disk.World → WriteThroughStore disk
  unfolding empty
  blank world = record {
    memory = empty;
    world = world;
    failures = [];
    unreadable = replicate slot_count false;
  }

  unfoldable pub new : disk.World → WriteThroughStore disk
  unfolding seed_all blank
  new world = seed_all slot_count 0 (blank world)

  unfoldable pub keep_failure : SaveError → WriteThroughStore disk → WriteThroughStore disk
  keep_failure e s =
      let kept =
        if leb max_kept_failures (length s.failures) then drop 1 s.failures else s.failures in
      record s { failures = kept ++ e ∷ [] }

  unfoldable pub read_through :
      ℕ → WriteThroughStore disk → WriteThroughStore disk × Result SaveError (Option Bytes)
  unfolding read
  read_through slot s = let (m, r) = read slot s.memory in (record s { memory = m }, r)

  -- The write to the disk, and what becomes of its failure.
  unfoldable pub forward : ℕ → Bytes → WriteThroughStore disk → WriteThroughStore disk
  unfolding keep_failure
  forward slot bytes s =
      if get_or s.unreadable slot false
      then keep_failure (not_read slot) s
      else (let (world, r) = disk.write slot bytes s.world in
          let s' : WriteThroughStore disk = record s { world = world } in
          elim r [ ok u ↦ s' | err e ↦ keep_failure e s' ])

  unfoldable pub write_through :
      ℕ → Bytes → WriteThroughStore disk → WriteThroughStore disk × Result SaveError (Unit {0})
  unfolding write forward
  write_through slot bytes s =
      let (m, r) = write slot bytes s.memory in
      let s' : WriteThroughStore disk = record s { memory = m } in
      elim r [ err e ↦ (s', err e) | ok u ↦ (forward slot bytes s', ok tt) ]

  unfoldable pub take_failures : WriteThroughStore disk → WriteThroughStore disk × List SaveError
  take_failures s = (record s { failures = [] }, s.failures)

-- valid_identity
abbrev identity_byte : ℕ → Bool
identity_byte c = (leb 97 c && leb c 122) || (leb 48 c && leb c 57) || c == 95 || c == 45

unfoldable pub all_identity : Bytes → Bool
all_identity [] = true
all_identity (c ∷ cs) = identity_byte c && all_identity cs

unfoldable pub valid_identity : Bytes → Bool
unfolding all_identity
valid_identity identity =
    (if length identity == 0 then false else true)
    && leb (length identity) 64
    && all_identity identity
