-- ===== src/Gfx/Resources.antt =====
-- The allocation ledger and the buffer slab: crates/kuula-core/src/resources.rs, and the sizes of a
-- buffer in crates/kuula-core/src/buf.rs. A handle is its 64 raw bits, an element of a buffer its bits;
-- the stack of free slots has its top first.
pub mod Slots
pub mod Budget
pub mod Handles
mod Tests
use kuula.Prelude.{
  ℕ, zero, suc, ◌+◌, ◌-◌, ◌*◌, ◌/◌, ◌%◌, ◌^◌, ◌≤◌, Bool, true, false, not, ◌&&◌, ◌||◌, Option, none,
  some, List, [], ◌∷◌, ◌++◌, ltb, leb, ◌==◌, length, get_elem?, set, replicate, if◌then◌else◌,
}
use kuula.Prelude.Words.{u64_max}
use kuula.Prelude.Bytes.{Bytes, same_bytes}
use kuula.Prelude.Result.{Result, ok, err, ◌>>=◌, ◌>>◌, is_ok}

abbrev pub word32 : ℕ
word32 = 2 ^ 32

abbrev pub max_buf_dim : ℕ
max_buf_dim = 4096

abbrev pub graphics_cap : ℕ
graphics_cap = 8 * 1024 * 1024

pub data BufKind : Type 0 where
  u8 i16 i32 f32 : BufKind

abbrev pub element_bytes : BufKind → ℕ
element_bytes u8 = 1
element_bytes i16 = 2
element_bytes i32 = 4
element_bytes f32 = 4

pub record MapInfo : Type 0 where
  pub rows : ℕ
  pub layers : ℕ
  pub tile_size : ℕ

pub record Buf : Type 0 where
  pub kind : BufKind
  pub width : ℕ
  pub height : ℕ
  pub cells : List ℕ
  pub map_info : Option MapInfo

-- usize::checked_mul
abbrev pub checked_mul : ℕ → ℕ → Option ℕ
checked_mul a b = if leb (a * b) u64_max then some (a * b) else none

checked_mul? : Option ℕ → ℕ → Option ℕ
checked_mul? none b = none
checked_mul? (some a) b = checked_mul a b

-- Buf::bytes_for
unfoldable pub bytes_for : BufKind → ℕ → ℕ → Option ℕ
unfolding checked_mul?
bytes_for kind width height = checked_mul? (checked_mul width height) (element_bytes kind)

-- Buf::bytes
abbrev pub bytes : Buf → ℕ
bytes b = b.width * b.height * element_bytes b.kind

-- What `Buf::new` makes once its size is known not to overflow.
abbrev pub zeroed : BufKind → ℕ → ℕ → Buf
zeroed kind width height = record {
  kind = kind;
  width = width;
  height = height;
  cells = replicate (width * height) 0;
  map_info = none;
}

pub data GfxError : Type 0 where
  budget_exceeded bad_dimensions : ℕ → ℕ → ℕ → GfxError
  buf_released buf_protected aliased : GfxError

pub record Ledger : Type 0 where
  pub used : ℕ
  pub cap : ℕ

-- Ledger::reserve: a sum past the words of the machine is refused as one past the budget is.
unfoldable pub reserve_bytes : Ledger → ℕ → Result GfxError Ledger
reserve_bytes l n =
    if leb (l.used + n) u64_max && leb (l.used + n) l.cap
    then ok (record { used = l.used + n; cap = l.cap })
    else err (budget_exceeded n l.used l.cap)

-- Ledger::release
abbrev pub release_bytes : Ledger → ℕ → Ledger
release_bytes l n = record { used = l.used - n; cap = l.cap }

-- BufId::SCREEN, BufId::new, BufId::slot, BufId::generation. The parts of a handle do not overlap while
-- a slot is below 2 ^ 32, so that joining them is a sum.
abbrev pub screen_id : ℕ
screen_id = 0

abbrev pub buf_id : ℕ → ℕ → ℕ
buf_id slot generation = generation * word32 + slot

abbrev pub slot_of : ℕ → ℕ
slot_of id = id % word32

abbrev pub generation_of : ℕ → ℕ
generation_of id = id / word32

pub record Slot : Type 0 where
  pub generation : ℕ
  pub buf : Option Buf
  pub charged : ℕ

pub record Resources : Type 0 where
  pub slots : List Slot
  pub free_slots : List ℕ
  pub ledger : Ledger
  pub names : List (Bytes × ℕ)

-- Resources::new
unfoldable pub new : ℕ → ℕ → Resources
new width height = record {
  slots = record { generation = 0; buf = some (zeroed u8 width height); charged = 0 } ∷ [];
  free_slots = [];
  ledger = record { used = 0; cap = graphics_cap };
  names = [];
}

put : List Slot → ℕ → Buf → ℕ → Option Slot → List Slot
put slots i b charged none = slots
put slots i b charged (some s) =
    set slots i (record { generation = s.generation; buf = some b; charged = charged })

generation_at : Option Slot → ℕ
generation_at none = 0
generation_at (some s) = s.generation

insert_in : Resources → Buf → ℕ → List ℕ → ℕ × Resources
unfolding put generation_at
insert_in r b charged [] = (
  buf_id (length r.slots) 0,
  record {
    slots = r.slots ++ record { generation = 0; buf = some b; charged = charged } ∷ [];
    free_slots = [];
    ledger = r.ledger;
    names = r.names;
  },
)
insert_in r b charged (i ∷ rest) = (
  buf_id i (generation_at (get_elem? r.slots i)),
  record {
    slots = put r.slots i b charged (get_elem? r.slots i);
    free_slots = rest;
    ledger = r.ledger;
    names = r.names;
  },
)

-- Resources::insert, with the handle it answers.
unfoldable pub insert : Resources → Buf → ℕ → ℕ × Resources
unfolding insert_in
insert r b charged = insert_in r b charged r.free_slots

-- Resources::insert_charged
abbrev pub insert_charged : Resources → Buf → ℕ × Resources
insert_charged r b = insert r b (bytes b)

abbrev pub with_ledger : Resources → Ledger → Resources
with_ledger r l = record { slots = r.slots; free_slots = r.free_slots; ledger = l; names = r.names }

-- Resources::reserve and Resources::unreserve
unfoldable pub reserve : Resources → ℕ → Result GfxError Resources
reserve r n = reserve_bytes r.ledger n >>= λ l. ok (with_ledger r l)

abbrev pub unreserve : Resources → ℕ → Resources
unreserve r n = with_ledger r (release_bytes r.ledger n)

alloc_bytes : Resources → BufKind → ℕ → ℕ → Option ℕ → Result GfxError (ℕ × Resources)
alloc_bytes r kind width height none = err (bad_dimensions width height max_buf_dim)
alloc_bytes r kind width height (some n) =
    reserve_bytes r.ledger n >>= λ l. ok (insert (with_ledger r l) (zeroed kind width height) n)

-- Resources::alloc
unfoldable pub alloc : Resources → BufKind → ℕ → ℕ → Result GfxError (ℕ × Resources)
unfolding alloc_bytes
alloc r kind width height =
    if (width == 0 || height == 0) || (ltb max_buf_dim width || ltb max_buf_dim height)
    then err (bad_dimensions width height max_buf_dim)
    else alloc_bytes r kind width height (bytes_for kind width height)

abbrev pub is_held : Option Buf → Bool
is_held none = false
is_held (some b) = true

-- `names.retain(|_, v| *v != id)`
unfoldable pub retain : List (Bytes × ℕ) → ℕ → List (Bytes × ℕ)
retain [] id = []
retain (n ∷ ns) id = if n.1 == id then retain ns id else n ∷ retain ns id

abbrev pub emptied : Slot → Slot
emptied s = record { generation = (s.generation + 1) % word32; buf = none; charged = 0 }

free_at : Resources → ℕ → Option Slot → Result GfxError Resources
free_at r id none = err buf_released
free_at r id (some s) =
    if s.generation == generation_of id && is_held s.buf
    then ok (record {
      slots = set r.slots (slot_of id) (emptied s);
      free_slots = slot_of id ∷ r.free_slots;
      ledger = release_bytes r.ledger s.charged;
      names = retain r.names id;
    })
    else err buf_released

-- Resources::free
unfoldable pub free : Resources → ℕ → Result GfxError Resources
unfolding free_at
free r id =
    if id == screen_id then err buf_protected else free_at r id (get_elem? r.slots (slot_of id))

held_buf : Option Buf → Result GfxError Buf
held_buf none = err buf_released
held_buf (some b) = ok b

get_at : ℕ → Option Slot → Result GfxError Buf
unfolding held_buf
get_at id none = err buf_released
get_at id (some s) = if s.generation == generation_of id then held_buf s.buf else err buf_released

-- Resources::get
unfoldable pub get : Resources → ℕ → Result GfxError Buf
unfolding get_at
get r id = get_at id (get_elem? r.slots (slot_of id))

-- Resources::is_live
unfoldable pub is_live : Resources → ℕ → Bool
is_live r id = is_ok (get r id)

-- Resources::pair_mut
unfoldable pub pair_mut : Resources → ℕ → ℕ → Result GfxError (Buf × Buf)
pair_mut r dst src = do
  d ← get r dst
  s ← get r src
  if slot_of dst == slot_of src then err aliased else ok (d, s)

named_at : Resources → Option ℕ → Option ℕ
named_at r none = none
named_at r (some id) = if is_live r id then some id else none

look_up : List (Bytes × ℕ) → Bytes → Option ℕ
look_up [] name = none
look_up (n ∷ ns) name = if same_bytes n.0 name then some n.1 else look_up ns name

-- Resources::named, and Resources::set_name, which replaces what the name stood for.
unfoldable pub named : Resources → Bytes → Option ℕ
unfolding named_at look_up
named r name = named_at r (look_up r.names name)

without : List (Bytes × ℕ) → Bytes → List (Bytes × ℕ)
without [] name = []
without (n ∷ ns) name = if same_bytes n.0 name then without ns name else n ∷ without ns name

unfoldable pub set_name : Resources → Bytes → ℕ → Resources
unfolding without
set_name r name id = record {
  slots = r.slots;
  free_slots = r.free_slots;
  ledger = r.ledger;
  names = (name, id) ∷ without r.names name;
}

-- Resources::live_count
unfoldable pub live_count : List Slot → ℕ
live_count [] = 0
live_count (s ∷ ss) = let rest = live_count ss in if is_held s.buf then suc rest else rest
