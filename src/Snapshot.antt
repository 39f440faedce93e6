-- ===== src/Snapshot.antt =====
-- The snapshot of a cart, crates/kuula-core/src/snapshot.rs: the names that it serves, the rules for
-- names, and building it within its limits. A `String` is its bytes; the map of files is a list of
-- pairs, in the order of insertion, and the set of folded names is a list.
pub mod Limits
mod Tests
use kuula.Prelude.{
  ℕ, zero, suc, ◌+◌, ◌*◌, Bool, true, false, ◌&&◌, ◌||◌, not, Option, none, some, List, [], ◌∷◌,
  ◌++◌, ltb, leb, length, ◌==◌, if◌then◌else◌,
}
use kuula.Prelude.Bytes.{Bytes, codes, same_bytes, split}
use kuula.Prelude.Result.{Result, ok, err}
use kuula.Prelude.Words.{saturating_add}

pub record SnapshotLimits : Type 0 where
  pub max_files : ℕ
  pub max_file_bytes : ℕ
  pub max_total_bytes : ℕ

abbrev pub default_limits : SnapshotLimits
default_limits = record {
  max_files = 4096;
  max_file_bytes = 16 * 1024 * 1024;
  max_total_bytes = 64 * 1024 * 1024;
}

pub record Snapshot : Type 0 where
  pub files : List (Bytes × Bytes)
  pub total_bytes : ℕ

abbrev slash : ℕ
slash = 47

abbrev dot : ℕ
dot = 46

abbrev blank : ℕ
blank = 32

-- `strip_prefix`, `ends_with`, `starts_with` and `contains` on strings.
unfoldable pub strip_prefix : Bytes → Bytes → Option Bytes
strip_prefix [] name = some name
strip_prefix (p ∷ ps) [] = none
strip_prefix (p ∷ ps) (c ∷ cs) = let rest = strip_prefix ps cs in if p == c then rest else none

unfoldable pub ends_with : Bytes → Bytes → Bool
unfolding same_bytes
ends_with suffix [] = same_bytes suffix []
ends_with suffix (c ∷ cs) = same_bytes suffix (c ∷ cs) || ends_with suffix cs

unfoldable pub contains : ℕ → Bytes → Bool
contains b [] = false
contains b (c ∷ cs) = b == c || contains b cs

unfoldable pub starts_with : ℕ → Bytes → Bool
starts_with b [] = false
starts_with b (c ∷ cs) = b == c

unfoldable pub ends_in : ℕ → Bytes → Bool
ends_in b [] = false
ends_in b (c ∷ []) = b == c
ends_in b (c ∷ d ∷ cs) = ends_in b (d ∷ cs)

-- The first answer that there is.
abbrev or_else {ℓ} : {A : Type ℓ} → Option A → Option A → Option A
or_else none b = b
or_else (some a) b = some a

-- A file of one extension directly in a folder.
unfoldable pub flat : Bytes → Bytes → Bool
unfolding ends_with contains
flat extension rest = ends_with extension rest && not (contains slash rest)

unfoldable pub is_served : Bytes → Bool
unfolding same_bytes strip_prefix ends_with flat
is_served name =
    if same_bytes name (codes "main.lua") || same_bytes name (codes "cart.toml")
    then true
    else elim (strip_prefix (codes "src/") name) [
      | some rest ↦ ends_with (codes ".lua") rest
      | none ↦ elim (strip_prefix (codes "gfx/") name) [
        | some rest ↦ flat (codes ".png") rest
        | none ↦ elim (strip_prefix (codes "map/") name) [
          | some rest ↦ flat (codes ".json") rest
          | none ↦
              elim (or_else (strip_prefix (codes "sfx/") name) (
                or_else (strip_prefix (codes "music/") name) (strip_prefix (codes "cues/") name))) [
                  | some rest ↦ flat (codes ".omc") rest
                  | none ↦ elim (strip_prefix (codes "samples/") name) [
                    | some rest ↦ flat (codes ".wav") rest
                    | none ↦ false
                  ]
                ]
        ]
      ]
    ]

-- Why a name is not portable, in the order in which it is checked.
pub data NameProblem : Type 0 where
  empty_name too_long absolute empty_component dots ends_badly starts_badly control_character :
      NameProblem
  bad_character reserved : NameProblem

abbrev reserved_names : List Bytes
reserved_names =
    codes "con"
    ∷ codes "prn"
    ∷ codes "aux"
    ∷ codes "nul"
    ∷ codes "com1"
    ∷ codes "com2"
    ∷ codes "com3"
    ∷ codes "com4"
    ∷ codes "com5"
    ∷ codes "com6"
    ∷ codes "com7"
    ∷ codes "com8"
    ∷ codes "com9"
    ∷ codes "lpt1"
    ∷ codes "lpt2"
    ∷ codes "lpt3"
    ∷ codes "lpt4"
    ∷ codes "lpt5"
    ∷ codes "lpt6"
    ∷ codes "lpt7"
    ∷ codes "lpt8"
    ∷ codes "lpt9"
    ∷ []

-- `to_ascii_lowercase`
unfoldable pub lower : Bytes → Bytes
lower [] = []
lower (c ∷ cs) = (if leb 65 c && leb c 90 then c + 32 else c) ∷ lower cs

unfoldable pub any_same : Bytes → List Bytes → Bool
unfolding same_bytes
any_same name [] = false
any_same name (n ∷ names) = same_bytes name n || any_same name names

-- `split('.').next()`
unfoldable pub stem : Bytes → Bytes
stem [] = []
stem (c ∷ cs) = let rest = stem cs in if c == dot then [] else c ∷ rest

-- \ : * ? " < > |
abbrev is_banned : ℕ → Bool
is_banned c = c == 92 || c == 58 || c == 42 || c == 63 || c == 34 || c == 60 || c == 62 || c == 124

-- The loop over the characters: a control character is below U+0020, U+007F, or U+0080 to U+009F,
-- which are two bytes.
unfoldable pub char_problem : Bytes → Option NameProblem
char_problem [] = none
char_problem (c ∷ []) =
    if ltb c 32 || c == 127
    then some control_character
    else if is_banned c
    then some bad_character
    else none
char_problem (c ∷ d ∷ cs) =
    let rest = char_problem (d ∷ cs) in
    if ltb c 32 || c == 127 || (c == 0xc2 && leb 0x80 d && leb d 0x9f)
    then some control_character
    else if is_banned c
    then some bad_character
    else rest

unfoldable pub piece_problem : Bytes → Option NameProblem
unfolding same_bytes ends_in starts_with char_problem any_same lower stem
piece_problem piece =
    if length piece == 0
    then some empty_component
    else if same_bytes piece (codes ".") || same_bytes piece (codes "..")
    then some dots
    else if ends_in dot piece || ends_in blank piece
    then some ends_badly
    else if starts_with blank piece
    then some starts_badly
    else or_else (char_problem piece)
        (if any_same (lower (stem piece)) reserved_names then some reserved else none)

unfoldable pub pieces_problem : List Bytes → Option NameProblem
unfolding piece_problem
pieces_problem [] = none
pieces_problem (piece ∷ pieces) = or_else (piece_problem piece) (pieces_problem pieces)

unfoldable pub name_problem : Bytes → Option NameProblem
unfolding starts_with split pieces_problem
name_problem name =
    if length name == 0
    then some empty_name
    else if ltb 255 (length name)
    then some too_long
    else if starts_with slash name
    then some absolute
    else pieces_problem (split slash name)

-- A SourceError of `add`, with what its text is formatted from.
pub data AddError : Type 0 where
  invalid : Bytes → NameProblem → AddError
  collides : Bytes → AddError
  too_many too_large cart_too_large : Bytes → ℕ → AddError

-- Snapshot::add, with the set of folded names.
unfoldable pub add :
    Bytes → Bytes → SnapshotLimits → Snapshot × List Bytes → Result AddError (Snapshot × List Bytes)
unfolding name_problem lower any_same saturating_add
add name bytes limits (snap, folded) = elim (name_problem name) [
  | some why ↦ err (invalid name why)
  | none ↦
      if any_same (lower name) folded
      then err (collides name)
      else if leb limits.max_files (length snap.files)
      then err (too_many name limits.max_files)
      else if ltb limits.max_file_bytes (length bytes)
      then err (too_large name limits.max_file_bytes)
      else if ltb limits.max_total_bytes (saturating_add snap.total_bytes (length bytes))
      then err (cart_too_large name limits.max_total_bytes)
      else ok (
        record {
          files = snap.files ++ (name, bytes) ∷ [];
          total_bytes = saturating_add snap.total_bytes (length bytes);
        },
        lower name ∷ folded,
      )
]

abbrev empty : Snapshot
empty = record { files = []; total_bytes = 0 }

unfoldable pub add_all :
    List (Bytes × Bytes)
    → SnapshotLimits
    → Snapshot × List Bytes
    → Result AddError (Snapshot × List Bytes)
unfolding add
add_all [] limits s = ok s
add_all ((name, bytes) ∷ entries) limits s = elim (add name bytes limits s) [
  | err e ↦ err e
  | ok s' ↦ add_all entries limits s'
]

-- Snapshot::from_entries
unfoldable pub from_entries : List (Bytes × Bytes) → SnapshotLimits → Result AddError Snapshot
unfolding add_all
from_entries entries limits = elim (add_all entries limits (empty, [])) [
  | err e ↦ err e
  | ok s ↦ ok s.0
]

-- Snapshot::get, and the names that a directory is searched for.
unfoldable pub find : Bytes → List (Bytes × Bytes) → Option Bytes
unfolding same_bytes
find name [] = none
find name ((n, bytes) ∷ files) =
    let rest = find name files in if same_bytes name n then some bytes else rest

unfoldable pub get : Bytes → Snapshot → Option Bytes
unfolding find
get name snap = find name snap.files

unfoldable pub could_serve_under : Bytes → Bool
unfolding same_bytes strip_prefix any_same
could_serve_under dir =
    same_bytes dir (codes "src")
    || elim (strip_prefix (codes "src/") dir) [ none ↦ false | some rest ↦ true ]
    || any_same dir (
        codes "gfx"
        ∷ codes "map"
        ∷ codes "sfx"
        ∷ codes "music"
        ∷ codes "cues"
        ∷ codes "samples"
        ∷ [])
