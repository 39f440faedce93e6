-- ===== src/Pairing.antt =====
-- Who may deploy: the list of approved developers of crates/kuula-net/src/deploy/store.rs, and the
-- limiter of reports of crates/kuula-net/src/deploy/receiver.rs. Reading an endpoint id is the network
-- library's; the file is its text, if it is there, and a write of it goes through or fails.
pub mod Lists
pub mod Files
pub mod Limiter
pub mod Interval
mod Tests
use kuula.Prelude.{
  ℕ, zero, suc, ◌+◌, ◌-◌, ◌*◌, Bool, true, false, ◌&&◌, ◌||◌, not, Option, none, some, List, [],
  ◌∷◌, ◌++◌, map, ltb, leb, ◌==◌, length, if◌then◌else◌,
}
use kuula.Prelude.Bytes.{Bytes, codes, same_bytes, split}
use kuula.Prelude.Utf8.{is_utf8}
use kuula.Prelude.Result.{Result, ok, err}

abbrev pub max_approved : ℕ
max_approved = 32

abbrev pub max_file : ℕ
max_file = 16 * 1024

pub data StoreError : Type 0 where
  bad_id full : StoreError
  io : Bytes → StoreError

abbrev pub newline : ℕ
newline = 10

-- The iterator of `text.lines()`: a last empty piece is no line, and a carriage return before the end
-- of a line that has one is not part of it.
unfoldable pub strip_return : Bytes → Bytes
strip_return [] = []
strip_return (c ∷ []) = if c == 13 then [] else c ∷ []
strip_return (c ∷ d ∷ cs) = c ∷ strip_return (d ∷ cs)

unfoldable pub ended_lines : List Bytes → List Bytes
unfolding strip_return
ended_lines [] = []
ended_lines ([] ∷ []) = []
ended_lines ((c ∷ cs) ∷ []) = (c ∷ cs) ∷ []
ended_lines (piece ∷ next ∷ pieces) = strip_return piece ∷ ended_lines (next ∷ pieces)

unfoldable pub lines : Bytes → List Bytes
unfolding split ended_lines
lines text = ended_lines (split newline text)

unfoldable pub contains : Bytes → List Bytes → Bool
unfolding same_bytes
contains id [] = false
contains id (x ∷ xs) = same_bytes id x || contains id xs

-- `list.retain(|a| *a != id)`
unfoldable pub without : Bytes → List Bytes → List Bytes
unfolding same_bytes
without id [] = []
without id (x ∷ xs) = let rest = without id xs in if same_bytes id x then rest else x ∷ rest

-- What `write_approved` writes: the ids, each with the end of its line.
unfoldable pub text_of : List Bytes → Bytes
text_of [] = []
text_of (id ∷ ids) = id ++ newline ∷ text_of ids

-- parse_id: the id in its canonical form.
module _ (parse_id : Bytes → Option Bytes) where
  -- The loop of parse_approved.
  unfoldable pub parse_lines : List Bytes → List Bytes → List Bytes
  unfolding contains
  parse_lines [] out = out
  parse_lines (line ∷ rest) out = elim (parse_id line) [
    | none ↦ parse_lines rest out
    | some id ↦
        parse_lines rest
          (if not (contains id out) && ltb (length out) max_approved then out ++ id ∷ [] else out)
  ]

  unfoldable pub parse_approved : Bytes → List Bytes
  unfolding parse_lines lines
  parse_approved text = parse_lines (lines text) []

  -- DeployStore::approved: a file over the cap, or one that is not UTF-8, approves nobody.
  unfoldable pub approved : Option Bytes → List Bytes
  unfolding parse_approved
  approved none = []
  approved (some text) =
      if not (is_utf8 text) || ltb max_file (length text) then [] else parse_approved text

  unfoldable pub is_approved : Bytes → Option Bytes → Bool
  unfolding approved contains
  is_approved id file = contains id (approved file)

  -- `write_approved`, as the file system answers.
  unfoldable pub write_approved :
      Option Bytes → List Bytes → Option Bytes → Option Bytes × Result StoreError (Unit {0})
  unfolding text_of
  write_approved none list file = (some (text_of list), ok tt)
  write_approved (some why) list file = (file, err (io why))

  -- DeployStore::approve and DeployStore::revoke, with the answer of the file system to a write.
  unfoldable pub approve :
      Option Bytes → Bytes → Option Bytes → Option Bytes × Result StoreError Bool
  unfolding approved contains write_approved
  approve fails text file = elim (parse_id text) [
    | none ↦ (file, err bad_id)
    | some id ↦
        let list = approved file in
        if contains id list
        then (file, ok false)
        else if leb max_approved (length list)
        then (file, err full)
        else (let (file', r) = write_approved fails (list ++ id ∷ []) file in
            elim r [ err e ↦ (file', err e) | ok u ↦ (file', ok true) ])
  ]

  unfoldable pub revoke :
      Option Bytes → Bytes → Option Bytes → Option Bytes × Result StoreError Bool
  unfolding approved without write_approved
  revoke fails text file = elim (parse_id text) [
    | none ↦ (file, err bad_id)
    | some id ↦
        let list = approved file in
        let left = without id list in
        if length left == length list
        then (file, ok false)
        else (let (file', r) = write_approved fails left file in
            elim r [ err e ↦ (file', err e) | ok u ↦ (file', ok true) ])
  ]
