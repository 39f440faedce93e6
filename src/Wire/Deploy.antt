-- ===== src/Wire/Deploy.antt =====
-- The deploy protocol: crates/kuula-net/src/deploy/wire.rs, and the reading of an offer in
-- crates/kuula-net/src/deploy/receiver.rs. The texts of refusals are what they are formatted from.
pub mod Offers
pub mod Results
pub mod Codes
mod Tests
use kuula.Prelude.{
  ℕ, zero, suc, ◌+◌, ◌-◌, ◌*◌, ◌≤◌, min, Bool, true, false, ◌&&◌, ◌||◌, Option, none, some, List,
  [], ◌∷◌, ◌++◌, ltb, leb, ◌==◌, length, get_or, take, drop, if◌then◌else◌,
}
use kuula.Prelude.Bytes.{Bytes, codes, be_bytes, from_be, same_bytes}
use kuula.Prelude.Utf8.{from_utf8, floor_char_boundary}
use kuula.Prelude.Result.{Result, ok, err, ◌>>=◌, ◌>>◌}
use kuula.Wire.Play.{End, read_exact}

abbrev pub magic : Bytes
magic = codes "KUUD"

abbrev pub version : ℕ
version = 1

abbrev pub min_name : ℕ
min_name = 1

abbrev pub max_name : ℕ
max_name = 32

abbrev pub max_package : ℕ
max_package = 64 * 1024 * 1024

abbrev pub max_detail : ℕ
max_detail = 512

pub data DeployCode : Type 0 where
  ok_code unpaired busy offer too_large digest invalid interrupted install cancelled : DeployCode

abbrev pub all_codes : List DeployCode
all_codes =
    ok_code ∷ unpaired ∷ busy ∷ offer ∷ too_large ∷ digest ∷ invalid ∷ interrupted ∷ install
    ∷ cancelled ∷ []

unfoldable pub status : DeployCode → Option ℕ
status ok_code = some 0
status offer = some 1
status too_large = some 2
status digest = some 3
status invalid = some 4
status interrupted = some 5
status install = some 6
status cancelled = some 7
status unpaired = none
status busy = none

is_some_of : Option ℕ → ℕ → Bool
is_some_of none byte = false
is_some_of (some n) byte = n == byte

find_code : List DeployCode → ℕ → Option DeployCode
unfolding is_some_of
find_code [] byte = none
find_code (c ∷ codes) byte = if is_some_of (status c) byte then some c else find_code codes byte

-- DeployCode::from_status
unfoldable pub from_status : ℕ → Option DeployCode
unfolding find_code status
from_status byte = find_code all_codes byte

pub data Restart : Type 0 where
  started faulted not_run timeout : Restart

unfoldable pub restart_byte : Restart → ℕ
restart_byte started = 0
restart_byte faulted = 1
restart_byte not_run = 2
restart_byte timeout = 3

find_restart : List Restart → ℕ → Option Restart
find_restart [] b = none
find_restart (r ∷ rs) b = if restart_byte r == b then some r else find_restart rs b

-- Restart::from_byte
unfoldable pub from_byte : ℕ → Option Restart
unfolding find_restart restart_byte
from_byte b = find_restart (started ∷ faulted ∷ not_run ∷ timeout ∷ []) b

pub data Detail : Type 0 where
  bad_magic name_not_utf8 bad_characters empty_package : Detail
  protocol_version name_of package_of : ℕ → Detail
  device_name : Bytes → Detail

pub record Refusal : Type 0 where
  pub code : DeployCode
  pub detail : Detail

abbrev pub refusal : DeployCode → Detail → Refusal
refusal c d = record { code = c; detail = d }

pub record Offer : Type 0 where
  pub name : Bytes
  pub len : ℕ
  pub digest_bytes : Bytes

abbrev is_digit : ℕ → Bool
is_digit b = leb b'0' b && leb b b'9'

abbrev is_lowercase : ℕ → Bool
is_lowercase b = leb b'a' b && leb b b'z'

-- `name == "con"` and the like, and `com` or `lpt` with one digit.
unfoldable pub is_device_name : Bytes → Bool
unfolding same_bytes
is_device_name name =
    same_bytes name (codes "con")
    || (same_bytes name (codes "prn")
        || (same_bytes name (codes "aux")
            || (same_bytes name (codes "nul")
                || (length name == 4
                    && ((same_bytes (take 3 name) (codes "com")
                          || same_bytes (take 3 name) (codes "lpt"))
                        && is_digit (get_or name 3 0))))))

-- A byte of a cart name: `[a-z0-9_-]`.
abbrev pub is_name_byte : ℕ → Bool
is_name_byte b = is_lowercase b || (is_digit b || (b == b'_' || b == b'-'))

unfoldable pub all_name_bytes : Bytes → Bool
all_name_bytes [] = true
all_name_bytes (b ∷ bs) = is_name_byte b && all_name_bytes bs

-- `(MIN_NAME..=MAX_NAME).contains(&len)`
abbrev pub is_name_length : ℕ → Bool
is_name_length len = leb min_name len && leb len max_name

unfoldable pub check_name : Bytes → Result Refusal (Unit {0})
check_name name =
    if (if is_name_length (length name) then false else true)
    then err (refusal offer (name_of (length name)))
    else if (if all_name_bytes name then false else true)
    then err (refusal offer bad_characters)
    else if is_device_name name
    then err (refusal offer (device_name name))
    else ok tt

unfoldable pub check_len : ℕ → Result Refusal (Unit {0})
check_len len =
    if len == 0
    then err (refusal offer empty_package)
    else if ltb max_package len
    then err (refusal too_large (package_of len))
    else ok tt

-- What `encode_offer` writes once its checks have passed.
abbrev pub offer_bytes : Bytes → ℕ → Bytes → Bytes
offer_bytes name len d =
    magic ++ (be_bytes 2 version ++ (length name ∷ (name ++ (be_bytes 4 len ++ d))))

unfoldable pub encode_offer : Bytes → ℕ → Bytes → Result Refusal Bytes
encode_offer name len d = check_name name >> (check_len len >> ok (offer_bytes name len d))

unfoldable pub offer_prefix : Bytes → Result Refusal ℕ
unfolding same_bytes from_be
offer_prefix p =
    let spoken = from_be 0 (take 2 (drop 4 p)) in
    let n = get_or p 6 0 in
    if (if same_bytes (take 4 p) magic then false else true)
    then err (refusal offer bad_magic)
    else if (if spoken == version then false else true)
    then err (refusal offer (protocol_version spoken))
    else if (if is_name_length n then false else true)
    then err (refusal offer (name_of n))
    else ok n

or_refused : Option Bytes → Refusal → Result Refusal Bytes
or_refused none r = err r
or_refused (some s) r = ok s

unfoldable pub offer_name : Bytes → Result Refusal Bytes
unfolding or_refused
offer_name bytes = do
  name ← or_refused (from_utf8 bytes) (refusal offer name_not_utf8)
  check_name name
  ok name

unfoldable pub offer_tail : Bytes → Bytes → Result Refusal Offer
offer_tail name t =
    let len = from_be 0 (take 4 t) in
    check_len len >> ok (record { name = name; len = len; digest_bytes = drop 4 t })

-- How reading an offer fails: the stream ends, or the offer is refused.
pub data OfferError : Type 0 where
  lost : OfferError
  refused : Refusal → OfferError

or_lost {ℓ} : {A : Type ℓ} → Result End A → Result OfferError A
or_lost (ok a) = ok a
or_lost (err e) = err lost

refusing {ℓ} : {A : Type ℓ} → Result Refusal A → Result OfferError A
refusing (ok a) = ok a
refusing (err r) = err (refused r)

-- read_offer, with what is left of the stream.
unfoldable pub read_offer : Bytes → Result OfferError (Offer × Bytes)
unfolding or_lost refusing
read_offer s = do
  (prefix, s₁) ← or_lost (read_exact 7 s)
  n ← refusing (offer_prefix prefix)
  (bytes, s₂) ← or_lost (read_exact n s₁)
  name ← refusing (offer_name bytes)
  (tail, s₃) ← or_lost (read_exact 36 s₂)
  o ← refusing (offer_tail name tail)
  ok (o, s₃)

-- The detail of a result, cut to 512 bytes at a character boundary.
unfoldable pub clipped : Bytes → Bytes
clipped detail = take (floor_char_boundary detail (min (length detail) max_detail)) detail

or_install : Option ℕ → ℕ
or_install none = 6
or_install (some byte) = byte

unfoldable pub encode_result : DeployCode → Restart → Bytes → Bytes
unfolding or_install clipped
encode_result code restart detail =
    or_install (status code)
    ∷ restart_byte restart
    ∷ (be_bytes 2 (length (clipped detail)) ++ clipped detail)

pub data ResultError : Type 0 where
  unknown_status unknown_restart detail_of : ℕ → ResultError
  detail_not_utf8 : ResultError

required {ℓ} : {A : Type ℓ} → Option A → ResultError → Result ResultError A
required none e = err e
required (some a) e = ok a

unfoldable pub result_header : Bytes → Result ResultError (DeployCode × Restart × ℕ)
unfolding required
result_header h = do
  code ← required (from_status (get_or h 0 0)) (unknown_status (get_or h 0 0))
  restart ← required (from_byte (get_or h 1 0)) (unknown_restart (get_or h 1 0))
  let n = from_be 0 (take 2 (drop 2 h))
  if ltb max_detail n then err (detail_of n) else ok (code, restart, n)

unfoldable pub result_detail : Bytes → Result ResultError Bytes
unfolding required
result_detail body = required (from_utf8 body) detail_not_utf8
