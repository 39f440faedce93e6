-- ===== src/Wire/Deploy/Offers.antt =====
-- Offers: what is sent is read back, and what names are accepted.
use kuula.Prelude.{
  ℕ, ◌≤◌, ◌<◌, ◌≡◌, ◌≢◌, refl, sym, ◌∙◌, Bool, true, false, ◌&&◌, [], ◌∷◌, ◌++◌, append_assoc,
  arith, length, length-append, take-append, drop-append, All,
}
use kuula.Prelude.Bytes.{Bytes, be_bytes, from_be-be_bytes, length-be_bytes}
use kuula.Prelude.Utf8.{is_utf8, from_utf8, is_utf8_ascii}
use kuula.Prelude.Result.{ok, >>=-eq-ok}
use kuula.Wire.Play.RoundTrip.{read_exact-append}
use kuula.Wire.Deploy.{
  offer, refusal, name_not_utf8, Refusal, check_name, check_len, all_name_bytes, is_name_byte,
  is_device_name, encode_offer, offer_bytes, offer_prefix, offer_name, offer_tail, read_offer,
  or_lost, refusing, or_refused, is_name_length, max_package,
}

-- A name that passes: its length, its bytes, and no device name.
pub record IsName (name : Bytes) : Type 0 where
  pub bounds : (1 ≤ length name) × (length name ≤ 32)
  pub bytes : all_name_bytes name ≡ true
  pub no_device : is_device_name name ≡ false

check_name-IsName : (name : Bytes) → check_name name ≡ ok tt → IsName name
unfolding check_name
check_name-IsName name h = ground arith

check_len-bounds : (len : ℕ) → check_len len ≡ ok tt → (0 < len) × (len ≤ max_package)
unfolding check_len
check_len-bounds len h = ground arith

-- The bytes of a name are ASCII, and none of them takes a path anywhere else.
abbrev pub IsSafeByte : ℕ → Type 0
IsSafeByte b = (b < 128) × (b ≢ b'/') × (b ≢ b'\\') × (b ≢ b'.') × (b ≢ b':')

is_name_byte-safe : (b : ℕ) → is_name_byte b ≡ true → IsSafeByte b
is_name_byte-safe b h = ground arith

and_parts : (a b : Bool) → (a && b) ≡ true → (a ≡ true) × (b ≡ true)
and_parts a b h = ground arith

all_name_bytes-safe : (bs : Bytes) → all_name_bytes bs ≡ true → All IsSafeByte bs
unfolding all_name_bytes
all_name_bytes-safe [] h = tt
all_name_bytes-safe (b ∷ bs) h =
    let (first, others) = and_parts (is_name_byte b) (all_name_bytes bs) h in
    (is_name_byte-safe b first, all_name_bytes-safe bs others)

All-ascii : (bs : Bytes) → All IsSafeByte bs → All (λ b. b < 128) bs
All-ascii [] h = tt
All-ascii (b ∷ bs) h = (h.0.0, All-ascii bs h.1)

name-is_utf8 : (name : Bytes) → IsName name → is_utf8 name ≡ true
name-is_utf8 name v = is_utf8_ascii name (All-ascii name (all_name_bytes-safe name v.bytes))

from_utf8_lem : (bytes n : Bytes) (r : Refusal) → or_refused (from_utf8 bytes) r ≡ ok n → n ≡ bytes
unfolding or_refused from_utf8
from_utf8_lem bytes n r h = ground arith

-- A name that the receiver accepts is the name that was sent, 1 to 32 bytes long, is no device name,
-- and has no separator, dot or colon in it: joined to a directory it stays a file of that directory.
pub offer_name-safe :
    (bytes name : Bytes)
    → offer_name bytes ≡ ok name
    → (name ≡ bytes)
      × (1 ≤ length name)
      × (length name ≤ 32)
      × (is_device_name name ≡ false)
      × All IsSafeByte name
unfolding offer_name
offer_name-safe bytes name h =
    let (n, decoded, k) = >>=-eq-ok (or_refused (from_utf8 bytes) _) _ h in
    let (u, checked, e) = >>=-eq-ok (check_name n) _ k in
    let same : n ≡ name = cc e in
    let whole : n ≡ bytes = from_utf8_lem bytes n (refusal offer name_not_utf8) decoded in
    let v : IsName name = check_name-IsName name (rw (← same) checked) in
    (sym same ∙ whole, v.bounds.0, v.bounds.1, v.no_device, all_name_bytes-safe name v.bytes)

prefix-accepted :
    (n : ℕ) → is_name_length n ≡ true → offer_prefix (75 ∷ 85 ∷ 85 ∷ 68 ∷ 0 ∷ 1 ∷ n ∷ []) ≡ ok n
unfolding offer_prefix
prefix-accepted n h = ground arith

name-accepted : (name : Bytes) → IsName name → check_name name ≡ ok tt → offer_name name ≡ ok name
unfolding offer_name from_utf8
name-accepted name v h = rw (name-is_utf8 name v, h) refl

tail-accepted :
    (name d : Bytes) (len : ℕ)
    → check_len len ≡ ok tt
    → len ≤ max_package
    → offer_tail name (be_bytes 4 len ++ d)
      ≡ ok (record { name = name; len = len; digest_bytes = d })
unfolding offer_tail
tail-accepted name d len h small = rw (
  take-append 4 (be_bytes 4 len) d (length-be_bytes 4 len),
  drop-append 4 (be_bytes 4 len) d (length-be_bytes 4 len),
  from_be-be_bytes 4 len (omega arith),
  h,
)

version_bytes : be_bytes 2 1 ≡ 0 ∷ 1 ∷ []
unfolding be_bytes
version_bytes = refl

tail_length : (len : ℕ) (d : Bytes) → length d ≡ 32 → length (be_bytes 4 len ++ d) ≡ 36
tail_length len d h = omega (arith, length-append (be_bytes 4 len) d, length-be_bytes 4 len)

-- An offer that its sender may send, with the 32 bytes of a digest, is read back by the receiver,
-- with whatever follows it left on the stream.
pub read_offer-encode_offer :
    (name d rest : Bytes) (len : ℕ) (bytes : Bytes)
    → length d ≡ 32
    → encode_offer name len d ≡ ok bytes
    → read_offer (bytes ++ rest) ≡ ok (record { name = name; len = len; digest_bytes = d }, rest)
unfolding encode_offer read_offer or_lost refusing
read_offer-encode_offer name d rest len bytes sum h =
    let (u, named, k) = >>=-eq-ok (check_name name) _ h in
    let (w, sized, e) = >>=-eq-ok (check_len len) _ k in
    let v : IsName name = check_name-IsName name named in
    let tail : Bytes = be_bytes 4 len ++ d in
    let whole : offer_bytes name len d ≡ bytes = cc e in
    rw (
      ← whole,
      version_bytes,
      append_assoc name tail rest,
      read_exact-append 7 (75 ∷ 85 ∷ 85 ∷ 68 ∷ 0 ∷ 1 ∷ length name ∷ []) (name ++ (tail ++ rest))
          refl,
      prefix-accepted (length name) (ground (arith, v.bounds)),
      read_exact-append (length name) name (tail ++ rest) refl,
      name-accepted name v named,
      read_exact-append 36 tail rest (tail_length len d sum),
      tail-accepted name d len sized (check_len-bounds len sized).1,
    )
