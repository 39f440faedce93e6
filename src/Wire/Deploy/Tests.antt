-- ===== src/Wire/Deploy/Tests.antt =====
-- Offers and answers written out, and the theorems at them.
use kuula.Prelude.{◌≡◌, ◌≤◌, refl, true, false, ◌++◌, length, replicate, All}
use kuula.Prelude.Bytes.{Bytes, codes}
use kuula.Prelude.Utf8.{is_utf8, from_utf8}
use kuula.Prelude.Result.{ok, err}
use kuula.Wire.Deploy.{
  offer, device_name, encode_offer, offer_bytes, offer_name, read_offer, refusal, check_name,
  check_len, is_device_name, all_name_bytes,
}
use kuula.Wire.Deploy.Offers.{IsSafeByte, read_offer-encode_offer, offer_name-safe}

abbrev some_digest : Bytes
some_digest = replicate 32 7

abbrev breakout : Bytes
breakout = codes "breakout"

sent : encode_offer breakout 300 some_digest ≡ ok (offer_bytes breakout 300 some_digest)
unfolding encode_offer check_name check_len all_name_bytes is_device_name
sent = refl

device : check_name (codes "com1") ≡ err (refusal offer (device_name (codes "com1")))
unfolding check_name all_name_bytes is_device_name
device = refl

accepted : offer_name breakout ≡ ok breakout
unfolding offer_name check_name all_name_bytes is_device_name from_utf8
accepted = refl

digest_size : length some_digest ≡ 32
digest_size = refl

read_offer-encode_offer_example :
    read_offer (offer_bytes breakout 300 some_digest ++ codes "next")
    ≡ ok (record { name = breakout; len = 300; digest_bytes = some_digest }, codes "next")
read_offer-encode_offer_example =
    read_offer-encode_offer breakout some_digest (codes "next") 300
      (offer_bytes breakout 300 some_digest) digest_size sent

offer_name-safe_example :
    (breakout ≡ breakout)
    × (1 ≤ length breakout)
    × (length breakout ≤ 32)
    × (is_device_name breakout ≡ false)
    × All IsSafeByte breakout
offer_name-safe_example = offer_name-safe breakout breakout accepted

busy_text : is_utf8 (codes "busy") ≡ true
unfolding is_utf8
busy_text = refl
