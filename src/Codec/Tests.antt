-- ===== src/Codec/Tests.antt =====
-- Two bytes and their four characters.
use kuula.Prelude.{◌≡◌, refl, some, arith}
use kuula.Prelude.Bytes.{codes}
use kuula.Codec.{base64_encode, base64_decode}
use kuula.Codec.Base64.{base64_decode-encode}
use kuula.Codec.Strict.{base64_encode-decode}

base64_decode-encode_example : base64_decode (base64_encode (codes "Ma")) ≡ some (codes "Ma")
base64_decode-encode_example = base64_decode-encode (codes "Ma") (omega arith, (omega arith, tt))

base64_encode-decode_example : base64_encode (codes "Ma") ≡ codes "TWE="
unfolding base64_decode
base64_encode-decode_example = base64_encode-decode (codes "TWE=") (codes "Ma") refl
