-- ===== src/Wire/Play/RoundTrip.antt =====
-- What is encoded is read back.
use kuula.Prelude.{
  ℕ, ◌+◌, ◌≤◌, ◌<◌, ◌^◌, ◌≡◌, refl, ap, ◌⊎◌, inl, inr, min, true, [], ◌∷◌, ◌++◌, append_assoc,
  arith, length, length-append, take, drop, take-length_append, drop-length_append, length-take,
}
use kuula.Prelude.Bytes.{Bytes, be_bytes, from_be, from_be-be_bytes, length-be_bytes, same_bytes}
use kuula.Prelude.Utf8.{is_utf8, from_utf8}
use kuula.Prelude.Result.{ok}
use kuula.Wire.Play.{
  Frame, ping, pong, text, bye, cart_data, encode, written, frame_header, frame_body, read_exact,
  faulty, read_frame, check_text_len, check_data_len, handshake, handshake_header, max_text,
  max_data, max_runtime_version,
}

-- A frame whose numbers fit, whose text is UTF-8 and whose lengths are within the limits.
abbrev pub IsFrame : Frame → Type 0
IsFrame (ping n) = n < 256 ^ 8
IsFrame (pong n) = n < 256 ^ 8
IsFrame (text s) = (0 < length s) × (length s ≤ max_text) × (is_utf8 s ≡ true)
IsFrame bye = Unit
IsFrame (cart_data d) = (0 < length d) × (length d ≤ max_data)

pub read_exact-append :
    (n : ℕ) (xs ys : Bytes) → length xs ≡ n → read_exact n (xs ++ ys) ≡ ok (xs, ys)
unfolding read_exact
read_exact-append n xs ys e =
    rw (← e)
      (ground (arith, length-append xs ys, take-length_append xs ys, drop-length_append xs ys))

-- A type and a payload that a header and a body accept are read as the frame.
read_frame-written :
    (ty : ℕ) (payload rest : Bytes) (f : Frame)
    → frame_header (ty ∷ be_bytes 4 (length payload)) ≡ ok (ty, length payload)
    → frame_body ty payload ≡ ok f
    → read_frame (written (ty, payload) ++ rest) ≡ ok (f, rest)
unfolding read_frame faulty
read_frame-written ty payload rest f header body =
    let size : Bytes = be_bytes 4 (length payload) in
    rw (
      append_assoc size payload rest,
      read_exact-append 1 (ty ∷ []) (size ++ (payload ++ rest)) refl,
      read_exact-append 4 size (payload ++ rest) (length-be_bytes 4 (length payload)),
      header,
      read_exact-append (length payload) payload rest refl,
      body,
    )

size_lem : (len : ℕ) → len ≤ 1024 → from_be 0 (be_bytes 4 len) ≡ len
size_lem len h = from_be-be_bytes 4 len (omega arith)

text_header : (len : ℕ) → 0 < len → len ≤ 1024 → frame_header (3 ∷ be_bytes 4 len) ≡ ok (3, len)
unfolding frame_header
text_header len pos h = rw (size_lem len h) (ground arith)

data_header : (len : ℕ) → 0 < len → len ≤ 1024 → frame_header (5 ∷ be_bytes 4 len) ≡ ok (5, len)
unfolding frame_header
data_header len pos h = rw (size_lem len h) (ground arith)

nonce_header :
    (ty n : ℕ)
    → (ty ≡ 1) ⊎ (ty ≡ 2)
    → frame_header (ty ∷ be_bytes 4 (length (be_bytes 8 n))) ≡ ok (ty, length (be_bytes 8 n))
unfolding frame_header
nonce_header ty n h = rw (length-be_bytes 8 n, size_lem 8 (omega arith)) (ground arith)

-- The bytes of a frame, its type and payload.
parts : Frame → ℕ × Bytes
parts (ping n) = (1, be_bytes 8 n)
parts (pong n) = (2, be_bytes 8 n)
parts (text s) = (3, s)
parts bye = (4, [])
parts (cart_data d) = (5, d)

encode-parts : (f : Frame) → IsFrame f → encode f ≡ ok (written (parts f))
unfolding encode parts check_text_len check_data_len
encode-parts (ping n) h = refl
encode-parts (pong n) h = refl
encode-parts (text s) h = ground arith
encode-parts bye h = refl
encode-parts (cart_data d) h = ground arith

read_frame-parts :
    (f : Frame) (rest : Bytes) → IsFrame f → read_frame (written (parts f) ++ rest) ≡ ok (f, rest)
unfolding parts
read_frame-parts (ping n) rest h =
    read_frame-written 1 (be_bytes 8 n) rest (ping n) (nonce_header 1 n (inl refl))
      (unfold frame_body in ap (λ m. ok (ping m)) (from_be-be_bytes 8 n h))
read_frame-parts (pong n) rest h =
    read_frame-written 2 (be_bytes 8 n) rest (pong n) (nonce_header 2 n (inr refl))
      (unfold frame_body in ap (λ m. ok (pong m)) (from_be-be_bytes 8 n h))
read_frame-parts (text s) rest h =
    read_frame-written 3 s rest (text s) (text_header (length s) h.0 h.1)
      (unfold frame_body from_utf8 in rw (h.2) refl)
read_frame-parts bye rest h =
    read_frame-written 4 [] rest bye (unfold frame_header be_bytes in refl)
      (unfold frame_body in refl)
read_frame-parts (cart_data d) rest h =
    read_frame-written 5 d rest (cart_data d) (data_header (length d) h.0 h.1)
      (unfold frame_body in refl)

length_lem : (ty : ℕ) (payload : Bytes) → length (written (ty, payload)) ≡ 5 + length payload
length_lem ty payload =
    omega (
      arith,
      length-append (be_bytes 4 (length payload)) payload,
      length-be_bytes 4 (length payload),
    )

length-written : (f : Frame) → IsFrame f → length (written (parts f)) ≤ 1029
unfolding parts
length-written (ping n) h = omega (arith, length_lem 1 (be_bytes 8 n), length-be_bytes 8 n)
length-written (pong n) h = omega (arith, length_lem 2 (be_bytes 8 n), length-be_bytes 8 n)
length-written (text s) h = omega (arith, length_lem 3 s)
length-written bye h = omega (arith, length_lem 4 [])
length-written (cart_data d) h = omega (arith, length_lem 5 d)

-- A frame within the limits is encoded, into at most 1029 bytes, and reading the bytes with anything
-- behind them gives the frame and what was behind.
pub read_frame-encode :
    (f : Frame) (rest : Bytes)
    → IsFrame f
    → (bytes : Bytes) × (encode f ≡ ok bytes)
      × (read_frame (bytes ++ rest) ≡ ok (f, rest))
      × (length bytes ≤ 1029)
read_frame-encode f rest h =
    (written (parts f), encode-parts f h, read_frame-parts f rest h, length-written f h)

-- Our handshake is accepted by the peer, which is told the runtime version cut to 64 bytes.
pub handshake_header-handshake :
    (v : Bytes)
    → (handshake_header (take 8 (handshake v)) ≡ ok (min (length v) max_runtime_version))
      × (drop 8 (handshake v) ≡ take (min (length v) max_runtime_version) v)
unfolding handshake handshake_header same_bytes
handshake_header-handshake v =
    let cut : Bytes = take (min (length v) max_runtime_version) v in
    let n : length cut ≡ min (length v) max_runtime_version =
      omega (arith, length-take (min (length v) max_runtime_version) v) in
    (ground (arith, n), refl)
