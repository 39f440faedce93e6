-- ===== src/Wire/Play/Strict.antt =====
-- What is refused, and that nothing else than the encoding of a frame is accepted.
use kuula.Prelude.{ℕ, ◌≤◌, ◌<◌, ◌≡◌, refl, sym, ap, ap₂, ◌∙◌, [], ◌∷◌, ◌++◌, arith, length}
use kuula.Prelude.Bytes.{Bytes, AreBytes, be_bytes, from_be, be_bytes-from_be}
use kuula.Prelude.Utf8.{from_utf8}
use kuula.Prelude.Result.{ok}
use kuula.Wire.Play.{
  Frame, ping, pong, text, bye, cart_data, encode, written, frame_header, frame_body,
  check_text_len, check_data_len, max_text, max_data,
}

-- A header that passes asks for at most 1024 bytes, whatever its four length bytes say.
pub frame_header-bound : (h : Bytes) (ty len : ℕ) → frame_header h ≡ ok (ty, len) → len ≤ 1024
unfolding frame_header
frame_header-bound h ty len e = ground arith

-- What an accepted header says of each type.
record IsHeader (ty : ℕ) (size : Bytes) (len : ℕ) : Type 0 where
  read : len ≡ from_be 0 size
  ping_of : ty ≡ 1 → len ≡ 8
  pong_of : ty ≡ 2 → len ≡ 8
  text_of : ty ≡ 3 → (0 < len) × (len ≤ max_text)
  bye_of : ty ≡ 4 → len ≡ 0
  data_of : ty ≡ 5 → (0 < len) × (len ≤ max_data)

frame_header-IsHeader :
    (ty : ℕ) (size : Bytes) (len : ℕ)
    → frame_header (ty ∷ size) ≡ ok (ty, len)
    → IsHeader ty size len
unfolding frame_header
frame_header-IsHeader ty size len e = record {
  read = ground arith;
  ping_of = ground arith;
  pong_of = ground arith;
  text_of = ground arith;
  bye_of = ground arith;
  data_of = ground arith;
}

-- The type and the payload that a frame is read from.
abbrev IsRead : ℕ → Bytes → Frame → Type 0
IsRead ty body (ping n) = (ty ≡ 1) × (n ≡ from_be 0 body)
IsRead ty body (pong n) = (ty ≡ 2) × (n ≡ from_be 0 body)
IsRead ty body (text s) = (ty ≡ 3) × (s ≡ body)
IsRead ty body bye = ty ≡ 4
IsRead ty body (cart_data d) = (ty ≡ 5) × (d ≡ body)

body-IsRead : (ty : ℕ) (body : Bytes) (f : Frame) → frame_body ty body ≡ ok f → IsRead ty body f
unfolding frame_body from_utf8
body-IsRead ty body (ping n) e = ground arith
body-IsRead ty body (pong n) e = ground arith
body-IsRead ty body (text s) e = ground arith
body-IsRead ty body bye e = ground arith
body-IsRead ty body (cart_data d) e = ground arith

nonce_lem :
    (body : Bytes) (n : ℕ)
    → AreBytes body
    → length body ≡ 8
    → n ≡ from_be 0 body
    → be_bytes 8 n ≡ body
nonce_lem body n bb e h = ap₂ be_bytes (sym e) h ∙ be_bytes-from_be body bb

nil_lem : (body : Bytes) → length body ≡ 0 → [] ≡ body
nil_lem [] e = refl
nil_lem (b ∷ body) e = absurd (omega arith)

-- `encode` of a frame that was read, up to the four bytes of the length.
encode-IsRead :
    (ty : ℕ) (size body : Bytes) (len : ℕ) (f : Frame)
    → AreBytes body
    → IsHeader ty size len
    → length body ≡ len
    → IsRead ty body f
    → encode f ≡ ok (written (ty, body))
unfolding encode check_text_len check_data_len
encode-IsRead ty size body len (ping n) bb v h r =
    rw (nonce_lem body n bb (h ∙ v.ping_of r.0) r.1) (ap (λ t. ok (written (t, body))) (sym r.0))
encode-IsRead ty size body len (pong n) bb v h r =
    rw (nonce_lem body n bb (h ∙ v.pong_of r.0) r.1) (ap (λ t. ok (written (t, body))) (sym r.0))
encode-IsRead ty size body len (text s) bb v h r = ground (arith, v.text_of r.0, ap length r.1)
encode-IsRead ty size body len bye bb v h r = ground (arith, nil_lem body (h ∙ v.bye_of r))
encode-IsRead ty size body len (cart_data d) bb v h r = ground (arith, v.data_of r.0, ap length r.1)

-- A header and a body that are accepted are the encoding of the frame they are read as, to the byte.
pub encode-frame_body :
    (ty : ℕ) (size body : Bytes) (len : ℕ) (f : Frame)
    → length size ≡ 4
    → AreBytes size
    → AreBytes body
    → frame_header (ty ∷ size) ≡ ok (ty, len)
    → length body ≡ len
    → frame_body ty body ≡ ok f
    → encode f ≡ ok (ty ∷ (size ++ body))
encode-frame_body ty size body len f four bs bb header h e =
    let v : IsHeader ty size len = frame_header-IsHeader ty size len header in
    encode-IsRead ty size body len f bb v h (body-IsRead ty body f e)
    ∙ ap (λ z. ok (ty ∷ (z ++ body)))
        (ap₂ be_bytes (sym four) (h ∙ v.read) ∙ be_bytes-from_be size bs)
