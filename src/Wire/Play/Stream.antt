-- ===== src/Wire/Play/Stream.antt =====
-- Reading a whole stream of frames.
use kuula.Prelude.{
  ℕ, zero, suc, ◌+◌, ◌≤◌, ◌<◌, ◌≡◌, refl, sym, ap, ◌∙◌, ◌⊎◌, inl, inr, false, List, [], ◌∷◌, ◌++◌,
  map, append_assoc, append-nil, arith, length, drop, length-drop, All, if◌then◌else◌,
}
use kuula.Prelude.Bytes.{Bytes}
use kuula.Prelude.Result.{Result, ok, err, >>=-eq-ok}
use kuula.Wire.Play.{
  Frame, bye, encode, read_exact, read_frame, read_rounds, read_frames, Inbound, inbound, ended,
  End, lost, is_bye, frame_header, frame_body, faulty,
}
use kuula.Wire.Play.RoundTrip.{IsFrame, read_frame-encode}

read_exact-length : (n : ℕ) (s a b : Bytes) → read_exact n s ≡ ok (a, b) → length s ≡ n + length b
unfolding read_exact
read_exact-length n s a b e =
    let e' : (n ≤ length s) × (drop n s ≡ b) = ground arith in
    omega (arith, ap length e'.1, length-drop n s)

-- The lengths along the three reads of a frame.
read_lengths :
    (s a s₁ b s₂ body s₃ rest : Bytes) (len : ℕ)
    → read_exact 1 s ≡ ok (a, s₁)
    → read_exact 4 s₁ ≡ ok (b, s₂)
    → read_exact len s₂ ≡ ok (body, s₃)
    → s₃ ≡ rest
    → length rest + 5 ≤ length s
read_lengths s a s₁ b s₂ body s₃ rest len h k l e = omega (
  arith,
  read_exact-length 1 s a s₁ h,
  read_exact-length 4 s₁ b s₂ k,
  read_exact-length len s₂ body s₃ l,
  ap length e,
)

-- Reading a frame takes at least five bytes off the stream.
read_frame-shorter :
    (s rest : Bytes) (f : Frame) → read_frame s ≡ ok (f, rest) → length rest + 5 ≤ length s
unfolding read_frame
read_frame-shorter s rest f e =
    let ((a, s₁), e₁, k₁) = >>=-eq-ok (read_exact 1 s) _ e in
    let ((b, s₂), e₂, k₂) = >>=-eq-ok (read_exact 4 s₁) _ k₁ in
    let ((ty, len), e₃, k₃) = >>=-eq-ok (faulty (frame_header (a ++ b))) _ k₂ in
    let ((body, s₃), e₄, k₄) = >>=-eq-ok (read_exact len s₂) _ k₃ in
    let (g, e₅, k₅) = >>=-eq-ok (faulty (frame_body ty body)) _ k₄ in
    read_lengths s a s₁ b s₂ body s₃ rest len e₁ e₂ e₄ (cc k₅)

-- The frames that come before the end of the reading, which is a `Bye` or one last report.
pub data Ends : List Inbound → Type 0 where
  with_bye : Ends (inbound bye ∷ [])
  with_end : (e : End) → Ends (ended e ∷ [])
  after : (f : Frame) {l : List Inbound} → is_bye f ≡ false → Ends l → Ends (inbound f ∷ l)

Result-cases :
    (r : Result End (Frame × Bytes))
    → ((f : Frame) × (rest : Bytes) × (r ≡ ok (f, rest))) ⊎ ((e : End) × (r ≡ err e))
Result-cases (ok (f, rest)) = inl (f, rest, refl)
Result-cases (err e) = inr (e, refl)

frame_rule :
    (f : Frame) (later : List Inbound)
    → Ends later
    → Ends (inbound f ∷ (if is_bye f then [] else later))
frame_rule bye later h = with_bye
frame_rule (Frame.ping n) later h = after (Frame.ping n) refl h
frame_rule (Frame.pong n) later h = after (Frame.pong n) refl h
frame_rule (Frame.text t) later h = after (Frame.text t) refl h
frame_rule (Frame.cart_data d) later h = after (Frame.cart_data d) refl h

read_rounds-Ends : (fuel : ℕ) (s : Bytes) → length s < fuel → Ends (read_rounds fuel s)
unfolding read_rounds
read_rounds-Ends zero s h = absurd (omega arith)
read_rounds-Ends (suc fuel) s h = elim (Result-cases (read_frame s)) [
  | inl (f, rest, e) ↦
      let ih : Ends (read_rounds fuel rest) =
        read_rounds-Ends fuel rest (omega (arith, read_frame-shorter s rest f e)) in
      rw (e, read_rounds) (frame_rule f (read_rounds fuel rest) ih)
  | inr (e, h') ↦ rw (h', read_rounds) (with_end e)
]

-- Whatever the bytes, reading a stream that finishes comes to an end: some frames that are not
-- `Bye`, and then a `Bye` or one report of how it ended.
pub read_frames-Ends : (s : Bytes) → Ends (read_frames s)
unfolding read_frames
read_frames-Ends s = read_rounds-Ends (suc (length s)) s (omega arith)

-- The bytes that a sender writes for some frames.
pub sent : List Frame → Bytes
sent [] = []
sent (f ∷ fs) = (elim (encode f) [ ok bytes ↦ bytes | err e ↦ [] ]) ++ sent fs

abbrev pub IsSession : List Frame → Type 0
IsSession = All (λ f. IsFrame f × (is_bye f ≡ false))

read_rounds-sent :
    (fs : List Frame) (tail : Bytes) (r : List Inbound) (fuel : ℕ)
    → IsSession fs
    → ((n : ℕ) → length tail < n → read_rounds n tail ≡ r)
    → length (sent fs ++ tail) < fuel
    → read_rounds fuel (sent fs ++ tail) ≡ map inbound fs ++ r
unfolding sent read_rounds
read_rounds-sent [] tail r fuel h k enough = k fuel enough
read_rounds-sent (f ∷ fs) tail r zero h k enough = absurd (omega arith)
read_rounds-sent (f ∷ fs) tail r (suc fuel) h k enough =
    let (bytes, enc, read, _) = read_frame-encode f (sent fs ++ tail) h.0.0 in
    let whole : length (bytes ++ (sent fs ++ tail)) < suc fuel =
      rw (enc, append_assoc bytes (sent fs) tail) at enough in
    let short : length (sent fs ++ tail) < fuel =
      omega (arith, read_frame-shorter (bytes ++ (sent fs ++ tail)) (sent fs ++ tail) f read) in
    rw (enc, append_assoc bytes (sent fs) tail, read_rounds, read, h.0.1)
      (ap (λ l. inbound f ∷ l) (read_rounds-sent fs tail r fuel h.1 k short))

read_rounds-nil : (n : ℕ) → 0 < n → read_rounds n [] ≡ ended lost ∷ []
unfolding read_rounds read_frame read_exact
read_rounds-nil zero h = absurd (omega arith)
read_rounds-nil (suc n) h = refl

read_rounds-bye :
    (rest : Bytes) (n : ℕ)
    → length (sent (bye ∷ []) ++ rest) < n
    → read_rounds n (sent (bye ∷ []) ++ rest) ≡ inbound bye ∷ []
unfolding read_rounds sent
read_rounds-bye rest zero h = absurd (omega arith)
read_rounds-bye rest (suc n) h =
    let (bytes, enc, read, _) = read_frame-encode bye rest tt in
    rw (enc, append-nil bytes, read_rounds, read) refl

-- Of frames within their limits, none of them `Bye`, the receiver gets exactly what was sent, in
-- order: a session that ends with `Bye` is read up to it, whatever follows on the stream.
pub read_frames-sent :
    (fs : List Frame) (rest : Bytes)
    → IsSession fs
    → read_frames (sent fs ++ (sent (bye ∷ []) ++ rest)) ≡ map inbound fs ++ inbound bye ∷ []
unfolding read_frames
read_frames-sent fs rest h =
    read_rounds-sent fs (sent (bye ∷ []) ++ rest) (inbound bye ∷ [])
      (suc (length (sent fs ++ (sent (bye ∷ []) ++ rest)))) h (read_rounds-bye rest) (omega arith)

-- A stream that finishes after some frames within their limits, none of them `Bye`, gives the
-- frames and then the loss of the peer.
pub read_frames-lost :
    (fs : List Frame) → IsSession fs → read_frames (sent fs) ≡ map inbound fs ++ ended lost ∷ []
unfolding read_frames
read_frames-lost fs h =
    ap (λ (s : Bytes). read_rounds (suc (length s)) s) (sym (append-nil (sent fs)))
    ∙ read_rounds-sent fs [] (ended lost ∷ []) (suc (length (sent fs ++ []))) h read_rounds-nil
        (omega arith)
