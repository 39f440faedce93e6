-- ===== src/Wire/Play.antt =====
-- The play protocol: crates/kuula-net/src/proto.rs, and the reading of frames from a stream in
-- crates/kuula-net/src/session.rs. A fixed array of bytes is a list of that length. The detail of an
-- error, which the code formats, is the data it is formatted from.
pub mod RoundTrip
pub mod Strict
pub mod Stream
mod Tests
use kuula.Prelude.{
  ℕ, zero, suc, ◌+◌, ◌-◌, ◌≤◌, ◌<◌, ◌^◌, min, Bool, true, false, ◌&&◌, ◌||◌, Option, none, some,
  List, [], ◌∷◌, ◌++◌, ltb, leb, ◌==◌, length, get_or, take, drop, if◌then◌else◌,
}
use kuula.Prelude.Bytes.{Bytes, codes, be_bytes, from_be, same_bytes}
use kuula.Prelude.Utf8.{from_utf8}
use kuula.Prelude.Result.{Result, ok, err, ◌>>=◌, ◌>>◌}

abbrev pub version : ℕ
version = 1

abbrev pub magic : Bytes
magic = codes "KUUL"

abbrev pub max_runtime_version : ℕ
max_runtime_version = 64

abbrev pub max_text : ℕ
max_text = 1024

abbrev pub max_data : ℕ
max_data = 1024

abbrev pub handshake_header_size : ℕ
handshake_header_size = 8

abbrev pub frame_header_size : ℕ
frame_header_size = 5

abbrev pub type_ping : ℕ
type_ping = 1

abbrev pub type_pong : ℕ
type_pong = 2

abbrev pub type_text : ℕ
type_text = 3

abbrev pub type_bye : ℕ
type_bye = 4

abbrev pub type_data : ℕ
type_data = 5

pub data Code : Type 0 where
  disabled no_address ticket connect protocol_mismatch handshake_failed frame_failed : Code
  timeout busy cancelled queue_full : Code

pub data Detail : Type 0 where
  bad_magic runtime_not_utf8 empty_text empty_data text_not_utf8 : Detail
  protocol_version runtime_of text_of data_of ping_of bye_of unknown_type : ℕ → Detail

pub record NetError : Type 0 where
  pub code : Code
  pub detail : Detail

abbrev pub net_error : Code → Detail → NetError
net_error c d = record { code = c; detail = d }

pub data Frame : Type 0 where
  ping pong : ℕ → Frame
  text : Bytes → Frame
  bye : Frame
  cart_data : Bytes → Frame

-- handshake
unfoldable pub handshake : Bytes → Bytes
unfolding be_bytes
handshake runtime_version =
    let v = take (min (length runtime_version) max_runtime_version) runtime_version in
    magic ++ (be_bytes 2 version ++ (be_bytes 2 (length v) ++ v))

unfoldable pub handshake_header : Bytes → Result NetError ℕ
unfolding from_be
handshake_header h =
    let spoken = from_be 0 (take 2 (drop 4 h)) in
    let len = from_be 0 (take 2 (drop 6 h)) in
    if (if same_bytes (take 4 h) magic then false else true)
    then err (net_error handshake_failed bad_magic)
    else if (if spoken == version then false else true)
    then err (net_error handshake_failed (protocol_version spoken))
    else if ltb max_runtime_version len
    then err (net_error handshake_failed (runtime_of len))
    else ok len

unfoldable pub handshake_body : Bytes → Result NetError Bytes
unfolding from_utf8
handshake_body body = elim (from_utf8 body) [
  | none ↦ err (net_error handshake_failed runtime_not_utf8)
  | some s ↦ ok s
]

unfoldable pub check_text_len : ℕ → Result NetError (Unit {0})
check_text_len len =
    if len == 0
    then err (net_error frame_failed empty_text)
    else if ltb max_text len
    then err (net_error frame_failed (text_of len))
    else ok tt

unfoldable pub check_data_len : ℕ → Result NetError (Unit {0})
check_data_len len =
    if len == 0
    then err (net_error frame_failed empty_data)
    else if ltb max_data len
    then err (net_error frame_failed (data_of len))
    else ok tt

-- The `match` of `encode`.
type_and_payload : Frame → Result NetError (ℕ × Bytes)
type_and_payload (ping n) = ok (type_ping, be_bytes 8 n)
type_and_payload (pong n) = ok (type_pong, be_bytes 8 n)
type_and_payload (text s) = check_text_len (length s) >> ok (type_text, s)
type_and_payload bye = ok (type_bye, [])
type_and_payload (cart_data d) = check_data_len (length d) >> ok (type_data, d)

-- What `encode` writes of a type and a payload.
abbrev pub written : ℕ × Bytes → Bytes
written (ty, payload) = ty ∷ (be_bytes 4 (length payload) ++ payload)

unfoldable pub encode : Frame → Result NetError Bytes
unfolding type_and_payload check_text_len check_data_len
encode frame = type_and_payload frame >>= λ parts. ok (written parts)

unfoldable pub frame_header : Bytes → Result NetError (ℕ × ℕ)
unfolding from_be check_text_len check_data_len
frame_header h =
    let ty = get_or h 0 0 in
    let len = from_be 0 (drop 1 h) in
    if (ty == type_ping || ty == type_pong) && (if len == 8 then false else true)
    then err (net_error frame_failed (ping_of len))
    else if ty == type_bye && (if len == 0 then false else true)
    then err (net_error frame_failed (bye_of len))
    else if ty == type_text
    then (check_text_len len >> ok (ty, len))
    else if ty == type_data
    then (check_data_len len >> ok (ty, len))
    else if ty == type_ping || (ty == type_pong || ty == type_bye)
    then ok (ty, len)
    else err (net_error frame_failed (unknown_type ty))

-- The body of a ping is eight bytes, which its header has checked.
unfoldable pub frame_body : ℕ → Bytes → Result NetError Frame
unfolding from_be from_utf8
frame_body ty body =
    if ty == type_ping
    then ok (ping (from_be 0 body))
    else if ty == type_pong
    then ok (pong (from_be 0 body))
    else if ty == type_text
    then elim (from_utf8 body) [
      | none ↦ err (net_error frame_failed text_not_utf8)
      | some s ↦ ok (text s)
    ]
    else if ty == type_bye
    then ok bye
    else if ty == type_data
    then ok (cart_data body)
    else err (net_error frame_failed (unknown_type ty))

-- How reading ends: a fault of the peer, or a stream that finishes. A connection's own ends, and an
-- end of the session from this side, come from the connection and are not part of reading a stream.
pub data End : Type 0 where
  fault : NetError → End
  lost : End

-- `read_exact` on a stream that holds these bytes and then finishes.
unfoldable pub read_exact : ℕ → Bytes → Result End (Bytes × Bytes)
read_exact n stream = if leb n (length stream) then ok (take n stream, drop n stream) else err lost

faulty {ℓ} : {A : Type ℓ} → Result NetError A → Result End A
faulty (ok a) = ok a
faulty (err e) = err (fault e)

-- read_frame, on a stream that keeps the frame's deadline.
unfoldable pub read_frame : Bytes → Result End (Frame × Bytes)
unfolding read_exact faulty
read_frame s = do
  (first, s₁) ← read_exact 1 s
  (others, s₂) ← read_exact 4 s₁
  (ty, len) ← faulty (frame_header (first ++ others))
  (body, s₃) ← read_exact len s₂
  frame ← faulty (frame_body ty body)
  ok (frame, s₃)

pub data Inbound : Type 0 where
  inbound : Frame → Inbound
  ended : End → Inbound

abbrev is_bye : Frame → Bool
is_bye bye = true
is_bye (ping n) = false
is_bye (pong n) = false
is_bye (text s) = false
is_bye (cart_data d) = false

-- read_frames: every round reads at least one byte, so more fuel than bytes is enough.
read_rounds : ℕ → Bytes → List Inbound
read_rounds zero s = []
read_rounds (suc fuel) s = elim (read_frame s) [
  | err e ↦ ended e ∷ []
  | ok (frame, rest) ↦
      let later = read_rounds fuel rest in inbound frame ∷ (if is_bye frame then [] else later)
]

unfoldable pub read_frames : Bytes → List Inbound
unfolding read_rounds
read_frames s = read_rounds (suc (length s)) s
