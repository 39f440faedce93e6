-- ===== src/Wire/Deploy/Results.antt =====
-- Answers of the deploy protocol: what `encode_result` writes is what the sender reads back.
use kuula.Prelude.{
  ◌≡◌, ◌↔◌, arith, refl, ℕ, ◌≤◌, min, true, some, ◌∷◌, ◌++◌, length, take, drop, take-append,
  drop-append, length-take,
}
use kuula.Prelude.Bytes.{Bytes, be_bytes, from_be-be_bytes, length-be_bytes}
use kuula.Prelude.Utf8.{
  is_utf8, from_utf8, floor_char_boundary, floor_char_boundary-le, is_utf8-take,
  is_char_boundary-floor,
}
use kuula.Prelude.Result.{ok}
use kuula.Wire.Deploy.{
  DeployCode, ok_code, unpaired, busy, offer, too_large, digest, invalid, interrupted, install,
  cancelled, status, from_status, Restart, started, faulted, not_run, timeout, restart_byte,
  from_byte, clipped, encode_result, result_header, result_detail, max_detail, or_install,
}

-- The status that a code is sent as: the two that have none are sent as a failed installation.
abbrev pub sent_as : DeployCode → DeployCode
sent_as unpaired = install
sent_as busy = install
sent_as c = c

-- A status byte is read as a code exactly when that code is sent as this byte.
from_status_iff : (byte : ℕ) (c : DeployCode) → (from_status byte ≡ some c) ↔ (status c ≡ some byte)
unfolding from_status status
from_status_iff byte c = ground arith

from_byte-restart_byte : (r : Restart) → from_byte (restart_byte r) ≡ some r
unfolding from_byte restart_byte
from_byte-restart_byte started = refl
from_byte-restart_byte faulted = refl
from_byte-restart_byte not_run = refl
from_byte-restart_byte timeout = refl

clipped-bounds : (detail : Bytes) → length (clipped detail) ≤ max_detail
unfolding clipped
clipped-bounds detail = omega (
  arith,
  length-take (floor_char_boundary detail (min (length detail) max_detail)) detail,
  floor_char_boundary-le detail (min (length detail) max_detail),
)

clipped-is_utf8 : (detail : Bytes) → is_utf8 detail ≡ true → is_utf8 (clipped detail) ≡ true
unfolding clipped
clipped-is_utf8 detail h =
    is_utf8-take detail (floor_char_boundary detail (min (length detail) max_detail)) h
      (is_char_boundary-floor detail (min (length detail) max_detail))

from_status-or_install : (c : DeployCode) → from_status (or_install (status c)) ≡ some (sent_as c)
unfolding from_status status or_install
from_status-or_install ok_code = refl
from_status-or_install unpaired = refl
from_status-or_install busy = refl
from_status-or_install offer = refl
from_status-or_install too_large = refl
from_status-or_install digest = refl
from_status-or_install invalid = refl
from_status-or_install interrupted = refl
from_status-or_install install = refl
from_status-or_install cancelled = refl

take-be_bytes : (n : ℕ) → take 2 (be_bytes 2 n) ≡ be_bytes 2 n
unfolding be_bytes
take-be_bytes n = refl

header_read :
    (a b n : ℕ) (c : DeployCode) (r : Restart) (body : Bytes)
    → from_status a ≡ some c
    → from_byte b ≡ some r
    → n ≤ max_detail
    → result_header (a ∷ b ∷ take 2 (be_bytes 2 n ++ body)) ≡ ok (c, r, n)
unfolding result_header
header_read a b n c r body status_read byte_read small =
    rw
      (
        take-append 2 (be_bytes 2 n) body (length-be_bytes 2 n),
        status_read,
        byte_read,
        take-be_bytes n,
        from_be-be_bytes 2 n (omega arith),
      )
      (ground arith)

-- What the receiver answers is what the sender reads: the code (one without a status byte of its own
-- reads as a failed installation), how the restart went, and the detail cut to at most 512 bytes.
pub result-encode_result :
    (code : DeployCode) (restart : Restart) (detail : Bytes)
    → is_utf8 detail ≡ true
    → (result_header (take 4 (encode_result code restart detail))
        ≡ ok (sent_as code, restart, length (clipped detail)))
      × (result_detail (drop 4 (encode_result code restart detail)) ≡ ok (clipped detail))
      × (length (clipped detail) ≤ max_detail)
unfolding result_detail encode_result from_utf8
result-encode_result code restart detail h =
    let small = clipped-bounds detail in
    let read =
      header_read (or_install (status code)) (restart_byte restart) (length (clipped detail))
        (sent_as code) restart (clipped detail) (from_status-or_install code)
        (from_byte-restart_byte restart) small in
    let body =
      drop-append 2 (be_bytes 2 (length (clipped detail))) (clipped detail)
        (length-be_bytes 2 (length (clipped detail))) in
    (read, rw (body, clipped-is_utf8 detail h) refl, small)
