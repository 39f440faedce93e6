-- ===== src/Receiver/Transfer.antt =====
-- `transfer`, `verify_and_install` and `handle` of crates/kuula-net/src/deploy/receiver.rs.
use kuula.Prelude.{ℕ, ◌+◌, Bool, true, false, Option, none, some, [], ◌∷◌, length, if◌then◌else◌}
use kuula.Prelude.Bytes.{Bytes, same_bytes}
use kuula.Prelude.Result.{Result, ok, err}
use kuula.Wire.Deploy.{
  DeployCode, Restart, Offer, OfferError, ok_code, digest, invalid, interrupted, cancelled, not_run,
  timeout, lost, refused, status, encode_result, read_offer,
}
use kuula.Receiver.{
  Ctx, Conn, World, Library, Done, Why, Asked, Waited, Console, stopped, late, done, absent,
  console_left, silent, answers, fail, send_bytes, close, emit, with_part, with_cart, close_bye,
  close_busy, close_timeout, close_shutdown, close_unpaired, no_offer, late_offer, shutting_down,
  no_answer_taken, console_gone, nothing, offer_lost, refused_offer, not_created, not_flushed,
  not_replaced, digests, invalid_package, answered, unpaired_event, busy_event, offered, finished,
  fresh,
}
use kuula.Receiver.Reading.{Failure, receive_data}

-- `r.code.status().unwrap_or(1)`
unfoldable pub status_byte : DeployCode → ℕ
unfolding status
status_byte c = elim (status c) [ none ↦ 1 | some b ↦ b ]

-- What a call of `transfer` leaves.
abbrev pub Outcome : Type 0
Outcome = Ctx × Conn × Done

unfoldable pub restart : Console → Restart × Why
restart absent = (not_run, nothing)
restart console_left = (not_run, console_gone)
restart silent = (timeout, nothing)
restart (answers r detail) = (r, answered detail)

module _ (lib : Library) (w : World) where
  -- refuse
  unfoldable pub refuse : Bytes → DeployCode → Why → Ctx → Conn → Outcome
  unfolding status_byte send_bytes close
  refuse name code why ctx c =
      (ctx, close close_bye (send_bytes (status_byte code ∷ []) c), fail name 0 code why)

  -- finish_with, and then the result of the transfer
  unfoldable pub finish_with : Done → Ctx → Conn → Outcome
  unfolding send_bytes close
  finish_with d ctx c = (
    ctx,
    close close_bye (send_bytes (encode_result d.code d.restart (lib.format d.detail)) c),
    d,
  )

  -- verify_and_install, with the file that was staged as `part`: how it went, and whether the file was
  -- moved to the carts.
  unfoldable pub verify_and_install : ℕ → Offer → Bytes → Ctx → Ctx × Done × Bool
  unfolding with_cart with_part restart same_bytes
  verify_and_install part o content ctx =
      if same_bytes (lib.sha256 content) o.digest_bytes
      then elim w.flushed [
        | some why ↦ (ctx, fail [] 0 DeployCode.install (not_flushed why), false)
        | none ↦ elim (lib.check_package_file content) [
          | some why ↦ (ctx, fail [] 0 invalid (invalid_package why), false)
          | none ↦ elim w.replaced [
            | some why ↦ (ctx, fail [] 0 DeployCode.install (not_replaced why), false)
            | none ↦
                let (r, detail) = restart w.console in
                (
                  with_part part none (with_cart o.name content ctx),
                  record { name = []; bytes = 0; code = ok_code; restart = r; detail = detail },
                  true,
                )
          ]
        ]
      ]
      else (ctx, fail [] 0 digest (digests o.digest_bytes (lib.sha256 content)), false)

  -- Staged::drop: a file that was not installed is deleted, if it can be.
  unfoldable pub let_go : Bool → ℕ → Ctx → Ctx
  unfolding with_part
  let_go true part ctx = ctx
  let_go false part ctx = if w.removed then with_part part none ctx else ctx

  -- What follows the package, whose staged file is `part`.
  unfoldable pub received : ℕ → Offer → Bytes × Result Failure (Unit {0}) → Ctx → Conn → Outcome
  unfolding verify_and_install let_go finish_with
  received part o (content, err f) ctx c =
      finish_with (fail o.name (length content) f.code f.why) (let_go false part ctx)
        (record c { reading_stopped = true })
  received part o (content, ok u) ctx c =
      let (ctx', d, installed) = verify_and_install part o content ctx in
      finish_with (record d { name = o.name; bytes = length content }) (let_go installed part ctx')
        c

  -- The answer, the package and what follows, with the stream after the offer.
  unfoldable pub take_package : Bytes → ℕ → Offer → Bytes → Ctx → Conn → Option Outcome
  unfolding received send_bytes emit with_part let_go
  take_package id part o rest ctx c =
      if w.answer_taken
      then elim (receive_data o.len w rest) [
        | none ↦ none
        | some got ↦ some (
            received part o got (with_part part (some got.0) (emit (offered id o.name o.len) ctx))
              (send_bytes (0 ∷ []) c))
      ]
      else some (let_go false part ctx, c, fail o.name 0 interrupted no_answer_taken)

  unfoldable pub is_none : Option Bytes → Bool
  is_none none = true
  is_none (some b) = false

  -- The staged file, which must be new.
  unfoldable pub stage : Bytes → Offer → Bytes → Ctx → Conn → Option Outcome
  unfolding take_package refuse is_none with_part
  stage id o rest ctx c =
      let part = ctx.next_part in
      let ctx' : Ctx = record ctx { next_part = part + 1 } in
      elim w.created [
        | some why ↦ some (refuse o.name DeployCode.install (not_created why) ctx' c)
        | none ↦
            if is_none (ctx.parts part)
            then take_package id part o rest (with_part part (some []) ctx') c
            else some (refuse o.name DeployCode.install (not_created []) ctx' c)
      ]

  unfoldable pub after_offer :
      Bytes → Result OfferError (Offer × Bytes) → Ctx → Conn → Option Outcome
  unfolding stage refuse
  after_offer id (err lost) ctx c = some (ctx, c, fail [] 0 DeployCode.offer offer_lost)
  after_offer id (err (refused r)) ctx c = some (refuse [] r.code (refused_offer r.detail) ctx c)
  after_offer id (ok (o, rest)) ctx c = stage id o rest ctx c

  -- no_offer and cancelled_before_offer
  unfoldable pub out_of_time : Ctx → Conn → Outcome
  unfolding close
  out_of_time ctx c = (ctx, close close_timeout c, fail [] 0 DeployCode.offer late_offer)

  unfoldable pub cancelled_before_offer : Ctx → Conn → Outcome
  unfolding close
  cancelled_before_offer ctx c = (ctx, close close_shutdown c, fail [] 0 cancelled shutting_down)

  unfoldable pub once_read : Bytes → Waited (Unit {0}) → Ctx → Conn → Option Outcome
  unfolding after_offer out_of_time cancelled_before_offer
  once_read id stopped ctx c = some (cancelled_before_offer ctx c)
  once_read id late ctx c = some (out_of_time ctx c)
  once_read id (done u) ctx c = after_offer id (read_offer w.incoming) ctx c

  unfoldable pub once_open : Bytes → Waited (Result Bytes (Unit {0})) → Ctx → Conn → Option Outcome
  unfolding once_read out_of_time cancelled_before_offer
  once_open id stopped ctx c = some (cancelled_before_offer ctx c)
  once_open id late ctx c = some (out_of_time ctx c)
  once_open id (done (err why)) ctx c = some (ctx, c, fail [] 0 DeployCode.offer no_offer)
  once_open id (done (ok u)) ctx c = once_read id w.offer_read ctx c

  unfoldable pub transfer : Bytes → Ctx → Conn → Option Outcome
  unfolding once_open
  transfer id ctx c = once_open id w.opened ctx c

  -- `asked`, for a connection that comes from the address `from`: the receiver and the connection are
  -- those that it is given.
  unfoldable pub asked_offer :
      Bytes → Result OfferError (Offer × Bytes) → Ctx → Conn → Ctx × Conn × Option Asked
  asked_offer from (err e) ctx c = (ctx, c, none)
  asked_offer from (ok (o, rest)) ctx c =
      (ctx, c, some (record { name = o.name; bytes = o.len; from = from }))

  unfoldable pub asked_read : Bytes → Waited (Unit {0}) → Ctx → Conn → Ctx × Conn × Option Asked
  unfolding asked_offer
  asked_read from stopped ctx c = (ctx, c, none)
  asked_read from late ctx c = (ctx, c, none)
  asked_read from (done u) ctx c = asked_offer from (read_offer w.incoming) ctx c

  unfoldable pub asked_open :
      Bytes → Waited (Result Bytes (Unit {0})) → Ctx → Conn → Ctx × Conn × Option Asked
  unfolding asked_read
  asked_open from stopped ctx c = (ctx, c, none)
  asked_open from late ctx c = (ctx, c, none)
  asked_open from (done (err why)) ctx c = (ctx, c, none)
  asked_open from (done (ok u)) ctx c = asked_read from w.offer_read ctx c

  unfoldable pub asked : Bytes → Ctx → Conn → Ctx × Conn × Option Asked
  unfolding asked_open
  asked from ctx c = asked_open from w.opened ctx c

  -- A connection that is not approved: `reported` is the limiter's answer.
  unfoldable pub turned_away : Bytes → Bytes → Bool → Ctx → Conn → Ctx × Conn
  unfolding asked emit close
  turned_away id from false ctx c = (ctx, close close_unpaired c)
  turned_away id from true ctx c =
      let (ctx', c', a) = asked from ctx c in
      (emit (unpaired_event id a) ctx', close close_unpaired c')

  -- The transfer, and what is left when the guard of the active flag is dropped.
  unfoldable pub transferred : Bytes → Ctx → Conn → Option (Ctx × Conn)
  unfolding transfer emit
  transferred id ctx c = elim (transfer id (record ctx { active = true }) c) [
    | none ↦ none
    | some (ctx', c', d) ↦ some (emit (finished id d) (record ctx' { active = false }), c')
  ]

  -- `handle`, after the handshake: `approved` is the store's answer for the id.
  unfoldable pub handle : Bytes → Bytes → Bool → Bool → Ctx → Option (Ctx × Conn)
  unfolding turned_away transferred close emit
  handle id from false reported ctx = some (turned_away id from reported ctx fresh)
  handle id from true reported ctx =
      if ctx.active
      then some (emit (busy_event id) ctx, close close_busy fresh)
      else transferred id ctx fresh
