-- ===== src/Receiver/Honest.antt =====
-- A sender that keeps the protocol, and a system that does its part: `transfer` of
-- crates/kuula-net/src/deploy/receiver.rs installs the package.
use kuula.Prelude.{
  ℕ, zero, suc, ◌+◌, ◌-◌, ◌≤◌, ◌≡◌, refl, sym, ap, ◌∙◌, min, Bool, true, false, Option, none, some,
  [], ◌∷◌, ◌++◌, ltb, length, arith, length-append, append_assoc, append-nil, take, drop,
  length-take, take-append-drop,
}
use kuula.Prelude.Bytes.{Bytes, same_bytes_refl}
use kuula.Prelude.Result.{ok}
use kuula.Wire.Deploy.{Offer, ok_code, encode_offer, encode_result, read_offer}
use kuula.Wire.Deploy.Offers.{read_offer-encode_offer}
use kuula.Receiver.{
  Ctx, Conn, World, Library, Done, done, arrives, reads, send_bytes, emit, with_part, with_cart,
  close, close_bye, offered,
}
use kuula.Receiver.Reading.{chunk, read_chunk, round, written, at_end, receive, receive_data}
use kuula.Receiver.Transfer.{
  Outcome, restart, verify_and_install, let_go, received, take_package, stage, after_offer,
  once_read, once_open, transfer, finish_with, is_none,
}

-- What the world does with an honest sender's package: nothing fails or comes too late, and the bytes
-- come in chunks of any size.
pub record IsHonest (lib : Library) (w : World) (name content : Bytes) : Type 0 where
  pub bytes : Bytes
  pub sendable : encode_offer name (length content) (lib.sha256 content) ≡ ok bytes
  pub digest : length (lib.sha256 content) ≡ 32
  pub opened : w.opened ≡ done (ok tt)
  pub incoming : w.incoming ≡ bytes ++ content
  pub offer_read : w.offer_read ≡ done tt
  pub created : w.created ≡ none
  pub answer_taken : w.answer_taken ≡ true
  pub sizes : ℕ → ℕ
  pub rounds : (k : ℕ) → w.rounds k ≡ reads (arrives (sizes k)) none
  pub pause : ℕ
  pub last : w.last ≡ arrives pause
  pub flushed : w.flushed ≡ none
  pub checked : lib.check_package_file content ≡ none
  pub replaced : w.replaced ≡ none

module _ (w : World) (sizes : ℕ → ℕ)
    (rounds : (k : ℕ) → w.rounds k ≡ reads (arrives (sizes k)) none) (pause : ℕ)
    (last : w.last ≡ arrives pause) where
  ended : at_end [] w.last ≡ ok tt
  unfolding at_end
  ended = rw last refl

  round_whole :
      (want expect got b : ℕ) (bs : Bytes)
      → round want expect (b ∷ bs) got (w.rounds got)
        ≡ ok (take (min (sizes got + 1) want) (b ∷ bs), drop (min (sizes got + 1) want) (b ∷ bs))
  unfolding round read_chunk written
  round_whole want expect got b bs = rw (rounds got) refl

  -- The bytes of the package come whole, in as many rounds as they take.
  receive_whole :
      (fuel expect : ℕ) (rest got : Bytes)
      → length got + length rest ≡ expect
      → length rest ≤ fuel
      → receive fuel expect w rest got ≡ some (got ++ rest, ok tt)
  unfolding receive
  receive_whole zero expect [] got e f =
      let no_more : ltb (length got) expect ≡ false = ground (arith, e) in
      rw (no_more, ended, append-nil got) refl
  receive_whole (suc fuel) expect [] got e f =
      let no_more : ltb (length got) expect ≡ false = ground (arith, e) in
      rw (no_more, ended, append-nil got) refl
  receive_whole zero expect (b ∷ bs) got e f = absurd (omega (arith, f))
  receive_whole (suc fuel) expect (b ∷ bs) got e f =
      let more : ltb (length got) expect ≡ true = ground (arith, e) in
      let k = min (sizes (length got) + 1) (min (expect - length got) chunk) in
      let size : length (take k (b ∷ bs)) ≡ min k (length (b ∷ bs)) = length-take k (b ∷ bs) in
      let whole : take k (b ∷ bs) ++ drop k (b ∷ bs) ≡ b ∷ bs = take-append-drop k (b ∷ bs) in
      let parts : length (take k (b ∷ bs)) + length (drop k (b ∷ bs)) ≡ length (b ∷ bs) =
        sym (length-append (take k (b ∷ bs)) (drop k (b ∷ bs))) ∙ ap length whole in
      let n : length (got ++ take k (b ∷ bs)) ≡ length got + length (take k (b ∷ bs)) =
        length-append got (take k (b ∷ bs)) in
      let came : round (min (expect - length got) chunk) expect (b ∷ bs) (length got)
            (w.rounds (length got))
          ≡ ok (take k (b ∷ bs), drop k (b ∷ bs)) =
        round_whole (min (expect - length got) chunk) expect (length got) b bs in
      let same : (got ++ take k (b ∷ bs)) ++ drop k (b ∷ bs) ≡ got ++ b ∷ bs =
        append_assoc got (take k (b ∷ bs)) (drop k (b ∷ bs)) ∙ ap (λ xs. got ++ xs) whole in
      rw (more, came)
        (receive_whole fuel expect (drop k (b ∷ bs)) (got ++ take k (b ∷ bs))
            (omega (arith, n, parts, e)) (omega (arith, parts, size, f, e))
          ∙ ap (λ xs. some (xs, ok tt)) same)

module _ (lib : Library) (w : World) (name content : Bytes) (v : IsHonest lib w name content) where
  abbrev the_offer : Offer
  the_offer = record { name = name; len = length content; digest_bytes = lib.sha256 content }

  abbrev the_report : Done
  the_report = record {
    name = name;
    bytes = length content;
    code = ok_code;
    restart = (restart w.console).0;
    detail = (restart w.console).1;
  }

  verified :
      (part : ℕ) (ctx : Ctx)
      → verify_and_install lib w part the_offer content ctx ≡ (
        with_part part none (with_cart name content ctx),
        record the_report { name = []; bytes = 0 },
        true,
      )
  unfolding verify_and_install
  verified part ctx =
      rw (same_bytes_refl (lib.sha256 content), v.flushed, v.checked, v.replaced) refl

  read : read_offer w.incoming ≡ ok (the_offer, content)
  read =
      ap read_offer v.incoming
      ∙ read_offer-encode_offer name (lib.sha256 content) content (length content) v.bytes v.digest
          v.sendable

  abbrev the_outcome : Ctx → Conn → Outcome
  the_outcome ctx c =
      finish_with lib w the_report (with_part ctx.next_part none (with_cart name content ctx))
        (send_bytes (0 ∷ []) c)

  abbrev pub Installed : Ctx → Conn → Option Outcome → Type 0
  Installed ctx c o =
      (out : Outcome) × (o ≡ some out)
      × (out.2 ≡ the_report)
      × (out.0.carts ≡ (with_cart name content ctx).carts)
      × (out.1.sent
          ≡ (c.sent ++ (0 ∷ []) ∷ [])
            ++ encode_result ok_code the_report.restart (lib.format the_report.detail) ∷ [])
      × (out.1.closed ≡ some close_bye)

  received_whole :
      (part : ℕ) (ctx : Ctx) (c : Conn)
      → received lib w part the_offer (content, ok tt) ctx c
        ≡ finish_with lib w the_report (with_part part none (with_cart name content ctx)) c
  unfolding received let_go
  received_whole part ctx c =
      ap
        (λ (x : Ctx × Done × Bool).
          finish_with lib w (record x.1 { name = name; bytes = length content })
            (let_go lib w x.2 part x.0) c)
        (verified part ctx)

  package_taken :
      (id : Bytes) (part : ℕ) (ctx : Ctx) (c : Conn)
      → Installed ctx c (take_package lib w id part the_offer content ctx c)
  unfolding take_package receive_data finish_with send_bytes close with_part emit with_cart
  package_taken id part ctx c =
      let got : receive (length content) (length content) w content [] ≡ some (content, ok tt) =
        receive_whole w v.sizes v.rounds v.pause v.last (length content) (length content) content []
          (omega arith) (omega arith) in
      let start = with_part part (some content) (emit (offered id name (length content)) ctx) in
      (
        finish_with lib w the_report (with_part part none (with_cart name content start))
            (send_bytes (0 ∷ []) c),
        ground (arith, v.answer_taken, got, received_whole part start (send_bytes (0 ∷ []) c)),
        refl,
        refl,
        refl,
        refl,
      )

  staged :
      (id : Bytes) (ctx : Ctx) (c : Conn)
      → ctx.parts ctx.next_part ≡ none
      → stage lib w id the_offer content ctx c
        ≡ take_package lib w id ctx.next_part the_offer content
            (with_part ctx.next_part (some []) (record ctx { next_part = ctx.next_part + 1 }))
            c
  unfolding stage is_none
  staged id ctx c new = ground (arith, v.created, new)

  -- Nothing fails: a package that its sender may offer, whose receiver has no staged file in its way,
  -- is installed under its name, in as many chunks as the connection makes of it. The sender is sent
  -- the answer and then the result.
  pub transfer-IsInstalled :
      (id : Bytes) (ctx : Ctx) (c : Conn)
      → ctx.parts ctx.next_part ≡ none
      → Installed ctx c (transfer lib w id ctx c)
  unfolding transfer once_open once_read
  transfer-IsInstalled id ctx c new =
      let start : Ctx =
        with_part ctx.next_part (some []) (record ctx { next_part = ctx.next_part + 1 }) in
      let (out, e, r, carts, sent, closed) = package_taken id ctx.next_part start c in
      (
        out,
        ap (λ o. once_open lib w id o ctx c) v.opened
            ∙ ap (λ o. once_read lib w id o ctx c) v.offer_read
            ∙ ap (λ r. after_offer lib w id r ctx c) read
            ∙ staged id ctx c new
            ∙ e,
        r,
        carts,
        sent,
        closed,
      )
