-- ===== src/Receiver/Atomic.antt =====
-- A transfer installs a whole package that was checked, or nothing: `transfer` of
-- crates/kuula-net/src/deploy/receiver.rs.
use kuula.Prelude.{
  ℕ, ◌+◌, ◌≡◌, ◌≢◌, refl, sym, ap, ◌∙◌, inl, inr, ◌⊎◌, true, false, Option, none, some, [], ◌∷◌,
  ◌==◌, arith, Bool-cases, Option-cases, ==_iff,
}
use kuula.Prelude.Bytes.{Bytes}
use kuula.Prelude.Result.{Result, ok, err}
use kuula.Wire.Deploy.{DeployCode, Offer, OfferError, ok_code, lost, refused, read_offer}
use kuula.Receiver.{
  Ctx, Conn, World, Library, Done, Why, Waited, stopped, late, done, with_part, with_cart, emit,
  send_bytes, fail, offered, offered,
}
use kuula.Receiver.Chunks.{receive_data-IsReceived}
use kuula.Wire.Deploy.Codes.{Rejects, read_offer-Rejects}
use kuula.Receiver.Transfer.{
  Outcome, refuse, let_go, received, take_package, stage, is_none, after_offer, out_of_time,
  cancelled_before_offer, once_read, once_open, transfer,
}
use kuula.Receiver.Install.{
  IsPackage, Installs, IsClean, Moved, let_go_carts, let_go-IsClean, received-Installs,
  received-IsClean,
}

module _ (lib : Library) where
  module _ (w : World) where
    -- The offer that the stream begins with, and the rest of it, are what was installed, or nothing was.
    -- The staged file `part` stays behind only where nothing was installed and it cannot be deleted, and
    -- no other is touched.
    pub record IsAtomic (part : ℕ) (ctx : Ctx) (out : Outcome) : Type 0 where
      pub carts :
          ((o : Offer) × (rest : Bytes) × (read_offer w.incoming ≡ ok (o, rest))
            × IsPackage lib o rest
            × (out.2.code ≡ ok_code)
            × (out.0.carts ≡ (with_cart o.name rest ctx).carts))
          ⊎ ((out.2.code ≢ ok_code) × (out.0.carts ≡ ctx.carts))
      pub parts :
          (k : ℕ)
          → (out.0.parts k ≡ ctx.parts k)
            ⊎ ((k ≡ part) × (w.removed ≡ false) × (out.2.code ≢ ok_code))

    from_Installs :
        (part : ℕ) (o : Offer) (rest : Bytes) (ctx : Ctx) (out : Outcome)
        → read_offer w.incoming ≡ ok (o, rest)
        → Installs lib o rest ctx out.0 out.2
        → ((k : ℕ)
            → (out.0.parts k ≡ ctx.parts k)
              ⊎ ((k ≡ part) × (w.removed ≡ false) × (out.2.code ≢ ok_code)))
        → IsAtomic part ctx out
    from_Installs part o rest ctx out e (inl (code, whole, carts)) parts = record {
      carts = inl (o, rest, e, whole, code, carts);
      parts = parts;
    }
    from_Installs part o rest ctx out e (inr none_done) parts = record {
      carts = inr none_done;
      parts = parts;
    }

    -- What is clean in the end was never there before.
    clean_parts :
        (part : ℕ) (ctx staged ctx' : Ctx) (d : Done)
        → ctx.parts part ≡ none
        → ((k : ℕ) → (k == part) ≡ false → staged.parts k ≡ ctx.parts k)
        → IsClean lib w part staged ctx' d
        → (k : ℕ)
        → (ctx'.parts k ≡ ctx.parts k) ⊎ ((k ≡ part) × (w.removed ≡ false) × (d.code ≢ ok_code))
    clean_parts part ctx staged ctx' d new same v k = elim (Bool-cases (k == part)) [
      | inr s ↦ inl (v.others k s ∙ same k s)
      | inl s ↦
          let at : k ≡ part = (==_iff k part).0 s in
          elim v.own [
            | inl gone ↦ inl (ap ctx'.parts at ∙ gone ∙ sym new ∙ ap ctx.parts (sym at))
            | inr (stays, failed) ↦ inr (at, stays, failed)
          ]
    ]

    take_package-IsAtomic :
        (id : Bytes) (part : ℕ) (o : Offer) (rest : Bytes) (ctx : Ctx) (c : Conn)
        → read_offer w.incoming ≡ ok (o, rest)
        → ctx.parts part ≡ none
        → (out : Outcome) × (take_package lib w id part o rest (with_part part (some []) ctx) c
            ≡ some out)
          × IsAtomic part ctx out
    unfolding take_package emit with_part send_bytes Moved
    take_package-IsAtomic id part o rest ctx c e new = elim (Bool-cases w.answer_taken) [
      | inr refused_it ↦
          let staged = with_part part (some []) ctx in
          let d = fail o.name 0 DeployCode.interrupted Why.no_answer_taken in
          (
            (let_go lib w false part staged, c, d),
            ground (arith, refused_it),
            record {
              carts = inr ((λ p. cc p), let_go_carts lib w false part staged);
              parts =
                  clean_parts part ctx staged (let_go lib w false part staged) d new
                    (λ k s. rw s refl)
                    (let_go-IsClean lib w part staged (staged, d, false) (refl, (λ p. cc p)));
            },
          )
      | inl taken ↦
          let (got, e', v) = receive_data-IsReceived o.len w rest in
          let started = emit (offered id o.name o.len) (with_part part (some []) ctx) in
          let staged = with_part part (some got.0) started in
          let sent = send_bytes (0 ∷ []) c in
          let out = received lib w part o got staged sent in
          (
            out,
            ground (arith, taken, e'),
            from_Installs part o rest ctx out e
                (received-Installs lib w part o rest got staged sent v)
                (clean_parts part ctx staged out.0 out.2 new (λ k s. rw s refl)
                  (received-IsClean lib w part o rest got staged sent v)),
          )
    ]

    -- An attempt that touched no file.
    untouched :
        (part : ℕ) (ctx : Ctx) (out : Outcome)
        → out.2.code ≢ ok_code
        → out.0.carts ≡ ctx.carts
        → out.0.parts ≡ ctx.parts
        → IsAtomic part ctx out
    untouched part ctx out code carts parts = record {
      carts = inr (code, carts);
      parts = λ k. inl (ap (λ f. f k) parts);
    }

    abbrev pub Ends : Ctx → Option Outcome → Type 0
    Ends ctx o = (out : Outcome) × (o ≡ some out) × IsAtomic ctx.next_part ctx out

    stage-IsAtomic :
        (id : Bytes) (o : Offer) (rest : Bytes) (ctx : Ctx) (c : Conn)
        → read_offer w.incoming ≡ ok (o, rest)
        → Ends ctx (stage lib w id o rest ctx c)
    unfolding stage refuse
    stage-IsAtomic id o rest ctx c e =
        let next : Ctx = record ctx { next_part = ctx.next_part + 1 } in
        elim (Option-cases w.created) [
          | inr (why, p) ↦ (
            refuse lib w o.name DeployCode.install (Why.not_created why) next c,
            ground (arith, p),
            untouched ctx.next_part ctx _ (λ q. cc q) refl refl,
          )
          | inl created ↦ elim (Option-cases (ctx.parts ctx.next_part)) [
            | inr (old, p) ↦ (
              refuse lib w o.name DeployCode.install (Why.not_created []) next c,
              ground (arith, created, p, is_none_old old),
              untouched ctx.next_part ctx _ (λ q. cc q) refl refl,
            )
            | inl new ↦
                let (out, p, v) = take_package-IsAtomic id ctx.next_part o rest next c e new in
                (
                  out,
                  ground (arith, created, new, is_none_new, p),
                  record { carts = v.carts; parts = v.parts },
                )
          ]
        ]
      where
        is_none_old : (old : Bytes) → is_none lib w (some old) ≡ false
        is_none_old old = refl

        is_none_new : is_none lib w none ≡ true
        is_none_new = refl

    after_offer-IsAtomic :
        (id : Bytes) (r : Result OfferError (Offer × Bytes)) (ctx : Ctx) (c : Conn)
        → read_offer w.incoming ≡ r
        → Rejects r
        → Ends ctx (after_offer lib w id r ctx c)
    unfolding after_offer refuse
    after_offer-IsAtomic id (err lost) ctx c e p =
        (_, refl, untouched ctx.next_part ctx _ (λ q. cc q) refl refl)
    after_offer-IsAtomic id (err (refused r)) ctx c e p =
        (_, refl, untouched ctx.next_part ctx _ p refl refl)
    after_offer-IsAtomic id (ok (o, rest)) ctx c e p = stage-IsAtomic id o rest ctx c e

    once_read-IsAtomic :
        (id : Bytes) (r : Waited (Unit {0})) (ctx : Ctx) (c : Conn)
        → Ends ctx (once_read lib w id r ctx c)
    unfolding once_read out_of_time cancelled_before_offer
    once_read-IsAtomic id stopped ctx c =
        (_, refl, untouched ctx.next_part ctx _ (λ q. cc q) refl refl)
    once_read-IsAtomic id late ctx c =
        (_, refl, untouched ctx.next_part ctx _ (λ q. cc q) refl refl)
    once_read-IsAtomic id (done u) ctx c =
        after_offer-IsAtomic id (read_offer w.incoming) ctx c refl (read_offer-Rejects w.incoming)

    once_open-IsAtomic :
        (id : Bytes) (o : Waited (Result Bytes (Unit {0}))) (ctx : Ctx) (c : Conn)
        → Ends ctx (once_open lib w id o ctx c)
    unfolding once_open out_of_time cancelled_before_offer
    once_open-IsAtomic id stopped ctx c =
        (_, refl, untouched ctx.next_part ctx _ (λ q. cc q) refl refl)
    once_open-IsAtomic id late ctx c =
        (_, refl, untouched ctx.next_part ctx _ (λ q. cc q) refl refl)
    once_open-IsAtomic id (done (err why)) ctx c =
        (_, refl, untouched ctx.next_part ctx _ (λ q. cc q) refl refl)
    once_open-IsAtomic id (done (ok u)) ctx c = once_read-IsAtomic id w.offer_read ctx c

    -- A transfer ends, whatever the sender, the file system and the console do. It installs what
    -- follows the offer on the stream, as long as offered, with the digest offered and a cart by the
    -- checks, and reports success; or it leaves the carts as they were and reports another code. Its
    -- staged file is gone then, unless it reports failure and the file cannot be deleted; no other staged
    -- file is touched.
    pub transfer-IsAtomic : (id : Bytes) (ctx : Ctx) (c : Conn) → Ends ctx (transfer lib w id ctx c)
    unfolding transfer
    transfer-IsAtomic id ctx c = once_open-IsAtomic id w.opened ctx c
