-- ===== src/Receiver/Install.antt =====
-- What follows a package, `verify_and_install` and the deletion of a staged file in
-- crates/kuula-net/src/deploy/receiver.rs: the package is installed, or nothing is.
use kuula.Prelude.{
  if_either, ℕ, ◌≡◌, ◌≢◌, refl, sym, ap, ◌∙◌, inl, inr, ◌⊎◌, Bool, true, false, none, ◌++◌, ◌==◌,
  length, Bool-cases, Option-cases, append-nil, ==_iff,
}
use kuula.Prelude.Bytes.{Bytes, same_bytes, same_bytes_iff}
use kuula.Prelude.Result.{Result, ok, err}
use kuula.Wire.Deploy.{Offer, ok_code}
use kuula.Receiver.{Ctx, Conn, World, Library, Done, with_part, with_cart, fail}
use kuula.Receiver.Reading.{Failure}
use kuula.Receiver.Chunks.{IsReceived}
use kuula.Receiver.Transfer.{finish_with, verify_and_install, let_go, received}

module _ (lib : Library) where
  -- A package: as long as its offer says, with its digest, and a cart by the checks.
  pub record IsPackage (o : Offer) (content : Bytes) : Type 0 where
    pub size : length content ≡ o.len
    pub digest : lib.sha256 content ≡ o.digest_bytes
    pub checked : lib.check_package_file content ≡ none

  -- The carts after an attempt on a stream that holds an offer and then `rest`.
  abbrev pub Installs : Offer → Bytes → Ctx → Ctx → Done → Type 0
  Installs o rest ctx ctx' d =
      ((d.code ≡ ok_code) × IsPackage o rest × (ctx'.carts ≡ (with_cart o.name rest ctx).carts))
      ⊎ ((d.code ≢ ok_code) × (ctx'.carts ≡ ctx.carts))

  module _ (w : World) where
    pub verify_and_install-Installs :
        (part : ℕ) (o : Offer) (content : Bytes) (ctx : Ctx)
        → length content ≡ o.len
        → Installs o content ctx
            (verify_and_install lib w part o content ctx).0
            (verify_and_install lib w part o content ctx).1
    unfolding verify_and_install with_part
    verify_and_install-Installs part o content ctx size =
        elim (Bool-cases (same_bytes (lib.sha256 content) o.digest_bytes)) [
          | inr differs ↦ rw differs (inr ((λ e. cc e), refl))
          | inl same ↦ elim (Option-cases w.flushed) [
            | inr (why, e) ↦ rw (same, e) (inr ((λ e. cc e), refl))
            | inl flushed ↦ elim (Option-cases (lib.check_package_file content)) [
              | inr (why, e) ↦ rw (same, flushed, e) (inr ((λ e. cc e), refl))
              | inl checked ↦ elim (Option-cases w.replaced) [
                | inr (why, e) ↦ rw (same, flushed, checked, e) (inr ((λ e. cc e), refl))
                | inl replaced ↦
                    rw (same, flushed, checked, replaced)
                      (inl (
                        refl,
                        record {
                          size = size;
                          digest = (same_bytes_iff (lib.sha256 content) o.digest_bytes).0 same;
                          checked = checked;
                        },
                        refl,
                      ))
              ]
            ]
          ]
        ]

    -- The staged file `part` is gone, unless an attempt that failed could not delete it. No other staged
    -- file is touched.
    pub record IsClean (part : ℕ) (ctx ctx' : Ctx) (d : Done) : Type 0 where
      pub others : (k : ℕ) → (k == part) ≡ false → ctx'.parts k ≡ ctx.parts k
      pub own : (ctx'.parts part ≡ none) ⊎ ((w.removed ≡ false) × (d.code ≢ ok_code))

    -- A check that failed left the files alone; a package that was moved is no longer staged.
    unfoldable pub Moved : ℕ → Ctx → Ctx × Done × Bool → Type 0
    Moved part ctx (ctx', d, false) = (ctx'.parts ≡ ctx.parts) × (d.code ≢ ok_code)
    Moved part ctx (ctx', d, true) =
        ((k : ℕ) → (k == part) ≡ false → ctx'.parts k ≡ ctx.parts k) × (ctx'.parts part ≡ none)

    verify_and_install-Moved :
        (part : ℕ) (o : Offer) (content : Bytes) (ctx : Ctx)
        → Moved part ctx (verify_and_install lib w part o content ctx)
    unfolding verify_and_install with_part with_cart Moved
    verify_and_install-Moved part o content ctx =
        elim (Bool-cases (same_bytes (lib.sha256 content) o.digest_bytes)) [
          | inr differs ↦ rw differs (refl, (λ e. cc e))
          | inl same ↦ elim (Option-cases w.flushed) [
            | inr (why, e) ↦ rw (same, e) (refl, (λ e. cc e))
            | inl flushed ↦ elim (Option-cases (lib.check_package_file content)) [
              | inr (why, e) ↦ rw (same, flushed, e) (refl, (λ e. cc e))
              | inl checked ↦ elim (Option-cases w.replaced) [
                | inr (why, e) ↦ rw (same, flushed, checked, e) (refl, (λ e. cc e))
                | inl replaced ↦
                    rw (same, flushed, checked, replaced)
                      ((λ k s. rw s refl), rw ((==_iff part part).1 refl) refl)
              ]
            ]
          ]
        ]

    pub let_go-IsClean :
        (part : ℕ) (ctx : Ctx) (r : Ctx × Done × Bool)
        → Moved part ctx r
        → IsClean part ctx (let_go lib w r.2 part r.0) r.1
    unfolding let_go with_part Moved
    let_go-IsClean part ctx (ctx', d, true) (others, own) = record {
      others = others;
      own = inl own;
    }
    let_go-IsClean part ctx (ctx', d, false) (same, failed) =
        if_either (λ (x : Ctx). IsClean part ctx x d) w.removed (with_part part none ctx') ctx'
          (λ gone. record {
            others = λ k s. rw s (ap (λ f. f k) same);
            own = inl (rw ((==_iff part part).1 refl) refl);
          })
          (λ stays. record { others = λ k s. ap (λ f. f k) same; own = inr (stays, failed) })

    pub let_go_carts :
        (installed : Bool) (part : ℕ) (ctx : Ctx)
        → (let_go lib w installed part ctx).carts ≡ ctx.carts
    unfolding let_go with_part
    let_go_carts true part ctx = refl
    let_go_carts false part ctx = elim (Bool-cases w.removed) [
      | inl e ↦ rw (let_go, e) refl
      | inr e ↦ rw (let_go, e) refl
    ]

    -- What follows keeps the code and the carts.
    same_carts :
        (o : Offer) (rest : Bytes) (ctx a b : Ctx) (d d' : Done)
        → d'.code ≡ d.code
        → b.carts ≡ a.carts
        → Installs o rest ctx a d
        → Installs o rest ctx b d'
    same_carts o rest ctx a b d d' e f (inl (code, whole, carts)) = inl (e ∙ code, whole, f ∙ carts)
    same_carts o rest ctx a b d d' e f (inr (code, carts)) =
        inr ((λ q. code (sym e ∙ q)), f ∙ carts)

    pub received-Installs :
        (part : ℕ) (o : Offer) (rest : Bytes) (got : Bytes × Result Failure (Unit {0})) (ctx : Ctx)
        (c : Conn)
        → IsReceived o.len rest got
        → Installs o rest ctx
            (received lib w part o got ctx c).0
            (received lib w part o got ctx c).2
    unfolding received finish_with
    received-Installs part o rest (content, err f) ctx c v =
        inr (v.fails, let_go_carts false part ctx)
    received-Installs part o rest (content, ok u) ctx c v =
        let (size, end) = v.full refl in
        let same : content ≡ rest =
          sym (append-nil content) ∙ ap (λ xs. content ++ xs) (sym end) ∙ v.whole in
        let (ctx', d, installed) = verify_and_install lib w part o content ctx in
        rw (← same) (
          same_carts o content ctx ctx' (let_go lib w installed part ctx') d
            (record d { name = o.name; bytes = length content }) refl
            (let_go_carts installed part ctx')
            (verify_and_install-Installs part o content ctx size))

    pub received-IsClean :
        (part : ℕ) (o : Offer) (rest : Bytes) (got : Bytes × Result Failure (Unit {0})) (ctx : Ctx)
        (c : Conn)
        → IsReceived o.len rest got
        → IsClean part ctx (received lib w part o got ctx c).0 (received lib w part o got ctx c).2
    unfolding received finish_with Moved
    received-IsClean part o rest (content, err f) ctx c v =
        let_go-IsClean part ctx (ctx, fail o.name (length content) f.code f.why, false)
          (refl, v.fails)
    received-IsClean part o rest (content, ok u) ctx c v =
        let q =
          let_go-IsClean part ctx (verify_and_install lib w part o content ctx)
            (verify_and_install-Moved part o content ctx) in
        record { others = q.others; own = q.own }
