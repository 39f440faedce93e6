-- ===== src/Wire/Deploy/Codes.antt =====
-- The codes of a refused offer, crates/kuula-net/src/deploy/wire.rs: none is that of success.
use kuula.Prelude.{ℕ, ◌≢◌, Option, none, some, arith, take}
use kuula.Prelude.Bytes.{Bytes, from_be}
use kuula.Prelude.Utf8.{from_utf8}
use kuula.Prelude.Result.{Result, ok, err, ◌>>=◌}
use kuula.Wire.Play.{End, read_exact}
use kuula.Wire.Deploy.{
  ok_code, Refusal, OfferError, lost, refused, check_name, check_len, offer_prefix, offer_name,
  offer_tail, read_offer, or_lost, refusing, or_refused,
}

abbrev Refuses {ℓ} : {A : Type ℓ} → Result Refusal A → Type 0
Refuses (ok a) = Unit
Refuses (err r) = r.code ≢ ok_code

abbrev pub Rejects {ℓ} : {A : Type ℓ} → Result OfferError A → Type 0
Rejects (ok a) = Unit
Rejects (err lost) = Unit
Rejects (err (refused r)) = r.code ≢ ok_code

check_name-Refuses : (name : Bytes) → Refuses (check_name name)
unfolding check_name
check_name-Refuses name = ground arith

check_len-Refuses : (n : ℕ) → Refuses (check_len n)
unfolding check_len
check_len-Refuses n = ground arith

offer_prefix-Refuses : (p : Bytes) → Refuses (offer_prefix p)
unfolding offer_prefix
offer_prefix-Refuses p = ground arith

bind-Refuses {ℓ κ} :
    {A : Type ℓ} {B : Type κ} (r : Result Refusal A) (k : A → Result Refusal B)
    → Refuses r
    → ((a : A) → Refuses (k a))
    → Refuses (r >>= k)
bind-Refuses (err e) k p q = p
bind-Refuses (ok a) k p q = q a

or_refused-Refuses : (o : Option Bytes) (r : Refusal) → r.code ≢ ok_code → Refuses (or_refused o r)
unfolding or_refused
or_refused-Refuses none r p = p
or_refused-Refuses (some s) r p = tt

offer_name-Refuses : (bytes : Bytes) → Refuses (offer_name bytes)
unfolding offer_name
offer_name-Refuses bytes =
    bind-Refuses (or_refused (from_utf8 bytes) _) _
      (or_refused-Refuses (from_utf8 bytes) _ (λ e. cc e))
      (λ name. bind-Refuses (check_name name) _ (check_name-Refuses name) (λ u. tt))

offer_tail-Refuses : (name t : Bytes) → Refuses (offer_tail name t)
unfolding offer_tail
offer_tail-Refuses name t =
    bind-Refuses (check_len (from_be 0 (take 4 t))) _ (check_len-Refuses (from_be 0 (take 4 t)))
      (λ u. tt)

bind-Rejects {ℓ κ} :
    {A : Type ℓ} {B : Type κ} (r : Result OfferError A) (k : A → Result OfferError B)
    → Rejects r
    → ((a : A) → Rejects (k a))
    → Rejects (r >>= k)
bind-Rejects (err e) k p q = p
bind-Rejects (ok a) k p q = q a

or_lost-Rejects {ℓ} : {A : Type ℓ} (r : Result End A) → Rejects (or_lost r)
unfolding or_lost
or_lost-Rejects (ok a) = tt
or_lost-Rejects (err e) = tt

refusing-Rejects {ℓ} : {A : Type ℓ} (r : Result Refusal A) → Refuses r → Rejects (refusing r)
unfolding refusing
refusing-Rejects (ok a) p = tt
refusing-Rejects (err r) p = p

pub read_offer-Rejects : (s : Bytes) → Rejects (read_offer s)
unfolding read_offer
read_offer-Rejects s =
    bind-Rejects (or_lost (read_exact 7 s)) _ (or_lost-Rejects (read_exact 7 s))
      (λ (p : Bytes × Bytes).
        bind-Rejects (refusing (offer_prefix p.0)) _
          (refusing-Rejects (offer_prefix p.0) (offer_prefix-Refuses p.0))
          (λ n.
            bind-Rejects (or_lost (read_exact n p.1)) _ (or_lost-Rejects (read_exact n p.1))
              (λ (q : Bytes × Bytes).
                bind-Rejects (refusing (offer_name q.0)) _
                  (refusing-Rejects (offer_name q.0) (offer_name-Refuses q.0))
                  (λ name.
                    bind-Rejects (or_lost (read_exact 36 q.1)) _
                      (or_lost-Rejects (read_exact 36 q.1))
                      (λ (t : Bytes × Bytes).
                        bind-Rejects (refusing (offer_tail name t.0)) _
                          (refusing-Rejects (offer_tail name t.0) (offer_tail-Refuses name t.0))
                          (λ o. tt))))))
