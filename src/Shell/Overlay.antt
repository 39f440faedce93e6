-- ===== src/Shell/Overlay.antt =====
-- What the composed screen shows, and the bound of the shell's requests.
use kuula.Prelude.{
  ℕ, zero, suc, ◌≤◌, ◌≡◌, some, List, [], ◌∷◌, arith, ◌==◌, length, length-append, get_elem?,
  if◌then◌else◌,
}
use kuula.Shell.{SysRequest, SysState, ask, max_requests, compose}

-- The requests of a frame of the shell, in order.
unfoldable pub ask_all : List SysRequest → SysState → SysState
ask_all [] s = s
ask_all (r ∷ rs) s = ask_all rs (ask r s)

ask-le :
    (r : SysRequest) (s : SysState)
    → length s.requests ≤ max_requests
    → length (ask r s).requests ≤ max_requests
unfolding ask
ask-le r s h = ground (arith, length-append s.requests (r ∷ []))

-- However many requests the shell makes, at most 64 of them wait.
pub ask_all-le :
    (rs : List SysRequest) (s : SysState)
    → length s.requests ≤ max_requests
    → length (ask_all rs s).requests ≤ max_requests
unfolding ask_all
ask_all-le [] s h = h
ask_all-le (r ∷ rs) s h = ask_all-le rs (ask r s) (ask-le r s h)

-- Where both screens have a pixel, the composed screen shows the shell's, or the cart's where the
-- shell's is colour 0.
pub get_elem?-compose :
    (cart overlay : List ℕ) (i c o : ℕ)
    → get_elem? cart i ≡ some c
    → get_elem? overlay i ≡ some o
    → get_elem? (compose cart overlay) i ≡ some (if o == 0 then c else o)
unfolding compose
get_elem?-compose [] overlay i c o p q = cc
get_elem?-compose (x ∷ cart) [] i c o p q = cc
get_elem?-compose (x ∷ cart) (y ∷ overlay) zero c o p q = ground (arith, p, q)
get_elem?-compose (x ∷ cart) (y ∷ overlay) (suc i) c o p q =
    get_elem?-compose cart overlay i c o p q
