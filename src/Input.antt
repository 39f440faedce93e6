-- ===== src/Input.antt =====
-- The buttons of a frame: crates/kuula-core/src/input.rs. A word of buttons is a number below 2 ^ 16;
-- the bits of Start and Select stand together, as `w / 2 ^ 12 % 4`.
pub mod Menu
mod Tests
use kuula.Prelude.{
  ℕ, zero, suc, ◌+◌, ◌-◌, ◌*◌, ◌/◌, ◌%◌, ◌^◌, ◌≤◌, ◌<◌, ◌≡◌, ◌≢◌, refl, ap, arith, Bool, true,
  false, ◌&&◌, List, [], ◌∷◌, All, ltb, ◌==◌, if◌then◌else◌,
}

abbrev pub button_count : ℕ
button_count = 14

abbrev pub btn_menu : ℕ
btn_menu = 2 ^ 15

-- `buttons & Chord::BOTH`, moved down: 3 where both are held.
abbrev pub both : ℕ → ℕ
both w = w / 2 ^ 12 % 4

-- `buttons & !Chord::BOTH`
abbrev pub without_both : ℕ → ℕ
without_both w = w - both w * 2 ^ 12

-- `w | BTN_MENU`
abbrev pub with_menu : ℕ → ℕ
with_menu w = if w / 2 ^ 15 % 2 == 1 then w else w + btn_menu

-- FrameInput::held
unfoldable pub held : ℕ → ℕ → Bool
held n w = ltb n button_count && w / 2 ^ n % 2 == 1

-- FrameInput::for_cart, with CART_BUTTONS the 14 low bits.
abbrev pub for_cart : ℕ → ℕ
for_cart w = w % 2 ^ 14

pub record Chord : Type 0 where
  pub taken : Bool

-- Chord::apply
unfoldable pub apply : ℕ → Chord → ℕ × Chord
apply w c =
    let taken = if both w == 0 then false else c.taken in
    if both w == 3
    then (with_menu (without_both w), record { taken = true })
    else if taken
    then (without_both w, record { taken = taken })
    else (w, record { taken = taken })

-- What the frames of a session become.
unfoldable pub filter_all : List ℕ → Chord → List ℕ
filter_all [] c = []
filter_all (w ∷ ws) c = let (out, c') = apply w c in out ∷ filter_all ws c'

abbrev pub fresh : Chord
fresh = record { taken = false }

pub apply_apart : (w : ℕ) (c : Chord) → both (apply w c).0 ≢ 3
unfolding apply
apply_apart w c = ground arith

pass_again : (w : ℕ) → both w ≢ 3 → apply w fresh ≡ (w, fresh)
unfolding apply
pass_again w h = ground arith

filter_apart : (ws : List ℕ) → All (λ w. both w ≢ 3) ws → filter_all ws fresh ≡ ws
unfolding filter_all
filter_apart [] h = refl
filter_apart (w ∷ ws) h = rw (pass_again w h.0) (ap (λ l. w ∷ l) (filter_apart ws h.1))

-- No frame that comes out of the chord holds Start and Select together.
filter_all-apart : (ws : List ℕ) (c : Chord) → All (λ w. both w ≢ 3) (filter_all ws c)
unfolding filter_all
filter_all-apart [] c = tt
filter_all-apart (w ∷ ws) c = (apply_apart w c, filter_all-apart ws (apply w c).1)

-- Frames that have been through the chord, in any state, pass a fresh one unchanged.
pub filter_all-filter_all :
    (ws : List ℕ) (c : Chord) → filter_all (filter_all ws c) fresh ≡ filter_all ws c
filter_all-filter_all ws c = filter_apart (filter_all ws c) (filter_all-apart ws c)
