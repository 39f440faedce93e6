-- ===== src/Console/Buttons.antt =====
-- The buttons that a cart is given: only what it declares, nothing of the Menu key, and no button that
-- is still held from before the shell handed over.
use kuula.Prelude.{ℕ, ◌%◌, ◌^◌, ◌<◌, ◌≡◌, inl, inr, true, false, arith, Bool-cases}
use kuula.Prelude.Words.{
  band, bit, complement, band-lt, bit-band, bit-complement, bit-cut, bit-zero,
}
use kuula.Manifest.{Manifest, Buttons, mask}
use kuula.Console.{Runtime, Shell, network_overlay}
use kuula.Console.Carts.{declared}
use kuula.Console.Step.{release, fresh_buttons, cart_input}

-- What a cart that declares these buttons is given in a frame, over the word of the frame.
abbrev pub given : {rt : Runtime} → Manifest → ℕ → Shell rt → ℕ
given m b s = declared m (cart_input b (release b s))

mask-low : (m : Buttons) → mask m < 2 ^ 14
unfolding mask
mask-low Buttons.two = omega arith
mask-low Buttons.all = omega arith

-- A button that reaches the cart, and why it may.
pub record IsPassed {rt : Runtime} (n b : ℕ) (m : Manifest) (s : Shell rt) : Type 0 where
  pub low : n < 14
  pub pressed : bit n b ≡ true
  pub allowed : bit n (mask m.buttons) ≡ true
  pub free : bit n s.stale ≡ false
  pub alone : network_overlay s ≡ false

bits : (k n a b : ℕ) → n < k → bit n (band k a b) ≡ true → (bit n a ≡ true) × (bit n b ≡ true)
bits k n a b l h = ground (arith, h, bit-band k n a b l)

module _ {rt : Runtime} where
  free_lem :
      (n b : ℕ) (s : Shell rt)
      → n < 14
      → bit n (fresh_buttons b (release b s)) ≡ true
      → (bit n b ≡ true) × (bit n s.stale ≡ false)
  unfolding fresh_buttons release
  free_lem n b s l h =
      let held = band 16 s.stale b in
      let (p, q) = bits 16 n b (complement held) (omega (arith, l)) h in
      let less : held < 2 ^ 16 = band-lt 16 s.stale b in
      ground (
        arith,
        p,
        q,
        bit-complement 16 n held (omega (arith, l)) less,
        bit-band 16 n s.stale b (omega (arith, l)),
      )

  input_lem :
      (n b : ℕ) (s : Shell rt)
      → bit n (cart_input b (release b s)) ≡ true
      → (n < 14) × (bit n (fresh_buttons b (release b s)) ≡ true) × (network_overlay s ≡ false)
  unfolding cart_input release network_overlay
  input_lem n b s h = elim (Bool-cases (network_overlay s)) [
    | inl up ↦ absurd (bit-zero n (ground (arith, h, up)))
    | inr down ↦
        let h' : bit n (fresh_buttons b (release b s) % 2 ^ 14) ≡ true = ground (arith, h, down) in
        let (low, held) = bit-cut 14 n (fresh_buttons b (release b s)) h' in (low, held, down)
  ]

  -- A button that the cart's guest is given is held in this frame, declared by the cart's manifest, a
  -- button of carts and not Menu, and not stale: it was released since the shell handed over; and the
  -- shell's network overlay is not up.
  pub given-IsPassed :
      (n b : ℕ) (m : Manifest) (s : Shell rt)
      → n < 16
      → bit n (given m b s) ≡ true
      → IsPassed n b m s
  unfolding declared
  given-IsPassed n b m s l h =
      let (p, q) = bits 16 n (cart_input b (release b s)) (mask m.buttons) l h in
      let (low, held, alone) = input_lem n b s p in
      let (pressed, free) = free_lem n b s low held in
      record { low = low; pressed = pressed; allowed = q; free = free; alone = alone }
