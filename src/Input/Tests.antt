-- ===== src/Input/Tests.antt =====
-- Frames of buttons that a person holds, and the theorems at them.
use kuula.Prelude.{ℕ, ◌≡◌, ◌≢◌, ◌^◌, ◌+◌, refl, true, List, [], ◌∷◌, All}
use kuula.Input.{both, fresh, apply, filter_all, held, btn_menu}
use kuula.Input.Menu.{menu_all, menu_apply, menu_default, menu_all-apart}

abbrev start : ℕ
start = 2 ^ 12

abbrev select : ℕ
select = 2 ^ 13

-- Start, then Select with it, then Start alone again.
abbrev thumbs : List ℕ
thumbs = start ∷ start ∷ (start + select) ∷ start ∷ 0 ∷ 0 ∷ 0 ∷ 0 ∷ 0 ∷ []

ruled : filter_all thumbs fresh ≡ start ∷ start ∷ btn_menu ∷ 0 ∷ 0 ∷ 0 ∷ 0 ∷ 0 ∷ 0 ∷ []
unfolding filter_all apply
ruled = refl

-- The cart is given neither, not even the one that was first.
neither : menu_all thumbs menu_default ≡ 0 ∷ 0 ∷ btn_menu ∷ 0 ∷ 0 ∷ 0 ∷ 0 ∷ 0 ∷ 0 ∷ []
unfolding menu_all menu_apply apply
neither = refl

is_start : held 12 start ≡ true
unfolding held
is_start = refl

menu_all-apart_example : All (λ w. both w ≢ 3) (menu_all thumbs menu_default)
menu_all-apart_example = menu_all-apart thumbs
