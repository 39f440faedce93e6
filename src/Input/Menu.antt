-- ===== src/Input/Menu.antt =====
-- Start and Select pressed by a person: `MenuChord` of crates/kuula-host-common/src/chord.rs.
use kuula.Prelude.{
  ℕ, zero, suc, ◌+◌, ◌*◌, ◌%◌, ◌^◌, ◌<◌, ◌≡◌, ◌≢◌, ◌⊎◌, inl, inr, refl, ◌∙◌, Bool-cases, arith,
  List, [], ◌∷◌, All, length, length-set, get_or, set, replicate, ◌==◌, if◌then◌else◌,
}
use kuula.Input.{Chord, both, without_both, fresh, apply, apply_apart}

abbrev pub grace_frames : ℕ
grace_frames = 6

-- `chord` is the chord of the console; `line` the two buttons as they were in each of the last frames.
pub record MenuChord : Type 0 where
  pub chord : Chord
  pub line : List ℕ
  pub at : ℕ

abbrev pub menu_default : MenuChord
menu_default = record { chord = fresh; line = replicate grace_frames 0; at = 0 }

-- MenuChord::apply: the two buttons of now go into the line, and those of six frames ago come out.
unfoldable pub menu_apply : ℕ → MenuChord → ℕ × MenuChord
menu_apply buttons m =
    let ruled = (apply buttons m.chord).0 in
    let chord = (apply buttons m.chord).1 in
    if both buttons == 3
    then (ruled, record { chord = chord; line = replicate grace_frames 0; at = m.at })
    else (
      without_both ruled + get_or m.line m.at 0,
      record {
        chord = chord;
        line = set m.line m.at (both ruled * 2 ^ 12);
        at = (m.at + 1) % grace_frames;
      },
    )

unfoldable pub menu_all : List ℕ → MenuChord → List ℕ
menu_all [] m = []
menu_all (w ∷ ws) m = let (out, m') = menu_apply w m in out ∷ menu_all ws m'

-- A late word is nothing, Start or Select.
abbrev IsLate : ℕ → Type 0
IsLate v = (v ≡ 0) ⊎ ((v ≡ 2 ^ 12) ⊎ (v ≡ 2 ^ 13))

-- The line has six late words, and the position is one of them.
record IsMenu (m : MenuChord) : Type 0 where
  late : All IsLate m.line
  frames : length m.line ≡ grace_frames
  inside : m.at < grace_frames

All-set : (xs : List ℕ) (i v : ℕ) → All IsLate xs → IsLate v → All IsLate (set xs i v)
All-set [] i v h k = tt
All-set (x ∷ xs) zero v h k = (k, h.1)
All-set (x ∷ xs) (suc i) v h k = (h.0, All-set xs i v h.1 k)

get_or-IsLate : (xs : List ℕ) (i : ℕ) → All IsLate xs → IsLate (get_or xs i 0)
get_or-IsLate [] i h = inl refl
get_or-IsLate (x ∷ xs) zero h = h.0
get_or-IsLate (x ∷ xs) (suc i) h = get_or-IsLate xs i h.1

replicate-IsLate : (n : ℕ) → All IsLate (replicate n 0)
replicate-IsLate zero = tt
replicate-IsLate (suc n) = (inl refl, replicate-IsLate n)

apart-IsLate : (r : ℕ) → both r ≢ 3 → IsLate (both r * 2 ^ 12)
apart-IsLate r h = ground arith

joined_apart : (r v : ℕ) → IsLate v → both (without_both r + v) ≢ 3
joined_apart r v h = ground arith

menu_apply-IsMenu : (w : ℕ) (m : MenuChord) → IsMenu m → IsMenu (menu_apply w m).1
unfolding menu_apply
menu_apply-IsMenu w m v =
    let ruled = (apply w m.chord).0 in
    let word = both ruled * 2 ^ 12 in
    let late = All-set m.line m.at word v.late (apart-IsLate ruled (apply_apart w m.chord)) in
    elim (Bool-cases (both w == 3)) [
      | inl hit ↦ rw (hit) (record { late = replicate-IsLate 6; frames = refl; inside = v.inside })
      | inr miss ↦ rw (miss) (record {
        late = late;
        frames = length-set m.line m.at word ∙ v.frames;
        inside = omega arith;
      })
    ]

menu_apply-apart : (w : ℕ) (m : MenuChord) → IsMenu m → both (menu_apply w m).0 ≢ 3
unfolding menu_apply
menu_apply-apart w m v =
    let ruled = (apply w m.chord).0 in
    let old = get_or-IsLate m.line m.at v.late in
    elim (Bool-cases (both w == 3)) [
      | inl hit ↦ rw (hit) (apply_apart w m.chord)
      | inr miss ↦ rw (miss) (joined_apart ruled (get_or m.line m.at 0) old)
    ]

menu_all_apart : (ws : List ℕ) (m : MenuChord) → IsMenu m → All (λ w. both w ≢ 3) (menu_all ws m)
unfolding menu_all
menu_all_apart [] m v = tt
menu_all_apart (w ∷ ws) m v =
    (menu_apply-apart w m v, menu_all_apart ws (menu_apply w m).1 (menu_apply-IsMenu w m v))

-- Whatever a person holds, the console is never given Start and Select in one frame: not from the
-- hands, not from the delay, and not from one in the hands and one in the delay.
pub menu_all-apart : (ws : List ℕ) → All (λ w. both w ≢ 3) (menu_all ws menu_default)
menu_all-apart ws =
    menu_all_apart ws menu_default
      (record { late = replicate-IsLate 6; frames = refl; inside = omega arith })
