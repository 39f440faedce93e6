-- ===== src/Saves/Tests.antt =====
-- A store on a disk that cannot read slot 1 and fails every write.
use kuula.Prelude.{
  ℕ, ◌+◌, ◌≡◌, ◌≢◌, refl, true, false, none, List, [], ◌∷◌, ◌==◌, arith, get_or, if◌then◌else◌,
}
use kuula.Prelude.Bytes.{Bytes}
use kuula.Prelude.Result.{ok, err}
use kuula.Saves.{SaveStore, WriteThroughStore, io, empty, new, seed_all, seed, blank}
use kuula.Saves.Slots.{IsStore}
use kuula.Saves.Through.{
  Op, reads, writes, perform_all, all_on_memory, perform_all-on_memory, perform_all-protects,
}

-- The world says how often slot 1 was written.
abbrev broken : SaveStore
broken = record {
  World = ℕ;
  read = λ slot w. (w, if slot == 1 then err (io []) else ok none);
  write = λ slot bytes w. (if slot == 1 then w + 1 else w, err (io []));
}

abbrev fresh : WriteThroughStore broken
fresh = new {disk = broken} 0

abbrev game : List Op
game = writes 1 (7 ∷ []) ∷ writes 2 (8 ∷ []) ∷ reads 1 ∷ writes 9 [] ∷ []

empty-IsStore : IsStore empty
unfolding empty
empty-IsStore = record { count = refl; sizes = ground arith }

perform_all-on_memory_example :
    ((perform_all game fresh).0.memory ≡ (all_on_memory game fresh.memory).0)
    × ((perform_all game fresh).1 ≡ (all_on_memory game fresh.memory).1)
perform_all-on_memory_example = perform_all-on_memory game fresh

others : (k : ℕ) (bytes : Bytes) (w : ℕ) → k ≢ 1 → w ≡ 0 → (broken.write k bytes w).0 ≡ 0
others k bytes w n e = ground (arith, n, e)

unread : get_or fresh.unreadable 1 false ≡ true
unfolding new seed_all seed blank
unread = refl

unwritten : fresh.world ≡ 0
unfolding new seed_all seed blank
unwritten = refl

perform_all-protects_example : (perform_all game fresh).0.world ≡ 0
perform_all-protects_example =
    perform_all-protects {disk = broken} 1 (λ w. w ≡ 0) others game fresh unread unwritten
