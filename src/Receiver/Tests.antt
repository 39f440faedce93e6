-- ===== src/Receiver/Tests.antt =====
-- A package of three bytes that comes in two chunks, and one whose sender stops half way.
use kuula.Prelude.{◌≡◌, refl, true, false, none, [], ◌∷◌, ◌++◌, replicate}
use kuula.Prelude.Bytes.{Bytes, codes}
use kuula.Prelude.Result.{ok}
use kuula.Wire.Deploy.{
  offer_bytes, started, encode_offer, check_name, check_len, all_name_bytes, is_device_name,
}
use kuula.Receiver.{Ctx, World, Library, done, arrives, reads, answers, fresh}
use kuula.Receiver.Transfer.{transfer}
use kuula.Receiver.Atomic.{Ends, transfer-IsAtomic}
use kuula.Receiver.Honest.{IsHonest, Installed, transfer-IsInstalled}

-- A library with a digest of one value, which takes every package.
abbrev lib : Library
lib = record {
  sha256 = λ bytes. replicate 32 7;
  check_package_file = λ bytes. none;
  format = λ why. [];
}

abbrev cart : Bytes
cart = 80 ∷ 75 ∷ 3 ∷ []

abbrev offer : Bytes
offer = offer_bytes (codes "breakout") 3 (replicate 32 7)

abbrev honest : World
honest = record {
  opened = done (ok tt);
  incoming = offer ++ cart;
  offer_read = done tt;
  created = none;
  answer_taken = true;
  rounds = λ k. reads (arrives 1) none;
  last = arrives 0;
  flushed = none;
  removed = true;
  replaced = none;
  console = answers started [];
}

abbrev half : World
half = record honest { incoming = offer ++ 80 ∷ [] }

abbrev empty : Ctx
empty = record {
  carts = λ name. none;
  parts = λ n. none;
  next_part = 0;
  active = false;
  events = [];
}

sendable_lem : encode_offer (codes "breakout") 3 (replicate 32 7) ≡ ok offer
unfolding encode_offer check_name check_len all_name_bytes is_device_name
sendable_lem = refl

honest-IsHonest : IsHonest lib honest (codes "breakout") cart
honest-IsHonest = record {
  bytes = offer;
  sendable = sendable_lem;
  digest = refl;
  opened = refl;
  incoming = refl;
  offer_read = refl;
  created = refl;
  answer_taken = refl;
  sizes = λ k. 1;
  rounds = λ k. refl;
  pause = 0;
  last = refl;
  flushed = refl;
  checked = refl;
  replaced = refl;
}

transfer-IsInstalled_example :
    Installed lib honest
      (codes "breakout")
      cart
      honest-IsHonest
      empty
      fresh
      (transfer lib honest (codes "ann") empty fresh)
transfer-IsInstalled_example =
    transfer-IsInstalled lib honest (codes "breakout") cart honest-IsHonest (codes "ann") empty
      fresh refl

transfer-IsAtomic_example : Ends lib half empty (transfer lib half (codes "ann") empty fresh)
transfer-IsAtomic_example = transfer-IsAtomic lib half (codes "ann") empty fresh
