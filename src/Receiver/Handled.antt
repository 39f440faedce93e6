-- ===== src/Receiver/Handled.antt =====
-- A whole connection: `handle` of crates/kuula-net/src/deploy/receiver.rs.
use kuula.Prelude.{ℕ, ◌≡◌, ◌⊎◌, Bool, true, false, Option, some, List, [], ◌∷◌, ◌++◌}
use kuula.Prelude.Bytes.{Bytes}
use kuula.Prelude.Result.{Result, ok}
use kuula.Wire.Deploy.{Offer, ok_code, read_offer}
use kuula.Receiver.{
  Ctx, Conn, World, Library, Done, DeployEvent, finished, with_cart, close_busy, close_unpaired,
}
use kuula.Receiver.Install.{IsPackage}

module _ (lib : Library) (w : World) where
  -- What a connection leaves: the receiver as busy or as free as it was, and the carts changed only by a
  -- checked package of an approved sender that came while no transfer was active, whose report with
  -- success is the last event.
  pub record IsHandled (id : Bytes) (approved : Bool) (ctx ctx' : Ctx) (c : Conn) : Type 0 where
    pub active : ctx'.active ≡ ctx.active
    pub carts :
        (ctx'.carts ≡ ctx.carts)
        ⊎ ((o : Offer) × (rest : Bytes) × (d : Done) × (before : List DeployEvent) × (approved
              ≡ true)
            × (ctx.active ≡ false)
            × (read_offer w.incoming ≡ ok (o, rest))
            × IsPackage lib o rest
            × (ctx'.carts ≡ (with_cart o.name rest ctx).carts)
            × (d.code ≡ ok_code)
            × (ctx'.events ≡ before ++ finished id d ∷ []))
    -- A file is left staged only by a transfer of an approved sender that could not delete it.
    pub parts :
        (k : ℕ)
        → (ctx'.parts k ≡ ctx.parts k)
          ⊎ ((k ≡ ctx.next_part) × (approved ≡ true) × (ctx.active ≡ false) × (w.removed ≡ false))
    -- One that is turned away is sent nothing but the close that says so.
    pub unpaired : approved ≡ false → (c.sent ≡ []) × (c.closed ≡ some close_unpaired)
    pub busy : approved ≡ true → ctx.active ≡ true → (c.sent ≡ []) × (c.closed ≡ some close_busy)

  Handled : Bytes → Bool → Ctx → Option (Ctx × Conn) → Type 0
  Handled id approved ctx o =
      (ctx' : Ctx) × (c : Conn) × (o ≡ some (ctx', c)) × IsHandled id approved ctx ctx' c
