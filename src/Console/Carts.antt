-- ===== src/Console/Carts.antt =====
-- `impl Cart` of crates/kuula-core/src/console.rs.
use kuula.Prelude.{
  ℕ, ◌+◌, Bool, true, false, ◌||◌, Option, none, some, List, [], ◌∷◌, min, take, drop, length,
  if◌then◌else◌,
}
use kuula.Prelude.Bytes.{Bytes, codes}
use kuula.Prelude.Utf8.{is_utf8}
use kuula.Prelude.Words.{band}
use kuula.Prelude.Result.{Result, ok, err}
use kuula.Net.{max_batch}
use kuula.Net.State.{NetEnv, new, begin_frame, used_link}
use kuula.Manifest.{Manifest, Service, size, mask, has_service, default_manifest, parse}
use kuula.Shell.{Fault}
use kuula.Console.{Runtime, State, Cart, Preload, running, faulted, decode, skip, new_state}

abbrev main_file : Bytes
main_file = codes "main.lua"

abbrev manifest_file : Bytes
manifest_file = codes "cart.toml"

-- Fault::new
abbrev pub new_fault : Bytes → Bytes → Option ℕ → Bytes → Fault
new_fault code file line message = record {
  code = code;
  message = message;
  file = file;
  line = line;
}

abbrev cart_read_error : Bytes
cart_read_error = codes "cart_read_error"

abbrev manifest_error : Bytes
manifest_error = codes "manifest_error"

-- What a cart's files give, or the fault that ends it.
unfoldable pub text_of : Bytes → Bytes → Bytes → Result Bytes Bytes → Result Fault Bytes
text_of code file broken (err why) = err (new_fault cart_read_error file none why)
text_of code file broken (ok bytes) =
    if is_utf8 bytes then ok bytes else err (new_fault code file none broken)

-- The input of a cart: a button the manifest does not declare is never held.
unfoldable pub declared : Manifest → ℕ → ℕ
unfolding mask band
declared m input = band 16 input (mask m.buttons)

module _ (rt : Runtime) where
  -- read_manifest
  unfoldable pub read_manifest : rt.Source → Result Fault Manifest
  unfolding text_of parse
  read_manifest source =
      if (if rt.exists source manifest_file then false else true)
      then ok default_manifest
      else elim (text_of manifest_error manifest_file (codes "cart.toml is not valid UTF-8")
          (rt.read source manifest_file)) [
            | err f ↦ err f
            | ok text ↦ elim (parse rt.library text) [
              | ok m ↦ ok m
              | err e ↦ err (new_fault manifest_error manifest_file e.line (rt.format e.message))
            ]
          ]

  -- One of the two loops that decode the preload set.
  unfoldable pub load_all :
      (Bytes → rt.Media → Result Fault rt.Media) → List Bytes → rt.Media → Result Fault rt.Media
  load_all load [] media = ok media
  load_all load (name ∷ names) media = elim (load name media) [
    | err f ↦ err f
    | ok media' ↦ load_all load names media'
  ]

  -- The preload set as `preload` has it, in a fresh state.
  unfoldable pub preload_media : Preload → Manifest → rt.Media → Result Fault rt.Media
  unfolding load_all
  preload_media skip m media = ok media
  preload_media decode m media = elim (load_all rt.load_sheet m.preload_sheets media) [
    | err f ↦ err f
    | ok media' ↦ load_all rt.load_map m.preload_maps media'
  ]

  -- The draw state of a cart with this manifest: it has a network state if it asks for the service.
  unfoldable pub start : rt.Source → NetEnv → Manifest → State rt
  unfolding new_state size has_service new
  start source env m =
      let state : State rt = new_state rt (size m.screen_mode) source in
      if has_service Service.net m then record state { net = some (new env) } else state

  -- What `load` does with a manifest that was read.
  unfoldable pub load_with :
      rt.Source
      → (Bytes → Bytes → Result Fault rt.Guest)
      → Preload
      → NetEnv
      → Manifest
      → Result Fault (rt.Guest × State rt)
  unfolding start preload_media text_of
  load_with source factory preload env m =
      let state : State rt = start source env m in
      elim (preload_media preload m state.media) [
        | err f ↦ err f
        | ok media ↦
            elim (text_of cart_read_error main_file (codes "main.lua is not valid UTF-8")
              (rt.read source main_file)) [
                | err f ↦ err f
                | ok text ↦ elim (factory text main_file) [
                  | err f ↦ err f
                  | ok guest ↦ ok (guest, record state { media = media })
                ]
              ]
      ]

module _ {rt : Runtime} where
  -- Cart::faulted
  unfoldable pub faulted_cart : Fault → Manifest → Option rt.Source → Cart rt
  unfolding new_state size
  faulted_cart f m source = record {
    guest = none;
    state = new_state rt (size m.screen_mode) rt.empty_source;
    frame = 0;
    status = faulted f;
    manifest = m;
    source = source;
    net_pending = [];
    net_teardown = false;
  }

  -- Cart::empty
  unfoldable pub empty : Cart rt
  unfolding new_state size
  empty = record {
    guest = none;
    state = new_state rt (size default_manifest.screen_mode) rt.empty_source;
    frame = 0;
    status = running;
    manifest = default_manifest;
    source = none;
    net_pending = [];
    net_teardown = false;
  }

  -- Cart::load
  unfoldable pub load :
      rt.Source → (Bytes → Bytes → Result Fault rt.Guest) → Preload → NetEnv → Cart rt
  unfolding read_manifest load_with faulted_cart
  load source factory preload env = elim (read_manifest rt source) [
    | err f ↦ faulted_cart f default_manifest (some source)
    | ok m ↦ elim (load_with rt source factory preload env m) [
      | err f ↦ faulted_cart f m (some source)
      | ok got ↦ record {
        guest = some got.0;
        state = got.1;
        frame = 0;
        status = running;
        manifest = m;
        source = some source;
        net_pending = [];
        net_teardown = false;
      }
    ]
  ]

  -- `self.state.net.as_ref().is_some_and(|n| n.used_link())`
  unfoldable pub in_session : Cart rt → Bool
  unfolding used_link
  in_session c = elim c.state.net [ none ↦ false | some n ↦ used_link n ]

  -- The frame's batch, admitted before the cart runs.
  unfoldable pub admit_batch : Cart rt → Cart rt
  unfolding begin_frame
  admit_batch c = elim c.state.net [
    | none ↦ c
    | some n ↦
        let count = min (length c.net_pending) max_batch in
        let state = c.state in
        record c {
          state = record state { net = some (begin_frame (take count c.net_pending) n) };
          net_pending = drop count c.net_pending;
        }
  ]

  -- After the guest's step: a fault ends the cart, its sound and its session.
  unfoldable pub settle : rt.Guest × State rt × Result Fault (Unit {0}) → Cart rt → Cart rt
  unfolding in_session
  settle (g, state, ok tt) c = record c { guest = some g; state = state }
  settle (g, state, err f) c = record c {
    guest = some g;
    state = record state { media = rt.stop_all state.media };
    status = faulted f;
    net_teardown = c.net_teardown || in_session (record c { state = state });
  }

  unfoldable pub run_guest : ℕ → rt.Guest → Cart rt → Cart rt
  unfolding admit_batch settle
  run_guest input g c =
      let c' : Cart rt = admit_batch (record c { frame = c.frame + 1 }) in
      settle (rt.guest_step g input c'.frame c'.state) c'

  unfoldable pub render : Cart rt → Cart rt
  render c =
      let state = c.state in record c { state = record state { media = rt.render state.media } }

  -- Cart::step
  unfoldable pub step : ℕ → Cart rt → Cart rt
  unfolding run_guest declared render
  step input c = render (elim c.status [
    | faulted f ↦ c
    | running ↦ elim c.guest [ none ↦ c | some g ↦ run_guest (declared c.manifest input) g c ]
  ])
