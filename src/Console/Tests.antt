-- ===== src/Console/Tests.antt =====
-- A console with a toy runtime: its cart hosts on its first frame and faults on its third.
use kuula.Prelude.{
  ℕ, ◌≡◌, ◌&&◌, ◌⊎◌, inl, inr, Bool-cases, refl, true, false, none, some, List, [], ◌∷◌, ◌==◌, All,
  arith, if◌then◌else◌,
}
use kuula.Prelude.Result.{ok, err}
use kuula.Net.State.{Op, hosts, steps}
use kuula.Net.Link.{Link, new as new_link}
use kuula.Net.Link.Gate.{IsGated}
use kuula.Net.Link.Runs.{run}
use kuula.Net.Memory.{first, pair, memory}
use kuula.Net.Memory.Sides.{memory-Obeys}
use kuula.Manifest.{default_manifest}
use kuula.Shell.{Fault, default_settings}
use kuula.Prelude.Words.{bit, band}
use kuula.Input.{fresh, apply}
use kuula.Net.State.{Status, new, used_link}
use kuula.Manifest.{mask}
use kuula.Console.Carts.{declared, in_session}
use kuula.Console.Endings.{step_linked_ends}
use kuula.Console.Sessions.{IsSound}
use kuula.Console.Hosted.{
  Begin, HostOp, frames, permits, tells, loads, begin, run_hosted, run_hosted-begin-IsSound,
}
use kuula.Console.Step.{step_linked, cart_input, release, fresh_buttons, step_with}
use kuula.Console.{
  Runtime, Cart, Shell, Console, Preload, running, network_overlay, new_state, is_running,
}
use kuula.Console.Teardown.{Polite, IsCall}
use kuula.Console.Buttons.{IsPassed, given, given-IsPassed}
use kuula.Console.Handover.{IsStale, step_with-IsStale}

abbrev calls : ℕ → List Op
calls frame = if frame == 1 then hosts ∷ [] else []

abbrev boom : Fault
boom = record { code = []; message = []; file = []; line = none }

abbrev toy : Runtime
toy = record {
  Guest = Unit;
  Source = Unit;
  Store = Unit;
  Media = Unit;
  guest_step = λ g input frame s. (
    tt,
    record s { net = elim s.net [ none ↦ none | some n ↦ some (steps (calls frame) n) ] },
    if frame == 3 then err boom else ok tt,
  );
  exists = λ s path. true;
  read = λ s path. ok [];
  library = record { from_str = λ text. err ([], none); knows = λ id. true };
  format = λ e. [];
  empty_source = tt;
  memory_store = tt;
  new_media = λ w h s. tt;
  load_sheet = λ n m. ok m;
  load_map = λ n m. ok m;
  stop_all = λ m. m;
  render = λ m. m;
  set_master = λ v m. m;
  pixels = λ m. [];
}

calls-All : (frame : ℕ) → All IsCall (calls frame)
calls-All frame = elim (Bool-cases (frame == 1)) [ inl e ↦ rw (e) (tt, tt) | inr e ↦ rw (e) tt ]

toy-Polite : Polite toy
toy-Polite = record { calls = λ g input frame s. (calls frame, calls-All frame, refl) }

abbrev menu : Shell toy
menu = record {
  guest = tt;
  state = new_state toy (640, 480) tt;
  frame = 0;
  status = running;
  presentation = [];
  paused = false;
  menu_was = false;
  stale = 16;
  shell_stale = 0;
  opener = λ name. ok (tt, tt);
  factory = λ text name. ok tt;
  preload = Preload.skip;
  host_requests = [];
}

-- A cart with the network, before its first frame.
abbrev host_cart : Cart toy
host_cart = record {
  guest = some tt;
  state = record {
    width = 640;
    height = 480;
    log = [];
    saves = tt;
    sys = none;
    net = some (new (record { permitted = true; invite = none }));
    media = tt;
  };
  frame = 0;
  status = running;
  manifest = default_manifest;
  source = none;
  net_pending = [];
  net_teardown = false;
}

abbrev both : Console toy
both = record {
  cart = host_cart;
  shell = some menu;
  chord = fresh;
  net_env = record { permitted = true; invite = none };
}

-- Up is held, and A is held since the shell handed over: the cart is given Up alone.
up_lem : bit 0 (given default_manifest 17 menu) ≡ true
unfolding bit declared cart_input release fresh_buttons band mask network_overlay new_state
up_lem = refl

given-IsPassed_example : IsPassed 0 17 default_manifest menu
given-IsPassed_example = given-IsPassed 0 17 default_manifest menu (omega arith) up_lem

a_held : bit 4 (apply 17 fresh).0 ≡ true
unfolding bit apply
a_held = refl

a_button-IsStale : IsStale 4 both
unfolding bit
a_button-IsStale = refl

step_with-IsStale_example : IsStale 4 (step_with 17 [] both)
step_with-IsStale_example = step_with-IsStale 4 17 [] both (omega arith) a_held a_button-IsStale

abbrev link : Link (memory first)
link = run [] (new_link {tr = memory first} pair)

-- The cart has hosted and is about to fault.
abbrev hosting : Console toy
hosting = record both {
  cart = record host_cart {
    frame = 2;
    state = record {
      width = 640;
      height = 480;
      log = [];
      saves = tt;
      sys = none;
      net =
          some
            (record (new (record { permitted = true; invite = none })) { status = Status.hosting });
      media = tt;
    };
  };
}

runs_lem : is_running hosting.cart.status ≡ true
unfolding is_running
runs_lem = refl

hosts_lem : in_session hosting.cart ≡ true
unfolding in_session used_link new
hosts_lem = refl

step_linked_ends_example :
    (is_running (step_linked 0 hosting link).0.cart.status
        && in_session (step_linked 0 hosting link).0.cart
      ≡ true)
    ⊎ ((step_linked 0 hosting link).1.transport ≡ none)
step_linked_ends_example = step_linked_ends toy-Polite 0 hosting link runs_lem hosts_lem

-- A console with a shell whose host permits the network and loads a cart.
abbrev shelled_start : Begin toy
shelled_start =
    Begin.shelled tt [] default_settings (λ name. ok (tt, tt)) (λ text name. ok tt) Preload.skip

abbrev evening : List (HostOp toy)
evening =
    permits true
    ∷ tells (record { permitted = true; invite = none })
    ∷ loads tt tt
    ∷ frames 0
    ∷ frames 16
    ∷ permits false
    ∷ frames 0
    ∷ []

run_hosted-begin-IsSound_example :
    IsSound (run_hosted evening (begin shelled_start, new_link {tr = memory first} pair)).0.cart
    × IsGated (run_hosted evening (begin shelled_start, new_link {tr = memory first} pair)).1
run_hosted-begin-IsSound_example =
    run_hosted-begin-IsSound toy-Polite (memory-Obeys first) evening shelled_start pair
