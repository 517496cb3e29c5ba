-- ===== src/Kernel.antt =====
-- `KernelState` and the functions of the module vrjKernel of
-- vrjugglua/binding_detail/BindKernelToLua.inl, for both versions of VR Juggler that it is built for.
pub mod Ordering
pub mod Roles
pub mod Starting
pub mod VrjKernel
use vr_jugglua.Prelude.{
  ℕ, Bool, true, false, not, ◌&&◌, ◌||◌, List, [], ◌∷◌, ◌++◌, Option, none, some, Bytes, codes,
  equal, ◌==◌, if◌then◌else◌,
}
use mathlib.Core.Option

-- The variables map that the kernel is initialised with, none for a variable that is missing.
pub record Options : Type 0 where
  pub vrjmaster : Option Bool
  pub vrjslave : Option Bool
  pub listen_port : Option ℕ

-- The calls of other projects' code: of VR Juggler's kernel, and of VPR's threads.
pub data Call : Type 0 where
  init_kernel : Options → Call
  start_kernel stop_kernel wait_for_kernel_stop yield sleep_two : Call
  set_application load_config_file : Bytes → Call

-- `_init`, `_isCluster`, `_isPrimary`, the calls in order, and the warnings.
pub record KernelState : Type 0 where
  pub initialised : Bool
  pub is_cluster : Bool
  pub is_primary : Bool
  pub calls : List Call
  pub warnings : List Bytes

unfoldable pub new_kernel_state : KernelState
new_kernel_state = record {
  initialised = false;
  is_cluster = false;
  is_primary = false;
  calls = [];
  warnings = [];
}

abbrev pub with_call : Call → KernelState → KernelState
with_call call s = record s { calls = s.calls ++ (call ∷ []) }

abbrev pub warn : Bytes → KernelState → KernelState
warn text s = record s { warnings = s.warnings ++ (text ∷ []) }

-- `vm.count(…) && vm[…].as<bool>()`
abbrev pub is_set : Option Bool → Bool
is_set none = false
is_set (some b) = b

-- `init(vm)` with VR Juggler 3.
unfoldable pub init_with : Options → KernelState → KernelState
init_with vm s = with_call (init_kernel vm) (record s {
  warnings =
      if s.initialised
      then s.warnings ++ (codes "Warning: vrjKernel.init called a second time!" ∷ [])
      else s.warnings;
  is_cluster = s.is_cluster || (is_set vm.vrjmaster || is_set vm.vrjslave);
  is_primary = is_set vm.vrjmaster;
  initialised = true;
})

-- `init(vm)` with VR Juggler 2.2.
abbrev pub mark_initialised : KernelState → KernelState
mark_initialised s = record s { initialised = true }

abbrev pub single_options : Options
single_options = record { vrjmaster = some false; vrjslave = some false; listen_port = none }

abbrev pub primary_options : Options
primary_options = record { vrjmaster = some true; vrjslave = some false; listen_port = none }

abbrev pub secondary_options : ℕ → Options
secondary_options port = record {
  vrjmaster = some false;
  vrjslave = some true;
  listen_port = if not (port == 0) then some port else none;
}

-- `own_thread` says whether the call comes from the kernel's control thread.
unfoldable pub stop : Bool → KernelState → KernelState
stop own_thread s =
    with_call stop_kernel (if not own_thread then with_call sleep_two (with_call yield s) else s)

-- `three` says which of the two versions the program is built for.
module _ (three : Bool) where
  -- `init(vm)`, and `init(argc, argv)`, whose options the parser of Boost delivers.
  unfoldable pub init : Options → KernelState → KernelState
  unfolding init_with
  init vm s = if three then init_with vm s else mark_initialised s

  unfoldable pub init_fallback : KernelState → KernelState
  unfolding init_with
  init_fallback s =
      if three
      then init_with single_options (
          warn
            (codes
              "Warning: your application is not cluster-capable as compiled (VR Juggler 3.x) because you did not initialize the kernel with command line arguments!")
            s)
      else mark_initialised (
          warn
            (codes
              "Warning: your application will not cluster-capable with VR Juggler 3.x because you did not initialize the kernel with command line arguments!")
            s)

  unfoldable pub init_as_single_machine : KernelState → KernelState
  unfolding init_with
  init_as_single_machine s =
      if three
      then init_with single_options s
      else record s { is_cluster = false; is_primary = false; initialised = true }

  unfoldable pub init_as_cluster_primary_node : KernelState → KernelState
  unfolding init_with
  init_as_cluster_primary_node s =
      if three
      then init_with primary_options s
      else record s { is_cluster = true; is_primary = true; initialised = true }

  unfoldable pub init_as_cluster_secondary_node : ℕ → KernelState → KernelState
  unfolding init_with
  init_as_cluster_secondary_node port s =
      if three
      then init_with (secondary_options port) s
      else record s { is_cluster = true; is_primary = false; initialised = true }

  -- The kernel is initialised, if it is not yet.
  abbrev pub ready : KernelState → KernelState
  ready s =
      if not s.initialised
      then init_fallback (
          warn
            (codes
              "Warning: vrjKernel.start called before vrjKernel.init - your app will not support clustering in VR Juggler 3.x!")
            s)
      else s

  abbrev pub warn_start : Bool → KernelState → KernelState
  warn_start waiting s = record s {
    warnings =
        if not waiting
        then s.warnings
          ++ (codes
                "Warning: vrjKernel.start called: possible race condition if you run Lua code in the frame loop! (Use vrjKernel.enter to avoid this)"
              ∷ [])
        else s.warnings;
  }

  unfoldable pub do_start : Bool → KernelState → KernelState
  unfolding init_fallback
  do_start waiting s = with_call start_kernel (warn_start waiting (ready s))

  unfoldable pub start : KernelState → KernelState
  unfolding do_start
  start s = do_start false s

  unfoldable pub enter : KernelState → KernelState
  unfolding do_start
  enter s = with_call wait_for_kernel_stop (do_start true s)
