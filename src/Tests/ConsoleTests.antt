-- ===== src/Tests/ConsoleTests.antt =====
-- Runs of the console, the kernel's functions and the reconfiguration over small models.
use vr_jugglua.Prelude.{
  equal, ℕ, suc, ◌+◌, ◌-◌, ◌≡◌, refl, true, false, [], ◌∷◌, List, none, some, Bytes, codes, arith,
  min,
}
use vr_jugglua.Lua.Sample.{to_string, text, sample}
use vr_jugglua.CircularBuffer.Sample as Ring
use vr_jugglua.ScriptHost.{Script, Bindings}
use vr_jugglua.RunBuffer.{Turn}
use vr_jugglua.SyncBuffer.{Cluster, SyncBuffer}
use vr_jugglua.Console.{
  Console, append_to_display, console_print, console_add_string, console_add_file,
  console_file_chunk,
}
use vr_jugglua.Console.Comments.{replaced_by, lines, console_print_lem}
use vr_jugglua.Console.Session.{Step, enters, runs}
use vr_jugglua.Console.Session.Serving.{Session}
use vr_jugglua.Console.Adding.{Shown, console_add_lem}
use vr_jugglua.Kernel.{
  set_application, with_call, init_as_cluster_secondary_node, new_kernel_state,
  init_as_cluster_primary_node, start,
}
use vr_jugglua.Kernel.VrjKernel.{application, number, vrj_kernel, call_in}
use vr_jugglua.Kernel.Ordering.{InOrder}
use vr_jugglua.Kernel.Starting.{fresh, next, start_it, as_primary, Reachable-InOrder}
use vr_jugglua.Kernel.Roles.{primary, single, init_as_all, roles_lem}
use vr_jugglua.Reconfiguration.{
  ConfigManager, deconfigure_all, deconfigure_element_by_name, Settled, deconfigure-Settled,
}

abbrev script : Script sample
script = record {
  state = some (record { stack = text (codes "a") ∷ []; globals = []; writes = [] });
  has_print_function = true;
  printed = [];
  logged = [];
}

abbrev sync : SyncBuffer sample Ring.sample
sync = record {
  initialised = true;
  run_buf = record {
    script = script;
    buf = Ring.sample.with_capacity 2;
    max_run = 2;
    run_block = false;
  };
  early_birds = [];
  state = script.state;
  warnings = [];
  console = none;
}

abbrev console : Console sample Ring.sample
console = record {
  script = script;
  runbuf = some sync;
  is_current = true;
  display = [];
  supports_alternate_logging = false;
  logging_active = false;
  out_captured = false;
  err_captured = false;
}

abbrev cluster : Cluster
cluster = record { is_local = true; acquired = λ i. true }

console_add_lem_example :
    Shown sample Ring.sample cluster true (codes "x=1") console sync
    × (console_add_file sample Ring.sample cluster true (codes "f") console
        ≡ console_add_string sample Ring.sample cluster true
            (console_file_chunk sample Ring.sample (codes "f"))
            console)
console_add_lem_example =
    console_add_lem sample Ring.sample Ring.sample_laws cluster true (codes "x=1") (codes "f")
      console sync refl refl

abbrev luabind : Bindings sample
luabind = record {
  cast_string = to_string;
  call_function = λ name args s. (true, s);
  call_error = λ name args s. none;
}

-- Nobody else adds a chunk, and no lock is missed.
abbrev quiet : ℕ → Turn sample Ring.sample
quiet i = record { added = []; acquired = true }

-- A run that another thread adds to, and that misses the lock.
abbrev disturbed : ℕ → Turn sample Ring.sample
disturbed i = record { added = codes "z" ∷ []; acquired = false }

-- The buffer has two places, so the third entry is refused.
abbrev steps : List (Step sample Ring.sample)
steps =
    enters true (codes "x=1")
    ∷ enters true (codes "!y")
    ∷ enters true (codes "late")
    ∷ runs disturbed
    ∷ runs quiet
    ∷ enters true (codes "w")
    ∷ []

abbrev boost_replace_all : Bytes → Bytes → Bytes → Bytes
boost_replace_all s [] format = s
boost_replace_all s (c ∷ search) format = replaced_by c format s

console_print_lem_example :
    (t : Bytes) × (console_print sample Ring.sample boost_replace_all (codes "a\nb") (some console)
      ≡ some (append_to_display sample Ring.sample t console))
    × (lines t ≡ codes "-- a" ∷ codes "-- b" ∷ [])
console_print_lem_example =
    console_print_lem sample Ring.sample boost_replace_all (λ search s format. refl) (codes "a\nb")
      console

Reachable-InOrder_example :
    InOrder (start true (init_as_cluster_primary_node true new_kernel_state))
Reachable-InOrder_example =
    Reachable-InOrder (start true (init_as_cluster_primary_node true new_kernel_state))
      (next (next fresh as_primary) start_it)

-- Lua calls the functions by their names; luabind refuses arguments that fit none of them.
kernel_named :
    let module_functions = call_in (vrj_kernel false true) in
    (module_functions (codes "setApplication") (application (codes "app") ∷ []) new_kernel_state
      ≡ some (with_call (set_application (codes "app")) new_kernel_state))
    × (module_functions (codes "initAsClusterSecondaryNode") [] new_kernel_state
        ≡ some (init_as_cluster_secondary_node false 0 new_kernel_state))
    × (module_functions (codes "enter") (number 1 ∷ []) new_kernel_state ≡ none)
    × (module_functions (codes "leave") [] new_kernel_state ≡ none)
unfolding vrj_kernel equal
kernel_named = (refl, refl, refl, refl)

roles_lem_example :
    (let two = init_as_all false (primary ∷ single ∷ []) new_kernel_state in
      (two.is_cluster ≡ false) × (two.is_primary ≡ false) × (two.initialised ≡ true))
    × (let three = init_as_all true (primary ∷ single ∷ []) new_kernel_state in
        (three.is_cluster ≡ true) × (three.is_primary ≡ false) × (three.initialised ≡ true))
unfolding new_kernel_state
roles_lem_example = roles_lem primary (single ∷ []) new_kernel_state

-- The number of elements that are pending; an attempt processes at most two.
abbrev config : ConfigManager
config = record {
  Manager = ℕ;
  lock_active = λ m. m;
  unlock_active = λ m. m;
  remove_active_config = λ m. m + 5;
  remove_active = λ elem m. suc m;
  attempt_reconfiguration = λ m. (min m 2, m - min m 2);
  pending = λ m. m;
}

deconfigure-Settled_example :
    Settled config 5 (deconfigure_all config 0)
    × Settled config 1 (deconfigure_element_by_name config (codes "e") 0)
deconfigure-Settled_example = deconfigure-Settled config (λ m. omega arith) (codes "e") 0
