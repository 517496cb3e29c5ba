-- ===== src/Tests/WindowTests.antt =====
-- Runs of the two windows and of the program with FLTK over small models.
use vr_jugglua.Prelude.{
  ℕ, ◌-◌, length, ◌≡◌, refl, Bool, true, false, List, [], ◌∷◌, ◌++◌, none, some, codes, equal, drop,
}
use vr_jugglua.Lua.Sample.{to_string, text, sample}
use vr_jugglua.CircularBuffer.Sample as Ring
use vr_jugglua.ScriptHost.{Script, Bindings, returned, require_module}
use vr_jugglua.SyncBuffer.{Cluster, SyncBuffer}
use vr_jugglua.Console.{Console, new_console, buffer}
use vr_jugglua.CodeInput.{
  Qt, got_jconf, got_lua_file, drop_event, accepted, is_jconf, is_local_lua_file,
}
use vr_jugglua.Kernel.{stop_kernel, wait_for_kernel_stop}
use vr_jugglua.QtConsole.{QtConsole, Fonts, new_qt_console, disable_action, begin_loop, thread_loop}
use vr_jugglua.QtConsole.Events.{Event, run_clicked, appended, delivered, polling_timeout, exec}
use vr_jugglua.QtConsole.Showing.Looping.{
  Looped, Waits, thread_loop-Looped, append_all, with_display, disabling_text, Lost, early_lost_lem,
}
use vr_jugglua.FltkConsole as Fltk
use vr_jugglua.FltkConsole.{FltkConsole, Round, input_run, stopped, typed}
use vr_jugglua.FltkConsole.Looping as FltkLooping
use vr_jugglua.FltkConsole.Looping.{thread_loop_lem}
use vr_jugglua.FltkConsole.Typing.{BothRan, buttons_lem}
use vr_jugglua.Console.Stub.{new_stub_console}
use vr_jugglua.NavMain.Qt.{stub_console, qt_console, console_main}
use vr_jugglua.NavMain.Qt.Behaving.{IdleStub, IdleWindow}
use vr_jugglua.NavMain.Qt.Stages as Stages
use vr_jugglua.NavMain.Qt.Ending.{qt_main_lem}
use vr_jugglua.NavMain.Fltk.{main, Finished, fltk_main_lem}

abbrev qt : Qt
qt = record {
  Url = List ℕ;
  to_local_file = λ url. url;
  ends_with = λ name ending. equal (drop (length name - length ending) name) ending;
  append_plain_text = λ more before. before ++ more;
}

drop_event_signals :
    drop_event qt (some (codes "a.jconf" ∷ codes "b.txt" ∷ codes "c.lua" ∷ []))
    ≡ (accepted, got_jconf (codes "a.jconf") ∷ got_lua_file (codes "c.lua") ∷ [])
unfolding drop_event is_jconf is_local_lua_file equal
drop_event_signals = refl

abbrev script : Script sample
script = record {
  state = some (record { stack = text (codes "a") ∷ []; globals = []; writes = [] });
  has_print_function = false;
  printed = [];
  logged = [];
}

abbrev sync : SyncBuffer sample Ring.sample
sync = record {
  initialised = true;
  run_buf = record {
    script = script;
    buf = Ring.sample.with_capacity 2;
    max_run = 2;
    run_block = false;
  };
  early_birds = [];
  state = script.state;
  warnings = [];
  console = none;
}

abbrev console : Console sample Ring.sample
console = record {
  script = script;
  runbuf = some sync;
  is_current = true;
  display = [];
  supports_alternate_logging = true;
  logging_active = false;
  out_captured = false;
  err_captured = false;
}

abbrev cluster : Cluster
cluster = record { is_local = true; acquired = λ i. true }

abbrev window : QtConsole sample Ring.sample
window = record {
  console = console;
  running = false;
  log = [];
  plain_text_edit = codes "x=1";
  plain_text_edit_log = [];
  plain_text_debug_log = [];
  text_edit_enabled = true;
  button_run_enabled = true;
  file_open_enabled = true;
  show_debug_log_enabled = true;
  debug_log_hidden = true;
  droid_font = false;
  closed = false;
  connections = 0;
  log_timer = false;
  ready_posted = false;
  queue = [];
  files = [];
  calls = [];
}

abbrev events : List (Bool × Event qt sample Ring.sample)
events =
    (true, run_clicked)
    ∷ (true, appended (codes "-- ran"))
    ∷ (true, delivered)
    ∷ (true, polling_timeout false)
    ∷ []

thread_loop-Looped_example :
    Looped qt sample Ring.sample cluster window
      (thread_loop sample Ring.sample (exec qt sample Ring.sample cluster events) window)
    × (thread_loop sample Ring.sample
          (exec qt sample Ring.sample cluster events)
          (begin_loop sample Ring.sample window)
        ≡ some (returned (false, begin_loop sample Ring.sample window)))
    × Waits qt sample Ring.sample cluster events window
        (thread_loop sample Ring.sample (exec qt sample Ring.sample cluster events) window)
thread_loop-Looped_example =
    thread_loop-Looped qt sample Ring.sample cluster events window refl refl

early_lost_lem_example :
    let lost = codes "-- ERROR: Could not load osgnav-testbed module" ∷ [] in
    let r =
      disable_action sample Ring.sample true
        (append_all qt sample Ring.sample cluster true lost window) in
    let told = lost ++ (disabling_text qt sample Ring.sample cluster ∷ []) in
    (r ≡ with_display qt sample Ring.sample cluster told window)
    × Lost qt sample Ring.sample cluster told window
        (thread_loop sample Ring.sample (exec qt sample Ring.sample cluster events) r)
early_lost_lem_example =
    early_lost_lem qt sample Ring.sample cluster true
      (codes "-- ERROR: Could not load osgnav-testbed module" ∷ []) events window refl refl refl

abbrev view : FltkConsole sample Ring.sample
view = record {
  console = console;
  running = false;
  input_buf = codes "x=1";
  code_buf = [];
  title = [];
  files = [];
  calls = [];
}

abbrev rounds : List (Round sample Ring.sample)
rounds =
    record {
      kernel_running = true;
      actions = (true, input_run) ∷ (true, typed (codes "y=2")) ∷ [];
      waited = true;
      has_window = true;
    }
    ∷ record {
      kernel_running = true;
      actions = (false, input_run) ∷ (true, stopped) ∷ [];
      waited = true;
      has_window = true;
    }
    ∷ []

thread_loop_lem_example :
    FltkLooping.Looped sample Ring.sample cluster view
      (Fltk.thread_loop sample Ring.sample cluster rounds view)
    × (Fltk.thread_loop sample Ring.sample cluster rounds (Fltk.begin_loop sample Ring.sample view)
        ≡ some (returned (false, Fltk.begin_loop sample Ring.sample view)))
thread_loop_lem_example = thread_loop_lem sample Ring.sample cluster rounds view refl refl

buttons_lem_example : BothRan qt sample Ring.sample cluster true (codes "x=1") view window sync
buttons_lem_example =
    buttons_lem qt sample Ring.sample Ring.sample_laws cluster true view window sync refl refl refl
      refl

abbrev luabind : Bindings sample
luabind = record {
  cast_string = to_string;
  call_function = λ name args s. (true, s);
  call_error = λ name args s. none;
}

fltk_main_lem_example :
    Finished sample Ring.sample true
      (main sample Ring.sample luabind (buffer sync) cluster rounds true script)
fltk_main_lem_example =
    fltk_main_lem sample Ring.sample luabind (buffer sync) cluster rounds true script refl

abbrev fonts : Fonts sample Ring.sample
fonts = record { consolas = true; font_file = []; application_font = none }

abbrev new_window : QtConsole sample Ring.sample
new_window = record window {
  console = new_console sample Ring.sample script true;
  plain_text_edit = [];
}

new_window_lem : new_qt_console sample Ring.sample true fonts script ≡ some new_window
unfolding new_qt_console
new_window_lem = refl

qt_main_lem_example :
    let m = require_module sample luabind (codes "osgnav-testbed") true script in
    Stages.Finished sample Ring.sample
      (stub_console sample Ring.sample)
      (IdleStub sample Ring.sample)
      (wait_for_kernel_stop ∷ [])
      (wait_for_kernel_stop ∷ [])
      true
      true
      m
      (console_main sample Ring.sample
        (stub_console sample Ring.sample)
        luabind
        true
        (buffer sync)
        true
        script
        (new_stub_console sample Ring.sample script))
    × Stages.Finished sample Ring.sample
        (qt_console sample Ring.sample qt cluster events)
        (IdleWindow sample Ring.sample)
        (stop_kernel ∷ wait_for_kernel_stop ∷ [])
        []
        true
        true
        m
        (console_main sample Ring.sample
          (qt_console sample Ring.sample qt cluster events)
          luabind
          true
          (buffer sync)
          true
          script
          new_window)
qt_main_lem_example =
    qt_main_lem sample Ring.sample luabind true (buffer sync) true script qt cluster events fonts
      new_window new_window_lem refl
