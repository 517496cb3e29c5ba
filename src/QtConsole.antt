-- ===== src/QtConsole.antt =====
-- `QTConsole` of vrjugglua/qt-console/QTConsole.cpp: the window, its signals and slots, and the loop of
-- its events.
pub mod Events
pub mod Showing
use vr_jugglua.Prelude.{
  ℕ, zero, suc, ◌+◌, Bool, true, false, not, ◌&&◌, ◌||◌, List, [], ◌∷◌, ◌++◌, Option, none, some,
  Bytes, codes, equal, if◌then◌else◌,
}
use vr_jugglua.Lua.{Api}
use vr_jugglua.CircularBuffer.{CircularBuffer}
use vr_jugglua.ScriptHost.{Script, runtime_error, Result, returned, thrown}
use vr_jugglua.SyncBuffer.{Operation, then_do, Cluster, SyncBuffer}
use vr_jugglua.Console as Base
use vr_jugglua.Console.{Console, new_console, shown_text, console_add_string, console_file_chunk}
use vr_jugglua.CodeInput.{Qt, Signal, got_jconf, got_lua_file}
use vr_jugglua.Kernel.{Call, stop_kernel, wait_for_kernel_stop}

-- `textDisplaySignal` with its message, and `disableGUISignal`.
pub data Posted : Type 0 where
  text_display : Bytes → Posted
  disable_gui : Posted

abbrev pub repeat {ℓ} : {A : Type ℓ} → ℕ → (A → A) → A → A
repeat zero f a = a
repeat (suc n) f a = repeat n f (f a)

abbrev pub replicate {ℓ} : {A : Type ℓ} → ℕ → A → List A
replicate zero a = []
replicate (suc n) a = a ∷ replicate n a

module _ (lua : Api) (ring : CircularBuffer) where
  -- The console it extends, `_running`, what is in the streams' log `_log`, the texts of the three
  -- editors, what is enabled, whether the debug log and the window are hidden or closed; how often the
  -- signals were connected to their slots, whether the log's timer runs, whether `consoleReady` waits to
  -- be called, the signals that wait in the queue of the GUI's thread, the saved files, and the calls of
  -- the kernel.
  pub record QtConsole : Type 0 where
    pub console : Console lua ring
    pub running : Bool
    pub log : Bytes
    pub plain_text_edit : Bytes
    pub plain_text_edit_log : List Bytes
    pub plain_text_debug_log : Bytes
    pub text_edit_enabled : Bool
    pub button_run_enabled : Bool
    pub file_open_enabled : Bool
    pub show_debug_log_enabled : Bool
    pub debug_log_hidden : Bool
    pub droid_font : Bool
    pub closed : Bool
    pub connections : ℕ
    pub log_timer : Bool
    pub ready_posted : Bool
    pub queue : List Posted
    pub files : List (Bytes × Bytes)
    pub calls : List Call

  -- `_shared_init`: on Windows, whether the font Consolas is there; the file of the font Droid as it was
  -- found, the empty text where it was not; and the font's id, none for -1.
  pub record Fonts : Type 0 where
    pub consolas : Bool
    pub font_file : Bytes
    pub application_font : Option ℕ

  abbrev pub loads_font : Fonts → Bool
  loads_font fonts =
      not fonts.consolas
      && (not (equal fonts.font_file [])
          && elim fonts.application_font [ none ↦ false | some id ↦ true ])

  -- A new console, where the assertion holds that there is an application.
  unfoldable pub new_qt_console : Bool → Fonts → Script lua → Option QtConsole
  unfolding new_console
  new_qt_console has_app fonts script =
      if has_app
      then some (record {
        console = new_console lua ring script true;
        running = false;
        log = [];
        plain_text_edit = [];
        plain_text_edit_log = [];
        plain_text_debug_log = [];
        text_edit_enabled = true;
        button_run_enabled = true;
        file_open_enabled = true;
        show_debug_log_enabled = true;
        debug_log_hidden = true;
        droid_font = loads_font fonts;
        closed = false;
        connections = 0;
        log_timer = false;
        ready_posted = false;
        queue = [];
        files = [];
        calls = [];
      })
      else none

  unfoldable pub add_text_to_display : Bytes → QtConsole → QtConsole
  add_text_to_display message q = record q {
    plain_text_edit_log = q.plain_text_edit_log ++ (message ∷ []);
  }

  unfoldable pub disable_gui_action : QtConsole → QtConsole
  disable_gui_action q = record q {
    text_edit_enabled = false;
    button_run_enabled = false;
    file_open_enabled = false;
  }

  abbrev pub slot : Posted → QtConsole → QtConsole
  slot (text_display message) = add_text_to_display message
  slot disable_gui = disable_gui_action

  -- An emission calls the slot once for each connection: at once from the GUI's own thread, from another
  -- one through the queue of the GUI's.
  unfoldable pub emit : Bool → Posted → QtConsole → QtConsole
  unfolding add_text_to_display disable_gui_action
  emit own_thread posted q =
      if own_thread
      then repeat q.connections (slot posted) q
      else record q { queue = q.queue ++ replicate q.connections posted }

  -- What was passed to `appendToDisplay` is kept in the field display of the console.
  unfoldable pub append_to_display : Bool → Bytes → QtConsole → QtConsole
  unfolding emit
  append_to_display own_thread message q =
      emit own_thread (text_display message)
        (record q { console = Base.append_to_display lua ring message q.console })

  unfoldable pub disable_action : Bool → QtConsole → QtConsole
  unfolding append_to_display emit
  disable_action own_thread q = emit own_thread disable_gui (
      append_to_display own_thread (codes "-- Disabling interaction console GUI on this node...") q)

  unfoldable pub stop_thread : QtConsole → QtConsole
  stop_thread q = record q { running = false }

  abbrev pub close : QtConsole → QtConsole
  close q = record q { closed = true }

  unfoldable pub update_debug_log : QtConsole → QtConsole
  update_debug_log q =
      if not (equal q.log q.plain_text_debug_log)
      then record q { plain_text_debug_log = q.log }
      else q

  unfoldable pub check_running_state : Bool → QtConsole → QtConsole
  check_running_state kernel_running q = if not q.running || not kernel_running then close q else q

  -- `addString` and `addFile` of the console it extends, which call `appendToDisplay`.
  unfoldable pub add_string : Cluster → Bool → Bytes → QtConsole → Operation (Bool × QtConsole)
  unfolding emit
  add_string cluster acquired str q =
      then_do (console_add_string lua ring cluster acquired str q.console)
        (λ (r : Bool × Console lua ring). some (
          returned (
            r.0,
            emit true (text_display (shown_text lua ring r.0 str)) (record q { console = r.1 }),
          )))

  unfoldable pub add_file : Cluster → Bool → Bytes → QtConsole → Operation (Bool × QtConsole)
  unfolding add_string
  add_file cluster acquired fn q = elim q.console.runbuf [
    | none ↦ some (thrown (runtime_error (codes "Could not get the run buffer to add a file to!")))
    | some b ↦ add_string cluster acquired (console_file_chunk lua ring fn) q
  ]

  unfoldable pub console_ready : QtConsole → QtConsole
  console_ready q = record q {
    console = Base.console_is_ready lua ring q.console;
    ready_posted = false;
  }

  -- The signals are connected, and the timers started.
  abbrev pub begin_loop : QtConsole → QtConsole
  begin_loop q = record q {
    running = true;
    connections = suc q.connections;
    log_timer = q.console.logging_active;
    show_debug_log_enabled = if q.console.logging_active then q.show_debug_log_enabled else false;
    ready_posted = true;
    closed = false;
  }

  -- Behind the loop the timers are gone, and the kernel is stopped.
  abbrev pub end_loop : QtConsole → QtConsole
  end_loop q = record q {
    running = false;
    log_timer = false;
    calls = q.calls ++ (stop_kernel ∷ wait_for_kernel_stop ∷ []);
  }

  -- `exec` is the loop of the application's events.
  unfoldable pub thread_loop :
      (QtConsole → Operation QtConsole) → QtConsole → Operation (Bool × QtConsole)
  thread_loop exec q =
      if q.running
      then some (returned (false, q))
      else then_do (exec (begin_loop q)) (λ (t : QtConsole). some (returned (true, end_loop t)))
