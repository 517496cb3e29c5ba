-- ===== src/QtConsole/Events.antt =====
-- The events of the window of vrjugglua/qt-console/QTConsole.cpp, the slots that handle them, and the
-- loop that Qt runs over them until the window is closed.
use vr_jugglua.Prelude.{
  Bool, true, false, not, List, [], ◌∷◌, ◌++◌, Option, none, some, Bytes, codes, equal,
  if◌then◌else◌,
}
use vr_jugglua.Lua.{Api}
use vr_jugglua.CircularBuffer.{CircularBuffer}
use vr_jugglua.ScriptHost.{returned}
use vr_jugglua.SyncBuffer.{Operation, then_do, Cluster, SyncBuffer}
use vr_jugglua.CodeInput.{Qt, Signal, got_jconf, got_lua_file, drop_event}
use vr_jugglua.QtConsole.{
  Posted, repeat, QtConsole, slot, append_to_display, disable_action, stop_thread, close,
  update_debug_log, check_running_state, add_string, add_file, console_ready,
}

module _ (qt : Qt) (lua : Api) (ring : CircularBuffer) where
  -- What the user does, with the file that a dialog gives (none for the null text) and whether the lock
  -- of the run buffer is got; the timers, with whether the kernel runs; the delivery of what waits first
  -- in the queue; and what other threads do meanwhile.
  pub data Event : Type 0 where
    run_clicked file_exit_triggered window_closed log_timeout zero_timeout delivered : Event
    edited : Bytes → Event
    file_open_triggered load_jconf_triggered : Option Bytes → Event
    file_save_triggered : Bool → Option Bytes → Event
    polling_timeout : Bool → Event
    dropped : Option (List qt.Url) → Event
    stopped disabled : Event
    appended logged : Bytes → Event
    buffer_used : (SyncBuffer lua ring → SyncBuffer lua ring) → Event

  abbrev Window : Type 0
  Window = QtConsole lua ring

  -- `!fileName.isEmpty() && !fileName.isNull()`
  abbrev pub with_file : Option Bytes → (Bytes → Operation Window) → Window → Operation Window
  with_file none next q = some (returned q)
  with_file (some name) next q = if not (equal name []) then next name else some (returned q)

  abbrev pub done : Operation (Bool × Window) → Operation Window
  done result = then_do result (λ (r : Bool × Window). some (returned r.1))

  abbrev pub jconf_chunk : Bytes → Bytes
  jconf_chunk name = codes "vrjKernel.loadConfigFile[[" ++ (name ++ codes "]]")

  unfoldable pub on_file_open : Cluster → Bool → Option Bytes → Window → Operation Window
  unfolding add_file
  on_file_open cluster acquired name q =
      with_file name (λ (fn : Bytes). done (add_file lua ring cluster acquired fn q)) q

  -- `writable` says whether the file can be opened, which is not looked at.
  unfoldable pub on_file_save : Bool → Option Bytes → Window → Operation Window
  unfolding append_to_display
  on_file_save writable name q =
      with_file name
        (λ (fn : Bytes). some (
          returned (
            append_to_display lua ring true
              (codes "-- code up to here saved to file '" ++ (fn ++ codes "'\n"))
              (record q {
                files =
                    if writable
                    then q.files ++ ((fn, q.plain_text_edit ++ codes "\n") ∷ [])
                    else q.files;
              }))))
        q

  unfoldable pub on_load_addl_jconf : Cluster → Bool → Option Bytes → Window → Operation Window
  unfolding add_string
  on_load_addl_jconf cluster acquired name q =
      with_file name
        (λ (fn : Bytes). done (add_string lua ring cluster acquired (jconf_chunk fn) q)) q

  unfoldable pub on_button_run : Cluster → Bool → Window → Operation Window
  unfolding add_string
  on_button_run cluster acquired q =
      done
        (add_string lua ring cluster acquired q.plain_text_edit (record q { plain_text_edit = [] }))

  unfoldable pub load_jconf : qt.Url → Window → Window
  load_jconf url q = record q {
    plain_text_edit = qt.append_plain_text (jconf_chunk (qt.to_local_file url)) q.plain_text_edit;
  }

  unfoldable pub run_lua_file : qt.Url → Window → Window
  run_lua_file url q = record q {
    plain_text_edit =
        qt.append_plain_text (codes "dofile[[" ++ (qt.to_local_file url ++ codes "]]"))
          q.plain_text_edit;
  }

  abbrev pub input_slot : Signal qt → Window → Window
  input_slot (got_jconf url) = load_jconf url
  input_slot (got_lua_file url) = run_lua_file url

  -- The signals of the editor, each of which calls its slot once for each connection.
  unfoldable pub receive : List (Signal qt) → Window → Window
  unfolding load_jconf run_lua_file
  receive [] q = q
  receive (signal ∷ signals) q = receive signals (repeat q.connections (input_slot signal) q)

  abbrev pub deliver : List Posted → Window → Window
  deliver [] q = q
  deliver (posted ∷ rest) q = slot lua ring posted (record q { queue = rest })

  abbrev pub use_buffer : (SyncBuffer lua ring → SyncBuffer lua ring) → Window → Window
  use_buffer change q = record q {
    console = record q.console {
      runbuf = elim q.console.runbuf [ none ↦ none | some b ↦ some (change b) ];
    };
  }

  unfoldable pub handle : Cluster → Bool → Event → Window → Operation Window
  unfolding on_file_open on_file_save on_load_addl_jconf on_button_run receive
  handle cluster acquired run_clicked q =
      if q.button_run_enabled then on_button_run cluster acquired q else some (returned q)
  handle cluster acquired file_exit_triggered q = some (returned (close lua ring q))
  handle cluster acquired window_closed q = some (returned (close lua ring q))
  handle cluster acquired log_timeout q =
      some (returned (if q.log_timer then update_debug_log lua ring q else q))
  handle cluster acquired zero_timeout q =
      some (returned (if q.ready_posted then console_ready lua ring q else q))
  handle cluster acquired delivered q = some (returned (deliver q.queue q))
  handle cluster acquired (edited text) q =
      some (returned (if q.text_edit_enabled then record q { plain_text_edit = text } else q))
  handle cluster acquired (file_open_triggered name) q =
      if q.file_open_enabled then on_file_open cluster acquired name q else some (returned q)
  handle cluster acquired (load_jconf_triggered name) q = on_load_addl_jconf cluster acquired name q
  handle cluster acquired (file_save_triggered writable name) q = on_file_save writable name q
  handle cluster acquired (polling_timeout kernel_running) q =
      some (returned (check_running_state lua ring kernel_running q))
  handle cluster acquired (dropped urls) q =
      some (returned (if q.text_edit_enabled then receive (drop_event qt urls).1 q else q))
  handle cluster acquired stopped q = some (returned (stop_thread lua ring q))
  handle cluster acquired disabled q = some (returned (disable_action lua ring false q))
  handle cluster acquired (appended message) q =
      some (returned (append_to_display lua ring false message q))
  handle cluster acquired (logged text) q =
      some (returned (if q.console.logging_active then record q { log = q.log ++ text } else q))
  handle cluster acquired (buffer_used change) q = some (returned (use_buffer change q))

  -- `_app->exec()` returns once the window is closed; it still waits (none) where the events end before.
  -- The lock is got or not for each event.
  unfoldable pub exec : Cluster → List (Bool × Event) → Window → Operation Window
  unfolding handle
  exec cluster [] q = if q.closed then some (returned q) else none
  exec cluster ((acquired, event) ∷ events) q =
      let rest = then_do (handle cluster acquired event q) (exec cluster events) in
      if q.closed then some (returned q) else rest
