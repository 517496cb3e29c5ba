-- ===== src/QtConsole/Showing/Handling.antt =====
-- Each event of the window of vrjugglua/qt-console/QTConsole.cpp shows what it appends.
use vr_jugglua.Prelude.{
  ◌≡◌, refl, sym, ap, ◌∙◌, inl, inr, Bool, true, false, not, ◌||◌, List, [], ◌∷◌, ◌++◌, Option,
  none, some, Bytes, codes, equal, is_some, if◌then◌else◌, Bool-cases, Option-cases,
}
use mathlib.Core.List.{append_assoc}
use vr_jugglua.Lua.{Api}
use vr_jugglua.CircularBuffer.{CircularBuffer}
use vr_jugglua.ScriptHost.{returned, thrown}
use vr_jugglua.SyncBuffer.{Operation, then_do, Cluster, SyncBuffer}
use vr_jugglua.Console.Returning.{Added, console_add_string-Added}
use vr_jugglua.Console.{
  Console, shown_text, console_add_string, console_file_chunk, console_is_ready,
}
use vr_jugglua.CodeInput.{Qt, Signal, got_jconf, got_lua_file, drop_event}
use vr_jugglua.QtConsole as Window
use vr_jugglua.QtConsole.{
  Posted, text_display, disable_gui, repeat, QtConsole, emit, add_file, update_debug_log,
  check_running_state, console_ready, stop_thread, add_text_to_display, disable_gui_action,
}
use vr_jugglua.QtConsole.Events.{
  Event, run_clicked, file_exit_triggered, window_closed, log_timeout, zero_timeout, delivered,
  edited, file_open_triggered, load_jconf_triggered, file_save_triggered, polling_timeout, dropped,
  stopped, disabled, appended, logged, buffer_used, with_file, done, jconf_chunk, on_file_open,
  on_file_save, on_load_addl_jconf, on_button_run, load_jconf, run_lua_file, input_slot, receive,
  deliver, use_buffer, handle,
}
use vr_jugglua.QtConsole.Showing.{
  has_buffer, texts, Quiet, Grows, Quiet→Grows, Quiet-repeat, emit-Grows, append_to_display-Grows,
  disable_action-Grows,
}

module _ (lua : Api) (ring : CircularBuffer) where
  -- The console behind a handler, which throws only where there is no run buffer.
  abbrev pub Handled : QtConsole lua ring → Operation (QtConsole lua ring) → Type 0
  Handled q none = ⊥
  Handled q (some (thrown e)) = has_buffer lua ring q ≡ false
  Handled q (some (returned t)) = Grows lua ring q t

module _ (qt : Qt) (lua : Api) (ring : CircularBuffer) (cluster : Cluster) (acquired : Bool) where
  -- An addition that begins at `r`, a console that shows what `q` does.
  done-Handled :
      (str : Bytes) (q r : QtConsole lua ring) (result : Operation (Bool × Console lua ring))
      → Quiet lua ring q r
      → Added lua ring str r.console result
      → Handled lua ring q (
          done qt lua ring (
            then_do result (λ (a : Bool × Console lua ring). some (
              returned (
                a.0,
                emit lua ring true
                    (text_display (shown_text lua ring a.0 str))
                    (record r { console = a.1 }),
              )))))
  done-Handled str q r none quiet added = added
  done-Handled str q r (some (thrown e)) (s, d, n, c, b) added = sym b ∙ added
  done-Handled str q r (some (returned a)) (s, d, n, c, b) (display, after, before) =
      emit-Grows lua ring true (shown_text lua ring a.0 str) q (record r { console = a.1 })
        (display ∙ ap (λ (l : List Bytes). l ++ (shown_text lua ring a.0 str ∷ [])) d) s n c
        (after ∙ sym before ∙ b)

  add_string-Handled :
      (str : Bytes) (q r : QtConsole lua ring)
      → Quiet lua ring q r
      → Handled lua ring q (done qt lua ring (Window.add_string lua ring cluster acquired str r))
  unfolding Window.add_string
  add_string-Handled str q r quiet =
      done-Handled str q r (console_add_string lua ring cluster acquired str r.console) quiet
        (console_add_string-Added lua ring cluster acquired str r.console)

  add_file-Handled :
      (fn : Bytes) (q : QtConsole lua ring)
      → Handled lua ring q (done qt lua ring (add_file lua ring cluster acquired fn q))
  unfolding add_file
  add_file-Handled fn q = elim (Option-cases q.console.runbuf) [
    | inl missing ↦ simp (missing, add_file) refl
    | inr (b, found) ↦
        simp (found, add_file)
          (add_string-Handled (console_file_chunk lua ring fn) q q (refl, refl, refl, refl, refl))
  ]

  with_file-Handled :
      (name : Option Bytes) (next : Bytes → Operation (QtConsole lua ring)) (q : QtConsole lua ring)
      → ((fn : Bytes) → Handled lua ring q (next fn))
      → Handled lua ring q (with_file qt lua ring name next q)
  with_file-Handled none next q h = Quiet→Grows lua ring q q (refl, refl, refl, refl, refl)
  with_file-Handled (some fn) next q h = elim (Bool-cases (equal fn [])) [
    | inl empty ↦ simp empty (Quiet→Grows lua ring q q (refl, refl, refl, refl, refl))
    | inr named ↦ simp named (h fn)
  ]

  if-Handled :
      (b : Bool) (next : Operation (QtConsole lua ring)) (q : QtConsole lua ring)
      → Handled lua ring q next
      → Handled lua ring q (if b then next else some (returned q))
  if-Handled true next q h = h
  if-Handled false next q h = Quiet→Grows lua ring q q (refl, refl, refl, refl, refl)

  if-Quiet :
      (b : Bool) (q t : QtConsole lua ring)
      → Quiet lua ring q t
      → Quiet lua ring q (if b then t else q)
  if-Quiet true q t h = h
  if-Quiet false q t h = (refl, refl, refl, refl, refl)

  input_slot-Quiet :
      (signal : Signal qt) (q : QtConsole lua ring)
      → Quiet lua ring q (input_slot qt lua ring signal q)
  unfolding load_jconf run_lua_file
  input_slot-Quiet (got_jconf url) q = (refl, refl, refl, refl, refl)
  input_slot-Quiet (got_lua_file url) q = (refl, refl, refl, refl, refl)

  receive-Quiet :
      (signals : List (Signal qt)) (q : QtConsole lua ring)
      → Quiet lua ring q (receive qt lua ring signals q)
  unfolding receive
  receive-Quiet [] q = (refl, refl, refl, refl, refl)
  receive-Quiet (signal ∷ signals) q =
      let r = repeat q.connections (input_slot qt lua ring signal) q in
      let (s, d, n, c, b) =
        Quiet-repeat lua ring q.connections (input_slot qt lua ring signal)
          (input_slot-Quiet signal) q in
      let (s', d', n', c', b') = receive-Quiet signals r in (s' ∙ s, d' ∙ d, n' ∙ n, c' ∙ c, b' ∙ b)

  deliver-Quiet :
      (queue : List Posted) (q : QtConsole lua ring)
      → Quiet lua ring
          (record q { queue = queue })
          (deliver qt lua ring queue (record q { queue = queue }))
  unfolding add_text_to_display disable_gui_action
  deliver-Quiet [] q = (refl, refl, refl, refl, refl)
  deliver-Quiet (text_display m ∷ rest) q =
      (append_assoc q.plain_text_edit_log (m ∷ []) (texts rest), refl, refl, refl, refl)
  deliver-Quiet (disable_gui ∷ rest) q = (refl, refl, refl, refl, refl)

  use_buffer-Quiet :
      (change : SyncBuffer lua ring → SyncBuffer lua ring) (q : QtConsole lua ring)
      → Quiet lua ring q (use_buffer qt lua ring change q)
  use_buffer-Quiet change q = (refl, refl, refl, refl, used q.console.runbuf)
    where
      used :
          (o : Option (SyncBuffer lua ring))
          → is_some (elim o [ none ↦ none | some b ↦ some (change b) ]) ≡ is_some o
      used none = refl
      used (some b) = refl

  update_debug_log-Quiet : (q : QtConsole lua ring) → Quiet lua ring q (update_debug_log lua ring q)
  unfolding update_debug_log
  update_debug_log-Quiet q =
      if-Quiet (not (equal q.log q.plain_text_debug_log)) q
        (record q { plain_text_debug_log = q.log }) (refl, refl, refl, refl, refl)

  console_ready-Quiet : (q : QtConsole lua ring) → Quiet lua ring q (console_ready lua ring q)
  unfolding console_ready console_is_ready
  console_ready-Quiet q = (refl, refl, refl, refl, refl)

  check_running_state-Quiet :
      (kernel_running : Bool) (q : QtConsole lua ring)
      → Quiet lua ring q (check_running_state lua ring kernel_running q)
  unfolding check_running_state
  check_running_state-Quiet kernel_running q =
      if-Quiet (not q.running || not kernel_running) q (record q { closed = true })
        (refl, refl, refl, refl, refl)

  on_file_save-Handled :
      (writable : Bool) (name : Option Bytes) (q : QtConsole lua ring)
      → Handled lua ring q (on_file_save qt lua ring writable name q)
  unfolding on_file_save Window.append_to_display
  on_file_save-Handled writable name q = with_file-Handled name _ q (λ fn.
      emit-Grows lua ring true (codes "-- code up to here saved to file '" ++ (fn ++ codes "'\n")) q
        _ refl refl refl refl refl)

  pub handle-Handled :
      (event : Event qt lua ring) (q : QtConsole lua ring)
      → Handled lua ring q (handle qt lua ring cluster acquired event q)
  unfolding handle
  handle-Handled run_clicked q =
      if-Handled q.button_run_enabled (on_button_run qt lua ring cluster acquired q) q (
        unfold on_button_run in
        add_string-Handled q.plain_text_edit q (record q { plain_text_edit = [] })
          (refl, refl, refl, refl, refl))
  handle-Handled file_exit_triggered q =
      Quiet→Grows lua ring q (record q { closed = true }) ((refl, refl, refl, refl, refl))
  handle-Handled window_closed q =
      Quiet→Grows lua ring q (record q { closed = true }) ((refl, refl, refl, refl, refl))
  handle-Handled log_timeout q =
      Quiet→Grows lua ring q (if q.log_timer then update_debug_log lua ring q else q)
        (if-Quiet q.log_timer q (update_debug_log lua ring q) (update_debug_log-Quiet q))
  handle-Handled zero_timeout q =
      Quiet→Grows lua ring q (if q.ready_posted then console_ready lua ring q else q)
        (if-Quiet q.ready_posted q (console_ready lua ring q) (console_ready-Quiet q))
  handle-Handled delivered q =
      Quiet→Grows lua ring q (deliver qt lua ring q.queue q) (deliver-Quiet q.queue q)
  handle-Handled (edited text) q =
      Quiet→Grows lua ring q
        (if q.text_edit_enabled then record q { plain_text_edit = text } else q)
        (if-Quiet (q.text_edit_enabled) q (record q { plain_text_edit = text })
          (refl, refl, refl, refl, refl))
  handle-Handled (file_open_triggered name) q =
      if-Handled q.file_open_enabled (on_file_open qt lua ring cluster acquired name q) q (
        unfold on_file_open in
        with_file-Handled name
          (λ (fn : Bytes). done qt lua ring (add_file lua ring cluster acquired fn q)) q
          (λ fn. add_file-Handled fn q))
  handle-Handled (load_jconf_triggered name) q =
      unfold on_load_addl_jconf in
      with_file-Handled name
        (λ (fn : Bytes).
          done qt lua ring
            (Window.add_string lua ring cluster acquired (jconf_chunk qt lua ring fn) q))
        q (λ fn. add_string-Handled (jconf_chunk qt lua ring fn) q q (refl, refl, refl, refl, refl))
  handle-Handled (file_save_triggered writable name) q = on_file_save-Handled writable name q
  handle-Handled (polling_timeout kernel_running) q =
      Quiet→Grows lua ring q (check_running_state lua ring kernel_running q)
        (check_running_state-Quiet kernel_running q)
  handle-Handled (dropped urls) q =
      Quiet→Grows lua ring q
        (if q.text_edit_enabled then receive qt lua ring (drop_event qt urls).1 q else q)
        (if-Quiet q.text_edit_enabled q (receive qt lua ring (drop_event qt urls).1 q)
          (receive-Quiet (drop_event qt urls).1 q))
  handle-Handled stopped q =
      Quiet→Grows lua ring q (stop_thread lua ring q)
        (unfold stop_thread in (refl, refl, refl, refl, refl))
  handle-Handled disabled q = disable_action-Grows lua ring false q
  handle-Handled (appended message) q = append_to_display-Grows lua ring false message q
  handle-Handled (logged text) q =
      Quiet→Grows lua ring q
        (if q.console.logging_active then record q { log = q.log ++ text } else q)
        (if-Quiet (q.console.logging_active) q (record q { log = q.log ++ text })
          (refl, refl, refl, refl, refl))
  handle-Handled (buffer_used change) q =
      Quiet→Grows lua ring q (use_buffer qt lua ring change q) (use_buffer-Quiet change q)
