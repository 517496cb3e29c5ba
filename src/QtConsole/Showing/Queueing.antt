-- ===== src/QtConsole/Showing/Queueing.antt =====
-- What the events of the loop do to the queue of signals in the window of vrjugglua/qt-console/QTConsole.cpp.
use vr_jugglua.Prelude.{
  ℕ, zero, suc, ◌≡◌, refl, ◌∙◌, inl, inr, Bool, true, false, not, ◌||◌, List, [], ◌∷◌, ◌++◌, Option,
  none, some, Bytes, codes, equal, if◌then◌else◌, Option-cases,
}
use vr_jugglua.Lua.{Api}
use vr_jugglua.CircularBuffer.{CircularBuffer}
use vr_jugglua.ScriptHost.{returned, thrown}
use vr_jugglua.SyncBuffer.{Operation, then_do, Cluster}
use vr_jugglua.Console.{Console, shown_text, console_add_string, console_file_chunk}
use vr_jugglua.CodeInput.{Qt, Signal, got_jconf, got_lua_file, drop_event}
use vr_jugglua.QtConsole as Window
use vr_jugglua.QtConsole.{
  Posted, text_display, disable_gui, repeat, replicate, QtConsole, slot, emit, append_to_display,
  disable_action, update_debug_log, check_running_state, console_ready, stop_thread, add_file,
  add_text_to_display, disable_gui_action,
}
use vr_jugglua.QtConsole.Events.{
  Event, run_clicked, file_exit_triggered, window_closed, log_timeout, zero_timeout, delivered,
  edited, file_open_triggered, load_jconf_triggered, file_save_triggered, polling_timeout, dropped,
  stopped, disabled, appended, logged, buffer_used, with_file, done, jconf_chunk, on_file_open,
  on_file_save, on_load_addl_jconf, on_button_run, load_jconf, run_lua_file, input_slot, receive,
  deliver, handle,
}

module _ (qt : Qt) (lua : Api) (ring : CircularBuffer) where
  -- A delivery takes the first signal; what another thread emits goes behind those that wait, once for
  -- each of `n` connections.
  abbrev pub queue_after : ℕ → Event qt lua ring → List Posted → List Posted
  queue_after n delivered [] = []
  queue_after n delivered (posted ∷ rest) = rest
  queue_after n (appended message) queue = queue ++ replicate n (text_display message)
  queue_after n disabled queue =
      (queue
        ++ replicate n
            (text_display (codes "-- Disabling interaction console GUI on this node...")))
      ++ replicate n disable_gui
  queue_after n event queue = queue

  abbrev pub queue_behind : ℕ → List (Bool × Event qt lua ring) → List Posted → List Posted
  queue_behind n [] queue = queue
  queue_behind n ((acquired, event) ∷ events) queue =
      queue_behind n events (queue_after n event queue)

  abbrev pub HasQueue : List Posted → Operation (QtConsole lua ring) → Type 0
  HasQueue queue none = Unit
  HasQueue queue (some (thrown e)) = Unit
  HasQueue queue (some (returned t)) = t.queue ≡ queue

  repeat-queue :
      (f : QtConsole lua ring → QtConsole lua ring)
      → ((q : QtConsole lua ring) → (f q).queue ≡ q.queue)
      → (n : ℕ) (q : QtConsole lua ring) → (repeat n f q).queue ≡ q.queue
  repeat-queue f h zero q = refl
  repeat-queue f h (suc n) q = repeat-queue f h n (f q) ∙ h q

  slot-queue : (posted : Posted) (q : QtConsole lua ring) → (slot lua ring posted q).queue ≡ q.queue
  unfolding add_text_to_display disable_gui_action
  slot-queue (text_display message) q = refl
  slot-queue disable_gui q = refl

  -- The thread of the GUI calls the slots at once.
  emit-queue :
      (posted : Posted) (q : QtConsole lua ring) → (emit lua ring true posted q).queue ≡ q.queue
  unfolding emit
  emit-queue posted q = repeat-queue (slot lua ring posted) (slot-queue posted) q.connections q

  append_to_display-queue :
      (message : Bytes) (q : QtConsole lua ring)
      → (append_to_display lua ring true message q).queue ≡ q.queue
  unfolding append_to_display
  append_to_display-queue message q =
      emit-queue (text_display message)
        (record q { console = record q.console { display = q.console.display ++ (message ∷ []) } })

  input_slot-queue :
      (signal : Signal qt) (q : QtConsole lua ring)
      → (input_slot qt lua ring signal q).queue ≡ q.queue
  unfolding load_jconf run_lua_file
  input_slot-queue (got_jconf url) q = refl
  input_slot-queue (got_lua_file url) q = refl

  receive-queue :
      (signals : List (Signal qt)) (q : QtConsole lua ring)
      → (receive qt lua ring signals q).queue ≡ q.queue
  unfolding receive
  receive-queue [] q = refl
  receive-queue (signal ∷ signals) q =
      receive-queue signals (repeat q.connections (input_slot qt lua ring signal) q)
      ∙ repeat-queue (input_slot qt lua ring signal) (input_slot-queue signal) q.connections q

  deliver-queue :
      (n : ℕ) (queue : List Posted) (q : QtConsole lua ring)
      → q.queue ≡ queue
      → (deliver qt lua ring queue q).queue ≡ queue_after n delivered queue
  deliver-queue n [] q h = h
  deliver-queue n (posted ∷ rest) q h = slot-queue posted (record q { queue = rest })

  if-queue :
      (b : Bool) (q t : QtConsole lua ring)
      → t.queue ≡ q.queue
      → (if b then t else q).queue ≡ q.queue
  if-queue true q t h = h
  if-queue false q t h = refl

  if-HasQueue :
      (b : Bool) (next : Operation (QtConsole lua ring)) (q : QtConsole lua ring)
      → HasQueue q.queue next
      → HasQueue q.queue (if b then next else some (returned q))
  if-HasQueue true next q h = h
  if-HasQueue false next q h = refl

  with_file-HasQueue :
      (name : Option Bytes) (next : Bytes → Operation (QtConsole lua ring)) (q : QtConsole lua ring)
      → ((fn : Bytes) → HasQueue q.queue (next fn))
      → HasQueue q.queue (with_file qt lua ring name next q)
  with_file-HasQueue none next q h = refl
  with_file-HasQueue (some fn) next q h = if-HasQueue (not (equal fn [])) (next fn) q (h fn)

  module _ (cluster : Cluster) (acquired : Bool) where
    add_string-HasQueue :
        (str : Bytes) (q : QtConsole lua ring)
        → HasQueue q.queue (done qt lua ring (Window.add_string lua ring cluster acquired str q))
    unfolding Window.add_string
    add_string-HasQueue str q = go (console_add_string lua ring cluster acquired str q.console)
      where
        go :
            (result : Operation (Bool × Console lua ring))
            → HasQueue q.queue (
                done qt lua ring (
                  then_do result (λ (a : Bool × Console lua ring). some (
                    returned (
                      a.0,
                      emit lua ring true
                          (text_display (shown_text lua ring a.0 str))
                          (record q { console = a.1 }),
                    )))))
        go none = tt
        go (some (thrown e)) = tt
        go (some (returned a)) =
            emit-queue (text_display (shown_text lua ring a.0 str)) (record q { console = a.1 })

    add_file-HasQueue :
        (fn : Bytes) (q : QtConsole lua ring)
        → HasQueue q.queue (done qt lua ring (add_file lua ring cluster acquired fn q))
    unfolding add_file
    add_file-HasQueue fn q = elim (Option-cases q.console.runbuf) [
      | inl missing ↦ simp (missing, add_file) tt
      | inr (b, found) ↦
          simp (found, add_file) (add_string-HasQueue (console_file_chunk lua ring fn) q)
    ]

    update_debug_log-queue :
        (q : QtConsole lua ring) → (update_debug_log lua ring q).queue ≡ q.queue
    unfolding update_debug_log
    update_debug_log-queue q =
        if-queue (not (equal q.log q.plain_text_debug_log)) q
          (record q { plain_text_debug_log = q.log }) refl

    on_file_save-HasQueue :
        (writable : Bool) (name : Option Bytes) (q : QtConsole lua ring)
        → HasQueue q.queue (on_file_save qt lua ring writable name q)
    unfolding on_file_save
    on_file_save-HasQueue writable name q = with_file-HasQueue name _ q (λ fn.
        append_to_display-queue (codes "-- code up to here saved to file '" ++ (fn ++ codes "'\n"))
          (record q {
            files =
                if writable
                then q.files ++ ((fn, q.plain_text_edit ++ codes "\n") ∷ [])
                else q.files;
          }))

    pub handle-HasQueue :
        (event : Event qt lua ring) (q : QtConsole lua ring)
        → HasQueue
            (queue_after q.connections event q.queue)
            (handle qt lua ring cluster acquired event q)
    unfolding handle
    handle-HasQueue run_clicked q =
        if-HasQueue q.button_run_enabled (on_button_run qt lua ring cluster acquired q) q (
          unfold on_button_run in
          add_string-HasQueue q.plain_text_edit (record q { plain_text_edit = [] }))
    handle-HasQueue file_exit_triggered q = refl
    handle-HasQueue window_closed q = refl
    handle-HasQueue log_timeout q =
        if-queue q.log_timer q (update_debug_log lua ring q) (update_debug_log-queue q)
    handle-HasQueue zero_timeout q =
        if-queue q.ready_posted q (console_ready lua ring q) (unfold console_ready in refl)
    handle-HasQueue delivered q = deliver-queue q.connections q.queue q refl
    handle-HasQueue (edited text) q =
        if-queue q.text_edit_enabled q (record q { plain_text_edit = text }) refl
    handle-HasQueue (file_open_triggered name) q =
        if-HasQueue q.file_open_enabled (on_file_open qt lua ring cluster acquired name q) q (
          unfold on_file_open in
          with_file-HasQueue name
            (λ (fn : Bytes). done qt lua ring (add_file lua ring cluster acquired fn q)) q
            (λ fn. add_file-HasQueue fn q))
    handle-HasQueue (load_jconf_triggered name) q =
        unfold on_load_addl_jconf in
        with_file-HasQueue name
          (λ (fn : Bytes).
            done qt lua ring
              (Window.add_string lua ring cluster acquired (jconf_chunk qt lua ring fn) q))
          q (λ fn. add_string-HasQueue (jconf_chunk qt lua ring fn) q)
    handle-HasQueue (file_save_triggered writable name) q = on_file_save-HasQueue writable name q
    handle-HasQueue (polling_timeout kernel_running) q =
        unfold check_running_state in
        if-queue (not q.running || not kernel_running) q (record q { closed = true }) refl
    handle-HasQueue (dropped urls) q =
        if-queue q.text_edit_enabled q (receive qt lua ring (drop_event qt urls).1 q)
          (receive-queue (drop_event qt urls).1 q)
    handle-HasQueue stopped q = unfold stop_thread in refl
    handle-HasQueue disabled q = unfold disable_action append_to_display emit in refl
    handle-HasQueue (appended message) q = unfold append_to_display emit in refl
    handle-HasQueue (logged text) q =
        if-queue q.console.logging_active q (record q { log = q.log ++ text }) refl
    handle-HasQueue (buffer_used change) q = refl
