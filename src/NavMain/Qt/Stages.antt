-- ===== src/NavMain/Qt/Stages.antt =====
-- How src/QTNavMain.cpp ends, stage by stage, with any console that does what the program relies on.
use vr_jugglua.Prelude.{
  ◌≡◌, refl, sym, ap, ◌∙◌, subst, ◌⊎◌, inl, inr, Bool, true, false, List, [], ◌∷◌, ◌++◌, Option,
  none, some, codes, is_some, if◌then◌else◌, Bool-cases,
}
use mathlib.Core.List.{append_assoc}
use vr_jugglua.Lua.{Api}
use vr_jugglua.CircularBuffer.{CircularBuffer}
use vr_jugglua.ScriptHost.{Script, Bindings, Result, returned, thrown, require_module, is_valid}
use vr_jugglua.SyncBuffer.{Operation}
use vr_jugglua.Console.{
  Console, Global, no_global, not_a_buffer, buffer, capture_std_out, capture_std_err,
  get_run_buf_from_lua_global, console_is_valid,
}
use vr_jugglua.Kernel.{Call, start_kernel, stop_kernel, wait_for_kernel_stop}
use vr_jugglua.NavMain.AnyConsole.{AnyConsole, Loops, Behaves}
use vr_jugglua.NavMain.Qt.{
  Ended, exits, raises, fails_assertion, captured, warned, exit_failed, not_loaded, exit_stopped,
  with_buffer, with_module, console_main,
}

module _ (lua : Api) (ring : CircularBuffer) (any : AnyConsole lua ring)
    (Idle : List Call → any.Window → Type 0) (loop_calls destroy_calls : List Call) where
  open any use {Window, base, with_base, with_call}

  -- Where the module was not loaded, the kernel is not used but by the console, whose loop is run just
  -- where there is no terminal. Where it was, the kernel is started, the loop run, the kernel stopped
  -- where it still runs, and waited for.
  abbrev pub failed_calls : Bool → List Call
  failed_calls without_terminal = (if without_terminal then loop_calls else []) ++ destroy_calls

  abbrev pub running_calls : Bool → List Call
  running_calls is_running =
      (start_kernel ∷ loop_calls)
      ++ ((if is_running then stop_kernel ∷ [] else [])
          ++ ((wait_for_kernel_stop ∷ []) ++ destroy_calls))

  abbrev pub Finished :
      Bool → Bool → Result (Bool × Script lua) → Option (Ended lua ring any) → Type 0
  Finished without_terminal is_running m none = ⊥
  Finished without_terminal is_running m (some (fails_assertion w)) = ⊥
  Finished without_terminal is_running (thrown e) (some (exits status w)) = ⊥
  Finished without_terminal is_running (thrown e) (some (raises x w)) = (x ≡ e) × Idle [] w
  Finished without_terminal is_running (returned (loaded, script)) (some (raises x w)) = Idle [] w
  Finished without_terminal is_running (returned (false, script)) (some (exits status w)) =
      (status ≡ 1) × Idle (failed_calls without_terminal) w
  Finished without_terminal is_running (returned (true, script)) (some (exits status w)) =
      (status ≡ 0) × Idle (running_calls is_running) w

  module _ (behaves : Behaves lua ring any Idle loop_calls destroy_calls) where
    exit_failed-Finished :
        (without_terminal is_running : Bool) (script : Script lua) (w told : Window)
        (result : Operation (Bool × Window))
        → without_terminal ≡ true
        → Idle [] w
        → Loops any Idle loop_calls [] told result
        → Finished without_terminal is_running
            (returned (false, script))
            (exit_failed lua ring any result w)
    exit_failed-Finished without_terminal is_running script w told none on idle loops = loops
    exit_failed-Finished without_terminal is_running script w told (some (thrown e)) on idle loops =
        idle
    exit_failed-Finished without_terminal is_running script w told (some (returned (ret, t))) on
          idle (succeeded, left) =
        (refl, rw on (behaves.destroy-Idle loop_calls t left))

    not_loaded-Finished :
        (without_terminal is_running : Bool) (script : Script lua) (w : Window)
        → Idle [] w
        → Finished without_terminal is_running
            (returned (false, script))
            (not_loaded lua ring any without_terminal w)
    not_loaded-Finished true is_running script w idle =
        let told = any.disable_action (warned lua ring any w) in
        exit_failed-Finished true is_running script w told (any.thread_loop told) refl idle (
          behaves.thread_loop-Loops [] told (
            behaves.disable_action-Idle [] (warned lua ring any w)
              (behaves.append_to_display-Idle _ [] _ (behaves.append_to_display-Idle _ [] w idle))))
    not_loaded-Finished false is_running script w idle = (refl, behaves.destroy-Idle [] w idle)

    exit_stopped-Finished :
        (without_terminal is_running : Bool) (script : Script lua) (w : Window)
        (result : Operation (Bool × Window))
        → is_some (base w).runbuf ≡ true
        → Loops any Idle loop_calls (start_kernel ∷ []) w result
        → Finished without_terminal is_running
            (returned (true, script))
            (exit_stopped lua ring any is_running result w)
    exit_stopped-Finished without_terminal is_running script w none buffered loops = loops
    exit_stopped-Finished without_terminal is_running script w (some (thrown e)) buffered loops =
        absurd (cc (sym buffered ∙ loops))
    exit_stopped-Finished without_terminal is_running script w (some (returned (ret, t))) buffered
          (succeeded, left) =
        (ap (λ (b : Bool). if b then 0 else 1) succeeded, ended is_running)
      where
        after : List Call
        after = start_kernel ∷ loop_calls

        waited :
            (calls : List Call) (u : Window)
            → Idle calls u
            → Idle
                ((calls ++ (wait_for_kernel_stop ∷ [])) ++ destroy_calls)
                (any.destroy (with_call wait_for_kernel_stop u))
        waited calls u idle =
            behaves.destroy-Idle (calls ++ (wait_for_kernel_stop ∷ []))
              (with_call wait_for_kernel_stop u)
              (behaves.with_call-Idle wait_for_kernel_stop calls u idle)

        ended :
            (b : Bool)
            → Idle (running_calls b) (
                any.destroy
                  (with_call wait_for_kernel_stop (if b then with_call stop_kernel t else t)))
        ended true =
            subst
              (λ (l : List Call).
                Idle l (any.destroy (with_call wait_for_kernel_stop (with_call stop_kernel t))))
              (ap (λ (l : List Call). l ++ destroy_calls)
                  (append_assoc after (stop_kernel ∷ []) (wait_for_kernel_stop ∷ []))
                ∙ append_assoc after (stop_kernel ∷ wait_for_kernel_stop ∷ []) destroy_calls)
              (waited (after ++ (stop_kernel ∷ [])) (with_call stop_kernel t)
                (behaves.with_call-Idle stop_kernel after t left))
        ended false =
            subst (λ (l : List Call). Idle l (any.destroy (with_call wait_for_kernel_stop t)))
              (append_assoc after (wait_for_kernel_stop ∷ []) destroy_calls) (waited after t left)

    with_buffer-Finished :
        (without_terminal is_running : Bool) (script : Script lua) (runbuf : Global lua ring)
        (c : Console lua ring) (w : Window)
        → Idle [] w
        → Finished without_terminal is_running
            (returned (true, script))
            (with_buffer lua ring any is_running w (get_run_buf_from_lua_global lua ring runbuf c))
    with_buffer-Finished without_terminal is_running script runbuf c w idle =
        go runbuf (Bool-cases (is_valid lua c.script))
      where
        go :
            (g : Global lua ring)
            → (is_valid lua c.script ≡ true) ⊎ (is_valid lua c.script ≡ false)
            → Finished without_terminal is_running
                (returned (true, script))
                (with_buffer lua ring any is_running w (get_run_buf_from_lua_global lua ring g c))
        go _ (inr invalid) = unfold get_run_buf_from_lua_global in simp invalid idle
        go no_global (inl valid) = unfold get_run_buf_from_lua_global in simp valid idle
        go not_a_buffer (inl valid) = unfold get_run_buf_from_lua_global in simp valid idle
        go (buffer b) (inl valid) =
            let held = record c { runbuf = some b } in
            let started = with_call start_kernel (with_base held w) in
            unfold get_run_buf_from_lua_global console_is_valid in
            simp valid (
              exit_stopped-Finished without_terminal is_running script started
                (any.thread_loop started)
                (ap (λ (d : Console lua ring). is_some d.runbuf)
                  (behaves.base-with_call start_kernel (with_base held w)
                    ∙ behaves.base-with_base held w))
                (behaves.thread_loop-Loops (start_kernel ∷ []) started (
                  behaves.with_call-Idle start_kernel [] (with_base held w)
                    (behaves.with_base-Idle held [] w idle))))

    with_module-Finished :
        (without_terminal : Bool) (runbuf : Global lua ring) (is_running : Bool)
        (m : Result (Bool × Script lua)) (w : Window)
        → Idle [] w
        → Finished without_terminal is_running m
            (with_module lua ring any without_terminal runbuf is_running m w)
    with_module-Finished without_terminal runbuf is_running (thrown e) w idle = (refl, idle)
    with_module-Finished without_terminal runbuf is_running (returned (false, script)) w idle =
        let c = record (base w) { script = script } in
        not_loaded-Finished without_terminal is_running script (with_base c w)
          (behaves.with_base-Idle c [] w idle)
    with_module-Finished without_terminal runbuf is_running (returned (true, script)) w idle =
        let c = record (base w) { script = script } in
        with_buffer-Finished without_terminal is_running script runbuf c (with_base c w)
          (behaves.with_base-Idle c [] w idle)

    pub console_main-Finished :
        (luabind : Bindings lua) (without_terminal : Bool) (runbuf : Global lua ring)
        (is_running : Bool) (script : Script lua) (w : Window)
        → Idle [] w
        → Finished without_terminal is_running
            (require_module lua luabind (codes "osgnav-testbed") true script)
            (console_main lua ring any luabind without_terminal runbuf is_running script w)
    unfolding console_main
    console_main-Finished luabind without_terminal runbuf is_running script w idle =
        with_module-Finished without_terminal runbuf is_running
          (require_module lua luabind (codes "osgnav-testbed") true script)
          (captured lua ring any without_terminal w) (captured-Idle without_terminal)
      where
        captured-Idle : (b : Bool) → Idle [] (captured lua ring any b w)
        captured-Idle true =
            behaves.with_base-Idle (capture_std_err lua ring (capture_std_out lua ring (base w))) []
              w idle
        captured-Idle false = idle
