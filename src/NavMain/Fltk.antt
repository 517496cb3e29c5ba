-- ===== src/NavMain/Fltk.antt =====
-- The navigation program src/FLTKNavMain.cpp, run with the loop of its console.
use vr_jugglua.Prelude.{
  ℕ, ◌≡◌, refl, sym, ap, ◌∙◌, ◌⊎◌, inl, inr, Bool, true, false, List, [], ◌∷◌, ◌++◌, Option, none,
  some, codes, if◌then◌else◌, Bool-cases,
}
use vr_jugglua.Lua.{Api}
use vr_jugglua.CircularBuffer.{CircularBuffer}
use vr_jugglua.ScriptHost.{
  Script, Bindings, Exception, Result, returned, thrown, require_module, is_valid,
}
use vr_jugglua.SyncBuffer.{Operation, Cluster}
use vr_jugglua.Console.{
  Console, Global, no_global, not_a_buffer, buffer, get_run_buf_from_lua_global, console_is_valid,
}
use vr_jugglua.Kernel.{Call, start_kernel, stop_kernel, wait_for_kernel_stop}
use vr_jugglua.FltkConsole.{FltkConsole, Round, new_fltk_console, set_title, thread_loop}
use vr_jugglua.FltkConsole.Acting.{has_buffer}
use vr_jugglua.FltkConsole.Looping.{has_last, Looped, thread_loop_lem}

module _ (lua : Api) (ring : CircularBuffer) where
  pub data Ended : Type 0 where
    exits : ℕ → FltkConsole lua ring → Ended
    raises : Exception → FltkConsole lua ring → Ended
    fails_assertion : FltkConsole lua ring → Ended

  abbrev pub kernel_call : Call → FltkConsole lua ring → FltkConsole lua ring
  kernel_call c f = record f { calls = f.calls ++ (c ∷ []) }

  -- Behind the console's loop: the kernel is stopped, if it still runs, and waited for.
  abbrev pub after_loop :
      Bool → Operation (Bool × FltkConsole lua ring) → FltkConsole lua ring → Option Ended
  after_loop is_running none f = none
  after_loop is_running (some (thrown e)) f = some (raises e f)
  after_loop is_running (some (returned (ret, t))) f = some (
      exits (if ret then 0 else 1)
        (kernel_call wait_for_kernel_stop (if is_running then kernel_call stop_kernel t else t)))

  abbrev pub with_run_buf :
      Cluster
      → List (Round lua ring)
      → Bool
      → FltkConsole lua ring
      → Result (Bool × Console lua ring)
      → Option Ended
  with_run_buf cluster rounds is_running f (thrown e) = some (raises e f)
  with_run_buf cluster rounds is_running f (returned (ok, c)) =
      let valid = record f { console = c } in
      if console_is_valid lua ring c
      then after_loop is_running
          (thread_loop lua ring cluster rounds (kernel_call start_kernel valid))
          (kernel_call start_kernel valid)
      else some (fails_assertion valid)

  abbrev pub with_module :
      Global lua ring
      → Cluster
      → List (Round lua ring)
      → Bool
      → Result (Bool × Script lua)
      → Script lua
      → Option Ended
  with_module runbuf cluster rounds is_running (thrown e) script =
      some (raises e (new_fltk_console lua ring script))
  with_module runbuf cluster rounds is_running (returned (ok, loaded)) script =
      let console =
        set_title lua ring (codes "Scenegraph Navigation Testbed")
          (new_fltk_console lua ring loaded) in
      with_run_buf cluster rounds is_running console
        (get_run_buf_from_lua_global lua ring runbuf console.console)

  -- `main`: what `requireModule` returns is not looked at. `runbuf` is the global runbuf then, `rounds` are
  -- those of the console's loop, and `is_running` says whether the kernel still runs behind it; none where
  -- the loop does not end.
  unfoldable pub main :
      Bindings lua
      → Global lua ring
      → Cluster
      → List (Round lua ring)
      → Bool
      → Script lua
      → Option Ended
  unfolding new_fltk_console set_title console_is_valid get_run_buf_from_lua_global thread_loop
  main luabind runbuf cluster rounds is_running script =
      with_module runbuf cluster rounds is_running
        (require_module lua luabind (codes "osgnav-testbed") true script) script

  -- The program does not use the kernel; or it starts it, the console's loop stops it and waits for it,
  -- and the program does so again where it still runs.
  abbrev pub Finished : Bool → Option Ended → Type 0
  Finished is_running none = ⊥
  Finished is_running (some (fails_assertion f)) = ⊥
  Finished is_running (some (raises e f)) = f.calls ≡ []
  Finished is_running (some (exits status f)) =
      (status ≡ 0)
      × (f.running ≡ false)
      × (f.calls
          ≡ (start_kernel ∷ stop_kernel ∷ wait_for_kernel_stop ∷ [])
            ++ ((if is_running then stop_kernel ∷ [] else []) ++ (wait_for_kernel_stop ∷ [])))

  after_loop-Finished :
      (cluster : Cluster) (is_running : Bool) (result : Operation (Bool × FltkConsole lua ring))
      (f : FltkConsole lua ring)
      → f.calls ≡ start_kernel ∷ []
      → has_buffer lua ring f ≡ true
      → Looped lua ring cluster f result
      → Finished is_running (after_loop is_running result f)
  after_loop-Finished cluster is_running none f started buffered looped = looped
  after_loop-Finished cluster is_running (some (thrown e)) f started buffered looped =
      absurd (cc (sym buffered ∙ looped))
  after_loop-Finished cluster true (some (returned (ret, t))) f started buffered
        (ok, stopped, calls, s) =
      (
        ap (λ (b : Bool). if b then 0 else 1) ok,
        stopped,
        ap (λ l. (l ++ (stop_kernel ∷ [])) ++ (wait_for_kernel_stop ∷ []))
            (calls ∙ ap (λ l. l ++ (stop_kernel ∷ wait_for_kernel_stop ∷ [])) started),
      )
  after_loop-Finished cluster false (some (returned (ret, t))) f started buffered
        (ok, stopped, calls, s) =
      (
        ap (λ (b : Bool). if b then 0 else 1) ok,
        stopped,
        ap (λ l. l ++ (wait_for_kernel_stop ∷ []))
            (calls ∙ ap (λ l. l ++ (stop_kernel ∷ wait_for_kernel_stop ∷ [])) started),
      )

  with_run_buf-Finished :
      (runbuf : Global lua ring) (cluster : Cluster) (rounds : List (Round lua ring))
      (is_running : Bool) (f : FltkConsole lua ring)
      → has_last lua ring cluster rounds ≡ true
      → f.calls ≡ []
      → f.running ≡ false
      → Finished is_running (
          with_run_buf cluster rounds is_running f
            (get_run_buf_from_lua_global lua ring runbuf f.console))
  with_run_buf-Finished runbuf cluster rounds is_running f last fresh idle =
      go runbuf (Bool-cases (is_valid lua f.console.script))
    where
      go :
          (g : Global lua ring)
          → (is_valid lua f.console.script ≡ true) ⊎ (is_valid lua f.console.script ≡ false)
          → Finished is_running (
              with_run_buf cluster rounds is_running f
                (get_run_buf_from_lua_global lua ring g f.console))
      go _ (inr invalid) = unfold get_run_buf_from_lua_global in simp invalid fresh
      go no_global (inl valid) = unfold get_run_buf_from_lua_global in simp valid fresh
      go not_a_buffer (inl valid) = unfold get_run_buf_from_lua_global in simp valid fresh
      go (buffer b) (inl valid) =
          let started =
            kernel_call start_kernel
              (record f { console = record f.console { runbuf = some b } }) in
          unfold get_run_buf_from_lua_global console_is_valid in
          simp valid (
            after_loop-Finished cluster is_running (thread_loop lua ring cluster rounds started)
              started (ap (λ l. l ++ (start_kernel ∷ [])) fresh) refl
              (thread_loop_lem lua ring cluster rounds started last idle).0)

  with_module-Finished :
      (runbuf : Global lua ring) (cluster : Cluster) (rounds : List (Round lua ring))
      (is_running : Bool) (m : Result (Bool × Script lua)) (script : Script lua)
      → has_last lua ring cluster rounds ≡ true
      → Finished is_running (with_module runbuf cluster rounds is_running m script)
  unfolding new_fltk_console set_title
  with_module-Finished runbuf cluster rounds is_running (thrown e) script last = refl
  with_module-Finished runbuf cluster rounds is_running (returned (ok, loaded)) script last =
      with_run_buf-Finished runbuf cluster rounds is_running
        (set_title lua ring (codes "Scenegraph Navigation Testbed")
          (new_fltk_console lua ring loaded))
        last refl refl

  -- Where a round of the console's loop is its last one, the program with FLTK ends. It fails no assertion;
  -- where the module or its run buffer is missing it ends by an exception before it uses the kernel;
  -- otherwise it starts the kernel, the loop stops it and waits for it, the program stops it again where it
  -- still runs, waits for it, and exits with 0.
  pub fltk_main_lem :
      (luabind : Bindings lua) (runbuf : Global lua ring) (cluster : Cluster)
      (rounds : List (Round lua ring)) (is_running : Bool) (script : Script lua)
      → has_last lua ring cluster rounds ≡ true
      → Finished is_running (main luabind runbuf cluster rounds is_running script)
  unfolding main
  fltk_main_lem luabind runbuf cluster rounds is_running script last =
      with_module-Finished runbuf cluster rounds is_running
        (require_module lua luabind (codes "osgnav-testbed") true script) script last
