-- ===== src/NavMain/Qt/Ending.antt =====
-- How the navigation program src/QTNavMain.cpp ends with each of its two consoles.
use vr_jugglua.Prelude.{◌≡◌, refl, subst, Bool, true, List, [], ◌∷◌, Option, none, some, codes}
use vr_jugglua.Lua.{Api}
use vr_jugglua.CircularBuffer.{CircularBuffer}
use vr_jugglua.ScriptHost.{Script, Bindings, require_module}
use vr_jugglua.SyncBuffer.{Cluster}
use vr_jugglua.Console.{Global}
use vr_jugglua.Console.Stub.{new_stub_console}
use vr_jugglua.CodeInput.{Qt}
use vr_jugglua.Kernel.{stop_kernel, wait_for_kernel_stop}
use vr_jugglua.QtConsole.{QtConsole, Fonts, new_qt_console}
use vr_jugglua.QtConsole.Events.{Event}
use vr_jugglua.QtConsole.Showing.Closing.{has_closing}
use vr_jugglua.NavMain.Qt.Behaving.{IdleStub, stub_console-Behaves, IdleWindow, qt_console-Behaves}
use vr_jugglua.NavMain.Qt.Stages.{Finished, console_main-Finished}
use vr_jugglua.NavMain.Qt.{stub_console, qt_console, console_main}

module _ (lua : Api) (ring : CircularBuffer) where
  -- The program ends with either of its consoles, with the window where its events close it or the kernel
  -- is found stopped, and it fails no assertion. An exception of the load ends it before the kernel is
  -- used. Where the module is not loaded it exits with 1 and does not start the kernel; without a terminal
  -- the console's loop is run before, and may throw instead. Where it is loaded, the program throws before
  -- it starts the kernel, or it exits with 0: the kernel was started; it was stopped and waited for by the
  -- window's loop, or waited for by the stub's; it was stopped again where it still ran, and waited for, by
  -- the stub once more when it was destroyed.
  pub qt_main_lem :
      (luabind : Bindings lua) (without_terminal : Bool) (runbuf : Global lua ring)
      (is_running : Bool) (script : Script lua) (qt : Qt) (cluster : Cluster)
      (events : List (Bool × Event qt lua ring)) (fonts : Fonts lua ring) (q : QtConsole lua ring)
      → new_qt_console lua ring true fonts script ≡ some q
      → has_closing qt lua ring cluster events ≡ true
      → let m = require_module lua luabind (codes "osgnav-testbed") true script in
        Finished lua ring
          (stub_console lua ring)
          (IdleStub lua ring)
          (wait_for_kernel_stop ∷ [])
          (wait_for_kernel_stop ∷ [])
          without_terminal
          is_running
          m
          (console_main lua ring
            (stub_console lua ring)
            luabind
            without_terminal
            runbuf
            is_running
            script
            (new_stub_console lua ring script))
        × (Finished lua ring
            (qt_console lua ring qt cluster events)
            (IdleWindow lua ring)
            (stop_kernel ∷ wait_for_kernel_stop ∷ [])
            []
            without_terminal
            is_running
            m
            (console_main lua ring
              (qt_console lua ring qt cluster events)
              luabind
              without_terminal
              runbuf
              is_running
              script
              q))
  unfolding new_stub_console
  qt_main_lem luabind without_terminal runbuf is_running script qt cluster events fonts q new
        closing =
      (
        console_main-Finished lua ring (stub_console lua ring) (IdleStub lua ring)
            (wait_for_kernel_stop ∷ []) (wait_for_kernel_stop ∷ []) (stub_console-Behaves lua ring)
            luabind without_terminal runbuf is_running script (new_stub_console lua ring script)
            refl,
        console_main-Finished lua ring (qt_console lua ring qt cluster events) (IdleWindow lua ring)
            (stop_kernel ∷ wait_for_kernel_stop ∷ []) []
            (qt_console-Behaves lua ring qt cluster events closing) luabind without_terminal runbuf
            is_running script q (fresh new),
      )
    where
      fresh : new_qt_console lua ring true fonts script ≡ some q → IdleWindow lua ring [] q
      fresh e =
          unfold new_qt_console in
          subst
            (λ (o : Option (QtConsole lua ring)). elim o [
              | none ↦ ⊥
              | some w ↦ IdleWindow lua ring [] w
            ])
            e (refl, refl)
