-- ===== src/FltkConsole.antt =====
-- `FLTKConsole` and its view of vrjugglua/fltk-console/FLTKConsole.cpp: the two text buffers, what the
-- user does with them, and the loop of the console.
pub mod Acting
pub mod Looping
pub mod Typing
use vr_jugglua.Prelude.{
  Bool, true, false, not, ◌&&◌, List, [], ◌∷◌, ◌++◌, Option, none, some, Bytes, codes,
  if◌then◌else◌,
}
use vr_jugglua.Lua.{Api}
use vr_jugglua.CircularBuffer.{CircularBuffer}
use vr_jugglua.ScriptHost.{Script, runtime_error, Result, returned, thrown}
use vr_jugglua.SyncBuffer.{Operation, then_do, Cluster, SyncBuffer}
use vr_jugglua.Console as Base
use vr_jugglua.Console.{Console, new_console, shown_text, console_add_string, console_file_chunk}
use vr_jugglua.Kernel.{Call, stop_kernel, wait_for_kernel_stop}

module _ (lua : Api) (ring : CircularBuffer) where
  -- The console it extends, `_running`, the texts of the view's `_inputBuf` and `_codeBuf`, the window's
  -- title, the saved files, and the calls of the kernel.
  pub record FltkConsole : Type 0 where
    pub console : Console lua ring
    pub running : Bool
    pub input_buf : Bytes
    pub code_buf : Bytes
    pub title : Bytes
    pub files : List (Bytes × Bytes)
    pub calls : List Call

  unfoldable pub new_fltk_console : Script lua → FltkConsole
  unfolding new_console
  new_fltk_console script = record {
    console = new_console lua ring script false;
    running = false;
    input_buf = [];
    code_buf = [];
    title = codes "VRJLua Console";
    files = [];
    calls = [];
  }

  abbrev pub append_to_view : Bytes → FltkConsole → FltkConsole
  append_to_view message f = record f { code_buf = f.code_buf ++ (message ++ codes "\n") }

  -- What was passed to `appendToDisplay` of the console is kept in the field display of it.
  unfoldable pub append_to_display : Bytes → FltkConsole → FltkConsole
  append_to_display message f =
      append_to_view message
        (record f { console = Base.append_to_display lua ring message f.console })

  unfoldable pub set_title : Bytes → FltkConsole → FltkConsole
  set_title title f = record f { title = title }

  unfoldable pub stop_thread : FltkConsole → FltkConsole
  stop_thread f = record f { running = false }

  -- `addString` and `addFile` of the console it extends, which call `appendToDisplay`.
  unfoldable pub add_string : Cluster → Bool → Bytes → FltkConsole → Operation (Bool × FltkConsole)
  add_string cluster acquired str f =
      then_do (console_add_string lua ring cluster acquired str f.console)
        (λ (r : Bool × Console lua ring). some (
          returned
            (r.0, append_to_view (shown_text lua ring r.0 str) (record f { console = r.1 }))))

  unfoldable pub add_file : Cluster → Bool → Bytes → FltkConsole → Operation (Bool × FltkConsole)
  unfolding add_string
  add_file cluster acquired fn f = elim f.console.runbuf [
    | none ↦ some (thrown (runtime_error (codes "Could not get the run buffer to add a file to!")))
    | some b ↦ add_string cluster acquired (console_file_chunk lua ring fn) f
  ]

  unfoldable pub run_input : Cluster → Bool → FltkConsole → Operation FltkConsole
  unfolding add_string
  run_input cluster acquired f =
      then_do (add_string cluster acquired f.input_buf f) (λ (r : Bool × FltkConsole).
        some (returned (if r.0 then record r.1 { input_buf = [] } else r.1)))

  -- The file that the dialog gives, none where none was picked.
  unfoldable pub choose_and_run_file :
      Cluster → Bool → Option Bytes → FltkConsole → Operation FltkConsole
  unfolding add_file
  choose_and_run_file cluster acquired none f = some (returned f)
  choose_and_run_file cluster acquired (some name) f =
      then_do
        (add_file cluster acquired name (append_to_view (codes "\n-- Run file chosen in GUI") f))
        (λ (r : Bool × FltkConsole). some (returned r.1))

  -- `saved` says whether the buffer's `savefile` succeeds.
  unfoldable pub save_file : Bool → Option Bytes → FltkConsole → FltkConsole
  save_file saved none f = f
  save_file saved (some name) f =
      if saved
      then append_to_view (codes "-- code up to here saved to file '" ++ (name ++ codes "'\n"))
          (record f { files = f.files ++ ((name, f.code_buf) ∷ []) })
      else append_to_view (codes "\n-- Saving to chosen file failed") f

  -- What happens during one wait of FLTK: what the user does, and what other threads do meanwhile.
  pub data Action : Type 0 where
    typed appended : Bytes → Action
    input_run stopped : Action
    file_chosen : Option Bytes → Action
    file_saved : Bool → Option Bytes → Action
    buffer_used : (SyncBuffer lua ring → SyncBuffer lua ring) → Action

  abbrev pub use_buffer : (SyncBuffer lua ring → SyncBuffer lua ring) → FltkConsole → FltkConsole
  use_buffer change f = record f {
    console = record f.console {
      runbuf = elim f.console.runbuf [ none ↦ none | some b ↦ some (change b) ];
    };
  }

  unfoldable pub act : Cluster → Bool → Action → FltkConsole → Operation FltkConsole
  unfolding run_input choose_and_run_file save_file stop_thread append_to_display
  act cluster acquired (typed text) f = some (returned (record f { input_buf = text }))
  act cluster acquired (appended message) f = some (returned (append_to_display message f))
  act cluster acquired input_run f = run_input cluster acquired f
  act cluster acquired stopped f = some (returned (stop_thread f))
  act cluster acquired (file_chosen name) f = choose_and_run_file cluster acquired name f
  act cluster acquired (file_saved saved name) f = some (returned (save_file saved name f))
  act cluster acquired (buffer_used change) f = some (returned (use_buffer change f))

  unfoldable pub act_all : Cluster → List (Bool × Action) → FltkConsole → Operation FltkConsole
  unfolding act
  act_all cluster [] f = some (returned f)
  act_all cluster ((acquired, action) ∷ actions) f =
      then_do (act cluster acquired action f) (act_all cluster actions)

  -- One round of the loop: whether the kernel runs at its test, what happens in the wait, whether
  -- `Fl::wait` gives no error, and whether there is a window behind it.
  pub record Round : Type 0 where
    pub kernel_running : Bool
    pub actions : List (Bool × Action)
    pub waited : Bool
    pub has_window : Bool

  unfoldable pub do_thread_work : Cluster → Round → FltkConsole → Operation (Bool × FltkConsole)
  unfolding act_all
  do_thread_work cluster round f =
      then_do (act_all cluster round.actions f)
        (λ (t : FltkConsole). some (returned (round.waited && round.has_window, t)))

  -- The loop still goes on (none) where there are no more rounds.
  unfoldable pub loop : Cluster → List Round → FltkConsole → Operation FltkConsole
  unfolding do_thread_work
  loop cluster [] f = if f.running then none else some (returned f)
  loop cluster (round ∷ rounds) f =
      if f.running && round.kernel_running
      then then_do (do_thread_work cluster round f) (λ (r : Bool × FltkConsole).
        let rest = loop cluster rounds r.1 in if not r.0 then some (returned r.1) else rest)
      else some (returned f)

  abbrev pub begin_loop : FltkConsole → FltkConsole
  begin_loop f = record f { running = true; console = Base.console_is_ready lua ring f.console }

  abbrev pub end_loop : FltkConsole → FltkConsole
  end_loop f = record f {
    running = false;
    calls = f.calls ++ (stop_kernel ∷ wait_for_kernel_stop ∷ []);
  }

  unfoldable pub thread_loop : Cluster → List Round → FltkConsole → Operation (Bool × FltkConsole)
  unfolding loop
  thread_loop cluster rounds f =
      if f.running
      then some (returned (false, f))
      else then_do (loop cluster rounds (begin_loop f))
          (λ (t : FltkConsole). some (returned (true, end_loop t)))
