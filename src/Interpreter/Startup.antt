-- ===== src/Interpreter/Startup.antt =====
-- `handle_luainit`, `pmain` and `main` of src/lua.c: the stages of a run of the interpreter.
pub mod Stages
pub mod ScriptWords
use mathlib.Core.Option
use vr_jugglua.Prelude.{
  ℕ, zero, suc, ◌+◌, Bool, true, false, not, ◌&&◌, ◌||◌, List, [], ◌∷◌, ◌++◌, Option, none, some,
  Bytes, codes, char_at, ◌==◌, ltb, if◌then◌else◌, length, drop, get_or, get_elem?,
}
use vr_jugglua.Lua.{Api}
use vr_jugglua.CommandLine.{Flags, collectargs, runargs}
use vr_jugglua.CommandLine.Grammar.Perform.{walk_end}
use vr_jugglua.Interpreter.{
  Process, l_message, report, dofile, dostring, dolibrary, with_state, truth,
}
use vr_jugglua.Interpreter.Script.{handle_script}
use vr_jugglua.Interpreter.Repl.{dotty, text_or_empty}

-- What a run is given from outside: the variable LUA_INIT, whether stdin is a terminal, the text of
-- LUA_RELEASE and LUA_COPYRIGHT, and what `luaopen_vrjugglua` binds into the Lua state.
pub record Environment (lua : Api) : Type 0 where
  pub luainit : Option Bytes
  pub stdin_is_tty : Bool
  pub version : Bytes
  pub bind_vrjugglua : lua.State → lua.State

abbrev pub usage_text : Bytes → Bytes
usage_text name =
    codes "usage: "
    ++ (name
        ++ codes
            " [options] [script [args]].\nAvailable options are:\n  -e stat  execute string 'stat'\n  -l name  require library 'name'\n  -i       enter interactive mode after executing 'script'\n  -v       show version information\n  --       stop handling options\n  -        execute stdin and stop handling options\n")

module _ (lua : Api) where
  open lua use {State, stop_gc, restart_gc, openlibs}

  unfoldable pub print_usage : Process lua → Process lua
  print_usage p = record p { stderr = p.stderr ++ (usage_text (text_or_empty p.progname) ∷ []) }

  unfoldable pub print_version : Environment lua → Process lua → Process lua
  print_version env = l_message lua none env.version

  unfoldable pub handle_luainit : Option Bytes → Process lua → ℕ × Process lua
  handle_luainit none p = (0, p)
  handle_luainit (some init) p =
      if char_at init 0 == b'@'
      then dofile lua (some (drop 1 init)) p
      else dostring lua init (codes "=LUA_INIT") p

  -- `LuaPath::instance(argv0)` takes the path of its first call alone.
  unfoldable pub set_exec_path : Bytes → Process lua → Process lua
  set_exec_path arg0 p = record p {
    exec_path = (elim p.exec_path [ none ↦ some arg0 | some first ↦ some first ]);
  }

  -- The bindings ask `LuaPath::instance` for its directories, with no path. The construction of the
  -- `LuaScript` is taken to succeed; an exception of it leaves `pmain`, which is `raised` in `main`.
  unfoldable pub luaopen_vrjugglua : Environment lua → Process lua → Process lua
  unfolding set_exec_path
  luaopen_vrjugglua env p = set_exec_path [] (with_state lua (env.bind_vrjugglua p.state) p)

  -- The name of the program and the libraries, before anything is run.
  unfoldable pub set_up : Environment lua → List Bytes → Process lua → Process lua
  unfolding luaopen_vrjugglua
  set_up env argv p =
      let argv0 = get_or argv 0 [] in
      let named : Process lua =
        if char_at argv0 0 == 0 then p else record p { progname = some argv0 } in
      let opened = luaopen_vrjugglua env (with_state lua (openlibs (stop_gc named.state)) named) in
      let found = set_exec_path (text_or_empty opened.progname) opened in
      with_state lua (restart_gc found.state) found

  -- `dotty` does not touch the status.
  abbrev pub interactive_mode : Process lua → Option (ℕ × Process lua)
  interactive_mode p = Option.map (λ (q : Process lua). (0, q)) (dotty lua p)

  -- The last stage: the interactive mode, or the standard input as a file, whose result is dropped.
  unfoldable pub last_stage :
      Environment lua → Bool → Flags → Process lua → Option (ℕ × Process lua)
  unfolding print_version
  last_stage env has_script f p =
      if f.has_i
      then interactive_mode p
      else if not has_script && not f.has_e && not f.has_v
      then (if env.stdin_is_tty
          then interactive_mode (print_version env p)
          else some (0, (dofile lua none p).1))
      else some (0, p)

  -- A stage that fails ends the run with its status.
  abbrev pub stage_then :
      ℕ × Process lua → (Process lua → Option (ℕ × Process lua)) → Option (ℕ × Process lua)
  stage_then (zero, p) next = next p
  stage_then (suc n, p) next = some (suc n, p)

  -- From the script on, at index `script`.
  unfoldable pub from_script :
      Environment lua → List Bytes → ℕ → Flags → Process lua → Option (ℕ × Process lua)
  unfolding last_stage
  from_script env argv script f p =
      stage_then (if script == 0 then (0, p) else handle_script lua argv script p)
        (last_stage env (not (script == 0)) f)

  -- From the options on. `none` is a failed assertion, or a loop of the model that ran out of fuel.
  unfoldable pub from_options :
      Environment lua → List Bytes → Option ℕ × Flags → Process lua → Option (ℕ × Process lua)
  unfolding print_usage print_version from_script
  from_options env argv (none, f) p = some (1, print_usage p)
  from_options env argv (some script, f) p =
      let q = if f.has_v then print_version env p else p in
      Option.bind
        (runargs (λ (chunk : Bytes). dostring lua chunk (codes "=(command line)")) (dolibrary lua)
          argv (walk_end script (length argv)) q)
        (λ (r : ℕ × Process lua). stage_then r (from_script env argv script f))

  -- The status that `pmain` leaves in `s->status`.
  unfoldable pub pmain : Environment lua → List Bytes → Process lua → Option (ℕ × Process lua)
  unfolding set_up handle_luainit from_options
  pmain env argv p =
      stage_then (handle_luainit env.luainit (set_up env argv p))
        (from_options env argv (collectargs argv))

  -- The exit status. `created` is what `lua_open` returned; `raised` is the status and the process of
  -- a call of `pmain` that an error ended, none for one that returned.
  unfoldable pub main :
      Environment lua
      → List Bytes
      → Option State
      → Option (ℕ × Process lua)
      → Process lua
      → Option (ℕ × Process lua)
  unfolding pmain
  main env argv none raised p =
      some (1, l_message lua (get_elem? argv 0) (codes "cannot create state: not enough memory") p)
  main env argv (some state) none p =
      Option.map (λ (r : ℕ × Process lua). (truth (not (r.0 == 0)), (report lua 0 r.1).1))
        (pmain env argv (set_exec_path (get_or argv 0 []) (with_state lua state p)))
  main env argv (some state) (some (status, q)) p =
      some (truth (not (status == 0)), (report lua status q).1)
