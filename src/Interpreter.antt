-- ===== src/Interpreter.antt =====
-- The stand-alone interpreter of src/lua.c over the Lua API: messages, protected calls, chunks.
pub mod Calls
pub mod Chunks
pub mod Script
pub mod Repl
pub mod Startup
use vr_jugglua.Prelude.{
  ℕ, ◌+◌, ◌-◌, Bool, true, false, not, ◌&&◌, List, [], ◌∷◌, ◌++◌, Option, none, some, Bytes, codes,
  char_at, ◌==◌, ltb, if◌then◌else◌, length, drop,
}
use vr_jugglua.Lua.{Api, gettop, top}

-- What SIGINT does: end the process, or `laction`.
pub data Handler : Type 0 where
  standard laction_handler : Handler

-- The process: the Lua state, the variable `progname` (none for NULL), the handler of SIGINT, what
-- went to stderr (the first message first), the lines that `lua_readline` has still to deliver, and
-- the path with which `LuaPath::instance` was first called.
pub record Process (lua : Api) : Type 0 where
  pub state : lua.State
  pub progname : Option Bytes
  pub sigint : Handler
  pub stderr : List Bytes
  pub input : List Bytes
  pub exec_path : Option Bytes

-- `fprintf` of an unsigned status as a truth value: C's `a || b` is 0 or 1.
abbrev pub truth : Bool → ℕ
truth true = 1
truth false = 0

module _ (lua : Api) where
  open lua use {
    State, Value, is_nil, is_table, is_function, to_string, nil, string, integer,
    traceback_function, stack, global, field, push, pop, insert, remove, call, collect, set_hook,
    clear_hook, loadfile, loadbuffer, pcall,
  }

  abbrev pub with_state : State → Process lua → Process lua
  with_state s p = record p { state = s }

  unfoldable pub l_message : Option Bytes → Bytes → Process lua → Process lua
  l_message pname msg p = record p {
    stderr =
        p.stderr
        ++ ((elim pname [
          | none ↦ msg ++ codes "\n"
          | some n ↦ n ++ (codes ": " ++ (msg ++ codes "\n"))
        ])
            ∷ []);
  }

  -- `msg` of `report`, for the error value on top of the stack.
  abbrev pub error_text : Value → Bytes
  error_text v = elim (to_string v) [
    | none ↦ codes "(error object is not a string)"
    | some msg ↦ msg
  ]

  unfoldable pub report : ℕ → Process lua → ℕ × Process lua
  unfolding l_message
  report status p =
      if not (status == 0) && not (is_nil (top lua p.state))
      then (
        status,
        with_state (pop 1 p.state) (l_message p.progname (error_text (top lua p.state)) p),
      )
      else (status, p)

  -- The error function, on the stack of its own call, which holds the message `msg`; the number is
  -- that of its results.
  unfoldable pub traceback : Value → State → ℕ × State
  traceback msg s =
      let with_debug = push (global s (codes "debug")) s in
      let with_function =
        push (field with_debug (top lua with_debug) (codes "traceback")) with_debug in
      let traced = call 2 (push (integer 2) (push msg with_function)) in
      elim (to_string msg) [
        | none ↦ (1, s)
        | some text ↦
            if not (is_table (top lua with_debug))
            then (1, pop 1 with_debug)
            else if not (is_function (top lua with_function))
            then (1, pop 2 with_function)
            else (1, traced)
      ]

  -- The handler of SIGINT, and the hook that it sets: the error "interrupted!" follows.
  unfoldable pub laction : Process lua → Process lua
  laction p = record p { sigint = standard; state = set_hook p.state }

  unfoldable pub lstop : Process lua → Bytes × Process lua
  lstop p = (codes "interrupted!", with_state (clear_hook p.state) p)

  -- The process while the call runs: `traceback` lies under the function, and SIGINT is caught.
  unfoldable pub before_call : ℕ → Process lua → Process lua
  before_call narg p = record p {
    state = insert (gettop lua p.state - narg) (push traceback_function p.state);
    sigint = laction_handler;
  }

  unfoldable pub docall : ℕ → Bool → Process lua → ℕ × Process lua
  unfolding before_call
  docall narg clear p =
      let base = gettop lua p.state - narg in
      let q = before_call narg p in
      let (status, s) = pcall narg (if clear then some 0 else none) base q.state in
      let removed = remove base s in
      (
        status,
        record q {
          state = (if not (status == 0) then collect removed else removed);
          sigint = standard;
        },
      )

  -- `load || docall(L, 0, 1)`, then `report`.
  unfoldable pub run_loaded : ℕ × State → Process lua → ℕ × Process lua
  unfolding docall report
  run_loaded (status, s) p =
      let (called, q) = docall 0 true (with_state s p) in
      if not (status == 0) then report 1 (with_state s p) else report (truth (not (called == 0))) q

  unfoldable pub dofile : Option Bytes → Process lua → ℕ × Process lua
  unfolding run_loaded
  dofile name p = run_loaded (loadfile name p.state) p

  unfoldable pub dostring : Bytes → Bytes → Process lua → ℕ × Process lua
  unfolding run_loaded
  dostring s name p = run_loaded (loadbuffer s name p.state) p

  unfoldable pub dolibrary : Bytes → Process lua → ℕ × Process lua
  unfolding docall report
  dolibrary name p =
      let (status, q) =
        docall 1 true
          (with_state (push (string name) (push (global p.state (codes "require")) p.state)) p) in
      report status q
