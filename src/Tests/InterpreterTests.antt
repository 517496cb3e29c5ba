-- ===== src/Tests/InterpreterTests.antt =====
-- Runs of the interpreter of src/lua.c over the sample model of the Lua API.
use vr_jugglua.Prelude.{◌≡◌, refl, true, List, [], ◌∷◌, none, some, Bytes, codes, arith, drop}
use vr_jugglua.Lua.{Returned}
use vr_jugglua.Lua.Sample.{
  call_value, on_stack, insert_at, remove_at, load, join, to_string, State, text, table, function,
  sample, sample_laws,
}
use vr_jugglua.Interpreter.{Process, standard, docall}
use vr_jugglua.Interpreter.Calls.{docall_lem, Restored}
use vr_jugglua.Interpreter.Script.Outcome.{with_arg, with_arg_lem}
use vr_jugglua.Interpreter.Script.Arguments.{HasArguments}
use vr_jugglua.Interpreter.Repl.{dotty, loadline, pushline, incomplete, ends_at_eof, line_text}
use vr_jugglua.Interpreter.Repl.Lines.{Ends, loadline_lem}
use vr_jugglua.Interpreter.Repl.Session.{dotty_lem}
use vr_jugglua.Interpreter.Startup.{
  Environment, pmain, stage_then, handle_luainit, set_up, last_stage,
}
use vr_jugglua.Interpreter.Startup.Stages.{
  run_stages, options_stage, script_stage, has_script, pmain_stages,
}
use vr_jugglua.CommandLine.{no_flags, collectargs, round}
use vr_jugglua.CommandLine.Grammar.{flags}
use vr_jugglua.CommandLine.Grammar.Reject.{Described}

abbrev sample_state : State
sample_state = record {
  stack = text (codes "a") ∷ function (codes "f") ∷ table ∷ [];
  globals = [];
  writes = [];
}

abbrev process : Process sample
process = record {
  state = sample_state;
  progname = some (codes "vrjlua");
  sigint = standard;
  stderr = [];
  input = [];
  exec_path = none;
}

abbrev process_with : List Bytes → Process sample
process_with lines = record process { input = lines }

abbrev environment : Environment sample
environment = record {
  luainit = none;
  stdin_is_tty = true;
  version = codes "Lua";
  bind_vrjugglua = λ s. s;
}

docall_runs : (docall sample 1 true process).1.state.stack ≡ table ∷ []
unfolding docall call_value on_stack insert_at remove_at
docall_runs = refl

docall_lem_example :
    let (status, q) = docall sample 1 true process in
    Returned (some 0) (table ∷ []) status q.state.stack × Restored sample process q
docall_lem_example =
    docall_lem sample sample_laws process (text (codes "a") ∷ []) (function (codes "f"))
      (table ∷ []) true refl

abbrev script_argv : List Bytes
script_argv = codes "vrjlua" ∷ codes "--" ∷ codes "s.lua" ∷ codes "1" ∷ codes "2" ∷ []

with_arg_lem_example :
    let s = with_arg sample script_argv 2 sample_state in
    (s.stack ≡ text (codes "2") ∷ text (codes "1") ∷ sample_state.stack)
    × HasArguments sample s (sample.global s (codes "arg")) 2 script_argv
with_arg_lem_example = with_arg_lem sample sample_laws script_argv 2 sample_state

abbrev two_lines : List Bytes
two_lines = codes "=f(\n" ∷ codes "1)\n" ∷ codes "y" ∷ []

joined_lines :
    (loadline sample 3 (process_with two_lines)).1.state.stack
    ≡ function (codes "return f(\n1)") ∷ []
unfolding loadline pushline incomplete ends_at_eof load on_stack insert_at remove_at join to_string
joined_lines = refl

loadline_lem_example :
    let (r, q) = loadline sample 3 (process_with two_lines) in
    Ends sample (line_text true (codes "=f(\n")) (codes "1)\n" ∷ codes "y" ∷ []) r q
loadline_lem_example =
    loadline_lem sample sample_laws 3 (process_with two_lines) (codes "=f(\n")
      (codes "1)\n" ∷ codes "y" ∷ []) refl (omega arith)

dotty_lem_example :
    (q : Process sample) × (dotty sample (process_with two_lines) ≡ some q)
    × (q.state.stack ≡ [])
    × (q.input ≡ [])
    × (q.progname ≡ some (codes "vrjlua"))
dotty_lem_example = dotty_lem sample sample_laws (process_with two_lines)

script_args : collectargs script_argv ≡ (some 2, no_flags)
unfolding collectargs round
script_args = refl

pmain_stages_example :
    (d : Described (drop 1 script_argv)) × (pmain sample environment script_argv process
      ≡ stage_then sample
          (run_stages sample
            (handle_luainit sample none
              ∷ options_stage sample environment d.options
              ∷ script_stage sample script_argv d.options d.ending
              ∷ [])
            (set_up sample environment script_argv process))
          (last_stage sample environment (has_script sample d.ending) (flags d.options no_flags)))
pmain_stages_example =
    pmain_stages sample environment (codes "vrjlua") (drop 1 script_argv) 2 no_flags process
      (omega arith) script_args
