-- ===== src/Tests/NavTests.antt =====
-- Runs of the navigation program and of the search paths' bindings over small models.
use vr_jugglua.Prelude.{
  ℕ, ◌≡◌, refl, true, false, List, [], ◌∷◌, ◌++◌, none, some, Bytes, codes, get_elem?, equal, drop,
  length, not, ◌==◌,
}
use vr_jugglua.Lua.Sample.{State, text, sample, to_string, sample_laws}
use vr_jugglua.CircularBuffer.Sample as Ring
use vr_jugglua.ScriptHost.{Script, Bindings}
use vr_jugglua.Console.{no_global}
use vr_jugglua.ErrorPosition.{DebugInfo, add_file_and_line}
use vr_jugglua.ErrorPosition.Reading.{Handled, add_file_and_line_lem}
use vr_jugglua.NavMain.{Setting, prepare, main}
use vr_jugglua.NavMain.Outcome.{Finished, value_at, main_lem}
use vr_jugglua.Paths.{Machine, new_lua_path}
use vr_jugglua.SearchPath.{OsgDb, Search}

abbrev script : Script sample
script = record {
  state = some (record { stack = text (codes "a") ∷ []; globals = []; writes = [] });
  has_print_function = false;
  printed = [];
  logged = [];
}

abbrev luabind : Bindings sample
luabind = record {
  cast_string = to_string;
  call_function = λ name args s. (true, s);
  call_error = λ name args s. none;
}

abbrev setting : Setting sample Ring.sample
setting = record {
  without_terminal = false;
  runbuf = no_global;
  thread_loop = true;
  is_running = true;
}

abbrev arguments : List Bytes
arguments = codes "model.ive" ∷ codes "--stub" ∷ codes "2" ∷ []

main_lem_example :
    (let begun = prepare sample Ring.sample setting (codes "nav") arguments script in
      Finished sample Ring.sample setting begun
        (main sample Ring.sample luabind setting (codes "nav") arguments script)
      × ((k : ℕ)
          → value_at k begun.args ≡ get_elem? (codes "nav" ∷ codes "model.ive" ∷ codes "2" ∷ []) k)
      × (begun.stub_console ≡ true))
unfolding equal
main_lem_example = main_lem sample Ring.sample luabind setting (codes "nav") arguments script

abbrev machine : Machine
machine = record {
  Location = Bytes;
  path = λ b. b;
  string = λ p. p;
  join = λ p q. p ++ q;
  has_branch_path = λ p. not (length p == 0);
  branch_path = drop 1;
  normalize = λ p. p;
  complete = λ p. p;
  remove_leaf = drop 1;
  initial_path = codes "/";
  exists_path = λ p. true;
  first_line = λ p. none;
  trim = λ b. b;
  split = λ b. b ∷ [];
  vpr_library = [];
  getenv = λ b. [];
  is_juggler_3 = false;
}

abbrev osg : OsgDb
osg = record {
  file_exists = λ p. false;
  get_real_path = λ p. p;
  convert_file_name_to_unix_style = λ p. p;
  is_regular_file = λ p. false;
  get_file_path = λ p. p;
}

abbrev search : Search machine osg
search = record {
  data_files = [];
  lua_path = record (new_lua_path machine) { root = codes "/r"; share_dir = codes "/s" };
  package_path = codes "?";
}

abbrev debug_info : DebugInfo
debug_info = record {
  short_src = codes "f.lua";
  current_line = codes "3";
  name = some (codes "f");
  name_what = codes "global";
}

abbrev failed_state : State
failed_state = record { stack = text (codes "oops") ∷ []; globals = []; writes = [] }

add_file_and_line_lem_example :
    Handled sample debug_info [] []
      (some (codes "oops"))
      (add_file_and_line sample debug_info failed_state [])
unfolding to_string
add_file_and_line_lem_example =
    add_file_and_line_lem sample sample_laws debug_info failed_state [] (text (codes "oops")) []
      (
        (refl, (refl, (refl, (refl, (refl, tt))))),
        (refl, tt),
        ((refl, (refl, (refl, (refl, (refl, (refl, tt)))))), (refl, tt)),
      )
      refl
