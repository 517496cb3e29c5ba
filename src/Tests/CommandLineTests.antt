-- ===== src/Tests/CommandLineTests.antt =====
-- Runs of the option scanner and the walk of src/lua.c.
use vr_jugglua.Prelude.{ℕ, ◌≡◌, refl, true, List, [], ◌∷◌, none, some, Bytes, codes, arith}
use vr_jugglua.CommandLine.{Flags, no_flags, round, collectargs, runargs}
use vr_jugglua.CommandLine.Grammar.{interactive, exec_separate, dashes_script, script_index, flags}
use vr_jugglua.CommandLine.Grammar.Accept.{collectargs_accepts}
use vr_jugglua.CommandLine.Grammar.Reject.{Described, collectargs_only}
use vr_jugglua.CommandLine.Grammar.Perform.{perform, runargs_performs}

abbrev arguments : List Bytes
arguments = codes "-i" ∷ codes "-e" ∷ codes "x=1" ∷ codes "--" ∷ codes "-main" ∷ codes "a" ∷ []

abbrev all_flags : Flags
all_flags = record { has_i = true; has_v = true; has_e = true }

scan_of_arguments : collectargs (codes "vrjlua" ∷ arguments) ≡ (some 5, all_flags)
unfolding collectargs round
scan_of_arguments = refl

collectargs_refuses :
    (collectargs (codes "vrjlua" ∷ codes "-ix" ∷ []) ≡ (none, no_flags))
    × (collectargs (codes "vrjlua" ∷ codes "-l" ∷ []) ≡ (none, no_flags))
    × (collectargs (codes "vrjlua" ∷ codes "-" ∷ []) ≡ (some 1, no_flags))
unfolding collectargs round
collectargs_refuses = (refl, refl, refl)

-- A call that records its word, and fails on the word "bad".
abbrev record_word : Bytes → List Bytes → ℕ × List Bytes
record_word w seen = (0, w ∷ seen)

abbrev fail_word : Bytes → List Bytes → ℕ × List Bytes
fail_word w seen = (7, w ∷ seen)

runargs_arguments :
    runargs record_word fail_word
      (codes "vrjlua" ∷ codes "-e" ∷ codes "x" ∷ codes "-lm" ∷ codes "-ey" ∷ [])
      5
      []
    ≡ some (1, codes "m" ∷ codes "x" ∷ [])
unfolding runargs
runargs_arguments = refl

collectargs_accepts_example : collectargs (codes "vrjlua" ∷ arguments) ≡ (some 5, all_flags)
collectargs_accepts_example =
    collectargs_accepts (codes "vrjlua") (interactive ∷ exec_separate (codes "x=1") ∷ [])
      (dashes_script (codes "-main") (codes "a" ∷ [])) (tt, (tt, tt)) tt

collectargs_only_example :
    (d : Described arguments) × (5 ≡ script_index 1 d.options d.ending)
    × (all_flags ≡ flags d.options no_flags)
collectargs_only_example =
    collectargs_only (codes "vrjlua") arguments 5 all_flags (omega arith) scan_of_arguments

runargs_performs_example :
    (d : Described arguments) × (runargs record_word fail_word (codes "vrjlua" ∷ arguments) 5 []
      ≡ some (perform record_word fail_word d.options []))
runargs_performs_example =
    runargs_performs record_word fail_word (codes "vrjlua") arguments 5 all_flags [] (omega arith)
      scan_of_arguments
