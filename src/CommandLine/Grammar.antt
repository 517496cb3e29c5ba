-- ===== src/CommandLine/Grammar.antt =====
-- The command line as the usage message of src/lua.c describes it: options, then what ends them.
-- The scan and the walk of `runargs` are compared with this description.
pub mod Accept
pub mod Reject
pub mod Perform
use vr_jugglua.Prelude.{
  ℕ, zero, ◌+◌, ◌≡◌, ◌≢◌, ◌⊎◌, true, false, List, [], ◌∷◌, ◌++◌, Bytes, codes, char_at, length,
  ◌==◌,
}
use vr_jugglua.CommandLine.{Flags}

-- An option with its word in the same argument (a first byte and the others), or in the next one.
pub data Opt : Type 0 where
  interactive version : Opt
  exec_attached require_attached : ℕ → Bytes → Opt
  exec_separate require_separate : Bytes → Opt

abbrev pub words : Opt → List Bytes
words interactive = codes "-i" ∷ []
words version = codes "-v" ∷ []
words (exec_attached c cs) = (b'-' ∷ b'e' ∷ c ∷ cs) ∷ []
words (require_attached c cs) = (b'-' ∷ b'l' ∷ c ∷ cs) ∷ []
words (exec_separate s) = codes "-e" ∷ s ∷ []
words (require_separate s) = codes "-l" ∷ s ∷ []

-- The attached word is not empty, as a C string.
abbrev pub IsOpt : Opt → Type 0
IsOpt (exec_attached c cs) = c ≢ 0
IsOpt (require_attached c cs) = c ≢ 0
IsOpt _ = Unit

abbrev pub AreOpts : List Opt → Type 0
AreOpts [] = Unit
AreOpts (o ∷ os) = IsOpt o × AreOpts os

-- What ends the options: nothing more, `--` with nothing behind it, `--` and a script with its
-- arguments, or a script (`-` for the standard input) with its arguments.
pub data Ending : Type 0 where
  nothing_more dashes : Ending
  dashes_script script : Bytes → List Bytes → Ending

abbrev pub ending_words : Ending → List Bytes
ending_words nothing_more = []
ending_words dashes = codes "--" ∷ []
ending_words (dashes_script s args) = codes "--" ∷ s ∷ args
ending_words (script s args) = s ∷ args

abbrev pub IsEnding : Ending → Type 0
IsEnding (script s args) = (char_at s 0 ≢ b'-') ⊎ (s ≡ codes "-")
IsEnding _ = Unit

abbrev pub command_words : List Opt → Ending → List Bytes
command_words [] e = ending_words e
command_words (o ∷ os) e = words o ++ command_words os e

-- The number of arguments that the options take.
abbrev pub width : List Opt → ℕ
width [] = 0
width (o ∷ os) = length (words o) + width os

-- The index of the script, 0 for none, where the options start at index `i`.
abbrev pub script_index : ℕ → List Opt → Ending → ℕ
script_index i os nothing_more = 0
script_index i os dashes = 0
script_index i os (dashes_script s args) = i + width os + 1
script_index i os (script s args) = i + width os

abbrev pub opt_flags : Opt → Flags → Flags
opt_flags interactive f = record f { has_i = true; has_v = true }
opt_flags version f = record f { has_v = true }
opt_flags (exec_attached c cs) f = record f { has_e = true }
opt_flags (exec_separate s) f = record f { has_e = true }
opt_flags _ f = f

abbrev pub flags : List Opt → Flags → Flags
flags [] f = f
flags (o ∷ os) f = flags os (opt_flags o f)
