-- ===== src/Interpreter/Repl.antt =====
-- The interactive mode of src/lua.c: lines are read and joined until they compile, then run.
pub mod Lines
pub mod Session
use mathlib.Core.Option
use vr_jugglua.Prelude.{
  ℕ, zero, suc, ◌+◌, ◌-◌, Bool, true, false, not, ◌&&◌, List, [], ◌∷◌, ◌++◌, Option, none, some,
  Bytes, codes, char_at, ◌==◌, ltb, if◌then◌else◌, length, drop,
}
use vr_jugglua.Lua.{Api, gettop, top, last}
use vr_jugglua.Interpreter.{Process, l_message, report, docall, with_state}

abbrev pub starts_with : Bytes → Bytes → Bool
starts_with cs [] = true
starts_with [] (d ∷ ds) = false
starts_with (c ∷ cs) (d ∷ ds) = c == d && starts_with cs ds

-- The offset of what `strstr` returns; none for NULL.
unfoldable pub strstr : Bytes → Bytes → Option ℕ
strstr [] n = if starts_with [] n then some 0 else none
strstr (c ∷ cs) n = if starts_with (c ∷ cs) n then some 0 else Option.map suc (strstr cs n)

-- LUA_ERRSYNTAX, and LUA_QL("<eof>").
abbrev pub errsyntax : ℕ
errsyntax = 3

abbrev pub eof_mark : Bytes
eof_mark = codes "'<eof>'"

-- The first mark in the message stands at its end: `strstr(msg, mark) == tp`.
unfoldable pub ends_at_eof : Bytes → Bool
unfolding strstr
ends_at_eof msg = elim (strstr msg eof_mark) [
  | none ↦ false
  | some k ↦ k + length eof_mark == length msg
]

abbrev pub text_or_empty : Option Bytes → Bytes
text_or_empty none = []
text_or_empty (some text) = text

abbrev pub message_ends : Option Bytes → Bool
message_ends none = false
message_ends (some msg) = ends_at_eof msg

-- A newline at the end of the line goes.
unfoldable pub chomp : Bytes → Bytes
chomp [] = []
chomp (c ∷ []) = if c == b'\n' then [] else c ∷ []
chomp (c ∷ d ∷ cs) = c ∷ chomp (d ∷ cs)

-- What `pushline` makes of a line: `=` in front of the first one is `return`.
unfoldable pub line_text : Bool → Bytes → Bytes
unfolding chomp
line_text firstline line =
    let b = chomp line in
    if firstline && (char_at b 0 == b'=') then codes "return " ++ drop 1 b else b

-- The results of `loadline`: -1, a status, or, in the model alone, a loop that ran out of fuel.
pub data Line : Type 0 where
  no_input out_of_fuel : Line
  loaded : ℕ → Line

module _ (lua : Api) where
  open lua use {
    State, Value, to_string, string, stack, global, push, pop, clear, insert, remove, concat,
    loadbuffer, pcall,
  }

  -- The prompt, and the state behind the call.
  unfoldable pub get_prompt : Bool → State → Bytes × State
  get_prompt firstline s =
      let s' = push (global s (codes (if firstline then "_PROMPT" else "_PROMPT2"))) s in
      (
        elim (to_string (top lua s')) [
          | none ↦ codes (if firstline then "> " else ">> ")
          | some p ↦ p
        ],
        pop 1 s',
      )

  -- An incomplete chunk: its error message is popped.
  unfoldable pub incomplete : ℕ → State → Bool × State
  incomplete status s =
      if (status == errsyntax) && message_ends (to_string (top lua s))
      then (true, pop 1 s)
      else (false, s)

  -- The line that `lua_readline` delivers is the next of the input; false is the end of it.
  unfoldable pub push_next : Bool → List Bytes → Process lua → Bool × Process lua
  unfolding line_text
  push_next firstline [] p = (false, p)
  push_next firstline (line ∷ rest) p =
      (true, record p { state = push (string (line_text firstline line)) p.state; input = rest })

  unfoldable pub pushline : Bool → Process lua → Bool × Process lua
  unfolding get_prompt push_next
  pushline firstline p =
      let (prompt, s) = get_prompt firstline p.state in
      push_next firstline p.input (with_state lua s p)

  -- The text at index 1.
  abbrev pub first_text : State → Bytes
  first_text s = text_or_empty (to_string (last lua.nil (stack s)))

  -- A newline is put between the two lines, and the three are joined.
  abbrev pub join_lines : State → State
  join_lines s =
      let with_newline = push (string (codes "\n")) s in
      concat 3 (insert (gettop lua with_newline - 1) with_newline)

  -- The loop of `loadline`, at most `fuel` rounds of it.
  unfoldable pub load_lines : ℕ → Process lua → Line × Process lua
  load_lines zero p = (out_of_fuel, p)
  load_lines (suc fuel) p =
      let (status, s) = loadbuffer (first_text p.state) (codes "=stdin") p.state in
      let (open_ended, t) = incomplete status s in
      let (more, q) = pushline false (with_state lua t p) in
      let next = load_lines fuel (with_state lua (join_lines q.state) q) in
      if not open_ended
      then (loaded status, with_state lua (remove 1 t) p)
      else if not more
      then (no_input, q)
      else next

  unfoldable pub loadline : ℕ → Process lua → Line × Process lua
  unfolding load_lines
  loadline fuel p =
      let (more, q) = pushline true (with_state lua (clear p.state) p) in
      let read = load_lines fuel q in if not more then (no_input, q) else read

  -- `print` is called with all the values on the stack, and its failure is reported.
  unfoldable pub print_results : Process lua → Process lua
  unfolding l_message
  print_results p =
      let s = insert 1 (push (global p.state (codes "print")) p.state) in
      let (status, t) = pcall (gettop lua s - 1) (some 0) 0 s in
      let reason : Bytes = elim (to_string (top lua t)) [
        | none ↦ codes "(null)"
        | some text ↦ text
      ] in
      let text = codes "error calling 'print' (" ++ (reason ++ codes ")") in
      if not (status == 0)
      then with_state lua (push (string text) t) (l_message lua p.progname text p)
      else with_state lua t p

  -- One round of `dotty`, for a line loaded with a status.
  unfoldable pub run_line : ℕ → Process lua → Process lua
  unfolding docall report print_results
  run_line status p =
      let (called, q) = if status == 0 then docall lua 0 false p else (status, p) in
      let r = (report lua called q).1 in
      if (called == 0) && ltb 0 (gettop lua r.state) then print_results r else r

  -- The loop of `dotty`; none for a loop that ran out of fuel.
  unfoldable pub session : ℕ → Process lua → Option (Process lua)
  session zero p = none
  session (suc fuel) p =
      let (line, q) = loadline (suc fuel) p in
      let next = λ (status : ℕ). session fuel (run_line status q) in
      elim line [ no_input ↦ some q | out_of_fuel ↦ none | loaded status ↦ next status ]

  -- A round takes at least one line from the input.
  unfoldable pub dotty : Process lua → Option (Process lua)
  unfolding session
  dotty p =
      Option.map (λ (q : Process lua). record q { state = clear q.state; progname = p.progname })
        (session (suc (length p.input)) (record p { progname = none }))
