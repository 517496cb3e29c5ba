-- ===== src/Interpreter/Repl/Session.antt =====
-- `dotty` of src/lua.c ends when the input does.
use vr_jugglua.Prelude.{
  ℕ, zero, suc, ◌<◌, ◌≡◌, refl, ap, Bool, true, List, [], ◌∷◌, Option, none, some, Bytes, arith,
  length, length-append,
}
use vr_jugglua.Lua.{Api, Laws}
use vr_jugglua.Interpreter.{Process, report, docall}
use vr_jugglua.Interpreter.Repl.{
  Line, no_input, out_of_fuel, loaded, loadline, line_text, print_results, run_line, session, dotty,
}
use vr_jugglua.Interpreter.Repl.Lines.{Ends, loadline_lem, loadline_none}

module _ (lua : Api) where
  report-input : (status : ℕ) (p : Process lua) → (report lua status p).1.input ≡ p.input
  unfolding report
  report-input status p = ground arith

  docall-input : (n : ℕ) (b : Bool) (p : Process lua) → (docall lua n b p).1.input ≡ p.input
  unfolding docall
  docall-input n b p = refl

  print_results-input : (p : Process lua) → (print_results lua p).input ≡ p.input
  unfolding print_results
  print_results-input p = ground arith

  run_line-input : (status : ℕ) (p : Process lua) → (run_line lua status p).input ≡ p.input
  unfolding run_line
  run_line-input status p = ground arith

  -- The loop ends with no input left.
  abbrev Finishes : Option (Process lua) → Type 0
  Finishes r = (q : Process lua) × (r ≡ some q) × (q.input ≡ [])

module _ (lua : Api) (laws : Laws lua) where
  session_round :
      (fuel : ℕ) (text : Bytes) (input : List Bytes) (r : Line) (q : Process lua)
      → length input < fuel
      → ((p : Process lua) → length p.input < fuel → Finishes lua (session lua fuel p))
      → Ends lua text input r q
      → Finishes lua (elim r [
        | no_input ↦ some q
        | out_of_fuel ↦ none
        | loaded status ↦ session lua fuel (run_line lua status q)
      ])
  session_round fuel text input no_input q lt later (_, gone) = (q, refl, gone)
  session_round fuel text input out_of_fuel q lt later e = absurd e
  session_round fuel text input (loaded status) q lt later (lines, splits, _, _) =
      later (run_line lua status q) (
        omega (
          arith,
          ap length (run_line-input lua status q),
          ap length splits,
          length-append lines q.input,
        ))

  session_lem :
      (fuel : ℕ) (p : Process lua)
      → session lua (suc fuel) p ≡ (
          let (r, q) = loadline lua (suc fuel) p in
          elim r [
            | no_input ↦ some q
            | out_of_fuel ↦ none
            | loaded status ↦ session lua fuel (run_line lua status q)
          ])
  unfolding session
  session_lem fuel p = refl

  session-Finishes :
      (fuel : ℕ) (p : Process lua) (input : List Bytes)
      → p.input ≡ input
      → length input < fuel
      → Finishes lua (session lua fuel p)
  session-Finishes zero p input e lt = absurd (omega arith)
  session-Finishes (suc fuel) p [] e lt =
      let (ended, gone) = loadline_none lua laws (suc fuel) p e in
      rw (session_lem fuel p, ended) ((loadline lua (suc fuel) p).1, refl, gone)
  session-Finishes (suc fuel) p (line ∷ rest) e lt = rw (session_lem fuel p) (
      session_round fuel (line_text true line) rest _ _ (omega arith)
        (λ q less. session-Finishes fuel q q.input refl less)
        (loadline_lem lua laws (suc fuel) p line rest e (omega (arith, ap length e))))

  -- The interactive mode returns, whatever the lines are and do: it has read all of the input, the
  -- stack is empty, and the program's name is the one from before.
  pub dotty_lem :
      (p : Process lua)
      → (q : Process lua) × (dotty lua p ≡ some q)
        × (lua.stack q.state ≡ [])
        × (q.input ≡ [])
        × (q.progname ≡ p.progname)
  unfolding dotty
  dotty_lem p =
      let (q, ran, gone) =
        session-Finishes (suc (length p.input)) (record p { progname = none }) p.input refl
          (omega arith) in
      (
        record q { state = lua.clear q.state; progname = p.progname },
        rw ran refl,
        laws.stack-clear q.state,
        gone,
        refl,
      )
