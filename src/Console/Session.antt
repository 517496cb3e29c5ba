-- ===== src/Console/Session.antt =====
-- A console of vrjugglua/LuaConsole.cpp over time: chunks are entered, and its buffer is run.
pub mod Playing
pub mod Serving
pub mod Stepping
use vr_jugglua.Prelude.{
  ℕ, zero, suc, ◌+◌, ◌≡◌, refl, sym, ap, ◌∙◌, subst, inl, inr, Bool, true, false, List, [], ◌∷◌,
  ◌++◌, some, none, Bytes, if◌then◌else◌, arith, Bool-cases, length, take, drop,
}
use mathlib.Core.List.{append_assoc, append-nil}
use vr_jugglua.Lua.{Api}
use vr_jugglua.CircularBuffer.{CircularBuffer, RingLaws, full}
use vr_jugglua.ScriptHost.{Script, Bindings, Result, returned, thrown, is_valid, run_string}
use vr_jugglua.ScriptHost.Runs.{run_string-IsValid}
use vr_jugglua.RunBuffer.{RunBuffer, Turn, add_string, run_buffer}
use vr_jugglua.RunBuffer.Adding.{push_back-space}
use vr_jugglua.RunBuffer.Running.{run_chunks, run_chunks-cons, RanFirst, run_buffer_lem}
use vr_jugglua.SyncBuffer.{
  Operation, then_do, Cluster, SyncBuffer, check_init, sync_add_string, sync_run_buffer,
}
use vr_jugglua.Console as Base
use vr_jugglua.Console.{Console, shown_text, console_add_string, console_run_buffer}
use vr_jugglua.RunBuffer.Chunks.{Runs}

module _ (lua : Api) (ring : CircularBuffer) where
  -- A chunk is entered into the console, with what the attempt to take the lock gives, or the buffer is
  -- run, with what the others do meanwhile.
  pub data Step : Type 0 where
    enters : Bool → Bytes → Step
    runs : (ℕ → Turn lua ring) → Step

  abbrev pub step :
      Bindings lua → Cluster → Step → Console lua ring → Operation (Bool × Console lua ring)
  step luabind cluster (enters acquired text) = console_add_string lua ring cluster acquired text
  step luabind cluster (runs turns) = console_run_buffer lua ring luabind cluster turns

  -- With what each step returns.
  abbrev pub play :
      Bindings lua
      → Cluster
      → List Step
      → Console lua ring
      → Operation (List Bool × Console lua ring)
  play luabind cluster [] c = some (returned ([], c))
  play luabind cluster (s ∷ steps) c =
      then_do (step luabind cluster s c) (λ (r : Bool × Console lua ring).
        then_do (play luabind cluster steps r.1)
          (λ (p : List Bool × Console lua ring). some (returned (r.0 ∷ p.0, p.1))))

  -- What came to the buffer: the entered chunks that were taken, and what the others added during runs.
  abbrev pub Arrived : List Step → List Bool → List Bytes → Type 0
  Arrived [] [] xs = xs ≡ []
  Arrived (enters acquired text ∷ steps) (true ∷ oks) xs =
      (rest : List Bytes) × (xs ≡ text ∷ rest) × Arrived steps oks rest
  Arrived (enters acquired text ∷ steps) (false ∷ oks) xs = Arrived steps oks xs
  Arrived (runs turns ∷ steps) (true ∷ oks) xs =
      (more : List Bytes) × (rest : List Bytes) × (xs ≡ more ++ rest) × Arrived steps oks rest
  Arrived _ _ xs = ⊥

  -- The console has an initialised buffer, whose script has a state.
  abbrev pub Ready : Console lua ring → SyncBuffer lua ring → Type 0
  Ready c b = (c.runbuf ≡ some b) × (b.initialised ≡ true) × (is_valid lua b.run_buf.script ≡ true)

  -- What waits in the buffer.
  abbrev pub waiting : SyncBuffer lua ring → List Bytes
  waiting b = ring.contents b.run_buf.buf

  -- From the one buffer to the other `arrived` came in, and some chunks were run: those that had waited
  -- and then those that came, in order, up to the ones that wait now.
  abbrev pub Served : Bindings lua → List Bytes → SyncBuffer lua ring → SyncBuffer lua ring → Type 0
  Served luabind arrived b after =
      (executed : List Bytes) × (n : ℕ) × (executed ++ waiting after ≡ waiting b ++ arrived)
      × Runs lua luabind executed b.run_buf.script n after.run_buf.script
