-- ===== src/RunBuffer/Chunks.antt =====
-- Chunks that `runBuffer` of vrjugglua/LuaRunBuffer.cpp runs one behind the other.
use vr_jugglua.Prelude.{
  ℕ, zero, suc, ◌+◌, ◌-◌, ◌≡◌, ◌⊎◌, inl, inr, refl, subst, take, length, false, sym, ap, ◌∙◌, true,
  List, [], ◌∷◌, ◌++◌, Bytes, if◌then◌else◌, arith,
}
use vr_jugglua.Lua.{Api}
use vr_jugglua.CircularBuffer.{CircularBuffer, RingLaws}
use vr_jugglua.RunBuffer.{RunBuffer, Turn, run_buffer}
use vr_jugglua.ScriptHost.{Script, Bindings, Result, returned, thrown, is_valid}
use vr_jugglua.ScriptHost.Runs.{run_string-IsValid}
use vr_jugglua.RunBuffer.Running.{run_chunks, run_chunks-cons, run_buffer_lem}

take_all : (xs : List Bytes) (k : ℕ) → k ≡ length xs → take k xs ≡ xs
take_all [] zero e = refl
take_all [] (suc k) e = refl
take_all (x ∷ xs) zero e = absurd (omega (arith, e))
take_all (x ∷ xs) (suc k) e = ap (◌∷◌ x) (take_all xs k (omega (arith, e)))

module _ (lua : Api) (luabind : Bindings lua) where
  -- In a script with a state chunks run to their end, whatever the count before.
  run_chunks-total :
      (xs : List Bytes) (script : Script lua)
      → is_valid lua script ≡ true
      → (n : ℕ) × (q : Script lua) × ((i : ℕ)
          → run_chunks lua luabind xs i script ≡ returned (i + n, q))
        × (is_valid lua q ≡ true)
  run_chunks-total [] script valid =
      (0, script, λ i. ap (λ (n : ℕ). returned (n, script)) (omega arith), valid)
  run_chunks-total (x ∷ xs) script valid =
      let (ok, s, ran, still) = run_string-IsValid lua luabind x false script valid in
      let (n, q, all, end_valid) = run_chunks-total xs s still in
      (
        (if ok then 1 else 0) + n,
        q,
        λ i.
            run_chunks-cons lua luabind x xs i script ok s ran
            ∙ all (if ok then i + 1 else i)
            ∙ ap (λ (k : ℕ). returned (k, q)) (ground arith),
        end_valid,
      )

  run_chunks-append :
      (xs ys : List Bytes) (i n : ℕ) (script q : Script lua)
      → is_valid lua script ≡ true
      → run_chunks lua luabind xs i script ≡ returned (n, q)
      → run_chunks lua luabind (xs ++ ys) i script ≡ run_chunks lua luabind ys n q
  run_chunks-append [] ys i n script q valid ran =
      ap
        (λ (r : Result (ℕ × Script lua)). elim r [
          | thrown e ↦ run_chunks lua luabind ys i script
          | returned a ↦ run_chunks lua luabind ys a.0 a.1
        ])
        ran
  run_chunks-append (x ∷ xs) ys i n script q valid ran =
      let (ok, s, first, still) = run_string-IsValid lua luabind x false script valid in
      run_chunks-cons lua luabind x (xs ++ ys) i script ok s first
      ∙ run_chunks-append xs ys (if ok then i + 1 else i) n s q still
          (sym (run_chunks-cons lua luabind x xs i script ok s first) ∙ ran)

  -- All the chunks ran in order, from the one script to the other, and `n` of them succeeded.
  abbrev pub Runs : List Bytes → Script lua → ℕ → Script lua → Type 0
  Runs xs script n q =
      (run_chunks lua luabind xs 0 script ≡ returned (n, q)) × (is_valid lua q ≡ true)

  pub Runs-append :
      (xs ys : List Bytes) (n m : ℕ) (script q r : Script lua)
      → is_valid lua script ≡ true
      → Runs xs script n q
      → Runs ys q m r
      → Runs (xs ++ ys) script (n + m) r
  Runs-append xs ys n m script q r valid (first, between) (second, behind) =
      let (d, t, all, v) = run_chunks-total ys q between in
      let same : (m, r) ≡ (0 + d, t) = returned_injective (m, r) (sym second ∙ all 0) in
      (
        run_chunks-append xs ys 0 n script q valid first
            ∙ all n
            ∙ ap (λ (k : ℕ). returned (k, t)) (count_zero n d)
            ∙ ap (λ (a : ℕ × Script lua). returned (n + a.0, a.1)) (sym same),
        behind,
      )
    where
      count_zero : (k d : ℕ) → k + d ≡ k + (0 + d)
      count_zero k d = omega arith

      returned_injective :
          (a : ℕ × Script lua) {b : ℕ × Script lua} → returned a ≡ returned b → a ≡ b
      returned_injective a e =
          ap (λ (r : Result (ℕ × Script lua)). elim r [ thrown e ↦ a | returned b ↦ b ]) e

  -- A run from the count 0 keeps the state.
  pub Runs-given :
      (xs : List Bytes) (n : ℕ) (script q : Script lua)
      → is_valid lua script ≡ true
      → run_chunks lua luabind xs 0 script ≡ returned (n, q)
      → Runs xs script n q
  Runs-given xs n script q valid ran =
      let (d, t, all, v) = run_chunks-total xs script valid in
      (
        ran,
        ap
              (λ (r : Result (ℕ × Script lua)). elim r [
                | thrown e ↦ is_valid lua q
                | returned a ↦ is_valid lua a.1
              ])
              (sym ran ∙ all 0)
            ∙ v,
      )

  -- A run that misses no lock runs all that was in the buffer when it began.
  pub run_buffer-drained :
      (ring : CircularBuffer)
      → RingLaws ring
      → (turns : ℕ → Turn lua ring) (b : RunBuffer lua ring) → ((i : ℕ) → (turns i).acquired ≡ true)
      → is_valid lua b.script ≡ true
      → (n : ℕ) × (q : RunBuffer lua ring) × (run_buffer lua ring luabind turns b ≡ returned (n, q))
        × Runs (ring.contents b.buf) b.script n q.script
  run_buffer-drained ring laws turns b free valid =
      let (k, n, q, more, le, ran, all, rest, why, locked) =
        run_buffer_lem lua ring laws luabind turns b valid in
      (
        n,
        q,
        ran,
        Runs-given (ring.contents b.buf) n b.script q.script valid (
            subst (λ (l : List Bytes). run_chunks lua luabind l 0 b.script ≡ returned (n, q.script))
              (take_all (ring.contents b.buf) k (whole k why)) all),
      )
    where
      whole :
          (k : ℕ)
          → (k ≡ length (ring.contents b.buf))
            ⊎ (b.run_block ≡ false)
              × ((turns (length (ring.contents b.buf) - suc k)).acquired ≡ false)
          → k ≡ length (ring.contents b.buf)
      whole k (inl e) = e
      whole k (inr (try, missed)) =
          absurd (cc (sym (free (length (ring.contents b.buf) - suc k)) ∙ missed))

  -- The chunks determine the script behind them.
  pub Runs-same :
      (xs : List Bytes) (n m : ℕ) (script q r : Script lua)
      → Runs xs script n q
      → Runs xs script m r
      → r ≡ q
  Runs-same xs n m script q r (one, v) (two, w) =
      ap (λ (x : Result (ℕ × Script lua)). elim x [ thrown e ↦ r | returned a ↦ a.1 ])
        (sym two ∙ one)
