-- ===== src/RunBuffer/Running.antt =====
-- `runBuffer` of vrjugglua/LuaRunBuffer.cpp: which chunks a call runs, and in which order.
use vr_jugglua.Prelude.{
  ℕ, zero, suc, ◌+◌, ◌-◌, ◌≤◌, ◌≡◌, refl, sym, ap, ◌∙◌, ◌⊎◌, inl, inr, Bool, true, false, ◌||◌,
  List, [], ◌∷◌, ◌++◌, Bytes, arith, length, take, drop, ◌==◌, if◌then◌else◌, Bool-cases, get_or,
  subst,
}
use mathlib.Core.List.{append_assoc, append-nil}
use vr_jugglua.Lua.{Api}
use vr_jugglua.CircularBuffer.{CircularBuffer, RingLaws, size, full}
use vr_jugglua.ScriptHost.{Script, Bindings, Result, returned, thrown, is_valid, run_string}
use vr_jugglua.ScriptHost.Runs.{run_string-IsValid}
use vr_jugglua.RunBuffer.{RunBuffer, Turn, with_buf, push_all, run_rounds, run_buffer}
use vr_jugglua.RunBuffer.Adding.{push_back-space}

module _ (lua : Api) (luabind : Bindings lua) where
  -- All the chunks one after the other, with the number of those that succeeded added to a count.
  abbrev pub run_chunks : List Bytes → ℕ → Script lua → Result (ℕ × Script lua)
  run_chunks [] count script = returned (count, script)
  run_chunks (x ∷ xs) count script = elim (run_string lua luabind x false script) [
    | thrown e ↦ thrown e
    | returned r ↦ run_chunks xs (if r.0 then count + 1 else count) r.1
  ]

  pub run_chunks-cons :
      (x : Bytes) (xs : List Bytes) (count : ℕ) (script : Script lua) (ok : Bool) (q : Script lua)
      → run_string lua luabind x false script ≡ returned (ok, q)
      → run_chunks (x ∷ xs) count script ≡ run_chunks xs (if ok then count + 1 else count) q
  run_chunks-cons x xs count script ok q h = rw (run_chunks, h) refl

module _ (lua : Api) (ring : CircularBuffer) where
  open ring use {Buffer, contents}

  -- The lock was got for each of the first `k` of `n` chunks.
  abbrev pub Locked : (ℕ → Turn lua ring) → ℕ → Bool → ℕ → Type 0
  Locked turns n run_block k =
      (i : ℕ) → suc i ≤ k → (run_block || (turns (n - suc i)).acquired) ≡ true

  -- A call ran the first `k` of the chunks `xs` and no other. Those left are in front of what was
  -- added during the call, and only a missed lock ends it before the last.
  abbrev pub RanFirst :
      Bindings lua
      → (ℕ → Turn lua ring)
      → List Bytes
      → ℕ
      → RunBuffer lua ring
      → Result (ℕ × RunBuffer lua ring)
      → Type 0
  RanFirst luabind turns xs count b result =
      (k : ℕ) × (n : ℕ) × (q : RunBuffer lua ring) × (more : List Bytes) × (k ≤ length xs)
      × (result ≡ returned (n, q))
      × (run_chunks lua luabind (take k xs) count b.script ≡ returned (n, q.script))
      × (contents q.buf ≡ drop k xs ++ more)
      × ((k ≡ length xs) ⊎ (b.run_block ≡ false) × ((turns (length xs - suc k)).acquired ≡ false))
      × Locked turns (length xs) b.run_block k

  later_stop :
      (turns : ℕ → Turn lua ring) (k n : ℕ) (run_block : Bool)
      → (k ≡ n) ⊎ (run_block ≡ false) × ((turns (n - suc k)).acquired ≡ false)
      → (suc k ≡ suc n) ⊎ (run_block ≡ false) × ((turns (suc n - suc (suc k))).acquired ≡ false)
  later_stop turns k n run_block (inl all) = inl (ap suc all)
  later_stop turns k n run_block (inr (try, missed)) =
      inr (try, subst (λ (i : ℕ). (turns i).acquired ≡ false) {x = n - suc k} (omega arith) missed)

  Locked-suc :
      (turns : ℕ → Turn lua ring) (k n : ℕ) (run_block : Bool)
      → (run_block || (turns n).acquired) ≡ true
      → Locked turns n run_block k
      → Locked turns (suc n) run_block (suc k)
  Locked-suc turns k n run_block now later zero h =
      subst (λ (i : ℕ). (run_block || (turns i).acquired) ≡ true) {x = n} (omega arith) now
  Locked-suc turns k n run_block now later (suc j) h =
      subst (λ (i : ℕ). (run_block || (turns i).acquired) ≡ true) {x = n - suc j} (omega arith)
        (later j (omega (arith, h)))

  Locked-zero : (turns : ℕ → Turn lua ring) (n : ℕ) (run_block : Bool) → Locked turns n run_block 0
  Locked-zero turns n run_block i h = absurd (omega (arith, h))

  pub push_all_lem :
      RingLaws ring
      → (added : List Bytes) (buf : Buffer)
      → (more : List Bytes) × (contents (push_all lua ring added buf) ≡ contents buf ++ more)
  unfolding push_all
  push_all_lem laws [] buf = ([], sym (append-nil (contents buf)))
  push_all_lem laws (x ∷ added) buf = elim (Bool-cases (full ring buf)) [
    | inl h ↦ rw h (push_all_lem laws added buf)
    | inr h ↦
        let (more, laid) = push_all_lem laws added (ring.push_back x buf) in
        rw h (
          x ∷ more,
          laid
              ∙ ap (λ (xs : List Bytes). xs ++ more) (push_back-space ring laws x buf h)
              ∙ append_assoc (contents buf) (x ∷ []) more,
        )
  ]

  run_rounds_lem :
      RingLaws ring
      → (luabind : Bindings lua) (turns : ℕ → Turn lua ring) (xs ys : List Bytes) (count : ℕ)
        (b : RunBuffer lua ring)
      → contents b.buf ≡ xs ++ ys
      → is_valid lua b.script ≡ true
      → RanFirst luabind turns xs count b (run_rounds lua ring luabind turns (length xs) count b)
  unfolding run_rounds
  run_rounds_lem laws luabind turns [] ys count b laid valid =
      (0, count, b, ys, omega arith, refl, refl, laid, inl refl, Locked-zero turns 0 b.run_block)
  run_rounds_lem laws luabind turns (x ∷ xs) ys count b laid valid =
      let turn = turns (length xs) in
      let buf = push_all lua ring turn.added b.buf in
      let (more, got) = push_all_lem laws turn.added b.buf in
      let whole : contents buf ≡ x ∷ (xs ++ (ys ++ more)) =
        got ∙ ap (λ (zs : List Bytes). zs ++ more) laid ∙ append_assoc (x ∷ xs) ys more in
      let some_left : (size ring b.buf == 0) ≡ false = ground (arith, ap length laid) in
      elim (Bool-cases (b.run_block || turn.acquired)) [
        | inr missed ↦
            rw (some_left, missed)
              (
                0,
                count,
                with_buf lua ring buf b,
                ys ++ more,
                omega arith,
                refl,
                refl,
                whole,
                inr (ground arith, ground arith),
                Locked-zero turns (suc (length xs)) b.run_block,
              )
        | inl locked ↦
            let (ok, q, ran, still) = run_string-IsValid lua luabind x false b.script valid in
            let front : get_or (contents buf) 0 [] ≡ x = ap (λ zs. get_or zs 0 []) whole in
            let (k, n, r, rest, le, done, all, laid', why, got_all) =
              run_rounds_lem laws luabind turns xs (ys ++ more) (if ok then count + 1 else count)
                (record b { buf = ring.pop_front buf; script = q })
                (laws.contents-pop_front x (xs ++ (ys ++ more)) buf whole) still in
            rw (some_left, locked, front, ran, done)
              (
                suc k,
                n,
                r,
                rest,
                omega arith,
                refl,
                run_chunks-cons lua luabind x (take k xs) count b.script ok q ran ∙ all,
                laid',
                later_stop turns k (length xs) b.run_block why,
                Locked-suc turns k (length xs) b.run_block locked got_all,
              )
      ]

  -- With a Lua state a call throws nothing. It runs the chunks that were in the buffer when the call began,
  -- in order and each once, up to the first one before which the lock is missed, in a buffer that does
  -- not block for it; and it returns how many of them succeeded. Those that it did not run stand in
  -- front of the ones added meanwhile, of which it runs none. This holds whatever `max_run` is: the
  -- comment in `writeObject` says that with it nothing is run that was added between the
  -- synchronisation and the run, but `runBuffer` never reads it, and runs those chunks too.
  pub run_buffer_lem :
      RingLaws ring
      → (luabind : Bindings lua) (turns : ℕ → Turn lua ring) (b : RunBuffer lua ring)
      → is_valid lua b.script ≡ true
      → RanFirst luabind turns (contents b.buf) 0 b (run_buffer lua ring luabind turns b)
  unfolding run_buffer
  run_buffer_lem laws luabind turns b valid = started (contents b.buf) refl
    where
      started :
          (xs : List Bytes)
          → contents b.buf ≡ xs
          → RanFirst luabind turns (contents b.buf) 0 b (run_buffer lua ring luabind turns b)
      started [] e =
          rw (valid, e)
            (0, 0, b, [], omega arith, refl, refl, e, inl refl, Locked-zero turns 0 b.run_block)
      started (x ∷ xs) e =
          let some_left : (size ring b.buf == 0) ≡ false = ground (arith, ap length e) in
          rw (valid, some_left)
            (run_rounds_lem laws luabind turns (contents b.buf) [] 0 b
              (sym (append-nil (contents b.buf))) valid)
