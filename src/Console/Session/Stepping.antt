-- ===== src/Console/Session/Stepping.antt =====
-- One step of a console's session, vrjugglua/LuaConsole.cpp: nothing is lost, and nothing is run twice.
use vr_jugglua.Prelude.{
  ℕ, zero, suc, ◌≡◌, refl, sym, ap, ◌∙◌, subst, inl, inr, Bool, true, false, List, [], ◌∷◌, ◌++◌,
  some, none, Bytes, if◌then◌else◌, Bool-cases, take, drop,
}
use mathlib.Core.List.{append-nil}
use vr_jugglua.Lua.{Api}
use vr_jugglua.CircularBuffer.{CircularBuffer, RingLaws, full}
use vr_jugglua.ScriptHost.{Bindings, returned, thrown, is_valid}
use vr_jugglua.RunBuffer.{RunBuffer, Turn, add_string, run_buffer}
use vr_jugglua.RunBuffer.Adding.{push_back-space}
use vr_jugglua.RunBuffer.Running.{run_buffer_lem}
use vr_jugglua.SyncBuffer.{
  Operation, then_do, Cluster, SyncBuffer, check_init, sync_add_string, sync_run_buffer,
}
use vr_jugglua.Console as Base
use vr_jugglua.Console.{Console, shown_text, console_add_string, console_run_buffer}
use vr_jugglua.RunBuffer.Chunks.{Runs-given}
use vr_jugglua.Console.Session.{Step, enters, runs, step, Arrived, Ready, waiting, Served}

take-drop : (k : ℕ) (xs ys : List Bytes) → take k xs ++ (drop k xs ++ ys) ≡ xs ++ ys
take-drop zero xs ys = refl
take-drop (suc k) [] ys = refl
take-drop (suc k) (x ∷ xs) ys = ap (◌∷◌ x) (take-drop k xs ys)

module _ (lua : Api) (ring : CircularBuffer) where
  -- A chunk that is entered.
  abbrev taken : Bool → Bytes → List Bytes
  taken ok text = if ok then text ∷ [] else []

  abbrev Entered :
      Bindings lua → Bytes → SyncBuffer lua ring → Operation (Bool × SyncBuffer lua ring) → Type 0
  Entered luabind text b none = ⊥
  Entered luabind text b (some (thrown e)) = ⊥
  Entered luabind text b (some (returned (ok, after))) =
      (after.initialised ≡ true) × Served lua ring luabind (taken ok text) b after

  sync_add_string-Entered :
      RingLaws ring
      → (luabind : Bindings lua) (cluster : Cluster) (acquired : Bool) (text : Bytes)
        (b : SyncBuffer lua ring)
      → b.initialised ≡ true
      → is_valid lua b.run_buf.script ≡ true
      → Entered luabind text b (sync_add_string lua ring cluster acquired [] text false b)
  unfolding sync_add_string check_init add_string
  sync_add_string-Entered laws luabind cluster acquired text b on valid =
      elim (Bool-cases cluster.is_local) [
        | inr remote ↦
            simp (on, remote) (refl, ([], 0, sym (append-nil (waiting lua ring b)), (refl, valid)))
        | inl local ↦ elim (Bool-cases acquired) [
          | inr missed ↦
              simp (on, local, valid, missed)
                (refl, ([], 0, sym (append-nil (waiting lua ring b)), (refl, refl)))
          | inl locked ↦ elim (Bool-cases (full ring b.run_buf.buf)) [
            | inl no_space ↦
                simp (on, local, valid, locked, no_space)
                  (refl, ([], 0, sym (append-nil (waiting lua ring b)), (refl, refl)))
            | inr space ↦
                simp (on, local, valid, locked, space)
                  (refl, ([], 0, push_back-space ring laws text b.run_buf.buf space, (refl, refl)))
          ]
        ]
      ]

  -- A step that is done, and the buffer behind it.
  abbrev pub Stepped :
      Bindings lua
      → Step lua ring
      → SyncBuffer lua ring
      → Operation (Bool × Console lua ring)
      → Type 0
  Stepped luabind s b none = ⊥
  Stepped luabind s b (some (thrown e)) = ⊥
  Stepped luabind s b (some (returned (ok, c))) =
      (after : SyncBuffer lua ring) × (xs : List Bytes) × Ready lua ring c after
      × Arrived lua ring (s ∷ []) (ok ∷ []) xs
      × Served lua ring luabind xs b after

  enters-Stepped :
      RingLaws ring
      → (luabind : Bindings lua) (cluster : Cluster) (acquired : Bool) (text : Bytes)
        (c : Console lua ring) (b : SyncBuffer lua ring)
      → Ready lua ring c b
      → Stepped luabind
          (enters acquired text)
          b
          (console_add_string lua ring cluster acquired text c)
  unfolding console_add_string
  enters-Stepped laws luabind cluster acquired text c b (found, on, valid) =
      simp (console_add_string, found)
        (go (sync_add_string lua ring cluster acquired [] text false b)
          (sync_add_string-Entered laws luabind cluster acquired text b on valid))
    where
      go :
          (result : Operation (Bool × SyncBuffer lua ring))
          → Entered luabind text b result
          → Stepped luabind (enters acquired text) b (
              then_do result (λ (r : Bool × SyncBuffer lua ring). some (
                returned (
                  r.0,
                  Base.append_to_display lua ring
                      (shown_text lua ring r.0 text)
                      (record c { runbuf = some r.1 }),
                ))))
      go none h = h
      go (some (thrown e)) h = h
      go (some (returned (true, after))) (kept, (ran, n, all, run)) =
          (after, text ∷ [], (refl, kept, run.1), ([], refl, refl), (ran, n, all, run))
      go (some (returned (false, after))) (kept, (ran, n, all, run)) =
          (after, [], (refl, kept, run.1), refl, (ran, n, all, run))

  pub console_run_buffer-run_buffer :
      (luabind : Bindings lua) (cluster : Cluster) (turns : ℕ → Turn lua ring)
      (c : Console lua ring) (b : SyncBuffer lua ring) (n : ℕ) (q : RunBuffer lua ring)
      → c.runbuf ≡ some b
      → b.initialised ≡ true
      → run_buffer lua ring luabind turns b.run_buf ≡ returned (n, q)
      → console_run_buffer lua ring luabind cluster turns c
        ≡ some (
            returned
              (true, record c { runbuf = some (record b { initialised = true; run_buf = q }) }))
  unfolding console_run_buffer sync_run_buffer check_init
  console_run_buffer-run_buffer luabind cluster turns c b n q found on ran =
      simp (console_run_buffer, found, on)
        (rw (then_do, ran)
          (ap
            (λ (i : Bool). some (
              returned
                (true, record c { runbuf = some (record b { initialised = i; run_buf = q }) })))
            on))

  runs-Stepped :
      RingLaws ring
      → (luabind : Bindings lua) (cluster : Cluster) (turns : ℕ → Turn lua ring)
        (c : Console lua ring) (b : SyncBuffer lua ring)
      → Ready lua ring c b
      → Stepped luabind (runs turns) b (console_run_buffer lua ring luabind cluster turns c)
  runs-Stepped laws luabind cluster turns c b (found, on, valid) =
      let (k, n, q, more, le, ran, all, left, why, locked) =
        run_buffer_lem lua ring laws luabind turns b.run_buf valid in
      let executed =
        Runs-given lua luabind (take k (waiting lua ring b)) n b.run_buf.script q.script valid
          all in
      subst (Stepped luabind (runs turns) b)
        (sym (console_run_buffer-run_buffer luabind cluster turns c b n q found on ran))
        (
          record b { initialised = true; run_buf = q },
          more,
          (refl, refl, executed.1),
          (more, [], sym (append-nil more), refl),
          (
            take k (waiting lua ring b),
            n,
            ap (λ (l : List Bytes). take k (waiting lua ring b) ++ l) left
                ∙ take-drop k (waiting lua ring b) more,
            executed,
          ),
        )

  pub step-Stepped :
      RingLaws ring
      → (luabind : Bindings lua) (cluster : Cluster) (s : Step lua ring) (c : Console lua ring)
        (b : SyncBuffer lua ring)
      → Ready lua ring c b
      → Stepped luabind s b (step lua ring luabind cluster s c)
  step-Stepped laws luabind cluster (enters acquired text) =
      enters-Stepped laws luabind cluster acquired text
  step-Stepped laws luabind cluster (runs turns) = runs-Stepped laws luabind cluster turns
