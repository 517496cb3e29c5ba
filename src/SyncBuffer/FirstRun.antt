-- ===== src/SyncBuffer/FirstRun.antt =====
-- The first run of a buffer of vrjugglua/SynchronizedRunBuffer.cpp that nobody has initialised.
use vr_jugglua.Prelude.{ℕ, ◌≡◌, refl, ◌∙◌, true, false, List, map, take, some, Bytes, codes, subst}
use vr_jugglua.Lua.{Api}
use vr_jugglua.CircularBuffer.{CircularBuffer, RingLaws}
use vr_jugglua.ScriptHost.{Bindings, returned}
use vr_jugglua.RunBuffer.{RunBuffer, Turn, run_buffer}
use vr_jugglua.RunBuffer.Running.{RanFirst, run_buffer_lem}
use vr_jugglua.SyncBuffer.{Cluster, SyncBuffer, then_do, warn, init, check_init, sync_run_buffer}
use vr_jugglua.SyncBuffer.EarlyBirds.{bird_chunk, init_lem}

module _ (lua : Api) (ring : CircularBuffer) where
  abbrev pub not_called : Bytes
  not_called =
      codes
        "WARNING: init was not called on the run buffer during init/initScene - cluster support won't work"

  check_init-fresh :
      (cluster : Cluster) (s : SyncBuffer lua ring)
      → s.initialised ≡ false
      → check_init lua ring cluster s ≡ init lua ring cluster (warn lua ring not_called s)
  unfolding check_init
  check_init-fresh cluster s before = simp before refl

  -- The first run of a buffer that is not initialised: it is initialised to `t`, with a warning, and then
  -- its first ten early birds are run.
  abbrev pub FirstRun : Bindings lua → (ℕ → Turn lua ring) → Cluster → SyncBuffer lua ring → Type 0
  FirstRun luabind turns cluster s =
      let chunks = take 10 (map (bird_chunk lua ring) s.early_birds) in
      (t : SyncBuffer lua ring) × (n : ℕ) × (b : RunBuffer lua ring) × (init lua ring cluster
          (warn lua ring not_called s)
        ≡ some (returned t))
      × (sync_run_buffer lua ring luabind cluster turns s
          ≡ some (returned (n, record t { run_buf = b })))
      × RanFirst lua ring luabind turns chunks 0 t.run_buf (returned (n, b))

  run_after :
      (luabind : Bindings lua) (turns : ℕ → Turn lua ring) (cluster : Cluster)
      (s t : SyncBuffer lua ring) (n : ℕ) (b : RunBuffer lua ring)
      → check_init lua ring cluster s ≡ some (returned t)
      → run_buffer lua ring luabind turns t.run_buf ≡ returned (n, b)
      → sync_run_buffer lua ring luabind cluster turns s
        ≡ some (returned (n, record t { run_buf = b }))
  unfolding sync_run_buffer
  run_after luabind turns cluster s t n b ready ran = simp ready (rw (then_do, ran) refl)

  -- A run of a buffer that is not initialised, but has a Lua state, initialises it and throws nothing. Of
  -- the chunks that were added before, it runs the first ten, in order and each once, up to a
  -- missed lock; it returns how many of them succeeded.
  pub first_run_lem :
      RingLaws ring
      → (luabind : Bindings lua) (turns : ℕ → Turn lua ring) (cluster : Cluster)
        (s : SyncBuffer lua ring) (state : lua.State)
      → ((i : ℕ) → cluster.acquired i ≡ true)
      → s.initialised ≡ false
      → s.state ≡ some state
      → FirstRun luabind turns cluster s
  first_run_lem laws luabind turns cluster s state free before given =
      let (t, done, _, _, valid, chunks, _) =
        init_lem lua ring laws cluster (warn lua ring not_called s) state free before given in
      let (k, n, b, more, le, ran, all, left, why, locked) =
        run_buffer_lem lua ring laws luabind turns t.run_buf valid in
      (
        t,
        n,
        b,
        done,
        run_after luabind turns cluster s t n b (check_init-fresh cluster s before ∙ done) ran,
        subst
            (λ (xs : List Bytes). RanFirst lua ring luabind turns xs 0 t.run_buf (returned (n, b)))
            chunks (k, n, b, more, le, refl, all, left, why, locked),
      )
