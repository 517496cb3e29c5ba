-- ===== src/Console/Session/Serving.antt =====
-- A session of a console, vrjugglua/LuaConsole.cpp: what was entered is run, in order and once.
use vr_jugglua.Prelude.{ℕ, ◌+◌, ◌≡◌, refl, subst, Bool, true, List, ◌++◌, some, none, Bytes}
use vr_jugglua.Lua.{Api}
use vr_jugglua.CircularBuffer.{CircularBuffer, RingLaws}
use vr_jugglua.ScriptHost.{Bindings, returned, thrown}
use vr_jugglua.RunBuffer.{Turn}
use vr_jugglua.SyncBuffer.{Operation, Cluster, SyncBuffer}
use vr_jugglua.Console.{Console, console_run_buffer}
use vr_jugglua.RunBuffer.Chunks.{run_buffer-drained, Runs, Runs-append}
use vr_jugglua.Console.Session.{Step, play, Arrived, Ready, waiting, Served}
use vr_jugglua.Console.Session.Stepping.{console_run_buffer-run_buffer}
use vr_jugglua.Console.Session.Playing.{Played, play-Played}

module _ (lua : Api) (ring : CircularBuffer) where
  console_run_buffer-drained :
      RingLaws ring
      → (luabind : Bindings lua) (cluster : Cluster) (turns : ℕ → Turn lua ring)
        (c : Console lua ring) (b : SyncBuffer lua ring)
      → ((i : ℕ) → (turns i).acquired ≡ true)
      → Ready lua ring c b
      → (n : ℕ) × (q : Console lua ring) × (last : SyncBuffer lua ring) × (console_run_buffer lua
            ring luabind cluster turns c
          ≡ some (returned (true, q)))
        × (q.runbuf ≡ some last)
        × Runs lua luabind (waiting lua ring b) b.run_buf.script n last.run_buf.script
  console_run_buffer-drained laws luabind cluster turns c b free (found, on, valid) =
      let (n, q, ran, runs_all) =
        run_buffer-drained lua luabind ring laws turns b.run_buf free valid in
      (
        n,
        _,
        _,
        console_run_buffer-run_buffer lua ring luabind cluster turns c b n q found on ran,
        refl,
        runs_all,
      )

  -- How a session ends, and what an undisturbed run behind it gives.
  abbrev pub Session :
      Bindings lua
      → Cluster
      → (ℕ → Turn lua ring)
      → List (Step lua ring)
      → SyncBuffer lua ring
      → Operation (List Bool × Console lua ring)
      → Type 0
  Session luabind cluster turns steps b none = ⊥
  Session luabind cluster turns steps b (some (thrown e)) = ⊥
  Session luabind cluster turns steps b (some (returned (oks, c))) =
      (after last : SyncBuffer lua ring) × (arrived : List Bytes) × (n : ℕ) × (q : Console lua ring)
      × Arrived lua ring steps oks arrived
      × Ready lua ring c after
      × Served lua ring luabind arrived b after
      × (console_run_buffer lua ring luabind cluster turns c ≡ some (returned (true, q)))
      × (q.runbuf ≡ some last)
      × Runs lua luabind (waiting lua ring b ++ arrived) b.run_buf.script n last.run_buf.script

  pub session_lem :
      RingLaws ring
      → (luabind : Bindings lua) (cluster : Cluster) (turns : ℕ → Turn lua ring)
        (steps : List (Step lua ring)) (c : Console lua ring) (b : SyncBuffer lua ring)
      → ((i : ℕ) → (turns i).acquired ≡ true)
      → Ready lua ring c b
      → Session luabind cluster turns steps b (play lua ring luabind cluster steps c)
  session_lem laws luabind cluster turns steps c b free ready =
      go (play lua ring luabind cluster steps c)
        (play-Played lua ring laws luabind cluster steps c b ready)
    where
      go :
          (result : Operation (List Bool × Console lua ring))
          → Played lua ring luabind steps b result
          → Session luabind cluster turns steps b result
      go none h = h
      go (some (thrown e)) h = h
      go (some (returned (oks, d))) (after, arrived, done, came, (ran, n, all, run)) =
          let (m, q, last, ended, held, rest) =
            console_run_buffer-drained laws luabind cluster turns d after free done in
          (
            after,
            last,
            arrived,
            n + m,
            q,
            came,
            done,
            (ran, n, all, run),
            ended,
            held,
            subst
                (λ (l : List Bytes).
                  Runs lua luabind l b.run_buf.script (n + m) last.run_buf.script)
                all
                (Runs-append lua luabind ran (waiting lua ring after) n m b.run_buf.script
                  after.run_buf.script last.run_buf.script ready.2 run rest),
          )
