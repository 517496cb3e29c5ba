-- ===== src/Console/Session/Playing.antt =====
-- The steps of a console's session, vrjugglua/LuaConsole.cpp, one behind the other.
use vr_jugglua.Prelude.{
  ◌+◌, ◌≡◌, refl, sym, ap, ◌∙◌, subst, Bool, true, false, List, [], ◌∷◌, ◌++◌, some, none, Bytes,
}
use mathlib.Core.List.{append_assoc, append-nil}
use vr_jugglua.Lua.{Api}
use vr_jugglua.CircularBuffer.{CircularBuffer, RingLaws}
use vr_jugglua.ScriptHost.{Bindings, returned, thrown, is_valid}
use vr_jugglua.SyncBuffer.{Operation, then_do, Cluster, SyncBuffer}
use vr_jugglua.Console.{Console}
use vr_jugglua.RunBuffer.Chunks.{Runs-append}
use vr_jugglua.Console.Session.{Step, enters, runs, step, play, Arrived, Ready, waiting, Served}
use vr_jugglua.Console.Session.Stepping.{Stepped, step-Stepped}

module _ (lua : Api) (ring : CircularBuffer) where
  Served-trans :
      (luabind : Bindings lua) (xs ys : List Bytes) (b d e : SyncBuffer lua ring)
      → is_valid lua b.run_buf.script ≡ true
      → Served lua ring luabind xs b d
      → Served lua ring luabind ys d e
      → Served lua ring luabind (xs ++ ys) b e
  Served-trans luabind xs ys b d e valid (ran, n, all, first) (ran', m, all', second) = (
    ran ++ ran',
    n + m,
    append_assoc ran ran' (waiting lua ring e)
        ∙ ap (λ (l : List Bytes). ran ++ l) all'
        ∙ sym (append_assoc ran (waiting lua ring d) ys)
        ∙ ap (λ (l : List Bytes). l ++ ys) all
        ∙ append_assoc (waiting lua ring b) xs ys,
    Runs-append lua luabind ran ran' n m b.run_buf.script d.run_buf.script e.run_buf.script valid
        first second,
  )

  -- What one step brought in, and then the others.
  Arrived-cons :
      (s : Step lua ring) (steps : List (Step lua ring)) (ok : Bool) (oks : List Bool)
      (xs ys : List Bytes)
      → Arrived lua ring (s ∷ []) (ok ∷ []) xs
      → Arrived lua ring steps oks ys
      → Arrived lua ring (s ∷ steps) (ok ∷ oks) (xs ++ ys)
  Arrived-cons (enters acquired text) steps true oks xs ys (rest, e, n) later =
      (ys, ap (λ (l : List Bytes). l ++ ys) (e ∙ ap (◌∷◌ text) n), later)
  Arrived-cons (enters acquired text) steps false oks xs ys e later =
      subst (Arrived lua ring steps oks) (ap (λ (l : List Bytes). l ++ ys) (sym e)) later
  Arrived-cons (runs turns) steps true oks xs ys (more, rest, e, n) later = (xs, ys, refl, later)
  Arrived-cons (runs turns) steps false oks xs ys h later = h

  -- A session that is done: nothing blocked or threw.
  abbrev pub Played :
      Bindings lua
      → List (Step lua ring)
      → SyncBuffer lua ring
      → Operation (List Bool × Console lua ring)
      → Type 0
  Played luabind steps b none = ⊥
  Played luabind steps b (some (thrown e)) = ⊥
  Played luabind steps b (some (returned (oks, c))) =
      (after : SyncBuffer lua ring) × (arrived : List Bytes) × Ready lua ring c after
      × Arrived lua ring steps oks arrived
      × Served lua ring luabind arrived b after

  pub play-Played :
      RingLaws ring
      → (luabind : Bindings lua) (cluster : Cluster) (steps : List (Step lua ring))
        (c : Console lua ring) (b : SyncBuffer lua ring)
      → Ready lua ring c b
      → Played luabind steps b (play lua ring luabind cluster steps c)
  play-Played laws luabind cluster [] c b ready =
      (b, [], ready, refl, ([], 0, sym (append-nil (waiting lua ring b)), (refl, ready.2)))
  play-Played laws luabind cluster (s ∷ steps) c b ready =
      go (step lua ring luabind cluster s c)
        (step-Stepped lua ring laws luabind cluster s c b ready)
        (play-Played laws luabind cluster steps)
    where
      join :
          (ok : Bool) (d : SyncBuffer lua ring) (xs : List Bytes)
          (later : Operation (List Bool × Console lua ring))
          → Arrived lua ring (s ∷ []) (ok ∷ []) xs
          → Served lua ring luabind xs b d
          → Played luabind steps d later
          → Played luabind (s ∷ steps) b (
              then_do later (λ (p : List Bool × Console lua ring). some (returned (ok ∷ p.0, p.1))))
      join ok d xs none came served h = h
      join ok d xs (some (thrown e)) came served h = h
      join ok d xs (some (returned (oks, q))) came served (after, ys, done, rest, more) = (
        after,
        xs ++ ys,
        done,
        Arrived-cons s steps ok oks xs ys came rest,
        Served-trans luabind xs ys b d after ready.2 served more,
      )

      go :
          (result : Operation (Bool × Console lua ring))
          → Stepped lua ring luabind s b result
          → ((d : Console lua ring) (after : SyncBuffer lua ring)
              → Ready lua ring d after
              → Played luabind steps after (play lua ring luabind cluster steps d))
          → Played luabind (s ∷ steps) b (
              then_do result (λ (r : Bool × Console lua ring).
                then_do
                  (play lua ring luabind cluster steps r.1)
                  (λ (p : List Bool × Console lua ring). some (returned (r.0 ∷ p.0, p.1)))))
      go none h rest = h
      go (some (thrown e)) h rest = h
      go (some (returned (ok, d))) (after, xs, done, came, served) rest =
          join ok after xs (play lua ring luabind cluster steps d) came served (rest d after done)
