-- ===== src/SyncBuffer/EarlyBirds.antt =====
-- What becomes of the chunks that a buffer of vrjugglua/SynchronizedRunBuffer.cpp was given before it
-- was initialised.
use vr_jugglua.Prelude.{
  ℕ, suc, ◌≡◌, refl, sym, ap, ◌∙◌, inl, inr, Bool, true, false, List, [], ◌∷◌, ◌++◌, map, Option,
  some, Bytes, codes, arith, take, take-append, take_all, if◌then◌else◌, Bool-cases,
}
use mathlib.Core.Option
use mathlib.Core.List.{append_assoc, append-nil}
use vr_jugglua.Lua.{Api}
use vr_jugglua.CircularBuffer.{CircularBuffer, RingLaws, size, full}
use vr_jugglua.ScriptHost.{is_valid, returned, thrown, logic_error}
use vr_jugglua.RunBuffer.{
  RunBuffer, with_buf, new_run_buffer, init_lua, add_string, add_file, file_chunk,
}
use vr_jugglua.RunBuffer.Adding.{push_back-space}
use vr_jugglua.SyncBuffer.{
  Command, cm_addfile, cm_addstring, Operation, then_do, Cluster, SyncBuffer, add, run_birds,
  initial_buffer, initialised_with, init, sync_add_file, sync_add_string,
}

-- A file or string added before the initialisation, and whether it was to block.
pub record Early : Type 0 where
  pub command : Command
  pub content : Bytes
  pub blocking : Bool

abbrev pub bird : Early → Command × Bytes
bird e = (e.command, e.content)

module _ (lua : Api) (ring : CircularBuffer) where
  -- The chunk that an early bird becomes.
  abbrev pub bird_chunk : Command × Bytes → Bytes
  bird_chunk (cm_addstring, text) = text
  bird_chunk (cm_addfile, name) = file_chunk lua ring name

  add_bird :
      (command : Command) (text : Bytes) (b : RunBuffer lua ring)
      → is_valid lua b.script ≡ true
      → add lua ring command true [] text false b ≡ (
          if full ring b.buf
          then some (false, b)
          else some (true, with_buf lua ring (ring.push_back (bird_chunk (command, text)) b.buf) b))
  unfolding add_string add_file
  add_bird cm_addstring text b valid = rw valid refl
  add_bird cm_addfile text b valid = rw valid refl

  run_birds_lem :
      RingLaws ring
      → (acquired : ℕ → Bool) → ((i : ℕ) → acquired i ≡ true)
      → (i : ℕ) (birds : List (Command × Bytes)) (b : RunBuffer lua ring)
      → is_valid lua b.script ≡ true
      → (q : RunBuffer lua ring) × (run_birds lua ring acquired i birds b ≡ some q)
        × (q.script ≡ b.script)
        × (ring.contents q.buf
            ≡ take (ring.capacity b.buf) (ring.contents b.buf ++ map bird_chunk birds))
  unfolding run_birds Option.bind
  run_birds_lem laws acquired free i [] b valid = (
    b,
    refl,
    refl,
    sym (
        ap (take (ring.capacity b.buf)) (append-nil (ring.contents b.buf))
        ∙ take_all (ring.capacity b.buf) (ring.contents b.buf) (laws.size_le_capacity b.buf)),
  )
  run_birds_lem laws acquired free i ((command, text) ∷ birds) b valid =
      let x = bird_chunk (command, text) in
      let ys = map bird_chunk birds in
      let cap = ring.capacity b.buf in
      elim (Bool-cases (full ring b.buf)) [
        | inl no_space ↦
            let (q, done, same, laid) = run_birds_lem laws acquired free (suc i) birds b valid in
            let at_end : size ring b.buf ≡ cap = ground (arith, no_space) in
            rw (free i, add_bird command text b valid, no_space)
              (q, done, same, laid ∙ take_full at_end ys ∙ sym (take_full at_end (x ∷ ys)))
        | inr space ↦
            let pushed = with_buf lua ring (ring.push_back x b.buf) b in
            let (q, done, same, laid) =
              run_birds_lem laws acquired free (suc i) birds pushed valid in
            rw (free i, add_bird command text b valid, space)
              (
                q,
                done,
                same,
                laid
                    ∙ ap (λ (n : ℕ). take n (ring.contents pushed.buf ++ ys))
                        (laws.capacity-push_back x b.buf)
                    ∙ ap (λ (zs : List Bytes). take cap (zs ++ ys))
                        (push_back-space ring laws x b.buf space)
                    ∙ ap (take cap) (append_assoc (ring.contents b.buf) (x ∷ []) ys),
              )
      ]
    where
      take_full :
          size ring b.buf ≡ ring.capacity b.buf
          → (zs : List Bytes)
          → take (ring.capacity b.buf) (ring.contents b.buf ++ zs) ≡ ring.contents b.buf
      take_full e zs =
          ap (λ (n : ℕ). take n (ring.contents b.buf ++ zs)) (sym e)
          ∙ take-append (ring.contents b.buf) zs

  abbrev pub add_one :
      Command
      → Cluster
      → Bytes
      → Bool
      → SyncBuffer lua ring
      → Operation (Bool × SyncBuffer lua ring)
  add_one cm_addfile cluster = sync_add_file lua ring cluster true []
  add_one cm_addstring cluster = sync_add_string lua ring cluster true []

  -- The additions in order, with what they returned.
  abbrev pub add_early :
      Cluster → List Early → SyncBuffer lua ring → Operation (List Bool × SyncBuffer lua ring)
  add_early cluster [] s = some (returned ([], s))
  add_early cluster (e ∷ es) s =
      then_do (add_one e.command cluster e.content e.blocking s)
        (λ (r : Bool × SyncBuffer lua ring).
          then_do (add_early cluster es r.1)
            (λ (rs : List Bool × SyncBuffer lua ring). some (returned (r.0 ∷ rs.0, rs.1))))

  -- `t` is `s`, not yet initialised, with these early birds behind its own.
  abbrev pub Queued : List (Command × Bytes) → SyncBuffer lua ring → SyncBuffer lua ring → Type 0
  Queued birds s t =
      (t.initialised ≡ false)
      × (t.early_birds ≡ s.early_birds ++ birds)
      × (t.state ≡ s.state)
      × (t.console ≡ s.console)

  add_one_lem :
      (command : Command) (cluster : Cluster) (text : Bytes) (blocking : Bool)
      (s : SyncBuffer lua ring)
      → s.initialised ≡ false
      → (t : SyncBuffer lua ring) × (add_one command cluster text blocking s
          ≡ some (returned (true, t)))
        × Queued ((command, text) ∷ []) s t
  unfolding sync_add_file sync_add_string
  add_one_lem cm_addfile cluster text true s before = rw before (_, refl, (refl, refl, refl, refl))
  add_one_lem cm_addfile cluster text false s before = rw before (_, refl, (refl, refl, refl, refl))
  add_one_lem cm_addstring cluster text true s before =
      rw before (_, refl, (refl, refl, refl, refl))
  add_one_lem cm_addstring cluster text false s before =
      rw before (_, refl, (refl, refl, refl, refl))

  add_early_lem :
      (cluster : Cluster) (es : List Early) (s : SyncBuffer lua ring)
      → s.initialised ≡ false
      → (t : SyncBuffer lua ring) × (add_early cluster es s
          ≡ some (returned (map (λ (e : Early). true) es, t)))
        × Queued (map bird es) s t
  add_early_lem cluster [] s before =
      (s, refl, (before, sym (append-nil s.early_birds), refl, refl))
  add_early_lem cluster (e ∷ es) s before =
      let (t, done, (still, laid, kept, same)) =
        add_one_lem e.command cluster e.content e.blocking s before in
      let (u, all, (still', laid', kept', same')) = add_early_lem cluster es t still in
      rw (add_early, done, all)
        (
          u,
          refl,
          (
            still',
            laid'
                ∙ ap (λ (birds : List (Command × Bytes)). birds ++ map bird es) laid
                ∙ append_assoc s.early_birds (bird e ∷ []) (map bird es),
            kept' ∙ kept,
            same' ∙ same,
          ),
        )

module _ (lua : Api) (ring : CircularBuffer) (laws : RingLaws ring) where
  pub init_lem :
      (cluster : Cluster) (s : SyncBuffer lua ring) (state : lua.State)
      → ((i : ℕ) → cluster.acquired i ≡ true)
      → s.initialised ≡ false
      → s.state ≡ some state
      → (q : SyncBuffer lua ring) × (init lua ring cluster s ≡ some (returned q))
        × (q.initialised ≡ true)
        × (q.early_birds ≡ [])
        × (is_valid lua q.run_buf.script ≡ true)
        × (ring.contents q.run_buf.buf ≡ take 10 (map (bird_chunk lua ring) s.early_birds))
        × (q.console
            ≡ (if cluster.is_local then s.console else Option.map (λ (b : Bool). false) s.console))
  unfolding init
  init_lem cluster s state free before given =
      let valid : is_valid lua (initial_buffer lua ring s).script ≡ true =
        unfold is_valid new_run_buffer init_lua in rw given refl in
      let start = initial_buffer lua ring s in
      let chunks = map (bird_chunk lua ring) s.early_birds in
      let (b, done, same, laid) =
        run_birds_lem lua ring laws cluster.acquired free 0 s.early_birds start valid in
      rw (before, done)
        (
          initialised_with lua ring cluster.is_local b s,
          refl,
          refl,
          refl,
          ap (is_valid lua) same ∙ valid,
          laid
              ∙ ap (λ (n : ℕ). take n (ring.contents start.buf ++ chunks))
                  (unfold new_run_buffer init_lua in laws.capacity-with_capacity 10)
              ∙ ap (λ (zs : List Bytes). take 10 (zs ++ chunks))
                  (unfold new_run_buffer init_lua in laws.contents-with_capacity 10),
          refl,
        )

  -- Before the initialisation every addition of a file or string returns true, whatever it asks of
  -- blocking. The initialisation, if there is a Lua state and each lock is taken, then puts the first
  -- ten of their chunks into the run buffer, in order, drops all the others, and disables a console on a
  -- node that is not local. A second initialisation throws.
  pub early_birds_lem :
      (cluster : Cluster) (es : List Early) (s : SyncBuffer lua ring) (state : lua.State)
      → ((i : ℕ) → cluster.acquired i ≡ true)
      → s.initialised ≡ false
      → s.early_birds ≡ []
      → s.state ≡ some state
      → (t : SyncBuffer lua ring) × (q : SyncBuffer lua ring) × (add_early lua ring cluster es s
          ≡ some (returned (map (λ (e : Early). true) es, t)))
        × (init lua ring cluster t ≡ some (returned q))
        × (ring.contents q.run_buf.buf ≡ take 10 (map (bird_chunk lua ring) (map bird es)))
        × (q.early_birds ≡ [])
        × (q.console
            ≡ (if cluster.is_local then s.console else Option.map (λ (b : Bool). false) s.console))
        × (init lua ring cluster q
            ≡ some (thrown (logic_error (codes "SynchronizedRunBuffer already initialized!"))))
  early_birds_lem cluster es s state free before none_yet given =
      let (t, added, (still, laid, kept, same)) = add_early_lem lua ring cluster es s before in
      let (q, ran, now, gone, valid, chunks, console) =
        init_lem cluster t state free still (kept ∙ given) in
      (
        t,
        q,
        added,
        ran,
        chunks
            ∙ ap (λ (birds : List (Command × Bytes)). take 10 (map (bird_chunk lua ring) birds))
                (laid ∙ ap (λ (birds : List (Command × Bytes)). birds ++ map bird es) none_yet),
        gone,
        console
            ∙ ap
                (λ (c : Option Bool).
                  if cluster.is_local then c else Option.map (λ (b : Bool). false) c)
                same,
        unfold init in rw now refl,
      )
