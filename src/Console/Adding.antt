-- ===== src/Console/Adding.antt =====
-- What becomes of a chunk that is given to the console of vrjugglua/LuaConsole.cpp.
use vr_jugglua.Prelude.{
  ◌≡◌, refl, inl, inr, Bool, true, false, not, ◌&&◌, [], ◌∷◌, ◌++◌, some, Bytes, Bool-cases,
}
use vr_jugglua.Lua.{Api}
use vr_jugglua.CircularBuffer.{CircularBuffer, RingLaws, full}
use vr_jugglua.ScriptHost.{is_valid, returned}
use vr_jugglua.RunBuffer.{add_string}
use vr_jugglua.RunBuffer.Adding.{push_back-space}
use vr_jugglua.SyncBuffer.{Cluster, SyncBuffer, check_init, sync_add_string}
use vr_jugglua.Console.{
  Console, shown_text, console_add_string, console_add_file, console_file_chunk,
}

module _ (lua : Api) (ring : CircularBuffer) where
  -- Whether an initialised buffer takes a chunk at once.
  abbrev pub takes : Cluster → Bool → SyncBuffer lua ring → Bool
  takes cluster acquired b =
      cluster.is_local
      && (is_valid lua b.run_buf.script && (acquired && not (full ring b.run_buf.buf)))

  -- The buffer behind the addition: the chunk is last, or the buffer is as it was.
  abbrev pub Taken : Bool → Bytes → SyncBuffer lua ring → SyncBuffer lua ring → Type 0
  Taken true str b after =
      ring.contents after.run_buf.buf ≡ ring.contents b.run_buf.buf ++ (str ∷ [])
  Taken false str b after = after.run_buf ≡ b.run_buf

  sync_add_string_lem :
      RingLaws ring
      → (cluster : Cluster) (acquired : Bool) (str : Bytes) (b : SyncBuffer lua ring)
      → b.initialised ≡ true
      → (after : SyncBuffer lua ring) × (sync_add_string lua ring cluster acquired [] str false b
          ≡ some (returned (takes cluster acquired b, after)))
        × Taken (takes cluster acquired b) str b after
  unfolding sync_add_string check_init add_string
  sync_add_string_lem laws cluster acquired str b on = elim (Bool-cases cluster.is_local) [
    | inr remote ↦ simp (on, remote) (_, refl, refl)
    | inl local ↦ elim (Bool-cases (is_valid lua b.run_buf.script)) [
      | inr invalid ↦ simp (on, local, invalid) (_, refl, refl)
      | inl valid ↦ elim (Bool-cases acquired) [
        | inr missed ↦ simp (on, local, valid, missed) (_, refl, refl)
        | inl locked ↦ elim (Bool-cases (full ring b.run_buf.buf)) [
          | inl no_space ↦ simp (on, local, valid, locked, no_space) (_, refl, refl)
          | inr space ↦
              simp (on, local, valid, locked, space)
                (_, refl, push_back-space ring laws str b.run_buf.buf space)
        ]
      ]
    ]
  ]

  -- What a console with a run buffer shows and returns for a chunk.
  abbrev pub Shown : Cluster → Bool → Bytes → Console lua ring → SyncBuffer lua ring → Type 0
  Shown cluster acquired str c b =
      let ok = takes cluster acquired b in
      (q : Console lua ring) × (after : SyncBuffer lua ring) × (console_add_string lua ring cluster
          acquired str c
        ≡ some (returned (ok, q)))
      × (q.runbuf ≡ some after)
      × Taken ok str b after
      × (q.display ≡ c.display ++ (shown_text lua ring ok str ∷ []))
      × (q.script ≡ c.script)

  console_add_string-Shown :
      RingLaws ring
      → (cluster : Cluster) (acquired : Bool) (str : Bytes) (c : Console lua ring)
        (b : SyncBuffer lua ring)
      → c.runbuf ≡ some b
      → b.initialised ≡ true
      → Shown cluster acquired str c b
  unfolding console_add_string
  console_add_string-Shown laws cluster acquired str c b found on =
      let (after, added, taken) = sync_add_string_lem laws cluster acquired str b on in
      simp (console_add_string, found, added) (_, after, refl, refl, taken, refl, refl)

  console_add_file-console_add_string :
      (cluster : Cluster) (acquired : Bool) (name : Bytes) (c : Console lua ring)
      (b : SyncBuffer lua ring)
      → c.runbuf ≡ some b
      → console_add_file lua ring cluster acquired name c
        ≡ console_add_string lua ring cluster acquired (console_file_chunk lua ring name) c
  unfolding console_add_file
  console_add_file-console_add_string cluster acquired name c b found =
      simp (console_add_file, found) refl

  -- A console with an initialised run buffer takes a chunk if and only if its node is local, its script
  -- has a state, the lock is got at once and the buffer has space. It then stands last in the buffer, and
  -- is shown; otherwise the buffer is as it was, and the chunk is shown as failed. A file is given as
  -- the chunk that runs it.
  pub console_add_lem :
      RingLaws ring
      → (cluster : Cluster) (acquired : Bool) (str name : Bytes) (c : Console lua ring)
        (b : SyncBuffer lua ring)
      → c.runbuf ≡ some b
      → b.initialised ≡ true
      → Shown cluster acquired str c b
        × (console_add_file lua ring cluster acquired name c
            ≡ console_add_string lua ring cluster acquired (console_file_chunk lua ring name) c)
  console_add_lem laws cluster acquired str name c b found on = (
    console_add_string-Shown laws cluster acquired str c b found on,
    console_add_file-console_add_string cluster acquired name c b found,
  )
