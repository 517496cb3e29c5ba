-- ===== src/Console/Returning.antt =====
-- An addition to the console of vrjugglua/LuaConsole.cpp returns, or there is no run buffer.
use vr_jugglua.Prelude.{
  ◌≡◌, refl, inl, inr, Bool, true, false, [], ◌∷◌, ◌++◌, none, some, Bytes, is_some, Bool-cases,
  Option-cases,
}
use vr_jugglua.Lua.{Api}
use vr_jugglua.CircularBuffer.{CircularBuffer, full}
use vr_jugglua.ScriptHost.{is_valid, returned, thrown}
use vr_jugglua.RunBuffer.{add_string}
use vr_jugglua.SyncBuffer.{Operation, Cluster, SyncBuffer, check_init, sync_add_string}
use vr_jugglua.Console.{Console, shown_text, console_add_string}

module _ (lua : Api) (ring : CircularBuffer) where
  -- An addition that does not block always returns.
  sync_add_string-returned :
      (cluster : Cluster) (acquired : Bool) (str : Bytes) (b : SyncBuffer lua ring)
      → (r : Bool × SyncBuffer lua ring) × (sync_add_string lua ring cluster acquired [] str false b
          ≡ some (returned r))
  unfolding sync_add_string check_init add_string
  sync_add_string-returned cluster acquired str b = elim (Bool-cases b.initialised) [
    | inr off ↦ simp off (_, refl)
    | inl on ↦ elim (Bool-cases cluster.is_local) [
      | inr remote ↦ simp (on, remote) (_, refl)
      | inl local ↦ elim (Bool-cases (is_valid lua b.run_buf.script)) [
        | inr invalid ↦ simp (on, local, invalid) (_, refl)
        | inl valid ↦ elim (Bool-cases acquired) [
          | inr missed ↦ simp (on, local, valid, missed) (_, refl)
          | inl locked ↦ elim (Bool-cases (full ring b.run_buf.buf)) [
            | inl no_space ↦ simp (on, local, valid, locked, no_space) (_, refl)
            | inr space ↦ simp (on, local, valid, locked, space) (_, refl)
          ]
        ]
      ]
    ]
  ]

  -- What an addition does to the console: it throws only where there is no run buffer.
  abbrev pub Added : Bytes → Console lua ring → Operation (Bool × Console lua ring) → Type 0
  Added str c none = ⊥
  Added str c (some (thrown e)) = is_some c.runbuf ≡ false
  Added str c (some (returned r)) =
      (r.1.display ≡ c.display ++ (shown_text lua ring r.0 str ∷ []))
      × (is_some r.1.runbuf ≡ true)
      × (is_some c.runbuf ≡ true)

  pub console_add_string-Added :
      (cluster : Cluster) (acquired : Bool) (str : Bytes) (c : Console lua ring)
      → Added str c (console_add_string lua ring cluster acquired str c)
  unfolding console_add_string
  console_add_string-Added cluster acquired str c = elim (Option-cases c.runbuf) [
    | inl missing ↦ simp (console_add_string, missing) refl
    | inr (b, found) ↦
        let (r, added) = sync_add_string-returned cluster acquired str b in
        simp (console_add_string, found, added) (refl, refl, refl)
  ]
