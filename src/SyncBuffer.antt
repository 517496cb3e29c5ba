-- ===== src/SyncBuffer.antt =====
-- `SynchronizedRunBuffer` of vrjugglua/SynchronizedRunBuffer.cpp: the run buffer as the nodes of a
-- cluster use it, with a queue for the chunks that come before it is initialised.
pub mod EarlyBirds
pub mod FirstRun
use vr_jugglua.Prelude.{
  ℕ, zero, suc, Bool, true, false, not, ◌&&◌, List, [], ◌∷◌, ◌++◌, Option, none, some, Bytes, codes,
  if◌then◌else◌,
}
use mathlib.Core.Option
use vr_jugglua.Lua.{Api}
use vr_jugglua.CircularBuffer.{CircularBuffer}
use vr_jugglua.ScriptHost.{Script, Bindings, Exception, logic_error, Result, returned, thrown}
use vr_jugglua.RunBuffer.{
  RunBuffer, Turn, new_run_buffer, init_lua, add_string, add_file, run_buffer,
}

pub data Command : Type 0 where
  cm_addfile cm_addstring : Command

-- An operation that may wait for ever (none) or throw.
abbrev pub Operation {ℓ} : Type ℓ → Type ℓ
Operation A = Option (Result A)

abbrev pub then_do {ℓ κ} : {A : Type ℓ} {B : Type κ} → Operation A → (A → Operation B) → Operation B
then_do none next = none
then_do (some (thrown e)) next = some (thrown e)
then_do (some (returned a)) next = next a

-- Whether the cluster's user data is local, and what an attempt to take the lock gives for each early
-- bird.
pub record Cluster : Type 0 where
  pub is_local : Bool
  pub acquired : ℕ → Bool

module _ (lua : Api) (ring : CircularBuffer) where
  open ring use {Buffer}

  -- `_init`, the run buffer, which counts from then on, `_earlyBirds`, `_state`; what went to the
  -- standard error; and the console, where there is one: whether its action is enabled.
  pub record SyncBuffer : Type 0 where
    pub initialised : Bool
    pub run_buf : RunBuffer lua ring
    pub early_birds : List (Command × Bytes)
    pub state : Option lua.State
    pub warnings : List Bytes
    pub console : Option Bool

  abbrev pub warn : Bytes → SyncBuffer → SyncBuffer
  warn text s = record s { warnings = s.warnings ++ (text ∷ []) }

  -- One addition to the run buffer, by its command.
  abbrev pub add :
      Command
      → Bool
      → List (Buffer → Buffer)
      → Bytes
      → Bool
      → RunBuffer lua ring
      → Option (Bool × RunBuffer lua ring)
  add cm_addstring = add_string lua ring
  add cm_addfile = add_file lua ring

  -- The early birds from the `i`th on; what the additions return is not looked at.
  unfoldable pub run_birds :
      (ℕ → Bool) → ℕ → List (Command × Bytes) → RunBuffer lua ring → Option (RunBuffer lua ring)
  run_birds acquired i [] b = some b
  run_birds acquired i ((command, text) ∷ birds) b =
      Option.bind (add command (acquired i) [] text false b)
        (λ (r : Bool × RunBuffer lua ring). run_birds acquired (suc i) birds r.1)

  -- A `cluster::UserData` makes its `LuaRunBuffer` with no arguments: 10 places, and no blocking.
  abbrev pub initial_buffer : SyncBuffer → RunBuffer lua ring
  initial_buffer s = init_lua lua ring s.state (new_run_buffer lua ring 10 false s.run_buf.script)

  abbrev pub initialised_with : Bool → RunBuffer lua ring → SyncBuffer → SyncBuffer
  initialised_with is_local b s = record s {
    initialised = true;
    run_buf = b;
    early_birds = [];
    console = if is_local then s.console else Option.map (λ (enabled : Bool). false) s.console;
  }

  unfoldable pub init : Cluster → SyncBuffer → Operation SyncBuffer
  unfolding run_birds new_run_buffer init_lua
  init cluster s =
      if s.initialised
      then some (thrown (logic_error (codes "SynchronizedRunBuffer already initialized!")))
      else Option.map (λ (b : RunBuffer lua ring). returned (initialised_with cluster.is_local b s))
          (run_birds cluster.acquired 0 s.early_birds (initial_buffer s))

  unfoldable pub check_init : Cluster → SyncBuffer → Operation SyncBuffer
  unfolding init
  check_init cluster s =
      if not s.initialised
      then init cluster (
          warn
            (codes
              "WARNING: init was not called on the run buffer during init/initScene - cluster support won't work")
            s)
      else some (returned s)

  unfoldable pub is_local : Cluster → SyncBuffer → Operation (Bool × SyncBuffer)
  unfolding check_init
  is_local cluster s =
      then_do (check_init cluster s) (λ (t : SyncBuffer). some (returned (cluster.is_local, t)))

  abbrev pub early : Command → Bytes → Bool → Bytes → SyncBuffer → SyncBuffer
  early command text blocking warning s =
      let told = if blocking then warn warning s else s in
      record told { early_birds = s.early_birds ++ ((command, text) ∷ []) }

  abbrev pub add_local :
      Command
      → Cluster
      → Bool
      → List (Buffer → Buffer)
      → Bytes
      → Bool
      → SyncBuffer
      → Operation (Bool × SyncBuffer)
  add_local command cluster acquired waits text blocking s =
      then_do (check_init cluster s) (λ (t : SyncBuffer).
        Option.map (λ (r : Bool × RunBuffer lua ring). returned (r.0, record t { run_buf = r.1 }))
          (add command acquired waits text blocking t.run_buf))

  unfoldable pub sync_add_file :
      Cluster
      → Bool
      → List (Buffer → Buffer)
      → Bytes
      → Bool
      → SyncBuffer
      → Operation (Bool × SyncBuffer)
  unfolding check_init
  sync_add_file cluster acquired waits filename blocking s =
      if not s.initialised
      then some (
          returned (
            true,
            early cm_addfile filename blocking
                (codes "WARNING: Can't block on an addFile call prior to initialization!") s,
          ))
      else if cluster.is_local
      then add_local cm_addfile cluster acquired waits filename blocking s
      else some (returned (false, s))

  unfoldable pub sync_add_string :
      Cluster
      → Bool
      → List (Buffer → Buffer)
      → Bytes
      → Bool
      → SyncBuffer
      → Operation (Bool × SyncBuffer)
  unfolding check_init
  sync_add_string cluster acquired waits str blocking s =
      if not s.initialised
      then some (
          returned (
            true,
            early cm_addstring str blocking
                (codes "WARNING: Can't block on an addString call prior to initialization!") s,
          ))
      else if cluster.is_local
      then add_local cm_addstring cluster acquired waits str blocking s
      else some (
          returned (false, warn (codes "WARNING: can't add a string if the buffer isn't local!") s))

  unfoldable pub sync_run_buffer :
      Bindings lua → Cluster → (ℕ → Turn lua ring) → SyncBuffer → Operation (ℕ × SyncBuffer)
  unfolding check_init
  sync_run_buffer luabind cluster turns s = then_do (check_init cluster s) (λ (t : SyncBuffer).
      elim (run_buffer lua ring luabind turns t.run_buf) [
        | thrown e ↦ some (thrown e)
        | returned r ↦ some (returned (r.0, record t { run_buf = r.1 }))
      ])
