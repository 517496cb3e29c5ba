-- ===== src/RunBuffer.antt =====
-- `LuaRunBuffer` of vrjugglua/LuaRunBuffer.cpp: chunks that threads add and the application runs once
-- a frame, and that a cluster's nodes share.
pub mod Adding
pub mod Capacity
pub mod Chunks
pub mod Cluster
pub mod Running
pub mod Sharing
use vr_jugglua.Prelude.{
  ℕ, zero, suc, ◌+◌, Bool, true, false, not, ◌&&◌, ◌||◌, List, [], ◌∷◌, ◌++◌, Option, none, some,
  Bytes, codes, ◌==◌, if◌then◌else◌, get_or,
}
use mathlib.Core.Option
use vr_jugglua.Lua.{Api}
use vr_jugglua.CircularBuffer.{CircularBuffer, size, full}
use vr_jugglua.ObjectStream.{ObjectStream}
use vr_jugglua.ScriptHost.{
  Script, Bindings, Exception, Result, returned, thrown, is_valid, run_string,
}

module _ (lua : Api) (ring : CircularBuffer) where
  open ring use {Buffer, with_capacity, contents, push_back, pop_front, clear}

  -- `_script`, `_buf`, `_maxRun`, `_runBlock`.
  pub record RunBuffer : Type 0 where
    pub script : Script lua
    pub buf : Buffer
    pub max_run : ℕ
    pub run_block : Bool

  -- `LuaRunBuffer(capacity, runBlocks)`, with a script that has no state.
  unfoldable pub new_run_buffer : ℕ → Bool → Script lua → RunBuffer
  new_run_buffer capacity run_blocks globals = record {
    script = record globals { state = none };
    buf = with_capacity capacity;
    max_run = capacity;
    run_block = run_blocks;
  }

  unfoldable pub init_lua : Option lua.State → RunBuffer → RunBuffer
  init_lua state b = record b { script = record b.script { state = state } }

  -- The waits of `while (_full()) _cond.wait()`: what the other threads do to the buffer while the
  -- lock is given up, wait by wait; none for a thread that still waits behind them.
  unfoldable pub wait_for_space : List (Buffer → Buffer) → Buffer → Option Buffer
  wait_for_space [] buf = if full ring buf then none else some buf
  wait_for_space (others ∷ waits) buf =
      let later = wait_for_space waits (others buf) in if full ring buf then later else some buf

  abbrev pub with_buf : Buffer → RunBuffer → RunBuffer
  with_buf buf b = record b { buf = buf }

  -- `acquired` is what an attempt to take the lock gives; one that blocks always gets it.
  unfoldable pub add_string :
      Bool → List (Buffer → Buffer) → Bytes → Bool → RunBuffer → Option (Bool × RunBuffer)
  unfolding wait_for_space
  add_string acquired waits str blocking b =
      if not (is_valid lua b.script)
      then some (false, b)
      else if not (blocking || acquired)
      then some (false, b)
      else if blocking
      then Option.map (λ (buf : Buffer). (true, with_buf (push_back str buf) b))
          (wait_for_space waits b.buf)
      else if full ring b.buf
      then some (false, b)
      else some (true, with_buf (push_back str b.buf) b)

  abbrev pub file_chunk : Bytes → Bytes
  file_chunk filename = codes "dofile([==[" ++ (filename ++ codes "]==])")

  unfoldable pub add_file :
      Bool → List (Buffer → Buffer) → Bytes → Bool → RunBuffer → Option (Bool × RunBuffer)
  unfolding add_string
  add_file acquired waits filename blocking b =
      if not (is_valid lua b.script)
      then some (false, b)
      else add_string acquired waits (file_chunk filename) blocking b

  -- What happens around one round of `runBuffer`: the chunks that other threads push while it is
  -- not locked, as far as there is space, and what an attempt to take the lock gives.
  pub record Turn : Type 0 where
    pub added : List Bytes
    pub acquired : Bool

  unfoldable pub push_all : List Bytes → Buffer → Buffer
  push_all [] buf = buf
  push_all (x ∷ xs) buf = push_all xs (if full ring buf then buf else push_back x buf)

  -- The loop, with `n - i` rounds left; an exception ends it.
  unfoldable pub run_rounds : Bindings lua → (ℕ → Turn) → ℕ → ℕ → RunBuffer → Result (ℕ × RunBuffer)
  unfolding push_all
  run_rounds luabind turns zero count b = returned (count, b)
  run_rounds luabind turns (suc rounds) count b =
      let turn = turns rounds in
      let buf = push_all turn.added b.buf in
      let ran = run_string lua luabind (get_or (contents buf) 0 []) false b.script in
      let next = λ (done : ℕ) (script : Script lua).
        run_rounds luabind turns rounds done (record b { buf = pop_front buf; script = script }) in
      if size ring b.buf == 0
      then returned (count, b)
      else if not (b.run_block || turn.acquired)
      then returned (count, with_buf buf b)
      else elim ran [
        | thrown e ↦ thrown e
        | returned r ↦ next (if r.0 then count + 1 else count) r.1
      ]

  -- The first round is `turns (n - 1)`. `_maxRun` is not read here, nor anywhere but where it is written.
  unfoldable pub run_buffer : Bindings lua → (ℕ → Turn) → RunBuffer → Result (ℕ × RunBuffer)
  unfolding run_rounds
  run_buffer luabind turns b =
      if not (is_valid lua b.script)
      then returned (0, b)
      else if size ring b.buf == 0
      then returned (0, b)
      else run_rounds luabind turns (size ring b.buf) 0 b

  module _ (stream : ObjectStream) where
    open stream use {Writer, Reader, write_uint32, write_string, read_uint32, read_string}

    unfoldable pub write_strings : List Bytes → Writer → Writer
    write_strings [] w = w
    write_strings (x ∷ xs) w = write_strings xs (write_string x w)

    unfoldable pub write_object : RunBuffer → Writer → Writer × RunBuffer
    unfolding write_strings
    write_object b w =
        let n = size ring b.buf in
        (write_strings (contents b.buf) (write_uint32 n w), record b { max_run = n })

    unfoldable pub read_strings : ℕ → Buffer → Reader → Buffer × Reader
    read_strings zero buf r = (buf, r)
    read_strings (suc n) buf r = let (s, r') = read_string r in read_strings n (push_back s buf) r'

    -- With it, whether the warning that the sizes do not match is given.
    unfoldable pub read_object : RunBuffer → Reader → (Bool × RunBuffer) × Reader
    unfolding read_strings
    read_object b r =
        let (n, r') = read_uint32 r in
        let (buf, r'') = read_strings n (clear b.buf) r' in
        ((not (size ring buf == n), record b { buf = buf; max_run = n }), r'')
