-- ===== src/Interpreter/Chunks.antt =====
-- `dofile`, `dostring` and `dolibrary` of src/lua.c: what a chunk that is loaded and run leaves.
use vr_jugglua.Prelude.{ℕ, ◌≡◌, ◌∙◌, ◌≢◌, ◌⊎◌, inl, inr, List}
use vr_jugglua.Lua.{Api, Laws}
use vr_jugglua.Interpreter.{Process}
use vr_jugglua.Interpreter.Calls.{ErrorShown, Restored}

module _ (lua : Api) where
  open lua use {Value, stack}

  -- A run from process `p` to `q` with result `r`: success leaves the stack and stderr as they were,
  -- and a failure shows one error value.
  abbrev pub Ran : Process lua → List Value → ℕ → Process lua → Type 0
  Ran p below r q =
      ((r ≡ 0) × (stack q.state ≡ below) × (q.stderr ≡ p.stderr))
      ⊎ ((v : Value) × (r ≢ 0) × ErrorShown lua p v below q)

module _ (lua : Api) (laws : Laws lua) where
  open lua use {State, Value, stack, push, string, global}

  pub shown_Restored :
      (p q r : Process lua) (v : Value) (below : List Value)
      → Restored lua p q
      → ErrorShown lua q v below r
      → ErrorShown lua p v below r
  shown_Restored p q r v below (_, name, err, _) (inl (a, b, c)) = inl (a, b, rw (← name, ← err) c)
  shown_Restored p q r v below (_, name, err, _) (inr (a, b, c)) = inr (a, b, c ∙ err)
