-- ===== src/Interpreter/Calls.antt =====
-- What `docall`, `report` and the chunk runners of src/lua.c do with the Lua stack.
use vr_jugglua.Prelude.{
  ℕ, ◌-◌, ◌≡◌, refl, sym, ap, ◌∙◌, ◌≢◌, ◌⊎◌, inl, inr, Bool, true, false, not, List, [], ◌∷◌, ◌++◌,
  Option, none, some, Bytes, codes, arith, length, length-append, ◌==◌, if◌then◌else◌, Bool-cases,
}
use mathlib.Core.List.{append_assoc}
use vr_jugglua.Lua.{Api, Laws, gettop, top, first, Returned}
use vr_jugglua.Interpreter.{
  Process, standard, laction_handler, report, before_call, docall, error_text, l_message,
}

-- A line of stderr: the program's name, where it is set, and the message.
abbrev pub message_line : Option Bytes → Bytes → Bytes
message_line none msg = msg ++ codes "\n"
message_line (some name) msg = name ++ (codes ": " ++ (msg ++ codes "\n"))

module _ (lua : Api) where
  open lua use {Value, stack, is_nil}

  -- SIGINT has its standard action; nothing was printed or read.
  abbrev pub Restored : Process lua → Process lua → Type 0
  Restored p q =
      (q.sigint ≡ standard)
      × (q.progname ≡ p.progname)
      × (q.stderr ≡ p.stderr)
      × (q.input ≡ p.input)

  -- An error value that is not nil is taken from the stack and its text printed; nil stays, silently.
  abbrev pub ErrorShown : Process lua → Value → List Value → Process lua → Type 0
  ErrorShown p v below q =
      ((is_nil v ≡ false)
        × (stack q.state ≡ below)
        × (q.stderr ≡ p.stderr ++ (message_line p.progname (error_text lua v) ∷ [])))
      ⊎ ((is_nil v ≡ true) × (stack q.state ≡ v ∷ below) × (q.stderr ≡ p.stderr))

module _ (lua : Api) (laws : Laws lua) where
  open lua use {State, Value, stack, push, pcall, traceback_function, to_string, is_nil}

  -- The protected call of `docall` finds the function and its arguments on top of the stack as they
  -- were given, `traceback` right below at the index passed as the error function, and SIGINT caught.
  pub before_call_lem :
      (p : Process lua) (args : List Value) (f : Value) (below : List Value)
      → stack p.state ≡ args ++ (f ∷ below)
      → (stack (before_call lua (length args) p).state ≡ args ++ (f ∷ traceback_function ∷ below))
        × (gettop lua p.state - length args ≡ length (traceback_function ∷ below))
        × ((before_call lua (length args) p).sigint ≡ laction_handler)
  unfolding before_call
  before_call_lem p args f below h =
      let base : gettop lua p.state - length args ≡ length (traceback_function ∷ below) =
        omega (arith, ap length h, length-append args (f ∷ below)) in
      let pushed =
        laws.stack-push traceback_function p.state
        ∙ ap (◌∷◌ traceback_function) (h ∙ sym (append_assoc args (f ∷ []) below)) in
      (
        laws.stack-insert _ _ traceback_function (args ++ (f ∷ [])) below pushed
              (omega (arith, base))
            ∙ append_assoc args (f ∷ []) (traceback_function ∷ below),
        base,
        refl,
      )

  docall_restores :
      (p : Process lua) (n : ℕ) (clear : Bool) → Restored lua p (docall lua n clear p).1
  unfolding docall
  docall_restores p n clear = (refl, refl, refl, refl)

  stack-if_collect : (b : Bool) (s : State) → stack (if b then lua.collect s else s) ≡ stack s
  stack-if_collect true s = laws.stack-collect s
  stack-if_collect false s = refl

  -- The removal of `traceback` takes it from under the results or the error.
  removed_Returned :
      (r : Option ℕ) (status i : ℕ) (s : State) (below : List Value)
      → i ≡ length (traceback_function ∷ below)
      → Returned r (traceback_function ∷ below) status (stack s)
      → Returned r below status
          (stack (if not (status == 0) then lua.collect (lua.remove i s) else lua.remove i s))
  removed_Returned r status i s below h (inl (results, zero, e, fits)) = inl (
    results,
    zero,
    rw zero (laws.stack-remove i s traceback_function results below e (omega (arith, h))),
    fits,
  )
  removed_Returned r status i s below h (inr (v, ne, e)) = inr (
    v,
    ne,
    stack-if_collect _ _
        ∙ laws.stack-remove i s traceback_function (v ∷ []) below e (omega (arith, h)),
  )

  -- `docall` consumes the function and its arguments. It leaves status 0 and the results (none where
  -- they are to be cleared), or another status and one error value; what lay below is as it was, the
  -- error function is gone, and SIGINT has its standard action again. Nothing is printed or read.
  pub docall_lem :
      (p : Process lua) (args : List Value) (f : Value) (below : List Value) (clear : Bool)
      → stack p.state ≡ args ++ (f ∷ below)
      → let (status, q) = docall lua (length args) clear p in
        Returned (if clear then some 0 else none) below status (stack q.state) × Restored lua p q
  unfolding docall
  docall_lem p args f below clear h =
      let (laid, base, _) = before_call_lem p args f below h in
      let called =
        laws.stack-pcall (length args) (if clear then some 0 else none)
          (gettop lua p.state - length args) (before_call lua (length args) p).state args f
          (traceback_function ∷ below) laid refl in
      (removed_Returned _ _ _ _ below base called, docall_restores p (length args) clear)

  printed :
      (p : Process lua) (msg : Bytes)
      → (l_message lua p.progname msg p).stderr ≡ p.stderr ++ (message_line p.progname msg ∷ [])
  unfolding l_message
  printed p msg = go p.progname
    where
      go :
          (name : Option Bytes)
          → (l_message lua name msg p).stderr ≡ p.stderr ++ (message_line name msg ∷ [])
      go none = refl
      go (some n) = refl

  pub report_error :
      (status : ℕ) (p : Process lua) (v : Value) (below : List Value)
      → status ≢ 0
      → stack p.state ≡ v ∷ below
      → ((report lua status p).0 ≡ status) × ErrorShown lua p v below (report lua status p).1
  unfolding report
  report_error status p v below ne h =
      let t : top lua p.state ≡ v = ap (first lua.nil) h in
      elim (Bool-cases (is_nil v)) [
        | inl nil ↦ (ground arith, inr (nil, ground (arith, t, h), ground (arith, t)))
        | inr not_nil ↦ (
          ground arith,
          inl (
            not_nil,
            ground (arith, t, laws.stack-pop 1 p.state (v ∷ []) below h refl),
            ground (arith, t, printed p (error_text lua v)),
          ),
        )
      ]

  pub report_success : (p : Process lua) → report lua 0 p ≡ (0, p)
  unfolding report
  report_success p = refl
