-- ===== src/CommandLine.antt =====
-- The option scanner `collectargs` of src/lua.c and the walk of `runargs` over what it accepted.
pub mod Grammar
use vr_jugglua.Prelude.{
  ℕ, ◌+◌, Bool, true, false, not, List, [], ◌∷◌, Option, none, some, Bytes, char_at, drop, ◌==◌,
  ltb, if◌then◌else◌,
}

-- `has_i`, `has_v` and `has_e` of `pmain`.
pub record Flags : Type 0 where
  pub has_i : Bool
  pub has_v : Bool
  pub has_e : Bool

abbrev pub no_flags : Flags
no_flags = record { has_i = false; has_v = false; has_e = false }

-- What one round of the scan does: return (`none` is -1), go on with the next argument, or go on
-- with the one after the next, which has to be there.
pub data Round : Type 0 where
  result : Option ℕ → Round
  proceed : Flags → Round
  skip_next : Flags → Round

-- `case 'l'`, where `case 'e'` also ends
after_word : Bytes → Flags → Round
after_word a f = if char_at a 2 == 0 then skip_next f else proceed f

-- `notail`, then the rest of the case
no_tail : Bytes → Round → Round
no_tail a r = if not (char_at a 2 == 0) then result none else r

-- One round at `argv[i] = a`, with what `case '-'` returns for it.
unfoldable pub round : ℕ → Bytes → ℕ → Flags → Round
unfolding after_word no_tail
round i a rest f =
    if not (char_at a 0 == b'-')
    then result (some i)
    else if char_at a 1 == b'-'
    then no_tail a (result (some rest))
    else if char_at a 1 == 0
    then result (some i)
    else if char_at a 1 == b'i'
    then no_tail a (proceed (record f { has_i = true; has_v = true }))
    else if char_at a 1 == b'v'
    then no_tail a (proceed (record f { has_v = true }))
    else if char_at a 1 == b'e'
    then after_word a (record f { has_e = true })
    else if char_at a 1 == b'l'
    then after_word a f
    else result none

-- The loop, at index `i`, over what is left of `argv`.
unfoldable pub collect : ℕ → List Bytes → Flags → Option ℕ × Flags
collect i [] f = (some 0, f)
collect i (a ∷ []) f = elim (round i a 0 f) [
  | result r ↦ (r, f)
  | proceed g ↦ (some 0, g)
  | skip_next g ↦ (none, g)
]
collect i (a ∷ b ∷ rest) f = elim (round i a (i + 1) f) [
  | result r ↦ (r, f)
  | proceed g ↦ collect (i + 1) (b ∷ rest) g
  | skip_next g ↦ collect (i + 2) rest g
]

-- `collectargs(argv, …)`; the first argument is the program's name.
unfoldable pub collectargs : List Bytes → Option ℕ × Flags
unfolding collect
collectargs argv = collect 1 (drop 1 argv) no_flags

-- What `runargs` makes of an argument: the chunk or library name in its tail, or in the next one.
pub data Request : Type 0 where
  chunk : Bytes → Request
  chunk_next : Request
  library : Bytes → Request
  library_next : Request
  nothing : Request

unfoldable pub request : Bytes → Request
request a =
    if char_at a 1 == b'e'
    then (elim (drop 2 a) [ [] ↦ chunk_next | c ∷ cs ↦ chunk (c ∷ cs) ])
    else if char_at a 1 == b'l'
    then (elim (drop 2 a) [ [] ↦ library_next | c ∷ cs ↦ library (c ∷ cs) ])
    else nothing

-- A call that must succeed for the loop to go on: `return 1` otherwise.
unfoldable pub continue_if_zero {ℓ} : {S : Type ℓ} → ℕ × S → (S → Option (ℕ × S)) → Option (ℕ × S)
continue_if_zero (status, s) rest = elim (status == 0) [ true ↦ rest s | false ↦ some (1, s) ]

module _ {ℓ} {S : Type ℓ} (dostring dolibrary : Bytes → S → ℕ × S) where
  -- The loop at index `i`; `none` is a failed `lua_assert`.
  unfoldable pub run_from : ℕ → ℕ → List Bytes → S → Option (ℕ × S)
  unfolding request continue_if_zero
  run_from i n [] s = some (0, s)
  run_from i n (a ∷ []) s =
      if not (ltb i n)
      then some (0, s)
      else if not (char_at a 0 == b'-')
      then none
      else elim (request a) [
        | chunk c ↦ continue_if_zero (dostring c s) (λ t. some (0, t))
        | chunk_next ↦ none
        | library l ↦ continue_if_zero (dolibrary l s) (λ t. some (0, t))
        | library_next ↦ none
        | nothing ↦ some (0, s)
      ]
  run_from i n (a ∷ b ∷ rest) s =
      let next = run_from (i + 1) n (b ∷ rest) in
      let after_next = run_from (i + 2) n rest in
      if not (ltb i n)
      then some (0, s)
      else if not (char_at a 0 == b'-')
      then none
      else elim (request a) [
        | chunk c ↦ continue_if_zero (dostring c s) next
        | chunk_next ↦ continue_if_zero (dostring b s) after_next
        | library l ↦ continue_if_zero (dolibrary l s) next
        | library_next ↦ continue_if_zero (dolibrary b s) after_next
        | nothing ↦ next s
      ]

  -- `runargs(L, argv, n)`
  unfoldable pub runargs : List Bytes → ℕ → S → Option (ℕ × S)
  unfolding run_from
  runargs argv n s = run_from 1 n (drop 1 argv) s
