-- ===== src/Interpreter/Script/Arguments.antt =====
-- What `getargs` leaves: the script's arguments on the stack, and the table `arg` above them.
use mathlib.Core.List.{reverse-cons, map-append, append_assoc}
use vr_jugglua.Prelude.{
  ℕ, zero, suc, ◌+◌, ◌-◌, ◌<◌, ◌≡◌, refl, ap, ◌∙◌, List, [], ◌∷◌, ◌++◌, map, reverse, some, Bytes,
  arith, subst, length, length-drop, length-map, length-reverse, drop, get_elem?, ◌==◌,
  if◌then◌else◌,
}
use vr_jugglua.Prelude.Int.{sub_ℕ, eqb-sub_ℕ}
use vr_jugglua.Lua.{Api, Laws}
use vr_jugglua.Interpreter.Script.{push_all, store_all, getargs}

module _ (lua : Api) where
  open lua use {State, Value, string, stack, element}

  -- The arguments as they lie on the stack, the last on top.
  abbrev pub argument_values : List Bytes → List Value
  argument_values args = map string (reverse args)

  -- In the table `t`, the argument at index `i` of `argv` stands under `i - n`.
  abbrev pub HasArguments : State → Value → ℕ → List Bytes → Type 0
  HasArguments s t n argv =
      (i : ℕ) (a : Bytes) → get_elem? argv i ≡ some a → element s t (sub_ℕ i n) ≡ string a

module _ (lua : Api) (laws : Laws lua) where
  open lua use {State, Value, string, push, stack, element, rawseti, createtable}

  stack-push_all :
      (args : List Bytes) (s : State)
      → stack (push_all lua args s) ≡ argument_values lua args ++ stack s
  unfolding push_all
  stack-push_all [] s = refl
  stack-push_all (a ∷ rest) s =
      stack-push_all rest (push (string a) s)
      ∙ rw (laws.stack-push, reverse-cons a rest, map-append, append_assoc)

  stack-store_all :
      (n i : ℕ) (args : List Bytes) (s : State) (t : Value) (below : List Value)
      → stack s ≡ t ∷ below
      → stack (store_all lua n i args s) ≡ t ∷ below
  unfolding store_all
  stack-store_all n i [] s t below h = h
  stack-store_all n i (a ∷ rest) s t below h =
      stack-store_all n (i + 1) rest _ t below
        (laws.stack-rawseti _ _ (string a) t below (laws.stack-push _ _ ∙ ap (◌∷◌ (string a)) h))

  -- One round writes its own key and no other.
  element_round :
      (n i k : ℕ) (a : Bytes) (s : State) (t : Value) (below : List Value)
      → stack s ≡ t ∷ below
      → element (rawseti (sub_ℕ i n) (push (string a) s)) t (sub_ℕ k n)
        ≡ (if k == i then string a else element s t (sub_ℕ k n))
  element_round n i k a s t below h =
      laws.element-rawseti _ _ (string a) t below (laws.stack-push _ _ ∙ ap (◌∷◌ (string a)) h)
        (sub_ℕ k n)
      ∙ rw (eqb-sub_ℕ k i n, laws.element-push (string a) t s (sub_ℕ k n))

  element-store_all_before :
      (n i k : ℕ) (args : List Bytes) (s : State) (t : Value) (below : List Value)
      → stack s ≡ t ∷ below
      → k < i
      → element (store_all lua n i args s) t (sub_ℕ k n) ≡ element s t (sub_ℕ k n)
  unfolding store_all
  element-store_all_before n i k [] s t below h lt = refl
  element-store_all_before n i k (a ∷ rest) s t below h lt =
      let s' = rawseti (sub_ℕ i n) (push (string a) s) in
      element-store_all_before n (i + 1) k rest s' t below
        (stack-store_all n i (a ∷ []) s t below h) (omega arith)
      ∙ element_round n i k a s t below h
      ∙ ground arith

  element-store_all :
      (n i j : ℕ) (args : List Bytes) (a : Bytes) (s : State) (t : Value) (below : List Value)
      → stack s ≡ t ∷ below
      → get_elem? args j ≡ some a
      → element (store_all lua n i args s) t (sub_ℕ (i + j) n) ≡ string a
  unfolding store_all
  element-store_all n i j [] a s t below h e = cc
  element-store_all n i zero (b ∷ rest) a s t below h e =
      let s' = rawseti (sub_ℕ i n) (push (string b) s) in
      let stored =
        element-store_all_before n (i + 1) i rest s' t below
          (stack-store_all n i (b ∷ []) s t below h) (omega arith)
        ∙ element_round n i i b s t below h in
      subst (λ k. element (store_all lua n (i + 1) rest s') t (sub_ℕ k n) ≡ string a) {x = i}
        (omega arith) (stored ∙ ground arith)
  element-store_all n i (suc j) (b ∷ rest) a s t below h e =
      let s' = rawseti (sub_ℕ i n) (push (string b) s) in
      subst (λ k. element (store_all lua n (i + 1) rest s') t (sub_ℕ k n) ≡ string a)
        {x = i + 1 + j} (omega arith)
        (element-store_all n (i + 1) j rest a s' t below (stack-store_all n i (b ∷ []) s t below h)
          e)

  -- `getargs` returns the number of arguments behind the script, pushes them in order, and on top of
  -- them a table that holds every argument of the command line under its index less the script's.
  pub getargs_lem :
      (argv : List Bytes) (n : ℕ) (s : State)
      → let (narg, s') = getargs lua argv n s in
        (narg ≡ length (argument_values lua (drop (n + 1) argv)))
        × ((t : Value) × (stack s' ≡ t ∷ (argument_values lua (drop (n + 1) argv) ++ stack s))
            × HasArguments lua s' t n argv)
  unfolding getargs
  getargs_lem argv n s =
      let args = drop (n + 1) argv in
      let s1 = push_all lua args (lua.checkstack (length argv - (n + 1) + 3) s) in
      let (t, made) = laws.stack-createtable (length argv - (n + 1)) (n + 1) s1 in
      let below =
        stack-push_all args _ ∙ ap (◌++◌ (argument_values lua args)) (laws.stack-checkstack _ s) in
      let s2 = createtable (length argv - (n + 1)) (n + 1) s1 in
      let laid = made ∙ ap (◌∷◌ t) below in
      (
        omega (
          arith,
          length-drop (n + 1) argv,
          length-map (reverse args) string,
          length-reverse args,
        ),
        (
          t,
          stack-store_all n 0 argv _ t _ laid,
          λ i a e.
              subst (λ k. element (store_all lua n 0 argv s2) t (sub_ℕ k n) ≡ string a) {x = 0 + i}
                (omega arith) (element-store_all n 0 i argv a _ t _ laid e),
        ),
      )
