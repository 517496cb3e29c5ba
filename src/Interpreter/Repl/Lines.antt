-- ===== src/Interpreter/Repl/Lines.antt =====
-- `loadline` of src/lua.c reads lines until what they make together is no incomplete chunk.
use vr_jugglua.Prelude.{
  ℕ, zero, suc, ◌-◌, ◌<◌, ◌≤◌, ◌≡◌, refl, ap, ◌∙◌, ◌⊎◌, inl, inr, Bool, true, false, ◌&&◌, List, [],
  ◌∷◌, ◌++◌, Option, none, some, Bytes, codes, arith, length, ◌==◌, Bool-cases,
}
use vr_jugglua.Lua.{Api, Laws, Pushed, gettop, top, last}
use vr_jugglua.Interpreter.{Process, with_state}
use vr_jugglua.Interpreter.Repl.{
  Line, no_input, out_of_fuel, loaded, get_prompt, incomplete, message_ends, errsyntax, push_next,
  pushline, line_text, first_text, text_or_empty, join_lines, load_lines, loadline,
}

module _ (lua : Api) where
  open lua use {State, Value, string, stack, loadbuffer}

  -- Whether the text is an incomplete chunk, as a load of it in state `s` says.
  abbrev pub is_incomplete : Bytes → State → Bool
  is_incomplete text s =
      let (status, t) = loadbuffer text (codes "=stdin") s in (incomplete lua status t).0

  -- Reading on from a first text: the lines that were added, each while the text so far was an
  -- incomplete chunk, and the status of the load of the whole text; none for a text that was still
  -- incomplete when the input ended.
  pub data Reads : Bytes → List Bytes → Option ℕ → Type 0 where
    complete :
        {text : Bytes} {status : ℕ} (s : State)
        → stack s ≡ string text ∷ []
        → is_incomplete text s ≡ false
        → status ≡ (loadbuffer text (codes "=stdin") s).0
        → Reads text [] (some status)
    stays_open :
        {text : Bytes} (s : State)
        → stack s ≡ string text ∷ []
        → is_incomplete text s ≡ true
        → Reads text [] none
    more :
        {text line : Bytes} {lines : List Bytes} {r : Option ℕ} (s : State)
        → stack s ≡ string text ∷ []
        → is_incomplete text s ≡ true
        → Reads (text ++ (codes "\n" ++ line_text false line)) lines r
        → Reads text (line ∷ lines) r

  -- How the loop ends, from a text and the input that is left.
  abbrev pub Ends : Bytes → List Bytes → Line → Process lua → Type 0
  Ends text input no_input q = Reads text input none × (q.input ≡ [])
  Ends text input out_of_fuel q = ⊥
  Ends text input (loaded status) q =
      (lines : List Bytes) × (input ≡ lines ++ q.input)
      × Reads text lines (some status)
      × Pushed [] (stack q.state)

module _ (lua : Api) (laws : Laws lua) where
  open lua use {State, Value, string, to_string, stack, push, pop, loadbuffer, concat, insert}

  stack-get_prompt : (b : Bool) (s : State) → stack (get_prompt lua b s).1 ≡ stack s
  unfolding get_prompt
  stack-get_prompt b s = laws.stack-pop 1 _ (_ ∷ []) (stack s) (laws.stack-push _ s) refl

  -- A load pushed `v`; an incomplete chunk's message goes, any other value stays.
  incomplete_cases :
      (status : ℕ) (s : State) (v : Value) (below : List Value)
      → stack s ≡ v ∷ below
      → ((incomplete lua status s).0 ≡ true) × (stack (incomplete lua status s).1 ≡ below)
        ⊎ ((incomplete lua status s).0 ≡ false) × ((incomplete lua status s).1 ≡ s)
  unfolding incomplete
  incomplete_cases status s v below h =
      elim (Bool-cases ((status == errsyntax) && message_ends (to_string (top lua s)))) [
        | inl open_ended ↦ rw open_ended (inl (refl, laws.stack-pop 1 s (v ∷ []) below h refl))
        | inr closed ↦ rw closed (inr (refl, refl))
      ]

  pushline_none :
      (b : Bool) (p : Process lua)
      → p.input ≡ []
      → ((pushline lua b p).0 ≡ false) × ((pushline lua b p).1.input ≡ [])
  unfolding pushline
  pushline_none b p h = rw h (unfold push_next in (refl, refl))

  pushline_some :
      (b : Bool) (p : Process lua) (line : Bytes) (rest : List Bytes)
      → p.input ≡ line ∷ rest
      → ((pushline lua b p).0 ≡ true)
        × (stack (pushline lua b p).1.state ≡ string (line_text b line) ∷ stack p.state)
        × ((pushline lua b p).1.input ≡ rest)
  unfolding pushline
  pushline_some b p line rest h = rw h (
      unfold push_next in
      (
        refl,
        laws.stack-push _ _ ∙ ap (◌∷◌ (string (line_text b line))) (stack-get_prompt b p.state),
        refl,
      ))

  stack-join_lines :
      (s : State) (text line : Bytes)
      → stack s ≡ string line ∷ string text ∷ []
      → stack (join_lines lua s) ≡ string (text ++ (codes "\n" ++ line)) ∷ []
  stack-join_lines s text line h =
      let s' = push (string (codes "\n")) s in
      let pushed : stack s' ≡ string (codes "\n") ∷ string line ∷ string text ∷ [] =
        laws.stack-push _ s ∙ ap (◌∷◌ (string (codes "\n"))) h in
      laws.stack-concat _ text (codes "\n") line [] (
        laws.stack-insert (gettop lua s' - 1) s' (string (codes "\n")) (string line ∷ [])
          (string text ∷ []) pushed (omega (arith, ap length pushed)))

  first_text_lem : (s : State) (text : Bytes) → stack s ≡ string text ∷ [] → first_text lua s ≡ text
  first_text_lem s text h =
      ap text_or_empty (ap to_string (ap (last lua.nil) h) ∙ laws.to_string-string text)

  -- A text that is complete ends the loop.
  complete_Ends :
      (fuel : ℕ) (p : Process lua) (text : Bytes) (v : Value)
      → stack p.state ≡ string text ∷ []
      → (let load = loadbuffer text (codes "=stdin") p.state in
          (stack load.1 ≡ v ∷ string text ∷ [])
          × ((incomplete lua load.0 load.1).0 ≡ false)
          × ((incomplete lua load.0 load.1).1 ≡ load.1))
      → Ends lua text p.input (load_lines lua (suc fuel) p).0 (load_lines lua (suc fuel) p).1
  unfolding load_lines
  complete_Ends fuel p text v h (pushed, closed, same) =
      rw (first_text_lem p.state text h, closed, same)
        (
          [],
          refl,
          complete p.state h closed refl,
          (v, laws.stack-remove 1 _ (string text) (v ∷ []) [] pushed refl),
        )

  load_lines_more :
      (fuel : ℕ) (p : Process lua) (text : Bytes)
      → stack p.state ≡ string text ∷ []
      → (let load = loadbuffer text (codes "=stdin") p.state in
          let (more_lines, q) =
            pushline lua false (with_state lua (incomplete lua load.0 load.1).1 p) in
          ((incomplete lua load.0 load.1).0 ≡ true)
          → more_lines ≡ true
          → load_lines lua (suc fuel) p
            ≡ load_lines lua fuel (with_state lua (join_lines lua q.state) q))
  unfolding load_lines
  load_lines_more fuel p text h open_ended next =
      rw (first_text_lem p.state text h, open_ended, next)

  more_Ends :
      (text line : Bytes) (input : List Bytes) (s : State)
      → stack s ≡ string text ∷ []
      → is_incomplete lua text s ≡ true
      → (r : Line) (q : Process lua)
      → Ends lua (text ++ (codes "\n" ++ line_text false line)) input r q
      → Ends lua text (line ∷ input) r q
  more_Ends text line input s h o no_input q (reads, gone) = (more s h o reads, gone)
  more_Ends text line input s h o out_of_fuel q e = e
  more_Ends text line input s h o (loaded status) q (lines, splits, reads, pushed) =
      (line ∷ lines, ap (◌∷◌ line) splits, more s h o reads, pushed)

  load_lines-Ends :
      (input : List Bytes) (fuel : ℕ) (p : Process lua) (text : Bytes)
      → p.input ≡ input
      → stack p.state ≡ string text ∷ []
      → length input < fuel
      → Ends lua text input (load_lines lua fuel p).0 (load_lines lua fuel p).1
  load_lines-Ends input zero p text e h lt = absurd (omega arith)
  load_lines-Ends [] (suc fuel) p text e h lt =
      let load = loadbuffer text (codes "=stdin") p.state in
      let (v, got) = laws.stack-loadbuffer text (codes "=stdin") p.state in
      let pushed = got ∙ ap (◌∷◌ v) h in
      elim (incomplete_cases load.0 load.1 v (string text ∷ []) pushed) [
        | inl (open_ended, popped) ↦
            let t = (incomplete lua load.0 load.1).1 in
            let (ended, gone) = pushline_none false (with_state lua t p) e in
            unfold load_lines in
            rw (first_text_lem p.state text h, open_ended, ended)
              (stays_open p.state h open_ended, gone)
        | inr (closed, same) ↦ rw (← e) (complete_Ends fuel p text v h (pushed, closed, same))
      ]
  load_lines-Ends (line ∷ input) (suc fuel) p text e h lt =
      let load = loadbuffer text (codes "=stdin") p.state in
      let (v, got) = laws.stack-loadbuffer text (codes "=stdin") p.state in
      let pushed = got ∙ ap (◌∷◌ v) h in
      elim (incomplete_cases load.0 load.1 v (string text ∷ []) pushed) [
        | inl (open_ended, popped) ↦
            let q = with_state lua (incomplete lua load.0 load.1).1 p in
            let (next, laid, rest) = pushline_some false q line input e in
            let r = (pushline lua false q).1 in
            let joined =
              stack-join_lines r.state text (line_text false line)
                (laid ∙ ap (◌∷◌ (string (line_text false line))) popped) in
            let later =
              load_lines-Ends input fuel (with_state lua (join_lines lua r.state) r)
                (text ++ (codes "\n" ++ line_text false line)) rest joined (omega arith) in
            rw (load_lines_more fuel p text h open_ended next)
              (more_Ends text line input p.state h open_ended _ _ later)
        | inr (closed, same) ↦ rw (← e) (complete_Ends fuel p text v h (pushed, closed, same))
      ]

  -- With no line left `loadline` returns -1. Otherwise the first line is read, and then as many lines
  -- as it takes: each is joined on by a newline while the text so far is an incomplete chunk. What
  -- is returned is the status of the load of the whole text, whose function or message is alone on
  -- the stack, and the input goes on behind those lines; or -1 for a text that is still incomplete at
  -- the end of the input. The fuel is enough when it is the number of lines.
  pub loadline_lem :
      (fuel : ℕ) (p : Process lua) (line : Bytes) (rest : List Bytes)
      → p.input ≡ line ∷ rest
      → length p.input ≤ fuel
      → let (r, q) = loadline lua fuel p in Ends lua (line_text true line) rest r q
  unfolding loadline
  loadline_lem fuel p line rest e le =
      let (next, laid, left) =
        pushline_some true (with_state lua (lua.clear p.state) p) line rest e in
      let q = (pushline lua true (with_state lua (lua.clear p.state) p)).1 in
      rw next (
        load_lines-Ends rest fuel q (line_text true line) left
          (laid ∙ ap (◌∷◌ (string (line_text true line))) (laws.stack-clear p.state))
          (omega (arith, ap length e)))

  pub loadline_none :
      (fuel : ℕ) (p : Process lua)
      → p.input ≡ []
      → ((loadline lua fuel p).0 ≡ no_input) × ((loadline lua fuel p).1.input ≡ [])
  unfolding loadline
  loadline_none fuel p e =
      let (ended, left) = pushline_none true (with_state lua (lua.clear p.state) p) e in
      rw ended (refl, left)
