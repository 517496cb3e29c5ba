-- ===== src/ErrorPosition/Reading.antt =====
-- The messages of `add_file_and_line` of vrjugglua/VRJLua_C_Interface.cpp can be read back.
use vr_jugglua.Prelude.{
  ℕ, ◌≡◌, refl, ap, ◌∙◌, Bool, true, false, ◌||◌, ◌==◌, if◌then◌else◌, List, [], ◌∷◌, ◌++◌, Option,
  none, some, Bytes, codes,
}
use mathlib.Core.List.{append_assoc}
use vr_jugglua.Lua.{Api, Laws, top, first}
use vr_jugglua.ErrorPosition.{DebugInfo, position, add_file_and_line}

-- What is before the first character of a kind, and the rest with that character.
abbrev break_at : (ℕ → Bool) → Bytes → Bytes × Bytes
break_at stops [] = ([], [])
break_at stops (c ∷ cs) =
    let r = break_at stops cs in if stops c then ([], c ∷ cs) else (c ∷ r.0, r.1)

abbrev Lacks : (ℕ → Bool) → Bytes → Type 0
Lacks stops [] = Unit
Lacks stops (c ∷ cs) = (stops c ≡ false) × Lacks stops cs

break_at-append :
    (stops : ℕ → Bool) (xs : Bytes) (c : ℕ) (ys : Bytes)
    → stops c ≡ true
    → Lacks stops xs
    → break_at stops (xs ++ (c ∷ ys)) ≡ (xs, c ∷ ys)
break_at-append stops [] c ys h lacks = rw h refl
break_at-append stops (x ∷ xs) c ys h (other, lacks) =
    rw (other, break_at-append stops xs c ys h lacks) refl

abbrev is_colon : ℕ → Bool
is_colon c = c == b':'

abbrev is_space : ℕ → Bool
is_space c = c == b' '

abbrev is_open : ℕ → Bool
is_open c = c == b'('

abbrev is_close : ℕ → Bool
is_close c = c == b')'

abbrev opens_or_space : ℕ → Bool
opens_or_space c = is_open c || is_space c

-- A file, a line, how a function was found and its name, and the text of the error.
record Reading : Type 0 where
  pub file : Bytes
  pub line : Bytes
  pub function : Option (Bytes × Bytes)
  pub error : Bytes

abbrev rest_of : Bytes → Bytes
rest_of [] = []
rest_of (c ∷ cs) = cs

abbrev starts_open : Bytes → Bool
starts_open [] = false
starts_open (c ∷ cs) = is_open c

-- The file up to the first colon, the line up to a parenthesis or a space, what stands in parentheses
-- there, if anything does, and behind a space the error.
abbrev read_message : Bytes → Reading
read_message msg =
    let (file, a) = break_at is_colon msg in
    let (line, b) = break_at opens_or_space (rest_of a) in
    let (what, c) = break_at is_space (rest_of b) in
    let (name, e) = break_at is_close (rest_of c) in
    if starts_open b
    then record {
      file = file;
      line = line;
      function = some (what, name);
      error = rest_of (rest_of e);
    }
    else record { file = file; line = line; function = none; error = rest_of b }

abbrev function_of : DebugInfo → Option (Bytes × Bytes)
function_of d = elim d.name [ none ↦ none | some name ↦ some (d.name_what, name) ]

abbrev IsNameReadable : DebugInfo → Option Bytes → Type 0
IsNameReadable d none = Unit
IsNameReadable d (some name) = Lacks is_space d.name_what × Lacks is_close name

-- No colon stands in the name of the file, no opening parenthesis and no space in the line, and the
-- words for the function are told apart.
abbrev IsReadable : DebugInfo → Type 0
IsReadable d =
    Lacks is_colon d.short_src × Lacks opens_or_space d.current_line × IsNameReadable d d.name

arranged :
    (file line more text : Bytes)
    → (file ++ (codes ":" ++ (line ++ more))) ++ text ≡ file ++ (b':' ∷ (line ++ (more ++ text)))
arranged file line more text =
    append_assoc file (codes ":" ++ (line ++ more)) text
    ∙ ap (λ (l : Bytes). file ++ (b':' ∷ l)) (append_assoc line more text)

arranged_function :
    (what name text : Bytes)
    → (codes "(" ++ (what ++ (codes " " ++ (name ++ codes ")")))) ++ text
      ≡ b'(' ∷ (what ++ (b' ' ∷ (name ++ (b')' ∷ text))))
arranged_function what name text = ap (◌∷◌ b'(') (
    append_assoc what (codes " " ++ (name ++ codes ")")) text
    ∙ ap (λ (l : Bytes). what ++ (b' ' ∷ l)) (append_assoc name (codes ")") text))

read_plain :
    (file line err : Bytes)
    → Lacks is_colon file
    → Lacks opens_or_space line
    → read_message (file ++ (b':' ∷ (line ++ (b' ' ∷ err))))
      ≡ record { file = file; line = line; function = none; error = err }
read_plain file line err f l =
    rw
      (
        read_message,
        break_at-append is_colon file b':' (line ++ (b' ' ∷ err)) refl f,
        break_at-append opens_or_space line b' ' err refl l,
      )
      refl

read_called :
    (file line what name err : Bytes)
    → Lacks is_colon file
    → Lacks opens_or_space line
    → Lacks is_space what
    → Lacks is_close name
    → read_message
        (file ++ (b':' ∷ (line ++ (b'(' ∷ (what ++ (b' ' ∷ (name ++ (b')' ∷ (b' ' ∷ err)))))))))
      ≡ record { file = file; line = line; function = some (what, name); error = err }
read_called file line what name err f l w n =
    let d = b')' ∷ (b' ' ∷ err) in
    let c = what ++ (b' ' ∷ (name ++ d)) in
    rw
      (
        read_message,
        break_at-append is_colon file b':' (line ++ (b'(' ∷ c)) refl f,
        break_at-append opens_or_space line b'(' c refl l,
        break_at-append is_space what b' ' (name ++ d) refl w,
        break_at-append is_close name b')' (b' ' ∷ err) refl n,
      )
      refl

read_message_lem :
    (d : DebugInfo) (err : Bytes)
    → IsReadable d
    → read_message (position d ++ (codes " " ++ err))
      ≡ record { file = d.short_src; line = d.current_line; function = function_of d; error = err }
read_message_lem d err (file, line, named) = go d.name named
  where
    go :
        (name : Option Bytes)
        → IsNameReadable d name
        → read_message (position (record d { name = name }) ++ (codes " " ++ err)) ≡ record {
          file = d.short_src;
          line = d.current_line;
          function = function_of (record d { name = name });
          error = err;
        }
    go none named =
        ap read_message (arranged d.short_src d.current_line [] (codes " " ++ err))
        ∙ read_plain d.short_src d.current_line err file line
    go (some name) (what, closed) =
        ap read_message (
          arranged d.short_src d.current_line
            (codes "(" ++ (d.name_what ++ (codes " " ++ (name ++ codes ")")))) (codes " " ++ err)
          ∙ ap (λ (l : Bytes). d.short_src ++ (b':' ∷ (d.current_line ++ l)))
              (arranged_function d.name_what name (codes " " ++ err)))
        ∙ read_called d.short_src d.current_line d.name_what name err file line what closed

module _ (lua : Api) where
  open lua use {State, Value, to_string, string, stack}

  -- What the handler does to an error value of this text, above `below`.
  abbrev pub Handled :
      DebugInfo
      → List Bytes
      → List Value
      → Option Bytes
      → Option (ℕ × (State × List Bytes))
      → Type 0
  Handled d stderr below none r = r ≡ none
  Handled d stderr below (some err) r =
      (msg : Bytes) × (t : State) × (r
        ≡ some (1, (t, stderr ++ ((codes "\n" ++ (msg ++ codes "\n")) ∷ []))))
      × (stack t ≡ string msg ∷ below)
      × (read_message msg ≡ record {
        file = d.short_src;
        line = d.current_line;
        function = function_of d;
        error = err;
      })

  -- The error value on top of the stack is replaced by a message, which is also printed between ends of
  -- lines, and that one value is returned. From the message the file, the line, the name of the function
  -- with its kind, where it is known, and the text of the error can be read back, where no colon
  -- stands in the name of the file, no space or opening parenthesis in the line, no space in the kind, and no
  -- closing parenthesis in the name. An error value that has no text has no such result.
  pub add_file_and_line_lem :
      Laws lua
      → (d : DebugInfo) (s : State) (stderr : List Bytes) (e : Value) (below : List Value)
      → IsReadable d
      → stack s ≡ e ∷ below
      → Handled d stderr below (to_string e) (add_file_and_line lua d s stderr)
  unfolding add_file_and_line
  add_file_and_line_lem laws d s stderr e below readable laid = go (to_string e) refl
    where
      found : to_string (top lua s) ≡ to_string e
      found = ap to_string (ap (first lua.nil) laid)

      go :
          (o : Option Bytes)
          → to_string e ≡ o
          → Handled d stderr below o (add_file_and_line lua d s stderr)
      go none missing = rw (add_file_and_line, found ∙ missing) refl
      go (some err) has =
          rw (add_file_and_line, found ∙ has)
            (
              _,
              _,
              refl,
              laws.stack-push _ _
                  ∙ ap (◌∷◌ (string (position d ++ (codes " " ++ err))))
                      (laws.stack-pop 1 s (e ∷ []) below laid refl),
              read_message_lem d err readable,
            )
