-- ===== src/Console/Comments.antt =====
-- What the print function of vrjugglua/LuaConsole.cpp shows.
use vr_jugglua.Prelude.{
  ℕ, ◌≡◌, refl, ap, ◌∙◌, inl, inr, List, [], ◌∷◌, ◌++◌, map, some, Bytes, codes, ◌==◌,
  if◌then◌else◌, Bool-cases,
}
use vr_jugglua.Lua.{Api}
use vr_jugglua.CircularBuffer.{CircularBuffer}
use vr_jugglua.Console.{Console, append_to_display, console_print}

-- What Boost's manual says of `replace_all` for a search text of one character.
abbrev pub replaced_by : ℕ → Bytes → Bytes → Bytes
replaced_by search format [] = []
replaced_by search format (c ∷ cs) =
    if c == search then format ++ replaced_by search format cs else c ∷ replaced_by search format cs

abbrev replaced : Bytes → Bytes
replaced text = replaced_by b'\n' (codes "\n-- ") text

-- The lines of a text.
abbrev pub put_first : ℕ → List Bytes → List Bytes
put_first c [] = (c ∷ []) ∷ []
put_first c (l ∷ ls) = (c ∷ l) ∷ ls

abbrev pub lines : Bytes → List Bytes
lines [] = [] ∷ []
lines (c ∷ cs) = if c == b'\n' then [] ∷ lines cs else put_first c (lines cs)

abbrev pub comment : Bytes → Bytes
comment line = codes "-- " ++ line

-- All lines but the first are made comments; and the first one is.
abbrev mark_later : List Bytes → List Bytes
mark_later [] = []
mark_later (l ∷ ls) = l ∷ map comment ls

abbrev mark_first : List Bytes → List Bytes
mark_first [] = comment [] ∷ []
mark_first (l ∷ ls) = comment l ∷ ls

mark_first-put :
    (ls : List Bytes) → put_first b'-' (put_first b'-' (put_first b' ' ls)) ≡ mark_first ls
mark_first-put [] = refl
mark_first-put (l ∷ ls) = refl

put_first-mark_later :
    (c : ℕ) (ls : List Bytes) → put_first c (mark_later ls) ≡ mark_later (put_first c ls)
put_first-mark_later c [] = refl
put_first-mark_later c (l ∷ ls) = refl

abbrev NotEmpty : List Bytes → Type 0
NotEmpty [] = ⊥
NotEmpty (l ∷ ls) = Unit

put_first-NotEmpty : (c : ℕ) (ls : List Bytes) → NotEmpty (put_first c ls)
put_first-NotEmpty c [] = tt
put_first-NotEmpty c (l ∷ ls) = tt

lines-NotEmpty : (text : Bytes) → NotEmpty (lines text)
lines-NotEmpty [] = tt
lines-NotEmpty (c ∷ cs) = elim (Bool-cases (c == b'\n')) [
  | inl newline ↦ rw (lines, newline) tt
  | inr other ↦ rw (lines, other) (put_first-NotEmpty c (lines cs))
]

mark_both : (ls : List Bytes) → NotEmpty ls → mark_first (mark_later ls) ≡ map comment ls
mark_both [] h = absurd h
mark_both (l ∷ ls) h = refl

lines-comment : (text : Bytes) → lines (comment text) ≡ mark_first (lines text)
lines-comment text = mark_first-put (lines text)

lines-replaced : (text : Bytes) → lines (replaced text) ≡ mark_later (lines text)
lines-replaced [] = refl
lines-replaced (c ∷ cs) = elim (Bool-cases (c == b'\n')) [
  | inl newline ↦
      rw (replaced, replaced_by, lines, newline)
        (ap (◌∷◌ []) (
          lines-comment (replaced cs)
          ∙ ap mark_first (lines-replaced cs)
          ∙ mark_both (lines cs) (lines-NotEmpty cs)))
  | inr other ↦
      rw (replaced, replaced_by, lines, other)
        (rw other (ap (put_first c) (lines-replaced cs) ∙ put_first-mark_later c (lines cs)))
]

module _ (lua : Api) (ring : CircularBuffer) where
  -- Where Boost replaces as documented, what a script prints is shown as one text, each line of which
  -- is a line printed behind the start of a Lua comment; nothing else of the console changes.
  pub console_print_lem :
      (replace_all : Bytes → Bytes → Bytes → Bytes)
      → ((search : ℕ) (s format : Bytes)
          → replace_all s (search ∷ []) format ≡ replaced_by search format s)
      → (str : Bytes) (c : Console lua ring)
      → (text : Bytes) × (console_print lua ring replace_all str (some c)
          ≡ some (append_to_display lua ring text c))
        × (lines text ≡ map comment (lines str))
  unfolding console_print
  console_print_lem replace_all documented str c = (
    comment (replace_all str (codes "\n") (codes "\n-- ")),
    refl,
    lines-comment (replace_all str (codes "\n") (codes "\n-- "))
        ∙ ap (λ (s : Bytes). mark_first (lines s)) (documented b'\n' str (codes "\n-- "))
        ∙ ap mark_first (lines-replaced str)
        ∙ mark_both (lines str) (lines-NotEmpty str),
  )
