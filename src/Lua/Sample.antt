-- ===== src/Lua/Sample.antt =====
-- A small model of the API at which the theorems can be tried: values are nil, texts, numbers,
-- tables and functions. A chunk named in `broken` does not compile; one that begins with `!` fails
-- when it is run, with its text as the error; any other returns its text.
use vr_jugglua.Prelude.{
  ℕ, zero, suc, ◌+◌, ◌-◌, ◌≡◌, refl, ap, ap₂, inl, inr, Bool, Bool-cases, true, false, List, [],
  ◌∷◌, ◌++◌, Option, none, some, Bytes, codes, char_at, arith, length, length-append, take, drop,
  take-append, drop-append, drop-append_add, ◌==◌, if◌then◌else◌, get_or, equal, equal_iff,
}
use vr_jugglua.Prelude.Int.{ℤ, eqb}
use vr_jugglua.Lua.{Api, Laws, Fits, Returned, Pushed}

pub data Value : Type 0 where
  nil : Value
  text : Bytes → Value
  number : ℕ → Value
  table : Value
  function : Bytes → Value

-- The stack, the globals that were set, and the writes to tables, the newest first.
pub record State : Type 0 where
  pub stack : List Value
  pub globals : List (Bytes × Value)
  pub writes : List (ℤ × Value)

unfoldable pub is_nil : Value → Bool
is_nil nil = true
is_nil _ = false

unfoldable pub is_table : Value → Bool
is_table table = true
is_table _ = false

unfoldable pub is_function : Value → Bool
is_function (function b) = true
is_function _ = false

unfoldable pub to_string : Value → Option Bytes
to_string (text b) = some b
to_string _ = none

unfoldable pub find_global : List (Bytes × Value) → Bytes → Value
find_global [] n = nil
find_global ((m, v) ∷ gs) n = if equal m n then v else find_global gs n

unfoldable pub find_write : List (ℤ × Value) → ℤ → Value
find_write [] k = nil
find_write ((j, v) ∷ ws) k = if eqb k j then v else find_write ws k

unfoldable pub on_stack : (List Value → List Value) → State → State
on_stack f s = record s { stack = f s.stack }

-- The top goes under the `k` values below it.
sink : ℕ → List Value → List Value
sink k [] = []
sink k (v ∷ rest) = take k rest ++ (v ∷ drop k rest)

unfoldable pub insert_at : ℕ → List Value → List Value
unfolding sink
insert_at i vs = sink (length vs - i) vs

unfoldable pub remove_at : ℕ → List Value → List Value
remove_at i vs = let k = length vs - i in take k vs ++ drop (k + 1) vs

unfoldable pub join : List Value → List Value
join (text c ∷ text b ∷ text a ∷ below) = text (a ++ (b ++ c)) ∷ below
join vs = vs

unfoldable pub set_top : Bytes → List Value → State → State
set_top n [] s = s
set_top n (v ∷ below) s = record s { stack = below; globals = (n, v) ∷ s.globals }

unfoldable pub write_top : ℤ → List Value → State → State
write_top k [] s = s
write_top k (v ∷ below) s = record s { stack = below; writes = (k, v) ∷ s.writes }

-- A text that ends in `(` is an incomplete chunk.
is_open : Bytes → Bool
is_open [] = false
is_open (c ∷ []) = c == b'('
is_open (c ∷ d ∷ cs) = is_open (d ∷ cs)

unfoldable pub load : Bytes → State → ℕ × State
unfolding is_open on_stack
load b s =
    if is_open b
    then (3, on_stack (◌∷◌ (text (codes "unexpected symbol near '<eof>'"))) s)
    else (0, on_stack (◌∷◌ (function b)) s)

results : Option ℕ → Bytes → List Value
results none b = text b ∷ []
results (some n) b = nils n
  where
    nils : ℕ → List Value
    nils zero = []
    nils (suc m) = nil ∷ nils m

-- What a call of a value leaves above `below`.
finish : Option ℕ → Value → List Value → ℕ × List Value
unfolding results
finish r (function b) below =
    if char_at b 0 == b'!' then (2, text b ∷ below) else (0, results r b ++ below)
finish r v below = (2, text (codes "attempt to call a value") ∷ below)

unfoldable pub call_value : ℕ → Option ℕ → List Value → ℕ × List Value
unfolding finish
call_value n r vs = finish r (get_or vs n nil) (drop (n + 1) vs)

abbrev pub sample : Api
sample = record {
  Value = Value;
  State = State;
  is_nil = is_nil;
  is_table = is_table;
  is_function = is_function;
  to_string = to_string;
  nil = nil;
  string = text;
  integer = number;
  traceback_function = function (codes "traceback");
  stack = λ s. s.stack;
  global = λ s n. find_global s.globals n;
  field = λ s v n. nil;
  element = λ s v k. find_write s.writes k;
  push = λ v. on_stack (◌∷◌ v);
  pop = λ n. on_stack (drop n);
  clear = on_stack (λ _. []);
  insert = λ i. on_stack (insert_at i);
  remove = λ i. on_stack (remove_at i);
  concat = λ n. on_stack join;
  setglobal = λ n s. set_top n s.stack s;
  createtable = λ a h. on_stack (◌∷◌ table);
  rawseti = λ k s. write_top k s.stack s;
  checkstack = λ n s. s;
  call = λ n. on_stack (λ vs. nil ∷ drop (n + 1) vs);
  collect = λ s. s;
  stop_gc = λ s. s;
  restart_gc = λ s. s;
  set_hook = λ s. s;
  clear_hook = λ s. s;
  loadfile = λ n s. (0, on_stack (◌∷◌ (function (codes "file"))) s);
  loadbuffer = λ b n s. load b s;
  pcall = λ n r h s. let (status, vs) = call_value n r s.stack in (status, record s { stack = vs });
  openlibs = λ s. s;
}

length-above :
    (above below : List Value) (n i : ℕ)
    → n ≡ length above + length below + 1
    → i ≡ length below + 1
    → n - i ≡ length above
length-above above below n i h e = omega arith

split_take : (above below : List Value) (k : ℕ) → k ≡ length above → take k (above ++ below) ≡ above
split_take above below k h = rw h (take-append above below)

split_drop :
    (above below : List Value) (k m : ℕ)
    → k ≡ length above + m
    → drop k (above ++ below) ≡ drop m below
split_drop above below k m h = rw h (drop-append_add above below m)

insert_at_lem :
    (i : ℕ) (v : Value) (above below : List Value)
    → i ≡ length below + 1
    → insert_at i (v ∷ (above ++ below)) ≡ above ++ (v ∷ below)
unfolding insert_at
insert_at_lem i v above below h =
    let k : length (v ∷ (above ++ below)) - i ≡ length above + 0 =
      omega (arith, length-append above below) in
    ap₂ (λ (xs ys : List Value). xs ++ (v ∷ ys)) (split_take above below _ (omega (arith, k)))
      (split_drop above below _ 0 k)

remove_at_lem :
    (i : ℕ) (v : Value) (above below : List Value)
    → i ≡ length below + 1
    → remove_at i (above ++ (v ∷ below)) ≡ above ++ below
unfolding remove_at
remove_at_lem i v above below h =
    let k : length (above ++ (v ∷ below)) - i ≡ length above =
      omega (arith, length-append above (v ∷ below)) in
    ap₂ (λ (xs ys : List Value). xs ++ ys) (split_take above (v ∷ below) _ k)
      (split_drop above (v ∷ below) _ 1 (omega (arith, k)))

length-results : (n : ℕ) (b : Bytes) → length (results (some n) b) ≡ n
unfolding results
length-results zero b = refl
length-results (suc n) b = ap suc (length-results n b)

finish-Returned :
    (r : Option ℕ) (f : Value) (below : List Value)
    → Returned r below (finish r f below).0 (finish r f below).1
unfolding finish
finish-Returned r (function b) below = elim (Bool-cases (char_at b 0 == b'!')) [
  | inl bad ↦ rw bad (inr (text b, (λ z. omega arith), refl))
  | inr good ↦ rw good (inl (results r b, refl, refl, fits r))
]
  where
    fits : (q : Option ℕ) → Fits q (results q b)
    fits none = tt
    fits (some n) = length-results n b
finish-Returned r nil below = inr (_, (λ z. omega arith), refl)
finish-Returned r (text b) below = inr (_, (λ z. omega arith), refl)
finish-Returned r (number n) below = inr (_, (λ z. omega arith), refl)
finish-Returned r table below = inr (_, (λ z. omega arith), refl)

load-Pushed : (b : Bytes) (s : State) → Pushed s.stack (load b s).1.stack
unfolding load
load-Pushed b s = elim (Bool-cases (is_open b)) [ inl o ↦ rw o (_, refl) | inr c ↦ rw c (_, refl) ]

set_top_lem :
    (n : Bytes) (vs : List Value) (s : State) (v : Value) (below : List Value)
    → vs ≡ v ∷ below
    → ((set_top n vs s).stack ≡ below) × (find_global (set_top n vs s).globals n ≡ v)
unfolding set_top find_global
set_top_lem n vs s v below h = rw h (refl, rw ((equal_iff n n).1 refl) refl)

set_top-writes :
    (n : Bytes) (vs : List Value) (s : State) (k : ℤ)
    → find_write (set_top n vs s).writes k ≡ find_write s.writes k
unfolding set_top
set_top-writes n [] s k = refl
set_top-writes n (v ∷ below) s k = refl

write_top_lem :
    (k : ℤ) (vs : List Value) (s : State) (v : Value) (below : List Value)
    → vs ≡ v ∷ below
    → ((write_top k vs s).stack ≡ below)
      × ((j : ℤ)
          → find_write (write_top k vs s).writes j ≡ (if eqb j k then v else find_write s.writes j))
unfolding write_top find_write
write_top_lem k vs s v below h = rw h (refl, λ j. refl)

call_value-Returned :
    (n : ℕ) (r : Option ℕ) (args : List Value) (f : Value) (below vs : List Value)
    → vs ≡ args ++ (f ∷ below)
    → length args ≡ n
    → Returned r below (call_value n r vs).0 (call_value n r vs).1
unfolding call_value
call_value-Returned n r args f below vs h e =
    rw (h, split_drop args (f ∷ below) (n + 1) 1 (omega (arith, e)))
      (finish-Returned r (get_or (args ++ (f ∷ below)) n nil) below)

pub sample_laws : Laws sample
unfolding on_stack load to_string is_nil join
sample_laws = record {
  to_string-string = λ b. refl;
  string-not_nil = λ b. refl;
  nil-is_nil = refl;
  stack-push = λ v s. refl;
  stack-pop = λ n s above below h e. rw h (rw (← e) (drop-append above below));
  stack-clear = λ s. refl;
  stack-insert = λ i s v above below h e. rw h (insert_at_lem i v above below e);
  stack-remove = λ i s v above below h e. rw h (remove_at_lem i v above below e);
  stack-concat = λ s a b c below h. rw h refl;
  stack-setglobal = λ n s v below h. set_top_lem n s.stack s v below h;
  element-setglobal = λ n s t k. set_top-writes n s.stack s k;
  stack-createtable = λ a h s. (table, refl);
  stack-rawseti = λ k s v t below h. (write_top_lem k s.stack s v (t ∷ below) h).0;
  element-rawseti = λ k s v t below h j. (write_top_lem k s.stack s v (t ∷ below) h).1 j;
  element-push = λ v t s k. refl;
  stack-checkstack = λ n s. refl;
  stack-call = λ n s args f below h e.
      (nil, rw (h, split_drop args (f ∷ below) (n + 1) 1 (omega (arith, e))));
  stack-collect = λ s. refl;
  stack-loadfile = λ n s. (_, refl);
  stack-loadbuffer = λ b n s. load-Pushed b s;
  stack-pcall = λ n r h s args f below e c. call_value-Returned n r args f below s.stack e c;
}
