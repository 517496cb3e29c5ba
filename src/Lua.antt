-- ===== src/Lua.antt =====
-- The part of the Lua 5.1 C API that the programs of this repository call. The library itself is
-- another project's: its calls are the fields of `Api`, and what its manual documents of them is the
-- record `Laws`, which the theorems take as a hypothesis.
pub mod Sample
use vr_jugglua.Prelude.{
  ℕ, suc, ◌+◌, ◌≡◌, ◌≢◌, ◌⊎◌, Bool, true, false, List, [], ◌∷◌, ◌++◌, Option, none, some, Bytes,
  length, if◌then◌else◌,
}
use vr_jugglua.Prelude.Int.{ℤ, eqb}

pub record Api : Type 1 where
  pub Value : Type 0
  pub State : Type 0
  -- `lua_isnil`, `lua_istable`, `lua_isfunction`, and `lua_tostring`, which is NULL for values that
  -- are neither strings nor numbers.
  pub is_nil : Value → Bool
  pub is_table : Value → Bool
  pub is_function : Value → Bool
  pub to_string : Value → Option Bytes
  -- What a push makes of a C string, an integer, and the C function `traceback`.
  pub nil : Value
  pub string : Bytes → Value
  pub integer : ℕ → Value
  pub traceback_function : Value
  -- The values on the stack, the top first.
  pub stack : State → List Value
  -- A global variable, a field of a table, and an element of a table at an integer key.
  pub global : State → Bytes → Value
  pub field : State → Value → Bytes → Value
  pub element : State → Value → ℤ → Value
  pub push : Value → State → State
  pub pop : ℕ → State → State
  -- `lua_settop(L, 0)`
  pub clear : State → State
  -- At an absolute index, 1 the bottom.
  pub insert : ℕ → State → State
  pub remove : ℕ → State → State
  pub concat : ℕ → State → State
  -- `lua_setglobal`, `lua_createtable`, `lua_rawseti(L, -2, k)`
  pub setglobal : Bytes → State → State
  pub createtable : ℕ → ℕ → State → State
  pub rawseti : ℤ → State → State
  pub checkstack : ℕ → State → State
  -- `lua_call(L, nargs, 1)`, where it returns.
  pub call : ℕ → State → State
  -- `lua_gc` to collect, to stop and to restart.
  pub collect : State → State
  pub stop_gc : State → State
  pub restart_gc : State → State
  -- `lua_sethook` with a hook for every event, and with none.
  pub set_hook : State → State
  pub clear_hook : State → State
  -- `luaL_loadfile` (none for the standard input), `luaL_loadbuffer` with the chunk's name.
  pub loadfile : Option Bytes → State → ℕ × State
  pub loadbuffer : Bytes → Bytes → State → ℕ × State
  -- `lua_pcall`: the number of arguments, of results (none is LUA_MULTRET), and the stack index of
  -- the error function.
  pub pcall : ℕ → Option ℕ → ℕ → State → ℕ × State
  -- `luaL_openlibs`.
  pub openlibs : State → State

abbrev pub gettop : (lua : Api) → lua.State → ℕ
gettop lua s = length (lua.stack s)

-- The value at index -1. A call on an empty stack is not allowed.
abbrev pub first {ℓ} : {A : Type ℓ} → A → List A → A
first d [] = d
first d (v ∷ vs) = v

-- The value at index 1.
abbrev pub last {ℓ} : {A : Type ℓ} → A → List A → A
last d [] = d
last d (v ∷ []) = v
last d (v ∷ w ∷ vs) = last d (w ∷ vs)

abbrev pub top : (lua : Api) → lua.State → lua.Value
top lua s = first lua.nil (lua.stack s)

-- As many results as were asked for.
abbrev pub Fits {ℓ} : {A : Type ℓ} → Option ℕ → List A → Type 0
Fits none results = Unit
Fits (some n) results = length results ≡ n

-- What a protected call leaves on the stack, above `below`: its results, or one error value.
abbrev pub Returned {ℓ} : {A : Type ℓ} → Option ℕ → List A → ℕ → List A → Type ℓ
Returned {A} n below status after =
    ((results : List A) × (status ≡ 0) × (after ≡ results ++ below) × Fits n results)
    ⊎ ((e : A) × (status ≢ 0) × (after ≡ e ∷ below))

-- One value is pushed.
abbrev pub Pushed {ℓ} : {A : Type ℓ} → List A → List A → Type ℓ
Pushed {A} before after = (v : A) × (after ≡ v ∷ before)

module _ (lua : Api) where
  open lua use {
    Value, State, to_string, string, stack, global, element, push, pop, clear, insert, remove,
    concat, setglobal, createtable, rawseti, checkstack, call, collect, loadfile, loadbuffer, pcall,
  }

  -- What the reference manual says of these calls.
  pub record Laws : Type 0 where
    pub to_string-string : (b : Bytes) → to_string (string b) ≡ some b
    pub string-not_nil : (b : Bytes) → lua.is_nil (string b) ≡ false
    pub nil-is_nil : lua.is_nil lua.nil ≡ true
    pub stack-push : (v : Value) (s : State) → stack (push v s) ≡ v ∷ stack s
    pub stack-pop :
        (n : ℕ) (s : State) (above below : List Value)
        → stack s ≡ above ++ below
        → length above ≡ n
        → stack (pop n s) ≡ below
    pub stack-clear : (s : State) → stack (clear s) ≡ []
    pub stack-insert :
        (i : ℕ) (s : State) (v : Value) (above below : List Value)
        → stack s ≡ v ∷ (above ++ below)
        → i ≡ length below + 1
        → stack (insert i s) ≡ above ++ (v ∷ below)
    pub stack-remove :
        (i : ℕ) (s : State) (v : Value) (above below : List Value)
        → stack s ≡ above ++ (v ∷ below)
        → i ≡ length below + 1
        → stack (remove i s) ≡ above ++ below
    -- `lua_concat(L, 3)` of three strings.
    pub stack-concat :
        (s : State) (a b c : Bytes) (below : List Value)
        → stack s ≡ string c ∷ string b ∷ string a ∷ below
        → stack (concat 3 s) ≡ string (a ++ (b ++ c)) ∷ below
    pub stack-setglobal :
        (n : Bytes) (s : State) (v : Value) (below : List Value)
        → stack s ≡ v ∷ below
        → (stack (setglobal n s) ≡ below) × (global (setglobal n s) n ≡ v)
    pub element-setglobal :
        (n : Bytes) (s : State) (t : Value) (k : ℤ) → element (setglobal n s) t k ≡ element s t k
    pub stack-createtable : (a h : ℕ) (s : State) → Pushed (stack s) (stack (createtable a h s))
    pub stack-rawseti :
        (k : ℤ) (s : State) (v t : Value) (below : List Value)
        → stack s ≡ v ∷ t ∷ below
        → stack (rawseti k s) ≡ t ∷ below
    pub element-rawseti :
        (k : ℤ) (s : State) (v t : Value) (below : List Value)
        → stack s ≡ v ∷ t ∷ below
        → (j : ℤ) → element (rawseti k s) t j ≡ (if eqb j k then v else element s t j)
    pub element-push : (v t : Value) (s : State) (k : ℤ) → element (push v s) t k ≡ element s t k
    pub stack-checkstack : (n : ℕ) (s : State) → stack (checkstack n s) ≡ stack s
    pub stack-call :
        (n : ℕ) (s : State) (args : List Value) (f : Value) (below : List Value)
        → stack s ≡ args ++ (f ∷ below)
        → length args ≡ n
        → Pushed below (stack (call n s))
    pub stack-collect : (s : State) → stack (collect s) ≡ stack s
    pub stack-loadfile : (n : Option Bytes) (s : State) → Pushed (stack s) (stack (loadfile n s).1)
    pub stack-loadbuffer : (b n : Bytes) (s : State) → Pushed (stack s) (stack (loadbuffer b n s).1)
    pub stack-pcall :
        (n : ℕ) (r : Option ℕ) (h : ℕ) (s : State) (args : List Value) (f : Value)
        (below : List Value)
        → stack s ≡ args ++ (f ∷ below)
        → length args ≡ n
        → Returned r below (pcall n r h s).0 (stack (pcall n r h s).1)
