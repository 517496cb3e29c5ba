-- ===== src/SharedObjects.antt =====
-- `findVPRDLL` of vrjugglua/FindVPRDLL.cpp: the loaded library of VPR among the shared objects of the
-- process.
use vr_jugglua.Prelude.{
  ℕ, ◌≡◌, ◌⊎◌, refl, sym, ap, ◌∙◌, subst, inl, inr, Bool, true, false, ◌||◌, ◌&&◌, List, [], ◌∷◌,
  ◌++◌, Bytes, codes, ◌==◌, if◌then◌else◌, Bool-cases,
}

abbrev pub starts_with : Bytes → Bytes → Bool
starts_with text [] = true
starts_with [] (c ∷ word) = false
starts_with (d ∷ text) (c ∷ word) = d == c && starts_with text word

-- `text.find(word) != std::string::npos`
abbrev pub contains : Bytes → Bytes → Bool
contains [] word = starts_with [] word
contains (c ∷ text) word = starts_with (c ∷ text) word || contains text word

abbrev pub names_vpr : Bytes → Bool
names_vpr name = contains name (codes "vpr")

-- The callback: what it returns, and the text that it is given to write to.
unfoldable pub shared_object_callback : Bytes → Bytes → ℕ × Bytes
shared_object_callback name path = (0, if names_vpr name then name else path)

-- `iterate` is `dl_iterate_phdr` of the operating system.
unfoldable pub find_vpr_dll : Bool → ((Bytes → Bytes → ℕ × Bytes) → Bytes → Bytes) → Bytes
unfolding shared_object_callback
find_vpr_dll is_linux iterate = if is_linux then iterate shared_object_callback [] else []

-- The callback is called for each object in order, until it returns something else than 0.
abbrev pub iterated : List Bytes → (Bytes → Bytes → ℕ × Bytes) → Bytes → Bytes
iterated [] callback path = path
iterated (name ∷ names) callback path =
    let rest = iterated names callback (callback name path).1 in
    if (callback name path).0 == 0 then rest else (callback name path).1

abbrev pub NoneNamesVpr : List Bytes → Type 0
NoneNamesVpr [] = Unit {0}
NoneNamesVpr (name ∷ names) = (names_vpr name ≡ false) × NoneNamesVpr names

-- The last name that holds the word, or there is none.
abbrev pub IsLast : List Bytes → Bytes → Bytes → Type 0
IsLast names default result =
    (NoneNamesVpr names × (result ≡ default))
    ⊎ ((before : List Bytes) × (after : List Bytes) × (names ≡ before ++ (result ∷ after))
        × (names_vpr result ≡ true)
        × NoneNamesVpr after)

iterated-IsLast :
    (names : List Bytes) (path : Bytes)
    → IsLast names path (iterated names shared_object_callback path)
unfolding shared_object_callback
iterated-IsLast [] path = inl (tt, refl)
iterated-IsLast (name ∷ names) path = join (Bool-cases (names_vpr name)) (iterated-IsLast names _)
  where
    join :
        (names_vpr name ≡ true) ⊎ (names_vpr name ≡ false)
        → IsLast names
            (if names_vpr name then name else path)
            (iterated names shared_object_callback (if names_vpr name then name else path))
        → IsLast
            (name ∷ names)
            path
            (iterated names shared_object_callback (if names_vpr name then name else path))
    join named (inr (before, after, split, holds, rest)) =
        inr (name ∷ before, after, ap (◌∷◌ name) split, holds, rest)
    join (inl named) (inl (none_left, same)) =
        let result = same ∙ ap (λ (b : Bool). if b then name else path) named in
        inr (
          [],
          names,
          ap (λ (n : Bytes). n ∷ names) (sym result),
          ap names_vpr result ∙ named,
          none_left,
        )
    join (inr other) (inl (none_left, same)) =
        inl ((other, none_left), same ∙ ap (λ (b : Bool). if b then name else path) other)

-- On Linux the path is that of the last shared object whose path holds "vpr", and empty where there is
-- none; on other systems it is empty.
pub find_vpr_dll_lem :
    (iterate : (Bytes → Bytes → ℕ × Bytes) → Bytes → Bytes) (names : List Bytes)
    → ((callback : Bytes → Bytes → ℕ × Bytes) (path : Bytes)
        → iterate callback path ≡ iterated names callback path)
    → IsLast names [] (find_vpr_dll true iterate) × (find_vpr_dll false iterate ≡ [])
unfolding find_vpr_dll
find_vpr_dll_lem iterate names documented = (
  subst (IsLast names []) (sym (documented shared_object_callback [])) (iterated-IsLast names []),
  refl,
)
