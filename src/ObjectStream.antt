-- ===== src/ObjectStream.antt =====
-- `vpr::ObjectWriter` and `vpr::ObjectReader`, as vrjugglua/LuaRunBuffer.cpp uses them. VPR is another
-- project's code: the calls are fields, and that a reader gets what a writer was given is a law.
use vr_jugglua.Prelude.{ℕ, ◌<◌, ◌≡◌, refl, List, [], ◌∷◌, ◌++◌, Bytes}

pub data Item : Type 0 where
  uint32 : ℕ → Item
  text : Bytes → Item

pub record ObjectStream : Type 1 where
  pub Writer : Type 0
  pub Reader : Type 0
  -- What was written, the first item first, and what is left to read.
  pub written : Writer → List Item
  pub left : Reader → List Item
  pub write_uint32 : ℕ → Writer → Writer
  pub write_string : Bytes → Writer → Writer
  pub read_uint32 : Reader → ℕ × Reader
  pub read_string : Reader → Bytes × Reader

module _ (stream : ObjectStream) where
  open stream use {
    Writer, Reader, written, left, write_uint32, write_string, read_uint32, read_string,
  }

  pub record StreamLaws : Type 0 where
    pub written-write_uint32 :
        (n : ℕ) (w : Writer)
        → n < 4294967296
        → written (write_uint32 n w) ≡ written w ++ (uint32 n ∷ [])
    pub written-write_string :
        (s : Bytes) (w : Writer) → written (write_string s w) ≡ written w ++ (text s ∷ [])
    pub left-read_uint32 :
        (n : ℕ) (r : Reader) (rest : List Item)
        → left r ≡ uint32 n ∷ rest
        → ((read_uint32 r).0 ≡ n) × (left (read_uint32 r).1 ≡ rest)
    pub left-read_string :
        (s : Bytes) (r : Reader) (rest : List Item)
        → left r ≡ text s ∷ rest
        → ((read_string r).0 ≡ s) × (left (read_string r).1 ≡ rest)

-- The plain list of items.
abbrev read_number : List Item → ℕ × List Item
read_number (uint32 n ∷ rest) = (n, rest)
read_number items = (0, items)

abbrev read_text : List Item → Bytes × List Item
read_text (text s ∷ rest) = (s, rest)
read_text items = ([], items)

abbrev pub sample : ObjectStream
sample = record {
  Writer = List Item;
  Reader = List Item;
  written = λ w. w;
  left = λ r. r;
  write_uint32 = λ n w. w ++ (uint32 n ∷ []);
  write_string = λ s w. w ++ (text s ∷ []);
  read_uint32 = read_number;
  read_string = read_text;
}

pub sample_laws : StreamLaws sample
sample_laws = record {
  written-write_uint32 = λ n w h. refl;
  written-write_string = λ s w. refl;
  left-read_uint32 = λ n r rest h. rw h (refl, refl);
  left-read_string = λ s r rest h. rw h (refl, refl);
}
