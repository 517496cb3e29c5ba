-- ===== src/QtConsole/Showing.antt =====
-- What the window of vrjugglua/qt-console/QTConsole.cpp shows of the texts that are appended to its
-- display: how one emission and one slot change it.
pub mod Closing
pub mod Handling
pub mod Looping
pub mod Queueing
pub mod Waiting
use vr_jugglua.Prelude.{
  ℕ, zero, suc, ◌+◌, ◌≡◌, refl, sym, ap, ap₂, ◌∙◌, subst, inl, inr, Bool, true, false, List, [],
  ◌∷◌, ◌++◌, Option, none, some, Bytes, codes, equal, is_some, if◌then◌else◌, Bool-cases, arith,
}
use mathlib.Core.List.{append_assoc, append-nil}
use vr_jugglua.Lua.{Api}
use vr_jugglua.CircularBuffer.{CircularBuffer}
use vr_jugglua.SyncBuffer.{SyncBuffer}
use vr_jugglua.Console as Base
use vr_jugglua.QtConsole.{
  Posted, text_display, disable_gui, repeat, replicate, QtConsole, add_text_to_display,
  disable_gui_action, slot, emit, append_to_display, disable_action,
}

-- How often a text is among the texts.
abbrev pub count : Bytes → List Bytes → ℕ
count a [] = 0
count a (x ∷ xs) = (if equal a x then 1 else 0) + count a xs

pub count-append : (a : Bytes) (xs ys : List Bytes) → count a (xs ++ ys) ≡ count a xs + count a ys
count-append a [] ys = omega arith
count-append a (x ∷ xs) ys = omega (arith, count-append a xs ys)

-- Each text `n` times.
abbrev pub spread : ℕ → List Bytes → List Bytes
spread n [] = []
spread n (x ∷ xs) = replicate n x ++ spread n xs

pub spread-append : (n : ℕ) (xs ys : List Bytes) → spread n (xs ++ ys) ≡ spread n xs ++ spread n ys
spread-append n [] ys = refl
spread-append n (x ∷ xs) ys =
    ap (λ (s : List Bytes). replicate n x ++ s) (spread-append n xs ys)
    ∙ sym (append_assoc (replicate n x) (spread n xs) (spread n ys))

-- The texts that wait in the queue.
abbrev pub texts : List Posted → List Bytes
texts [] = []
texts (text_display message ∷ rest) = message ∷ texts rest
texts (disable_gui ∷ rest) = texts rest

texts-append : (xs ys : List Posted) → texts (xs ++ ys) ≡ texts xs ++ texts ys
texts-append [] ys = refl
texts-append (text_display message ∷ rest) ys = ap (◌∷◌ message) (texts-append rest ys)
texts-append (disable_gui ∷ rest) ys = texts-append rest ys

texts-replicate : (n : ℕ) (m : Bytes) → texts (replicate n (text_display m)) ≡ replicate n m
texts-replicate zero m = refl
texts-replicate (suc n) m = ap (◌∷◌ m) (texts-replicate n m)

texts-replicate_disable : (n : ℕ) → texts (replicate n disable_gui) ≡ []
texts-replicate_disable zero = refl
texts-replicate_disable (suc n) = texts-replicate_disable n

module _ (lua : Api) (ring : CircularBuffer) where
  abbrev Window : Type 0
  Window = QtConsole lua ring

  -- The texts that are shown, and behind them those that wait.
  abbrev pub shown : Window → List Bytes
  shown q = q.plain_text_edit_log ++ texts q.queue

  abbrev pub has_buffer : Window → Bool
  has_buffer q = is_some q.console.runbuf

  -- Nothing was appended, and what was shown or waited still is or does.
  abbrev pub Quiet : Window → Window → Type 0
  Quiet q t =
      (shown t ≡ shown q)
      × (t.console.display ≡ q.console.display)
      × (t.connections ≡ q.connections)
      × (t.calls ≡ q.calls)
      × (has_buffer t ≡ has_buffer q)

  -- New texts were appended, and each is shown or waits once for each connection.
  abbrev pub Grows : Window → Window → Type 0
  Grows q t =
      (new : List Bytes) × (t.console.display ≡ q.console.display ++ new)
      × ((a : Bytes) → count a (shown t) ≡ count a (shown q) + count a (spread q.connections new))
      × (t.connections ≡ q.connections)
      × (t.calls ≡ q.calls)
      × (has_buffer t ≡ has_buffer q)

  pub Quiet→Grows : (q t : Window) → Quiet q t → Grows q t
  Quiet→Grows q t (s, d, n, c, b) =
      ([], d ∙ sym (append-nil q.console.display), λ a. ap (count a) s ∙ omega arith, n, c, b)

  pub Grows-trans : (q r t : Window) → Grows q r → Grows r t → Grows q t
  Grows-trans q r t (new, d, s, n, c, b) (new', d', s', n', c', b') = (
    new ++ new',
    d' ∙ ap (λ (l : List Bytes). l ++ new') d ∙ append_assoc q.console.display new new',
    λ a. omega (
      arith,
      s a,
      s' a,
      ap (λ (k : ℕ). count a (spread k new')) n,
      ap (count a) (spread-append q.connections new new'),
      count-append a (spread q.connections new) (spread q.connections new'),
    ),
    n' ∙ n,
    c' ∙ c,
    b' ∙ b,
  )

  pub Quiet-repeat :
      (n : ℕ) (f : Window → Window)
      → ((q : Window) → Quiet q (f q))
      → (q : Window) → Quiet q (repeat n f q)
  Quiet-repeat zero f h q = (refl, refl, refl, refl, refl)
  Quiet-repeat (suc n) f h q =
      let (s, d, k, c, b) = h q in
      let (s', d', k', c', b') = Quiet-repeat n f h (f q) in
      (s' ∙ s, d' ∙ d, k' ∙ k, c' ∙ c, b' ∙ b)

  -- One call of the slot for each of `n` connections.
  pub repeat-text_display :
      (n : ℕ) (m : Bytes) (q : Window)
      → repeat n (add_text_to_display lua ring m) q
        ≡ record q { plain_text_edit_log = q.plain_text_edit_log ++ replicate n m }
  unfolding add_text_to_display
  repeat-text_display zero m q =
      ap (λ (l : List Bytes). record q { plain_text_edit_log = l })
        (sym (append-nil q.plain_text_edit_log))
  repeat-text_display (suc n) m q =
      repeat-text_display n m (record q { plain_text_edit_log = q.plain_text_edit_log ++ (m ∷ []) })
      ∙ ap (λ (l : List Bytes). record q { plain_text_edit_log = l })
          (append_assoc q.plain_text_edit_log (m ∷ []) (replicate n m))

  abbrev Emitted : Bool → Bytes → Window → Window → Type 0
  Emitted own_thread m q t =
      ((a : Bytes) → count a (shown t) ≡ count a (shown q) + count a (replicate q.connections m))
      × (t.console ≡ q.console)
      × (t.connections ≡ q.connections)
      × (t.calls ≡ q.calls)

  emit-Emitted :
      (own_thread : Bool) (m : Bytes) (q : Window)
      → Emitted own_thread m q (emit lua ring own_thread (text_display m) q)
  unfolding emit
  emit-Emitted true m q =
      subst (λ (t : Window). Emitted true m q t) (sym (repeat-text_display q.connections m q))
        (
          λ a. omega (
            arith,
            count-append a q.plain_text_edit_log (texts q.queue),
            count-append a q.plain_text_edit_log (replicate q.connections m),
            count-append a (q.plain_text_edit_log ++ replicate q.connections m) (texts q.queue),
          ),
          refl,
          refl,
          refl,
        )
  emit-Emitted false m q = (
    λ a. omega (
      arith,
      ap (λ (l : List Bytes). count a (q.plain_text_edit_log ++ l))
          (texts-append q.queue (replicate q.connections (text_display m))),
      ap (count a) (texts-replicate q.connections m),
      count-append a q.plain_text_edit_log (texts q.queue),
      count-append a (texts q.queue) (texts (replicate q.connections (text_display m))),
      count-append a q.plain_text_edit_log
          (texts q.queue ++ texts (replicate q.connections (text_display m))),
    ),
    refl,
    refl,
    refl,
  )

  -- A text that is put behind the appended ones and emitted.
  pub emit-Grows :
      (own_thread : Bool) (m : Bytes) (q r : Window)
      → r.console.display ≡ q.console.display ++ (m ∷ [])
      → shown r ≡ shown q
      → r.connections ≡ q.connections
      → r.calls ≡ q.calls
      → has_buffer r ≡ has_buffer q
      → Grows q (emit lua ring own_thread (text_display m) r)
  emit-Grows own_thread m q r d s n c b =
      let (es, ec, en, ek) = emit-Emitted own_thread m r in
      (
        m ∷ [],
        ap (λ (k : Base.Console lua ring). k.display) ec ∙ d,
        λ a. omega (
          arith,
          es a,
          ap (count a) s,
          ap (λ (k : ℕ). count a (replicate k m)) n,
          ap (count a) (append-nil (replicate q.connections m)),
        ),
        en ∙ n,
        ek ∙ c,
        ap (λ (k : Base.Console lua ring). is_some k.runbuf) ec ∙ b,
      )

  disable_gui_action-Quiet : (q : Window) → Quiet q (disable_gui_action lua ring q)
  unfolding disable_gui_action
  disable_gui_action-Quiet q = (refl, refl, refl, refl, refl)

  emit_disable-Quiet :
      (own_thread : Bool) (q : Window) → Quiet q (emit lua ring own_thread disable_gui q)
  unfolding emit
  emit_disable-Quiet true q =
      Quiet-repeat q.connections (disable_gui_action lua ring) disable_gui_action-Quiet q
  emit_disable-Quiet false q = (
    ap (λ (l : List Bytes). q.plain_text_edit_log ++ l)
        (texts-append q.queue (replicate q.connections disable_gui)
          ∙ ap (λ (l : List Bytes). texts q.queue ++ l) (texts-replicate_disable q.connections)
          ∙ append-nil (texts q.queue)),
    refl,
    refl,
    refl,
    refl,
  )

  pub append_to_display-Grows :
      (own_thread : Bool) (m : Bytes) (q : Window)
      → Grows q (append_to_display lua ring own_thread m q)
  unfolding append_to_display
  append_to_display-Grows own_thread m q =
      emit-Grows own_thread m q (record q { console = Base.append_to_display lua ring m q.console })
        refl refl refl refl refl

  pub disable_action-Grows :
      (own_thread : Bool) (q : Window) → Grows q (disable_action lua ring own_thread q)
  unfolding disable_action
  disable_action-Grows own_thread q =
      let text = codes "-- Disabling interaction console GUI on this node..." in
      let r = append_to_display lua ring own_thread text q in
      Grows-trans q r (emit lua ring own_thread disable_gui r)
        (append_to_display-Grows own_thread text q)
        (Quiet→Grows r (emit lua ring own_thread disable_gui r) (emit_disable-Quiet own_thread r))
