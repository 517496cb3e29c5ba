-- ===== src/CodeInput/Dropping.antt =====
-- The drag and drop events of vrjugglua/qt-console/QTCodeInput.cpp agree.
use vr_jugglua.Prelude.{
  ◌≡◌, refl, sym, ap, ap₂, ◌∙◌, inl, inr, Bool, true, false, List, [], ◌∷◌, ◌++◌, some, none,
  if◌then◌else◌, Bool-cases,
}
use mathlib.Core.List.{append_assoc, append-nil}
use vr_jugglua.CodeInput.{
  Qt, Reply, accepted, left_alone, passed_on, Signal, got_jconf, got_lua_file, is_jconf,
  is_local_lua_file, find_accepted, drag_enter_event, drag_move_event, drop_urls, drop_event,
}

module _ (qt : Qt) where
  open qt use {Url}

  -- The signal for one file, if there is one for it.
  abbrev pub signal_of : Url → List (Signal qt)
  signal_of url =
      if is_jconf qt url
      then got_jconf url ∷ []
      else if is_local_lua_file qt url
      then got_lua_file url ∷ []
      else []

  abbrev pub signals_of : List Url → List (Signal qt)
  signals_of [] = []
  signals_of (url ∷ urls) = signal_of url ++ signals_of urls

  abbrev pub reply_to : List (Signal qt) → Reply
  reply_to [] = left_alone
  reply_to (signal ∷ signals) = accepted

  abbrev any_found : Bool → List (Signal qt) → Bool
  any_found accept [] = accept
  any_found accept (signal ∷ signals) = true

  accepted_if :
      (signals : List (Signal qt))
      → (if any_found false signals then accepted else left_alone) ≡ reply_to signals
  accepted_if [] = refl
  accepted_if (signal ∷ signals) = refl

  any_found-true : (signals : List (Signal qt)) → any_found true signals ≡ true
  any_found-true [] = refl
  any_found-true (signal ∷ signals) = refl

  taken :
      (urls : List Url) (signals : List (Signal qt)) (signal : Signal qt)
      → ◌≡◌ {A = Bool × List (Signal qt)}
          (any_found true (signals_of urls), (signals ++ (signal ∷ [])) ++ signals_of urls)
          (true, signals ++ (signal ∷ signals_of urls))
  taken urls signals signal =
      ap₂ (λ (b : Bool) (s : List (Signal qt)). (b, s)) (any_found-true (signals_of urls))
        (append_assoc signals (signal ∷ []) (signals_of urls))

  drop_urls_lem :
      (urls : List Url) (accept : Bool) (signals : List (Signal qt))
      → drop_urls qt urls (accept, signals)
        ≡ (any_found accept (signals_of urls), signals ++ signals_of urls)
  unfolding drop_urls
  drop_urls_lem [] accept signals =
      ap (λ (s : List (Signal qt)). (accept, s)) (sym (append-nil signals))
  drop_urls_lem (url ∷ urls) accept signals = elim (Bool-cases (is_jconf qt url)) [
    | inl jconf ↦ rw jconf (
        drop_urls_lem urls true (signals ++ (got_jconf url ∷ []))
        ∙ taken urls signals (got_jconf url))
    | inr other ↦ elim (Bool-cases (is_local_lua_file qt url)) [
      | inl lua ↦
          rw (other, lua)
            (drop_urls_lem urls true (signals ++ (got_lua_file url ∷ []))
              ∙ taken urls signals (got_lua_file url))
      | inr neither ↦ rw (other, neither) (drop_urls_lem urls accept signals)
    ]
  ]

  drop_event-reply : (urls : List Url) → (drop_event qt (some urls)).0 ≡ reply_to (signals_of urls)
  unfolding drop_event
  drop_event-reply urls =
      ap (λ (d : Bool × List (Signal qt)). if d.0 then accepted else left_alone)
        (drop_urls_lem urls false [])
      ∙ accepted_if (signals_of urls)

  find_accepted_lem : (urls : List Url) → find_accepted qt urls ≡ reply_to (signals_of urls)
  unfolding find_accepted
  find_accepted_lem [] = refl
  find_accepted_lem (url ∷ urls) = elim (Bool-cases (is_jconf qt url)) [
    | inl jconf ↦ rw jconf refl
    | inr other ↦ elim (Bool-cases (is_local_lua_file qt url)) [
      | inl lua ↦ rw (other, lua) refl
      | inr neither ↦ rw (other, neither) (find_accepted_lem urls)
    ]
  ]

  -- A drop emits one signal for each file that is named like a configuration or a Lua file, the first
  -- kind before the second where both names fit, in the order of the files and none for any other. It is
  -- accepted just where there is such a file, and the two drag events accept just what a drop accepts.
  -- An event without URLs is passed on by all three, and emits nothing.
  drop_event_lem :
      (urls : List Url)
      → let dropped = drop_event qt (some urls) in
        (dropped.1 ≡ signals_of urls)
        × (dropped.0 ≡ reply_to (signals_of urls))
        × (drag_enter_event qt (some urls) ≡ dropped.0)
        × (drag_move_event qt (some urls) ≡ dropped.0)
        × (drop_event qt none ≡ (passed_on, []))
        × (drag_enter_event qt none ≡ passed_on)
        × (drag_move_event qt none ≡ passed_on)
  unfolding drop_event drag_enter_event drag_move_event
  drop_event_lem urls =
      let reply = drop_event-reply urls in
      let found = find_accepted_lem urls ∙ sym reply in
      (
        ap (λ (d : Bool × List (Signal qt)). d.1) (drop_urls_lem urls false []),
        reply,
        found,
        found,
        refl,
        refl,
        refl,
      )
