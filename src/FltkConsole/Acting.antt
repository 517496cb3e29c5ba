-- ===== src/FltkConsole/Acting.antt =====
-- What the view of vrjugglua/fltk-console/FLTKConsole.cpp shows of one wait of its loop.
use vr_jugglua.Prelude.{
  ◌≡◌, refl, sym, ap, ◌∙◌, Bool, true, false, not, ◌&&◌, ◌||◌, List, [], ◌∷◌, ◌++◌, Option, none,
  some, Bytes, codes, is_some, if◌then◌else◌, Option-cases, inl, inr,
}
use mathlib.Core.List.{append_assoc, append-nil}
use vr_jugglua.Lua.{Api}
use vr_jugglua.CircularBuffer.{CircularBuffer}
use vr_jugglua.ScriptHost.{returned, thrown}
use vr_jugglua.SyncBuffer.{Operation, then_do, Cluster, SyncBuffer}
use vr_jugglua.Console.{Console, shown_text, console_add_string, console_file_chunk}
use vr_jugglua.Console.Returning.{Added, console_add_string-Added}
use vr_jugglua.FltkConsole.{
  FltkConsole, append_to_view, append_to_display, stop_thread, add_string, add_file, run_input,
  choose_and_run_file, save_file, Action, typed, appended, input_run, stopped, file_chosen,
  file_saved, buffer_used, use_buffer, act, act_all,
}

-- The texts, each ended by a newline.
abbrev pub lines : List Bytes → Bytes
lines [] = []
lines (m ∷ ms) = (m ++ codes "\n") ++ lines ms

lines-append : (xs ys : List Bytes) → lines (xs ++ ys) ≡ lines xs ++ lines ys
lines-append [] ys = refl
lines-append (m ∷ ms) ys =
    ap (λ (l : Bytes). (m ++ codes "\n") ++ l) (lines-append ms ys)
    ∙ sym (append_assoc (m ++ codes "\n") (lines ms) (lines ys))

-- The first texts are among the second, in order.
pub data Within : List Bytes → List Bytes → Type 0 where
  none_left : Within [] []
  keep : (m : Bytes) {xs ys : List Bytes} → Within xs ys → Within (m ∷ xs) (m ∷ ys)
  skip : (m : Bytes) {xs ys : List Bytes} → Within xs ys → Within xs (m ∷ ys)

Within-append :
    {xs ys us vs : List Bytes} → Within xs ys → Within us vs → Within (xs ++ us) (ys ++ vs)
Within-append none_left w = w
Within-append (keep m v) w = keep m (Within-append v w)
Within-append (skip m v) w = skip m (Within-append v w)

module _ (lua : Api) (ring : CircularBuffer) where
  abbrev pub View : Type 0
  View = FltkConsole lua ring

  abbrev pub has_buffer : View → Bool
  has_buffer f = is_some f.console.runbuf

  -- Texts were put behind those in the view, and those appended to the display are among them.
  abbrev pub Shows : View → View → Type 0
  Shows f t =
      (new : List Bytes) × (added : List Bytes) × (t.code_buf ≡ f.code_buf ++ lines new)
      × (t.console.display ≡ f.console.display ++ added)
      × Within added new

  -- `stop` says whether the console was told to stop.
  abbrev pub Grows : Bool → View → View → Type 0
  Grows stop f t =
      Shows f t
      × (t.running ≡ (f.running && not stop))
      × (t.calls ≡ f.calls)
      × (has_buffer t ≡ has_buffer f)

  pub Shows-same :
      (f t : View) → t.code_buf ≡ f.code_buf → t.console.display ≡ f.console.display → Shows f t
  Shows-same f t c d =
      ([], [], c ∙ sym (append-nil f.code_buf), d ∙ sym (append-nil f.console.display), none_left)

  Shows-one :
      (m : Bytes) (f t : View)
      → t.code_buf ≡ f.code_buf ++ (m ++ codes "\n")
      → t.console.display ≡ f.console.display ++ (m ∷ [])
      → Shows f t
  Shows-one m f t c d = (
    m ∷ [],
    m ∷ [],
    c ∙ ap (λ (l : Bytes). f.code_buf ++ l) (sym (append-nil (m ++ codes "\n"))),
    d,
    keep m none_left,
  )

  -- The view alone is told.
  Shows-view :
      (m : Bytes) (f t : View)
      → t.code_buf ≡ f.code_buf ++ (m ++ codes "\n")
      → t.console.display ≡ f.console.display
      → Shows f t
  Shows-view m f t c d = (
    m ∷ [],
    [],
    c ∙ ap (λ (l : Bytes). f.code_buf ++ l) (sym (append-nil (m ++ codes "\n"))),
    d ∙ sym (append-nil f.console.display),
    skip m none_left,
  )

  pub Shows-trans : (f r t : View) → Shows f r → Shows r t → Shows f t
  Shows-trans f r t (n, a, c, d, w) (n', a', c', d', w') = (
    n ++ n',
    a ++ a',
    c'
        ∙ ap (λ (l : Bytes). l ++ lines n') c
        ∙ append_assoc f.code_buf (lines n) (lines n')
        ∙ ap (λ (l : Bytes). f.code_buf ++ l) (sym (lines-append n n')),
    d' ∙ ap (λ (l : List Bytes). l ++ a') d ∙ append_assoc f.console.display a a',
    Within-append w w',
  )

  both_stop : (b s s' : Bool) → ((b && not s) && not s') ≡ (b && not (s || s'))
  both_stop true true s' = refl
  both_stop true false s' = refl
  both_stop false true s' = refl
  both_stop false false s' = refl

  pub Grows-trans : (s s' : Bool) (f r t : View) → Grows s f r → Grows s' r t → Grows (s || s') f t
  Grows-trans s s' f r t (h, n, c, b) (h', n', c', b') = (
    Shows-trans f r t h h',
    n' ∙ ap (λ (x : Bool). x && not s') n ∙ both_stop f.running s s',
    c' ∙ c,
    b' ∙ b,
  )

  pub and_true : (b : Bool) → b ≡ (b && not false)
  and_true true = refl
  and_true false = refl

  and_false : (b : Bool) → false ≡ (b && not true)
  and_false true = refl
  and_false false = refl

  abbrev pub Handled : Bool → View → Operation View → Type 0
  Handled stop f none = ⊥
  Handled stop f (some (thrown e)) = has_buffer f ≡ false
  Handled stop f (some (returned t)) = Grows stop f t

  -- An addition behind which the view is changed in what it does not show.
  shown_text-Handled :
      (str : Bytes) (f : View) (finish : Bool × View → View)
      (result : Operation (Bool × Console lua ring))
      → ((r : Bool × View)
          → ((finish r).code_buf ≡ r.1.code_buf)
            × ((finish r).console ≡ r.1.console)
            × ((finish r).running ≡ r.1.running)
            × ((finish r).calls ≡ r.1.calls))
      → Added lua ring str f.console result
      → Handled false f (
          then_do
            (then_do result (λ (r : Bool × Console lua ring). some (
              returned (
                r.0,
                append_to_view lua ring (shown_text lua ring r.0 str) (record f { console = r.1 }),
              ))))
            (λ (r : Bool × View). some (returned (finish r))))
  shown_text-Handled str f finish none same added = added
  shown_text-Handled str f finish (some (thrown e)) same added = added
  shown_text-Handled str f finish (some (returned a)) same (display, after, before) =
      let r = append_to_view lua ring (shown_text lua ring a.0 str) (record f { console = a.1 }) in
      let (sc, sk, sr, sl) = same (a.0, r) in
      (
        Shows-one (shown_text lua ring a.0 str) f (finish (a.0, r)) sc
            (ap (λ (k : Console lua ring). k.display) sk ∙ display),
        sr ∙ and_true f.running,
        sl,
        ap (λ (k : Console lua ring). is_some k.runbuf) sk ∙ after ∙ sym before,
      )

  append_to_view-Grows : (m : Bytes) (f : View) → Grows false f (append_to_view lua ring m f)
  append_to_view-Grows m f =
      (Shows-view m f (append_to_view lua ring m f) refl refl, and_true f.running, refl, refl)

  abbrev pub stops : Action lua ring → Bool
  stops stopped = true
  stops action = false

  module _ (cluster : Cluster) (acquired : Bool) where
    run_input-Handled : (f : View) → Handled false f (run_input lua ring cluster acquired f)
    unfolding run_input add_string
    run_input-Handled f =
        shown_text-Handled f.input_buf f
          (λ (r : Bool × View). if r.0 then record r.1 { input_buf = [] } else r.1)
          (console_add_string lua ring cluster acquired f.input_buf f.console)
          (λ r. cleared r.0 r.1)
          (console_add_string-Added lua ring cluster acquired f.input_buf f.console)
      where
        cleared :
            (b : Bool) (t : View)
            → let u : View = if b then record t { input_buf = [] } else t in
              (u.code_buf ≡ t.code_buf)
              × (u.console ≡ t.console)
              × (u.running ≡ t.running)
              × (u.calls ≡ t.calls)
        cleared true t = (refl, refl, refl, refl)
        cleared false t = (refl, refl, refl, refl)

    add_file-Handled :
        (fn : Bytes) (f : View)
        → Handled false f (
            then_do
              (add_file lua ring cluster acquired fn f)
              (λ (r : Bool × View). some (returned r.1)))
    unfolding add_file add_string
    add_file-Handled fn f = elim (Option-cases f.console.runbuf) [
      | inl missing ↦ simp (add_file, missing) refl
      | inr (b, found) ↦
          simp (add_file, found)
            (shown_text-Handled (console_file_chunk lua ring fn) f (λ (r : Bool × View). r.1)
              (console_add_string lua ring cluster acquired (console_file_chunk lua ring fn)
                f.console)
              (λ r. (refl, refl, refl, refl))
              (console_add_string-Added lua ring cluster acquired (console_file_chunk lua ring fn)
                f.console))
    ]

    choose_and_run_file-Handled :
        (name : Option Bytes) (f : View)
        → Handled false f (choose_and_run_file lua ring cluster acquired name f)
    unfolding choose_and_run_file
    choose_and_run_file-Handled none f = (Shows-same f f refl refl, and_true f.running, refl, refl)
    choose_and_run_file-Handled (some name) f =
        let told = append_to_view lua ring (codes "\n-- Run file chosen in GUI") f in
        join
          (then_do (add_file lua ring cluster acquired name told)
            (λ (r : Bool × View). some (returned r.1)))
          (add_file-Handled name told)
      where
        join :
            (o : Operation View)
            → Handled false (append_to_view lua ring (codes "\n-- Run file chosen in GUI") f) o
            → Handled false f o
        join none h = h
        join (some (thrown e)) h = h
        join (some (returned t)) h =
            Grows-trans false false f
              (append_to_view lua ring (codes "\n-- Run file chosen in GUI") f) t
              (append_to_view-Grows (codes "\n-- Run file chosen in GUI") f) h

    save_file-Grows :
        (saved : Bool) (name : Option Bytes) (f : View)
        → Grows false f (save_file lua ring saved name f)
    unfolding save_file
    save_file-Grows saved none f = (Shows-same f f refl refl, and_true f.running, refl, refl)
    save_file-Grows true (some name) f =
        append_to_view-Grows (codes "-- code up to here saved to file '" ++ (name ++ codes "'\n"))
          (record f { files = f.files ++ ((name, f.code_buf) ∷ []) })
    save_file-Grows false (some name) f =
        append_to_view-Grows (codes "\n-- Saving to chosen file failed") f

    used :
        (o : Option (SyncBuffer lua ring)) (change : SyncBuffer lua ring → SyncBuffer lua ring)
        → is_some (elim o [ none ↦ none | some b ↦ some (change b) ]) ≡ is_some o
    used none change = refl
    used (some b) change = refl

    act-Handled :
        (action : Action lua ring) (f : View)
        → Handled (stops action) f (act lua ring cluster acquired action f)
    unfolding act append_to_display stop_thread
    act-Handled (typed text) f =
        (Shows-same f (record f { input_buf = text }) refl refl, and_true f.running, refl, refl)
    act-Handled (appended message) f = (
      Shows-one message f (append_to_display lua ring message f) refl refl,
      and_true f.running,
      refl,
      refl,
    )
    act-Handled input_run f = run_input-Handled f
    act-Handled stopped f =
        (Shows-same f (record f { running = false }) refl refl, and_false f.running, refl, refl)
    act-Handled (file_chosen name) f = choose_and_run_file-Handled name f
    act-Handled (file_saved saved name) f = save_file-Grows saved name f
    act-Handled (buffer_used change) f = (
      Shows-same f (use_buffer lua ring change f) refl refl,
      and_true f.running,
      refl,
      used f.console.runbuf change,
    )

  abbrev pub stops_any : List (Bool × Action lua ring) → Bool
  stops_any [] = false
  stops_any ((acquired, action) ∷ actions) = stops action || stops_any actions

  pub then_do-Handled :
      (s s' : Bool) (f : View) (result : Operation View) (next : View → Operation View)
      → Handled s f result
      → ((t : View) → Grows s f t → Handled s' t (next t))
      → Handled (s || s') f (then_do result next)
  then_do-Handled s s' f none next h k = h
  then_do-Handled s s' f (some (thrown e)) next h k = h
  then_do-Handled s s' f (some (returned t)) next h k = join (next t) (k t h)
    where
      join : (o : Operation View) → Handled s' t o → Handled (s || s') f o
      join none ran = ran
      join (some (thrown e)) ran = sym h.3 ∙ ran
      join (some (returned u)) ran = Grows-trans s s' f t u h ran

  pub act_all-Handled :
      (cluster : Cluster) (actions : List (Bool × Action lua ring)) (f : View)
      → Handled (stops_any actions) f (act_all lua ring cluster actions f)
  unfolding act_all
  act_all-Handled cluster [] f = (Shows-same f f refl refl, and_true f.running, refl, refl)
  act_all-Handled cluster ((acquired, action) ∷ actions) f =
      then_do-Handled (stops action) (stops_any actions) f (act lua ring cluster acquired action f)
        (act_all lua ring cluster actions) (act-Handled cluster acquired action f)
        (λ t g. act_all-Handled cluster actions t)
