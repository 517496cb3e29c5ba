-- ===== src/FltkConsole/Looping.antt =====
-- The loop of vrjugglua/fltk-console/FLTKConsole.cpp ends, and what it shows meanwhile.
use vr_jugglua.Prelude.{
  ◌≡◌, refl, sym, ap, ◌∙◌, Bool, true, false, not, ◌&&◌, ◌||◌, List, [], ◌∷◌, ◌++◌, none, some,
  if◌then◌else◌,
}
use vr_jugglua.Lua.{Api}
use vr_jugglua.CircularBuffer.{CircularBuffer}
use vr_jugglua.ScriptHost.{returned, thrown}
use vr_jugglua.SyncBuffer.{Operation, then_do, Cluster}
use vr_jugglua.Console.{console_is_ready}
use vr_jugglua.Kernel.{stop_kernel, wait_for_kernel_stop}
use vr_jugglua.FltkConsole.{act_all, Round, do_thread_work, loop, begin_loop, end_loop, thread_loop}
use vr_jugglua.FltkConsole.Acting.{
  View, has_buffer, Shows, Handled, Shows-same, Shows-trans, stops_any, act_all-Handled,
}

module _ (lua : Api) (ring : CircularBuffer) (cluster : Cluster) where
  -- The loop ends at or behind this round at the latest: the kernel does not run, the wait gives an
  -- error or leaves no window, or the console is told to stop.
  abbrev pub is_last : Round lua ring → Bool
  is_last round =
      not round.kernel_running
      || (not (round.waited && round.has_window) || stops_any lua ring round.actions)

  abbrev pub has_last : List (Round lua ring) → Bool
  has_last [] = false
  has_last (round ∷ rounds) = is_last round || has_last rounds

  abbrev Ran : View lua ring → Operation (View lua ring) → Type 0
  Ran f none = ⊥
  Ran f (some (thrown e)) = has_buffer lua ring f ≡ false
  Ran f (some (returned t)) =
      Shows lua ring f t × (t.calls ≡ f.calls) × (has_buffer lua ring t ≡ has_buffer lua ring f)

  if-Ran :
      (b : Bool) (f : View lua ring) (first second : Operation (View lua ring))
      → (b ≡ true → Ran f first)
      → (b ≡ false → Ran f second)
      → Ran f (if b then first else second)
  if-Ran true f first second h k = h refl
  if-Ran false f first second h k = k refl

  -- The work of one round, and what follows it.
  work-Ran :
      (s go_on : Bool) (f : View lua ring) (result : Operation (View lua ring))
      (rest : View lua ring → Operation (View lua ring))
      → Handled lua ring s f result
      → ((t : View lua ring) → go_on ≡ true → t.running ≡ (f.running && not s) → Ran t (rest t))
      → Ran f (
          then_do
            (then_do result (λ (t : View lua ring). some (returned (go_on, t))))
            (λ (r : Bool × View lua ring). if not r.0 then some (returned r.1) else rest r.1))
  work-Ran s go_on f none rest h k = h
  work-Ran s go_on f (some (thrown e)) rest h k = h
  work-Ran s go_on f (some (returned t)) rest (shows, running, c, b) k =
      if-Ran (not go_on) f (some (returned t)) (rest t) (λ e. (shows, c, b))
        (λ e. join (rest t) (k t (un_not go_on e) running))
    where
      un_not : (x : Bool) → not x ≡ false → x ≡ true
      un_not true e = refl
      un_not false e = cc

      join : (o : Operation (View lua ring)) → Ran t o → Ran f o
      join none ran = ran
      join (some (thrown e)) ran = sym b ∙ ran
      join (some (returned u)) (shows', c', b') =
          (Shows-trans lua ring f t u shows shows', c' ∙ c, b' ∙ b)

  still :
      (kernel running go_on s more now : Bool)
      → (running && kernel) ≡ true
      → (((not kernel || (not go_on || s)) || more) || not running) ≡ true
      → go_on ≡ true
      → now ≡ (running && not s)
      → (more || not now) ≡ true
  still false true go_on s more now r h g n = cc
  still kernel false go_on s more now r h g n = cc
  still true true false s more now r h g n = cc
  still true true true true more now r h g n = rw n (or_true more)
    where
      or_true : (x : Bool) → (x || true) ≡ true
      or_true true = refl
      or_true false = refl
  still true true true false true now r h g n = refl
  still true true true false false now r h g n = cc

  loop-Ran :
      (rounds : List (Round lua ring)) (f : View lua ring)
      → (has_last rounds || not f.running) ≡ true
      → Ran f (loop lua ring cluster rounds f)
  unfolding loop do_thread_work
  loop-Ran [] f h =
      if-Ran f.running f none (some (returned f)) (λ on. absurd (cc (sym h ∙ ap not on)))
        (λ off. (Shows-same lua ring f f refl refl, refl, refl))
  loop-Ran (round ∷ rounds) f h =
      if-Ran (f.running && round.kernel_running) f _ (some (returned f))
        (λ on.
          work-Ran (stops_any lua ring round.actions) (round.waited && round.has_window) f
            (act_all lua ring cluster round.actions f) (loop lua ring cluster rounds)
            (act_all-Handled lua ring cluster round.actions f)
            (λ t go_on running. loop-Ran rounds t (
              still round.kernel_running f.running (round.waited && round.has_window)
                (stops_any lua ring round.actions) (has_last rounds) t.running on h go_on running)))
        (λ off. (Shows-same lua ring f f refl refl, refl, refl))

  -- What a run of the loop leaves, where it does not throw.
  abbrev pub Looped : View lua ring → Operation (Bool × View lua ring) → Type 0
  Looped f none = ⊥
  Looped f (some (thrown e)) = has_buffer lua ring f ≡ false
  Looped f (some (returned (ok, t))) =
      (ok ≡ true)
      × (t.running ≡ false)
      × (t.calls ≡ f.calls ++ (stop_kernel ∷ wait_for_kernel_stop ∷ []))
      × Shows lua ring f t

  end-Looped :
      (f : View lua ring) (result : Operation (View lua ring))
      → Ran (begin_loop lua ring f) result
      → Looped f
          (then_do result (λ (t : View lua ring). some (returned (true, end_loop lua ring t))))
  unfolding console_is_ready
  end-Looped f none h = h
  end-Looped f (some (thrown e)) h = h
  end-Looped f (some (returned t)) (shows, c, b) =
      (refl, refl, ap (λ l. l ++ (stop_kernel ∷ wait_for_kernel_stop ∷ [])) c, shows)

  -- Where in some round the kernel does not run, the wait fails or leaves no window, or the console is
  -- told to stop, a run of the loop that is not run already ends. It returns true, is marked as not
  -- running and has stopped the kernel and waited for it; the view was only added to, and every text
  -- that was appended to the display meanwhile stands in it as a line, in order. The loop throws only
  -- where the console has no run buffer. While it runs, another call returns false and changes nothing.
  pub thread_loop_lem :
      (rounds : List (Round lua ring)) (f : View lua ring)
      → has_last rounds ≡ true
      → f.running ≡ false
      → Looped f (thread_loop lua ring cluster rounds f)
        × (thread_loop lua ring cluster rounds (begin_loop lua ring f)
            ≡ some (returned (false, begin_loop lua ring f)))
  unfolding thread_loop
  thread_loop_lem rounds f h idle = (
    simp (thread_loop, idle)
        (end-Looped f (loop lua ring cluster rounds (begin_loop lua ring f))
          (loop-Ran rounds (begin_loop lua ring f) (ap (λ b. b || false) h))),
    refl,
  )
