-- ===== src/ScriptHost/Construction/Stages.antt =====
-- The stages of the construction of a `LuaScript` of vrjugglua/LuaScript.cpp, and what ends it.
use vr_jugglua.Prelude.{
  ◌≡◌, refl, sym, subst, ◌⊎◌, inl, inr, Bool, true, false, not, ◌&&◌, List, [], ◌∷◌, ◌++◌, none,
  some, Bytes, codes, if◌then◌else◌, take, drop,
}
use mathlib.Core.Option
use vr_jugglua.Lua.{Api}
use vr_jugglua.ScriptHost.{Script, Bindings, Exception, no_valid_state, with_lua, require_module}
use vr_jugglua.ScriptHost.Construction.{
  Stage, open_luabind, bind_class_info, update_require_path, open_osglua, load_openthreads,
  load_osg, bind_kernel, bind_sonix, bind_gadget_interfaces, bind_run_buffer, bind_vrjlua,
  bind_app_proxy, set_pcall_callback, Ran, done, raised, Failure, threw, terminated, lua_raised,
  Attempt, went_on, failed, and_then, terminated_texts, refused_text, connect_text, call_stage,
  told, connect, load_wrapper, bind_osg, bind_all, Built, built, not_built, required,
  apply_bindings, restart, new_script, borrow_script,
}

-- The stages that connect luabind, whose exceptions are told of.
abbrev pub connects : Stage → Bool
connects open_luabind = true
connects bind_class_info = true
connects stage = false

-- The stages that load the wrappers of OSG, whose results are looked at.
abbrev pub loads : Stage → Bool
loads load_openthreads = true
loads load_osg = true
loads stage = false

abbrev pub stages : List Stage
stages =
    open_luabind ∷ bind_class_info ∷ update_require_path ∷ open_osglua ∷ load_openthreads ∷ load_osg
    ∷ bind_kernel ∷ bind_sonix ∷ bind_gadget_interfaces ∷ bind_run_buffer ∷ bind_vrjlua
    ∷ bind_app_proxy ∷ set_pcall_callback ∷ []

module _ (lua : Api) (run : Stage → lua.State → Ran lua) where
  open lua use {State, openlibs, stop_gc, restart_gc}

  -- A stage succeeds; one that loads wrappers has to return true.
  abbrev pub Passes : Stage → State → State → Type 0
  Passes stage s t =
      (result : Bool) × (run stage s ≡ done result t) × ((loads stage && not result) ≡ false)

  abbrev pub raised_failure : Stage → Exception → State → Failure lua
  raised_failure stage e t =
      if loads stage
      then terminated (terminated_texts lua e)
      else threw (if connects stage then connect_text lua e ∷ [] else []) e (some t)

  -- A stage ends the construction: by an exception, or since it loads wrappers and returned false.
  abbrev pub Ends : Stage → State → Failure lua → Type 0
  Ends stage s f =
      ((e : Exception) × (t : State) × (run stage s ≡ raised e t) × (f ≡ raised_failure stage e t))
      ⊎ ((t : State) × (run stage s ≡ done false t)
          × (loads stage ≡ true)
          × (f ≡ lua_raised (refused_text lua ∷ []) (refused_text lua) t))

  -- All stages succeed, each on the state that the one before left.
  abbrev pub Passed : List Stage → State → State → Type 0
  Passed [] s t = s ≡ t
  Passed (stage ∷ rest) s t = (m : State) × Passes stage s m × Passed rest m t

  -- One of the stages ends it, behind those before it.
  abbrev pub Stopped : List Stage → State → Failure lua → Type 0
  Stopped [] s f = ⊥
  Stopped (stage ∷ rest) s f = Ends stage s f ⊎ ((m : State) × Passes stage s m × Stopped rest m f)

  abbrev Follows : List Stage → State → Attempt lua → Type 0
  Follows list s (went_on t) = Passed list s t
  Follows list s (failed f) = Stopped list s f

  Passed-append :
      (xs ys : List Stage) (s t u : State) → Passed xs s t → Passed ys t u → Passed (xs ++ ys) s u
  Passed-append [] ys s t u h k = subst (λ (x : State). Passed ys x u) (sym h) k
  Passed-append (x ∷ xs) ys s t u (m, p, h) k = (m, p, Passed-append xs ys m t u h k)

  Stopped-behind :
      (xs ys : List Stage) (s t : State) (f : Failure lua)
      → Passed xs s t
      → Stopped ys t f
      → Stopped (xs ++ ys) s f
  Stopped-behind [] ys s t f h k = subst (λ (x : State). Stopped ys x f) (sym h) k
  Stopped-behind (x ∷ xs) ys s t f (m, p, h) k = inr (m, p, Stopped-behind xs ys m t f h k)

  Stopped-before :
      (xs ys : List Stage) (s : State) (f : Failure lua) → Stopped xs s f → Stopped (xs ++ ys) s f
  Stopped-before [] ys s f h = absurd h
  Stopped-before (x ∷ xs) ys s f (inl e) = inl e
  Stopped-before (x ∷ xs) ys s f (inr (m, p, h)) = inr (m, p, Stopped-before xs ys m f h)

  Follows-and_then :
      (xs ys : List Stage) (s : State) (a : Attempt lua) (next : State → Attempt lua)
      → Follows xs s a
      → ((t : State) → Follows ys t (next t))
      → Follows (xs ++ ys) s (and_then lua a next)
  Follows-and_then xs ys s (failed f) next h k = Stopped-before xs ys s f h
  Follows-and_then xs ys s (went_on t) next h k = join (next t) (k t)
    where
      join : (a : Attempt lua) → Follows ys t a → Follows (xs ++ ys) s a
      join (went_on u) g = Passed-append xs ys s t u h g
      join (failed f) g = Stopped-behind xs ys s t f h g

  call_stage-Follows :
      (stage : Stage) (s : State)
      → loads stage ≡ false
      → connects stage ≡ false
      → Follows (stage ∷ []) s (call_stage lua run stage s)
  call_stage-Follows stage s plain quiet = at (run stage s) refl
    where
      at :
          (r : Ran lua)
          → run stage s ≡ r
          → Follows
              (stage ∷ [])
              s
              (elim r [ done result t ↦ went_on t | raised e t ↦ failed (threw [] e (some t)) ])
      at (done result t) h = (t, (result, h, rw plain refl), refl)
      at (raised e t) h = inl (inl (e, t, h, rw (plain, quiet) refl))

  connect-Follows :
      (s : State) → Follows (open_luabind ∷ bind_class_info ∷ []) s (connect lua run s)
  unfolding connect
  connect-Follows s = first (run open_luabind s) refl
    where
      second :
          (m : State) (result : Bool) (r : Ran lua)
          → run open_luabind s ≡ done result m
          → run bind_class_info m ≡ r
          → Follows (open_luabind ∷ bind_class_info ∷ []) s (
              told lua run
                (elim r [ done b t ↦ went_on t | raised e t ↦ failed (threw [] e (some t)) ]))
      second m result (done b t) h k = (m, (result, h, refl), (t, (b, k, refl), refl))
      second m result (raised e t) h k = inr (m, (result, h, refl), inl (inl (e, t, k, refl)))

      first :
          (r : Ran lua)
          → run open_luabind s ≡ r
          → Follows (open_luabind ∷ bind_class_info ∷ []) s (
              told lua run (
                and_then lua
                  (elim r [ done b t ↦ went_on t | raised e t ↦ failed (threw [] e (some t)) ])
                  (call_stage lua run bind_class_info)))
      first (done b m) h = second m b (run bind_class_info m) h refl
      first (raised e t) h = inl (inl (e, t, h, refl))

  load_wrapper-Follows :
      (stage : Stage) (s : State)
      → loads stage ≡ true
      → Follows (stage ∷ []) s (load_wrapper lua run stage s)
  load_wrapper-Follows stage s wrapper = at (run stage s) refl
    where
      at :
          (r : Ran lua)
          → run stage s ≡ r
          → Follows (stage ∷ []) s (elim r [
            | done loaded t ↦
                if loaded
                then went_on t
                else failed (lua_raised (refused_text lua ∷ []) (refused_text lua) t)
            | raised e t ↦ failed (terminated (terminated_texts lua e))
          ])
      at (done true t) h = (t, (true, h, rw wrapper refl), refl)
      at (done false t) h = inl (inr (t, h, wrapper, refl))
      at (raised e t) h = inl (inl (e, t, h, rw wrapper refl))

  bind_osg-Follows :
      (s : State) → Follows (open_osglua ∷ load_openthreads ∷ load_osg ∷ []) s (bind_osg lua run s)
  unfolding bind_osg
  bind_osg-Follows s =
      Follows-and_then (open_osglua ∷ []) (load_openthreads ∷ load_osg ∷ []) s
        (call_stage lua run open_osglua s) _ (call_stage-Follows open_osglua s refl refl)
        (λ t.
          Follows-and_then (load_openthreads ∷ []) (load_osg ∷ []) t
            (load_wrapper lua run load_openthreads t) (load_wrapper lua run load_osg)
            (load_wrapper-Follows load_openthreads t refl)
            (λ u. load_wrapper-Follows load_osg u refl))

  -- One more stage whose result is not looked at, and what follows it.
  step-Follows :
      (stage : Stage) (ys : List Stage) (s : State) (next : State → Attempt lua)
      → loads stage ≡ false
      → connects stage ≡ false
      → ((t : State) → Follows ys t (next t))
      → Follows (stage ∷ ys) s (and_then lua (call_stage lua run stage s) next)
  step-Follows stage ys s next plain quiet =
      Follows-and_then (stage ∷ []) ys s (call_stage lua run stage s) next
        (call_stage-Follows stage s plain quiet)

  bind_all-Follows : (s : State) → Follows stages s (bind_all lua run s)
  unfolding bind_all
  bind_all-Follows s =
      Follows-and_then (take 2 stages) (drop 2 stages) s (connect lua run s) _ (connect-Follows s)
        (λ s1. step-Follows update_require_path (drop 3 stages) s1 _ refl refl (λ s2.
          Follows-and_then (take 3 (drop 3 stages)) (drop 6 stages) s2 (bind_osg lua run s2) _
            (bind_osg-Follows s2)
            (λ s3. step-Follows bind_kernel (drop 7 stages) s3 _ refl refl (λ s4.
              step-Follows bind_sonix (drop 8 stages) s4 _ refl refl (λ s5.
                step-Follows bind_gadget_interfaces (drop 9 stages) s5 _ refl refl (λ s6.
                  step-Follows bind_run_buffer (drop 10 stages) s6 _ refl refl (λ s7.
                    step-Follows bind_vrjlua (drop 11 stages) s7 _ refl refl (λ s8.
                      step-Follows bind_app_proxy (drop 12 stages) s8 _ refl refl
                        (λ s9. call_stage-Follows set_pcall_callback s9 refl refl)))))))))

  -- The script behind all stages and the module that is required then.
  abbrev pub initialised_script : Bindings lua → State → Script lua → Script lua
  initialised_script luabind t script =
      let bound = with_lua lua t script in
      required lua run (require_module lua luabind (codes "vrjlua-init") true bound) bound

  -- Garbage is collected again, and what ended the construction is as it was.
  abbrev pub collecting : Failure lua → Failure lua
  collecting (threw texts e s) = threw texts e (Option.map restart_gc s)
  collecting (terminated texts) = terminated texts
  collecting (lua_raised texts text s) = lua_raised texts text s

  -- The result of a construction on `s`, on which garbage collection is stopped first.
  abbrev pub Constructed : Bindings lua → Script lua → State → Built lua run → Type 0
  Constructed luabind script s (built errors result) =
      (errors ≡ [])
      × (t : State) × Passed stages (openlibs (stop_gc s)) t
      × (let bound = initialised_script luabind t script in
          result ≡ record bound { state = Option.map restart_gc bound.state })
  Constructed luabind script s (not_built errors f) =
      (errors ≡ [])
      × (g : Failure lua) × Stopped stages (openlibs (stop_gc s)) g
      × (f ≡ collecting g)

  -- A new script on a state that could be allocated: garbage collection is stopped and the libraries are
  -- opened; then either all thirteen stages succeed, each once and in order, the module vrjlua-init is
  -- required and garbage is collected again; or the first stage that raises an exception, or that loads
  -- wrappers of OSG and does not return true, ends it, with nothing bound behind it. An exception is
  -- passed on with the collection restarted, is told of just where it comes from connecting luabind, and
  -- terminates the program where it comes from loading wrappers. Without a state to be had, or where none
  -- is asked for, there is a script without a state; binding such a script throws.
  pub new_script_lem :
      (luabind : Bindings lua) (s : State) (script : Script lua)
      → Constructed luabind script s (new_script lua run true (some s) luabind script)
        × ((result : Script lua) × (text : Bytes) × (new_script lua run true none luabind script
              ≡ built (text ∷ []) result)
            × (result.state ≡ none))
        × ((result : Script lua) × (new_script lua run false (some s) luabind script
              ≡ built [] result)
            × (result.state ≡ none))
        × ((text : Bytes) × (borrow_script lua run none true luabind script
              ≡ not_built (text ∷ []) (threw [] no_valid_state none)))
  unfolding new_script apply_bindings borrow_script
  new_script_lem luabind s script = (
    at (bind_all lua run (openlibs (stop_gc s))) (bind_all-Follows (openlibs (stop_gc s))),
    (_, _, refl, refl),
    (_, refl, refl),
    (_, refl),
  )
    where
      at :
          (a : Attempt lua)
          → Follows stages (openlibs (stop_gc s)) a
          → Constructed luabind script s (
              restart lua run (elim a [
                | failed f ↦ not_built [] f
                | went_on t ↦ built [] (initialised_script luabind t script)
              ]))
      at (went_on t) h = (refl, t, h, refl)
      at (failed (threw texts e t)) h = (refl, threw texts e t, h, refl)
      at (failed (terminated texts)) h = (refl, terminated texts, h, refl)
      at (failed (lua_raised texts text t)) h = (refl, lua_raised texts text t, h, refl)
