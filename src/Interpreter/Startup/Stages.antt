-- ===== src/Interpreter/Startup/Stages.antt =====
-- A run of `pmain` on an accepted command line, against the stages that the command line asks for.
use mathlib.Core.Option
use vr_jugglua.Prelude.{
  ℕ, zero, suc, ◌≡◌, refl, sym, ap, ◌∙◌, fun_ext, ap₂, Bool, true, false, not, ◌&&◌, List, [], ◌∷◌,
  Option, none, some, Bytes, codes, arith, ◌==◌, if◌then◌else◌, Bool-cases, inl, inr,
}
use vr_jugglua.Lua.{Api, Laws}
use vr_jugglua.CommandLine.{Flags, no_flags, collectargs}
use vr_jugglua.CommandLine.Grammar.{
  Opt, Ending, nothing_more, dashes, dashes_script, script, script_index, flags,
}
use vr_jugglua.CommandLine.Grammar.Reject.{AreNulFree, Described, collectargs_only}
use vr_jugglua.CommandLine.Grammar.Perform.{perform, runargs-Described}
use vr_jugglua.Interpreter.{Process, dostring, dolibrary}
use vr_jugglua.Interpreter.Script.{handle_script}
use vr_jugglua.Interpreter.Repl.Session.{dotty_lem}
use vr_jugglua.Interpreter.Startup.{
  Environment, print_version, handle_luainit, set_up, interactive_mode, last_stage, stage_then,
  from_script, from_options, pmain,
}

module _ (lua : Api) where
  -- Stages in order, to the first that fails.
  abbrev pub after : ℕ × Process lua → (Process lua → ℕ × Process lua) → ℕ × Process lua
  after (zero, p) stages = stages p
  after (suc n, p) stages = (suc n, p)

  abbrev pub run_stages : List (Process lua → ℕ × Process lua) → Process lua → ℕ × Process lua
  run_stages [] p = (0, p)
  run_stages (stage ∷ stages) p = after (stage p) (run_stages stages)

  -- A stage of the model that returns.
  abbrev pub Finished : Option (ℕ × Process lua) → Type 0
  Finished o = (r : ℕ × Process lua) × (o ≡ some r)

  stage_then-after :
      (r : ℕ × Process lua) (stages : Process lua → ℕ × Process lua)
      (next : Process lua → Option (ℕ × Process lua))
      → stage_then lua r (λ q. stage_then lua (stages q) next)
        ≡ stage_then lua (after r stages) next
  stage_then-after (zero, q) stages next = refl
  stage_then-after (suc n, q) stages next = refl

  after_done : (r : ℕ × Process lua) → after r (λ q. (0, q)) ≡ r
  after_done (zero, q) = refl
  after_done (suc n, q) = refl

  abbrev pub options_stage : Environment lua → List Opt → Process lua → ℕ × Process lua
  options_stage env os p =
      perform (λ (chunk : Bytes). dostring lua chunk (codes "=(command line)")) (dolibrary lua) os
        (if (flags os no_flags).has_v then print_version lua env p else p)

  abbrev pub has_script : Ending → Bool
  has_script nothing_more = false
  has_script dashes = false
  has_script _ = true

  abbrev pub script_stage : List Bytes → List Opt → Ending → Process lua → ℕ × Process lua
  script_stage argv os nothing_more p = (0, p)
  script_stage argv os dashes p = (0, p)
  script_stage argv os e p = handle_script lua argv (script_index 1 os e) p

  from_script_at :
      (env : Environment lua) (argv : List Bytes) (k : ℕ) (f : Flags) (p : Process lua)
      → (k == 0) ≡ false
      → from_script lua env argv k f p
        ≡ stage_then lua (run_stages (handle_script lua argv k ∷ []) p) (last_stage lua env true f)
  unfolding from_script
  from_script_at env argv k f p h = rw h (
      ap (λ (r : ℕ × Process lua). stage_then lua r (last_stage lua env true f))
        (sym (after_done (handle_script lua argv k p))))

  from_script_stages :
      (env : Environment lua) (argv : List Bytes) (os : List Opt) (e : Ending) (f : Flags)
      (p : Process lua)
      → from_script lua env argv (script_index 1 os e) f p
        ≡ stage_then lua
            (run_stages (script_stage argv os e ∷ []) p)
            (last_stage lua env (has_script e) f)
  from_script_stages env argv os nothing_more f p = unfold from_script in refl
  from_script_stages env argv os dashes f p = unfold from_script in refl
  from_script_stages env argv os (dashes_script s args) f p =
      from_script_at env argv _ f p (ground arith)
  from_script_stages env argv os (script s args) f p = from_script_at env argv _ f p (ground arith)

  options_stages :
      (env : Environment lua) (prog : Bytes) (args : List Bytes) (d : Described args)
      (q : Process lua)
      → let os = d.options in
        from_options lua env (prog ∷ args) (some (script_index 1 os d.ending), flags os no_flags) q
        ≡ stage_then lua
            (after
              (options_stage env os q)
              (run_stages (script_stage (prog ∷ args) os d.ending ∷ [])))
            (last_stage lua env (has_script d.ending) (flags os no_flags))
  unfolding from_options Option.bind
  options_stages env prog args d q =
      let os = d.options in
      let f = flags os no_flags in
      let i = script_index 1 os d.ending in
      ap
        (λ (r : Option (ℕ × Process lua)).
          Option.bind r (λ s. stage_then lua s (from_script lua env (prog ∷ args) i f)))
        (runargs-Described _ (dolibrary lua) prog args i _ d refl)
      ∙ ap (stage_then lua (options_stage env os q))
          (fun_ext (from_script_stages env (prog ∷ args) os d.ending f))
      ∙ stage_then-after (options_stage env os q) _ _

  -- On an accepted command line (its arguments hold no NUL byte) a run of `pmain` is, after the
  -- set-up, three stages, each made only if those before it gave status 0: the chunk or file of
  -- LUA_INIT; the `-e` and `-l` options in order, behind the version if `-i` or `-v` is among the options; the
  -- script, if there is one. Then comes the interactive mode or the standard input, as the flags ask.
  pub pmain_stages :
      (env : Environment lua) (prog : Bytes) (args : List Bytes) (r : ℕ) (f : Flags)
      (p : Process lua)
      → AreNulFree args
      → collectargs (prog ∷ args) ≡ (some r, f)
      → (d : Described args) × (pmain lua env (prog ∷ args) p
          ≡ stage_then lua
              (run_stages
                (handle_luainit lua env.luainit
                  ∷ options_stage env d.options
                  ∷ script_stage (prog ∷ args) d.options d.ending
                  ∷ [])
                (set_up lua env (prog ∷ args) p))
              (last_stage lua env (has_script d.ending) (flags d.options no_flags)))
  unfolding pmain
  pmain_stages env prog args r f p free h =
      let (d, at, set) = collectargs_only prog args r f free h in
      let init = handle_luainit lua env.luainit (set_up lua env (prog ∷ args) p) in
      let last = last_stage lua env (has_script d.ending) (flags d.options no_flags) in
      (
        d,
        ap (stage_then lua init) (
              fun_ext (λ q.
                ap (λ (c : Option ℕ × Flags). from_options lua env (prog ∷ args) c q)
                  (h ∙ ap₂ (λ (i : ℕ) (g : Flags). (some i, g)) at set)
                ∙ options_stages env prog args d q))
            ∙ stage_then-after init _ last,
      )

module _ (lua : Api) (laws : Laws lua) where
  interactive_mode-Finished : (p : Process lua) → Finished lua (interactive_mode lua p)
  interactive_mode-Finished p =
      let (q, ran, _, _, _) = dotty_lem lua laws p in ((0, q), rw ran refl)

  last_stage-Finished :
      (env : Environment lua) (b : Bool) (f : Flags) (p : Process lua)
      → Finished lua (last_stage lua env b f p)
  unfolding last_stage
  last_stage-Finished env b f p = elim (Bool-cases f.has_i) [
    | inl i ↦ rw i (interactive_mode-Finished p)
    | inr no_i ↦ elim (Bool-cases (not b && not f.has_e && not f.has_v)) [
      | inl bare ↦ elim (Bool-cases env.stdin_is_tty) [
        | inl tty ↦ rw (no_i, bare, tty) (interactive_mode-Finished (print_version lua env p))
        | inr no_tty ↦ rw (no_i, bare, no_tty) (_, refl)
      ]
      | inr more ↦ rw (no_i, more) (_, refl)
    ]
  ]

  stage_then-Finished :
      (r : ℕ × Process lua) (next : Process lua → Option (ℕ × Process lua))
      → ((q : Process lua) → Finished lua (next q))
      → Finished lua (stage_then lua r next)
  stage_then-Finished (zero, q) next h = h q
  stage_then-Finished (suc n, q) next h = ((suc n, q), refl)

  -- Whatever the arguments (free of NUL bytes) and the chunks are, no assertion of `pmain` fails and no
  -- loop of it runs on. The errors that end it early are outside: those of `luaL_checkstack` in
  -- `getargs` and of `luaopen_vrjugglua`.
  pmain-Finished :
      (env : Environment lua) (prog : Bytes) (args : List Bytes) (p : Process lua)
      → AreNulFree args
      → Finished lua (pmain lua env (prog ∷ args) p)
  pmain-Finished env prog args p free = go (collectargs (prog ∷ args)) refl
    where
      refused :
          (f : Flags)
          → collectargs (prog ∷ args) ≡ (none, f)
          → (q : Process lua)
          → Finished lua (from_options lua env (prog ∷ args) (collectargs (prog ∷ args)) q)
      refused f h q = rw h (unfold from_options in (_, refl))

      go :
          (c : Option ℕ × Flags)
          → collectargs (prog ∷ args) ≡ c
          → Finished lua (pmain lua env (prog ∷ args) p)
      go (none, f) h =
          unfold pmain in
          stage_then-Finished (handle_luainit lua env.luainit (set_up lua env (prog ∷ args) p))
            (from_options lua env (prog ∷ args) (collectargs (prog ∷ args))) (refused f h)
      go (some r, f) h =
          let (d, e) = pmain_stages lua env prog args r f p free h in
          rw e (stage_then-Finished _ _ (last_stage-Finished env _ _))
