-- ===== src/FltkConsole/Typing.antt =====
-- The run buttons of vrjugglua/fltk-console/FLTKConsole.cpp and vrjugglua/qt-console/QTConsole.cpp, given
-- the same text over the same console.
use vr_jugglua.Prelude.{
  ◌≡◌, refl, sym, ap, ◌∙◌, Bool, true, false, [], ◌++◌, some, Bytes, codes, if◌then◌else◌,
}
use vr_jugglua.Lua.{Api}
use vr_jugglua.CircularBuffer.{CircularBuffer, RingLaws}
use vr_jugglua.ScriptHost.{returned}
use vr_jugglua.SyncBuffer.{Operation, then_do, Cluster, SyncBuffer}
use vr_jugglua.Console.{Console, shown_text, console_add_string}
use vr_jugglua.Console.Adding.{takes, Taken, console_add_lem}
use vr_jugglua.CodeInput.{Qt}
use vr_jugglua.QtConsole as Window
use vr_jugglua.QtConsole.{QtConsole, text_display, emit, replicate, add_text_to_display}
use vr_jugglua.QtConsole.Events.{on_button_run, done}
use vr_jugglua.QtConsole.Showing.{repeat-text_display}
use vr_jugglua.FltkConsole.{FltkConsole, append_to_view, add_string, run_input}

module _ (qt : Qt) (lua : Api) (ring : CircularBuffer) where
  -- What the two buttons leave, `ok` says whether the chunk is taken.
  abbrev pub BothRan :
      Cluster
      → Bool
      → Bytes
      → FltkConsole lua ring
      → QtConsole lua ring
      → SyncBuffer lua ring
      → Type 0
  BothRan cluster acquired str f q b =
      let ok = takes lua ring cluster acquired b in
      (t : FltkConsole lua ring) × (u : QtConsole lua ring) × (after : SyncBuffer lua ring)
      × (run_input lua ring cluster acquired f ≡ some (returned t))
      × (on_button_run qt lua ring cluster acquired q ≡ some (returned u))
      × (t.console ≡ u.console)
      × (u.console.runbuf ≡ some after)
      × Taken lua ring ok str b after
      × (t.input_buf ≡ (if ok then [] else str))
      × (u.plain_text_edit ≡ [])
      × (t.code_buf ≡ f.code_buf ++ (shown_text lua ring ok str ++ codes "\n"))
      × (u.plain_text_edit_log
          ≡ q.plain_text_edit_log ++ replicate q.connections (shown_text lua ring ok str))

  abbrev cleared : Bool → FltkConsole lua ring → FltkConsole lua ring
  cleared ok t = if ok then record t { input_buf = [] } else t

  cleared_same :
      (ok : Bool) (t : FltkConsole lua ring)
      → ((cleared ok t).console ≡ t.console)
        × ((cleared ok t).input_buf ≡ (if ok then [] else t.input_buf))
        × ((cleared ok t).code_buf ≡ t.code_buf)
  cleared_same true t = (refl, refl, refl)
  cleared_same false t = (refl, refl, refl)

  -- Qt's button behind the addition of the text.
  abbrev emptied :
      QtConsole lua ring
      → Bytes
      → Operation (Bool × Console lua ring)
      → Operation (QtConsole lua ring)
  emptied q str o = done qt lua ring (
      then_do o (λ (x : Bool × Console lua ring). some (
        returned (
          x.0,
          emit lua ring true (text_display (shown_text lua ring x.0 str))
              (record q { console = x.1; plain_text_edit = [] }),
        ))))

  -- Over consoles that extend the same one, which has an initialised run buffer, the two buttons do the
  -- same to it for the same text: they give it to the run buffer, and leave the same console. The text, or
  -- the message that it was refused, is put behind what each window shows (in Qt's once for each
  -- connection of the signal). They differ in the text that is left for the user: Qt's console clears the
  -- input always, FLTK's only where the text was taken, and keeps it otherwise.
  pub buttons_lem :
      RingLaws ring
      → (cluster : Cluster) (acquired : Bool) (f : FltkConsole lua ring) (q : QtConsole lua ring)
        (b : SyncBuffer lua ring)
      → f.console ≡ q.console
      → f.input_buf ≡ q.plain_text_edit
      → f.console.runbuf ≡ some b
      → b.initialised ≡ true
      → BothRan cluster acquired f.input_buf f q b
  unfolding run_input on_button_run Window.add_string add_string emit
  buttons_lem laws cluster acquired f q b same_console same_text found on =
      let str = f.input_buf in
      let ok = takes lua ring cluster acquired b in
      let shown = shown_text lua ring ok str in
      let (c, after, added, runbuf, taken, display, script) =
        (console_add_lem lua ring laws cluster acquired str [] f.console b found on).0 in
      let r = append_to_view lua ring shown (record f { console = c }) in
      let w : QtConsole lua ring = record q { console = c; plain_text_edit = [] } in
      let (tc, ti, tb) = cleared_same ok r in
      (
        cleared ok r,
        record w { plain_text_edit_log = q.plain_text_edit_log ++ replicate q.connections shown },
        after,
        ap
            (λ (o : Operation (Bool × Console lua ring)).
              then_do
                (then_do o (λ (x : Bool × Console lua ring). some (
                  returned (
                    x.0,
                    append_to_view lua ring (shown_text lua ring x.0 str)
                        (record f { console = x.1 }),
                  ))))
                (λ (x : Bool × FltkConsole lua ring). some (returned (cleared x.0 x.1))))
            added,
        ap (λ (s : Bytes). emptied q s (console_add_string lua ring cluster acquired s q.console))
              (sym same_text)
            ∙ ap
                (λ (k : Console lua ring).
                  emptied q str (console_add_string lua ring cluster acquired str k))
                (sym same_console)
            ∙ ap (emptied q str) added
            ∙ ap (λ (z : QtConsole lua ring). some (returned z))
                (repeat-text_display lua ring q.connections shown w),
        tc,
        runbuf,
        taken,
        ti,
        refl,
        tb,
        refl,
      )
