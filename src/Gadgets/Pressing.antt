-- ===== src/Gadgets/Pressing.antt =====
-- The buttons of vrjugglua/Internal_DigitalInterface.cpp over a run of frames.
use vr_jugglua.Prelude.{◌≡◌, refl, ap, ap₂, Bool, true, false, not, ◌&&◌, ◌||◌, List, [], ◌∷◌, map}
use vr_jugglua.Gadgets.{
  DigitalState, off, on, toggle_on, toggle_off, pressed, just_changed, just_pressed, just_released,
}

-- What Gadgeteer documents of the state that it gives a button: whether it was held in the frame before
-- and is held now.
pub record Toggles (update : Bool → Bool → DigitalState) : Type 0 where
  pub stays_off : update false false ≡ off
  pub goes_on : update false true ≡ toggle_on
  pub stays_on : update true true ≡ on
  pub goes_off : update true false ≡ toggle_off

-- The frames of a button, each by whether it is held, with what it was before.
module _ (update : Bool → Bool → DigitalState) where
  abbrev pub states : Bool → List Bool → List DigitalState
  states before [] = []
  states before (held ∷ frames) = update before held ∷ states held frames

  -- The frames in which the button is held and was not in the one before, or the other way round.
  abbrev pub presses : Bool → List Bool → List Bool
  presses before [] = []
  presses before (held ∷ frames) = (held && not before) ∷ presses held frames

  abbrev pub releases : Bool → List Bool → List Bool
  releases before [] = []
  releases before (held ∷ frames) = (not held && before) ∷ releases held frames

  abbrev pub changes : Bool → List Bool → List Bool
  changes before [] = []
  changes before (held ∷ frames) =
      ((held && not before) || (not held && before)) ∷ changes held frames

  abbrev Seen : List DigitalState → List Bool → List Bool → List Bool → List Bool → Type 0
  Seen seen held changed went_down went_up =
      (map (λ s. pressed s s) seen ≡ held)
      × (map (λ s. just_changed s s) seen ≡ changed)
      × (map just_pressed seen ≡ went_down)
      × (map just_released seen ≡ went_up)

  frame :
      (state known : DigitalState)
      → state ≡ known
      → (seen : List DigitalState) (held changed went_down went_up : List Bool)
      → Seen seen held changed went_down went_up
      → Seen
          (state ∷ seen)
          (pressed known known ∷ held)
          (just_changed known known ∷ changed)
          (just_pressed known ∷ went_down)
          (just_released known ∷ went_up)
  frame state known same seen held changed went_down went_up (p, c, d, u) = (
    ap₂ ◌∷◌ (ap (λ (s : DigitalState). pressed s s) same) p,
    ap₂ ◌∷◌ (ap (λ (s : DigitalState). just_changed s s) same) c,
    ap₂ ◌∷◌ (ap just_pressed same) d,
    ap₂ ◌∷◌ (ap just_released same) u,
  )

  -- Where the state of a button does not change between two reads in one frame, a script sees for each
  -- frame of a run whether the button is held, and it sees a change, a press and a release just in the
  -- frames in which the button is held and was not before, or the other way round, or either.
  pub digital_lem :
      Toggles update
      → (before : Bool) (frames : List Bool)
      → (map (λ s. pressed s s) (states before frames) ≡ frames)
        × (map (λ s. just_changed s s) (states before frames) ≡ changes before frames)
        × (map just_pressed (states before frames) ≡ presses before frames)
        × (map just_released (states before frames) ≡ releases before frames)
  unfolding pressed just_changed just_pressed just_released
  digital_lem laws before [] = (refl, refl, refl, refl)
  digital_lem laws false (false ∷ frames) =
      frame (update false false) _ laws.stays_off (states false frames) _ _ _ _
        (digital_lem laws false frames)
  digital_lem laws false (true ∷ frames) =
      frame (update false true) _ laws.goes_on (states true frames) _ _ _ _
        (digital_lem laws true frames)
  digital_lem laws true (true ∷ frames) =
      frame (update true true) _ laws.stays_on (states true frames) _ _ _ _
        (digital_lem laws true frames)
  digital_lem laws true (false ∷ frames) =
      frame (update true false) _ laws.goes_off (states false frames) _ _ _ _
        (digital_lem laws false frames)
