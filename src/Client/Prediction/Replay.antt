-- ===== src/Client/Prediction/Replay.antt =====
-- The rollback of client/src/prediction.cpp against the server's own steps.
use untitled.Base.{◌≡◌, refl, sym, ap, ◌∙◌, List, [], ◌∷◌}
use untitled.Base.{Bool, true, false, not, ltb, if◌then◌else◌, keep}
use untitled.Sim.Float.{Fpu}
use untitled.Sim.Character.{Character, CharacterInput, Vec3}
use untitled.Sim.Character.Rules.{step_character_airborne}
use untitled.Net.Snapshot.{EntityState}
use untitled.World.Simulation.{Body, body_state, step_body}
use untitled.Client.Prediction.{
  Prediction, reconcile_active, simulate, replay, rewind, reconcile, settle_correction, drop_acked,
  tick_seconds,
}
use untitled.Client.Prediction.Pending.{IsPrediction, drop_acked-eq-keep}

-- The server's player after it has been given inputs, one before each tick.
unfoldable pub serve : Fpu → Body → List CharacterInput → Body
unfolding step_body
serve fpu b [] = b
serve fpu b (i ∷ is) = serve fpu (step_body fpu tick_seconds (record b { input = i })) is

module _ (fpu : Fpu) where
  serve-replay :
      (is : List CharacterInput) (b : Body) → (serve fpu b is).character ≡ replay fpu b.character is
  unfolding serve replay simulate step_body
  serve-replay [] b = refl
  serve-replay (i ∷ is) b = serve-replay is (step_body fpu tick_seconds (record b { input = i }))

  if-character :
      (b : Bool) (p q : Prediction) (c : Character)
      → p.character ≡ c
      → q.character ≡ c
      → (if b then p else q).character ≡ c
  if-character true p q c h k = h
  if-character false p q c h k = k

  if-active : (b : Bool) (p q : Prediction) → b ≡ true → (if not b then p else q) ≡ q
  if-active true p q h = refl
  if-active false p q h = cc

  settle_correction-character :
      (before : Vec3) (p : Prediction) → (settle_correction fpu before p).character ≡ p.character
  unfolding settle_correction
  settle_correction-character before p = search if-character

  reconcile-character :
      (a : EntityState) (p : Prediction)
      → p.active ≡ true
      → (reconcile fpu a p).character
        ≡ replay fpu (rewind fpu a p.character) (drop_acked a.last_input_sequence p.pending)
  unfolding reconcile reconcile_active
  reconcile-character a p on =
      let left = drop_acked a.last_input_sequence p.pending in
      let q : Prediction = record p {
        pending = left;
        character = replay fpu (rewind fpu a p.character) left;
      } in
      ap (λ (t : Prediction). t.character) (if-active p.active p (reconcile_active fpu a p) on)
      ∙ settle_correction-character p.character.position q

  -- The position and the velocity come from the state of the body, the rest from the client.
  rewind-body_state :
      (b : Body) (c : Character)
      → c.grounded ≡ b.character.grounded
      → c.facing_yaw ≡ b.character.facing_yaw
      → rewind fpu (body_state fpu b) c ≡ b.character
  unfolding rewind body_state
  rewind-body_state b c g f = cc

  -- An active prediction whose history is in order, and whose character agrees with the server on
  -- whether it is grounded and where it faces, is brought by the state of its body on the server
  -- to where the server takes that body with the inputs that the state has not acknowledged, one
  -- in each tick.
  pub reconcile-serve :
      (b : Body) (p : Prediction)
      → p.active ≡ true
      → IsPrediction p
      → p.character.grounded ≡ b.character.grounded
      → p.character.facing_yaw ≡ b.character.facing_yaw
      → (reconcile fpu (body_state fpu b) p).character
        ≡ (serve fpu b (
            keep
              (λ (i : CharacterInput). ltb b.last_input_sequence i.sequence)
              p.pending)).character
  unfolding body_state
  reconcile-serve b p on v g f =
      let acked = b.last_input_sequence in
      let left = keep (λ (i : CharacterInput). ltb acked i.sequence) p.pending in
      reconcile-character (body_state fpu b) p on
      ∙ ap (replay fpu (rewind fpu (body_state fpu b) p.character))
          (drop_acked-eq-keep acked p.pending v.ascending)
      ∙ ap (λ (c : Character). replay fpu c left) (rewind-body_state b p.character g f)
      ∙ sym (serve-replay left b)

  -- When the character of an active prediction is in the air and the first input that is not
  -- acknowledged is a jump, a rollback replays it as if it were none, wherever the server's state
  -- has the character.
  pub reconcile_airborne :
      (a : EntityState) (p : Prediction) (i : CharacterInput) (is : List CharacterInput)
      → p.active ≡ true
      → p.character.grounded ≡ false
      → drop_acked a.last_input_sequence p.pending ≡ (record i { jump = true }) ∷ is
      → (reconcile fpu a p).character
        ≡ replay fpu (rewind fpu a p.character) (record i { jump = false } ∷ is)
  unfolding replay simulate rewind
  reconcile_airborne a p i is on air left =
      reconcile-character a p on
      ∙ ap (replay fpu (rewind fpu a p.character)) left
      ∙ ap (λ (c : Character). replay fpu c is)
          (step_character_airborne fpu (rewind fpu a p.character) i tick_seconds air)
