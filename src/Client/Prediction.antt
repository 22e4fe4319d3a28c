-- ===== src/Client/Prediction.antt =====
-- client/src/prediction.h and client/src/prediction.cpp: the local character ahead of the server.
pub mod Pending
pub mod Replay
use untitled.Base.{ℕ, ◌+◌, ◌%◌, ◌^◌, Bool, true, false, not, List, [], ◌∷◌, ◌++◌, length}
use untitled.Base.{ltb, leb, if◌then◌else◌}
use untitled.Sim.Float.{Fpu, lt, le, zero_f}
use untitled.Sim.Character.{Vec3, Character, CharacterInput, origin, no_character, step_character}
use untitled.Net.Snapshot.{EntityState}

-- 0.02, 0.08, 2 and 1 / 60.
abbrev pub position_tolerance : ℕ
position_tolerance = 0x3ca3d70a

abbrev pub smoothing_half_life : ℕ
smoothing_half_life = 0x3da3d70a

abbrev pub max_smoothed_correction : ℕ
max_smoothed_correction = 0x40000000

abbrev pub tick_seconds : ℕ
tick_seconds = 0x3c888889

abbrev pub max_pending : ℕ
max_pending = 256

pub record Prediction : Type 0 where
  pub character : Character
  pub active : Bool
  pub pending : List CharacterInput
  pub next_sequence : ℕ
  pub smoothing_offset : Vec3
  pub rollbacks : ℕ
  pub last_correction : ℕ

unfoldable pub shutdown : Prediction → Prediction
shutdown p = record p { character = no_character; pending = []; active = false }

unfoldable pub init : Vec3 → Prediction → Prediction
unfolding shutdown
init spawn p = record (shutdown p) {
  character = record no_character { position = spawn };
  pending = [];
  next_sequence = 1;
  smoothing_offset = origin;
  rollbacks = 0;
  last_correction = zero_f;
  active = true;
}

-- The loop that bounds the history.
unfoldable pub trim : List CharacterInput → List CharacterInput
trim [] = []
trim (i ∷ is) = let rest = trim is in if ltb max_pending (length (i ∷ is)) then rest else i ∷ is

-- The loop that drops what is acknowledged.
unfoldable pub drop_acked : ℕ → List CharacterInput → List CharacterInput
drop_acked acked [] = []
drop_acked acked (i ∷ is) =
    let rest = drop_acked acked is in if leb i.sequence acked then rest else i ∷ is

module _ (fpu : Fpu) where
  unfoldable pub distance : Vec3 → Vec3 → ℕ
  distance a b =
      let dx = fpu.sub a.x b.x in
      let dy = fpu.sub a.y b.y in
      let dz = fpu.sub a.z b.z in
      fpu.sqrt (fpu.add (fpu.add (fpu.mul dx dx) (fpu.mul dy dy)) (fpu.mul dz dz))

  -- `simulateTick` on the character.
  unfoldable pub simulate : Character → CharacterInput → Character
  simulate c input = step_character fpu c input tick_seconds

  unfoldable pub replay : Character → List CharacterInput → Character
  unfolding simulate
  replay c [] = c
  replay c (i ∷ is) = replay (simulate c i) is

  unfoldable pub step : ℕ → ℕ → ℕ → Bool → Bool → Prediction → CharacterInput × Prediction
  unfolding simulate trim
  step forward right yaw jump sprint p =
      let input : CharacterInput = record {
        sequence = p.next_sequence;
        move_forward = forward;
        move_right = right;
        yaw = yaw;
        jump = jump;
        sprint = sprint;
      } in
      let counted = record p { next_sequence = (p.next_sequence + 1) % 2 ^ 32 } in
      if not p.active then (input, counted) else (
        input,
        record counted {
          character = simulate p.character input;
          pending = trim (p.pending ++ (input ∷ []));
        },
      )

  -- The character with the position and the velocity of the server.
  unfoldable pub rewind : EntityState → Character → Character
  rewind a c = record c {
    position = record { x = a.position.x; y = a.position.y; z = a.position.z };
    velocity = record { x = a.velocity.x; y = a.velocity.y; z = a.velocity.z };
  }

  -- `reconcile` behind the replay: `before` is where the character was.
  unfoldable pub settle_correction : Vec3 → Prediction → Prediction
  unfolding distance
  settle_correction before p =
      let now = p.character.position in
      let error = distance before now in
      let measured = record p { last_correction = error } in
      let counted = record measured { rollbacks = (p.rollbacks + 1) % 2 ^ 32 } in
      let o = p.smoothing_offset in
      if le error position_tolerance
      then measured
      else (if lt max_smoothed_correction error
          then record counted { smoothing_offset = origin }
          else record counted {
            smoothing_offset = record {
              x = fpu.add o.x (fpu.sub before.x now.x);
              y = fpu.add o.y (fpu.sub before.y now.y);
              z = fpu.add o.z (fpu.sub before.z now.z);
            };
          })

  -- `reconcile` behind its guard.
  unfoldable pub reconcile_active : EntityState → Prediction → Prediction
  unfolding drop_acked rewind replay settle_correction
  reconcile_active a p =
      let left = drop_acked a.last_input_sequence p.pending in
      settle_correction p.character.position
        (record p { pending = left; character = replay (rewind a p.character) left })

  unfoldable pub reconcile : EntityState → Prediction → Prediction
  unfolding reconcile_active
  reconcile a p = if not p.active then p else reconcile_active a p

  unfoldable pub update_smoothing : ℕ → Prediction → Prediction
  update_smoothing delta p =
      let decay = fpu.exp2 (fpu.div (fpu.neg delta) smoothing_half_life) in
      let o = p.smoothing_offset in
      record p {
        smoothing_offset = record {
          x = fpu.mul o.x decay;
          y = fpu.mul o.y decay;
          z = fpu.mul o.z decay;
        };
      }

  unfoldable pub render_position : Prediction → Vec3
  render_position p =
      let c = p.character.position in
      let o = p.smoothing_offset in
      if not p.active
      then origin
      else record { x = fpu.add c.x o.x; y = fpu.add c.y o.y; z = fpu.add c.z o.z }
