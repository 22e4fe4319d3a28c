-- ===== src/World/Simulation/Inputs.antt =====
-- The inputs and the clock of server/worldserver/src/simulation.cpp.
use untitled.Base.{ℕ, ◌≤◌, ◌≡◌, ◌≢◌, refl, arith, ◌⊎◌, inl, inr, Option, none, some, false}
use untitled.Base.{[], ◌∷◌, Bool-cases, not, ◌&&◌, ltb, ◌==◌}
use untitled.Base.Maps.{Map, find, find-put_self, find-put_ne}
use untitled.Sim.Float.{Fpu, one_f}
use untitled.Sim.Character.{CharacterInput, step_character}
use untitled.World.Simulation.{
  Simulation, Body, set_input, set_input_on, step, step_bodies, step_body, step_clock, step_cube,
  init, reset_clock, reanchor,
}

-- What an input leaves of the player that it is for.
pub record Follows (p q : Body) (input : CharacterInput) : Type 0 where
  pub same_entity : q.entity_id ≡ p.entity_id
  pub same_character : q.character ≡ p.character
  pub newer : (input.sequence ≡ 0) ⊎ (p.input.sequence ≤ q.input.sequence)

set_input_on-Follows :
    (p : Body) (id : ℕ) (input : CharacterInput) (s : Simulation)
    → find id s.players ≡ some p
    → (q : Body) × (find id (set_input_on (some p) id input s).players ≡ some q) × Follows p q input
unfolding set_input_on
set_input_on-Follows p id input s h =
    elim (Bool-cases (not (input.sequence == 0) && ltb input.sequence p.input.sequence)) [
      | inl old ↦ (
        p,
        rw old h,
        record { same_entity = refl; same_character = refl; newer = inr (omega arith) },
      )
      | inr new ↦ (
        record p { input = input },
        rw new (find-put_self id (record p { input = input }) s.players p h),
        record { same_entity = refl; same_character = refl; newer = ground (arith, new) },
      )
    ]

-- An input for a player that is there leaves its entity and its character, and, unless its
-- sequence number is 0, the number of the input that the player holds does not go back.
pub set_input-Follows :
    (p : Body) (id : ℕ) (input : CharacterInput) (s : Simulation)
    → find id s.players ≡ some p
    → (q : Body) × (find id (set_input id input s).players ≡ some q) × Follows p q input
unfolding set_input
set_input-Follows p id input s h = rw h (set_input_on-Follows p id input s h)

set_input_on-other :
    (found : Option Body) (id j : ℕ) (input : CharacterInput) (s : Simulation)
    → j ≢ id
    → find j (set_input_on found id input s).players ≡ find j s.players
unfolding set_input_on
set_input_on-other none id j input s h = refl
set_input_on-other (some p) id j input s h =
    ground (arith, find-put_ne j id (record p { input = input }) s.players h)

find-step_bodies :
    (fpu : Fpu) (delta id : ℕ) (d : Map Body) (p : Body)
    → find id d ≡ some p
    → find id (step_bodies fpu delta d) ≡ some (step_body fpu delta p)
unfolding step_bodies
find-step_bodies fpu delta id [] p h = cc
find-step_bodies fpu delta id ((j, q) ∷ d) p h =
    ground (arith, find-step_bodies fpu delta id d p, h)

-- x
pub step-find :
    (fpu : Fpu) (now delta id : ℕ) (s : Simulation) (p : Body)
    → find id s.players ≡ some p
    → find id (step fpu now delta s).players
      ≡ some (record {
        entity_id = p.entity_id;
        character = step_character fpu p.character p.input delta;
        input = record (p.input) { jump = false };
        last_input_sequence = p.input.sequence;
      })
unfolding step step_clock step_cube step_body
step-find fpu now delta id s p h = find-step_bodies fpu delta id s.players p h

-- Whatever speed the clock is started with, it runs at speed 1.
pub init_time_speed :
    (fpu : Fpu) (now seconds_today speed : ℕ) (s : Simulation)
    → (init fpu now seconds_today speed s).time_speed ≡ one_f
unfolding init reset_clock reanchor
init_time_speed fpu now seconds_today speed s = refl
