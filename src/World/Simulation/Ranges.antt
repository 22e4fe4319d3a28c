-- ===== src/World/Simulation/Ranges.antt =====
-- What server/worldserver/src/simulation.cpp holds stays in the ranges of its types, so that the
-- snapshots that it builds can be read.
use untitled.Base.{ℕ, ◌+◌, ◌%◌, ◌^◌, ◌≤◌, ◌<◌, ◌≡◌, refl, arith, All, List, [], ◌∷◌, ◌++◌, length}
use untitled.Base.{Bool-cases, inl, inr, subst}
use untitled.Base.{Option, none, some, Bool, true, false, if◌then◌else◌, ltb, ◌==◌, not, ◌&&◌}
use untitled.Base.Maps.{Map, find, put, erase, All-insert}
use untitled.Sim.Float.{Fpu}
use untitled.Sim.Character.{CharacterInput, no_input}
use untitled.Sim.Character.Ranges.{IsFpu, IsInput, IsCharacter, step_character-IsCharacter}
use untitled.Net.Snapshot.{Snapshot, decode_snapshot, encode_snapshot, max_entities_per_snapshot}
use untitled.Net.Snapshot.Entity.{IsFloat, IsVec3, IsEntity}
use untitled.Net.Snapshot.Packet.{IsSnapshot, decode-encode}
use untitled.World.Simulation.{
  Simulation, Body, add_player, add_player_on, remove_player, set_input, set_input_on, step,
  step_bodies, step_body, step_clock, step_cube, set_time_of_day, set_time_speed, reset_clock,
  reanchor, init, shutdown, body_states, body_state, build_snapshot, cube_state, spawn,
  new_simulation,
}
use untitled.World.Simulation.Entities.{
  Call, apply, run, adds, removes, sets_input, steps, sets_time, sets_speed, resets, inits,
  shuts_down,
}

pub record IsBody (p : Body) : Type 0 where
  pub entity : p.entity_id < 2 ^ 32
  pub character : IsCharacter p.character
  pub input : IsInput p.input
  pub last : p.last_input_sequence < 2 ^ 32

pub record IsRanged (s : Simulation) : Type 0 where
  pub players : All (λ (e : ℕ × Body). IsBody e.1) s.players
  pub next : s.next_entity_id < 2 ^ 32
  pub tick : s.tick < 2 ^ 32
  pub day : IsFloat s.time_of_day
  pub position : IsVec3 s.cube_position
  pub velocity : IsVec3 s.cube_velocity
  pub rotation_x : IsFloat s.cube_rotation.x
  pub rotation_y : IsFloat s.cube_rotation.y
  pub rotation_z : IsFloat s.cube_rotation.z
  pub rotation_w : IsFloat s.cube_rotation.w

abbrev pub Ranged : Map Body → Type 0
Ranged d = All (λ (e : ℕ × Body). IsBody e.1) d

Ranged-if : (b : Bool) (d d' : Map Body) → Ranged d → Ranged d' → Ranged (if b then d else d')
Ranged-if true d d' p q = p
Ranged-if false d d' p q = q

Ranged-erase : (k : ℕ) (d : Map Body) → Ranged d → Ranged (erase k d)
Ranged-erase k [] h = tt
Ranged-erase k ((j, p) ∷ d) (x, h) =
    Ranged-if (k == j) _ _ (Ranged-erase k d h) (x, Ranged-erase k d h)

Ranged-put : (k : ℕ) (p : Body) (d : Map Body) → IsBody p → Ranged d → Ranged (put k p d)
Ranged-put k p [] x h = tt
Ranged-put k p ((j, q) ∷ d) x (y, h) = Ranged-if (k == j) _ _ (x, h) (y, Ranged-put k p d x h)

Ranged-find : (k : ℕ) (d : Map Body) (p : Body) → Ranged d → find k d ≡ some p → IsBody p
Ranged-find k [] p h e = cc
Ranged-find k ((j, q) ∷ d) p (y, h) e = elim (Bool-cases (k == j)) [
  | inl same ↦ let eq : q ≡ p = ground (arith, e, same) in subst IsBody eq y
  | inr other ↦ Ranged-find k d p h (ground (arith, e, other))
]

-- The inputs of a call are in range.
abbrev pub IsCall : Call → Type 0
IsCall (sets_input _ input) = IsInput input
IsCall _ = Unit

module _ (fpu : Fpu) (laws : IsFpu fpu) where
  spawn-IsCharacter : (count : ℕ) → IsCharacter (spawn fpu count)
  unfolding spawn
  spawn-IsCharacter count = search (laws.add_float, laws.mul_float, arith)

  add_player_on-IsRanged :
      (found : Option Body) (id : ℕ) (s : Simulation)
      → IsRanged s
      → IsRanged (add_player_on fpu found id s).1
  unfolding add_player_on
  add_player_on-IsRanged (some p) id s v = v
  add_player_on-IsRanged none id s v =
      let p : Body = record {
        entity_id = s.next_entity_id;
        character = spawn fpu (length s.players);
        input = no_input;
        last_input_sequence = 0;
      } in
      let fresh =
        All-insert (λ (e : ℕ × Body). IsBody e.1) id p s.players
          (record {
            entity = v.next;
            character = spawn-IsCharacter (length s.players);
            input = record { sequence = omega arith; yaw = omega arith };
            last = omega arith;
          })
          v.players in
      let bound : (s.next_entity_id + 1) % 2 ^ 32 < 2 ^ 32 = omega arith in search (fresh, bound, v)

  set_input_on-IsRanged :
      (found : Option Body) (id : ℕ) (input : CharacterInput) (s : Simulation)
      → find id s.players ≡ found
      → IsInput input
      → IsRanged s
      → IsRanged (set_input_on found id input s)
  unfolding set_input_on
  set_input_on-IsRanged none id input s e w v = v
  set_input_on-IsRanged (some p) id input s e w v =
      let b = Ranged-find id s.players p v.players e in
      let held =
        Ranged-put id (record p { input = input }) s.players
          (record { entity = b.entity; character = b.character; input = w; last = b.last })
          v.players in
      elim (Bool-cases (not (input.sequence == 0) && ltb input.sequence p.input.sequence)) [
        | inl old ↦ rw old v
        | inr new ↦ rw new (search (held, v))
      ]

  step_bodies-Ranged : (delta : ℕ) (d : Map Body) → Ranged d → Ranged (step_bodies fpu delta d)
  unfolding step_bodies step_body
  step_bodies-Ranged delta [] h = tt
  step_bodies-Ranged delta ((j, p) ∷ d) (x, h) = (
    record {
      entity = x.entity;
      character = step_character-IsCharacter fpu laws p.character p.input delta x.input x.character;
      input = record { sequence = x.input.sequence; yaw = x.input.yaw };
      last = x.input.sequence;
    },
    step_bodies-Ranged delta d h,
  )

  pub apply-IsRanged :
      (call : Call) (s : Simulation) → IsCall call → IsRanged s → IsRanged (apply fpu call s)
  unfolding apply add_player set_input remove_player step step_clock step_cube set_time_of_day
      set_time_speed reset_clock reanchor init shutdown
  apply-IsRanged (adds id) s w v = add_player_on-IsRanged (find id s.players) id s v
  apply-IsRanged (removes id) s w v = search (Ranged-erase, v)
  apply-IsRanged (sets_input id input) s w v =
      set_input_on-IsRanged (find id s.players) id input s refl w v
  apply-IsRanged (steps now delta) s w v =
      let tick : (s.tick + 1) % 2 ^ 32 < 2 ^ 32 = omega arith in
      search (
        step_bodies-Ranged, tick, laws.add_float, laws.sub_float, laws.mul_float, laws.narrow_float,
        v, arith,
      )
  apply-IsRanged (sets_time now time) s w v = search (laws.sub_float, v)
  apply-IsRanged (sets_speed now speed) s w v = search v
  apply-IsRanged (resets now seconds) s w v = search (laws.div_float, v)
  apply-IsRanged (inits now seconds speed) s w v = search (laws.div_float, laws.add_float, v, arith)
  apply-IsRanged shuts_down s w v = search v

  pub apply_steps-IsRanged :
      (now delta : ℕ) (s : Simulation) → IsRanged s → IsRanged (step fpu now delta s)
  unfolding apply
  apply_steps-IsRanged now delta s v = apply-IsRanged (steps now delta) s tt v

  run-IsRanged :
      (calls : List Call) (s : Simulation)
      → All IsCall calls
      → IsRanged s
      → IsRanged (run fpu calls s)
  unfolding run
  run-IsRanged [] s w v = v
  run-IsRanged (call ∷ calls) s (w, ws) v = run-IsRanged calls _ ws (apply-IsRanged call s w v)

  body_states-IsEntity : (d : Map Body) → Ranged d → All IsEntity (body_states fpu d)
  unfolding body_states body_state
  body_states-IsEntity [] h = tt
  body_states-IsEntity ((j, p) ∷ d) (x, h) =
      (search (laws.sin_float, laws.cos_float, x, arith), body_states-IsEntity d h)

  pub build_snapshot-IsSnapshot :
      (s : Simulation) (out : Snapshot)
      → IsRanged s
      → out.server_time_ms < 2 ^ 64
      → IsSnapshot (build_snapshot fpu s out)
  unfolding build_snapshot cube_state
  build_snapshot-IsSnapshot s out v h =
      let players = body_states-IsEntity s.players v.players in search (players, h, v, arith)

pub length-body_states : (fpu : Fpu) (d : Map Body) → length (body_states fpu d) ≡ length d
unfolding body_states
length-body_states fpu [] = refl
length-body_states fpu (e ∷ d) = omega (arith, length-body_states fpu d)

pub length-build_snapshot :
    (fpu : Fpu) (s : Simulation) (out : Snapshot)
    → length s.players < max_entities_per_snapshot
    → length (build_snapshot fpu s out).entities ≤ max_entities_per_snapshot
unfolding build_snapshot
length-build_snapshot fpu s out h = omega (arith, length-body_states fpu s.players)

new_simulation-IsRanged : IsRanged new_simulation
new_simulation-IsRanged = search arith

-- x
pub decode_snapshot-build_snapshot :
    (fpu : Fpu) (calls : List Call) (out held : Snapshot) (rest : List ℕ)
    → IsFpu fpu
    → All IsCall calls
    → out.server_time_ms < 2 ^ 64
    → length (run fpu calls new_simulation).players < max_entities_per_snapshot
    → decode_snapshot
        (encode_snapshot (build_snapshot fpu (run fpu calls new_simulation) out) [] ++ rest)
        held
      ≡ (true, build_snapshot fpu (run fpu calls new_simulation) out)
decode_snapshot-build_snapshot fpu calls out held rest laws w h few =
    let s = run fpu calls new_simulation in
    decode-encode (build_snapshot fpu s out)
      (build_snapshot-IsSnapshot fpu laws s out
        (run-IsRanged fpu laws calls new_simulation w new_simulation-IsRanged) h)
      rest held (length-build_snapshot fpu s out few)
