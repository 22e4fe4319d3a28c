-- ===== src/World/Simulation/Entities.antt =====
-- The entity ids that server/worldserver/src/simulation.cpp gives out.
use untitled.Base.{ℕ, ◌+◌, ◌%◌, ◌^◌, ◌≤◌, ◌<◌, ◌≡◌, ◌≢◌, refl, arith, All, List, [], ◌∷◌, length}
use untitled.Base.{Option, none, some, Bool, true, false, if◌then◌else◌, ap, ltb, ◌==◌, subst, sym}
use untitled.Base.Maps.{Map, find, insert, put, erase}
use untitled.Sim.Float.{Fpu}
use untitled.Sim.Character.{CharacterInput}
use untitled.Net.Snapshot.{Snapshot, EntityState}
use untitled.World.Simulation.{
  Simulation, Body, add_player, add_player_on, remove_player, set_input, set_input_on, step,
  step_bodies, step_body, step_clock, step_cube, set_time_of_day, set_time_speed, reset_clock,
  reanchor, init, shutdown, body_states, body_state, build_snapshot, cube_state, cube_entity_id,
  first_player_entity_id, new_simulation,
}

-- The operations, with what the clocks say.
pub data Call : Type 0 where
  adds removes : ℕ → Call
  sets_input : ℕ → CharacterInput → Call
  steps : ℕ → ℕ → Call
  sets_time sets_speed resets : ℕ → ℕ → Call
  inits : ℕ → ℕ → ℕ → Call
  shuts_down : Call

unfoldable pub apply : Fpu → Call → Simulation → Simulation
apply fpu (adds id) s = let (_, s') = add_player fpu id s in s'
apply fpu (removes id) s = remove_player id s
apply fpu (sets_input id input) s = set_input id input s
apply fpu (steps now delta) s = step fpu now delta s
apply fpu (sets_time now time) s = set_time_of_day fpu now time s
apply fpu (sets_speed now speed) s = set_time_speed now speed s
apply fpu (resets now seconds) s = reset_clock fpu now seconds s
apply fpu (inits now seconds speed) s = init fpu now seconds speed s
apply fpu shuts_down s = shutdown s

unfoldable pub run : Fpu → List Call → Simulation → Simulation
unfolding apply
run fpu [] s = s
run fpu (call ∷ calls) s = run fpu calls (apply fpu call s)

abbrev pub ids : Map Body → List ℕ
ids [] = []
ids ((_, p) ∷ more) = p.entity_id ∷ ids more

abbrev pub Misses : ℕ → List ℕ → Type 0
Misses n xs = All (λ x. n ≢ x) xs

abbrev pub Distinct : List ℕ → Type 0
Distinct [] = Unit
Distinct (x ∷ xs) = Misses x xs × Distinct xs

abbrev pub Within : ℕ → List ℕ → Type 0
Within n xs = All (λ x. (first_player_entity_id ≤ x) × (x < n)) xs

-- The entities of the players differ, lie above the scenery's and have been given out.
pub record IsSimulation (s : Simulation) : Type 0 where
  pub distinct : Distinct (ids s.players)
  pub within : Within s.next_entity_id (ids s.players)
  pub next : first_player_entity_id ≤ s.next_entity_id

All-if :
    (P : List ℕ → Type 0) (b : Bool) (d d' : Map Body)
    → P (ids d)
    → P (ids d')
    → P (ids (if b then d else d'))
All-if P true d d' p q = p
All-if P false d d' p q = q

ids-put :
    (k : ℕ) (p q : Body) (d : Map Body)
    → find k d ≡ some p
    → q.entity_id ≡ p.entity_id
    → ids (put k q d) ≡ ids d
ids-put k p q [] h e = refl
ids-put k p q ((j, r) ∷ d) h e = ground (arith, ids-put k p q d, h, e)

ids-step_bodies : (fpu : Fpu) (delta : ℕ) (d : Map Body) → ids (step_bodies fpu delta d) ≡ ids d
unfolding step_bodies step_body
ids-step_bodies fpu delta [] = refl
ids-step_bodies fpu delta ((k, p) ∷ d) = ap (◌∷◌ p.entity_id) (ids-step_bodies fpu delta d)

All-erase : (P : ℕ → Type 0) (k : ℕ) (d : Map Body) → All P (ids d) → All P (ids (erase k d))
All-erase P k [] h = tt
All-erase P k ((j, p) ∷ d) (x, h) =
    All-if (All P) (k == j) _ _ (All-erase P k d h) (x, All-erase P k d h)

Distinct-erase : (k : ℕ) (d : Map Body) → Distinct (ids d) → Distinct (ids (erase k d))
Distinct-erase k [] h = tt
Distinct-erase k ((j, p) ∷ d) (x, h) =
    All-if Distinct (k == j) _ _ (Distinct-erase k d h)
      (All-erase (λ y. p.entity_id ≢ y) k d x, Distinct-erase k d h)

All-insert_ids :
    (P : ℕ → Type 0) (k : ℕ) (p : Body) (d : Map Body)
    → P p.entity_id
    → All P (ids d)
    → All P (ids (insert k p d))
All-insert_ids P k p [] x h = (x, tt)
All-insert_ids P k p ((j, q) ∷ d) x (y, h) =
    All-if (All P) (ltb k j) _ _ (x, (y, h))
      (All-if (All P) (k == j) _ _ (x, h) (y, All-insert_ids P k p d x h))

Misses-above : (n : ℕ) (xs : List ℕ) → Within n xs → Misses n xs
Misses-above n [] w = tt
Misses-above n (x ∷ xs) (b, w) = (omega arith, Misses-above n xs w)

Distinct-insert :
    (k : ℕ) (p : Body) (d : Map Body)
    → Misses p.entity_id (ids d)
    → Distinct (ids d)
    → Distinct (ids (insert k p d))
Distinct-insert k p [] x h = (tt, tt)
Distinct-insert k p ((j, q) ∷ d) (x, m) (y, h) =
    All-if Distinct (ltb k j) _ _ ((x, m), (y, h))
      (All-if Distinct (k == j) _ _ (m, h)
        (All-insert_ids (λ z. q.entity_id ≢ z) k p d (omega arith) y, Distinct-insert k p d m h))

Within-grow : (m n : ℕ) (xs : List ℕ) → m ≤ n → Within m xs → Within n xs
Within-grow m n [] h w = tt
Within-grow m n (x ∷ xs) h (b, w) = (omega arith, Within-grow m n xs h w)

add_player_on-IsSimulation :
    (fpu : Fpu) (found : Option Body) (id : ℕ) (s : Simulation)
    → IsSimulation s
    → s.next_entity_id + 1 < 2 ^ 32
    → IsSimulation (add_player_on fpu found id s).1
unfolding add_player_on
add_player_on-IsSimulation fpu (some p) id s v h = v
add_player_on-IsSimulation fpu none id s v h = record {
  distinct = Distinct-insert id _ s.players (Misses-above _ _ v.within) v.distinct;
  within =
      All-insert_ids (λ x. (first_player_entity_id ≤ x) × (x < (s.next_entity_id + 1) % 2 ^ 32)) id
        _ s.players (omega (arith, v.next))
        (Within-grow s.next_entity_id _ _ (omega arith) v.within);
  next = omega (arith, v.next);
}

set_input_on-IsSimulation :
    (found : Option Body) (id : ℕ) (input : CharacterInput) (s : Simulation)
    → IsSimulation s
    → find id s.players ≡ found
    → IsSimulation (set_input_on found id input s)
unfolding set_input_on
set_input_on-IsSimulation none id input s v h = v
set_input_on-IsSimulation (some p) id input s v h =
    ground (arith, v, ids-put id p (record p { input = input }) s.players h refl)

-- One call keeps the ids distinct, where the next one does not wrap.
pub apply-IsSimulation :
    (fpu : Fpu) (call : Call) (s : Simulation)
    → IsSimulation s
    → s.next_entity_id + 1 < 2 ^ 32
    → IsSimulation (apply fpu call s)
unfolding apply add_player set_input remove_player step step_clock step_cube set_time_of_day
    set_time_speed reset_clock reanchor init shutdown
apply-IsSimulation fpu (adds id) s v h = add_player_on-IsSimulation fpu (find id s.players) id s v h
apply-IsSimulation fpu (removes id) s v h = record {
  distinct = Distinct-erase id s.players v.distinct;
  within =
      All-erase (λ x. (first_player_entity_id ≤ x) × (x < s.next_entity_id)) id s.players v.within;
  next = v.next;
}
apply-IsSimulation fpu (sets_input id input) s v h =
    set_input_on-IsSimulation (find id s.players) id input s v refl
apply-IsSimulation fpu (steps now delta) s v h = record {
  distinct = subst Distinct (sym (ids-step_bodies fpu delta s.players)) v.distinct;
  within = subst (Within s.next_entity_id) (sym (ids-step_bodies fpu delta s.players)) v.within;
  next = v.next;
}
apply-IsSimulation fpu (sets_time now time) s v h = record {
  distinct = v.distinct;
  within = v.within;
  next = v.next;
}
apply-IsSimulation fpu (sets_speed now speed) s v h = record {
  distinct = v.distinct;
  within = v.within;
  next = v.next;
}
apply-IsSimulation fpu (resets now seconds) s v h = record {
  distinct = v.distinct;
  within = v.within;
  next = v.next;
}
apply-IsSimulation fpu (inits now seconds speed) s v h = record {
  distinct = v.distinct;
  within = v.within;
  next = v.next;
}
apply-IsSimulation fpu shuts_down s v h = record { distinct = tt; within = tt; next = v.next }

abbrev pub entity_ids : List EntityState → List ℕ
entity_ids [] = []
entity_ids (e ∷ es) = e.id ∷ entity_ids es

entity_ids-body_states : (fpu : Fpu) (d : Map Body) → entity_ids (body_states fpu d) ≡ ids d
unfolding body_states body_state
entity_ids-body_states fpu [] = refl
entity_ids-body_states fpu ((k, p) ∷ d) = ap (◌∷◌ p.entity_id) (entity_ids-body_states fpu d)

Misses-cube : (n : ℕ) (xs : List ℕ) → Within n xs → Misses cube_entity_id xs
Misses-cube n [] w = tt
Misses-cube n (x ∷ xs) (b, w) = (omega arith, Misses-cube n xs w)

-- A snapshot of such a simulation holds no id twice.
pub build_snapshot-Distinct :
    (fpu : Fpu) (s : Simulation) (out : Snapshot)
    → IsSimulation s
    → Distinct (entity_ids (build_snapshot fpu s out).entities)
unfolding build_snapshot cube_state
build_snapshot-Distinct fpu s out v =
    let same = sym (entity_ids-body_states fpu s.players) in
    (subst (Misses cube_entity_id) same (Misses-cube _ _ v.within), subst Distinct same v.distinct)

add_player_on-next :
    (fpu : Fpu) (found : Option Body) (id : ℕ) (s : Simulation)
    → s.next_entity_id + 1 < 2 ^ 32
    → (add_player_on fpu found id s).1.next_entity_id ≤ s.next_entity_id + 1
unfolding add_player_on
add_player_on-next fpu none id s h = omega arith
add_player_on-next fpu (some p) id s h = omega arith

set_input_on-next :
    (found : Option Body) (id : ℕ) (input : CharacterInput) (s : Simulation)
    → (set_input_on found id input s).next_entity_id ≡ s.next_entity_id
unfolding set_input_on
set_input_on-next none id input s = refl
set_input_on-next (some p) id input s = ground arith

apply-next :
    (fpu : Fpu) (call : Call) (s : Simulation)
    → s.next_entity_id + 1 < 2 ^ 32
    → (apply fpu call s).next_entity_id ≤ s.next_entity_id + 1
unfolding apply add_player set_input remove_player step step_clock step_cube set_time_of_day
    set_time_speed reset_clock reanchor init shutdown
apply-next fpu (adds id) s h = add_player_on-next fpu (find id s.players) id s h
apply-next fpu (removes id) s h = omega arith
apply-next fpu (sets_input id input) s h =
    omega (arith, set_input_on-next (find id s.players) id input s)
apply-next fpu (steps now delta) s h = omega arith
apply-next fpu (sets_time now time) s h = omega arith
apply-next fpu (sets_speed now speed) s h = omega arith
apply-next fpu (resets now seconds) s h = omega arith
apply-next fpu (inits now seconds speed) s h = omega arith
apply-next fpu shuts_down s h = omega arith

run-IsSimulation :
    (fpu : Fpu) (calls : List Call) (s : Simulation)
    → IsSimulation s
    → s.next_entity_id + length calls < 2 ^ 32
    → IsSimulation (run fpu calls s)
unfolding run
run-IsSimulation fpu [] s v h = v
run-IsSimulation fpu (call ∷ calls) s v h =
    let fits : s.next_entity_id + 1 < 2 ^ 32 = omega arith in
    run-IsSimulation fpu calls (apply fpu call s) (apply-IsSimulation fpu call s v fits)
      (omega (arith, apply-next fpu call s fits))

new_simulation-IsSimulation : IsSimulation new_simulation
new_simulation-IsSimulation = record { distinct = tt; within = tt; next = omega arith }

-- After any calls of the simulation, init and shutdown among them, too few to use up the entity
-- ids, no two entities of a snapshot have one id.
pub run-Distinct :
    (fpu : Fpu) (calls : List Call) (out : Snapshot)
    → first_player_entity_id + length calls < 2 ^ 32
    → Distinct (entity_ids (build_snapshot fpu (run fpu calls new_simulation) out).entities)
run-Distinct fpu calls out h =
    build_snapshot-Distinct fpu (run fpu calls new_simulation) out
      (run-IsSimulation fpu calls new_simulation new_simulation-IsSimulation h)
