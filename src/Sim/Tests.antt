-- ===== src/Sim/Tests.antt =====
-- Tests of common/gamesim and common/terrain, on a processor whose floats are whole numbers of 32 bits.
use untitled.Base.{◌+◌, ◌*◌, ◌-◌, ◌/◌, ◌%◌, ◌^◌, ◌≡◌, refl, arith, true}
use untitled.Sim.Float.{Fpu, clamp, one_f, minus_one_f}
use untitled.Sim.Terrain.{hash_word}
use untitled.Sim.Character.{Character, CharacterInput, no_character, no_input, step_character}
use untitled.Sim.Character.Ranges.{IsFpu}
use untitled.Sim.Character.Rules.{IsPlaced, step_character-IsPlaced}

abbrev pub whole : Fpu
whole = record {
  add = λ a b. (a + b) % 2 ^ 32;
  sub = λ a b. (a - b) % 2 ^ 32;
  mul = λ a b. (a * b) % 2 ^ 32;
  div = λ a b. (a / b) % 2 ^ 32;
  neg = λ a. a;
  sqrt = λ a. a;
  sin = λ a. 0;
  cos = λ a. 1;
  floor = λ a. 0;
  exp2 = λ a. 1;
  of_nat = λ a. a % 2 ^ 32;
  to_int32 = λ a. a % 2 ^ 32;
  d_add = λ a b. a + b;
  d_sub = λ a b. a - b;
  d_mul = λ a b. a * b;
  d_div = λ a b. a / b;
  d_of_nat = λ a. a;
  d_sin = λ a. 0;
  d_cos = λ a. 1;
  widen = λ a. a;
  narrow = λ a. a % 2 ^ 32;
}

pub whole-IsFpu : IsFpu whole
whole-IsFpu = record {
  add_float = λ a b. omega arith;
  sub_float = λ a b. omega arith;
  mul_float = λ a b. omega arith;
  div_float = λ a b. omega arith;
  sin_float = λ a. omega arith;
  cos_float = λ a. omega arith;
  narrow_float = λ a. omega arith;
}

-- 2 is cut to 1, and NaN goes through.
clamp_two : clamp 0x40000000 minus_one_f one_f ≡ one_f
unfolding clamp
clamp_two = refl

clamp_not_a_number : clamp 0x7fc00000 minus_one_f one_f ≡ 0x7fc00000
unfolding clamp
clamp_not_a_number = refl

hash_origin : hash_word 0 0 ≡ 0x7d9c94b8
unfolding hash_word
hash_origin = refl

abbrev walker : Character
walker = record no_character { grounded = true }

abbrev walking : CharacterInput
walking = record no_input { sequence = 1; move_forward = one_f }

step_character-IsPlaced_example : IsPlaced whole (step_character whole walker walking 1)
step_character-IsPlaced_example = step_character-IsPlaced whole walker walking 1
