-- ===== src/Sim/Character/Ranges.antt =====
-- The floats of common/gamesim/src/character.cpp are 32-bit patterns.
use untitled.Base.{ℕ, ◌^◌, ◌<◌, arith, Bool, true, false, if◌then◌else◌}
use untitled.Sim.Float.{Fpu, lt, zero_f}
use untitled.Sim.Character.{
  Vec3, Character, CharacterInput, step_character, horizontal, vertical, face, advance,
  resolve_ground, settle, rest_y, fall, target, blend, wish,
}
use untitled.Net.Snapshot.Entity.{IsFloat}

-- What is computed as a float is one.
pub record IsFpu (fpu : Fpu) : Type 0 where
  pub add_float : (a b : ℕ) → IsFloat (fpu.add a b)
  pub sub_float : (a b : ℕ) → IsFloat (fpu.sub a b)
  pub mul_float : (a b : ℕ) → IsFloat (fpu.mul a b)
  pub div_float : (a b : ℕ) → IsFloat (fpu.div a b)
  pub sin_float : (a : ℕ) → IsFloat (fpu.sin a)
  pub cos_float : (a : ℕ) → IsFloat (fpu.cos a)
  pub narrow_float : (a : ℕ) → IsFloat (fpu.narrow a)

pub record IsPoint (p : Vec3) : Type 0 where
  pub x : IsFloat p.x
  pub y : IsFloat p.y
  pub z : IsFloat p.z

pub record IsInput (i : CharacterInput) : Type 0 where
  pub sequence : i.sequence < 2 ^ 32
  pub yaw : IsFloat i.yaw

pub record IsCharacter (c : Character) : Type 0 where
  pub position : IsPoint c.position
  pub velocity : IsPoint c.velocity
  pub facing : IsFloat c.facing_yaw

IsFloat-if : (b : Bool) (x y : ℕ) → IsFloat x → IsFloat y → IsFloat (if b then x else y)
IsFloat-if true x y p q = p
IsFloat-if false x y p q = q

character-if :
    (b : Bool) (x y : Character) → IsCharacter x → IsCharacter y → IsCharacter (if b then x else y)
character-if true x y p q = p
character-if false x y p q = q

module _ (fpu : Fpu) (laws : IsFpu fpu) where
  fall-IsFloat : (v delta : ℕ) → IsFloat (fall fpu v delta)
  unfolding fall
  fall-IsFloat v delta = search (IsFloat-if, laws.add_float, arith)

  horizontal-IsCharacter :
      (i : CharacterInput) (c : Character) → IsCharacter c → IsCharacter (horizontal fpu i c)
  unfolding horizontal target blend
  horizontal-IsCharacter i c v = search (IsFloat-if, laws.add_float, laws.mul_float, v)

  vertical-IsCharacter :
      (i : CharacterInput) (delta : ℕ) (c : Character)
      → IsCharacter c
      → IsCharacter (vertical fpu i delta c)
  unfolding vertical
  vertical-IsCharacter i delta c v = search (character-if, fall-IsFloat, v, arith)

  face-IsCharacter :
      (i : CharacterInput) (c : Character) → IsInput i → IsCharacter c → IsCharacter (face fpu i c)
  unfolding face
  face-IsCharacter i c w v =
      character-if (lt zero_f (wish fpu i).len) (record c { facing_yaw = i.yaw }) c
        (record { position = v.position; velocity = v.velocity; facing = w.yaw }) v

  advance-IsCharacter :
      (delta : ℕ) (c : Character) → IsCharacter c → IsCharacter (advance fpu delta c)
  unfolding advance
  advance-IsCharacter delta c v = search (laws.add_float, v)

  resolve_ground-IsCharacter : (c : Character) → IsCharacter c → IsCharacter (resolve_ground fpu c)
  unfolding resolve_ground rest_y settle
  resolve_ground-IsCharacter c v = search (character-if, laws.add_float, v, arith)

  pub step_character-IsCharacter :
      (c : Character) (i : CharacterInput) (delta : ℕ)
      → IsInput i
      → IsCharacter c
      → IsCharacter (step_character fpu c i delta)
  unfolding step_character
  step_character-IsCharacter c i delta w v = search (
    resolve_ground-IsCharacter, advance-IsCharacter, face-IsCharacter, vertical-IsCharacter,
    horizontal-IsCharacter,
  )
