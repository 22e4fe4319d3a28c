-- ===== src/Sim/Character/Rules.antt =====
-- Where a tick of common/gamesim/src/character.cpp leaves a character.
use untitled.Base.{ℕ, true, false, ◌&&◌, ◌≡◌, refl, ◌⊎◌, inl, inr}
use untitled.Base.{Bool-cases}
use untitled.Sim.Float.{Fpu, le, zero_f}
use untitled.Sim.Character.{
  Character, CharacterInput, rest_y, wish, resolve_ground, settle, step_character, horizontal,
  vertical, face, advance, ground_snap_distance,
}

module _ (fpu : Fpu) where
  -- At rest exactly on the ground, or off it by more than the distance of a snap or rising.
  abbrev pub IsPlaced : Character → Type 0
  IsPlaced c =
      ((c.grounded ≡ true) × (c.position.y ≡ rest_y fpu c.position) × (c.velocity.y ≡ zero_f))
      ⊎ ((c.grounded ≡ false)
          × (le c.position.y (rest_y fpu c.position) ≡ false)
          × ((le c.velocity.y zero_f
                && le (fpu.sub c.position.y (rest_y fpu c.position)) ground_snap_distance)
              ≡ false))

  resolve_ground-IsPlaced : (c : Character) → IsPlaced (resolve_ground fpu c)
  unfolding resolve_ground settle rest_y
  resolve_ground-IsPlaced c = elim (Bool-cases (le c.position.y (rest_y fpu c.position))) [
    | inl low ↦ inl (rw low (refl, refl, refl))
    | inr high ↦
        elim (Bool-cases (
          le c.velocity.y zero_f
          && le (fpu.sub c.position.y (rest_y fpu c.position)) ground_snap_distance)) [
            | inl near ↦ inl (rw (high, near) (refl, refl, refl))
            | inr far ↦ inr (rw (high, far) (refl, high, far))
          ]
  ]

  -- A tick leaves a character grounded at rest height exactly and without vertical speed, or in
  -- the air, above rest height and rising or farther from the ground than the distance of a snap,
  -- as floats compare.
  pub step_character-IsPlaced :
      (c : Character) (input : CharacterInput) (delta : ℕ)
      → IsPlaced (step_character fpu c input delta)
  unfolding step_character
  step_character-IsPlaced c input delta =
      resolve_ground-IsPlaced
        (advance fpu delta (face fpu input (vertical fpu input delta (horizontal fpu input c))))

  -- x
  pub step_character_airborne :
      (c : Character) (input : CharacterInput) (delta : ℕ)
      → c.grounded ≡ false
      → step_character fpu c (record input { jump = true }) delta
        ≡ step_character fpu c (record input { jump = false }) delta
  unfolding step_character horizontal vertical face wish
  step_character_airborne c input delta h = rw h refl
