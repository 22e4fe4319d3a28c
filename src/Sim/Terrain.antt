-- ===== src/Sim/Terrain.antt =====
-- common/terrain/include/terrain/heightfield.h and common/terrain/src/heightfield.cpp: the height of the
-- ground. The hash works on 32-bit words, an int32_t among them as its two's complement.
use untitled.Base.{ℕ, zero, suc, ◌+◌, ◌*◌, ◌%◌, ◌^◌, bit_xor, bit_and, shr}
use untitled.Sim.Float.{Fpu, zero_f, one_f, half_f}

abbrev pub terrain_seed : ℕ
terrain_seed = 0x9e3779b9

abbrev pub octaves : ℕ
octaves = 5

-- The word that `hash` comes to.
unfoldable pub hash_word : ℕ → ℕ → ℕ
hash_word x y =
    let a = bit_xor terrain_seed ((x * 0x85ebca6b) % 2 ^ 32) in
    let b = bit_xor a ((y * 0xc2b2ae35) % 2 ^ 32) in
    let c = (bit_xor b (shr b 15) * 0x2545f491) % 2 ^ 32 in
    let d = (bit_xor c (shr c 13) * 0x3b9acb93) % 2 ^ 32 in bit_xor d (shr d 16)

-- A kernel coefficient, kWorldSize / kMeshResolution * 0.5, and the step of `normalAt`.
abbrev pub smooth_radius : ℕ
smooth_radius = 0x3f800000

abbrev pub normal_step : ℕ
normal_step = 0x40000000

module _ (fpu : Fpu) where
  unfoldable pub hash : ℕ → ℕ → ℕ
  unfolding hash_word
  hash x y = fpu.div (fpu.of_nat (bit_and (hash_word x y) 0xffffff)) (fpu.of_nat 0x1000000)

  -- 15, 6 and 10 in the polynomial.
  unfoldable pub fade : ℕ → ℕ
  fade t =
      let inner = fpu.sub (fpu.mul t 0x40c00000) 0x41700000 in
      fpu.mul (fpu.mul (fpu.mul t t) t) (fpu.add (fpu.mul t inner) 0x41200000)

  -- `a + (b - a) * t`
  unfoldable pub mix : ℕ → ℕ → ℕ → ℕ
  mix a b t = fpu.add a (fpu.mul (fpu.sub b a) t)

  unfoldable pub value_noise : ℕ → ℕ → ℕ
  unfolding hash fade mix
  value_noise x y =
      let floor_x = fpu.floor x in
      let floor_y = fpu.floor y in
      let cell_x = fpu.to_int32 floor_x in
      let cell_y = fpu.to_int32 floor_y in
      let fx = fade (fpu.sub x floor_x) in
      let fy = fade (fpu.sub y floor_y) in
      let right = (cell_x + 1) % 2 ^ 32 in
      let below = (cell_y + 1) % 2 ^ 32 in
      let top = mix (hash cell_x cell_y) (hash right cell_y) fx in
      let bottom = mix (hash cell_x below) (hash right below) fx in mix top bottom fy

  -- The loop of `rawHeight` with the octaves to go; the result is total / normalisation. The
  -- wavelength grows by 2.03.
  unfoldable pub sum_octaves : ℕ → ℕ → ℕ → ℕ → ℕ → ℕ → ℕ → ℕ
  unfolding value_noise
  sum_octaves zero x z frequency amplitude total normalisation = fpu.div total normalisation
  sum_octaves (suc n) x z frequency amplitude total normalisation =
      let noise = value_noise (fpu.mul x frequency) (fpu.mul z frequency) in
      sum_octaves n x z (fpu.mul frequency 0x4001eb85) (fpu.mul amplitude half_f)
        (fpu.add total (fpu.mul noise amplitude)) (fpu.add normalisation amplitude)

  -- The base wavelength is 340, the amplitude of the terrain 110.
  unfoldable pub raw_height : ℕ → ℕ → ℕ
  unfolding sum_octaves
  raw_height x z =
      let mean = sum_octaves octaves x z (fpu.div one_f 0x43aa0000) one_f zero_f zero_f in
      let unit = fpu.sub (fpu.mul mean 0x40000000) one_f in fpu.mul (fpu.mul unit 0x42dc0000) half_f

  unfoldable pub height_at : ℕ → ℕ → ℕ
  unfolding raw_height
  height_at x z =
      let centre = raw_height x z in
      let left = raw_height (fpu.sub x smooth_radius) z in
      let right = raw_height (fpu.add x smooth_radius) z in
      let back = raw_height x (fpu.sub z smooth_radius) in
      let front = raw_height x (fpu.add z smooth_radius) in
      let around = fpu.add (fpu.add (fpu.add left right) back) front in
      fpu.add (fpu.mul centre half_f) (fpu.mul around 0x3e000000)

  unfoldable pub normal_at : ℕ → ℕ → ℕ × ℕ × ℕ
  unfolding height_at
  normal_at x z =
      let dx =
        fpu.sub (height_at (fpu.add x normal_step) z) (height_at (fpu.sub x normal_step) z) in
      let dz =
        fpu.sub (height_at x (fpu.add z normal_step)) (height_at x (fpu.sub z normal_step)) in
      let nx = fpu.neg dx in
      let ny = fpu.mul 0x40000000 normal_step in
      let nz = fpu.neg dz in
      let squares = fpu.add (fpu.add (fpu.mul nx nx) (fpu.mul ny ny)) (fpu.mul nz nz) in
      let len = fpu.sqrt squares in (fpu.div nx len, fpu.div ny len, fpu.div nz len)
