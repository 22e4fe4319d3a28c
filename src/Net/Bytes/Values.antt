-- ===== src/Net/Bytes/Values.antt =====
-- The numbers that ByteReader's `take` returns, by the bytes that are in its buffer.
use untitled.Base.{ℕ, zero, suc, ◌+◌, ◌-◌, ◌*◌, ◌%◌, ◌≤◌, ◌<◌, ◌≡◌, refl, sym, ◌∙◌, ap, arith}
use untitled.Base.{List, [], ◌∷◌, length, take, drop, get_or, bit_or, shl, bit_or-shl, All}
use untitled.Base.{false, if◌then◌else◌, ltb, length-take, length-drop}
use untitled.Net.Bytes.Reader.{Reader, take_loop, take_word, remaining}
use untitled.Net.Bytes.Layout.{weight, weight_pos, weight-suc, byte_fits}

-- Bytes as a number, the least significant first.
abbrev pub little_endian : List ℕ → ℕ
little_endian [] = 0
little_endian (b ∷ bs) = b + 256 * little_endian bs

abbrev pub AreBytes : List ℕ → Type 0
AreBytes bytes = All (λ (b : ℕ). b < 256) bytes

take-drop :
    (bytes : List ℕ) (j k : ℕ)
    → j < length bytes
    → take (suc k) (drop j bytes) ≡ get_or bytes j 0 ∷ take k (drop (suc j) bytes)
take-drop [] j k h = absurd (omega arith)
take-drop (b ∷ bytes) zero k h = refl
take-drop (b ∷ bytes) (suc j) k h = take-drop bytes j k (omega arith)

get_or-lt : (bytes : List ℕ) (j : ℕ) → AreBytes bytes → get_or bytes j 0 < 256
get_or-lt [] j a = omega arith
get_or-lt (b ∷ bytes) zero (x, a) = x
get_or-lt (b ∷ bytes) (suc j) (x, a) = get_or-lt bytes j a

-- A digit and the rest behind it, at the place of the digit.
next_digit : (acc b w v : ℕ) → acc + b * w + 256 * w * v ≡ acc + w * (b + 256 * v)
next_digit acc b w v = grind arith

low_digit : (acc b w : ℕ) → acc < w → b < 256 → acc + b * w < 256 * w
low_digit acc b w h hb = grind arith

-- The loop from index `i` adds the bytes that are ahead at their places.
take_loop-little_endian :
    (n k i acc : ℕ) (bytes : List ℕ) (offset : ℕ)
    → AreBytes bytes
    → i + k ≤ n
    → offset + i + k ≤ length bytes
    → acc < weight i
    → take_loop n bytes offset i k acc
      ≡ acc + weight i * little_endian (take k (drop (offset + i) bytes))
unfolding take_loop
take_loop-little_endian n zero i acc bytes offset a hn hb h = omega arith
take_loop-little_endian n (suc k) i acc bytes offset a hn hb h =
    let b = get_or bytes (offset + i) 0 in
    let small : b < 256 = get_or-lt bytes (offset + i) a in
    let acc' = bit_or acc (shl b (8 * i) % weight n) in
    let v = little_endian (take k (drop (suc (offset + i)) bytes)) in
    let joined : acc' ≡ acc + b * weight i =
      ap (bit_or acc) (byte_fits b i n small (omega arith)) ∙ bit_or-shl (8 * i) acc b h in
    let low : acc' < weight (suc i) =
      omega (arith, joined, weight-suc i, low_digit acc b (weight i) h small) in
    let place : offset + suc i ≡ suc (offset + i) = omega arith in
    let later : take_loop n bytes offset (suc i) k acc'
        ≡ acc' + weight (suc i) * little_endian (take k (drop (offset + suc i) bytes)) =
      take_loop-little_endian n k (suc i) acc' bytes offset a (omega arith) (omega arith) low in
    later
    ∙ ap (λ (j : ℕ). acc' + weight (suc i) * little_endian (take k (drop j bytes))) place
    ∙ ap (λ (x : ℕ). x + weight (suc i) * v) joined
    ∙ ap (λ (x : ℕ). acc + b * weight i + x * v) (weight-suc i)
    ∙ next_digit acc b (weight i) v
    ∙ ap (λ (bs : List ℕ). acc + weight i * little_endian bs)
        (sym (take-drop bytes (offset + i) k (omega arith)))

-- On a buffer of bytes and an offset within it, where `take` does not fail, the buffer holds all
-- the bytes that it is to read, and what it returns is these bytes, and no other, as a
-- little-endian number.
pub take_word-little_endian :
    (n : ℕ) (r : Reader)
    → AreBytes r.bytes
    → r.offset ≤ length r.bytes
    → (take_word n r).1.failed ≡ false
    → let ahead = take n (drop r.offset r.bytes) in
      (length ahead ≡ n) × ((take_word n r).0 ≡ little_endian ahead)
unfolding take_word remaining
take_word-little_endian n r a within fine =
    let there : r.offset + n ≤ length r.bytes = ground (arith, fine) in
    let enough : ltb (if r.failed then 0 else length r.bytes - r.offset) n ≡ false =
      ground (arith, fine) in
    let value : take_loop n r.bytes r.offset 0 n 0
        ≡ little_endian (take n (drop r.offset r.bytes)) =
      take_loop-little_endian n n 0 0 r.bytes r.offset a (omega arith) (omega arith) (weight_pos 0)
      ∙ ap (λ (j : ℕ). 0 + weight 0 * little_endian (take n (drop j r.bytes))) {x = r.offset + 0}
          {y = r.offset} (omega arith)
      ∙ omega arith in
    (
      omega (arith, length-take n (drop r.offset r.bytes), length-drop r.offset r.bytes),
      rw enough value,
    )
