-- ===== src/Net/Bytes/Sizes.antt =====
-- How many bytes each ByteWriter call appends.
use untitled.Base.{ℕ, ◌+◌, ◌%◌, ◌≡◌, arith, List, [], ◌∷◌, length, length-append}
use untitled.Net.Bytes.Writer
use untitled.Net.Bytes.Writer.{little, little_from}
use untitled.Net.Bytes.Layout.{length-little_from}

length-little : (n v : ℕ) (out : List ℕ) → length (little n v out) ≡ length out + n
unfolding little Writer.raw
length-little n v out =
    omega (arith, length-append out (little_from 0 n v), length-little_from 0 n v)

pub length-u8 : (v : ℕ) (out : List ℕ) → length (Writer.u8 v out) ≡ length out + 1
unfolding Writer.u8 Writer.raw
length-u8 v out = omega (arith, length-append out (v % 256 ∷ []))

pub length-u16 : (v : ℕ) (out : List ℕ) → length (Writer.u16 v out) ≡ length out + 2
unfolding Writer.u16
length-u16 v out = length-little 2 v out

pub length-u32 : (v : ℕ) (out : List ℕ) → length (Writer.u32 v out) ≡ length out + 4
unfolding Writer.u32
length-u32 v out = length-little 4 v out

pub length-u64 : (v : ℕ) (out : List ℕ) → length (Writer.u64 v out) ≡ length out + 8
unfolding Writer.u64
length-u64 v out = length-little 8 v out

pub length-f32 : (v : ℕ) (out : List ℕ) → length (Writer.f32 v out) ≡ length out + 4
unfolding Writer.f32
length-f32 v out = length-little 4 v out

pub ruleset size_rules = (length-u8, length-u16, length-u32, length-u64, length-f32)
