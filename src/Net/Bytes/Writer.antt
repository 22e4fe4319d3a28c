-- ===== src/Net/Bytes/Writer.antt =====
-- ByteWriter. A writer takes the buffer that it was given to the buffer after it.
-- A value that the C++ signature holds to w bits is cut to w bits where it is written.
use untitled.Base.{ℕ, zero, suc, ◌*◌, ◌%◌, List, [], ◌∷◌, ◌++◌, length, take, ltb}
use untitled.Base.{if◌then◌else◌, shr}

abbrev pub Writer : Type 0
Writer = List ℕ → List ℕ

-- Two calls in a row on one ByteWriter.
infixl 5 ◌>>◌
unfoldable pub ◌>>◌ : Writer → Writer → Writer
(m >> k) out = k (m out)

abbrev pub max_string_length : ℕ
max_string_length = 1024

-- The loop of `little`, from index `i`, with `k` bytes to go.
unfoldable pub little_from : ℕ → ℕ → ℕ → List ℕ
little_from i zero v = []
little_from i (suc k) v = shr v (8 * i) % 256 ∷ little_from (suc i) k v

unfoldable pub raw : List ℕ → Writer
raw bytes out = out ++ bytes

-- `little<T>` at a type of `n` bytes.
unfoldable pub little : ℕ → ℕ → Writer
unfolding little_from raw
little n v = raw (little_from 0 n v)

unfoldable pub u8 : ℕ → Writer
unfolding raw
u8 v = raw (v % 256 ∷ [])

unfoldable pub u16 : ℕ → Writer
unfolding little
u16 = little 2

unfoldable pub u32 : ℕ → Writer
unfolding little
u32 = little 4

unfoldable pub u64 : ℕ → Writer
unfolding little
u64 = little 8

-- A float is its bit pattern, which `memcpy` copies.
unfoldable pub f32 : ℕ → Writer
unfolding little
f32 = little 4

-- The length that the prefix holds.
abbrev pub string_length : List ℕ → ℕ
string_length v = if ltb max_string_length (length v) then max_string_length else length v

unfoldable pub string : List ℕ → Writer
unfolding ◌>>◌ u16 raw
string v = u16 (string_length v) >> raw (take (string_length v) v)
