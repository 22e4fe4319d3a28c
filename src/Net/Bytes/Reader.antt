-- ===== src/Net/Bytes/Reader.antt =====
-- ByteReader. The buffer is the list `bytes` (mData and mSize); `offset` and `failed` are mOffset
-- and mFailed. A read is a function on the reader's state.
use untitled.Base.{ℕ, zero, suc, ◌+◌, ◌-◌, ◌*◌, ◌%◌, ◌^◌, List, [], length, take, drop}
use untitled.Base.{get_or, Bool, true, false, ◌||◌, ltb, if◌then◌else◌, bit_or, shl}
use untitled.Net.Bytes.Writer.{max_string_length}

pub record Reader : Type 0 where
  pub bytes : List ℕ
  pub offset : ℕ
  pub failed : Bool

abbrev pub Read {ℓ} : Type ℓ → Type ℓ
Read A = Reader → A × Reader

unfoldable pub pure {ℓ} : {A : Type ℓ} → A → Read A
pure a r = (a, r)

infixl 5 ◌>>=◌
unfoldable pub ◌>>=◌ {ℓ κ} : {A : Type ℓ} {B : Type κ} → Read A → (A → Read B) → Read B
◌>>=◌ m f r = let (a, r') = m r in f a r'

-- The constructor.
abbrev pub reader : List ℕ → Reader
reader bytes = record { bytes = bytes; offset = 0; failed = false }

unfoldable pub remaining : Reader → ℕ
remaining r = if r.failed then 0 else length r.bytes - r.offset

-- The loop of `take`, from index `i`, with `k` of the `n` bytes of the type to go. An index past
-- the buffer would read as 0 here.
unfoldable pub take_loop : ℕ → List ℕ → ℕ → ℕ → ℕ → ℕ → ℕ
take_loop n bytes offset i zero v = v
take_loop n bytes offset i (suc k) v =
    take_loop n bytes offset (suc i) k
      (bit_or v (shl (get_or bytes (offset + i) 0) (8 * i) % 2 ^ (8 * n)))

-- `take<T>` at a type of `n` bytes.
unfoldable pub take_word : ℕ → Read ℕ
unfolding remaining take_loop
take_word n r =
    if ltb (remaining r) n
    then (0, record r { failed = true })
    else (take_loop n r.bytes r.offset 0 n 0, record r { offset = r.offset + n })

unfoldable pub u8 : Read ℕ
unfolding take_word
u8 = take_word 1

unfoldable pub u16 : Read ℕ
unfolding take_word
u16 = take_word 2

unfoldable pub u32 : Read ℕ
unfolding take_word
u32 = take_word 4

unfoldable pub u64 : Read ℕ
unfolding take_word
u64 = take_word 8

unfoldable pub f32 : Read ℕ
unfolding take_word
f32 = take_word 4

-- The rest of `string`, once the length is read.
unfoldable pub string_body : ℕ → Read (List ℕ)
unfolding remaining
string_body n r =
    if r.failed || ltb max_string_length n || ltb (remaining r) n
    then ([], record r { failed = true })
    else (take n (drop r.offset r.bytes), record r { offset = r.offset + n })

unfoldable pub string : Read (List ℕ)
unfolding ◌>>=◌ u16 string_body
string = do n ← u16; string_body n
