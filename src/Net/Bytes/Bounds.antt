-- ===== src/Net/Bytes/Bounds.antt =====
-- How far the reads of ByteReader move, and that they stay within its buffer.
use untitled.Base.{ℕ, ◌+◌, ◌≤◌, ◌<◌, ◌≡◌, arith, true, false, ap, length}
use untitled.Base.{Bool-cases, inl, inr}
use untitled.Base.{drop, length-take, length-drop}
use untitled.Net.Bytes.Writer.{max_string_length}
use untitled.Net.Bytes.Reader
use untitled.Net.Bytes.Reader.{Reader, Read, remaining, take_word, string, string_body, ◌>>=◌, pure}

-- mOffset never passes mSize.
pub record IsValid (r : Reader) : Type 0 where
  pub within : r.offset ≤ length r.bytes

-- What a read may do to the reader, with `n` the bytes that it hands out when it does not fail:
-- it leaves the buffer alone, moves forward only, and moves only within the buffer.
pub record Advances (n : ℕ) (r r' : Reader) : Type 0 where
  pub same : r'.bytes ≡ r.bytes
  pub valid : r'.offset ≤ length r.bytes
  pub sticky : r.failed ≡ true → r'.failed ≡ true
  pub exact : r'.failed ≡ false → (r'.offset ≡ r.offset + n) × (r.offset + n ≤ length r.bytes)

pub take_word-Advances : (n : ℕ) (r : Reader) → 0 < n → IsValid r → Advances n r (take_word n r).1
unfolding take_word remaining
take_word-Advances n r h v = ground arith

pub Advances-IsValid : {n : ℕ} {r r' : Reader} → Advances n r r' → IsValid r'
Advances-IsValid a = record { within = rw a.same a.valid }

Advances-trans : {m n : ℕ} {r s t : Reader} → Advances m r s → Advances n s t → Advances (m + n) r t
Advances-trans {s = s} a b =
    let same = ap length a.same in
    elim (Bool-cases s.failed) [
      | inl bad ↦ ground (arith, b.sticky bad)
      | inr fine ↦ ground (arith, a.exact fine)
    ]

-- A read that hands out `n` bytes on every valid reader.
pub Takes {ℓ} : {A : Type ℓ} → ℕ → Read A → Type 0
Takes n m = (r : Reader) → IsValid r → Advances n r (m r).1

pub Takes-Advances {ℓ} :
    {A : Type ℓ} {n : ℕ} (m : Read A) (r : Reader) → Takes n m → IsValid r → Advances n r (m r).1
unfolding Takes
Takes-Advances m r t v = t r v

pub take_word-Takes : (n : ℕ) → 0 < n → Takes n (take_word n)
unfolding Takes
take_word-Takes n h r v = take_word-Advances n r h v

pub pure-Takes {ℓ} : {A : Type ℓ} (a : A) → Takes 0 (pure a)
unfolding Takes pure
pure-Takes a r v = ground arith

pub >>=-Takes {ℓ κ} :
    {A : Type ℓ} {B : Type κ} (j k : ℕ) (m : Read A) (f : A → Read B)
    → Takes j m
    → ((a : A) → Takes k (f a))
    → Takes (j + k) (m >>= f)
unfolding Takes ◌>>=◌
>>=-Takes j k m f hm hf r v = Advances-trans (hm r v) (hf _ _ (Advances-IsValid (hm r v)))

pub u8-Takes : Takes 1 Reader.u8
unfolding Reader.u8
u8-Takes = take_word-Takes 1 (omega arith)

pub u16-Takes : Takes 2 Reader.u16
unfolding Reader.u16
u16-Takes = take_word-Takes 2 (omega arith)

pub u32-Takes : Takes 4 Reader.u32
unfolding Reader.u32
u32-Takes = take_word-Takes 4 (omega arith)

pub u64-Takes : Takes 8 Reader.u64
unfolding Reader.u64
u64-Takes = take_word-Takes 8 (omega arith)

pub f32-Takes : Takes 4 Reader.f32
unfolding Reader.f32
f32-Takes = take_word-Takes 4 (omega arith)

string_body-Advances :
    (n : ℕ) (r : Reader) → IsValid r → Advances (length (string_body n r).0) r (string_body n r).1
unfolding string_body remaining
string_body-Advances n r v =
    ground (arith, length-take n (drop r.offset r.bytes), length-drop r.offset r.bytes)

-- On a valid reader, `string` leaves the buffer alone and stays inside it, and where it does not
-- fail it takes its two bytes of length and as many bytes as it returns.
pub string-Advances : (r : Reader) → IsValid r → Advances (2 + length (string r).0) r (string r).1
unfolding string ◌>>=◌ Reader.u16
string-Advances r v = Advances-trans first (string_body-Advances _ _ (Advances-IsValid first))
  where
    first : Advances 2 r (take_word 2 r).1
    first = take_word-Advances 2 r (omega arith) v

-- No string longer than the cap comes out, whatever the peer sent.
pub length-string : (r : Reader) → length (string r).0 ≤ max_string_length
unfolding string ◌>>=◌ Reader.u16 string_body
length-string r =
    ground
      (arith, length-take (take_word 2 r).0 (drop (take_word 2 r).1.offset (take_word 2 r).1.bytes))
