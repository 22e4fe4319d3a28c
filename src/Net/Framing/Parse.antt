-- ===== src/Net/Framing/Parse.antt =====
-- One message on the read buffer: `next` against the frame that `send` wrote.
use native.Mathlib.Nat.{mod-eq_of_lt}
use untitled.Base.{ℕ, ◌+◌, ◌*◌, ◌%◌, ◌^◌, ◌≤◌, ◌<◌, ◌≡◌, ap, ◌∙◌, arith}
use untitled.Base.{List, [], ◌++◌, length, take, drop, false}
use untitled.Base.{none, some, length-append, length-drop}
use untitled.Base.{
  take-append_le, drop-append_le, get_or-append_le, bit_or, shl, bit_or-shl, drop-append,
  take-append, drop-drop, ◌/◌,
}
use untitled.Net.Bytes.Writer
use untitled.Net.Bytes.Writer.{little_from}
use untitled.Net.Framing.{
  Message, header_size, max_payload_size, read_u32, read_u16, next_frame, write_frame, is_oversized,
}

read_u32-append : (xs ys : List ℕ) → header_size ≤ length xs → read_u32 (xs ++ ys) ≡ read_u32 xs
unfolding read_u32
read_u32-append xs ys h = ground (
  arith,
  get_or-append_le xs ys 0 0,
  get_or-append_le xs ys 1 0,
  get_or-append_le xs ys 2 0,
  get_or-append_le xs ys 3 0,
)

read_u16-append : (xs ys : List ℕ) → 2 ≤ length xs → read_u16 (xs ++ ys) ≡ read_u16 xs
unfolding read_u16
read_u16-append xs ys h = ground (arith, get_or-append_le xs ys 0 0, get_or-append_le xs ys 1 0)

type-append :
    (xs ys : List ℕ) → header_size ≤ length xs → read_u16 (drop 4 (xs ++ ys)) ≡ read_u16 (drop 4 xs)
type-append xs ys h =
    ap read_u16 (drop-append_le 4 xs ys (omega arith))
    ∙ read_u16-append (drop 4 xs) ys (omega (arith, length-drop 4 xs))

payload-append :
    (xs ys : List ℕ) (n : ℕ)
    → header_size + n ≤ length xs
    → take n (drop header_size (xs ++ ys)) ≡ take n (drop header_size xs)
payload-append xs ys n h =
    ap (take n) (drop-append_le header_size xs ys (omega arith))
    ∙ take-append_le n (drop header_size xs) ys (omega (arith, length-drop header_size xs))

-- More bytes behind a whole message leave it as it is and join what follows it.
pub next_frame-append :
    (xs ys : List ℕ) (m : Message) (left : List ℕ)
    → next_frame xs ≡ some (m, left)
    → next_frame (xs ++ ys) ≡ some (m, left ++ ys)
unfolding next_frame
next_frame-append xs ys m left e = ground (
  arith,
  length-append xs ys,
  read_u32-append xs ys,
  type-append xs ys,
  payload-append xs ys (read_u32 xs),
  drop-append_le (header_size + read_u32 xs) xs ys,
)

pub next_frame_short : (xs : List ℕ) → length xs < header_size → next_frame xs ≡ none
unfolding next_frame
next_frame_short xs h = ground arith

-- A message takes a header at least.
pub next_frame-shorter :
    (xs : List ℕ) (m : Message) (left : List ℕ)
    → next_frame xs ≡ some (m, left)
    → length left + header_size ≤ length xs
unfolding next_frame
next_frame-shorter xs m left e = ground (arith, length-drop (header_size + read_u32 xs) xs)

pub record IsMessage (m : Message) : Type 0 where
  pub type : m.type < 2 ^ 16
  pub size : length m.payload ≤ max_payload_size

or_four :
    (a b c d : ℕ)
    → a < 256
    → b < 256
    → c < 256
    → bit_or (bit_or (bit_or a (shl b 8)) (shl c 16)) (shl d 24)
      ≡ a + b * 2 ^ 8 + c * 2 ^ 16 + d * 2 ^ 24
or_four a b c d ha hb hc = omega (
  arith,
  ap (λ (t : ℕ). bit_or (bit_or t (shl c 16)) (shl d 24)) (bit_or-shl 8 a b ha),
  ap (λ (t : ℕ). bit_or t (shl d 24)) (bit_or-shl 16 (a + shl b 8) c (omega arith)),
  bit_or-shl 24 (a + shl b 8 + shl c 16) d (omega arith),
)

read_u32-little : (v : ℕ) (rest : List ℕ) → v < 2 ^ 32 → read_u32 (little_from 0 4 v ++ rest) ≡ v
unfolding read_u32 little_from
read_u32-little v rest h =
    or_four (v / 1 % 256) (v / 256 % 256) (v / 65536 % 256) (v / 16777216 % 256) (omega arith)
      (omega arith) (omega arith)
    ∙ omega arith

read_u16-little : (v : ℕ) (rest : List ℕ) → v < 2 ^ 16 → read_u16 (little_from 0 2 v ++ rest) ≡ v
unfolding read_u16 little_from
read_u16-little v rest h =
    ap (λ (t : ℕ). t % 2 ^ 16) (bit_or-shl 8 (v / 1 % 256) (v / 256 % 256) (omega arith))
    ∙ omega arith

frame-eq :
    (m : Message)
    → IsMessage m
    → write_frame m [] ≡ little_from 0 4 (length m.payload) ++ (little_from 0 2 m.type ++ m.payload)
unfolding write_frame Writer.◌>>◌ Writer.u32 Writer.u16 Writer.raw
frame-eq m v = rw (mod-eq_of_lt {n = length m.payload} {m = 2 ^ 32} (omega arith))

module _ (m : Message) (rest : List ℕ) where
  -- The buffer that starts with the frame of `m`.
  framed : List ℕ
  framed = little_from 0 4 (length m.payload) ++ (little_from 0 2 m.type ++ (m.payload ++ rest))

  framed-eq : IsMessage m → write_frame m [] ++ rest ≡ framed
  unfolding framed little_from
  framed-eq v = ap (λ (t : List ℕ). t ++ rest) (frame-eq m v)

  next_frame-framed : IsMessage m → next_frame framed ≡ some (m, rest)
  unfolding next_frame framed little_from
  next_frame-framed v = ground (
    arith,
    read_u32-little (length m.payload) (little_from 0 2 m.type ++ (m.payload ++ rest))
        (omega arith),
    read_u16-little m.type (m.payload ++ rest) v.type,
    take-append m.payload rest,
    drop-drop header_size (length m.payload) framed,
    drop-append m.payload rest,
    length-append m.payload rest,
  )

  -- `next` takes back the well-formed message that `send` framed, and leaves what follows the
  -- frame.
  pub next_frame-frame : IsMessage m → next_frame (write_frame m [] ++ rest) ≡ some (m, rest)
  next_frame-frame v = ap next_frame (framed-eq v) ∙ next_frame-framed v

-- The size check of `pump` passes on every part of a buffer that starts with a frame.
pub not_oversized-frame :
    (m : Message) (rest xs ys : List ℕ)
    → IsMessage m
    → xs ++ ys ≡ write_frame m [] ++ rest
    → is_oversized xs ≡ false
unfolding is_oversized
not_oversized-frame m rest xs ys v e =
    ground (arith, read_u32-append xs ys, ap read_u32 (e ∙ framed-eq m rest v), size)
  where
    size : read_u32 (framed m rest) ≡ length m.payload
    size = unfold framed in read_u32-little (length m.payload) _ (omega arith)
