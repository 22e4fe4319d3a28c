-- ===== src/Net/Bytes/Fields.antt =====
-- The agreement rules at the types of byte_stream.h, and the sets of rules for `search`.
use untitled.Base.{ℕ, ◌^◌, ◌≤◌, ◌<◌, ◌≡◌, refl, sym, ap, ◌∙◌, arith, ◌++◌, ◌∷◌, []}
use mathlib.Core.Path.{fun_ext}
use untitled.Base.{append-nil, List, length, take, length-append, take-append, drop_further, true}
use untitled.Net.Bytes.Writer
use untitled.Net.Bytes.Writer.{Writer, ◌>>◌, max_string_length, little, string_length}
use untitled.Net.Bytes.Reader
use untitled.Net.Bytes.Reader.{Reader, Read, ◌>>=◌, pure, take_word, remaining, string_body}
use untitled.Net.Bytes.Agree.{
  Agrees, IsSticky, At, little-take_word, Agrees-bind, Agrees-last, >>=-IsSticky, pure-IsSticky,
}

pub take_word-IsSticky : (n : ℕ) → 0 < n → IsSticky (take_word n)
unfolding take_word remaining IsSticky
take_word-IsSticky n hn r h = ground arith

pub u8-IsSticky : IsSticky Reader.u8
unfolding Reader.u8
u8-IsSticky = take_word-IsSticky 1 (omega arith)

pub u16-IsSticky : IsSticky Reader.u16
unfolding Reader.u16
u16-IsSticky = take_word-IsSticky 2 (omega arith)

pub u32-IsSticky : IsSticky Reader.u32
unfolding Reader.u32
u32-IsSticky = take_word-IsSticky 4 (omega arith)

pub u64-IsSticky : IsSticky Reader.u64
unfolding Reader.u64
u64-IsSticky = take_word-IsSticky 8 (omega arith)

pub f32-IsSticky : IsSticky Reader.f32
unfolding Reader.f32
f32-IsSticky = take_word-IsSticky 4 (omega arith)

string_body-IsSticky : (n : ℕ) → IsSticky (string_body n)
unfolding string_body IsSticky
string_body-IsSticky n r h = ground arith

pub string-IsSticky : IsSticky Reader.string
unfolding Reader.string
string-IsSticky = >>=-IsSticky Reader.u16 string_body u16-IsSticky string_body-IsSticky

pub u16-Agrees : (v : ℕ) → v < 2 ^ 16 → Agrees (Writer.u16 v) Reader.u16 v
unfolding Writer.u16 Reader.u16
u16-Agrees v h = little-take_word 2 v (omega arith) h

pub u32-Agrees : (v : ℕ) → v < 2 ^ 32 → Agrees (Writer.u32 v) Reader.u32 v
unfolding Writer.u32 Reader.u32
u32-Agrees v h = little-take_word 4 v (omega arith) h

pub u64-Agrees : (v : ℕ) → v < 2 ^ 64 → Agrees (Writer.u64 v) Reader.u64 v
unfolding Writer.u64 Reader.u64
u64-Agrees v h = little-take_word 8 v (omega arith) h

pub f32-Agrees : (v : ℕ) → v < 2 ^ 32 → Agrees (Writer.f32 v) Reader.f32 v
unfolding Writer.f32 Reader.f32
f32-Agrees v h = little-take_word 4 v (omega arith) h

u8-little : (v : ℕ) → Writer.u8 v ≡ little 1 v
unfolding Writer.u8 little Writer.raw
u8-little v = fun_ext (λ out. ap (λ (t : ℕ). out ++ (t ∷ [])) (omega arith))

pub u8-Agrees : (v : ℕ) → v < 2 ^ 8 → Agrees (Writer.u8 v) Reader.u8 v
unfolding Reader.u8
u8-Agrees v h = rw (u8-little v) (little-take_word 1 v (omega arith) h)

-- The bytes of a string behind its length.
module _ (s : List ℕ) where
  string_body-raw :
      (r : Reader) (rest : List ℕ)
      → length s ≤ max_string_length
      → At r (s ++ rest)
      → ((string_body (length s) r).0 ≡ s) × At (string_body (length s) r).1 rest
  unfolding string_body remaining
  string_body-raw r rest h at = ground (
    arith,
    length-append s rest,
    ap (take (length s)) at.ahead,
    take-append s rest,
    drop_further r.offset r.bytes s rest at.ahead,
  )

  string_body_cut :
      (r : Reader) (front : List ℕ) (x : ℕ) (back : List ℕ)
      → s ≡ front ++ (x ∷ back)
      → At r front
      → (string_body (length s) r).1.failed ≡ true
  unfolding string_body remaining
  string_body_cut r front x back e at = ground (arith, ap length e, length-append front (x ∷ back))

  raw-string_body : length s ≤ max_string_length → Agrees (Writer.raw s) (string_body (length s)) s
  unfolding Writer.raw
  raw-string_body h = record {
    image = s;
    writes = λ out. refl;
    reads = λ r rest at. string_body-raw r rest h at;
    cut = string_body_cut;
    sticky = string_body-IsSticky (length s);
  }

  string-short :
      length s ≤ max_string_length → Writer.string s ≡ Writer.u16 (length s) >> Writer.raw s
  unfolding Writer.string
  string-short h =
      ap (λ (n : ℕ). Writer.u16 n >> Writer.raw (take n s)) {x = string_length s} (ground arith)
      ∙ ap (λ (t : List ℕ). Writer.u16 (length s) >> Writer.raw t)
          (ap (take (length s)) (sym (append-nil s)) ∙ take-append s [])

  -- Every string up to the cap, of any bytes, comes back as it was.
  pub string-Agrees : length s ≤ max_string_length → Agrees (Writer.string s) Reader.string s
  unfolding Reader.string
  string-Agrees h = rw (string-short h) (
      Agrees-bind Reader.u16 string_body (u16-Agrees (length s) (omega arith)) (raw-string_body h)
        string_body-IsSticky)

pub ruleset sticky_rules = (
  >>=-IsSticky, pure-IsSticky, u8-IsSticky, u16-IsSticky, u32-IsSticky, u64-IsSticky, f32-IsSticky,
  string-IsSticky,
)

-- One field and what follows it, and the last field with what is built of the fields: with the
-- value in the conclusion, so that `search` finds the proof for a message from the code alone.
module _ {ℓ} {B : Type ℓ} where
  pub u8-then :
      (v : ℕ) (w : Writer) (f : ℕ → Read B) (b : B)
      → v < 2 ^ 8
      → ((x : ℕ) → IsSticky (f x))
      → Agrees w (f v) b
      → Agrees (Writer.u8 v >> w) (Reader.u8 >>= f) b
  u8-then v w f b h hf more = Agrees-bind Reader.u8 f (u8-Agrees v h) more hf

  pub u8-last :
      (v : ℕ) (f : ℕ → Read B) (b : B)
      → v < 2 ^ 8
      → ((x : ℕ) → IsSticky (f x))
      → f v ≡ pure b
      → Agrees (Writer.u8 v) (Reader.u8 >>= f) b
  u8-last v f b h hf e = Agrees-last Reader.u8 f b (u8-Agrees v h) hf e

  pub u16-then :
      (v : ℕ) (w : Writer) (f : ℕ → Read B) (b : B)
      → v < 2 ^ 16
      → ((x : ℕ) → IsSticky (f x))
      → Agrees w (f v) b
      → Agrees (Writer.u16 v >> w) (Reader.u16 >>= f) b
  u16-then v w f b h hf more = Agrees-bind Reader.u16 f (u16-Agrees v h) more hf

  pub u16-last :
      (v : ℕ) (f : ℕ → Read B) (b : B)
      → v < 2 ^ 16
      → ((x : ℕ) → IsSticky (f x))
      → f v ≡ pure b
      → Agrees (Writer.u16 v) (Reader.u16 >>= f) b
  u16-last v f b h hf e = Agrees-last Reader.u16 f b (u16-Agrees v h) hf e

  pub u32-then :
      (v : ℕ) (w : Writer) (f : ℕ → Read B) (b : B)
      → v < 2 ^ 32
      → ((x : ℕ) → IsSticky (f x))
      → Agrees w (f v) b
      → Agrees (Writer.u32 v >> w) (Reader.u32 >>= f) b
  u32-then v w f b h hf more = Agrees-bind Reader.u32 f (u32-Agrees v h) more hf

  pub u32-last :
      (v : ℕ) (f : ℕ → Read B) (b : B)
      → v < 2 ^ 32
      → ((x : ℕ) → IsSticky (f x))
      → f v ≡ pure b
      → Agrees (Writer.u32 v) (Reader.u32 >>= f) b
  u32-last v f b h hf e = Agrees-last Reader.u32 f b (u32-Agrees v h) hf e

  pub u64-then :
      (v : ℕ) (w : Writer) (f : ℕ → Read B) (b : B)
      → v < 2 ^ 64
      → ((x : ℕ) → IsSticky (f x))
      → Agrees w (f v) b
      → Agrees (Writer.u64 v >> w) (Reader.u64 >>= f) b
  u64-then v w f b h hf more = Agrees-bind Reader.u64 f (u64-Agrees v h) more hf

  pub u64-last :
      (v : ℕ) (f : ℕ → Read B) (b : B)
      → v < 2 ^ 64
      → ((x : ℕ) → IsSticky (f x))
      → f v ≡ pure b
      → Agrees (Writer.u64 v) (Reader.u64 >>= f) b
  u64-last v f b h hf e = Agrees-last Reader.u64 f b (u64-Agrees v h) hf e

  pub f32-then :
      (v : ℕ) (w : Writer) (f : ℕ → Read B) (b : B)
      → v < 2 ^ 32
      → ((x : ℕ) → IsSticky (f x))
      → Agrees w (f v) b
      → Agrees (Writer.f32 v >> w) (Reader.f32 >>= f) b
  f32-then v w f b h hf more = Agrees-bind Reader.f32 f (f32-Agrees v h) more hf

  pub f32-last :
      (v : ℕ) (f : ℕ → Read B) (b : B)
      → v < 2 ^ 32
      → ((x : ℕ) → IsSticky (f x))
      → f v ≡ pure b
      → Agrees (Writer.f32 v) (Reader.f32 >>= f) b
  f32-last v f b h hf e = Agrees-last Reader.f32 f b (f32-Agrees v h) hf e

  pub string-then :
      (v : List ℕ) (w : Writer) (f : List ℕ → Read B) (b : B)
      → length v ≤ max_string_length
      → ((x : List ℕ) → IsSticky (f x))
      → Agrees w (f v) b
      → Agrees (Writer.string v >> w) (Reader.string >>= f) b
  string-then v w f b h hf more = Agrees-bind Reader.string f (string-Agrees v h) more hf

  pub string-last :
      (v : List ℕ) (f : List ℕ → Read B) (b : B)
      → length v ≤ max_string_length
      → ((x : List ℕ) → IsSticky (f x))
      → f v ≡ pure b
      → Agrees (Writer.string v) (Reader.string >>= f) b
  string-last v f b h hf e = Agrees-last Reader.string f b (string-Agrees v h) hf e

pub ruleset agree_rules = (
  u8-then, u16-then, u32-then, u64-then, f32-then, string-then, u8-last, u16-last, u32-last,
  u64-last, f32-last, string-last, sticky_rules,
)
