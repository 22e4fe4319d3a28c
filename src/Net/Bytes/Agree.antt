-- ===== src/Net/Bytes/Agree.antt =====
-- When a writer and a read of byte_stream.h agree on a value. The rules below build such an agreement
-- for a whole message out of its fields, in the order in which the code writes and reads them.
use native.Mathlib.Nat.{mod-eq_of_lt}
use untitled.Base.{ℕ, ◌+◌, ◌*◌, ◌%◌, ◌^◌, ◌<◌, ◌≡◌, refl, sym, ap, ◌∙◌, arith}
use untitled.Base.{
  List, [], ◌∷◌, ◌++◌, length, drop, length-append, append_assoc, drop_further,
  append-eq-append_cases,
}
use untitled.Base.{true, false, inl, inr}
use untitled.Net.Bytes.Writer
use untitled.Net.Bytes.Writer.{Writer, ◌>>◌, little, little_from}
use untitled.Net.Bytes.Reader.{Reader, Read, reader, ◌>>=◌, pure, take_word, take_loop, remaining}
use untitled.Net.Bytes.Layout.{length-little_from, take_loop-little_from}

-- The reader has not failed, and `rest` is what it has still to read.
pub record At (r : Reader) (rest : List ℕ) : Type 0 where
  pub fine : r.failed ≡ false
  pub ahead : drop r.offset r.bytes ≡ rest
  pub count : r.offset + length rest ≡ length r.bytes

pub At-reader : (bytes : List ℕ) → At (reader bytes) bytes
At-reader bytes = record { fine = refl; ahead = refl; count = omega arith }

unfoldable pub IsSticky {ℓ} : {A : Type ℓ} → Read A → Type 0
IsSticky m = (r : Reader) → r.failed ≡ true → (m r).1.failed ≡ true

pub record Agrees {ℓ} {A : Type ℓ} (w : Writer) (m : Read A) (a : A) : Type ℓ where
  pub image : List ℕ
  pub writes : (out : List ℕ) → w out ≡ out ++ image
  pub reads : (r : Reader) (rest : List ℕ) → At r (image ++ rest) → ((m r).0 ≡ a) × At (m r).1 rest
  pub cut :
      (r : Reader) (front : List ℕ) (x : ℕ) (back : List ℕ)
      → image ≡ front ++ (x ∷ back)
      → At r front
      → (m r).1.failed ≡ true
  pub sticky : IsSticky m

-- A word of `n` bytes.
module _ (n v : ℕ) where
  take_word-little :
      (r : Reader) (rest : List ℕ)
      → v < 2 ^ (8 * n)
      → At r (little_from 0 n v ++ rest)
      → ((take_word n r).0 ≡ v) × At (take_word n r).1 rest
  unfolding take_word remaining
  take_word-little r rest hv at = ground (
    arith,
    length-append (little_from 0 n v) rest,
    length-little_from 0 n v,
    drop_further r.offset r.bytes (little_from 0 n v) rest at.ahead,
    value,
  )
    where
      value : take_loop n r.bytes r.offset 0 n 0 ≡ v
      value =
          take_loop-little_from n n 0 v 0 r.bytes r.offset rest (omega arith)
            (ap (λ (t : ℕ). drop t r.bytes) {y = r.offset} (omega arith) ∙ at.ahead) (omega arith)
          ∙ ap (λ (t : ℕ). v % 2 ^ (8 * t)) {x = 0 + n} {y = n} (omega arith)
          ∙ mod-eq_of_lt hv

  take_word_cut :
      (r : Reader) (front : List ℕ) (x : ℕ) (back : List ℕ)
      → little_from 0 n v ≡ front ++ (x ∷ back)
      → At r front
      → (take_word n r).1.failed ≡ true
  unfolding take_word remaining
  take_word_cut r front x back e at =
      ground (arith, ap length e, length-append front (x ∷ back), length-little_from 0 n v)

  pub little-take_word : 0 < n → v < 2 ^ (8 * n) → Agrees (little n v) (take_word n) v
  unfolding little Writer.raw take_word remaining IsSticky
  little-take_word hn hv = record {
    image = little_from 0 n v;
    writes = λ out. refl;
    reads = λ r rest at. take_word-little r rest hv at;
    cut = take_word_cut;
    sticky = λ r h. ground arith;
  }

-- Two fields in a row.
module _ {ℓ κ} {A : Type ℓ} {B : Type κ} (m : Read A) (f : A → Read B) where
  pub >>=-IsSticky : IsSticky m → ((a : A) → IsSticky (f a)) → IsSticky (m >>= f)
  unfolding ◌>>=◌ IsSticky
  >>=-IsSticky hm hf r h = hf (m r).0 (m r).1 (hm r h)

  module _ {w w' : Writer} {a : A} {b : B} (first : Agrees w m a) (second : Agrees w' (f a) b) where
    join_reads :
        (r : Reader) (rest : List ℕ)
        → At r (first.image ++ second.image ++ rest)
        → (((m >>= f) r).0 ≡ b) × At ((m >>= f) r).1 rest
    unfolding ◌>>=◌
    join_reads r rest at =
        let (e, at') = first.reads r (second.image ++ rest) (rw append_assoc at at) in
        rw (e, ◌>>=◌) (second.reads (m r).1 rest at')

    join_cut :
        ((x : A) → IsSticky (f x))
        → (r : Reader) (front : List ℕ) (x : ℕ) (back : List ℕ)
        → first.image ++ second.image ≡ front ++ (x ∷ back)
        → At r front
        → ((m >>= f) r).1.failed ≡ true
    unfolding ◌>>=◌ IsSticky
    join_cut hf r front x back e at =
        elim (append-eq-append_cases first.image second.image front x back e) [
          | inl (mid, e1) ↦ hf _ _ (first.cut r front x mid e1 at)
          | inr (mid, e1, e2) ↦
              let (e', at') = first.reads r mid (rw e1 at at) in
              rw (e', ◌>>=◌) (second.cut (m r).1 mid x back e2 at')
        ]

    pub Agrees-bind : ((x : A) → IsSticky (f x)) → Agrees (w >> w') (m >>= f) b
    unfolding ◌>>◌
    Agrees-bind hf = record {
      image = first.image ++ second.image;
      writes = λ out.
          second.writes (w out)
          ∙ ap (λ (t : List ℕ). t ++ second.image) (first.writes out)
          ∙ append_assoc out first.image second.image;
      reads = join_reads;
      cut = join_cut hf;
      sticky = >>=-IsSticky first.sticky hf;
    }

pub pure-IsSticky {ℓ} : {A : Type ℓ} (a : A) → IsSticky (pure a)
unfolding pure IsSticky
pure-IsSticky a r h = h

-- The last field, and what is built of it.
module _ {ℓ κ} {A : Type ℓ} {B : Type κ} {w : Writer} (m : Read A) (f : A → Read B) {a : A} where
  last_reads :
      (first : Agrees w m a) (b : B)
      → f a ≡ pure b
      → (r : Reader) (rest : List ℕ) → At r (first.image ++ rest)
      → (((m >>= f) r).0 ≡ b) × At ((m >>= f) r).1 rest
  unfolding ◌>>=◌ pure
  last_reads first b h r rest at =
      let (e, at') = first.reads r rest at in rw (e, ◌>>=◌) (rw h (refl, at'))

  pub Agrees-last :
      (b : B) → Agrees w m a → ((x : A) → IsSticky (f x)) → f a ≡ pure b → Agrees w (m >>= f) b
  unfolding ◌>>=◌ pure IsSticky
  Agrees-last b first hf h = record {
    image = first.image;
    writes = first.writes;
    reads = last_reads first b h;
    cut = λ r front x back e at. hf _ _ (first.cut r front x back e at);
    sticky = λ r bad. hf _ _ (first.sticky r bad);
  }

module _ {ℓ} {A : Type ℓ} {w : Writer} (m : Read A) {a : A} (agree : Agrees w m a) where
  -- A fresh reader on what the writer wrote, and on whatever follows it.
  pub read-write :
      (rest : List ℕ) → ((m (reader (w [] ++ rest))).0 ≡ a) × At (m (reader (w [] ++ rest))).1 rest
  read-write rest =
      agree.reads _ rest
        (rw (agree.writes []) (record { fine = refl; ahead = refl; count = omega arith }))

  pub read_cut :
      (front : List ℕ) (x : ℕ) (back : List ℕ)
      → w [] ≡ front ++ (x ∷ back)
      → (m (reader front)).1.failed ≡ true
  read_cut front x back e = agree.cut _ front x back (sym (agree.writes []) ∙ e) (At-reader front)
