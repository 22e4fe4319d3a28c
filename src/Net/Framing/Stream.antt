-- ===== src/Net/Framing/Stream.antt =====
-- The receiving side over a whole connection: `while (stream.next(&message))` behind each `pump`.
use untitled.Base.{ℕ, zero, suc, ◌≤◌, ◌≡◌, refl, sym, ap, ◌∙◌, arith}
use untitled.Base.{List, [], ◌∷◌, ◌++◌, length, All}
use untitled.Base.{none, some, Option-cases, inl, inr}
use untitled.Net.Framing.{Message, next_frame, drain, drain_all, write_frame}
use untitled.Net.Framing.Parse.{
  IsMessage, next_frame_short, next_frame-append, next_frame-shorter, next_frame-frame,
}

drain-none : (fuel : ℕ) (d : List ℕ) → next_frame d ≡ none → drain fuel d ≡ ([], d)
unfolding drain
drain-none zero d e = refl
drain-none (suc fuel) d e = rw (e, drain)

drain-some :
    (fuel : ℕ) (d : List ℕ) (m : Message) (left : List ℕ)
    → next_frame d ≡ some (m, left)
    → drain (suc fuel) d ≡ (m ∷ (drain fuel left).0, (drain fuel left).1)
unfolding drain
drain-some fuel d m left e = rw (e, drain)

-- Enough fuel is as good as more.
drain-fuel : (j k : ℕ) (d : List ℕ) → length d ≤ j → length d ≤ k → drain j d ≡ drain k d
drain-fuel zero k d hj hk =
    let stop = next_frame_short d (omega arith) in drain-none 0 d stop ∙ sym (drain-none k d stop)
drain-fuel (suc j) zero d hj hk =
    let stop = next_frame_short d (omega arith) in
    drain-none (suc j) d stop ∙ sym (drain-none 0 d stop)
drain-fuel (suc j) (suc k) d hj hk = elim (Option-cases (next_frame d)) [
  | inl e ↦ drain-none (suc j) d e ∙ sym (drain-none (suc k) d e)
  | inr ((m, left), e) ↦
      let less = next_frame-shorter d m left e in
      drain-some j d m left e
      ∙ ap (λ (t : List Message × List ℕ). (m ∷ t.0, t.1))
          (drain-fuel j k left (omega arith) (omega arith))
      ∙ sym (drain-some k d m left e)
]

pub drain_all-none : (d : List ℕ) → next_frame d ≡ none → drain_all d ≡ ([], d)
unfolding drain_all
drain_all-none d e = drain-none (length d) d e

pub drain_all-some :
    (d : List ℕ) (m : Message) (left : List ℕ)
    → next_frame d ≡ some (m, left)
    → drain_all d ≡ (m ∷ (drain_all left).0, (drain_all left).1)
unfolding drain_all
drain_all-some d m left e =
    let less = next_frame-shorter d m left e in
    drain-fuel (length d) (suc (length d)) d (omega arith) (omega arith)
    ∙ drain-some (length d) d m left e
    ∙ ap (λ (t : List Message × List ℕ). (m ∷ t.0, t.1))
        (drain-fuel (length d) (length left) left (omega arith) (omega arith))

-- The loop ends by its test, never for want of fuel.
drain_done : (fuel : ℕ) (d : List ℕ) → length d ≤ fuel → next_frame (drain fuel d).1 ≡ none
drain_done zero d h =
    rw (drain-none 0 d (next_frame_short d (omega arith))) (next_frame_short d (omega arith))
drain_done (suc fuel) d h = elim (Option-cases (next_frame d)) [
  | inl e ↦ rw (drain-none (suc fuel) d e) e
  | inr ((m, left), e) ↦
      let less = next_frame-shorter d m left e in
      rw (drain-some fuel d m left e) (drain_done fuel left (omega arith))
]

-- Behind the loop on any bytes, `next` finds no further message: the loop ends by its test, never
-- for want of fuel.
pub drain_all_done : (d : List ℕ) → next_frame (drain_all d).1 ≡ none
unfolding drain_all
drain_all_done d = drain_done (length d) d (omega arith)

-- Draining `xs` and then what is left with `ys` behind it.
abbrev pub then_drain : List Message × List ℕ → List ℕ → List Message × List ℕ
then_drain (ms, left) ys = (ms ++ (drain_all (left ++ ys)).0, (drain_all (left ++ ys)).1)

drain-append_fuel :
    (fuel : ℕ) (xs ys : List ℕ)
    → length xs ≤ fuel
    → drain_all (xs ++ ys) ≡ then_drain (drain_all xs) ys
drain-append_fuel zero xs ys h = rw (drain_all-none xs (next_frame_short xs (omega arith)))
drain-append_fuel (suc fuel) xs ys h = elim (Option-cases (next_frame xs)) [
  | inl e ↦ rw (drain_all-none xs e)
  | inr ((m, left), e) ↦
      let less = next_frame-shorter xs m left e in
      drain_all-some (xs ++ ys) m (left ++ ys) (next_frame-append xs ys m left e)
      ∙ ap (λ (t : List Message × List ℕ). (m ∷ t.0, t.1))
          (drain-append_fuel fuel left ys (omega arith))
      ∙ ap (λ (t : List Message × List ℕ). then_drain t ys) (sym (drain_all-some xs m left e))
]

-- Whatever the bytes, the loop may run on a part of them first and go on when the rest is there:
-- the messages and what is left are the same.
pub drain_all-append : (xs ys : List ℕ) → drain_all (xs ++ ys) ≡ then_drain (drain_all xs) ys
drain_all-append xs ys = drain-append_fuel (length xs) xs ys (omega arith)

abbrev pub frames : List Message → List ℕ
frames [] = []
frames (m ∷ ms) = write_frame m [] ++ frames ms

-- The frames of well-formed messages give the messages, and nothing is left.
pub drain_all-frames : (ms : List Message) → All IsMessage ms → drain_all (frames ms) ≡ (ms, [])
drain_all-frames [] v = drain_all-none [] (next_frame_short [] (omega arith))
drain_all-frames (m ∷ ms) (v, vs) =
    drain_all-some (frames (m ∷ ms)) m (frames ms) (next_frame-frame m (frames ms) v)
    ∙ ap (λ (t : List Message × List ℕ). (m ∷ t.0, t.1)) (drain_all-frames ms vs)
