-- ===== src/Net/Framing/Delivery.antt =====
-- A whole connection as its owner drives it (tcp_server.cpp and db_client.cpp): in each pass `pump`,
-- then `while (stream.next(&message))`.
use mathlib.Core.Option
use untitled.Base.{ℕ, ◌≡◌, refl, sym, ap, ◌∙◌, arith, if◌then◌else◌}
use untitled.Base.{List, [], ◌∷◌, ◌++◌, true, false, append_assoc, append-nil, All}
use untitled.Base.{Option, none, some, Option-cases, inl, inr}
use untitled.Net.Framing.{
  Message, MessageStream, Received, closed, chunk, pump, next_frame, drain_all, is_oversized,
  empty_stream,
}
use untitled.Net.Framing.Parse.{
  IsMessage, next_frame-append, next_frame_short, next_frame-frame, not_oversized-frame,
}
use untitled.Net.Framing.Stream.{
  frames, drain_all-none, drain_all-some, drain_all_done, drain_all-append, drain_all-frames,
}

-- The bytes that one `pump` gets before the socket would block.
abbrev pub taken : List Received → List ℕ
taken [] = []
taken (closed ∷ _) = []
taken (chunk [] ∷ _) = []
taken (chunk (b ∷ bs) ∷ more) = (b ∷ bs) ++ taken more

-- The peer does not disconnect in this pass.
abbrev pub StaysOpen : List Received → Type 0
StaysOpen [] = Unit {0}
StaysOpen (closed ∷ _) = ⊥
StaysOpen (chunk [] ∷ _) = Unit {0}
StaysOpen (chunk (b ∷ bs) ∷ more) = StaysOpen more

abbrev pub all_taken : List (List Received) → List ℕ
all_taken [] = []
all_taken (rs ∷ passes) = taken rs ++ all_taken passes

-- `none` is a pass in which `pump` returned false, upon which the owner closes the connection.
pub serve : List (List Received) → MessageStream → Option (List Message × MessageStream)
serve [] s = some ([], s)
serve (rs ∷ passes) s =
    let (ok, s') = pump rs s in
    let (ms, left) = drain_all s'.read_buffer in
    let rest = serve passes (record s' { read_buffer = left }) in
    if ok then Option.map (λ (t : List Message × MessageStream). (ms ++ t.0, t.1)) rest else none

pump-taken :
    (rs : List Received) (s : MessageStream)
    → (pump rs s).0 ≡ true
    → (pump rs s).1 ≡ record s { read_buffer = s.read_buffer ++ taken rs }
unfolding pump
pump-taken [] s e =
    ap (λ (t : List ℕ). record s { read_buffer = t }) (sym (append-nil s.read_buffer))
pump-taken (closed ∷ more) s e = cc
pump-taken (chunk [] ∷ more) s e =
    ap (λ (t : List ℕ). record s { read_buffer = t }) (sym (append-nil s.read_buffer))
pump-taken (chunk (b ∷ bs) ∷ more) s e = ground (
  arith,
  pump-taken more (record s { read_buffer = s.read_buffer ++ (b ∷ bs) }),
  append_assoc s.read_buffer (b ∷ bs) (taken more),
)

-- A part of a run of well-formed frames never trips the size check.
not_oversized :
    (ms : List Message) (xs ys : List ℕ)
    → All IsMessage ms
    → xs ++ ys ≡ frames ms
    → is_oversized xs ≡ false
not_oversized [] [] ys v e = unfold is_oversized in refl
not_oversized [] (x ∷ xs) ys v e = cc
not_oversized (m ∷ ms) xs ys (v, vs) e = not_oversized-frame m (frames ms) xs ys v e

pump_accepts :
    (rs : List Received) (s : MessageStream) (ms : List Message) (more : List ℕ)
    → StaysOpen rs
    → All IsMessage ms
    → s.read_buffer ++ (taken rs ++ more) ≡ frames ms
    → (pump rs s).0 ≡ true
unfolding pump
pump_accepts [] s ms more o v e = refl
pump_accepts (closed ∷ rs) s ms more o v e = absurd o
pump_accepts (chunk [] ∷ rs) s ms more o v e = refl
pump_accepts (chunk (b ∷ bs) ∷ rs) s ms more o v e = ground (
  arith,
  not_oversized ms (s.read_buffer ++ (b ∷ bs)) (taken rs ++ more) v e',
  pump_accepts rs s' ms more o v e',
)
  where
    s' : MessageStream
    s' = record s { read_buffer = s.read_buffer ++ (b ∷ bs) }

    e' : s'.read_buffer ++ (taken rs ++ more) ≡ frames ms
    e' =
        append_assoc s.read_buffer (b ∷ bs) (taken rs ++ more)
        ∙ ap (◌++◌ s.read_buffer) (sym (append_assoc (b ∷ bs) (taken rs) more))
        ∙ e

-- Draining a part of a run of frames leaves a part of a shorter run.
drain_prefix :
    (ms : List Message) (xs ys : List ℕ)
    → All IsMessage ms
    → xs ++ ys ≡ frames ms
    → (ns : List Message) × All IsMessage ns × ((drain_all xs).1 ++ ys ≡ frames ns)
drain_prefix [] [] ys v e = ([], tt, rw (drain_all-none [] (next_frame_short [] (omega arith))) e)
drain_prefix [] (x ∷ xs) ys v e = cc
drain_prefix (m ∷ ms) xs ys (v, vs) e = elim (Option-cases (next_frame xs)) [
  | inl stop ↦ (m ∷ ms, (v, vs), rw (drain_all-none xs stop) e)
  | inr ((m', left), step) ↦
      let whole =
        sym (next_frame-append xs ys m' left step)
        ∙ ap next_frame e
        ∙ next_frame-frame m (frames ms) v in
      let (ns, vns, ens) = drain_prefix ms left ys vs (cc whole) in
      (ns, vns, rw (drain_all-some xs m' left step) ens)
]

-- Where the bytes are a part of a run of frames and the connection stays open, passes one after
-- another give what the loop makes of all their bytes at once.
pub serve-drain_all :
    (passes : List (List Received)) (s : MessageStream) (ms : List Message) (more : List ℕ)
    → All StaysOpen passes
    → All IsMessage ms
    → next_frame s.read_buffer ≡ none
    → s.read_buffer ++ (all_taken passes ++ more) ≡ frames ms
    → let (out, left) = drain_all (s.read_buffer ++ all_taken passes) in
      serve passes s ≡ some (out, record s { read_buffer = left })
unfolding serve
serve-drain_all [] s ms more o v done e = rw (append-nil, drain_all-none s.read_buffer done)
serve-drain_all (rs ∷ passes) s ms more (o, os) v done e =
    let (ns, vns, ens) = drain_prefix ms now (all_taken passes ++ more) v split in
    rw
      (
        accepted,
        pump-taken rs s accepted,
        serve-drain_all passes after ns more os vns (drain_all_done now) ens,
      )
      (ap (λ (t : List Message × List ℕ). some (t.0, record s { read_buffer = t.1 }))
        (sym (drain_all-append now (all_taken passes))
          ∙ ap drain_all (append_assoc s.read_buffer (taken rs) (all_taken passes))))
  where
    now : List ℕ
    now = s.read_buffer ++ taken rs

    after : MessageStream
    after = record s { read_buffer = (drain_all now).1 }

    split : now ++ (all_taken passes ++ more) ≡ frames ms
    split =
        append_assoc s.read_buffer (taken rs) (all_taken passes ++ more)
        ∙ ap (◌++◌ s.read_buffer) (sym (append_assoc (taken rs) (all_taken passes) more))
        ∙ e

    accepted : (pump rs s).0 ≡ true
    accepted =
        pump_accepts rs s ms (all_taken passes ++ more) o v
          (sym (append_assoc s.read_buffer (taken rs) (all_taken passes ++ more)) ∙ split)

-- The messages of a connection that stays open arrive exactly as they were sent, in order, however
-- TCP cuts the bytes into passes and into calls of `receive`, and nothing is left in the buffer.
pub serve-frames :
    (passes : List (List Received)) (ms : List Message)
    → All StaysOpen passes
    → All IsMessage ms
    → all_taken passes ≡ frames ms
    → serve passes empty_stream ≡ some (ms, empty_stream)
serve-frames passes ms o v e =
    serve-drain_all passes empty_stream ms [] o v (next_frame_short [] (omega arith))
      (append-nil (all_taken passes) ∙ e)
    ∙ ap (λ (t : List Message × List ℕ). some (t.0, record empty_stream { read_buffer = t.1 }))
        (ap drain_all e ∙ drain_all-frames ms v)
