-- ===== src/Net/Framing/Flush.antt =====
-- The sending side of common/net/src/framing.cpp: `send` and `flush`, and what is pending.
use untitled.Base.{ℕ, zero, suc, ◌+◌, ◌-◌, ◌≤◌, ◌≡◌, sym, ap, ◌∙◌, arith, subst}
use untitled.Base.{List, [], ◌∷◌, ◌++◌, length, take, drop, append_assoc, append-nil}
use untitled.Base.{
  length-append, take-append-drop, drop_past, drop-drop, length-drop, drop-append_le,
}
use untitled.Net.Bytes.Writer
use untitled.Net.Framing.{Message, MessageStream, Sent, broken, sent, flush, send, write_frame}

-- The bytes that are queued and not yet accepted by the socket.
abbrev pub pending : MessageStream → List ℕ
pending s = drop s.write_offset s.write_buffer

pub record IsValid (s : MessageStream) : Type 0 where
  pub within : s.write_offset ≤ length s.write_buffer

-- `send` of the operating system accepts at most the bytes that it is offered.
abbrev pub Accepts : List Sent → ℕ → Type 0
Accepts [] n = Unit {0}
Accepts (broken ∷ more) n = Unit {0}
Accepts (sent k ∷ more) n = (k ≤ n) × Accepts more (n - k)

-- `flush` on a stream whose offset lies within its buffer and on any outcomes that accept no more
-- than they are offered: the accepted bytes and what is still pending are what was pending, and
-- the offset stays within the buffer.
pub flush-pending :
    (os : List Sent) (s : MessageStream)
    → IsValid s
    → Accepts os (length (pending s))
    → let (ok, s', wire) = flush os s in (wire ++ pending s' ≡ pending s) × IsValid s'
unfolding flush
flush-pending [] s v a = ground (arith, drop_past s.write_offset s.write_buffer)
flush-pending (broken ∷ more) s v a = ground (arith, drop_past s.write_offset s.write_buffer)
flush-pending (sent zero ∷ more) s v a = ground (arith, drop_past s.write_offset s.write_buffer)
flush-pending (sent (suc n) ∷ more) s v a =
    let (rest, valid) = flush-pending more s' fits accepts in
    let joined =
      append_assoc (take (suc n) (pending s)) (flush more s').2 (pending (flush more s').1)
      ∙ ap (◌++◌ (take (suc n) (pending s)))
          (rest ∙ drop-drop s.write_offset (suc n) s.write_buffer)
      ∙ take-append-drop (suc n) (pending s) in
    ground (arith, joined, valid, length-drop s.write_offset s.write_buffer)
  where
    s' : MessageStream
    s' = record s { write_offset = s.write_offset + suc n }

    fits : IsValid s'
    fits = omega (arith, length-drop s.write_offset s.write_buffer)

    accepts : Accepts more (length (pending s'))
    accepts =
        subst (Accepts more)
          (omega (
            arith,
            length-drop s.write_offset s.write_buffer,
            length-drop (s.write_offset + suc n) s.write_buffer,
          ))
          a.1

-- The bytes of one message.
abbrev pub frame : Message → List ℕ
frame m = write_frame m []

write_frame-append : (m : Message) (out : List ℕ) → write_frame m out ≡ out ++ frame m
unfolding write_frame Writer.◌>>◌ Writer.u32 Writer.u16 Writer.raw
write_frame-append m out = simp append_assoc

-- `send` puts one frame behind what was pending, and hands on a part of that.
pub send-pending :
    (os : List Sent) (m : Message) (s : MessageStream)
    → IsValid s
    → Accepts os (length (pending s ++ frame m))
    → let (s', wire) = send os m s in (wire ++ pending s' ≡ pending s ++ frame m) × IsValid s'
unfolding send
send-pending os m s v a =
    let (joined, valid) =
      flush-pending os s' fits (subst (λ (t : List ℕ). Accepts os (length t)) (sym queued) a) in
    (joined ∙ queued, valid)
  where
    s' : MessageStream
    s' = record s { write_buffer = write_frame m s.write_buffer }

    grown : write_frame m s.write_buffer ≡ s.write_buffer ++ frame m
    grown = write_frame-append m s.write_buffer

    queued : pending s' ≡ pending s ++ frame m
    queued =
        ap (drop s.write_offset) grown
        ∙ drop-append_le s.write_offset s.write_buffer (frame m) v.within

    fits : IsValid s'
    fits = omega (arith, ap length grown, length-append s.write_buffer (frame m))

-- A run of sends: the outcomes and the message of each.
pub send_all : List (List Sent × Message) → MessageStream → MessageStream × List ℕ
send_all [] s = (s, [])
send_all ((os, m) ∷ rest) s =
    let (s', wire) = send os m s in let (s'', more) = send_all rest s' in (s'', wire ++ more)

abbrev pub AllAccept : List (List Sent × Message) → MessageStream → Type 0
AllAccept [] s = Unit {0}
AllAccept ((os, m) ∷ rest) s =
    Accepts os (length (pending s ++ frame m)) × AllAccept rest (send os m s).0

abbrev pub frames : List (List Sent × Message) → List ℕ
frames [] = []
frames ((os, m) ∷ rest) = frame m ++ frames rest

-- From a stream whose offset lies within its buffer, and however the socket takes the bytes that
-- it is offered, those on the wire and then those pending are what was pending before and then the
-- frames of the messages in the order in which they were sent.
pub send_all-pending :
    (calls : List (List Sent × Message)) (s : MessageStream)
    → IsValid s
    → AllAccept calls s
    → (send_all calls s).1 ++ pending (send_all calls s).0 ≡ pending s ++ frames calls
unfolding send_all
send_all-pending [] s v a = sym (append-nil (pending s))
send_all-pending ((os, m) ∷ rest) s v (a, later) =
    let (here, valid) = send-pending os m s v a in
    let (s', wire) = send os m s in
    append_assoc wire (send_all rest s').1 (pending (send_all rest s').0)
    ∙ ap (◌++◌ wire) (send_all-pending rest s' valid later)
    ∙ sym (append_assoc wire (pending s') (frames rest))
    ∙ ap (λ (t : List ℕ). t ++ frames rest) here
    ∙ append_assoc (pending s) (frame m) (frames rest)
