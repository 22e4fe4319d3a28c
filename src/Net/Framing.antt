-- ===== src/Net/Framing.antt =====
-- common/net/include/net/framing.h and common/net/src/framing.cpp: messages on a TCP stream,
-- `[u32 payloadSize][u16 type][payload]`. What the socket answers, call by call, is an argument:
-- the list of outcomes of `TcpSocket::receive` and of `TcpSocket::send`. Where the list ends, the
-- socket would block.
pub mod Parse
pub mod Stream
pub mod Flush
pub mod Delivery
use untitled.Base.{ℕ, zero, suc, ◌+◌, ◌%◌, ◌^◌, Bool, true, false, ◌&&◌, List, [], ◌∷◌, ◌++◌}
use untitled.Base.{Option, none, some, length, take, drop, get_or, bit_or, shl, ltb, leb}
use untitled.Base.{if◌then◌else◌}
use untitled.Net.Bytes.Writer
use untitled.Net.Bytes.Writer.{Writer, ◌>>◌}

pub record Message : Type 0 where
  pub type : ℕ
  pub payload : List ℕ

pub record MessageStream : Type 0 where
  pub read_buffer : List ℕ
  pub write_buffer : List ℕ
  pub write_offset : ℕ

abbrev pub empty_stream : MessageStream
empty_stream = record { read_buffer = []; write_buffer = []; write_offset = 0 }

abbrev pub header_size : ℕ
header_size = 4 + 2

abbrev pub max_payload_size : ℕ
max_payload_size = 2 ^ 20

-- The data is at least as long as the index asks for wherever these are called.
pub read_u32 : List ℕ → ℕ
read_u32 d =
    bit_or (bit_or (bit_or (get_or d 0 0) (shl (get_or d 1 0) 8)) (shl (get_or d 2 0) 16))
      (shl (get_or d 3 0) 24)

pub read_u16 : List ℕ → ℕ
read_u16 d = bit_or (get_or d 0 0) (shl (get_or d 1 0) 8) % 2 ^ 16

-- `receive`: false is `closed`, and a call that would block hands out no bytes.
pub data Received : Type 0 where
  closed : Received
  chunk : List ℕ → Received

-- The check at the end of `pump`'s loop.
pub is_oversized : List ℕ → Bool
is_oversized d = leb header_size (length d) && ltb max_payload_size (read_u32 d)

unfoldable pub pump : List Received → MessageStream → Bool × MessageStream
pump [] s = (true, s)
pump (closed ∷ _) s = (false, s)
pump (chunk [] ∷ _) s = (true, s)
pump (chunk (b ∷ bs) ∷ more) s =
    let s' = record s { read_buffer = s.read_buffer ++ (b ∷ bs) } in
    let rest = pump more s' in if is_oversized s'.read_buffer then (false, s') else rest

-- `next` on the read buffer: the message and what is left of the buffer.
pub next_frame : List ℕ → Option (Message × List ℕ)
next_frame d =
    if ltb (length d) header_size
    then none
    else (let size = read_u32 d in
        if ltb max_payload_size size
        then none
        else (if ltb (length d) (header_size + size)
            then none
            else some (
              record { type = read_u16 (drop 4 d); payload = take size (drop header_size d) },
              drop (header_size + size) d,
            )))

-- `none` is the result false, which leaves the stream as it was.
unfoldable pub next : MessageStream → Option (Message × MessageStream)
next s = elim (next_frame s.read_buffer) [
  | none ↦ none
  | some (m, left) ↦ some (m, record s { read_buffer = left })
]

-- `while (stream.next(&message))`, on fuel: the messages in order and what is left.
pub drain : ℕ → List ℕ → List Message × List ℕ
drain zero d = ([], d)
drain (suc fuel) d = elim (next_frame d) [
  | none ↦ ([], d)
  | some (m, left) ↦ let (ms, rest) = drain fuel left in (m ∷ ms, rest)
]

-- A message takes at least a header, so the length of the buffer is fuel enough.
unfoldable pub drain_all : List ℕ → List Message × List ℕ
drain_all d = drain (length d) d

-- `send` of the socket: false is `broken`, and 0 means that it would block.
pub data Sent : Type 0 where
  broken : Sent
  sent : ℕ → Sent

-- Is there something left to send? `hasPendingWrites`.
unfoldable pub has_pending_writes : MessageStream → Bool
has_pending_writes s = ltb s.write_offset (length s.write_buffer)

-- Behind the loop.
abbrev pub cleared : MessageStream → MessageStream
cleared s = record s { write_buffer = []; write_offset = 0 }

-- The result, the stream afterwards, and the bytes that the socket accepted.
unfoldable pub flush : List Sent → MessageStream → Bool × MessageStream × List ℕ
unfolding has_pending_writes
flush [] s = if has_pending_writes s then (true, s, []) else (true, cleared s, [])
flush (broken ∷ _) s = if has_pending_writes s then (false, s, []) else (true, cleared s, [])
flush (sent zero ∷ _) s = if has_pending_writes s then (true, s, []) else (true, cleared s, [])
flush (sent (suc n) ∷ more) s =
    let (ok, s', wire) = flush more (record s { write_offset = s.write_offset + suc n }) in
    if has_pending_writes s
    then (ok, s', take (suc n) (drop s.write_offset s.write_buffer) ++ wire)
    else (true, cleared s, [])

-- What `send` appends for one message.
unfoldable pub write_frame : Message → Writer
write_frame m = do Writer.u32 (length m.payload % 2 ^ 32); Writer.u16 m.type; Writer.raw m.payload

unfoldable pub send : List Sent → Message → MessageStream → MessageStream × List ℕ
send outcomes m s =
    let (_, s', wire) = flush outcomes (record s { write_buffer = write_frame m s.write_buffer }) in
    (s', wire)
