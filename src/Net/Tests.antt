-- ===== src/Net/Tests.antt =====
-- Runs at small inputs, and each theorem of the protocol at one of them.
use untitled.Base.{◌≡◌, refl, arith, true, false, List, [], ◌∷◌, ◌++◌, length, drop}
use untitled.Base.{none, some, All}
use untitled.Net.Bytes.Writer
use untitled.Net.Bytes.Writer.{◌>>◌, max_string_length}
use untitled.Net.Bytes.Reader
use untitled.Net.Bytes.Reader.{Reader, reader, take_word}
use untitled.Net.Bytes.Values.{little_endian, take_word-little_endian}
use untitled.Base.{take}
use untitled.Net.Framing.{
  Message, MessageStream, Received, chunk, Sent, sent, empty_stream, next_frame, drain_all,
  write_frame, flush, send, has_pending_writes,
}
use untitled.Net.Framing.Parse.{IsMessage, next_frame_short}
use untitled.Net.Framing.Stream
use untitled.Net.Framing.Stream.{drain_all-append, drain_all_done, then_drain}
use untitled.Net.Framing.Flush
use untitled.Net.Framing.Flush.{
  pending, send_all, send_all-pending, AllAccept, flush-pending, Accepts,
}
use untitled.Net.Framing.Delivery.{all_taken, serve, serve-frames}
use untitled.Net.Snapshot.{
  EntityState, Snapshot, encode_snapshot, decode_snapshot, write_head, write_entities, write_entity,
}
use untitled.Net.Snapshot.Entity.{IsEntity}
use untitled.Net.Snapshot.Packet.{IsSnapshot, decode-encode, decode_cut}

-- Two messages, and their bytes as TCP might hand them out in two passes.
abbrev two_messages : List Message
two_messages = record { type = 3; payload = 1 ∷ 2 ∷ [] } ∷ record { type = 258; payload = [] } ∷ []

abbrev two_passes : List (List Received)
two_passes =
    (chunk (2 ∷ 0 ∷ 0 ∷ []) ∷ [])
    ∷ (chunk (0 ∷ 3 ∷ 0 ∷ 1 ∷ []) ∷ chunk (2 ∷ 0 ∷ 0 ∷ 0 ∷ 0 ∷ 2 ∷ 1 ∷ []) ∷ [])
    ∷ []

two_messages-IsMessage : All IsMessage two_messages
two_messages-IsMessage = (
  record { type = omega arith; size = omega arith },
  (record { type = omega arith; size = omega arith }, tt),
)

two_passes-frames : all_taken two_passes ≡ Stream.frames two_messages
unfolding write_frame ◌>>◌ Writer.u32 Writer.u16 Writer.raw Writer.little Writer.little_from
two_passes-frames = refl

serve-frames_example : serve two_passes empty_stream ≡ some (two_messages, empty_stream)
serve-frames_example =
    serve-frames two_passes two_messages (tt, (tt, tt)) two_messages-IsMessage two_passes-frames

-- After the first of the passes.
empty-next_frame : next_frame (empty_stream.read_buffer) ≡ none
empty-next_frame = next_frame_short [] (omega arith)

-- A socket that takes three bytes of the first message and the rest at the second.
abbrev two_sends : List (List Sent × Message)
two_sends =
    (sent 3 ∷ [], record { type = 3; payload = 1 ∷ 2 ∷ [] })
    ∷ (sent 5 ∷ sent 6 ∷ [], record { type = 258; payload = [] })
    ∷ []

two_sends-AllAccept : AllAccept two_sends empty_stream
unfolding send flush has_pending_writes write_frame ◌>>◌ Writer.u32 Writer.u16 Writer.raw
    Writer.little Writer.little_from
two_sends-AllAccept = ((omega arith, tt), ((omega arith, (omega arith, tt)), tt))

empty-IsValid : Flush.IsValid empty_stream
empty-IsValid = record { within = omega arith }

send_all-pending_example :
    (send_all two_sends empty_stream).1 ++ pending (send_all two_sends empty_stream).0
    ≡ pending empty_stream ++ Flush.frames two_sends
send_all-pending_example = send_all-pending two_sends empty_stream empty-IsValid two_sends-AllAccept

-- Five bytes queued, two of them gone.
abbrev half_sent : MessageStream
half_sent = record { read_buffer = []; write_buffer = 1 ∷ 2 ∷ 3 ∷ 4 ∷ 5 ∷ []; write_offset = 2 }

drain_all_done_example : next_frame (drain_all (2 ∷ 0 ∷ 0 ∷ [])).1 ≡ none
drain_all_done_example = drain_all_done (2 ∷ 0 ∷ 0 ∷ [])

-- A string of two bytes, and its reader.
abbrev hi : Reader
hi = reader (2 ∷ 0 ∷ 104 ∷ 105 ∷ [])

hi-word : (take_word 4 hi).1.failed ≡ false
unfolding take_word Reader.remaining
hi-word = refl

take_word-little_endian_example :
    (length (take 4 hi.bytes) ≡ 4) × ((take_word 4 hi).0 ≡ little_endian (take 4 hi.bytes))
take_word-little_endian_example =
    take_word-little_endian 4 hi (omega arith, (omega arith, (omega arith, (omega arith, tt))))
      (omega arith) hi-word

-- A snapshot of one cube; 1065353216 is 1.0.
abbrev cube : EntityState
cube = record {
  id = 7;
  type = 1;
  position = record { x = 0; y = 1065353216; z = 0 };
  rotation = record { x = 0; y = 0; z = 0; w = 1065353216 };
  velocity = record { x = 0; y = 0; z = 0 };
  angular_velocity = record { x = 0; y = 0; z = 0 };
  last_input_sequence = 12;
}

abbrev one_cube : Snapshot
one_cube = record { tick = 5; server_time_ms = 83; time_of_day = 0; entities = cube ∷ [] }

abbrev no_cubes : Snapshot
no_cubes = record { tick = 0; server_time_ms = 0; time_of_day = 0; entities = [] }

cube-IsEntity : IsEntity cube
cube-IsEntity = record {
  id = omega arith;
  type = omega arith;
  position = record { x = omega arith; y = omega arith; z = omega arith };
  rotation_x = omega arith;
  rotation_y = omega arith;
  rotation_z = omega arith;
  rotation_w = omega arith;
  velocity = record { x = omega arith; y = omega arith; z = omega arith };
  angular = record { x = omega arith; y = omega arith; z = omega arith };
  last = omega arith;
}

one_cube-IsSnapshot : IsSnapshot one_cube
one_cube-IsSnapshot = record {
  tick = omega arith;
  time = omega arith;
  day = omega arith;
  entities = (cube-IsEntity, tt);
}

decode-encode_example :
    decode_snapshot (encode_snapshot one_cube [] ++ (1 ∷ [])) no_cubes ≡ (true, one_cube)
decode-encode_example = decode-encode one_cube one_cube-IsSnapshot (1 ∷ []) no_cubes (omega arith)

-- Its first two bytes.
one_cube_cut :
    encode_snapshot one_cube [] ≡ (5 ∷ 0 ∷ []) ++ (0 ∷ drop 3 (encode_snapshot one_cube []))
unfolding encode_snapshot write_head write_entities write_entity ◌>>◌ Writer.u32 Writer.u64
    Writer.f32 Writer.u16 Writer.u8 Writer.raw Writer.little Writer.little_from
one_cube_cut = refl

decode_cut_example : (decode_snapshot (5 ∷ 0 ∷ []) no_cubes).0 ≡ false
decode_cut_example =
    decode_cut one_cube one_cube-IsSnapshot (5 ∷ 0 ∷ []) 0 (drop 3 (encode_snapshot one_cube []))
      no_cubes (omega arith) one_cube_cut
