-- ===== src/Client/NetClient/Talks.antt =====
-- What the world server (server/worldserver/src/main.cpp) makes of the datagrams that the client sends
-- (client/src/net_client.cpp).
use untitled.Base.{ℕ, ◌^◌, ◌≤◌, ◌<◌, ◌≡◌, refl, sym, arith, List, [], ◌++◌, length, drop}
use untitled.Base.{Bool, true, false, some, append-nil, subst, not, ◌==◌, ltb}
use untitled.Base.{bit_and, ◌⊎◌, ◌&&◌}
use untitled.Net.Protocol.World.{input_jump, input_sprint}
use untitled.Base.Maps.{find, put}
use untitled.Net.Bytes.Writer.{Writer, max_string_length}
use untitled.Net.Bytes.Reader.{Read, reader}
use untitled.Net.Bytes.Agree.{Agrees, At, At-reader}
use untitled.Net.Bytes.Fields.{agree_rules}
use untitled.Net.Protocol.World.{WorldMessage, world_code, world_message?-world_code}
use untitled.Net.Snapshot.{read_udp_header, write_udp_header}
use untitled.Net.Snapshot.Packet.{read-write_udp_header}
use untitled.Sim.Float.{Fpu, clamp, one_f, minus_one_f}
use untitled.Sim.Character.{CharacterInput}
use untitled.World.Simulation.{Simulation, Body, set_input, set_input_on}
use untitled.World.Server.{World, Player, Clocks, constant_time_equals, find_player_by_udp}
use untitled.World.Server.Hello.{AreBytes, constant_time_equals_iff}
use untitled.World.Server.Datagrams.{
  ClaimedInput, read_hello, read_input, accept, bind, hello_player, hello_connection, on_hello,
  on_input, take_input, heard, dispatch_datagram, route, datagram_on, on_datagram,
}
use untitled.Client.NetClient.{
  NetClient, Intent, write_hello, hello_packet, write_input, input_packet, buttons,
}

-- The fields of an intent are in range.
pub record IsIntent (i : Intent) : Type 0 where
  pub forward : i.move_forward < 2 ^ 32
  pub right : i.move_right < 2 ^ 32
  pub yaw : i.yaw < 2 ^ 32
  pub sequence : i.sequence < 2 ^ 32

buttons-lt : (jump sprint : Bool) → buttons jump sprint < 2 ^ 8
unfolding buttons
buttons-lt true true = omega arith
buttons-lt true false = omega arith
buttons-lt false true = omega arith
buttons-lt false false = omega arith

hello-Agrees :
    (id : ℕ) (token : List ℕ)
    → id < 2 ^ 64
    → length token ≤ max_string_length
    → Agrees (write_hello id token) read_hello (record { player_id = id; token = token })
unfolding write_hello read_hello
hello-Agrees id token h k = search (agree_rules, h, k) depth 12

abbrev claimed : ℕ → Intent → ClaimedInput
claimed id i = record {
  claimed_id = id;
  sequence = i.sequence;
  move_forward = i.move_forward;
  move_right = i.move_right;
  yaw = i.yaw;
  buttons = buttons i.jump i.sprint;
}

input-Agrees :
    (id : ℕ) (i : Intent)
    → id < 2 ^ 64
    → IsIntent i
    → Agrees (write_input id i) read_input (claimed id i)
unfolding write_input read_input
input-Agrees id i h v = search (agree_rules, h, v, buttons-lt i.jump i.sprint) depth 14

-- A body behind a header, as the server takes it apart.
module _ {A : Type 0} (w : Writer) (m : Read A) (a : A) (agree : Agrees w m a) where
  packet-parts :
      (type sequence : ℕ)
      → type < 2 ^ 16
      → sequence < 2 ^ 32
      → let packet = w (write_udp_header type sequence []) in
        (read_udp_header packet ≡ some (record { type = type; sequence = sequence }, 10))
        × ((m (reader (drop 10 packet))).0 ≡ a)
        × ((m (reader (drop 10 packet))).1.failed ≡ false)
  packet-parts type sequence ht hs =
      let (header, body) = read-write_udp_header type sequence ht hs agree.image in
      let packet : w (write_udp_header type sequence [])
          ≡ write_udp_header type sequence [] ++ agree.image =
        agree.writes (write_udp_header type sequence []) in
      let (same, at) =
        agree.reads (reader agree.image) [] (
          subst (At (reader agree.image)) (sym (append-nil agree.image)) (At-reader agree.image)) in
      rw (packet, body) (header, same, at.fine)

-- The input that the server makes of an intent.
abbrev pub clamped : Intent → CharacterInput
clamped i = record {
  sequence = i.sequence;
  move_forward = clamp i.move_forward minus_one_f one_f;
  move_right = clamp i.move_right minus_one_f one_f;
  yaw = i.yaw;
  jump = i.jump;
  sprint = i.sprint;
}

jump-buttons : (jump sprint : Bool) → not (bit_and (buttons jump sprint) input_jump == 0) ≡ jump
unfolding buttons
jump-buttons true true = refl
jump-buttons true false = refl
jump-buttons false true = refl
jump-buttons false false = refl

sprint-buttons :
    (jump sprint : Bool) → not (bit_and (buttons jump sprint) input_sprint == 0) ≡ sprint
unfolding buttons
sprint-buttons true true = refl
sprint-buttons true false = refl
sprint-buttons false true = refl
sprint-buttons false false = refl

accept-claimed : (id : ℕ) (i : Intent) → accept (claimed id i) ≡ clamped i
unfolding accept
accept-claimed id i =
    let a = jump-buttons i.jump i.sprint in let b = sprint-buttons i.jump i.sprint in cc

-- An input that is not behind the one that the player has replaces it.
set_input-newer :
    (id : ℕ) (input : CharacterInput) (s : Simulation) (body : Body)
    → find id s.players ≡ some body
    → (input.sequence ≡ 0) ⊎ (body.input.sequence ≤ input.sequence)
    → set_input id input s ≡ record s { players = put id (record body { input = input }) s.players }
unfolding set_input set_input_on
set_input-newer id input s body has newer =
    let fresh : (not (input.sequence == 0) && ltb input.sequence body.input.sequence) ≡ false =
      ground (arith, newer) in
    rw (has) (rw fresh refl)

module _ (fpu : Fpu) (clocks : Clocks) (from : ℕ) (w : World) where
  -- The hello of a client whose id fits 64 bits and whose token is a string of bytes of the
  -- protocol gives the player that the server has under that id and with that token the address
  -- that it came from and marks the player as bound and heard, and changes nothing else.
  pub on_datagram-hello_packet :
      (c : NetClient) (connection : ℕ) (p : Player)
      → c.player_id < 2 ^ 64
      → length c.token ≤ max_string_length
      → AreBytes c.token
      → find c.player_id w.connection_by_player ≡ some connection
      → find connection w.players ≡ some p
      → p.token ≡ c.token
      → on_datagram fpu clocks from (hello_packet c) w ≡ record w {
        players =
            put connection
              (record p { udp_bound = true; udp_address = from; last_udp_packet = clocks.steady })
              w.players;
      }
  unfolding on_datagram datagram_on route on_hello hello_connection hello_player hello_packet bind
  on_datagram-hello_packet c connection p id short bytes listed has same =
      let (header, hello, fine) =
        packet-parts (write_hello c.player_id c.token) read_hello _
          (hello-Agrees c.player_id c.token id short) (world_code WorldMessage.client_hello) 0
          (omega arith) (omega arith) in
      let equal : constant_time_equals p.token c.token ≡ true =
        subst (λ (t : List ℕ). constant_time_equals t c.token ≡ true) (sym same)
          ((constant_time_equals_iff c.token c.token bytes bytes).1 refl) in
      rw
        (
          header,
          world_message?-world_code WorldMessage.client_hello,
          fine,
          hello,
          listed,
          has,
          equal,
        )
        refl

  -- An intent in range, whose sequence number is 0 or not below that of the input that the
  -- player's body has, sent by a client whose id fits 64 bits and read by a server that knows the
  -- address as that player's and has no simulated latency, sets the body's input to the intent
  -- with both sticks clamped, marks the player as heard, and changes nothing else.
  pub on_datagram-input_packet :
      (c : NetClient) (i : Intent) (connection : ℕ) (p : Player) (body : Body)
      → c.player_id < 2 ^ 64
      → IsIntent i
      → find_player_by_udp from w.players ≡ some (connection, p)
      → p.player_id ≡ c.player_id
      → w.latency ≡ 0
      → find c.player_id w.simulation.players ≡ some body
      → (i.sequence ≡ 0) ⊎ (body.input.sequence ≤ i.sequence)
      → on_datagram fpu clocks from (input_packet i c) w ≡ record w {
        players = put connection (record p { last_udp_packet = clocks.steady }) w.players;
        simulation = record w.simulation {
          players = put c.player_id (record body { input = clamped i }) w.simulation.players;
        };
      }
  unfolding on_datagram datagram_on route heard dispatch_datagram on_input take_input input_packet
  on_datagram-input_packet c i connection p body id v known same off has newer =
      let (header, input, fine) =
        packet-parts (write_input c.player_id i) read_input _ (input-Agrees c.player_id i id v)
          (world_code WorldMessage.client_input) i.sequence (omega arith) v.sequence in
      let owner : (c.player_id == p.player_id) ≡ true = ground (arith, same) in
      let at_once : ltb 0 w.latency ≡ false = ground (arith, off) in
      rw
        (
          header,
          world_message?-world_code WorldMessage.client_input,
          known,
          fine,
          input,
          accept-claimed c.player_id i,
        )
        (rw
          (
            owner,
            at_once,
            same,
            set_input-newer c.player_id (clamped i) w.simulation body has newer,
          )
          refl)
