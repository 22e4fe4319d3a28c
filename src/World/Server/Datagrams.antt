-- ===== src/World/Server/Datagrams.antt =====
-- The UDP side of the main loop of server/worldserver/src/main.cpp: what comes in.
use untitled.Base.{ℕ, true, not, ◌||◌, List, [], ◌∷◌, ◌++◌, length, Option}
use untitled.Base.{none, some, ◌==◌, ltb, if◌then◌else◌, drop, bit_and}
use untitled.Base.Maps.{find, put}
use untitled.Net.Bytes.Reader
use untitled.Net.Bytes.Reader.{Reader, Read, reader, ◌>>=◌, pure}
use untitled.Net.Snapshot.{UdpHeader, read_udp_header}
use untitled.Net.Protocol.World.{WorldMessage, world_message?, input_jump, input_sprint}
use untitled.Sim.Character.{CharacterInput}
use untitled.Sim.Float.{Fpu, clamp, one_f, minus_one_f}
use untitled.World.Simulation.{set_input}
use untitled.World.Server.{World, Player, Clocks, constant_time_equals, find_player_by_udp}

-- 1000 as a double.
abbrev pub thousand_d : ℕ
thousand_d = 0x408f400000000000

unfoldable pub due_at : Fpu → Clocks → ℕ → ℕ
due_at fpu clocks latency = fpu.d_add clocks.monotonic (fpu.d_div (fpu.d_of_nat latency) thousand_d)

pub record Hello : Type 0 where
  pub player_id : ℕ
  pub token : List ℕ

unfoldable pub read_hello : Read Hello
read_hello = do
  id ← Reader.u64
  token ← Reader.string
  pure (record { player_id = id; token = token })

pub record ClaimedInput : Type 0 where
  pub claimed_id : ℕ
  pub sequence : ℕ
  pub move_forward : ℕ
  pub move_right : ℕ
  pub yaw : ℕ
  pub buttons : ℕ

unfoldable pub read_input : Read ClaimedInput
read_input = do
  id ← Reader.u64
  sequence ← Reader.u32
  forward ← Reader.f32
  right ← Reader.f32
  yaw ← Reader.f32
  buttons ← Reader.u8
  pure (record {
    claimed_id = id;
    sequence = sequence;
    move_forward = forward;
    move_right = right;
    yaw = yaw;
    buttons = buttons;
  })

-- The input that is handed on: clamped, and with the buttons taken apart.
unfoldable pub accept : ClaimedInput → CharacterInput
accept c = record {
  sequence = c.sequence;
  move_forward = clamp c.move_forward minus_one_f one_f;
  move_right = clamp c.move_right minus_one_f one_f;
  yaw = c.yaw;
  jump = not (bit_and c.buttons input_jump == 0);
  sprint = not (bit_and c.buttons input_sprint == 0);
}

unfoldable pub bind : Clocks → ℕ → Player → Player
bind clocks from p = record p {
  udp_bound = true;
  udp_address = from;
  last_udp_packet = clocks.steady;
}

-- ClientHello behind the two lookups.
unfoldable pub hello_player : Clocks → ℕ → List ℕ → ℕ → Option Player → World → World
unfolding bind
hello_player clocks from token connection none w = w
hello_player clocks from token connection (some p) w =
    if not (constant_time_equals p.token token)
    then w
    else record w { players = put connection (bind clocks from p) w.players }

unfoldable pub hello_connection : Clocks → ℕ → List ℕ → Option ℕ → World → World
unfolding hello_player
hello_connection clocks from token none w = w
hello_connection clocks from token (some connection) w =
    hello_player clocks from token connection (find connection w.players) w

unfoldable pub on_hello : Clocks → ℕ → List ℕ → World → World
unfolding read_hello hello_connection
on_hello clocks from body w =
    let (h, r) = read_hello (reader body) in
    if r.failed
    then w
    else hello_connection clocks from h.token (find h.player_id w.connection_by_player) w

module _ (fpu : Fpu) (clocks : Clocks) where
  -- What is done with an input that is accepted.
  unfoldable pub take_input : ℕ → CharacterInput → World → World
  unfolding due_at
  take_input id input w =
      if ltb 0 w.latency
      then record w {
        delayed_inputs =
            w.delayed_inputs
            ++ (record { due_at = due_at fpu clocks w.latency; player_id = id; input = input }
                ∷ []);
      }
      else record w { simulation = set_input id input w.simulation }

  unfoldable pub on_input : Player → List ℕ → World → World
  unfolding read_input accept take_input
  on_input p body w =
      let (c, r) = read_input (reader body) in
      if r.failed || not (c.claimed_id == p.player_id)
      then w
      else take_input p.player_id (accept c) w

  unfoldable pub dispatch_datagram : Option WorldMessage → Player → List ℕ → World → World
  unfolding on_input
  dispatch_datagram (some WorldMessage.client_input) p body w = on_input p body w
  dispatch_datagram _ p body w = w

  -- A datagram from a player's address, with what `findPlayerByUdp` says.
  unfoldable pub heard : Option (ℕ × Player) → Option WorldMessage → List ℕ → World → World
  unfolding dispatch_datagram
  heard none type body w = w
  heard (some (connection, p)) type body w = dispatch_datagram type p body (record w {
    players = put connection (record p { last_udp_packet = clocks.steady }) w.players;
  })

  unfoldable pub route : Option WorldMessage → ℕ → List ℕ → World → World
  unfolding on_hello heard
  route (some WorldMessage.client_hello) from body w = on_hello clocks from body w
  route type from body w = heard (find_player_by_udp from w.players) type body w

  unfoldable pub datagram_on : Option (UdpHeader × ℕ) → ℕ → List ℕ → World → World
  unfolding route
  datagram_on none from bytes w = w
  datagram_on (some (h, offset)) from bytes w =
      route (world_message? h.type) from (drop offset bytes) w

  unfoldable pub on_datagram : ℕ → List ℕ → World → World
  unfolding datagram_on
  on_datagram from bytes w = datagram_on (read_udp_header bytes) from bytes w

  -- The loop over what `receiveFrom` yields; an empty datagram ends it.
  unfoldable pub drain_udp : List (ℕ × List ℕ) → World → World
  unfolding on_datagram
  drain_udp [] w = w
  drain_udp ((from, bytes) ∷ more) w =
      let rest = drain_udp more (on_datagram from bytes w) in if length bytes == 0 then w else rest
