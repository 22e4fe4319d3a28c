-- ===== src/World/Server/Inputs.antt =====
-- What a datagram can make a player do (the UDP loop of server/worldserver/src/main.cpp).
use untitled.Base.{ℕ, ◌≡◌, refl, List, [], ◌∷◌, ◌++◌, ◌⊎◌, inl, inr, drop}
use untitled.Base.{Option, none, some, Bool, true, false, not, ◌||◌, ltb, ◌==◌, if◌then◌else◌}
use untitled.Base.{Bool-cases}
use untitled.Base.Maps.{find, put}
use untitled.Net.Bytes.Reader.{reader}
use untitled.Net.Protocol.World.{WorldMessage, world_message?}
use untitled.Net.Snapshot.{UdpHeader, read_udp_header}
use untitled.Sim.Float.{Fpu, le, is_nan, clamp, clamp_bounds, clamp_nan, one_f, minus_one_f}
use untitled.Sim.Character.{CharacterInput}
use untitled.World.Simulation.{set_input}
use untitled.World.Server.{World, Player, Clocks, find_player_by_udp}
use untitled.World.Server.Datagrams.{
  on_hello, hello_connection, hello_player, take_input, on_input, dispatch_datagram, heard, route,
  datagram_on, on_datagram, read_input, accept, ClaimedInput, due_at,
}

-- Within full stick, or not a number.
abbrev pub IsStick : ℕ → Type 0
IsStick v = (is_nan v ≡ true) ⊎ ((le minus_one_f v ≡ true) × (le v one_f ≡ true))

-- Nothing has moved: the simulation and the inputs on their way to it are as before.
abbrev pub IsStill : World → World → Type 0
IsStill w w' = (w'.simulation ≡ w.simulation) × (w'.delayed_inputs ≡ w.delayed_inputs)

-- One player has an input, at once or later.
pub record IsMoved (fpu : Fpu) (clocks : Clocks) (p : Player) (w w' : World) : Type 0 where
  pub input : CharacterInput
  pub forward : IsStick input.move_forward
  pub right : IsStick input.move_right
  pub given :
      ((w'.simulation ≡ set_input p.player_id input w.simulation)
        × (w'.delayed_inputs ≡ w.delayed_inputs))
      ⊎ ((w'.simulation ≡ w.simulation)
          × (w'.delayed_inputs
              ≡ w.delayed_inputs
                ++ (record {
                  due_at = due_at fpu clocks w.latency;
                  player_id = p.player_id;
                  input = input;
                }
                    ∷ [])))

clamp-IsStick : (v : ℕ) → IsStick (clamp v minus_one_f one_f)
unfolding le
clamp-IsStick v = elim (Bool-cases (is_nan v)) [
  | inl nan ↦ inl (rw (clamp_nan v minus_one_f one_f nan) nan)
  | inr number ↦ inr (clamp_bounds v minus_one_f one_f number refl)
]

accept-IsStick :
    (c : ClaimedInput) → IsStick (accept c).move_forward × IsStick (accept c).move_right
unfolding accept
accept-IsStick c = (clamp-IsStick c.move_forward, clamp-IsStick c.move_right)

module _ (fpu : Fpu) (clocks : Clocks) where
  take_input-IsMoved :
      (p : Player) (input : CharacterInput) (w : World)
      → IsStick input.move_forward
      → IsStick input.move_right
      → IsMoved fpu clocks p w (take_input fpu clocks p.player_id input w)
  unfolding take_input
  take_input-IsMoved p input w f r = elim (Bool-cases (ltb 0 w.latency)) [
    | inl later ↦
        rw later (record { input = input; forward = f; right = r; given = inr (refl, refl) })
    | inr now ↦ rw now (record { input = input; forward = f; right = r; given = inl (refl, refl) })
  ]

  on_input-IsMoved :
      (p : Player) (body : List ℕ) (w : World)
      → IsStill w (on_input fpu clocks p body w)
        ⊎ IsMoved fpu clocks p w (on_input fpu clocks p body w)
  unfolding on_input
  on_input-IsMoved p body w =
      let (c, r) = read_input (reader body) in
      let (f, s) = accept-IsStick c in
      elim (Bool-cases (r.failed || not (c.claimed_id == p.player_id))) [
        | inl bad ↦ inl (rw bad (refl, refl))
        | inr good ↦ inr (rw good (take_input-IsMoved p (accept c) w f s))
      ]

  dispatch_datagram-IsMoved :
      (type : Option WorldMessage) (p : Player) (body : List ℕ) (w : World)
      → IsStill w (dispatch_datagram fpu clocks type p body w)
        ⊎ IsMoved fpu clocks p w (dispatch_datagram fpu clocks type p body w)
  unfolding dispatch_datagram
  dispatch_datagram-IsMoved (some WorldMessage.client_input) p body w = on_input-IsMoved p body w
  dispatch_datagram-IsMoved _ p body w = inl (refl, refl)

  -- Whoever moves has the address that the datagram came from.
  abbrev pub MovesOwner : ℕ → World → World → Type 0
  MovesOwner from w w' =
      IsStill w w'
      ⊎ ((c : ℕ) × (p : Player) × (find_player_by_udp from w.players ≡ some (c, p))
          × IsMoved fpu clocks p w w')

  heard-MovesOwner :
      (found : Option (ℕ × Player)) (from : ℕ) (type : Option WorldMessage) (body : List ℕ)
      (w : World)
      → find_player_by_udp from w.players ≡ found
      → MovesOwner from w (heard fpu clocks found type body w)
  unfolding heard
  heard-MovesOwner none from type body w h = inl (refl, refl)
  heard-MovesOwner (some (c, p)) from type body w h =
      let w1 : World = record w {
        players = put c (record p { last_udp_packet = clocks.steady }) w.players;
      } in
      elim (dispatch_datagram-IsMoved type p body w1) [
        | inl still ↦ inl still
        | inr m ↦ inr (
          c,
          p,
          h,
          record { input = m.input; forward = m.forward; right = m.right; given = m.given },
        )
      ]

  world-if : (b : Bool) (w x y : World) → IsStill w x → IsStill w y → IsStill w (if b then x else y)
  world-if true w x y p q = p
  world-if false w x y p q = q

  hello_player-IsStill :
      (from : ℕ) (token : List ℕ) (c : ℕ) (found : Option Player) (w : World)
      → IsStill w (hello_player clocks from token c found w)
  unfolding hello_player
  hello_player-IsStill from token c none w = (refl, refl)
  hello_player-IsStill from token c (some p) w = search world-if

  hello_connection-IsStill :
      (from : ℕ) (token : List ℕ) (found : Option ℕ) (w : World)
      → IsStill w (hello_connection clocks from token found w)
  unfolding hello_connection
  hello_connection-IsStill from token none w = (refl, refl)
  hello_connection-IsStill from token (some c) w =
      hello_player-IsStill from token c (find c w.players) w

  on_hello-IsStill :
      (from : ℕ) (body : List ℕ) (w : World) → IsStill w (on_hello clocks from body w)
  unfolding on_hello
  on_hello-IsStill from body w = search (world-if, hello_connection-IsStill)

  route-MovesOwner :
      (type : Option WorldMessage) (from : ℕ) (body : List ℕ) (w : World)
      → MovesOwner from w (route fpu clocks type from body w)
  unfolding route
  route-MovesOwner (some WorldMessage.client_hello) from body w = inl (on_hello-IsStill from body w)
  route-MovesOwner type from body w =
      heard-MovesOwner (find_player_by_udp from w.players) from type body w refl

  datagram_on-MovesOwner :
      (header : Option (UdpHeader × ℕ)) (from : ℕ) (bytes : List ℕ) (w : World)
      → MovesOwner from w (datagram_on fpu clocks header from bytes w)
  unfolding datagram_on
  datagram_on-MovesOwner none from bytes w = inl (refl, refl)
  datagram_on-MovesOwner (some (h, offset)) from bytes w =
      route-MovesOwner (world_message? h.type) from (drop offset bytes) w

  -- Whatever a datagram holds, it moves nobody, or it gives one input to the player that has the
  -- address it came from, at once or after the simulated latency, with both sticks within full or
  -- not a number.
  pub on_datagram-MovesOwner :
      (from : ℕ) (bytes : List ℕ) (w : World)
      → MovesOwner from w (on_datagram fpu clocks from bytes w)
  unfolding on_datagram
  on_datagram-MovesOwner from bytes w = datagram_on-MovesOwner (read_udp_header bytes) from bytes w
