-- ===== src/World/Server/Roster/Loop.antt =====
-- What the datagrams and the loop of server/worldserver/src/main.cpp do to the abstract view.
use untitled.Base.{ℕ, ◌≡◌, refl, sym, ◌∙◌, arith, All, List, [], ◌∷◌, subst}
use untitled.Base.{Option, none, some, ◌&&◌, ltb, ◌==◌}
use untitled.Base.{length, inl, inr, Option-cases, Bool-cases, drop}
use untitled.Base.Maps.{Map, find, put, All-find, All-map, find-map_values, map_values-put}
use untitled.Net.Protocol.World.{WorldMessage, world_message?}
use untitled.Net.Snapshot.{read_udp_header, UdpHeader}
use untitled.Sim.Float.{Fpu}
use untitled.Sim.Character.{CharacterInput}
use untitled.World.Simulation.{set_input}
use untitled.World.Server.{World, Player, Clocks, find_player_by_udp}
use untitled.World.Server.Datagrams.{
  on_hello, hello_connection, hello_player, bind, take_input, on_input, dispatch_datagram, heard,
  route, datagram_on, on_datagram, drain_udp,
}
use untitled.World.Server.Roster.{IsRoster, roster}
use untitled.World.Server.Roster.Refines.{same_roster, set_input-bodies, player_ids}
use untitled.World.Server.Roster.Handle.{world-if}

udp-All :
    (P : ℕ × ℕ → Type 0) (from : ℕ) (d : Map Player) (c : ℕ) (p : Player)
    → find_player_by_udp from d ≡ some (c, p)
    → All P (player_ids d)
    → P (c, p.player_id)
unfolding find_player_by_udp
udp-All P from [] c p h a = cc
udp-All P from ((j, q) ∷ d) c p h (x, a) =
    elim (Bool-cases (q.udp_bound && (q.udp_address == from))) [
      | inl same ↦
          let eq : (j, q) ≡ (c, p) = ground (arith, h, same) in
          subst (λ (e : ℕ × Player). P (e.0, e.1.player_id)) eq x
      | inr other ↦ udp-All P from d c p (ground (arith, h, other)) a
    ]

take_input-roster :
    (fpu : Fpu) (clocks : Clocks) (id : ℕ) (input : CharacterInput) (w : World)
    → roster (take_input fpu clocks id input w) ≡ roster w
unfolding take_input
take_input-roster fpu clocks id input w =
    world-if (ltb 0 w.latency) _ (record w { simulation = set_input id input w.simulation })
      (roster w) (same_roster w _ refl refl refl refl)
      (same_roster w _ refl refl (set_input-bodies id input w.simulation) refl)

on_input-roster :
    (fpu : Fpu) (clocks : Clocks) (p : Player) (body : List ℕ) (w : World)
    → roster (on_input fpu clocks p body w) ≡ roster w
unfolding on_input
on_input-roster fpu clocks p body w = search (world-if, take_input-roster)

dispatch_datagram-roster :
    (fpu : Fpu) (clocks : Clocks) (type : Option WorldMessage) (p : Player) (body : List ℕ)
    (w : World)
    → roster (dispatch_datagram fpu clocks type p body w) ≡ roster w
unfolding dispatch_datagram
dispatch_datagram-roster fpu clocks (some WorldMessage.client_input) p body w =
    on_input-roster fpu clocks p body w
dispatch_datagram-roster fpu clocks _ p body w = refl

module _ (fpu : Fpu) (clocks : Clocks) (w : World) (v : IsRoster (roster w)) where
  -- A player that an address finds is the one that its connection has.
  touch-ids :
      (c : ℕ) (p q : Player)
      → find p.player_id w.connection_by_player ≡ some c
      → q.player_id ≡ p.player_id
      → player_ids (put c q w.players) ≡ player_ids w.players
  unfolding roster
  touch-ids c p q h e =
      let entry : find c (player_ids w.players) ≡ some p.player_id =
        All-find _ p.player_id c w.connection_by_player h v.listed in
      elim (Option-cases (find c w.players)) [
        | inl free ↦
            absurd (
              ground
                (arith, find-map_values (λ (x : Player). x.player_id) c w.players, free, entry))
        | inr (x, here) ↦
            map_values-put (λ (y : Player). y.player_id) c x q w.players here
              (ground
                (arith, find-map_values (λ (y : Player). y.player_id) c w.players, here, entry, e))
      ]

  heard-roster :
      (found : Option (ℕ × Player)) (from : ℕ) (type : Option WorldMessage) (body : List ℕ)
      → find_player_by_udp from w.players ≡ found
      → roster (heard fpu clocks found type body w) ≡ roster w
  unfolding heard roster
  heard-roster none from type body h = refl
  heard-roster (some (c, p)) from type body h =
      let q : Player = record p { last_udp_packet = clocks.steady } in
      let known =
        udp-All (λ (e : ℕ × ℕ). find e.1 w.connection_by_player ≡ some e.0) from w.players c p h
          (All-map _ _ _ (λ j k (a, b, below). a) v.entered) in
      dispatch_datagram-roster fpu clocks type p body (record w { players = put c q w.players })
      ∙ same_roster w (record w { players = put c q w.players }) (touch-ids c p q known refl) refl
          refl refl

  hello_player-roster :
      (from : ℕ) (token : List ℕ) (c : ℕ) (found : Option Player)
      → find c w.players ≡ found
      → roster (hello_player clocks from token c found w) ≡ roster w
  unfolding hello_player bind
  hello_player-roster from token c none h = refl
  hello_player-roster from token c (some p) h =
      let q : Player = bind clocks from p in
      world-if _ w (record w { players = put c q w.players }) (roster w) refl
        (same_roster w (record w { players = put c q w.players })
          (map_values-put (λ (y : Player). y.player_id) c p q w.players h refl) refl refl refl)

  hello_connection-roster :
      (from : ℕ) (token : List ℕ) (found : Option ℕ)
      → roster (hello_connection clocks from token found w) ≡ roster w
  unfolding hello_connection
  hello_connection-roster from token none = refl
  hello_connection-roster from token (some c) =
      hello_player-roster from token c (find c w.players) refl

  on_hello-roster : (from : ℕ) (body : List ℕ) → roster (on_hello clocks from body w) ≡ roster w
  unfolding on_hello
  on_hello-roster from body = search (world-if, hello_connection-roster)

  route-roster :
      (type : Option WorldMessage) (from : ℕ) (body : List ℕ)
      → roster (route fpu clocks type from body w) ≡ roster w
  unfolding route
  route-roster (some WorldMessage.client_hello) from body = on_hello-roster from body
  route-roster type from body = heard-roster (find_player_by_udp from w.players) from type body refl

  datagram_on-roster :
      (header : Option (UdpHeader × ℕ)) (from : ℕ) (bytes : List ℕ)
      → roster (datagram_on fpu clocks header from bytes w) ≡ roster w
  unfolding datagram_on
  datagram_on-roster none from bytes = refl
  datagram_on-roster (some (h, offset)) from bytes =
      route-roster (world_message? h.type) from (drop offset bytes)

pub drain_udp-roster :
    (fpu : Fpu) (clocks : Clocks) (received : List (ℕ × List ℕ)) (w : World)
    → IsRoster (roster w)
    → roster (drain_udp fpu clocks received w) ≡ roster w
unfolding drain_udp on_datagram
drain_udp-roster fpu clocks [] w v = refl
drain_udp-roster fpu clocks ((from, bytes) ∷ more) w v =
    let same = datagram_on-roster fpu clocks w v (read_udp_header bytes) from bytes in
    world-if (length bytes == 0) w _ (roster w) refl
      (drain_udp-roster fpu clocks more _ (subst IsRoster (sym same) v) ∙ same)
