-- ===== src/Client/NetClient/Phases.antt =====
-- The phases of client/src/net_client.cpp as a relation, and `poll` along it.
use untitled.Base.{ℕ, ◌≡◌, refl, sym, ◌∙◌, List, [], ◌∷◌, length, subst, ◌⊎◌, inl, inr}
use untitled.Base.{Option, none, some, Bool, true, false, not, ◌&&◌, if◌then◌else◌, ◌==◌}
use untitled.Net.Framing.{Message, MessageStream, pump, drain_all}
use untitled.Net.Protocol.{AuthMessage, auth_code}
use untitled.Net.Snapshot.{UdpHeader, read_udp_header}
use untitled.Sim.Float.{Fpu, d_lt, d_le}
use untitled.Client.NetClient.{
  NetClient, Net, Outcome, Phase, idle, connecting_auth, awaiting_login, connecting_world,
  awaiting_join, in_world, failed, Failure, fail, is_in_world, is_failed, DelayedPacket,
}
use untitled.Client.NetClient.Snapshots.{
  apply_snapshot, receive_snapshot, receive_on, receive_all, flush_incoming, flush_outgoing,
  flush_delayed,
}
use untitled.Client.NetClient.Machine.{
  hello_retry_seconds, poll, poll_on, poll_auth_socket, poll_world_socket, pump_auth, auth_messages,
  on_login_response, enter_on, pump_world, pump_udp, world_messages, world_message,
  on_join_response, joined_on,
}

-- A login is under way or done.
abbrev pub IsBusy : Phase → Type 0
IsBusy idle = ⊥
IsBusy failed = ⊥
IsBusy _ = Unit

-- The steps that one `poll` can take.
pub data Edge : Phase → Phase → Type 0 where
  stays : (p : Phase) → Edge p p
  fails : (p : Phase) → IsBusy p → Edge p failed
  asks_login : Edge connecting_auth awaiting_login
  has_token : Edge awaiting_login connecting_world
  asks_join : Edge connecting_world awaiting_join
  enters : Edge awaiting_join in_world

phase-if :
    (p : Phase) (b : Bool) (x y : NetClient)
    → Edge p x.phase
    → Edge p y.phase
    → Edge p (if b then x else y).phase
phase-if p true x y h k = h
phase-if p false x y h k = k

outcome-if :
    (p : Phase) (b : Bool) (x y : Outcome)
    → Edge p x.0.phase
    → Edge p y.0.phase
    → Edge p (if b then x else y).0.phase
outcome-if p true x y h k = h
outcome-if p false x y h k = k

poll_auth_socket-Edge :
    (net : Net) (c : NetClient)
    → c.phase ≡ connecting_auth
    → Edge c.phase (poll_auth_socket net c).phase
unfolding poll_auth_socket fail
poll_auth_socket-Edge net c h = rw h (search (phase-if, Edge.stays, Edge.fails, Edge.asks_login))

poll_world_socket-Edge :
    (net : Net) (c : NetClient)
    → c.phase ≡ connecting_world
    → Edge c.phase (poll_world_socket net c).phase
unfolding poll_world_socket fail
poll_world_socket-Edge net c h = rw h (search (phase-if, Edge.stays, Edge.fails, Edge.asks_join))

enter_on-Edge :
    (net : Net) (found : Option ℕ) (c : NetClient)
    → Edge awaiting_login (enter_on net found c).phase
unfolding enter_on fail
enter_on-Edge net none c = Edge.fails awaiting_login tt
enter_on-Edge net (some address) c = search (phase-if, Edge.fails, Edge.has_token)

on_login_response-Edge :
    (net : Net) (bytes : List ℕ) (c : NetClient)
    → Edge awaiting_login (on_login_response net bytes c).phase
unfolding on_login_response fail
on_login_response-Edge net bytes c = search (phase-if, Edge.fails, enter_on-Edge)

auth_messages-Edge :
    (net : Net) (ms : List Message) (c : NetClient)
    → c.phase ≡ awaiting_login
    → Edge awaiting_login (auth_messages net ms c).phase
unfolding auth_messages
auth_messages-Edge net [] c h = rw h (Edge.stays awaiting_login)
auth_messages-Edge net (m ∷ ms) c h =
    phase-if awaiting_login (not (m.type == auth_code AuthMessage.login_response))
      (auth_messages net ms c) (on_login_response net m.payload c) (auth_messages-Edge net ms c h)
      (on_login_response-Edge net m.payload c)

pump_auth-Edge :
    (net : Net) (stream : Option MessageStream) (c : NetClient)
    → c.phase ≡ awaiting_login
    → Edge awaiting_login (pump_auth net stream c).phase
unfolding pump_auth fail
pump_auth-Edge net none c h = Edge.fails awaiting_login tt
pump_auth-Edge net (some stream) c h =
    search (phase-if, Edge.fails awaiting_login tt, auth_messages-Edge, h)

-- Where the messages of the world server can lead.
abbrev Landed : Phase → Phase → Type 0
Landed p q = (q ≡ p) ⊎ ((q ≡ in_world) ⊎ (q ≡ failed))

Landed-if :
    (p : Phase) (b : Bool) (x y : Outcome)
    → Landed p x.0.phase
    → Landed p y.0.phase
    → Landed p (if b then x else y).0.phase
Landed-if p true x y h k = h
Landed-if p false x y h k = k

joined_on-Landed :
    (p : Phase) (now : ℕ) (found : Option ℕ) (c : NetClient)
    → Landed p (joined_on now found c).0.phase
unfolding joined_on fail
joined_on-Landed p now none c = inr (inr refl)
joined_on-Landed p now (some address) c = inr (inl refl)

on_join_response-Landed :
    (p : Phase) (net : Net) (now : ℕ) (bytes : List ℕ) (c : NetClient)
    → Landed p (on_join_response net now bytes c).0.phase
unfolding on_join_response fail
on_join_response-Landed p net now bytes c =
    let lost : Landed p failed = inr (inr refl) in search (Landed-if, joined_on-Landed, lost)

world_message-Landed :
    (p : Phase) (net : Net) (now : ℕ) (m : Message) (c : NetClient)
    → Landed p c.phase
    → Landed p (world_message net now m c).0.phase
unfolding world_message fail
world_message-Landed p net now m c h =
    let lost : Landed p failed = inr (inr refl) in
    search (Landed-if, on_join_response-Landed, lost, h)

world_messages-Landed :
    (p : Phase) (net : Net) (now : ℕ) (ms : List Message) (c : NetClient)
    → Landed p c.phase
    → Landed p (world_messages net now ms c).0.phase
unfolding world_messages
world_messages-Landed p net now [] c h = h
world_messages-Landed p net now (m ∷ ms) c h =
    let first = world_message-Landed p net now m c h in
    Landed-if p (is_failed (world_message net now m c).0.phase) _ _ first
      (world_messages-Landed p net now ms (world_message net now m c).0 first)

-- UDP leaves the phase alone.
same-if :
    (p : Phase) (b : Bool) (x y : NetClient)
    → x.phase ≡ p
    → y.phase ≡ p
    → (if b then x else y).phase ≡ p
same-if p true x y h k = h
same-if p false x y h k = k

apply_snapshot-phase :
    (bytes : List ℕ) (sequence now : ℕ) (c : NetClient)
    → (apply_snapshot bytes sequence now c).phase ≡ c.phase
unfolding apply_snapshot
apply_snapshot-phase bytes sequence now c = search same-if

receive_on-phase :
    (fpu : Fpu) (now : ℕ) (header : Option (UdpHeader × ℕ)) (bytes : List ℕ) (c : NetClient)
    → (receive_on fpu now header bytes c).phase ≡ c.phase
unfolding receive_on receive_snapshot
receive_on-phase fpu now none bytes c = refl
receive_on-phase fpu now (some (h, offset)) bytes c = search (same-if, apply_snapshot-phase)

receive_all-phase :
    (fpu : Fpu) (now : ℕ) (packets : List (List ℕ)) (c : NetClient)
    → (receive_all fpu now packets c).phase ≡ c.phase
unfolding receive_all
receive_all-phase fpu now [] c = refl
receive_all-phase fpu now (bytes ∷ more) c =
    let c' = receive_on fpu now (read_udp_header bytes) bytes c in
    same-if c.phase (length bytes == 0) c (receive_all fpu now more c') refl
      (receive_all-phase fpu now more c' ∙ receive_on-phase fpu now (read_udp_header bytes) bytes c)

flush_incoming-phase :
    (now : ℕ) (held : List DelayedPacket) (c : NetClient)
    → (flush_incoming now held c).phase ≡ c.phase
unfolding flush_incoming
flush_incoming-phase now [] c = refl
flush_incoming-phase now (d ∷ more) c =
    let c' = apply_snapshot d.packet c.last_snapshot_sequence now c in
    same-if c.phase (d_le d.due_at now) (flush_incoming now more c')
      (record c { delayed_incoming = d ∷ more })
      (flush_incoming-phase now more c'
        ∙ apply_snapshot-phase d.packet c.last_snapshot_sequence now c)
      refl

flush_delayed-phase : (now : ℕ) (c : NetClient) → (flush_delayed now c).0.phase ≡ c.phase
unfolding flush_delayed
flush_delayed-phase now c =
    flush_incoming-phase now c.delayed_incoming
      (record c { delayed_outgoing = (flush_outgoing now c.delayed_outgoing).1 })

same-outcome-if :
    (p : Phase) (b : Bool) (x y : Outcome)
    → x.0.phase ≡ p
    → y.0.phase ≡ p
    → (if b then x else y).0.phase ≡ p
same-outcome-if p true x y h k = h
same-outcome-if p false x y h k = k

hello-phase :
    (b : Bool) (now : ℕ) (c : NetClient)
    → (if b then record c { last_hello_at = now } else c).phase ≡ c.phase
hello-phase true now c = refl
hello-phase false now c = refl

pump_udp-phase :
    (fpu : Fpu) (net : Net) (now : ℕ) (c : NetClient) (sent : List (List ℕ))
    → (pump_udp fpu net now (c, sent)).0.phase ≡ c.phase
unfolding pump_udp
pump_udp-phase fpu net now c sent =
    let due =
      (c.snapshots_received == 0) && d_lt hello_retry_seconds (fpu.d_sub now c.last_hello_at) in
    let c' = if due then record c { last_hello_at = now } else c in
    same-outcome-if c.phase (not (is_in_world c.phase)) (c, sent) _ refl
      (flush_delayed-phase now (receive_all fpu now net.datagrams c')
        ∙ receive_all-phase fpu now net.datagrams c'
        ∙ hello-phase due now c)

Landed-Edge : (p q : Phase) → IsBusy p → Edge p in_world → Landed p q → Edge p q
Landed-Edge p q b e (inl same) = rw same (Edge.stays p)
Landed-Edge p q b e (inr (inl entered)) = rw entered e
Landed-Edge p q b e (inr (inr lost)) = rw lost (Edge.fails p b)

pump_world-Edge :
    (fpu : Fpu) (net : Net) (now : ℕ) (p : Phase) (stream : Option MessageStream) (c : NetClient)
    → c.phase ≡ p
    → IsBusy p
    → Edge p in_world
    → Edge p (pump_world fpu net now stream c).0.phase
unfolding pump_world fail
pump_world-Edge fpu net now p none c h b e = Edge.fails p b
pump_world-Edge fpu net now p (some stream) c h b e =
    let (ok, stream') = pump net.received stream in
    let (messages, left) = drain_all stream'.read_buffer in
    let pumped = record c { world = some (record stream' { read_buffer = left }) } in
    let (c', sent) = world_messages net now messages pumped in
    outcome-if p (not ok) (fail Failure.world_closed c, []) (pump_udp fpu net now (c', sent))
      (Edge.fails p b)
      (subst (Edge p) (sym (pump_udp-phase fpu net now c' sent))
        (Landed-Edge p c'.phase b e (world_messages-Landed p net now messages pumped (inl h))))

poll_on-Edge :
    (fpu : Fpu) (net : Net) (now : ℕ) (p : Phase) (c : NetClient)
    → c.phase ≡ p
    → Edge p (poll_on fpu net now p c).0.phase
unfolding poll_on
poll_on-Edge fpu net now connecting_auth c h =
    subst (λ (q : Phase). Edge q (poll_auth_socket net c).phase) h (poll_auth_socket-Edge net c h)
poll_on-Edge fpu net now awaiting_login c h = pump_auth-Edge net c.auth c h
poll_on-Edge fpu net now connecting_world c h =
    subst (λ (q : Phase). Edge q (poll_world_socket net c).phase) h (poll_world_socket-Edge net c h)
poll_on-Edge fpu net now awaiting_join c h =
    pump_world-Edge fpu net now awaiting_join c.world c h tt Edge.enters
poll_on-Edge fpu net now in_world c h =
    pump_world-Edge fpu net now in_world c.world c h tt (Edge.stays in_world)
poll_on-Edge fpu net now idle c h = rw h (Edge.stays idle)
poll_on-Edge fpu net now failed c h = rw h (Edge.stays failed)

-- A poll of the client stays in its phase, or takes the one step to the next phase of the login,
-- or fails where a login is under way or done: no phase is skipped, and a client that is idle or
-- has failed stays so.
pub poll-Edge :
    (fpu : Fpu) (net : Net) (now : ℕ) (c : NetClient) → Edge c.phase (poll fpu net now c).0.phase
unfolding poll
poll-Edge fpu net now c = poll_on-Edge fpu net now c.phase (record c { last_poll_time = now }) refl
