-- ===== src/Server/TcpServer.antt =====
-- server/common/include/serverutil/tcp_server.h and server/common/src/tcp_server.cpp. What the owner's
-- callbacks do to the server is a list of actions; peers are of any type `P`, and the owner's state of
-- any type `S`. A poll is told what the listener accepts, and for each readable connection what
-- `receive` answers.
pub mod Keeps
pub mod Ids
pub mod Poll
pub mod Drains
use untitled.Base.{
  ℕ, zero, suc, ◌+◌, ◌%◌, ◌^◌, ◌==◌, Bool, true, false, not, List, [], ◌∷◌, ◌++◌, length,
}
use untitled.Base.{Option, none, some, if◌then◌else◌}
use untitled.Net.Framing
use untitled.Net.Framing.{Message, MessageStream, empty_stream, Received, Sent, pump, next_frame}

pub record Connection (P : Type 0) : Type 0 where
  pub stream : MessageStream
  pub peer : P

pub record TcpServer (P : Type 0) : Type 0 where
  pub connections : List (ℕ × Connection P)
  pub closing : List ℕ
  pub next_id : ℕ

-- `std::map::find`.
unfoldable pub find : {A : Type 0} → ℕ → List (ℕ × A) → Option A
find k [] = none
find k ((k', a) ∷ more) = let rest = find k more in if k == k' then some a else rest

-- Writing through an iterator or a pointer to the value.
unfoldable pub put : {A : Type 0} → ℕ → A → List (ℕ × A) → List (ℕ × A)
put k a [] = []
put k a ((k', b) ∷ more) =
    let rest = put k a more in if k == k' then (k', a) ∷ more else (k', b) ∷ rest

-- `std::map::erase` at a key.
unfoldable pub erase : {A : Type 0} → ℕ → List (ℕ × A) → List (ℕ × A)
erase k [] = []
erase k ((k', b) ∷ more) = let rest = erase k more in if k == k' then more else (k', b) ∷ rest

-- What a callback does to the server, with the outcomes of the socket for a send.
pub data Action : Type 0 where
  send : List Sent → ℕ → Message → Action
  close : ℕ → Action

-- `send`, with what `find` says of the id.
unfoldable pub send_on :
    {P : Type 0} → List Sent → ℕ → Message → Option (Connection P) → TcpServer P → TcpServer P
unfolding put
send_on outcomes id m none s = s
send_on outcomes id m (some c) s =
    let (stream, _) = Framing.send outcomes m c.stream in
    record s { connections = put id (record c { stream = stream }) s.connections }

unfoldable pub act : {P : Type 0} → Action → TcpServer P → TcpServer P
unfolding find send_on
act (send outcomes id m) s = send_on outcomes id m (find id s.connections) s
act (close id) s = record s { closing = s.closing ++ (id ∷ []) }

unfoldable pub act_all : {P : Type 0} → List Action → TcpServer P → TcpServer P
unfolding act
act_all [] s = s
act_all (a ∷ actions) s = act_all actions (act a s)

-- The callbacks. No `onDisconnect` handler of the servers does anything to its TcpServer.
pub record Callbacks (P S : Type 0) : Type 0 where
  pub on_connect : ℕ → P → S → List Action × S
  pub on_message : ℕ → Message → S → List Action × S
  pub on_disconnect : ℕ → S → S

pub record Owner (P S : Type 0) : Type 0 where
  pub server : TcpServer P
  pub state : S

module _ {P S : Type 0} (callbacks : Callbacks P S) where
  -- The accept loop. A new id is the largest, so `emplace` puts it at the end.
  unfoldable pub accept_all : List P → Owner P S → Owner P S
  unfolding act_all
  accept_all [] o = o
  accept_all (peer ∷ peers) o =
      let id = o.server.next_id in
      let s = record o.server {
        next_id = (id + 1) % 2 ^ 64;
        connections =
            o.server.connections ++ ((id, record { stream = empty_stream; peer = peer }) ∷ []);
      } in
      let (actions, state) = callbacks.on_connect id peer o.state in
      accept_all peers (record { server = act_all actions s; state = state })

  -- The body of `while (stream.next(&message))`, with what `next` finds; `again` is the loop.
  unfoldable pub message_on :
      (Owner P S → Owner P S) → ℕ → Connection P → Option (Message × List ℕ) → Owner P S → Owner P S
  unfolding put act_all
  message_on again id c none o = o
  message_on again id c (some (m, left)) o =
      let popped = record c { stream = record (c.stream) { read_buffer = left } } in
      let s = record o.server { connections = put id popped o.server.connections } in
      let (actions, state) = callbacks.on_message id m o.state in
      again (record { server = act_all actions s; state = state })

  -- The check behind the callback: the loop ends when the connection is not there.
  unfoldable pub connection_on :
      (Owner P S → Owner P S) → ℕ → Option (Connection P) → Owner P S → Owner P S
  unfolding message_on
  connection_on again id none o = o
  connection_on again id (some c) o = message_on again id c (next_frame c.stream.read_buffer) o

  -- The loop, on fuel.
  unfoldable pub dispatch : ℕ → ℕ → Owner P S → Owner P S
  unfolding find connection_on
  dispatch zero id o = o
  dispatch (suc fuel) id o = connection_on (dispatch fuel id) id (find id o.server.connections) o

  -- One readable connection. The length of the read buffer is fuel enough, since a callback does not
  -- add to it.
  unfoldable pub serve_on : ℕ → List Received → Option (Connection P) → Owner P S → Owner P S
  unfolding put dispatch
  serve_on id received none o = o
  serve_on id received (some c) o =
      let (ok, stream) = pump received c.stream in
      let pumped = record (o.server) {
        connections = put id (record c { stream = stream }) o.server.connections;
      } in
      let served = dispatch (length stream.read_buffer) id (record o { server = pumped }) in
      if ok
      then served
      else record o { server = record pumped { closing = pumped.closing ++ (id ∷ []) } }

  unfoldable pub serve : ℕ → List Received → Owner P S → Owner P S
  unfolding find serve_on
  serve id received o = serve_on id received (find id o.server.connections) o

  unfoldable pub serve_all : List (ℕ × List Received) → Owner P S → Owner P S
  unfolding serve
  serve_all [] o = o
  serve_all ((id, received) ∷ more) o = serve_all more (serve id received o)

  unfoldable pub close_on : ℕ → Option (Connection P) → Owner P S → Owner P S
  unfolding erase
  close_on id none o = o
  close_on id (some _) o = record {
    server = record (o.server) { connections = erase id o.server.connections };
    state = callbacks.on_disconnect id o.state;
  }

  -- The loop over mClosing.
  unfoldable pub close_all : List ℕ → Owner P S → Owner P S
  unfolding find close_on
  close_all [] o = o
  close_all (id ∷ ids) o = close_all ids (close_on id (find id o.server.connections) o)

  unfoldable pub poll : List P → List (ℕ × List Received) → Owner P S → Owner P S
  unfolding accept_all serve_all close_all
  poll accepted readable o =
      let o' = serve_all readable (accept_all accepted o) in
      let o'' = close_all o'.server.closing o' in
      record o'' { server = record (o''.server) { closing = [] } }
