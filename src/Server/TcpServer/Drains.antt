-- ===== src/Server/TcpServer/Drains.antt =====
-- The message loop of `TcpServer::poll` on one connection (server/common/src/tcp_server.cpp).
use untitled.Base.{ℕ, zero, suc, ◌+◌, ◌≤◌, ◌<◌, ◌≡◌, refl, sym, ap, ◌∙◌, subst, arith}
use untitled.Base.{false, List, [], ◌∷◌, length, Option, none, some, ◌==◌}
use untitled.Base.{Bool-cases, inl, inr}
use untitled.Net.Framing
use untitled.Net.Framing.{
  Message, Received, Sent, broken, sent, pump, next_frame, MessageStream, flush, has_pending_writes,
}
use untitled.Net.Framing.Parse.{next_frame-shorter, next_frame_short}
use untitled.Server.TcpServer.{
  Connection, TcpServer, find, put, Action, send, close, send_on, act, act_all, Callbacks, Owner,
  message_on, connection_on, dispatch,
}

module _ {A : Type 0} where
  find-put :
      (k : ℕ) (a b : A) (cs : List (ℕ × A)) → find k cs ≡ some a → find k (put k b cs) ≡ some b
  unfolding find put
  find-put k a b [] e = cc
  find-put k a b ((k', c) ∷ cs) e = ground (arith, e, find-put k a b cs)

  find-put_other :
      (k j : ℕ) (b : A) (cs : List (ℕ × A)) → (k == j) ≡ false → find k (put j b cs) ≡ find k cs
  unfolding find put
  find-put_other k j b [] h = refl
  find-put_other k j b ((k', c) ∷ cs) h = ground (arith, h, find-put_other k j b cs)

-- Sending does not touch what was received.
flush-read_buffer :
    (os : List Sent) (s : MessageStream) → (flush os s).1.read_buffer ≡ s.read_buffer
unfolding flush
flush-read_buffer [] s = ground arith
flush-read_buffer (broken ∷ os) s = ground arith
flush-read_buffer (sent zero ∷ os) s = ground arith
flush-read_buffer (sent (suc n) ∷ os) s =
    ground (arith, flush-read_buffer os (record s { write_offset = s.write_offset + suc n }))

send-read_buffer :
    (os : List Sent) (m : Message) (s : MessageStream)
    → (Framing.send os m s).0.read_buffer ≡ s.read_buffer
unfolding Framing.send
send-read_buffer os m s = flush-read_buffer os _

-- The connection is there, with these bytes to read.
record Buffers {P : Type 0} (id : ℕ) (bytes : List ℕ) (s : TcpServer P) : Type 0 where
  pub connection : Connection P
  pub there : find id s.connections ≡ some connection
  pub same : connection.stream.read_buffer ≡ bytes

module _ {P : Type 0} where
  send_on-Buffers :
      (id : ℕ) (bytes : List ℕ) (os : List Sent) (j : ℕ) (m : Message) (f : Option (Connection P))
      (s : TcpServer P)
      → find j s.connections ≡ f
      → Buffers id bytes s
      → Buffers id bytes (send_on os j m f s)
  unfolding send_on
  send_on-Buffers id bytes os j m none s e b = b
  send_on-Buffers id bytes os j m (some c) s e b = elim (Bool-cases (id == j)) [
    | inl same ↦
        let written : Connection P = record c { stream = (Framing.send os m c.stream).0 } in
        let here : id ≡ j = ground (arith, same) in
        let found = subst (λ (k : ℕ). find k s.connections ≡ some b.connection) here b.there in
        let one : c ≡ b.connection = cc (sym e ∙ found) in
        record {
          connection = written;
          there =
              subst (λ (k : ℕ). find k (put j written s.connections) ≡ some written) (sym here)
                (find-put j c written s.connections e);
          same =
              send-read_buffer os m c.stream
              ∙ ap (λ (t : Connection P). t.stream.read_buffer) one
              ∙ b.same;
        }
    | inr other ↦ record {
      connection = b.connection;
      there = find-put_other id j _ s.connections other ∙ b.there;
      same = b.same;
    }
  ]

  act_all-Buffers :
      (id : ℕ) (bytes : List ℕ) (actions : List Action) (s : TcpServer P)
      → Buffers id bytes s
      → Buffers id bytes (act_all actions s)
  unfolding act_all act
  act_all-Buffers id bytes [] s b = b
  act_all-Buffers id bytes (send os j m ∷ actions) s b =
      act_all-Buffers id bytes actions (act (send os j m) s)
        (send_on-Buffers id bytes os j m (find j s.connections) s refl b)
  act_all-Buffers id bytes (close j ∷ actions) s b =
      act_all-Buffers id bytes actions (act (close j) s)
        (record { connection = b.connection; there = b.there; same = b.same })

-- The connection is there and holds no whole message.
pub record IsDrained {P : Type 0} (id : ℕ) (s : TcpServer P) : Type 0 where
  pub connection : Connection P
  pub there : find id s.connections ≡ some connection
  pub done : next_frame connection.stream.read_buffer ≡ none

module _ {P S : Type 0} (callbacks : Callbacks P S) where
  message_on-IsDrained :
      (again : Owner P S → Owner P S) (id : ℕ) (c : Connection P) (f : Option (Message × List ℕ))
      (o : Owner P S)
      → find id o.server.connections ≡ some c
      → next_frame c.stream.read_buffer ≡ f
      → ((o' : Owner P S) (left : List ℕ)
          → Buffers id left o'.server
          → length left < length c.stream.read_buffer
          → IsDrained id (again o').server)
      → IsDrained id (message_on callbacks again id c f o).server
  unfolding message_on
  message_on-IsDrained again id c none o e e' h = record { connection = c; there = e; done = e' }
  message_on-IsDrained again id c (some (m, left)) o e e' h =
      h _ left
        (act_all-Buffers id left (callbacks.on_message id m o.state).0 _
          (record { connection = _; there = find-put id c _ o.server.connections e; same = refl }))
        (omega (arith, next_frame-shorter c.stream.read_buffer m left e'))

  connection_on-IsDrained :
      (again : Owner P S → Owner P S) (id : ℕ) (f : Option (Connection P)) (c : Connection P)
      (o : Owner P S)
      → find id o.server.connections ≡ f
      → f ≡ some c
      → ((o' : Owner P S) (left : List ℕ)
          → Buffers id left o'.server
          → length left < length c.stream.read_buffer
          → IsDrained id (again o').server)
      → IsDrained id (connection_on callbacks again id f o).server
  unfolding connection_on
  connection_on-IsDrained again id none c o e e' h = cc
  connection_on-IsDrained again id (some c') c o e e' h =
      let one : c' ≡ c = cc e' in
      message_on-IsDrained again id c' (next_frame c'.stream.read_buffer) o e refl (
        subst
          (λ (t : Connection P).
            (o' : Owner P S) (left : List ℕ)
            → Buffers id left o'.server
            → length left < length t.stream.read_buffer
            → IsDrained id (again o').server)
          (sym one) h)

  -- The loop over the messages of a connection, on as much fuel as there are bytes to read, ends
  -- by its test whatever the callbacks do: the connection is still there and holds no whole
  -- message.
  pub dispatch-IsDrained :
      (fuel id : ℕ) (c : Connection P) (o : Owner P S)
      → find id o.server.connections ≡ some c
      → length c.stream.read_buffer ≤ fuel
      → IsDrained id (dispatch callbacks fuel id o).server
  unfolding dispatch
  dispatch-IsDrained zero id c o e h = record {
    connection = c;
    there = e;
    done = next_frame_short c.stream.read_buffer (omega arith);
  }
  dispatch-IsDrained (suc fuel) id c o e h =
      connection_on-IsDrained (dispatch callbacks fuel id) id (find id o.server.connections) c o
        refl e
        (λ o' left b short.
          dispatch-IsDrained fuel id b.connection o' b.there (omega (arith, ap length b.same)))
