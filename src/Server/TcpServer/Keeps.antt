-- ===== src/Server/TcpServer/Keeps.antt =====
-- What the callbacks and the message loops of server/common/src/tcp_server.cpp do to the ids of the
-- connections.
use untitled.Base.{ℕ, zero, suc, ◌≡◌, refl, ◌∙◌, arith}
use untitled.Base.{Bool, true, false, List, [], ◌∷◌, length, Option, none, some}
use untitled.Base.{if◌then◌else◌}
use untitled.Net.Framing.{Message, Received, Sent, pump, next_frame}
use untitled.Server.TcpServer.{
  Connection, TcpServer, find, put, Action, send, close, send_on, act, act_all, Callbacks, Owner,
  message_on, connection_on, serve_on, dispatch, serve, serve_all,
}

abbrev pub keys : {A : Type 0} → List (ℕ × A) → List ℕ
keys [] = []
keys ((k, _) ∷ more) = k ∷ keys more

put-keys : {A : Type 0} (k : ℕ) (a : A) (cs : List (ℕ × A)) → keys (put k a cs) ≡ keys cs
unfolding put
put-keys k a [] = refl
put-keys k a ((k', b) ∷ more) = ground (arith, put-keys k a more)

-- What callbacks leave as it is: which ids there are, and the next one.
pub record Keeps {P : Type 0} (s s' : TcpServer P) : Type 0 where
  pub ids : keys s'.connections ≡ keys s.connections
  pub next : s'.next_id ≡ s.next_id

module _ {P : Type 0} where
  pub Keeps-refl : (s : TcpServer P) → Keeps s s
  Keeps-refl s = record { ids = refl; next = refl }

  pub Keeps-trans : {s s' s'' : TcpServer P} → Keeps s s' → Keeps s' s'' → Keeps s s''
  Keeps-trans a b = record { ids = b.ids ∙ a.ids; next = b.next ∙ a.next }

  send_on-Keeps :
      (outcomes : List Sent) (id : ℕ) (m : Message) (f : Option (Connection P)) (s : TcpServer P)
      → Keeps s (send_on outcomes id m f s)
  unfolding send_on
  send_on-Keeps outcomes id m none s = Keeps-refl s
  send_on-Keeps outcomes id m (some c) s = record { ids = put-keys id _ s.connections; next = refl }

  act-Keeps : (a : Action) (s : TcpServer P) → Keeps s (act a s)
  unfolding act
  act-Keeps (send outcomes id m) s = send_on-Keeps outcomes id m (find id s.connections) s
  act-Keeps (close id) s = record { ids = refl; next = refl }

  pub act_all-Keeps : (actions : List Action) (s : TcpServer P) → Keeps s (act_all actions s)
  unfolding act_all
  act_all-Keeps [] s = Keeps-refl s
  act_all-Keeps (a ∷ actions) s = Keeps-trans (act-Keeps a s) (act_all-Keeps actions (act a s))

module _ {P S : Type 0} (callbacks : Callbacks P S) where
  message_on-Keeps :
      (again : Owner P S → Owner P S) (id : ℕ) (c : Connection P) (f : Option (Message × List ℕ))
      (o : Owner P S)
      → ((o' : Owner P S) → Keeps o'.server (again o').server)
      → Keeps o.server (message_on callbacks again id c f o).server
  unfolding message_on
  message_on-Keeps again id c none o h = Keeps-refl o.server
  message_on-Keeps again id c (some (m, left)) o h =
      Keeps-trans (record { ids = put-keys id _ o.server.connections; next = refl })
        (Keeps-trans (act_all-Keeps (callbacks.on_message id m o.state).0 _) (h _))

  connection_on-Keeps :
      (again : Owner P S → Owner P S) (id : ℕ) (f : Option (Connection P)) (o : Owner P S)
      → ((o' : Owner P S) → Keeps o'.server (again o').server)
      → Keeps o.server (connection_on callbacks again id f o).server
  unfolding connection_on
  connection_on-Keeps again id none o h = Keeps-refl o.server
  connection_on-Keeps again id (some c) o h =
      message_on-Keeps again id c (next_frame c.stream.read_buffer) o h

  dispatch-Keeps :
      (fuel id : ℕ) (o : Owner P S) → Keeps o.server (dispatch callbacks fuel id o).server
  unfolding dispatch
  dispatch-Keeps zero id o = Keeps-refl o.server
  dispatch-Keeps (suc fuel) id o =
      connection_on-Keeps (dispatch callbacks fuel id) id (find id o.server.connections) o
        (dispatch-Keeps fuel id)

  Keeps-if :
      (b : Bool) (o x y : Owner P S)
      → Keeps o.server x.server
      → Keeps o.server y.server
      → Keeps o.server (if b then x else y).server
  Keeps-if true o x y f g = f
  Keeps-if false o x y f g = g

  serve_on-Keeps :
      (id : ℕ) (received : List Received) (f : Option (Connection P)) (o : Owner P S)
      → Keeps o.server (serve_on callbacks id received f o).server
  unfolding serve_on
  serve_on-Keeps id received none o = Keeps-refl o.server
  serve_on-Keeps id received (some c) o =
      Keeps-if (pump received c.stream).0 o _ _
        (Keeps-trans (record { ids = put-keys id _ o.server.connections; next = refl })
          (dispatch-Keeps (length (pump received c.stream).1.read_buffer) id _))
        (record { ids = put-keys id _ o.server.connections; next = refl })

  pub serve_all-Keeps :
      (readable : List (ℕ × List Received)) (o : Owner P S)
      → Keeps o.server (serve_all callbacks readable o).server
  unfolding serve_all serve
  serve_all-Keeps [] o = Keeps-refl o.server
  serve_all-Keeps ((id, received) ∷ more) o =
      Keeps-trans (serve_on-Keeps id received (find id o.server.connections) o)
        (serve_all-Keeps more _)
