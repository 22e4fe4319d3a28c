-- ===== src/Server/TcpServer/Poll.antt =====
-- A whole `TcpServer::poll` (server/common/src/tcp_server.cpp): ids and closing.
use untitled.Base.{ℕ, suc, ◌+◌, ◌%◌, ◌^◌, ◌<◌, ◌≡◌, refl, ◌∙◌, arith}
use untitled.Base.{List, [], ◌∷◌, ◌++◌, length, All, Option, none, some}
use untitled.Net.Framing.{Received, empty_stream}
use untitled.Server.TcpServer.{
  Connection, TcpServer, find, act_all, Callbacks, Owner, close_on, accept_all, serve_all,
  close_all, poll,
}
use untitled.Server.TcpServer.Keeps.{keys, Keeps, serve_all-Keeps, act_all-Keeps}
use untitled.Server.TcpServer.Ids.{
  Ascending, Ascending-append, keys-append, erase-Ascending, find-erase, find-erase_other,
}

-- The ids of the connections ascend, and each was given out before the next one.
abbrev pub IsValid : {P : Type 0} → TcpServer P → Type 0
IsValid s = Ascending 1 (keys s.connections) s.next_id

Keeps-IsValid : {P : Type 0} {s s' : TcpServer P} → Keeps s s' → IsValid s → IsValid s'
Keeps-IsValid k v = rw (k.ids, k.next) v

module _ {P S : Type 0} (callbacks : Callbacks P S) where
  accept_all-IsValid :
      (peers : List P) (o : Owner P S)
      → IsValid o.server
      → o.server.next_id + length peers < 2 ^ 64
      → let s = (accept_all callbacks peers o).server in
        IsValid s × (s.next_id ≡ o.server.next_id + length peers)
  unfolding accept_all
  accept_all-IsValid [] o v room = (v, omega arith)
  accept_all-IsValid (peer ∷ peers) o v room =
      let id = o.server.next_id in
      let (actions, state) = callbacks.on_connect id peer o.state in
      let s : TcpServer P = record o.server {
        next_id = (id + 1) % 2 ^ 64;
        connections =
            o.server.connections ++ ((id, record { stream = empty_stream; peer = peer }) ∷ []);
      } in
      let k = act_all-Keeps actions s in
      let exact : (id + 1) % 2 ^ 64 ≡ suc id = omega arith in
      let grown : IsValid s =
        rw
          (
            exact,
            keys-append o.server.connections
                ((id, record { stream = empty_stream; peer = peer }) ∷ []),
          )
          (Ascending-append 1 (keys o.server.connections) id v) in
      let (valid, next) =
        accept_all-IsValid peers (record { server = act_all actions s; state = state })
          (Keeps-IsValid k grown) (omega (arith, k.next, exact)) in
      (valid, omega (arith, next, k.next, exact))

  close_on-IsValid :
      (id : ℕ) (f : Option (Connection P)) (o : Owner P S)
      → IsValid o.server
      → IsValid (close_on callbacks id f o).server
  unfolding close_on
  close_on-IsValid id none o v = v
  close_on-IsValid id (some c) o v = erase-Ascending id 1 o.server.connections o.server.next_id v

  close_all-IsValid :
      (ids : List ℕ) (o : Owner P S) → IsValid o.server → IsValid (close_all callbacks ids o).server
  unfolding close_all
  close_all-IsValid [] o v = v
  close_all-IsValid (id ∷ ids) o v =
      close_all-IsValid ids _ (close_on-IsValid id (find id o.server.connections) o v)

  close_on-next :
      (id : ℕ) (f : Option (Connection P)) (o : Owner P S)
      → (close_on callbacks id f o).server.next_id ≡ o.server.next_id
  unfolding close_on
  close_on-next id none o = refl
  close_on-next id (some c) o = refl

  close_all-next :
      (ids : List ℕ) (o : Owner P S) → (close_all callbacks ids o).server.next_id ≡ o.server.next_id
  unfolding close_all
  close_all-next [] o = refl
  close_all-next (id ∷ ids) o =
      close_all-next ids _ ∙ close_on-next id (find id o.server.connections) o

  -- What is gone stays gone.
  close_on_other :
      (k id : ℕ) (f : Option (Connection P)) (o : Owner P S)
      → find k o.server.connections ≡ none
      → find k (close_on callbacks id f o).server.connections ≡ none
  unfolding close_on
  close_on_other k id none o e = e
  close_on_other k id (some c) o e = find-erase_other k id o.server.connections e

  close_all_other :
      (k : ℕ) (ids : List ℕ) (o : Owner P S)
      → find k o.server.connections ≡ none
      → find k (close_all callbacks ids o).server.connections ≡ none
  unfolding close_all
  close_all_other k [] o e = e
  close_all_other k (id ∷ ids) o e =
      close_all_other k ids _ (close_on_other k id (find id o.server.connections) o e)

  close_on-find :
      (id : ℕ) (f : Option (Connection P)) (o : Owner P S)
      → find id o.server.connections ≡ f
      → IsValid o.server
      → find id (close_on callbacks id f o).server.connections ≡ none
  unfolding close_on
  close_on-find id none o e v = e
  close_on-find id (some c) o e v = find-erase id 1 o.server.connections o.server.next_id v

  close_all-find :
      (ids : List ℕ) (o : Owner P S)
      → IsValid o.server
      → All (λ k. find k (close_all callbacks ids o).server.connections ≡ none) ids
  unfolding close_all
  close_all-find [] o v = tt
  close_all-find (id ∷ ids) o v =
      let f = find id o.server.connections in
      (
        close_all_other id ids _ (close_on-find id f o refl v),
        close_all-find ids _ (close_on-IsValid id f o v),
      )

  module _ (accepted : List P) (readable : List (ℕ × List Received)) (o : Owner P S)
      (v : IsValid o.server) (room : o.server.next_id + length accepted < 2 ^ 64) where
    -- A poll keeps the ids of the connections ascending and below the next id, which grows by one
    -- for each connection that is accepted, where that stays below 2 ^ 64: no id is given out
    -- twice.
    pub poll-IsValid :
        let s = (poll callbacks accepted readable o).server in
        IsValid s × (s.next_id ≡ o.server.next_id + length accepted)
    unfolding poll
    poll-IsValid =
        let (valid, next) = accept_all-IsValid accepted o v room in
        let o' = serve_all callbacks readable (accept_all callbacks accepted o) in
        let k = serve_all-Keeps callbacks readable (accept_all callbacks accepted o) in
        (
          close_all-IsValid o'.server.closing o' (Keeps-IsValid k valid),
          close_all-next o'.server.closing o' ∙ k.next ∙ next,
        )

    -- After a poll of a valid server whose ids do not run out, every connection that was to be
    -- closed is gone, and none is to be closed any more.
    pub poll-closing :
        let before = (serve_all callbacks readable (accept_all callbacks accepted o)).server in
        let after = (poll callbacks accepted readable o).server in
        All (λ k. find k after.connections ≡ none) before.closing × (after.closing ≡ [])
    unfolding poll
    poll-closing =
        let (valid, next) = accept_all-IsValid accepted o v room in
        let o' = serve_all callbacks readable (accept_all callbacks accepted o) in
        let k = serve_all-Keeps callbacks readable (accept_all callbacks accepted o) in
        (close_all-find o'.server.closing o' (Keeps-IsValid k valid), refl)
