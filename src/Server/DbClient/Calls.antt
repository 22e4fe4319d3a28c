-- ===== src/Server/DbClient/Calls.antt =====
-- The calls in flight (db_client.h's mPending and mNextRequestId, `registerHandler`, `poll` and
-- `failAllPending` of db_client.cpp). A handler is of any type; what is invoked is listed in order.
-- A callback that makes calls of its own does so after its handler has left mPending, so those are
-- later steps.

use untitled.Base.{ℕ, ◌+◌, ◌%◌, ◌^◌}
use untitled.Base.{List, [], ◌∷◌, ◌++◌, Bool, true, false, Option, none, some, ltb}
use untitled.Base.{◌==◌, if◌then◌else◌}
use untitled.Net.Bytes.Reader
use untitled.Net.Bytes.Reader.{reader}

-- `std::map::emplace`, keys ascending: a key that is there keeps its handler.
unfoldable pub emplace : {H : Type 0} → ℕ → H → List (ℕ × H) → List (ℕ × H)
emplace k h [] = (k, h) ∷ []
emplace k h ((k', h') ∷ more) =
    let rest = emplace k h more in
    if ltb k k'
    then (k, h) ∷ (k', h') ∷ more
    else (if k == k' then (k', h') ∷ more else (k', h') ∷ rest)

-- `find` and `erase`.
unfoldable pub extract : {H : Type 0} → ℕ → List (ℕ × H) → Option (H × List (ℕ × H))
extract k [] = none
extract k ((k', h') ∷ more) =
    let rest = extract k more in
    if k == k'
    then some (h', more)
    else elim rest [ none ↦ none | some (h, left) ↦ some (h, (k', h') ∷ left) ]

pub record Client (H : Type 0) : Type 0 where
  pub connected : Bool
  pub next_request_id : ℕ
  pub pending : List (ℕ × H)

-- A client that has just connected.
abbrev pub fresh : {H : Type 0} → Client H
fresh = record { connected = true; next_request_id = 1; pending = [] }

-- The part that the methods share: `none` when not connected, where the callback is told of a
-- failure at once, else the id that goes out with the request.
unfoldable pub begin_call : {H : Type 0} → H → Client H → Option ℕ × Client H
unfolding emplace
begin_call h c =
    let id = c.next_request_id in
    if c.connected
    then (
      some id,
      record c { next_request_id = (id + 1) % 2 ^ 32; pending = emplace id h c.pending },
    )
    else (none, c)

-- One message in the loop of `poll`: the handler that is invoked with it, if there is one.
unfoldable pub on_reply : {H : Type 0} → List ℕ → Client H → Option (ℕ × H) × Client H
unfolding extract
on_reply bytes c =
    let (id, r) = Reader.u32 (reader bytes) in
    if r.failed then (none, c) else elim (extract id c.pending) [
      | none ↦ (none, c)
      | some (h, left) ↦ (some (id, h), record c { pending = left })
    ]

-- `poll` where `pump` fails: every handler is invoked with false, in the order of the ids.
abbrev pub on_drop : {H : Type 0} → Client H → List (ℕ × H) × Client H
on_drop c = (c.pending, record c { connected = false; pending = [] })

-- What happens to a client, one thing at a time. `poll` does nothing once it is not connected.
pub data Input (H : Type 0) : Type 0 where
  call : H → Input H
  reply : List ℕ → Input H
  drop : Input H

-- The calls that got an id, the handlers that were invoked, and the client after it.
pub record Effect (H : Type 0) : Type 0 where
  pub issued : List (ℕ × H)
  pub invoked : List (ℕ × H)
  pub client : Client H

unfoldable pub step : {H : Type 0} → Input H → Client H → Effect H
unfolding begin_call on_reply
step (call h) c =
    let (id, c') = begin_call h c in
    elim id [
      | none ↦ record { issued = []; invoked = []; client = c' }
      | some n ↦ record { issued = (n, h) ∷ []; invoked = []; client = c' }
    ]
step (reply bytes) c =
    let (hit, c') = on_reply bytes c in
    if c.connected
    then elim hit [
      | none ↦ record { issued = []; invoked = []; client = c' }
      | some p ↦ record { issued = []; invoked = p ∷ []; client = c' }
    ]
    else record { issued = []; invoked = []; client = c }
step drop c =
    let (hs, c') = on_drop c in
    if c.connected
    then record { issued = []; invoked = hs; client = c' }
    else record { issued = []; invoked = []; client = c }

unfoldable pub run : {H : Type 0} → List (Input H) → Client H → Effect H
run [] c = record { issued = []; invoked = []; client = c }
run (i ∷ is) c =
    let e = step i c in
    let more = run is e.client in
    record {
      issued = e.issued ++ more.issued;
      invoked = e.invoked ++ more.invoked;
      client = more.client;
    }
