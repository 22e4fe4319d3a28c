-- ===== src/Server/DbServer/Refines.antt =====
-- The call through the wire (server/common/src/db_client.cpp to server/dbserver/src/main.cpp and back)
-- against `perform`.
use mathlib.Core.Option
use untitled.Base.{ℕ, ◌^◌, ◌<◌, ◌≡◌, refl, sym, ap, ◌∙◌, arith, Bool, true, false}
use untitled.Base.{
  List, [], ◌∷◌, ◌++◌, ==_refl, subst, Option, some, ◌⊎◌, inl, inr, ◌≢◌, append-nil,
}
use untitled.Net.Bytes.Reader
use untitled.Net.Bytes.Reader.{Reader, Read, reader, pure}
use untitled.Net.Bytes.Agree.{At, At-reader, read-write, read_cut}
use untitled.Net.Bytes.Fields.{u32-Agrees}
use untitled.Net.Protocol.{DbMessage, db_code, db_message?-db_code}
use untitled.Server.DbClient.{
  Request, failure, request_type, response_type, write_request, read_answer, handle,
}
use untitled.Server.DbServer.{Database, answer_with, on_message}
use untitled.Server.DbServer.Cases.{IsRequest, IsDatabase, perform, Case, case}

module _ {S : Type 0} (db : Database S) (q : Request) (id : ℕ) (s : S) (d : IsDatabase db)
    (v : IsRequest q) (h : id < 2 ^ 32) where
  c : Case db q id s
  c = case db q id s d v h

  on_message-eq :
      on_message db (db_code (request_type q)) (write_request id q []) s
      ≡ (some (response_type q, c.write id (c.ask c.x s).0 []), (c.ask c.x s).1)
  unfolding on_message answer_with
  on_message-eq =
      let first = u32-Agrees id h in
      let bytes =
        c.written
        ∙ c.fields.writes _
        ∙ ap (λ (t : List ℕ). t ++ c.fields.image) (first.writes []) in
      let (same, at) =
        first.reads (reader (write_request id q [])) c.fields.image
          (subst (At (reader (write_request id q []))) bytes (At-reader (write_request id q []))) in
      let (same', at') = c.fields.reads _ [] (subst (At _) (sym (append-nil c.fields.image)) at) in
      rw (at.fine, db_message?-db_code (request_type q), c.dispatched, same, same', at'.fine) refl

  handle-reply :
      handle q true (db_code (response_type q)) (c.write id (c.ask c.x s).0 [])
      ≡ (true, (perform db q s).0)
  unfolding handle
  handle-reply =
      let out = c.write id (c.ask c.x s).0 [] in
      let (same, at) = read-write (read_answer q) c.replies [] in
      let value =
        subst (λ (t : List ℕ). (read_answer q (reader t)).0 ≡ (perform db q s).0) (append-nil out)
          same in
      let fine =
        subst (λ (t : List ℕ). (read_answer q (reader t)).1.failed ≡ false) (append-nil out)
          at.fine in
      rw (==_refl (db_code (response_type q)), value, fine) refl

  -- With a database whose answers keep to the ranges of its columns, every call in range that
  -- reaches the database server is answered and runs the methods of the database that it stands
  -- for, and its callback is told what they said: for a new account what the insertion said, and
  -- not whether its level, unless it is 0, could be set behind it; for a new session whether it
  -- was stored and the last login behind it.
  pub handle-on_message :
      let (reply, s') = on_message db (db_code (request_type q)) (write_request id q []) s in
      let (answer, s'') = perform db q s in
      (Option.map (λ (p : DbMessage × List ℕ). handle q true (db_code p.0) p.1) reply
        ≡ some (true, answer))
      × (s' ≡ s'')
  handle-on_message = rw (on_message-eq) (ap some handle-reply, c.after)

  -- A reply to a request in range that is cut short anywhere is reported to the callback as a
  -- failure.
  pub handle_cut :
      (front : List ℕ) (x : ℕ) (back : List ℕ)
      → (on_message db (db_code (request_type q)) (write_request id q []) s).0
        ≡ some (response_type q, front ++ (x ∷ back))
      → (handle q true (db_code (response_type q)) front).0 ≡ false
  unfolding handle
  handle_cut front x back e =
      let bytes : c.write id (c.ask c.x s).0 [] ≡ front ++ (x ∷ back) =
        cc (sym (ap (λ (t : Option (DbMessage × List ℕ) × S). t.0) on_message-eq) ∙ e) in
      let short = read_cut (read_answer q) c.replies front x back bytes in
      rw (==_refl (db_code (response_type q)), short) refl

-- A reply of another type is reported to the callback as a failure, and so is every call that is
-- pending when the link drops.
pub handle_refused :
    (q : Request) (ok : Bool) (type : ℕ) (bytes : List ℕ)
    → (ok ≡ false) ⊎ (type ≢ db_code (response_type q))
    → handle q ok type bytes ≡ (false, failure q)
unfolding handle
handle_refused q ok type bytes (inl e) = rw e refl
handle_refused q ok type bytes (inr e) = ground arith
