-- ===== src/Server/DbServer.antt =====
-- server/dbserver/src/main.cpp: the service that turns an RPC into calls of `db::Database`. What the
-- database does is a parameter: a record of its operations on a state of its own.
pub mod Replies
pub mod Cases
pub mod Refines
use untitled.Base.{ℕ, Bool, true, false, List, [], ◌==◌, Option, none, some, if◌then◌else◌}
use untitled.Net.Bytes.Writer
use untitled.Net.Bytes.Writer.{Writer, ◌>>◌}
use untitled.Net.Bytes.Reader
use untitled.Net.Bytes.Reader.{Reader, Read, reader, ◌>>=◌, pure}
use untitled.Net.Protocol.{DbMessage, db_message?, db_ok, db_not_found, db_conflict, db_error}

-- What a `Database` method says: it returns false; it returns true with `*found` false (`*conflict`
-- true) and leaves its other outputs alone; it returns true with its outputs set.
pub data Outcome (A : Type 0) : Type 0 where
  failed : Outcome A
  absent : Outcome A
  present : A → Outcome A

pub record Account : Type 0 where
  pub id : ℕ
  pub username : List ℕ
  pub password_hash : List ℕ
  pub permission_level : ℕ

pub record Session : Type 0 where
  pub account_id : ℕ
  pub username : List ℕ
  pub permission_level : ℕ

-- The public methods of `db::Database` that the handler calls, on states `S` of Postgres.
pub record Database (S : Type 0) : Type 0 where
  pub find_account : List ℕ → S → Outcome Account × S
  pub create_account : List ℕ → List ℕ → S → Outcome ℕ × S
  pub touch_last_login : ℕ → S → Bool × S
  pub delete_account : List ℕ → S → Outcome Unit × S
  pub set_permission_level : List ℕ → ℕ → S → Outcome Unit × S
  pub has_admin : S → Outcome Unit × S
  pub create_session : ℕ → List ℕ → ℕ → S → Bool × S
  pub lookup_session : List ℕ → S → Outcome Session × S
  pub delete_session : List ℕ → S → Bool × S

-- The fields of the requests that have several, in the order in which they are read.
pub record NewAccount : Type 0 where
  pub username : List ℕ
  pub password_hash : List ℕ
  pub level : ℕ

pub record LevelChange : Type 0 where
  pub username : List ℕ
  pub level : ℕ

pub record NewSession : Type 0 where
  pub account_id : ℕ
  pub token : List ℕ
  pub ttl : ℕ

-- `true` is AccountCreateWithLevelRequest.
unfoldable pub read_new_account : Bool → Read NewAccount
read_new_account true = do
  username ← Reader.string
  hash ← Reader.string
  level ← Reader.u8
  pure (record { username = username; password_hash = hash; level = level })
read_new_account false = do
  username ← Reader.string
  hash ← Reader.string
  pure (record { username = username; password_hash = hash; level = 0 })

unfoldable pub read_level_change : Read LevelChange
read_level_change = do
  username ← Reader.string
  level ← Reader.u8
  pure (record { username = username; level = level })

unfoldable pub read_new_session : Read NewSession
read_new_session = do
  account ← Reader.u64
  token ← Reader.string
  ttl ← Reader.u32
  pure (record { account_id = account; token = token; ttl = ttl })

-- The replies. `account` and `session` keep their defaults when nothing was found.
unfoldable pub write_account : ℕ → Outcome Account → Writer
write_account id (present a) = do
  Writer.u32 id
  Writer.u8 1
  Writer.u64 a.id
  Writer.string a.password_hash
  Writer.u8 a.permission_level
write_account id _ = do Writer.u32 id; Writer.u8 0; Writer.u64 0; Writer.string []; Writer.u8 0

unfoldable pub write_session : ℕ → Outcome Session → Writer
write_session id (present s) = do
  Writer.u32 id
  Writer.u8 1
  Writer.u64 s.account_id
  Writer.string s.username
  Writer.u8 s.permission_level
write_session id _ = do Writer.u32 id; Writer.u8 0; Writer.u64 0; Writer.string []; Writer.u8 0

unfoldable pub write_exists : ℕ → Outcome Unit → Writer
write_exists id (present _) = do Writer.u32 id; Writer.u8 1
write_exists id _ = do Writer.u32 id; Writer.u8 0

abbrev pub found_result : Outcome Unit → ℕ
found_result failed = db_error
found_result absent = db_not_found
found_result (present _) = db_ok

abbrev pub create_result : Outcome ℕ → ℕ
create_result failed = db_error
create_result absent = db_conflict
create_result (present _) = db_ok

abbrev pub created_id : Outcome ℕ → ℕ
created_id (present id) = id
created_id _ = 0

unfoldable pub write_created : ℕ → Outcome ℕ → Writer
write_created id o = do Writer.u32 id; Writer.u8 (create_result o); Writer.u64 (created_id o)

unfoldable pub write_result : ℕ → Outcome Unit → Writer
write_result id o = do Writer.u32 id; Writer.u8 (found_result o)

-- A method that returns only whether it worked.
abbrev pub done_if : Bool → Outcome Unit
done_if true = present tt
done_if false = failed

module _ {S : Type 0} (db : Database S) where
  -- The account first, then its level, if it has one; the outcome of the second call is dropped.
  unfoldable pub create : NewAccount → S → Outcome ℕ × S
  create new s =
      let (o, s') = db.create_account new.username new.password_hash s in
      elim o [
        | present id ↦ (
          present id,
          if new.level == 0 then s' else (db.set_permission_level new.username new.level s').1,
        )
        | failed ↦ (failed, s')
        | absent ↦ (absent, s')
      ]

  -- `createSession && touchLastLogin`.
  unfoldable pub open_session : NewSession → S → Outcome Unit × S
  open_session new s =
      let (ok, s') = db.create_session new.account_id new.token new.ttl s in
      let (touched, s'') = db.touch_last_login new.account_id s' in
      if ok then (done_if touched, s'') else (failed, s')

  unfoldable pub close_session : List ℕ → S → Outcome Unit × S
  close_session token s = let (ok, s') = db.delete_session token s in (done_if ok, s')

-- One case of the switch: the fields are read, the database is asked if that worked, and the reply
-- is written.
unfoldable pub answer_with :
    {S X A : Type 0}
    → Read X
    → (X → S → Outcome A × S)
    → DbMessage
    → (ℕ → Outcome A → Writer)
    → ℕ
    → Reader
    → S
    → Option (DbMessage × List ℕ) × S
answer_with read ask type write id r s =
    let (x, r') = read r in
    let (o, s') = ask x s in
    if r'.failed then (some (type, write id failed []), s) else (some (type, write id o []), s')

module _ {S : Type 0} (db : Database S) where
  -- The switch. The enumerators that are replies fall to its default.
  unfoldable pub on_request : DbMessage → ℕ → Reader → S → Option (DbMessage × List ℕ) × S
  on_request DbMessage.account_lookup_request =
      answer_with Reader.string db.find_account DbMessage.account_lookup_response write_account
  on_request DbMessage.admin_exists_request =
      answer_with (pure tt) (λ _. db.has_admin) DbMessage.admin_exists_response write_exists
  on_request DbMessage.account_set_level_request =
      answer_with read_level_change (λ c. db.set_permission_level c.username c.level)
        DbMessage.account_set_level_response write_result
  on_request DbMessage.account_create_with_level_request =
      answer_with (read_new_account true) (create db) DbMessage.account_create_response
        write_created
  on_request DbMessage.account_create_request =
      answer_with (read_new_account false) (create db) DbMessage.account_create_response
        write_created
  on_request DbMessage.account_delete_request =
      answer_with Reader.string db.delete_account DbMessage.account_delete_response write_result
  on_request DbMessage.session_create_request =
      answer_with read_new_session (open_session db) DbMessage.session_create_response write_result
  on_request DbMessage.session_lookup_request =
      answer_with Reader.string db.lookup_session DbMessage.session_lookup_response write_session
  on_request DbMessage.session_delete_request =
      answer_with Reader.string (close_session db) DbMessage.session_delete_response write_result
  on_request _ = λ _ _ s. (none, s)

  -- `callbacks.onMessage`: the reply to the connection that the message came from, if there is one.
  unfoldable pub on_message : ℕ → List ℕ → S → Option (DbMessage × List ℕ) × S
  on_message type bytes s =
      let (id, r) = Reader.u32 (reader bytes) in
      if r.failed
      then (none, s)
      else elim (db_message? type) [ some m ↦ on_request m id r s | none ↦ (none, s) ]
