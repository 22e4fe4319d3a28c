-- ===== src/Server/DbClient.antt =====
-- server/common/include/serverutil/db_client.h and server/common/src/db_client.cpp: the client side
-- of the database RPC. A call is a `Request`; what its callback is given besides `ok` is its
-- `Answer`. The methods share one shape: refuse when not connected, else take an id, send the
-- request and register the handler, which decodes the reply.
pub mod Calls
pub mod Pending
use untitled.Base.{ℕ, ◌+◌, ◌%◌, ◌^◌, Bool, true, false, not, ◌||◌, List, [], ◌∷◌, ◌==◌}
use untitled.Base.{Option, none, some, if◌then◌else◌}
use untitled.Net.Bytes.Writer
use untitled.Net.Bytes.Writer.{Writer, ◌>>◌}
use untitled.Net.Bytes.Reader
use untitled.Net.Bytes.Reader.{Reader, Read, reader, ◌>>=◌, pure}
use untitled.Net.Protocol.{DbMessage, db_code, db_error}

pub record AccountLookup : Type 0 where
  pub found : Bool
  pub account_id : ℕ
  pub password_hash : List ℕ
  pub permission_level : ℕ

pub record SessionLookup : Type 0 where
  pub found : Bool
  pub account_id : ℕ
  pub username : List ℕ
  pub permission_level : ℕ

pub data Request : Type 0 where
  lookup_account : List ℕ → Request
  create_account : List ℕ → List ℕ → Request
  delete_account : List ℕ → Request
  create_account_with_level : List ℕ → List ℕ → ℕ → Request
  set_permission_level : List ℕ → ℕ → Request
  admin_exists : Request
  create_session : ℕ → List ℕ → ℕ → Request
  lookup_session : List ℕ → Request
  delete_session : List ℕ → Request

-- What the callback of a call is given.
pub record Created : Type 0 where
  pub result : ℕ
  pub account_id : ℕ

abbrev pub Answer : Request → Type 0
Answer (lookup_account _) = AccountLookup
Answer (create_account _ _) = Created
Answer (delete_account _) = ℕ
Answer (create_account_with_level _ _ _) = Created
Answer (set_permission_level _ _) = ℕ
Answer admin_exists = Bool
Answer (create_session _ _ _) = ℕ
Answer (lookup_session _) = SessionLookup
Answer (delete_session _) = ℕ

-- What the callback is given when the call fails.
abbrev pub failure : (q : Request) → Answer q
failure (lookup_account _) = record {
  found = false;
  account_id = 0;
  password_hash = [];
  permission_level = 0;
}
failure (create_account _ _) = record { result = db_error; account_id = 0 }
failure (delete_account _) = db_error
failure (create_account_with_level _ _ _) = record { result = db_error; account_id = 0 }
failure (set_permission_level _ _) = db_error
failure admin_exists = false
failure (create_session _ _ _) = db_error
failure (lookup_session _) = record {
  found = false;
  account_id = 0;
  username = [];
  permission_level = 0;
}
failure (delete_session _) = db_error

abbrev pub request_type : Request → DbMessage
request_type (lookup_account _) = DbMessage.account_lookup_request
request_type (create_account _ _) = DbMessage.account_create_request
request_type (delete_account _) = DbMessage.account_delete_request
request_type (create_account_with_level _ _ _) = DbMessage.account_create_with_level_request
request_type (set_permission_level _ _) = DbMessage.account_set_level_request
request_type admin_exists = DbMessage.admin_exists_request
request_type (create_session _ _ _) = DbMessage.session_create_request
request_type (lookup_session _) = DbMessage.session_lookup_request
request_type (delete_session _) = DbMessage.session_delete_request

-- The type that the handler wants of the reply.
abbrev pub response_type : Request → DbMessage
response_type (lookup_account _) = DbMessage.account_lookup_response
response_type (create_account _ _) = DbMessage.account_create_response
response_type (delete_account _) = DbMessage.account_delete_response
response_type (create_account_with_level _ _ _) = DbMessage.account_create_response
response_type (set_permission_level _ _) = DbMessage.account_set_level_response
response_type admin_exists = DbMessage.admin_exists_response
response_type (create_session _ _ _) = DbMessage.session_create_response
response_type (lookup_session _) = DbMessage.session_lookup_response
response_type (delete_session _) = DbMessage.session_delete_response

-- The payload behind the request id.
unfoldable pub write_fields : Request → Writer → Writer
write_fields (lookup_account username) id = do id; Writer.string username
write_fields (create_account username hash) id = do id; Writer.string username; Writer.string hash
write_fields (delete_account username) id = do id; Writer.string username
write_fields (create_account_with_level username hash level) id = do
  id
  Writer.string username
  Writer.string hash
  Writer.u8 level
write_fields (set_permission_level username level) id = do
  id
  Writer.string username
  Writer.u8 level
write_fields admin_exists id = id
write_fields (create_session account token ttl) id = do
  id
  Writer.u64 account
  Writer.string token
  Writer.u32 ttl
write_fields (lookup_session token) id = do id; Writer.string token
write_fields (delete_session token) id = do id; Writer.string token

unfoldable pub write_request : ℕ → Request → Writer
unfolding write_fields
write_request id q = write_fields q (Writer.u32 id)

-- What the handler reads of a reply, request id first.
unfoldable pub read_account : Read AccountLookup
read_account = do
  _ ← Reader.u32
  found ← Reader.u8
  account ← Reader.u64
  hash ← Reader.string
  level ← Reader.u8
  pure (record {
    found = not (found == 0);
    account_id = account;
    password_hash = hash;
    permission_level = level;
  })

unfoldable pub read_session : Read SessionLookup
read_session = do
  _ ← Reader.u32
  found ← Reader.u8
  account ← Reader.u64
  username ← Reader.string
  level ← Reader.u8
  pure (record {
    found = not (found == 0);
    account_id = account;
    username = username;
    permission_level = level;
  })

unfoldable pub read_created : Read Created
read_created = do
  _ ← Reader.u32
  result ← Reader.u8
  account ← Reader.u64
  pure (record { result = result; account_id = account })

unfoldable pub read_result : Read ℕ
read_result = do _ ← Reader.u32; result ← Reader.u8; pure result

unfoldable pub read_exists : Read Bool
read_exists = do _ ← Reader.u32; exists ← Reader.u8; pure (not (exists == 0))

abbrev pub read_answer : (q : Request) → Read (Answer q)
read_answer (lookup_account _) = read_account
read_answer (create_account _ _) = read_created
read_answer (delete_account _) = read_result
read_answer (create_account_with_level _ _ _) = read_created
read_answer (set_permission_level _ _) = read_result
read_answer admin_exists = read_exists
read_answer (create_session _ _ _) = read_result
read_answer (lookup_session _) = read_session
read_answer (delete_session _) = read_result

-- The handler of a call: what the callback is given for a reply. On a short reply the callback gets
-- false and whatever was read.
unfoldable pub handle : (q : Request) → Bool → ℕ → List ℕ → Bool × Answer q
handle q ok type bytes =
    let (a, r) = read_answer q (reader bytes) in
    if not ok || not (type == db_code (response_type q))
    then (false, failure q)
    else (not r.failed, a)
