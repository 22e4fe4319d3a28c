-- ===== src/Server/AuthServer.antt =====
-- server/authserver/src/main.cpp: login, registration and account management. A message is handled
-- by a `Prog`: what it asks of the database server, call by call, with what its callback does with
-- the answer, down to the reply to the connection that the message came from.
pub mod Handlers
pub mod Token
pub mod Calls
pub mod Rules
pub mod Authority
pub mod Replies
pub mod Login
use untitled.Base.{
  ℕ, suc, ◌+◌, ◌*◌, ◌/◌, ◌%◌, ◌^◌, Bool, true, false, not, ◌&&◌, ◌||◌, List, [], ◌∷◌, length,
}
use untitled.Base.{Option, none, some, ◌==◌, ltb, leb, if◌then◌else◌, get_or, shr, bit_and}
use untitled.Net.Bytes.Writer
use untitled.Net.Bytes.Writer.{Writer, ◌>>◌}
use untitled.Net.Bytes.Reader
use untitled.Net.Bytes.Reader.{Reader, Read, reader, ◌>>=◌, pure}
use untitled.Net.Protocol.{
  AuthMessage, AuthResult, PermissionLevel, auth_message?, auth_code, result_code, level_code,
  protocol_version, db_ok, db_conflict, db_not_found,
}
use untitled.Server.DbClient.{AccountLookup, SessionLookup, Created, Request, Answer}

-- What libsodium answers to the calls that the code makes while it handles a message. The random
-- bytes are those of `randombytes_buf`; `none` is out of memory.
pub record Sodium : Type 0 where
  pub random_bytes : List ℕ
  pub pwhash : List ℕ → Option (List ℕ)
  pub pwhash_verify : List ℕ → List ℕ → Bool

-- The settings from the environment that the handlers use.
pub record Config : Type 0 where
  pub world_host : List ℕ
  pub world_port : ℕ
  pub session_ttl : ℕ

abbrev pub token_bytes : ℕ
token_bytes = 32

abbrev pub min_password_length : ℕ
min_password_length = 6

abbrev pub max_username_length : ℕ
max_username_length = 32

-- The text 0123456789abcdef.
abbrev pub hex : List ℕ
hex = 48 ∷ 49 ∷ 50 ∷ 51 ∷ 52 ∷ 53 ∷ 54 ∷ 55 ∷ 56 ∷ 57 ∷ 97 ∷ 98 ∷ 99 ∷ 100 ∷ 101 ∷ 102 ∷ []

-- The bytes of `raw` are the argument.
unfoldable pub generate_token : List ℕ → List ℕ
generate_token [] = []
generate_token (byte ∷ raw) =
    get_or hex (shr byte 4) 0 ∷ get_or hex (bit_and byte 15) 0 ∷ generate_token raw

unfoldable pub allowed : ℕ → Bool
allowed c =
    (leb 97 c && leb c 122)
    || (leb 65 c && leb c 90)
    || (leb 48 c && leb c 57)
    || (c == 95)
    || (c == 45)

-- The loop of `validUsername`.
unfoldable pub all_allowed : List ℕ → Bool
unfolding allowed
all_allowed [] = true
all_allowed (c ∷ cs) = let rest = all_allowed cs in if not (allowed c) then false else rest

unfoldable pub valid_username : List ℕ → Bool
unfolding all_allowed
valid_username username =
    if (length username == 0) || ltb max_username_length (length username)
    then false
    else all_allowed username

-- Handling one message. `quiet` ends without a reply.
pub data Prog : Type 0 where
  quiet : Prog
  reply : AuthMessage → List ℕ → Prog
  call : (q : Request) → (Bool → Answer q → Prog) → Prog

-- `if (!hashPassword(…)) { … return; }` and what follows it.
unfoldable pub with_hash : Option (List ℕ) → Prog → (List ℕ → Prog) → Prog
with_hash none out_of_memory next = out_of_memory
with_hash (some hash) out_of_memory next = next hash

unfoldable pub write_login_response : AuthResult → List ℕ → List ℕ → ℕ → ℕ → ℕ → Writer
write_login_response result token host port account level = do
  Writer.u8 (result_code result)
  Writer.string token
  Writer.string host
  Writer.u16 port
  Writer.u64 account
  Writer.u8 level

unfoldable pub send_login_response : AuthResult → List ℕ → List ℕ → ℕ → ℕ → ℕ → Prog
unfolding write_login_response
send_login_response result token host port account level =
    reply AuthMessage.login_response (write_login_response result token host port account level [])

unfoldable pub send_admin_response : AuthMessage → AuthResult → Prog
send_admin_response type result = reply type (Writer.u8 (result_code result) [])

unfoldable pub send_register_response : AuthResult → Prog
send_register_response result =
    reply AuthMessage.register_response (Writer.u8 (result_code result) [])

pub record Credentials : Type 0 where
  pub version : ℕ
  pub username : List ℕ
  pub password : List ℕ

unfoldable pub read_credentials : Read Credentials
read_credentials = do
  version ← Reader.u32
  username ← Reader.string
  password ← Reader.string
  pure (record { version = version; username = username; password = password })

-- The privileged commands.
pub data Command : Type 0 where
  account_create account_delete set_level : Command

abbrev pub command_response : Command → AuthMessage
command_response account_create = AuthMessage.admin_account_create_response
command_response account_delete = AuthMessage.admin_account_delete_response
command_response set_level = AuthMessage.admin_set_level_response

pub record AdminRequest : Type 0 where
  pub token : List ℕ
  pub target : List ℕ
  pub password : List ℕ
  pub level : ℕ

unfoldable pub read_admin : Command → Read AdminRequest
read_admin account_create = do
  token ← Reader.string
  target ← Reader.string
  password ← Reader.string
  level ← Reader.u8
  pure (record { token = token; target = target; password = password; level = level })
read_admin account_delete = do
  token ← Reader.string
  target ← Reader.string
  pure (record { token = token; target = target; password = []; level = 0 })
read_admin set_level = do
  token ← Reader.string
  target ← Reader.string
  level ← Reader.u8
  pure (record { token = token; target = target; password = []; level = level })
