-- ===== src/Net/Protocol.antt =====
-- common/net/include/net/protocol.h: the enumerations of the protocol, with the numbers that stand
-- for them on the wire, and the constants. A `switch` on a number from the wire is a match on what
-- `db_message?` or `auth_message?` finds; its `default` is `none`.
pub mod World
use untitled.Base.{ℕ, Option, none, some, List, [], ◌∷◌, ◌==◌, if◌then◌else◌, ◌≡◌, refl}

abbrev pub protocol_version : ℕ
protocol_version = 8

abbrev pub server_tick_hz : ℕ
server_tick_hz = 60

pub data PermissionLevel : Type 0 where
  player game_master admin : PermissionLevel

abbrev pub level_code : PermissionLevel → ℕ
level_code player = 0
level_code game_master = 1
level_code admin = 2

pub data AuthMessage : Type 0 where
  login_request login_response register_request register_response : AuthMessage
  admin_account_create_request admin_account_create_response : AuthMessage
  admin_account_delete_request admin_account_delete_response : AuthMessage
  admin_set_level_request admin_set_level_response : AuthMessage

abbrev pub auth_code : AuthMessage → ℕ
auth_code login_request = 1
auth_code login_response = 2
auth_code register_request = 3
auth_code register_response = 4
auth_code admin_account_create_request = 5
auth_code admin_account_create_response = 6
auth_code admin_account_delete_request = 7
auth_code admin_account_delete_response = 8
auth_code admin_set_level_request = 9
auth_code admin_set_level_response = 10

abbrev auth_messages : List AuthMessage
auth_messages =
    login_request ∷ login_response ∷ register_request ∷ register_response
    ∷ admin_account_create_request ∷ admin_account_create_response ∷ admin_account_delete_request
    ∷ admin_account_delete_response ∷ admin_set_level_request ∷ admin_set_level_response ∷ []

auth_message_in : List AuthMessage → ℕ → Option AuthMessage
auth_message_in [] code = none
auth_message_in (m ∷ ms) code =
    let rest = auth_message_in ms code in if code == auth_code m then some m else rest

unfoldable pub auth_message? : ℕ → Option AuthMessage
unfolding auth_message_in
auth_message? = auth_message_in auth_messages

pub auth_message?-auth_code : (m : AuthMessage) → auth_message? (auth_code m) ≡ some m
unfolding auth_message?
auth_message?-auth_code login_request = refl
auth_message?-auth_code login_response = refl
auth_message?-auth_code register_request = refl
auth_message?-auth_code register_response = refl
auth_message?-auth_code admin_account_create_request = refl
auth_message?-auth_code admin_account_create_response = refl
auth_message?-auth_code admin_account_delete_request = refl
auth_message?-auth_code admin_account_delete_response = refl
auth_message?-auth_code admin_set_level_request = refl
auth_message?-auth_code admin_set_level_response = refl

pub data AuthResult : Type 0 where
  success invalid_credentials version_mismatch account_exists server_error : AuthResult
  malformed_request not_authorised no_such_account : AuthResult
  insufficient_permission session_expired : AuthResult

abbrev pub result_code : AuthResult → ℕ
result_code success = 0
result_code invalid_credentials = 1
result_code version_mismatch = 2
result_code account_exists = 3
result_code server_error = 4
result_code malformed_request = 5
result_code not_authorised = 6
result_code no_such_account = 7
result_code insufficient_permission = 8
result_code session_expired = 9

pub data DbMessage : Type 0 where
  account_lookup_request account_lookup_response : DbMessage
  account_create_request account_create_response : DbMessage
  session_create_request session_create_response : DbMessage
  session_lookup_request session_lookup_response : DbMessage
  session_delete_request session_delete_response : DbMessage
  account_delete_request account_delete_response : DbMessage
  account_set_level_request account_set_level_response : DbMessage
  account_create_with_level_request : DbMessage
  admin_exists_request admin_exists_response : DbMessage

abbrev pub db_code : DbMessage → ℕ
db_code account_lookup_request = 100
db_code account_lookup_response = 101
db_code account_create_request = 102
db_code account_create_response = 103
db_code session_create_request = 104
db_code session_create_response = 105
db_code session_lookup_request = 106
db_code session_lookup_response = 107
db_code session_delete_request = 108
db_code session_delete_response = 109
db_code account_delete_request = 110
db_code account_delete_response = 111
db_code account_set_level_request = 112
db_code account_set_level_response = 113
db_code account_create_with_level_request = 114
db_code admin_exists_request = 115
db_code admin_exists_response = 116

abbrev db_messages : List DbMessage
db_messages =
    account_lookup_request ∷ account_lookup_response ∷ account_create_request
    ∷ account_create_response ∷ session_create_request ∷ session_create_response
    ∷ session_lookup_request ∷ session_lookup_response ∷ session_delete_request
    ∷ session_delete_response ∷ account_delete_request ∷ account_delete_response
    ∷ account_set_level_request ∷ account_set_level_response ∷ account_create_with_level_request
    ∷ admin_exists_request ∷ admin_exists_response ∷ []

db_message_in : List DbMessage → ℕ → Option DbMessage
db_message_in [] code = none
db_message_in (m ∷ ms) code =
    let rest = db_message_in ms code in if code == db_code m then some m else rest

-- The enumerator that a type on the wire is, if it is one.
unfoldable pub db_message? : ℕ → Option DbMessage
unfolding db_message_in
db_message? = db_message_in db_messages

pub db_message?-db_code : (m : DbMessage) → db_message? (db_code m) ≡ some m
unfolding db_message?
db_message?-db_code account_lookup_request = refl
db_message?-db_code account_lookup_response = refl
db_message?-db_code account_create_request = refl
db_message?-db_code account_create_response = refl
db_message?-db_code session_create_request = refl
db_message?-db_code session_create_response = refl
db_message?-db_code session_lookup_request = refl
db_message?-db_code session_lookup_response = refl
db_message?-db_code session_delete_request = refl
db_message?-db_code session_delete_response = refl
db_message?-db_code account_delete_request = refl
db_message?-db_code account_delete_response = refl
db_message?-db_code account_set_level_request = refl
db_message?-db_code account_set_level_response = refl
db_message?-db_code account_create_with_level_request = refl
db_message?-db_code admin_exists_request = refl
db_message?-db_code admin_exists_response = refl

-- DbResult; a reply may hold any other byte.
abbrev pub db_ok : ℕ
db_ok = 0

abbrev pub db_not_found : ℕ
db_not_found = 1

abbrev pub db_conflict : ℕ
db_conflict = 2

abbrev pub db_error : ℕ
db_error = 3
