-- ===== src/Server/AuthServer/Handlers.antt =====
-- The cases of `callbacks.onMessage` of server/authserver/src/main.cpp, and a run of one against a
-- database service.
use untitled.Base.{ℕ, Bool, not, ◌||◌, List, [], ◌∷◌, length}
use untitled.Base.{Option, none, some, ◌==◌, ltb, if◌then◌else◌}
use untitled.Net.Bytes.Reader.{reader}
use untitled.Net.Protocol.{
  AuthMessage, AuthResult, PermissionLevel, auth_message?, level_code, protocol_version, db_ok,
  db_conflict, db_not_found,
}
use untitled.Server.DbClient.{AccountLookup, SessionLookup, Created, Request, Answer}
use untitled.Server.AuthServer.{
  Sodium, Config, generate_token, valid_username, min_password_length, Prog, quiet, reply, call,
  send_login_response, send_admin_response, send_register_response, read_credentials, Command,
  command_response, with_hash, AdminRequest, read_admin,
}

module _ (sodium : Sodium) (config : Config) where
  -- The callback of `createSession`.
  unfoldable pub session_created : AccountLookup → List ℕ → Bool → ℕ → Prog
  session_created account token ok result =
      if not ok || not (result == db_ok)
      then send_login_response AuthResult.server_error [] [] 0 0 0
      else send_login_response AuthResult.success token config.world_host config.world_port
          account.account_id account.permission_level

  -- The callback of `lookupAccount`.
  unfoldable pub account_found : List ℕ → Bool → AccountLookup → Prog
  account_found password ok account =
      let token = generate_token sodium.random_bytes in
      if not ok
      then send_login_response AuthResult.server_error [] [] 0 0 0
      else (if not account.found || not (sodium.pwhash_verify account.password_hash password)
          then send_login_response AuthResult.invalid_credentials [] [] 0 0 0
          else call (Request.create_session account.account_id token config.session_ttl)
              (session_created account token))

  unfoldable pub on_login : List ℕ → Prog
  on_login bytes =
      let (c, r) = read_credentials (reader bytes) in
      if r.failed
      then send_login_response AuthResult.malformed_request [] [] 0 0 0
      else (if not (c.version == protocol_version)
          then send_login_response AuthResult.version_mismatch [] [] 0 0 0
          else call (Request.lookup_account c.username) (account_found c.password))

-- The callback of `createAccount` and of `createAccountWithLevel`, up to how the reply is sent.
unfoldable pub account_created : (AuthResult → Prog) → Bool → Created → Prog
account_created respond ok answer =
    if not ok
    then respond AuthResult.server_error
    else (if answer.result == db_conflict
        then respond AuthResult.account_exists
        else respond AuthResult.success)

-- The callback of `deleteAccount` and of `setPermissionLevel`.
unfoldable pub account_changed : (AuthResult → Prog) → Bool → ℕ → Prog
account_changed respond ok result =
    if not ok
    then respond AuthResult.server_error
    else (if result == db_not_found
        then respond AuthResult.no_such_account
        else respond AuthResult.success)

module _ (sodium : Sodium) where
  unfoldable pub on_register : List ℕ → Prog
  on_register bytes =
      let (c, r) = read_credentials (reader bytes) in
      if r.failed
      then send_register_response AuthResult.malformed_request
      else (if not (c.version == protocol_version)
          then send_register_response AuthResult.version_mismatch
          else (if not (valid_username c.username) || ltb (length c.password) min_password_length
              then send_register_response AuthResult.malformed_request
              else with_hash (sodium.pwhash c.password)
                  (send_register_response AuthResult.server_error)
                  λ hash.
                    call (Request.create_account c.username hash)
                      (account_created send_register_response)))

  -- What an admin's command does.
  unfoldable pub execute : Command → AdminRequest → Prog
  execute Command.account_create a =
      let respond = send_admin_response (command_response Command.account_create) in
      if not (valid_username a.target)
        || ltb (length a.password) min_password_length
        || ltb (level_code PermissionLevel.admin) a.level
      then respond AuthResult.malformed_request
      else with_hash (sodium.pwhash a.password) (respond AuthResult.server_error) λ hash.
        call (Request.create_account_with_level a.target hash a.level) (account_created respond)
  execute Command.account_delete a =
      call (Request.delete_account a.target)
        (account_changed (send_admin_response (command_response Command.account_delete)))
  execute Command.set_level a =
      let respond = send_admin_response (command_response Command.set_level) in
      if ltb (level_code PermissionLevel.admin) a.level
      then respond AuthResult.malformed_request
      else call (Request.set_permission_level a.target a.level) (account_changed respond)

  -- The callback of `lookupSession`.
  unfoldable pub session_found : Command → AdminRequest → Bool → SessionLookup → Prog
  session_found command a ok session =
      let respond = send_admin_response (command_response command) in
      if not ok
      then respond AuthResult.server_error
      else (if not session.found
          then respond AuthResult.session_expired
          else (if ltb session.permission_level (level_code PermissionLevel.admin)
              then respond AuthResult.insufficient_permission
              else execute command a))

  unfoldable pub on_admin : Command → List ℕ → Prog
  on_admin command bytes =
      let (a, r) = read_admin command (reader bytes) in
      if r.failed || (length a.target == 0)
      then send_admin_response (command_response command) AuthResult.malformed_request
      else call (Request.lookup_session a.token) (session_found command a)

-- The switch of `callbacks.onMessage`. The enumerators that are responses fall to the default.
unfoldable pub dispatch : Sodium → Config → AuthMessage → List ℕ → Prog
dispatch sodium config AuthMessage.login_request bytes = on_login sodium config bytes
dispatch sodium config AuthMessage.register_request bytes = on_register sodium bytes
dispatch sodium config AuthMessage.admin_account_create_request bytes =
    on_admin sodium Command.account_create bytes
dispatch sodium config AuthMessage.admin_account_delete_request bytes =
    on_admin sodium Command.account_delete bytes
dispatch sodium config AuthMessage.admin_set_level_request bytes =
    on_admin sodium Command.set_level bytes
dispatch sodium config _ bytes = quiet

unfoldable pub on_message : Sodium → Config → ℕ → List ℕ → Prog
on_message sodium config type bytes = elim (auth_message? type) [
  | none ↦ quiet
  | some m ↦ dispatch sodium config m bytes
]

-- The database as a callback sees it: whether the call worked, and its answer.
abbrev pub Service : Type 0 → Type 0
Service S = (q : Request) → S → (Bool × Answer q) × S

-- The reply, and the state of the service afterwards.
unfoldable pub run : {S : Type 0} → Service S → Prog → S → Option (AuthMessage × List ℕ) × S
run ask quiet s = (none, s)
run ask (reply type payload) s = (some (type, payload), s)
run ask (call q k) s = let ((ok, a), s') = ask q s in run ask (k ok a) s'

-- The calls that are made, in order, each with the state in which it is made.
unfoldable pub calls : {S : Type 0} → Service S → Prog → S → List (Request × S)
calls ask quiet s = []
calls ask (reply type payload) s = []
calls ask (call q k) s = let ((ok, a), s') = ask q s in (q, s) ∷ calls ask (k ok a) s'
