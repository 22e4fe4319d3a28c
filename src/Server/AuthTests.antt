-- ===== src/Server/AuthTests.antt =====
-- A small client, and the theorems of the auth server at runs of it.
use untitled.Base.{ℕ, ◌≤◌, ◌≡◌, refl, arith, true, false, List, [], ◌∷◌, ◌++◌, length}
use untitled.Base.{some, All, ◌==◌}
use untitled.Net.Bytes.Writer
use untitled.Net.Bytes.Writer.{◌>>◌}
use untitled.Net.Bytes.Reader
use untitled.Net.Bytes.Reader.{Reader, reader, ◌>>=◌, pure}
use untitled.Net.Protocol.{AuthMessage}
use untitled.Server.DbClient.{Request, failure}
use untitled.Server.DbServer.{open_session}
use untitled.Server.DbServer.Cases.{perform}
use untitled.Server.AuthServer
use untitled.Server.AuthServer.{Sodium, Config, generate_token, Prog, read_credentials}
use untitled.Server.AuthServer.Handlers
use untitled.Server.AuthServer.Handlers.{Service, calls}
use untitled.Server.AuthServer.Authority.{privileged, IsAuthorised, calls-IsAdmin}
use untitled.Server.AuthServer.Rules.{IsProper, calls-IsProper}
use untitled.Server.AuthServer.Replies.{run-on_message}
use untitled.Server.AuthServer.Login.{
  outcome, LoggedIn, Rejects, on_login-LoggedIn, on_login_same_reply, on_register_error,
}
use untitled.Server.Tests.{demo}

-- The auth server against that database. A password is verified by its length.
abbrev sodium : Sodium
sodium = record {
  random_bytes = 171 ∷ 5 ∷ [];
  pwhash = λ p. some p;
  pwhash_verify = λ h p. length p == 6;
}

abbrev config : Config
config = record { world_host = 104 ∷ []; world_port = 7002; session_ttl = 120 }

abbrev service : Service ℕ
service q s = let (a, s') = perform demo q s in ((true, a), s')

-- The command to set the level of "u" to 1, in the session "t".
abbrev set_level_bytes : List ℕ
set_level_bytes = 1 ∷ 0 ∷ 116 ∷ 1 ∷ 0 ∷ 117 ∷ 1 ∷ []

calls-IsAdmin_example :
    All
      (λ (c : Request × ℕ).
        privileged c.0 ≡ true
        → IsAuthorised sodium config service set_level_bytes 0
            (Handlers.on_message sodium config 9 set_level_bytes))
      (calls service (Handlers.on_message sodium config 9 set_level_bytes) 0)
calls-IsAdmin_example = calls-IsAdmin sodium config service set_level_bytes 0 9

calls-IsProper_example :
    All
      (λ (c : Request × ℕ). IsProper c.0)
      (calls service (Handlers.on_message sodium config 9 set_level_bytes) 0)
calls-IsProper_example = calls-IsProper sodium config service 9 set_level_bytes 0

run-on_message_example :
    (payload : List ℕ) × ((Handlers.run service
        (Handlers.on_message sodium config 9 set_level_bytes)
        0).0
      ≡ some (AuthMessage.admin_set_level_response, payload))
run-on_message_example =
    run-on_message sodium config service AuthMessage.admin_set_level_request
      AuthMessage.admin_set_level_response set_level_bytes 0 refl

-- The login of "u" with the password "secret" under version 8, and with "x".
abbrev secret : List ℕ
secret = 115 ∷ 101 ∷ 99 ∷ 114 ∷ 101 ∷ 116 ∷ []

abbrev login_bytes : List ℕ
login_bytes = (8 ∷ 0 ∷ 0 ∷ 0 ∷ 1 ∷ 0 ∷ 117 ∷ 6 ∷ 0 ∷ []) ++ secret

abbrev wrong_bytes : List ℕ
wrong_bytes = 8 ∷ 0 ∷ 0 ∷ 0 ∷ 1 ∷ 0 ∷ 117 ∷ 1 ∷ 0 ∷ 120 ∷ []

login_bytes-read :
    (read_credentials (reader login_bytes)).0
    ≡ record { version = 8; username = 117 ∷ []; password = secret }
unfolding read_credentials Reader.u32 Reader.u16 Reader.string Reader.string_body Reader.take_word
    Reader.take_loop Reader.remaining ◌>>=◌ pure
login_bytes-read = refl

login_succeeds :
    outcome (Handlers.run service (Handlers.on_login sodium config login_bytes) 0).0 ≡ some 0
unfolding Handlers.run Handlers.on_login Handlers.account_found Handlers.session_created
    open_session AuthServer.send_login_response AuthServer.write_login_response ◌>>◌ Writer.u8
    Writer.u64 Writer.u32 Writer.u16 Writer.string Writer.raw Writer.little read_credentials
    Reader.u32 Reader.u16 Reader.string Reader.string_body Reader.take_word Reader.take_loop
    Reader.remaining ◌>>=◌ pure
login_succeeds = refl

on_login-LoggedIn_example :
    LoggedIn sodium config service (read_credentials (reader login_bytes)).0 0
on_login-LoggedIn_example = on_login-LoggedIn sodium config service login_bytes 0 login_succeeds

-- A database that has no account and fails to make one, both of which it reports.
abbrev empty_service : Service ℕ
empty_service q s = ((true, failure q), s)

wrong_password : Rejects sodium config service (read_credentials (reader wrong_bytes)).0 0
unfolding read_credentials Reader.u32 Reader.u16 Reader.string Reader.string_body Reader.take_word
    Reader.take_loop Reader.remaining ◌>>=◌ pure
wrong_password = (refl, refl)

no_account : Rejects sodium config empty_service (read_credentials (reader wrong_bytes)).0 0
no_account = (refl, refl)

on_login_same_reply_example :
    (Handlers.run service (Handlers.on_login sodium config wrong_bytes) 0).0
    ≡ (Handlers.run empty_service (Handlers.on_login sodium config wrong_bytes) 0).0
on_login_same_reply_example =
    on_login_same_reply sodium config service empty_service wrong_bytes 0 wrong_password no_account

-- The registration of "u" with the password "secret".
record CanRegister (bytes : List ℕ) : Type 0 where
  pub whole : (read_credentials (reader bytes)).1.failed ≡ false
  pub version : (read_credentials (reader bytes)).0.version ≡ 8
  pub name : AuthServer.valid_username (read_credentials (reader bytes)).0.username ≡ true
  pub long : 6 ≤ length (read_credentials (reader bytes)).0.password
  pub hashed : sodium.pwhash (read_credentials (reader bytes)).0.password ≡ some secret

can_register : CanRegister login_bytes
unfolding AuthServer.valid_username AuthServer.all_allowed AuthServer.allowed read_credentials
    Reader.u32 Reader.u16 Reader.string Reader.string_body Reader.take_word Reader.take_loop
    Reader.remaining ◌>>=◌ pure
can_register = record {
  whole = refl;
  version = refl;
  name = refl;
  long = omega arith;
  hashed = refl;
}

on_register_error_example :
    outcome (Handlers.run empty_service (Handlers.on_register sodium login_bytes) 0).0 ≡ some 0
on_register_error_example =
    on_register_error sodium empty_service login_bytes secret 0 can_register.whole
      can_register.version can_register.name can_register.long can_register.hashed refl refl
