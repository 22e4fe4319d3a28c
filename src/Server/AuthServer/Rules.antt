-- ===== src/Server/AuthServer/Rules.antt =====
-- The rules of server/authserver/src/main.cpp for names and levels, and the calls that carry them.
use untitled.Base.{ℕ, ◌≤◌, ◌<◌, ◌≡◌, arith, Bool, true, false, ◌||◌, List, length}
use untitled.Base.{◌==◌, All}
use untitled.Net.Protocol.{AuthMessage, PermissionLevel, level_code}
use untitled.Server.DbClient.{SessionLookup, Request}
use untitled.Server.AuthServer.{Sodium, Config, valid_username, Command, AdminRequest}
use untitled.Server.AuthServer.Handlers.{
  execute, session_found, on_admin, dispatch, on_message, Service, calls,
}
use untitled.Server.AuthServer.Calls.{
  Only, at_end, at_call, Only-calls, Only-if, on_login-Only, on_register-Only, execute-Only,
  admin-quiet, on_message_cases,
}

-- What the rules say of the names and levels in a call: a new account has a valid name, a level is
-- at most an admin's, and no command has an empty target.
abbrev pub IsProper : Request → Type 0
IsProper (Request.create_account u _) = valid_username u ≡ true
IsProper (Request.create_account_with_level u _ l) =
    (valid_username u ≡ true) × (l ≤ level_code PermissionLevel.admin)
IsProper (Request.delete_account u) = 0 < length u
IsProper (Request.set_permission_level u l) =
    (0 < length u) × (l ≤ level_code PermissionLevel.admin)
IsProper _ = Unit {0}

session_found-IsProper :
    (sodium : Sodium) (command : Command) (a : AdminRequest) (ok : Bool) (session : SessionLookup)
    → 0 < length a.target
    → Only IsProper (session_found sodium command a ok session)
unfolding session_found
session_found-IsProper sodium command a ok session h =
    search (Only-if, admin-quiet, run_proper) depth 12
  where
    run_proper : Only IsProper (execute sodium command a)
    run_proper =
        execute-Only sodium IsProper command a (λ u p l v low. (v, low)) h (λ l low. (h, low))

target_nonempty : (b : Bool) (n : ℕ) → b || (n == 0) ≡ false → 0 < n
target_nonempty b n e = ground (arith, e)

on_admin-IsProper :
    (sodium : Sodium) (command : Command) (bytes : List ℕ)
    → Only IsProper (on_admin sodium command bytes)
unfolding on_admin
on_admin-IsProper sodium command bytes =
    search (Only-if, at_call, admin-quiet, session_found-IsProper, target_nonempty, any_token) depth
      12
  where
    any_token : (t : List ℕ) → IsProper (Request.lookup_session t)
    any_token t = tt

dispatch-IsProper :
    (sodium : Sodium) (config : Config) (m : AuthMessage) (bytes : List ℕ)
    → Only IsProper (dispatch sodium config m bytes)
unfolding dispatch
dispatch-IsProper sodium config AuthMessage.login_request bytes =
    on_login-Only sodium config IsProper bytes (λ u. tt) (λ a t ttl. tt)
dispatch-IsProper sodium config AuthMessage.register_request bytes =
    on_register-Only sodium IsProper bytes (λ u h v. v)
dispatch-IsProper sodium config AuthMessage.admin_account_create_request bytes =
    on_admin-IsProper sodium Command.account_create bytes
dispatch-IsProper sodium config AuthMessage.admin_account_delete_request bytes =
    on_admin-IsProper sodium Command.account_delete bytes
dispatch-IsProper sodium config AuthMessage.admin_set_level_request bytes =
    on_admin-IsProper sodium Command.set_level bytes
dispatch-IsProper sodium config _ bytes = at_end

module _ {S : Type 0} (sodium : Sodium) (config : Config) (ask : Service S) (type : ℕ)
    (bytes : List ℕ) (s : S) where
  -- Whatever a client sends and whatever the database answers, every call that is made keeps to
  -- the rules for names and levels.
  pub calls-IsProper :
      All (λ (c : Request × S). IsProper c.0) (calls ask (on_message sodium config type bytes) s)
  calls-IsProper = Only-calls IsProper ask _ s (
      on_message_cases (Only IsProper) sodium config type bytes at_end
        λ m. dispatch-IsProper sodium config m bytes)
