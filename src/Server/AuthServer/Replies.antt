-- ===== src/Server/AuthServer/Replies.antt =====
-- Which reply the handlers of server/authserver/src/main.cpp end with.
use untitled.Base.{ℕ, ◌≡◌, refl, subst, Bool, true, false, List}
use untitled.Base.{Option, none, some, if◌then◌else◌}
use untitled.Net.Protocol.{AuthMessage, AuthResult, auth_code, auth_message?-auth_code}
use untitled.Server.DbClient.{Created, Request, Answer}
use untitled.Server.AuthServer.{
  Sodium, Config, Prog, quiet, reply, call, send_login_response, send_admin_response,
  send_register_response, Command, command_response, AdminRequest, with_hash,
}
use untitled.Server.AuthServer.Handlers.{
  session_created, account_found, on_login, account_created, account_changed, on_register, execute,
  session_found, on_admin, dispatch, on_message, Service, run,
}

-- A program that ends with a reply of one type, whatever the answers are.
data Responds (type : AuthMessage) : Prog → Type 0 where
  at_reply : (payload : List ℕ) → Responds type (reply type payload)
  at_call :
      (q : Request) (k : Bool → Answer q → Prog)
      → ((ok : Bool) (a : Answer q) → Responds type (k ok a))
      → Responds type (call q k)

module _ (type : AuthMessage) where
  run-Responds :
      {S : Type 0} (ask : Service S) (p : Prog) (s : S)
      → Responds type p
      → (payload : List ℕ) × ((run ask p s).0 ≡ some (type, payload))
  unfolding run
  run-Responds ask quiet s r = elim r [ ]
  run-Responds ask (reply _ _) s (at_reply payload) = (payload, refl)
  run-Responds ask (call q k) s (at_call _ _ f) = run-Responds ask (k _ _) _ (f _ _)

  Responds-if :
      (b : Bool) (x y : Prog)
      → Responds type x
      → Responds type y
      → Responds type (if b then x else y)
  Responds-if true x y f g = f
  Responds-if false x y f g = g

  Responds-with_hash :
      (o : Option (List ℕ)) (x : Prog) (k : List ℕ → Prog)
      → Responds type x
      → ((h : List ℕ) → Responds type (k h))
      → Responds type (with_hash o x k)
  unfolding with_hash
  Responds-with_hash none x k f g = f
  Responds-with_hash (some h) x k f g = g h

  admin-Responds : (r : AuthResult) → Responds type (send_admin_response type r)
  unfolding send_admin_response
  admin-Responds r = at_reply _

  created-Responds :
      (respond : AuthResult → Prog) (ok : Bool) (a : Created)
      → ((r : AuthResult) → Responds type (respond r))
      → Responds type (account_created respond ok a)
  unfolding account_created
  created-Responds respond ok a f = search (Responds-if, f)

  changed-Responds :
      (respond : AuthResult → Prog) (ok : Bool) (a : ℕ)
      → ((r : AuthResult) → Responds type (respond r))
      → Responds type (account_changed respond ok a)
  unfolding account_changed
  changed-Responds respond ok a f = search (Responds-if, f)

ruleset reply_rules =
    (Responds-if, Responds-with_hash, admin-Responds, created-Responds, changed-Responds, at_call)

login-Responds :
    (r : AuthResult) (t h : List ℕ) (p a l : ℕ)
    → Responds AuthMessage.login_response (send_login_response r t h p a l)
unfolding send_login_response
login-Responds r t h p a l = at_reply _

register-Responds :
    (r : AuthResult) → Responds AuthMessage.register_response (send_register_response r)
unfolding send_register_response
register-Responds r = at_reply _

on_login-Responds :
    (sodium : Sodium) (config : Config) (bytes : List ℕ)
    → Responds AuthMessage.login_response (on_login sodium config bytes)
unfolding on_login account_found session_created
on_login-Responds sodium config bytes = search (reply_rules, login-Responds) depth 16

on_register-Responds :
    (sodium : Sodium) (bytes : List ℕ)
    → Responds AuthMessage.register_response (on_register sodium bytes)
unfolding on_register
on_register-Responds sodium bytes = search (reply_rules, register-Responds) depth 16

execute-Responds :
    (sodium : Sodium) (command : Command) (a : AdminRequest)
    → Responds (command_response command) (execute sodium command a)
unfolding execute
execute-Responds sodium Command.account_create a = search reply_rules depth 16
execute-Responds sodium Command.account_delete a = search reply_rules depth 16
execute-Responds sodium Command.set_level a = search reply_rules depth 16

on_admin-Responds :
    (sodium : Sodium) (command : Command) (bytes : List ℕ)
    → Responds (command_response command) (on_admin sodium command bytes)
unfolding on_admin session_found
on_admin-Responds sodium command bytes = search (reply_rules, execute-Responds) depth 16

-- The response that belongs to a request.
abbrev pub response : AuthMessage → Option AuthMessage
response AuthMessage.login_request = some AuthMessage.login_response
response AuthMessage.register_request = some AuthMessage.register_response
response AuthMessage.admin_account_create_request = some AuthMessage.admin_account_create_response
response AuthMessage.admin_account_delete_request = some AuthMessage.admin_account_delete_response
response AuthMessage.admin_set_level_request = some AuthMessage.admin_set_level_response
response _ = none

-- Some types have no response, and are none of these.
abbrev RespondsTo : Option AuthMessage → Prog → Type 0
RespondsTo none p = Unit {0}
RespondsTo (some type) p = Responds type p

dispatch-RespondsTo :
    (sodium : Sodium) (config : Config) (m : AuthMessage) (bytes : List ℕ)
    → RespondsTo (response m) (dispatch sodium config m bytes)
unfolding dispatch
dispatch-RespondsTo sodium config AuthMessage.login_request bytes =
    on_login-Responds sodium config bytes
dispatch-RespondsTo sodium config AuthMessage.register_request bytes =
    on_register-Responds sodium bytes
dispatch-RespondsTo sodium config AuthMessage.admin_account_create_request bytes =
    on_admin-Responds sodium Command.account_create bytes
dispatch-RespondsTo sodium config AuthMessage.admin_account_delete_request bytes =
    on_admin-Responds sodium Command.account_delete bytes
dispatch-RespondsTo sodium config AuthMessage.admin_set_level_request bytes =
    on_admin-Responds sodium Command.set_level bytes
dispatch-RespondsTo sodium config AuthMessage.login_response bytes = tt
dispatch-RespondsTo sodium config AuthMessage.register_response bytes = tt
dispatch-RespondsTo sodium config AuthMessage.admin_account_create_response bytes = tt
dispatch-RespondsTo sodium config AuthMessage.admin_account_delete_response bytes = tt
dispatch-RespondsTo sodium config AuthMessage.admin_set_level_response bytes = tt

on_message-auth_code :
    (sodium : Sodium) (config : Config) (m : AuthMessage) (bytes : List ℕ)
    → on_message sodium config (auth_code m) bytes ≡ dispatch sodium config m bytes
unfolding on_message
on_message-auth_code sodium config m bytes = rw (auth_message?-auth_code m, on_message) refl

-- Every request of a client, well-formed or not, is answered once the database has answered or
-- failed, and by the response that belongs to it.
pub run-on_message :
    {S : Type 0} (sodium : Sodium) (config : Config) (ask : Service S) (m type : AuthMessage)
    (bytes : List ℕ) (s : S)
    → response m ≡ some type
    → (payload : List ℕ) × ((run ask (on_message sodium config (auth_code m) bytes) s).0
        ≡ some (type, payload))
run-on_message sodium config ask m type bytes s e =
    rw (on_message-auth_code sodium config m bytes) (
      run-Responds type ask _ s (
        subst (λ (o : Option AuthMessage). RespondsTo o (dispatch sodium config m bytes)) e
          (dispatch-RespondsTo sodium config m bytes)))
