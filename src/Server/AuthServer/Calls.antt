-- ===== src/Server/AuthServer/Calls.antt =====
-- What each handler of server/authserver/src/main.cpp may call, whatever the answers are.
use untitled.Base.{ℕ, ◌≤◌, ◌≡◌, refl, arith, Bool, true, false, not, ◌||◌, List}
use untitled.Base.{Option, none, some, ltb, if◌then◌else◌, All, not-ltb→le}
use untitled.Net.Protocol.{AuthMessage, AuthResult, auth_message?}
use untitled.Server.DbClient.{Created, Request, Answer}
use untitled.Server.AuthServer.{
  Sodium, Config, valid_username, Prog, quiet, reply, call, send_login_response,
  send_admin_response, send_register_response, Command, AdminRequest, with_hash,
}
use untitled.Server.AuthServer.Handlers.{
  session_created, account_found, on_login, account_created, account_changed, on_register, execute,
  dispatch, on_message, Service, calls,
}

-- A property of every call that a program may make, whatever the answers are.
pub data Only (P : Request → Type 0) : Prog → Type 0 where
  at_end : Only P quiet
  at_reply : (type : AuthMessage) (payload : List ℕ) → Only P (reply type payload)
  at_call :
      (q : Request) (k : Bool → Answer q → Prog)
      → P q
      → ((ok : Bool) (a : Answer q) → Only P (k ok a))
      → Only P (call q k)

pub Only-calls :
    {S : Type 0} (P : Request → Type 0) (ask : Service S) (p : Prog) (s : S)
    → Only P p
    → All (λ (c : Request × S). P c.0) (calls ask p s)
unfolding calls
Only-calls P ask quiet s at_end = tt
Only-calls P ask (reply _ _) s (at_reply _ _) = tt
Only-calls P ask (call q k) s (at_call _ _ o os) = (o, Only-calls P ask (k _ _) _ (os _ _))

pub Only-if :
    (P : Request → Type 0) (b : Bool) (x y : Prog)
    → (b ≡ true → Only P x)
    → (b ≡ false → Only P y)
    → Only P (if b then x else y)
Only-if P true x y f g = f refl
Only-if P false x y f g = g refl

pub Only-hashed :
    (P : Request → Type 0) (o : Option (List ℕ)) (x : Prog) (f : List ℕ → Prog)
    → Only P x
    → ((h : List ℕ) → Only P (f h))
    → Only P (with_hash o x f)
unfolding with_hash
Only-hashed P none x f p q = p
Only-hashed P (some h) x f p q = q h

pub login-quiet :
    (P : Request → Type 0) (r : AuthResult) (t h : List ℕ) (p a l : ℕ)
    → Only P (send_login_response r t h p a l)
unfolding send_login_response
login-quiet P r t h p a l = at_reply _ _

pub on_login-Only :
    (sodium : Sodium) (config : Config) (P : Request → Type 0) (bytes : List ℕ)
    → ((u : List ℕ) → P (Request.lookup_account u))
    → ((a : ℕ) (t : List ℕ) (ttl : ℕ) → P (Request.create_session a t ttl))
    → Only P (on_login sodium config bytes)
unfolding on_login account_found session_created
on_login-Only sodium config P bytes look start =
    search (Only-if, at_call, login-quiet, look, start) depth 12

pub created-Only :
    (P : Request → Type 0) (respond : AuthResult → Prog) (ok : Bool) (a : Created)
    → ((r : AuthResult) → Only P (respond r))
    → Only P (account_created respond ok a)
unfolding account_created
created-Only P respond ok a f = search (Only-if, f)

pub changed-Only :
    (P : Request → Type 0) (respond : AuthResult → Prog) (ok : Bool) (a : ℕ)
    → ((r : AuthResult) → Only P (respond r))
    → Only P (account_changed respond ok a)
unfolding account_changed
changed-Only P respond ok a f = search (Only-if, f)

pub admin-quiet :
    (P : Request → Type 0) (m : AuthMessage) (r : AuthResult) → Only P (send_admin_response m r)
unfolding send_admin_response
admin-quiet P m r = at_reply _ _

pub register-quiet : (P : Request → Type 0) (r : AuthResult) → Only P (send_register_response r)
unfolding send_register_response
register-quiet P r = at_reply _ _

-- What a test that failed says of its parts.
passes_first : (v b : Bool) → not v || b ≡ false → v ≡ true
passes_first v b e = ground (arith, e)

passes_third : (v b : Bool) (n m : ℕ) → not v || b || ltb n m ≡ false → m ≤ n
passes_third v b n m e = ground (arith, e)

passes_second : (v b c : Bool) → not v || b || c ≡ false → v ≡ true
passes_second v b c e = ground (arith, e)

pub on_register-Only :
    (sodium : Sodium) (P : Request → Type 0) (bytes : List ℕ)
    → ((u h : List ℕ) → valid_username u ≡ true → P (Request.create_account u h))
    → Only P (on_register sodium bytes)
unfolding on_register
on_register-Only sodium P bytes f =
    search (Only-if, Only-hashed, at_call, created-Only, register-quiet, f, passes_first) depth 16

pub execute-Only :
    (sodium : Sodium) (P : Request → Type 0) (command : Command) (a : AdminRequest)
    → ((u h : List ℕ) (l : ℕ)
        → valid_username u ≡ true
        → l ≤ 2
        → P (Request.create_account_with_level u h l))
    → (P (Request.delete_account a.target))
    → ((l : ℕ) → l ≤ 2 → P (Request.set_permission_level a.target l))
    → Only P (execute sodium command a)
unfolding execute
execute-Only sodium P Command.account_create a f g h =
    search
      (
        Only-if, Only-hashed, at_call, created-Only, admin-quiet, f, passes_first, passes_second,
        passes_third,
      )
      depth 16
execute-Only sodium P Command.account_delete a f g h = search (at_call, changed-Only, admin-quiet)
execute-Only sodium P Command.set_level a f g h =
    search (Only-if, at_call, changed-Only, admin-quiet, h, not-ltb→le) depth 12

-- Whatever the type on the wire is, the message is ignored or handled by one case of the switch.
pub on_message_cases :
    (Q : Prog → Type 0) (sodium : Sodium) (config : Config) (type : ℕ) (bytes : List ℕ)
    → Q quiet
    → ((m : AuthMessage) → Q (dispatch sodium config m bytes))
    → Q (on_message sodium config type bytes)
unfolding on_message
on_message_cases Q sodium config type bytes none' some' = by_cases (auth_message? type)
  where
    by_cases :
        (o : Option AuthMessage)
        → Q (elim o [ none ↦ quiet | some m ↦ dispatch sodium config m bytes ])
    by_cases none = none'
    by_cases (some m) = some' m
