-- ===== src/Server/AuthServer/Authority.antt =====
-- Which calls of server/authserver/src/main.cpp need an admin's session.
use untitled.Base.{subst, ℕ, ◌≤◌, ◌≡◌, refl, Bool, true, false, ◌||◌, List, [], ◌∷◌, length}
use untitled.Base.{◌==◌, ltb, if◌then◌else◌, All, Bool-cases, inl, inr, not-ltb→le}
use untitled.Net.Bytes.Reader
use untitled.Net.Bytes.Reader.{reader, ◌>>=◌, pure}
use untitled.Net.Protocol.{AuthMessage, AuthResult, PermissionLevel, level_code}
use untitled.Server.DbClient.{SessionLookup, Request}
use untitled.Server.AuthServer.{
  Sodium, Config, Prog, call, send_admin_response, Command, command_response, AdminRequest,
  read_admin,
}
use untitled.Server.AuthServer.Handlers.{
  session_found, on_admin, dispatch, on_message, Service, calls,
}
use untitled.Server.AuthServer.Calls.{
  Only, Only-calls, on_login-Only, on_register-Only, on_message_cases,
}

-- The calls that only an admin may cause.
abbrev pub privileged : Request → Bool
privileged (Request.delete_account _) = true
privileged (Request.create_account_with_level _ _ _) = true
privileged (Request.set_permission_level _ _) = true
privileged _ = false

-- The answer to a session lookup that authorises: it worked, and found an admin.
pub record IsAdmin (answer : Bool × SessionLookup) : Type 0 where
  pub worked : answer.0 ≡ true
  pub found : answer.1.found ≡ true
  pub level : level_code PermissionLevel.admin ≤ answer.1.permission_level

All-of : {A : Type 0} {P : A → Type 0} (xs : List A) → ((x : A) → P x) → All P xs
All-of [] f = tt
All-of (x ∷ xs) f = (f x, All-of xs f)

-- What follows a session lookup calls nothing unless the answer authorises it.
session_found-calls :
    {S : Type 0} (ask : Service S) (sodium : Sodium) (command : Command) (a : AdminRequest)
    (ok : Bool) (session : SessionLookup) (s : S)
    → All
        (λ (_ : Request × S). IsAdmin (ok, session))
        (calls ask (session_found sodium command a ok session) s)
unfolding session_found calls send_admin_response
session_found-calls ask sodium command a ok session s = elim (Bool-cases ok) [
  | inr off ↦ rw off tt
  | inl on ↦ elim (Bool-cases session.found) [
    | inr missing ↦ rw (on, missing) tt
    | inl found ↦ elim (Bool-cases (ltb session.permission_level 2)) [
      | inl low ↦ rw (on, found, low) tt
      | inr high ↦ All-of _ (λ _. record {
        worked = on;
        found = found;
        level = not-ltb→le session.permission_level 2 high;
      })
    ]
  ]
]

All-map :
    {A : Type 0} {P Q : A → Type 0} (xs : List A) → All P xs → ((x : A) → P x → Q x) → All Q xs
All-map [] p f = tt
All-map (x ∷ xs) (p, ps) f = (f x p, All-map xs ps f)

module _ {S : Type 0} (sodium : Sodium) (config : Config) (ask : Service S) (bytes : List ℕ)
    (s : S) where
  -- The lookup of the token that the message begins with.
  abbrev pub token_lookup : Request
  token_lookup = Request.lookup_session (Reader.string (reader bytes)).0

  -- That lookup is the first call of the program, and its answer is an admin's session.
  pub record IsAuthorised (p : Prog) : Type 0 where
    pub rest : List (Request × S)
    pub looked_up : calls ask p s ≡ (token_lookup, s) ∷ rest
    pub admin : IsAdmin (ask token_lookup s).0

  -- Every privileged call of the program is authorised.
  abbrev pub AllAuthorised : Prog → Type 0
  AllAuthorised p =
      All (λ (c : Request × S). privileged c.0 ≡ true → IsAuthorised p) (calls ask p s)

  unprivileged : (p : Prog) → Only (λ q. privileged q ≡ false) p → AllAuthorised p
  unprivileged p o =
      All-map _ (Only-calls (λ q. privileged q ≡ false) ask p s o) (λ c e e'. absurd (cc (e, e')))

  AllAuthorised-if :
      (b : Bool) (x y : Prog)
      → AllAuthorised x
      → AllAuthorised y
      → AllAuthorised (if b then x else y)
  AllAuthorised-if true x y f g = f
  AllAuthorised-if false x y f g = g

  AllAuthorised-respond :
      (type : AuthMessage) (r : AuthResult) → AllAuthorised (send_admin_response type r)
  unfolding send_admin_response calls
  AllAuthorised-respond type r = tt

  AllAuthorised-session :
      (command : Command) (a : AdminRequest)
      → a.token ≡ (Reader.string (reader bytes)).0
      → AllAuthorised (call (Request.lookup_session a.token) (session_found sodium command a))
  unfolding calls
  AllAuthorised-session command a same =
      let ((ok, session), s') = ask (Request.lookup_session a.token) s in
      (
        λ e. absurd (cc e),
        All-map _ (session_found-calls ask sodium command a ok session s') (λ c admin _. record {
          rest = calls ask (session_found sodium command a ok session) s';
          looked_up = rw same refl;
          admin = subst (λ (t : List ℕ). IsAdmin (ask (Request.lookup_session t) s).0) same admin;
        }),
      )

  token-read_admin :
      (command : Command)
      → (read_admin command (reader bytes)).0.token ≡ (Reader.string (reader bytes)).0
  unfolding read_admin ◌>>=◌ pure
  token-read_admin Command.account_create = refl
  token-read_admin Command.account_delete = refl
  token-read_admin Command.set_level = refl

  on_admin-AllAuthorised : (command : Command) → AllAuthorised (on_admin sodium command bytes)
  unfolding on_admin
  on_admin-AllAuthorised command =
      let (a, r) = read_admin command (reader bytes) in
      AllAuthorised-if (r.failed || (length a.target == 0)) _ _
        (AllAuthorised-respond (command_response command) AuthResult.malformed_request)
        (AllAuthorised-session command a (token-read_admin command))

  dispatch-AllAuthorised : (m : AuthMessage) → AllAuthorised (dispatch sodium config m bytes)
  unfolding dispatch calls
  dispatch-AllAuthorised AuthMessage.login_request =
      unprivileged _ (on_login-Only sodium config _ bytes (λ u. refl) (λ a t ttl. refl))
  dispatch-AllAuthorised AuthMessage.register_request =
      unprivileged _ (on_register-Only sodium _ bytes (λ u h v. refl))
  dispatch-AllAuthorised AuthMessage.admin_account_create_request =
      on_admin-AllAuthorised Command.account_create
  dispatch-AllAuthorised AuthMessage.admin_account_delete_request =
      on_admin-AllAuthorised Command.account_delete
  dispatch-AllAuthorised AuthMessage.admin_set_level_request =
      on_admin-AllAuthorised Command.set_level
  dispatch-AllAuthorised _ = tt

  -- Whatever a client sends, a call that creates, deletes or promotes an account on a command is
  -- made only where the first call was the lookup of the token that the message begins with, and
  -- the database answered it with an admin's session.
  pub calls-IsAdmin :
      (type : ℕ)
      → All
          (λ (c : Request × S).
            privileged c.0 ≡ true → IsAuthorised (on_message sodium config type bytes))
          (calls ask (on_message sodium config type bytes) s)
  unfolding calls
  calls-IsAdmin type =
      on_message_cases AllAuthorised sodium config type bytes tt dispatch-AllAuthorised
