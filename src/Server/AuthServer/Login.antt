-- ===== src/Server/AuthServer/Login.antt =====
-- Replies to a login and to a registration (server/authserver/src/main.cpp), and what was checked.
use untitled.Base.{
  ℕ, ◌≡◌, ◌<◌, ◌≤◌, le→not-ltb, refl, sym, ap, ◌∙◌, subst, arith, Bool, true, false, not, ◌||◌,
  List, [], ◌∷◌, length,
}
use untitled.Base.{Option, none, some, ◌==◌, Bool-cases, inl, inr, ◌%◌, ltb}
use untitled.Net.Bytes.Writer
use untitled.Net.Bytes.Writer.{◌>>◌}
use untitled.Net.Bytes.Reader.{reader}
use untitled.Net.Protocol.{AuthMessage, AuthResult, result_code, protocol_version, db_error}
use untitled.Server.DbClient.{AccountLookup, Created, Request}
use untitled.Server.AuthServer.{
  Sodium, Config, Prog, call, send_login_response, send_register_response, write_login_response,
  Credentials, read_credentials, valid_username, min_password_length, with_hash,
}
use untitled.Server.AuthServer.Handlers.{
  account_found, on_login, account_created, on_register, Service, run,
}

-- The result that a reply carries in its first byte.
abbrev pub outcome : Option (AuthMessage × List ℕ) → Option ℕ
outcome none = none
outcome (some (_, [])) = none
outcome (some (_, b ∷ _)) = some b

module _ {S : Type 0} (sodium : Sodium) (config : Config) (ask : Service S) where
  outcome-send_login_response :
      (r : AuthResult) (t h : List ℕ) (p a l : ℕ) (s : S)
      → outcome (run ask (send_login_response r t h p a l) s).0 ≡ some (result_code r % 256)
  unfolding send_login_response write_login_response run Writer.u8 Writer.string Writer.u16
      Writer.u64 Writer.raw Writer.little ◌>>◌
  outcome-send_login_response r t h p a l s = refl

  -- What a successful login has checked, with the account that the lookup found.
  pub record LoggedIn (c : Credentials) (s : S) : Type 0 where
    pub version : c.version ≡ protocol_version
    pub found : (ask (Request.lookup_account c.username) s).0.1.found ≡ true
    pub password :
        sodium.pwhash_verify
          (ask (Request.lookup_account c.username) s).0.1.password_hash
          c.password
        ≡ true

  -- A reply of another result is no success.
  refused :
      {B : Type 0} (r : AuthResult) (p : Prog) (s : S)
      → p ≡ send_login_response r [] [] 0 0 0
      → outcome (run ask p s).0 ≡ some 0
      → 0 < result_code r % 256
      → B
  refused r p s e good bad = absurd (
      ground (
        arith,
        sym (ap (λ q. outcome (run ask q s).0) e ∙ outcome-send_login_response r [] [] 0 0 0 s)
            ∙ good,
      ))

  account_found-verified :
      (password : List ℕ) (ok : Bool) (account : AccountLookup) (s : S)
      → outcome (run ask (account_found sodium config password ok account) s).0 ≡ some 0
      → (account.found ≡ true) × (sodium.pwhash_verify account.password_hash password ≡ true)
  unfolding account_found
  account_found-verified password ok account s e = elim (Bool-cases ok) [
    | inr off ↦ refused AuthResult.server_error _ s (rw off refl) e (omega arith)
    | inl on ↦
        elim (Bool-cases
          (not account.found || not (sodium.pwhash_verify account.password_hash password))) [
            | inl bad ↦
                refused AuthResult.invalid_credentials _ s (rw (on, bad) refl) e (omega arith)
            | inr good ↦ (ground (arith, good), ground (arith, good))
          ]
  ]

  -- A login succeeds only for a client of this protocol version, on an account that the database
  -- has found, with a password that its hash verifies.
  pub on_login-LoggedIn :
      (bytes : List ℕ) (s : S)
      → outcome (run ask (on_login sodium config bytes) s).0 ≡ some (result_code AuthResult.success)
      → LoggedIn (read_credentials (reader bytes)).0 s
  unfolding on_login run
  on_login-LoggedIn bytes s e = elim (Bool-cases (read_credentials (reader bytes)).1.failed) [
    | inl short ↦
        refused AuthResult.malformed_request (on_login sodium config bytes) s (rw short refl) e
          (omega arith)
    | inr whole ↦
        let c = (read_credentials (reader bytes)).0 in
        elim (Bool-cases (c.version == protocol_version)) [
          | inr other ↦
              refused AuthResult.version_mismatch (on_login sodium config bytes) s
                (rw (whole, other) refl) e (omega arith)
          | inl same ↦
              let called : on_login sodium config bytes
                  ≡ call (Request.lookup_account c.username)
                      (account_found sodium config c.password) =
                rw (whole, same) refl in
              let ((ok, account), s') = ask (Request.lookup_account c.username) s in
              let (found, verified) =
                account_found-verified c.password ok account s'
                  (subst (λ p. outcome (run ask p s).0 ≡ some 0) called e) in
              record { version = ground (arith, same); found = found; password = verified }
        ]
  ]

  -- A lookup whose answer does not let the password in: no account, or another password.
  abbrev pub Rejects : Credentials → S → Type 0
  Rejects c s =
      let ((ok, account), _) = ask (Request.lookup_account c.username) s in
      (ok ≡ true)
      × (not account.found || not (sodium.pwhash_verify account.password_hash c.password) ≡ true)

  account_found-rejected :
      (password : List ℕ) (ok : Bool) (account : AccountLookup)
      → ok ≡ true
      → not account.found || not (sodium.pwhash_verify account.password_hash password) ≡ true
      → account_found sodium config password ok account
        ≡ send_login_response AuthResult.invalid_credentials [] [] 0 0 0
  unfolding account_found
  account_found-rejected password ok account on bad = rw (on, bad) refl

  run-send_login_response :
      (r : AuthResult) (t h : List ℕ) (p a l : ℕ) (s : S)
      → run ask (send_login_response r t h p a l) s
        ≡ (some (AuthMessage.login_response, write_login_response r t h p a l []), s)
  unfolding send_login_response run
  run-send_login_response r t h p a l s = refl

  run-rejected :
      (bytes : List ℕ) (s : S)
      → (read_credentials (reader bytes)).1.failed ≡ false
      → ((read_credentials (reader bytes)).0.version == protocol_version) ≡ true
      → Rejects (read_credentials (reader bytes)).0 s
      → (run ask (on_login sodium config bytes) s).0
        ≡ some (
          AuthMessage.login_response,
          write_login_response AuthResult.invalid_credentials [] [] 0 0 0 [],
        )
  unfolding on_login run
  run-rejected bytes s whole version (on, bad) =
      let c = (read_credentials (reader bytes)).0 in
      let called : on_login sodium config bytes
          ≡ call (Request.lookup_account c.username) (account_found sodium config c.password) =
        rw (whole, version) refl in
      let ((ok, account), s') = ask (Request.lookup_account c.username) s in
      ap (λ p. (run ask p s).0) called
      ∙ ap (λ p. (run ask p s').0) (account_found-rejected c.password ok account on bad)
      ∙ ap (λ t. t.0) (run-send_login_response AuthResult.invalid_credentials [] [] 0 0 0 s')

run_early :
    {S : Type 0} (sodium : Sodium) (config : Config) (ask ask' : Service S) (p : Prog) (s : S)
    (r : AuthResult)
    → p ≡ send_login_response r [] [] 0 0 0
    → (run ask p s).0 ≡ (run ask' p s).0
run_early sodium config ask ask' p s r e = rw e (
    ap (λ t. t.0) (run-send_login_response sodium config ask r [] [] 0 0 0 s)
    ∙ sym (ap (λ t. t.0) (run-send_login_response sodium config ask' r [] [] 0 0 0 s)))

-- Of two databases that both let a login down, one for want of the account and one for its
-- password, the replies are the same byte for byte: a reply does not tell which names exist.
pub on_login_same_reply :
    {S : Type 0} (sodium : Sodium) (config : Config) (ask ask' : Service S) (bytes : List ℕ) (s : S)
    → Rejects sodium config ask (read_credentials (reader bytes)).0 s
    → Rejects sodium config ask' (read_credentials (reader bytes)).0 s
    → (run ask (on_login sodium config bytes) s).0 ≡ (run ask' (on_login sodium config bytes) s).0
unfolding on_login
on_login_same_reply sodium config ask ask' bytes s v v' =
    let (c, r) = read_credentials (reader bytes) in
    let p = on_login sodium config bytes in
    elim (Bool-cases r.failed) [
      | inl short ↦
          run_early sodium config ask ask' p s AuthResult.malformed_request (rw short refl)
      | inr whole ↦ elim (Bool-cases (c.version == protocol_version)) [
        | inl same ↦
            run-rejected sodium config ask bytes s whole same v
            ∙ sym (run-rejected sodium config ask' bytes s whole same v')
        | inr other ↦
            run_early sodium config ask ask' p s AuthResult.version_mismatch
              (rw (whole, other) refl)
      ]
    ]

account_created_error :
    {S : Type 0} (ask : Service S) (ok : Bool) (answer : Created) (s : S)
    → ok ≡ true
    → answer.result ≡ db_error
    → outcome (run ask (account_created send_register_response ok answer) s).0 ≡ some 0
unfolding account_created run send_register_response Writer.u8 Writer.raw
account_created_error ask ok answer s on bad = rw (on, bad) refl

-- A well-formed registration reports a success when the call worked and the result is that the
-- database failed.
pub on_register_error :
    {S : Type 0} (sodium : Sodium) (ask : Service S) (bytes hash : List ℕ) (s : S)
    → let (c, r) = read_credentials (reader bytes) in
      let ((ok, answer), _) = ask (Request.create_account c.username hash) s in
      r.failed ≡ false
      → c.version ≡ protocol_version
      → valid_username c.username ≡ true
      → min_password_length ≤ length c.password
      → sodium.pwhash c.password ≡ some hash
      → ok ≡ true
      → answer.result ≡ db_error
      → outcome (run ask (on_register sodium bytes) s).0 ≡ some (result_code AuthResult.success)
unfolding on_register run with_hash
on_register_error sodium ask bytes hash s whole version name long hashed on bad =
    let (c, r) = read_credentials (reader bytes) in
    let enough : ltb (length c.password) min_password_length ≡ false =
      le→not-ltb (length c.password) min_password_length long in
    let called : on_register sodium bytes
        ≡ call (Request.create_account c.username hash) (account_created send_register_response) =
      rw (whole, version, name, enough, hashed) refl in
    ap (λ p. outcome (run ask p s).0) called ∙ account_created_error ask _ _ _ on bad
