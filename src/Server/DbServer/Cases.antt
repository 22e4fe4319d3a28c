-- ===== src/Server/DbServer/Cases.antt =====
-- What the database service is to do for each call, `perform`, and the nine cases of the switch of
-- server/dbserver/src/main.cpp with what the two ends agree on.
use untitled.Base.{◌==◌, zero, suc, subst, ap, ◌∙◌, Bool, Bool-cases, inl, inr}
use untitled.Base.{ℕ, ◌^◌, ◌<◌, ◌≤◌, ◌≡◌, refl, sym, arith, true, false}
use untitled.Base.{List, [], ◌∷◌, ◌++◌, length, append-nil}
use untitled.Net.Bytes.Writer
use untitled.Net.Bytes.Writer.{Writer, ◌>>◌, max_string_length}
use untitled.Net.Bytes.Reader
use untitled.Net.Bytes.Reader.{Reader, Read, reader, ◌>>=◌, pure}
use untitled.Net.Bytes.Agree.{Agrees, pure-IsSticky}
use untitled.Net.Bytes.Fields.{agree_rules, string-Agrees}
use untitled.Server.DbClient.{
  Request, Answer, request_type, response_type, write_request, write_fields, read_answer,
  read_created, read_result,
}
use untitled.Net.Protocol.{db_error}
use untitled.Server.DbServer.{
  Outcome, Database, read_new_account, read_level_change, read_new_session, create, open_session,
  close_session, answer_with, on_request, done_if, NewSession, write_account, write_session,
  write_exists, write_created, write_result,
}
use untitled.Server.DbServer.Replies.{
  account_of, session_of, changed_of, done_of, created_of, exists_of, IsAccount, IsSession, Holds,
  account-Agrees, session-Agrees, created-Agrees, result-Agrees, exists-Agrees,
}

-- The ranges of the arguments: strings up to the cap, and the C++ integers.
abbrev pub IsRequest : Request → Type 0
IsRequest (Request.lookup_account u) = length u ≤ max_string_length
IsRequest (Request.create_account u h) =
    (length u ≤ max_string_length) × (length h ≤ max_string_length)
IsRequest (Request.delete_account u) = length u ≤ max_string_length
IsRequest (Request.create_account_with_level u h l) =
    (length u ≤ max_string_length) × (length h ≤ max_string_length) × (l < 2 ^ 8)
IsRequest (Request.set_permission_level u l) = (length u ≤ max_string_length) × (l < 2 ^ 8)
IsRequest Request.admin_exists = Unit {0}
IsRequest (Request.create_session a t ttl) =
    (a < 2 ^ 64) × (length t ≤ max_string_length) × (ttl < 2 ^ 32)
IsRequest (Request.lookup_session t) = length t ≤ max_string_length
IsRequest (Request.delete_session t) = length t ≤ max_string_length

module _ {S : Type 0} where
  -- What the database returns keeps to its columns: ids of 64 bits, levels of a byte, and names and
  -- hashes that a string of the protocol can hold.
  pub record IsDatabase (db : Database S) : Type 0 where
    pub accounts : (u : List ℕ) (s : S) → Holds IsAccount (db.find_account u s).0
    pub sessions : (t : List ℕ) (s : S) → Holds IsSession (db.lookup_session t s).0
    pub ids : (u h : List ℕ) (s : S) → Holds (λ n. n < 2 ^ 64) (db.create_account u h s).0

  -- The level of an account that was made is set behind it, unless it is 0.
  abbrev pub levelled : Database S → List ℕ → ℕ → Outcome ℕ → S → S
  levelled db u l Outcome.failed s = s
  levelled db u l Outcome.absent s = s
  levelled db u zero (Outcome.present _) s = s
  levelled db u (suc l) (Outcome.present _) s = (db.set_permission_level u (suc l) s).1

  -- The last login is stored behind a session that was made.
  abbrev pub touched : Database S → ℕ → Bool × S → ℕ × S
  touched db a (true, s) = let (ok, s') = db.touch_last_login a s in (done_of ok, s')
  touched db a (false, s) = (db_error, s)

  -- The abstract service: the methods of the database that a call stands for, and what its callback
  -- is to be told.
  abbrev pub perform : Database S → (q : Request) → S → Answer q × S
  perform db (Request.lookup_account u) s = let (o, s') = db.find_account u s in (account_of o, s')
  perform db (Request.create_account u h) s =
      let (o, s') = db.create_account u h s in (created_of o, s')
  perform db (Request.delete_account u) s =
      let (o, s') = db.delete_account u s in (changed_of o, s')
  perform db (Request.create_account_with_level u h l) s =
      let (o, s') = db.create_account u h s in (created_of o, levelled db u l o s')
  perform db (Request.set_permission_level u l) s =
      let (o, s') = db.set_permission_level u l s in (changed_of o, s')
  perform db Request.admin_exists s = let (o, s') = db.has_admin s in (exists_of o, s')
  perform db (Request.create_session a t ttl) s = touched db a (db.create_session a t ttl s)
  perform db (Request.lookup_session t) s =
      let (o, s') = db.lookup_session t s in (session_of o, s')
  perform db (Request.delete_session t) s = let (ok, s') = db.delete_session t s in (done_of ok, s')

  create-levelled :
      (db : Database S) (u h : List ℕ) (l : ℕ) (s : S)
      → let (o, s') = db.create_account u h s in
        create db (record { username = u; password_hash = h; level = l }) s
        ≡ (o, levelled db u l o s')
  unfolding create
  create-levelled db u h l s = go l (db.create_account u h s).0 refl
    where
      go :
          (l : ℕ) (o : Outcome ℕ)
          → (db.create_account u h s).0 ≡ o
          → create db (record { username = u; password_hash = h; level = l }) s
            ≡ (o, levelled db u l o (db.create_account u h s).1)
      go l Outcome.failed e = rw (e, create) refl
      go l Outcome.absent e = rw (e, create) refl
      go zero (Outcome.present id) e = rw (e, create) refl
      go (suc l) (Outcome.present id) e =
          let nonzero : (suc l == 0) ≡ false = ground arith in rw (e, create) (rw nonzero refl)

  open_session-touched :
      (db : Database S) (new : NewSession) (s : S)
      → let told =
          touched db new.account_id (db.create_session new.account_id new.token new.ttl s) in
        (changed_of (open_session db new s).0 ≡ told.0) × ((open_session db new s).1 ≡ told.1)
  unfolding open_session
  open_session-touched db new s = go (db.create_session new.account_id new.token new.ttl s) refl
    where
      done : (ok : Bool) → changed_of (done_if ok) ≡ done_of ok
      done true = refl
      done false = refl

      go :
          (r : Bool × S)
          → db.create_session new.account_id new.token new.ttl s ≡ r
          → (changed_of (open_session db new s).0 ≡ (touched db new.account_id r).0)
            × ((open_session db new s).1 ≡ (touched db new.account_id r).1)
      go (true, s') e = rw (e, open_session) (done (db.touch_last_login new.account_id s').0, refl)
      go (false, s') e = rw (e, open_session) (refl, refl)

  close_session-done_of :
      (db : Database S) (t : List ℕ) (s : S)
      → changed_of (close_session db t s).0 ≡ done_of (db.delete_session t s).0
  unfolding close_session
  close_session-done_of db t s = elim (Bool-cases (db.delete_session t s).0) [
    | inl ok ↦ rw ok refl
    | inr bad ↦ rw bad refl
  ]

new_account-Agrees :
    (u h : List ℕ) (l : ℕ)
    → IsRequest (Request.create_account_with_level u h l)
    → Agrees
        (Writer.string u >> (Writer.string h >> Writer.u8 l))
        (read_new_account true)
        (record { username = u; password_hash = h; level = l })
unfolding read_new_account
new_account-Agrees u h l v = search (agree_rules, v) depth 40 fits 4000

plain_account-Agrees :
    (u h : List ℕ)
    → IsRequest (Request.create_account u h)
    → Agrees
        (Writer.string u >> Writer.string h)
        (read_new_account false)
        (record { username = u; password_hash = h; level = 0 })
unfolding read_new_account
plain_account-Agrees u h v = search (agree_rules, v) depth 40 fits 4000

level_change-Agrees :
    (u : List ℕ) (l : ℕ)
    → IsRequest (Request.set_permission_level u l)
    → Agrees (Writer.string u >> Writer.u8 l) read_level_change (record { username = u; level = l })
unfolding read_level_change
level_change-Agrees u l v = search (agree_rules, v) depth 40 fits 4000

new_session-Agrees :
    (a : ℕ) (t : List ℕ) (ttl : ℕ)
    → IsRequest (Request.create_session a t ttl)
    → Agrees
        (Writer.u64 a >> (Writer.string t >> Writer.u32 ttl))
        read_new_session
        (record { account_id = a; token = t; ttl = ttl })
unfolding read_new_session
new_session-Agrees a t ttl v = search (agree_rules, v) depth 40 fits 4000

no_fields-Agrees : Agrees (Writer.raw []) (pure {0} tt) tt
unfolding Writer.raw pure
no_fields-Agrees = record {
  image = [];
  writes = λ out. refl;
  reads = λ r rest at. (refl, at);
  cut = λ r front x back e at. nonempty front x back e;
  sticky = pure-IsSticky tt;
}
  where
    nonempty : {B : Type 0} (front : List ℕ) (x : ℕ) (back : List ℕ) → [] ≡ front ++ (x ∷ back) → B
    nonempty [] x back e = cc
    nonempty (y ∷ front) x back e = cc

-- One case of the switch with everything that the two ends agree on: the fields that are written and
-- read, what is asked of the database, and the reply.
pub record Case {S : Type 0} (db : Database S) (q : Request) (id : ℕ) (s : S) : Type 1 where
  pub X : Type 0
  pub A : Type 0
  pub w : Writer
  pub x : X
  pub read : Read X
  pub ask : X → S → Outcome A × S
  pub write : ℕ → Outcome A → Writer
  pub fields : Agrees w read x
  pub dispatched : on_request db (request_type q) ≡ answer_with read ask (response_type q) write
  pub written : write_request id q [] ≡ w (Writer.u32 id [])
  pub replies : Agrees (write id (ask x s).0) (read_answer q) (perform db q s).0
  pub after : (ask x s).1 ≡ (perform db q s).1

make :
    {S X A : Type 0} {w : Writer} {x : X} (read : Read X) (ask : X → S → Outcome A × S)
    (write : ℕ → Outcome A → Writer) (fields : Agrees w read x) (db : Database S) (q : Request)
    (id : ℕ) (s : S)
    → on_request db (request_type q) ≡ answer_with read ask (response_type q) write
    → write_request id q [] ≡ w (Writer.u32 id [])
    → Agrees (write id (ask x s).0) (read_answer q) (perform db q s).0
    → (ask x s).1 ≡ (perform db q s).1
    → Case db q id s
make {X = X} {A = A} {w = w} {x = x} read ask write fields db q id s e e' r a = record {
  X = X;
  A = A;
  w = w;
  x = x;
  read = read;
  ask = ask;
  write = write;
  fields = fields;
  dispatched = e;
  written = e';
  replies = r;
  after = a;
}

unlevelled :
    {S : Type 0} (db : Database S) (u : List ℕ) (o : Outcome ℕ) (s : S) → levelled db u 0 o s ≡ s
unlevelled db u Outcome.failed s = refl
unlevelled db u Outcome.absent s = refl
unlevelled db u (Outcome.present id) s = refl

-- The case of each call.
pub case :
    {S : Type 0} (db : Database S) (q : Request) (id : ℕ) (s : S)
    → IsDatabase db
    → IsRequest q
    → id < 2 ^ 32
    → Case db q id s
unfolding write_request write_fields on_request close_session ◌>>◌
case db (Request.lookup_account u) id s d v h =
    make Reader.string db.find_account write_account (string-Agrees u v) db
      (Request.lookup_account u) id s refl refl (account-Agrees id h _ (d.accounts u s)) refl
case {S} db (Request.create_account u p) id s d v h =
    make (read_new_account false) (create db) write_created (plain_account-Agrees u p v) db
      (Request.create_account u p) id s refl refl
      (subst
        (λ (o : Outcome ℕ).
          Agrees (write_created id o) read_created (created_of (db.create_account u p s).0))
        (sym (ap (λ (r : Outcome ℕ × S). r.0) (create-levelled db u p 0 s)))
        (created-Agrees id h _ (d.ids u p s)))
      (ap (λ (r : Outcome ℕ × S). r.1) (create-levelled db u p 0 s)
        ∙ unlevelled db u (db.create_account u p s).0 _)
case db (Request.delete_account u) id s d v h =
    make Reader.string db.delete_account write_result (string-Agrees u v) db
      (Request.delete_account u) id s refl refl (result-Agrees id h _) refl
case {S} db (Request.create_account_with_level u p l) id s d v h =
    make (read_new_account true) (create db) write_created (new_account-Agrees u p l v) db
      (Request.create_account_with_level u p l) id s refl refl
      (subst
        (λ (o : Outcome ℕ).
          Agrees (write_created id o) read_created (created_of (db.create_account u p s).0))
        (sym (ap (λ (r : Outcome ℕ × S). r.0) (create-levelled db u p l s)))
        (created-Agrees id h _ (d.ids u p s)))
      (ap (λ (r : Outcome ℕ × S). r.1) (create-levelled db u p l s))
case db (Request.set_permission_level u l) id s d v h =
    make read_level_change (λ c. db.set_permission_level c.username c.level) write_result
      (level_change-Agrees u l v) db (Request.set_permission_level u l) id s refl refl
      (result-Agrees id h _) refl
case db Request.admin_exists id s d v h =
    make (pure tt) (λ _. db.has_admin) write_exists no_fields-Agrees db Request.admin_exists id s
      refl (unfold Writer.raw in sym (append-nil _)) (exists-Agrees id h _) refl
case {S} db (Request.create_session a t ttl) id s d v h =
    let new : NewSession = record { account_id = a; token = t; ttl = ttl } in
    make read_new_session (open_session db) write_result (new_session-Agrees a t ttl v) db
      (Request.create_session a t ttl) id s refl refl
      (subst (λ (r : ℕ). Agrees (write_result id (open_session db new s).0) read_result r)
        (open_session-touched db new s).0 (result-Agrees id h (open_session db new s).0))
      (open_session-touched db new s).1
case db (Request.lookup_session t) id s d v h =
    make Reader.string db.lookup_session write_session (string-Agrees t v) db
      (Request.lookup_session t) id s refl refl (session-Agrees id h _ (d.sessions t s)) refl
case db (Request.delete_session t) id s d v h =
    make Reader.string (close_session db) write_result (string-Agrees t v) db
      (Request.delete_session t) id s refl refl
      (subst (λ (r : ℕ). Agrees (write_result id (close_session db t s).0) read_result r)
        (close_session-done_of db t s) (result-Agrees id h _))
      refl
