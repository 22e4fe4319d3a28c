-- ===== src/Server/DbServer/Replies.antt =====
-- The replies of server/dbserver/src/main.cpp against the reads of server/common/src/db_client.cpp.
use untitled.Net.Protocol.{db_ok, db_error, db_not_found, db_conflict}
use untitled.Base.{ℕ, ◌^◌, ◌<◌, ◌≤◌, arith, Bool, true, false}
use untitled.Base.{[], length}
use untitled.Net.Bytes.Writer.{max_string_length}
use untitled.Net.Bytes.Agree.{Agrees}
use untitled.Net.Bytes.Fields.{agree_rules}
use untitled.Server.DbClient.{
  AccountLookup, SessionLookup, Created, read_account, read_session, read_created, read_result,
  read_exists,
}
use untitled.Server.DbServer.{
  Outcome, Account, Session, write_account, write_session, write_exists, write_created,
  write_result,
}

-- What the callback should be given for an outcome.
abbrev pub account_of : Outcome Account → AccountLookup
account_of (Outcome.present a) = record {
  found = true;
  account_id = a.id;
  password_hash = a.password_hash;
  permission_level = a.permission_level;
}
account_of _ = record { found = false; account_id = 0; password_hash = []; permission_level = 0 }

abbrev pub session_of : Outcome Session → SessionLookup
session_of (Outcome.present s) = record {
  found = true;
  account_id = s.account_id;
  username = s.username;
  permission_level = s.permission_level;
}
session_of _ = record { found = false; account_id = 0; username = []; permission_level = 0 }

abbrev pub created_of : Outcome ℕ → Created
created_of Outcome.failed = record { result = db_error; account_id = 0 }
created_of Outcome.absent = record { result = db_conflict; account_id = 0 }
created_of (Outcome.present id) = record { result = db_ok; account_id = id }

abbrev pub changed_of : Outcome Unit → ℕ
changed_of Outcome.failed = db_error
changed_of Outcome.absent = db_not_found
changed_of (Outcome.present _) = db_ok

abbrev pub done_of : Bool → ℕ
done_of true = db_ok
done_of false = db_error

abbrev pub exists_of : Outcome Unit → Bool
exists_of (Outcome.present _) = true
exists_of _ = false

-- The ranges of the columns and of the C++ types.
pub record IsAccount (a : Account) : Type 0 where
  pub id : a.id < 2 ^ 64
  pub hash : length a.password_hash ≤ max_string_length
  pub level : a.permission_level < 2 ^ 8

pub record IsSession (s : Session) : Type 0 where
  pub id : s.account_id < 2 ^ 64
  pub username : length s.username ≤ max_string_length
  pub level : s.permission_level < 2 ^ 8

abbrev pub Holds : {A : Type 0} → (A → Type 0) → Outcome A → Type 0
Holds P (Outcome.present a) = P a
Holds P _ = Unit {0}

lt0 : 0 < 2 ^ 8
lt0 = omega arith

lt1 : 1 < 2 ^ 8
lt1 = omega arith

lt2 : 2 < 2 ^ 8
lt2 = omega arith

lt3 : 3 < 2 ^ 8
lt3 = omega arith

lt0_long : 0 < 2 ^ 64
lt0_long = omega arith

length-nil : length {A = ℕ} [] ≤ max_string_length
length-nil = omega arith

ruleset reply_rules = (agree_rules, lt0, lt1, lt2, lt3, lt0_long, length-nil)

module _ (id : ℕ) (hid : id < 2 ^ 32) where
  pub account-Agrees :
      (o : Outcome Account)
      → Holds IsAccount o
      → Agrees (write_account id o) read_account (account_of o)
  unfolding write_account read_account
  account-Agrees Outcome.failed v = search (reply_rules, hid) depth 40 fits 4000
  account-Agrees Outcome.absent v = search (reply_rules, hid) depth 40 fits 4000
  account-Agrees (Outcome.present a) v = search (reply_rules, v, hid) depth 40 fits 4000

  pub session-Agrees :
      (o : Outcome Session)
      → Holds IsSession o
      → Agrees (write_session id o) read_session (session_of o)
  unfolding write_session read_session
  session-Agrees Outcome.failed v = search (reply_rules, hid) depth 40 fits 4000
  session-Agrees Outcome.absent v = search (reply_rules, hid) depth 40 fits 4000
  session-Agrees (Outcome.present s) v = search (reply_rules, v, hid) depth 40 fits 4000

  pub created-Agrees :
      (o : Outcome ℕ)
      → Holds (λ n. n < 2 ^ 64) o
      → Agrees (write_created id o) read_created (created_of o)
  unfolding write_created read_created
  created-Agrees Outcome.failed v = search (reply_rules, hid) depth 40 fits 4000
  created-Agrees Outcome.absent v = search (reply_rules, hid) depth 40 fits 4000
  created-Agrees (Outcome.present n) v = search (reply_rules, v, hid) depth 40 fits 4000

  pub result-Agrees : (o : Outcome Unit) → Agrees (write_result id o) read_result (changed_of o)
  unfolding write_result read_result
  result-Agrees Outcome.failed = search (reply_rules, hid) depth 40 fits 4000
  result-Agrees Outcome.absent = search (reply_rules, hid) depth 40 fits 4000
  result-Agrees (Outcome.present _) = search (reply_rules, hid) depth 40 fits 4000

  pub exists-Agrees : (o : Outcome Unit) → Agrees (write_exists id o) read_exists (exists_of o)
  unfolding write_exists read_exists
  exists-Agrees Outcome.failed = search (reply_rules, hid) depth 40 fits 4000
  exists-Agrees Outcome.absent = search (reply_rules, hid) depth 40 fits 4000
  exists-Agrees (Outcome.present _) = search (reply_rules, hid) depth 40 fits 4000
