-- ===== src/Server/Database/Accounts.antt =====
-- What `findAccount` of server/dbserver/src/database.cpp answers, by the rows that libpq returns.
use untitled.Base.{ℕ, ◌<◌, ◌^◌, ◌≡◌, refl, sym, ap, ◌∙◌, true, All}
use untitled.Base.{subst, List, [], ◌∷◌, Option, some}
use untitled.Server.Text.{c_str, to_string, strtoull-to_string, atoi8-to_string}
use untitled.Server.DbServer.{Outcome, Account}
use untitled.Server.Database.{
  Statement, ExecStatus, Libpq, Members, ensure_connected, ensure_on, query, query_on, read_rows,
  read_result, read_account, database, tuples_ok, command_ok, other_status, select_account,
}

-- The columns of an account as Postgres prints them.
abbrev pub row_of : Account → List (List ℕ)
row_of a = to_string a.id ∷ a.username ∷ a.password_hash ∷ to_string a.permission_level ∷ []

pub record IsStored (a : Account) : Type 0 where
  pub id : a.id < 2 ^ 64
  pub level : a.permission_level < 2 ^ 8

-- What the rows of a result stand for.
abbrev pub rows_of : List Account → List (List (List ℕ))
rows_of [] = []
rows_of (a ∷ more) = row_of a ∷ rows_of more

-- A query that failed, or the first of the accounts.
abbrev pub answer_of : ExecStatus → List Account → Outcome Account
answer_of tuples_ok [] = Outcome.absent
answer_of tuples_ok (a ∷ _) = Outcome.present a
answer_of _ _ = Outcome.failed

read_account-row_of : (a : Account) → IsStored a → read_account (row_of a) ≡ a
read_account-row_of a v =
    let id = strtoull-to_string a.id v.id in
    let level = atoi8-to_string a.permission_level v.level in rw (id, level) refl

read_rows-rows_of :
    (accounts : List Account)
    → All IsStored accounts
    → read_rows read_account (rows_of accounts) ≡ answer_of tuples_ok accounts
unfolding read_rows
read_rows-rows_of [] v = refl
read_rows-rows_of (a ∷ more) (v, _) = ap Outcome.present (read_account-row_of a v)

module _ {C W : Type 0} (libpq : Libpq C W) where
  -- A connection that is up is used as it is.
  query-up :
      (wanted : ExecStatus) (statement : Statement) (values : List (List ℕ)) (m : Members C W)
      (c : C)
      → m.connection ≡ some c
      → libpq.is_ok c m.pg ≡ true
      → query libpq wanted statement values m ≡ query_on libpq wanted statement values (some c) m
  unfolding query ensure_connected ensure_on
  query-up wanted statement values m c linked up =
      let here : ensure_on libpq (some c) m ≡ (true, m) = rw up refl in
      let there : ensure_on libpq m.connection m ≡ (true, m) =
        subst (λ (o : Option C). ensure_on libpq o m ≡ (true, m)) (sym linked) here in
      rw there (ap (λ (o : Option C). query_on libpq wanted statement values o m) linked)

  query_on-answer_of :
      (m : Members C W) (c : C) (values : List (List ℕ)) (accounts : List Account)
      (status : ExecStatus)
      → (libpq.exec c select_account values m.pg).0.status ≡ status
      → (libpq.exec c select_account values m.pg).0.rows ≡ rows_of accounts
      → All IsStored accounts
      → let (r, m') = query_on libpq tuples_ok select_account values (some c) m in
        (read_result read_account r ≡ answer_of status accounts)
        × (m'.connection ≡ m.connection)
        × (m'.pg ≡ (libpq.exec c select_account values m.pg).1)
  unfolding query_on read_result
  query_on-answer_of m c values accounts tuples_ok e rows v =
      let first = read_rows-rows_of accounts v in rw e (rw rows first, refl, refl)
  query_on-answer_of m c values accounts command_ok e rows v = rw e (refl, refl, refl)
  query_on-answer_of m c values accounts other_status e rows v = rw e (refl, refl, refl)

  -- On a connection that is up, where the rows that libpq returns are accounts with ids of 64 bits
  -- and levels of a byte, their numbers printed in decimal, `findAccount` answers a failure where
  -- the query has failed, none where there is no row, and otherwise the account of the first row;
  -- the connection stays, and the database is left as the query left it.
  pub find_account-answer_of :
      (u : List ℕ) (m : Members C W) (c : C) (accounts : List Account)
      → m.connection ≡ some c
      → libpq.is_ok c m.pg ≡ true
      → (libpq.exec c select_account (c_str u ∷ []) m.pg).0.rows ≡ rows_of accounts
      → All IsStored accounts
      → let (r, w) = libpq.exec c select_account (c_str u ∷ []) m.pg in
        let (o, m') = (database libpq).find_account u m in
        (o ≡ answer_of r.status accounts) × (m'.connection ≡ some c) × (m'.pg ≡ w)
  find_account-answer_of u m c accounts linked up rows v =
      let (answer, same, after) =
        query_on-answer_of m c (c_str u ∷ []) accounts
          (libpq.exec c select_account (c_str u ∷ []) m.pg).0.status refl rows v in
      rw (query-up tuples_ok select_account (c_str u ∷ []) m c linked up)
        (answer, same ∙ linked, after)
