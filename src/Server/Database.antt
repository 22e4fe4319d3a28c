-- ===== src/Server/Database.antt =====
-- server/dbserver/src/database.h and server/dbserver/src/database.cpp: the libpq wrapper. libpq and
-- the database behind it are a parameter on a state `W` of their own.
pub mod Links
pub mod Accounts
use untitled.Base.{
  ℕ, zero, suc, Bool, true, false, not, ◌==◌, List, [], ◌∷◌, Option, none, some, if◌then◌else◌,
}
use untitled.Server.Text.{c_str, strtoull, atoi8, to_string}
use untitled.Server.DbServer
use untitled.Server.DbServer.{Outcome, Account, Session}

-- The SQL texts; values travel beside them.
pub data Statement : Type 0 where
  add_level_column update_level select_admin select_account insert_account update_last_login :
      Statement
  remove_account insert_session select_session remove_session remove_expired : Statement

-- PQresultStatus as far as the code tells it apart.
pub data ExecStatus : Type 0 where
  command_ok tuples_ok other_status : ExecStatus

abbrev pub is_status : ExecStatus → ExecStatus → Bool
is_status command_ok command_ok = true
is_status tuples_ok tuples_ok = true
is_status _ _ = false

-- A PGresult: its rows, each with the texts of its columns.
pub record PgResult : Type 0 where
  pub status : ExecStatus
  pub rows : List (List (List ℕ))

-- libpq: connections are `C`. `PQexec` is `exec` without values.
pub record Libpq (C W : Type 0) : Type 0 where
  pub connectdb : List ℕ → W → C × W
  pub finish : C → W → W
  pub reset : C → W → W
  pub is_ok : C → W → Bool
  pub error_message : C → W → List ℕ
  pub exec : C → Statement → List (List ℕ) → W → PgResult × W

-- The members of `db::Database`, with the state of libpq.
pub record Members (C W : Type 0) : Type 0 where
  pub connection : Option C
  pub conninfo : List ℕ
  pub last_error : List ℕ
  pub pg : W

module _ {C W : Type 0} (libpq : Libpq C W) where
  unfoldable pub disconnect : Members C W → Members C W
  disconnect m = elim m.connection [
    | none ↦ m
    | some c ↦ record m { connection = none; pg = libpq.finish c m.pg }
  ]

  unfoldable pub connect : List ℕ → Members C W → Bool × Members C W
  unfolding disconnect
  connect conninfo m =
      let m' = disconnect m in
      let (c, w) = libpq.connectdb (c_str conninfo) m'.pg in
      if not (libpq.is_ok c w)
      then (
        false,
        record {
          connection = none;
          conninfo = conninfo;
          last_error = libpq.error_message c w;
          pg = libpq.finish c w;
        },
      )
      else (true, record m' { connection = some c; conninfo = conninfo; pg = w })

  -- With `mConnection` as the first argument.
  unfoldable pub ensure_on : Option C → Members C W → Bool × Members C W
  ensure_on none m = connect m.conninfo m
  ensure_on (some c) m =
      let w = libpq.reset c m.pg in
      let again = connect m.conninfo (record m { pg = w }) in
      if libpq.is_ok c m.pg
      then (true, m)
      else (if libpq.is_ok c w then (true, record m { pg = w }) else again)

  unfoldable pub ensure_connected : Members C W → Bool × Members C W
  unfolding ensure_on
  ensure_connected m = ensure_on m.connection m

  -- A query on the connection, once `ensureConnected` has returned true, and the check of its
  -- status.
  unfoldable pub query_on :
      ExecStatus
      → Statement
      → List (List ℕ)
      → Option C
      → Members C W
      → Option PgResult × Members C W
  query_on wanted statement values none m = (none, m)
  query_on wanted statement values (some c) m =
      let (result, w) = libpq.exec c statement values m.pg in
      if not (is_status result.status wanted)
      then (none, record m { last_error = libpq.error_message c w; pg = w })
      else (some result, record m { pg = w })

  -- What the methods share: `none` is a return of false.
  unfoldable pub query :
      ExecStatus → Statement → List (List ℕ) → Members C W → Option PgResult × Members C W
  unfolding query_on
  query wanted statement values m =
      let (ok, m') = ensure_connected m in
      let after = query_on wanted statement values m'.connection m' in
      if not ok then (none, m') else after

-- `value(0, column)`; a column that is not there is empty.
abbrev pub column : ℕ → List (List ℕ) → List ℕ
column n [] = []
column zero (text ∷ row) = text
column (suc n) (text ∷ row) = column n row

-- What a method makes of a result: no row, or the first one.
unfoldable pub read_rows : {A : Type 0} → (List (List ℕ) → A) → List (List (List ℕ)) → Outcome A
read_rows f [] = Outcome.absent
read_rows f (row ∷ _) = Outcome.present (f row)

unfoldable pub read_result : {A : Type 0} → (List (List ℕ) → A) → Option PgResult → Outcome A
unfolding read_rows
read_result f none = Outcome.failed
read_result f (some r) = read_rows f r.rows

abbrev pub read_account : List (List ℕ) → Account
read_account row = record {
  id = strtoull (column 0 row);
  username = column 1 row;
  password_hash = column 2 row;
  permission_level = atoi8 (column 3 row);
}

abbrev pub read_session : List (List ℕ) → Session
read_session row = record {
  account_id = strtoull (column 0 row);
  username = column 1 row;
  permission_level = atoi8 (column 2 row);
}

abbrev pub read_id : List (List ℕ) → ℕ
read_id row = strtoull (column 0 row)

-- A method that only asks whether there is a row.
abbrev pub found_if : Option PgResult → Outcome Unit
found_if r = read_result (λ _. tt) r

abbrev pub worked : Option PgResult → Bool
worked none = false
worked (some _) = true

module _ {C W : Type 0} (libpq : Libpq C W) where
  -- The methods as the message handler sees them.
  abbrev pub database : DbServer.Database (Members C W)
  database = record {
    find_account = λ u m.
        let (r, m') = query libpq tuples_ok select_account (c_str u ∷ []) m in
        (read_result read_account r, m');
    create_account = λ u h m.
        let (r, m') = query libpq tuples_ok insert_account (c_str u ∷ c_str h ∷ []) m in
        (read_result read_id r, m');
    touch_last_login = λ id m.
        let (r, m') = query libpq command_ok update_last_login (to_string id ∷ []) m in
        (worked r, m');
    delete_account = λ u m.
        let (r, m') = query libpq tuples_ok remove_account (c_str u ∷ []) m in (found_if r, m');
    set_permission_level = λ u level m.
        let (r, m') = query libpq tuples_ok update_level (to_string level ∷ c_str u ∷ []) m in
        (found_if r, m');
    has_admin = λ m. let (r, m') = query libpq tuples_ok select_admin [] m in (found_if r, m');
    create_session = λ id token ttl m.
        let (r, m') =
          query libpq command_ok insert_session (c_str token ∷ to_string id ∷ to_string ttl ∷ [])
            m in
        (worked r, m');
    lookup_session = λ token m.
        let (r, m') = query libpq tuples_ok select_session (c_str token ∷ []) m in
        (read_result read_session r, m');
    delete_session = λ token m.
        let (r, m') = query libpq command_ok remove_session (c_str token ∷ []) m in (worked r, m');
  }

  unfoldable pub migrate : Members C W → Bool × Members C W
  migrate m = let (r, m') = query libpq command_ok add_level_column [] m in (worked r, m')
