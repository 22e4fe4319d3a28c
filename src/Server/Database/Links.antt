-- ===== src/Server/Database/Links.antt =====
-- The connection of the wrapper (server/dbserver/src/database.cpp).
use untitled.Base.{ℕ, ◌≡◌, refl, Bool, true, false, List}
use untitled.Base.{Option, none, some, Bool-cases, inl, inr}
use untitled.Server.Text.{c_str}
use untitled.Server.Database.{Libpq, Members, disconnect, connect, ensure_connected, ensure_on}

module _ {C W : Type 0} (libpq : Libpq C W) where
  -- There is a connection that libpq says is up; or there is none.
  abbrev pub IsConnected : Bool → Members C W → Type 0
  IsConnected true m = (c : C) × (m.connection ≡ some c) × (libpq.is_ok c m.pg ≡ true)
  IsConnected false m = m.connection ≡ none

  connect-IsConnected :
      (conninfo : List ℕ) (m : Members C W)
      → IsConnected (connect libpq conninfo m).0 (connect libpq conninfo m).1
  unfolding connect
  connect-IsConnected conninfo m =
      let (c, w) = libpq.connectdb (c_str conninfo) (disconnect libpq m).pg in
      elim (Bool-cases (libpq.is_ok c w)) [ inl up ↦ rw up (c, refl, up) | inr down ↦ rw down refl ]

  ensure_on-IsConnected :
      (o : Option C) (m : Members C W)
      → m.connection ≡ o
      → IsConnected (ensure_on libpq o m).0 (ensure_on libpq o m).1
  unfolding ensure_on
  ensure_on-IsConnected none m e = connect-IsConnected m.conninfo m
  ensure_on-IsConnected (some c) m e = elim (Bool-cases (libpq.is_ok c m.pg)) [
    | inl up ↦ rw up (c, e, up)
    | inr down ↦ elim (Bool-cases (libpq.is_ok c (libpq.reset c m.pg))) [
      | inl again ↦ rw (down, again) (c, e, again)
      | inr lost ↦
          rw (down, lost) (connect-IsConnected m.conninfo (record m { pg = libpq.reset c m.pg }))
    ]
  ]

  -- After `ensureConnected` has returned true there is a connection, and libpq says that it is up;
  -- after false there is none.
  pub ensure_connected-IsConnected :
      (m : Members C W) → IsConnected (ensure_connected libpq m).0 (ensure_connected libpq m).1
  unfolding ensure_connected
  ensure_connected-IsConnected m = ensure_on-IsConnected m.connection m refl
