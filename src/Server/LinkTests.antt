-- ===== src/Server/LinkTests.antt =====
-- Small runs of the libpq wrapper and of the TCP server, and their theorems at these.
use untitled.Base.{ℕ, ◌+◌, ◌≡◌, arith, List, [], ◌∷◌}
use untitled.Base.{some, All, ◌==◌}
use untitled.Base.{none, refl}
use untitled.Server.TcpServer.Drains.{IsDrained, dispatch-IsDrained}
use untitled.Net.Framing.{empty_stream, Received, closed, chunk}
use untitled.Server.TcpServer
use untitled.Server.TcpServer.Poll
use untitled.Server.Database.{ExecStatus, Libpq, Members, database}
use untitled.Server.Database.{select_account}
use untitled.Server.Database.Accounts.{rows_of, find_account-answer_of}
use untitled.Server.DbServer.{Account, Outcome}
use untitled.Server.Text.{c_str, to_string}

-- A libpq with one account row, whose connection is up after a reset.
abbrev pg : Libpq ℕ ℕ
pg = record {
  connectdb = λ info w. (0, w);
  finish = λ c w. w;
  reset = λ c w. 1;
  is_ok = λ c w. w == 1;
  error_message = λ c w. [];
  exec = λ c statement values w. (
    record {
      status = ExecStatus.tuples_ok;
      rows = ((55 ∷ []) ∷ (97 ∷ []) ∷ (36 ∷ []) ∷ (50 ∷ []) ∷ []) ∷ [];
    },
    w,
  );
}

-- The account of that row, and a connection that is up.
abbrev stored : Account
stored = record { id = 7; username = 97 ∷ []; password_hash = 36 ∷ []; permission_level = 2 }

abbrev linked : Members ℕ ℕ
linked = record { connection = some 4; conninfo = []; last_error = []; pg = 1 }

stored-printed : (pg.exec 4 select_account ((97 ∷ []) ∷ []) 1).0.rows ≡ rows_of (stored ∷ [])
unfolding to_string
stored-printed = refl

find_account-answer_of_example :
    let (o, m') = (database pg).find_account (97 ∷ []) linked in
    (o ≡ Outcome.present stored) × (m'.connection ≡ some 4) × (m'.pg ≡ 1)
unfolding c_str
find_account-answer_of_example =
    find_account-answer_of pg (97 ∷ []) linked 4 (stored ∷ []) refl refl stored-printed
      (record { id = omega arith; level = omega arith }, tt)

-- A TCP server with two clients, of which one hangs up while a third arrives. The owner answers each
-- message with a send and a close.
abbrev owner_callbacks : TcpServer.Callbacks ℕ ℕ
owner_callbacks = record {
  on_connect = λ id peer s. ([], s + 1);
  on_message = λ id m s. (TcpServer.send [] id m ∷ TcpServer.close id ∷ [], s);
  on_disconnect = λ id s. s + 10;
}

abbrev two_clients : TcpServer.Owner ℕ ℕ
two_clients = record {
  server = record {
    connections =
        (1, record { stream = empty_stream; peer = 81 })
        ∷ (3, record { stream = empty_stream; peer = 82 })
        ∷ [];
    closing = [];
    next_id = 4;
  };
  state = 0;
}

two_clients-IsValid : Poll.IsValid two_clients.server
two_clients-IsValid = (omega arith, (omega arith, omega arith))

abbrev events : List (ℕ × List Received)
events = (1, closed ∷ []) ∷ (3, chunk (0 ∷ 0 ∷ 0 ∷ 0 ∷ 2 ∷ 0 ∷ []) ∷ []) ∷ []

poll-IsValid_example :
    let s = (TcpServer.poll owner_callbacks (83 ∷ []) events two_clients).server in
    Poll.IsValid s × (s.next_id ≡ 5)
poll-IsValid_example =
    Poll.poll-IsValid owner_callbacks (83 ∷ []) events two_clients two_clients-IsValid (omega arith)

poll-closing_example :
    let before =
      (TcpServer.serve_all owner_callbacks events
        (TcpServer.accept_all owner_callbacks (83 ∷ []) two_clients)).server in
    let after = (TcpServer.poll owner_callbacks (83 ∷ []) events two_clients).server in
    All (λ k. TcpServer.find k after.connections ≡ none) before.closing × (after.closing ≡ [])
poll-closing_example =
    Poll.poll-closing owner_callbacks (83 ∷ []) events two_clients two_clients-IsValid (omega arith)

abbrev second : TcpServer.Connection ℕ
second = record {
  stream = record {
    read_buffer = 0 ∷ 0 ∷ 0 ∷ 0 ∷ 2 ∷ 0 ∷ 7 ∷ [];
    write_buffer = [];
    write_offset = 0;
  };
  peer = 82;
}

abbrev with_message : TcpServer.Owner ℕ ℕ
with_message = record {
  server = record { connections = (3, second) ∷ []; closing = []; next_id = 4 };
  state = 0;
}

second-find : TcpServer.find 3 with_message.server.connections ≡ some second
unfolding TcpServer.find
second-find = refl

dispatch-IsDrained_example :
    IsDrained 3 (TcpServer.dispatch owner_callbacks 7 3 with_message).server
dispatch-IsDrained_example =
    dispatch-IsDrained owner_callbacks 7 3 second with_message second-find (omega arith)
