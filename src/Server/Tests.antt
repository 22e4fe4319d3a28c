-- ===== src/Server/Tests.antt =====
-- A small database, and the theorems of the database client and server at runs of it.
use mathlib.Core.Option
use mathlib.Core.List.{Perm}
use untitled.Base.{ℕ, ◌+◌, ◌≡◌, refl, arith, Bool, true, false, List, [], ◌∷◌, ◌++◌, length}
use untitled.Base.{some, ◌==◌, if◌then◌else◌}
use untitled.Net.Bytes.Writer
use untitled.Net.Bytes.Writer.{◌>>◌}
use untitled.Net.Bytes.Reader
use untitled.Net.Bytes.Reader.{Reader, reader, ◌>>=◌, pure}
use untitled.Net.Protocol.{DbMessage, db_code, db_message?}
use untitled.Server.DbClient.{Request, handle, write_request, write_fields}
use untitled.Server.DbClient.Calls.{Client, fresh, Input, run}
use untitled.Server.DbClient.Pending.{run-Perm}
use untitled.Server.DbServer
use untitled.Server.DbServer.{
  Outcome, Account, Session, Database, create, open_session, close_session, answer_with, on_request,
}
use untitled.Server.DbServer.Cases.{IsDatabase, perform}
use untitled.Server.DbServer.Replies.{IsAccount, IsSession, Holds}
use untitled.Server.DbServer.Refines.{handle-on_message}

-- Every name but the empty one is an account with an empty hash, every token but the empty one is an
-- admin's, and the state counts the writes.
abbrev pub demo : Database ℕ
demo = record {
  find_account = λ u s. (
    if length u == 0
        then Outcome.absent
        else Outcome.present
            (record { id = 9; username = 97 ∷ []; password_hash = []; permission_level = 1 }),
    s,
  );
  create_account = λ u h s. (Outcome.present 10, s + 1);
  touch_last_login = λ a s. (true, s + 1);
  delete_account = λ u s. (Outcome.present tt, s + 1);
  set_permission_level = λ u l s. (Outcome.present tt, s + 1);
  has_admin = λ s. (Outcome.present tt, s);
  create_session = λ a t ttl s. (true, s + 1);
  lookup_session = λ t s. (
    if length t == 0
        then Outcome.absent
        else Outcome.present (record { account_id = 9; username = 97 ∷ []; permission_level = 2 }),
    s,
  );
  delete_session = λ t s. (true, s + 1);
}

Holds-if :
    {A : Type 0} (P : A → Type 0) (b : Bool) (a : A)
    → P a
    → Holds P (if b then Outcome.absent else Outcome.present a)
Holds-if P true a p = tt
Holds-if P false a p = p

demo-IsDatabase : IsDatabase demo
demo-IsDatabase = record {
  accounts = λ u s. Holds-if IsAccount (length u == 0) _ demo_account;
  sessions = λ t s. Holds-if IsSession (length t == 0) _ demo_session;
  ids = λ u h s. omega arith;
}
  where
    demo_account :
        IsAccount (record { id = 9; username = 97 ∷ []; password_hash = []; permission_level = 1 })
    demo_account = record { id = omega arith; hash = omega arith; level = omega arith }

    demo_session : IsSession (record { account_id = 9; username = 97 ∷ []; permission_level = 2 })
    demo_session = record { id = omega arith; username = omega arith; level = omega arith }

-- The lookup of the account "u", as call 5.
abbrev lookup : Request
lookup = Request.lookup_account (117 ∷ [])

handle-on_message_example :
    let (reply, s') = DbServer.on_message demo 100 (write_request 5 lookup []) 0 in
    let (answer, s'') = perform demo lookup 0 in
    (Option.map (λ (p : DbMessage × List ℕ). handle lookup true (db_code p.0) p.1) reply
      ≡ some (true, answer))
    × (s' ≡ s'')
handle-on_message_example =
    handle-on_message demo lookup 5 0 demo-IsDatabase (omega arith) (omega arith)

lookup_reply :
    (DbServer.on_message demo 100 (write_request 5 lookup []) 0).0
    ≡ some (
      DbMessage.account_lookup_response,
      (5 ∷ 0 ∷ 0 ∷ 0 ∷ 1 ∷ []) ++ (9 ∷ 0 ∷ 0 ∷ 0 ∷ 0 ∷ 0 ∷ 0 ∷ 0 ∷ 0 ∷ 0 ∷ 1 ∷ []),
    )
unfolding DbServer.on_message answer_with on_request DbServer.write_account write_request
    write_fields ◌>>◌ Writer.u8 Writer.u64 Writer.u32 Writer.u16 Writer.string Writer.raw
    Writer.little Writer.little_from db_message? Reader.u32 Reader.u16 Reader.string
    Reader.string_body Reader.take_word Reader.take_loop Reader.remaining ◌>>=◌ pure
lookup_reply = refl

-- Two calls, the answer to the second, and then the link drops. Handlers are named by numbers.
abbrev two_calls : List (Input ℕ)
two_calls = Input.call 100 ∷ Input.call 200 ∷ Input.reply (2 ∷ 0 ∷ 0 ∷ 0 ∷ []) ∷ Input.drop ∷ []

run-Perm_example :
    let e = run two_calls fresh in Perm ([] ++ e.issued) (e.invoked ++ e.client.pending)
run-Perm_example = run-Perm two_calls fresh tt (omega arith)

abbrev waiting : Client ℕ
waiting = record { connected = true; next_request_id = 2; pending = (1, 100) ∷ [] }
