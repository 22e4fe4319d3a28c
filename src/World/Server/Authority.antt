-- ===== src/World/Server/Authority.antt =====
-- Who may change the world (the callbacks of `lookupSession` in server/worldserver/src/main.cpp).
use untitled.Base.{◌≤◌, ◌≡◌, refl, arith, ◌⊎◌, inl, inr, Bool, true, false, not, ltb}
use untitled.Base.{if◌then◌else◌, Bool-cases, min, [], ◌∷◌}
use untitled.Net.Protocol.{PermissionLevel, level_code}
use untitled.Server.DbClient.{SessionLookup}
use untitled.Sim.Float.{Fpu}
use untitled.World.Server.{
  World, Settings, Clocks, Pending, joining, setting_latency, commanding, Outcome,
}
use untitled.World.Server.Messages.{reply_latency, reply_command}
use untitled.World.Server.Answers.{
  answered, join_answered, latency_answered, command_answered, latency_cap, run_command,
}

-- What the database must have said of the session.
abbrev pub Entitled : Pending → SessionLookup → Type 0
Entitled (joining _ _) session = session.found ≡ true
Entitled _ session =
    (session.found ≡ true) × (level_code PermissionLevel.game_master ≤ session.permission_level)

abbrev pub Untouched : Pending → Bool → SessionLookup → World → World → Type 0
Untouched pending ok session w w' = (w' ≡ w) ⊎ ((ok ≡ true) × Entitled pending session)

-- The two tests of a game master's request.
tested :
    (found low : Bool) (x y z : Outcome) (w : World)
    → x.1 ≡ w
    → y.1 ≡ w
    → ((if not found then x else (if low then y else z)).1 ≡ w) ⊎ ((found ≡ true) × (low ≡ false))
tested false low x y z w p q = inl p
tested true true x y z w p q = inl q
tested true false x y z w p q = inr (refl, refl)

-- Whatever was asked, the answer of a session lookup leaves the world as it was, or the lookup
-- worked and found the session, and, unless a join was asked for, the session's level is that of a
-- game master at least.
pub answered-Untouched :
    (fpu : Fpu) (settings : Settings) (clocks : Clocks) (pending : Pending) (ok : Bool)
    (session : SessionLookup) (w : World)
    → Untouched pending ok session w (answered fpu settings clocks pending ok session w).1
unfolding answered join_answered latency_answered command_answered
answered-Untouched fpu settings clocks (joining id token) true session w =
    elim (Bool-cases session.found) [
      | inl found ↦ inr (refl, found)
      | inr none' ↦ inl (rw none' refl)
    ]
answered-Untouched fpu settings clocks (joining id token) false session w = inl refl
answered-Untouched fpu settings clocks (setting_latency id ms) false session w = inl refl
answered-Untouched fpu settings clocks (commanding id which command value) false session w =
    inl refl
answered-Untouched fpu settings clocks (setting_latency id ms) true session w =
    elim (tested session.found
      (ltb session.permission_level (level_code PermissionLevel.game_master))
      (reply_latency id 1 w ∷ [], w) (reply_latency id 2 w ∷ [], w)
      (let w' = record w { latency = min ms latency_cap } in (reply_latency id 0 w' ∷ [], w')) w
      refl refl) [
        | inl same ↦ inl same
        | inr (found, high) ↦ inr (refl, (found, ground (arith, high)))
      ]
answered-Untouched fpu settings clocks (commanding id which command value) true session w =
    elim (tested session.found
      (ltb session.permission_level (level_code PermissionLevel.game_master))
      (reply_command which id 1 w ∷ [], w) (reply_command which id 2 w ∷ [], w)
      (let w' = run_command fpu clocks which command value w in
        (reply_command which id 0 w' ∷ [], w'))
      w refl refl) [
        | inl same ↦ inl same
        | inr (found, high) ↦ inr (refl, (found, ground (arith, high)))
      ]
