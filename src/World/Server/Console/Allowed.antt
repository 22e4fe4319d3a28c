-- ===== src/World/Server/Console/Allowed.antt =====
-- What a line typed at the world server may do (`runConsoleCommand` in
-- server/worldserver/src/main.cpp).
use untitled.Base.{ℕ, ◌≤◌, ◌<◌, ◌^◌, ◌≡◌, refl, arith, Bool, true, false, All, Bool-cases, inl, inr}
use untitled.Base.{List, [], ◌∷◌, length, Option, none, some, ltb, if◌then◌else◌, min}
use untitled.Net.Protocol.{PermissionLevel, level_code}
use untitled.Server.AuthServer.{Sodium}
use untitled.Server.DbClient.{Request}
use untitled.Server.Text.{atoi8, atoi8_bound}
use untitled.Sim.Float.{Fpu}
use untitled.World.Simulation
use untitled.World.Simulation.{Simulation}
use untitled.World.Server.{World, Clocks}
use untitled.World.Server.Answers.{latency_cap}
use untitled.World.Server.Console.{
  run_console_command, run_words, words, time_words, set_clock, latency_words, account_words,
  create_words, create_on, level_of, level_words,
}

-- The console deletes accounts, and gives them levels: a byte when it creates one, 0 to 2 later.
abbrev pub IsConsoleCall : Request → Type 0
IsConsoleCall (Request.delete_account _) = Unit
IsConsoleCall (Request.create_account_with_level _ _ level) = level < 2 ^ 8
IsConsoleCall (Request.set_permission_level _ level) = level ≤ level_code PermissionLevel.admin
IsConsoleCall _ = ⊥

-- The same world with another clock and another latency, which stays within its cap.
pub record Keeps (w w' : World) : Type 0 where
  pub time_of_day : ℕ
  pub time_speed : ℕ
  pub anchor_real : ℕ
  pub anchor_time : ℕ
  pub latency : ℕ
  pub same : w' ≡ record w {
    latency = latency;
    simulation = record w.simulation {
      time_of_day = time_of_day;
      time_speed = time_speed;
      anchor_real = anchor_real;
      anchor_time = anchor_time;
    };
  }
  pub capped : w.latency ≤ latency_cap → latency ≤ latency_cap

-- A clock and a latency of its own.
abbrev clock_of : (w : World) (s : Simulation) → ℕ → World
clock_of w s latency = record w {
  latency = latency;
  simulation = record w.simulation {
    time_of_day = s.time_of_day;
    time_speed = s.time_speed;
    anchor_real = s.anchor_real;
    anchor_time = s.anchor_time;
  };
}

clock-Keeps :
    (w w' : World) (s : Simulation) (latency : ℕ)
    → w' ≡ clock_of w s latency
    → (w.latency ≤ latency_cap → latency ≤ latency_cap)
    → Keeps w w'
clock-Keeps w w' s latency e f = record {
  time_of_day = s.time_of_day;
  time_speed = s.time_speed;
  anchor_real = s.anchor_real;
  anchor_time = s.anchor_time;
  latency = latency;
  same = e;
  capped = f;
}

pub Keeps-refl : (w : World) → Keeps w w
Keeps-refl w = clock-Keeps w w w.simulation w.latency refl (λ below. below)

Keeps-if : (w x y : World) (c : Bool) → Keeps w x → Keeps w y → Keeps w (if c then x else y)
Keeps-if w x y true k l = k
Keeps-if w x y false k l = l

All-IsConsoleCall-if :
    (c : Bool) (xs ys : List Request)
    → All IsConsoleCall xs
    → All IsConsoleCall ys
    → All IsConsoleCall (if c then xs else ys)
All-IsConsoleCall-if true xs ys a b = a
All-IsConsoleCall-if false xs ys a b = b

module _ (fpu : Fpu) (atof : List ℕ → ℕ) (clocks : Clocks) where
  set_time_of_day-Keeps :
      (time : ℕ) (w : World)
      → Keeps w
          (record w { simulation = Simulation.set_time_of_day fpu clocks.real time w.simulation })
  unfolding Simulation.set_time_of_day Simulation.reanchor
  set_time_of_day-Keeps time w =
      let s = Simulation.set_time_of_day fpu clocks.real time w.simulation in
      clock-Keeps w (record w { simulation = s }) s w.latency refl (λ below. below)

  set_time_speed-Keeps :
      (speed : ℕ) (w : World)
      → Keeps w (record w { simulation = Simulation.set_time_speed clocks.real speed w.simulation })
  unfolding Simulation.set_time_speed Simulation.reanchor
  set_time_speed-Keeps speed w =
      let s = Simulation.set_time_speed clocks.real speed w.simulation in
      clock-Keeps w (record w { simulation = s }) s w.latency refl (λ below. below)

  reset_clock-Keeps :
      (w : World)
      → Keeps w (record w {
        simulation = Simulation.reset_clock fpu clocks.real clocks.seconds_today w.simulation;
      })
  unfolding Simulation.reset_clock Simulation.reanchor
  reset_clock-Keeps w =
      let s = Simulation.reset_clock fpu clocks.real clocks.seconds_today w.simulation in
      clock-Keeps w (record w { simulation = s }) s w.latency refl (λ below. below)

  set_clock-Keeps :
      (parts : Option (List ℕ × List ℕ)) (w : World) → Keeps w (set_clock fpu atof clocks parts w)
  unfolding set_clock
  set_clock-Keeps none w = Keeps-refl w
  set_clock-Keeps (some (h, m)) w = search (Keeps-if, Keeps-refl, set_time_of_day-Keeps)

  time_words-Keeps :
      (more : List (List ℕ)) (w : World) → Keeps w (time_words fpu atof clocks more w)
  unfolding time_words
  time_words-Keeps [] w = Keeps-refl w
  time_words-Keeps (sub ∷ []) w = search (Keeps-if, Keeps-refl, reset_clock-Keeps)
  time_words-Keeps (sub ∷ value ∷ _) w =
      search (Keeps-if, Keeps-refl, reset_clock-Keeps, set_clock-Keeps, set_time_speed-Keeps)

min_capped : (n : ℕ) → min n latency_cap ≤ latency_cap
min_capped n = ground arith

latency-Keeps : (n : ℕ) (w : World) → Keeps w (record w { latency = min n latency_cap })
latency-Keeps n w =
    clock-Keeps w (record w { latency = min n latency_cap }) w.simulation (min n latency_cap) refl
      (λ _. min_capped n)

latency_words-Keeps : (more : List (List ℕ)) (w : World) → Keeps w (latency_words more w)
unfolding latency_words
latency_words-Keeps [] w = Keeps-refl w
latency_words-Keeps (sub ∷ []) w = Keeps-refl w
latency_words-Keeps (sub ∷ value ∷ _) w = search (Keeps-if, Keeps-refl, latency-Keeps)

none_allowed : All IsConsoleCall []
none_allowed = tt

delete-Allowed : (name : List ℕ) → All IsConsoleCall (Request.delete_account name ∷ [])
delete-Allowed name = (tt, tt)

module _ (sodium : Sodium) where
  level_of_bound : (more : List (List ℕ)) → level_of sodium more < 2 ^ 8
  unfolding level_of
  level_of_bound [] = omega arith
  level_of_bound (text ∷ _) = atoi8_bound text

  create_on-Allowed :
      (name : List ℕ) (hash : Option (List ℕ)) (level : ℕ)
      → level < 2 ^ 8
      → All IsConsoleCall (create_on sodium hash name level)
  unfolding create_on
  create_on-Allowed name none level below = tt
  create_on-Allowed name (some hash) level below = (below, tt)

  create_words-Allowed :
      (name password : List ℕ) (level : ℕ)
      → level < 2 ^ 8
      → All IsConsoleCall (create_words sodium name password level)
  unfolding create_words
  create_words-Allowed name password level below = elim (Bool-cases (ltb (length password) 6)) [
    | inl short ↦ rw short tt
    | inr long ↦ rw long (create_on-Allowed name (sodium.pwhash password) level below)
  ]

  level_words-Allowed :
      (name : List ℕ) (level : ℕ) → All IsConsoleCall (level_words sodium name level)
  unfolding level_words
  level_words-Allowed name level =
      elim (Bool-cases (ltb (level_code PermissionLevel.admin) level)) [
        | inl high ↦ rw high tt
        | inr low ↦ rw low (ground (arith, low), tt)
      ]

  account_words-Allowed : (more : List (List ℕ)) → All IsConsoleCall (account_words sodium more)
  unfolding account_words
  account_words-Allowed [] = tt
  account_words-Allowed (sub ∷ []) = tt
  account_words-Allowed (sub ∷ name ∷ []) =
      search (All-IsConsoleCall-if, none_allowed, delete-Allowed)
  account_words-Allowed (sub ∷ name ∷ third ∷ more) =
      let created = create_words-Allowed name third (level_of sodium more) (level_of_bound more) in
      let levelled = level_words-Allowed name (atoi8 third) in
      search (All-IsConsoleCall-if, none_allowed, delete-Allowed, created, levelled)

-- What a line is allowed to do.
abbrev pub IsAllowed : World → List Request × World → Type 0
IsAllowed w (calls, w') = All IsConsoleCall calls × Keeps w w'

IsAllowed-if :
    (w : World) (x y : List Request × World) (c : Bool)
    → IsAllowed w x
    → IsAllowed w y
    → IsAllowed w (if c then x else y)
IsAllowed-if w x y true a b = a
IsAllowed-if w x y false a b = b

run_words-IsAllowed :
    (fpu : Fpu) (atof : List ℕ → ℕ) (sodium : Sodium) (clocks : Clocks) (line : List (List ℕ))
    (w : World)
    → IsAllowed w (run_words fpu atof sodium clocks line w)
unfolding run_words
run_words-IsAllowed fpu atof sodium clocks [] w = (tt, Keeps-refl w)
run_words-IsAllowed fpu atof sodium clocks (command ∷ more) w =
    let nothing : IsAllowed w ([], w) = (tt, Keeps-refl w) in
    let timed : IsAllowed w ([], time_words fpu atof clocks more w) =
      (tt, time_words-Keeps fpu atof clocks more w) in
    let delayed : IsAllowed w ([], latency_words more w) = (tt, latency_words-Keeps more w) in
    let asked : IsAllowed w (account_words sodium more, w) =
      (account_words-Allowed sodium more, Keeps-refl w) in
    search (IsAllowed-if, nothing, timed, delayed, asked)

-- Whatever line is typed at the console, it asks the database for nothing but to delete an
-- account, to create one at a level of a byte, or to set a level from 0 to 2, and it changes
-- nothing of the world but the latency, which stays at 2000 at most, and the time of day, its
-- speed and its two anchors.
pub run_console_command-IsAllowed :
    (fpu : Fpu) (atof : List ℕ → ℕ) (sodium : Sodium) (clocks : Clocks) (line : List ℕ) (w : World)
    → IsAllowed w (run_console_command fpu atof sodium clocks line w)
unfolding run_console_command
run_console_command-IsAllowed fpu atof sodium clocks line w =
    run_words-IsAllowed fpu atof sodium clocks (words line) w
