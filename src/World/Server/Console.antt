-- ===== src/World/Server/Console.antt =====
-- The commands that are typed at the world server (`runConsoleCommand` in
-- server/worldserver/src/main.cpp), without what they print. A line is a list of bytes; `atof` is the
-- float that the C library reads.
pub mod Allowed
use untitled.Base.{ℕ, ◌+◌, ◌-◌, ◌*◌, ◌%◌, ◌^◌, ◌≤◌, ◌<◌, ◌≡◌, refl, arith, All, min}
use untitled.Base.{Bool, true, false, not, ◌&&◌, ◌||◌, List, [], ◌∷◌, ◌++◌, length}
use untitled.Base.{Option, none, some, ◌==◌, ltb, leb, if◌then◌else◌}
use untitled.Net.Protocol.{PermissionLevel, level_code}
use untitled.Server.AuthServer.{Sodium}
use untitled.Server.DbClient.{Request}
use untitled.Server.Text.{is_space, skip_spaces, signed, atoi8}
use untitled.Sim.Float.{Fpu, clamp, zero_f}
use untitled.World.Simulation
use untitled.World.Server.{World, Clocks}
use untitled.World.Server.Answers.{latency_cap, speed_cap}

unfoldable pub same_text : List ℕ → List ℕ → Bool
same_text [] [] = true
same_text (a ∷ s) (b ∷ t) = let rest = same_text s t in if a == b then rest else false
same_text _ _ = false

-- The loop `while (stream >> word)`: `word` is what has been read of a word.
unfoldable pub words_from : List ℕ → List ℕ → List (List ℕ)
words_from word [] = if length word == 0 then [] else word ∷ []
words_from word (c ∷ line) =
    let ended = words_from [] line in
    let longer = words_from (word ++ (c ∷ [])) line in
    if is_space c then (if length word == 0 then ended else word ∷ ended) else longer

unfoldable pub words : List ℕ → List (List ℕ)
unfolding words_from
words line = words_from [] line

-- `std::atoi` for the numbers that an int holds, as a 32-bit word.
unfoldable pub atoi32 : List ℕ → ℕ
atoi32 text =
    let (minus, n) = signed (skip_spaces text) in
    if minus then (2 ^ 32 - n % 2 ^ 32) % 2 ^ 32 else n % 2 ^ 32

-- `text.find(':')` and the two substrings.
unfoldable pub behind : ℕ → Option (List ℕ × List ℕ) → Option (List ℕ × List ℕ)
behind c none = none
behind c (some (h, m)) = some (c ∷ h, m)

unfoldable pub split_colon : List ℕ → Option (List ℕ × List ℕ)
unfolding behind
split_colon [] = none
split_colon (c ∷ cs) =
    let rest = behind c (split_colon cs) in if c == 58 then some ([], cs) else rest

-- Below 0 or above `hi`, as an int.
abbrev pub outside : ℕ → ℕ → Bool
outside hi n = leb (2 ^ 31) n || ltb hi n

module _ (fpu : Fpu) (atof : List ℕ → ℕ) (clocks : Clocks) where
  -- 24 * 60 as a float.
  unfoldable pub set_clock : Option (List ℕ × List ℕ) → World → World
  unfolding atoi32
  set_clock none w = w
  set_clock (some (h, m)) w =
      let hours = atoi32 h in
      let mins = atoi32 m in
      let time = fpu.div (fpu.of_nat (hours * 60 + mins)) 0x44b40000 in
      if outside 23 hours || outside 59 mins
      then w
      else record w { simulation = Simulation.set_time_of_day fpu clocks.real time w.simulation }

  -- The words behind `time`.
  unfoldable pub time_words : List (List ℕ) → World → World
  unfolding same_text split_colon set_clock
  time_words [] w = w
  time_words (sub ∷ []) w =
      if same_text sub (114 ∷ 101 ∷ 115 ∷ 101 ∷ 116 ∷ [])
      then record w {
        simulation = Simulation.reset_clock fpu clocks.real clocks.seconds_today w.simulation;
      }
      else w
  time_words (sub ∷ value ∷ _) w =
      if same_text sub (114 ∷ 101 ∷ 115 ∷ 101 ∷ 116 ∷ [])
      then record w {
        simulation = Simulation.reset_clock fpu clocks.real clocks.seconds_today w.simulation;
      }
      else (if same_text sub (115 ∷ 101 ∷ 116 ∷ [])
          then set_clock (split_colon value) w
          else (if same_text sub (115 ∷ 112 ∷ 101 ∷ 101 ∷ 100 ∷ [])
              then record w {
                simulation =
                    Simulation.set_time_speed clocks.real (clamp (atof value) zero_f speed_cap)
                      w.simulation;
              }
              else w))

-- The words behind `latency`.
unfoldable pub latency_words : List (List ℕ) → World → World
unfolding same_text atoi32
latency_words (sub ∷ value ∷ _) w =
    if same_text sub (115 ∷ 101 ∷ 116 ∷ [])
    then record w { latency = min (atoi32 value) latency_cap }
    else w
latency_words _ w = w

module _ (sodium : Sodium) where
  -- `account create` behind the check of the length, with the hash.
  unfoldable pub create_on : Option (List ℕ) → List ℕ → ℕ → List Request
  create_on none name level = []
  create_on (some hash) name level = Request.create_account_with_level name hash level ∷ []

  unfoldable pub create_words : List ℕ → List ℕ → ℕ → List Request
  unfolding create_on
  create_words name password level =
      if ltb (length password) 6 then [] else create_on (sodium.pwhash password) name level

  unfoldable pub level_of : List (List ℕ) → ℕ
  level_of [] = 0
  level_of (text ∷ _) = atoi8 text

  unfoldable pub level_words : List ℕ → ℕ → List Request
  level_words name level =
      if ltb (level_code PermissionLevel.admin) level
      then []
      else Request.set_permission_level name level ∷ []

  -- The words behind `account`: what is asked of the database.
  unfoldable pub account_words : List (List ℕ) → List Request
  unfolding same_text create_words level_of level_words
  account_words (sub ∷ name ∷ third ∷ more) =
      if same_text sub (99 ∷ 114 ∷ 101 ∷ 97 ∷ 116 ∷ 101 ∷ [])
      then create_words name third (level_of more)
      else (if same_text sub (100 ∷ 101 ∷ 108 ∷ 101 ∷ 116 ∷ 101 ∷ [])
          then Request.delete_account name ∷ []
          else (if same_text sub (108 ∷ 101 ∷ 118 ∷ 101 ∷ 108 ∷ [])
              then level_words name (atoi8 third)
              else []))
  account_words (sub ∷ name ∷ []) =
      if same_text sub (100 ∷ 101 ∷ 108 ∷ 101 ∷ 116 ∷ 101 ∷ [])
      then Request.delete_account name ∷ []
      else []
  account_words _ = []

-- What a line does: the calls to the database, and the world.
unfoldable pub run_words :
    Fpu → (List ℕ → ℕ) → Sodium → Clocks → List (List ℕ) → World → List Request × World
unfolding same_text time_words latency_words account_words
run_words fpu atof sodium clocks [] w = ([], w)
run_words fpu atof sodium clocks (command ∷ more) w =
    if same_text command (116 ∷ 105 ∷ 109 ∷ 101 ∷ [])
    then ([], time_words fpu atof clocks more w)
    else (if same_text command (108 ∷ 97 ∷ 116 ∷ 101 ∷ 110 ∷ 99 ∷ 121 ∷ [])
        then ([], latency_words more w)
        else (if same_text command (97 ∷ 99 ∷ 99 ∷ 111 ∷ 117 ∷ 110 ∷ 116 ∷ [])
            then (account_words sodium more, w)
            else ([], w)))

unfoldable pub run_console_command :
    Fpu → (List ℕ → ℕ) → Sodium → Clocks → List ℕ → World → List Request × World
unfolding words run_words
run_console_command fpu atof sodium clocks line w = run_words fpu atof sodium clocks (words line) w
