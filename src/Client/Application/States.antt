-- ===== src/Client/Application/States.antt =====
-- How the state of the client goes with that of its connection (client/src/application.cpp).
pub mod Frames
use untitled.Base.{ℕ, ◌≡◌, refl, sym, ◌∙◌, ap, subst, ◌⊎◌, inl, inr, Bool, true, false, not, ◌||◌}
use untitled.Base.{List, [], ◌∷◌, length, ◌==◌, if◌then◌else◌, Option, none, some, Bool-cases}
use untitled.Base.Maps.{Map}
use untitled.Net.Snapshot.{EntityState}
use untitled.Sim.Float.{Fpu}
use untitled.Client.Prediction
use untitled.Client.NetClient
use untitled.Client.NetClient.{Net, Phase, Intent, Replicated, fail, disconnect}
use untitled.Client.NetClient.Machine
use untitled.Client.NetClient.Phases.{Edge, IsBusy, poll-Edge}
use untitled.Client.Ui.{begin, finish}
use untitled.Client.Screens.{
  AppState, LoginAction, MenuAction, Renderer, draw_login, draw_menu, login_action,
}
use untitled.Client.Application.{
  Application, Settings, Frame, enter_state, load_world, unload_world, begin_login, logout,
  connected, dropped, follow, tick_on, ticks, replicate, replicate_all, apply_replication, update,
  login_acted, login_drawn, menu_acted, menu_drawn, screen_drawn, draw_ui, run,
}

-- Nothing is under way.
abbrev pub IsStill : Phase → Type 0
IsStill Phase.idle = Unit
IsStill Phase.failed = Unit
IsStill _ = ⊥

-- A login is under way, or has failed.
abbrev pub IsWaiting : Phase → Type 0
IsWaiting Phase.idle = ⊥
IsWaiting Phase.in_world = ⊥
IsWaiting _ = Unit

abbrev pub IsHere : Phase → Type 0
IsHere Phase.in_world = Unit
IsHere _ = ⊥

-- The login form stands where nothing is under way, and the world is there in the world alone.
abbrev pub Matches : AppState → Phase → Bool → Type 0
Matches AppState.login p loaded = IsStill p × (loaded ≡ false)
Matches AppState.connecting p loaded = IsWaiting p × (loaded ≡ false)
Matches AppState.in_game p loaded = IsHere p × (loaded ≡ true)
Matches AppState.menu p loaded = IsHere p × (loaded ≡ true)

abbrev pub IsMatched : Application → Type 0
IsMatched a = Matches a.state a.net.phase a.loaded

abbrev IsStarted : Phase → Type 0
IsStarted Phase.idle = ⊥
IsStarted _ = Unit

abbrev IsLive : Phase → Type 0
IsLive Phase.in_world = Unit
IsLive Phase.failed = Unit
IsLive _ = ⊥

IsStill-Edge : (p q : Phase) → IsStill p → Edge p q → IsStill q
IsStill-Edge p q h (Edge.stays _) = h
IsStill-Edge p q h (Edge.fails _ b) = tt
IsStill-Edge p q h Edge.asks_login = h
IsStill-Edge p q h Edge.has_token = h
IsStill-Edge p q h Edge.asks_join = h
IsStill-Edge p q h Edge.enters = h

waits-IsStarted : (p : Phase) → IsWaiting p → IsStarted p
waits-IsStarted Phase.idle h = h
waits-IsStarted Phase.connecting_auth h = tt
waits-IsStarted Phase.awaiting_login h = tt
waits-IsStarted Phase.connecting_world h = tt
waits-IsStarted Phase.awaiting_join h = tt
waits-IsStarted Phase.in_world h = tt
waits-IsStarted Phase.failed h = tt

here-IsLive : (p : Phase) → IsHere p → IsLive p
here-IsLive Phase.idle h = h
here-IsLive Phase.connecting_auth h = h
here-IsLive Phase.awaiting_login h = h
here-IsLive Phase.connecting_world h = h
here-IsLive Phase.awaiting_join h = h
here-IsLive Phase.in_world h = tt
here-IsLive Phase.failed h = tt

IsWaiting-Edge : (p q : Phase) → IsWaiting p → Edge p q → IsStarted q
IsWaiting-Edge p q h (Edge.stays _) = waits-IsStarted p h
IsWaiting-Edge p q h (Edge.fails _ b) = tt
IsWaiting-Edge p q h Edge.asks_login = tt
IsWaiting-Edge p q h Edge.has_token = tt
IsWaiting-Edge p q h Edge.asks_join = tt
IsWaiting-Edge p q h Edge.enters = tt

IsHere-Edge : (p q : Phase) → IsHere p → Edge p q → IsLive q
IsHere-Edge p q h (Edge.stays _) = here-IsLive p h
IsHere-Edge p q h (Edge.fails _ b) = tt
IsHere-Edge p q h Edge.asks_login = h
IsHere-Edge p q h Edge.has_token = h
IsHere-Edge p q h Edge.asks_join = h
IsHere-Edge p q h Edge.enters = tt

-- `connected` and `dropped` make them match again.
connected-IsMatched :
    (p : Phase) (a : Application)
    → a.net.phase ≡ p
    → a.state ≡ AppState.connecting
    → IsStarted p
    → a.loaded ≡ false
    → IsMatched (connected p a)
unfolding connected enter_state load_world
connected-IsMatched Phase.idle a h s b l = elim b [ ]
connected-IsMatched Phase.in_world a h s b l = rw h (tt, refl)
connected-IsMatched Phase.failed a h s b l = rw h (tt, l)
connected-IsMatched Phase.connecting_auth a h s b l = rw (h, s) (tt, l)
connected-IsMatched Phase.awaiting_login a h s b l = rw (h, s) (tt, l)
connected-IsMatched Phase.connecting_world a h s b l = rw (h, s) (tt, l)
connected-IsMatched Phase.awaiting_join a h s b l = rw (h, s) (tt, l)

dropped-IsMatched :
    (state : AppState) (p : Phase) (a : Application)
    → Matches state Phase.in_world a.loaded
    → a.net.phase ≡ p
    → a.state ≡ state
    → IsLive p
    → IsMatched (dropped p a)
unfolding dropped enter_state unload_world
dropped-IsMatched state Phase.in_world a m h s b = rw (h, s) m
dropped-IsMatched state Phase.failed a m h s b = rw h (tt, refl)
dropped-IsMatched state Phase.idle a m h s b = elim b [ ]
dropped-IsMatched state Phase.connecting_auth a m h s b = elim b [ ]
dropped-IsMatched state Phase.awaiting_login a m h s b = elim b [ ]
dropped-IsMatched state Phase.connecting_world a m h s b = elim b [ ]
dropped-IsMatched state Phase.awaiting_join a m h s b = elim b [ ]

-- What a poll has made of the connection.
pub follow-IsMatched :
    (state : AppState) (p : Phase) (a : Application)
    → a.state ≡ state
    → Matches state p a.loaded
    → Edge p a.net.phase
    → IsMatched (follow state a)
unfolding follow
follow-IsMatched AppState.login p a s (still, l) e = rw s (IsStill-Edge p a.net.phase still e, l)
follow-IsMatched AppState.connecting p a s (waiting, l) e =
    connected-IsMatched a.net.phase a refl s (IsWaiting-Edge p a.net.phase waiting e) l
follow-IsMatched AppState.in_game p a s (here, l) e =
    dropped-IsMatched AppState.in_game a.net.phase a (tt, l) refl s
      (IsHere-Edge p a.net.phase here e)
follow-IsMatched AppState.menu p a s (here, l) e =
    dropped-IsMatched AppState.menu a.net.phase a (tt, l) refl s (IsHere-Edge p a.net.phase here e)
