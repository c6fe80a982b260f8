-- ===== src/Play/Timers.antt =====
-- The timers of the games, src/modules/play/game-timers.ts. The event loop is part of the state: the
-- handles of the timers that are set and have not been cleared, and the next handle that `setTimeout`
-- or `setInterval` gives. A callback is left out: which timer fires is an event of its own. Ids of
-- games are only compared, so they are numbers.
pub mod Handles
pub mod Flag
use farzin.Prelude.{
  ℕ, ◌+◌, ◌-◌, ◌≡◌, refl, ◌↔◌, Bool, true, false, ◌&&◌, Option, none, some, List, [], ◌∷◌,
  if◌then◌else◌, ◌==◌, ==_iff, arith,
}
use farzin.Prelude.Int.{ℤ, pos_part}
use farzin.Clock.{ClockSide, white, black, side_eq}
use farzin.TimeCategory.{TimeCategory, classical, rapid, blitz, bullet}
use farzin.Prelude.Maps.{Key, Entry, map_get, map_delete, map_add}

abbrev pub flag_epsilon_ms : ℕ
flag_epsilon_ms = 100

abbrev pub disconnect_grace_ms : TimeCategory → ℕ
disconnect_grace_ms bullet = 10000
disconnect_grace_ms blitz = 15000
disconnect_grace_ms rapid = 30000
disconnect_grace_ms classical = 120000

unfoldable pub grace_ms_for : TimeCategory → Option ℕ → ℕ
grace_ms_for category none = disconnect_grace_ms category
grace_ms_for category (some ms) = ms

-- What `flagDelayMs` reads of the clock.
pub record ClockPayload : Type 0 where
  pub white_ms : ℤ
  pub black_ms : ℤ
  pub running : Option ClockSide

unfoldable pub flag_delay_ms : ClockPayload → Option ℕ
flag_delay_ms clock = elim clock.running [
  | none ↦ none
  | some white ↦ some (pos_part clock.white_ms + flag_epsilon_ms)
  | some black ↦ some (pos_part clock.black_ms + flag_epsilon_ms)
]

-- `${gameId}:${side}`, the text that `graceKey` makes.
pub record GraceKey : Type 0 where
  pub game_id : ℕ
  pub side : ClockSide

abbrev pub same_grace : GraceKey → GraceKey → Bool
same_grace a b = a.game_id == b.game_id && side_eq a.side b.side

instance abbrev pub game_key : Key ℕ
game_key = record { same = ◌==◌; same_iff = ==_iff }

pub same_grace_iff : (a b : GraceKey) → (same_grace a b ≡ true) ↔ (a ≡ b)
same_grace_iff a b = ground arith

instance abbrev pub grace_key : Key GraceKey
grace_key = record { same = same_grace; same_iff = same_grace_iff }

abbrev pub grace_at : ℕ → ClockSide → GraceKey
grace_at game_id side = record { game_id = game_id; side = side }

pub record GameTimers : Type 0 where
  pub flags : List (Entry ℕ)
  pub ticks : List (Entry ℕ)
  pub graces : List (Entry GraceKey)
  pub live : List ℕ
  pub next_handle : ℕ

abbrev pub no_timers : GameTimers
no_timers = record { flags = []; ticks = []; graces = []; live = []; next_handle = 0 }

-- `clearTimeout`, `clearInterval`, and the end of a timeout that fires.
abbrev pub stop : ℕ → List ℕ → List ℕ
stop h [] = []
stop h (x ∷ xs) = let rest = stop h xs in if x == h then rest else x ∷ rest

abbrev pub stop_found : Option ℕ → List ℕ → List ℕ
stop_found none live = live
stop_found (some h) live = stop h live

unfoldable pub clear_flag : ℕ → GameTimers → GameTimers
clear_flag game_id t = record t {
  flags = map_delete game_id t.flags;
  live = stop_found (map_get game_id t.flags) t.live;
}

unfoldable pub schedule_flag : ℕ → GameTimers → GameTimers
unfolding clear_flag
schedule_flag game_id t =
    let t' = clear_flag game_id t in
    record t' {
      flags = map_add game_id t'.next_handle t'.flags;
      live = t'.next_handle ∷ t'.live;
      next_handle = t'.next_handle + 1;
    }

unfoldable pub start_tick : ℕ → GameTimers → GameTimers
start_tick game_id t = elim (map_get game_id t.ticks) [
  | some h ↦ t
  | none ↦ record t {
    ticks = map_add game_id t.next_handle t.ticks;
    live = t.next_handle ∷ t.live;
    next_handle = t.next_handle + 1;
  }
]

unfoldable pub stop_tick : ℕ → GameTimers → GameTimers
stop_tick game_id t = record t {
  ticks = map_delete game_id t.ticks;
  live = stop_found (map_get game_id t.ticks) t.live;
}

-- The state after `clearGrace`, and whether a handle was there.
unfoldable pub clear_grace : ℕ → ClockSide → GameTimers → GameTimers
clear_grace game_id side t =
    let key = grace_at game_id side in
    record t { graces = map_delete key t.graces; live = stop_found (map_get key t.graces) t.live }

unfoldable pub had_grace : ℕ → ClockSide → GameTimers → Bool
had_grace game_id side t = elim (map_get (grace_at game_id side) t.graces) [
  | none ↦ false
  | some h ↦ true
]

unfoldable pub schedule_grace : ℕ → ClockSide → GameTimers → GameTimers
unfolding clear_grace
schedule_grace game_id side t =
    let t' = clear_grace game_id side t in
    record t' {
      graces = map_add (grace_at game_id side) t'.next_handle t'.graces;
      live = t'.next_handle ∷ t'.live;
      next_handle = t'.next_handle + 1;
    }

unfoldable pub clear_game : ℕ → GameTimers → GameTimers
unfolding clear_flag stop_tick clear_grace
clear_game game_id t =
    clear_grace game_id black (clear_grace game_id white (stop_tick game_id (clear_flag game_id t)))

abbrev pub stop_all : {K : Type 0} → List (Entry K) → List ℕ → List ℕ
stop_all [] live = live
stop_all (e ∷ es) live = stop_all es (stop e.value live)

unfoldable pub on_module_destroy : GameTimers → GameTimers
on_module_destroy t = record t {
  flags = [];
  ticks = [];
  graces = [];
  live = stop_all t.graces (stop_all t.ticks (stop_all t.flags t.live));
}

-- A timeout fires: it is over, and its entry stays in the map.
unfoldable pub fire : ℕ → GameTimers → GameTimers
fire h t = record t { live = stop h t.live }
