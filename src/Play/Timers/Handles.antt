-- ===== src/Play/Timers/Handles.antt =====
-- game-timers.ts: no timer is lost. A timer that is set stands in a map, so ending a game, or the
-- module, leaves none of its timers running.
use farzin.Prelude.{
  ℕ, ◌+◌, ◌≤◌, ◌≡◌, refl, inl, inr, arith, Option, none, some, List, [], ◌∷◌, if◌then◌else◌, ◌==◌,
  Option-cases,
}
use farzin.Prelude.Maps.{
  Entry, map_get, map_delete, value_count, one_at, IsKeyed, value_count-map_delete,
  map_delete-IsKeyed, map_get-map_delete, map_get-map_delete_ne,
}
use farzin.Clock.{ClockSide, white, black}
use farzin.Play.Timers.{
  GameTimers, no_timers, grace_at, game_key, grace_key, stop, stop_found, stop_all, clear_flag,
  schedule_flag, start_tick, stop_tick, clear_grace, schedule_grace, clear_game, on_module_destroy,
  fire,
}

abbrev pub live_count : ℕ → List ℕ → ℕ
live_count h [] = 0
live_count h (x ∷ xs) = (if x == h then 1 else 0) + live_count h xs

abbrev pub entry_count : ℕ → GameTimers → ℕ
entry_count h t = value_count h t.flags + value_count h t.ticks + value_count h t.graces

-- A timer runs only if it stands in a map, and a key stands in a map at most once.
pub record IsTracked (t : GameTimers) : Type 0 where
  pub covered : (h : ℕ) → live_count h t.live ≤ entry_count h t
  pub flag_keys : IsKeyed t.flags
  pub tick_keys : IsKeyed t.ticks
  pub grace_keys : IsKeyed t.graces

-- The states that the methods and the firing of timers lead to.
pub data Steps : GameTimers → Type 0 where
  begin : Steps no_timers
  flag_set : {t : GameTimers} (g : ℕ) → Steps t → Steps (schedule_flag g t)
  flag_cleared : {t : GameTimers} (g : ℕ) → Steps t → Steps (clear_flag g t)
  tick_started : {t : GameTimers} (g : ℕ) → Steps t → Steps (start_tick g t)
  tick_stopped : {t : GameTimers} (g : ℕ) → Steps t → Steps (stop_tick g t)
  grace_set : {t : GameTimers} (g : ℕ) (s : ClockSide) → Steps t → Steps (schedule_grace g s t)
  grace_cleared : {t : GameTimers} (g : ℕ) (s : ClockSide) → Steps t → Steps (clear_grace g s t)
  game_cleared : {t : GameTimers} (g : ℕ) → Steps t → Steps (clear_game g t)
  destroyed : {t : GameTimers} → Steps t → Steps (on_module_destroy t)
  fired : {t : GameTimers} (h : ℕ) → Steps t → Steps (fire h t)

stop-count :
    (h x : ℕ) (live : List ℕ)
    → live_count h (stop x live) ≡ (if x == h then 0 else live_count h live)
stop-count h x [] = ground arith
stop-count h x (y ∷ ys) = ground (arith, stop-count h x ys)

stop_found-count :
    (h : ℕ) (o : Option ℕ) (live : List ℕ) (rest : ℕ)
    → live_count h live ≤ one_at o h + rest
    → live_count h (stop_found o live) ≤ rest
stop_found-count h none live rest k = omega (arith, k)
stop_found-count h (some x) live rest k = ground (arith, stop-count h x live)

clear_flag-IsTracked : (g : ℕ) (t : GameTimers) → IsTracked t → IsTracked (clear_flag g t)
unfolding clear_flag
clear_flag-IsTracked g t i = record {
  covered = λ h.
      stop_found-count h (map_get g t.flags) t.live _
        (omega (arith, i.covered h, value_count-map_delete g h t.flags));
  flag_keys = map_delete-IsKeyed g t.flags i.flag_keys;
  tick_keys = i.tick_keys;
  grace_keys = i.grace_keys;
}

stop_tick-IsTracked : (g : ℕ) (t : GameTimers) → IsTracked t → IsTracked (stop_tick g t)
unfolding stop_tick
stop_tick-IsTracked g t i = record {
  covered = λ h.
      stop_found-count h (map_get g t.ticks) t.live _
        (omega (arith, i.covered h, value_count-map_delete g h t.ticks));
  flag_keys = i.flag_keys;
  tick_keys = map_delete-IsKeyed g t.ticks i.tick_keys;
  grace_keys = i.grace_keys;
}

clear_grace-IsTracked :
    (g : ℕ) (s : ClockSide) (t : GameTimers) → IsTracked t → IsTracked (clear_grace g s t)
unfolding clear_grace
clear_grace-IsTracked g s t i = record {
  covered = λ h.
      stop_found-count h (map_get (grace_at g s) t.graces) t.live _
        (omega (arith, i.covered h, value_count-map_delete (grace_at g s) h t.graces));
  flag_keys = i.flag_keys;
  tick_keys = i.tick_keys;
  grace_keys = map_delete-IsKeyed (grace_at g s) t.graces i.grace_keys;
}

schedule_flag-IsTracked : (g : ℕ) (t : GameTimers) → IsTracked t → IsTracked (schedule_flag g t)
unfolding schedule_flag clear_flag
schedule_flag-IsTracked g t i =
    let j = clear_flag-IsTracked g t i in
    record {
      covered = λ h. omega (arith, j.covered h);
      flag_keys = (map_get-map_delete g t.flags i.flag_keys, j.flag_keys);
      tick_keys = j.tick_keys;
      grace_keys = j.grace_keys;
    }

schedule_grace-IsTracked :
    (g : ℕ) (s : ClockSide) (t : GameTimers) → IsTracked t → IsTracked (schedule_grace g s t)
unfolding schedule_grace clear_grace
schedule_grace-IsTracked g s t i =
    let j = clear_grace-IsTracked g s t i in
    record {
      covered = λ h. omega (arith, j.covered h);
      flag_keys = j.flag_keys;
      tick_keys = j.tick_keys;
      grace_keys = (map_get-map_delete (grace_at g s) t.graces i.grace_keys, j.grace_keys);
    }

start_tick-IsTracked : (g : ℕ) (t : GameTimers) → IsTracked t → IsTracked (start_tick g t)
unfolding start_tick
start_tick-IsTracked g t i = elim (Option-cases (map_get g t.ticks)) [
  | inr (h, there) ↦ rw (start_tick, there) i
  | inl new ↦
      rw (start_tick, new)
        (record {
          covered = λ h. omega (arith, i.covered h);
          flag_keys = i.flag_keys;
          tick_keys = (new, i.tick_keys);
          grace_keys = i.grace_keys;
        })
]

-- Stopping every timer of a map stops those that stand in it, and no other.
stop_all-count :
    {K : Type 0} (h : ℕ) (es : List (Entry K)) (live : List ℕ) (rest : ℕ)
    → live_count h live ≤ value_count h es + rest
    → live_count h (stop_all es live) ≤ rest
stop_all-count h [] live rest k = omega (arith, k)
stop_all-count h (e ∷ es) live rest k =
    stop_all-count h es (stop e.value live) rest (ground (arith, stop-count h e.value live))

destroy_stops : (t : GameTimers) (h : ℕ) → IsTracked t → live_count h (on_module_destroy t).live ≤ 0
unfolding on_module_destroy
destroy_stops t h i =
    stop_all-count h t.graces _ 0 (
      stop_all-count h t.ticks _ _ (stop_all-count h t.flags t.live _ (omega (arith, i.covered h))))

destroy-IsTracked : (t : GameTimers) → IsTracked t → IsTracked (on_module_destroy t)
unfolding on_module_destroy
destroy-IsTracked t i = record {
  covered = λ h. omega (arith, destroy_stops t h i);
  flag_keys = tt;
  tick_keys = tt;
  grace_keys = tt;
}

fire-IsTracked : (x : ℕ) (t : GameTimers) → IsTracked t → IsTracked (fire x t)
unfolding fire
fire-IsTracked x t i = record {
  covered = λ h. ground (arith, stop-count h x t.live, i.covered h);
  flag_keys = i.flag_keys;
  tick_keys = i.tick_keys;
  grace_keys = i.grace_keys;
}

clear_game-IsTracked : (g : ℕ) (t : GameTimers) → IsTracked t → IsTracked (clear_game g t)
unfolding clear_game
clear_game-IsTracked g t i =
    clear_grace-IsTracked g black _
      (clear_grace-IsTracked g white _ (stop_tick-IsTracked g _ (clear_flag-IsTracked g t i)))

-- Whatever methods are called and whatever timers fire, in any order, every timer that runs stands in
-- one of the maps, as often as it runs, and no key stands in a map twice.
pub Steps-IsTracked : {t : GameTimers} → Steps t → IsTracked t
Steps-IsTracked begin = record {
  covered = λ h. omega arith;
  flag_keys = tt;
  tick_keys = tt;
  grace_keys = tt;
}
Steps-IsTracked (flag_set g s) = schedule_flag-IsTracked g _ (Steps-IsTracked s)
Steps-IsTracked (flag_cleared g s) = clear_flag-IsTracked g _ (Steps-IsTracked s)
Steps-IsTracked (tick_started g s) = start_tick-IsTracked g _ (Steps-IsTracked s)
Steps-IsTracked (tick_stopped g s) = stop_tick-IsTracked g _ (Steps-IsTracked s)
Steps-IsTracked (grace_set g c s) = schedule_grace-IsTracked g c _ (Steps-IsTracked s)
Steps-IsTracked (grace_cleared g c s) = clear_grace-IsTracked g c _ (Steps-IsTracked s)
Steps-IsTracked (game_cleared g s) = clear_game-IsTracked g _ (Steps-IsTracked s)
Steps-IsTracked (destroyed s) = destroy-IsTracked _ (Steps-IsTracked s)
Steps-IsTracked (fired h s) = fire-IsTracked h _ (Steps-IsTracked s)

none_live : (live : List ℕ) → ((h : ℕ) → live_count h live ≤ 0) → live ≡ []
none_live [] k = refl
none_live (x ∷ xs) k = absurd (ground (arith, k x))

-- After the module is destroyed no timer runs, whatever was called and fired before.
Steps-on_module_destroy : {t : GameTimers} → Steps t → (on_module_destroy t).live ≡ []
Steps-on_module_destroy {t = t} s = none_live _ (λ h. destroy_stops t h (Steps-IsTracked s))

-- After a game is cleared its flag, its tick and both its graces are gone from the maps, and every
-- timer that still runs stands in a map, so it belongs to another game.
pub Steps-clear_game :
    {t : GameTimers} (g : ℕ)
    → Steps t
    → (map_get g (clear_game g t).flags ≡ none)
      × (map_get g (clear_game g t).ticks ≡ none)
      × ((s : ClockSide) → map_get (grace_at g s) (clear_game g t).graces ≡ none)
      × ((h : ℕ) → live_count h (clear_game g t).live ≤ entry_count h (clear_game g t))
unfolding clear_game clear_flag stop_tick clear_grace
Steps-clear_game {t = t} g s =
    let i = Steps-IsTracked s in
    let w = grace_at g white in
    let b = grace_at g black in
    let left = map_delete-IsKeyed w t.graces i.grace_keys in
    let after = clear_game-IsTracked g t i in
    (
      map_get-map_delete g t.flags i.flag_keys,
      map_get-map_delete g t.ticks i.tick_keys,
      sides (λ c. map_get (grace_at g c) (map_delete b (map_delete w t.graces)) ≡ none)
          (map_get-map_delete_ne b w (map_delete w t.graces)
            (map_get-map_delete w t.graces i.grace_keys))
          (map_get-map_delete b (map_delete w t.graces) left),
      after.covered,
    )
  where
    sides : (P : ClockSide → Type 0) → P white → P black → (c : ClockSide) → P c
    sides P x y white = x
    sides P x y black = y
