-- ===== src/TimeCategory.antt =====
-- The category of an online time control, src/core/clock/time-category.ts, for whole seconds. The
-- comparison of minutes is written for seconds: 60 times the source's.
use farzin.Prelude.{ℕ, ◌+◌, ◌*◌, ◌≤◌, arith, ltb, leb, if◌then◌else◌}

pub data TimeCategory : Type 0 where
  classical rapid blitz bullet : TimeCategory

abbrev pub effective_seconds : ℕ → ℕ → ℕ
effective_seconds base_time_seconds increment_seconds = base_time_seconds + 60 * increment_seconds

unfoldable pub online_time_category : ℕ → ℕ → TimeCategory
online_time_category base_time_seconds increment_seconds =
    let effective = effective_seconds base_time_seconds increment_seconds in
    if ltb effective 180
    then bullet
    else if leb effective 600
    then blitz
    else if ltb effective 1800
    then rapid
    else classical

-- From the fastest to the slowest.
abbrev pub pace : TimeCategory → ℕ
pace bullet = 0
pace blitz = 1
pace rapid = 2
pace classical = 3

-- More base time or more increment never gives a faster category, so a player cannot reach the pool of
-- a faster category with a slower game.
online_time_category_mono :
    (base base' increment increment' : ℕ)
    → base ≤ base'
    → increment ≤ increment'
    → pace (online_time_category base increment) ≤ pace (online_time_category base' increment')
unfolding online_time_category
online_time_category_mono base base' increment increment' h k = ground arith
