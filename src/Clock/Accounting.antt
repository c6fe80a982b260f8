-- ===== src/Clock/Accounting.antt =====
-- chess-clock.ts: the time on the clock over a whole game, as accepted calls of `applyMove`.
use farzin.Prelude.{ℕ, zero, suc, ◌≡◌, sym, ap, ◌∙◌, ◌⊎◌, inl, inr, false, ok, Result-cases, arith}
use farzin.Prelude.Int.{ℤ, pos, ◌+ℤ◌, ◌-ℤ◌, ◌≤ℤ◌, ltb_ℤ, +ℤ_parts, -ℤ_parts, parts_of_eq, int_laws}
use farzin.Clock.{
  ClockConfig, ClockState, ApplyMoveResult, chargeable_ms, elapsed_since, remaining_of, remaining,
  apply_move, settle, assert_supported, create_clock, max_zero, increment_after, sudden_death,
  fischer_increment, ClockSide,
}
use farzin.Clock.Agreement.{apply_move_cases}

-- The state `t` after `n` accepted moves from `s`, which took `spent` together.
pub data Played (c : ClockConfig) (s : ClockState) : ℕ → ℤ → ClockState → Type 0 where
  start : Played c s 0 (pos 0) s
  move :
      {n : ℕ} {spent : ℤ} {t : ClockState} (now : ℤ) (r : ApplyMoveResult)
      → Played c s n spent t
      → apply_move c t now ≡ ok r
      → r.flagged ≡ false
      → Played c s (suc n) (spent +ℤ r.elapsed_ms) r.state

-- `n` increments.
abbrev pub increments : ℕ → ℤ → ℤ
increments zero x = pos 0
increments (suc n) x = increments n x +ℤ x

abbrev pub gain : ClockConfig → ℤ
gain c = increment_after c.clock_type c.increment_ms

abbrev pub total : ClockState → ℤ
total s = s.white_remaining_ms +ℤ s.black_remaining_ms

-- Neither side's time is negative.
pub record IsValid (s : ClockState) : Type 0 where
  pub white_left : pos 0 ≤ℤ s.white_remaining_ms
  pub black_left : pos 0 ≤ℤ s.black_remaining_ms

supported :
    (c : ClockConfig)
    → assert_supported c ≡ ok tt
    → (pos 1 ≤ℤ c.base_ms) × (pos 0 ≤ℤ c.increment_ms) × (pos 0 ≤ℤ gain c)
unfolding assert_supported
supported c h = ground arith

elapsed_since_nonneg : (s : ClockState) (now : ℤ) → pos 0 ≤ℤ elapsed_since s now
unfolding elapsed_since
elapsed_since_nonneg s now = ground arith

-- What is charged lies between nothing and the time that passed.
charge_bounds :
    (c : ClockConfig) (elapsed charge : ℤ)
    → chargeable_ms c elapsed ≡ ok charge
    → pos 0 ≤ℤ elapsed
    → pos 0 ≤ℤ c.increment_ms
    → (pos 0 ≤ℤ charge) × (charge ≤ℤ elapsed)
unfolding chargeable_ms
charge_bounds c elapsed charge h e i = ground (arith, -ℤ_parts elapsed c.increment_ms)

swap_charge :
    (w b x g : ℤ) → (w -ℤ x +ℤ g +ℤ b +ℤ x ≡ w +ℤ b +ℤ g) × (b +ℤ (w -ℤ x +ℤ g) +ℤ x ≡ b +ℤ w +ℤ g)
swap_charge w b x g = omega int_laws

left_nonneg : (w x g : ℤ) → ltb_ℤ w x ≡ false → pos 0 ≤ℤ g → pos 0 ≤ℤ w -ℤ x +ℤ g
left_nonneg w x g h k = ground (arith, -ℤ_parts w x, +ℤ_parts (w -ℤ x) g)

settle-total :
    (c : ClockConfig) (s : ClockState) (now elapsed charge : ℤ)
    → (settle c s now elapsed charge).flagged ≡ false
    → total (settle c s now elapsed charge).state +ℤ charge ≡ total s +ℤ gain c
unfolding settle
settle-total c s now elapsed charge f = ground (
  arith,
  swap_charge s.white_remaining_ms s.black_remaining_ms charge (gain c),
  swap_charge s.black_remaining_ms s.white_remaining_ms charge (gain c),
)

settle-IsValid :
    (c : ClockConfig) (s : ClockState) (now elapsed charge : ℤ)
    → pos 0 ≤ℤ gain c
    → IsValid s
    → IsValid (settle c s now elapsed charge).state
unfolding settle
settle-IsValid c s now elapsed charge g v = ground (
  arith,
  left_nonneg s.white_remaining_ms charge (gain c),
  left_nonneg s.black_remaining_ms charge (gain c),
)

-- `applyMove`, whether it accepts the move or the flag falls, leaves neither side with less than
-- nothing, if neither had less before.
apply_move-IsValid :
    (c : ClockConfig) (s : ClockState) (now : ℤ) {r : ApplyMoveResult}
    → apply_move c s now ≡ ok r
    → IsValid s
    → IsValid r.state
apply_move-IsValid c s now h v =
    let (good, (charge, charged, e)) = apply_move_cases c s now h in
    let (_, _, g) = supported c good in
    ground (arith, settle-IsValid c s now (elapsed_since s now) charge g v)

settle-elapsed :
    (c : ClockConfig) (s : ClockState) (now elapsed charge : ℤ)
    → (settle c s now elapsed charge).elapsed_ms ≡ elapsed
unfolding settle
settle-elapsed c s now elapsed charge = ground arith

abbrev pub HasNoDelay : ClockConfig → Type 0
HasNoDelay c = (c.clock_type ≡ sudden_death) ⊎ (c.clock_type ≡ fischer_increment)

chargeable_ms-no_delay :
    (c : ClockConfig) (elapsed charge : ℤ)
    → HasNoDelay c
    → chargeable_ms c elapsed ≡ ok charge
    → charge ≡ elapsed
unfolding chargeable_ms
chargeable_ms-no_delay c elapsed charge k h = ground arith

-- What an accepted move does to the total: it takes the charge off and adds the increment.
apply_move-total :
    (c : ClockConfig) (s : ClockState) (now : ℤ) (r : ApplyMoveResult)
    → apply_move c s now ≡ ok r
    → r.flagged ≡ false
    → (charge : ℤ) × (total r.state +ℤ charge ≡ total s +ℤ gain c)
      × (pos 0 ≤ℤ charge)
      × (HasNoDelay c → charge ≡ r.elapsed_ms)
apply_move-total c s now r h f =
    let (good, (charge, charged, e)) = apply_move_cases c s now h in
    let (_, delay, _) = supported c good in
    let elapsed = elapsed_since s now in
    let bounds = charge_bounds c elapsed charge charged (elapsed_since_nonneg s now) delay in
    (
      charge,
      ground (arith, settle-total c s now elapsed charge),
      bounds.0,
      λ k.
          chargeable_ms-no_delay c elapsed charge k charged
          ∙ sym (settle-elapsed c s now elapsed charge)
          ∙ ap (λ (x : ApplyMoveResult). x.elapsed_ms) (sym e),
    )

created :
    (c : ClockConfig) (turn : ClockSide) (now : ℤ) (s : ClockState)
    → create_clock c turn now ≡ ok s
    → (assert_supported c ≡ ok tt) × (total s ≡ c.base_ms +ℤ c.base_ms) × IsValid s
unfolding create_clock
created c turn now s h = ground arith

Played-IsValid :
    {c : ClockConfig} {s t : ClockState} {n : ℕ} {spent : ℤ}
    → IsValid s
    → Played c s n spent t
    → IsValid t
Played-IsValid v start = v
Played-IsValid {c} v (move {t = t} now r p h f) = apply_move-IsValid c t now h (Played-IsValid v p)

total_grows :
    {c : ClockConfig} {s t : ClockState} {n : ℕ} {spent : ℤ}
    → Played c s n spent t
    → total t ≤ℤ total s +ℤ increments n (gain c)
total_grows start = omega int_laws
total_grows {c} (move {t = t} now r p h f) =
    let (charge, moved, paid, _) = apply_move-total c t now r h f in
    let before = total_grows p in omega (int_laws, parts_of_eq moved)

-- In a game from `createClock` neither side's time is ever negative, and after `n` accepted moves
-- the two sides together hold at most both base times and `n` increments.
Played-total-le :
    (c : ClockConfig) (turn : ClockSide) (now : ℤ) {s t : ClockState} {n : ℕ} {spent : ℤ}
    → create_clock c turn now ≡ ok s
    → Played c s n spent t
    → IsValid t × (total t ≤ℤ c.base_ms +ℤ c.base_ms +ℤ increments n (gain c))
Played-total-le c turn now {s = s} h p =
    let (_, doubled, v) = created c turn now s h in
    let grown = total_grows p in (Played-IsValid v p, rw (← doubled) grown)

-- In a game without delay every millisecond is accounted for: after `n` accepted moves from a state
-- the clocks hold what they held there, less the time that the moves took, plus `n` increments.
pub Played-total :
    (c : ClockConfig) {s t : ClockState} {n : ℕ} {spent : ℤ}
    → HasNoDelay c
    → Played c s n spent t
    → total t +ℤ spent ≡ total s +ℤ increments n (gain c)
Played-total c k start = omega int_laws
Played-total c k (move {t = t} now r p h f) =
    let (charge, moved, _, exact) = apply_move-total c t now r h f in
    let before = Played-total c k p in
    rw (← exact k) (omega (int_laws, parts_of_eq moved, parts_of_eq before))

max_zero-sub_mono :
    (a b x : ℤ)
    → a ≤ℤ b
    → (max_zero (a -ℤ x) ≤ℤ max_zero (b -ℤ x)) × (max_zero (x -ℤ b) ≤ℤ max_zero (x -ℤ a))
max_zero-sub_mono a b x h = ground (arith, -ℤ_parts a x, -ℤ_parts b x, -ℤ_parts x a, -ℤ_parts x b)

chargeable_ms_mono :
    (c : ClockConfig) (before after : ℤ) {x y : ℤ}
    → before ≤ℤ after
    → chargeable_ms c before ≡ ok x
    → chargeable_ms c after ≡ ok y
    → x ≤ℤ y
unfolding chargeable_ms
chargeable_ms_mono c before after h p q =
    ground (arith, max_zero-sub_mono before after c.increment_ms)

no_charge :
    (c : ClockConfig) (s : ClockState) (now : ℤ)
    → assert_supported c ≡ ok tt
    → now ≤ℤ s.last_event_at_ms
    → chargeable_ms c (elapsed_since s now) ≡ ok (pos 0)
unfolding assert_supported chargeable_ms elapsed_since ◌-ℤ◌
no_charge c s now good h = ground arith

sub-zero : (x : ℤ) → pos 0 ≤ℤ x → max_zero (x -ℤ pos 0) ≡ x
unfolding ◌-ℤ◌
sub-zero x h = ground arith

-- `remaining` never grows while time passes: what it shows of a side at a later moment is at most
-- what it shows at an earlier one.
remaining_antitone :
    (c : ClockConfig) (s : ClockState) (side : ClockSide) (now later : ℤ) {x y : ℤ}
    → now ≤ℤ later
    → remaining c s side now ≡ ok x
    → remaining c s side later ≡ ok y
    → y ≤ℤ x
unfolding remaining
remaining_antitone c s side now later h p q =
    elim (Result-cases (chargeable_ms c (elapsed_since s now))) [
      | inl (a, e) ↦ elim (Result-cases (chargeable_ms c (elapsed_since s later))) [
        | inl (b, f) ↦
            let passed = (max_zero-sub_mono now later s.last_event_at_ms h).0 in
            let charged =
              chargeable_ms_mono c (elapsed_since s now) (elapsed_since s later)
                (unfold elapsed_since in passed) e f in
            ground (arith, max_zero-sub_mono a b (remaining_of s side) charged)
        | inr (b, f) ↦ ground arith
      ]
      | inr (a, e) ↦ ground arith
    ]

-- A wall clock that has jumped back costs nobody anything: if `now` is no later than the last event
-- then `remaining` shows the stored time of either side.
remaining_backward :
    (c : ClockConfig) (s : ClockState) (side : ClockSide) (now : ℤ)
    → assert_supported c ≡ ok tt
    → IsValid s
    → now ≤ℤ s.last_event_at_ms
    → remaining c s side now ≡ ok (remaining_of s side)
unfolding remaining
remaining_backward c s side now good v h =
    let stored = remaining_of s side in ground (arith, no_charge c s now good h, sub-zero stored)
