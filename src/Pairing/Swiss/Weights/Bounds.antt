-- ===== src/Pairing/Swiss/Weights/Bounds.antt =====
-- bracket-weights.ts: the powers that are prepared are enough, and every edge between two players has
-- a positive weight.
use farzin.Prelude.{
  ℕ, zero, suc, ◌+◌, ◌-◌, ◌*◌, ◌≤◌, ◌<◌, ◌≡◌, refl, ap, ◌∙◌, Bool, some, arith, if◌then◌else◌, ltb,
  leb, get_elem?, Result, ok, ◌>>=◌, Bool-cases, inl, inr,
}
use native.Mathlib.Nat.{mul-le-mul_left, mul-le-mul_right}
use farzin.Prelude.Int.{pos, ◌-ℤ◌}
use farzin.Pairing.{Color}
use farzin.Pairing.Swiss.Players.{SwissPlayer}
use farzin.Pairing.Swiss.Weights.{
  BracketSlot, WeightSchemeParams, WeightScheme, weight_scheme, bpow, powers, power_at, one_if,
  is_up, is_down, color_penalties_for, color_penalty, float_penalty, score_penalty,
  dummy_edge_weight, lo_bsn, hi_bsn, partner_rank, edge_gain, real_edge_weight, span_of,
}

powers-get_elem? :
    (base e n i k : ℕ) → i < n → e + i ≡ k → get_elem? (powers base e n) i ≡ some (bpow base k)
unfolding powers
powers-get_elem? base e zero i k h s = absurd (omega arith)
powers-get_elem? base e (suc n) zero k h s = ap (λ j. some (bpow base j)) (omega arith)
powers-get_elem? base e (suc n) (suc i) k h s =
    powers-get_elem? base (e + 1) n i k (omega arith) (omega arith)

bpow-add_one : (base n : ℕ) → bpow base (n + 1) ≡ bpow base n * base
unfolding bpow
bpow-add_one base n = let e : n + 1 ≡ suc n = omega arith in ap (bpow base) e

bpow_mono : (base i j : ℕ) → 1 ≤ base → i ≤ j → bpow base i ≤ bpow base j
unfolding bpow
bpow_mono base i zero g h = ground arith
bpow_mono base i (suc j) g h = elim (Bool-cases (leb i j)) [
  | inl below ↦ omega (arith, bpow_mono base i j g (ground arith), mul-le-mul_left (bpow base j) g)
  | inr above ↦ let e : i ≡ suc j = ground arith in rw e (omega arith)
]

-- The entry that a difference within the table finds.
power_at-powers :
    (base size a b : ℕ)
    → b ≤ a
    → a - b < size
    → power_at (powers base 0 size) a b ≡ ok (bpow base (a - b))
unfolding power_at
power_at-powers base size a b h k =
    let found = powers-get_elem? base 0 size (a - b) (a - b) k (omega arith) in ground arith

-- A sum below one unit of a level, with fewer units of that level than the next is made of, is below
-- one unit of the next.
absorb : (p b v m : ℕ) → p < b → v ≤ m → p + b * v < b * (m + 1)
absorb p b v m h k = omega (arith, mul-le-mul_left b k)

-- The levels of a scheme: how many units of each make one of the next, with `m` the largest power of
-- the scores.
record HasLevels (s : WeightScheme) (m : ℕ) : Type 0 where
  c20 : s.base_c20 ≡ s.base_c21 * (m + 1)
  c19 : s.base_c19 ≡ s.base_c20 * (m + 1)
  c18 : s.base_c18 ≡ s.base_c19 * (m + 1)
  c17 : s.base_c17 ≡ s.base_c18 * (m + 1)
  c16 : s.base_c16 ≡ s.base_c17 * (s.params.n + 1)
  c15 : s.base_c15 ≡ s.base_c16 * (s.params.n + 1)
  c14 : s.base_c14 ≡ s.base_c15 * (s.params.n + 1)
  c13 : s.base_c13 ≡ s.base_c14 * (s.params.n + 1)
  c12 : s.base_c12 ≡ s.base_c13 * (s.params.n + 1)
  c11 : s.base_c11 ≡ s.base_c12 * (s.params.n + 1)
  c10 : s.base_c10 ≡ s.base_c11 * (s.params.n + 1)
  c9 : s.base_c9 ≡ s.base_c10 * (s.params.n + 1)
  sd : s.base_sd ≡ s.base_c9 * (s.params.max_unplayed + 1)
  c7 : s.base_c7 ≡ s.base_sd * (m + 1)
  pair : s.base_c7 ≤ s.base_pair

levels_grow : (a b c : ℕ) → a ≤ a * (b + 1) * (c + 1) * 2 + 1
levels_grow a b c = omega arith

weight_scheme-HasLevels :
    (p : WeightSchemeParams) → HasLevels (weight_scheme p) (bpow (p.n + 1) (span_of p + 2))
unfolding weight_scheme
weight_scheme-HasLevels p = record {
  c20 = refl;
  c19 = refl;
  c18 = refl;
  c17 = refl;
  c16 = refl;
  c15 = refl;
  c14 = refl;
  c13 = refl;
  c12 = refl;
  c11 = refl;
  c10 = refl;
  c9 = refl;
  sd = refl;
  c7 = refl;
  pair = levels_grow _ _ _;
}

-- Counts in place of the tests: a sum of penalties whose counts are within the range of their level
-- is below one unit of the level of criterion 7.
penalties_below :
    (s : WeightScheme) (m tb x21 x20 x19 x18 x17 x15 x13 x12 x11 x10 v : ℕ)
    → HasLevels s m
    → tb < s.base_c21
    → (x21 ≤ m) × (x20 ≤ m) × (x19 ≤ m) × (x18 ≤ m) × (v ≤ m)
    → (x17 ≤ s.params.n) × (x15 ≤ s.params.n)
    → (x13 ≤ s.params.n) × (x12 ≤ s.params.n) × (x11 ≤ s.params.n) × (x10 ≤ s.params.n)
    → tb
        + s.base_c21 * x21
        + s.base_c20 * x20
        + s.base_c19 * x19
        + s.base_c18 * x18
        + s.base_c17 * x17
        + s.base_c15 * x15
        + s.base_c13 * x13
        + s.base_c12 * x12
        + s.base_c11 * x11
        + s.base_c10 * x10
        + s.base_sd * v
      < s.base_c7
penalties_below s m tb x21 x20 x19 x18 x17 x15 x13 x12 x11 x10 v l t e f g =
    let k : (a b x c b' : ℕ) → a < b → x ≤ c → b' ≡ b * (c + 1) → a + b * x < b' =
      λ a b x c b' h i eq. omega (arith, absorb a b x c h i) in
    let z : (a b c b' : ℕ) → a < b → b' ≡ b * (c + 1) → a < b' =
      λ a b c b' h eq. omega (arith, absorb a b 0 c h (omega arith)) in
    let (x21_in, x20_in, x19_in, x18_in, v_in) = e in
    let (x17_in, x15_in) = f in
    let (x13_in, x12_in, x11_in, x10_in) = g in
    let s20 = k _ _ _ _ _ t x21_in l.c20 in
    let s19 = k _ _ _ _ _ s20 x20_in l.c19 in
    let s18 = k _ _ _ _ _ s19 x19_in l.c18 in
    let s17 = k _ _ _ _ _ s18 x18_in l.c17 in
    let s16 = k _ _ _ _ _ s17 x17_in l.c16 in
    let s15 = z _ _ _ _ s16 l.c15 in
    let s14 = k _ _ _ _ _ s15 x15_in l.c14 in
    let s13 = z _ _ _ _ s14 l.c13 in
    let s12 = k _ _ _ _ _ s13 x13_in l.c12 in
    let s11 = k _ _ _ _ _ s12 x12_in l.c11 in
    let s10 = k _ _ _ _ _ s11 x11_in l.c10 in
    let s9 = k _ _ _ _ _ s10 x10_in l.c9 in let sd = z _ _ _ _ s9 l.sd in k _ _ _ _ _ sd v_in l.c7

one_if_le : (b : Bool) (v m : ℕ) → v ≤ m → one_if b * v ≤ m
one_if_le b v m h = ground arith

one_if_two : (x y : Bool) → one_if x + one_if y ≤ 2
one_if_two x y = ground arith

one_if_one : (x : Bool) → one_if x ≤ 1
one_if_one x = ground arith

color_penalties_for-le :
    (a b : SwissPlayer) (c : Color)
    → let pens = color_penalties_for a b c in
      (pens.c10 ≤ 2) × (pens.c11 ≤ 2) × (pens.c12 ≤ 2) × (pens.c13 ≤ 2)
unfolding color_penalties_for
color_penalties_for-le a b c = (one_if_two _ _, one_if_two _ _, one_if_two _ _, one_if_two _ _)

-- The scores of a player are within the range of the scheme, and the place is one of the `n`.
pub record IsPlaced (p : WeightSchemeParams) (slot : BracketSlot) : Type 0 where
  pub above : p.min_score_x2 ≤ slot.player.score_x2
  pub below : slot.player.score_x2 ≤ p.max_score_x2
  pub place : slot.bsn < p.n

v_power :
    (p : WeightSchemeParams) (a b : ℕ)
    → b ≤ a
    → a - b ≤ span_of p
    → power_at (weight_scheme p).v_pow a b ≡ ok (bpow (p.n + 1) (a - b))
unfolding weight_scheme
v_power p a b h k = power_at-powers (p.n + 1) (span_of p + 3) a b h (omega arith)

tb_power :
    (p : WeightSchemeParams) (b : ℕ)
    → b < p.n
    → power_at (weight_scheme p).tb_pow p.n (b + 1) ≡ ok (bpow (2 * p.n + 3) (p.n - (b + 1)))
unfolding weight_scheme
tb_power p b h = power_at-powers (2 * p.n + 3) (p.n + 1) p.n (b + 1) (omega arith) (omega arith)

-- The penalty of a difference of scores, as counts of the units of the levels.
record IsScorePenalty (s : WeightScheme) (m total : ℕ) : Type 0 where
  x21 : ℕ
  x20 : ℕ
  x19 : ℕ
  x18 : ℕ
  x17 : ℕ
  x15 : ℕ
  v : ℕ
  within : (x21 ≤ m) × (x20 ≤ m) × (x19 ≤ m) × (x18 ≤ m) × (v ≤ m)
  few : (x17 ≤ 1) × (x15 ≤ 1)
  sum :
      total
      ≡ s.base_c21 * x21
        + s.base_c20 * x20
        + s.base_c19 * x19
        + s.base_c18 * x18
        + s.base_c17 * x17
        + s.base_c15 * x15
        + s.base_sd * v

float_penalty-IsScorePenalty :
    (s : WeightScheme) (lower upper : SwissPlayer) (v m : ℕ)
    → v ≤ m
    → IsScorePenalty s m (s.base_sd * v + float_penalty s lower upper v)
unfolding float_penalty
float_penalty-IsScorePenalty s lower upper v m h = record {
  x21 = one_if (is_up upper.float_prev_prev) * v;
  x20 = one_if (is_down lower.float_prev_prev) * v;
  x19 = one_if (is_up upper.float_prev) * v;
  x18 = one_if (is_down lower.float_prev) * v;
  x17 = one_if (is_up upper.float_prev_prev);
  x15 = one_if (is_up upper.float_prev);
  v = v;
  within = (one_if_le _ v m h, one_if_le _ v m h, one_if_le _ v m h, one_if_le _ v m h, h);
  few = (one_if_one _, one_if_one _);
  sum = omega arith;
}

no_penalty : (s : WeightScheme) (m : ℕ) → IsScorePenalty s m 0
no_penalty s m = record {
  x21 = 0;
  x20 = 0;
  x19 = 0;
  x18 = 0;
  x17 = 0;
  x15 = 0;
  v = 0;
  within = (omega arith, omega arith, omega arith, omega arith, omega arith);
  few = (omega arith, omega arith);
  sum = omega arith;
}

score_penalty-ok :
    (p : WeightSchemeParams) (pu pv : SwissPlayer)
    → (pu.score_x2 - pv.score_x2) + (pv.score_x2 - pu.score_x2) ≤ span_of p
    → (total : ℕ) × (score_penalty (weight_scheme p) pu pv ≡ ok total)
      × IsScorePenalty (weight_scheme p) (bpow (p.n + 1) (span_of p + 2)) total
unfolding score_penalty
score_penalty-ok p pu pv h =
    let s = weight_scheme p in
    let d = (pu.score_x2 - pv.score_x2) + (pv.score_x2 - pu.score_x2) in
    let found = v_power p d 0 (omega arith) (omega arith) in
    let v = bpow (p.n + 1) (d - 0) in
    let small = bpow_mono (p.n + 1) (d - 0) (span_of p + 2) (omega arith) (omega arith) in
    let pu_is_down = ltb pv.score_x2 pu.score_x2 in
    elim (Bool-cases (ltb 0 d)) [
      | inr same ↦ (0, ground arith, no_penalty s _)
      | inl differ ↦ (
        _,
        ground (arith, found),
        float_penalty-IsScorePenalty s (if pu_is_down then pu else pv)
            (if pu_is_down then pv else pu) v _ small,
      )
    ]

tie_break_below :
    (p : WeightSchemeParams) (b rank : ℕ)
    → b < p.n
    → rank ≤ 2 * p.n
    → bpow (2 * p.n + 3) (p.n - (b + 1)) * rank < (weight_scheme p).base_c21
unfolding weight_scheme
tie_break_below p b rank h k =
    let grown = bpow_mono (2 * p.n + 3) (p.n - (b + 1)) p.n (omega arith) (omega arith) in
    let x = bpow (2 * p.n + 3) (p.n - (b + 1)) in
    let y = bpow (2 * p.n + 3) p.n in
    let ranked : x * rank ≤ x * (2 * p.n + 3) = mul-le-mul_left x (omega arith) in
    let widened : x * (2 * p.n + 3) ≤ y * (2 * p.n + 3) = mul-le-mul_right (2 * p.n + 3) grown in
    omega (arith, bpow-add_one (2 * p.n + 3) p.n)

-- Five calls that return, and what is made of their values.
do_steps :
    {E A B : Type 0} {a b c d e : Result E A} {x y z w v : A} (f : A → A → A → A → A → Result E B)
    → a ≡ ok x
    → b ≡ ok y
    → c ≡ ok z
    → d ≡ ok w
    → e ≡ ok v
    → (do p ← a; q ← b; r ← c; s ← d; t ← e; f p q r s t) ≡ f x y z w v
do_steps _ h i j k l = rw (h, i, j, k, l) refl

pos-sub : (a b : ℕ) → b < a → (w : ℕ) × (pos a -ℤ pos b ≡ pos w) × (0 < w)
unfolding ◌-ℤ◌
pos-sub a b h = (a - b, ground arith, omega arith)

-- Whatever was looked up, the terms that are taken away are less than those that are added.
penalties_below_gain :
    (s : WeightScheme) (u v : BracketSlot) (m vu vv score tb_lo tb_hi rank : ℕ)
    → HasLevels s m
    → 2 ≤ s.params.n
    → IsScorePenalty s m score
    → tb_lo * rank < s.base_c21
    → score + color_penalty s u.player v.player + tb_lo * rank < edge_gain s u v vu vv tb_lo tb_hi
unfolding color_penalty edge_gain
penalties_below_gain s u v m vu vv score tb_lo tb_hi rank l two q tied =
    let pens = color_penalties_for u.player v.player s.params.initial_color in
    let (c10, c11, c12, c13) = color_penalties_for-le u.player v.player s.params.initial_color in
    let (few17, few15) = q.few in
    let below =
      penalties_below s m (tb_lo * rank) q.x21 q.x20 q.x19 q.x18 q.x17 q.x15 pens.c13 pens.c12
        pens.c11 pens.c10 q.v l tied q.within (omega arith, omega arith)
        (omega arith, omega arith, omega arith, omega arith) in
    omega (arith, below, l.pair, q.sum)

-- The edge between two players that stand in a bracket: the powers that it needs are prepared, and
-- its weight is positive, so a pair is always worth more than no pair. The places are below the number
-- of players, which is at least 2, and the scores are within the range of the scheme.
pub real_edge_weight-positive :
    (p : WeightSchemeParams) (u v : BracketSlot) (split : ℕ)
    → 2 ≤ p.n
    → IsPlaced p u
    → IsPlaced p v
    → (w : ℕ) × (real_edge_weight (weight_scheme p) u v split ≡ ok (pos w)) × (0 < w)
unfolding real_edge_weight weight_scheme
real_edge_weight-positive p u v split two pu pv =
    let s = weight_scheme p in
    let vu = v_power p u.player.score_x2 p.min_score_x2 pu.above (omega (arith, pu.below)) in
    let vv = v_power p v.player.score_x2 p.min_score_x2 pv.above (omega (arith, pv.below)) in
    let (total, scored, shape) =
      score_penalty-ok p u.player v.player
        (omega (arith, pu.above, pu.below, pv.above, pv.below)) in
    let lo_in : lo_bsn u v < p.n = ground (arith, pu.place, pv.place) in
    let hi_in : hi_bsn u v < p.n = ground (arith, pu.place, pv.place) in
    let rank = partner_rank p.n split (hi_bsn u v) in
    let tied = tie_break_below p (lo_bsn u v) rank lo_in (ground (arith, hi_in)) in
    let (w, difference, positive) = pos-sub _ _ (
      penalties_below_gain s u v _ _ _ total _ _ rank (weight_scheme-HasLevels p) two shape tied) in
    let steps =
      do_steps _ vu vv scored (tb_power p (lo_bsn u v) lo_in) (tb_power p (hi_bsn u v) hi_in) in
    (w, steps ∙ ap ok difference, positive)

base_pair_above : (a b c d : ℕ) → d ≤ b → d < a * 2 + 1 + b + c
base_pair_above a b c d h = omega arith

-- The edge to the dummy has a positive weight too.
pub dummy_edge_weight-positive :
    (p : WeightSchemeParams) (u : BracketSlot)
    → IsPlaced p u
    → (w : ℕ) × (dummy_edge_weight (weight_scheme p) u ≡ pos w) × (0 < w)
unfolding dummy_edge_weight weight_scheme
dummy_edge_weight-positive p u h =
    let s = weight_scheme p in
    let paid : s.base_c5 * u.player.score_x2 ≤ s.base_c5 * p.max_score_x2 =
      mul-le-mul_left s.base_c5 h.below in
    pos-sub _ _ (base_pair_above _ _ _ _ paid)
