-- ===== src/Pairing/Swiss/Weights.antt =====
-- The weights of the edges in a bracket, src/core/pairing/swiss/bracket-weights.ts. A bigint that is
-- never negative is a number; a weight is an integer. What an edge adds and what it takes away are
-- summed apart.
pub mod Bounds
use farzin.Prelude.{
  ℕ, zero, suc, ◌+◌, ◌-◌, ◌*◌, ◌^◌, Bool, true, false, not, ◌&&◌, Option, none, some, List, [], ◌∷◌,
  if◌then◌else◌, ltb, leb, ◌==◌, get_elem?, Result, ok, err, ◌>>=◌, ◌>>◌,
}
use farzin.Prelude.Int.{ℤ, pos, ◌-ℤ◌}
use farzin.Pairing.{
  Color, white, black, ColorPreferenceStrength, strong, FloatDirection, no_float, down, up,
}
use farzin.Pairing.Swiss.Colors.{allocate_colors, is_some_color}
use farzin.Pairing.Swiss.Players.{SwissPlayer, to_allocation_side, color_outcome_flags}

-- A place in a bracket: the player, the number in the sequence from 0, and whether the player was
-- carried from a higher bracket.
pub record BracketSlot : Type 0 where
  pub player : SwissPlayer
  pub bsn : ℕ
  pub carried : Bool

pub record WeightSchemeParams : Type 0 where
  pub n : ℕ
  pub min_score_x2 : ℕ
  pub max_score_x2 : ℕ
  pub max_unplayed : ℕ
  pub initial_color : Color

pub record ColorPenalties : Type 0 where
  pub c10 : ℕ
  pub c11 : ℕ
  pub c12 : ℕ
  pub c13 : ℕ
  pub first_is_white : Bool

abbrev pub one_if : Bool → ℕ
one_if true = 1
one_if false = 0

abbrev pub is_strong : ColorPreferenceStrength → Bool
is_strong strong = true
is_strong _ = false

-- `p.pref.color !== null && p.pref.color !== got`
abbrev pub is_refused : SwissPlayer → Color → Bool
is_refused p got = elim p.pref.color [ none ↦ false | some c ↦ not (is_some_color (some c) got) ]

-- What the loop of `colorPenaltiesFor` adds for one side.
abbrev pub side_penalties : SwissPlayer → Color → ColorPenalties
side_penalties p got =
    let flags = color_outcome_flags p got in
    record {
      c10 = one_if flags.exceeds_color_diff;
      c11 = one_if flags.three_in_a_row;
      c12 = one_if (is_refused p got);
      c13 = one_if (is_refused p got && is_strong p.pref.strength);
      first_is_white = false;
    }

unfoldable pub color_penalties_for : SwissPlayer → SwissPlayer → Color → ColorPenalties
color_penalties_for a b initial_color =
    let alloc = allocate_colors (to_allocation_side a) (to_allocation_side b) initial_color in
    let pa = side_penalties a (if alloc.first_is_white then white else black) in
    let pb = side_penalties b (if alloc.first_is_white then black else white) in
    record {
      c10 = pa.c10 + pb.c10;
      c11 = pa.c11 + pb.c11;
      c12 = pa.c12 + pb.c12;
      c13 = pa.c13 + pb.c13;
      first_is_white = alloc.first_is_white;
    }

unfoldable pub bpow : ℕ → ℕ → ℕ
bpow base zero = 1
bpow base (suc e) = bpow base e * base

-- The powers from `e` on, `n` of them.
unfoldable pub powers : ℕ → ℕ → ℕ → List ℕ
unfolding bpow
powers base e zero = []
powers base e (suc n) = bpow base e ∷ powers base (e + 1) n

-- The fields of `WeightScheme`; `baseTB` is 1.
pub record WeightScheme : Type 0 where
  pub params : WeightSchemeParams
  pub v_pow : List ℕ
  pub tb_pow : List ℕ
  pub base_c21 : ℕ
  pub base_c20 : ℕ
  pub base_c19 : ℕ
  pub base_c18 : ℕ
  pub base_c17 : ℕ
  pub base_c16 : ℕ
  pub base_c15 : ℕ
  pub base_c14 : ℕ
  pub base_c13 : ℕ
  pub base_c12 : ℕ
  pub base_c11 : ℕ
  pub base_c10 : ℕ
  pub base_c9 : ℕ
  pub base_sd : ℕ
  pub base_c7 : ℕ
  pub base_c5 : ℕ
  pub base_pair : ℕ

abbrev pub span_of : WeightSchemeParams → ℕ
span_of params = params.max_score_x2 - params.min_score_x2

-- The constructor; the largest score is not below the smallest.
unfoldable pub weight_scheme : WeightSchemeParams → WeightScheme
unfolding bpow powers
weight_scheme params =
    let n = params.n in
    let span = span_of params in
    let beta_tb = 2 * n + 3 in
    let v_base = n + 1 in
    let max_tb_total = bpow beta_tb (n + 1) in
    let max_exp_total = bpow v_base (span + 2) in
    let max_count = n in
    let base_c21 = 1 * (max_tb_total + 1) in
    let base_c20 = base_c21 * (max_exp_total + 1) in
    let base_c19 = base_c20 * (max_exp_total + 1) in
    let base_c18 = base_c19 * (max_exp_total + 1) in
    let base_c17 = base_c18 * (max_exp_total + 1) in
    let base_c16 = base_c17 * (max_count + 1) in
    let base_c15 = base_c16 * (max_count + 1) in
    let base_c14 = base_c15 * (max_count + 1) in
    let base_c13 = base_c14 * (max_count + 1) in
    let base_c12 = base_c13 * (max_count + 1) in
    let base_c11 = base_c12 * (max_count + 1) in
    let base_c10 = base_c11 * (max_count + 1) in
    let base_c9 = base_c10 * (max_count + 1) in
    let base_sd = base_c9 * (params.max_unplayed + 1) in
    let base_c7 = base_sd * (max_exp_total + 1) in
    let base_c5 = base_c7 * (max_exp_total + 1) in
    record {
      params = params;
      v_pow = powers v_base 0 (span + 3);
      tb_pow = powers beta_tb 0 (n + 1);
      base_c21 = base_c21;
      base_c20 = base_c20;
      base_c19 = base_c19;
      base_c18 = base_c18;
      base_c17 = base_c17;
      base_c16 = base_c16;
      base_c15 = base_c15;
      base_c14 = base_c14;
      base_c13 = base_c13;
      base_c12 = base_c12;
      base_c11 = base_c11;
      base_c10 = base_c10;
      base_c9 = base_c9;
      base_sd = base_sd;
      base_c7 = base_c7;
      base_c5 = base_c5;
      base_pair = base_c5 * (span + 1) * 2 + 1;
    }

-- What the bracket code throws: a `PairingImpossibleError`, or an internal error.
pub data BracketError : Type 0 where
  no_complete_pairing no_power too_few_groups incomplete_matching no_partner : BracketError
  matching_failed out_of_rounds : BracketError

-- `vPow[a - b]` and `tbPow[a - b]`, where a negative index has no element.
unfoldable pub power_at : List ℕ → ℕ → ℕ → Result BracketError ℕ
power_at table a b = elim (if leb b a then get_elem? table (a - b) else none) [
  | none ↦ err no_power
  | some v ↦ ok v
]

abbrev pub is_down : FloatDirection → Bool
is_down down = true
is_down _ = false

abbrev pub is_up : FloatDirection → Bool
is_up up = true
is_up _ = false

-- The bonus of criteria 14 and 16 for one side.
unfoldable pub resident_bonus : WeightScheme → BracketSlot → ℕ
resident_bonus s slot =
    one_if (not slot.carried && is_down slot.player.float_prev) * s.base_c14
    + one_if (not slot.carried && is_down slot.player.float_prev_prev) * s.base_c16

-- The penalties of criteria 15 and 17 to 21, for the side with more points and the other; `v` is (n + 1) to the power
-- of the difference of their scores.
unfoldable pub float_penalty : WeightScheme → SwissPlayer → SwissPlayer → ℕ → ℕ
float_penalty s lower upper v =
    one_if (is_up upper.float_prev) * (s.base_c15 + s.base_c19 * v)
    + one_if (is_up upper.float_prev_prev) * (s.base_c17 + s.base_c21 * v)
    + one_if (is_down lower.float_prev) * (s.base_c18 * v)
    + one_if (is_down lower.float_prev_prev) * (s.base_c20 * v)

-- SD and the penalties of floats, which only players of different scores have. `|a - b|` is written
-- with two subtractions that stop at 0.
unfoldable pub score_penalty : WeightScheme → SwissPlayer → SwissPlayer → Result BracketError ℕ
unfolding power_at float_penalty
score_penalty s pu pv =
    let d_x2 = (pu.score_x2 - pv.score_x2) + (pv.score_x2 - pu.score_x2) in
    elim (ltb 0 d_x2) [
      | false ↦ ok 0
      | true ↦ do
        v ← power_at s.v_pow d_x2 0
        let pu_is_down = ltb pv.score_x2 pu.score_x2
        ok (
            s.base_sd * v
            + float_penalty s (if pu_is_down then pu else pv) (if pu_is_down then pv else pu) v)
    ]

unfoldable pub color_penalty : WeightScheme → SwissPlayer → SwissPlayer → ℕ
unfolding color_penalties_for
color_penalty s pu pv =
    let pens = color_penalties_for pu pv s.params.initial_color in
    s.base_c10 * pens.c10 + s.base_c11 * pens.c11 + s.base_c12 * pens.c12 + s.base_c13 * pens.c13

abbrev pub lo_bsn : BracketSlot → BracketSlot → ℕ
lo_bsn u v = if ltb u.bsn v.bsn then u.bsn else v.bsn

abbrev pub hi_bsn : BracketSlot → BracketSlot → ℕ
hi_bsn u v = if ltb u.bsn v.bsn then v.bsn else u.bsn

abbrev pub partner_rank : ℕ → ℕ → ℕ → ℕ
partner_rank n split hi = if leb split hi then hi else 2 * n - hi

-- What an edge adds to its weight, with the powers that were looked up.
unfoldable pub edge_gain : WeightScheme → BracketSlot → BracketSlot → ℕ → ℕ → ℕ → ℕ → ℕ
unfolding resident_bonus
edge_gain s u v vu vv tb_lo tb_hi =
    let matched_bonus = 2 * s.params.n + 2 in
    s.base_pair
    + s.base_c7 * (vu + vv)
    + (resident_bonus s u + resident_bonus s v)
    + (tb_lo * matched_bonus + tb_hi * matched_bonus)

unfoldable pub real_edge_weight :
    WeightScheme → BracketSlot → BracketSlot → ℕ → Result BracketError ℤ
unfolding power_at score_penalty color_penalty edge_gain ◌-ℤ◌
real_edge_weight s u v split = do
  let n = s.params.n
  vu ← power_at s.v_pow u.player.score_x2 s.params.min_score_x2
  vv ← power_at s.v_pow v.player.score_x2 s.params.min_score_x2
  score ← score_penalty s u.player v.player
  tb_lo ← power_at s.tb_pow n (lo_bsn u v + 1)
  tb_hi ← power_at s.tb_pow n (hi_bsn u v + 1)
  let rank = partner_rank n split (hi_bsn u v)
  ok (
      pos (edge_gain s u v vu vv tb_lo tb_hi)
      -ℤ pos (score + color_penalty s u.player v.player + tb_lo * rank))

unfoldable pub dummy_edge_weight : WeightScheme → BracketSlot → ℤ
unfolding ◌-ℤ◌
dummy_edge_weight s slot =
    let p = s.params in
    pos (
      s.base_pair
      + s.base_c5 * p.max_score_x2
      + s.base_c9 * (p.max_unplayed - slot.player.unplayed_count))
    -ℤ pos (s.base_c5 * slot.player.score_x2)
