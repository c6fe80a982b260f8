-- ===== src/Pairing/Swiss/Colors/Symmetry.antt =====
-- colors.ts, `allocateColors`: the order of the two sides does not matter.
use farzin.Prelude.{ℕ, zero, suc, ◌+◌, ◌≡◌, ◌≢◌, refl, arith, not, Option, none, some, List}
use farzin.Pairing.{Color}
use farzin.Pairing.Swiss.Colors.{
  ColorAllocationSide, allocate_colors, last_difference, opposite_color, allocate_by_rank,
  min_length,
}

abbrev opposite_option : Option Color → Option Color
opposite_option none = none
opposite_option (some c) = some (opposite_color c)

last_difference_swap :
    (ha hb : List Color) (back n : ℕ)
    → last_difference hb ha back n ≡ opposite_option (last_difference ha hb back n)
unfolding last_difference
last_difference_swap ha hb back zero = refl
last_difference_swap ha hb back (suc n) = grind (arith, last_difference_swap ha hb (back + 1) n)

min_length_comm : (ha hb : List Color) → min_length ha hb ≡ min_length hb ha
min_length_comm ha hb = ground arith

-- `allocateColors` does not depend on the order in which it is given the two players, if their ranks
-- differ: with the sides exchanged the same player has white, by the same rule.
pub allocate_colors_swap :
    (a b : ColorAllocationSide) (initial_color : Color)
    → a.rank_index ≢ b.rank_index
    → ((allocate_colors b a initial_color).first_is_white
        ≡ not (allocate_colors a b initial_color).first_is_white)
      × ((allocate_colors b a initial_color).rule ≡ (allocate_colors a b initial_color).rule)
unfolding allocate_colors allocate_by_rank
allocate_colors_swap a b initial_color ne = ground (
  arith,
  last_difference_swap a.history b.history 1 (min_length a.history b.history),
  min_length_comm a.history b.history,
)
