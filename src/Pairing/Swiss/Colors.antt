-- ===== src/Pairing/Swiss/Colors.antt =====
-- Colour preferences and their allocation, src/core/pairing/swiss/colors.ts.
pub mod Symmetry
pub mod History
use farzin.Prelude.{
  ℕ, zero, suc, ◌+◌, ◌-◌, ◌%◌, Bool, true, false, not, ◌&&◌, ◌||◌, Option, none, some, List, [],
  ◌∷◌, if◌then◌else◌, ltb, leb, ◌==◌, length, get_elem?,
}
use farzin.Prelude.Int.{ℤ, pos, negsuc, ◌+ℤ◌, ltb_ℤ, eq_ℤ, magnitude}
use farzin.Pairing.{
  Color, white, black, ColorPreference, ColorPreferenceStrength, absolute, strong, mild, none_yet,
}

abbrev pub opposite_color : Color → Color
opposite_color white = black
opposite_color black = white

abbrev pub color_eq : Color → Color → Bool
color_eq white white = true
color_eq black black = true
color_eq _ _ = false

abbrev pub is_white : Color → Bool
is_white white = true
is_white black = false

-- What a game with the colour adds to the colour difference.
abbrev pub color_weight : Color → ℤ
color_weight white = pos 1
color_weight black = negsuc 0

color_difference_from : ℤ → List Color → ℤ
color_difference_from cd [] = cd
color_difference_from cd (c ∷ cs) = color_difference_from (cd +ℤ color_weight c) cs

unfoldable pub color_difference : List Color → ℤ
unfolding color_difference_from
color_difference history = color_difference_from (pos 0) history

-- `history[history.length - back]`
abbrev pub from_end : List Color → ℕ → Option Color
from_end history back =
    if leb back (length history) then get_elem? history (length history - back) else none

abbrev pub is_some_color : Option Color → Color → Bool
is_some_color none c = false
is_some_color (some d) c = color_eq d c

abbrev pub preference : Color → ColorPreferenceStrength → ColorPreference
preference c s = record { color = some c; strength = s }

abbrev pub no_preference : ColorPreference
no_preference = record { color = none; strength = none_yet }

-- The tests of `colorPreferenceOf`, on the colour difference and the last two colours.
unfoldable pub preference_of : ℤ → Option Color → Option Color → ColorPreference
preference_of cd last before_last =
    if ltb_ℤ (pos 1) cd
    then preference black absolute
    else if ltb_ℤ cd (negsuc 0)
    then preference white absolute
    else elim last [
      | none ↦ no_preference
      | some c ↦
          if is_some_color before_last c
          then preference (opposite_color c) absolute
          else if eq_ℤ cd (pos 1)
          then preference black strong
          else if eq_ℤ cd (negsuc 0)
          then preference white strong
          else preference (opposite_color c) mild
    ]

unfoldable pub color_preference_of : List Color → ColorPreference
unfolding color_difference preference_of
color_preference_of [] = no_preference
color_preference_of (c ∷ cs) =
    preference_of (color_difference (c ∷ cs)) (from_end (c ∷ cs) 1) (from_end (c ∷ cs) 2)

pub record ColorAllocationSide : Type 0 where
  pub pref : ColorPreference
  pub color_diff : ℤ
  pub history : List Color
  pub rank_index : ℕ
  pub pairing_number : ℕ

-- The rule of Article 5.2 that was applied: 5.2.1 to 5.2.5.
pub data AllocationRule : Type 0 where
  both_granted stronger_granted alternated higher_rank_granted by_number : AllocationRule

pub record ColorAllocation : Type 0 where
  pub first_is_white : Bool
  pub rule : AllocationRule

abbrev pub strength_order : ColorPreferenceStrength → ℕ
strength_order absolute = 3
strength_order strong = 2
strength_order mild = 1
strength_order none_yet = 0

abbrev pub is_absolute : ColorPreferenceStrength → Bool
is_absolute absolute = true
is_absolute _ = false

-- `first ? wantsWhite : !wantsWhite`
abbrev pub side_of : Bool → Bool → Bool
side_of true wants_white = wants_white
side_of false wants_white = not wants_white

abbrev pub allocation : Bool → AllocationRule → ColorAllocation
allocation first rule = record { first_is_white = first; rule = rule }

-- The loop of 5.2.3, from `back` on with `n` rounds left: the first side's colour in the latest pair
-- of games with different colours.
unfoldable pub last_difference : List Color → List Color → ℕ → ℕ → Option Color
last_difference ha hb back zero = none
last_difference ha hb back (suc n) =
    let rest = last_difference ha hb (back + 1) n in
    elim (from_end ha back) [
      | none ↦ rest
      | some ca ↦ elim (from_end hb back) [
        | none ↦ rest
        | some cb ↦ if color_eq ca cb then rest else some ca
      ]
    ]

abbrev min_length : List Color → List Color → ℕ
min_length ha hb = if leb (length ha) (length hb) then length ha else length hb

-- Rules 5.2.4 and 5.2.5.
unfoldable pub allocate_by_rank :
    ColorAllocationSide → ColorAllocationSide → Color → ColorAllocation
allocate_by_rank a b initial_color =
    let first_higher = ltb a.rank_index b.rank_index in
    let higher = if first_higher then a else b in
    elim higher.pref.color [
      | some c ↦ allocation (side_of first_higher (is_white c)) higher_rank_granted
      | none ↦
          let higher_gets =
            if higher.pairing_number % 2 == 1
            then initial_color
            else opposite_color initial_color in
          allocation (side_of first_higher (is_white higher_gets)) by_number
    ]

-- Rule 5.2.3 and those after it.
unfoldable pub allocate_by_history :
    ColorAllocationSide → ColorAllocationSide → Color → ColorAllocation
unfolding allocate_by_rank last_difference
allocate_by_history a b initial_color =
    elim (last_difference a.history b.history 1 (min_length a.history b.history)) [
      | some ca ↦ allocation (is_white (opposite_color ca)) alternated
      | none ↦ allocate_by_rank a b initial_color
    ]

-- Rule 5.2.2, when both sides have a preference and neither is granted by 5.2.1.
unfoldable pub allocate_by_strength :
    ColorAllocationSide → ColorAllocationSide → Color → Color → Color → ColorAllocation
allocate_by_strength a b initial_color pref_a pref_b =
    let sa = strength_order a.pref.strength in
    let sb = strength_order b.pref.strength in
    let da = magnitude a.color_diff in
    let db = magnitude b.color_diff in
    let stronger = λ (first : Bool).
      allocation (side_of first (is_white (if first then pref_a else pref_b))) stronger_granted in
    if not (sa == sb)
    then stronger (ltb sb sa)
    else if is_absolute a.pref.strength && not (da == db)
    then stronger (ltb db da)
    else allocate_by_history a b initial_color

allocate_by_preference :
    ColorAllocationSide
    → ColorAllocationSide
    → Color
    → Option Color
    → Option Color
    → ColorAllocation
unfolding allocate_by_strength allocate_by_history
allocate_by_preference a b initial_color (some x) (some y) =
    if color_eq x y
    then allocate_by_strength a b initial_color x y
    else allocation (is_white x) both_granted
allocate_by_preference a b initial_color (some x) none = allocation (is_white x) both_granted
allocate_by_preference a b initial_color none (some y) = allocation (not (is_white y)) both_granted
allocate_by_preference a b initial_color none none = allocate_by_history a b initial_color

unfoldable pub allocate_colors : ColorAllocationSide → ColorAllocationSide → Color → ColorAllocation
unfolding allocate_by_preference
allocate_colors a b initial_color =
    allocate_by_preference a b initial_color a.pref.color b.pref.color
