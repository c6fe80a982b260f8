-- ===== src/Pairing/Swiss/Players/Safety.antt =====
-- swiss-types.ts and colors.ts together: what `canMeet` lets pair, `allocateColors` colours within
-- the limits that verify.ts checks.
use farzin.Prelude.{
  ◌≡◌, ◌∙◌, inl, inr, arith, true, false, ◌&&◌, some, List, [], ◌∷◌, ◌++◌, if◌then◌else◌,
  Bool-cases, Option-cases,
}
use farzin.Pairing.{Color, white, black, ColorPreference, absolute}
use farzin.Pairing.Swiss.Colors.{
  allocate_colors, color_difference, color_preference_of, is_absolute,
}
use farzin.Pairing.Swiss.Colors.History.{
  IsLegal, IsLegalBack, IsLegalBack-absolute, IsLegalBack-free, back_preference, backwards,
  color_preference_of-backwards, color_difference-backwards, last_two, backwards-snoc,
  back_preference-color, starts_twice-get_elem?,
}
use farzin.Pairing.Swiss.Players.{
  SwissPlayer, can_meet, to_allocation_side, color_outcome_flags, same_color,
}

-- The derived fields are those that `prepareSwissPlayers` computes, from a history within the limits.
pub record IsPrepared (p : SwissPlayer) : Type 0 where
  pub diff : p.color_diff ≡ color_difference p.state.color_history
  pub pref : p.pref ≡ color_preference_of p.state.color_history
  pub legal : IsLegal p.state.color_history

-- The colours that the two sides of a pair receive.
abbrev pub first_color : SwissPlayer → SwissPlayer → Color → Color
first_color a b initial =
    if (allocate_colors (to_allocation_side a) (to_allocation_side b) initial).first_is_white
    then white
    else black

abbrev pub second_color : SwissPlayer → SwissPlayer → Color → Color
second_color a b initial =
    if (allocate_colors (to_allocation_side a) (to_allocation_side b) initial).first_is_white
    then black
    else white

-- Not both sides have an absolute preference for the same colour.
abbrev Compatible : ColorPreference → ColorPreference → Type 0
Compatible p q =
    is_absolute p.strength && is_absolute q.strength && same_color p.color q.color ≡ false

absolute_granted :
    (a b : SwissPlayer) (initial c : Color)
    → Compatible a.pref b.pref
    → (a.pref ≡ record { color = some c; strength = absolute } → first_color a b initial ≡ c)
      × (b.pref ≡ record { color = some c; strength = absolute } → second_color a b initial ≡ c)
unfolding allocate_colors
absolute_granted a b initial c h = ((λ e. ground arith), (λ e. ground arith))

meet-Compatible :
    (a b : SwissPlayer)
    → can_meet a b ≡ true
    → a.is_topscorer ≡ false
    → b.is_topscorer ≡ false
    → Compatible a.pref b.pref
unfolding can_meet
meet-Compatible a b h x y = ground arith

-- A colour that grants an absolute preference, if there is one.
Respects : ColorPreference → Color → Type 0
Respects p c = (d : Color) → p ≡ record { color = some d; strength = absolute } → c ≡ d

shape :
    (p : ColorPreference) (c : Color)
    → p.color ≡ some c
    → is_absolute p.strength ≡ true
    → p ≡ record { color = some c; strength = absolute }
shape p c e h = ground arith

respected-IsLegalBack :
    (b : List Color) (c : Color)
    → IsLegalBack b
    → Respects (back_preference b) c
    → IsLegalBack (c ∷ b)
unfolding Respects
respected-IsLegalBack b c h r = elim (Bool-cases (is_absolute (back_preference b).strength)) [
  | inl strict ↦ elim (Option-cases (back_preference b).color) [
    | inl missing ↦ absurd (back_preference-color b strict missing)
    | inr (d, e) ↦
        let p = shape (back_preference b) d e strict in rw (r d p) (IsLegalBack-absolute b d h p)
  ]
  | inr free ↦ IsLegalBack-free b c h free
]

-- Nothing that verify.ts would refuse: both flags are down, and the new history is within limits.
pub IsSafe : SwissPlayer → Color → Type 0
IsSafe p c =
    ((color_outcome_flags p c).exceeds_color_diff ≡ false)
    × ((color_outcome_flags p c).three_in_a_row ≡ false)
    × IsLegal (p.state.color_history ++ (c ∷ []))

pub IsSafe-flags :
    (p : SwissPlayer) (c : Color)
    → IsSafe p c
    → ((color_outcome_flags p c).exceeds_color_diff ≡ false)
      × ((color_outcome_flags p c).three_in_a_row ≡ false)
unfolding IsSafe
IsSafe-flags p c h = (h.0, h.1)

respected-IsSafe : (p : SwissPlayer) (c : Color) → IsPrepared p → Respects p.pref c → IsSafe p c
unfolding IsSafe color_outcome_flags
respected-IsSafe p c v r =
    let h = p.state.color_history in
    let b = backwards h in
    let before = color_preference_of-backwards h in
    let next : IsLegalBack (c ∷ b) =
      respected-IsLegalBack b c v.legal (unfold Respects in λ d e. r d (v.pref ∙ before ∙ e)) in
    let diff = v.diff ∙ color_difference-backwards h in
    let two = last_two h in
    (
      rw diff (ground arith),
      rw (two.0, two.1, ← starts_twice-get_elem? b c) next.1,
      rw (backwards-snoc h c) next,
    )

-- What `canMeet` lets pair and `allocateColors` colours passes the colour checks of verify.ts: for two
-- prepared players whose histories are within the limits and of whom neither is a topscorer, if they
-- can meet, then the colour that either receives leaves its colour difference within 2, is not its
-- third in a row, and keeps its history within the limits.
pub allocate_colors-IsSafe :
    (a b : SwissPlayer) (initial : Color)
    → IsPrepared a
    → IsPrepared b
    → a.is_topscorer ≡ false
    → b.is_topscorer ≡ false
    → can_meet a b ≡ true
    → IsSafe a (first_color a b initial) × IsSafe b (second_color a b initial)
allocate_colors-IsSafe a b initial v w x y h =
    let fit = meet-Compatible a b h x y in
    (
      respected-IsSafe a (first_color a b initial) v
          (unfold Respects in λ d. (absolute_granted a b initial d fit).0),
      respected-IsSafe b (second_color a b initial) w
          (unfold Respects in λ d. (absolute_granted a b initial d fit).1),
    )
