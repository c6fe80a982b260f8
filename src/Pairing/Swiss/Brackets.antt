-- ===== src/Pairing/Swiss/Brackets.antt =====
-- The score brackets, src/core/pairing/swiss/score-brackets.ts. The matching that a bracket asks for,
-- `maximumWeightMatching` of blossom.ts, is the parameter `matching`: its answer is the list of
-- `mate[v]`, with none for -1, or an error. A result of null is none.
pub mod Settled
use farzin.Prelude.{
  ℕ, zero, suc, ◌+◌, ◌-◌, ◌/◌, ◌%◌, Bool, true, false, not, ◌&&◌, Option, none, some, List, [], ◌∷◌,
  ◌++◌, if◌then◌else◌, ltb, leb, ◌==◌, length, take, drop, get_elem?, Result, ok, err, ◌>>=◌, ◌>>◌,
  throw_if,
}
use farzin.Prelude.Int.{ℤ}
use farzin.Pairing.Swiss.Players.{SwissPlayer, can_meet}
use farzin.Pairing.Swiss.Weights.{
  BracketSlot, WeightScheme, real_edge_weight, dummy_edge_weight, color_penalties_for, BracketError,
  no_complete_pairing, too_few_groups, incomplete_matching, no_partner, out_of_rounds,
}

-- `WeightedEdge` of blossom.ts.
pub record WeightedEdge : Type 0 where
  pub u : ℕ
  pub v : ℕ
  pub weight : ℤ

abbrev pub Matching : Type 0
Matching = ℕ → List WeightedEdge → Result BracketError (List (Option ℕ))

-- A pair in the order of the ranks.
pub record RankedPair : Type 0 where
  pub higher : SwissPlayer
  pub lower : SwissPlayer

pub record BracketResult : Type 0 where
  pub pairs : List RankedPair
  pub floaters : List SwissPlayer
  pub pab : Option SwissPlayer

pub record Attempt : Type 0 where
  pub pairs : List RankedPair
  pub pab : Option SwissPlayer

pub record BracketsOutcome : Type 0 where
  pub pairs : List RankedPair
  pub pab : Option SwissPlayer
  pub merge_count : ℕ

-- The rest of the group of the player with this score, and the groups after it.
abbrev pub add_to_group : SwissPlayer → List (List SwissPlayer) → List (List SwissPlayer)
add_to_group p [] = (p ∷ []) ∷ []
add_to_group p ([] ∷ gs) = (p ∷ []) ∷ gs
add_to_group p ((q ∷ g) ∷ gs) =
    if p.score_x2 == q.score_x2 then (p ∷ q ∷ g) ∷ gs else (p ∷ []) ∷ (q ∷ g) ∷ gs

-- Runs of players with the same score.
unfoldable pub group_by_score : List SwissPlayer → List (List SwissPlayer)
group_by_score [] = []
group_by_score (p ∷ ps) = add_to_group p (group_by_score ps)

unfoldable pub merge_last_two :
    List (List SwissPlayer) → Result BracketError (List (List SwissPlayer))
merge_last_two [] = err too_few_groups
merge_last_two (g ∷ []) = err too_few_groups
merge_last_two (g ∷ h ∷ []) = ok ((g ++ h) ∷ [])
merge_last_two (g ∷ h ∷ k ∷ gs) = do merged ← merge_last_two (h ∷ k ∷ gs); ok (g ∷ merged)

-- The slots of the players from the place `bsn` on.
unfoldable pub slots_from : ℕ → ℕ → List SwissPlayer → List BracketSlot
slots_from carried_count bsn [] = []
slots_from carried_count bsn (p ∷ ps) =
    record { player = p; bsn = bsn; carried = ltb bsn carried_count }
    ∷ slots_from carried_count (bsn + 1) ps

unfoldable pub all_same_score : List SwissPlayer → Bool
all_same_score [] = true
all_same_score (p ∷ []) = true
all_same_score (p ∷ q ∷ qs) = q.score_x2 == p.score_x2 && all_same_score (p ∷ qs)

unfoldable pub is_straight : WeightScheme → SwissPlayer → SwissPlayer → Bool
is_straight scheme hi lo =
    let pens = color_penalties_for hi lo scheme.params.initial_color in
    can_meet hi lo && not (ltb 0 (pens.c10 + pens.c11 + pens.c12 + pens.c13))

-- The loop over the two halves.
unfoldable pub straight_pairs :
    WeightScheme → List SwissPlayer → List SwissPlayer → Option (List RankedPair)
unfolding is_straight
straight_pairs scheme [] lower_half = some []
straight_pairs scheme (hi ∷ his) [] = none
straight_pairs scheme (hi ∷ his) (lo ∷ los) =
    let rest = straight_pairs scheme his los in
    if is_straight scheme hi lo
    then elim rest [ none ↦ none | some ps ↦ some (record { higher = hi; lower = lo } ∷ ps) ]
    else none

unfoldable pub try_straight_candidate : WeightScheme → List SwissPlayer → Option (List RankedPair)
unfolding straight_pairs
try_straight_candidate scheme players =
    let half = length players / 2 in straight_pairs scheme (take half players) (drop half players)

-- The edges from a slot to those after it.
unfoldable pub partner_edges :
    WeightScheme → ℕ → BracketSlot → List BracketSlot → Result BracketError (List WeightedEdge)
unfolding real_edge_weight
partner_edges scheme split si [] = ok []
partner_edges scheme split si (sj ∷ later) = elim (can_meet si.player sj.player) [
  | false ↦ partner_edges scheme split si later
  | true ↦ do
    w ← real_edge_weight scheme si sj split
    rest ← partner_edges scheme split si later
    ok (record { u = si.bsn; v = sj.bsn; weight = w } ∷ rest)
]

abbrev pub dummy_edges : WeightScheme → Bool → ℕ → BracketSlot → List WeightedEdge
dummy_edges scheme with_dummy size si =
    if with_dummy && si.player.pab_eligible
    then record { u = si.bsn; v = size; weight = dummy_edge_weight scheme si } ∷ []
    else []

unfoldable pub bracket_edges :
    WeightScheme → ℕ → Bool → ℕ → List BracketSlot → Result BracketError (List WeightedEdge)
unfolding partner_edges
bracket_edges scheme split with_dummy size [] = ok []
bracket_edges scheme split with_dummy size (si ∷ later) = do
  own ← partner_edges scheme split si later
  rest ← bracket_edges scheme split with_dummy size later
  ok (own ++ dummy_edges scheme with_dummy size si ++ rest)

abbrev pub no_result : BracketResult
no_result = record { pairs = []; floaters = []; pab = none }

-- What the loop over the matching does with one slot, before the later slots.
pub data Placing : Type 0 where
  unmatched as_pab as_lower : Placing
  paired : SwissPlayer → Placing

unfoldable pub placing :
    List BracketSlot → Bool → ℕ → List (Option ℕ) → BracketSlot → Result BracketError Placing
placing slots with_dummy size mate slot = elim (get_elem? mate slot.bsn) [
  | none ↦ err incomplete_matching
  | some none ↦ ok unmatched
  | some (some m) ↦
      if with_dummy && m == size
      then ok as_pab
      else if ltb slot.bsn m
      then elim (get_elem? slots m) [
        | none ↦ err no_partner
        | some other ↦ ok (paired other.player)
      ]
      else ok as_lower
]

-- `pab` is the last one that was found.
abbrev pub with_placing : SwissPlayer → Placing → BracketResult → BracketResult
with_placing p unmatched rest = record rest { floaters = p ∷ rest.floaters }
with_placing p as_pab rest = record rest { pab = elim rest.pab [ none ↦ some p | some q ↦ some q ] }
with_placing p as_lower rest = rest
with_placing p (paired q) rest = record rest {
  pairs = record { higher = p; lower = q } ∷ rest.pairs;
}

abbrev pub is_unmatched : Placing → Bool
is_unmatched unmatched = true
is_unmatched _ = false

unfoldable pub read_matching :
    List BracketSlot
    → Bool
    → Bool
    → ℕ
    → List (Option ℕ)
    → List BracketSlot
    → Result BracketError (Option BracketResult)
unfolding placing
read_matching slots is_last with_dummy size mate [] = ok (some no_result)
read_matching slots is_last with_dummy size mate (slot ∷ later) = do
  place ← placing slots with_dummy size mate slot
  elim (is_last && is_unmatched place) [
    | true ↦ ok none
    | false ↦ do
      rest ← read_matching slots is_last with_dummy size mate later
      ok (elim rest [ none ↦ none | some r ↦ some (with_placing slot.player place r) ])
  ]

abbrev pub split_of : ℕ → ℕ → ℕ
split_of carried_count size =
    if ltb 0 carried_count && ltb carried_count (size / 2) then carried_count else size / 2

abbrev pub is_nil : List (List SwissPlayer) → Bool
is_nil [] = true
is_nil (g ∷ gs) = false

-- The pairs of a bracket before those of the lower ones; the last bye that was given counts.
abbrev pub with_result : BracketResult → Attempt → Attempt
with_result r rest = record {
  pairs = r.pairs ++ rest.pairs;
  pab = elim rest.pab [ none ↦ r.pab | some p ↦ some p ];
}

module _ (matching : Matching) where
  -- The part of `pairBracket` that asks for a matching.
  unfoldable pub pair_by_matching :
      List SwissPlayer → ℕ → WeightScheme → Bool → Bool → Result BracketError (Option BracketResult)
  unfolding slots_from bracket_edges read_matching
  pair_by_matching slots0 carried_count scheme is_last with_dummy = do
    let size = length slots0
    let slots = slots_from carried_count 0 slots0
    let split = split_of carried_count size
    edges ← bracket_edges scheme split with_dummy size slots
    mate ← matching (size + (if with_dummy then 1 else 0)) edges
    read ← read_matching slots is_last with_dummy size mate slots
    ok (elim read [
      | none ↦ none
      | some r ↦ if with_dummy then elim r.pab [ none ↦ none | some p ↦ some r ] else some r
    ])

  -- The short way of a homogeneous bracket of even size.
  unfoldable pub straight_way :
      List SwissPlayer → ℕ → WeightScheme → Bool → Option (List RankedPair)
  unfolding all_same_score try_straight_candidate
  straight_way slots0 carried_count scheme with_dummy =
      if not with_dummy && carried_count == 0 && length slots0 % 2 == 0 && all_same_score slots0
      then try_straight_candidate scheme slots0
      else none

  unfoldable pub pair_bracket :
      List SwissPlayer → ℕ → WeightScheme → Bool → Bool → Result BracketError (Option BracketResult)
  unfolding straight_way pair_by_matching
  pair_bracket [] carried_count scheme is_last with_dummy =
      ok (if with_dummy then none else some no_result)
  pair_bracket (p ∷ ps) carried_count scheme is_last with_dummy =
      elim (straight_way (p ∷ ps) carried_count scheme with_dummy) [
        | some straight ↦ ok (some (record { pairs = straight; floaters = []; pab = none }))
        | none ↦ pair_by_matching (p ∷ ps) carried_count scheme is_last with_dummy
      ]

  -- The loop of `attempt`, with the floaters of the bracket above.
  unfoldable pub attempt_from :
      List SwissPlayer
      → List (List SwissPlayer)
      → WeightScheme
      → Bool
      → Result BracketError (Option Attempt)
  unfolding pair_bracket
  attempt_from carried [] scheme need_pab = ok (some (record { pairs = []; pab = none }))
  attempt_from carried (residents ∷ lower) scheme need_pab = do
    let is_last = is_nil lower
    result ←
        pair_bracket (carried ++ residents) (length carried) scheme is_last (is_last && need_pab)
    elim result [
      | none ↦ ok none
      | some r ↦ do
        rest ← attempt_from r.floaters lower scheme need_pab
        ok (elim rest [ none ↦ none | some a ↦ some (with_result r a) ])
    ]

  unfoldable pub attempt :
      List (List SwissPlayer) → WeightScheme → Bool → Result BracketError (Option Attempt)
  unfolding attempt_from
  attempt groups scheme need_pab = attempt_from [] groups scheme need_pab

  -- The loop of `pairAllBrackets`, with `rounds` rounds left. Each round but the last merges two
  -- groups, so as many rounds as there are groups are enough.
  unfoldable pub pair_groups :
      ℕ → List (List SwissPlayer) → ℕ → WeightScheme → Bool → Result BracketError BracketsOutcome
  unfolding attempt merge_last_two
  pair_groups zero groups merge_count scheme need_pab = err out_of_rounds
  pair_groups (suc rounds) groups merge_count scheme need_pab = do
    outcome ← attempt groups scheme need_pab
    elim outcome [
      | some a ↦ ok (record { pairs = a.pairs; pab = a.pab; merge_count = merge_count })
      | none ↦ do
        throw_if (length groups == 1) no_complete_pairing
        merged ← merge_last_two groups
        pair_groups rounds merged (merge_count + 1) scheme need_pab
    ]

  unfoldable pub pair_all_brackets :
      List SwissPlayer → WeightScheme → Bool → Result BracketError BracketsOutcome
  unfolding group_by_score pair_groups
  pair_all_brackets players scheme need_pab =
      let groups = group_by_score players in
      pair_groups (length groups + 1) groups 0 scheme need_pab
