-- ===== src/Pairing/Swiss/Verify/Coverage.antt =====
-- verify.ts: what a round satisfies that passes.
use farzin.Prelude.{
  ℕ, suc, ◌+◌, ◌≡◌, ◌≢◌, refl, ap, arith, Bool, true, false, Option, none, some, List, [], ◌∷◌,
  if◌then◌else◌, ◌==◌, length, ok, >>=-eq-ok,
}
use farzin.Pairing.{PlayerId, white, black}
use farzin.Pairing.Swiss.Players.{SwissPlayer, contains, color_outcome_flags}
use farzin.Pairing.Swiss.Verify.{
  ColoredPair, have_met, verify_pair, verify_pairs, verify_pab, verify_seen,
  verify_absolute_criteria,
}

abbrev pub bit : Bool → ℕ
bit true = 1
bit false = 0

-- How often an id is in a list of ids, among players, and in a round.
abbrev pub id_count : PlayerId → List PlayerId → ℕ
id_count id [] = 0
id_count id (x ∷ xs) = bit (x == id) + id_count id xs

abbrev pub player_count : PlayerId → List SwissPlayer → ℕ
player_count id [] = 0
player_count id (p ∷ ps) = bit (p.state.player_id == id) + player_count id ps

abbrev pub pair_count : PlayerId → List ColoredPair → ℕ
pair_count id [] = 0
pair_count id (p ∷ ps) =
    bit (p.white_player.state.player_id == id)
    + bit (p.black_player.state.player_id == id)
    + pair_count id ps

abbrev pub pab_count : PlayerId → Option SwissPlayer → ℕ
pab_count id none = 0
pab_count id (some p) = bit (p.state.player_id == id)

-- No id is in the list twice.
abbrev pub IsDistinct : List PlayerId → Type 0
IsDistinct [] = Unit
IsDistinct (x ∷ xs) = (contains x xs ≡ false) × IsDistinct xs

-- What holds of each pair that passes.
abbrev pub PassesPair : ColoredPair → Type 0
PassesPair p =
    let w = p.white_player in
    let b = p.black_player in
    (have_met w b ≡ false)
    × (w.is_topscorer ≡ false
        → b.is_topscorer ≡ false
        → ((color_outcome_flags w white).exceeds_color_diff ≡ false)
          × ((color_outcome_flags w white).three_in_a_row ≡ false)
          × ((color_outcome_flags b black).exceeds_color_diff ≡ false)
          × ((color_outcome_flags b black).three_in_a_row ≡ false))

abbrev pub AllPass : List ColoredPair → Type 0
AllPass [] = Unit
AllPass (p ∷ ps) = PassesPair p × AllPass ps

abbrev pub IsEligible : Option SwissPlayer → Type 0
IsEligible none = Unit
IsEligible (some p) = p.pab_eligible ≡ true

verify_pair-cases :
    (p : ColoredPair) (seen : List PlayerId) {out : List PlayerId}
    → verify_pair p seen ≡ ok out
    → let w = p.white_player.state.player_id in
      let b = p.black_player.state.player_id in
      (out ≡ b ∷ w ∷ seen)
      × (contains w seen ≡ false)
      × (contains b (w ∷ seen) ≡ false)
      × PassesPair p
unfolding verify_pair
verify_pair-cases p seen h =
    (ground arith, ground arith, ground arith, (ground arith, λ x y. ground arith))

verify_pairs-cases :
    (id : PlayerId) (ps : List ColoredPair) (seen : List PlayerId) {out : List PlayerId}
    → verify_pairs ps seen ≡ ok out
    → AllPass ps × (id_count id out ≡ pair_count id ps + id_count id seen)
unfolding verify_pairs
verify_pairs-cases id [] seen h = (tt, ground arith)
verify_pairs-cases id (p ∷ ps) seen h =
    let (seen', e, f) = >>=-eq-ok (verify_pair p seen) _ h in
    let (grown, _, _, passes) = verify_pair-cases p seen e in
    let (all, count) = verify_pairs-cases id ps seen' f in
    ((passes, all), omega (arith, ap (id_count id) grown))

verify_pab-cases :
    (id : PlayerId) (pab : Option SwissPlayer) (seen : List PlayerId) {out : List PlayerId}
    → verify_pab pab seen ≡ ok out
    → IsEligible pab × (id_count id out ≡ pab_count id pab + id_count id seen)
unfolding verify_pab
verify_pab-cases id none seen h = (tt, ground arith)
verify_pab-cases id (some p) seen h = (ground arith, ground arith)

abbrev pub ids : List SwissPlayer → List PlayerId
ids [] = []
ids (p ∷ ps) = p.state.player_id ∷ ids ps

erase_id : PlayerId → List PlayerId → List PlayerId
erase_id x [] = []
erase_id x (y ∷ ys) = if y == x then ys else y ∷ erase_id x ys

erase_id-count :
    (x : PlayerId) (seen : List PlayerId) (id : PlayerId)
    → contains x seen ≡ true
    → (length seen ≡ suc (length (erase_id x seen)))
      × (id_count id seen ≡ bit (x == id) + id_count id (erase_id x seen))
unfolding contains erase_id
erase_id-count x [] id h = cc
erase_id-count x (y ∷ ys) id h = ground (arith, erase_id-count x ys id)

contains-erase_id :
    (x y : PlayerId) (seen : List PlayerId)
    → x ≢ y
    → contains y seen ≡ true
    → contains y (erase_id x seen) ≡ true
unfolding contains erase_id
contains-erase_id x y [] ne h = cc
contains-erase_id x y (z ∷ zs) ne h = ground (arith, contains-erase_id x y zs ne)

abbrev AllIn : List PlayerId → List PlayerId → Type 0
AllIn [] seen = Unit
AllIn (x ∷ xs) seen = (contains x seen ≡ true) × AllIn xs seen

AllIn-erase_id :
    (x : PlayerId) (xs seen : List PlayerId)
    → contains x xs ≡ false
    → AllIn xs seen
    → AllIn xs (erase_id x seen)
unfolding contains
AllIn-erase_id x [] seen h a = tt
AllIn-erase_id x (y ∷ ys) seen h a =
    (contains-erase_id x y seen (ground arith) a.0, AllIn-erase_id x ys seen (ground arith) a.1)

-- Different ids that are all in a list of the same length are that list in some order.
same_ids :
    (xs seen : List PlayerId) (id : PlayerId)
    → IsDistinct xs
    → AllIn xs seen
    → length seen ≡ length xs
    → id_count id seen ≡ id_count id xs
same_ids [] [] id d a e = refl
same_ids [] (y ∷ ys) id d a e = absurd (omega arith)
same_ids (x ∷ xs) seen id d a e =
    let erased = erase_id-count x seen id a.0 in
    omega (
      arith,
      erased,
      same_ids xs (erase_id x seen) id d.1 (AllIn-erase_id x xs seen d.0 a.1) (omega arith),
    )

verify_seen-AllIn :
    (active : List SwissPlayer) (seen : List PlayerId)
    → verify_seen active seen ≡ ok tt
    → AllIn (ids active) seen
unfolding verify_seen
verify_seen-AllIn [] seen h = tt
verify_seen-AllIn (p ∷ ps) seen h = (ground arith, verify_seen-AllIn ps seen (ground arith))

ids-count :
    (id : PlayerId) (active : List SwissPlayer)
    → (length (ids active) ≡ length active) × (id_count id (ids active) ≡ player_count id active)
ids-count id [] = (refl, refl)
ids-count id (p ∷ ps) = ground (arith, ids-count id ps)

-- No two of the players share an id.
abbrev pub HasDistinctIds : List SwissPlayer → Type 0
HasDistinctIds active = IsDistinct (ids active)

-- A round that verify.ts lets pass is a complete and lawful one: if the active players have different
-- ids and `verifyAbsoluteCriteria` throws nothing, then every id is in the pairs and the bye together
-- exactly as often as among the active players (once or not at all), no pair has met before, the
-- colours of a pair without a topscorer break no limit, and the bye goes to an eligible player.
pub verify_absolute_criteria-coverage :
    (active : List SwissPlayer) (pairs : List ColoredPair) (pab : Option SwissPlayer)
    → HasDistinctIds active
    → verify_absolute_criteria active pairs pab ≡ ok tt
    → ((id : PlayerId) → pair_count id pairs + pab_count id pab ≡ player_count id active)
      × AllPass pairs
      × IsEligible pab
unfolding verify_absolute_criteria
verify_absolute_criteria-coverage active pairs pab d h =
    let (paired, e, h') = >>=-eq-ok (verify_pairs pairs []) _ h in
    let (seen, f, h'') = >>=-eq-ok (verify_pab pab paired) _ h' in
    (
      (λ id.
          let (_, count) = verify_pairs-cases id pairs [] e in
          let (_, more) = verify_pab-cases id pab paired f in
          let (long, same) = ids-count id active in
          let all =
            same_ids (ids active) seen id d (verify_seen-AllIn active seen (ground arith))
              (ground (arith, long)) in
          omega (arith, count, more, all, same)),
      (verify_pairs-cases 0 pairs [] e).0,
      (verify_pab-cases 0 pab paired f).0,
    )
