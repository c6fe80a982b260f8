-- ===== src/Tiebreak/Formulas/Buchholz.antt =====
-- tiebreak.calculator.ts: Buchholz, Cut-1 and Median.
use farzin.Prelude.{
  ℕ, suc, ◌+◌, ◌-◌, ◌*◌, ◌≤◌, ◌<◌, ◌≡◌, refl, ap, ◌∙◌, arith, Bool, true, false, Option, none, some,
  List, [], ◌∷◌, leb, length, drop, take, if◌then◌else◌,
}
use farzin.Tiebreak.{GameRecord, GameScore, PlayerTieBreakInput, TieBreakContext}
use farzin.Tiebreak.Formulas.{
  sum, insert, sort_ascending, buchholz_cut, buchholz_contributions2, contributions_from,
  buchholz_contribution, result2, opponent_points2,
}

-- The least, and the greatest, of `x` and the numbers of a list.
abbrev pub least : ℕ → List ℕ → ℕ
least x [] = x
least x (y ∷ ys) = let m = least y ys in if leb x m then x else m

abbrev pub greatest : ℕ → List ℕ → ℕ
greatest x [] = x
greatest x (y ∷ ys) = let m = greatest y ys in if leb m x then x else m

sum-insert : (x : ℕ) (ys : List ℕ) → sum (insert x ys) ≡ x + sum ys
unfolding insert
sum-insert x [] = refl
sum-insert x (y ∷ ys) = ground (arith, sum-insert x ys)

length-insert : (x : ℕ) (ys : List ℕ) → length (insert x ys) ≡ suc (length ys)
unfolding insert
length-insert x [] = refl
length-insert x (y ∷ ys) = ground (arith, length-insert x ys)

sum-sort : (xs : List ℕ) → sum (sort_ascending xs) ≡ sum xs
unfolding sort_ascending
sum-sort [] = refl
sum-sort (x ∷ xs) = omega (arith, sum-insert x (sort_ascending xs), sum-sort xs)

length-sort : (xs : List ℕ) → length (sort_ascending xs) ≡ length xs
unfolding sort_ascending
length-sort [] = refl
length-sort (x ∷ xs) = omega (arith, length-insert x (sort_ascending xs), length-sort xs)

-- The first of a list that is not empty, and the last.
abbrev first : List ℕ → ℕ
first [] = 0
first (x ∷ xs) = x

abbrev last : List ℕ → ℕ
last [] = 0
last (x ∷ []) = x
last (x ∷ y ∷ ys) = last (y ∷ ys)

-- In ascending order.
abbrev IsSorted : List ℕ → Type 0
IsSorted [] = Unit
IsSorted (x ∷ []) = Unit
IsSorted (x ∷ y ∷ ys) = (x ≤ y) × IsSorted (y ∷ ys)

first-insert :
    (x : ℕ) (ys : List ℕ)
    → 0 < length ys
    → first (insert x ys) ≡ (if leb x (first ys) then x else first ys)
unfolding insert
first-insert x [] h = elim h [ ]
first-insert x (y ∷ ys) h = ground arith

insert-IsSorted : (x : ℕ) (ys : List ℕ) → IsSorted ys → IsSorted (insert x ys)
unfolding insert
insert-IsSorted x [] h = tt
insert-IsSorted x (y ∷ []) h = ground arith
insert-IsSorted x (y ∷ z ∷ zs) h = let i = insert-IsSorted x (z ∷ zs) h.1 in ground arith

sort-IsSorted : (xs : List ℕ) → IsSorted (sort_ascending xs)
unfolding sort_ascending
sort-IsSorted [] = tt
sort-IsSorted (x ∷ xs) = insert-IsSorted x (sort_ascending xs) (sort-IsSorted xs)

first-sort : (x : ℕ) (xs : List ℕ) → first (sort_ascending (x ∷ xs)) ≡ least x xs
unfolding sort_ascending insert
first-sort x [] = refl
first-sort x (y ∷ ys) =
    let some_y : 0 < length (sort_ascending (y ∷ ys)) = omega (arith, length-sort (y ∷ ys)) in
    first-insert x (sort_ascending (y ∷ ys)) some_y ∙ rw (first-sort y ys) refl

first_le_last : (x : ℕ) (xs : List ℕ) → IsSorted (x ∷ xs) → x ≤ last (x ∷ xs)
first_le_last x [] h = omega arith
first_le_last x (y ∷ ys) h = omega (arith, h.0, first_le_last y ys h.1)

last-insert :
    (x y : ℕ) (ys : List ℕ)
    → IsSorted (y ∷ ys)
    → last (insert x (y ∷ ys)) ≡ (if leb (last (y ∷ ys)) x then x else last (y ∷ ys))
unfolding insert
last-insert x y [] h = ground arith
last-insert x y (z ∷ zs) h =
    let i = last-insert x z zs h.1 in let j = first_le_last y (z ∷ zs) h in ground arith

first-drop : (xs : List ℕ) → first xs + sum (drop 1 xs) ≡ sum xs
first-drop [] = refl
first-drop (x ∷ xs) = refl

take_butlast :
    (x : ℕ) (xs : List ℕ) → sum (take (length xs) (x ∷ xs)) + last (x ∷ xs) ≡ sum (x ∷ xs)
take_butlast x [] = omega arith
take_butlast x (y ∷ ys) = omega (arith, take_butlast y ys)

last-insert_some :
    (x : ℕ) (ys : List ℕ)
    → 0 < length ys
    → IsSorted ys
    → last (insert x ys) ≡ (if leb (last ys) x then x else last ys)
last-insert_some x [] h s = elim h [ ]
last-insert_some x (y ∷ ys) h s = last-insert x y ys s

last-sort : (x : ℕ) (xs : List ℕ) → last (sort_ascending (x ∷ xs)) ≡ greatest x xs
unfolding sort_ascending insert
last-sort x [] = refl
last-sort x (y ∷ ys) =
    let some_y : 0 < length (sort_ascending (y ∷ ys)) = omega (arith, length-sort (y ∷ ys)) in
    last-insert_some x (sort_ascending (y ∷ ys)) some_y (sort-IsSorted (y ∷ ys))
    ∙ rw (last-sort y ys) refl

drop-take :
    (xs : List ℕ)
    → 2 ≤ length xs
    → first xs + sum (drop 1 (take (length xs - 1) xs)) + last xs ≡ sum xs
drop-take [] h = elim h [ ]
drop-take (x ∷ []) h = absurd (omega arith)
drop-take (x ∷ y ∷ ys) h =
    let e : length (x ∷ y ∷ ys) - 1 ≡ suc (length ys) = omega arith in
    rw e (omega (arith, take_butlast y ys))

take_all : (xs : List ℕ) → take (length xs) xs ≡ xs
take_all [] = refl
take_all (x ∷ xs) = ap (λ t. x ∷ t) (take_all xs)

cut1_value :
    (x : ℕ) (xs : List ℕ)
    → 1 ≤ length xs
    → buchholz_cut (x ∷ xs) 1 0 ≡ sum (drop 1 (sort_ascending (x ∷ xs)))
unfolding buchholz_cut
cut1_value x xs h =
    let s = sort_ascending (x ∷ xs) in
    let n : length (x ∷ xs) - 0 ≡ length s = omega (arith, length-sort (x ∷ xs)) in
    let all : take (length (x ∷ xs) - 0) s ≡ s = rw n (take_all s) in
    let e : leb (suc (length xs)) 1 ≡ false = ground arith in rw (e, all) refl

median_value :
    (x : ℕ) (xs : List ℕ)
    → 2 ≤ length xs
    → let s = sort_ascending (x ∷ xs) in
      buchholz_cut (x ∷ xs) 1 1 ≡ sum (drop 1 (take (length s - 1) s))
unfolding buchholz_cut
median_value x xs h =
    let e : leb (suc (length xs)) 2 ≡ false = ground arith in rw (e, length-sort (x ∷ xs)) refl

-- Where a player has enough contributions, Cut-1 is their sum without the least, and Median is
-- their sum without the least and without the greatest; a player with one contribution has Cut-1 0, and
-- with two Median 0.
pub buchholz_cut-sum :
    (x : ℕ) (xs : List ℕ)
    → ((1 ≤ length xs) → buchholz_cut (x ∷ xs) 1 0 + least x xs ≡ sum (x ∷ xs))
      × ((2 ≤ length xs) → buchholz_cut (x ∷ xs) 1 1 + least x xs + greatest x xs ≡ sum (x ∷ xs))
      × ((length xs ≡ 0) → buchholz_cut (x ∷ xs) 1 0 ≡ 0)
      × ((length xs ≤ 1) → buchholz_cut (x ∷ xs) 1 1 ≡ 0)
unfolding buchholz_cut
buchholz_cut-sum x xs =
    let s = sort_ascending (x ∷ xs) in
    let low = first-sort x xs in
    let high = last-sort x xs in
    let same = sum-sort (x ∷ xs) in
    let long = length-sort (x ∷ xs) in
    let rest = first-drop s in
    (
      (λ h. omega (arith, cut1_value x xs h, low, same, rest)),
      (λ h.
          let both = drop-take s (omega (arith, long)) in
          omega (arith, median_value x xs h, low, high, same, both)),
      (λ h. ground arith),
      (λ h. ground arith),
    )

-- Every number of the list is at most `m`.
abbrev pub AllLe : ℕ → List ℕ → Type 0
AllLe m [] = Unit
AllLe m (x ∷ xs) = (x ≤ m) × AllLe m xs

more : (i before : ℕ) (r : GameScore) → before ≤ 2 * i → before + result2 r ≤ 2 * suc i
more i before r h = ground arith

contribution_le :
    (ctx : TieBreakContext) (i before : ℕ) (r : GameScore) (o : Option ℕ) (played : Bool)
    → ((id : ℕ) → opponent_points2 id ctx ≤ 2 * ctx.total_rounds)
    → suc i ≤ ctx.total_rounds
    → before ≤ 2 * i
    → buchholz_contribution ctx before (suc i) r o played ≤ 2 * ctx.total_rounds
unfolding buchholz_contribution
contribution_le ctx i before r (some o) true known fits few = known o
contribution_le ctx i before r (some o) false known fits few = ground arith
contribution_le ctx i before r none played known fits few = ground arith

contributions-AllLe :
    (ctx : TieBreakContext) (i before : ℕ) (games : List GameRecord)
    → ((id : ℕ) → opponent_points2 id ctx ≤ 2 * ctx.total_rounds)
    → i + length games ≤ ctx.total_rounds
    → before ≤ 2 * i
    → AllLe (2 * ctx.total_rounds) (contributions_from ctx i before games)
unfolding contributions_from
contributions-AllLe ctx i before [] known fits few = tt
contributions-AllLe ctx i before (g ∷ gs) known fits few =
    let rest =
      contributions-AllLe ctx (suc i) (before + result2 g.result) gs known (omega arith)
        (more i before g.result few) in
    (
      contribution_le ctx i before g.result g.opponent_id g.played_over_board known (omega arith)
          few,
      rest,
    )

-- No contribution to Buchholz, of a real opponent or of a virtual one, is more than the points of a
-- player who wins in all rounds, where no player has more and this player has no more games than there
-- are rounds.
buchholz_contributions2-AllLe :
    (p : PlayerTieBreakInput) (ctx : TieBreakContext)
    → ((id : ℕ) → opponent_points2 id ctx ≤ 2 * ctx.total_rounds)
    → length p.games ≤ ctx.total_rounds
    → AllLe (2 * ctx.total_rounds) (buchholz_contributions2 p ctx)
unfolding buchholz_contributions2
buchholz_contributions2-AllLe p ctx known fits =
    contributions-AllLe ctx 0 0 p.games known (omega arith) (omega arith)
