-- ===== src/Money/Allocation.antt =====
-- money.ts, `allocate`: no unit is lost for an amount that is not negative; for a negative one units
-- can be.
use farzin.Prelude.{
  ℕ, zero, suc, ◌+◌, ◌-◌, ◌*◌, ◌/◌, ◌≤◌, ◌<◌, ◌≡◌, refl, ap, ◌∙◌, ◌↔◌, ◌⊎◌, inl, inr, arith, List,
  [], ◌∷◌, map, ok, ◌>>◌, >>=-eq-ok, throw_if, length, length-map,
}
use native.Mathlib.Nat.{zero-div, div-add-mod', mod-lt, mul-le-mul_left, le_of_mul-le-mul_right}
use farzin.Prelude.Int.{
  ℤ, pos, negsuc, ◌+ℤ◌, ◌-ℤ◌, ◌*ℤ◌, ◌≤ℤ◌, eq_ℤ, int_laws, parts_of_eq, pos_part,
}
use farzin.Money.{
  Money, Currency, zero_ratios, allocate, total_ratio, floor_shares, hand_out, bigint_div,
}

-- The sum of the amounts.
abbrev pub sum_ℤ : List ℤ → ℤ
sum_ℤ [] = pos 0
sum_ℤ (x ∷ xs) = x +ℤ sum_ℤ xs

abbrev pub sum_money : List Money → ℤ
sum_money [] = pos 0
sum_money (m ∷ ms) = m.amount +ℤ sum_money ms

abbrev AllNonneg : List ℤ → Type 0
AllNonneg [] = Unit
AllNonneg (x ∷ xs) = (pos 0 ≤ℤ x) × AllNonneg xs

abbrev ratio_sum : List ℤ → ℕ
ratio_sum [] = 0
ratio_sum (x ∷ xs) = pos_part x + ratio_sum xs

-- The exact shares of `a`, rounded down.
abbrev pub quotas : ℕ → ℕ → List ℤ → List ℕ
quotas a total [] = []
quotas a total (r ∷ rs) = (a * pos_part r / total) ∷ quotas a total rs

abbrev pub sum : List ℕ → ℕ
sum [] = 0
sum (x ∷ xs) = x + sum xs

total_ratio-sum :
    (n : ℕ) (rs : List ℤ) {t : ℤ}
    → total_ratio (pos n) rs ≡ ok t
    → (t ≡ pos (n + ratio_sum rs)) × AllNonneg rs
unfolding total_ratio ◌+ℤ◌
total_ratio-sum n [] h = (ground arith, tt)
total_ratio-sum n (pos r ∷ rs) {t} h =
    let rest : total_ratio (pos (n + r)) rs ≡ ok t = ground arith in
    let (e, all) = total_ratio-sum (n + r) rs rest in (e ∙ ap pos (omega arith), (omega arith, all))
total_ratio-sum n (negsuc r ∷ rs) h = absurd (ground arith)

-- Whatever is taken off the remainder is a share.
floor_shares-sum :
    (amount : ℤ) (total : ℕ) (remainder : ℤ) (rs : List ℤ)
    → let (shares, left) = floor_shares amount total remainder rs in
      (sum_ℤ shares +ℤ left ≡ remainder) × (length shares ≡ length rs)
unfolding floor_shares
floor_shares-sum amount total remainder [] = (omega int_laws, refl)
floor_shares-sum amount total remainder (r ∷ rs) =
    let share = bigint_div (amount *ℤ r) total in
    let (rest, long) = floor_shares-sum amount total (remainder -ℤ share) rs in
    (omega (int_laws, parts_of_eq rest), ap suc long)

hand_out-sum : (n : ℕ) (xs : List ℤ) → sum_ℤ (hand_out n xs) ≡ sum_ℤ xs +ℤ pos n
unfolding hand_out
hand_out-sum zero xs = omega int_laws
hand_out-sum (suc n) [] = rw (hand_out-sum n []) (omega int_laws)
hand_out-sum (suc n) (x ∷ xs) = rw (hand_out-sum n xs) (omega int_laws)

hand_out-length : (n : ℕ) (xs : List ℤ) → n ≤ length xs → length (hand_out n xs) ≡ length xs
unfolding hand_out
hand_out-length zero xs h = refl
hand_out-length (suc n) [] h = elim h [ ]
hand_out-length (suc n) (x ∷ xs) h = ap suc (hand_out-length n xs (omega arith))

floor_shares-quotas :
    (a total : ℕ) (remainder : ℤ) (rs : List ℤ)
    → AllNonneg rs
    → (floor_shares (pos a) total remainder rs).0 ≡ map pos (quotas a total rs)
unfolding floor_shares bigint_div ◌*ℤ◌
floor_shares-quotas a total remainder [] h = refl
floor_shares-quotas a total remainder (pos r ∷ rs) h =
    ground (arith, floor_shares-quotas a total (remainder -ℤ pos (a * r / total)) rs h.1)
floor_shares-quotas a total remainder (negsuc r ∷ rs) h = absurd (omega arith)

quotas-bounds :
    (a total : ℕ) (rs : List ℤ)
    → 0 < total
    → (sum (quotas a total rs) * total ≤ a * ratio_sum rs)
      × (a * ratio_sum rs ≤ sum (quotas a total rs) * total + length rs * (total - 1))
quotas-bounds a total [] h = (omega arith, omega arith)
quotas-bounds a total (r ∷ rs) h =
    let x = a * pos_part r in
    let exact = div-add-mod' x total in
    let low = mod-lt x {m = total} h in
    let (lo, hi) = quotas-bounds a total rs h in
    (omega (arith, exact, low, lo), omega (arith, exact, low, hi))

-- The two numbers that `allocate` computes for the amount `a` of its ratios: what is left after
-- rounding down is less than the number of ratios.
left_over :
    (a : ℕ) (rs : List ℤ)
    → 0 < ratio_sum rs
    → (sum (quotas a (ratio_sum rs) rs) ≤ a) × (a - sum (quotas a (ratio_sum rs) rs) ≤ length rs)
left_over a rs h =
    let t = ratio_sum rs in
    let s = sum (quotas a t rs) in
    let (lo, hi) = quotas-bounds a t rs h in
    let room : length rs * (t - 1) ≤ length rs * t = mul-le-mul_left (length rs) (omega arith) in
    let widened : a * t ≤ (s + length rs) * t = omega arith in
    let most = le_of_mul-le-mul_right {m = a} {n = s + length rs} widened h in
    (le_of_mul-le-mul_right {m = s} {n = a} lo h, omega (arith, most))

sum-map_pos : (xs : List ℕ) → sum_ℤ (map pos xs) ≡ pos (sum xs)
sum-map_pos [] = refl
sum-map_pos (x ∷ xs) = rw (sum-map_pos xs) (omega int_laws)

-- What `allocate` has found when it returns.
abbrev parts_with : Money → List ℤ → ℤ → List Money
parts_with m ratios total =
    let (shares, left) = floor_shares m.amount (pos_part total) m.amount ratios in
    map (λ s. record m { amount = s }) (hand_out (pos_part left) shares)

after_total :
    (total : ℤ) (t : ℕ) (parts : List Money) (found : ℤ → List Money)
    → total ≡ pos t
    → (throw_if (eq_ℤ total (pos 0)) zero_ratios >> ok (found total)) ≡ ok parts
    → (0 < t) × (parts ≡ found (pos t))
after_total total t parts found e h =
    let same : parts ≡ found total = ground arith in (ground arith, same ∙ ap found e)

abbrev parts_of : Money → List ℤ → List Money
parts_of m ratios = parts_with m ratios (pos (ratio_sum ratios))

allocate_cases :
    (m : Money) (ratios : List ℤ) {parts : List Money}
    → allocate m ratios ≡ ok parts
    → (0 < ratio_sum ratios) × AllNonneg ratios × (parts ≡ parts_of m ratios)
unfolding allocate
allocate_cases m [] h = cc
allocate_cases m (r ∷ rs) {parts} h =
    let (total, e, h') = >>=-eq-ok (total_ratio (pos 0) (r ∷ rs)) _ h in
    let (f, all) = total_ratio-sum 0 (r ∷ rs) e in
    let g : total ≡ pos (ratio_sum (r ∷ rs)) = f ∙ ap pos (omega arith) in
    let (some_ratio, e') =
      after_total total (ratio_sum (r ∷ rs)) parts (parts_with m (r ∷ rs)) g h' in
    (some_ratio, all, e')

sum_money-map :
    (m : Money) (xs : List ℤ) → sum_money (map (λ s. record m { amount = s }) xs) ≡ sum_ℤ xs
sum_money-map m [] = refl
sum_money-map m (x ∷ xs) = ap (λ t. x +ℤ t) (sum_money-map m xs)

-- Each part is its exact share, rounded down, or one unit more.
abbrev pub WithinOne : List ℕ → List Money → Type 0
WithinOne [] [] = Unit
WithinOne (q ∷ qs) (m ∷ ms) = ((m.amount ≡ pos q) ⊎ (m.amount ≡ pos (q + 1))) × WithinOne qs ms
WithinOne _ _ = ⊥

hand_out-WithinOne :
    (m : Money) (n : ℕ) (qs : List ℕ)
    → n ≤ length qs
    → WithinOne qs (map (λ s. record m { amount = s }) (hand_out n (map pos qs)))
unfolding hand_out ◌+ℤ◌
hand_out-WithinOne m zero [] h = tt
hand_out-WithinOne m zero (q ∷ qs) h = (inl refl, hand_out-WithinOne m zero qs (omega arith))
hand_out-WithinOne m (suc n) [] h = elim h [ ]
hand_out-WithinOne m (suc n) (q ∷ qs) h =
    (inr (ground arith), hand_out-WithinOne m n qs (omega arith))

quotas-length : (a t : ℕ) (rs : List ℤ) → length (quotas a t rs) ≡ length rs
quotas-length a t [] = refl
quotas-length a t (r ∷ rs) = ap suc (quotas-length a t rs)

-- What the second loop of `allocate` makes of shares that are rounded down.
whole_parts :
    (m : Money) (n : ℕ) (qs : List ℕ)
    → n ≤ length qs
    → let parts = map (λ s. record m { amount = s }) (hand_out n (map pos qs)) in
      (sum_money parts ≡ pos (sum qs + n)) × (length parts ≡ length qs) × WithinOne qs parts
whole_parts m n qs h = (
  sum_money-map m (hand_out n (map pos qs))
      ∙ hand_out-sum n (map pos qs)
      ∙ rw (sum-map_pos qs) (omega int_laws),
  length-map (hand_out n (map pos qs)) _
      ∙ hand_out-length n (map pos qs) (rw (length-map qs pos) h)
      ∙ length-map qs pos,
  hand_out-WithinOne m n qs h,
)

floored_left :
    (a q : ℕ) (shares : ℤ) (left : ℤ)
    → shares ≡ pos q
    → shares +ℤ left ≡ pos a
    → q ≤ a
    → pos_part left ≡ a - q
floored_left a q shares (pos n) e f h = omega (int_laws, parts_of_eq e, parts_of_eq f)
floored_left a q shares (negsuc n) e f h = omega (int_laws, parts_of_eq e, parts_of_eq f)

-- `allocate` loses nothing: for an amount `a` that is not negative, when it returns there is a part for
-- each ratio, the parts add up to the amount, and each part is the exact share of its ratio rounded
-- down, or one unit more.
pub allocate-sum :
    (currency : Currency) (a : ℕ) (ratios : List ℤ) {parts : List Money}
    → allocate (record { amount = pos a; currency = currency }) ratios ≡ ok parts
    → (sum_money parts ≡ pos a)
      × (length parts ≡ length ratios)
      × WithinOne (quotas a (ratio_sum ratios) ratios) parts
allocate-sum currency a ratios h =
    let m : Money = record { amount = pos a; currency = currency } in
    let t = ratio_sum ratios in
    let qs = quotas a t ratios in
    let (some_ratio, all, e) = allocate_cases m ratios h in
    let (fits, few) = left_over a ratios some_ratio in
    let (kept, _) = floor_shares-sum (pos a) t (pos a) ratios in
    let floors = floor_shares-quotas a t (pos a) ratios all in
    let total = ap sum_ℤ floors ∙ sum-map_pos qs in
    let left = floored_left a (sum qs) _ _ total kept fits in
    let many = quotas-length a t ratios in
    let (sums, counts, within) = whole_parts m (a - sum qs) qs (omega (arith, many)) in
    rw (e, floors, left) (sums ∙ ap pos (omega arith), counts ∙ many, within)

nothing_left :
    (k q : ℕ) (shares : ℤ) (left : ℤ)
    → shares ≡ pos 0 -ℤ pos q
    → shares +ℤ left ≡ negsuc k
    → q ≤ suc k
    → pos_part left ≡ 0
nothing_left k q shares (pos n) e f h = omega (int_laws, parts_of_eq e, parts_of_eq f)
nothing_left k q shares (negsuc n) e f h = refl

bigint_div-negative : (p t : ℕ) → bigint_div (pos 0 -ℤ pos p) t ≡ pos 0 -ℤ pos (p / t)
unfolding bigint_div ◌-ℤ◌
bigint_div-negative zero t = rw (zero-div t)
bigint_div-negative (suc p) t = ground arith

negative_product : (k r : ℕ) → negsuc k *ℤ pos r ≡ pos 0 -ℤ pos (suc k * r)
unfolding ◌*ℤ◌ ◌-ℤ◌
negative_product k r = ground arith

negative_quota : (k r t : ℕ) → bigint_div (negsuc k *ℤ pos r) t ≡ pos 0 -ℤ pos (suc k * r / t)
negative_quota k r t = rw (negative_product k r) (bigint_div-negative (suc k * r) t)

-- For a negative amount the shares are cut off towards zero.
floor_shares-negative :
    (k t : ℕ) (remainder : ℤ) (rs : List ℤ)
    → AllNonneg rs
    → sum_ℤ (floor_shares (negsuc k) t remainder rs).0 ≡ pos 0 -ℤ pos (sum (quotas (suc k) t rs))
unfolding floor_shares
floor_shares-negative k t remainder [] h = omega int_laws
floor_shares-negative k t remainder (pos r ∷ rs) h = rw (negative_quota k r t) (
    omega (
      int_laws,
      parts_of_eq (floor_shares-negative k t (remainder -ℤ (pos 0 -ℤ pos (suc k * r / t))) rs h.1),
    ))
floor_shares-negative k t remainder (negsuc r ∷ rs) h = absurd (omega arith)

-- For a negative amount `allocate` keeps the total only by luck: the parts of `-a`, for a positive `a`,
-- add up to minus the sum of the exact shares of `a` rounded down, so they add up to the amount just
-- when these shares of `a` add up to `a`.
pub allocate_negative-sum :
    (currency : Currency) (k : ℕ) (ratios : List ℤ) {parts : List Money}
    → allocate (record { amount = negsuc k; currency = currency }) ratios ≡ ok parts
    → (sum_money parts ≡ pos 0 -ℤ pos (sum (quotas (suc k) (ratio_sum ratios) ratios)))
      × ((sum_money parts ≡ negsuc k) ↔ (sum (quotas (suc k) (ratio_sum ratios) ratios) ≡ suc k))
unfolding hand_out
allocate_negative-sum currency k ratios h =
    let m : Money = record { amount = negsuc k; currency = currency } in
    let t = ratio_sum ratios in
    let qs = quotas (suc k) t ratios in
    let (some_ratio, all, e) = allocate_cases m ratios h in
    let (fits, _) = left_over (suc k) ratios some_ratio in
    let (kept, _) = floor_shares-sum (negsuc k) t (negsuc k) ratios in
    let shares = floor_shares-negative k t (negsuc k) ratios all in
    let nothing = nothing_left k (sum qs) _ _ shares kept fits in
    let sums : sum_money (parts_of m ratios) ≡ pos 0 -ℤ pos (sum qs) =
      rw nothing (sum_money-map m _ ∙ shares) in
    rw e (sums, rw sums ((λ x. omega (int_laws, parts_of_eq x)), (λ x. rw x (omega int_laws))))
