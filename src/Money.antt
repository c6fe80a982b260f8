-- ===== src/Money.antt =====
-- Amounts of money, src/core/money/money.ts. An amount is an integer in the smallest unit.
pub mod Allocation
pub mod Arithmetic
use farzin.Prelude.{
  ℕ, zero, suc, ◌+◌, ◌*◌, ◌/◌, Bool, true, false, not, ◌&&◌, List, [], ◌∷◌, map, Result, ok, err,
  ◌>>=◌, ◌>>◌, throw_if, if◌then◌else◌,
}
use farzin.Prelude.Int.{ℤ, pos, negsuc, ◌+ℤ◌, ◌-ℤ◌, ◌*ℤ◌, ltb_ℤ, eq_ℤ, pos_part}

pub data Currency : Type 0 where
  uzs usd eur : Currency

abbrev pub minor_units : Currency → ℤ
minor_units uzs = pos 100
minor_units usd = pos 100
minor_units eur = pos 100

abbrev pub currency_eq : Currency → Currency → Bool
currency_eq uzs uzs = true
currency_eq usd usd = true
currency_eq eur eur = true
currency_eq _ _ = false

pub record Money : Type 0 where
  pub amount : ℤ
  pub currency : Currency

-- The errors that the methods throw.
pub data MoneyError : Type 0 where
  currency_mismatch fractional_amount negative_percentage : MoneyError
  no_ratios negative_ratio zero_ratios : MoneyError

-- `number | bigint`, as far as `fromMajor` tells numbers apart.
pub data MajorAmount : Type 0 where
  whole : ℤ → MajorAmount
  fraction : MajorAmount

-- `/` on bigints cuts off towards zero. The callers' divisors are positive.
unfoldable pub bigint_div : ℤ → ℕ → ℤ
bigint_div (pos n) d = pos (n / d)
bigint_div (negsuc n) d = pos 0 -ℤ pos (suc n / d)

unfoldable pub from_minor : ℤ → Currency → Money
from_minor amount currency = record { amount = amount; currency = currency }

unfoldable pub from_major : MajorAmount → Currency → Result MoneyError Money
from_major fraction currency = err fractional_amount
from_major (whole n) currency =
    ok (record { amount = n *ℤ minor_units currency; currency = currency })

unfoldable pub zero_of : Currency → Money
zero_of currency = record { amount = pos 0; currency = currency }

unfoldable pub assert_same_currency : Money → Money → Result MoneyError (Unit {0})
assert_same_currency m other =
    throw_if (not (currency_eq m.currency other.currency)) currency_mismatch

unfoldable pub add : Money → Money → Result MoneyError Money
unfolding assert_same_currency
add m other = do assert_same_currency m other; ok (record m { amount = m.amount +ℤ other.amount })

unfoldable pub subtract : Money → Money → Result MoneyError Money
unfolding assert_same_currency
subtract m other = do
  assert_same_currency m other
  ok (record m { amount = m.amount -ℤ other.amount })

unfoldable pub multiply : Money → ℤ → Money
multiply m factor = record m { amount = m.amount *ℤ factor }

unfoldable pub percentage : Money → ℤ → Result MoneyError Money
unfolding bigint_div
percentage m basis_points = do
  throw_if (ltb_ℤ m.amount (pos 0)) negative_percentage
  let product = m.amount *ℤ basis_points
  ok (record m { amount = bigint_div (product +ℤ pos 9_999) 10_000 })

-- The `reduce` over the ratios.
unfoldable pub total_ratio : ℤ → List ℤ → Result MoneyError ℤ
total_ratio sum [] = ok sum
total_ratio sum (r ∷ rs) = throw_if (ltb_ℤ r (pos 0)) negative_ratio >> total_ratio (sum +ℤ r) rs

-- The first loop of `allocate`: the shares, rounded, and what is left of the amount.
unfoldable pub floor_shares : ℤ → ℕ → ℤ → List ℤ → List ℤ × ℤ
floor_shares amount total remainder [] = ([], remainder)
floor_shares amount total remainder (r ∷ rs) =
    let share = bigint_div (amount *ℤ r) total in
    let (shares, left) = floor_shares amount total (remainder -ℤ share) rs in (share ∷ shares, left)

-- The second loop, with `n` rounds left, from the share that it has reached on. A share that is not
-- there counts as 0.
unfoldable pub hand_out : ℕ → List ℤ → List ℤ
hand_out zero shares = shares
hand_out (suc n) [] = pos 1 ∷ hand_out n []
hand_out (suc n) (s ∷ ss) = (s +ℤ pos 1) ∷ hand_out n ss

abbrev is_empty : List ℤ → Bool
is_empty [] = true
is_empty (r ∷ rs) = false

unfoldable pub allocate : Money → List ℤ → Result MoneyError (List Money)
unfolding total_ratio floor_shares hand_out bigint_div
allocate m ratios = do
  throw_if (is_empty ratios) no_ratios
  total ← total_ratio (pos 0) ratios
  throw_if (eq_ℤ total (pos 0)) zero_ratios
  let (shares, remainder) = floor_shares m.amount (pos_part total) m.amount ratios
  ok (map (λ s. record m { amount = s }) (hand_out (pos_part remainder) shares))

unfoldable pub is_zero : Money → Bool
is_zero m = eq_ℤ m.amount (pos 0)

unfoldable pub is_negative : Money → Bool
is_negative m = ltb_ℤ m.amount (pos 0)

unfoldable pub equals : Money → Money → Bool
equals m other = currency_eq m.currency other.currency && eq_ℤ m.amount other.amount

unfoldable pub compare_money : Money → Money → Result MoneyError ℤ
unfolding assert_same_currency
compare_money m other = do
  assert_same_currency m other
  ok (
      if ltb_ℤ m.amount other.amount
      then negsuc 0
      else if ltb_ℤ other.amount m.amount
      then pos 1
      else pos 0)
