-- ===== src/Money/Arithmetic.antt =====
-- money.ts: sums, differences, comparison and percentages.
use farzin.Prelude.{ℕ, ◌+◌, ◌*◌, ◌/◌, ◌≤◌, ◌<◌, ◌≡◌, refl, ◌↔◌, arith, true, ok, map_ok}
use farzin.Prelude.Int.{ℤ, pos, ◌+ℤ◌, ◌-ℤ◌, ◌*ℤ◌, int_laws}
use farzin.Money.{
  Money, Currency, add, subtract, compare_money, equals, percentage, bigint_div, currency_eq,
}

currency_eq_iff : (a b : Currency) → currency_eq a b ≡ true → a ≡ b
currency_eq_iff a b h = ground arith

cancel : (a b : ℤ) → a +ℤ b -ℤ b ≡ a
cancel a b = omega int_laws

money_eq : (m n : Money) → m.amount ≡ n.amount → m.currency ≡ n.currency → m ≡ n
money_eq m n e f = λ i. record { amount = e i; currency = f i }

-- Taking off what was added gives the amount back: if `add` succeeds, so does `subtract` of the same
-- amount from the sum, and it returns the first amount.
add-subtract : (m other : Money) {sum : Money} → add m other ≡ ok sum → subtract sum other ≡ ok m
unfolding add subtract
add-subtract m other h = ground (arith, cancel m.amount other.amount)

-- The comparison is consistent: exchanging the two amounts negates what `compare` gives, and it gives
-- 0 just for amounts that `equals` finds equal; in different currencies both orders fail.
compare_money-swap :
    (m other : Money)
    → (compare_money other m ≡ map_ok (λ x. pos 0 -ℤ x) (compare_money m other))
      × ((compare_money m other ≡ ok (pos 0)) ↔ (equals m other ≡ true))
unfolding compare_money equals ◌-ℤ◌
compare_money-swap m other = (ground arith, ((λ h. ground arith), (λ h. ground arith)))

rounded_up : (n q : ℕ) → q ≡ (n + 9999) / 10000 → (n ≤ q * 10000) × (q * 10000 < n + 10000)
rounded_up n q e = (omega arith, omega arith)

-- A percentage is rounded up to the next whole unit: for a non-negative amount `a` and `b` basis
-- points the result is the least number of units that is not below `a * b / 10000`.
percentage_rounds_up :
    (currency : Currency) (a b : ℕ) {r : Money}
    → percentage (record { amount = pos a; currency = currency }) (pos b) ≡ ok r
    → (q : ℕ) × (r ≡ record { amount = pos q; currency = currency })
      × (a * b ≤ q * 10000)
      × (q * 10000 < a * b + 10000)
unfolding percentage bigint_div ◌*ℤ◌ ◌+ℤ◌
percentage_rounds_up currency a b h =
    let q = (a * b + 9999) / 10000 in
    let (low, high) = rounded_up (a * b) q refl in (q, ground arith, low, high)
