-- ===== src/Tests/Amounts.antt =====
-- Amounts of money, and the ledger's entries for an entry fee.
use farzin.Prelude.{List, [], ◌∷◌, ◌++◌, ok, err, ◌≡◌, ◌↔◌, refl, Bool, length}
use farzin.Prelude.Int.{ℤ, pos, negsuc, ◌+ℤ◌, ◌-ℤ◌, ◌*ℤ◌}
use farzin.Money.{Money, uzs, percentage, allocate, total_ratio, floor_shares, hand_out, bigint_div}
use farzin.Money.Allocation.{
  sum, quotas, allocate_negative-sum, allocate-sum, sum_money, WithinOne, quotas,
}
use farzin.Ledger.{
  LedgerEntryInput, LedgerAccountCode, LedgerImbalanceError, debit, credit, cash_click,
  liability_organizer_payable, not_balanced, build_ledger_transaction, reverse_ledger_entries,
  check_entries, sum_by_direction, sum_from, imbalance,
}
use farzin.Ledger.Balance.{
  build_ledger_transaction_iff, reverse_ledger_entries-undoes, IsTransaction, balance_of,
}

abbrev sum_of : ℤ → Money
sum_of n = record { amount = n; currency = uzs }

-- 2.5 percent of 999 is 24.975.
commission : percentage (sum_of (pos 999)) (pos 250) ≡ ok (sum_of (pos 25))
unfolding percentage bigint_div ◌*ℤ◌ ◌+ℤ◌
commission = refl

abbrev thirds : List ℤ
thirds = pos 1 ∷ pos 1 ∷ pos 1 ∷ []

abbrev shares : List Money
shares = sum_of (pos 34) ∷ sum_of (pos 33) ∷ sum_of (pos 33) ∷ []

shared : allocate (sum_of (pos 100)) thirds ≡ ok shares
unfolding allocate total_ratio floor_shares hand_out bigint_div ◌+ℤ◌ ◌*ℤ◌ ◌-ℤ◌
shared = refl

allocate-sum_example :
    (sum_money shares ≡ pos 100)
    × (length shares ≡ length thirds)
    × WithinOne (quotas 100 3 thirds) shares
allocate-sum_example = allocate-sum uzs 100 thirds shared

abbrev debts : List Money
debts = sum_of (negsuc 32) ∷ sum_of (negsuc 32) ∷ sum_of (negsuc 32) ∷ []

-- One unit of the debt is lost.
shared_debt : allocate (sum_of (negsuc 99)) thirds ≡ ok debts
unfolding allocate total_ratio floor_shares hand_out bigint_div ◌+ℤ◌ ◌*ℤ◌ ◌-ℤ◌
shared_debt = refl

abbrev fee : List LedgerEntryInput
fee =
    record { account = cash_click; direction = debit; amount_tiyin = pos 500 }
    ∷ record { account = liability_organizer_payable; direction = credit; amount_tiyin = pos 500 }
    ∷ []

fee_built : build_ledger_transaction fee ≡ ok fee
unfolding build_ledger_transaction check_entries sum_by_direction sum_from ◌+ℤ◌
fee_built = refl

build_ledger_transaction_iff_example :
    (build_ledger_transaction fee ≡ ok fee) ↔ (IsTransaction fee × (fee ≡ fee))
build_ledger_transaction_iff_example = build_ledger_transaction_iff fee fee

-- The organizer's entry is short of 100.
abbrev short : List LedgerEntryInput
short =
    record { account = cash_click; direction = debit; amount_tiyin = pos 500 }
    ∷ record { account = liability_organizer_payable; direction = credit; amount_tiyin = pos 400 }
    ∷ []

abbrev short_error : LedgerImbalanceError
short_error = record {
  reason = not_balanced;
  debit_total_tiyin = pos 500;
  credit_total_tiyin = pos 400;
}

short_refused : build_ledger_transaction short ≡ err short_error
unfolding build_ledger_transaction check_entries sum_by_direction sum_from imbalance ◌+ℤ◌
short_refused = refl

reverse_ledger_entries-undoes_example :
    (reversed : List LedgerEntryInput) × (reverse_ledger_entries fee ≡ ok reversed)
    × (reverse_ledger_entries reversed ≡ ok fee)
    × ((chosen : LedgerAccountCode → Bool) → balance_of chosen (fee ++ reversed) ≡ pos 0)
reverse_ledger_entries-undoes_example = reverse_ledger_entries-undoes fee {built = fee} fee_built

allocate_negative-sum_example :
    (sum_money debts ≡ pos 0 -ℤ pos (sum (quotas 100 3 thirds)))
    × ((sum_money debts ≡ negsuc 99) ↔ (sum (quotas 100 3 thirds) ≡ 100))
allocate_negative-sum_example = allocate_negative-sum uzs 99 thirds shared_debt
