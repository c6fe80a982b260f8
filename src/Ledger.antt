-- ===== src/Ledger.antt =====
-- The double-entry ledger, src/core/billing/ledger.ts: transactions are built, or refused, as lists of
-- entries.
pub mod Balance
use farzin.Prelude.{
  ℕ, Bool, true, false, not, List, [], ◌∷◌, map, Result, ok, err, ◌>>=◌, ◌>>◌, throw_if, ltb,
  length, if◌then◌else◌,
}
use farzin.Prelude.Int.{ℤ, pos, ◌+ℤ◌, leb_ℤ, eq_ℤ}

-- The last two constructors are values that the type excludes and that the code tests for: a name that
-- every object inherits, such as `toString`, and any other name that is no key of `LEDGER_ACCOUNTS`.
pub data LedgerAccountCode : Type 0 where
  cash_click cash_payme cash_uzum cash_bank_transfer cash_manual : LedgerAccountCode
  revenue_entry_fee revenue_subscription revenue_commission : LedgerAccountCode
  liability_organizer_payable liability_tax_payable : LedgerAccountCode
  expense_provider_fee : LedgerAccountCode
  inherited foreign : ℕ → LedgerAccountCode

pub data LedgerAccountKind : Type 0 where
  asset revenue liability expense : LedgerAccountKind

-- `LEDGER_ACCOUNTS`.
abbrev pub ledger_accounts : List (LedgerAccountCode × LedgerAccountKind)
ledger_accounts =
    (cash_click, asset)
    ∷ (cash_payme, asset)
    ∷ (cash_uzum, asset)
    ∷ (cash_bank_transfer, asset)
    ∷ (cash_manual, asset)
    ∷ (revenue_entry_fee, revenue)
    ∷ (revenue_subscription, revenue)
    ∷ (revenue_commission, revenue)
    ∷ (liability_organizer_payable, liability)
    ∷ (liability_tax_payable, liability)
    ∷ (expense_provider_fee, expense)
    ∷ []

-- `entry.account in LEDGER_ACCOUNTS`: the test `in` also finds what an object inherits.
abbrev pub in_accounts : LedgerAccountCode → Bool
in_accounts (foreign n) = false
in_accounts _ = true

pub data LedgerEntryDirection : Type 0 where
  debit credit : LedgerEntryDirection

abbrev pub direction_eq : LedgerEntryDirection → LedgerEntryDirection → Bool
direction_eq debit debit = true
direction_eq credit credit = true
direction_eq _ _ = false

pub data LedgerPaymentProvider : Type 0 where
  click payme uzum bank_transfer manual : LedgerPaymentProvider

pub record LedgerEntryInput : Type 0 where
  pub account : LedgerAccountCode
  pub direction : LedgerEntryDirection
  pub amount_tiyin : ℤ

-- The message of the error, without its text.
pub data Reason : Type 0 where
  too_few not_positive unknown_account not_balanced : Reason

pub record LedgerImbalanceError : Type 0 where
  pub reason : Reason
  pub debit_total_tiyin : ℤ
  pub credit_total_tiyin : ℤ

-- The `reduce`, from the sum `sum`.
unfoldable pub sum_from : ℤ → List LedgerEntryInput → LedgerEntryDirection → ℤ
sum_from sum [] direction = sum
sum_from sum (e ∷ es) direction =
    sum_from (if direction_eq e.direction direction then sum +ℤ e.amount_tiyin else sum) es
      direction

unfoldable pub sum_by_direction : List LedgerEntryInput → LedgerEntryDirection → ℤ
sum_by_direction entries direction = sum_from (pos 0) entries direction

-- The error for the transaction `entries`.
unfoldable pub imbalance : Reason → List LedgerEntryInput → LedgerImbalanceError
imbalance reason entries = record {
  reason = reason;
  debit_total_tiyin = sum_by_direction entries debit;
  credit_total_tiyin = sum_by_direction entries credit;
}

-- The loop over the entries; `entries` is the whole transaction.
unfoldable pub check_entries :
    List LedgerEntryInput → List LedgerEntryInput → Result LedgerImbalanceError (Unit {0})
check_entries entries [] = ok tt
check_entries entries (e ∷ es) =
    throw_if (leb_ℤ e.amount_tiyin (pos 0)) (imbalance not_positive entries)
    >> throw_if (not (in_accounts e.account)) (imbalance unknown_account entries)
    >> check_entries entries es

unfoldable pub build_ledger_transaction :
    List LedgerEntryInput → Result LedgerImbalanceError (List LedgerEntryInput)
build_ledger_transaction entries =
    throw_if (ltb (length entries) 2) (imbalance too_few entries)
    >> check_entries entries entries
    >> throw_if (not (eq_ℤ (sum_by_direction entries debit) (sum_by_direction entries credit)))
        (imbalance not_balanced entries)
    >> ok entries

abbrev pub reverse_direction : LedgerEntryDirection → LedgerEntryDirection
reverse_direction debit = credit
reverse_direction credit = debit

abbrev pub reverse_entry : LedgerEntryInput → LedgerEntryInput
reverse_entry e = record e { direction = reverse_direction e.direction }

unfoldable pub reverse_ledger_entries :
    List LedgerEntryInput → Result LedgerImbalanceError (List LedgerEntryInput)
reverse_ledger_entries entries = build_ledger_transaction (map reverse_entry entries)

abbrev pub cash_account_for_provider : LedgerPaymentProvider → LedgerAccountCode
cash_account_for_provider click = cash_click
cash_account_for_provider payme = cash_payme
cash_account_for_provider uzum = cash_uzum
cash_account_for_provider bank_transfer = cash_bank_transfer
cash_account_for_provider manual = cash_manual

unfoldable pub build_entry_fee_payment_entries :
    LedgerPaymentProvider → ℤ → Result LedgerImbalanceError (List LedgerEntryInput)
build_entry_fee_payment_entries provider amount = build_ledger_transaction (
    record {
      account = cash_account_for_provider provider;
      direction = debit;
      amount_tiyin = amount;
    }
    ∷ record { account = liability_organizer_payable; direction = credit; amount_tiyin = amount }
    ∷ [])
