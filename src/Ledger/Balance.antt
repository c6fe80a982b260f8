-- ===== src/Ledger/Balance.antt =====
-- ledger.ts: which transactions are built, and what reversing one does.
use farzin.Prelude.{
  ◌≤◌, ◌≡◌, refl, sym, ap, ◌∙◌, ◌↔◌, inl, inr, arith, Bool, true, false, not, List, [], ◌∷◌, ◌++◌,
  map, Result, ok, err, ◌>>◌, throw_if, ltb, length, length-map, >>=-eq-ok, >>-eq-err, Bool-cases,
  if◌then◌else◌,
}
use farzin.Prelude.Int.{ℤ, pos, ◌+ℤ◌, ◌-ℤ◌, ◌≤ℤ◌, leb_ℤ, eq_ℤ, int_laws, eq_of_parts}
use farzin.Ledger.{
  LedgerEntryInput, LedgerEntryDirection, Reason, LedgerImbalanceError, LedgerAccountCode,
  LedgerPaymentProvider, debit, credit, in_accounts, direction_eq, sum_by_direction, sum_from,
  check_entries, imbalance, not_balanced, too_few, not_positive, unknown_account,
  liability_organizer_payable, build_ledger_transaction, reverse_ledger_entries, reverse_entry,
  reverse_direction, build_entry_fee_payment_entries, cash_account_for_provider,
}

-- Each entry has a positive amount and an account that the test of the code finds.
abbrev pub AllProper : List LedgerEntryInput → Type 0
AllProper [] = Unit
AllProper (e ∷ es) = (pos 1 ≤ℤ e.amount_tiyin) × (in_accounts e.account ≡ true) × AllProper es

-- The total of the amounts in one direction, written without an accumulator.
abbrev pub total : List LedgerEntryInput → LedgerEntryDirection → ℤ
total [] d = pos 0
total (e ∷ es) d = (if direction_eq e.direction d then e.amount_tiyin else pos 0) +ℤ total es d

-- What a transaction has to be.
pub record IsTransaction (entries : List LedgerEntryInput) : Type 0 where
  pub two_entries : 2 ≤ length entries
  pub proper : AllProper entries
  pub balanced : total entries debit ≡ total entries credit

sum_from-total :
    (s : ℤ) (es : List LedgerEntryInput) (d : LedgerEntryDirection)
    → sum_from s es d ≡ s +ℤ total es d
unfolding sum_from
sum_from-total s [] d = omega int_laws
sum_from-total s (e ∷ es) d = elim (Bool-cases (direction_eq e.direction d)) [
  | inl h ↦ rw h (sum_from-total (s +ℤ e.amount_tiyin) es d ∙ omega int_laws)
  | inr h ↦ rw h (sum_from-total s es d ∙ omega int_laws)
]

sum_by_direction-total :
    (es : List LedgerEntryInput) (d : LedgerEntryDirection) → sum_by_direction es d ≡ total es d
unfolding sum_by_direction
sum_by_direction-total es d = sum_from-total (pos 0) es d ∙ omega int_laws

check_entries_iff : (all es : List LedgerEntryInput) → (check_entries all es ≡ ok tt) ↔ AllProper es
unfolding check_entries
check_entries_iff all [] = ((λ _. tt), (λ _. refl))
check_entries_iff all (e ∷ es) =
    let (f, g) = check_entries_iff all es in
    (
      (λ h. (ground (arith), ground (arith), f (ground arith))),
      (λ p. let r = g p.2 in ground arith),
    )

balance_test :
    (a b : ℤ) (e : LedgerImbalanceError) → (throw_if (not (eq_ℤ a b)) e ≡ ok tt) ↔ (a ≡ b)
balance_test a b e = ((λ h. eq_of_parts a b (ground arith)), (λ h. rw h (ground arith)))

ok_injective :
    {a b : List LedgerEntryInput}
    → ◌≡◌ {A = Result LedgerImbalanceError (List LedgerEntryInput)} (ok a) (ok b)
    → a ≡ b
ok_injective h = cc

few_test : (es : List LedgerEntryInput) (h : 2 ≤ length es) → ltb (length es) 2 ≡ false
few_test es h = ground arith

enough :
    (es : List LedgerEntryInput) (e : LedgerImbalanceError)
    → throw_if (ltb (length es) 2) e ≡ ok tt
    → 2 ≤ length es
enough es e h = ground arith

-- `buildLedgerTransaction` succeeds for a list of at least two entries whose amounts are positive, whose
-- debits add up to its credits, and whose accounts are of the ledger or have the name of something that
-- every object inherits, and for nothing else, and it gives the entries back as they are.
pub build_ledger_transaction_iff :
    (entries out : List LedgerEntryInput)
    → (build_ledger_transaction entries ≡ ok out) ↔ (IsTransaction entries × (out ≡ entries))
unfolding build_ledger_transaction
build_ledger_transaction_iff entries out =
    let (proper_of, of_proper) = check_entries_iff entries entries in
    let d = sum_by_direction-total entries debit in
    let c = sum_by_direction-total entries credit in
    let (same_of, of_same) =
      balance_test (sum_by_direction entries debit) (sum_by_direction entries credit)
        (imbalance not_balanced entries) in
    (
      (λ h.
          let (_, h2, out_eq) = >>=-eq-ok _ _ h in
          let (_, h1, same) = >>=-eq-ok _ _ h2 in
          let (_, few, proper) = >>=-eq-ok _ _ h1 in
          (
            record {
              two_entries = enough entries _ few;
              proper = proper_of proper;
              balanced = sym d ∙ same_of same ∙ c;
            },
            sym (ok_injective out_eq),
          )),
      (λ (t, e).
          rw
            (
              e,
              few_test entries t.two_entries,
              of_proper t.proper,
              of_same (d ∙ t.balanced ∙ sym c),
            )
            refl),
    )

apart : {a : List LedgerEntryInput} {e : LedgerImbalanceError} → ok a ≡ err e → ⊥
apart h = cc

-- The error carries the totals of `entries`.
abbrev Reports : List LedgerEntryInput → LedgerImbalanceError → Type 0
Reports entries e =
    (e.debit_total_tiyin ≡ total entries debit) × (e.credit_total_tiyin ≡ total entries credit)

imbalance-Reports :
    (reason : Reason) (entries : List LedgerEntryInput) → Reports entries (imbalance reason entries)
unfolding imbalance
imbalance-Reports reason entries =
    (sum_by_direction-total entries debit, sum_by_direction-total entries credit)

throw_if-Reports :
    (b : Bool) (reason : Reason) (entries : List LedgerEntryInput) {e : LedgerImbalanceError}
    → throw_if b (imbalance reason entries) ≡ err e
    → Reports entries e
throw_if-Reports true reason entries {e} h =
    let same : e ≡ imbalance reason entries = cc in rw same (imbalance-Reports reason entries)
throw_if-Reports false reason entries h = cc

check_entries-Reports :
    (entries es : List LedgerEntryInput) {e : LedgerImbalanceError}
    → check_entries entries es ≡ err e
    → Reports entries e
unfolding check_entries
check_entries-Reports entries [] h = cc
check_entries-Reports entries (x ∷ es) h = elim (>>-eq-err _ _ h) [
  | inr rest ↦ check_entries-Reports entries es rest
  | inl first ↦
      elim (>>-eq-err (throw_if (leb_ℤ x.amount_tiyin (pos 0)) (imbalance not_positive entries))
        (throw_if (not (in_accounts x.account)) (imbalance unknown_account entries)) first) [
          | inl a ↦ throw_if-Reports _ not_positive entries a
          | inr b ↦ throw_if-Reports _ unknown_account entries b
        ]
]

reported :
    (entries : List LedgerEntryInput) {e : LedgerImbalanceError}
    → build_ledger_transaction entries ≡ err e
    → Reports entries e
unfolding build_ledger_transaction
reported entries h =
    let few = throw_if (ltb (length entries) 2) (imbalance too_few entries) in
    let uneven = not (eq_ℤ (sum_by_direction entries debit) (sum_by_direction entries credit)) in
    let last = throw_if uneven (imbalance not_balanced entries) in
    elim (>>-eq-err _ (ok entries) h) [
      | inr rest ↦ cc
      | inl checks ↦ elim (>>-eq-err (few >> check_entries entries entries) last checks) [
        | inr c ↦ throw_if-Reports uneven not_balanced entries c
        | inl first ↦ elim (>>-eq-err few (check_entries entries entries) first) [
          | inl a ↦ throw_if-Reports _ too_few entries a
          | inr b ↦ check_entries-Reports entries entries b
        ]
      ]
    ]

-- A refusal of `buildLedgerTransaction` reports the totals of the two directions, and what is refused
-- is no transaction.
build_ledger_transaction-err :
    (entries : List LedgerEntryInput) {e : LedgerImbalanceError}
    → build_ledger_transaction entries ≡ err e
    → (e.debit_total_tiyin ≡ total entries debit)
      × (e.credit_total_tiyin ≡ total entries credit)
      × (IsTransaction entries → ⊥)
unfolding build_ledger_transaction
build_ledger_transaction-err entries h =
    let (d, c) = reported entries h in
    (d, c, λ t. apart (sym ((build_ledger_transaction_iff entries entries).1 (t, refl)) ∙ h))

total-reverse :
    (es : List LedgerEntryInput) (d : LedgerEntryDirection)
    → total (map reverse_entry es) d ≡ total es (reverse_direction d)
total-reverse [] d = refl
total-reverse (e ∷ es) d = let i = total-reverse es d in ground (arith, i)

AllProper-reverse : (es : List LedgerEntryInput) → AllProper es → AllProper (map reverse_entry es)
AllProper-reverse [] h = tt
AllProper-reverse (e ∷ es) (p, a, r) = (p, a, AllProper-reverse es r)

pub reverse-IsTransaction :
    {es : List LedgerEntryInput} → IsTransaction es → IsTransaction (map reverse_entry es)
reverse-IsTransaction {es} t = record {
  two_entries = rw (length-map es reverse_entry) t.two_entries;
  proper = AllProper-reverse es t.proper;
  balanced = total-reverse es debit ∙ sym t.balanced ∙ sym (total-reverse es credit);
}

reverse_twice : (es : List LedgerEntryInput) → map reverse_entry (map reverse_entry es) ≡ es
reverse_twice [] = refl
reverse_twice (e ∷ es) = let i = reverse_twice es in ground (arith, i)

-- What the entries put on the accounts that `chosen` picks: debits less credits.
abbrev pub balance_of : (LedgerAccountCode → Bool) → List LedgerEntryInput → ℤ
balance_of chosen [] = pos 0
balance_of chosen (e ∷ es) =
    (if chosen e.account
      then (if direction_eq e.direction debit then e.amount_tiyin else pos 0 -ℤ e.amount_tiyin)
      else pos 0)
    +ℤ balance_of chosen es

reversed_once :
    (picked : Bool) (d : LedgerEntryDirection) (amount x y : ℤ)
    → x ≡ pos 0 -ℤ y
    → (if picked
          then (if direction_eq (reverse_direction d) debit then amount else pos 0 -ℤ amount)
          else pos 0)
        +ℤ x
      ≡ pos 0
        -ℤ ((if picked then (if direction_eq d debit then amount else pos 0 -ℤ amount) else pos 0)
            +ℤ y)
reversed_once true debit amount x y h = rw h (omega int_laws)
reversed_once true credit amount x y h = rw h (omega int_laws)
reversed_once false d amount x y h = rw h (omega int_laws)

balance_of-reverse :
    (chosen : LedgerAccountCode → Bool) (es : List LedgerEntryInput)
    → balance_of chosen (map reverse_entry es) ≡ pos 0 -ℤ balance_of chosen es
balance_of-reverse chosen [] = omega int_laws
balance_of-reverse chosen (e ∷ es) =
    let i = balance_of-reverse chosen es in
    reversed_once (chosen e.account) e.direction e.amount_tiyin _ _ i

balance_of-append :
    (chosen : LedgerAccountCode → Bool) (es fs : List LedgerEntryInput)
    → balance_of chosen (es ++ fs) ≡ balance_of chosen es +ℤ balance_of chosen fs
balance_of-append chosen [] fs = omega int_laws
balance_of-append chosen (e ∷ es) fs =
    let i = balance_of-append chosen es fs in rw i (omega int_laws)

-- Whatever `buildLedgerTransaction` returned, `reverseLedgerEntries` succeeds on it, reversing the
-- reversal gives the transaction back, and on every set of accounts the transaction and its
-- reversal together put nothing.
pub reverse_ledger_entries-undoes :
    (entries : List LedgerEntryInput) {built : List LedgerEntryInput}
    → build_ledger_transaction entries ≡ ok built
    → (reversed : List LedgerEntryInput) × (reverse_ledger_entries built ≡ ok reversed)
      × (reverse_ledger_entries reversed ≡ ok built)
      × ((chosen : LedgerAccountCode → Bool) → balance_of chosen (built ++ reversed) ≡ pos 0)
unfolding reverse_ledger_entries
reverse_ledger_entries-undoes entries {built} h =
    let (t, e) = (build_ledger_transaction_iff entries built).0 h in
    let t' = reverse-IsTransaction t in
    let there = (build_ledger_transaction_iff (map reverse_entry entries) _).1 (t', refl) in
    let back = (build_ledger_transaction_iff entries _).1 (t, refl) in
    rw e (
      map reverse_entry entries,
      there,
      ap build_ledger_transaction (reverse_twice entries) ∙ back,
      λ chosen.
          balance_of-append chosen entries (map reverse_entry entries)
          ∙ rw (balance_of-reverse chosen entries) (omega int_laws),
    )

abbrev fee_entries : LedgerPaymentProvider → ℤ → List LedgerEntryInput
fee_entries provider amount =
    record {
      account = cash_account_for_provider provider;
      direction = debit;
      amount_tiyin = amount;
    }
    ∷ record { account = liability_organizer_payable; direction = credit; amount_tiyin = amount }
    ∷ []

cash_in_accounts :
    (provider : LedgerPaymentProvider) → in_accounts (cash_account_for_provider provider) ≡ true
cash_in_accounts provider = ground arith

fee-IsTransaction :
    (provider : LedgerPaymentProvider) {amount : ℤ}
    → pos 1 ≤ℤ amount
    → IsTransaction (fee_entries provider amount)
fee-IsTransaction provider h = record {
  two_entries = omega arith;
  proper = (h, cash_in_accounts provider, (h, refl, tt));
  balanced = omega int_laws;
}

moved :
    (x y : Bool) (amount : ℤ)
    → (if x then amount else pos 0) +ℤ ((if y then pos 0 -ℤ amount else pos 0) +ℤ pos 0)
      ≡ (if x then amount else pos 0) -ℤ (if y then amount else pos 0)
moved x true amount = omega int_laws
moved x false amount = omega int_laws

-- `buildEntryFeePaymentEntries` succeeds just for a positive amount, and then it puts the amount on the
-- provider's cash account, takes it from the organizer's payables, and touches no other account.
build_entry_fee_payment_entries_iff :
    (provider : LedgerPaymentProvider) (amount : ℤ)
    → (((out : List LedgerEntryInput) × (build_entry_fee_payment_entries provider amount ≡ ok out))
        ↔ (pos 1 ≤ℤ amount))
      × ((out : List LedgerEntryInput)
          → build_entry_fee_payment_entries provider amount ≡ ok out
          → (chosen : LedgerAccountCode → Bool)
          → balance_of chosen out
            ≡ (if chosen (cash_account_for_provider provider) then amount else pos 0)
              -ℤ (if chosen liability_organizer_payable then amount else pos 0))
unfolding build_entry_fee_payment_entries
build_entry_fee_payment_entries_iff provider amount =
    let two = fee_entries provider amount in
    (
      (
        (λ p. ((build_ledger_transaction_iff two p.0).0 p.1).0.proper.0),
        (λ h. (two, (build_ledger_transaction_iff two two).1 (fee-IsTransaction provider h, refl))),
      ),
      (λ out h chosen. rw ((build_ledger_transaction_iff two out).0 h).1 (moved _ _ amount)),
    )
