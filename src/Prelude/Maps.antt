-- ===== src/Prelude/Maps.antt =====
-- Maps as association lists over keys with a Boolean equality, with at most one entry that a lookup
-- finds. The values are counted by a test on them.
use Prim.Native.Nat.{ℕ, ◌+◌}
use mathlib.Core.Path.{◌≡◌, refl, subst}
use mathlib.Core.Logic.{◌↔◌, inl, inr}
use mathlib.Core.Bool.{Bool, true}
use mathlib.Core.List.{List, [], ◌∷◌}
use mathlib.Core.Option.{Option, none, some}
use native.Mathlib.Omega.{arith}
use farzin.Prelude.Tests.{◌==◌, if◌then◌else◌, Bool-cases}

-- What a key is compared with.
pub record Key (K : Type 0) : Type 0 where
  pub same : K → K → Bool
  pub same_iff : (a b : K) → (same a b ≡ true) ↔ (a ≡ b)

pub record Entry (K : Type 0) : Type 0 where
  pub key : K
  pub value : ℕ

module _ {K : Type 0} ⦃k : Key K⦄ where
  abbrev pub map_get : K → List (Entry K) → Option ℕ
  map_get a [] = none
  map_get a (e ∷ es) = if k.same e.key a then some e.value else map_get a es

  abbrev pub map_delete : K → List (Entry K) → List (Entry K)
  map_delete a [] = []
  map_delete a (e ∷ es) = let rest = map_delete a es in if k.same e.key a then es else e ∷ rest

-- A new entry; the callers have deleted the old one.
abbrev pub map_add : {K : Type 0} → K → ℕ → List (Entry K) → List (Entry K)
map_add a v es = record { key = a; value = v } ∷ es

-- How many entries have the value.
abbrev pub value_count : {K : Type 0} → ℕ → List (Entry K) → ℕ
value_count v [] = 0
value_count v (e ∷ es) = (if e.value == v then 1 else 0) + value_count v es

abbrev pub one_at : Option ℕ → ℕ → ℕ
one_at none v = 0
one_at (some w) v = if w == v then 1 else 0

-- No key has two entries.
abbrev pub IsKeyed : {K : Type 0} → ⦃k : Key K⦄ → List (Entry K) → Type 0
IsKeyed [] = Unit
IsKeyed (e ∷ es) = (map_get e.key es ≡ none) × IsKeyed es

module _ {K : Type 0} ⦃k : Key K⦄ where
  -- Deleting takes away the entry that the lookup finds.
  pub value_count-map_delete :
      (a : K) (v : ℕ) (es : List (Entry K))
      → value_count v es ≡ one_at (map_get a es) v + value_count v (map_delete a es)
  value_count-map_delete a v [] = refl
  value_count-map_delete a v (e ∷ es) = ground (arith, value_count-map_delete a v es)

  pub map_get-map_delete_ne :
      (a b : K) (es : List (Entry K)) → map_get b es ≡ none → map_get b (map_delete a es) ≡ none
  map_get-map_delete_ne a b [] h = refl
  map_get-map_delete_ne a b (e ∷ es) h = ground (arith, map_get-map_delete_ne a b es)

  pub map_delete-IsKeyed : (a : K) (es : List (Entry K)) → IsKeyed es → IsKeyed (map_delete a es)
  map_delete-IsKeyed a [] h = tt
  map_delete-IsKeyed a (e ∷ es) h = elim (Bool-cases (k.same e.key a)) [
    | inl found ↦ rw found h.1
    | inr other ↦ rw other (map_get-map_delete_ne a e.key es h.0, map_delete-IsKeyed a es h.1)
  ]

  -- Once deleted, a key has no entry.
  pub map_get-map_delete :
      (a : K) (es : List (Entry K)) → IsKeyed es → map_get a (map_delete a es) ≡ none
  map_get-map_delete a [] h = refl
  map_get-map_delete a (e ∷ es) h = elim (Bool-cases (k.same e.key a)) [
    | inl found ↦
        rw found (subst (λ (x : K). map_get x es ≡ none) ((k.same_iff e.key a).0 found) h.0)
    | inr other ↦ ground (arith, map_get-map_delete a es h.1)
  ]
