-- ===== src/Pairing/Swiss/Colors/History.antt =====
-- colors.ts: colour histories that respect the limits of FIDE C.04.3, and what `colorPreferenceOf`
-- says of them.
use farzin.Prelude.{
  ℕ, zero, suc, ◌-◌, ◌≤◌, ◌<◌, ◌⊎◌, inl, inr, ◌≡◌, ◌≢◌, refl, ap, ◌∙◌, arith, Bool, true, false,
  ◌&&◌, Option, none, some, List, [], ◌∷◌, ◌++◌, length, get_elem?, length-append,
}
use farzin.Prelude.Int.{ℤ, pos, negsuc, ◌+ℤ◌, int_laws, magnitude}
use farzin.Pairing.{Color, white, black, ColorPreference, absolute, none_yet}
use farzin.Pairing.Swiss.Colors.{
  color_difference, color_difference_from, color_weight, color_preference_of, preference_of,
  from_end, is_some_color, opposite_color, color_eq, is_absolute,
}

-- The same history, latest game first.
abbrev pub backwards : List Color → List Color
backwards [] = []
backwards (c ∷ cs) = backwards cs ++ (c ∷ [])

abbrev pub difference : List Color → ℤ
difference [] = pos 0
difference (c ∷ cs) = difference cs +ℤ color_weight c

abbrev pub starts : List Color → Color → Bool
starts [] c = false
starts (d ∷ ds) c = color_eq d c

abbrev pub starts_twice : List Color → Color → Bool
starts_twice [] c = false
starts_twice (d ∷ ds) c = color_eq d c && starts ds c

-- Latest game first: at no time was the colour difference beyond 2, or one colour played in three
-- successive games.
abbrev pub IsLegalBack : List Color → Type 0
IsLegalBack [] = Unit
IsLegalBack (c ∷ cs) =
    (magnitude (difference (c ∷ cs)) ≤ 2) × (starts_twice cs c ≡ false) × IsLegalBack cs

abbrev pub IsLegal : List Color → Type 0
IsLegal history = IsLegalBack (backwards history)

difference-snoc :
    (xs : List Color) (c : Color) → difference (xs ++ (c ∷ [])) ≡ difference xs +ℤ color_weight c
difference-snoc [] c = omega int_laws
difference-snoc (x ∷ xs) c = rw (difference-snoc xs c) (omega int_laws)

difference-backwards :
    (cs : List Color) (n : ℤ) → color_difference_from n cs ≡ n +ℤ difference (backwards cs)
unfolding color_difference_from
difference-backwards [] n = omega int_laws
difference-backwards (c ∷ cs) n =
    rw (difference-backwards cs (n +ℤ color_weight c), difference-snoc (backwards cs) c)
      (omega int_laws)

pub color_difference-backwards : (cs : List Color) → color_difference cs ≡ difference (backwards cs)
unfolding color_difference
color_difference-backwards cs = rw (difference-backwards cs (pos 0)) (omega int_laws)

get_elem?-last : (xs : List Color) (c : Color) → get_elem? (xs ++ (c ∷ [])) (length xs) ≡ some c
get_elem?-last [] c = refl
get_elem?-last (x ∷ xs) c = get_elem?-last xs c

get_elem?-append :
    (xs ys : List Color) (i : ℕ) → i < length xs → get_elem? (xs ++ ys) i ≡ get_elem? xs i
get_elem?-append [] ys i h = elim h [ ]
get_elem?-append (x ∷ xs) ys zero h = refl
get_elem?-append (x ∷ xs) ys (suc i) h = get_elem?-append xs ys i (omega arith)

pub backwards-snoc : (xs : List Color) (c : Color) → backwards (xs ++ (c ∷ [])) ≡ c ∷ backwards xs
backwards-snoc [] c = refl
backwards-snoc (x ∷ xs) c = rw (backwards-snoc xs c)

snoc_cases : (h : List Color) → (h ≡ []) ⊎ ((xs : List Color) × (c : Color) × (h ≡ xs ++ (c ∷ [])))
snoc_cases [] = inl refl
snoc_cases (x ∷ h) = elim (snoc_cases h) [
  | inl e ↦ inr ([], x, ap (λ t. x ∷ t) e)
  | inr (xs, c, e) ↦ inr (x ∷ xs, c, ap (λ t. x ∷ t) e)
]

last_of_snoc :
    (xs : List Color) (c : Color)
    → (from_end (xs ++ (c ∷ [])) 1 ≡ some c) × (from_end (xs ++ (c ∷ [])) 2 ≡ from_end xs 1)
last_of_snoc xs c =
    let long : length (xs ++ (c ∷ [])) ≡ suc (length xs) =
      omega (arith, length-append xs (c ∷ [])) in
    (
      rw long (ground (arith, get_elem?-last xs c)),
      rw long (ground (arith, get_elem?-append xs (c ∷ []) (length xs - 1))),
    )

-- The last two colours, read off the history latest game first.
pub last_two :
    (h : List Color)
    → (from_end h 1 ≡ get_elem? (backwards h) 0) × (from_end h 2 ≡ get_elem? (backwards h) 1)
last_two h = elim (snoc_cases h) [
  | inl e ↦ rw e (refl, refl)
  | inr (xs, c, e) ↦
      let f = last_of_snoc xs c in rw (e, backwards-snoc xs c, f.0, f.1) (refl, last_one xs)
]
  where
    last_one : (xs : List Color) → from_end xs 1 ≡ get_elem? (backwards xs) 0
    last_one xs = elim (snoc_cases xs) [
      | inl e ↦ rw e
      | inr (ys, d, e) ↦ rw (e, backwards-snoc ys d, (last_of_snoc ys d).0)
    ]

-- `colorPreferenceOf`, on the history latest game first.
abbrev pub back_preference : List Color → ColorPreference
back_preference [] = record { color = none; strength = none_yet }
back_preference (c ∷ cs) = preference_of (difference (c ∷ cs)) (some c) (get_elem? cs 0)

color_preference_of-cons :
    (c : Color) (cs : List Color)
    → let h = c ∷ cs in
      color_preference_of h ≡ preference_of (color_difference h) (from_end h 1) (from_end h 2)
unfolding color_preference_of
color_preference_of-cons c cs = refl

pub color_preference_of-backwards :
    (h : List Color) → color_preference_of h ≡ back_preference (backwards h)
unfolding color_preference_of
color_preference_of-backwards [] = refl
color_preference_of-backwards (c ∷ cs) =
    let h = c ∷ cs in
    let two = last_two h in
    color_preference_of-cons c cs
    ∙ (λ i. preference_of (color_difference-backwards h i) (two.0 i) (two.1 i))
    ∙ headed (backwards h) (not_empty (backwards cs) c)
  where
    not_empty : (xs : List Color) (d : Color) → 1 ≤ length (xs ++ (d ∷ []))
    not_empty [] d = omega arith
    not_empty (x ∷ xs) d = omega arith

    headed :
        (b : List Color)
        → 1 ≤ length b
        → preference_of (difference b) (get_elem? b 0) (get_elem? b 1) ≡ back_preference b
    headed [] h = elim h [ ]
    headed (x ∷ xs) h = refl

difference_bound : (b : List Color) → IsLegalBack b → magnitude (difference b) ≤ 2
difference_bound [] h = omega arith
difference_bound (c ∷ cs) h = h.0

-- An absolute preference within the limits, by its reason: a difference of 2, or two games of one
-- colour.
AbsoluteReason : ℤ → Color → Option Color → Color → Type 0
AbsoluteReason cd x before c =
    ((cd ≡ pos 2) × (c ≡ black))
    ⊎ ((cd ≡ negsuc 1) × (c ≡ white))
    ⊎ ((magnitude cd ≤ 1) × (is_some_color before x ≡ true) × (c ≡ opposite_color x))

absolute_reason :
    (cd : ℤ) (x : Color) (before : Option Color) (c : Color)
    → magnitude cd ≤ 2
    → preference_of cd (some x) before ≡ record { color = some c; strength = absolute }
    → AbsoluteReason cd x before c
unfolding preference_of AbsoluteReason
absolute_reason (pos zero) x before c h e = inr (inr (omega arith, ground arith, ground arith))
absolute_reason (pos (suc zero)) x before c h e =
    inr (inr (omega arith, ground arith, ground arith))
absolute_reason (pos (suc (suc zero))) x before c h e = inl (refl, ground arith)
absolute_reason (pos (suc (suc (suc n)))) x before c h e = absurd (omega arith)
absolute_reason (negsuc zero) x before c h e = inr (inr (omega arith, ground arith, ground arith))
absolute_reason (negsuc (suc zero)) x before c h e = inr (inl (refl, ground arith))
absolute_reason (negsuc (suc (suc n))) x before c h e = absurd (omega arith)

free_reason :
    (cd : ℤ) (x : Color) (before : Option Color)
    → magnitude cd ≤ 2
    → is_absolute (preference_of cd (some x) before).strength ≡ false
    → (magnitude cd ≤ 1) × (is_some_color before x ≡ false)
unfolding preference_of
free_reason (pos zero) x before h e = (omega arith, ground arith)
free_reason (pos (suc zero)) x before h e = (omega arith, ground arith)
free_reason (pos (suc (suc zero))) x before h e = cc
free_reason (pos (suc (suc (suc n)))) x before h e = absurd (omega arith)
free_reason (negsuc zero) x before h e = (omega arith, ground arith)
free_reason (negsuc (suc zero)) x before h e = cc
free_reason (negsuc (suc (suc n))) x before h e = absurd (omega arith)

small_step : (cd : ℤ) (c : Color) → magnitude cd ≤ 1 → magnitude (cd +ℤ color_weight c) ≤ 2
unfolding ◌+ℤ◌
small_step cd white h = ground arith
small_step cd black h = ground arith

-- Two games of a colour do not end at a difference of 2 the other way.
two_blacks : (d : ℤ) → magnitude d ≤ 2 → d +ℤ negsuc 0 +ℤ negsuc 0 ≢ pos 2
unfolding ◌+ℤ◌
two_blacks (pos n) h e = ground arith
two_blacks (negsuc n) h e = ground arith

two_whites : (d : ℤ) → magnitude d ≤ 2 → d +ℤ pos 1 +ℤ pos 1 ≢ negsuc 1
unfolding ◌+ℤ◌
two_whites (pos n) h e = ground arith
two_whites (negsuc n) h e = ground arith

first_game : (c : Color) → magnitude (pos 0 +ℤ color_weight c) ≤ 2
first_game c = small_step (pos 0) c (omega arith)

lone_absolute :
    (x c : Color)
    → preference_of (pos 0 +ℤ color_weight x) (some x) none
      ≢ record { color = some c; strength = absolute }
unfolding preference_of ◌+ℤ◌
lone_absolute white c e = cc
lone_absolute black c e = cc

repaid : (magnitude (pos 2 +ℤ negsuc 0) ≤ 2) × (magnitude (negsuc 1 +ℤ pos 1) ≤ 2)
unfolding ◌+ℤ◌
repaid = (omega arith, omega arith)

absolute_step :
    (x y c : Color) (d : ℤ)
    → magnitude d ≤ 2
    → AbsoluteReason (d +ℤ color_weight y +ℤ color_weight x) x (some y) c
    → (magnitude (d +ℤ color_weight y +ℤ color_weight x +ℤ color_weight c) ≤ 2)
      × (color_eq x c && color_eq y c ≡ false)
unfolding AbsoluteReason
absolute_step x y c d b (inl (e, f)) = rw (e, f) (repaid.0, unmixed x y e)
  where
    unmixed :
        (x y : Color)
        → d +ℤ color_weight y +ℤ color_weight x ≡ pos 2
        → color_eq x black && color_eq y black ≡ false
    unmixed black black e = absurd (two_blacks d b e)
    unmixed black white e = refl
    unmixed white y e = refl
absolute_step x y c d b (inr (inl (e, f))) = rw (e, f) (repaid.1, unmixed x y e)
  where
    unmixed :
        (x y : Color)
        → d +ℤ color_weight y +ℤ color_weight x ≡ negsuc 1
        → color_eq x white && color_eq y white ≡ false
    unmixed white white e = absurd (two_whites d b e)
    unmixed white black e = refl
    unmixed black y e = refl
absolute_step x y c d b (inr (inr (small, same, f))) =
    (small_step (d +ℤ color_weight y +ℤ color_weight x) c small, ground arith)

-- A player who is given the colour of an absolute preference stays within the limits.
pub IsLegalBack-absolute :
    (b : List Color) (c : Color)
    → IsLegalBack b
    → back_preference b ≡ record { color = some c; strength = absolute }
    → IsLegalBack (c ∷ b)
IsLegalBack-absolute [] c h e = cc
IsLegalBack-absolute (x ∷ []) c h e = absurd (lone_absolute x c e)
IsLegalBack-absolute (x ∷ y ∷ zs) c h e =
    let reason = absolute_reason (difference (x ∷ y ∷ zs)) x (some y) c h.0 e in
    let near = absolute_step x y c (difference zs) (difference_bound zs h.2.2) reason in
    (near.0, near.1, h)

-- A player without an absolute preference stays within them with either colour.
pub IsLegalBack-free :
    (b : List Color) (c : Color)
    → IsLegalBack b
    → is_absolute (back_preference b).strength ≡ false
    → IsLegalBack (c ∷ b)
IsLegalBack-free [] c h e = (first_game c, refl, tt)
IsLegalBack-free (x ∷ cs) c h e =
    let (small, mixed) = free_reason (difference (x ∷ cs)) x (get_elem? cs 0) h.0 e in
    (small_step (difference (x ∷ cs)) c small, changed cs mixed, h)
  where
    changed :
        (cs : List Color)
        → is_some_color (get_elem? cs 0) x ≡ false
        → color_eq x c && starts cs c ≡ false
    changed [] m = ground arith
    changed (y ∷ ys) m = ground arith

-- An absolute preference has a colour.
pub back_preference-color :
    (b : List Color)
    → is_absolute (back_preference b).strength ≡ true
    → (back_preference b).color ≢ none
unfolding preference_of
back_preference-color [] h = cc
back_preference-color (x ∷ xs) h = ground arith

-- The test of three games in a row, on the history latest game first.
pub starts_twice-get_elem? :
    (b : List Color) (c : Color)
    → starts_twice b c ≡ is_some_color (get_elem? b 0) c && is_some_color (get_elem? b 1) c
starts_twice-get_elem? [] c = refl
starts_twice-get_elem? (x ∷ []) c = refl
starts_twice-get_elem? (x ∷ y ∷ ys) c = refl
