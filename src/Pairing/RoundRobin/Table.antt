-- ===== src/Pairing/RoundRobin/Table.antt =====
-- round-robin.engine.ts, `bergerRound`: the Berger table as a whole.
use farzin.Prelude.{
  ℕ, ◌+◌, ◌-◌, ◌*◌, ◌/◌, ◌%◌, ◌≤◌, ◌<◌, ◌≡◌, ◌≢◌, ◌∙◌, ◌⊎◌, inl, inr, arith, ◌&&◌, ◌∷◌,
  if◌then◌else◌, ltb, ◌==◌,
}
use mathlib.Core.Path.{subst}
use native.Mathlib.Decide.{dec_le, dec_lt, ℕ_discrete}
use native.Mathlib.Nat.{mod-eq_of_lt, mod-eq-sub-mod, mod-lt, zero-add}
use farzin.Pairing.RoundRobin.{SeatPair, ring_boards, leader_of, berger_round}
use farzin.Pairing.RoundRobin.Wrap.{leader_of-odd, leader_of-even}
use farzin.Pairing.RoundRobin.Schedule.{
  bit, seat_count, meets, meeting_count, dist, OnRing, near, place, within, facing, ring_seat,
  ring_meets, ring_beyond, dist-lt, AllSeated, ring_boards-AllSeated,
}

-- The leader's seat, doubled: the ring has `2 * g + 1` seats.
pub leader_facts :
    (g r : ℕ)
    → 1 ≤ r
    → r ≤ 2 * g + 1
    → let l = leader_of (2 * g + 2) r in
      (1 ≤ l) × (l ≤ 2 * g + 1) × ((2 * l ≡ r + 1) ⊎ (2 * l ≡ r + 1 + (2 * g + 1)))
leader_facts g r lo hi = elim (ℕ_discrete (r % 2) 1) [
  | yes odd ↦
      let k = (r - 1) / 2 in
      let e : 2 * k + 1 ≡ r = omega arith in
      subst
        (λ x.
          let l = leader_of (2 * g + 2) x in
          (1 ≤ l) × (l ≤ 2 * g + 1) × ((2 * l ≡ x + 1) ⊎ (2 * l ≡ x + 1 + (2 * g + 1))))
        e
        (let f = leader_of-odd g k (omega arith) in
          (omega (arith, f), omega (arith, f), inl (omega (arith, f))))
  | no even ↦
      let k = (r - 1) / 2 in
      let e : 2 * k + 2 ≡ r = omega arith in
      subst
        (λ x.
          let l = leader_of (2 * g + 2) x in
          (1 ≤ l) × (l ≤ 2 * g + 1) × ((2 * l ≡ x + 1) ⊎ (2 * l ≡ x + 1 + (2 * g + 1))))
        e
        (let f = leader_of-even g k (omega arith) in
          (omega (arith, f), omega (arith, f), inr (omega (arith, f))))
]

first_board : ℕ → ℕ → SeatPair
first_board g r =
    let l = leader_of (2 * g + 2) r in
    if r % 2 == 1
    then record { white_seat = l; black_seat = 2 * g + 2 }
    else record { white_seat = 2 * g + 2; black_seat = l }

berger_round-ring :
    (g r : ℕ)
    → berger_round (2 * g + 2) r
      ≡ first_board g r ∷ ring_boards (2 * g + 1) (leader_of (2 * g + 2) r) 1 g
unfolding berger_round first_board
berger_round-ring g r =
    let h : (2 * g + 2) / 2 - 1 ≡ g = omega arith in
    let m : 2 * g + 2 - 1 ≡ 2 * g + 1 = omega arith in rw (h, m)

ring_all : (g d : ℕ) → d < 2 * g + 1 → bit (within (near (2 * g + 1) d) 1 g) ≡ bit (ltb 0 d)
unfolding near
ring_all g d h = ground arith

round_seat :
    (g r s : ℕ)
    → 1 ≤ r
    → r ≤ 2 * g + 1
    → 1 ≤ s
    → s ≤ 2 * g + 2
    → seat_count s (berger_round (2 * g + 2) r) ≡ 1
unfolding first_board
round_seat g r s a b c d =
    let l = leader_of (2 * g + 2) r in
    let m = 2 * g + 1 in
    let (lo, hi, _) = leader_facts g r a b in
    rw (berger_round-ring g r) (elim (dec_le s m) [
      | yes p ↦
          let ring : OnRing m l s = (lo, hi, c, p) in
          ground (
            arith,
            ring_seat m l 1 g s ring (omega arith) (omega arith),
            ring_all g (dist m l s) (dist-lt m l s ring),
          )
      | no p ↦ ground (arith, (ring_beyond m l 1 g 0 s lo hi (omega arith) (omega arith)))
    ])

-- Every seat of the table plays exactly once in every round of a Berger table: for an even table
-- size of at least 2, a round from 1 to the table size less 1, and a seat from 1 to the table size,
-- the seat stands at exactly one board of the round.
pub seat_count-berger_round :
    (n r s : ℕ) → n % 2 ≡ 0 → 1 ≤ r → r < n → 1 ≤ s → s ≤ n → seat_count s (berger_round n r) ≡ 1
seat_count-berger_round n r s even a b c d =
    let g = n / 2 - 1 in
    let e : 2 * g + 2 ≡ n = omega arith in
    subst (λ x. seat_count s (berger_round x r) ≡ 1) e
      (round_seat g r s a (omega arith) c (omega arith))

-- The round in which seats `a` and `b` of a table of `n` meet.
abbrev pub meeting_round : ℕ → ℕ → ℕ → ℕ
meeting_round n a b =
    if a == n
    then (b + b - 2) % (n - 1) + 1
    else if b == n
    then (a + a - 2) % (n - 1) + 1
    else (a + b - 2) % (n - 1) + 1

mod_twice : (m x : ℕ) → x < m + m → x % m ≡ (if ltb x m then x else x - m)
mod_twice m x h = elim (dec_lt x m) [
  | yes p ↦ rw (mod-eq_of_lt p) (ground arith)
  | no p ↦
      let q : m ≤ x = omega arith in
      let small : x - m < m = omega arith in
      rw (mod-eq-sub-mod q, mod-eq_of_lt small) (ground arith)
]

-- With the leader's seat known, two seats face one another just in their round.
facing_round :
    (m l r a b : ℕ)
    → OnRing m l a
    → OnRing m l b
    → r ≤ m
    → 1 ≤ r
    → (2 * l ≡ r + 1) ⊎ (2 * l ≡ r + 1 + m)
    → a ≢ b
    → bit (facing m l a b) ≡ bit (r == (a + b - 2) % m + 1)
facing_round m l r a b x y h k twice ne =
    let small : a + b - 2 < m + m = omega arith in rw (mod_twice m (a + b - 2) small) (ground arith)

leader_round :
    (g l r a : ℕ)
    → OnRing (2 * g + 1) l a
    → r ≤ 2 * g + 1
    → 1 ≤ r
    → (2 * l ≡ r + 1) ⊎ (2 * l ≡ r + 1 + (2 * g + 1))
    → bit (l == a) ≡ bit (r == (a + a - 2) % (2 * g + 1) + 1)
leader_round g l r a x h k twice =
    let m = 2 * g + 1 in
    let small : a + a - 2 < m + m = omega arith in rw (mod_twice m (a + a - 2) small) (ground arith)

facing-within :
    (g l a b : ℕ)
    → OnRing (2 * g + 1) l a
    → OnRing (2 * g + 1) l b
    → bit (facing (2 * g + 1) l a b && within (place (2 * g + 1) l a) 1 g)
      ≡ bit (facing (2 * g + 1) l a b)
facing-within g l a b x y =
    let m = 2 * g + 1 in ground (arith, ring_all g (dist m l a) (dist-lt m l a x), dist-lt m l b y)

last_seat :
    (g r a : ℕ)
    → a ≤ 2 * g + 1
    → (bit (meets a (2 * g + 2) (first_board g r)) ≡ bit (leader_of (2 * g + 2) r == a))
      × (bit (meets (2 * g + 2) a (first_board g r)) ≡ bit (leader_of (2 * g + 2) r == a))
unfolding first_board
last_seat g r a h = ground arith

ring_seats : (g r a b : ℕ) → a ≤ 2 * g + 1 → b ≤ 2 * g + 1 → bit (meets a b (first_board g r)) ≡ 0
unfolding first_board
ring_seats g r a b h k = ground arith

-- With the sides of `meeting_round` computed for seats on the ring and for the last seat.
meeting_round_cases :
    (g a b : ℕ)
    → (a ≤ 2 * g + 1
        → b ≤ 2 * g + 1
        → meeting_round (2 * g + 2) a b ≡ (a + b - 2) % (2 * g + 1) + 1)
      × (a ≤ 2 * g + 1 → meeting_round (2 * g + 2) a (2 * g + 2) ≡ (a + a - 2) % (2 * g + 1) + 1)
      × (meeting_round (2 * g + 2) (2 * g + 2) b ≡ (b + b - 2) % (2 * g + 1) + 1)
meeting_round_cases g a b =
    let m : 2 * g + 2 - 1 ≡ 2 * g + 1 = omega arith in
    rw m ((λ h k. ground arith), (λ h. ground arith), ground arith)

last_meeting :
    (g r a : ℕ)
    → 1 ≤ r
    → r ≤ 2 * g + 1
    → 1 ≤ a
    → a ≤ 2 * g + 1
    → let n = 2 * g + 2 in
      (meeting_count a n (berger_round n r) ≡ bit (r == meeting_round n a n))
      × (meeting_count n a (berger_round n r) ≡ bit (r == meeting_round n n a))
last_meeting g r a r1 rm a1 am =
    let n = 2 * g + 2 in
    let (lo, hi, twice) = leader_facts g r r1 rm in
    let found = leader_round g (leader_of n r) r a (lo, hi, a1, am) rm r1 twice in
    let (_, off, off') =
      ring_beyond (2 * g + 1) (leader_of n r) 1 g a n lo hi (omega arith) (omega arith)
        (omega arith) in
    let (_, right, _) = meeting_round_cases g a a in
    let (_, _, left) = meeting_round_cases g a a in
    (
      rw (berger_round-ring g r, off, right am, (last_seat g r a am).0, found) (omega arith),
      rw (berger_round-ring g r, off', left, (last_seat g r a am).1, found) (omega arith),
    )

ring_meeting :
    (g r a b : ℕ)
    → 1 ≤ r
    → r ≤ 2 * g + 1
    → (1 ≤ a) × (a ≤ 2 * g + 1)
    → (1 ≤ b) × (b ≤ 2 * g + 1)
    → a ≢ b
    → meeting_count a b (berger_round (2 * g + 2) r) ≡ bit (r == meeting_round (2 * g + 2) a b)
ring_meeting g r a b r1 rm (a1, am) (b1, bm) ne =
    let m = 2 * g + 1 in
    let l = leader_of (2 * g + 2) r in
    let (lo, hi, twice) = leader_facts g r r1 rm in
    let x : OnRing m l a = (lo, hi, a1, am) in
    let y : OnRing m l b = (lo, hi, b1, bm) in
    let (both, _, _) = meeting_round_cases g a b in
    rw
      (
        berger_round-ring g r,
        ring_seats g r a b am bm,
        ring_meets m l 1 g a b x y (omega arith) (omega arith),
        both am bm,
        zero-add,
      )
      (facing-within g l a b x y ∙ facing_round m l r a b x y rm r1 twice ne)

round_meeting :
    (g r a b : ℕ)
    → 1 ≤ r
    → r ≤ 2 * g + 1
    → (1 ≤ a) × (a ≤ 2 * g + 2)
    → (1 ≤ b) × (b ≤ 2 * g + 2)
    → a ≢ b
    → meeting_count a b (berger_round (2 * g + 2) r) ≡ bit (r == meeting_round (2 * g + 2) a b)
round_meeting g r a b r1 rm (a1, an) (b1, bn) ne =
    let n = 2 * g + 2 in
    elim (ℕ_discrete n a) [
      | yes e ↦
          subst (λ x. meeting_count x b (berger_round n r) ≡ bit (r == meeting_round n x b)) e
            (last_meeting g r b r1 rm b1 (omega arith)).1
      | no p ↦ elim (ℕ_discrete n b) [
        | yes e ↦
            subst (λ x. meeting_count a x (berger_round n r) ≡ bit (r == meeting_round n a x)) e
              (last_meeting g r a r1 rm a1 (omega arith)).0
        | no q ↦ ring_meeting g r a b r1 rm (a1, omega arith) (b1, omega arith) ne
      ]
    ]

-- Every two seats meet exactly once in a leg, in the round that `meeting_round` names: for an even
-- table size of at least 2 and two different seats of the table, a round of the leg has one board
-- with these two seats if it is that round, and none otherwise.
pub meeting_count-berger_round :
    (n r a b : ℕ)
    → n % 2 ≡ 0
    → 1 ≤ r
    → r < n
    → (1 ≤ a) × (a ≤ n)
    → (1 ≤ b) × (b ≤ n)
    → a ≢ b
    → (meeting_count a b (berger_round n r) ≡ bit (r == meeting_round n a b))
      × (1 ≤ meeting_round n a b)
      × (meeting_round n a b < n)
meeting_count-berger_round n r a b even r1 rn (a1, an) (b1, bn) ne =
    let g = n / 2 - 1 in
    let e : 2 * g + 2 ≡ n = omega arith in
    (
      subst (λ x. meeting_count a b (berger_round x r) ≡ bit (r == meeting_round x a b)) e
          (round_meeting g r a b r1 (omega arith) (a1, omega arith) (b1, omega arith) ne),
      ground arith,
      ground (
        arith,
        mod-lt (b + b - 2) {m = n - 1},
        mod-lt (a + a - 2) {m = n - 1},
        mod-lt (a + b - 2) {m = n - 1},
      ),
    )

first_board-seated :
    (g r : ℕ)
    → 1 ≤ leader_of (2 * g + 2) r
    → leader_of (2 * g + 2) r ≤ 2 * g + 1
    → let p = first_board g r in
      ((1 ≤ p.white_seat) × (p.white_seat ≤ 2 * g + 2))
      × ((1 ≤ p.black_seat) × (p.black_seat ≤ 2 * g + 2))
unfolding first_board
first_board-seated g r a b = ground arith

round-AllSeated :
    (g r : ℕ) → 1 ≤ r → r ≤ 2 * g + 1 → AllSeated (2 * g + 2) (berger_round (2 * g + 2) r)
round-AllSeated g r r1 rm =
    let (lo, hi, _) = leader_facts g r r1 rm in
    let e : 2 * g + 1 + 1 ≡ 2 * g + 2 = omega arith in
    let ring =
      ring_boards-AllSeated (2 * g + 1) (leader_of (2 * g + 2) r) 1 g lo hi (omega arith)
        (omega arith) in
    rw (berger_round-ring g r) (first_seated (rw e at ring))
  where
    first_seated :
        AllSeated (2 * g + 2) (ring_boards (2 * g + 1) (leader_of (2 * g + 2) r) 1 g)
        → AllSeated
            (2 * g + 2)
            (first_board g r ∷ ring_boards (2 * g + 1) (leader_of (2 * g + 2) r) 1 g)
    first_seated rest =
        let l = leader_facts g r r1 rm in
        let (w, b) = first_board-seated g r l.0 l.1 in (w, b, rest)

pub berger_round-AllSeated : (n r : ℕ) → n % 2 ≡ 0 → 1 ≤ r → r < n → AllSeated n (berger_round n r)
berger_round-AllSeated n r even a b =
    let g = n / 2 - 1 in
    let e : 2 * g + 2 ≡ n = omega arith in
    subst (λ x. AllSeated x (berger_round x r)) e (round-AllSeated g r a (omega arith))
