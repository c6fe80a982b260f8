-- ===== src/Pairing/RoundRobin/Schedule.antt =====
-- round-robin.engine.ts, `bergerRound`: who sits at which board, and in which round two seats meet.
use farzin.Prelude.{
  ℕ, zero, suc, ◌+◌, ◌-◌, ◌*◌, ◌≤◌, ◌<◌, ◌≡◌, refl, arith, Bool, true, false, ◌&&◌, ◌||◌, List, [],
  ◌∷◌, if◌then◌else◌, ltb, leb, ◌==◌,
}
use farzin.Pairing.RoundRobin.{SeatPair, ring_boards}
use farzin.Pairing.RoundRobin.Wrap.{ahead, behind, wrap_seat-ahead, wrap_seat-behind}

abbrev pub bit : Bool → ℕ
bit true = 1
bit false = 0

-- How often a seat is listed, and at how many boards two seats meet.
abbrev pub seat_count : ℕ → List SeatPair → ℕ
seat_count s [] = 0
seat_count s (p ∷ ps) = bit (p.white_seat == s) + bit (p.black_seat == s) + seat_count s ps

abbrev pub meets : ℕ → ℕ → SeatPair → Bool
meets a b p = (p.white_seat == a && p.black_seat == b) || (p.white_seat == b && p.black_seat == a)

abbrev pub meeting_count : ℕ → ℕ → List SeatPair → ℕ
meeting_count a b [] = 0
meeting_count a b (p ∷ ps) = bit (meets a b p) + meeting_count a b ps

-- How far seat `s` is ahead of the leader on the ring.
abbrev pub dist : ℕ → ℕ → ℕ → ℕ
dist m l s = if leb l s then s - l else s + m - l

abbrev pub OnRing : ℕ → ℕ → ℕ → Type 0
OnRing m l s = (1 ≤ l) × (l ≤ m) × (1 ≤ s) × (s ≤ m)

ahead-eq : (m l i s : ℕ) → OnRing m l s → 1 ≤ i → i < m → (ahead m l i == s) ≡ (dist m l s == i)
ahead-eq m l i s r h k = ground arith

behind-eq :
    (m l i s : ℕ) → OnRing m l s → 1 ≤ i → i < m → (behind m l i == s) ≡ (dist m l s + i == m)
behind-eq m l i s r h k = ground arith

-- How far a seat `d` ahead of the leader is from it, either way round: the board where it plays.
unfoldable pub near : ℕ → ℕ → ℕ
near m d = if leb (2 * d) m then d else m - d

abbrev pub place : ℕ → ℕ → ℕ → ℕ
place m l s = near m (dist m l s)

near_seat :
    (m i d : ℕ) → d < m → 1 ≤ i → i + i < m → bit (d == i) + bit (d + i == m) ≡ bit (near m d == i)
unfolding near
near_seat m i d r h k = ground arith

near_meets :
    (m i d e : ℕ)
    → d < m
    → e < m
    → 1 ≤ i
    → i + i < m
    → bit ((d == i && e + i == m) || (e == i && d + i == m)) ≡ bit (d + e == m && near m d == i)
unfolding near
near_meets m i d e r t h k = ground arith

pub dist-lt : (m l s : ℕ) → OnRing m l s → dist m l s < m
dist-lt m l s r = ground arith

step_seat :
    (m l i s : ℕ)
    → OnRing m l s
    → 1 ≤ i
    → i + i < m
    → bit (ahead m l i == s) + bit (behind m l i == s) ≡ bit (place m l s == i)
step_seat m l i s r h k =
    rw (ahead-eq m l i s r h (omega arith), behind-eq m l i s r h (omega arith))
      (near_seat m i (dist m l s) (dist-lt m l s r) h k)

abbrev pub within : ℕ → ℕ → ℕ → Bool
within p i n = leb i p && ltb p (i + n)

within-suc : (p i n : ℕ) → bit (p == i) + bit (within p (i + 1) n) ≡ bit (within p i (suc n))
within-suc p i n = ground arith

pub ring_seat :
    (m l i n s : ℕ)
    → OnRing m l s
    → 1 ≤ i
    → 2 * i + 2 * n ≤ m + 1
    → seat_count s (ring_boards m l i n) ≡ bit (within (place m l s) i n)
unfolding ring_boards
ring_seat m l i zero s r h k = ground arith
ring_seat m l i (suc n) s r h k =
    let rest = ring_seat m l (i + 1) n s r (omega arith) (omega arith) in
    let here = step_seat m l i s r h (omega arith) in
    rw
      (
        wrap_seat-ahead m l i r.0 r.1 (omega arith),
        wrap_seat-behind m l i r.0 r.1 (omega arith),
        rest,
      )
      (here_and_there here)
  where
    here_and_there :
        bit (ahead m l i == s) + bit (behind m l i == s) ≡ bit (place m l s == i)
        → bit (ahead m l i == s) + bit (behind m l i == s) + bit (within (place m l s) (i + 1) n)
          ≡ bit (within (place m l s) i (suc n))
    here_and_there e = rw e (within-suc (place m l s) i n)

-- Two seats of the ring that stand at the same board, one ahead of the leader and one behind.
abbrev pub facing : ℕ → ℕ → ℕ → ℕ → Bool
facing m l a b = dist m l a + dist m l b == m

step_meets :
    (m l i a b : ℕ)
    → OnRing m l a
    → OnRing m l b
    → 1 ≤ i
    → i + i < m
    → bit (meets a b (record { white_seat = ahead m l i; black_seat = behind m l i }))
      ≡ bit (facing m l a b && place m l a == i)
step_meets m l i a b r t h k =
    rw (ahead-eq m l i a r h (omega arith), behind-eq m l i b t h (omega arith))
      (rw (ahead-eq m l i b t h (omega arith), behind-eq m l i a r h (omega arith))
        (near_meets m i (dist m l a) (dist m l b) (dist-lt m l a r) (dist-lt m l b t) h k))

pub ring_meets :
    (m l i n a b : ℕ)
    → OnRing m l a
    → OnRing m l b
    → 1 ≤ i
    → 2 * i + 2 * n ≤ m + 1
    → meeting_count a b (ring_boards m l i n) ≡ bit (facing m l a b && within (place m l a) i n)
unfolding ring_boards
ring_meets m l i zero a b r t h k = ground arith
ring_meets m l i (suc n) a b r t h k =
    let rest = ring_meets m l (i + 1) n a b r t (omega arith) (omega arith) in
    let here = step_meets m l i a b r t h (omega arith) in
    rw
      (
        wrap_seat-ahead m l i r.0 r.1 (omega arith),
        wrap_seat-behind m l i r.0 r.1 (omega arith),
        rest,
        here,
      )
      (guarded (facing m l a b))
  where
    guarded :
        (f : Bool)
        → bit (f && place m l a == i) + bit (f && within (place m l a) (i + 1) n)
          ≡ bit (f && within (place m l a) i (suc n))
    guarded true = within-suc (place m l a) i n
    guarded false = refl

beyond : (m l i : ℕ) → 1 ≤ l → l ≤ m → 1 ≤ i → i < m → (ahead m l i ≤ m) × (behind m l i ≤ m)
beyond m l i a b c d = ground arith

-- The fixed seat is at none of the boards of the ring.
pub ring_beyond :
    (m l i n a s : ℕ)
    → 1 ≤ l
    → l ≤ m
    → 1 ≤ i
    → 2 * i + 2 * n ≤ m + 1
    → m < s
    → (seat_count s (ring_boards m l i n) ≡ 0)
      × (meeting_count a s (ring_boards m l i n) ≡ 0)
      × (meeting_count s a (ring_boards m l i n) ≡ 0)
unfolding ring_boards
ring_beyond m l i zero a s x y h k z = (refl, refl, refl)
ring_beyond m l i (suc n) a s x y h k z =
    let rest = ring_beyond m l (i + 1) n a s x y (omega arith) (omega arith) z in
    let low = beyond m l i x y h (omega arith) in
    rw (wrap_seat-ahead m l i x y (omega arith), wrap_seat-behind m l i x y (omega arith))
      (ground arith)

-- Every seat of the list is one of a table of `n`.
abbrev pub AllSeated : ℕ → List SeatPair → Type 0
AllSeated n [] = Unit
AllSeated n (p ∷ ps) =
    ((1 ≤ p.white_seat) × (p.white_seat ≤ n))
    × ((1 ≤ p.black_seat) × (p.black_seat ≤ n))
    × AllSeated n ps

ring_places :
    (m l i : ℕ)
    → 1 ≤ l
    → l ≤ m
    → 1 ≤ i
    → i < m
    → (1 ≤ ahead m l i) × (ahead m l i ≤ m + 1) × (1 ≤ behind m l i) × (behind m l i ≤ m + 1)
ring_places m l i a b c d = ground arith

pub ring_boards-AllSeated :
    (m l i n : ℕ)
    → 1 ≤ l
    → l ≤ m
    → 1 ≤ i
    → 2 * i + 2 * n ≤ m + 1
    → AllSeated (m + 1) (ring_boards m l i n)
unfolding ring_boards
ring_boards-AllSeated m l i zero a b c d = tt
ring_boards-AllSeated m l i (suc n) a b c d =
    let (w, w', k, k') = ring_places m l i a b c (omega arith) in
    rw (wrap_seat-ahead m l i a b (omega arith), wrap_seat-behind m l i a b (omega arith))
      ((w, w'), (k, k'), ring_boards-AllSeated m l (i + 1) n a b (omega arith) (omega arith))
