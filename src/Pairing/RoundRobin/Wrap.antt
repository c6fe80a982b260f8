-- ===== src/Pairing/RoundRobin/Wrap.antt =====
-- round-robin.engine.ts, `wrapSeat` and the leader's seat, without remainders.
use farzin.Prelude.{
  ℕ, suc, ◌+◌, ◌-◌, ◌*◌, ◌/◌, ◌≤◌, ◌<◌, ◌≡◌, refl, ap, arith, if◌then◌else◌, ltb, leb,
}
use native.Mathlib.Decide.{dec_le, dec_lt}
use native.Mathlib.Nat.{mod-eq_of_lt, add-mod_right, mul-add-mod_self_right}
use farzin.Prelude.Int.{ℤ, pos, negsuc, ◌+ℤ◌, ◌-ℤ◌, pos_part}
use farzin.Pairing.RoundRobin.{js_rem, wrap_seat, leader_of}

-- The seat `i` places ahead of `l` on a ring of `m` seats, and the one `i` places behind.
abbrev pub ahead : ℕ → ℕ → ℕ → ℕ
ahead m l i = if leb (l + i) m then l + i else l + i - m

abbrev pub behind : ℕ → ℕ → ℕ → ℕ
behind m l i = if ltb i l then l - i else l + m - i

-- The ring's index of a value that is at least 1, from 0.
wrap_index : ℤ → ℕ → ℕ
wrap_index v m = pos_part (js_rem (js_rem v m +ℤ pos m) m)

wrap_index-pos : (x m : ℕ) → x < m → wrap_index (pos x) m ≡ x
unfolding wrap_index js_rem ◌+ℤ◌
wrap_index-pos x m h = rw (mod-eq_of_lt h) (ground (arith, add-mod_right x m, mod-eq_of_lt h))

wrap_index-over : (y m : ℕ) → y < m → wrap_index (pos (y + m)) m ≡ y
unfolding wrap_index js_rem ◌+ℤ◌
wrap_index-over y m h =
    rw (add-mod_right y m, mod-eq_of_lt h) (ground (arith, add-mod_right y m, mod-eq_of_lt h))

wrap_index-neg : (k m : ℕ) → suc k < m → wrap_index (negsuc k) m ≡ m - suc k
unfolding wrap_index js_rem ◌+ℤ◌ ◌-ℤ◌
wrap_index-neg k m h =
    let small : m - suc k < m = omega arith in
    rw (mod-eq_of_lt h) (ground (arith, mod-eq_of_lt small))

wrap_seat-index : (v : ℤ) (m : ℕ) → wrap_seat v m ≡ wrap_index (v -ℤ pos 1) m + 1
unfolding wrap_seat wrap_index
wrap_seat-index v m = refl

down_one : (x : ℕ) → pos (suc x) -ℤ pos 1 ≡ pos x
unfolding ◌-ℤ◌
down_one x = ground arith

down_below : (l k : ℕ) → pos l -ℤ pos (l + k) -ℤ pos 1 ≡ negsuc k
unfolding ◌-ℤ◌
down_below l k = ground arith

down_above : (d i : ℕ) → pos (suc (d + i)) -ℤ pos i -ℤ pos 1 ≡ pos d
unfolding ◌-ℤ◌
down_above d i = ground arith

pub wrap_seat-ahead : (m l i : ℕ) → 1 ≤ l → l ≤ m → i < m → wrap_seat (pos (l + i)) m ≡ ahead m l i
wrap_seat-ahead m l i a b c = elim (dec_le (l + i) m) [
  | yes h ↦
      let e : l + i ≡ suc (l + i - 1) = omega arith in
      ground (
        arith,
        wrap_seat-index (pos (l + i)) m,
        ap (λ (x : ℕ). wrap_index (pos x -ℤ pos 1) m) e,
        ap (λ (x : ℤ). wrap_index x m) (down_one (l + i - 1)),
        wrap_index-pos (l + i - 1) m (omega arith),
      )
  | no h ↦
      let e : l + i ≡ suc (l + i - m - 1 + m) = omega arith in
      ground (
        arith,
        wrap_seat-index (pos (l + i)) m,
        ap (λ (x : ℕ). wrap_index (pos x -ℤ pos 1) m) e,
        ap (λ (x : ℤ). wrap_index x m) (down_one (l + i - m - 1 + m)),
        wrap_index-over (l + i - m - 1) m (omega arith),
      )
]

pub wrap_seat-behind :
    (m l i : ℕ) → 1 ≤ l → l ≤ m → i < m → wrap_seat (pos l -ℤ pos i) m ≡ behind m l i
wrap_seat-behind m l i a b c = elim (dec_lt i l) [
  | yes h ↦
      let e : l ≡ suc (l - i - 1 + i) = omega arith in
      ground (
        arith,
        wrap_seat-index (pos l -ℤ pos i) m,
        ap (λ (x : ℕ). wrap_index (pos x -ℤ pos i -ℤ pos 1) m) e,
        ap (λ (x : ℤ). wrap_index x m) (down_above (l - i - 1) i),
        wrap_index-pos (l - i - 1) m (omega arith),
      )
  | no h ↦
      let e : i ≡ l + (i - l) = omega arith in
      ground (
        arith,
        wrap_seat-index (pos l -ℤ pos i) m,
        ap (λ (x : ℕ). wrap_index (pos l -ℤ pos x -ℤ pos 1) m) e,
        ap (λ (x : ℤ). wrap_index x m) (down_below l (i - l)),
        wrap_index-neg (i - l) m (omega arith),
      )
]

halved : (g : ℕ) → (2 * g + 2) / 2 ≡ g + 1
halved g = omega arith

modulus : (g : ℕ) → 2 * g + 2 - 1 ≡ 2 * g + 1
modulus g = omega arith

odd_turns : (k : ℕ) → 2 * k + 1 - 1 ≡ 2 * k
odd_turns k = omega arith

even_turns : (k : ℕ) → 2 * k + 2 - 1 ≡ 2 * k + 1
even_turns k = omega arith

pub leader_of-odd : (g k : ℕ) → k ≤ g → leader_of (2 * g + 2) (2 * k + 1) ≡ k + 1
unfolding leader_of
leader_of-odd g k h =
    let turns : (2 * k + 1 - 1) * (g + 1) ≡ k * (2 * g + 2 - 1) + k =
      rw (odd_turns k, modulus g) (omega arith) in
    let small : k < 2 * g + 2 - 1 = omega arith in
    rw (halved g, turns, mul-add-mod_self_right k (2 * g + 2 - 1) k, mod-eq_of_lt small)

pub leader_of-even : (g k : ℕ) → k < g → leader_of (2 * g + 2) (2 * k + 2) ≡ k + g + 2
unfolding leader_of
leader_of-even g k h =
    let turns : (2 * k + 2 - 1) * (g + 1) ≡ k * (2 * g + 2 - 1) + (k + g + 1) =
      rw (even_turns k, modulus g) (omega arith) in
    let small : k + g + 1 < 2 * g + 2 - 1 = omega arith in
    rw (halved g, turns, mul-add-mod_self_right k (2 * g + 2 - 1) (k + g + 1), mod-eq_of_lt small)
      (omega arith)
