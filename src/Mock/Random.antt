-- ===== src/Mock/Random.antt =====
-- mock_broadcast.rs: the pseudo-random numbers of `UpdateStateRandomizer`. The field `rng_state` is
-- the state that a draw passes on.
use Prim.Native.Nat.{bit_xor}
use rlstatsapi.Prelude.{
  ℕ, ◌+◌, ◌-◌, ◌*◌, ◌/◌, ◌%◌, ◌^◌, ◌≤◌, inl, inr, ℤ, pos, negsuc, pos_part, neg_part, eqb_ℤ, Bool,
  false, Bool-cases, ltb, leb, ◌==◌, if◌then◌else◌, arith,
}

abbrev pub Draw : Type 0 → Type 0
Draw A = ℕ → A × ℕ

module _ {A B : Type 0} where
  infixl 5 ◌>>=◌
  abbrev pub ◌>>=◌ : Draw A → (A → Draw B) → Draw B
  (m >>= next) s = next (m s).0 (m s).1

abbrev pub pure : {A : Type 0} → A → Draw A
pure a s = (a, s)

-- xorshift64* on words of 64 bits
unfoldable pub xorshift : ℕ → ℕ
xorshift s =
    let a = bit_xor s (s / 2 ^ 12) in
    let b = bit_xor a (a * 2 ^ 25 % 2 ^ 64) in bit_xor b (b / 2 ^ 27)

unfoldable pub next_u64 : Draw ℕ
unfolding xorshift
next_u64 s = let x = xorshift s in (x * 0x2545F4914F6CDD1D % 2 ^ 64, x)

-- No caller asks for the whole range of 2^64 numbers, where `max - min + 1` overflows.
unfoldable pub range_u64 : ℕ → ℕ → Draw ℕ
range_u64 min max =
    if min == max then pure min else next_u64 >>= (λ x. pure (min + x % (max - min + 1)))

-- The integer of a positive and a negative part.
abbrev pub difference : ℕ → ℕ → ℤ
difference p n = if leb n p then pos (p - n) else negsuc (n - p - 1)

abbrev pub minus : ℤ → ℤ → ℤ
minus a b = difference (pos_part a + neg_part b) (neg_part a + pos_part b)

abbrev pub plus_ℕ : ℤ → ℕ → ℤ
plus_ℕ a n = difference (pos_part a + n) (neg_part a)

unfoldable pub range_i64 : ℤ → ℤ → Draw ℤ
range_i64 min max =
    if eqb_ℤ min max
    then pure min
    else next_u64 >>= (λ x. pure (plus_ℕ min (x % (pos_part (minus max min) + 1))))

unfoldable pub chance : ℕ → ℕ → Draw Bool
chance numerator denominator =
    if denominator == 0
    then pure false
    else next_u64 >>= (λ x. pure (ltb (x % denominator) numerator))

-- A number that is drawn is in its range.
pub range_u64-≤ :
    (min max s : ℕ) → min ≤ max → (min ≤ (range_u64 min max s).0) × ((range_u64 min max s).0 ≤ max)
unfolding range_u64
range_u64-≤ min max s h = elim (Bool-cases (min == max)) [
  | inl same ↦ rw same (omega arith, omega (arith, h))
  | inr other ↦ rw other (omega arith, omega (arith, h))
]
