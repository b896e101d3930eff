-- ===== src/Base/Bits.antt =====
-- Sets of flags as the binary digits of a number: what `|=` sets and `&` tests, at every width.
use Prim.Native.Nat.{bit_and, bit_or, bit_and-bitwise, bit_or-bitwise, digits}
use native.Mathlib.Nat.{pow-suc, le_refl}
use ucxpp.Base.{
  ℕ, zero, suc, ◌+◌, ◌*◌, ◌/◌, ◌%◌, ◌^◌, ◌≤◌, ◌≡◌, refl, Bool, false, not, ◌&&◌, ◌||◌, arith, ◌==◌,
  max, min, ◌∙◌, Bool-cases, inl, inr,
}

-- Digit `k` of `x`.
pub test_bit : ℕ → ℕ → Bool
test_bit x zero = x % 2 == 1
test_bit x (suc k) = test_bit (x / 2) k

pub zero-test_bit : (k : ℕ) → test_bit 0 k ≡ false
unfolding test_bit
zero-test_bit zero = refl
zero-test_bit (suc k) = zero-test_bit k

or_digits-test_bit :
    (n a b k : ℕ) → a ≤ n → test_bit (digits (λ b. b) max n a b) k ≡ (test_bit a k || test_bit b k)
unfolding test_bit
or_digits-test_bit zero zero b k h = rw (zero-test_bit k)
or_digits-test_bit zero (suc a) b k h = absurd (omega arith)
or_digits-test_bit (suc n) zero b k h = rw (zero-test_bit k)
or_digits-test_bit (suc n) (suc a) b zero h = ground arith
or_digits-test_bit (suc n) (suc a) b (suc k) h =
    let rest : ℕ = digits (λ b. b) max n (suc a / 2) (b / 2) in
    let e : (rest * 2 + max (suc a % 2) (b % 2)) / 2 ≡ rest = omega arith in
    rw e (or_digits-test_bit n (suc a / 2) (b / 2) k (omega arith))

pub test_bit-bit_or : (a b k : ℕ) → test_bit (bit_or a b) k ≡ (test_bit a k || test_bit b k)
test_bit-bit_or a b k = rw bit_or-bitwise (or_digits-test_bit a a b k (le_refl a))

and_digits-test_bit :
    (n a b k : ℕ)
    → a ≤ n
    → test_bit (digits (λ b. zero) min n a b) k ≡ (test_bit a k && test_bit b k)
unfolding test_bit
and_digits-test_bit zero zero b k h = rw (zero-test_bit k)
and_digits-test_bit zero (suc a) b k h = absurd (omega arith)
and_digits-test_bit (suc n) zero b k h = rw (zero-test_bit k)
and_digits-test_bit (suc n) (suc a) b zero h = ground arith
and_digits-test_bit (suc n) (suc a) b (suc k) h =
    let rest : ℕ = digits (λ b. zero) min n (suc a / 2) (b / 2) in
    let e : (rest * 2 + min (suc a % 2) (b % 2)) / 2 ≡ rest = omega arith in
    rw e (and_digits-test_bit n (suc a / 2) (b / 2) k (omega arith))

pub test_bit-bit_and : (a b k : ℕ) → test_bit (bit_and a b) k ≡ (test_bit a k && test_bit b k)
test_bit-bit_and a b k = rw bit_and-bitwise (and_digits-test_bit a a b k (le_refl a))

pub test_bit-pow : (j k : ℕ) → test_bit (2 ^ j) k ≡ (j == k)
unfolding test_bit
test_bit-pow zero zero = refl
test_bit-pow zero (suc k) = zero-test_bit k ∙ ground arith
test_bit-pow (suc j) zero = ground (arith, pow-suc 2 j)
test_bit-pow (suc j) (suc k) =
    let e : 2 ^ suc j / 2 ≡ 2 ^ j = omega (arith, pow-suc 2 j) in
    rw e (test_bit-pow j k ∙ ground arith)

zero_of_bits : (n x : ℕ) → x ≤ n → ((k : ℕ) → test_bit x k ≡ false) → x ≡ 0
unfolding test_bit
zero_of_bits zero x h none_set = omega arith
zero_of_bits (suc n) x h none_set =
    ground (arith, none_set 0, zero_of_bits n (x / 2) (omega arith) (λ k. none_set (suc k)))

-- `if (features & flag)`, at a flag of one bit, reads that bit.
pub bit_and_pow : (x k : ℕ) → not (bit_and x (2 ^ k) == 0) ≡ test_bit x k
bit_and_pow x k = elim (Bool-cases (test_bit x k)) [
  | inl is_set ↦
      rw is_set (ground (arith, test_bit-bit_and x (2 ^ k) k, test_bit-pow k k, zero-test_bit k))
  | inr clear ↦
      rw (clear, zero_of_bits (bit_and x (2 ^ k)) (bit_and x (2 ^ k)) (le_refl _) (no_bit clear))
]
  where
    no_bit : test_bit x k ≡ false → (i : ℕ) → test_bit (bit_and x (2 ^ k)) i ≡ false
    no_bit clear i = ground (arith, test_bit-bit_and x (2 ^ k) i, test_bit-pow k i)
