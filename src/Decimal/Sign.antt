-- ===== src/Decimal/Sign.antt =====
-- Signs under the context's rounding.
use native.Mathlib.Nat.{pow-suc, pow-le-pow_right, le_trans, mul-pos}
use cryptoaibot.Common.{
  ℕ, zero, suc, ◌-◌, ◌*◌, ◌/◌, ◌^◌, ◌≤◌, ◌<◌, ◌≡◌, refl, true, false, arith, max, Bool-cases, inl,
  inr, ◌==◌,
}
use cryptoaibot.Common.Int.{ℤ, pos, negsuc, pos_part, neg_part, ◌+ℤ◌, under_sign}
use cryptoaibot.Decimal.{
  Decimal, zero_dec, digits_from, digits, half_even, fix, at_scale, ◌+ᵈ◌, lt_dec, eq_dec, max_dec,
}
use cryptoaibot.Decimal.Order.{lt_dec_irrefl}

pow_pos : (k : ℕ) → 0 < 10 ^ k
pow_pos zero = omega arith
pow_pos (suc k) = rw pow-suc (omega (arith, pow_pos k))

digits_from_pos : (fuel n : ℕ) → 1 ≤ digits_from fuel n
unfolding digits_from
digits_from_pos zero n = omega arith
digits_from_pos (suc fuel) n = ground (arith, digits_from_pos fuel (n / 10))

-- A number is at least the power of ten that its digits name.
digits_from_lower : (fuel n k : ℕ) → 1 ≤ n → digits_from fuel n ≡ suc k → 10 ^ k ≤ n
unfolding digits_from
digits_from_lower zero n zero h e = omega arith
digits_from_lower zero n (suc k) h e = absurd (omega arith)
digits_from_lower (suc fuel) n zero h e = omega arith
digits_from_lower (suc fuel) n (suc k) h e =
    rw pow-suc (ground (arith, digits_from_pos fuel (n / 10), digits_from_lower fuel (n / 10) k))

div_pos : (n d : ℕ) → 0 < d → d ≤ n → 1 ≤ n / d
div_pos n d p h = grind arith

half_even_pos : (n d : ℕ) → 0 < d → d ≤ n → 1 ≤ half_even n d
unfolding half_even
half_even_pos n d p h = ground (arith, div_pos n d p h)

-- What is dropped is less than the number itself.
drop_lower : (n : ℕ) → 1 ≤ n → 10 ^ (digits n - 28) ≤ n
unfolding digits
drop_lower n h =
    le_trans (pow-le-pow_right (omega arith) {j = digits n - 1} (omega arith))
      (digits_from_lower n n (digits n - 1) h (omega (arith, digits_from_pos n n)))

fix_coef_pos :
    (c : ℤ) (k : ℕ) → 0 < pos_part c → 0 < pos_part (fix (record { coef = c; scale = k })).coef
unfolding fix
fix_coef_pos (negsuc n) k h = absurd (omega arith)
fix_coef_pos (pos n) k h = elim (Bool-cases (digits n - 28 == 0)) [
  | inl short ↦ rw short h
  | inr long ↦
      rw long
        (mul-pos (half_even_pos n (10 ^ (digits n - 28)) (pow_pos _) (drop_lower n h)) (pow_pos _))
]

scale_up_pos : (c : ℤ) (j : ℕ) → 0 < pos_part c → 0 < pos_part (under_sign (λ n. n * 10 ^ j) c)
scale_up_pos (negsuc n) j h = absurd (omega arith)
scale_up_pos (pos n) j h = mul-pos h (pow_pos j)

scale_up_nonneg : (c : ℤ) (j : ℕ) → neg_part c ≡ 0 → neg_part (under_sign (λ n. n * 10 ^ j) c) ≡ 0
scale_up_nonneg (negsuc n) j h = absurd (omega arith)
scale_up_nonneg (pos n) j h = refl

add_coef : (a b : ℤ) → neg_part a ≡ 0 → 0 < pos_part b → 0 < pos_part (a +ℤ b)
unfolding ◌+ℤ◌
add_coef a b ha hb = ground arith

one_sign : (c : ℤ) → 0 < pos_part c → neg_part c ≡ 0
one_sign c h = ground arith

pub positive_coef : (d : Decimal) → lt_dec zero_dec d ≡ true → 0 < pos_part d.coef
unfolding lt_dec
positive_coef d h = ground arith

pub coef_positive : (d : Decimal) → 0 < pos_part d.coef → lt_dec zero_dec d ≡ true
unfolding lt_dec
coef_positive d h = ground arith

pub nonneg_coef : (d : Decimal) → lt_dec d zero_dec ≡ false → neg_part d.coef ≡ 0
unfolding lt_dec
nonneg_coef d h = ground arith

-- The rounded sum of a value that is not negative and a positive value is positive.
pub add_positive :
    (a b : Decimal)
    → lt_dec a zero_dec ≡ false
    → lt_dec zero_dec b ≡ true
    → lt_dec zero_dec (a +ᵈ b) ≡ true
unfolding ◌+ᵈ◌
add_positive a b ha hb =
    let k = max a.scale b.scale in
    let x = at_scale k a in
    let y = at_scale k b in
    coef_positive (a +ᵈ b) (
      fix_coef_pos (x +ℤ y) k (
        add_coef x y (scale_up_nonneg a.coef (k - a.scale) (nonneg_coef a ha))
          (scale_up_pos b.coef (k - b.scale) (positive_coef b hb))))

pub positive_not_negative : (d : Decimal) → lt_dec zero_dec d ≡ true → lt_dec d zero_dec ≡ false
unfolding lt_dec
positive_not_negative d h = ground (arith, one_sign d.coef)

pub positive_ne_zero : (d : Decimal) → lt_dec zero_dec d ≡ true → eq_dec d zero_dec ≡ false
unfolding lt_dec eq_dec
positive_ne_zero d h = ground (arith, one_sign d.coef)

-- `max(zero_dec, x)` is never negative.
pub max_zero_nonneg : (d : Decimal) → lt_dec (max_dec zero_dec d) zero_dec ≡ false
unfolding max_dec
max_zero_nonneg d = ground (arith, positive_not_negative d, lt_dec_irrefl zero_dec)
