-- ===== src/Decimal.antt =====
-- Python's `decimal.Decimal` under the default context, as the engine uses it: 28 significant
-- digits, ROUND_HALF_EVEN. A value is `coef * 10 ^ -scale`; a positive exponent is multiplied into the
-- coefficient. NaN, the infinities, the sign of zero and the exponent limits are not modelled.
-- Comparisons are exact; `+ - * /` round to the context.
pub mod Order
pub mod Sign
use cryptoaibot.Common.{
  ℕ, zero, suc, ◌+◌, ◌-◌, ◌*◌, ◌/◌, ◌%◌, ◌^◌, max, Bool, true, not, ◌&&◌, ◌≡◌, refl, ltb, leb, ◌==◌,
  if◌then◌else◌,
}
use cryptoaibot.Common.Int.{
  ℤ, pos, negsuc, pos_part, neg_part, abs, under_sign, ◌+ℤ◌, ◌-ℤ◌, ◌*ℤ◌, negate,
}

pub record Decimal : Type 0 where
  pub coef : ℤ
  pub scale : ℕ

abbrev pub dec : ℕ → ℕ → Decimal
dec n k = record { coef = pos n; scale = k }

-- `zero_dec` of the domain models.
abbrev pub zero_dec : Decimal
zero_dec = dec 0 0

-- The number of decimal digits, on fuel that the value bounds.
digits_from : ℕ → ℕ → ℕ
digits_from zero n = 1
digits_from (suc fuel) n =
    let rest = suc (digits_from fuel (n / 10)) in if ltb n 10 then 1 else rest

digits : ℕ → ℕ
unfolding digits_from
digits n = digits_from n n

-- n / d to the nearest, ties to even.
half_even : ℕ → ℕ → ℕ
half_even n d =
    let q = n / d in
    let r = n % d in
    if ltb d (2 * r) then q + 1 else if (2 * r == d) && (q % 2 == 1) then q + 1 else q

abbrev precision : ℕ
precision = 28

-- Rounds to the context: the digits past the 28th are dropped.
fix : Decimal → Decimal
unfolding digits half_even
fix d =
    let drop = digits (abs d.coef) - precision in
    if drop == 0 then d else record {
      coef = under_sign (λ n. half_even n (10 ^ drop) * 10 ^ (drop - d.scale)) d.coef;
      scale = d.scale - drop;
    }

-- The coefficient at a scale that is at least its own.
at_scale : ℕ → Decimal → ℤ
at_scale k d = under_sign (λ n. n * 10 ^ (k - d.scale)) d.coef

infixl 65 ◌+ᵈ◌ ◌-ᵈ◌
infixl 70 ◌*ᵈ◌ ◌/ᵈ◌
unfoldable pub ◌+ᵈ◌ : Decimal → Decimal → Decimal
unfolding fix at_scale ◌+ℤ◌
a +ᵈ b =
    let k = max a.scale b.scale in fix (record { coef = at_scale k a +ℤ at_scale k b; scale = k })

unfoldable pub ◌-ᵈ◌ : Decimal → Decimal → Decimal
unfolding fix at_scale ◌-ℤ◌
a -ᵈ b =
    let k = max a.scale b.scale in fix (record { coef = at_scale k a -ℤ at_scale k b; scale = k })

unfoldable pub ◌*ᵈ◌ : Decimal → Decimal → Decimal
unfolding fix ◌*ℤ◌
a *ᵈ b = fix (record { coef = a.coef *ℤ b.coef; scale = a.scale + b.scale })

-- The quotient of two coefficients to more digits than the context keeps; a remainder makes the last
-- digit sticky, so that the rounding sees it.
quotient : ℕ → ℕ → ℕ
quotient n d = let q = n / d in if not (n % d == 0) && (q % 5 == 0) then q + 1 else q

signed : ℤ → ℤ → ℕ → ℤ
signed (pos a) (pos b) n = pos n
signed (pos a) (negsuc b) n = negate n
signed (negsuc a) (pos b) n = negate n
signed (negsuc a) (negsuc b) n = pos n

-- The engine divides by values that it has tested to be positive.
unfoldable pub ◌/ᵈ◌ : Decimal → Decimal → Decimal
unfolding fix quotient signed digits
a /ᵈ b =
    let num = abs a.coef * 10 ^ b.scale in
    let den = abs b.coef * 10 ^ a.scale in
    let s = precision + 1 + digits den in
    fix (record { coef = signed a.coef b.coef (quotient (num * 10 ^ s) den); scale = s })

-- Both sides of a comparison, at the common scale and free of signs.
abbrev pub left : Decimal → Decimal → ℕ
left a b = pos_part a.coef * 10 ^ b.scale + neg_part b.coef * 10 ^ a.scale

unfoldable pub lt_dec : Decimal → Decimal → Bool
lt_dec a b = ltb (left a b) (left b a)

unfoldable pub le_dec : Decimal → Decimal → Bool
le_dec a b = leb (left a b) (left b a)

unfoldable pub eq_dec : Decimal → Decimal → Bool
eq_dec a b = left a b == left b a

-- `max(a, b)` and `min(a, b)` keep the first of two equal values.
unfoldable pub max_dec : Decimal → Decimal → Decimal
unfolding lt_dec
max_dec a b = if lt_dec a b then b else a

unfoldable pub min_dec : Decimal → Decimal → Decimal
unfolding lt_dec
min_dec a b = if lt_dec b a then b else a

unfoldable pub abs_dec : Decimal → Decimal
abs_dec a = record a { coef = pos (abs a.coef) }

-- `to_integral_value(rounding=ROUND_DOWN)`: toward zero.
unfoldable pub truncate : Decimal → Decimal
truncate a = record { coef = under_sign (λ n. n / 10 ^ a.scale) a.coef; scale = 0 }

one_third : dec 1 0 /ᵈ dec 3 0 ≡ dec 3333333333333333333333333333 28
unfolding ◌/ᵈ◌
one_third = refl

tie_to_even : dec 10000000000000000000000000005 1 *ᵈ dec 1 0 ≡ dec 1000000000000000000000000000 0
unfolding ◌*ᵈ◌
tie_to_even = refl

below_zero : lt_dec (dec 1 0 -ᵈ dec 15 1) zero_dec ≡ true
unfolding ◌-ᵈ◌ lt_dec
below_zero = refl
