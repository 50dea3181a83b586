-- ===== src/Decimal/Order.antt =====
-- The order of decimals, whatever their scales.
use cryptoaibot.Common.{◌≡◌, true, false, arith}
use cryptoaibot.Decimal.{Decimal, lt_dec, le_dec}

pub le_dec_refl : (a : Decimal) → le_dec a a ≡ true
unfolding le_dec
le_dec_refl a = ground arith

pub le_dec_of_lt : (a b : Decimal) → lt_dec a b ≡ true → le_dec a b ≡ true
unfolding le_dec lt_dec
le_dec_of_lt a b h = ground arith

pub le_dec_of_not_lt : (a b : Decimal) → lt_dec b a ≡ false → le_dec a b ≡ true
unfolding le_dec lt_dec
le_dec_of_not_lt a b h = ground arith

pub not_lt_of_le_dec : (a b : Decimal) → le_dec a b ≡ true → lt_dec b a ≡ false
unfolding le_dec lt_dec
not_lt_of_le_dec a b h = ground arith

pub lt_dec_irrefl : (a : Decimal) → lt_dec a a ≡ false
unfolding lt_dec
lt_dec_irrefl a = ground arith

pub lt_dec_of_not_le : (a b : Decimal) → le_dec a b ≡ false → lt_dec b a ≡ true
unfolding le_dec lt_dec
lt_dec_of_not_le a b h = ground arith
