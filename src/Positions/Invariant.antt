-- ===== src/Positions/Invariant.antt =====
-- The invariant of a position under every way in which the engine changes it.
use cryptoaibot.Common.{
  String, ◌≡◌, refl, subst, true, false, Option, none, some, arith, Bool-cases, inl, inr, str_eq,
}
use cryptoaibot.Exec.{ok, bind_result-eq-ok, ok-injective}
use cryptoaibot.Decimal.{Decimal, zero_dec, lt_dec, le_dec, eq_dec}
use cryptoaibot.Decimal.Order.{lt_dec_of_not_le}
use cryptoaibot.Decimal.Sign.{
  add_positive, positive_not_negative, positive_ne_zero, max_zero_nonneg,
}
use cryptoaibot.Domain.Position.{Fill, Position, mark, flat_position}
use cryptoaibot.Positions.Accounting.{
  ApplyResult, assets, track_fee, remark, mark_with, buy_fill, sell_fill, unknown_side, apply_sides,
  received, close_if_flat, apply_fill_to_position,
}

-- The quantity is never negative, and a flat position has no entry price and no opening time.
pub record IsSound (p : Position) : Type 0 where
  pub nonneg : lt_dec p.quantity zero_dec ≡ false
  pub flat_price : eq_dec p.quantity zero_dec ≡ true → p.average_entry_price ≡ zero_dec
  pub flat_opened : eq_dec p.quantity zero_dec ≡ true → p.opened_at ≡ none

pub flat_position-IsSound : (bot symbol : String) → IsSound (flat_position bot symbol)
unfolding lt_dec
flat_position-IsSound bot symbol = record {
  nonneg = refl;
  flat_price = λ h. refl;
  flat_opened = λ h. refl;
}

pub mark-IsSound : (m : Decimal) (p : Position) → IsSound p → IsSound (mark m p)
unfolding mark
mark-IsSound m p h = record {
  nonneg = h.nonneg;
  flat_price = h.flat_price;
  flat_opened = h.flat_opened;
}

-- `positive` settles every field of a position with holdings.
positive-IsSound : (p : Position) → lt_dec zero_dec p.quantity ≡ true → IsSound p
positive-IsSound p h = record {
  nonneg = positive_not_negative p.quantity h;
  flat_price = λ z. ground (arith, positive_ne_zero p.quantity h, z);
  flat_opened = λ z. ground (arith, positive_ne_zero p.quantity h, z);
}

mark_with-IsSound : (m : Option Decimal) (p : Position) → IsSound p → IsSound (mark_with m p)
mark_with-IsSound none p h = h
mark_with-IsSound (some x) p h = mark-IsSound x p h

remark-IsSound : (p : Position) → IsSound p → IsSound (remark p)
unfolding remark
remark-IsSound p h = mark_with-IsSound p.last_mark_price p h

track_fee-IsSound :
    (base quote : String) (f : Fill) (p : Position) → IsSound p → IsSound (track_fee base quote f p)
unfolding track_fee
track_fee-IsSound base quote f p h = record {
  nonneg = h.nonneg;
  flat_price = h.flat_price;
  flat_opened = h.flat_opened;
}

buy_fill-IsSound :
    (base quote : String) (f : Fill) (p : Position)
    → IsSound p
    → IsSound (buy_fill base quote f p).position
unfolding buy_fill
buy_fill-IsSound base quote f p h = elim (Bool-cases (le_dec (received base f) zero_dec)) [
  | inl refused ↦ rw refused h
  | inr got ↦ rw got (
      remark-IsSound _ (
        positive-IsSound _
          (add_positive p.quantity (received base f) h.nonneg (lt_dec_of_not_le _ _ got))))
]

close_if_flat-IsSound :
    (p : Position) → lt_dec p.quantity zero_dec ≡ false → IsSound (close_if_flat p)
unfolding close_if_flat
close_if_flat-IsSound p h = elim (Bool-cases (eq_dec p.quantity zero_dec)) [
  | inl flat ↦ rw flat (record { nonneg = h; flat_price = λ z. refl; flat_opened = λ z. refl })
  | inr held ↦ rw held (record { nonneg = h; flat_price = λ z. cc; flat_opened = λ z. cc })
]

sell_fill-IsSound :
    (base quote : String) (f : Fill) (p : Position) → IsSound (sell_fill base quote f p).position
unfolding sell_fill
sell_fill-IsSound base quote f p = remark-IsSound _ (close_if_flat-IsSound _ (max_zero_nonneg _))

apply_sides-IsSound :
    (base quote : String) (f : Fill) (p : Position)
    → IsSound p
    → IsSound (apply_sides base quote f p).position
unfolding apply_sides unknown_side
apply_sides-IsSound base quote f p h =
    let t = track_fee base quote f p in
    let sound = track_fee-IsSound base quote f p h in
    elim (Bool-cases (str_eq f.side "BUY")) [
      | inl buy ↦ rw buy (buy_fill-IsSound base quote f t sound)
      | inr other ↦ rw other (elim (Bool-cases (str_eq f.side "SELL")) [
        | inl sell ↦ rw sell (sell_fill-IsSound base quote f t)
        | inr unknown ↦ rw unknown (remark-IsSound t sound)
      ])
    ]

-- Every fill, on either side, of any size and with any fee, keeps the position sound: a sale never
-- takes the quantity below zero, and one that closes it clears the entry price and the opening time.
pub apply_fill_to_position-IsSound :
    (p : Position) (f : Fill) (r : ApplyResult)
    → IsSound p
    → apply_fill_to_position p f ≡ ok r
    → IsSound r.position
unfolding apply_fill_to_position
apply_fill_to_position-IsSound p f r h e =
    let (a, e1, e2) = bind_result-eq-ok (assets f.symbol) (λ a. ok (apply_sides a.0 a.1 f p)) e in
    subst (λ (x : ApplyResult). IsSound x.position) (ok-injective e2)
      (apply_sides-IsSound a.0 a.1 f p h)
