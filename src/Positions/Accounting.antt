-- ===== src/Positions/Accounting.antt =====
-- engine/application/position_service.py: `apply_fill_to_position`, the one accounting routine. It
-- mutates the position that it is given; here it returns the new one with the realized profit and the
-- anomalies.
use Prim.Native.Char.{code}
use cryptoaibot.Common.{
  String, ◌<>◌, ◌==◌, ◌≡◌, refl, not, ◌&&◌, ◌||◌, Option, none, some, List, [], ◌∷◌, str_eq,
  opt_str_eq, if◌then◌else◌,
}
use cryptoaibot.Exec.{Result, ok, err, value_error, bind_result}
use cryptoaibot.Decimal.{Decimal, zero_dec, ◌+ᵈ◌, ◌-ᵈ◌, ◌*ᵈ◌, ◌/ᵈ◌, lt_dec, le_dec, eq_dec, max_dec}
use cryptoaibot.Domain.Position.{Fill, Position, epsilon, mark}

pub record ApplyResult : Type 0 where
  pub position : Position
  pub realized_delta : Decimal
  pub anomalies : List String

put_char : String → List String → List String
put_char c [] = c ∷ []
put_char c (s ∷ rest) = (c <> s) ∷ rest

-- `symbol.split("/")`
split_slash : String → List String
unfolding put_char
split_slash String.[] = "" ∷ []
split_slash (String.◌∷◌ c s) =
    let rest = split_slash s in
    if code c == b'/' then "" ∷ rest else put_char (String.◌∷◌ c "") rest

pair_of : List String → Result (String × String)
pair_of (base ∷ quote ∷ []) = ok (base, quote)
pair_of _ = err (value_error "symbol.split")

-- `_assets`: unpacking anything but two parts raises.
unfoldable pub assets : String → Result (String × String)
unfolding split_slash pair_of
assets symbol = pair_of (split_slash symbol)

unfoldable pub gross : Fill → Decimal
gross f = if lt_dec zero_dec f.quote_quantity then f.quote_quantity else f.quantity *ᵈ f.price

-- The commission, if it was taken in the given asset.
unfoldable pub fee_in : String → Fill → Decimal
fee_in asset f = if opt_str_eq f.commission_asset (some asset) then f.commission else zero_dec

-- `d[asset] = d.get(asset, zero_dec) + fee`
unfoldable pub add_fee : String → Decimal → List (String × Decimal) → List (String × Decimal)
add_fee asset fee [] = (asset, zero_dec +ᵈ fee) ∷ []
add_fee asset fee ((a, x) ∷ rest) =
    if str_eq a asset then (a, x +ᵈ fee) ∷ rest else (a, x) ∷ add_fee asset fee rest

unfoldable pub fees_with :
    String → String → Fill → Option String → List (String × Decimal) → List (String × Decimal)
fees_with base quote f none fees = fees
fees_with base quote f (some asset) fees =
    if lt_dec zero_dec f.commission && not (str_eq asset base || str_eq asset quote)
    then add_fee asset f.commission fees
    else fees

unfoldable pub track_fee : String → String → Fill → Position → Position
unfolding fees_with
track_fee base quote f p = record p {
  fees_other = fees_with base quote f f.commission_asset p.fees_other;
}

abbrev pub mark_with : Option Decimal → Position → Position
mark_with none p = p
mark_with (some m) p = mark m p

unfoldable pub remark : Position → Position
remark p = mark_with p.last_mark_price p

unfoldable pub received : String → Fill → Decimal
received base f = f.quantity -ᵈ fee_in base f

unfoldable pub delivered : String → Fill → Decimal
delivered base f = f.quantity +ᵈ fee_in base f

unfoldable pub buy_fill : String → String → Fill → Position → ApplyResult
buy_fill base quote f p =
    let got = received base f in
    let cost = gross f +ᵈ fee_in quote f in
    let new_qty = p.quantity +ᵈ got in
    if le_dec got zero_dec
    then record {
      position = p;
      realized_delta = zero_dec;
      anomalies = "BUY_FILL_NON_POSITIVE_QUANTITY" ∷ [];
    }
    else record {
      position = remark (record p {
        average_entry_price = (p.quantity *ᵈ p.average_entry_price +ᵈ cost) /ᵈ new_qty;
        opened_at = if le_dec p.quantity zero_dec then some f.execution_time else p.opened_at;
        quantity = new_qty;
      });
      realized_delta = zero_dec;
      anomalies = [];
    }

-- A position that is sold out is flat: no entry price, no stop, no opening time.
unfoldable pub close_if_flat : Position → Position
close_if_flat p =
    if eq_dec p.quantity zero_dec
    then record p { average_entry_price = zero_dec; stop_price = none; opened_at = none }
    else p

unfoldable pub sell_fill : String → String → Fill → Position → ApplyResult
sell_fill base quote f p =
    let out = delivered base f in
    let proceeds = gross f -ᵈ fee_in quote f in
    let exceeds = lt_dec (p.quantity +ᵈ epsilon) out in
    let realized = proceeds -ᵈ p.average_entry_price *ᵈ (if exceeds then p.quantity else out) in
    record {
      position = remark (
          close_if_flat (record p {
            realized_pnl = p.realized_pnl +ᵈ realized;
            quantity = max_dec zero_dec (p.quantity -ᵈ out);
          }));
      realized_delta = realized;
      anomalies = if exceeds then "SELL_EXCEEDS_TRACKED_POSITION" ∷ [] else [];
    }

unfoldable pub unknown_side : Fill → Position → ApplyResult
unknown_side f p = record {
  position = remark p;
  realized_delta = zero_dec;
  anomalies = ("UNKNOWN_SIDE:" <> f.side) ∷ [];
}

unfoldable pub apply_sides : String → String → Fill → Position → ApplyResult
apply_sides base quote f p =
    let t = track_fee base quote f p in
    if str_eq f.side "BUY"
    then buy_fill base quote f t
    else if str_eq f.side "SELL"
    then sell_fill base quote f t
    else unknown_side f t

unfoldable pub apply_fill_to_position : Position → Fill → Result ApplyResult
apply_fill_to_position p f = bind_result (assets f.symbol) (λ a. ok (apply_sides a.0 a.1 f p))

assets_example : assets "BTC/USDT" ≡ ok ("BTC", "USDT")
unfolding assets
assets_example = refl
