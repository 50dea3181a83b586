-- ===== src/Positions/Replay.antt =====
-- engine/application/position_service.py: incremental accounting, with marks and stops between the
-- fills, and the loop of `rebuild`.
use cryptoaibot.Common.{
  String, ◌≡◌, refl, ◌∙◌, ap, Option, none, some, List, [], ◌∷◌, ◌++◌, arith, Bool-cases, inl, inr,
  str_eq,
}
use cryptoaibot.Exec.{Result, ok, err, bind_result}
use cryptoaibot.Decimal.{Decimal, zero_dec, le_dec}
use cryptoaibot.Domain.Position.{Fill, Position, mark}
use cryptoaibot.Positions.Accounting.{
  ApplyResult, assets, fees_with, track_fee, remark, mark_with, buy_fill, sell_fill, unknown_side,
  apply_sides, received, close_if_flat, apply_fill_to_position,
}
use cryptoaibot.Positions.Service.{replay}

-- What the accounting decides: all but the mark, the profit at the mark and the stop.
pub record SameAccounts (p q : Position) : Type 0 where
  pub quantity : p.quantity ≡ q.quantity
  pub entry : p.average_entry_price ≡ q.average_entry_price
  pub realized : p.realized_pnl ≡ q.realized_pnl
  pub fees : p.fees_other ≡ q.fees_other
  pub opened : p.opened_at ≡ q.opened_at

mark_with-Same : (m : Option Decimal) (p : Position) → SameAccounts (mark_with m p) p
unfolding mark
mark_with-Same none p = record {
  quantity = refl;
  entry = refl;
  realized = refl;
  fees = refl;
  opened = refl;
}
mark_with-Same (some x) p = record {
  quantity = refl;
  entry = refl;
  realized = refl;
  fees = refl;
  opened = refl;
}

SameAccounts-trans : {p q r : Position} → SameAccounts p q → SameAccounts q r → SameAccounts p r
SameAccounts-trans a b = record {
  quantity = a.quantity ∙ b.quantity;
  entry = a.entry ∙ b.entry;
  realized = a.realized ∙ b.realized;
  fees = a.fees ∙ b.fees;
  opened = a.opened ∙ b.opened;
}

remark-Same : (p q : Position) → SameAccounts p q → SameAccounts (remark p) (remark q)
unfolding remark
remark-Same p q h =
    ground (arith, mark_with-Same p.last_mark_price p, mark_with-Same q.last_mark_price q)

record SameResult (a b : ApplyResult) : Type 0 where
  accounts : SameAccounts a.position b.position
  anomalies : a.anomalies ≡ b.anomalies

track_fee-Same :
    (base quote : String) (f : Fill) (p q : Position)
    → SameAccounts p q
    → SameAccounts (track_fee base quote f p) (track_fee base quote f q)
unfolding track_fee
track_fee-Same base quote f p q h = record {
  quantity = h.quantity;
  entry = h.entry;
  realized = h.realized;
  fees = ap (λ x. fees_with base quote f f.commission_asset x) h.fees;
  opened = h.opened;
}

buy_fill-Same :
    (base quote : String) (f : Fill) (p q : Position)
    → SameAccounts p q
    → SameResult (buy_fill base quote f p) (buy_fill base quote f q)
unfolding buy_fill
buy_fill-Same base quote f p q h = elim (Bool-cases (le_dec (received base f) zero_dec)) [
  | inl refused ↦ rw refused (record { accounts = h; anomalies = refl })
  | inr got ↦ rw got (record {
    accounts = remark-Same _ _ (record {
      quantity = cc (h.quantity);
      entry = cc (h.quantity, h.entry);
      realized = h.realized;
      fees = h.fees;
      opened = cc (h.quantity, h.opened);
    });
    anomalies = refl;
  })
]

close_if_flat-Same :
    (p q : Position) → SameAccounts p q → SameAccounts (close_if_flat p) (close_if_flat q)
unfolding close_if_flat
close_if_flat-Same p q h = ground arith

sell_fill-Same :
    (base quote : String) (f : Fill) (p q : Position)
    → SameAccounts p q
    → SameResult (sell_fill base quote f p) (sell_fill base quote f q)
unfolding sell_fill
sell_fill-Same base quote f p q h = record {
  accounts = remark-Same _ _ (
      close_if_flat-Same _ _ (record {
        quantity = cc (h.quantity);
        entry = h.entry;
        realized = cc (h.quantity, h.entry, h.realized);
        fees = h.fees;
        opened = h.opened;
      }));
  anomalies = cc (h.quantity);
}

apply_sides-Same :
    (base quote : String) (f : Fill) (p q : Position)
    → SameAccounts p q
    → SameResult (apply_sides base quote f p) (apply_sides base quote f q)
unfolding apply_sides unknown_side
apply_sides-Same base quote f p q h =
    let t = track_fee base quote f p in
    let u = track_fee base quote f q in
    let same = track_fee-Same base quote f p q h in
    elim (Bool-cases (str_eq f.side "BUY")) [
      | inl buy ↦ rw buy (buy_fill-Same base quote f t u same)
      | inr other ↦ rw other (elim (Bool-cases (str_eq f.side "SELL")) [
        | inl sell ↦ rw sell (sell_fill-Same base quote f t u same)
        | inr unknown ↦ rw unknown (record { accounts = remark-Same t u same; anomalies = refl })
      ])
    ]

-- What happens to a position between two readings: a fill, a mark at a price, a new stop.
pub data PositionEvent : Type 0 where
  filled : Fill → PositionEvent
  marked : Decimal → PositionEvent
  stopped : Decimal → PositionEvent

-- The incremental history, with the anomalies so far.
unfoldable pub run : List PositionEvent → Position → List String → Result (Position × List String)
run [] p notes = ok (p, notes)
run (filled f ∷ es) p notes =
    bind_result (apply_fill_to_position p f) (λ r. run es r.position (notes ++ r.anomalies))
run (marked m ∷ es) p notes = run es (mark m p) notes
run (stopped s ∷ es) p notes = run es (record p { stop_price = some s }) notes

unfoldable pub fills_of : List PositionEvent → List Fill
fills_of [] = []
fills_of (filled f ∷ es) = f ∷ fills_of es
fills_of (marked m ∷ es) = fills_of es
fills_of (stopped s ∷ es) = fills_of es

-- Two results of a history agree: both raise the same, or both return the same accounts and notes.
abbrev pub SameOutcome : Result (Position × List String) → Result (Position × List String) → Type 0
SameOutcome (ok (p, ns)) (ok (q, ms)) = SameAccounts p q × (ns ≡ ms)
SameOutcome (err e) (err d) = e ≡ d
SameOutcome _ _ = ⊥

filled-Same :
    (es : List PositionEvent) (f : Fill) (p q : Position) (notes : List String)
    → SameAccounts p q
    → ((p' q' : Position) (ns : List String)
        → SameAccounts p' q'
        → SameOutcome (run es p' ns) (replay (fills_of es) q' ns))
    → (a : Result (String × String)) → assets f.symbol ≡ a
    → SameOutcome (run (filled f ∷ es) p notes) (replay (fills_of (filled f ∷ es)) q notes)
unfolding run replay fills_of apply_fill_to_position
filled-Same es f p q notes h rest (err e) known = rw known refl
filled-Same es f p q notes h rest (ok (base, quote)) known =
    let same = apply_sides-Same base quote f p q h in
    rw (known, same.anomalies) (rest _ _ _ same.accounts)

-- The incremental history of a position, with marks and stops anywhere between its fills, has the
-- quantity, entry price, realized profit, fees, opening time and anomalies that a replay of its fills
-- in the same order computes, from any two positions with the same accounts; and one raises where the
-- other does.
pub run-eq-replay :
    (es : List PositionEvent) (p q : Position) (notes : List String)
    → SameAccounts p q
    → SameOutcome (run es p notes) (replay (fills_of es) q notes)
unfolding run replay fills_of
run-eq-replay [] p q notes h = (h, refl)
run-eq-replay (filled f ∷ es) p q notes h =
    filled-Same es f p q notes h (run-eq-replay es) (assets f.symbol) refl
run-eq-replay (marked m ∷ es) p q notes h =
    run-eq-replay es (mark m p) q notes (SameAccounts-trans (mark_with-Same (some m) p) h)
run-eq-replay (stopped s ∷ es) p q notes h =
    run-eq-replay es (record p { stop_price = some s }) q notes
      (record {
        quantity = h.quantity;
        entry = h.entry;
        realized = h.realized;
        fees = h.fees;
        opened = h.opened;
      })
