-- ===== src/Engine/MarketData.antt =====
-- engine/market_data/fetcher.py: `MarketDataService.snapshot`. The candles are what ccxt and pandas
-- give: opening times in microseconds, prices as `Decimal(str(float(x)))`. The indicators, which leave
-- the closing prices alone, and the market's and the news' figures go to the strategy only.
use cryptoaibot.Common.{
  String, ◌<>◌, ◌≡◌, refl, sym, subst, ap, ◌∙◌, ◌⊎◌, ℕ, ◌+◌, ◌-◌, ◌/◌, ◌≤◌, Bool, true, false, ◌&&◌,
  Option, none, some, List, [], ◌∷◌, ◌++◌, append_assoc, any, leb, map, arith, length, ltb, show,
  inl, inr, if◌then◌else◌,
}
use cryptoaibot.Exec.{Error, Result, ok, err}
use cryptoaibot.Decimal.{Decimal, zero_dec}
use cryptoaibot.Domain.Recon.{microseconds_per_second}
use cryptoaibot.Engine.Binance.{last}
use cryptoaibot.Engine.Trading.Decisions.{MarketSnapshot}

pub record Candle : Type 0 where
  pub open_time : ℕ
  pub low : Decimal
  pub close : Decimal

-- `age_limit` is the timeframe times MARKET_DATA_MAX_AGE_CANDLES, as a `timedelta` in microseconds.
pub record MarketConfig : Type 0 where
  pub timeframe : ℕ
  pub age_limit : ℕ
  pub ema_slow : ℕ
  pub signal_on_closed_candles : Bool

-- What is not there in an invalid snapshot is `None` in the code, and read by nothing.
abbrev pub invalid : String → MarketSnapshot
invalid reason = record {
  valid = false;
  reason = reason;
  candle_ts = "";
  mark_price = zero_dec;
  signal_price = zero_dec;
  recent_candles = [];
}

-- `raw.iloc[:-1]` and `raw.iloc[-2:]`
abbrev pub all_but_last : List Candle → List Candle
all_but_last [] = []
all_but_last (c ∷ []) = []
all_but_last (c ∷ d ∷ cs) = c ∷ all_but_last (d ∷ cs)

abbrev last_two : List Candle → List Candle
last_two [] = []
last_two (c ∷ []) = c ∷ []
last_two (c ∷ d ∷ []) = c ∷ d ∷ []
last_two (c ∷ d ∷ e ∷ cs) = last_two (d ∷ e ∷ cs)

module _ (cfg : MarketConfig) (isoformat : ℕ → String) (now : ℕ) where
  -- The candles without the forming one, where signals wait for the close.
  unfoldable pub usable : List Candle → Candle → List Candle
  usable raw newest =
      if cfg.signal_on_closed_candles && ltb now (newest.open_time + cfg.timeframe)
      then all_but_last raw
      else raw

  abbrev pub snapshot_of : List Candle → Candle → Candle → MarketSnapshot
  snapshot_of raw newest evaluated = record {
    valid = true;
    reason = "ok";
    candle_ts = isoformat evaluated.open_time;
    mark_price = newest.close;
    signal_price = evaluated.close;
    recent_candles = map (λ c. (c.open_time + cfg.timeframe, c.low)) (last_two raw);
  }

  -- `age > tf * MARKET_DATA_MAX_AGE_CANDLES`
  unfoldable pub is_stale : Candle → Bool
  is_stale c = ltb (c.open_time + cfg.timeframe + cfg.age_limit) now

  -- There are candles here: at least five.
  unfoldable pub judge : List Candle → Candle → Option Candle → MarketSnapshot
  judge raw newest none = invalid "no candle"
  judge raw newest (some c) =
      if is_stale c
      then invalid (
          "stale market data: evaluated candle closed "
          <> show ((now - (c.open_time + cfg.timeframe)) / microseconds_per_second)
          <> "s ago")
      else snapshot_of raw newest c

  abbrev pub evaluate : List Candle → Option Candle → MarketSnapshot
  evaluate raw none = invalid "no candle"
  evaluate raw (some newest) = judge raw newest (last (usable raw newest))

  -- `snapshot`, of what the exchange answers; an exception goes by the name of its type
  unfoldable pub snapshot : (Error → String) → Result (Option (List Candle)) → MarketSnapshot
  snapshot type_name (err e) = invalid ("candle fetch failed: " <> type_name e)
  snapshot type_name (ok none) = invalid "insufficient candles (0)"
  snapshot type_name (ok (some raw)) =
      if ltb (length raw) (cfg.ema_slow + 5)
      then invalid ("insufficient candles (" <> show (length raw) <> ")")
      else evaluate raw (last raw)

-- Each candle closes before the next one opens.
abbrev pub IsSpaced : ℕ → List Candle → Type 0
IsSpaced width [] = Unit {0}
IsSpaced width (c ∷ []) = Unit {0}
IsSpaced width (c ∷ d ∷ cs) = (c.open_time + width ≤ d.open_time) × IsSpaced width (d ∷ cs)

some-injective : {A : Type 0} {a b : A} → some a ≡ some b → a ≡ b
some-injective h = cc h

-- A list ends with its last candle.
all_but_last-append :
    (cs : List Candle) (c : Candle) → last cs ≡ some c → cs ≡ all_but_last cs ++ c ∷ []
all_but_last-append [] c at = cc at
all_but_last-append (d ∷ []) c at = ap (λ e. e ∷ []) (some-injective at)
all_but_last-append (d ∷ e ∷ cs) c at = ap (λ ds. d ∷ ds) (all_but_last-append (e ∷ cs) c at)

-- The candle before the newest one has closed when that one opens.
before_newest :
    (width : ℕ) (cs : List Candle) (c newest : Candle)
    → IsSpaced width cs
    → last cs ≡ some newest
    → last (all_but_last cs) ≡ some c
    → c.open_time + width ≤ newest.open_time
before_newest width [] c newest spaced at before = cc
before_newest width (d ∷ []) c newest spaced at before = cc
before_newest width (d ∷ e ∷ []) c newest spaced at before =
    let opened = ap (λ q. q.open_time) (some-injective at) in
    let before_it = ap (λ q. q.open_time) (some-injective before) in
    omega (arith, spaced.0, opened, before_it)
before_newest width (d ∷ e ∷ f ∷ cs) c newest spaced at before =
    before_newest width (e ∷ f ∷ cs) c newest spaced.1 at before

valid_when :
    (b : Bool) (reason : String) (s : MarketSnapshot)
    → (if b then invalid reason else s).valid ≡ true
    → (b ≡ false) × (s.valid ≡ true)
valid_when true reason s h = cc h
valid_when false reason s h = (refl, h)

if_last :
    (b : Bool) (xs ys : List Candle) (c : Candle)
    → last (if b then xs else ys) ≡ some c
    → ((b ≡ true) × (last xs ≡ some c)) ⊎ ((b ≡ false) × (last ys ≡ some c))
if_last true xs ys c h = inl (refl, h)
if_last false xs ys c h = inr (refl, h)

forming_open : (b : Bool) (now end : ℕ) → (b && ltb now end) ≡ true → leb end now ≡ false
forming_open b now end h = ground (arith, h)

module _ (cfg : MarketConfig) (isoformat : ℕ → String) (now : ℕ) where
  closed_by :
      (m n : ℕ)
      → cfg.signal_on_closed_candles ≡ true
      → (cfg.signal_on_closed_candles && ltb now m) ≡ false
      → m ≡ n
      → n ≤ now
  closed_by m n waits complete same = ground (arith, waits, complete, same)

  abbrev has_closed : Candle → Bool
  has_closed c = leb (c.open_time + cfg.timeframe) now

  -- The last candle of a list that has closed by now, with those after it.
  abbrev LastClosed : List Candle → Candle → Type 0
  LastClosed raw c =
      (before : List Candle) × (after : List Candle) × (raw ≡ before ++ c ∷ after)
      × (c.open_time + cfg.timeframe ≤ now)
      × (any has_closed after ≡ false)

  usable-LastClosed :
      (raw : List Candle) (newest c : Candle)
      → cfg.signal_on_closed_candles ≡ true
      → IsSpaced cfg.timeframe raw
      → last raw ≡ some newest
      → newest.open_time ≤ now
      → last (usable cfg isoformat now raw newest) ≡ some c
      → LastClosed raw c
  unfolding usable any
  usable-LastClosed raw newest c waits spaced at opened here =
      elim (if_last (cfg.signal_on_closed_candles && ltb now (newest.open_time + cfg.timeframe)) _ _
        c here) [
          | inl (forming, before) ↦
              let gap = before_newest cfg.timeframe raw c newest spaced at before in
              let still =
                forming_open cfg.signal_on_closed_candles now (newest.open_time + cfg.timeframe)
                  forming in
              (
                all_but_last (all_but_last raw),
                newest ∷ [],
                all_but_last-append raw newest at
                    ∙ ap (λ cs. cs ++ newest ∷ []) (all_but_last-append (all_but_last raw) c before)
                    ∙ append_assoc (all_but_last (all_but_last raw)) (c ∷ []) (newest ∷ []),
                omega (arith, gap, opened),
                ground (arith, still),
              )
          | inr (complete, same) ↦
              let newest_is_c = ap (λ q. q.open_time) (some-injective (sym at ∙ same)) in
              (
                all_but_last raw,
                [],
                all_but_last-append raw c same,
                closed_by (newest.open_time + cfg.timeframe) (c.open_time + cfg.timeframe) waits
                    complete (ap (λ n. n + cfg.timeframe) newest_is_c),
                refl,
              )
        ]

  judge_lem :
      (raw : List Candle) (newest : Candle) (o : Option Candle)
      → ((c : Candle) → o ≡ some c → LastClosed raw c)
      → (judge cfg isoformat now raw newest o).valid ≡ true
      → (c : Candle) × LastClosed raw c
        × ((judge cfg isoformat now raw newest o).signal_price ≡ c.close)
        × ((judge cfg isoformat now raw newest o).candle_ts ≡ isoformat c.open_time)
        × ((judge cfg isoformat now raw newest o).mark_price ≡ newest.close)
        × (now ≤ c.open_time + cfg.timeframe + cfg.age_limit)
  unfolding judge is_stale
  judge_lem raw newest none closed h = cc h
  judge_lem raw newest (some c) closed h =
      let fresh =
        (valid_when (ltb (c.open_time + cfg.timeframe + cfg.age_limit) now) _
          (snapshot_of cfg isoformat now raw newest c) h).0 in
      rw fresh (c, closed c refl, refl, refl, refl, ground (arith, fresh))

  -- A signal is made of the last closed candle, and of a fresh one: with SIGNAL_ON_CLOSED_CANDLES, of candles
  -- that follow one another and the newest of which has opened, a valid snapshot takes the signal's price and
  -- the candle's time from a candle of the list that closed by now, after which no candle of the list has
  -- closed, and which closed at most MARKET_DATA_MAX_AGE_CANDLES timeframes ago; the mark price is the newest
  -- candle's.
  pub snapshot-LastClosed :
      (type_name : Error → String) (raw : List Candle) (newest : Candle)
      → cfg.signal_on_closed_candles ≡ true
      → IsSpaced cfg.timeframe raw
      → last raw ≡ some newest
      → newest.open_time ≤ now
      → (snapshot cfg isoformat now type_name (ok (some raw))).valid ≡ true
      → (c : Candle) × ((before : List Candle) × (after : List Candle) × (raw ≡ before ++ c ∷ after)
          × (c.open_time + cfg.timeframe ≤ now)
          × (any (λ d. leb (d.open_time + cfg.timeframe) now) after ≡ false))
        × ((snapshot cfg isoformat now type_name (ok (some raw))).signal_price ≡ c.close)
        × ((snapshot cfg isoformat now type_name (ok (some raw))).candle_ts ≡ isoformat c.open_time)
        × ((snapshot cfg isoformat now type_name (ok (some raw))).mark_price ≡ newest.close)
        × (now ≤ c.open_time + cfg.timeframe + cfg.age_limit)
  unfolding snapshot
  snapshot-LastClosed type_name raw newest waits spaced at opened h =
      let (enough, valid) =
        valid_when (ltb (length raw) (cfg.ema_slow + 5)) _
          (evaluate cfg isoformat now raw (last raw)) h in
      rw (enough, at)
        (judge_lem raw newest (last (usable cfg isoformat now raw newest))
          (λ c. usable-LastClosed raw newest c waits spaced at opened)
          (subst (λ o. (evaluate cfg isoformat now raw o).valid ≡ true) at valid))
