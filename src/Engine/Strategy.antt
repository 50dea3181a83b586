-- ===== src/Engine/Strategy.antt =====
-- strategy.py, engine/strategy/strategy_service.py and ai_strategy.py: the score of a candle and the
-- signal. The indicators, the market's and the news' figures, and the model's probability are given;
-- arithmetic is Python's floating point. A reason is a text of the code with its figures.
use cryptoaibot.Common.{
  String, ◌≡◌, ◌↔◌, ℕ, Bool, true, false, not, ◌&&◌, Option, none, some, List, [], ◌∷◌, ◌++◌, arith,
  if◌then◌else◌, ◌==◌,
}
use cryptoaibot.Common.Int.{negsuc}
use cryptoaibot.Decimal.{dec}
use cryptoaibot.Engine.Risk.{Floats}

pub data Action : Type 0 where
  buy sell hold : Action

abbrev is_buy : Action → Bool
is_buy buy = true
is_buy _ = false

-- `RSI {rsi:.1f}` is in `momentum`, and so on.
pub data Reason (F : Floats) : Type 0 where
  bullish_trend bearish_trend no_trend : Reason F
  momentum : F.carrier → Bool → Bool → Bool → Reason F
  market_unavailable : Reason F
  own_dominance dominance_high dominance_moderate : F.carrier → Reason F
  no_sentiment : Reason F
  sentiment : String → F.carrier → ℕ → Reason F
  probability : F.carrier → F.carrier → Reason F
  vetoed : F.carrier → F.carrier → Reason F

pub record Row (F : Floats) : Type 0 where
  pub ema_fast : F.carrier
  pub ema_mid : F.carrier
  pub ema_slow : F.carrier
  pub rsi : F.carrier
  pub macd_hist : F.carrier

pub record NewsSentiment (F : Floats) : Type 0 where
  pub score : F.carrier
  pub label : String
  pub count : ℕ

pub record StrategyConfig (F : Floats) : Type 0 where
  pub rsi_oversold : F.carrier
  pub rsi_overbought : F.carrier
  pub score_buy_threshold : F.carrier
  pub score_sell_threshold : F.carrier

pub record StrategySignal (F : Floats) : Type 0 where
  pub action : Action
  pub score : F.carrier
  pub reasons : List (Reason F)

-- What the context holds: the last row, whether the symbol starts with BTC, the dominance of bitcoin,
-- and the sentiment.
pub record MarketContext (F : Floats) : Type 0 where
  pub row : Row F
  pub is_btc : Bool
  pub btc_dominance : Option F.carrier
  pub sentiment : Option (NewsSentiment F)

module _ (F : Floats) where
  -- A literal `n / 10 ^ k`.
  abbrev lit : ℕ → ℕ → F.carrier
  lit n k = F.of_decimal (dec n k)

  unfoldable pub trend_score : Row F → F.carrier × Reason F
  trend_score row =
      if F.lt row.ema_mid row.ema_fast && F.lt row.ema_slow row.ema_mid
      then (lit 2 0, bullish_trend)
      else if F.lt row.ema_fast row.ema_mid && F.lt row.ema_mid row.ema_slow
      then (F.of_decimal (record { coef = negsuc 1; scale = 0 }), bearish_trend)
      else (lit 0 0, no_trend)

  unfoldable pub momentum_score : Row F → StrategyConfig F → F.carrier × Reason F
  momentum_score row cfg =
      let oversold = F.lt row.rsi cfg.rsi_oversold in
      let overbought = not oversold && F.lt cfg.rsi_overbought row.rsi in
      let positive = F.lt (lit 0 0) row.macd_hist in
      let base =
        if oversold
        then F.plus (lit 0 0) (lit 1 0)
        else if overbought
        then F.minus (lit 0 0) (lit 1 0)
        else lit 0 0 in
      (
        if positive then F.plus base (lit 5 1) else F.minus base (lit 5 1),
        momentum row.rsi oversold overbought positive,
      )

  unfoldable pub regime_score : Bool → Option F.carrier → F.carrier × Reason F
  regime_score is_btc none = (lit 0 0, market_unavailable)
  regime_score is_btc (some dom) =
      if is_btc
      then (lit 0 0, own_dominance dom)
      else if F.lt (lit 55 0) dom
      then (F.of_decimal (record { coef = negsuc 0; scale = 0 }), dominance_high dom)
      else (lit 1 0, dominance_moderate dom)

  unfoldable pub sentiment_score : Option (NewsSentiment F) → F.carrier × Reason F
  sentiment_score none = (lit 0 0, no_sentiment)
  sentiment_score (some s) =
      if s.count == 0
      then (lit 0 0, no_sentiment)
      else (F.times s.score (lit 15 1), sentiment s.label s.score s.count)

  abbrev add_scores : F.carrier → List (F.carrier × Reason F) → F.carrier
  add_scores total [] = total
  add_scores total ((s, r) ∷ rest) = add_scores (F.plus total s) rest

  abbrev reasons_of : List (F.carrier × Reason F) → List (Reason F)
  reasons_of [] = []
  reasons_of ((s, r) ∷ rest) = r ∷ reasons_of rest

  -- `analyze`
  unfoldable pub analyze : MarketContext F → StrategyConfig F → StrategySignal F
  analyze ctx cfg =
      let scores =
        trend_score ctx.row
        ∷ momentum_score ctx.row cfg
        ∷ regime_score ctx.is_btc ctx.btc_dominance
        ∷ sentiment_score ctx.sentiment
        ∷ [] in
      let total = add_scores (lit 0 0) scores in
      record {
        action =
            if F.le cfg.score_buy_threshold total
            then buy
            else if F.le total cfg.score_sell_threshold
            then sell
            else hold;
        score = F.round total 2;
        reasons = reasons_of scores;
      }

  -- `AIStrategy.evaluate`: the mode, the thresholds, V1's signal and the model's probability
  unfoldable pub evaluate_with_model :
      Bool → F.carrier → F.carrier → F.carrier → StrategySignal F → StrategySignal F
  evaluate_with_model is_veto threshold exit_p p base =
      let vetoing = is_buy base.action && F.lt p threshold in
      if is_veto
      then record {
        action = if vetoing then hold else base.action;
        score = base.score;
        reasons =
            base.reasons ++ (if vetoing then vetoed p threshold else probability p threshold) ∷ [];
      }
      else record {
        action = if F.le threshold p then buy else if F.lt p exit_p then sell else hold;
        score = F.round p 4;
        reasons = probability p threshold ∷ base.reasons;
      }

  -- In veto mode the model can only block a buy of V1: the signal is a buy exactly where V1's is and
  -- the probability is not below the threshold, and a sell exactly where V1's is.
  veto_lem :
      (threshold exit_p p : F.carrier) (base : StrategySignal F)
      → (((evaluate_with_model true threshold exit_p p base).action ≡ buy)
          ↔ ((base.action ≡ buy) × (F.lt p threshold ≡ false)))
        × (((evaluate_with_model true threshold exit_p p base).action ≡ sell)
            ↔ (base.action ≡ sell))
  unfolding evaluate_with_model
  veto_lem threshold exit_p p base = ground arith
