-- ===== src/Engine/Validation.antt =====
-- config.py: `validate_runtime`, which refuses unsafe configurations. Whether the model file exists,
-- and whether a text is 64 hexadecimal digits, are answers of the file system and of `re`.
use cryptoaibot.Common.{
  String, ◌≡◌, ◌≤◌, refl, ℕ, Bool, true, false, not, ◌&&◌, ◌||◌, ltb, str_eq, eq_iff, arith,
  if◌then◌else◌, List, [], ◌∷◌,
}
use cryptoaibot.Exec.{Result, ok, err, runtime_error}
use cryptoaibot.Engine.Ids.{len}

pub record Settings : Type 0 where
  pub trading_mode : String
  pub strategy_mode : String
  pub model_file_exists : Bool
  pub model_digest_is_hex : Bool
  pub live_trading_confirmed : Bool
  pub protective_stop_mode : String
  -- "ws-api.binance.com" in c.BINANCE_WS_API_URL
  pub is_production_socket : Bool
  pub api_key : String
  pub api_secret : String
  pub control_plane_token : String

abbrev pub is_live : Settings → Bool
is_live c = str_eq c.trading_mode "LIVE"

abbrev pub is_mode : String → Bool
is_mode mode = str_eq mode "PAPER" || str_eq mode "TESTNET" || str_eq mode "LIVE"

abbrev pub is_strategy : String → Bool
is_strategy mode = str_eq mode "v1" || str_eq mode "veto" || str_eq mode "ml"

abbrev pub is_stop_mode : String → Bool
is_stop_mode mode = str_eq mode "software" || str_eq mode "exchange"

-- What is refused, in the code's order; the code formats the mode into three of the texts.
unfoldable pub refusals : Settings → List (Bool × String)
refusals c =
    (not (is_mode c.trading_mode), "TRADING_MODE must be PAPER, TESTNET, or LIVE")
    ∷ (not (is_strategy c.strategy_mode), "STRATEGY_MODE must be v1, veto, or ml")
    ∷ (
      not (str_eq c.strategy_mode "v1") && not c.model_file_exists,
      "STRATEGY_MODE requires ML_MODEL_PATH",
    )
    ∷ (
      not (str_eq c.strategy_mode "v1") && not c.model_digest_is_hex,
      "STRATEGY_MODE requires ML_MODEL_SHA256",
    )
    ∷ (is_live c && not c.live_trading_confirmed, "LIVE mode requires LIVE_TRADING_CONFIRMED=true")
    ∷ (
      is_live c && not (str_eq c.protective_stop_mode "exchange"),
      "LIVE mode requires PROTECTIVE_STOP_MODE=exchange",
    )
    ∷ (
      not (is_live c) && c.is_production_socket,
      "Non-LIVE mode must not point at the production WebSocket API",
    )
    ∷ (
      not (str_eq c.trading_mode "PAPER") && (str_eq c.api_key "" || str_eq c.api_secret ""),
      "mode requires exchange API credentials",
    )
    ∷ (
      not (is_stop_mode c.protective_stop_mode),
      "PROTECTIVE_STOP_MODE must be 'software' or 'exchange'",
    )
    ∷ (
      str_eq c.protective_stop_mode "exchange" && str_eq c.trading_mode "PAPER",
      "PROTECTIVE_STOP_MODE=exchange is not supported in PAPER mode",
    )
    ∷ (
      str_eq c.control_plane_token "CHANGE_THIS_LONG_RANDOM_SECRET"
          || ltb (len c.control_plane_token) 32,
      "CONTROL_PLANE_TOKEN must be a random value of at least 32 characters",
    )
    ∷ []

abbrev pub first_refusal : List (Bool × String) → Result (Unit {0})
first_refusal [] = ok tt
first_refusal ((b, m) ∷ rest) = if b then err (runtime_error m) else first_refusal rest

unfoldable pub validate_runtime : Settings → Result (Unit {0})
validate_runtime c = first_refusal (refusals c)

-- Nothing is refused.
abbrev AllPass : List (Bool × String) → Type 0
AllPass [] = Unit {0}
AllPass ((b, m) ∷ rest) = (b ≡ false) × AllPass rest

first_refusal-AllPass : (cs : List (Bool × String)) → first_refusal cs ≡ ok tt → AllPass cs
first_refusal-AllPass [] h = tt
first_refusal-AllPass ((true, m) ∷ rest) h = cc h
first_refusal-AllPass ((false, m) ∷ rest) h = (refl, first_refusal-AllPass rest h)

-- What the checks of a LIVE configuration come to.
live_checks :
    (c : Settings)
    → is_live c ≡ true
    → (is_live c && not c.live_trading_confirmed) ≡ false
    → (is_live c && not (str_eq c.protective_stop_mode "exchange")) ≡ false
    → (not (str_eq c.trading_mode "PAPER") && (str_eq c.api_key "" || str_eq c.api_secret ""))
      ≡ false
    → str_eq c.trading_mode "PAPER" ≡ false
    → (c.live_trading_confirmed ≡ true)
      × (str_eq c.protective_stop_mode "exchange" ≡ true)
      × (str_eq c.api_key "" ≡ false)
      × (str_eq c.api_secret "" ≡ false)
live_checks c live confirmed stop keys real = ground (arith, live, confirmed, stop, keys, real)

long_token :
    (guessable : Bool) (n : ℕ) → (guessable || ltb n 32) ≡ false → (guessable ≡ false) × (32 ≤ n)
long_token guessable n h = ground (arith, h)

live_not_paper : (c : Settings) → is_live c ≡ true → str_eq c.trading_mode "PAPER" ≡ false
live_not_paper c live = rw ((eq_iff c.trading_mode "LIVE").0 live) refl

-- A configuration for LIVE trading that passes validation is confirmed by LIVE_TRADING_CONFIRMED, keeps its
-- protective stops on the exchange, has both API credentials, and a control plane token of at least
-- 32 characters that is not the example's.
pub validate_live :
    (c : Settings)
    → is_live c ≡ true
    → validate_runtime c ≡ ok tt
    → (c.live_trading_confirmed ≡ true)
      × (str_eq c.protective_stop_mode "exchange" ≡ true)
      × (str_eq c.api_key "" ≡ false)
      × (str_eq c.api_secret "" ≡ false)
      × (str_eq c.control_plane_token "CHANGE_THIS_LONG_RANDOM_SECRET" ≡ false)
      × (32 ≤ len c.control_plane_token)
unfolding validate_runtime refusals
validate_live c live h =
    let all = first_refusal-AllPass (refusals c) h in
    let from_live = all.1.1.1.1 in
    let from_keys = from_live.1.1.1 in
    let (a, b, k, s) =
      live_checks c live from_live.0 from_live.1.0 from_keys.0 (live_not_paper c live) in
    let (other, long) =
      long_token (str_eq c.control_plane_token "CHANGE_THIS_LONG_RANDOM_SECRET")
        (len c.control_plane_token) from_keys.1.1.1.0 in
    (a, b, k, s, other, long)
