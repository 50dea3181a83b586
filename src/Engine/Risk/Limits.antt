-- ===== src/Engine/Risk/Limits.antt =====
-- What stands between a signal and an entry (engine/risk/manager.py).
use cryptoaibot.Common.{
  ◌↔◌, ◌<◌, ◌⊎◌, ◌≡◌, String, ℕ, true, false, Option, none, some, is_some, [], arith, refl,
  str_eq_refl, ap,
}
use cryptoaibot.Exec.{ok, ◌>>=◌}
use cryptoaibot.Decimal.{Decimal, zero_dec}
use cryptoaibot.Domain.Rules.{SymbolRules, is_tradeable}
use cryptoaibot.Store.Tables.{Database, DailyRisk, World, KvValue}
use cryptoaibot.Store.Kv.{kv_set, kv_put, kv_get-kv_put}
use cryptoaibot.Store.Transaction.{transaction}
use cryptoaibot.Engine.Risk.{
  Floats, RiskConfig, RiskState, Refusal, entry_checks, max_open_positions, not_daily_halted,
  get_day, is_daily_halted, update_daily, risk_manager, checked_day, day_for,
  check_daily_loss_limit, size_entry, min_notional, risk_key,
}

-- `entry_checks` finds nothing exactly where fewer positions are open than the limit and the day is not
-- halted.
pub entry_checks_iff :
    (bot : String) (limit count : ℕ) (d : Database)
    → (entry_checks bot limit count d ≡ []) ↔ ((count < limit) × (is_daily_halted bot d ≡ false))
unfolding entry_checks max_open_positions not_daily_halted
entry_checks_iff bot limit count d = ground arith

module _ (F : Floats) (rc : RiskConfig F) where
  -- A halted day stays halted, whatever the equity.
  check_daily_loss_limit-halted :
      (st : RiskState F) (limit : F.carrier)
      → st.halted ≡ true
      → (check_daily_loss_limit F st limit).halted ≡ true
  unfolding check_daily_loss_limit
  check_daily_loss_limit-halted st limit h = ground (arith, h)

  -- `get_day` after `kv_set`
  get_day-kv_put :
      (bot : String) (d : DailyRisk) (db : Database)
      → get_day bot (record db { kv = kv_put (risk_key bot) (KvValue.daily_risk d) db.kv }) ≡ some d
  unfolding get_day
  get_day-kv_put bot d db =
      rw
        (
          kv_get-kv_put (risk_key bot) (KvValue.daily_risk d) db.kv (risk_key bot),
          str_eq_refl (risk_key bot),
        )
        refl

  -- A day that has been halted stays halted until the date changes: `update_daily` with the same date
  -- answers True whatever the equity is, and `is_daily_halted` says so afterwards.
  pub update_daily-halted :
      (bot today : String) (equity : Decimal) (d : DailyRisk) (w : World)
      → get_day bot w.db ≡ some d
      → d.date ≡ today
      → d.halted ≡ true
      → ((update_daily (risk_manager F rc) bot equity today w).0 ≡ ok true)
        × (is_daily_halted bot (update_daily (risk_manager F rc) bot equity today w).1.db ≡ true)
  unfolding update_daily ◌>>=◌ kv_set transaction is_daily_halted day_for checked_day
  update_daily-halted bot today equity d w stored same halted =
      let still = check_daily_loss_limit-halted _ rc.daily_loss_limit_pct halted in
      rw (stored, same, str_eq_refl today) (ap ok still, rw (get_day-kv_put bot _ w.db) still)

  -- `size_entry` answers with a quantity that meets the exchange's minimums at this price, and no
  -- reason, or with zero and a reason.
  pub size_entry-tradeable :
      (equity price : Decimal) (rules : SymbolRules) (free : Option Decimal) (q : Decimal)
      (why : Option Refusal)
      → size_entry F rc equity price rules free ≡ (q, why)
      → ((why ≡ none) × (is_tradeable rules q price ≡ true))
        ⊎ ((q ≡ zero_dec) × (is_some why ≡ true))
  unfolding size_entry min_notional
  size_entry-tradeable equity price rules free q why h = ground (arith, h)
