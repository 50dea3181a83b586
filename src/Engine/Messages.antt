-- ===== src/Engine/Messages.antt =====
-- engine/application/outbox.py: the payloads and `enqueue_event`.
use cryptoaibot.Common.{String, ◌<>◌, Bool, Option}
use cryptoaibot.Exec.{pure, gets, when, ◌>>=◌, ◌>>◌}
use cryptoaibot.Domain.Enums.{MismatchSeverity, info, warning, critical}
use cryptoaibot.Domain.Order.{Order}
use cryptoaibot.Domain.Position.{Fill, Position}
use cryptoaibot.Store.Tables.{Action, Kind, Payload, OrderPayload, FillPayload, PositionPayload}
use cryptoaibot.Store.Outbox.{enqueue}

unfoldable pub order_payload : Order → Option String → OrderPayload
order_payload o signal = record {
  client_order_id = o.client_order_id;
  client_intent_id = o.client_intent_id;
  exchange_order_id = o.exchange_order_id;
  exchange = o.exchange;
  symbol = o.symbol;
  side = o.side;
  order_type = o.order_type;
  purpose = o.purpose;
  status = o.status;
  requested_quantity = o.requested_quantity;
  executed_quantity = o.executed_quantity;
  cumulative_quote_quantity = o.cumulative_quote_quantity;
  average_fill_price = o.average_fill_price;
  limit_price = o.limit_price;
  stop_price = o.stop_price;
  submission_ambiguous = o.submission_ambiguous;
  reject_reason = o.reject_reason;
  submitted_at = o.submitted_at;
  acknowledged_at = o.acknowledged_at;
  last_exchange_update_at = o.last_exchange_update_at;
  terminal_at = o.terminal_at;
  version = o.version;
  signal_id = signal;
}

unfoldable pub fill_payload : Fill → FillPayload
fill_payload f = record {
  event_key = f.event_key;
  client_order_id = f.client_order_id;
  exchange_trade_id = f.exchange_trade_id;
  symbol = f.symbol;
  side = f.side;
  quantity = f.quantity;
  price = f.price;
  quote_quantity = f.quote_quantity;
  commission = f.commission;
  commission_asset = f.commission_asset;
  execution_time = f.execution_time;
}

unfoldable pub position_payload : Position → PositionPayload
position_payload p = record {
  symbol = p.symbol;
  side = p.side;
  quantity = p.quantity;
  average_entry_price = p.average_entry_price;
  realized_pnl = p.realized_pnl;
  unrealized_pnl = p.unrealized_pnl;
  last_mark_price = p.last_mark_price;
  stop_price = p.stop_price;
  opened_at = p.opened_at;
  updated_at = p.updated_at;
}

abbrev pub severity_value : MismatchSeverity → String
severity_value info = "INFO"
severity_value warning = "WARNING"
severity_value critical = "CRITICAL"

-- `enqueue_event`, as the services call it: with a key. An alert also goes to Telegram.
unfoldable pub enqueue_event :
    String → String → String → MismatchSeverity → String → Bool → Action (Unit {0})
enqueue_event bot event_type message severity key alert = do
  now ← gets (λ w. w.now)
  enqueue Kind.events key (
      Payload.event (record {
        event_type = event_type;
        severity = severity;
        message = message;
        occurred_at = now;
      }))
  when alert do
    enqueue Kind.telegram ("tg:" <> key) (
        Payload.telegram
          ("[" <> bot <> "] " <> severity_value severity <> " " <> event_type <> ": " <> message))
    pure tt
