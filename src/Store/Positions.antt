-- ===== src/Store/Positions.antt =====
-- engine/infrastructure/store.py: `positions`.
use cryptoaibot.Common.{
  String, Bool, ◌&&◌, Option, none, some, List, [], ◌∷◌, str_eq, if◌then◌else◌, find, select, map,
}
use cryptoaibot.Exec.{ok}
use cryptoaibot.Domain.Position.{Position, flat_position}
use cryptoaibot.Store.Tables.{Database, Action}
use cryptoaibot.Store.Transaction.{transaction}

unfoldable pub has_key : String → String → Position → Bool
has_key bot symbol p = str_eq p.bot_instance_id bot && str_eq p.symbol symbol

abbrev or_flat : String → String → Option Position → Position
or_flat bot symbol none = flat_position bot symbol
or_flat bot symbol (some p) = p

-- `get_position`: a position with no row is flat.
unfoldable pub get_position : String → String → Database → Position
get_position bot symbol d = or_flat bot symbol (find (has_key bot symbol) d.positions)

-- `INSERT ... ON CONFLICT(bot_instance_id, symbol) DO UPDATE`
unfoldable pub upsert : Position → List Position → List Position
upsert p [] = p ∷ []
upsert p (q ∷ qs) = if has_key p.bot_instance_id p.symbol q then p ∷ qs else q ∷ upsert p qs

-- `save_position` stamps `updated_at`, and the caller's object with it.
unfoldable pub upsert_position : Position → Action Position
upsert_position p w =
    let stamped = record p { updated_at = some w.now } in
    (ok stamped, record w { db = record w.db { positions = upsert stamped w.db.positions } })

unfoldable pub save_position : Position → Action Position
save_position p = transaction (upsert_position p)

unfoldable pub positions : String → Database → List Position
positions bot d =
    map (λ p. get_position bot p.symbol d) (select (λ p. str_eq p.bot_instance_id bot) d.positions)
