-- ===== src/Store/Kv.antt =====
-- engine/infrastructure/store.py: `kv`. A value keeps its type here; the code writes it as JSON, in which
-- a Decimal or a time is a text, and what reads it takes or converts the text.
use cryptoaibot.Common.{
  ◌≡◌, refl, String, Option, none, some, List, [], ◌∷◌, str_eq, eq_iff, arith, if◌then◌else◌,
}
use cryptoaibot.Exec.{ok}
use cryptoaibot.Store.Tables.{Action, KvValue}
use cryptoaibot.Store.Transaction.{transaction}

unfoldable pub kv_get : String → List (String × KvValue) → Option KvValue
kv_get key [] = none
kv_get key ((k, v) ∷ kv) = if str_eq k key then some v else kv_get key kv

unfoldable pub kv_put : String → KvValue → List (String × KvValue) → List (String × KvValue)
kv_put key v [] = (key, v) ∷ []
kv_put key v ((k, u) ∷ kv) = if str_eq k key then (key, v) ∷ kv else (k, u) ∷ kv_put key v kv

-- The store of keys is a map: after a write, a key reads as what was written for it, and every other
-- key reads as before.
pub kv_get-kv_put :
    (key : String) (v : KvValue) (kv : List (String × KvValue)) (k : String)
    → kv_get k (kv_put key v kv) ≡ (if str_eq key k then some v else kv_get k kv)
unfolding kv_get kv_put
kv_get-kv_put key v [] k = refl
kv_get-kv_put key v ((j, u) ∷ kv) k =
    ground (arith, eq_iff j key, eq_iff key k, eq_iff j k, kv_get-kv_put key v kv k)

unfoldable pub kv_set : String → KvValue → Action (Unit {0})
kv_set key v =
    transaction (λ w. (ok tt, record w { db = record w.db { kv = kv_put key v w.db.kv } }))
