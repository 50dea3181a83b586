-- ===== src/Store/Transaction.antt =====
-- engine/infrastructure/store.py: `transaction`, re-entrant within a thread. Only the outermost one
-- begins, commits and rolls back; BEGIN IMMEDIATE serializes the writers, so a transaction runs alone.
use cryptoaibot.Common.{◌+◌, ◌≡◌, Bool, not, arith, ◌==◌, if◌then◌else◌}
use cryptoaibot.Exec.{Result, ok, err, Error}
use cryptoaibot.Store.Tables.{World, Action}

unfoldable pub in_transaction : World → Bool
in_transaction w = not (w.depth == 0)

module _ {A : Type 0} where
  abbrev pub leave : World → Result A × World → Result A × World
  leave w (ok a, w') = (ok a, record w' { depth = w.depth })
  leave w (err e, w') =
      (err e, record w' { depth = w.depth; db = if w.depth == 0 then w.db else w'.db })

  unfoldable pub transaction : Action A → Action A
  transaction m w = leave w (m (record w { depth = w.depth + 1 }))

  leave_atomic :
      (w : World) (p : Result A × World) (e : Error)
      → w.depth ≡ 0
      → (leave w p).0 ≡ err e
      → ((leave w p).1.db ≡ w.db) × ((leave w p).1.depth ≡ 0)
  leave_atomic w (ok a, w') e top raised = cc
  leave_atomic w (err e', w') e top raised = (ground arith, top)

  -- An outermost transaction that raises leaves the ledger as it was before, whatever was written
  -- inside it, nested transactions included, and is no longer open.
  pub transaction_atomic :
      (m : Action A) (w : World) (e : Error)
      → w.depth ≡ 0
      → (transaction m w).0 ≡ err e
      → ((transaction m w).1.db ≡ w.db) × ((transaction m w).1.depth ≡ 0)
  unfolding transaction
  transaction_atomic m w = leave_atomic w (m (record w { depth = w.depth + 1 }))
