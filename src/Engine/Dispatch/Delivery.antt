-- ===== src/Engine/Dispatch/Delivery.antt =====
-- engine/application/outbox.py, `OutboxDispatcher.flush`: two dispatchers, failures, the delay.
use cryptoaibot.Common.{
  String, ℕ, zero, suc, ◌+◌, ◌*◌, ◌^◌, ◌≤◌, ◌<◌, min, ◌≡◌, refl, true, false, str_eq, arith,
}
use cryptoaibot.Exec.{ok, ◌>>=◌}
use cryptoaibot.Domain.Recon.{microseconds_per_second}
use cryptoaibot.Store.Tables.{World}
use cryptoaibot.Store.Leases.{acquire_lease}
use cryptoaibot.Store.Leases.Exclusion.{acquire_lease_excludes}
use cryptoaibot.Engine.Dispatch.{lease_name, lease_ttl_seconds, delay, Outside, flush_held, flush}

power_le : (n : ℕ) → n ≤ 9 → (1 ≤ 2 ^ n) × (2 ^ n ≤ 512)
power_le zero h = omega arith
power_le (suc zero) h = omega arith
power_le (suc (suc zero)) h = omega arith
power_le (suc (suc (suc zero))) h = omega arith
power_le (suc (suc (suc (suc zero)))) h = omega arith
power_le (suc (suc (suc (suc (suc zero))))) h = omega arith
power_le (suc (suc (suc (suc (suc (suc zero)))))) h = omega arith
power_le (suc (suc (suc (suc (suc (suc (suc zero))))))) h = omega arith
power_le (suc (suc (suc (suc (suc (suc (suc (suc zero)))))))) h = omega arith
power_le (suc (suc (suc (suc (suc (suc (suc (suc (suc zero))))))))) h = omega arith
power_le (suc (suc (suc (suc (suc (suc (suc (suc (suc (suc n)))))))))) h = omega arith

-- The delay before a message is tried again is between 1 and 512 seconds, whatever the number of
-- attempts, and is 512 seconds from the ninth on: the cap of 600 seconds is never reached.
delay_bounds :
    (attempts : ℕ) → (1 ≤ delay attempts) × (delay attempts ≤ 512) × (delay (attempts + 9) ≡ 512)
unfolding delay
delay_bounds attempts =
    let (low, high) = power_le (min attempts 9) (omega arith) in
    let nine : min (attempts + 9) 9 ≡ 9 = omega arith in
    (omega (arith, low, high), omega (arith, low, high), rw nine refl)

module _ (out : Outside) (max_attempts : ℕ) (owner : String) where
  -- While one dispatcher's lease runs, another one that flushes sends nothing and changes nothing.
  pub flush_excludes :
      (other : String) (limit : ℕ) (w v : World)
      → (acquire_lease lease_name owner lease_ttl_seconds w).0 ≡ ok true
      → v.db.leases ≡ (acquire_lease lease_name owner lease_ttl_seconds w).1.db.leases
      → str_eq owner other ≡ false
      → v.now < w.now + lease_ttl_seconds * microseconds_per_second
      → flush out max_attempts other limit v ≡ (ok 0, v)
  unfolding flush flush_held ◌>>=◌
  flush_excludes other limit w v acquired same different early =
      rw
        (acquire_lease_excludes lease_name owner other lease_ttl_seconds lease_ttl_seconds w v
          acquired same different early)
        refl
