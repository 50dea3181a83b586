-- ===== src/Domain/Recon.antt =====
-- engine/domain/models.py: `ReconciliationState`, which gates entries and exits. Times are
-- microseconds, `max_age_seconds` is whole seconds.
use cryptoaibot.Common.{
  ◌↔◌, String, ℕ, ◌+◌, ◌*◌, ◌≤◌, ◌≡◌, Bool, true, false, ◌&&◌, ◌||◌, Option, none, some, leb, arith,
}
use cryptoaibot.Domain.Enums.{ReconciliationStatus, is_healthy, is_degraded, healthy}

pub record ReconciliationState : Type 0 where
  pub bot_instance_id : String
  pub status : ReconciliationStatus
  pub reason : String
  pub updated_at : Option ℕ
  pub last_success_at : Option ℕ
  pub ws_connected : Bool
  pub last_ws_event_at : Option ℕ
  pub last_ack_token : Option String

abbrev pub microseconds_per_second : ℕ
microseconds_per_second = 1000000

-- `(now - updated_at).total_seconds() <= max_age_seconds`
unfoldable pub is_fresh : ReconciliationState → ℕ → ℕ → Bool
is_fresh st now max_age = elim st.updated_at [
  | none ↦ false
  | some t ↦ leb now (t + max_age * microseconds_per_second)
]

unfoldable pub allows_entries : ReconciliationState → ℕ → ℕ → Bool
unfolding is_fresh
allows_entries st now max_age = is_healthy st.status && is_fresh st now max_age

unfoldable pub allows_exits : ReconciliationState → ℕ → ℕ → Bool
unfolding is_fresh
allows_exits st now max_age =
    (is_healthy st.status || is_degraded st.status) && is_fresh st now max_age

-- Where entries are allowed, exits are: risk can always be reduced where it can be taken.
entries_imply_exits :
    (st : ReconciliationState) (now max_age : ℕ)
    → allows_entries st now max_age ≡ true
    → allows_exits st now max_age ≡ true
unfolding allows_entries allows_exits
entries_imply_exits st now max_age h = ground arith

-- Entries are allowed exactly in a HEALTHY state that was written at most `max_age` seconds ago.
pub allows_entries_iff :
    (st : ReconciliationState) (now max_age : ℕ)
    → (allows_entries st now max_age ≡ true) ↔ (
        (st.status ≡ healthy)
        × ((t : ℕ) × (st.updated_at ≡ some t) × (now ≤ t + max_age * microseconds_per_second)))
unfolding allows_entries
allows_entries_iff st now max_age = ground arith
