-- ===== src/Domain/Order/Transitions.antt =====
-- engine/domain/models.py: the table of transitions and the ranks.
use cryptoaibot.Common.{◌<◌, ◌≡◌, ◌⊎◌, true, false, arith, ℕ, Option, String}
use cryptoaibot.Exec.{ok}
use cryptoaibot.Domain.Enums.{OrderStatus, is_terminal, status_eq_iff}
use cryptoaibot.Domain.Order.{
  Order, can_transition, rank, transition, moves_forward, contradicts, was_not_found,
  mark_submitting,
}

-- An allowed transition goes up in rank and starts in a state that is not terminal.
pub can_transition-forward :
    (a b : OrderStatus) → can_transition a b ≡ true → (rank a < rank b) × (is_terminal a ≡ false)
unfolding can_transition rank
can_transition-forward a b h = ground arith

-- The effect of `_transition`: the status is the new one, and was it, or the table allows the step.
pub transition_ok :
    (s : OrderStatus) (now : ℕ) (o o' : Order)
    → transition s now o ≡ ok o'
    → (o'.status ≡ s) × ((o.status ≡ s) ⊎ (can_transition o.status s ≡ true))
unfolding transition
transition_ok s now o o' h = ground (arith, status_eq_iff s o.status)

-- A forward move is one of the table's steps.
pub moves_forward-step :
    (a b : OrderStatus)
    → moves_forward a b ≡ true
    → (rank a < rank b) × (is_terminal a ≡ false) × (can_transition a b ≡ true)
unfolding moves_forward
moves_forward-step a b h = ground (arith, can_transition-forward a b)

-- A status neither moves to itself nor contradicts itself.
pub moves_forward_irrefl : (a : OrderStatus) → moves_forward a a ≡ false
unfolding moves_forward
moves_forward_irrefl a = ground (arith, status_eq_iff a a)

pub contradicts_irrefl : (a : OrderStatus) → contradicts a a ≡ false
unfolding contradicts
contradicts_irrefl a = ground (arith, status_eq_iff a a)

pub was_not_found_irrefl : (a : OrderStatus) (m : Option String) → was_not_found a m a ≡ false
unfolding was_not_found
was_not_found_irrefl a m = ground arith

pub mark_submitting-purpose :
    (now : ℕ) (o o' : Order) → mark_submitting now o ≡ ok o' → o'.purpose ≡ o.purpose
unfolding mark_submitting transition
mark_submitting-purpose now o o' h = ground (arith, h)
