-- ===== src/Common/Text.antt =====
-- Texts: equality of optional texts, and Python's `str` of a non-negative integer.
use Prim.Native.Nat.{ℕ, zero, suc, ◌/◌, ◌%◌}
use Prim.Native.String.{String}
use mathlib.Core.Path.{◌≡◌, refl}
use mathlib.Core.Bool.{Bool, true, false}
use mathlib.Core.Option.{Option, none, some}
use text.Mathlib.Text.{◌==◌ as str_eq}
use text.Mathlib.TextPositions.{eq_refl}
use cryptoaibot.Common.Tests.{ltb, if◌then◌else◌}

abbrev pub opt_str_eq : Option String → Option String → Bool
opt_str_eq none none = true
opt_str_eq none (some t) = false
opt_str_eq (some s) none = false
opt_str_eq (some s) (some t) = str_eq s t

-- Python's truth value of an optional text: `None` and `""` are false.
abbrev pub truthy : Option String → Bool
truthy none = false
truthy (some s) = if str_eq s "" then false else true

pub str_eq_refl : (s : String) → str_eq s s ≡ true
str_eq_refl s = eq_refl s

-- The last decimal digit.
abbrev digit : ℕ → String
digit zero = "0"
digit (suc zero) = "1"
digit (suc (suc zero)) = "2"
digit (suc (suc (suc zero))) = "3"
digit (suc (suc (suc (suc zero)))) = "4"
digit (suc (suc (suc (suc (suc zero))))) = "5"
digit (suc (suc (suc (suc (suc (suc zero)))))) = "6"
digit (suc (suc (suc (suc (suc (suc (suc zero))))))) = "7"
digit (suc (suc (suc (suc (suc (suc (suc (suc zero)))))))) = "8"
digit (suc (suc (suc (suc (suc (suc (suc (suc (suc n))))))))) = "9"

show_from : ℕ → ℕ → String
show_from zero n = ""
show_from (suc fuel) n =
    let more = Prim.Native.String.◌++◌ (show_from fuel (n / 10)) (digit (n % 10)) in
    if ltb n 10 then digit n else more

-- `str(n)`; a number has at most as many digits as its value plus one.
unfoldable pub show : ℕ → String
unfolding show_from
show n = show_from (suc n) n

show_1205 : show 1205 ≡ "1205"
unfolding show
show_1205 = refl
