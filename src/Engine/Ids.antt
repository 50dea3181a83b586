-- ===== src/Engine/Ids.antt =====
-- engine/domain/models.py: `make_client_order_id`, and the prefix by which stream ingestion and
-- reconciliation recognise the bot's own orders.
use Prim.Native.Char.{Char, code}
use Prim.Native.String.append
use text.Mathlib.TextEquality.{starts_with_iff}
use text.Mathlib.TextPositions.{starts_with-append}
use cryptoaibot.Common.{
  String, ◌<>◌, ℕ, zero, suc, ◌+◌, ◌-◌, ◌≤◌, ◌≡◌, refl, ap, Bool-cases, inl, inr, Bool, true, false,
  arith, str_eq, starts_with, if◌then◌else◌, eq_iff,
}
use cryptoaibot.Engine.Config.{Platform}

-- The number of characters of a text, `s[:n]`, and the characters that pass a test.
unfoldable pub len : String → ℕ
len String.[] = 0
len (String.◌∷◌ c s) = suc (len s)

unfoldable pub take_chars : ℕ → String → String
take_chars zero s = ""
take_chars (suc n) String.[] = ""
take_chars (suc n) (String.◌∷◌ c s) = String.◌∷◌ c (take_chars n s)

unfoldable pub filter_chars : (Char → Bool) → String → String
filter_chars p String.[] = ""
filter_chars p (String.◌∷◌ c s) =
    let rest = filter_chars p s in if p c then String.◌∷◌ c rest else rest

len-take_chars : (n : ℕ) (s : String) → len (take_chars n s) ≤ n
unfolding len take_chars
len-take_chars zero s = omega arith
len-take_chars (suc n) String.[] = omega arith
len-take_chars (suc n) (String.◌∷◌ c s) = omega (arith, len-take_chars n s)

len-append : (s t : String) → len (s <> t) ≡ len s + len t
unfolding len
len-append String.[] t = rw append.nil (omega arith)
len-append (String.◌∷◌ c s) t = rw append.cons (omega (arith, len-append s t))

abbrev or_cb : String → String
or_cb s = if str_eq s "" then "cb" else s

len-or_cb : (s : String) → len s ≤ 8 → len (or_cb s) ≤ 8
unfolding len
len-or_cb s h = elim (Bool-cases (str_eq s "")) [
  | inl empty ↦ rw empty (omega arith)
  | inr named ↦ rw named h
]

len_dash : len "-" ≡ 1
unfolding len
len_dash = refl

first : String → ℕ
first String.[] = 0
first (String.◌∷◌ c s) = code c

first-append : (c : Char) (s t : String) → first (String.◌∷◌ c s <> t) ≡ code c
unfolding first
first-append c s t = rw append.cons

other_first : (u t : String) → "-" <> u ≡ "cb-" <> t → ⊥
other_first u t e = absurd (omega (arith, dash, letter, ap first e))
  where
    dash : first ("-" <> u) ≡ 45
    dash = first-append "-" "" u

    letter : first ("cb-" <> t) ≡ 99
    letter = first-append "c" "b-" t

module _ (py : Platform) where
  -- `"".join(ch for ch in prefix if ch.isalnum())[:8]`
  unfoldable pub safe_prefix : String → String
  safe_prefix prefix = take_chars 8 (filter_chars py.is_alnum prefix)

  unfoldable pub make_client_order_id : String → String → String
  make_client_order_id prefix intent =
      let s = or_cb (safe_prefix prefix) in
      (s <> "-") <> take_chars (35 - len s) (py.sha256_hex intent)

  -- `self.prefix` of stream_ingestion.py, `prefix` of reconciliation_service.py
  unfoldable pub own_prefix : String → String
  own_prefix prefix = safe_prefix prefix <> "-"

  -- A client order id has at most 36 characters, whatever the prefix and the digest.
  pub make_client_order_id_fits :
      (prefix intent : String) → len (make_client_order_id prefix intent) ≤ 36
  unfolding make_client_order_id safe_prefix
  make_client_order_id_fits prefix intent =
      let s = or_cb (safe_prefix prefix) in
      let digest = take_chars (35 - len s) (py.sha256_hex intent) in
      omega (
        arith,
        len-append (s <> "-") digest,
        len-append s "-",
        len_dash,
        len-or_cb (safe_prefix prefix) (len-take_chars 8 (filter_chars py.is_alnum prefix)),
        len-take_chars (35 - len s) (py.sha256_hex intent),
      )

  -- The bot's own orders carry the prefix by which they are recognised, if any character of the
  -- configured prefix is a letter or digit.
  pub own_orders_recognised :
      (prefix intent : String)
      → str_eq (safe_prefix prefix) "" ≡ false
      → starts_with (make_client_order_id prefix intent) (own_prefix prefix) ≡ true
  unfolding make_client_order_id own_prefix
  own_orders_recognised prefix intent h = rw h (starts_with-append (safe_prefix prefix <> "-") _)

  -- Otherwise the ids begin with "cb-" and are looked for under "-": no own order is recognised.
  pub own_orders_missed :
      (prefix intent : String)
      → str_eq (safe_prefix prefix) "" ≡ true
      → starts_with (make_client_order_id prefix intent) (own_prefix prefix) ≡ false
  unfolding make_client_order_id own_prefix len
  own_orders_missed prefix intent h =
      rw ((eq_iff (safe_prefix prefix) "").0 h)
        (elim (Bool-cases (starts_with ("cb-" <> digest) "-")) [
          | inl found ↦
              let (rest, e) = (starts_with_iff ("cb-" <> digest) "-").0 found in
              absurd (other_first rest digest e)
          | inr missed ↦ missed
        ])
    where
      digest : String
      digest = take_chars 33 (py.sha256_hex intent)
