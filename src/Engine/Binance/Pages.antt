-- ===== src/Engine/Binance/Pages.antt =====
-- engine/execution/binance.py: `recent_fills`, against an exchange that serves a list of trades in the
-- order of their ids.
use cryptoaibot.Common.{
  String, ◌≡◌, refl, sym, ap, subst, ◌∙◌, ℕ, zero, suc, ◌+◌, ◌*◌, ◌≤◌, ◌<◌, true, false, some, List,
  [], ◌∷◌, ◌++◌, arith, take, drop, length, select, leb, ltb, take-append-drop, take-short,
  append_assoc, Bool-cases, inl, inr, if◌then◌else◌, length-append, length-take-le,
}
use cryptoaibot.Exec.{runtime_error, Result, ok, err, ◌>>=◌}
use cryptoaibot.Engine.Executor.{Desk}
use cryptoaibot.Engine.Normalizer.{RawTrade, to_exchange}
use cryptoaibot.Engine.Binance.{Binance, from_id, since, last, more_pages, recent_rows}

some-injective : {a b : RawTrade} → some a ≡ some b → a ≡ b
some-injective h = cc h

ltb-true : (m n : ℕ) → m < n → ltb m n ≡ true
ltb-true m n h = ground (arith, h)

ltb-false : (m n : ℕ) → n ≤ m → ltb m n ≡ false
ltb-false m n h = ground (arith, h)

ltb_shift : (c m n p q : ℕ) → p ≡ c + m → q ≡ c + n → ltb m n ≡ ltb p q
ltb_shift c m n p q hp hq = ground (arith, hp, hq)

mul_suc : (m n : ℕ) → m * suc n ≡ m + m * n
mul_suc m n = omega arith

-- A page that is not empty ends.
last-some : (ts : List RawTrade) → 0 < length ts → (end : RawTrade) × (last ts ≡ some end)
last-some [] h = absurd (omega (arith, h))
last-some (t ∷ []) h = (t, refl)
last-some (t ∷ u ∷ ts) h = last-some (u ∷ ts) (omega arith)

module _ (b : Binance) where
  abbrev number : RawTrade → ℕ
  number t = b.trade_number t.trade_id

  -- The trades with at least this id.
  abbrev pub trades_from : ℕ → List RawTrade → List RawTrade
  trades_from k ts = select (λ t. leb k (b.trade_number t.trade_id)) ts

  -- The ids increase, from `k` on.
  abbrev pub IsAscending : ℕ → List RawTrade → Type 0
  IsAscending k [] = Unit {0}
  IsAscending k (t ∷ ts) =
      (k ≤ b.trade_number t.trade_id) × IsAscending (b.trade_number t.trade_id + 1) ts

  trades_from-all :
      (j k : ℕ) (ts : List RawTrade) → j ≤ k → IsAscending k ts → trades_from j ts ≡ ts
  unfolding select
  trades_from-all j k [] le up = refl
  trades_from-all j k (t ∷ ts) le (at, up) =
      ground (arith, le, at, trades_from-all j (number t + 1) ts (omega (arith, le, at)) up)

  -- What is served from `j` on increases from `j`, and from `k` where the whole list does.
  trades_from-IsAscending :
      (j k : ℕ) (ts : List RawTrade) → IsAscending k ts → IsAscending j (trades_from j ts)
  unfolding select
  trades_from-IsAscending j k [] up = tt
  trades_from-IsAscending j k (t ∷ ts) (at, up) = elim (Bool-cases (leb j (number t))) [
    | inr below ↦ rw below (trades_from-IsAscending j (number t + 1) ts up)
    | inl reached ↦
        rw (reached, trades_from-all j (number t + 1) ts (ground (arith, reached)) up)
          (ground (arith, reached), up)
  ]

  -- Asking from further on is asking the trades that were served.
  trades_from-twice :
      (j k : ℕ) (ts : List RawTrade) → k ≤ j → trades_from j (trades_from k ts) ≡ trades_from j ts
  unfolding select
  trades_from-twice j k [] le = refl
  trades_from-twice j k (t ∷ ts) le = ground (arith, le, trades_from-twice j k ts le)

  -- After a full page, the trades from the next id on are the rest.
  trades_from-page :
      (n k : ℕ) (ts : List RawTrade) (end : RawTrade)
      → IsAscending k ts
      → last (take n ts) ≡ some end
      → (k ≤ number end) × (trades_from (number end + 1) ts ≡ drop n ts)
  unfolding select
  trades_from-page zero k ts end up at = cc
  trades_from-page (suc n) k [] end up at = cc
  trades_from-page (suc zero) k (t ∷ ts) end (le, up) at =
      subst (λ e. (k ≤ number e) × (trades_from (number e + 1) (t ∷ ts) ≡ ts)) (some-injective at)
        (le, ground (arith, trades_from-all (number t + 1) (number t + 1) ts (omega arith) up))
  trades_from-page (suc (suc n)) k (t ∷ []) end (le, up) at =
      rw (sym (some-injective at)) (le, ground arith)
  trades_from-page (suc (suc n)) k (t ∷ u ∷ ts) end (le, up) at =
      let (above, rest) = trades_from-page (suc n) (number t + 1) (u ∷ ts) end up at in
      (omega (arith, le, above), ground (arith, above, rest))

  -- The exchange serves the list `book`, in pages, and `after` is what a request leaves.
  module _ (exch : String) (limit : ℕ) (book : List RawTrade) (after : Desk → Desk)
      (ordered : IsAscending 0 book)
      (serves : (k now : ℕ) (d : Desk)
        → b.rest.my_trades exch (from_id k) limit now d
          ≡ (ok (take limit (trades_from k book)), after d)) where
    -- All the trades that are left, unless they fill every page that may be asked for.
    abbrev paged : ℕ → List RawTrade → List RawTrade → Result (List RawTrade)
    paged left pre ts =
        if ltb (length ts) (limit + limit * left)
        then ok (pre ++ ts)
        else err (runtime_error "recent_fills exceeded the pages; widen reconciliation cadence")

    length-page : (ts : List RawTrade) → length (take limit ts) + length (drop limit ts) ≡ length ts
    length-page ts =
        sym (length-append (take limit ts) (drop limit ts)) ∙ ap length (take-append-drop limit ts)

    page_length :
        (ts : List RawTrade) → limit ≤ length (take limit ts) → length (take limit ts) ≡ limit
    page_length ts full = omega (arith, full, length-take-le limit ts)

    paged-short :
        (left : ℕ) (pre ts : List RawTrade)
        → length (take limit ts) < limit
        → ok (pre ++ take limit ts) ≡ paged left pre ts
    paged-short left pre ts short =
        let whole = take-short limit ts short in
        let few = ap length whole in
        rw (whole, ltb-true (length ts) (limit + limit * left) (omega (arith, short, few))) refl

    -- A full page, and what pages there are for the rest.
    paged-page :
        (left : ℕ) (pre ts : List RawTrade)
        → length (take limit ts) ≡ limit
        → paged left (pre ++ take limit ts) (drop limit ts) ≡ paged (suc left) pre ts
    paged-page left pre ts full =
        let parts = length-page ts in
        let same =
          ltb_shift limit (length (drop limit ts)) (limit + limit * left) (length ts)
            (limit + limit * suc left) (omega (arith, parts, full))
            (ap (λ n. limit + n) (mul_suc limit left)) in
        rw (append_assoc pre (take limit ts) (drop limit ts), take-append-drop limit ts, same) refl

    paged-full :
        (pre ts : List RawTrade)
        → limit ≤ length (take limit ts)
        → err (runtime_error "recent_fills exceeded the pages; widen reconciliation cadence")
          ≡ paged 0 pre ts
    paged-full pre ts full =
        let parts = length-page ts in
        rw (ltb-false (length ts) (limit + limit * 0) (omega (arith, parts, full))) refl

    -- The trades after a page are the rest of those that were served.
    next_trades :
        (k : ℕ) (end : RawTrade)
        → last (take limit (trades_from k book)) ≡ some end
        → trades_from (number end + 1) book ≡ drop limit (trades_from k book)
    next_trades k end at =
        let page =
          trades_from-page limit k (trades_from k book) end
            (trades_from-IsAscending k 0 book ordered) at in
        sym (trades_from-twice (number end + 1) k book (omega (arith, page.0))) ∙ page.1

    more_pages-served :
        (left k now : ℕ) (pre : List RawTrade) (d : Desk)
        → 0 < limit
        → (more_pages b exch limit left
            (take limit (trades_from k book))
            (pre ++ take limit (trades_from k book))
            now
            d).0
          ≡ paged left pre (trades_from k book)
    unfolding more_pages ◌>>=◌
    more_pages-served zero k now pre d some_page =
        let xs = trades_from k book in
        elim (Bool-cases (leb limit (length (take limit xs)))) [
          | inr short ↦ rw short (paged-short 0 pre xs (ground (arith, short)))
          | inl full ↦ rw full (paged-full pre xs (ground (arith, full)))
        ]
    more_pages-served (suc left) k now pre d some_page =
        let xs = trades_from k book in
        elim (Bool-cases (leb limit (length (take limit xs)))) [
          | inr short ↦ rw short (paged-short (suc left) pre xs (ground (arith, short)))
          | inl full ↦
              let (end, at) = last-some (take limit xs) (ground (arith, full, some_page)) in
              rw (full, at, serves (number end + 1) now d)
                (more_pages-served left (number end + 1) now (pre ++ take limit xs) (after d)
                    some_page
                  ∙ ap (paged left (pre ++ take limit xs)) (next_trades k end at)
                  ∙ paged-page left pre xs (page_length xs (ground (arith, full))))
        ]

    -- `recent_fills` reads by pages, and never cuts the result short: of an exchange that serves its trades in
    -- the order of their ids, from the id `first` on at the time given, it returns all of them, as long as
    -- they do not fill every page that may be asked for; otherwise it raises.
    pub recent_rows_complete :
        (symbol : String) (since_ms first left now : ℕ) (d : Desk)
        → to_exchange symbol ≡ exch
        → 0 < limit
        → b.rest.my_trades exch (since since_ms) limit now d
          ≡ (ok (take limit (trades_from first book)), after d)
        → (recent_rows b symbol since_ms limit left now d).0 ≡ (
            if ltb (length (trades_from first book)) (limit + limit * left)
            then ok (trades_from first book)
            else err
                (runtime_error "recent_fills exceeded the pages; widen reconciliation cadence"))
    unfolding recent_rows ◌>>=◌
    recent_rows_complete symbol since_ms first left now d named some_page opening =
        rw (named, opening) (more_pages-served left first now [] (after d) some_page)
