-- ===== src/DealStats/Totals.antt =====
-- The totals of a completed pass, against the deals that it received.
use heyfil.Base.{
  count_if, count_if-true, if◌then◌else◌, length, ℕ, ◌+◌, ◌^◌, ◌<◌, ◌≡◌, refl, ap, ◌∙◌, Bool, true,
  ◌&&◌, List, [], ◌∷◌, arith,
}
use heyfil.Base.Int.{int_eq, ℤ, pos, add64_pos}
use heyfil.DealStats.Meaning.{
  AllNear, is_live, starts_after, is_counted-is_live, count-starts_after,
}
use heyfil.DealStats.Counts.{deals, take_all, scan-completed}
use heyfil.DealStats.{
  StateMarketDeal, Tally, empty_tally, is_within, add_if, count_deal, take_deal, Received,
  completed, scan, fil_epoch_day, fil_epoch_week,
}
use heyfil.Deal.{StateMarketDeal}

-- One total: how it grows with a deal.
record IsTotal (current : ℤ) (taken : StateMarketDeal → Bool) (read : Tally → ℤ) : Type 0 where
  start : read empty_tally ≡ pos 0
  grows :
      (d : StateMarketDeal) (t : Tally)
      → read (take_deal current d t) ≡ add_if (is_live current d && taken d) (pos 1) (read t)

all-IsTotal : (current : ℤ) → IsTotal current (λ d. true) (λ t. t.total_deal_count)
unfolding take_deal count_deal add_if
all-IsTotal current = record {
  start = refl;
  grows = λ d t. ground (arith, is_counted-is_live current d);
}

day-IsTotal :
    (current : ℤ)
    → IsTotal current (is_within fil_epoch_day current) (λ t. t.total_deal_count_within_day)
unfolding take_deal count_deal add_if
day-IsTotal current = record {
  start = refl;
  grows = λ d t. ground (arith, is_counted-is_live current d);
}

week-IsTotal :
    (current : ℤ)
    → IsTotal current (is_within fil_epoch_week current) (λ t. t.total_deal_count_within_week)
unfolding take_deal count_deal add_if
week-IsTotal current = record {
  start = refl;
  grows = λ d t. ground (arith, is_counted-is_live current d);
}

module _ {current : ℤ} {taken : StateMarketDeal → Bool} {read : Tally → ℤ}
    (total : IsTotal current taken read) where
  abbrev selected : StateMarketDeal → Bool
  selected d = is_live current d && taken d

  read-take_all :
      (ds : List StateMarketDeal) (t : Tally) (n : ℕ)
      → n + length ds < 2 ^ 63
      → read t ≡ pos n
      → read (take_all current ds t) ≡ pos (n + count_if selected ds)
  unfolding take_all add_if
  read-take_all [] t n small e = e ∙ ap pos (omega arith)
  read-take_all (d ∷ ds) t n small e =
      let grown : read (take_deal current d t) ≡ pos (n + (if selected d then 1 else 0)) =
        total.grows d t ∙ ground (arith, e, add64_pos n 1) in
      read-take_all ds (take_deal current d t) (n + (if selected d then 1 else 0)) (ground arith)
        grown
      ∙ ap pos (ground arith)

  read-scan :
      (rs : List Received) (t : Tally)
      → length (deals rs) < 2 ^ 63
      → scan current rs empty_tally ≡ completed t
      → read t ≡ pos (count_if selected (deals rs))
  read-scan rs t small e =
      rw (scan-completed current rs empty_tally t e)
        (read-take_all (deals rs) empty_tally 0 (omega arith) total.start ∙ ap pos (omega arith))

-- A completed pass over fewer than 2^63 deals leaves as its totals the number of live deals, and, if
-- all deals are near, of those of them that start after a day and after a week before the height.
pub totals-scan :
    (current : ℤ) (rs : List Received) (t : Tally)
    → length (deals rs) < 2 ^ 63
    → scan current rs empty_tally ≡ completed t
    → (t.total_deal_count ≡ pos (count_if (is_live current) (deals rs)))
      × (AllNear current (deals rs)
          → (t.total_deal_count_within_day
              ≡ pos (count_if (λ d. is_live current d && starts_after 2880 current d) (deals rs)))
            × (t.total_deal_count_within_week
                ≡ pos
                    (count_if (λ d. is_live current d && starts_after 20160 current d) (deals rs))))
totals-scan current rs t small e = (
  read-scan (all-IsTotal current) rs t small e ∙ ap pos (count_if-true _ (deals rs)),
  λ near. (
    read-scan (day-IsTotal current) rs t small e
        ∙ ap pos (count-starts_after fil_epoch_day current (is_live current) (deals rs) near),
    read-scan (week-IsTotal current) rs t small e
        ∙ ap pos (count-starts_after fil_epoch_week current (is_live current) (deals rs) near),
  ),
)
