-- ===== src/DealStats/Counts.antt =====
-- The counts of a completed pass, against the deals that it received.
use heyfil.Base.{
  count_if, count_if-true, count_if_mono, if◌then◌else◌, Bool-cases, Option-cases, length, ◌==◌,
  nat_eq, string_eq, beq_iff, ℕ, ◌+◌, ◌^◌, ◌≤◌, ◌<◌, String, ◌≡◌, refl, ap, ◌∙◌, inl, inr, Bool,
  true, ◌&&◌, Option, none, some, List, [], ◌∷◌, arith,
}
use heyfil.Base.Int.{int_eq, ◌≤ℤ◌, ℤ, pos, add64_pos}
use heyfil.Base.Dict.{lookup-nil, lookup-insert}
use heyfil.DealStats.Meaning.{
  AllNear, is_live, starts_after, is_counted-is_live, count-starts_after,
}
use heyfil.DealCounts.{no_deals, DealCounts, get_deal_counts}
use heyfil.Deal.{StateMarketDeal}
use heyfil.DealStats.{
  Tally, empty_tally, is_within, add_if, add_deal, count_deal, take_deal, Received, cancelled,
  deal_result, completed, scan, fil_epoch_day, fil_epoch_week,
}

-- The deals among what was received.
abbrev deal_of : Option StateMarketDeal → List StateMarketDeal → List StateMarketDeal
deal_of none ds = ds
deal_of (some d) ds = d ∷ ds

abbrev pub deals : List Received → List StateMarketDeal
deals [] = []
deals (cancelled x ∷ rest) = deals rest
deals (deal_result r ∷ rest) = deal_of r.deal (deals rest)

-- One deal after another, with no errors.
unfoldable pub take_all : ℤ → List StateMarketDeal → Tally → Tally
take_all current [] t = t
take_all current (d ∷ ds) t = take_all current ds (take_deal current d t)

-- A pass completes with the tally of all deals that it received.
pub scan-completed :
    (current : ℤ) (rs : List Received) (t t' : Tally)
    → scan current rs t ≡ completed t'
    → t' ≡ take_all current (deals rs) t
unfolding scan take_all
scan-completed current [] t t' e = cc
scan-completed current (cancelled x ∷ rs) t t' e = cc
scan-completed current (deal_result r ∷ rs) t t' e = elim (Option-cases r.error) [
  | inr (x, f) ↦ cc (rw (f, scan) at e)
  | inl f ↦ elim (Option-cases r.deal) [
    | inl g ↦ cc (rw (f, g, scan) at e)
    | inr (d, g) ↦
        rw g (scan-completed current rs (take_deal current d t) t' (rw (f, g, scan) at e))
  ]
]

-- The live deals of participant `k`.
abbrev pub counts_for : ℤ → String → StateMarketDeal → Bool
counts_for current k d = is_live current d && d.proposal.provider == k

get_deal_counts-take_deal :
    (current : ℤ) (d : StateMarketDeal) (t : Tally) (k : String)
    → get_deal_counts (take_deal current d t).deal_count_by_participant k ≡ (
        if counts_for current k d
        then add_deal current d (get_deal_counts t.deal_count_by_participant k)
        else get_deal_counts t.deal_count_by_participant k)
unfolding take_deal count_deal get_deal_counts
get_deal_counts-take_deal current d t k = elim (Bool-cases (is_live current d)) [
  | inr e ↦ rw (is_counted-is_live, e)
  | inl e ↦
      rw (is_counted-is_live, e, lookup-insert)
        (elim (Bool-cases (d.proposal.provider == k)) [
          | inr q ↦ rw q
          | inl q ↦ rw q (
              ap (λ j. add_deal current d (get_deal_counts t.deal_count_by_participant j))
                ((beq_iff d.proposal.provider k).0 q))
        ])
]

-- One counter of a participant: how it grows with a deal that it takes in.
record IsCounter (current : ℤ) (taken : StateMarketDeal → Bool) (read : DealCounts → ℤ)
    : Type 0 where
  start : read no_deals ≡ pos 0
  grows :
      (d : StateMarketDeal) (c : DealCounts)
      → read (add_deal current d c) ≡ add_if (taken d) (pos 1) (read c)

count-IsCounter : (current : ℤ) → IsCounter current (λ d. true) (λ c. c.count)
unfolding add_deal
count-IsCounter current = record { start = refl; grows = λ d c. refl }

day-IsCounter :
    (current : ℤ) → IsCounter current (is_within fil_epoch_day current) (λ c. c.count_within_day)
unfolding add_deal
day-IsCounter current = record { start = refl; grows = λ d c. refl }

week-IsCounter :
    (current : ℤ) → IsCounter current (is_within fil_epoch_week current) (λ c. c.count_within_week)
unfolding add_deal
week-IsCounter current = record { start = refl; grows = λ d c. refl }

module _ {current : ℤ} {taken : StateMarketDeal → Bool} {read : DealCounts → ℤ}
    (counter : IsCounter current taken read) (k : String) where
  abbrev selected : StateMarketDeal → Bool
  selected d = counts_for current k d && taken d

  read-take_deal :
      (d : StateMarketDeal) (t : Tally) (n : ℕ)
      → n + 1 < 2 ^ 63
      → read (get_deal_counts t.deal_count_by_participant k) ≡ pos n
      → read (get_deal_counts (take_deal current d t).deal_count_by_participant k)
        ≡ pos (n + (if selected d then 1 else 0))
  unfolding add_if
  read-take_deal d t n small e =
      rw get_deal_counts-take_deal (elim (Bool-cases (counts_for current k d)) [
        | inr q ↦ rw q (ground (arith, e))
        | inl q ↦ rw q (rw counter.grows (ground (arith, e, add64_pos n 1)))
      ])

  read-take_all :
      (ds : List StateMarketDeal) (t : Tally) (n : ℕ)
      → n + length ds < 2 ^ 63
      → read (get_deal_counts t.deal_count_by_participant k) ≡ pos n
      → read (get_deal_counts (take_all current ds t).deal_count_by_participant k)
        ≡ pos (n + count_if selected ds)
  unfolding take_all
  read-take_all [] t n small e = e ∙ ap pos (omega arith)
  read-take_all (d ∷ ds) t n small e =
      read-take_all ds (take_deal current d t) (n + (if selected d then 1 else 0)) (ground arith)
        (read-take_deal d t n (omega arith) e)
      ∙ ap pos (ground arith)

  read-scan :
      (rs : List Received) (t : Tally)
      → length (deals rs) < 2 ^ 63
      → scan current rs empty_tally ≡ completed t
      → read (get_deal_counts t.deal_count_by_participant k) ≡ pos (count_if selected (deals rs))
  unfolding get_deal_counts
  read-scan rs t small e = rw (scan-completed current rs empty_tally t e) (
      read-take_all (deals rs) empty_tally 0 (omega arith) (rw lookup-nil counter.start)
      ∙ ap pos (omega arith))

-- The counts of a completed pass, by the tests that the code makes.
pub counts-scan_within :
    (current : ℤ) (rs : List Received) (t : Tally) (k : String)
    → length (deals rs) < 2 ^ 63
    → scan current rs empty_tally ≡ completed t
    → let c = get_deal_counts t.deal_count_by_participant k in
      (c.count ≡ pos (count_if (counts_for current k) (deals rs)))
      × (c.count_within_day
          ≡ pos (
              count_if
                (λ d. counts_for current k d && is_within fil_epoch_day current d)
                (deals rs)))
      × (c.count_within_week
          ≡ pos (
              count_if
                (λ d. counts_for current k d && is_within fil_epoch_week current d)
                (deals rs)))
counts-scan_within current rs t k small e = (
  read-scan (count-IsCounter current) k rs t small e ∙ ap pos (count_if-true _ (deals rs)),
  read-scan (day-IsCounter current) k rs t small e,
  read-scan (week-IsCounter current) k rs t small e,
)

-- A completed pass over fewer than 2^63 deals, for each of which the height less its start fits an
-- int64, gives every participant the number of its deals that have entered a sector, are not slashed
-- and have not ended before the height; of those of them whose start is later than 2880 epochs
-- before the height; and of those whose start is later than 20160 epochs before it. A start after
-- the height is later than both.
pub counts-scan :
    (current : ℤ) (rs : List Received) (t : Tally) (k : String)
    → length (deals rs) < 2 ^ 63
    → AllNear current (deals rs)
    → scan current rs empty_tally ≡ completed t
    → let c = get_deal_counts t.deal_count_by_participant k in
      (c.count ≡ pos (count_if (counts_for current k) (deals rs)))
      × (c.count_within_day
          ≡ pos (count_if (λ d. counts_for current k d && starts_after 2880 current d) (deals rs)))
      × (c.count_within_week
          ≡ pos (count_if (λ d. counts_for current k d && starts_after 20160 current d) (deals rs)))
counts-scan current rs t k small near e =
    let (all, day, week) = counts-scan_within current rs t k small e in
    (
      all,
      day
          ∙ ap pos
              (count-starts_after fil_epoch_day current (counts_for current k) (deals rs) near),
      week
          ∙ ap pos
              (count-starts_after fil_epoch_week current (counts_for current k) (deals rs) near),
    )

within_day-week :
    (current : ℤ) (d : StateMarketDeal)
    → is_within fil_epoch_day current d ≡ true
    → is_within fil_epoch_week current d ≡ true
unfolding is_within
within_day-week current d h = ground arith

and_mono : (a : Bool) {b c : Bool} → (b ≡ true → c ≡ true) → (a && b) ≡ true → (a && c) ≡ true
and_mono a f h = ground arith

and_left : (a b : Bool) → (a && b) ≡ true → a ≡ true
and_left a b h = ground arith

module _ (current : ℤ) (k : String) (ds : List StateMarketDeal) where
  day-le-week :
      count_if (λ d. counts_for current k d && is_within fil_epoch_day current d) ds
      ≤ count_if (λ d. counts_for current k d && is_within fil_epoch_week current d) ds
  day-le-week = count_if_mono _ _ ds (λ d. and_mono _ (within_day-week current d))

  week-le-all :
      count_if (λ d. counts_for current k d && is_within fil_epoch_week current d) ds
      ≤ count_if (counts_for current k) ds
  week-le-all = count_if_mono _ _ ds (λ d. and_left _ _)

-- Every participant has at most as many deals within a day as within a week, and at most as many
-- within a week as in all, after a completed pass over fewer than 2^63 deals.
pub counts_ordered :
    (current : ℤ) (rs : List Received) (t : Tally) (k : String)
    → length (deals rs) < 2 ^ 63
    → scan current rs empty_tally ≡ completed t
    → let c = get_deal_counts t.deal_count_by_participant k in
      (c.count_within_day ≤ℤ c.count_within_week) × (c.count_within_week ≤ℤ c.count)
counts_ordered current rs t k small e =
    let (all, day, week) = counts-scan_within current rs t k small e in
    rw (all, day, week)
      (
        omega (arith, day-le-week current k (deals rs)),
        omega (arith, week-le-all current k (deals rs)),
      )
