-- ===== src/Refresh/Totals.antt =====
-- The totals that the metrics report after a refresh.
use heyfil.Base.{count_if, length, ◌^◌, ◌<◌, ◌≡◌, refl, ◌&&◌, none, List}
use heyfil.Base.Int.{int_eq, pos}
use heyfil.Base.Result.{ok}
use heyfil.DealStats.Meaning.{AllNear, is_live, starts_after}
use heyfil.DealStats.Totals.{totals-scan}
use heyfil.DealStats.Counts.{deals}
use heyfil.DealStats.{Tally, Received}
use heyfil.Refresh.{ok, HeyFil, Storage, Platform, Answers, refresh, received, returned, commit}
use heyfil.Refresh.Laws.{refresh_with-success}
use heyfil.Metrics.{notify_deal_count, notify_deal_count_within_day, notify_deal_count_within_week}
use heyfil.Platform.{ChainHead, Platform}
use heyfil.Store.{Storage}
use heyfil.HeyFil.{HeyFil}

module _ ⦃p : Platform⦄ (io : Storage) where
  totals-commit :
      (t : Tally) (hf : HeyFil)
      → ((commit io t hf).metrics.total_deal_count ≡ t.total_deal_count)
        × ((commit io t hf).metrics.total_deal_count_within_day ≡ t.total_deal_count_within_day)
        × ((commit io t hf).metrics.total_deal_count_within_week ≡ t.total_deal_count_within_week)
  unfolding commit notify_deal_count notify_deal_count_within_day notify_deal_count_within_week
  totals-commit t hf = (refl, refl, refl)

  -- After a refresh without an error, which has read a chain head and deals to their end, the
  -- metrics report, if there are fewer than 2^63 deals, the number of those that have entered a
  -- sector, are not slashed and have not ended before the height of that head; and, if the height
  -- less the start of any deal fits an int64, of those of them whose start is later than 2880 epochs
  -- before the height, and later than 20160 epochs before it, be it before or after the height.
  pub refresh-totals :
      (a : Answers) (hf hf' : HeyFil)
      → refresh io a hf ≡ returned none hf'
      → (ch : ChainHead) × (rs : List Received) × (a.head ≡ ok ch)
        × (received a hf ≡ ok rs)
        × (length (deals rs) < 2 ^ 63
            → (hf'.metrics.total_deal_count ≡ pos (count_if (is_live ch.height) (deals rs)))
              × (AllNear ch.height (deals rs)
                  → (hf'.metrics.total_deal_count_within_day
                      ≡ pos (
                          count_if
                            (λ d. is_live ch.height d && starts_after 2880 ch.height d)
                            (deals rs)))
                    × (hf'.metrics.total_deal_count_within_week
                        ≡ pos (
                            count_if
                              (λ d. is_live ch.height d && starts_after 20160 ch.height d)
                              (deals rs)))))
  unfolding refresh
  refresh-totals a hf hf' q =
      let (ch, rs, t, h, r, done, e) = refresh_with-success io a.head (received a hf) hf hf' q in
      let (all, day, week) = totals-commit t hf in
      (
        ch,
        rs,
        h,
        r,
        λ small.
            let (live, recent) = totals-scan ch.height rs t small done in
            (
              rw (e, all) live,
              λ near. let (in_day, in_week) = recent near in rw (e, day, week) (in_day, in_week),
            ),
      )
