-- ===== src/Refresh/Laws.antt =====
-- What a refresh leaves, on success and on failure.
use heyfil.Base.{
  count_if, length, nat_eq, string_eq, beq_iff, ◌^◌, ◌<◌, String, ◌≡◌, refl, ap, ◌∙◌, Option, none,
  some, List, arith,
}
use heyfil.Base.Int.{pos}
use heyfil.Base.Dict.{Dict}
use heyfil.Base.Result.{Error, Result, ok, err}
use heyfil.Platform.{Platform, ChainHead}
use heyfil.DealCounts.{get_deal_counts}
use heyfil.DealStats.{Tally, empty_tally, Received, Scan, completed, failed, nil_dereference, scan}
use heyfil.DealStats.Counts.{deals, counts_for, counts-scan_within}
use heyfil.HeyFil.{HeyFil}
use heyfil.Store.{Storage, store_recent_pieces}
use heyfil.Refresh.{
  piece_cids, notify_deal_count, refresh_with, returned, Answers, received, refresh, commit,
  conclude,
}
use heyfil.Metrics.{notify_deal_count_within_week, notify_deal_count_within_day, notify_deal_count}

module _ ⦃p : Platform⦄ (io : Storage) where
  conclude-failure :
      (s : Scan) {hf hf' : HeyFil} {e : Error} → conclude io s hf ≡ returned (some e) hf' → hf' ≡ hf
  unfolding conclude
  conclude-failure (completed t) q = absurd (cc)
  conclude-failure (failed e) q = cc
  conclude-failure nil_dereference q = absurd (cc)

  refresh_with-failure :
      (h : Result ChainHead) (r : Result (List Received)) (hf hf' : HeyFil) (e : Error)
      → refresh_with io h r hf ≡ returned (some e) hf'
      → hf' ≡ hf
  unfolding refresh_with
  refresh_with-failure (err x) r hf hf' e q = cc
  refresh_with-failure (ok ch) (err x) hf hf' e q = cc
  refresh_with-failure (ok ch) (ok rs) hf hf' e q = conclude-failure _ q

  -- A refresh that returns an error has changed nothing: neither the counts, nor the recent pieces,
  -- nor the metrics, nor a file.
  pub refresh-failure :
      (a : Answers) (hf hf' : HeyFil) (e : Error)
      → refresh io a hf ≡ returned (some e) hf'
      → hf' ≡ hf
  unfolding refresh
  refresh-failure a hf hf' e q = refresh_with-failure a.head (received a hf) hf hf' e q

  conclude-success :
      (s : Scan) (hf hf' : HeyFil)
      → conclude io s hf ≡ returned none hf'
      → (t : Tally) × (s ≡ completed t) × (hf' ≡ commit io t hf)
  unfolding conclude
  conclude-success (completed t) hf hf' q = (t, refl, cc)
  conclude-success (failed e) hf hf' q = absurd (cc)
  conclude-success nil_dereference hf hf' q = absurd (cc)

  pub refresh_with-success :
      (h : Result ChainHead) (r : Result (List Received)) (hf hf' : HeyFil)
      → refresh_with io h r hf ≡ returned none hf'
      → (ch : ChainHead) × (rs : List Received) × (t : Tally) × (h ≡ ok ch)
        × (r ≡ ok rs)
        × (scan ch.height rs empty_tally ≡ completed t)
        × (hf' ≡ commit io t hf)
  unfolding refresh_with
  refresh_with-success (err x) r hf hf' q = absurd (cc)
  refresh_with-success (ok ch) (err x) hf hf' q = absurd (cc)
  refresh_with-success (ok ch) (ok rs) hf hf' q =
      let (t, done, e) = conclude-success (scan ch.height rs empty_tally) hf hf' q in
      (ch, rs, t, refl, refl, done, e)

  pub refresh-success :
      (a : Answers) (hf hf' : HeyFil)
      → refresh io a hf ≡ returned none hf'
      → (t : Tally) × (hf' ≡ commit io t hf)
  unfolding refresh
  refresh-success a hf hf' q =
      let (_, _, t, _, _, _, e) = refresh_with-success a.head (received a hf) hf hf' q in (t, e)

  counts-store_recent_pieces :
      (rp : Dict String String) (hf : HeyFil)
      → (store_recent_pieces io rp hf).1.deal_count_by_participant ≡ hf.deal_count_by_participant
  unfolding store_recent_pieces
  counts-store_recent_pieces rp hf = ground arith

  counts-commit :
      (t : Tally) (hf : HeyFil)
      → (commit io t hf).deal_count_by_participant ≡ t.deal_count_by_participant
  unfolding commit notify_deal_count notify_deal_count_within_day notify_deal_count_within_week
  counts-commit t hf = counts-store_recent_pieces _ _

  -- A refresh that returns no error has read a chain head and deals to their end; with fewer than
  -- 2^63 of them, a check of any participant now sees the number of its deals that have entered
  -- a sector, are not slashed and have not ended before the height of that head.
  pub refresh-counts :
      (a : Answers) (hf hf' : HeyFil)
      → refresh io a hf ≡ returned none hf'
      → (ch : ChainHead) × (rs : List Received) × (a.head ≡ ok ch)
        × (received a hf ≡ ok rs)
        × (length (deals rs) < 2 ^ 63
            → (k : String)
            → (get_deal_counts hf'.deal_count_by_participant k).count
              ≡ pos (count_if (counts_for ch.height k) (deals rs)))
  unfolding refresh
  refresh-counts a hf hf' q =
      let (ch, rs, t, h, r, done, e) = refresh_with-success a.head (received a hf) hf hf' q in
      (
        ch,
        rs,
        h,
        r,
        λ small k. rw (e, counts-commit) (counts-scan_within ch.height rs t k small done).0,
      )

  store_recent_pieces_in_memory :
      (rp : Dict String String) (hf : HeyFil)
      → hf.options.store_path ≡ ""
      → store_recent_pieces io rp hf ≡ (none, hf)
  unfolding store_recent_pieces
  store_recent_pieces_in_memory rp hf e = rw ((beq_iff hf.options.store_path "").1 e)

  pieces-commit :
      (t : Tally) (hf : HeyFil)
      → hf.options.store_path ≡ ""
      → ((commit io t hf).recent_pieces ≡ hf.recent_pieces)
        × ((commit io t hf).options.store_path ≡ "")
  unfolding commit notify_deal_count notify_deal_count_within_day notify_deal_count_within_week
  pieces-commit t hf e =
      let counted = record hf { deal_count_by_participant = t.deal_count_by_participant } in
      let same =
        store_recent_pieces_in_memory (piece_cids t.latest_piece_by_participant) counted e in
      (ap (λ r. r.1.recent_pieces) same, ap (λ r. r.1.options.store_path) same ∙ e)

  -- Without a store path no refresh changes the recent pieces, whatever it returns.
  pub refresh-recent_pieces :
      (a : Answers) (hf hf' : HeyFil) (e : Option Error)
      → hf.options.store_path ≡ ""
      → refresh io a hf ≡ returned e hf'
      → (hf'.recent_pieces ≡ hf.recent_pieces) × (hf'.options.store_path ≡ "")
  refresh-recent_pieces a hf hf' (some x) m q = rw (refresh-failure a hf hf' x q) (refl, m)
  refresh-recent_pieces a hf hf' none m q =
      let (_, _, t, _, _, _, e) =
        refresh_with-success a.head (received a hf) hf hf' (unfold refresh in q) in
      rw e (pieces-commit t hf m)
