-- ===== src/Refresh.antt =====
-- `dealStats.refresh` of fil_deal_stats.go: a pass over the deals, and what is kept of it.
pub mod Laws
pub mod Safety
pub mod Totals
use heyfil.Base.{if◌then◌else◌, String, Option, none, some, List, [], ◌∷◌}
use heyfil.Base.Dict.{Dict}
use heyfil.Base.Result.{Error, Result, ok, err}
use heyfil.Platform.{Platform, ChainHead}
use heyfil.DealStats.{
  LatestPiece, Tally, empty_tally, Received, Scan, completed, failed, nil_dereference, scan,
}
use heyfil.Metrics.{notify_deal_count, notify_deal_count_within_day, notify_deal_count_within_week}
use heyfil.HeyFil.{HeyFil}
use heyfil.Store.{Storage, store_recent_pieces}

-- `for k, v := range latestPieceByParticipant { lp[k] = v.cid }`
unfoldable pub piece_cids : Dict String LatestPiece → Dict String String
piece_cids [] = []
piece_cids ((k, v) ∷ rest) = (k, v.cid) ∷ piece_cids rest

module _ ⦃p : Platform⦄ where
  pub data Refreshed : Type 0 where
    -- what `refresh` returns, and the state that it leaves
    returned : Option Error → HeyFil → Refreshed
    panicked : Refreshed

  -- When the channel is closed: the error of `storeRecentPieces` is dropped.
  unfoldable pub commit : Storage → Tally → HeyFil → HeyFil
  unfolding piece_cids
  commit io t hf =
      let counted = record hf { deal_count_by_participant = t.deal_count_by_participant } in
      let stored = (store_recent_pieces io (piece_cids t.latest_piece_by_participant) counted).1 in
      record stored {
        metrics = notify_deal_count_within_week t.total_deal_count_within_week (
            notify_deal_count_within_day t.total_deal_count_within_day
              (notify_deal_count t.total_deal_count stored.metrics));
      }

  unfoldable pub conclude : Storage → Scan → HeyFil → Refreshed
  conclude io (completed t) hf = returned none (commit io t hf)
  conclude io (failed e) hf = returned (some e) hf
  conclude io nil_dereference hf = panicked

  -- The chain head, and the deals as the two sources hand them over.
  pub record Answers : Type 0 where
    pub head : Result ChainHead
    pub via_fil_tools : Result (List Received)
    pub via_s3_snapshot : Result (List Received)

  unfoldable pub received : Answers → HeyFil → Result (List Received)
  received a hf =
      if hf.options.market_deals_fil_tools_enabled then a.via_fil_tools else a.via_s3_snapshot

  unfoldable pub refresh_with :
      Storage → Result ChainHead → Result (List Received) → HeyFil → Refreshed
  refresh_with io (err e) deals hf = returned (some e) hf
  refresh_with io (ok ch) (err e) hf = returned (some e) hf
  refresh_with io (ok ch) (ok deals) hf = conclude io (scan ch.height deals empty_tally) hf

  unfoldable pub refresh : Storage → Answers → HeyFil → Refreshed
  unfolding refresh_with
  refresh io a hf = refresh_with io a.head (received a hf) hf

  -- `ds.latestRefreshErr = ds.refresh(ctx)`
  abbrev noted : Refreshed → Option HeyFil
  noted (returned e hf) = some (record hf { latest_refresh_err = e })
  noted panicked = none

  -- The loop of `start`: it refreshes, waits for a tick, refreshes, and begins again. A list has the
  -- answers for the refresh at the top of each round and, if a tick came, for the one that follows it.
  pub record Round : Type 0 where
    pub top : Answers
    pub tick : Answers

  unfoldable pub run_rounds : Storage → List Round → HeyFil → Option HeyFil
  run_rounds io [] hf = some hf
  run_rounds io (r ∷ rs) hf = elim (noted (refresh io r.top hf)) [
    | none ↦ none
    | some hf' ↦ elim (noted (refresh io r.tick hf')) [
      | none ↦ none
      | some hf'' ↦ run_rounds io rs hf''
    ]
  ]
