-- ===== src/Tests.antt =====
-- The code on concrete inputs: a check of one miner, refreshes, listings, and files.
pub mod Api
pub mod World
pub mod Snapshot
pub mod Deals
pub mod Restart
pub mod Run
pub mod Text
use mathlib.Core.List.{Memᴰ, Permᴰ}
use heyfil.Base.{
  count_if, length, nat_eq, string_eq, ℕ, ◌^◌, ◌<◌, String, ◌≡◌, refl, sym, ap, ◌≢◌, false, ◌&&◌,
  none, some, List, [], ◌∷◌, ◌++◌, arith, ℕ_discrete,
}
use heyfil.Base.Int.{◌-ℤ◌, ◌+ℤ◌, int_eq, ℤ, pos, negsuc, int_dec, add64, sub64, wrap64, ltb_ℤ, ◌≤ℤ◌}
use heyfil.Base.Dict.{Dict, lookup, insert, NodupKeys}
use heyfil.Base.FilePath.{join}
use heyfil.Base.Result.{Error, Result, ok, err}
use heyfil.Base.Sort.{IsSorted, sort}
use heyfil.Base.Text.{NoSlash, trim_prefix, strip_prefix}
use heyfil.Base.Number.{parse_int32}
use heyfil.DealStats.Meaning.{
  AllNear, Near, is_live, starts_after, is_counted-is_live, count-starts_after,
}
use heyfil.Refresh.Totals.{refresh-totals}
use heyfil.Platform.{Platform, ChainHead}
use heyfil.Deal.{StateMarketDeal}
use heyfil.DealCounts.{DealCounts, no_deals, get_deal_counts}
use heyfil.DealStats.{
  LatestPiece, Tally, empty_tally, is_counted, is_within, add_if, add_deal, count_deal, take_deal,
  note_piece, Received, completed, scan, fil_epoch_day, fil_epoch_week,
}
use heyfil.DealStats.Counts.{deals, counts_for, counts-scan, counts_ordered}
use heyfil.DealStats.Pieces.{latest-scan, latest-scan_from}
use heyfil.FilClient.{state_miner_info, get_head, state_miner_power, answer}
use heyfil.FilClient.HeadPattern.{find_head_protocol_matches}
use heyfil.Target.{status_unindexed, new_target, Target, status_ok}
use heyfil.Target.Check.{check}
use heyfil.Target.Meaning.{Meaning}
use heyfil.Target.Outcome.{check-Meaning}
use heyfil.ApiServer.{
  Request, Response, respond, http_error, sp_ids, sp, piece, get_sp_ids, serve, peer_filter,
  status_filter, query_get, has_status,
}
use heyfil.ApiServer.Root.{passes, get_sp_ids_lem, get_sp_ids-perm}
use heyfil.ApiServer.Subtree.{serve_sp, serve_recent_piece}
use heyfil.Store.{Visit, store, load_targets, read_file, write_file}
use heyfil.Store.RoundTrip.{load_targets-store}
use heyfil.Refresh.{conclude, refresh, received, returned, commit}
use heyfil.Refresh.Laws.{refresh-failure, refresh-counts, refresh-recent_pieces}
use heyfil.Options.{new_options, default_options, with_api_listen_addr, with_store_path}
use heyfil.Options.Laws.{api_listen_addr, store_path, new_options-api_listen_addr}
use heyfil.Metrics.Label.{label_injective, target_status_to_attribute}
use heyfil.Tests.World.{
  demo, net, opts, miner, targets, stream, recent_deal, hf, stored_hf, io, answers, broken_answers,
  shapeless,
}
use mathlib.Core.List.Memᴰ
use Prim.Native.String

check-Meaning_example :
    Meaning net opts (state_miner_info net "f01000").0 (check net opts [] miner).0.status
check-Meaning_example = check-Meaning net opts [] miner

abbrev counts : DealCounts
counts = record {
  count = pos 2;
  bytes = pos 2048;
  count_within_day = pos 1;
  bytes_within_day = pos 1024;
  count_within_week = pos 2;
  bytes_within_week = pos 2048;
}

abbrev tally : Tally
tally = record {
  deal_count_by_participant = ("f01000", counts) ∷ [];
  latest_piece_by_participant =
      ("f01000", record { epoch = pos 49880; cid = "piece1" })
      ∷ ("f02000", record { epoch = pos 49000; cid = "piece3" })
      ∷ [];
  total_deal_count = pos 2;
  total_deal_count_within_week = pos 2;
  total_deal_count_within_day = pos 1;
}

scan_run : scan (pos 50000) stream empty_tally ≡ completed tally
unfolding scan count_deal add_deal is_counted is_within note_piece get_deal_counts lookup insert
    string_eq int_dec ℕ_discrete add64 sub64
scan_run = refl

stream_near : AllNear (pos 50000) (deals stream)
unfolding ◌-ℤ◌
stream_near = ground arith

counts-scan_example :
    let c = get_deal_counts tally.deal_count_by_participant "f01000" in
    (c.count ≡ pos (count_if (counts_for (pos 50000) "f01000") (deals stream)))
    × (c.count_within_day
        ≡ pos (
            count_if
              (λ d. counts_for (pos 50000) "f01000" d && starts_after 2880 (pos 50000) d)
              (deals stream)))
    × (c.count_within_week
        ≡ pos (
            count_if
              (λ d. counts_for (pos 50000) "f01000" d && starts_after 20160 (pos 50000) d)
              (deals stream)))
counts-scan_example =
    counts-scan (pos 50000) stream tally "f01000" (omega arith) stream_near scan_run

counts_ordered_example :
    let c = get_deal_counts tally.deal_count_by_participant "f01000" in
    (c.count_within_day ≤ℤ c.count_within_week) × (c.count_within_week ≤ℤ c.count)
counts_ordered_example = counts_ordered (pos 50000) stream tally "f01000" (omega arith) scan_run

latest-scan_example :
    (lp : LatestPiece) × (lookup "f01000" tally.latest_piece_by_participant ≡ some lp)
    × (pos 49880 ≤ℤ lp.epoch)
latest-scan_example =
    latest-scan (pos 50000) stream tally recent_deal scan_run (Memᴰ.tail (Memᴰ.head refl))

latest_run :
    lookup "f02000" tally.latest_piece_by_participant
    ≡ some (record { epoch = pos 49000; cid = "piece3" })
unfolding lookup string_eq
latest_run = refl

latest-scan_from_example :
    (d : StateMarketDeal) × Memᴰ d (deals stream)
    × (d.proposal.provider ≡ "f02000")
    × (d.proposal.start_epoch ≡ pos 49000)
    × (d.proposal.piece_cid ≡ "piece3")
latest-scan_from_example =
    latest-scan_from (pos 50000) stream tally "f02000"
      (record { epoch = pos 49000; cid = "piece3" }) scan_run latest_run

refresh_run : refresh io answers hf ≡ returned none (commit io tally hf)
unfolding refresh received scan count_deal add_deal is_counted is_within note_piece get_deal_counts
    lookup insert string_eq int_dec ℕ_discrete add64 sub64 conclude
refresh_run = refl

refresh_failure_run : refresh io broken_answers hf ≡ returned (some shapeless) hf
unfolding refresh received scan count_deal add_deal is_counted is_within note_piece get_deal_counts
    lookup insert string_eq int_dec ℕ_discrete add64 sub64 conclude
refresh_failure_run = refl

refresh-failure_example : hf ≡ hf
refresh-failure_example = refresh-failure io broken_answers hf hf shapeless refresh_failure_run

refresh-counts_example :
    (ch : ChainHead) × (rs : List Received) × (answers.head ≡ ok ch)
    × (received answers hf ≡ ok rs)
    × (length (deals rs) < 2 ^ 63
        → (k : String)
        → (get_deal_counts (commit io tally hf).deal_count_by_participant k).count
          ≡ pos (count_if (counts_for ch.height k) (deals rs)))
refresh-counts_example = refresh-counts io answers hf (commit io tally hf) refresh_run

refresh-totals_example :
    let hf' = commit io tally hf in
    (ch : ChainHead) × (rs : List Received) × (answers.head ≡ ok ch)
    × (received answers hf ≡ ok rs)
    × (length (deals rs) < 2 ^ 63
        → (hf'.metrics.total_deal_count ≡ pos (count_if (is_live ch.height) (deals rs)))
          × (AllNear ch.height (deals rs)
              → (hf'.metrics.total_deal_count_within_day
                  ≡ pos (
                      count_if
                        (λ d. is_live ch.height d && starts_after 2880 ch.height d)
                        (deals rs)))
                × (hf'.metrics.total_deal_count_within_week
                    ≡ pos (
                        count_if
                          (λ d. is_live ch.height d && starts_after 20160 ch.height d)
                          (deals rs)))))
refresh-totals_example = refresh-totals io answers hf (commit io tally hf) refresh_run

refresh-recent_pieces_example :
    ((commit io tally hf).recent_pieces ≡ hf.recent_pieces)
    × ((commit io tally hf).options.store_path ≡ "")
refresh-recent_pieces_example =
    refresh-recent_pieces io answers hf (commit io tally hf) none refl refresh_run

ok-injective : {a b : String} → ok a ≡ ok b → a ≡ b
ok-injective e = cc

configured : ◌≢◌ {A = String} "/data" ""
configured = λ e. cc

stored_run : (store io miner stored_hf).0 ≡ none
unfolding store write_file string_eq
stored_run = refl

path_run : ◌≡◌ {A = String} "/data/f01000.json" (join "/data" (String.◌++◌ "f01000" ".json"))
unfolding join string_eq ℕ_discrete
path_run = refl

abbrev visit : Visit
visit = record { path = "/data/f01000.json"; name = "f01000.json"; is_dir = false; error = none }

miner_named : ◌≢◌ {A = String} "f01000" ""
miner_named = λ e. cc

load_targets-store_example :
    (load_targets io (visit ∷ []) (store io miner stored_hf).1).targets
    ≡ insert "f01000" miner targets
load_targets-store_example =
    load_targets-store io miner stored_hf visit configured miner_named stored_run
      (λ s e. ap (λ i. ok (new_target i)) (sym (ok-injective e))) refl path_run refl refl refl

label_injective_example : ◌≡◌ {A = ℕ} 8 8
label_injective_example = label_injective 8 8 (omega arith) (omega arith) refl
