-- ===== src/Tests/Snapshot.antt =====
-- A check's announcement, and a snapshot, on concrete inputs.
use mathlib.Core.List.{Memᴰ}
use heyfil.Base.{
  count_if, ltb, if◌then◌else◌, is_some, nat_eq, string_eq, ◌≤◌, String, ◌≡◌, ◌↔◌, true, ◌||◌, none,
  some, [], ◌∷◌, arith, ℕ_discrete,
}
use heyfil.Base.Int.{int_dec, FitsInt64, pos, int_eq}
use heyfil.Base.Result.{Error, message}
use heyfil.Base.Dict.{Dict, lookup, or_zero}
use heyfil.Metrics.Snapshot.{fil_storage_market_1_2_0, snapshot, is_addressable}
use heyfil.Metrics.Report.{
  labelled, report_async_metrics, count, no_ratio, raw_power_reading, quotient,
  participant_coverage,
}
use heyfil.Metrics.Report.Statuses.{status-report}
use heyfil.Metrics.Instruments.{participants_by_status}
use heyfil.Metrics.Label.{target_status_to_attribute}
use heyfil.Target.Bookkeeping.{check-Kept, is_failure}
use heyfil.DealCounts.{get_deal_counts}
use heyfil.FilClient.{state_miner_info}
use heyfil.Target.{Target, Status}
use heyfil.Target.Check.{check}
use heyfil.Target.Effects.{MakesRequests}
use heyfil.Target.Effects.Sent.{Sent, check-Sent}
use heyfil.Metrics.Snapshot.Counts.{of_status, dealing, known, snapshot-counts}
use heyfil.Metrics.Snapshot.Unindexed.{is_noted}
use heyfil.Metrics.Report.Unindexed.{reports_unindexed, unindexed-report}
use heyfil.Tests.World.{demo, net, opts, miner, targets, no_metrics}
use heyfil.Metrics.Report.Power.{raw_power-report, sum_raw_power}
use heyfil.Metrics.Report.Coverage.{participant_coverage-snapshot}

net-MakesRequests : MakesRequests net
net-MakesRequests = λ r q e. cc

check-Sent_example :
    Sent net opts net-MakesRequests (state_miner_info net "f01000").0 (check net opts [] miner)
check-Sent_example = check-Sent net opts net-MakesRequests [] miner

snapshot-counts_example :
    ((s : Status)
      → or_zero (pos 0) (lookup s (snapshot targets no_metrics).counts_by_status)
        ≡ pos (count_if (λ e. of_status s e.1) targets))
    × ((snapshot targets no_metrics).total_addressable_participants
        ≡ pos (count_if (λ e. is_addressable e.1) targets))
    × ((snapshot targets no_metrics).total_addressable_participants_with_non_zero_deals
        ≡ pos (count_if (λ e. dealing e.1) targets))
    × ((snapshot targets no_metrics).total_participants_known_by_indexer
        ≡ pos (count_if (λ e. known e.1) targets))
snapshot-counts_example = snapshot-counts targets no_metrics (omega arith)

unindexed-report_example :
    reports_unindexed "f02000" (report_async_metrics (snapshot targets no_metrics))
    ≡ (reports_unindexed "f02000" (report_async_metrics no_metrics) || is_noted "f02000" targets)
unindexed-report_example = unindexed-report "f02000" targets no_metrics

participant_coverage-snapshot_example :
    (participant_coverage (snapshot targets no_metrics) ≡ (
      if ltb 0 (count_if (λ e. dealing e.1) targets)
      then quotient
          (pos (count_if (λ e. known e.1) targets))
          (pos (count_if (λ e. dealing e.1) targets))
      else no_ratio))
    × (count_if (λ e. known e.1) targets ≤ count_if (λ e. dealing e.1) targets)
participant_coverage-snapshot_example =
    participant_coverage-snapshot targets no_metrics (omega arith)

abbrev powered : Dict String Target
powered =
    (
      "f01000",
      record miner {
        protocols = fil_storage_market_1_2_0 ∷ [];
        state_miner_power = some (record {
          miner_power = record { raw_byte_power = "1024"; quality_adj_power = "2048" };
          total_power = record { raw_byte_power = "1024"; quality_adj_power = "2048" };
          has_min_power = true;
        });
      },
    )
    ∷ []

raw_power-report_example :
    FitsInt64 (sum_raw_power powered (pos 0))
    ↔ (raw_power_reading (snapshot powered no_metrics) ≡ count (sum_raw_power powered (pos 0)))
raw_power-report_example = raw_power-report powered no_metrics

check-Kept_example :
    let t' = (check net opts [] miner).0 in
    let counts = get_deal_counts [] miner.id in
    (t'.id ≡ miner.id)
    × (t'.deal_count ≡ counts.count)
    × (t'.deal_count_within_day ≡ counts.count_within_day)
    × (t'.deal_count_within_week ≡ counts.count_within_week)
    × (t'.last_checked ≡ some net.now)
    × (is_some t'.error ≡ is_failure t'.status)
    × ((e : Error) → t'.error ≡ some e → t'.err_message ≡ message e)
    × (t'.error ≡ none → t'.err_message ≡ miner.err_message)
check-Kept_example = check-Kept net opts [] miner

status-report_example :
    Memᴰ
      (record {
        gauge = participants_by_status;
        reading = count (pos (count_if (λ e. of_status (pos 1) e.1) targets));
        attributes = labelled "status" (target_status_to_attribute (pos 1)) ∷ [];
      })
      (report_async_metrics (snapshot targets no_metrics))
unfolding int_dec ℕ_discrete
status-report_example = status-report targets no_metrics (pos 1) (omega arith) (omega arith)
