-- ===== src/Metrics.antt =====
-- metrics.go: the values behind the gauges, the snapshot of the targets, and what is observed.
pub mod Instruments
pub mod Label
pub mod Report
pub mod Snapshot
use heyfil.Base.{if◌then◌else◌, Eq, nat_eq, string_eq, String, Bool, Option, none, []}
use heyfil.Base.Int.{ℤ, pos, add64}
use heyfil.Base.Dict.{Dict, lookup, insert, or_zero}
use heyfil.Base.Result.{Error}
use heyfil.Platform.{Platform}
use heyfil.Target.{Target, Status}

-- `counts[k]++`
unfoldable pub bump {ℓ} : {K : Type ℓ} ⦃e : Eq K⦄ → K → Dict K ℤ → Dict K ℤ
bump k d = insert k (add64 (or_zero (pos 0) (lookup k d)) (pos 1)) d

module _ ⦃p : Platform⦄ where
  -- The gauges are those of `Instruments`; the big integers are the boost powers.
  pub record Metrics : Type 0 where
    -- `m.exporter != nil`
    pub has_exporter : Bool
    pub counts_by_status : Dict Status ℤ
    pub counts_by_agent_short_version : Dict String ℤ
    pub counts_by_market_protocol : Dict String ℤ
    pub counts_by_transport_protocol : Dict String ℤ
    pub total_participant_count : ℤ
    pub total_deal_count : ℤ
    pub total_deal_count_within_day : ℤ
    pub total_deal_count_within_week : ℤ
    pub total_addressable_participants_with_non_zero_deals : ℤ
    pub total_addressable_participants : ℤ
    pub total_participants_known_by_indexer : ℤ
    pub total_deal_count_by_participants_known_to_indexer : ℤ
    pub total_deal_count_within_day_by_participants_known_to_indexer : ℤ
    pub total_deal_count_within_week_by_participants_known_to_indexer : ℤ
    pub total_boost_participants : ℤ
    pub total_participants_with_min_power : ℤ
    pub total_boost_quality_adjusted_power : ℤ
    pub total_boost_raw_power : ℤ
    pub unindexed_targets : Dict String Target

  -- The stores at the beginning of `start`; the count maps are nil until the first snapshot.
  unfoldable pub zeroed : Metrics → Metrics
  zeroed m = record m {
    total_participant_count = pos 0;
    total_deal_count = pos 0;
    total_deal_count_within_day = pos 0;
    total_deal_count_within_week = pos 0;
    total_addressable_participants_with_non_zero_deals = pos 0;
    total_addressable_participants = pos 0;
    total_participants_known_by_indexer = pos 0;
    total_deal_count_by_participants_known_to_indexer = pos 0;
    total_deal_count_within_day_by_participants_known_to_indexer = pos 0;
    total_deal_count_within_week_by_participants_known_to_indexer = pos 0;
    total_boost_participants = pos 0;
    total_participants_with_min_power = pos 0;
    total_boost_quality_adjusted_power = pos 0;
    total_boost_raw_power = pos 0;
    unindexed_targets = [];
  }

  unfoldable pub notify_participant_count : ℤ → Metrics → Metrics
  notify_participant_count c m = record m { total_participant_count = c }

  unfoldable pub notify_deal_count : ℤ → Metrics → Metrics
  notify_deal_count c m = record m { total_deal_count = c }

  unfoldable pub notify_deal_count_within_week : ℤ → Metrics → Metrics
  notify_deal_count_within_week c m = record m { total_deal_count_within_week = c }

  unfoldable pub notify_deal_count_within_day : ℤ → Metrics → Metrics
  notify_deal_count_within_day c m = record m { total_deal_count_within_day = c }

  -- `stop` is what the shutdown of the exporter returns.
  unfoldable pub shutdown : Option Error → Metrics → Option Error
  shutdown stop m = if m.has_exporter then stop else none
