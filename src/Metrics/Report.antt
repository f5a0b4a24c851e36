-- ===== src/Metrics/Report.antt =====
-- `metrics.reportAsyncMetrics` of metrics.go: what is observed of the gauges, in order.
pub mod Coverage
pub mod Power
pub mod Statuses
pub mod Unindexed
use heyfil.Base.{if◌then◌else◌, String, Bool, true, List, [], ◌∷◌, ◌++◌}
use heyfil.Base.Int.{ℤ, pos, ltb_ℤ, wrap64}
use heyfil.Base.Dict.{Dict}
use heyfil.Platform.{Platform}
use heyfil.Target.{Target, Status}
use heyfil.Metrics.{Metrics}
use heyfil.Metrics.Label.{target_status_to_attribute}
use heyfil.Metrics.Instruments.{
  Gauge, participants_by_status, participants_by_agent_short_version,
  participants_by_market_protocol, participants_by_transport_protocol, participants_total,
  deals_total, deals_coverage, participants_coverage, unindexed_deal_count,
  boost_participants_total, boost_quality_adjusted_power_total, boost_raw_power_total,
  participants_with_min_power_total,
}

pub data Value : Type 0 where
  text : String → Value
  flag : Bool → Value

pub record Attribute : Type 0 where
  pub key : String
  pub value : Value

abbrev pub attribute_with_address : Attribute
attribute_with_address = record { key = "with-addr"; value = flag true }

abbrev pub attribute_known_by_indexer : Attribute
attribute_known_by_indexer = record { key = "known-by-indexer"; value = flag true }

abbrev pub attribute_span_day : Attribute
attribute_span_day = record { key = "span"; value = text "1d" }

abbrev pub attribute_span_week : Attribute
attribute_span_week = record { key = "span"; value = text "1w" }

abbrev pub attribute_with_deal : Attribute
attribute_with_deal = record { key = "with-deal"; value = flag true }

abbrev pub labelled : String → String → Attribute
labelled key value = record { key = key; value = text value }

-- A count, or a ratio: `quotient a b` is `float64(a) / float64(b)`.
pub data Reading : Type 0 where
  count : ℤ → Reading
  no_ratio : Reading
  quotient : ℤ → ℤ → Reading

pub record Observation : Type 0 where
  pub gauge : Gauge
  pub reading : Reading
  pub attributes : List Attribute

abbrev observe : Gauge → ℤ → List Attribute → Observation
observe g n attributes = record { gauge = g; reading = count n; attributes = attributes }

-- `var r float64; if of > 0 { r = float64(part) / float64(of) }`
unfoldable pub coverage : (part whole : ℤ) → Reading
coverage part whole = if ltb_ℤ (pos 0) whole then quotient part whole else no_ratio

-- a loop over a map of counts
unfoldable pub observe_counts {ℓ} :
    {K : Type ℓ} → Gauge → (K → Attribute) → Dict K ℤ → List Observation
observe_counts g label [] = []
observe_counts g label ((k, c) ∷ counts) =
    observe g c (label k ∷ []) ∷ observe_counts g label counts

module _ ⦃p : Platform⦄ where
  unfoldable pub observe_unindexed : Dict String Target → List Observation
  observe_unindexed [] = []
  observe_unindexed ((id, t) ∷ ts) =
      observe unindexed_deal_count t.deal_count (labelled "id" id ∷ [])
      ∷ observe unindexed_deal_count t.deal_count_within_day
          (labelled "id" id ∷ attribute_span_day ∷ [])
      ∷ observe unindexed_deal_count t.deal_count_within_week
          (labelled "id" id ∷ attribute_span_week ∷ [])
      ∷ observe_unindexed ts

  unfoldable pub observe_maps : Metrics → List Observation
  unfolding observe_counts target_status_to_attribute
  observe_maps m =
      observe_counts participants_by_status (λ s. labelled "status" (target_status_to_attribute s))
        m.counts_by_status
      ++ (observe_counts participants_by_agent_short_version (labelled "agentShortVersion")
            m.counts_by_agent_short_version
          ++ (observe_counts participants_by_market_protocol (labelled "protocol")
                m.counts_by_market_protocol
              ++ observe_counts participants_by_transport_protocol (labelled "transportName")
                  m.counts_by_transport_protocol))

  unfoldable pub observe_participants : Metrics → List Observation
  observe_participants m =
      observe participants_total m.total_participant_count []
      ∷ observe participants_total m.total_participants_known_by_indexer
          (attribute_known_by_indexer ∷ [])
      ∷ observe participants_total m.total_addressable_participants (attribute_with_address ∷ [])
      ∷ observe participants_total m.total_addressable_participants_with_non_zero_deals
          (attribute_with_address ∷ attribute_with_deal ∷ [])
      ∷ []

  unfoldable pub observe_deals : Metrics → List Observation
  observe_deals m =
      observe deals_total m.total_deal_count []
      ∷ observe deals_total m.total_deal_count_by_participants_known_to_indexer
          (attribute_known_by_indexer ∷ [])
      ∷ observe deals_total m.total_deal_count_within_day (attribute_span_day ∷ [])
      ∷ observe deals_total m.total_deal_count_within_day_by_participants_known_to_indexer
          (attribute_known_by_indexer ∷ attribute_span_day ∷ [])
      ∷ observe deals_total m.total_deal_count_within_week (attribute_span_week ∷ [])
      ∷ observe deals_total m.total_deal_count_within_week_by_participants_known_to_indexer
          (attribute_known_by_indexer ∷ attribute_span_week ∷ [])
      ∷ []

  unfoldable pub deal_coverage : Metrics → Reading
  unfolding coverage
  deal_coverage m = coverage m.total_deal_count_by_participants_known_to_indexer m.total_deal_count

  unfoldable pub participant_coverage : Metrics → Reading
  unfolding coverage
  participant_coverage m =
      coverage m.total_participants_known_by_indexer
        m.total_addressable_participants_with_non_zero_deals

  unfoldable pub observe_coverage : Metrics → List Observation
  unfolding deal_coverage participant_coverage
  observe_coverage m =
      record { gauge = deals_coverage; reading = deal_coverage m; attributes = [] }
      ∷ record { gauge = participants_coverage; reading = participant_coverage m; attributes = [] }
      ∷ []

  -- `Int64` of a big integer keeps its low 64 bits.
  unfoldable pub quality_adjusted_power_reading : Metrics → Reading
  quality_adjusted_power_reading m = count (wrap64 m.total_boost_quality_adjusted_power)

  unfoldable pub raw_power_reading : Metrics → Reading
  raw_power_reading m = count (wrap64 m.total_boost_raw_power)

  unfoldable pub observe_boost : Metrics → List Observation
  unfolding quality_adjusted_power_reading raw_power_reading
  observe_boost m =
      observe boost_participants_total m.total_boost_participants []
      ∷ record {
        gauge = boost_quality_adjusted_power_total;
        reading = quality_adjusted_power_reading m;
        attributes = [];
      }
      ∷ record { gauge = boost_raw_power_total; reading = raw_power_reading m; attributes = [] }
      ∷ observe participants_with_min_power_total m.total_participants_with_min_power []
      ∷ []

  unfoldable pub report_async_metrics : Metrics → List Observation
  unfolding observe_maps observe_participants observe_deals observe_coverage observe_unindexed
      observe_boost
  report_async_metrics m =
      observe_maps m
      ++ (observe_participants m
          ++ (observe_deals m
              ++ (observe_coverage m
                  ++ (observe_unindexed m.unindexed_targets ++ observe_boost m))))
