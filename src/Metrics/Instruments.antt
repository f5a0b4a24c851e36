-- ===== src/Metrics/Instruments.antt =====
-- The gauges of metrics.go, and how `start` makes them.

use heyfil.Base.{String, Bool, true, false, Option, none, some, List, [], ◌∷◌}
use heyfil.Base.Result.{Error}
use heyfil.Platform.{Platform}
use heyfil.Metrics.{Metrics, zeroed}

pub data Gauge : Type 0 where
  participants_by_status : Gauge
  participants_by_agent_short_version : Gauge
  participants_by_market_protocol : Gauge
  participants_by_transport_protocol : Gauge
  participants_total : Gauge
  deals_total : Gauge
  deals_coverage : Gauge
  participants_coverage : Gauge
  unindexed_deal_count : Gauge
  boost_participants_total : Gauge
  boost_quality_adjusted_power_total : Gauge
  boost_raw_power_total : Gauge
  participants_with_min_power_total : Gauge

unfoldable pub gauge_name : Gauge → String
gauge_name participants_by_status = "ipni/heyfil/miners_by_status"
gauge_name participants_by_agent_short_version = "ipni/heyfil/miners_by_agent_short_version"
gauge_name participants_by_market_protocol = "ipni/heyfil/miners_by_market_protocol"
gauge_name participants_by_transport_protocol = "ipni/heyfil/miners_by_transport_protocol"
gauge_name participants_total = "ipni/heyfil/state_market_participants_total"
gauge_name deals_total = "ipni/heyfil/state_market_deals_total"
gauge_name deals_coverage = "ipni/heyfil/state_market_deal_coverage_ratio"
gauge_name participants_coverage = "ipni/heyfil/state_market_participant_coverage_ratio"
gauge_name unindexed_deal_count = "ipni/heyfil/state_market_unindexed_deal_count"
gauge_name boost_participants_total = "ipni/heyfil/state_market_boost_participants_total"
gauge_name boost_quality_adjusted_power_total =
    "ipni/heyfil/state_market_boost_quality_adjusted_power_total"
gauge_name boost_raw_power_total = "ipni/heyfil/state_market_boost_raw_power_total"
gauge_name participants_with_min_power_total =
    "ipni/heyfil/state_market_participants_with_min_power_total"

-- The gauges in the order in which `start` makes them.
abbrev pub gauges : List Gauge
gauges =
    participants_by_status ∷ participants_by_agent_short_version ∷ participants_by_market_protocol
    ∷ participants_by_transport_protocol ∷ participants_total ∷ deals_total ∷ deals_coverage
    ∷ participants_coverage ∷ unindexed_deal_count ∷ boost_participants_total
    ∷ boost_quality_adjusted_power_total ∷ boost_raw_power_total ∷ participants_with_min_power_total
    ∷ []

-- The gauges that the callback is registered for.
abbrev pub registered : List Gauge
registered =
    participants_by_status ∷ participants_total ∷ participants_coverage ∷ deals_total
    ∷ deals_coverage ∷ []

-- What the metrics library answers, `none` being no error: `prometheus.New`, the making of a gauge
-- by its name, and `RegisterCallback`.
pub record Meter : Type 0 where
  pub new_exporter : Option Error
  pub make : String → Option Error
  pub register : List Gauge → Option Error

-- One gauge after another, until one fails.
unfoldable pub make_gauges : Meter → List Gauge → Option Error
unfolding gauge_name
make_gauges meter [] = meter.register registered
make_gauges meter (g ∷ gs) =
    let more = make_gauges meter gs in
    elim (meter.make (gauge_name g)) [ some e ↦ some e | none ↦ more ]

abbrev pub is_none {ℓ} : {A : Type ℓ} → Option A → Bool
is_none none = true
is_none (some a) = false

module _ ⦃p : Platform⦄ where
  unfoldable pub start : Meter → Metrics → Option Error × Metrics
  unfolding zeroed make_gauges
  start meter m = (
    elim meter.new_exporter [ some e ↦ some e | none ↦ make_gauges meter gauges ],
    record (zeroed m) { has_exporter = is_none meter.new_exporter },
  )
