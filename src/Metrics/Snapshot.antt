-- ===== src/Metrics/Snapshot.antt =====
-- `metrics.snapshot` of metrics.go.
pub mod Counts
pub mod Unindexed
use heyfil.Base.{
  is_nil, if◌then◌else◌, ◌==◌, nat_eq, string_eq, String, Bool, false, not, ◌&&◌, Option, none,
  some, List, [], ◌∷◌,
}
use heyfil.Base.Int.{ℤ, pos, ltb_ℤ, add64, int_eq, ◌+ℤ◌}
use heyfil.Base.Number.{signed}
use heyfil.Base.Dict.{Dict, insert}
use heyfil.Platform.{
  Platform, AddrInfo, StateMinerPowerResp, TransportProtocol, TransportsQueryResponse,
}
use heyfil.Target.{Target, Status, supports_protocol_id, status_unindexed}
use heyfil.Metrics.{Metrics, bump}

abbrev pub fil_storage_market_1_0_1 : String
fil_storage_market_1_0_1 = "/fil/storage/mk/1.0.1"

abbrev pub fil_storage_market_1_1_0 : String
fil_storage_market_1_1_0 = "/fil/storage/mk/1.1.0"

abbrev pub fil_storage_market_1_1_1 : String
fil_storage_market_1_1_1 = "/fil/storage/mk/1.1.1"

abbrev pub fil_storage_market_1_2_0 : String
fil_storage_market_1_2_0 = "/fil/storage/mk/1.2.0"

-- The local variables of `snapshot`.
pub record Totals : Type 0 where
  pub addressable : ℤ
  pub with_non_zero_deals : ℤ
  pub known_by_indexer : ℤ
  pub deals_known : ℤ
  pub deals_within_day_known : ℤ
  pub deals_within_week_known : ℤ
  pub boost_nodes : ℤ
  pub with_min_power : ℤ
  pub boost_quality_adjusted_power : ℤ
  pub boost_raw_power : ℤ
  pub by_status : Dict Status ℤ
  pub by_agent_short_version : Dict String ℤ
  pub by_market_protocol : Dict String ℤ
  pub by_transport_protocol : Dict String ℤ

abbrev pub no_totals : Totals
no_totals = record {
  addressable = pos 0;
  with_non_zero_deals = pos 0;
  known_by_indexer = pos 0;
  deals_known = pos 0;
  deals_within_day_known = pos 0;
  deals_within_week_known = pos 0;
  boost_nodes = pos 0;
  with_min_power = pos 0;
  boost_quality_adjusted_power = pos 0;
  boost_raw_power = pos 0;
  by_status = [];
  by_agent_short_version = [];
  by_market_protocol = [];
  by_transport_protocol = [];
}

-- `big.NewInt(0).SetString(s, 10)`, added if it is a number
unfoldable pub add_power : String → ℤ → ℤ
add_power s sum = elim (signed s) [ none ↦ sum | some n ↦ sum +ℤ n ]

unfoldable pub bump_if : Bool → String → Dict String ℤ → Dict String ℤ
unfolding bump
bump_if b k d = if b then bump k d else d

module _ ⦃p : Platform⦄ where
  abbrev complete : Option (AddrInfo p.Multiaddr) → Bool
  complete none = false
  complete (some ai) = not (ai.id == "") && not (is_nil ai.addrs)

  -- `t.AddrInfo != nil && t.AddrInfo.ID != "" && len(t.AddrInfo.Addrs) > 0`
  unfoldable pub is_addressable : Target → Bool
  is_addressable t = complete t.addr_info

  unfoldable pub has_deals : Target → Bool
  has_deals t = ltb_ℤ (pos 0) t.deal_count

  unfoldable pub count_known : Target → Totals → Totals
  count_known t a = record a {
    known_by_indexer = add64 a.known_by_indexer (pos 1);
    deals_known = add64 a.deals_known t.deal_count;
    deals_within_day_known = add64 a.deals_within_day_known t.deal_count_within_day;
    deals_within_week_known = add64 a.deals_within_week_known t.deal_count_within_week;
  }

  unfoldable pub count_addressable : Target → Totals → Totals
  unfolding count_known
  count_addressable t a =
      let known = if t.known_by_indexer then count_known t a else a in
      let dealing =
        if has_deals t
        then record known { with_non_zero_deals = add64 known.with_non_zero_deals (pos 1) }
        else a in
      if is_addressable t
      then record dealing { addressable = add64 dealing.addressable (pos 1) }
      else a

  abbrev min_power : Option StateMinerPowerResp → Bool
  min_power none = false
  min_power (some r) = r.has_min_power

  abbrev powers : Option StateMinerPowerResp → Totals → Totals
  powers none a = a
  powers (some r) a = record a {
    boost_quality_adjusted_power =
        add_power r.miner_power.quality_adj_power a.boost_quality_adjusted_power;
    boost_raw_power = add_power r.miner_power.raw_byte_power a.boost_raw_power;
  }

  unfoldable pub count_power : Target → Totals → Totals
  unfolding add_power
  count_power t a =
      let b = record a { with_min_power = add64 a.with_min_power (pos 1) } in
      if not (min_power t.state_miner_power)
      then a
      else if supports_protocol_id t.protocols fil_storage_market_1_2_0
      then powers t.state_miner_power (record b { boost_nodes = add64 b.boost_nodes (pos 1) })
      else b

  unfoldable pub count_markets : List String → Dict String ℤ → Dict String ℤ
  unfolding bump_if
  count_markets protocols d =
      let has = supports_protocol_id protocols in
      bump_if (has fil_storage_market_1_2_0) fil_storage_market_1_2_0 (
        bump_if (has fil_storage_market_1_1_1) fil_storage_market_1_1_1 (
          bump_if (has fil_storage_market_1_1_0) fil_storage_market_1_1_0
            (bump_if (has fil_storage_market_1_0_1) fil_storage_market_1_0_1 d)))

  unfoldable pub count_transports :
      List (TransportProtocol p.Multiaddr) → Dict String ℤ → Dict String ℤ
  unfolding bump
  count_transports [] d = d
  count_transports (tp ∷ rest) d = count_transports rest (bump tp.name d)

  abbrev offered :
      Option (TransportsQueryResponse p.Multiaddr) → List (TransportProtocol p.Multiaddr)
  offered none = []
  offered (some ts) = ts.protocols

  -- One round of the loop, but for `unindexedTargets`.
  unfoldable pub count_target : Target → Totals → Totals
  unfolding count_markets count_transports bump
  count_target t a0 =
      let a = count_power t (count_addressable t a0) in
      record a {
        by_status = bump t.status a.by_status;
        by_agent_short_version =
            bump_if (not (t.agent_short_version == "")) t.agent_short_version
              a.by_agent_short_version;
        by_market_protocol = count_markets t.protocols a.by_market_protocol;
        by_transport_protocol = count_transports (offered t.transports) a.by_transport_protocol;
      }

  unfoldable pub count_targets : Dict String Target → Totals → Totals
  unfolding count_target
  count_targets [] a = a
  count_targets ((_, t) ∷ ts) a = count_targets ts (count_target t a)

  -- `if t.Status == StatusUnindexed { m.unindexedTargets[t.ID] = t }`, for every target
  unfoldable pub note_unindexed : Dict String Target → Dict String Target → Dict String Target
  note_unindexed [] u = u
  note_unindexed ((_, t) ∷ ts) u =
      note_unindexed ts (if t.status == status_unindexed then insert t.id t u else u)

  unfoldable pub snapshot : Dict String Target → Metrics → Metrics
  unfolding count_targets note_unindexed
  snapshot targets m =
      let a = count_targets targets no_totals in
      record m {
        unindexed_targets = note_unindexed targets m.unindexed_targets;
        counts_by_status = a.by_status;
        counts_by_agent_short_version = a.by_agent_short_version;
        counts_by_market_protocol = a.by_market_protocol;
        counts_by_transport_protocol = a.by_transport_protocol;
        total_addressable_participants = a.addressable;
        total_addressable_participants_with_non_zero_deals = a.with_non_zero_deals;
        total_participants_known_by_indexer = a.known_by_indexer;
        total_deal_count_by_participants_known_to_indexer = a.deals_known;
        total_deal_count_within_day_by_participants_known_to_indexer = a.deals_within_day_known;
        total_deal_count_within_week_by_participants_known_to_indexer = a.deals_within_week_known;
        total_boost_participants = a.boost_nodes;
        total_participants_with_min_power = a.with_min_power;
        total_boost_quality_adjusted_power = a.boost_quality_adjusted_power;
        total_boost_raw_power = a.boost_raw_power;
      }
