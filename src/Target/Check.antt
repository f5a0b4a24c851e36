-- ===== src/Target/Check.antt =====
-- `Target.check` of target.go, in the order of the source. Each stage that returns early gives the
-- target as it is then.
use heyfil.Base.{
  is_nil, if◌then◌else◌, ◌==◌, nat_eq, string_eq, String, Bool, true, false, not, ◌&&◌, Option,
  none, some, List, [], ◌∷◌,
}
use heyfil.Base.Int.{pos, int_eq}
use heyfil.Base.Dict.{Dict}
use heyfil.Base.Result.{Error, http_error, rpc_error, other, message, Result, ok, err}
use heyfil.Platform.{Platform, Net, AddrInfo}
use heyfil.Trace.{Log, connect_to, ◌>>=◌, pure}
use heyfil.Options.{Options}
use heyfil.DealCounts.{DealCounts, get_deal_counts}
use heyfil.FilClient.{state_miner_power, state_miner_info, get_head}
use heyfil.FilClient.HeadPattern.{find_head_protocol_matches}
use heyfil.IndexerClient.{is_known_by_indexer}
use heyfil.Announce.{announce}
use heyfil.BoostClient.{query_transports, transports_protocol_id}
use heyfil.Target.{
  Target, Status, supports_protocol_id, status_ok, status_api_call_failed, status_internal_error,
  status_unknown_rpc_error, status_not_miner, status_unreachable, status_unaddressable,
  status_unindexed, status_topic_mismatch, status_empty_head, status_get_head_error,
  status_announce_error, status_unidentifiable, status_no_addr_info,
}
use heyfil.Target.Agent.{agent_short_version}

abbrev value_or {ℓ} : {A : Type ℓ} → A → Result A → A
value_or z (ok a) = a
value_or z (err e) = z

abbrev to_option {ℓ} : {A : Type ℓ} → Result A → Option A
to_option (ok a) = some a
to_option (err e) = none

abbrev pub failure {ℓ} : {A : Type ℓ} → Result A → Option Error
failure (ok a) = none
failure (err e) = some e

-- The status for an error of `stateMinerInfo`, by its dynamic type and code.
unfoldable pub status_of_error : Error → Status
status_of_error (http_error code m) = status_api_call_failed
status_of_error (rpc_error code m) =
    if code == pos 1 then status_not_miner else status_unknown_rpc_error
status_of_error (other m) = status_internal_error

module _ ⦃p : Platform⦄ where
  -- What the `switch` on the address information leaves to check, or the status that ends it.
  pub data Resolved : Type 0 where
    ends : Status → Resolved
    goes_on : AddrInfo p.Multiaddr → Resolved

  unfoldable pub resolve : Result (Option (AddrInfo p.Multiaddr)) → Resolved
  unfolding status_of_error
  resolve (ok none) = ends status_no_addr_info
  resolve (ok (some ai)) =
      if ai.id == "" && is_nil ai.addrs
      then ends status_no_addr_info
      else if ai.id == ""
      then ends status_unidentifiable
      else if is_nil ai.addrs
      then ends status_unaddressable
      else goes_on ai
  resolve (err e) = ends (status_of_error e)

  -- The loop over `t.Protocols`: every round sets the topic, and the first match ends it.
  unfoldable pub find_head_protocol : List String → Target → Bool × Target
  find_head_protocol [] t = (false, t)
  find_head_protocol (pid ∷ pids) t =
      let (found, topic) = find_head_protocol_matches pid in
      let t' = record t { topic = topic } in
      if found then (true, record t' { head_protocol = pid }) else find_head_protocol pids t'

  abbrev joined : Result (Option (AddrInfo p.Multiaddr)) → Option (AddrInfo p.Multiaddr)
  joined (ok o) = o
  joined (err e) = none

  -- `t.AgentVersion, ok = anyAgentVersion.(string)`, if the peerstore has a value
  unfoldable pub read_agent : Result (Option String) → Target → Target
  read_agent (err e) t = t
  read_agent (ok none) t = record t { agent_version = "" }
  read_agent (ok (some v)) t = record t {
    agent_version = v;
    agent_short_version = agent_short_version v;
  }

  module _ (net : Net) (opts : Options) where
    unfoldable pub announce_head : AddrInfo p.Multiaddr → Target → Log Target
    announce_head ai t = announce net opts.http_indexer_endpoint ai t.head >>= λ r. pure (elim r [
      | ok _ ↦ record t { error = none; status = status_ok }
      | err e ↦ record t { error = some e; status = status_announce_error }
    ])

    -- the last `switch`
    unfoldable pub check_head : AddrInfo p.Multiaddr → Target → Log Target
    check_head ai t = get_head net ai t.head_protocol >>= λ r. elim r [
      | err e ↦
          pure (record t { head = p.cid_undef; error = some e; status = status_get_head_error })
      | ok head ↦
          let t' = record t { head = head; error = none } in
          if p.cid_equals p.cid_undef head
          then pure (record t' { status = status_empty_head })
          else announce_head ai t'
    ]

    unfoldable pub check_index : AddrInfo p.Multiaddr → Target → Log Target
    check_index ai t =
        let (found, t') = find_head_protocol t.protocols t in
        if not found
        then pure (record t' { status = status_unindexed })
        else if not (t'.topic == opts.topic)
        then pure (record t' { status = status_topic_mismatch })
        else check_head ai t'

    unfoldable pub check_transports : AddrInfo p.Multiaddr → Target → Log Target
    check_transports ai t =
        if supports_protocol_id t.protocols transports_protocol_id
        then (query_transports net ai.id >>= λ r. pure (record t { transports = to_option r }))
        else pure t

    unfoldable pub check_protocols : AddrInfo p.Multiaddr → Target → Log Target
    check_protocols ai t = elim (net.get_protocols ai.id) [
      | err e ↦ pure (record t { protocols = []; error = some e; status = status_unreachable })
      | ok pids ↦
          check_transports ai
            (read_agent (net.get_agent_version ai.id) (record t { protocols = pids; error = none }))
          >>= check_index ai
    ]

    unfoldable pub check_peer : AddrInfo p.Multiaddr → Target → Log Target
    check_peer ai t =
        is_known_by_indexer net opts.http_indexer_endpoint (p.peer_string ai.id) >>= λ known.
        let t' = record t { known_by_indexer = value_or false known } in
        (net.connect ai, connect_to ai ∷ []) >>= λ r. elim r [
          | some e ↦ pure (record t' { error = some e; status = status_unreachable })
          | none ↦ check_protocols ai (record t' { error = none })
        ]

    unfoldable pub continue_check : Resolved → Target → Log Target
    continue_check (ends s) t = pure (record t { status = s })
    continue_check (goes_on ai) t = check_peer ai t

    -- From the state miner power on.
    unfoldable pub check_miner : Target → Log Target
    check_miner t = state_miner_power net t.id >>= λ power. state_miner_info net t.id >>= λ info.
        let t' = record t {
          state_miner_power = to_option power;
          addr_info = joined info;
          error = failure info;
        } in
        continue_check (resolve info) t'

    -- the deferred function
    unfoldable pub finish_check : Target → Target
    finish_check t = record t {
      last_checked = some net.now;
      err_message = elim t.error [ none ↦ t.err_message | some e ↦ message e ];
    }

    unfoldable pub check : Dict String DealCounts → Target → Log Target
    check stats t =
        let counts = get_deal_counts stats t.id in
        check_miner (record t {
          deal_count = counts.count;
          deal_count_within_day = counts.count_within_day;
          deal_count_within_week = counts.count_within_week;
        })
        >>= λ t'. pure (finish_check t')
