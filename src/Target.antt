-- ===== src/Target.antt =====
-- target.go: a state market participant, its status, and what is asked about it.
pub mod Agent
pub mod Bookkeeping
pub mod Check
pub mod Effects
pub mod Meaning
pub mod Outcome
use heyfil.Base.{
  if◌then◌else◌, ◌==◌, nat_eq, string_eq, String, Bool, true, false, Option, none, some, List, [],
  ◌∷◌,
}
use heyfil.Base.Int.{ℤ, pos}
use heyfil.Base.Result.{Error, Result, ok, err}
use heyfil.Platform.{
  Platform, AddrInfo, StateMinerPowerResp, TransportProtocol, TransportsQueryResponse,
}

-- `Status` is an int, and its named values count from 0.
abbrev pub Status : Type 0
Status = ℤ

abbrev pub status_unknown : Status
status_unknown = pos 0

abbrev pub status_ok : Status
status_ok = pos 1

abbrev pub status_api_call_failed : Status
status_api_call_failed = pos 2

abbrev pub status_internal_error : Status
status_internal_error = pos 3

abbrev pub status_unknown_rpc_error : Status
status_unknown_rpc_error = pos 4

abbrev pub status_not_miner : Status
status_not_miner = pos 5

abbrev pub status_unreachable : Status
status_unreachable = pos 6

abbrev pub status_unaddressable : Status
status_unaddressable = pos 7

abbrev pub status_unindexed : Status
status_unindexed = pos 8

abbrev pub status_topic_mismatch : Status
status_topic_mismatch = pos 9

abbrev pub status_empty_head : Status
status_empty_head = pos 10

abbrev pub status_get_head_error : Status
status_get_head_error = pos 11

abbrev pub status_announce_error : Status
status_announce_error = pos 12

abbrev pub status_unidentifiable : Status
status_unidentifiable = pos 13

abbrev pub status_no_addr_info : Status
status_no_addr_info = pos 14

module _ ⦃p : Platform⦄ where
  -- The pointer to `heyFil` is left out: its parts are arguments where they are used.
  -- `last_checked` is `none` before the first check (the zero time).
  pub record Target : Type 0 where
    pub id : String
    pub status : Status
    pub addr_info : Option (AddrInfo p.Multiaddr)
    pub last_checked : Option p.Time
    pub err_message : String
    pub error : Option Error
    pub topic : String
    pub head_protocol : String
    pub head : p.Cid
    pub known_by_indexer : Bool
    pub protocols : List String
    pub agent_version : String
    pub agent_short_version : String
    pub transports : Option (TransportsQueryResponse p.Multiaddr)
    pub state_miner_power : Option StateMinerPowerResp
    pub deal_count : ℤ
    pub deal_count_within_day : ℤ
    pub deal_count_within_week : ℤ

  -- `hf.newTarget(mid)`
  abbrev pub new_target : String → Target
  new_target mid = record {
    id = mid;
    status = status_unknown;
    addr_info = none;
    last_checked = none;
    err_message = "";
    error = none;
    topic = "";
    head_protocol = "";
    head = p.cid_undef;
    known_by_indexer = false;
    protocols = [];
    agent_version = "";
    agent_short_version = "";
    transports = none;
    state_miner_power = none;
    deal_count = pos 0;
    deal_count_within_day = pos 0;
    deal_count_within_week = pos 0;
  }

  -- the loop of `supportsProtocolID`
  unfoldable pub supports_protocol_id : List String → String → Bool
  supports_protocol_id [] pid = false
  supports_protocol_id (id ∷ ids) pid = if id == pid then true else supports_protocol_id ids pid

  abbrev names_peer : String → Result (AddrInfo p.Multiaddr) → Bool
  names_peer pid (ok addr) = addr.id == pid
  names_peer pid (err e) = false

  -- the two loops of `hasPeerID`
  unfoldable pub any_address : String → List p.Multiaddr → Bool
  any_address pid [] = false
  any_address pid (ma ∷ rest) =
      if names_peer pid (p.addr_info_from_p2p_addr ma) then true else any_address pid rest

  unfoldable pub any_protocol : String → List (TransportProtocol p.Multiaddr) → Bool
  unfolding any_address
  any_protocol pid [] = false
  any_protocol pid (tp ∷ rest) =
      if any_address pid tp.addresses then true else any_protocol pid rest

  abbrev is_peer : String → Option (AddrInfo p.Multiaddr) → Bool
  is_peer pid none = false
  is_peer pid (some ai) = ai.id == pid

  abbrev offers_peer : String → Option (TransportsQueryResponse p.Multiaddr) → Bool
  offers_peer pid none = false
  offers_peer pid (some ts) = any_protocol pid ts.protocols

  unfoldable pub has_peer_id : Target → String → Bool
  unfolding any_protocol
  has_peer_id t pid = if is_peer pid t.addr_info then true else offers_peer pid t.transports
