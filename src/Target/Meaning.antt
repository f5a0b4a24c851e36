-- ===== src/Target/Meaning.antt =====
-- What each status of a target means, stated from the answers of the network alone.
use heyfil.Base.{All, String, ◌≡◌, ◌≢◌, true, false, Option, none, some, List, [], ◌∷◌}
use heyfil.Base.Int.{ℤ, pos, int_eq}
use heyfil.Base.Result.{Error, http_error, rpc_error, other, Result, ok, err}
use heyfil.Platform.{Platform, Net, AddrInfo}
use heyfil.Options.{Options}
use heyfil.FilClient.{get_head}
use heyfil.FilClient.HeadPattern.{find_head_protocol_matches}
use heyfil.Announce.{announce}
use heyfil.Target.{
  Status, status_ok, status_api_call_failed, status_internal_error, status_unknown_rpc_error,
  status_not_miner, status_unreachable, status_unaddressable, status_unindexed,
  status_topic_mismatch, status_empty_head, status_get_head_error, status_announce_error,
  status_unidentifiable, status_no_addr_info,
}

-- The first protocol that is a head protocol, with its topic.
pub data FirstMatch : List String → String → String → Type 0 where
  here :
      {pid topic : String} {pids : List String}
      → find_head_protocol_matches pid ≡ (true, topic)
      → FirstMatch (pid ∷ pids) pid topic
  later :
      {pid q topic : String} {pids : List String}
      → (find_head_protocol_matches pid).0 ≡ false
      → FirstMatch pids q topic
      → FirstMatch (pid ∷ pids) q topic

abbrev pub NoMatch : List String → Type 0
NoMatch pids = All (λ pid. (find_head_protocol_matches pid).0 ≡ false) pids

module _ ⦃p : Platform⦄ (net : Net) (opts : Options) where
  -- The end of a check, for a peer whose first head protocol is `pid` on the expected topic.
  pub data HeadMeaning (ai : AddrInfo p.Multiaddr) (pid : String) (s : Status) : Type 0 where
    head_failed :
        (e : Error)
        → (get_head net ai pid).0 ≡ err e
        → s ≡ status_get_head_error
        → HeadMeaning ai pid s
    head_empty :
        (c : p.Cid)
        → (get_head net ai pid).0 ≡ ok c
        → p.cid_equals p.cid_undef c ≡ true
        → s ≡ status_empty_head
        → HeadMeaning ai pid s
    refused :
        (c : p.Cid) (e : Error)
        → (get_head net ai pid).0 ≡ ok c
        → p.cid_equals p.cid_undef c ≡ false
        → (announce net opts.http_indexer_endpoint ai c).0 ≡ err e
        → s ≡ status_announce_error
        → HeadMeaning ai pid s
    announced :
        (c : p.Cid)
        → (get_head net ai pid).0 ≡ ok c
        → p.cid_equals p.cid_undef c ≡ false
        → (announce net opts.http_indexer_endpoint ai c).0 ≡ ok tt
        → s ≡ status_ok
        → HeadMeaning ai pid s

  -- The check of a peer with complete address information.
  pub data PeerMeaning (ai : AddrInfo p.Multiaddr) (s : Status) : Type 0 where
    no_connection :
        (e : Error) → net.connect ai ≡ some e → s ≡ status_unreachable → PeerMeaning ai s
    no_protocols :
        (e : Error)
        → net.connect ai ≡ none
        → net.get_protocols ai.id ≡ err e
        → s ≡ status_unreachable
        → PeerMeaning ai s
    unindexed :
        (pids : List String)
        → net.connect ai ≡ none
        → net.get_protocols ai.id ≡ ok pids
        → NoMatch pids
        → s ≡ status_unindexed
        → PeerMeaning ai s
    other_topic :
        (pids : List String) (pid topic : String)
        → net.connect ai ≡ none
        → net.get_protocols ai.id ≡ ok pids
        → FirstMatch pids pid topic
        → topic ≢ opts.topic
        → s ≡ status_topic_mismatch
        → PeerMeaning ai s
    provider :
        (pids : List String) (pid : String)
        → net.connect ai ≡ none
        → net.get_protocols ai.id ≡ ok pids
        → FirstMatch pids pid opts.topic
        → HeadMeaning ai pid s
        → PeerMeaning ai s

  -- The whole check, from the answer of `StateMinerInfo` on.
  pub data Meaning (info : Result (Option (AddrInfo p.Multiaddr))) (s : Status) : Type 0 where
    http_failed :
        (code : ℤ) (m : String)
        → info ≡ err (http_error code m)
        → s ≡ status_api_call_failed
        → Meaning info s
    not_miner :
        (m : String) → info ≡ err (rpc_error (pos 1) m) → s ≡ status_not_miner → Meaning info s
    rpc_failed :
        (code : ℤ) (m : String)
        → info ≡ err (rpc_error code m)
        → code ≢ pos 1
        → s ≡ status_unknown_rpc_error
        → Meaning info s
    internal : (m : String) → info ≡ err (other m) → s ≡ status_internal_error → Meaning info s
    no_info : info ≡ ok none → s ≡ status_no_addr_info → Meaning info s
    nothing :
        (ai : AddrInfo p.Multiaddr)
        → info ≡ ok (some ai)
        → ai.id ≡ ""
        → ai.addrs ≡ []
        → s ≡ status_no_addr_info
        → Meaning info s
    unidentifiable :
        (ai : AddrInfo p.Multiaddr)
        → info ≡ ok (some ai)
        → ai.id ≡ ""
        → ai.addrs ≢ []
        → s ≡ status_unidentifiable
        → Meaning info s
    unaddressable :
        (ai : AddrInfo p.Multiaddr)
        → info ≡ ok (some ai)
        → ai.id ≢ ""
        → ai.addrs ≡ []
        → s ≡ status_unaddressable
        → Meaning info s
    peer :
        (ai : AddrInfo p.Multiaddr)
        → info ≡ ok (some ai)
        → ai.id ≢ ""
        → ai.addrs ≢ []
        → PeerMeaning ai s
        → Meaning info s
