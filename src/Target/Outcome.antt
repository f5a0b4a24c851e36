-- ===== src/Target/Outcome.antt =====
-- The status that `check` gives, against the answers of the network.
use heyfil.Base.{
  is_nil, is_nil-true, is_nil-false, Bool-cases, Option-cases, ◌==◌, nat_eq, string_eq, beq_iff,
  String, ◌≡◌, refl, sym, ap, ◌∙◌, ◌≢◌, ◌⊎◌, inl, inr, Bool, true, false, Option, none, some, List,
  [], ◌∷◌, arith,
}
use heyfil.Base.Int.{pos, int_eq}
use heyfil.Base.Dict.{Dict}
use heyfil.Base.Result.{http_error, rpc_error, other, Result, ok, err, Result-cases}
use heyfil.Platform.{Platform, Net, AddrInfo}
use heyfil.Options.{Options}
use heyfil.FilClient.{state_miner_info, get_head}
use heyfil.FilClient.HeadPattern.{find_head_protocol_matches}
use heyfil.Announce.{announce}
use heyfil.Target.{Target}
use heyfil.Target.Check.{
  continue_check, finish_check, goes_on, check_miner, ends, Resolved, check, resolve,
  check_transports, check_peer, read_agent, check_protocols, find_head_protocol, check_index,
  announce_head, check_head,
}
use heyfil.Target.Meaning.{
  unaddressable, unidentifiable, nothing, no_info, internal, other_topic, later, head_empty,
  rpc_failed, here, refused, provider, unindexed, announced, no_protocols, peer, not_miner,
  head_failed, no_connection, FirstMatch, PeerMeaning, Meaning, NoMatch, http_failed, HeadMeaning,
}
use heyfil.DealCounts.{DealCounts}

not_both : {b : Bool} → b ≡ false → b ≡ true → ⊥
not_both e q = cc

module _ ⦃p : Platform⦄ (net : Net) (opts : Options) where
  announce_head-status :
      (ai : AddrInfo p.Multiaddr) (t : Target) (pid : String)
      → (get_head net ai pid).0 ≡ ok t.head
      → p.cid_equals p.cid_undef t.head ≡ false
      → HeadMeaning net opts ai pid (announce_head net opts ai t).0.status
  unfolding announce_head
  announce_head-status ai t pid g u =
      elim (Result-cases (announce net opts.http_indexer_endpoint ai t.head).0) [
        | inl (tt, e) ↦ announced t.head g u e (rw e)
        | inr (x, e) ↦ refused t.head x g u e (rw e)
      ]

  check_head-status :
      (ai : AddrInfo p.Multiaddr) (t : Target)
      → HeadMeaning net opts ai t.head_protocol (check_head net opts ai t).0.status
  unfolding check_head
  check_head-status ai t = elim (Result-cases (get_head net ai t.head_protocol).0) [
    | inr (x, e) ↦ head_failed x e (rw e)
    | inl (c, e) ↦ elim (Bool-cases (p.cid_equals p.cid_undef c)) [
      | inl empty ↦ head_empty c e empty (rw (e, empty))
      | inr full ↦
          rw (e, full)
            (announce_head-status ai (record t { head = c; error = none }) t.head_protocol e full)
    ]
  ]

  -- The loop over the protocols finds the first match, or there is none.
  find_head_protocol-cases :
      (pids : List String) (t : Target)
      → (((find_head_protocol pids t).0 ≡ false) × NoMatch pids)
        ⊎ (((find_head_protocol pids t).0 ≡ true)
            × FirstMatch pids
                (find_head_protocol pids t).1.head_protocol
                (find_head_protocol pids t).1.topic)
  unfolding find_head_protocol
  find_head_protocol-cases [] t = inl (refl, tt)
  find_head_protocol-cases (pid ∷ pids) t = elim (Bool-cases (find_head_protocol_matches pid).0) [
    | inl found ↦ rw found (inr (refl, here (λ i. (found i, (find_head_protocol_matches pid).1))))
    | inr missed ↦
        rw missed
          (elim (find_head_protocol-cases pids
            (record t { topic = (find_head_protocol_matches pid).1 })) [
              | inl (f, none_of) ↦ inl (f, (refl, none_of))
              | inr (f, first) ↦ inr (f, later missed first)
            ])
  ]

  check_index-status :
      (ai : AddrInfo p.Multiaddr) (t : Target)
      → net.connect ai ≡ none
      → net.get_protocols ai.id ≡ ok t.protocols
      → PeerMeaning net opts ai (check_index net opts ai t).0.status
  unfolding check_index
  check_index-status ai t con pro = elim (find_head_protocol-cases t.protocols t) [
    | inl (missed, none_of) ↦ rw missed (unindexed t.protocols con pro none_of refl)
    | inr (found, first) ↦
        let t' = (find_head_protocol t.protocols t).1 in
        rw found (elim (Bool-cases (t'.topic == opts.topic)) [
          | inl same ↦
              let e = (beq_iff t'.topic opts.topic).0 same in
              rw same (
                provider t.protocols t'.head_protocol con pro (rw e at first)
                  (check_head-status ai t'))
          | inr differ ↦ rw differ (
              other_topic t.protocols t'.head_protocol t'.topic con pro first
                (λ e. cc (differ, (beq_iff t'.topic opts.topic).1 e)) refl)
        ])
  ]

  -- What precedes leaves the protocols as they were read.
  protocols-check_transports :
      (ai : AddrInfo p.Multiaddr) (t : Target)
      → (check_transports net opts ai t).0.protocols ≡ t.protocols
  unfolding check_transports
  protocols-check_transports ai t = ground arith

  protocols-read_agent :
      (r : Result (Option String)) (t : Target) → (read_agent r t).protocols ≡ t.protocols
  unfolding read_agent
  protocols-read_agent (err e) t = refl
  protocols-read_agent (ok none) t = refl
  protocols-read_agent (ok (some v)) t = refl

  check_protocols-status :
      (ai : AddrInfo p.Multiaddr) (t : Target)
      → net.connect ai ≡ none
      → PeerMeaning net opts ai (check_protocols net opts ai t).0.status
  unfolding check_protocols
  check_protocols-status ai t con = elim (Result-cases (net.get_protocols ai.id)) [
    | inr (x, e) ↦ rw (e, check_protocols) (no_protocols x con e refl)
    | inl (pids, e) ↦
        let t' = record t { protocols = pids; error = none } in
        let read = read_agent (net.get_agent_version ai.id) t' in
        rw (e, check_protocols)
          (check_index-status ai (check_transports net opts ai read).0 con
            (e ∙ ap ok (sym (protocols-check_transports ai read ∙ protocols-read_agent _ t'))))
  ]

  check_peer-status :
      (ai : AddrInfo p.Multiaddr) (t : Target)
      → PeerMeaning net opts ai (check_peer net opts ai t).0.status
  unfolding check_peer
  check_peer-status ai t = elim (Option-cases (net.connect ai)) [
    | inr (x, e) ↦ rw e (no_connection x e refl)
    | inl e ↦ rw e (check_protocols-status ai _ e)
  ]

  -- What the switch on the address information has established when it ends the check or goes on.
  abbrev Settled : Result (Option (AddrInfo p.Multiaddr)) → Resolved → Type 0
  Settled info (ends s) = Meaning net opts info s
  Settled info (goes_on ai) = (info ≡ ok (some ai)) × (ai.id ≢ "") × (ai.addrs ≢ [])

  resolve-Settled : (info : Result (Option (AddrInfo p.Multiaddr))) → Settled info (resolve info)
  unfolding resolve
  resolve-Settled (err (http_error code m)) = http_failed code m refl refl
  resolve-Settled (err (rpc_error code m)) = elim (Bool-cases (code == pos 1)) [
    | inl e ↦ rw e (not_miner m (ap (λ c. err (rpc_error c m)) ((beq_iff code (pos 1)).0 e)) refl)
    | inr e ↦ rw e (rpc_failed code m refl (λ q. cc (e, (beq_iff code (pos 1)).1 q)) refl)
  ]
  resolve-Settled (err (other m)) = internal m refl refl
  resolve-Settled (ok none) = no_info refl refl
  resolve-Settled (ok (some ai)) = elim (Bool-cases (ai.id == "")) [
    | inl i ↦ elim (Bool-cases (is_nil ai.addrs)) [
      | inl a ↦ rw (i, a) (nothing ai refl ((beq_iff ai.id "").0 i) (is_nil-true _ a) refl)
      | inr a ↦ rw (i, a) (unidentifiable ai refl ((beq_iff ai.id "").0 i) (is_nil-false _ a) refl)
    ]
    | inr i ↦
        let id_given = λ (q : ai.id ≡ ""). not_both i ((beq_iff ai.id "").1 q) in
        elim (Bool-cases (is_nil ai.addrs)) [
          | inl a ↦ rw (i, a) (unaddressable ai refl id_given (is_nil-true _ a) refl)
          | inr a ↦ rw (i, a) (refl, id_given, is_nil-false _ a)
        ]
  ]

  continue_check-status :
      (t : Target) (info : Result (Option (AddrInfo p.Multiaddr))) (r : Resolved)
      → Settled info r
      → Meaning net opts info (continue_check net opts r t).0.status
  unfolding continue_check
  continue_check-status t info (ends s) m = m
  continue_check-status t info (goes_on ai) (e, i, a) = peer ai e i a (check_peer-status ai t)

  -- The status of a checked target means what the network answered, for every answer.
  pub check-Meaning :
      (stats : Dict String DealCounts) (t : Target)
      → Meaning net opts (state_miner_info net t.id).0 (check net opts stats t).0.status
  unfolding check check_miner finish_check
  check-Meaning stats t = continue_check-status _ _ (resolve _) (resolve-Settled _)
