-- ===== src/Target/Bookkeeping.antt =====
-- What a check keeps of a target, and how its error and its status go together.
use heyfil.Base.Int.{pos, int_eq, int_dec}
use heyfil.Base.{
  is_nil, Bool-cases, Option-cases, is_some, ◌==◌, nat_eq, string_eq, String, ◌≡◌, refl, ap, ◌∙◌,
  inl, inr, Bool, ◌||◌, Option, none, some, List, [], ◌∷◌, ℕ_discrete,
}
use heyfil.Target.{
  status_announce_error, status_get_head_error, status_unreachable, supports_protocol_id,
  status_not_miner, status_unknown_rpc_error, status_internal_error, Target, status_api_call_failed,
  Status,
}
use heyfil.Platform.{AddrInfo, Net, Platform}
use heyfil.Target.Check.{
  finish_check, check, continue_check, failure, status_of_error, check_peer, check_protocols,
  resolve, check_transports, read_agent, announce_head, check_miner, check_head, check_index,
  find_head_protocol,
}
use heyfil.Options.{Options}
use heyfil.FilClient.HeadPattern.{find_head_protocol_matches}
use heyfil.Trace.{◌>>=◌}
use heyfil.Base.Result.{message, Error, other, rpc_error, http_error, ok, err, Result-cases, Result}
use heyfil.BoostClient.{transports_protocol_id}
use heyfil.Announce.{announce}
use heyfil.FilClient.{state_miner_info, get_head}
use heyfil.Base.Dict.{Dict}
use heyfil.DealCounts.{get_deal_counts, DealCounts}

-- Whether a status tells of a call that failed.
unfoldable pub is_failure : Status → Bool
is_failure s =
    s == status_api_call_failed
    || (s == status_internal_error
        || (s == status_unknown_rpc_error
            || (s == status_not_miner
                || (s == status_unreachable
                    || (s == status_get_head_error || s == status_announce_error)))))

module _ ⦃p : Platform⦄ where
  -- What the stages of a check leave alone.
  abbrev pub Kept : Target → Target → Type 0
  Kept t t' =
      (t'.id ≡ t.id)
      × (t'.err_message ≡ t.err_message)
      × (t'.deal_count ≡ t.deal_count)
      × (t'.deal_count_within_day ≡ t.deal_count_within_day)
      × (t'.deal_count_within_week ≡ t.deal_count_within_week)

  -- There is an error for the statuses of failed calls, and for these only.
  abbrev pub Told : Target → Type 0
  Told t = is_some t.error ≡ is_failure t.status

  abbrev Stage : Target → Target → Type 0
  Stage t t' = Kept t t' × Told t'

  Kept-refl : (t : Target) → Kept t t
  Kept-refl t = (refl, refl, refl, refl, refl)

  Stage-after : (t t' t'' : Target) → Kept t t' → Stage t' t'' → Stage t t''
  Stage-after t t' t'' (a, b, c, d, e) ((a', b', c', d', e'), told) =
      ((a' ∙ a, b' ∙ b, c' ∙ c, d' ∙ d, e' ∙ e), told)

  find_head_protocol-Kept :
      (pids : List String) (t : Target)
      → Kept t (find_head_protocol pids t).1 × ((find_head_protocol pids t).1.error ≡ t.error)
  unfolding find_head_protocol
  find_head_protocol-Kept [] t = (Kept-refl t, refl)
  find_head_protocol-Kept (pid ∷ pids) t = elim (Bool-cases (find_head_protocol_matches pid).0) [
    | inl e ↦ rw e (Kept-refl t, refl)
    | inr e ↦
        rw e
          (find_head_protocol-Kept pids (record t { topic = (find_head_protocol_matches pid).1 }))
  ]

  module _ (net : Net) (opts : Options) where
    announce_head-Stage :
        (ai : AddrInfo p.Multiaddr) (t : Target) → Stage t (announce_head net opts ai t).0
    unfolding announce_head is_failure int_dec ℕ_discrete
    announce_head-Stage ai t =
        elim (Result-cases (announce net opts.http_indexer_endpoint ai t.head).0) [
          | inl (r, e) ↦ rw e (Kept-refl t, refl)
          | inr (x, e) ↦ rw e (Kept-refl t, refl)
        ]

    check_head-Stage :
        (ai : AddrInfo p.Multiaddr) (t : Target) → Stage t (check_head net opts ai t).0
    unfolding check_head is_failure int_dec ℕ_discrete
    check_head-Stage ai t = elim (Result-cases (get_head net ai t.head_protocol).0) [
      | inr (x, e) ↦ rw e (Kept-refl t, refl)
      | inl (c, e) ↦ elim (Bool-cases (p.cid_equals p.cid_undef c)) [
        | inl empty ↦ rw (e, empty) (Kept-refl t, refl)
        | inr full ↦ rw (e, full) (announce_head-Stage ai (record t { head = c; error = none }))
      ]
    ]

    check_index-Stage :
        (ai : AddrInfo p.Multiaddr) (t : Target)
        → t.error ≡ none
        → Stage t (check_index net opts ai t).0
    unfolding check_index is_failure int_dec ℕ_discrete
    check_index-Stage ai t clear =
        let (kept, same) = find_head_protocol-Kept t.protocols t in
        let found = (find_head_protocol t.protocols t).1 in
        elim (Bool-cases (find_head_protocol t.protocols t).0) [
          | inr e ↦ rw e (kept, ap is_some (same ∙ clear))
          | inl e ↦ elim (Bool-cases ((find_head_protocol t.protocols t).1.topic == opts.topic)) [
            | inr f ↦ rw (e, f) (kept, ap is_some (same ∙ clear))
            | inl f ↦
                rw (e, f)
                  (Stage-after t found (check_head net opts ai found).0 kept
                    (check_head-Stage ai found))
          ]
        ]

    check_transports-Kept :
        (ai : AddrInfo p.Multiaddr) (t : Target)
        → Kept t (check_transports net opts ai t).0
          × ((check_transports net opts ai t).0.error ≡ t.error)
    unfolding check_transports
    check_transports-Kept ai t =
        elim (Bool-cases (supports_protocol_id t.protocols transports_protocol_id)) [
          | inl e ↦ rw e (Kept-refl t, refl)
          | inr e ↦ rw e (Kept-refl t, refl)
        ]

    read_agent-Kept :
        (r : Result (Option String)) (t : Target)
        → Kept t (read_agent r t) × ((read_agent r t).error ≡ t.error)
    unfolding read_agent
    read_agent-Kept (err e) t = (Kept-refl t, refl)
    read_agent-Kept (ok none) t = (Kept-refl t, refl)
    read_agent-Kept (ok (some v)) t = (Kept-refl t, refl)

    check_listed-Stage :
        (ai : AddrInfo p.Multiaddr) (t : Target)
        → t.error ≡ none
        → Stage t
            (check_transports net opts ai (read_agent (net.get_agent_version ai.id) t)
              >>= check_index net opts ai).0
    check_listed-Stage ai t clear =
        let known = read_agent (net.get_agent_version ai.id) t in
        let asked = (check_transports net opts ai known).0 in
        let (kept, same) = read_agent-Kept (net.get_agent_version ai.id) t in
        let (kept', same') = check_transports-Kept ai known in
        let rest = check_index-Stage ai asked (same' ∙ same ∙ clear) in
        let last = (check_index net opts ai asked).0 in
        Stage-after t known last kept (Stage-after known asked last kept' rest)

    check_protocols-Stage :
        (ai : AddrInfo p.Multiaddr) (t : Target) → Stage t (check_protocols net opts ai t).0
    unfolding check_protocols is_failure int_dec ℕ_discrete
    check_protocols-Stage ai t = elim (Result-cases (net.get_protocols ai.id)) [
      | inr (x, e) ↦ rw (e, check_protocols) (Kept-refl t, refl)
      | inl (pids, e) ↦
          rw (e, check_protocols)
            (check_listed-Stage ai (record t { protocols = pids; error = none }) refl)
    ]

    check_peer-Stage :
        (ai : AddrInfo p.Multiaddr) (t : Target) → Stage t (check_peer net opts ai t).0
    unfolding check_peer is_failure int_dec ℕ_discrete
    check_peer-Stage ai t = elim (Option-cases (net.connect ai)) [
      | inl e ↦ rw e (check_protocols-Stage ai (record t { known_by_indexer = _; error = none }))
      | inr (x, e) ↦ rw e (Kept-refl t, refl)
    ]

    -- The error is that of `stateMinerInfo` when the check goes on from there.
    continue_check-Stage :
        (info : Result (Option (AddrInfo p.Multiaddr))) (t : Target)
        → t.error ≡ failure info
        → Stage t (continue_check net opts (resolve info) t).0
    unfolding continue_check resolve status_of_error is_failure int_dec ℕ_discrete
    continue_check-Stage (err (http_error code m)) t e = (Kept-refl t, ap is_some e)
    continue_check-Stage (err (rpc_error code m)) t e = elim (Bool-cases (code == pos 1)) [
      | inl q ↦ rw q (Kept-refl t, ap is_some e)
      | inr q ↦ rw q (Kept-refl t, ap is_some e)
    ]
    continue_check-Stage (err (other m)) t e = (Kept-refl t, ap is_some e)
    continue_check-Stage (ok none) t e = (Kept-refl t, ap is_some e)
    continue_check-Stage (ok (some ai)) t e = elim (Bool-cases (ai.id == "")) [
      | inl q ↦ elim (Bool-cases (is_nil ai.addrs)) [
        | inl r ↦ rw (q, r) (Kept-refl t, ap is_some e)
        | inr r ↦ rw (q, r) (Kept-refl t, ap is_some e)
      ]
      | inr q ↦ elim (Bool-cases (is_nil ai.addrs)) [
        | inl r ↦ rw (q, r) (Kept-refl t, ap is_some e)
        | inr r ↦ rw (q, r) (check_peer-Stage ai t)
      ]
    ]

    check_miner-Stage : (t : Target) → Stage t (check_miner net opts t).0
    unfolding check_miner
    check_miner-Stage t = continue_check-Stage (state_miner_info net t.id).0 _ refl

    err_message-finish_check :
        (t : Target)
        → ((e : Error) → t.error ≡ some e → (finish_check net opts t).err_message ≡ message e)
          × (t.error ≡ none → (finish_check net opts t).err_message ≡ t.err_message)
    unfolding finish_check
    err_message-finish_check t = (λ e q. rw q, λ q. rw q)

    abbrev counted : Dict String DealCounts → Target → Target
    counted stats t =
        let counts = get_deal_counts stats t.id in
        record t {
          deal_count = counts.count;
          deal_count_within_day = counts.count_within_day;
          deal_count_within_week = counts.count_within_week;
        }

    -- A check keeps the target's identifier, takes the deal counts of the last refresh, and notes
    -- the time. There is an error exactly for the statuses of failed calls, and then the error's
    -- text is noted; without an error the old text stays.
    pub check-Kept :
        (stats : Dict String DealCounts) (t : Target)
        → let t' = (check net opts stats t).0 in
          let counts = get_deal_counts stats t.id in
          (t'.id ≡ t.id)
          × (t'.deal_count ≡ counts.count)
          × (t'.deal_count_within_day ≡ counts.count_within_day)
          × (t'.deal_count_within_week ≡ counts.count_within_week)
          × (t'.last_checked ≡ some net.now)
          × (is_some t'.error ≡ is_failure t'.status)
          × ((e : Error) → t'.error ≡ some e → t'.err_message ≡ message e)
          × (t'.error ≡ none → t'.err_message ≡ t.err_message)
    unfolding check finish_check
    check-Kept stats t =
        let end = (check_miner net opts (counted stats t)).0 in
        let ((id, text, all, day, week), told) = check_miner-Stage (counted stats t) in
        let (noted, old) = err_message-finish_check end in
        (id, all, day, week, refl, told, noted, λ q. old q ∙ text)
