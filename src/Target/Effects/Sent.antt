-- ===== src/Target/Effects/Sent.antt =====
-- The announcements that a check sends, against its status.
use heyfil.Base.{
  Bool-cases, Option-cases, ◌==◌, nat_eq, string_eq, ℕ, String, ◌≡◌, refl, ap, ◌∙◌, ◌≢◌, inl, inr,
  Option, none, some, List, [], ◌∷◌, ◌++◌, arith,
}
use heyfil.Base.Dict.{Dict}
use heyfil.Base.Result.{other, rpc_error, http_error, Error, Result, ok, err, Result-cases}
use heyfil.Platform.{Platform, Net, AddrInfo}
use heyfil.Trace.{Call, connect_to, Log, pure}
use heyfil.Options.{Options}
use heyfil.DealCounts.{DealCounts}
use heyfil.FilClient.{state_miner_info, state_miner_power, get_head}
use heyfil.IndexerClient.{is_known_by_indexer}
use heyfil.Announce.{announcement_body, announce_request}
use heyfil.Target.{Target, status_ok, status_announce_error}
use heyfil.Target.Check.{
  status_of_error, status_of_error, Resolved, ends, goes_on, resolve, find_head_protocol,
  announce_head, check_head, check_index, check_protocols, check_peer, continue_check, check_miner,
  finish_check, check,
}
use heyfil.Target.Effects.{
  put_put, puts, puts-append, puts_prefix, MakesRequests, puts-known, puts-head, puts-transports,
  delivery, announce-cases,
}

module _ ⦃p : Platform⦄ (net : Net) (opts : Options) (makes : MakesRequests net) where
  module _ (info : Result (Option (AddrInfo p.Multiaddr))) where
    -- What a check has sent to the indexer when it leaves a target.
    pub data Sent (r : Log Target) : Type 0 where
      -- nothing was announced, and the status is not that it was
      silent : puts r.1 ≡ [] → r.0.status ≢ status_ok → Sent r
      -- the head was announced once and accepted
      delivered :
          (ai : AddrInfo p.Multiaddr) (body : List ℕ)
          → info ≡ ok (some ai)
          → announcement_body ai r.0.head ≡ ok body
          → puts r.1 ≡ announce_request opts.http_indexer_endpoint body ∷ []
          → delivery net opts body ≡ ok tt
          → r.0.status ≡ status_ok
          → Sent r
      -- the head was announced once and not accepted
      rejected :
          (ai : AddrInfo p.Multiaddr) (body : List ℕ) (e : Error)
          → info ≡ ok (some ai)
          → announcement_body ai r.0.head ≡ ok body
          → puts r.1 ≡ announce_request opts.http_indexer_endpoint body ∷ []
          → delivery net opts body ≡ err e
          → r.0.status ≡ status_announce_error
          → Sent r

    Sent-prefix : (k : List Call) (r : Log Target) → puts k ≡ [] → Sent r → Sent (r.0, k ++ r.1)
    Sent-prefix k r e (silent l s) = silent (puts_prefix k r.1 e ∙ l) s
    Sent-prefix k r e (delivered ai body i b l q s) =
        delivered ai body i b (puts_prefix k r.1 e ∙ l) q s
    Sent-prefix k r e (rejected ai body x i b l q s) =
        rejected ai body x i b (puts_prefix k r.1 e ∙ l) q s

    silent_with : (t : Target) → t.status ≢ status_ok → Sent (pure t)
    silent_with t s = silent refl s

    announce_head-Sent :
        (ai : AddrInfo p.Multiaddr) (t : Target)
        → info ≡ ok (some ai)
        → Sent (announce_head net opts ai t)
    unfolding announce_head
    announce_head-Sent ai t i = elim (announce-cases net opts makes ai t.head) [
      | inl (x, e) ↦ rw e (silent_with _ (λ q. cc))
      | inr (body, b, e) ↦ elim (Result-cases (delivery net opts body)) [
        | inl (tt, f) ↦ rw (e, f) (delivered ai body i b (rw put_put) f refl)
        | inr (x, f) ↦ rw (e, f) (rejected ai body x i b (rw put_put) f refl)
      ]
    ]

    check_head-Sent :
        (ai : AddrInfo p.Multiaddr) (t : Target)
        → info ≡ ok (some ai)
        → Sent (check_head net opts ai t)
    unfolding check_head
    check_head-Sent ai t i =
        let asked = puts-head net opts makes ai t.head_protocol in
        elim (Result-cases (get_head net ai t.head_protocol).0) [
          | inr (x, e) ↦ rw e (Sent-prefix _ (pure _) asked (silent_with _ (λ q. cc)))
          | inl (c, e) ↦ elim (Bool-cases (p.cid_equals p.cid_undef c)) [
            | inl empty ↦ rw (e, empty) (Sent-prefix _ (pure _) asked (silent_with _ (λ q. cc)))
            | inr full ↦ rw (e, full) (Sent-prefix _ _ asked (announce_head-Sent ai _ i))
          ]
        ]

    check_index-Sent :
        (ai : AddrInfo p.Multiaddr) (t : Target)
        → info ≡ ok (some ai)
        → Sent (check_index net opts ai t)
    unfolding check_index
    check_index-Sent ai t i =
        let t' = (find_head_protocol t.protocols t).1 in
        elim (Bool-cases (find_head_protocol t.protocols t).0) [
          | inr missed ↦ rw missed (silent_with _ (λ q. cc))
          | inl found ↦ elim (Bool-cases (t'.topic == opts.topic)) [
            | inr differ ↦ rw (found, differ) (silent_with _ (λ q. cc))
            | inl same ↦ rw (found, same) (check_head-Sent ai t' i)
          ]
        ]

    check_protocols-Sent :
        (ai : AddrInfo p.Multiaddr) (t : Target)
        → info ≡ ok (some ai)
        → Sent (check_protocols net opts ai t)
    unfolding check_protocols
    check_protocols-Sent ai t i = elim (Result-cases (net.get_protocols ai.id)) [
      | inr (x, e) ↦ rw (e, check_protocols) (silent_with _ (λ q. cc))
      | inl (pids, e) ↦
          rw (e, check_protocols)
            (Sent-prefix _ _ (puts-transports net opts makes ai _) (check_index-Sent ai _ i))
    ]

    check_peer-Sent :
        (ai : AddrInfo p.Multiaddr) (t : Target)
        → info ≡ ok (some ai)
        → Sent (check_peer net opts ai t)
    unfolding check_peer
    check_peer-Sent ai t i =
        let known = is_known_by_indexer net opts.http_indexer_endpoint (p.peer_string ai.id) in
        let asked = puts-known net opts makes opts.http_indexer_endpoint (p.peer_string ai.id) in
        elim (Option-cases (net.connect ai)) [
          | inr (x, e) ↦
              rw e (Sent-prefix known.1 (_, connect_to ai ∷ []) asked (silent refl (λ q. cc)))
          | inl e ↦ rw e (
              Sent-prefix known.1 (_, connect_to ai ∷ _) asked
                (Sent-prefix (connect_to ai ∷ []) _ refl (check_protocols-Sent ai _ i)))
        ]

    -- What the switch on the address information leaves to check.
    abbrev Ready : Resolved → Type 0
    Ready (ends s) = s ≢ status_ok
    Ready (goes_on ai) = info ≡ ok (some ai)

    continue_check-Sent : (t : Target) (r : Resolved) → Ready r → Sent (continue_check net opts r t)
    unfolding continue_check
    continue_check-Sent t (ends s) h = silent_with _ h
    continue_check-Sent t (goes_on ai) h = check_peer-Sent ai t h

  resolve-Ready : (info : Result (Option (AddrInfo p.Multiaddr))) → Ready info (resolve info)
  unfolding resolve status_of_error
  resolve-Ready (err (http_error code m)) = λ q. cc
  resolve-Ready (err (rpc_error code m)) = ground arith
  resolve-Ready (err (other m)) = λ q. cc
  resolve-Ready (ok none) = λ q. cc
  resolve-Ready (ok (some ai)) = ground arith

  puts-power : (id : String) → puts (state_miner_power net id).1 ≡ []
  unfolding state_miner_power
  puts-power id = refl

  puts-info : (id : String) → puts (state_miner_info net id).1 ≡ []
  unfolding state_miner_info
  puts-info id = refl

  check_miner-Sent : (t : Target) → Sent (state_miner_info net t.id).0 (check_miner net opts t)
  unfolding check_miner
  check_miner-Sent t =
      let info = (state_miner_info net t.id).0 in
      Sent-prefix info _ (_, _) (puts-power t.id)
        (Sent-prefix info _ _ (puts-info t.id) (continue_check-Sent info _ _ (resolve-Ready info)))

  Sent-finish_check :
      (info : Result (Option (AddrInfo p.Multiaddr))) (r : Log Target)
      → Sent info r
      → Sent info (finish_check net opts r.0, r.1 ++ [])
  unfolding finish_check
  Sent-finish_check info r (silent l s) = silent (puts-append r.1 [] ∙ ap (λ q. q ++ []) l) s
  Sent-finish_check info r (delivered ai body i b l q s) =
      delivered ai body i b (puts-append r.1 [] ∙ ap (λ q. q ++ []) l) q s
  Sent-finish_check info r (rejected ai body x i b l q s) =
      rejected ai body x i b (puts-append r.1 [] ∙ ap (λ q. q ++ []) l) q s

  -- If the requests that are made are those asked for, a check sends at most one PUT request: with
  -- the status that it succeeded it announced the head that it leaves once, and the indexer accepted
  -- it; with a request that was not accepted its status is that the announcement failed.
  pub check-Sent :
      (stats : Dict String DealCounts) (t : Target)
      → Sent (state_miner_info net t.id).0 (check net opts stats t)
  unfolding check
  check-Sent stats t = Sent-finish_check _ _ (check_miner-Sent _)
