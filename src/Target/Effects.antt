-- ===== src/Target/Effects.antt =====
-- What a check sends to the indexer's ingest endpoint, and when.
pub mod Sent
use heyfil.Base.{
  if◌then◌else◌, Bool-cases, ◌==◌, nat_eq, string_eq, ==_refl, ℕ, String, ◌≡◌, refl, ap, ◌∙◌, ◌⊎◌,
  inl, inr, true, false, List, [], ◌∷◌, ◌++◌,
}
use heyfil.Base.Dict.{Dict}
use heyfil.Base.Result.{other, rpc_error, http_error, Error, Result, ok, err, Result-cases, ◌>>=◌}
use heyfil.Platform.{Platform, Net, AddrInfo, HttpRequest}
use heyfil.Trace.{Call, rpc, http, connect_to, open_stream, stream_get, Log, pure}
use heyfil.Options.{Options}
use heyfil.DealCounts.{DealCounts}
use heyfil.FilClient.{head_request, state_miner_info, state_miner_power, get_head}
use heyfil.IndexerClient.{is_known_by_indexer, provider_request}
use heyfil.Announce.{announce, announcement_body, announce_request, accepted}
use heyfil.Target.{supports_protocol_id, Target, status_ok, status_announce_error}
use heyfil.Target.Check.{
  status_of_error, status_of_error, Resolved, ends, goes_on, resolve, find_head_protocol,
  announce_head, check_head, check_index, check_transports, check_protocols, check_peer,
  continue_check, check_miner, finish_check, check,
}
use heyfil.BoostClient.{transports_protocol_id, query_transports}

get-ne-put : ◌==◌ {A = String} "GET" "PUT" ≡ false
unfolding string_eq
get-ne-put = refl

put_put : ◌==◌ {A = String} "PUT" "PUT" ≡ true
put_put = ==_refl {A = String} "PUT"

module _ ⦃p : Platform⦄ where
  abbrev keep_put : HttpRequest → List HttpRequest → List HttpRequest
  keep_put req rest = if req.method == "PUT" then req ∷ rest else rest

  -- The PUT requests to the indexer among the calls.
  abbrev pub puts : List Call → List HttpRequest
  puts [] = []
  puts (http req ∷ rest) = keep_put req (puts rest)
  puts (_ ∷ rest) = puts rest

  puts-append : (k l : List Call) → puts (k ++ l) ≡ puts k ++ puts l
  puts-append [] l = refl
  puts-append (http req ∷ k) l = elim (Bool-cases (req.method == "PUT")) [
    | inl e ↦ rw e (ap (◌∷◌ req) (puts-append k l))
    | inr e ↦ rw e (puts-append k l)
  ]
  puts-append (rpc _ _ ∷ k) l = puts-append k l
  puts-append (connect_to _ ∷ k) l = puts-append k l
  puts-append (open_stream _ _ ∷ k) l = puts-append k l
  puts-append (stream_get _ _ _ ∷ k) l = puts-append k l

  puts_prefix : (k l : List Call) → puts k ≡ [] → puts (k ++ l) ≡ puts l
  puts_prefix k l e = puts-append k l ∙ ap (λ r. r ++ puts l) e

  -- `http.NewRequestWithContext` makes the request that it is asked for, or fails.
  abbrev pub MakesRequests : Net → Type 0
  MakesRequests net = (r q : HttpRequest) → net.new_request r ≡ ok q → q ≡ r

  -- One announcement, of the body to the indexer, and how it was answered.
  abbrev delivery : Net → Options → List ℕ → Result (Unit {0})
  delivery net opts body =
      net.http_do (announce_request opts.http_indexer_endpoint body) >>= accepted

  module _ (net : Net) (opts : Options) (makes : MakesRequests net) where
    puts-known : (url id : String) → puts (is_known_by_indexer net url id).1 ≡ []
    unfolding is_known_by_indexer
    puts-known url id = elim (Result-cases (net.new_request (provider_request url id))) [
      | inr (x, e) ↦ rw e
      | inl (q, e) ↦ rw (e, makes _ _ e, get-ne-put)
    ]

    puts-head : (ai : AddrInfo p.Multiaddr) (pid : String) → puts (get_head net ai pid).1 ≡ []
    unfolding get_head
    puts-head ai pid = elim (Result-cases (net.new_request head_request)) [
      | inr (x, e) ↦ rw e
      | inl (q, e) ↦ rw e
    ]

    puts-transports :
        (ai : AddrInfo p.Multiaddr) (t : Target) → puts (check_transports net opts ai t).1 ≡ []
    unfolding check_transports query_transports
    puts-transports ai t =
        elim (Bool-cases (supports_protocol_id t.protocols transports_protocol_id)) [
          | inl e ↦ rw e
          | inr e ↦ rw e
        ]

    -- An announcement fails before it is sent, or is sent once.
    announce-cases :
        (ai : AddrInfo p.Multiaddr) (c : p.Cid)
        → ((x : Error) × (announce net opts.http_indexer_endpoint ai c ≡ (err x, [])))
          ⊎ ((body : List ℕ) × (announcement_body ai c ≡ ok body)
              × (announce net opts.http_indexer_endpoint ai c ≡ (
                delivery net opts body,
                http (announce_request opts.http_indexer_endpoint body) ∷ [],
              )))
    unfolding announce
    announce-cases ai c = elim (Result-cases (announcement_body ai c)) [
      | inr (x, e) ↦ inl (x, rw e)
      | inl (body, e) ↦
          elim (Result-cases (net.new_request (announce_request opts.http_indexer_endpoint body))) [
            | inr (x, f) ↦ inl (x, rw (e, f))
            | inl (q, f) ↦ inr (body, e, rw (e, f, makes _ _ f))
          ]
    ]
