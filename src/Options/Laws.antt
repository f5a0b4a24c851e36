-- ===== src/Options/Laws.antt =====
-- What the setters of options.go do together.
use heyfil.Base.{
  Bool-cases, Option-cases, All, ◌==◌, nat_eq, string_eq, String, ◌≡◌, refl, ap, ◌∙◌, inl, inr,
  false, some, List, [], ◌∷◌, arith,
}
use heyfil.Base.Int.{ℤ}
use heyfil.Base.Result.{Result, ok, err, ◌>>=◌}
use heyfil.Platform.{Platform}
use heyfil.Options.{
  Options, Setter, apply_all, new_options, default_options, with_default_host, with_file_coin_api,
  with_file_coin_api_token, with_host, with_indexer_topic, with_max_concurrent_checks,
  with_participant_check_interval, with_snapshot_interval, with_metrics_listen_addr,
  with_api_listen_addr, with_http_indexer_endpoint, with_store_path,
}

module _ ⦃p : Platform⦄ where
  -- The setters that options.go offers, with their arguments.
  pub data KnownSetter : Setter → Type 0 where
    file_coin_api : (url : String) → KnownSetter (with_file_coin_api url)
    file_coin_api_token : (token : String) → KnownSetter (with_file_coin_api_token token)
    host : (h : p.Host) → KnownSetter (with_host h)
    indexer_topic : (t : String) → KnownSetter (with_indexer_topic t)
    max_concurrent_checks : (m : ℤ) → KnownSetter (with_max_concurrent_checks m)
    participant_check_interval : (t : p.Ticker) → KnownSetter (with_participant_check_interval t)
    snapshot_interval : (t : p.Ticker) → KnownSetter (with_snapshot_interval t)
    metrics_listen_addr : (addr : String) → KnownSetter (with_metrics_listen_addr addr)
    api_listen_addr : (addr : String) → KnownSetter (with_api_listen_addr addr)
    http_indexer_endpoint : (url : String) → KnownSetter (with_http_indexer_endpoint url)
    store_path : (path : String) → KnownSetter (with_store_path path)

  -- What no setter changes, and no setter fails.
  record Keeps (o : Options) (r : Result Options) : Type 0 where
    after : Options
    succeeds : r ≡ ok after
    api_addr : after.api_listen_addr ≡ o.api_listen_addr
    tools : after.market_deals_fil_tools_enabled ≡ o.market_deals_fil_tools_enabled

  setter-Keeps : {s : Setter} → KnownSetter s → (o : Options) → Keeps o (s o)
  unfolding with_file_coin_api with_file_coin_api_token with_host with_indexer_topic
      with_max_concurrent_checks with_participant_check_interval with_snapshot_interval
      with_metrics_listen_addr with_api_listen_addr with_http_indexer_endpoint with_store_path
  setter-Keeps (store_path path) o = elim (Bool-cases (path == "")) [
    | inl e ↦ rw e (record { after = o; succeeds = refl; api_addr = refl; tools = refl })
    | inr e ↦ rw e (record { after = _; succeeds = refl; api_addr = refl; tools = refl })
  ]
  setter-Keeps (file_coin_api url) o = record {
    after = _;
    succeeds = refl;
    api_addr = refl;
    tools = refl;
  }
  setter-Keeps _ o = record { after = _; succeeds = refl; api_addr = refl; tools = refl }

  apply_all-Keeps :
      (ss : List Setter) → All KnownSetter ss → (o : Options) → Keeps o (apply_all ss o)
  unfolding apply_all
  apply_all-Keeps [] _ o = record { after = o; succeeds = refl; api_addr = refl; tools = refl }
  apply_all-Keeps (s ∷ ss) (k, ks) o =
      let here = setter-Keeps k o in
      let rest = apply_all-Keeps ss ks here.after in
      rw here.succeeds (record {
        after = rest.after;
        succeeds = rest.succeeds;
        api_addr = rest.api_addr ∙ here.api_addr;
        tools = rest.tools ∙ here.tools;
      })

  bind-host-fields :
      (a o : Options) (r : Result p.Host)
      → (r >>= λ h. ok (record a { h = some h })) ≡ ok o
      → (o.api_listen_addr ≡ a.api_listen_addr)
        × (o.market_deals_fil_tools_enabled ≡ a.market_deals_fil_tools_enabled)
  bind-host-fields a o (ok h) e = (ground arith, ground arith)
  bind-host-fields a o (err x) e = cc

  with_default_host-fields :
      (a o : Options)
      → with_default_host a ≡ ok o
      → (o.api_listen_addr ≡ a.api_listen_addr)
        × (o.market_deals_fil_tools_enabled ≡ a.market_deals_fil_tools_enabled)
  unfolding with_default_host
  with_default_host-fields a o e = elim (Option-cases a.h) [
    | inl absent ↦ bind-host-fields a o p.new_host (rw absent at e)
    | inr (h, given) ↦ (ground arith, ground arith)
  ]

  -- Whatever setters of options.go are given, `WithApiListenAddr` included, options that come out
  -- listen for the API on the default address, and read deals from the S3 snapshot.
  pub new_options-api_listen_addr :
      (ss : List Setter) (o : Options)
      → All KnownSetter ss
      → new_options ss ≡ ok o
      → (o.api_listen_addr ≡ "0.0.0.0:8081") × (o.market_deals_fil_tools_enabled ≡ false)
  unfolding new_options
  new_options-api_listen_addr ss o k e =
      let kept = apply_all-Keeps ss k default_options in
      let (api_addr, tools) =
        with_default_host-fields kept.after o
          (rw (ap (λ r. r >>= with_default_host) kept.succeeds) at e) in
      (api_addr ∙ kept.api_addr, tools ∙ kept.tools)
