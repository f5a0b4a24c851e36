-- ===== src/Options.antt =====
-- options.go: the configuration and its `With...` setters.
pub mod Laws
use heyfil.Base.{
  if◌then◌else◌, ◌==◌, nat_eq, string_eq, ℕ, String, Bool, false, Option, none, some, List, [], ◌∷◌,
}
use heyfil.Base.Int.{ℤ, pos}
use heyfil.Base.Result.{Result, ok, err, ◌>>=◌}
use heyfil.Base.FilePath.{clean}
use heyfil.Platform.{Platform}

module _ ⦃p : Platform⦄ where
  -- `head_protocol_pattern` is a constant of `FilClient.HeadPattern`, and the HTTP client is part of
  -- `Net`. A timeout is a number of seconds.
  pub record Options : Type 0 where
    pub api : String
    pub api_token : String
    pub h : Option p.Host
    pub topic : String
    pub max_concurrent_participant_check : ℤ
    pub participants_check_interval : p.Ticker
    pub deal_stats_refresh_interval : p.Ticker
    pub snapshot_interval : p.Ticker
    pub metrics_listen_addr : String
    pub api_listen_addr : String
    pub market_deals_s3_snapshot : String
    pub market_deals_fil_tools : String
    pub market_deals_fil_tools_enabled : Bool
    pub http_indexer_endpoint : String
    pub store_path : String
    pub query_transports_timeout : ℕ

  -- An `Option` of the source sets fields of the options or fails.
  abbrev pub Setter : Type 0
  Setter = Options → Result Options

  abbrev pub default_options : Options
  default_options = record {
    api = "https://api.node.glif.io";
    api_token = "";
    h = none;
    topic = "/indexer/ingest/mainnet";
    max_concurrent_participant_check = pos 10;
    participants_check_interval = p.new_ticker 3600;
    deal_stats_refresh_interval = p.new_ticker 3600;
    snapshot_interval = p.new_ticker 10;
    metrics_listen_addr = "0.0.0.0:8080";
    api_listen_addr = "0.0.0.0:8081";
    market_deals_s3_snapshot = "https://marketdeals.s3.amazonaws.com/StateMarketDeals.json.zst";
    market_deals_fil_tools = "https://filecoin.tools/api/deals/list";
    market_deals_fil_tools_enabled = false;
    http_indexer_endpoint = "https://cid.contact";
    store_path = "";
    query_transports_timeout = 10;
  }

  -- the loop `for _, apply := range o`
  unfoldable pub apply_all : List Setter → Options → Result Options
  apply_all [] opts = ok opts
  apply_all (apply ∷ rest) opts = apply opts >>= apply_all rest

  -- `if opts.h == nil { opts.h, err = libp2p.New() … }`
  unfoldable pub with_default_host : Options → Result Options
  with_default_host opts = elim opts.h [
    | some h ↦ ok opts
    | none ↦ p.new_host >>= λ h. ok (record opts { h = some h })
  ]

  unfoldable pub new_options : List Setter → Result Options
  unfolding apply_all with_default_host
  new_options setters = apply_all setters default_options >>= with_default_host

  unfoldable pub with_file_coin_api : String → Setter
  with_file_coin_api url o = ok (record o { api = url })

  unfoldable pub with_file_coin_api_token : String → Setter
  with_file_coin_api_token token o = ok (record o { api_token = token })

  unfoldable pub with_host : p.Host → Setter
  with_host h o = ok (record o { h = some h })

  unfoldable pub with_indexer_topic : String → Setter
  with_indexer_topic t o = ok (record o { topic = t })

  unfoldable pub with_max_concurrent_checks : ℤ → Setter
  with_max_concurrent_checks m o = ok (record o { max_concurrent_participant_check = m })

  unfoldable pub with_participant_check_interval : p.Ticker → Setter
  with_participant_check_interval t o = ok (record o { participants_check_interval = t })

  unfoldable pub with_snapshot_interval : p.Ticker → Setter
  with_snapshot_interval t o = ok (record o { snapshot_interval = t })

  unfoldable pub with_metrics_listen_addr : String → Setter
  with_metrics_listen_addr addr o = ok (record o { metrics_listen_addr = addr })

  -- The source assigns `o.metricsListenAddr` here.
  unfoldable pub with_api_listen_addr : String → Setter
  with_api_listen_addr addr o = ok (record o { metrics_listen_addr = addr })

  unfoldable pub with_http_indexer_endpoint : String → Setter
  with_http_indexer_endpoint url o = ok (record o { http_indexer_endpoint = url })

  unfoldable pub with_store_path : String → Setter
  with_store_path path o = if path == "" then ok o else ok (record o { store_path = clean path })
