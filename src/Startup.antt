-- ===== src/Startup.antt =====
-- main.go, and `newHeyFil`, `Start` and `Shutdown` of heyfil.go, with the servers that they start.
pub mod Failure
pub mod Laws
pub mod Refinement
pub mod Served
use heyfil.Base.{
  if◌then◌else◌, ◌==◌, nat_eq, string_eq, String, false, Option, none, some, List, [], ◌∷◌, ◌++◌,
}
use Prim.Native.String
use heyfil.Base.Int.{ℤ, pos}
use heyfil.Base.Dict.{Dict}
use heyfil.Base.Result.{Error, Result, ok, err, ◌>>=◌}
use heyfil.Platform.{Platform}
use heyfil.Options.{
  Options, Setter, new_options, with_http_indexer_endpoint, with_max_concurrent_checks,
  with_store_path, with_file_coin_api_token,
}
use heyfil.Metrics.{Metrics, shutdown}
use heyfil.Metrics.Instruments.{Meter, start}
use heyfil.HeyFil.{HeyFil, RpcClient}
use heyfil.Store.{Storage, Visit, load_targets, load_recent_pieces}
use heyfil.Service.{Service, idle, awake}

pub record Flags : Type 0 where
  pub http_indexer_endpoint : String
  pub max_concurrent_checks : ℤ
  pub store_path : String
  pub token : String

-- the values of flags that are not given
abbrev pub default_flags : Flags
default_flags = record {
  http_indexer_endpoint = "https://cid.contact";
  max_concurrent_checks = pos 10;
  store_path = "";
  token = "";
}

-- What the libraries answer to the shutdown of the exporter and of the two servers.
pub record Stops : Type 0 where
  pub exporter : Option Error
  pub metrics_server : Option Error
  pub api_server : Option Error

module _ ⦃p : Platform⦄ where
  -- the zero value
  abbrev no_metrics : Metrics
  no_metrics = record {
    has_exporter = false;
    counts_by_status = [];
    counts_by_agent_short_version = [];
    counts_by_market_protocol = [];
    counts_by_transport_protocol = [];
    total_participant_count = pos 0;
    total_deal_count = pos 0;
    total_deal_count_within_day = pos 0;
    total_deal_count_within_week = pos 0;
    total_addressable_participants_with_non_zero_deals = pos 0;
    total_addressable_participants = pos 0;
    total_participants_known_by_indexer = pos 0;
    total_deal_count_by_participants_known_to_indexer = pos 0;
    total_deal_count_within_day_by_participants_known_to_indexer = pos 0;
    total_deal_count_within_week_by_participants_known_to_indexer = pos 0;
    total_boost_participants = pos 0;
    total_participants_with_min_power = pos 0;
    total_boost_quality_adjusted_power = pos 0;
    total_boost_raw_power = pos 0;
    unindexed_targets = [];
  }

  unfoldable pub rpc_client : Options → RpcClient
  rpc_client opts = record {
    endpoint = opts.api;
    headers =
        if opts.api_token == ""
        then []
        else ("Authorization", String.◌++◌ "Bearer " opts.api_token) ∷ [];
  }

  -- `files` is what the disk holds.
  abbrev pub heyfil_of : Dict String String → Options → HeyFil
  heyfil_of files opts = record {
    options = opts;
    client = rpc_client opts;
    metrics_server = none;
    api_server = none;
    targets = [];
    recent_pieces = [];
    metrics = no_metrics;
    deal_count_by_participant = [];
    latest_refresh_err = none;
    files = files;
  }

  unfoldable pub new_heyfil : Dict String String → List Setter → Result HeyFil
  new_heyfil files setters = new_options setters >>= λ opts. ok (heyfil_of files opts)

  -- Both return no error: what the servers say is logged alone.
  unfoldable pub start_metrics_server : HeyFil → HeyFil
  start_metrics_server hf = record hf { metrics_server = some hf.options.metrics_listen_addr }

  unfoldable pub start_api_server : HeyFil → HeyFil
  start_api_server hf = record hf { api_server = some hf.options.api_listen_addr }

  unfoldable pub start_with : Option Error → HeyFil → Option Error × Service
  unfolding start_metrics_server start_api_server
  start_with (some e) hf = (some e, idle hf)
  start_with none hf = (none, awake (start_api_server (start_metrics_server hf)))

  -- `visits` is what is found below the store path; the errors of loading are logged alone.
  unfoldable pub start_service : Storage → List Visit → Meter → HeyFil → Option Error × Service
  unfolding start_with
  start_service io visits meter hf =
      let loaded = load_recent_pieces io (load_targets io visits hf) in
      let started = start meter loaded.metrics in
      start_with started.0 (record loaded { metrics = started.1 })

  abbrev or_later : Option Error → Option Error → Option Error
  or_later (some e) later = some e
  or_later none later = later

  unfoldable pub shutdown_metrics_server : Stops → Option Error
  shutdown_metrics_server stops = stops.metrics_server

  unfoldable pub shutdown_api_server : Stops → Option Error
  shutdown_api_server stops = stops.api_server

  -- All three are shut down; the first error is returned.
  unfoldable pub shutdown_all : Stops → HeyFil → Option Error
  unfolding shutdown shutdown_metrics_server shutdown_api_server
  shutdown_all stops hf =
      or_later (shutdown stops.exporter hf.metrics)
        (or_later (shutdown_metrics_server stops) (shutdown_api_server stops))

  unfoldable pub flag_setters : Flags → List Setter
  flag_setters flags =
      with_http_indexer_endpoint flags.http_indexer_endpoint
      ∷ with_max_concurrent_checks flags.max_concurrent_checks
      ∷ with_store_path flags.store_path
      ∷ with_file_coin_api_token flags.token
      ∷ []

  pub data Outcome : Type 0 where
    crashed : Error → Outcome
    running : Service → Outcome

  unfoldable pub run_started : Option Error × Service → Outcome
  run_started (some e, s) = crashed e
  run_started (none, s) = running s

  unfoldable pub run_made : Storage → List Visit → Meter → Result HeyFil → Outcome
  unfolding run_started
  run_made io visits meter (err e) = crashed e
  run_made io visits meter (ok hf) = run_started (start_service io visits meter hf)

  -- Up to the wait for a signal, which is the step `cancel`.
  unfoldable pub main : Storage → List Visit → Meter → Dict String String → Flags → Outcome
  unfolding run_made
  main io visits meter files flags =
      run_made io visits meter (new_heyfil files (flag_setters flags))
