-- ===== src/Startup/Laws.antt =====
-- The service as `main` starts it.
use Prim.Native.String
use heyfil.Base.{
  if◌then◌else◌, ◌==◌, nat_eq, string_eq, String, ◌≡◌, refl, ap, ◌∙◌, Option, none, some, List, [],
  arith,
}
use heyfil.Base.Dict.{Dict}
use heyfil.Base.FilePath.{clean}
use heyfil.Base.Result.{Error}
use heyfil.Platform.{Platform}
use heyfil.Options.{Options, default_options}
use heyfil.Metrics.Instruments.{Meter}
use heyfil.HeyFil.{HeyFil}
use heyfil.Store.{Storage, Visit, load_targets, load_recent_pieces}
use heyfil.Store.WellFormed.{
  WellFormed, empty-WellFormed, load_targets-WellFormed, get-load_targets, recent-load,
}
use heyfil.Service.{Service, awake, Reaches}
use heyfil.Service.Invariant.{Invariant, Reaches-Invariant}
use heyfil.Startup.{Flags, start_with, start_service, start_metrics_server, start_api_server}

module _ ⦃p : Platform⦄ where
  awake-Invariant :
      (hf : HeyFil)
      → WellFormed hf.targets
      → Invariant hf.options.max_concurrent_participant_check (awake hf)
  awake-Invariant hf w = record {
    to_check_bound = omega arith;
    checked_bound = omega arith;
    held_bound = omega arith;
    checkers_bound = omega arith;
    all_run = λ e. (refl, refl, refl, refl);
    workers = refl;
    targets_ok = w;
  }

  start_with-Invariant :
      (e : Option Error) (hf : HeyFil) (s : Service)
      → WellFormed hf.targets
      → start_with e hf ≡ (none, s)
      → Invariant hf.options.max_concurrent_participant_check s
  unfolding start_with start_metrics_server start_api_server
  start_with-Invariant (some e) hf s w q = absurd (cc)
  start_with-Invariant none hf s w q =
      let same : awake (start_api_server (start_metrics_server hf)) ≡ s = ap (λ r. r.1) q in
      rw (← same) (awake-Invariant (start_api_server (start_metrics_server hf)) w)

  pub loaded-ok :
      (io : Storage) (visits : List Visit) (hf : HeyFil)
      → hf.targets ≡ []
      → WellFormed (load_recent_pieces io (load_targets io visits hf)).targets
        × ((load_recent_pieces io (load_targets io visits hf)).options ≡ hf.options)
        × ((load_recent_pieces io (load_targets io visits hf)).client ≡ hf.client)
  loaded-ok io visits hf fresh =
      let (targets, options, client, _) = recent-load io (load_targets io visits hf) in
      (
        rw targets (load_targets-WellFormed io visits hf (rw fresh empty-WellFormed)),
        options ∙ get-load_targets (λ h. h.options) (λ h ts. refl) io visits hf,
        client ∙ get-load_targets (λ h. h.client) (λ h ts. refl) io visits hf,
      )

  -- A service that starts without an error and with no targets, whatever it loads and whatever steps
  -- its goroutines then make in whatever order, keeps its channels within their capacity and no more
  -- held checks than checkers, every goroutine runs until the context is cancelled, and every target
  -- stands once, under its own identifier.
  pub started-Invariant :
      (io : Storage) (visits : List Visit) (meter : Meter) (hf : HeyFil) (s s' : Service)
      → hf.targets ≡ []
      → start_service io visits meter hf ≡ (none, s)
      → Reaches io s s'
      → Invariant hf.options.max_concurrent_participant_check s'
  unfolding start_service
  started-Invariant io visits meter hf s s' fresh q run =
      let (w, o, _) = loaded-ok io visits hf fresh in
      Reaches-Invariant io _ run (rw (← o) (start_with-Invariant _ _ s w q))

  -- The options that the flags lead to, with a new host.
  abbrev pub options_of : Flags → p.Host → Options
  options_of flags h = record default_options {
    http_indexer_endpoint = flags.http_indexer_endpoint;
    max_concurrent_participant_check = flags.max_concurrent_checks;
    store_path = if flags.store_path == "" then "" else clean flags.store_path;
    api_token = flags.token;
    h = some h;
  }
