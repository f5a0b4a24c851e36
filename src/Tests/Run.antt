-- ===== src/Tests/Run.antt =====
-- A run of the service from `main`: a participant is dispatched, checked and taken in.
use heyfil.Base.{
  is_some, contains, nat_eq, string_eq, beq_iff, String, ◌≡◌, refl, ap, ◌∙◌, true, false, none,
  some, List, [], ◌∷◌, arith,
}
use heyfil.Base.FilePath.Join.{PlainName}
use heyfil.Base.Dict.{lookup}
use heyfil.Base.Result.{err, ok}
use heyfil.Base.Int.{pos}
use heyfil.Startup.Served.{started-served}
use heyfil.ApiServer.{serve, respond, sp, sp_ids, query_get, peer_filter, status_filter}
use heyfil.ApiServer.Root.{get_sp_ids_lem, passes}
use heyfil.ApiServer.Consistent.{list_request, serve-list}
use heyfil.ApiServer.Subtree.{get_request}
use heyfil.Startup.Failure.{start_service-failure}
use heyfil.Metrics.Instruments.{Meter, make_gauges, start}
use heyfil.Service.{
  cancel, listed, participants_listed, Service, dispatched, started, finished, handled, Reaches,
  stop, further, handle_checked,
}
use heyfil.Startup.Refinement.{started-Updates}
use heyfil.Service.Drain.{drain_lem, Drained}
use heyfil.Service.Tracking.{tracked, tracked-Reaches}
use heyfil.Target.Bookkeeping.{check-Kept}
use heyfil.Service.Updates.{Checks, view-handle_checked, Updates, view}
use heyfil.Tests.World.{shapeless, demo, net, miner, io, meter}
use heyfil.Startup.{
  start_api_server, start_metrics_server, start_with, default_flags, heyfil_of, start_service,
}
use heyfil.Startup.Laws.{started-Invariant, options_of}
use heyfil.Target.Check.{check}
use heyfil.Store.{load_targets, load_recent_pieces}
use heyfil.Target.{Target}
use heyfil.Platform.{Net}
use heyfil.FilClient.{state_list_miners}
use heyfil.Service.Invariant.{Invariant}
use heyfil.HeyFil.{HeyFil}
use Prim.Native.String

abbrev made_hf : HeyFil
made_hf = heyfil_of [] (options_of default_flags 7)

abbrev begun : Service
begun = (start_service io [] meter made_hf).1

abbrev result : Target
result = (check net begun.hf.options [] miner).0

abbrev listing : Net
listing = record net {
  call = λ method params. ok (record {
    failure = none;
    miners = ok ("f01000" ∷ []);
    info = err shapeless;
    power = err shapeless;
    head = err shapeless;
  });
}

abbrev taken_in : Service
taken_in = record begun {
  hf = handle_checked io result (participants_listed ("f01000" ∷ []) begun.hf);
}

began : start_service io [] meter made_hf ≡ (none, begun)
unfolding start_service load_targets load_recent_pieces start_with start string_eq
began = refl

-- The participant is listed, but not dispatched yet.
abbrev waiting : Service
waiting = record begun {
  pending = "f01000" ∷ [];
  hf = participants_listed ("f01000" ∷ []) begun.hf;
}

list_run : Reaches io begun waiting
unfolding start_service load_targets load_recent_pieces participants_listed state_list_miners
    string_eq start_with start start_metrics_server start_api_server
list_run = further (listed listing ("f01000" ∷ []) refl refl refl) stop

run : Reaches io begun taken_in
unfolding start_service load_targets load_recent_pieces participants_listed state_list_miners
    string_eq start_with start start_metrics_server start_api_server
run = further (listed listing ("f01000" ∷ []) refl refl refl) (
    further (dispatched "f01000" [] refl refl (omega arith)) (
      further (started net miner [] refl (omega arith)) (
        further (finished [] result [] refl (omega arith))
          (further (handled result [] refl refl) stop))))

started-Invariant_example : Invariant (pos 10) taken_in
started-Invariant_example = started-Invariant io [] meter made_hf begun taken_in refl began run

listed_tracked : tracked "f01000" waiting ≡ true
unfolding tracked string_eq
listed_tracked = refl

later_run : Reaches io waiting taken_in
unfolding start_service load_targets load_recent_pieces participants_listed state_list_miners
    string_eq start_with start start_metrics_server start_api_server
later_run = further (dispatched "f01000" [] refl refl (omega arith)) (
    further (started net miner [] refl (omega arith)) (
      further (finished [] result [] refl (omega arith))
        (further (handled result [] refl refl) stop)))

begun_live : begun.cancelled ≡ false
unfolding start_service load_targets load_recent_pieces start_with start string_eq
begun_live = refl

tracked-Reaches_example : tracked "f01000" taken_in ≡ true
tracked-Reaches_example = tracked-Reaches io "f01000" later_run begun_live listed_tracked

waiting-Invariant : Invariant (pos 10) waiting
waiting-Invariant = started-Invariant io [] meter made_hf begun waiting refl began list_run

drain_lem_example :
    (s' : Service) × Reaches io waiting s'
    × Drained s'
    × ((mid : String) → tracked mid waiting ≡ true → is_some (lookup mid s'.hf.targets) ≡ true)
drain_lem_example = drain_lem io net (pos 10) waiting waiting-Invariant begun_live (omega arith)

started-Updates_example : Updates made_hf.options (Checks io run) (view begun) (view taken_in)
started-Updates_example = started-Updates io [] meter made_hf begun taken_in began refl run

taken_in_known : lookup "f01000" taken_in.hf.targets ≡ some result
taken_in_known =
    let (same, _, _, _, _, _, _, _) = check-Kept net begun.hf.options [] miner in
    view-handle_checked io result (participants_listed ("f01000" ∷ []) begun.hf) "f01000"
    ∙ rw ((beq_iff result.id "f01000").1 same)

abbrev broken_meter : Meter
broken_meter = record meter { make = λ name. some shapeless }

abbrev failed : Service
failed = (start_service io [] broken_meter made_hf).1

failed_run : start_service io [] broken_meter made_hf ≡ (some shapeless, failed)
unfolding start_service load_targets load_recent_pieces start_with start make_gauges string_eq
failed_run = refl

start_service-failure_example :
    let loaded = load_recent_pieces io (load_targets io [] made_hf) in
    let started_metrics = start broken_meter loaded.metrics in
    (started_metrics.0 ≡ some shapeless)
    × (failed.hf ≡ record loaded { metrics = started_metrics.1 })
start_service-failure_example =
    start_service-failure io [] broken_meter made_hf shapeless failed
      (record failed { cancelled = true }) failed_run (further cancel stop)

any_peer : peer_filter (query_get "peerid" []) ≡ some (λ t. true)
unfolding peer_filter query_get string_eq
any_peer = refl

any_status : status_filter (query_get "status" []) ≡ some (λ t. true)
unfolding status_filter query_get string_eq
any_status = refl

taken_in-Invariant : Invariant (pos 10) taken_in
taken_in-Invariant = started-Invariant io [] meter made_hf begun taken_in refl began run

taken_in_listed :
    (ids : List String) × (serve taken_in.hf.targets taken_in.hf.recent_pieces
        (list_request taken_in.hf.targets taken_in.hf.recent_pieces [])
      ≡ respond (sp_ids ids))
    × (contains ids "f01000" ≡ true)
taken_in_listed =
    let ts = taken_in.hf.targets in
    let (u, _) = taken_in-Invariant.targets_ok in
    let (ids, answer, _, exact) =
      get_sp_ids_lem ts [] (λ t. true) (λ t. true) u any_peer any_status in
    (
      ids,
      serve-list ts taken_in.hf.recent_pieces [] ∙ answer,
      exact "f01000" ∙ ap (passes (λ t. true) (λ t. true)) taken_in_known,
    )

named : PlainName "f01000"
named = (omega arith, λ e. cc, λ e. cc, λ e. cc)

started-served_example :
    (t : Target) × (serve taken_in.hf.targets taken_in.hf.recent_pieces
        (get_request taken_in.hf.targets taken_in.hf.recent_pieces [] "f01000")
      ≡ respond (sp t))
    × (t.id ≡ "f01000")
    × (true ≡ true)
    × (true ≡ true)
started-served_example =
    started-served io [] meter made_hf begun taken_in [] (λ t. true) (λ t. true) taken_in_listed.0
      "f01000" refl began run any_peer any_status taken_in_listed.1 taken_in_listed.2 named
