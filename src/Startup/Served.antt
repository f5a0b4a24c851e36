-- ===== src/Startup/Served.antt =====
-- The query API on the state of a service that has been started.
use heyfil.Base.{contains, nat_eq, string_eq, String, ◌≡◌, Bool, true, none, some, List, []}
use heyfil.Base.FilePath.Join.{PlainName}
use heyfil.Platform.{Platform}
use heyfil.Target.{Target}
use heyfil.HeyFil.{HeyFil}
use heyfil.Store.{Storage, Visit}
use heyfil.Metrics.Instruments.{Meter}
use heyfil.Service.{Service, Reaches}
use heyfil.Startup.{start_service}
use heyfil.Startup.Laws.{started-Invariant}
use heyfil.ApiServer.{serve, respond, sp, sp_ids, query_get, peer_filter, status_filter}
use heyfil.ApiServer.Consistent.{list_request, serve-listed}
use heyfil.ApiServer.Subtree.{get_request}

module _ ⦃p : Platform⦄ where
  -- In every state that a service reaches which started without an error and with no targets: when
  -- GET /sp with valid filters answers with a list, then GET /sp/ID answers for each of its
  -- identifiers that is not empty, not a dot or two, and has no slashes with a target that has this identifier and
  -- passes both filters.
  pub started-served :
      (io : Storage) (visits : List Visit) (meter : Meter) (hf : HeyFil) (s s' : Service)
      (query : List (String × String)) (f g : Target → Bool) (ids : List String) (id : String)
      → hf.targets ≡ []
      → start_service io visits meter hf ≡ (none, s)
      → Reaches io s s'
      → peer_filter (query_get "peerid" query) ≡ some f
      → status_filter (query_get "status" query) ≡ some g
      → serve s'.hf.targets s'.hf.recent_pieces
          (list_request s'.hf.targets s'.hf.recent_pieces query)
        ≡ respond (sp_ids ids)
      → contains ids id ≡ true
      → PlainName id
      → (t : Target) × (serve s'.hf.targets s'.hf.recent_pieces
            (get_request s'.hf.targets s'.hf.recent_pieces query id)
          ≡ respond (sp t))
        × (t.id ≡ id)
        × (f t ≡ true)
        × (g t ≡ true)
  started-served io visits meter hf s s' query f g ids id fresh q run peer status listed member
        plain =
      let kept = started-Invariant io visits meter hf s s' fresh q run in
      serve-listed s'.hf.targets s'.hf.recent_pieces query f g ids id kept.targets_ok peer status
        listed member plain
