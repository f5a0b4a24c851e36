-- ===== src/ApiServer.antt =====
-- api_server.go: the handlers of the query API. A handler reads the targets and the recent pieces
-- as they are while it holds their locks, and returns the response.
pub mod Consistent
pub mod Root
pub mod Subtree
use heyfil.Base.{
  if◌then◌else◌, is_some, ◌==◌, nat_eq, string_eq, ℕ, String, Bool, true, not, ◌&&◌, ◌||◌, Option,
  none, some, List, [], ◌∷◌,
}
use heyfil.Base.Int.{ℤ, int_eq}
use heyfil.Base.Dict.{Dict, lookup, keys}
use heyfil.Base.Number.{parse_int32}
use heyfil.Base.Result.{Result, ok, err}
use heyfil.Base.FilePath.{clean_request}
use heyfil.Base.Sort.{sort}
use heyfil.Base.Text.{trim_prefix, strip_prefix, split_n, join_comma}
use heyfil.Platform.{Platform}
use heyfil.Target.{Target, has_peer_id}

-- `r.Method`, `r.URL.Path` and `r.URL.Query()`
pub record Request : Type 0 where
  pub method : String
  pub path : String
  pub query : List (String × String)

-- `Query().Get(name)`: the first value, or the empty text
unfoldable pub query_get : String → List (String × String) → String
query_get name [] = ""
query_get name ((k, v) ∷ rest) = if k == name then v else query_get name rest

module _ ⦃p : Platform⦄ where
  -- What is written to the client; the JSON encoder is given a value. `redirect` is the path of the
  -- location that the client is sent to, the query being kept.
  pub data Body : Type 0 where
    nothing : Body
    text : String → Body
    sp_ids : List String → Body
    sp : Target → Body
    piece : String → Body
    redirect : String → Body

  pub record Response : Type 0 where
    pub status : ℕ
    pub allow : Option String
    pub body : Body

  abbrev pub respond : Body → Response
  respond b = record { status = 200; allow = none; body = b }

  -- `http.Error` and `http.NotFound`
  abbrev pub http_error : ℕ → String → Response
  http_error code m = record { status = code; allow = none; body = text m }

  abbrev pub not_found : Response
  not_found = http_error 404 "404 page not found"

  -- `w.Header().Set(httpHeaderAllow(methods...))`
  unfoldable pub allowed : List String → Response
  unfolding join_comma
  allowed methods = record { status = 200; allow = some (join_comma methods); body = nothing }

  unfoldable pub respond_with_not_allowed : List String → Response
  unfolding join_comma
  respond_with_not_allowed methods = record {
    status = 405;
    allow = some (join_comma methods);
    body = text "Method Not Allowed";
  }

  -- The filter of the "peerid" parameter, or that the parameter is no peer ID.
  unfoldable pub peer_filter : String → Option (Target → Bool)
  peer_filter pid =
      if pid == ""
      then some (λ t. true)
      else elim (p.peer_decode pid) [ ok id ↦ some (λ t. has_peer_id t id) | err e ↦ none ]

  -- `(t.Status == Status(statusTarget)) != negate`
  unfoldable pub has_status : ℤ → Bool → Target → Bool
  has_status target negate t = if t.status == target then not negate else negate

  unfoldable pub status_filter : String → Option (Target → Bool)
  unfolding has_status trim_prefix parse_int32
  status_filter status =
      let status_num = trim_prefix status "!" in
      if status == "" then some (λ t. true) else elim (parse_int32 status_num) [
        | none ↦ none
        | some target ↦ some (has_status target (not (status == status_num)))
      ]

  -- the loop over the targets
  unfoldable pub select_ids : (Target → Bool) → (Target → Bool) → Dict String Target → List String
  select_ids by_peer by_status [] = []
  select_ids by_peer by_status ((id, t) ∷ rest) =
      let more = select_ids by_peer by_status rest in
      if not (by_peer t) then more else if not (by_status t) then more else id ∷ more

  unfoldable pub get_sp_ids : Dict String Target → List (String × String) → Response
  get_sp_ids targets query = elim (peer_filter (query_get "peerid" query)) [
    | none ↦ http_error 400 "The \"peerid\" query parameter is not a valid peer ID"
    | some by_peer ↦ elim (status_filter (query_get "status" query)) [
      | none ↦ http_error 400 "The \"status\" query parameter cannot be parsed."
      | some by_status ↦ respond (sp_ids (sort (select_ids by_peer by_status targets)))
    ]
  ]

  unfoldable pub handle_sp_root : Dict String Target → Request → Response
  handle_sp_root targets r =
      if r.method == "OPTIONS"
      then allowed ("GET" ∷ "HEAD" ∷ "OPTIONS" ∷ [])
      else if r.method == "HEAD"
      then respond nothing
      else if r.method == "GET"
      then get_sp_ids targets r.query
      else respond_with_not_allowed ("GET" ∷ "OPTIONS" ∷ [])

  unfoldable pub handle_get_sp : Dict String Target → String → Response
  handle_get_sp targets id = elim (lookup id targets) [
    | none ↦ http_error 404 "SP not found"
    | some t ↦ respond (sp t)
  ]

  unfoldable pub handle_recent_piece : Dict String String → String → Response
  handle_recent_piece recent_pieces id = elim (lookup id recent_pieces) [
    | none ↦ http_error 404 "No piece found for provided id"
    | some rp ↦ respond (piece rp)
  ]

  -- The cases of the number of segments.
  unfoldable pub get_segments : Dict String Target → Dict String String → List String → Response
  get_segments targets recent_pieces (id ∷ []) =
      if id == ""
      then http_error 400 "SP ID must be specified as URL parameter"
      else handle_get_sp targets id
  get_segments targets recent_pieces (id ∷ subreq ∷ []) =
      if id == "" || not (subreq == "recentPiece")
      then http_error 400 "SP ID must be specified as URL parameter"
      else handle_recent_piece recent_pieces id
  get_segments targets recent_pieces _ = not_found

  unfoldable pub handle_sp_subtree : Dict String Target → Dict String String → Request → Response
  handle_sp_subtree targets recent_pieces r =
      if r.method == "OPTIONS"
      then allowed ("GET" ∷ "HEAD" ∷ "OPTIONS" ∷ [])
      else if r.method == "HEAD"
      then respond nothing
      else if r.method == "GET"
      then get_segments targets recent_pieces (split_n 3 (trim_prefix r.path "/sp/"))
      else respond_with_not_allowed ("GET" ∷ "OPTIONS" ∷ [])

  unfoldable pub handle_default : Request → Response
  unfolding allowed
  handle_default r =
      if r.method == "OPTIONS"
      then allowed ("HEAD" ∷ "OPTIONS" ∷ [])
      else if r.method == "HEAD"
      then respond nothing
      else not_found

  -- The patterns of `startApiServer`: the exact `/sp`, the subtree `/sp/`, and `/` for all else.
  -- `http.ServeMux` redirects a request whose path is not clean, unless it is a CONNECT.
  unfoldable pub serve : Dict String Target → Dict String String → Request → Response
  unfolding clean_request
  serve targets recent_pieces r =
      if not (r.method == "CONNECT") && not (clean_request r.path == r.path)
      then record { status = 301; allow = none; body = redirect (clean_request r.path) }
      else if r.path == "/sp"
      then handle_sp_root targets r
      else if is_some (strip_prefix "/sp/" r.path)
      then handle_sp_subtree targets recent_pieces r
      else handle_default r
