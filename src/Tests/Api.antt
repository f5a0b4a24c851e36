-- ===== src/Tests/Api.antt =====
-- The query API on concrete inputs.
use mathlib.Core.List.{Permᴰ}
use heyfil.Base.{
  contains, nat_eq, string_eq, String, ◌≡◌, refl, true, none, some, List, [], ◌∷◌, arith,
  ℕ_discrete,
}
use heyfil.Base.Sort.{IsSorted}
use heyfil.Base.Dict.{Dict, lookup, NodupKeys}
use heyfil.Base.Text.{strip_prefix}
use heyfil.Base.FilePath.{clean_request}
use heyfil.Base.FilePath.Join.{PlainName}
use heyfil.Base.Int.{pos}
use heyfil.ApiServer.{
  redirect, http_error, piece, serve, get_sp_ids, respond, sp, sp_ids, query_get, peer_filter,
  status_filter, has_status,
}
use heyfil.ApiServer.Root.{passes, get_sp_ids_lem, get_sp_ids-perm}
use heyfil.ApiServer.Subtree.{serve_sp, serve_recent_piece}
use heyfil.Target.{new_target, status_ok, status_unindexed, Target}
use heyfil.Tests.World.{targets, hf, demo, miner}
use Prim.Native.String

-- all but the unindexed
abbrev query : List (String × String)
query = ("status", "!8") ∷ []

peer_run : peer_filter (query_get "peerid" query) ≡ some (λ t. true)
unfolding peer_filter query_get string_eq
peer_run = refl

status_run : status_filter (query_get "status" query) ≡ some (has_status (pos 8) true)
unfolding status_filter query_get string_eq ℕ_discrete strip_prefix
status_run = refl

f01000-PlainName : PlainName "f01000"
f01000-PlainName = (omega arith, λ e. cc, λ e. cc, λ e. cc)

redirect_tests :
    ((serve targets hf.recent_pieces (record { method = "GET"; path = "/sp/.."; query = [] })).body
      ≡ redirect "/")
    × ((serve targets hf.recent_pieces
          (record { method = "GET"; path = "/sp//f01000"; query = [] })).status
        ≡ 301)
unfolding serve clean_request string_eq ℕ_discrete
redirect_tests = (refl, refl)

targets_nodup : NodupKeys targets
unfolding lookup string_eq
targets_nodup = (refl, (refl, tt))

get_sp_ids_lem_example :
    (ids : List String) × (get_sp_ids targets query ≡ respond (sp_ids ids))
    × IsSorted ids
    × ((id : String)
        → contains ids id ≡ passes (λ t. true) (has_status (pos 8) true) (lookup id targets))
get_sp_ids_lem_example =
    get_sp_ids_lem targets query (λ t. true) (has_status (pos 8) true) targets_nodup peer_run
      status_run

abbrev other_order : Dict String Target
other_order =
    ("f01000", record miner { status = status_ok })
    ∷ ("f02000", record (new_target "f02000") { status = status_unindexed })
    ∷ []

get_sp_ids-perm_example : get_sp_ids targets query ≡ get_sp_ids other_order query
get_sp_ids-perm_example = get_sp_ids-perm query (Permᴰ.swap refl refl)

serve_sp_example :
    serve targets hf.recent_pieces
      (record { method = "GET"; path = String.◌++◌ "/sp/" "f01000"; query = [] })
    ≡ elim (lookup "f01000" targets) [
      | none ↦ http_error 404 "SP not found"
      | some t ↦ respond (sp t)
    ]
serve_sp_example = serve_sp targets hf.recent_pieces [] "f01000" f01000-PlainName

serve_recent_piece_example :
    serve targets hf.recent_pieces (record {
      method = "GET";
      path = String.◌++◌ "/sp/" (String.◌++◌ "f01000" (String.◌++◌ "/" "recentPiece"));
      query = [];
    })
    ≡ elim (lookup "f01000" hf.recent_pieces) [
      | none ↦ http_error 404 "No piece found for provided id"
      | some rp ↦ respond (piece rp)
    ]
serve_recent_piece_example =
    serve_recent_piece targets hf.recent_pieces [] "f01000" f01000-PlainName
