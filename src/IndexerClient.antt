-- ===== src/IndexerClient.antt =====
-- indexer_client.go: whether the indexer knows a provider.
use Prim.Native.String
use heyfil.Base.{if◌then◌else◌, ◌==◌, nat_eq, string_eq, String, Bool, true, [], ◌∷◌}
use heyfil.Base.Result.{Result, ok, err, other, ◌>>=◌}
use heyfil.Base.Text.{itoa}
use heyfil.Platform.{Platform, Net, HttpRequest, HttpResponse}
use heyfil.Trace.{Log, http, and_then}

module _ ⦃p : Platform⦄ where
  abbrev pub provider_request : String → String → HttpRequest
  provider_request endpoint pid = record {
    method = "GET";
    url = String.◌++◌ endpoint (String.◌++◌ "/providers/" pid);
    body = [];
  }

  -- The body is read before the status is looked at. The text of the error leaves the body out.
  unfoldable pub known_of : HttpResponse → Result Bool
  unfolding itoa
  known_of resp = resp.body >>= λ body.
      if resp.status_code == 200
      then ok true
      else err (other (String.◌++◌ "unsuccessful response " (itoa resp.status_code)))

  -- `pid_text` is `pid.String()`.
  unfoldable pub is_known_by_indexer : Net → (endpoint pid_text : String) → Log (Result Bool)
  unfolding known_of
  is_known_by_indexer net endpoint pid_text =
      and_then (net.new_request (provider_request endpoint pid_text))
        λ req. (net.http_do req >>= known_of, http req ∷ [])
