-- ===== src/FilClient/Snapshot.antt =====
-- `stateMarketDealsViaS3Snapshot` of fil_client.go: the deals of a snapshot, one after another.
pub mod Laws
use heyfil.Base.{if◌then◌else◌, ◌==◌, nat_eq, string_eq, String, none, some, List, [], ◌∷◌, ◌++◌}
use Prim.Native.String
use heyfil.Base.Text.{itoa}
use heyfil.Base.Result.{Error, other, Result, ok, err, ◌>>=◌}
use heyfil.Deal.{StateMarketDeal}
use heyfil.DealStats.{Received, deal_result}
use heyfil.Platform.{Platform, Net, HttpRequest, HttpResponse}
use heyfil.Trace.{Log, http, and_then}

-- What `decoder.Token()` returns without an error: a delimiter, a string, or another token.
pub data Token : Type 0 where
  delim : String → Token
  str : String → Token
  other_token : Token

-- What a call of `Token` returns, and, if `Decode` is called next, what that returns.
pub record Reading : Type 0 where
  pub token : Result Token
  pub value : Result StateMarketDeal

-- What the decoder of a snapshot returns, call by call. Behind the last step `Token` returns
-- `io.EOF`.
pub record Document : Type 0 where
  pub first : Result Token
  pub steps : List Reading

abbrev pub eof : Error
eof = other "EOF"

-- `dealIDParser`: the empty text at the end of the object
unfoldable pub deal_id : Token → Result String
deal_id (str s) = ok s
deal_id (delim d) =
    if d == "}"
    then ok ""
    else err (other (String.◌++◌ "expected delimier close object but got: " d))
deal_id other_token = err (other "expected string but got another token")

abbrev pub failed_with : String → Error → Received
failed_with key e = deal_result (record { key = key; deal = none; error = some e })

abbrev pub trailing : Error
trailing = other "expected no more tokens but got another"

-- The call of `Token` behind the end of the object. An error that is `io.EOF` has no text of its own
-- in the model of errors, so the end is where no step is left.
unfoldable pub at_end : List Reading → List Received
at_end [] = []
at_end (s ∷ rest) = failed_with "" trailing ∷ []

-- the loop
unfoldable pub read_deals : List Reading → List Received
unfolding at_end deal_id
read_deals [] = failed_with "" eof ∷ []
read_deals (s ∷ rest) =
    let more = read_deals rest in
    elim (s.token >>= deal_id) [
      | err e ↦ failed_with "" e ∷ []
      | ok key ↦ if key == "" then at_end rest else elim s.value [
        | err e ↦ failed_with key e ∷ []
        | ok d ↦ deal_result (record { key = key; deal = some d; error = none }) ∷ more
      ]
    ]

-- What the goroutine sends before it closes the channel.
unfoldable pub read_snapshot : Document → List Received
unfolding read_deals
read_snapshot doc = elim doc.first [
  | err e ↦ failed_with "" e ∷ []
  | ok (delim d) ↦ read_deals doc.steps
  | ok (str s) ↦ failed_with "" (other "unexpected JSON token: expected delimiter") ∷ []
  | ok other_token ↦ failed_with "" (other "unexpected JSON token: expected delimiter") ∷ []
]

module _ ⦃p : Platform⦄ where
  abbrev pub snapshot_request : String → HttpRequest
  snapshot_request url = record { method = "GET"; url = url; body = [] }

  -- The response must be a 200, and `zstd.NewReader` must accept it; `decoder_of` is that reader
  -- and the decoder on it.
  unfoldable pub open_snapshot :
      (HttpResponse → Result Document) → HttpResponse → Result (List Received)
  unfolding read_snapshot itoa
  open_snapshot decoder_of resp =
      if resp.status_code == 200
      then (decoder_of resp >>= λ doc. ok (read_snapshot doc))
      else err (other (String.◌++◌ "faild to get market deals: " (itoa resp.status_code)))

  unfoldable pub state_market_deals_via_s3_snapshot :
      Net → (HttpResponse → Result Document) → String → Log (Result (List Received))
  unfolding open_snapshot
  state_market_deals_via_s3_snapshot net decoder_of url =
      and_then (net.new_request (snapshot_request url))
        λ req. (net.http_do req >>= open_snapshot decoder_of, http req ∷ [])
