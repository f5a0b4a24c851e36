-- ===== src/FilClient/Tools.antt =====
-- `stateMarketDealsViaFilTools` of fil_client.go: the deals of filecoin.tools, page after page.
pub mod Laws
use heyfil.Base.{
  if◌then◌else◌, ◌==◌, nat_eq, string_eq, ℕ, zero, suc, ◌+◌, String, Option, none, some, List, [],
  ◌∷◌, ◌++◌, map,
}
use Prim.Native.String
use mathlib.Core.Option
use heyfil.Base.Int.{ℤ, pos, negsuc}
use heyfil.Base.Text.{itoa}
use heyfil.Base.Result.{Error, other, Result, ok, err, ◌>>=◌}
use heyfil.Deal.{StateMarketDeal, StateMarketDealResult}
use heyfil.DealStats.{Received, deal_result}
use heyfil.FilClient.Snapshot.{failed_with}
use heyfil.Platform.{Platform, Net, HttpRequest, HttpResponse}

-- The elements of filecoinToolsDealListPage.Deals
pub record ToolsDeal : Type 0 where
  pub deal_id : ℤ
  pub deal_info : StateMarketDeal

-- `strconv.Itoa`
unfoldable pub itoa_int : ℤ → String
unfolding itoa
itoa_int (pos n) = itoa n
itoa_int (negsuc n) = String.◌++◌ "-" (itoa (n + 1))

-- The results of a page point to the one loop variable. If the loop has gone `n` deals further when
-- the receiver reads, this is the deal that it finds: the variable keeps the last deal of the page.
unfoldable pub seen : ℕ → ToolsDeal → List ToolsDeal → StateMarketDeal
seen zero d ds = d.deal_info
seen (suc n) d [] = d.deal_info
seen (suc n) d (e ∷ es) = seen n e es

abbrev ahead : List ℕ → ℕ
ahead [] = 0
ahead (n ∷ ns) = n

abbrev behind : List ℕ → List ℕ
behind [] = []
behind (n ∷ ns) = ns

-- What the receiver gets of a page: `leads` says for each result how far the loop is ahead when the
-- result is read, 0 where the list has ended. The fields of a deal are read at one time.
unfoldable pub read_page : List ℕ → List ToolsDeal → List Received
unfolding itoa_int seen
read_page leads [] = []
read_page leads (d ∷ ds) =
    deal_result
      (record { key = itoa_int d.deal_id; deal = some (seen (ahead leads) d ds); error = none })
    ∷ read_page (behind leads) ds

module _ ⦃p : Platform⦄ where
  -- The parameters of the query are encoded in the order of their names.
  unfoldable pub page_request : String → ℕ → HttpRequest
  unfolding itoa
  page_request endpoint page = record {
    method = "GET";
    url = String.◌++◌ endpoint (String.◌++◌ "?page=" (String.◌++◌ (itoa page) "&per_page=3000"));
    body = [];
  }

  -- The decoder of a page is a parameter.
  abbrev pub Decoder : Type 0
  Decoder = HttpResponse → Result (List ToolsDeal)

  unfoldable pub page_of : Net → Decoder → String → ℕ → Result (List ToolsDeal)
  unfolding page_request
  page_of net decode endpoint page = net.http_do (page_request endpoint page) >>= λ resp.
      if resp.status_code == 200
      then decode resp
      else err (
          other (
            String.◌++◌ "received unsuccessful response from FileCoin Tools while lsiting deals: "
              (itoa resp.status_code)))

  -- The goroutine, from a page on, with the leads of each page. `none` is a lack of fuel.
  unfoldable pub read_pages :
      Net → Decoder → String → (ℕ → List ℕ) → (fuel page : ℕ) → Option (List Received)
  read_pages net decode endpoint leads zero page = none
  read_pages net decode endpoint leads (suc fuel) page =
      let more = read_pages net decode endpoint leads fuel (page + 1) in
      elim (page_of net decode endpoint page) [
        | err e ↦ some (failed_with "" e ∷ [])
        | ok [] ↦ some []
        | ok (d ∷ ds) ↦ Option.map (λ rs. read_page (leads page) (d ∷ ds) ++ rs) more
      ]

  unfoldable pub state_market_deals_via_fil_tools :
      Net → Decoder → String → (ℕ → List ℕ) → (fuel : ℕ) → Result (Option (List Received))
  unfolding read_pages
  state_market_deals_via_fil_tools net decode endpoint leads fuel =
      net.new_request (record { method = "GET"; url = endpoint; body = [] }) >>= λ req.
      ok (read_pages net decode endpoint leads fuel 1)
