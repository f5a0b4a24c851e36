-- ===== src/Tests/Deals.antt =====
-- A snapshot of deals on concrete inputs.
use heyfil.Base.{
  if◌then◌else◌, length, ◌==◌, nat_eq, string_eq, ℕ, String, ◌≡◌, refl, ap, ◌≢◌, true, some, List,
  [], ◌∷◌, arith, ℕ_discrete,
}
use heyfil.Base.Int.{pos}
use heyfil.Base.Result.{err, Result, ok}
use heyfil.Base.Text.{itoa}
use heyfil.HeyFil.{HeyFil}
use heyfil.Tests.World.{opts, demo, net, hf, io, answers, older_deal, recent_deal}
use heyfil.FilClient.Tools.{
  read_page, state_market_deals_via_fil_tools, read_pages, page_request, ToolsDeal, Decoder,
  page_of,
}
use heyfil.DealStats.{Received, empty_tally, scan, completed, failed}
use heyfil.Platform.{Net, HttpResponse}
use heyfil.DealStats.Counts.{deals, take_all}
use heyfil.FilClient.Snapshot.{
  Document, delim, eof, read_snapshot, state_market_deals_via_s3_snapshot,
}
use heyfil.FilClient.Snapshot.Laws.{
  Entries, Named, steps_of, close, values, scan-read_snapshot, scan-read_snapshot_cut,
}
use heyfil.Refresh.{Answers, refresh, panicked}
use heyfil.Refresh.Safety.{refresh_returns}
use heyfil.FilClient.Tools.Laws.{
  read_pages-Serves, Serves, deals-read_page_behind, all_infos, always_one, total,
}

abbrev entries : Entries
entries = ("1", older_deal) ∷ ("2", recent_deal) ∷ []

entries-Named : Named entries
entries-Named = (λ e. cc, (λ e. cc, tt))

scan-read_snapshot_example :
    scan
      (pos 50000)
      (read_snapshot (record { first = ok (delim "{"); steps = steps_of entries (close ∷ []) }))
      empty_tally
    ≡ completed (take_all (pos 50000) (values entries) empty_tally)
scan-read_snapshot_example = scan-read_snapshot (pos 50000) entries empty_tally entries-Named

scan-read_snapshot_cut_example :
    scan
      (pos 50000)
      (read_snapshot (record { first = ok (delim "{"); steps = steps_of entries [] }))
      empty_tally
    ≡ failed eof
scan-read_snapshot_cut_example =
    scan-read_snapshot_cut (pos 50000) entries empty_tally entries-Named

abbrev decode : HttpResponse → Result Document
decode resp = ok (record { first = ok (delim "{"); steps = steps_of entries (close ∷ []) })

abbrev url : String
url = "https://marketdeals.s3.amazonaws.com/StateMarketDeals.json.zst"

abbrev first_page : List ToolsDeal
first_page =
    record { deal_id = pos 1; deal_info = older_deal }
    ∷ record { deal_id = pos 2; deal_info = recent_deal }
    ∷ []

abbrev endpoint : String
endpoint = "https://filecoin.tools/api/deals/list"

-- One page of two deals, told by a byte of the body.
abbrev tools : Net
tools = record net {
  http_do = λ r. ok (record {
    status_code = 200;
    body =
        if r.url == "https://filecoin.tools/api/deals/list?page=1&per_page=3000"
        then ok (1 ∷ [])
        else ok [];
  });
}

abbrev decode_page : Decoder
decode_page resp = elim resp.body [ err e ↦ err e | ok [] ↦ ok [] | ok (b ∷ bs) ↦ ok first_page ]

served : Serves tools decode_page endpoint 1 (first_page ∷ [])
unfolding page_of page_request itoa string_eq ℕ_discrete
served = (refl, λ e. cc, refl)

abbrev in_step : ℕ → List ℕ
in_step page = []

read_pages-Serves_example :
    (rs : List Received) × (read_pages tools decode_page endpoint in_step 2 1 ≡ some rs)
    × (length (deals rs) ≡ total tools decode_page endpoint (first_page ∷ []))
    × (((n : ℕ) → in_step n ≡ []) → deals rs ≡ all_infos (first_page ∷ []))
read_pages-Serves_example =
    read_pages-Serves tools decode_page endpoint in_step (first_page ∷ []) 1 2 served (omega arith)

deals-read_page_behind_example :
    deals (read_page (always_one first_page) first_page) ≡ recent_deal ∷ recent_deal ∷ []
deals-read_page_behind_example =
    deals-read_page_behind (record { deal_id = pos 1; deal_info = older_deal })
      (record { deal_id = pos 2; deal_info = recent_deal } ∷ [])

-- Deals from both sources, of which filecoin.tools is on.
abbrev read_answers : Answers
read_answers = record answers {
  via_s3_snapshot = (state_market_deals_via_s3_snapshot tools decode url).0;
  via_fil_tools = ok (read_page [] first_page);
}

abbrev tools_hf : HeyFil
tools_hf = record hf { options = record opts { market_deals_fil_tools_enabled = true } }

tools_read :
    (rs : List Received)
    → read_answers.via_fil_tools ≡ ok rs
    → state_market_deals_via_fil_tools tools decode_page endpoint in_step 2 ≡ ok (some rs)
unfolding state_market_deals_via_fil_tools read_pages page_of page_request itoa string_eq ℕ_discrete
    read_page
tools_read rs e = let same : read_page [] first_page ≡ rs = cc in ap (λ l. ok (some l)) same

refresh_returns_example : refresh io read_answers tools_hf ≢ panicked
refresh_returns_example =
    refresh_returns io read_answers tools_hf tools decode url decode_page endpoint in_step 2 refl
      tools_read
