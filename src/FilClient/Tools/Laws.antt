-- ===== src/FilClient/Tools/Laws.antt =====
-- The pages of filecoin.tools up to the first that is empty.
use heyfil.Base.{
  Option-cases, length, length-append, ℕ, zero, suc, ◌+◌, ◌<◌, String, ◌≡◌, refl, ap, ◌∙◌, ◌≢◌, inl,
  inr, some, List, [], ◌∷◌, ◌++◌, arith,
}
use heyfil.Base.Result.{ok}
use heyfil.Deal.{StateMarketDeal}
use heyfil.DealStats.{cancelled, Received, deal_result}
use heyfil.DealStats.Counts.{deals}
use heyfil.Platform.{Platform, Net}
use heyfil.FilClient.Tools.{ToolsDeal, Decoder, seen, read_page, page_of, read_pages}

-- The deals of all pages, in order.
abbrev pub infos : List ToolsDeal → List StateMarketDeal
infos [] = []
infos (d ∷ ds) = d.deal_info ∷ infos ds

abbrev pub all_infos : List (List ToolsDeal) → List StateMarketDeal
all_infos [] = []
all_infos (ds ∷ pages) = infos ds ++ all_infos pages

deals-append : (rs ss : List Received) → deals (rs ++ ss) ≡ deals rs ++ deals ss
deals-append [] ss = refl
deals-append (cancelled x ∷ rs) ss = deals-append rs ss
deals-append (deal_result r ∷ rs) ss = elim (Option-cases r.deal) [
  | inl e ↦ rw e (deals-append rs ss)
  | inr (d, e) ↦ rw e (ap (◌∷◌ d) (deals-append rs ss))
]

deals-read_page_in_step : (ds : List ToolsDeal) → deals (read_page [] ds) ≡ infos ds
unfolding read_page seen
deals-read_page_in_step [] = refl
deals-read_page_in_step (d ∷ ds) = ap (◌∷◌ d.deal_info) (deals-read_page_in_step ds)

deals-read_page_of :
    (leads : List ℕ) (ds : List ToolsDeal) → leads ≡ [] → deals (read_page leads ds) ≡ infos ds
deals-read_page_of leads ds e = rw e (deals-read_page_in_step ds)

length-read_page :
    (leads : List ℕ) (ds : List ToolsDeal) → length (deals (read_page leads ds)) ≡ length ds
unfolding read_page
length-read_page leads [] = refl
length-read_page leads (d ∷ ds) = ap suc (length-read_page _ ds)

abbrev pub always_one : List ToolsDeal → List ℕ
always_one [] = []
always_one (d ∷ ds) = 1 ∷ always_one ds

abbrev pub last_info : ToolsDeal → List ToolsDeal → StateMarketDeal
last_info d [] = d.deal_info
last_info d (e ∷ es) = last_info e es

-- If the loop is always one deal ahead when a result is read, the receiver gets the deals of a page
-- without the first, and then the last once more.
pub deals-read_page_behind :
    (d : ToolsDeal) (ds : List ToolsDeal)
    → deals (read_page (always_one (d ∷ ds)) (d ∷ ds)) ≡ infos ds ++ (last_info d ds ∷ [])
unfolding read_page seen
deals-read_page_behind d [] = refl
deals-read_page_behind d (e ∷ es) = ap (◌∷◌ e.deal_info) (deals-read_page_behind e es)

module _ ⦃p : Platform⦄ (net : Net) (decode : Decoder) (endpoint : String) where
  -- From a page on, the endpoint serves these pages, none of them empty, and then an empty one.
  abbrev pub Serves : ℕ → List (List ToolsDeal) → Type 0
  Serves page [] = page_of net decode endpoint page ≡ ok []
  Serves page (ds ∷ pages) =
      (page_of net decode endpoint page ≡ ok ds) × (ds ≢ []) × Serves (page + 1) pages

  abbrev pub total : List (List ToolsDeal) → ℕ
  total [] = 0
  total (ds ∷ pages) = length ds + total pages

  -- If the endpoint serves pages that are not empty and then an empty one, the goroutine ends, one
  -- round after them at the latest; the receiver gets as many deals as they hold, and, if it always
  -- reads a result before the loop goes on, exactly their deals in order.
  pub read_pages-Serves :
      (leads : ℕ → List ℕ) (pages : List (List ToolsDeal)) (page fuel : ℕ)
      → Serves page pages
      → length pages < fuel
      → (rs : List Received) × (read_pages net decode endpoint leads fuel page ≡ some rs)
        × (length (deals rs) ≡ total pages)
        × (((n : ℕ) → leads n ≡ []) → deals rs ≡ all_infos pages)
  unfolding read_pages
  read_pages-Serves leads pages page zero s h = absurd (omega arith)
  read_pages-Serves leads [] page (suc fuel) s h = ([], rw (s, read_pages), refl, λ l. refl)
  read_pages-Serves leads ([] ∷ pages) page (suc fuel) (s, n, rest) h = absurd (n refl)
  read_pages-Serves leads ((d ∷ ds) ∷ pages) page (suc fuel) (s, n, rest) h =
      let (rs, e, count, exact) =
        read_pages-Serves leads pages (page + 1) fuel rest (omega arith) in
      let here = read_page (leads page) (d ∷ ds) in
      let both = deals-append here rs in
      (
        here ++ rs,
        rw (s, read_pages, e),
        rw (both, length-append) (omega (count, length-read_page (leads page) (d ∷ ds), arith)),
        λ l.
            both
            ∙ ap (λ a. a ++ deals rs) (deals-read_page_of (leads page) (d ∷ ds) (l page))
            ∙ ap (λ a. infos (d ∷ ds) ++ a) (exact l),
      )
