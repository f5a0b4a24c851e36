-- ===== src/Refresh/Safety.antt =====
-- A refresh whose deals come from one of the two sources.
use mathlib.Core.Path.{subst}
use heyfil.Base.{
  All-append, Bool-cases, Option-cases, is_some, All, ◌==◌, nat_eq, string_eq, ℕ, zero, suc, ◌+◌,
  String, ◌≡◌, refl, ap, ◌≢◌, inl, inr, true, none, some, List, [], ◌∷◌, ◌++◌,
}
use heyfil.Base.Int.{ℤ}
use heyfil.Base.Result.{Error, Result, ok, err, ◌>>=◌, Result-cases}
use heyfil.FilClient.Tools.{
  page_of, Decoder, ToolsDeal, read_page, read_pages, state_market_deals_via_fil_tools,
}
use heyfil.FilClient.Snapshot.{
  failed_with, Document, read_snapshot, snapshot_request, open_snapshot,
  state_market_deals_via_s3_snapshot,
}
use heyfil.DealStats.{
  Tally, take_deal, cancelled, deal_result, empty_tally, Received, Scan, completed, failed,
  nil_dereference, scan,
}
use heyfil.Platform.{Platform, Net, ChainHead, HttpResponse}
use heyfil.FilClient.Snapshot.Laws.{scan-read_snapshot_ne}
use heyfil.HeyFil.{HeyFil}
use heyfil.Store.{Storage}
use heyfil.Refresh.{panicked, Answers, conclude, received, refresh_with, refresh}

module _ ⦃p : Platform⦄ where
  abbrev Crashes : Result (List Received) → Type 0
  Crashes r =
      (rs : List Received) × (current : ℤ) × (r ≡ ok rs)
      × (scan current rs empty_tally ≡ nil_dereference)

  conclude_returns :
      (io : Storage) (s : Scan) (hf : HeyFil) → s ≢ nil_dereference → conclude io s hf ≢ panicked
  unfolding conclude
  conclude_returns io (completed t) hf n = λ q. cc
  conclude_returns io (failed e) hf n = λ q. cc
  conclude_returns io nil_dereference hf n = absurd (n refl)

  refresh_with_returns :
      (io : Storage) (h : Result ChainHead) (r : Result (List Received)) (hf : HeyFil)
      → ¬ Crashes r
      → refresh_with io h r hf ≢ panicked
  unfolding refresh_with
  refresh_with_returns io (err e) r hf n = λ q. cc
  refresh_with_returns io (ok ch) (err e) hf n = λ q. cc
  refresh_with_returns io (ok ch) (ok rs) hf n =
      conclude_returns io _ hf (λ q. n (rs, ch.height, refl, q))

  err_safe : (e : Error) → ¬ Crashes (err e)
  err_safe e = λ (rs, current, f, q). cc

  bind_safe :
      {A : Type 0} (r : Result A) (f : A → Result (List Received))
      → ((a : A) → ¬ Crashes (f a))
      → ¬ Crashes (r >>= f)
  bind_safe (ok a) f n = n a
  bind_safe (err e) f n = err_safe e

  read_snapshot_safe : (doc : Document) → ¬ Crashes (ok (read_snapshot doc))
  read_snapshot_safe doc =
      λ (rs, current, f, q). scan-read_snapshot_ne current doc.first doc.steps empty_tally (cc)

  open_snapshot_safe :
      (decoder_of : HttpResponse → Result Document) (resp : HttpResponse)
      → ¬ Crashes (open_snapshot decoder_of resp)
  unfolding open_snapshot
  open_snapshot_safe decoder_of resp = elim (Bool-cases (resp.status_code == 200)) [
    | inl e ↦ rw e (bind_safe (decoder_of resp) _ read_snapshot_safe)
    | inr e ↦ rw e (err_safe _)
  ]

  snapshot_safe :
      (net : Net) (decoder_of : HttpResponse → Result Document) (url : String)
      → ¬ Crashes (state_market_deals_via_s3_snapshot net decoder_of url).0
  unfolding state_market_deals_via_s3_snapshot
  snapshot_safe net decoder_of url = elim (Result-cases (net.new_request (snapshot_request url))) [
    | inr (x, e) ↦ rw e (err_safe x)
    | inl (req, e) ↦ rw e (bind_safe (net.http_do req) _ (open_snapshot_safe decoder_of))
  ]

  -- A result of the channel has an error or a deal.
  abbrev Given : Received → Type 0
  Given (cancelled x) = Unit
  Given (deal_result r) = r.error ≡ none → is_some r.deal ≡ true

  scan-Given :
      (current : ℤ) (rs : List Received) (t : Tally)
      → All Given rs
      → scan current rs t ≢ nil_dereference
  unfolding scan
  scan-Given current [] t _ = λ q. cc
  scan-Given current (cancelled x ∷ rs) t _ = λ q. cc
  scan-Given current (deal_result r ∷ rs) t (given, others) = elim (Option-cases r.error) [
    | inr (x, e) ↦ λ q. cc (rw (e, scan) at q)
    | inl e ↦ elim (Option-cases r.deal) [
      | inl f ↦ absurd (cc (given e, ap is_some f))
      | inr (d, f) ↦
          λ q. scan-Given current rs (take_deal current d t) others (rw (e, f, scan) at q)
    ]
  ]

  read_page-Given : (leads : List ℕ) (ds : List ToolsDeal) → All Given (read_page leads ds)
  unfolding read_page
  read_page-Given leads [] = tt
  read_page-Given leads (d ∷ ds) = (λ e. refl, read_page-Given _ ds)

  read_pages-Given :
      (net : Net) (decode : Decoder) (endpoint : String) (leads : ℕ → List ℕ) (fuel page : ℕ)
      (rs : List Received)
      → read_pages net decode endpoint leads fuel page ≡ some rs
      → All Given rs
  unfolding read_pages
  read_pages-Given net decode endpoint leads zero page rs q = absurd (cc)
  read_pages-Given net decode endpoint leads (suc fuel) page rs q =
      elim (Result-cases (page_of net decode endpoint page)) [
        | inr (x, e) ↦
            let only : (failed_with "" x ∷ []) ≡ rs = cc (rw (e, read_pages) at q) in
            subst (All Given) only (λ n. absurd (cc), tt)
        | inl ([], e) ↦
            let only : [] ≡ rs = cc (rw (e, read_pages) at q) in subst (All Given) only tt
        | inl (d ∷ ds, e) ↦
            elim (Option-cases (read_pages net decode endpoint leads fuel (page + 1))) [
              | inl f ↦ absurd (cc (rw (e, f, read_pages) at q))
              | inr (more, f) ↦
                  let here = read_page (leads page) (d ∷ ds) in
                  let both : here ++ more ≡ rs = cc (rw (e, f, read_pages) at q) in
                  subst (All Given) both (
                    All-append Given here more (read_page-Given (leads page) (d ∷ ds))
                      (read_pages-Given net decode endpoint leads fuel (page + 1) more f))
            ]
      ]

  tools_safe :
      (net : Net) (decode : Decoder) (endpoint : String) (leads : ℕ → List ℕ) (fuel : ℕ)
      (rs : List Received) (current : ℤ)
      → state_market_deals_via_fil_tools net decode endpoint leads fuel ≡ ok (some rs)
      → scan current rs empty_tally ≢ nil_dereference
  unfolding state_market_deals_via_fil_tools
  tools_safe net decode endpoint leads fuel rs current q =
      elim (Result-cases (net.new_request (record { method = "GET"; url = endpoint; body = [] }))) [
        | inr (x, e) ↦ absurd (cc (rw e at q))
        | inl (req, e) ↦
            let ends : read_pages net decode endpoint leads fuel 1 ≡ some rs = cc (rw e at q) in
            scan-Given current rs empty_tally
              (read_pages-Given net decode endpoint leads fuel 1 rs ends)
      ]

  received-safe :
      (a : Answers) (hf : HeyFil)
      → ¬ Crashes a.via_fil_tools
      → ¬ Crashes a.via_s3_snapshot
      → ¬ Crashes (received a hf)
  unfolding received
  received-safe a hf tools snapshot = elim (Bool-cases hf.options.market_deals_fil_tools_enabled) [
    | inl e ↦ rw e tools
    | inr e ↦ rw e snapshot
  ]

  -- When the deals come from the snapshot or from the pages of filecoin.tools, of which the
  -- goroutine reads all that it does within the fuel, a refresh returns: it does not crash on a deal
  -- that is nil, whatever the network answers.
  pub refresh_returns :
      (io : Storage) (a : Answers) (hf : HeyFil) (net : Net)
      (decoder_of : HttpResponse → Result Document) (url : String) (decode : Decoder)
      (endpoint : String) (leads : ℕ → List ℕ) (fuel : ℕ)
      → a.via_s3_snapshot ≡ (state_market_deals_via_s3_snapshot net decoder_of url).0
      → ((rs : List Received)
          → a.via_fil_tools ≡ ok rs
          → state_market_deals_via_fil_tools net decode endpoint leads fuel ≡ ok (some rs))
      → refresh io a hf ≢ panicked
  unfolding refresh
  refresh_returns io a hf net decoder_of url decode endpoint leads fuel snapshot tools =
      refresh_with_returns io a.head (received a hf) hf (
        received-safe a hf
          (λ (rs, current, e, q).
            tools_safe net decode endpoint leads fuel rs current (tools rs e) q)
          (rw snapshot (snapshot_safe net decoder_of url)))
