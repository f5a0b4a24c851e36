-- ===== src/Startup/Refinement.antt =====
-- What a service that has been started knows of the participants.
use mathlib.Core.Path.{subst}
use heyfil.Base.{is_some, nat_eq, string_eq, String, ◌≡◌, refl, ap, Option, none, some, List, []}
use heyfil.Base.Result.{Error}
use heyfil.Target.{Target}
use heyfil.Store.{Visit, Storage}
use heyfil.Service.{Service, awake, Reaches}
use heyfil.Service.Updates.{Checks, Updates, Outcome, Sound, View, view, Reaches-Updates}
use heyfil.Target.Bookkeeping.{is_failure}
use heyfil.Target.Meaning.{Meaning}
use heyfil.FilClient.{state_miner_info}
use heyfil.Startup.{
  Meter, Visit, Options, Error, HeyFil, Storage, Platform, start_service, start_with,
  start_api_server, start_metrics_server,
}
use heyfil.Startup.Laws.{loaded-ok}
use heyfil.Platform.{Net, Platform}
use heyfil.Options.{Options}
use heyfil.HeyFil.{HeyFil}
use heyfil.Metrics.Instruments.{Meter}

module _ ⦃p : Platform⦄ where
  awake-Sound : (used : String → Net → Type 0) (hf : HeyFil) → Sound hf.options used (awake hf)
  awake-Sound used hf = record { options = refl; fresh = tt; held = tt; checked = tt }

  start_with-Sound :
      (used : String → Net → Type 0) (e : Option Error) (hf : HeyFil) (s : Service)
      → start_with e hf ≡ (none, s)
      → Sound hf.options used s × (s.hf.targets ≡ hf.targets)
  unfolding start_with start_api_server start_metrics_server
  start_with-Sound used (some e) hf s q = absurd (cc)
  start_with-Sound used none hf s q =
      let same : awake (start_api_server (start_metrics_server hf)) ≡ s = ap (λ r. r.1) q in
      rw (← same) (awake-Sound used (start_api_server (start_metrics_server hf)), refl)

  -- From a start without an error on, whatever steps the goroutines make in whatever order, the
  -- targets change as the map from participants to targets does that puts in, one after the other,
  -- outcomes of checks that the steps made, of fresh targets with the options of the service.
  pub started-Updates :
      (io : Storage) (visits : List Visit) (meter : Meter) (hf : HeyFil) (s s' : Service)
      → start_service io visits meter hf ≡ (none, s)
      → hf.targets ≡ []
      → (run : Reaches io s s') → Updates hf.options (Checks io run) (view s) (view s')
  unfolding start_service
  started-Updates io visits meter hf s s' q fresh run =
      let (_, o, _) = loaded-ok io visits hf fresh in
      Reaches-Updates io hf.options (Checks io run) run (λ mid net c. c)
        (subst (λ r. Sound r (Checks io run) s) o (start_with-Sound (Checks io run) _ _ s q).0)

  -- A target that answers of the network explain which were used for its participant, with an
  -- error exactly if a call failed.
  abbrev pub Explained : Options → (String → Net → Type 0) → String → Target → Type 0
  Explained opts used mid t =
      (t.id ≡ mid)
      × (is_some t.error ≡ is_failure t.status)
      × ((net : Net) × used mid net × Meaning net opts (state_miner_info net mid).0 t.status)

  AllExplained : Options → (String → Net → Type 0) → View → Type 0
  AllExplained opts used v =
      (mid : String) (t : Target) → v mid ≡ some t → Explained opts used mid t
