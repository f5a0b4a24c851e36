-- ===== src/Startup/Failure.antt =====
-- A service whose metrics do not start.
use heyfil.Service.{
  Service, Step, Reaches, cancel, abandoned, dispatcher_returned, checker_returned,
  handler_returned, refresher_returned, listed, dispatched, started, finished, handled, snapped,
  refreshed, stop, further, idle,
}
use heyfil.Startup.{HeyFil, Error, Platform, start_service, start_with}
use mathlib.Core.Path.{subst}
use heyfil.Metrics.Instruments.{Meter, start}
use heyfil.Store.{load_targets, load_recent_pieces, Visit, Storage}
use heyfil.Base.{◌≡◌, refl, sym, ap, ◌∙◌, false, Option, none, some, List, [], ◌∷◌, ◌++◌, arith}
use heyfil.Platform.{Platform}
use heyfil.Base.Result.{Error}
use heyfil.HeyFil.{HeyFil}

module _ ⦃p : Platform⦄ where
  -- No goroutine runs, and no checked target is held.
  abbrev pub Asleep : Service → Type 0
  Asleep s =
      (s.dispatching ≡ false)
      × (s.handling ≡ false)
      × (s.refreshing ≡ false)
      × (s.checkers ≡ 0)
      × (s.held ≡ [])

  no_middle {ℓ} : {A : Type ℓ} (xs : List A) (x : A) (ys : List A) → [] ≡ xs ++ (x ∷ ys) → ⊥
  no_middle [] x ys e = cc
  no_middle (y ∷ xs) x ys e = cc

  Step-Asleep :
      (io : Storage) {s s' : Service} → Step io s s' → Asleep s → Asleep s' × (s'.hf ≡ s.hf)
  Step-Asleep io (listed net mids on e answered) (d, _, _, _, _) = absurd (cc)
  Step-Asleep io (dispatched m rest on e room) (d, _, _, _, _) = absurd (cc)
  Step-Asleep io (started net t rest e free) (_, _, _, n, _) = absurd (omega (arith, free, n))
  Step-Asleep io (finished before t after e room) (_, _, _, _, empty) =
      absurd (no_middle before t after (sym empty ∙ e))
  Step-Asleep io (handled t rest on e) (_, h, _, _, _) = absurd (cc)
  Step-Asleep io (snapped on) (_, h, _, _, _) = absurd (cc)
  Step-Asleep io (refreshed a e hf' on q) (_, _, r, _, _) = absurd (cc)
  Step-Asleep io cancel asleep = (asleep, refl)
  Step-Asleep io (abandoned c) asleep = (asleep, refl)
  Step-Asleep io (dispatcher_returned c e) (_, h, r, n, e') = ((refl, h, r, n, e'), refl)
  Step-Asleep io (checker_returned before t after c e) (_, _, _, _, empty) =
      absurd (no_middle before t after (sym empty ∙ e))
  Step-Asleep io (handler_returned c) (d, _, r, n, e) = ((d, refl, r, n, e), refl)
  Step-Asleep io (refresher_returned c) (d, h, _, n, e) = ((d, h, refl, n, e), refl)

  Reaches-Asleep : (io : Storage) {s s' : Service} → Reaches io s s' → Asleep s → s'.hf ≡ s.hf
  Reaches-Asleep io stop a = refl
  Reaches-Asleep io (further step more) a =
      let (a', same) = Step-Asleep io step a in Reaches-Asleep io more a' ∙ same

  start_with-failure :
      (o : Option Error) (hf : HeyFil) (e : Error) (s : Service)
      → start_with o hf ≡ (some e, s)
      → Asleep s × (s.hf ≡ hf) × (o ≡ some e)
  unfolding start_with
  start_with-failure none hf e s q = absurd (cc)
  start_with-failure (some x) hf e s q =
      let same : idle hf ≡ s = ap (λ r. r.1) q in
      (
        subst Asleep same (refl, refl, refl, refl, refl),
        ap (λ (r : Service). r.hf) (sym same),
        ap (λ r. r.0) q,
      )

  -- When `Start` returns an error, it is that of starting the metrics, and whatever steps follow,
  -- the state stays the loaded one with the metrics as their start left them.
  pub start_service-failure :
      (io : Storage) (visits : List Visit) (meter : Meter) (hf : HeyFil) (e : Error)
      (s s' : Service)
      → start_service io visits meter hf ≡ (some e, s)
      → Reaches io s s'
      → let loaded = load_recent_pieces io (load_targets io visits hf) in
        let started = start meter loaded.metrics in
        (started.0 ≡ some e) × (s'.hf ≡ record loaded { metrics = started.1 })
  unfolding start_service
  start_service-failure io visits meter hf e s s' q run =
      let (a, same, err) = start_with-failure _ _ e s q in (err, Reaches-Asleep io run a ∙ same)
