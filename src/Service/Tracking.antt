-- ===== src/Service/Tracking.antt =====
-- Where a participant is on its way from the list to the targets.
use heyfil.Base.{
  is_some, ◌==◌, contains, nat_eq, string_eq, String, ◌≡◌, refl, ap, Bool, true, false, ◌||◌, List,
  [], ◌∷◌, ◌++◌, arith,
}
use heyfil.Base.Dict.{lookup-insert, insert, lookup}
use heyfil.Service.{
  cancel, refresher_returned, handler_returned, checker_returned, dispatcher_returned, abandoned,
  stop, take_snapshot, refreshed, snapped, handled, finished, started, dispatched, further, listed,
  Reaches, Step, handle_checked, participants_listed, Service,
}
use heyfil.Service.Invariant.{refresh-Same, store-Same}
use heyfil.Platform.{Platform}
use heyfil.Target.{new_target, Target}
use heyfil.Store.{Storage}
use heyfil.HeyFil.{HeyFil}
use heyfil.Target.Check.{check}
use heyfil.Target.Bookkeeping.{check-Kept}

module _ ⦃p : Platform⦄ where
  -- Whether a participant is among some targets.
  abbrev pub among : String → List Target → Bool
  among mid [] = false
  among mid (t ∷ ts) = t.id == mid || among mid ts

  -- It waits for the dispatcher, waits for a checker, is held by one, waits for the result handler,
  -- or has a target.
  unfoldable pub tracked : String → Service → Bool
  tracked mid s =
      contains s.pending mid
      || (among mid s.to_check
          || (among mid s.held || (among mid s.checked || is_some (lookup mid s.hf.targets))))

  among-append :
      (mid : String) (xs ys : List Target) → among mid (xs ++ ys) ≡ (among mid xs || among mid ys)
  among-append mid [] ys = refl
  among-append mid (x ∷ xs) ys = ground (arith, among-append mid xs ys)

  tracked-listed :
      (mid : String) (mids : List String) (s : Service)
      → s.pending ≡ []
      → tracked mid s ≡ true
      → tracked mid (record s { pending = mids; hf = participants_listed mids s.hf }) ≡ true
  unfolding tracked participants_listed
  tracked-listed mid mids s e h = let waits = ap (λ l. contains l mid) e in ground arith

  tracked-dispatched :
      (mid m : String) (rest : List String) (s : Service)
      → s.pending ≡ m ∷ rest
      → tracked mid s ≡ true
      → tracked mid (record s { pending = rest; to_check = s.to_check ++ (new_target m ∷ []) })
        ≡ true
  unfolding tracked
  tracked-dispatched mid m rest s e h =
      let waits = ap (λ l. contains l mid) e in
      ground (arith, among-append mid s.to_check (new_target m ∷ []))

  tracked-started :
      (mid : String) (t t' : Target) (rest : List Target) (s : Service)
      → s.to_check ≡ t ∷ rest
      → t'.id ≡ t.id
      → tracked mid s ≡ true
      → tracked mid (record s { to_check = rest; held = t' ∷ s.held }) ≡ true
  unfolding tracked
  tracked-started mid t t' rest s e same h =
      let waits = ap (among mid) e in let renamed = ap (λ i. i == mid) same in ground arith

  tracked-finished :
      (mid : String) (before : List Target) (t : Target) (after : List Target) (s : Service)
      → s.held ≡ before ++ (t ∷ after)
      → tracked mid s ≡ true
      → tracked mid (record s { held = before ++ after; checked = s.checked ++ (t ∷ []) }) ≡ true
  unfolding tracked
  tracked-finished mid before t after s e h =
      let waits = ap (among mid) e in
      ground (
        arith,
        among-append mid before (t ∷ after),
        among-append mid before after,
        among-append mid s.checked (t ∷ []),
      )

  tracked-handled :
      (io : Storage) (mid : String) (t : Target) (rest : List Target) (s : Service)
      → s.checked ≡ t ∷ rest
      → tracked mid s ≡ true
      → tracked mid (record s { checked = rest; hf = handle_checked io t s.hf }) ≡ true
  unfolding tracked handle_checked
  tracked-handled io mid t rest s e h =
      let waits = ap (among mid) e in
      let same = (store-Same io t (record s.hf { targets = insert t.id t s.hf.targets })).0 in
      rw (same, lookup-insert) (ground arith)

  tracked_same :
      (mid : String) (s : Service) (hf' : HeyFil)
      → hf'.targets ≡ s.hf.targets
      → tracked mid s ≡ true
      → tracked mid (record s { hf = hf' }) ≡ true
  unfolding tracked
  tracked_same mid s hf' e h = rw e h

  tracked-Step :
      (io : Storage) (mid : String) {s s' : Service}
      → Step io s s'
      → s'.cancelled ≡ false
      → tracked mid s ≡ true
      → tracked mid s' ≡ true
  unfolding take_snapshot tracked
  tracked-Step io mid (listed {s} net mids on e answered) live h = tracked-listed mid mids s e h
  tracked-Step io mid (dispatched {s} m rest on e room) live h = tracked-dispatched mid m rest s e h
  tracked-Step io mid (started {s} net t rest e free) live h =
      tracked-started mid t (check net s.hf.options s.hf.deal_count_by_participant t).0 rest s e
        (check-Kept net s.hf.options s.hf.deal_count_by_participant t).0 h
  tracked-Step io mid (finished {s} before t after e room) live h =
      tracked-finished mid before t after s e h
  tracked-Step io mid (handled {s} t rest on e) live h = tracked-handled io mid t rest s e h
  tracked-Step io mid (snapped {s} on) live h = tracked_same mid s (take_snapshot s.hf) refl h
  tracked-Step io mid (refreshed {s} a x hf' on q) live h =
      tracked_same mid s (record hf' { latest_refresh_err = x }) (refresh-Same io a s.hf hf' x q).0
        h
  tracked-Step io mid cancel live h = cc
  tracked-Step io mid (abandoned c) live h = cc
  tracked-Step io mid (dispatcher_returned c e) live h = h
  tracked-Step io mid (checker_returned before t after c e) live h = cc
  tracked-Step io mid (handler_returned c) live h = h
  tracked-Step io mid (refresher_returned c) live h = h

  cancelled-Step :
      (io : Storage) {s s' : Service} → Step io s s' → s'.cancelled ≡ false → s.cancelled ≡ false
  cancelled-Step io (listed net mids on e answered) live = live
  cancelled-Step io (dispatched m rest on e room) live = live
  cancelled-Step io (started net t rest e free) live = live
  cancelled-Step io (finished before t after e room) live = live
  cancelled-Step io (handled t rest on e) live = live
  cancelled-Step io (snapped on) live = live
  cancelled-Step io (refreshed a x hf' on q) live = live
  cancelled-Step io cancel live = cc
  cancelled-Step io (abandoned c) live = live
  cancelled-Step io (dispatcher_returned c e) live = live
  cancelled-Step io (checker_returned before t after c e) live = live
  cancelled-Step io (handler_returned c) live = live
  cancelled-Step io (refresher_returned c) live = live

  cancelled-Reaches :
      (io : Storage) {s s' : Service} → Reaches io s s' → s'.cancelled ≡ false → s.cancelled ≡ false
  cancelled-Reaches io stop live = live
  cancelled-Reaches io (further step more) live =
      cancelled-Step io step (cancelled-Reaches io more live)

  -- Until the context is cancelled, a participant that was listed is not lost, whatever steps
  -- follow: it waits, is checked, or has a target.
  pub tracked-Reaches :
      (io : Storage) (mid : String) {s s' : Service}
      → Reaches io s s'
      → s'.cancelled ≡ false
      → tracked mid s ≡ true
      → tracked mid s' ≡ true
  tracked-Reaches io mid stop live h = h
  tracked-Reaches io mid (further step more) live h =
      tracked-Reaches io mid more live (tracked-Step io mid step (cancelled-Reaches io more live) h)
