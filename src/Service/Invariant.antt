-- ===== src/Service/Invariant.antt =====
-- What every run of the service keeps.
use heyfil.Base.{
  length, length-append, nat_eq, string_eq, ◌≤◌, ◌<◌, String, ◌≡◌, refl, ap, ◌∙◌, Bool, true, false,
  Option, none, some, List, [], ◌∷◌, ◌++◌, arith,
}
use heyfil.Base.Int.{ℤ, pos_part}
use heyfil.Base.Dict.{Dict, insert}
use heyfil.Base.Result.{Error}
use heyfil.Platform.{Platform}
use heyfil.Target.{Target}
use heyfil.Metrics.{notify_deal_count, notify_deal_count_within_day, notify_deal_count_within_week}
use heyfil.DealStats.{Tally}
use heyfil.HeyFil.{HeyFil}
use heyfil.Store.WellFormed.{WellFormed, insert-WellFormed}
use heyfil.Store.{Storage, store, store_recent_pieces}
use heyfil.Refresh.{Answers, refresh, returned, commit}
use heyfil.Refresh.Laws.{refresh-failure, refresh-success}
use heyfil.Service.{
  cancel, abandoned, dispatcher_returned, checker_returned, handler_returned, refresher_returned,
  capacity, Service, handle_checked, participants_listed, take_snapshot, Step, listed, dispatched,
  started, finished, handled, snapped, refreshed, Reaches, stop, further,
}

module _ ⦃p : Platform⦄ where
  -- The channels are within their capacity, the checkers hold at most one target each, and
  -- the targets are well formed.
  pub record Invariant (n : ℤ) (s : Service) : Type 0 where
    pub to_check_bound : length s.to_check ≤ capacity
    pub checked_bound : length s.checked ≤ capacity
    pub held_bound : length s.held ≤ s.checkers
    pub checkers_bound : s.checkers ≤ pos_part n
    -- until the context is cancelled, every goroutine runs
    pub all_run :
        s.cancelled ≡ false
        → (s.dispatching ≡ true)
          × (s.handling ≡ true)
          × (s.refreshing ≡ true)
          × (s.checkers ≡ pos_part n)
    pub workers : s.hf.options.max_concurrent_participant_check ≡ n
    pub targets_ok : WellFormed s.hf.targets

  -- What no operation on the state changes but the handling of a checked target.
  abbrev pub Same : HeyFil → HeyFil → Type 0
  Same hf hf' = (hf'.targets ≡ hf.targets) × (hf'.options ≡ hf.options)

  pub store-Same : (io : Storage) (t : Target) (hf : HeyFil) → Same hf (store io t hf).1
  unfolding store
  store-Same io t hf = (ground arith, ground arith)

  store_recent_pieces-Same :
      (io : Storage) (rp : Dict String String) (hf : HeyFil)
      → Same hf (store_recent_pieces io rp hf).1
  unfolding store_recent_pieces
  store_recent_pieces-Same io rp hf = (ground arith, ground arith)

  commit-Same : (io : Storage) (t : Tally) (hf : HeyFil) → Same hf (commit io t hf)
  unfolding commit notify_deal_count notify_deal_count_within_day notify_deal_count_within_week
  commit-Same io t hf = store_recent_pieces-Same io _ _

  pub refresh-Same :
      (io : Storage) (a : Answers) (hf hf' : HeyFil) (e : Option Error)
      → refresh io a hf ≡ returned e hf'
      → Same hf hf'
  refresh-Same io a hf hf' (some x) q = rw (refresh-failure io a hf hf' x q) (refl, refl)
  refresh-Same io a hf hf' none q =
      let (t, e) = refresh-success io a hf hf' q in rw e (commit-Same io t hf)

  length-sent {ℓ} :
      {A : Type ℓ} (xs : List A) (x : A) → length xs < capacity → length (xs ++ (x ∷ [])) ≤ capacity
  length-sent xs x h = omega (arith, length-append xs (x ∷ []))

  -- A step that leaves the channels, the checkers and what they hold.
  Invariant-live :
      {n : ℤ} (s : Service) (hf' : HeyFil) (pending : List String)
      → Same s.hf hf'
      → Invariant n s
      → Invariant n (record s { hf = hf'; pending = pending })
  Invariant-live s hf' pending (targets, options) i = record {
    to_check_bound = i.to_check_bound;
    checked_bound = i.checked_bound;
    held_bound = i.held_bound;
    checkers_bound = i.checkers_bound;
    all_run = i.all_run;
    workers = ap (λ o. o.max_concurrent_participant_check) options ∙ i.workers;
    targets_ok = rw targets i.targets_ok;
  }

  -- Cancellation, and the return of a goroutine that is no checker.
  Invariant-cancelled :
      {n : ℤ} (s : Service) (c d h r : Bool) (pending : List String)
      → c ≡ true
      → Invariant n s
      → Invariant n (record s {
        cancelled = c;
        dispatching = d;
        handling = h;
        refreshing = r;
        pending = pending;
      })
  Invariant-cancelled s c d h r pending e i = record {
    to_check_bound = i.to_check_bound;
    checked_bound = i.checked_bound;
    held_bound = i.held_bound;
    checkers_bound = i.checkers_bound;
    all_run = λ live. cc;
    workers = i.workers;
    targets_ok = i.targets_ok;
  }

  pub Step-Invariant :
      (io : Storage) (n : ℤ) {s s' : Service} → Step io s s' → Invariant n s → Invariant n s'
  unfolding participants_listed take_snapshot handle_checked
  Step-Invariant io n (listed {s} net mids on idle answered) i =
      Invariant-live s (participants_listed mids s.hf) mids (refl, refl) i
  Step-Invariant io n (dispatched {s} mid rest on e room) i = record {
    to_check_bound = length-sent s.to_check _ room;
    checked_bound = i.checked_bound;
    held_bound = i.held_bound;
    checkers_bound = i.checkers_bound;
    all_run = i.all_run;
    workers = i.workers;
    targets_ok = i.targets_ok;
  }
  Step-Invariant io n (started net t rest e free) i =
      let bound = i.to_check_bound in
      record {
        to_check_bound = omega (arith, ap length e, bound);
        checked_bound = i.checked_bound;
        held_bound = omega (arith, free);
        checkers_bound = i.checkers_bound;
        all_run = i.all_run;
        workers = i.workers;
        targets_ok = i.targets_ok;
      }
  Step-Invariant io n (finished {s} before t after e room) i =
      let bound = i.held_bound in
      record {
        to_check_bound = i.to_check_bound;
        checked_bound = length-sent s.checked t room;
        held_bound = omega (
          arith,
          bound,
          ap length e,
          length-append before (t ∷ after),
          length-append before after,
        );
        checkers_bound = i.checkers_bound;
        all_run = i.all_run;
        workers = i.workers;
        targets_ok = i.targets_ok;
      }
  Step-Invariant io n (handled {s} t rest on e) i =
      let bound = i.checked_bound in
      let same = store-Same io t (record s.hf { targets = insert t.id t s.hf.targets }) in
      record {
        to_check_bound = i.to_check_bound;
        checked_bound = omega (arith, ap length e, bound);
        held_bound = i.held_bound;
        checkers_bound = i.checkers_bound;
        all_run = i.all_run;
        workers = ap (λ o. o.max_concurrent_participant_check) same.1 ∙ i.workers;
        targets_ok = rw same.0 (insert-WellFormed t s.hf.targets i.targets_ok);
      }
  Step-Invariant io n (snapped {s} on) i =
      Invariant-live s (take_snapshot s.hf) s.pending (refl, refl) i
  Step-Invariant io n (refreshed {s} a e hf' on q) i =
      Invariant-live s (record hf' { latest_refresh_err = e }) s.pending
        (refresh-Same io a s.hf hf' e q) i
  Step-Invariant io n (cancel {s}) i =
      Invariant-cancelled s true s.dispatching s.handling s.refreshing s.pending refl i
  Step-Invariant io n (abandoned {s} c) i =
      Invariant-cancelled s s.cancelled s.dispatching s.handling s.refreshing [] c i
  Step-Invariant io n (dispatcher_returned {s} c e) i =
      Invariant-cancelled s s.cancelled false s.handling s.refreshing s.pending c i
  Step-Invariant io n (checker_returned {s} before t after c e) i =
      let bound = i.held_bound in
      let limit = i.checkers_bound in
      record {
        to_check_bound = i.to_check_bound;
        checked_bound = i.checked_bound;
        held_bound = omega (
          arith,
          bound,
          ap length e,
          length-append before (t ∷ after),
          length-append before after,
        );
        checkers_bound = omega (arith, limit);
        all_run = λ e. cc;
        workers = i.workers;
        targets_ok = i.targets_ok;
      }
  Step-Invariant io n (handler_returned {s} c) i =
      Invariant-cancelled s s.cancelled s.dispatching false s.refreshing s.pending c i
  Step-Invariant io n (refresher_returned {s} c) i =
      Invariant-cancelled s s.cancelled s.dispatching s.handling false s.pending c i

  -- Whatever steps the goroutines make in whatever order, the channels stay within their capacity,
  -- the checkers hold no more targets than there are checkers, every goroutine runs until the context
  -- is cancelled, and every target stands once, under its own identifier, if this was so before.
  pub Reaches-Invariant :
      (io : Storage) (n : ℤ) {s s' : Service} → Reaches io s s' → Invariant n s → Invariant n s'
  Reaches-Invariant io n stop i = i
  Reaches-Invariant io n (further step more) i =
      Reaches-Invariant io n more (Step-Invariant io n step i)
