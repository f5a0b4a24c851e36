-- ===== src/Service/Updates.antt =====
-- The service as a map from participants to targets, which checks of fresh targets change.
use mathlib.Core.Path.{subst}
use heyfil.Base.{
  All-append, All-split, if◌then◌else◌, All, ◌==◌, nat_eq, string_eq, String, ◌≡◌, refl, ap, ◌∙◌,
  ◌⊎◌, inl, inr, Option, some, [], ◌∷◌,
}
use heyfil.Base.Dict.{lookup-insert, Dict, insert, lookup}
use heyfil.Service.{
  Service, Step, Reaches, cancel, abandoned, dispatcher_returned, checker_returned,
  handler_returned, refresher_returned, listed, dispatched, started, finished, handled, snapped,
  refreshed, stop, further, handle_checked, take_snapshot, participants_listed, check, HeyFil,
  new_target, Storage, Target, Platform,
}
use heyfil.Service.Invariant.{store-Same, refresh-Same}
use heyfil.Platform.{Net, Platform}
use heyfil.Store.{Storage}
use heyfil.Target.{new_target, Target}
use heyfil.Options.{Options}
use heyfil.HeyFil.{HeyFil}
use heyfil.DealCounts.{DealCounts}
use heyfil.Target.Check.{check}

module _ ⦃p : Platform⦄ where
  -- What is known of the participants.
  abbrev pub View : Type 0
  View = String → Option Target

  abbrev pub view : Service → View
  view s mid = lookup mid s.hf.targets

  abbrev pub put : Target → View → View
  put t v = λ mid. if t.id == mid then some t else v mid

  -- A step checks a target of a participant with these answers of the network.
  abbrev pub Makes : (io : Storage) {s s' : Service} → Step io s s' → String → Net → Type 0
  Makes io (started net t rest e free) mid made = (t.id ≡ mid) × (net ≡ made)
  Makes io _ mid made = ⊥

  -- One of the steps does.
  abbrev pub Checks : (io : Storage) {s s' : Service} → Reaches io s s' → String → Net → Type 0
  Checks io stop mid net = ⊥
  Checks io (further step more) mid net = Makes io step mid net ⊎ Checks io more mid net

  -- The check of a fresh target of a participant, with answers that were used for it.
  pub record Outcome (opts : Options) (used : String → Net → Type 0) (t : Target) : Type 0 where
    pub net : Net
    pub stats : Dict String DealCounts
    pub mid : String
    pub taken : used mid net
    pub result : t ≡ (check net opts stats (new_target mid)).0

  -- The view changes by outcomes that are put in one after the other, and not otherwise.
  pub data Updates (opts : Options) (used : String → Net → Type 0) : View → View → Type 0 where
    done : {v : View} → Updates opts used v v
    update :
        {v v' : View} (t : Target)
        → Outcome opts used t
        → Updates opts used (put t v) v'
        → Updates opts used v v'

  -- What waits for a checker is fresh, and what waits for the result handler is an outcome.
  pub record Sound (opts : Options) (used : String → Net → Type 0) (s : Service) : Type 0 where
    pub options : s.hf.options ≡ opts
    pub fresh : All (λ t. (mid : String) × (t ≡ new_target mid)) s.to_check
    pub held : All (Outcome opts used) s.held
    pub checked : All (Outcome opts used) s.checked

  pub view-handle_checked :
      (io : Storage) (t : Target) (hf : HeyFil) (mid : String)
      → lookup mid (handle_checked io t hf).targets ≡ put t (λ m. lookup m hf.targets) mid
  unfolding handle_checked
  view-handle_checked io t hf mid =
      ap (lookup mid) (store-Same io t (record hf { targets = insert t.id t hf.targets })).0
      ∙ lookup-insert mid t.id t hf.targets

  Sound-same :
      {opts : Options} {used : String → Net → Type 0} (s s' : Service)
      → s'.hf.options ≡ s.hf.options
      → s'.to_check ≡ s.to_check
      → s'.held ≡ s.held
      → s'.checked ≡ s.checked
      → Sound opts used s
      → Sound opts used s'
  Sound-same s s' o w h c k = record {
    options = o ∙ k.options;
    fresh = rw w k.fresh;
    held = rw h k.held;
    checked = rw c k.checked;
  }

  Step-Sound :
      (io : Storage) (opts : Options) (used : String → Net → Type 0) {s s' : Service}
      (step : Step io s s')
      → ((mid : String) (net : Net) → Makes io step mid net → used mid net)
      → Sound opts used s
      → Sound opts used s'
  unfolding participants_listed take_snapshot handle_checked
  Step-Sound io opts used (listed {s} net mids on e answered) u k =
      Sound-same s _ refl refl refl refl k
  Step-Sound io opts used (dispatched {s} mid rest on e room) u k = record {
    options = k.options;
    fresh = All-append _ s.to_check _ k.fresh ((mid, refl), tt);
    held = k.held;
    checked = k.checked;
  }
  Step-Sound io opts used (started {s} net t rest e free) u k =
      let (first, others) = All-split _ [] t rest (subst (All _) e k.fresh) in
      record {
        options = k.options;
        fresh = others;
        held = (
          record {
            net = net;
            stats = s.hf.deal_count_by_participant;
            mid = first.0;
            taken = u first.0 net (ap (λ r. r.id) first.1, refl);
            result = rw (first.1, k.options) refl;
          },
          k.held,
        );
        checked = k.checked;
      }
  Step-Sound io opts used (finished {s} before t after e room) u k =
      let (one, others) =
        All-split (Outcome opts used) before t after (subst (All (Outcome opts used)) e k.held) in
      record {
        options = k.options;
        fresh = k.fresh;
        held = others;
        checked = All-append (Outcome opts used) s.checked (t ∷ []) k.checked (one, tt);
      }
  Step-Sound io opts used (handled {s} t rest on e) u k =
      let (one, others) =
        All-split (Outcome opts used) [] t rest (subst (All (Outcome opts used)) e k.checked) in
      record {
        options =
            (store-Same io t (record s.hf { targets = insert t.id t s.hf.targets })).1 ∙ k.options;
        fresh = k.fresh;
        held = k.held;
        checked = others;
      }
  Step-Sound io opts used (snapped {s} on) u k = Sound-same s _ refl refl refl refl k
  Step-Sound io opts used (refreshed {s} a x hf' on q) u k =
      Sound-same s _ (refresh-Same io a s.hf hf' x q).1 refl refl refl k
  Step-Sound io opts used (cancel {s}) u k = Sound-same s _ refl refl refl refl k
  Step-Sound io opts used (abandoned {s} c) u k = Sound-same s _ refl refl refl refl k
  Step-Sound io opts used (dispatcher_returned {s} c e) u k = Sound-same s _ refl refl refl refl k
  Step-Sound io opts used (checker_returned before t after c e) u k =
      let (_, others) =
        All-split (Outcome opts used) before t after (subst (All (Outcome opts used)) e k.held) in
      record { options = k.options; fresh = k.fresh; held = others; checked = k.checked }
  Step-Sound io opts used (handler_returned {s} c) u k = Sound-same s _ refl refl refl refl k
  Step-Sound io opts used (refresher_returned {s} c) u k = Sound-same s _ refl refl refl refl k

  -- A step leaves the view, or puts an outcome in.
  abbrev Moved : Options → (String → Net → Type 0) → Service → Service → Type 0
  Moved opts used s s' =
      (view s' ≡ view s) ⊎ ((t : Target) × Outcome opts used t × (view s' ≡ put t (view s)))

  Step-Moved :
      (io : Storage) (opts : Options) (used : String → Net → Type 0) {s s' : Service}
      → Step io s s'
      → Sound opts used s
      → Moved opts used s s'
  unfolding participants_listed take_snapshot
  Step-Moved io opts used (listed net mids on e answered) k = inl refl
  Step-Moved io opts used (dispatched mid rest on e room) k = inl refl
  Step-Moved io opts used (started net t rest e free) k = inl refl
  Step-Moved io opts used (finished before t after e room) k = inl refl
  Step-Moved io opts used (handled {s} t rest on e) k =
      let (one, _) =
        All-split (Outcome opts used) [] t rest (subst (All (Outcome opts used)) e k.checked) in
      inr (t, one, λ i mid. view-handle_checked io t s.hf mid i)
  Step-Moved io opts used (snapped on) k = inl refl
  Step-Moved io opts used (refreshed {s} a x hf' on q) k =
      inl (λ i mid. lookup mid ((refresh-Same io a s.hf hf' x q).0 i))
  Step-Moved io opts used cancel k = inl refl
  Step-Moved io opts used (abandoned c) k = inl refl
  Step-Moved io opts used (dispatcher_returned c e) k = inl refl
  Step-Moved io opts used (checker_returned before t after c e) k = inl refl
  Step-Moved io opts used (handler_returned c) k = inl refl
  Step-Moved io opts used (refresher_returned c) k = inl refl

  pub Reaches-Updates :
      (io : Storage) (opts : Options) (used : String → Net → Type 0) {s s' : Service}
      (run : Reaches io s s')
      → ((mid : String) (net : Net) → Checks io run mid net → used mid net)
      → Sound opts used s
      → Updates opts used (view s) (view s')
  Reaches-Updates io opts used stop u k = done
  Reaches-Updates io opts used {s} {s'} (further step more) u k =
      let rest =
        Reaches-Updates io opts used more (λ mid net c. u mid net (inr c))
          (Step-Sound io opts used step (λ mid net c. u mid net (inl c)) k) in
      elim (Step-Moved io opts used step k) [
        | inl same ↦ subst (λ v. Updates opts used v (view s')) same rest
        | inr (t, one, put_in) ↦
            update t one (subst (λ v. Updates opts used v (view s')) put_in rest)
      ]
