-- ===== src/Service.antt =====
-- heyfil.go: the goroutines of `Start` and the two channels between them, step by step.
pub mod Drain
pub mod Invariant
pub mod Persistence
pub mod Restart
pub mod Tracking
pub mod Updates
use heyfil.Base.{
  length, nat_eq, string_eq, ℕ, ◌-◌, ◌<◌, String, ◌≡◌, Bool, true, false, Option, List, [], ◌∷◌,
  ◌++◌,
}
use heyfil.Base.Int.{ℤ, pos, pos_part}
use heyfil.Base.Dict.{Dict, insert}
use heyfil.Base.Result.{Error, Result, ok}
use heyfil.Platform.{Platform, Net}
use heyfil.FilClient.{state_list_miners}
use heyfil.Target.{Target, new_target}
use heyfil.Target.Check.{check}
use heyfil.Metrics.Snapshot.{snapshot}
use heyfil.HeyFil.{HeyFil}
use heyfil.Metrics.{notify_participant_count}
use heyfil.Store.{Visit, load_targets, load_recent_pieces, Storage, store}
use heyfil.Refresh.{Answers, refresh, returned}

-- `make(chan *Target, 100)`
abbrev pub capacity : ℕ
capacity = 100

module _ ⦃p : Platform⦄ where
  pub record Service : Type 0 where
    pub hf : HeyFil
    -- whether the context is cancelled
    pub cancelled : Bool
    -- whether the dispatcher, the result handler and the loop of the deal statistics run, and how
    -- many checkers do
    pub dispatching : Bool
    pub handling : Bool
    pub refreshing : Bool
    pub checkers : ℕ
    -- the identifiers that the dispatcher has not sent yet
    pub pending : List String
    pub to_check : List Target
    -- the checked targets that a checker holds until it can send them
    pub held : List Target
    pub checked : List Target

  -- No goroutine runs, and all of them do.
  abbrev pub idle : HeyFil → Service
  idle hf = record {
    hf = hf;
    cancelled = false;
    dispatching = false;
    handling = false;
    refreshing = false;
    checkers = 0;
    pending = [];
    to_check = [];
    held = [];
    checked = [];
  }

  abbrev pub awake : HeyFil → Service
  awake hf = record (idle hf) {
    dispatching = true;
    handling = true;
    refreshing = true;
    checkers = pos_part hf.options.max_concurrent_participant_check;
  }

  -- The case of the result handler for a checked target: an error of `store` is logged alone.
  unfoldable pub handle_checked : Storage → Target → HeyFil → HeyFil
  handle_checked io t hf = (store io t (record hf { targets = insert t.id t hf.targets })).1

  unfoldable pub participants_listed : List String → HeyFil → HeyFil
  participants_listed mids hf = record hf {
    metrics = notify_participant_count (pos (length mids)) hf.metrics;
  }

  unfoldable pub take_snapshot : HeyFil → HeyFil
  take_snapshot hf = record hf { metrics = snapshot hf.targets hf.metrics }

  -- The step that a goroutine makes: what it does under a lock or with a channel. What a refresh
  -- leaves is taken in at once. A goroutine may go on after the context is cancelled.
  pub data Step (io : Storage) : Service → Service → Type 0 where
    -- the dispatcher lists the participants, when it has sent those of its last list
    listed :
        {s : Service} (net : Net) (mids : List String)
        → s.dispatching ≡ true
        → s.pending ≡ []
        → (state_list_miners net).0 ≡ ok mids
        → Step io s (record s { pending = mids; hf = participants_listed mids s.hf })
    -- and sends one of them, if there is room
    dispatched :
        {s : Service} (mid : String) (rest : List String)
        → s.dispatching ≡ true
        → s.pending ≡ mid ∷ rest
        → length s.to_check < capacity
        → Step io s (record s { pending = rest; to_check = s.to_check ++ (new_target mid ∷ []) })
    -- a checker that holds nothing takes a target and checks it
    started :
        {s : Service} (net : Net) (t : Target) (rest : List Target)
        → s.to_check ≡ t ∷ rest
        → length s.held < s.checkers
        → Step io s (record s {
          to_check = rest;
          held = (check net s.hf.options s.hf.deal_count_by_participant t).0 ∷ s.held;
        })
    -- and sends it, if there is room
    finished :
        {s : Service} (before : List Target) (t : Target) (after : List Target)
        → s.held ≡ before ++ (t ∷ after)
        → length s.checked < capacity
        → Step io s (record s { held = before ++ after; checked = s.checked ++ (t ∷ []) })
    -- the result handler takes a checked target
    handled :
        {s : Service} (t : Target) (rest : List Target)
        → s.handling ≡ true
        → s.checked ≡ t ∷ rest
        → Step io s (record s { checked = rest; hf = handle_checked io t s.hf })
    -- or takes a snapshot
    snapped : {s : Service} → s.handling ≡ true → Step io s (record s { hf = take_snapshot s.hf })
    -- a refresh of the deal statistics returns
    refreshed :
        {s : Service} (a : Answers) (e : Option Error) (hf' : HeyFil)
        → s.refreshing ≡ true
        → refresh io a s.hf ≡ returned e hf'
        → Step io s (record s { hf = record hf' { latest_refresh_err = e } })
    -- the context is cancelled
    cancel : {s : Service} → Step io s (record s { cancelled = true })
    -- then the dispatcher gives up a list or returns,
    abandoned : {s : Service} → s.cancelled ≡ true → Step io s (record s { pending = [] })
    dispatcher_returned :
        {s : Service}
        → s.cancelled ≡ true
        → s.pending ≡ []
        → Step io s (record s { dispatching = false })
    -- a checker returns, with a checked target that it does not send,
    checker_returned :
        {s : Service} (before : List Target) (t : Target) (after : List Target)
        → s.cancelled ≡ true
        → s.held ≡ before ++ (t ∷ after)
        → Step io s (record s { held = before ++ after; checkers = s.checkers - 1 })
    -- and the result handler and the loop of the deal statistics return
    handler_returned :
        {s : Service} → s.cancelled ≡ true → Step io s (record s { handling = false })
    refresher_returned :
        {s : Service} → s.cancelled ≡ true → Step io s (record s { refreshing = false })

  -- Any number of steps, in any order.
  pub data Reaches (io : Storage) : Service → Service → Type 0 where
    stop : {s : Service} → Reaches io s s
    further : {s s' s'' : Service} → Step io s s' → Reaches io s' s'' → Reaches io s s''
