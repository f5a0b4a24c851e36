-- ===== src/DealStats/Pieces.antt =====
-- The latest piece of each participant after a completed pass. Every deal that was received is
-- looked at, whether it is counted or not.
use mathlib.Core.List.{Memᴰ}
use heyfil.Base.{
  if◌then◌else◌, Bool-cases, ◌==◌, nat_eq, string_eq, beq_iff, String, ◌≡◌, refl, sym, ap, ◌∙◌, ◌⊎◌,
  inl, inr, ◌&&◌, Option, none, some, List, [], ◌∷◌, arith,
}
use heyfil.Base.Int.{ℤ, ◌≤ℤ◌, ltb_ℤ}
use heyfil.Base.Dict.{Dict, lookup, lookup-insert, lookup-nil}
use heyfil.Deal.{StateMarketDeal}
use heyfil.DealStats.{
  LatestPiece, Tally, empty_tally, is_later, note_piece, take_deal, count_deal, Received, completed,
  scan,
}
use heyfil.DealStats.Counts.{deals, take_all, scan-completed}

-- What one deal does to the latest piece of participant `k`.
note_one : String → StateMarketDeal → Option LatestPiece → Option LatestPiece
note_one k d o =
    if d.proposal.provider == k && is_later d.proposal.start_epoch o
    then some (record { epoch = d.proposal.start_epoch; cid = d.proposal.piece_cid })
    else o

lookup-note_piece :
    (k : String) (d : StateMarketDeal) (latest : Dict String LatestPiece)
    → lookup k (note_piece d latest) ≡ note_one k d (lookup k latest)
unfolding note_piece note_one
lookup-note_piece k d latest =
    let piece : LatestPiece = record {
      epoch = d.proposal.start_epoch;
      cid = d.proposal.piece_cid;
    } in
    ground (arith, lookup-insert k d.proposal.provider piece latest)

note_all : String → List StateMarketDeal → Option LatestPiece → Option LatestPiece
note_all k [] o = o
note_all k (d ∷ ds) o = note_all k ds (note_one k d o)

latest-take_deal :
    (current : ℤ) (d : StateMarketDeal) (t : Tally)
    → (take_deal current d t).latest_piece_by_participant
      ≡ note_piece d t.latest_piece_by_participant
unfolding take_deal count_deal
latest-take_deal current d t = ground arith

lookup-take_all :
    (current : ℤ) (k : String) (ds : List StateMarketDeal) (t : Tally)
    → lookup k (take_all current ds t).latest_piece_by_participant
      ≡ note_all k ds (lookup k t.latest_piece_by_participant)
unfolding take_all note_all
lookup-take_all current k [] t = refl
lookup-take_all current k (d ∷ ds) t =
    lookup-take_all current k ds (take_deal current d t)
    ∙ ap (note_all k ds) (ap (lookup k) (latest-take_deal current d t) ∙ lookup-note_piece k d _)

-- A later deal does not lower the epoch.
note_all-grows :
    (k : String) (ds : List StateMarketDeal) (lp : LatestPiece)
    → (lp' : LatestPiece) × (note_all k ds (some lp) ≡ some lp') × (lp.epoch ≤ℤ lp'.epoch)
unfolding note_all note_one is_later
note_all-grows k [] lp = (lp, refl, omega arith)
note_all-grows k (d ∷ ds) lp =
    elim (Bool-cases (d.proposal.provider == k && ltb_ℤ lp.epoch d.proposal.start_epoch)) [
      | inl q ↦
          let (lp', e, le) =
            note_all-grows k ds
              (record { epoch = d.proposal.start_epoch; cid = d.proposal.piece_cid }) in
          rw q (lp', e, ground arith)
      | inr q ↦ rw q (note_all-grows k ds lp)
    ]

note_one-newest :
    (k : String) (d : StateMarketDeal) (o : Option LatestPiece)
    → d.proposal.provider ≡ k
    → (lp : LatestPiece) × (note_one k d o ≡ some lp) × (d.proposal.start_epoch ≤ℤ lp.epoch)
unfolding note_one is_later
note_one-newest k d none e = (
  record { epoch = d.proposal.start_epoch; cid = d.proposal.piece_cid },
  rw ((beq_iff d.proposal.provider k).1 e),
  omega arith,
)
note_one-newest k d (some lp) e = elim (Bool-cases (ltb_ℤ lp.epoch d.proposal.start_epoch)) [
  | inl q ↦ (
    record { epoch = d.proposal.start_epoch; cid = d.proposal.piece_cid },
    rw ((beq_iff d.proposal.provider k).1 e, q),
    omega arith,
  )
  | inr q ↦ (lp, rw ((beq_iff d.proposal.provider k).1 e, q), ground arith)
]

note_one-from :
    (k : String) (d : StateMarketDeal) (o : Option LatestPiece) (lp : LatestPiece)
    → note_one k d o ≡ some lp
    → (o ≡ some lp)
      ⊎ ((d.proposal.provider ≡ k)
          × (d.proposal.start_epoch ≡ lp.epoch)
          × (d.proposal.piece_cid ≡ lp.cid))
unfolding note_one
note_one-from k d o lp e = ground (arith, beq_iff d.proposal.provider k)

-- Every deal of `k` is at most as late as the piece that is kept.
note_all-newest :
    (k : String) (ds : List StateMarketDeal) (o : Option LatestPiece) {d : StateMarketDeal}
    → Memᴰ d ds
    → d.proposal.provider ≡ k
    → (lp : LatestPiece) × (note_all k ds o ≡ some lp) × (d.proposal.start_epoch ≤ℤ lp.epoch)
unfolding note_all
note_all-newest k [] o m e = elim m [ ]
note_all-newest k (d' ∷ ds) o (Memᴰ.tail m) e = note_all-newest k ds (note_one k d' o) m e
note_all-newest k (d' ∷ ds) o (Memᴰ.head same) e =
    let (lp, f, le) = note_one-newest k d' o (rw same at e) in
    let (lp', f', le') = note_all-grows k ds lp in (lp', rw f f', rw same (omega arith))

-- The piece that is kept was there before or is that of a deal of `k`.
note_all-from :
    (k : String) (ds : List StateMarketDeal) (o : Option LatestPiece) (lp : LatestPiece)
    → note_all k ds o ≡ some lp
    → (o ≡ some lp)
      ⊎ ((d : StateMarketDeal) × Memᴰ d ds
          × (d.proposal.provider ≡ k)
          × (d.proposal.start_epoch ≡ lp.epoch)
          × (d.proposal.piece_cid ≡ lp.cid))
unfolding note_all
note_all-from k [] o lp e = inl e
note_all-from k (d ∷ ds) o lp e = elim (note_all-from k ds (note_one k d o) lp e) [
  | inr (d', m, who, epoch, cid) ↦ inr (d', Memᴰ.tail m, who, epoch, cid)
  | inl e' ↦ elim (note_one-from k d o lp e') [
    | inl before ↦ inl before
    | inr (who, epoch, cid) ↦ inr (d, Memᴰ.head refl, who, epoch, cid)
  ]
]

-- After a completed pass, a participant with a deal among those received, counted or not, has a
-- latest piece, and no deal of the participant started later than it.
pub latest-scan :
    (current : ℤ) (rs : List Received) (t : Tally) (d : StateMarketDeal)
    → scan current rs empty_tally ≡ completed t
    → Memᴰ d (deals rs)
    → (lp : LatestPiece) × (lookup d.proposal.provider t.latest_piece_by_participant ≡ some lp)
      × (d.proposal.start_epoch ≤ℤ lp.epoch)
latest-scan current rs t d e m =
    let k = d.proposal.provider in
    let (lp, f, le) = note_all-newest k (deals rs) (lookup k []) m refl in
    (
      lp,
      rw (scan-completed current rs empty_tally t e)
          (lookup-take_all current k (deals rs) empty_tally ∙ f),
      le,
    )

-- After a completed pass, the latest piece of a participant is that of one of its deals.
pub latest-scan_from :
    (current : ℤ) (rs : List Received) (t : Tally) (k : String) (lp : LatestPiece)
    → scan current rs empty_tally ≡ completed t
    → lookup k t.latest_piece_by_participant ≡ some lp
    → (d : StateMarketDeal) × Memᴰ d (deals rs)
      × (d.proposal.provider ≡ k)
      × (d.proposal.start_epoch ≡ lp.epoch)
      × (d.proposal.piece_cid ≡ lp.cid)
latest-scan_from current rs t k lp e f =
    let found = lookup-take_all current k (deals rs) empty_tally in
    let kept = rw (← scan-completed current rs empty_tally t e) at found in
    elim (note_all-from k (deals rs) none lp (rw lookup-nil at (sym kept ∙ f))) [
      | inl e' ↦ absurd (cc)
      | inr d ↦ d
    ]
