-- ===== src/Metrics/Snapshot/Unindexed.antt =====
-- The targets that a snapshot notes for the unindexed gauge.
use heyfil.Base.{
  if◌then◌else◌, is_some, ◌==◌, nat_eq, string_eq, String, ◌≡◌, ◌∙◌, Bool, false, ◌&&◌, ◌||◌, [],
  ◌∷◌, arith,
}
use heyfil.Base.Int.{int_eq}
use heyfil.Base.Dict.{Dict, lookup, insert, lookup-insert}
use heyfil.Platform.{Platform}
use heyfil.Target.{Target, status_unindexed}
use heyfil.Metrics.{Metrics}
use heyfil.Metrics.Snapshot.{note_unindexed, snapshot}

module _ ⦃p : Platform⦄ where
  -- Some of the targets with an identifier is unindexed.
  abbrev pub is_noted : String → Dict String Target → Bool
  is_noted id [] = false
  is_noted id ((_, t) ∷ ts) = (t.status == status_unindexed && t.id == id) || is_noted id ts

  noted-note_unindexed :
      (ts u : Dict String Target) (id : String)
      → is_some (lookup id (note_unindexed ts u)) ≡ (is_some (lookup id u) || is_noted id ts)
  unfolding note_unindexed
  noted-note_unindexed [] u id = ground arith
  noted-note_unindexed ((k, t) ∷ ts) u id =
      noted-note_unindexed ts (if t.status == status_unindexed then insert t.id t u else u) id
      ∙ ground (arith, lookup-insert id t.id t u)

  -- A participant is noted if it was before or one of the targets with its identifier is unindexed.
  pub unindexed-snapshot :
      (ts : Dict String Target) (m : Metrics) (id : String)
      → is_some (lookup id (snapshot ts m).unindexed_targets)
        ≡ (is_some (lookup id m.unindexed_targets) || is_noted id ts)
  unfolding snapshot
  unindexed-snapshot ts m id = noted-note_unindexed ts m.unindexed_targets id
