-- ===== src/Store/WellFormed.antt =====
-- What holds of the targets that are loaded.
use heyfil.Base.{
  Bool-cases, ◌==◌, nat_eq, string_eq, beq_iff, String, ◌≡◌, refl, ◌∙◌, inl, inr, Bool, not, ◌&&◌,
  Option, none, some, List, [], ◌∷◌, arith,
}
use heyfil.Base.Dict.{lookup-nil, Dict, lookup, insert, NodupKeys, lookup-insert, insert-NodupKeys}
use heyfil.Base.Result.{Error, Result, ok, err}
use heyfil.Platform.{Platform}
use heyfil.Target.{Target}
use heyfil.HeyFil.{HeyFil}
use heyfil.Store.{
  read_file, decoded, load_recent_pieces, Storage, Visit, has_suffix, loaded, load_path, load_visit,
  load_visits, load_targets,
}

module _ ⦃p : Platform⦄ where
  -- Every target stands under its own identifier.
  abbrev pub WellKeyed : Dict String Target → Type 0
  WellKeyed ts = (k : String) (t : Target) → lookup k ts ≡ some t → t.id ≡ k

  abbrev pub WellFormed : Dict String Target → Type 0
  WellFormed ts = NodupKeys ts × WellKeyed ts

  pub insert-WellFormed :
      (t : Target) (ts : Dict String Target) → WellFormed ts → WellFormed (insert t.id t ts)
  insert-WellFormed t ts (u, w) = (
    insert-NodupKeys t.id t ts u,
    λ k t' e. elim (Bool-cases (t.id == k)) [
      | inl q ↦ cc (rw (lookup-insert, q) at e, (beq_iff t.id k).0 q)
      | inr q ↦ w k t' (rw (lookup-insert, q) at e)
    ],
  )

  pub empty-WellFormed : WellFormed []
  empty-WellFormed = (tt, λ k t e. cc (rw lookup-nil at e))

  loaded-WellFormed :
      (io : Storage) (r : Result Target) (hf : HeyFil)
      → WellFormed hf.targets
      → WellFormed (loaded io r hf).targets
  loaded-WellFormed io (err e) hf w = w
  loaded-WellFormed io (ok t) hf w = insert-WellFormed t hf.targets w

  load_path-WellFormed :
      (io : Storage) (error : Option Error) (is_dir : Bool) (name path : String) (hf : HeyFil)
      → WellFormed hf.targets
      → WellFormed (load_path io error is_dir name path hf).targets
  unfolding load_path
  load_path-WellFormed io (some e) is_dir name path hf w = w
  load_path-WellFormed io none is_dir name path hf w =
      elim (Bool-cases (not is_dir && has_suffix ".json" name)) [
        | inl q ↦ rw q (loaded-WellFormed io _ hf w)
        | inr q ↦ rw q w
      ]

  load_visits-WellFormed :
      (io : Storage) (visits : List Visit) (hf : HeyFil)
      → WellFormed hf.targets
      → WellFormed (load_visits io visits hf).targets
  unfolding load_visits load_visit
  load_visits-WellFormed io [] hf w = w
  load_visits-WellFormed io (v ∷ vs) hf w =
      load_visits-WellFormed io vs _ (load_path-WellFormed io v.error v.is_dir v.name v.path hf w)

  pub load_targets-WellFormed :
      (io : Storage) (visits : List Visit) (hf : HeyFil)
      → WellFormed hf.targets
      → WellFormed (load_targets io visits hf).targets
  unfolding load_targets
  load_targets-WellFormed io visits hf w = elim (Bool-cases (hf.options.store_path == "")) [
    | inl q ↦ rw q w
    | inr q ↦ rw q (load_visits-WellFormed io visits hf w)
  ]

  -- A part of the state that does not depend on the targets is left alone by loading them.
  module _ {ℓ} {A : Type ℓ} (get : HeyFil → A)
      (keeps : (hf : HeyFil) (ts : Dict String Target) → get (record hf { targets = ts }) ≡ get hf)
      (io : Storage) where
    get-loaded : (r : Result Target) (hf : HeyFil) → get (loaded io r hf) ≡ get hf
    get-loaded (err e) hf = refl
    get-loaded (ok t) hf = keeps hf _

    get-load_path :
        (error : Option Error) (is_dir : Bool) (name path : String) (hf : HeyFil)
        → get (load_path io error is_dir name path hf) ≡ get hf
    unfolding load_path
    get-load_path (some e) is_dir name path hf = refl
    get-load_path none is_dir name path hf =
        elim (Bool-cases (not is_dir && has_suffix ".json" name)) [
          | inl q ↦ rw q (get-loaded (decoded io (read_file io path hf.files)) hf)
          | inr q ↦ rw q
        ]

    get-load_visits : (visits : List Visit) (hf : HeyFil) → get (load_visits io visits hf) ≡ get hf
    unfolding load_visits load_visit
    get-load_visits [] hf = refl
    get-load_visits (v ∷ vs) hf =
        get-load_visits vs _ ∙ get-load_path v.error v.is_dir v.name v.path hf

    pub get-load_targets :
        (visits : List Visit) (hf : HeyFil) → get (load_targets io visits hf) ≡ get hf
    unfolding load_targets
    get-load_targets visits hf = elim (Bool-cases (hf.options.store_path == "")) [
      | inl q ↦ rw q
      | inr q ↦ rw q (get-load_visits visits hf)
    ]

  -- Loading the recent pieces leaves the targets, the options, the client and the files.
  pub recent-load :
      (io : Storage) (hf : HeyFil)
      → ((load_recent_pieces io hf).targets ≡ hf.targets)
        × ((load_recent_pieces io hf).options ≡ hf.options)
        × ((load_recent_pieces io hf).client ≡ hf.client)
        × ((load_recent_pieces io hf).files ≡ hf.files)
  unfolding load_recent_pieces
  recent-load io hf = (ground arith, ground arith, ground arith, ground arith)
