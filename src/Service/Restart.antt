-- ===== src/Service/Restart.antt =====
-- What a service that is started again finds below the store path.
use Prim.Native.String
use Prim.Native.String.{[], ◌∷◌}
use mathlib.Core.List.{map}
use heyfil.Base.{
  if◌then◌else◌, Bool-cases, Option-cases, is_some, All, ◌==◌, contains, nat_eq, string_eq, ==_refl,
  beq_iff, beq_of_ne, String, ◌≡◌, refl, sym, ap, ◌∙◌, ◌≢◌, inl, inr, true, false, ◌||◌, Option,
  none, some, List, arith,
}
use heyfil.Base.Dict.{lookup-nil, keys, lookup-insert, Dict, lookup, insert}
use heyfil.Base.Result.{ok}
use heyfil.Store.{
  Visit, read_file, load_path, load_visit, load_visits, load_targets, Storage, target_path,
}
use heyfil.Store.RoundTrip.{has_suffix-append, read_file_of}
use heyfil.Store.WellFormed.{empty-WellFormed}
use heyfil.Platform.{Platform}
use heyfil.Target.{Target}
use heyfil.HeyFil.{HeyFil}
use heyfil.Service.Persistence.{Reliable, Storable, Kept, handle_all, handle_all-Kept}

contains-keys {ℓ} :
    {V : Type ℓ} (d : Dict String V) (id : String) → contains (keys d) id ≡ is_some (lookup id d)
unfolding lookup
contains-keys List.[] id = refl
contains-keys (List.◌∷◌ (k, v) d) id = ground (arith, contains-keys d id)

module _ ⦃p : Platform⦄ where
  -- What `Walk` says of the file of a participant.
  abbrev pub visit_of : Storage → HeyFil → String → Visit
  visit_of io hf id = record {
    path = target_path io hf id;
    name = String.◌++◌ id ".json";
    is_dir = false;
    error = none;
  }

  -- The error value is not encoded.
  abbrev pub forget : Option Target → Option Target
  forget none = none
  forget (some t) = some (record t { error = none })

  module _ (io : Storage) (reliable : Reliable io) where
    module _ (path : String) (disk : HeyFil) (k : Kept io path disk) where
      load_one :
          (id : String) (t : Target) (h : HeyFil)
          → h.files ≡ disk.files
          → lookup id disk.targets ≡ some t
          → load_visit io (visit_of io disk id) h
            ≡ record h { targets = insert id (record t { error = none }) h.targets }
      unfolding load_visit load_path
      load_one id t h same found =
          let (s, there, decoded) = k.persisted id t (k.plain id t found) found in
          let read : read_file io (target_path io disk id) h.files ≡ ok s =
            read_file_of io (target_path io disk id) s h.files (reliable.reads _)
              (ap (lookup (target_path io disk id)) same ∙ there) in
          rw (has_suffix-append ".json" id, read, decoded, k.formed.1 id t found) refl

      merged :
          (i id : String) (ids : List String) (t : Target) (h : HeyFil)
          → lookup i disk.targets ≡ some t
          → (if contains ids id
              then forget (lookup id disk.targets)
              else if i == id
              then some (record t { error = none })
              else lookup id h.targets)
            ≡ (if i == id || contains ids id
                then forget (lookup id disk.targets)
                else lookup id h.targets)
      merged i id ids t h found = elim (Bool-cases (i == id)) [
        | inr q ↦ rw q refl
        | inl q ↦
            let here : forget (lookup id disk.targets) ≡ some (record t { error = none }) =
              ap (λ j. forget (lookup j disk.targets)) (sym ((beq_iff i id).0 q))
              ∙ ap forget found in
            rw (q, here) (ground arith)
      ]

      load_all :
          (ids : List String) (h : HeyFil) (id : String)
          → ((i : String) → contains ids i ≡ true → is_some (lookup i disk.targets) ≡ true)
          → h.files ≡ disk.files
          → lookup id (load_visits io (map (visit_of io disk) ids) h).targets
            ≡ (if contains ids id then forget (lookup id disk.targets) else lookup id h.targets)
      unfolding load_visits
      load_all List.[] h id known same = refl
      load_all (List.◌∷◌ i ids) h id known same = elim (Option-cases (lookup i disk.targets)) [
        | inl missing ↦ absurd (cc (known i (rw ==_refl refl), missing))
        | inr (t, found) ↦
            let taken = record h { targets = insert i (record t { error = none }) h.targets } in
            let rest = load_all ids taken id (λ j m. known j (ground (arith, m))) same in
            ap (λ r. lookup id (load_visits io (map (visit_of io disk) ids) r).targets)
              (load_one i t h same found)
            ∙ rest
            ∙ rw lookup-insert (merged i id ids t h found)
      ]

      load_keys :
          (h : HeyFil) (id : String)
          → h.targets ≡ List.[]
          → h.files ≡ disk.files
          → lookup id (load_visits io (map (visit_of io disk) (keys disk.targets)) h).targets
            ≡ forget (lookup id disk.targets)
      load_keys h id fresh same =
          load_all (keys disk.targets) h id (λ i m. sym (contains-keys disk.targets i) ∙ m) same
          ∙ rw (contains-keys, fresh, lookup-nil)
              (elim (Option-cases (lookup id disk.targets)) [
                | inl e ↦ rw e refl
                | inr (t, e) ↦ rw e refl
              ])

    -- With a store path and files that can be written and read: when a service without targets has
    -- taken in targets whose identifiers are not empty and have no slashes, and which the codec gives
    -- back but for the error value, then a service without targets that starts again on its files
    -- and visits each target's file has the same targets but for the error values.
    pub restart :
        (ts : List Target) (hf again : HeyFil) (id : String)
        → hf.targets ≡ List.[]
        → hf.options.store_path ≢ ""
        → All (Storable io) ts
        → again.targets ≡ List.[]
        → again.options.store_path ≡ hf.options.store_path
        → again.files ≡ (handle_all io ts hf).files
        → let end = handle_all io ts hf in
          lookup id (load_targets io (map (visit_of io end) (keys end.targets)) again).targets
          ≡ forget (lookup id end.targets)
    unfolding load_targets
    restart ts hf again id empty configured stored fresh path files =
        let end = handle_all io ts hf in
        let kept =
          handle_all-Kept io reliable hf.options.store_path ts hf configured stored (record {
            persisted = λ i t _ found. absurd (cc (rw (empty, lookup-nil) at found));
            formed = rw empty empty-WellFormed;
            plain = λ i t found. absurd (cc (rw (empty, lookup-nil) at found));
            below = refl;
          }) in
        rw (beq_of_ne again.options.store_path "" (λ q. configured (sym path ∙ q)))
          (load_keys hf.options.store_path end kept again id fresh files)
