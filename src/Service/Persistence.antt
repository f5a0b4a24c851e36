-- ===== src/Service/Persistence.antt =====
-- The files that the result handler keeps below the store path, one for each target.
use mathlib.Core.Path.{subst}
use heyfil.Base.{
  Bool-cases, All, ◌==◌, nat_eq, string_eq, ==_refl, beq_iff, String, ◌≡◌, refl, sym, ap, ◌∙◌, ◌≢◌,
  inl, inr, none, some, List,
}
use heyfil.Base.Dict.{lookup-insert, Dict, lookup, insert}
use heyfil.Base.Result.{ok}
use heyfil.Store.Names.{Plain, paths_differ}
use heyfil.Store.{Storage, write_file, target_path}
use heyfil.Store.RoundTrip.{store_lem}
use heyfil.Store.WellFormed.{WellFormed, insert-WellFormed}
use heyfil.Service.{handle_checked}
use heyfil.Platform.{Platform}
use heyfil.Target.{Target}
use heyfil.HeyFil.{HeyFil}

module _ ⦃p : Platform⦄ where
  -- Files can be written and read.
  pub record Reliable (io : Storage) : Type 0 where
    pub writes : (path : String) → io.write_error path ≡ none
    pub reads : (path : String) → io.read_error path ≡ none

  -- A target with a plain identifier, which is read back as it was written but for its error value.
  pub record Storable (io : Storage) (t : Target) : Type 0 where
    pub named : Plain t.id
    pub content : String
    pub encoded : io.encode_target t ≡ ok content
    pub decoded : io.decode_target content ≡ ok (record t { error = none })

  -- The file of every target with a plain identifier holds it.
  abbrev pub Persisted : Storage → HeyFil → Type 0
  Persisted io hf =
      (id : String) (t : Target)
      → Plain id
      → lookup id hf.targets ≡ some t
      → (s : String) × (lookup (target_path io hf id) hf.files ≡ some s)
        × (io.decode_target s ≡ ok (record t { error = none }))

  -- The result handler takes in one target after another.
  abbrev pub handle_all : Storage → List Target → HeyFil → HeyFil
  handle_all io List.[] hf = hf
  handle_all io (List.◌∷◌ t ts) hf = handle_all io ts (handle_checked io t hf)

  -- What the files and the targets of a running service keep.
  pub record Kept (io : Storage) (path : String) (hf : HeyFil) : Type 0 where
    pub persisted : Persisted io hf
    pub formed : WellFormed hf.targets
    pub plain : (id : String) (t : Target) → lookup id hf.targets ≡ some t → Plain id
    pub below : hf.options.store_path ≡ path

  module _ (io : Storage) (reliable : Reliable io) where
    write_file-Reliable :
        (path s : String) (files : Dict String String)
        → write_file io path (ok s) files ≡ (none, insert path s files)
    unfolding write_file
    write_file-Reliable path s files = rw (reliable.writes path, write_file)

    -- What the result handler does with a target.
    handled-Reliable :
        (t : Target) (hf : HeyFil) (s : String)
        → hf.options.store_path ≢ ""
        → t.id ≢ ""
        → io.encode_target t ≡ ok s
        → handle_checked io t hf ≡ record hf {
          targets = insert t.id t hf.targets;
          files = insert (target_path io hf t.id) s hf.files;
        }
    unfolding handle_checked
    handled-Reliable t hf s configured named e =
        let taken = record hf { targets = insert t.id t hf.targets } in
        ap (λ r. r.1) (store_lem io t taken configured named)
        ∙ rw (e, write_file-Reliable (target_path io hf t.id) s hf.files) refl

    put-Persisted :
        (t : Target) (hf : HeyFil) (s : String)
        → hf.options.store_path ≢ ""
        → Plain t.id
        → io.decode_target s ≡ ok (record t { error = none })
        → Persisted io hf
        → Persisted io (record hf {
          targets = insert t.id t hf.targets;
          files = insert (target_path io hf t.id) s hf.files;
        })
    put-Persisted t hf s configured plain decoded h id t' plain' found =
        elim (Bool-cases (t.id == id)) [
          | inl q ↦
              let same : t ≡ t' = cc (rw (lookup-insert, q) at found) in
              let files = insert (target_path io hf t.id) s hf.files in
              (
                s,
                ap (λ k. lookup (target_path io hf k) files) (sym ((beq_iff t.id id).0 q))
                    ∙ lookup-insert (target_path io hf t.id) (target_path io hf t.id) s hf.files
                    ∙ rw ==_refl refl,
                subst (λ r. io.decode_target s ≡ ok (record r { error = none })) same decoded,
              )
          | inr q ↦
              let (s', kept, decoded') = h id t' plain' (rw (lookup-insert, q) at found) in
              (
                s',
                rw (lookup-insert, paths_differ io hf t.id id configured plain plain' q) kept,
                decoded',
              )
        ]

    handle_checked-Kept :
        (path : String) (t : Target) (hf : HeyFil)
        → path ≢ ""
        → Storable io t
        → Kept io path hf
        → Kept io path (handle_checked io t hf)
    handle_checked-Kept path t hf configured c k =
        let there : hf.options.store_path ≢ "" = λ q. configured (sym k.below ∙ q) in
        let e = handled-Reliable t hf c.content there c.named.0 c.encoded in
        record {
          persisted =
              subst (Persisted io) (sym e)
                (put-Persisted t hf c.content there c.named c.decoded k.persisted);
          formed = rw e (insert-WellFormed t hf.targets k.formed);
          plain = λ id t' found. elim (Bool-cases (t.id == id)) [
            | inl q ↦ subst Plain ((beq_iff t.id id).0 q) c.named
            | inr q ↦ k.plain id t' (rw (e, lookup-insert, q) at found)
          ];
          below = ap (λ r. r.options.store_path) e ∙ k.below;
        }

    pub handle_all-Kept :
        (path : String) (ts : List Target) (hf : HeyFil)
        → path ≢ ""
        → All (Storable io) ts
        → Kept io path hf
        → Kept io path (handle_all io ts hf)
    handle_all-Kept path List.[] hf configured _ k = k
    handle_all-Kept path (List.◌∷◌ t ts) hf configured (c, others) k =
        handle_all-Kept path ts (handle_checked io t hf) configured others
          (handle_checked-Kept path t hf configured c k)
