-- ===== src/Store/RoundTrip.antt =====
-- Storing a target and loading it.
use Prim.Native.Char.{Char}
use Prim.Native.String
use text.Mathlib.TextLemmas.{nil-append, cons-append}
use heyfil.Base.{
  Option-cases, nat_eq, string_eq, ==_refl, beq_of_ne, String, ◌≡◌, sym, ap, ◌∙◌, ◌≢◌, inl, inr,
  true, false, none, some, [], ◌∷◌, arith,
}
use heyfil.Base.Dict.{Dict, lookup, insert, lookup-insert}
use heyfil.Base.Result.{Result, ok, Result-cases}
use heyfil.Platform.{Platform}
use heyfil.Target.{Target}
use heyfil.HeyFil.{HeyFil}
use heyfil.Store.{
  load_path, Storage, Visit, has_suffix, write_file, read_file, target_path, store, load_visit,
  load_visits, load_targets,
}

has_suffix_self : (s : String) → has_suffix s s ≡ true
unfolding has_suffix
has_suffix_self String.[] = ==_refl {A = String} ""
has_suffix_self (String.◌∷◌ c s) = rw ==_refl

has_suffix-cons :
    (suffix s : String) (c : Char)
    → has_suffix suffix s ≡ true
    → has_suffix suffix (String.◌∷◌ c s) ≡ true
unfolding has_suffix
has_suffix-cons suffix s c h = ground arith

pub has_suffix-append : (suffix s : String) → has_suffix suffix (String.◌++◌ s suffix) ≡ true
has_suffix-append suffix String.[] = rw nil-append (has_suffix_self suffix)
has_suffix-append suffix (String.◌∷◌ c s) =
    rw cons-append (has_suffix-cons suffix _ c (has_suffix-append suffix s))

module _ ⦃p : Platform⦄ (io : Storage) where
  pub read_file_of :
      (path s : String) (files : Dict String String)
      → io.read_error path ≡ none
      → lookup path files ≡ some s
      → read_file io path files ≡ ok s
  unfolding read_file
  read_file_of path s files r l = rw (r, l, read_file)

  pub written :
      (path : String) (content : Result String) (files : Dict String String)
      → (write_file io path content files).0 ≡ none
      → (s : String) × (content ≡ ok s)
        × ((write_file io path content files).1 ≡ insert path s files)
  unfolding write_file
  written path content files w = elim (Option-cases (io.write_error path)) [
    | inr (e, f) ↦ absurd (cc (rw (f, write_file) at w))
    | inl f ↦ elim (Result-cases content) [
      | inr (e, g) ↦ absurd (cc (rw (f, g, write_file) at w))
      | inl (s, g) ↦ (s, g, rw (f, g, write_file))
    ]
  ]

  -- What a write leaves in the file is what a read of it finds.
  pub write-read :
      (path : String) (content : Result String) (files : Dict String String)
      → (write_file io path content files).0 ≡ none
      → io.read_error path ≡ none
      → read_file io path (write_file io path content files).1 ≡ content
  write-read path content files w r =
      let (s, g, f) = written path content files w in
      rw (f, g) (read_file_of path s (insert path s files) r (rw (lookup-insert, ==_refl)))

  pub store_lem :
      (t : Target) (hf : HeyFil)
      → hf.options.store_path ≢ ""
      → t.id ≢ ""
      → store io t hf ≡ (
          let w = write_file io (target_path io hf t.id) (io.encode_target t) hf.files in
          (w.0, record hf { files = w.1 }))
  unfolding store
  store_lem t hf configured named =
      rw (beq_of_ne hf.options.store_path "" configured, beq_of_ne t.id "" named)

  load_path_of :
      (name path : String) (hf : HeyFil) (s : String) (t : Target)
      → has_suffix ".json" name ≡ true
      → read_file io path hf.files ≡ ok s
      → io.decode_target s ≡ ok t
      → (load_path io none false name path hf).targets ≡ insert t.id t hf.targets
  unfolding load_path
  load_path_of name path hf s t n found known = rw (n, found, known)

  load_visit_lem :
      (v : Visit) (hf : HeyFil) {name path : String}
      → v.is_dir ≡ false
      → v.error ≡ none
      → v.name ≡ name
      → v.path ≡ path
      → load_visit io v hf ≡ load_path io none false name path hf
  unfolding load_visit
  load_visit_lem v hf file seen n q = cc

  -- A target that is stored without an error, if the decoder gives back what the encoder wrote but
  -- for the error value, is in the targets after its file is visited, in place of any target with
  -- its identifier; the other targets stay.
  pub load_targets-store :
      (t : Target) (hf : HeyFil) (v : Visit)
      → hf.options.store_path ≢ ""
      → t.id ≢ ""
      → (store io t hf).0 ≡ none
      → ((s : String)
          → io.encode_target t ≡ ok s
          → io.decode_target s ≡ ok (record t { error = none }))
      → io.read_error (target_path io hf t.id) ≡ none
      → v.path ≡ target_path io hf t.id
      → v.name ≡ String.◌++◌ t.id ".json"
      → v.is_dir ≡ false
      → v.error ≡ none
      → (load_targets io (v ∷ []) (store io t hf).1).targets
        ≡ insert t.id (record t { error = none }) hf.targets
  unfolding load_targets load_visits
  load_targets-store t hf v configured named stored codec readable path name file seen =
      let place = target_path io hf t.id in
      let content = io.encode_target t in
      let w = ap (λ r. r.0) (sym (store_lem t hf configured named)) ∙ stored in
      let (s, encoded, _) = written place content hf.files w in
      rw
        (
          store_lem t hf configured named,
          beq_of_ne hf.options.store_path "" configured,
          load_visit_lem v _ file seen name path,
        )
        (load_path_of (String.◌++◌ t.id ".json") place _ s (record t { error = none })
          (has_suffix-append ".json" t.id) (write-read place content hf.files w readable ∙ encoded)
          (codec s encoded))
