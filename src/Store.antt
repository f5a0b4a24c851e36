-- ===== src/Store.antt =====
-- store.go: targets and recent pieces kept in files below the store path.
pub mod Names
pub mod Pieces
pub mod RoundTrip
pub mod WellFormed
use Prim.Native.Char.{Char, code}
use Prim.Native.String
use heyfil.Base.{
  if◌then◌else◌, ◌==◌, nat_eq, string_eq, String, Bool, not, ◌&&◌, ◌||◌, Option, none, some, List,
  [], ◌∷◌, ◌++◌,
}
use heyfil.Base.Dict.{Dict, lookup, insert}
use heyfil.Base.FilePath.{join}
use heyfil.Base.Result.{Error, Result, ok, err}
use heyfil.Platform.{Platform}
use heyfil.Target.{Target}
use heyfil.HeyFil.{HeyFil}

-- `strings.HasSuffix(name, ".json")`
unfoldable pub has_suffix : String → String → Bool
has_suffix suffix String.[] = suffix == ""
has_suffix suffix (String.◌∷◌ c s) = suffix == String.◌∷◌ c s || has_suffix suffix s

module _ ⦃p : Platform⦄ where
  -- What the file system and the JSON codec answer.
  pub record Storage : Type 0 where
    -- `os.OpenFile` for writing and `os.Open` fail for other reasons than a missing file
    pub write_error : String → Option Error
    pub read_error : String → Option Error
    pub missing : String → Error
    pub encode_target : Target → Result String
    pub decode_target : String → Result Target
    pub encode_pieces : Dict String String → Result String
    pub decode_pieces : String → Result (Dict String String)

  -- What `filepath.Walk` hands to the callback for one path below the store path.
  pub record Visit : Type 0 where
    pub path : String
    pub name : String
    pub is_dir : Bool
    pub error : Option Error

  module _ (io : Storage) where
    -- `os.OpenFile` creates or truncates, and the encoder writes only what it could encode.
    unfoldable pub write_file :
        String → Result String → Dict String String → Option Error × Dict String String
    write_file path content files = elim (io.write_error path) [
      | some e ↦ (some e, files)
      | none ↦ elim content [
        | err e ↦ (some e, insert path "" files)
        | ok s ↦ (none, insert path s files)
      ]
    ]

    unfoldable pub read_file : String → Dict String String → Result String
    read_file path files = elim (io.read_error path) [
      | some e ↦ err e
      | none ↦ elim (lookup path files) [ none ↦ err (io.missing path) | some s ↦ ok s ]
    ]

    abbrev pub target_path : HeyFil → String → String
    target_path hf id = join hf.options.store_path (String.◌++◌ id ".json")

    abbrev pub pieces_path : HeyFil → String
    pieces_path hf = join hf.options.store_path "recent.pieces"

    unfoldable pub store : Target → HeyFil → Option Error × HeyFil
    store t hf =
        if hf.options.store_path == "" || t.id == ""
        then (none, hf)
        else let (e, files) = write_file (target_path hf t.id) (io.encode_target t) hf.files in
          (e, record hf { files = files })

    abbrev loaded : Result Target → HeyFil → HeyFil
    loaded (err e) hf = hf
    loaded (ok t) hf = record hf { targets = insert t.id t hf.targets }

    abbrev decoded : Result String → Result Target
    decoded (err e) = err e
    decoded (ok s) = io.decode_target s

    -- The callback, which returns no error, for what `Walk` says of a path.
    unfoldable pub load_path : Option Error → Bool → (name path : String) → HeyFil → HeyFil
    load_path (some e) is_dir name path hf = hf
    load_path none is_dir name path hf =
        if not is_dir && has_suffix ".json" name
        then loaded (decoded (read_file path hf.files)) hf
        else hf

    unfoldable pub load_visit : Visit → HeyFil → HeyFil
    unfolding load_path
    load_visit v hf = load_path v.error v.is_dir v.name v.path hf

    unfoldable pub load_visits : List Visit → HeyFil → HeyFil
    load_visits [] hf = hf
    load_visits (v ∷ vs) hf = load_visits vs (load_visit v hf)

    -- The error is nil on every path.
    unfoldable pub load_targets : List Visit → HeyFil → HeyFil
    load_targets visits hf = if hf.options.store_path == "" then hf else load_visits visits hf

    unfoldable pub store_recent_pieces : Dict String String → HeyFil → Option Error × HeyFil
    store_recent_pieces rp hf =
        if hf.options.store_path == ""
        then (none, hf)
        else let (e, files) = write_file (pieces_path hf) (io.encode_pieces rp) hf.files in
          elim e [
            | some x ↦ (some x, record hf { files = files })
            | none ↦ (none, record hf { files = files; recent_pieces = rp })
          ]

    abbrev decoded_pieces : Result String → Result (Dict String String)
    decoded_pieces (err e) = err e
    decoded_pieces (ok s) = io.decode_pieces s

    unfoldable pub load_recent_pieces : HeyFil → HeyFil
    load_recent_pieces hf =
        if hf.options.store_path == ""
        then hf
        else elim (decoded_pieces (read_file (pieces_path hf) hf.files)) [
          | err e ↦ hf
          | ok rp ↦ record hf { recent_pieces = rp }
        ]
