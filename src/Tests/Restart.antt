-- ===== src/Tests/Restart.antt =====
-- Two targets are taken in, and a service that is started again finds them.
use mathlib.Core.List.{map}
use heyfil.Base.{
  nat_eq, string_eq, String, ◌≡◌, refl, ◌≢◌, Option, none, some, [], ◌∷◌, arith, ℕ_discrete,
}
use heyfil.Base.Dict.{lookup, keys, Dict}
use heyfil.Base.Text.{cut_slash}
use heyfil.Base.Result.{Result, ok, err}
use heyfil.Tests.World.{demo, io, stored_hf, miner, shapeless}
use heyfil.Store.{
  Storage, load_targets, store_recent_pieces, load_recent_pieces, target_path, write_file,
}
use heyfil.Target.{Target, new_target}
use heyfil.HeyFil.{HeyFil}
use heyfil.Store.Names.{Plain}
use heyfil.Service.Persistence.{Reliable, Storable, handle_all}
use heyfil.Service.Restart.{restart, visit_of, forget}
use heyfil.Store.Pieces.{load_recent_pieces-store}
use Prim.Native.String

io-Reliable : Reliable io
io-Reliable = record { writes = λ path. refl; reads = λ path. refl }

abbrev another : Target
another = new_target "f02000"

abbrev first : HeyFil
first = record stored_hf { targets = [] }

abbrev last : HeyFil
last = handle_all io (miner ∷ another ∷ []) first

abbrev again : HeyFil
again = record first { files = last.files }

miner-Plain : Plain "f01000"
miner-Plain = (λ e. cc, omega arith)

another-Plain : Plain "f02000"
another-Plain = (λ e. cc, omega arith)

miner-Storable : Storable io miner
miner-Storable = record { named = miner-Plain; content = "f01000"; encoded = refl; decoded = refl }

another-Storable : Storable io another
another-Storable = record {
  named = another-Plain;
  content = "f02000";
  encoded = refl;
  decoded = refl;
}

configured : ◌≢◌ {A = String} "/data" ""
configured = λ e. cc

restart_example :
    lookup "f01000" (load_targets io (map (visit_of io last) (keys last.targets)) again).targets
    ≡ forget (lookup "f01000" last.targets)
restart_example =
    restart io io-Reliable (miner ∷ another ∷ []) first again "f01000" refl configured
      (miner-Storable, (another-Storable, tt)) refl refl refl

-- A codec that keeps the first piece alone, as its participant, a slash and the piece.
abbrev encode_first : Dict String String → Result String
encode_first [] = err shapeless
encode_first ((k, v) ∷ _) = ok (String.◌++◌ k (String.◌++◌ "/" v))

abbrev decode_first : String × Option String → Result (Dict String String)
decode_first (k, none) = err shapeless
decode_first (k, some v) = ok ((k, v) ∷ [])

abbrev piece_io : Storage
piece_io = record io {
  encode_pieces = encode_first;
  decode_pieces = λ s. decode_first (cut_slash s);
}

abbrev pieces : Dict String String
pieces = ("f01000", "piece1") ∷ []

abbrev piece_hf : HeyFil
piece_hf = (store_recent_pieces piece_io pieces first).1

pieces_stored : (store_recent_pieces piece_io pieces first).0 ≡ none
unfolding store_recent_pieces write_file string_eq
pieces_stored = refl

piece_read : decode_first (cut_slash "f01000/piece1") ≡ ok pieces
unfolding cut_slash ℕ_discrete
piece_read = refl

piece_codec : (s : String) → encode_first pieces ≡ ok s → decode_first (cut_slash s) ≡ ok pieces
piece_codec s e = let same : "f01000/piece1" ≡ s = cc in rw (← same) piece_read

load_recent_pieces-store_example :
    ((load_recent_pieces piece_io (record first { files = piece_hf.files })).recent_pieces
      ≡ piece_hf.recent_pieces)
    × ((id : String)
        → Plain id
        → lookup (target_path piece_io first id) piece_hf.files
          ≡ lookup (target_path piece_io first id) first.files)
load_recent_pieces-store_example =
    load_recent_pieces-store piece_io pieces first (record first { files = piece_hf.files })
      configured pieces_stored piece_codec refl refl refl
