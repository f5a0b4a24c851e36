-- ===== src/Store/Pieces.antt =====
-- The file of the recent pieces.
use heyfil.Base.{
  Option-cases, nat_eq, string_eq, beq_of_ne, String, ◌≡◌, refl, sym, ap, ◌∙◌, ◌≢◌, inl, inr,
  Option, none,
}
use heyfil.Base.Dict.{Dict, lookup, lookup-insert}
use heyfil.Base.FilePath.{join}
use heyfil.Base.Result.{Error, ok}
use heyfil.Store.{
  ok, Error, HeyFil, Platform, Storage, write_file, read_file, target_path, pieces_path,
  store_recent_pieces, load_recent_pieces,
}
use heyfil.Store.RoundTrip.{written, write-read}
use heyfil.Store.Names.{Plain, pieces_differ}
use heyfil.Platform.{Platform}
use heyfil.HeyFil.{HeyFil}

module _ ⦃p : Platform⦄ (io : Storage) where
  -- The write that storing does.
  abbrev write : Dict String String → HeyFil → Option Error × Dict String String
  write rp hf = write_file io (pieces_path io hf) (io.encode_pieces rp) hf.files

  stored-cases :
      (rp : Dict String String) (hf : HeyFil)
      → hf.options.store_path ≢ ""
      → (store_recent_pieces io rp hf).0 ≡ none
      → ((write rp hf).0 ≡ none)
        × ((store_recent_pieces io rp hf).1
            ≡ record hf { files = (write rp hf).1; recent_pieces = rp })
  unfolding store_recent_pieces
  stored-cases rp hf configured q = elim (Option-cases (write rp hf).0) [
    | inl e ↦ (e, rw (beq_of_ne hf.options.store_path "" configured, e))
    | inr (x, e) ↦ absurd (cc (rw (beq_of_ne hf.options.store_path "" configured, e) at q))
  ]

  load-read :
      (rp : Dict String String) (s : String) (again : HeyFil)
      → again.options.store_path ≢ ""
      → read_file io (pieces_path io again) again.files ≡ ok s
      → io.decode_pieces s ≡ ok rp
      → (load_recent_pieces io again).recent_pieces ≡ rp
  unfolding load_recent_pieces
  load-read rp s again configured read decoded =
      rw (beq_of_ne again.options.store_path "" configured, read, decoded) refl

  -- Recent pieces that were stored without an error, and which the codec gives back, are loaded by a
  -- service that starts again on the same files; and storing them leaves
  -- the file of every target whose identifier is not empty and has no slashes.
  pub load_recent_pieces-store :
      (rp : Dict String String) (hf again : HeyFil)
      → hf.options.store_path ≢ ""
      → (store_recent_pieces io rp hf).0 ≡ none
      → ((s : String) → io.encode_pieces rp ≡ ok s → io.decode_pieces s ≡ ok rp)
      → io.read_error (pieces_path io hf) ≡ none
      → again.options.store_path ≡ hf.options.store_path
      → again.files ≡ (store_recent_pieces io rp hf).1.files
      → ((load_recent_pieces io again).recent_pieces
          ≡ (store_recent_pieces io rp hf).1.recent_pieces)
        × ((id : String)
            → Plain id
            → lookup (target_path io hf id) (store_recent_pieces io rp hf).1.files
              ≡ lookup (target_path io hf id) hf.files)
  load_recent_pieces-store rp hf again configured stored codec readable path files =
      let place = pieces_path io hf in
      let (w, e) = stored-cases rp hf configured stored in
      let (s, encoded, inserted) = written io place (io.encode_pieces rp) hf.files w in
      let moved : pieces_path io again ≡ place = ap (λ d. join d "recent.pieces") path in
      let disk : again.files ≡ (write rp hf).1 = files ∙ ap (λ r. r.files) e in
      let read : read_file io (pieces_path io again) again.files ≡ ok s =
        ap (λ k. read_file io k again.files) moved
        ∙ ap (read_file io place) disk
        ∙ write-read io place (io.encode_pieces rp) hf.files w readable
        ∙ encoded in
      (
        load-read rp s again (λ q. configured (sym path ∙ q)) read (codec s encoded)
            ∙ ap (λ r. r.recent_pieces) (sym e),
        λ id plain.
            ap (λ r. lookup (target_path io hf id) r.files) e
            ∙ ap (lookup (target_path io hf id)) inserted
            ∙ lookup-insert (target_path io hf id) place s hf.files
            ∙ rw (pieces_differ io hf id configured plain) refl,
      )
