-- ===== src/ApiServer/Subtree.antt =====
-- The details of one participant, `handleSPSubtree` and `handleGetSP`.
use Prim.Native.String
use text.Mathlib.TextLemmas.{append_assoc}
use heyfil.Base.{
  Bool-cases, ◌==◌, nat_eq, string_eq, ==_refl, beq_iff, beq_of_ne, String, ◌≡◌, refl, sym, ap, inl,
  inr, false, none, some, List, arith, ℕ_discrete,
}
use heyfil.Base.FilePath.{clean_request}
use heyfil.Base.FilePath.Join.{PlainName}
use heyfil.Base.FilePath.Request.{clean_request-sp, clean_request-sp_two}
use heyfil.Base.Dict.{Dict, lookup}
use heyfil.Base.Text.{
  split_n, strip_prefix, strip_prefix-append, trim_prefix-append, split_n_one, split_n_two,
}
use heyfil.Platform.{Platform}
use heyfil.Target.{Target}
use heyfil.ApiServer.{
  split_n, Request, http_error, respond, sp, piece, handle_get_sp, handle_recent_piece,
  get_segments, handle_sp_subtree, serve,
}

no_prefix : strip_prefix "/sp/" "/sp" ≡ none
unfolding strip_prefix ℕ_discrete
no_prefix = refl

pub get-ne-options : ◌==◌ {A = String} "GET" "OPTIONS" ≡ false
unfolding string_eq
get-ne-options = refl

pub get-ne-connect : ◌==◌ {A = String} "GET" "CONNECT" ≡ false
unfolding string_eq
get-ne-connect = refl

pub get-ne-head : ◌==◌ {A = String} "GET" "HEAD" ≡ false
unfolding string_eq
get-ne-head = refl

recent_piece-PlainName : PlainName "recentPiece"
recent_piece-PlainName = (omega arith, λ e. cc, λ e. cc, λ e. cc)

-- "/sp/" ends the first part of the path.
sp_slash : (s : String) → String.◌++◌ "/sp" (String.◌++◌ "/" s) ≡ String.◌++◌ "/sp/" s
sp_slash s = sym (append_assoc "/sp" "/" s)

clean-path :
    (id : String) → PlainName id → clean_request (String.◌++◌ "/sp/" id) ≡ String.◌++◌ "/sp/" id
clean-path id plain = rw (← sp_slash id) (clean_request-sp id plain)

clean-path_two :
    (id : String)
    → PlainName id
    → let suffix = String.◌++◌ id (String.◌++◌ "/" "recentPiece") in
      clean_request (String.◌++◌ "/sp/" suffix) ≡ String.◌++◌ "/sp/" suffix
clean-path_two id plain =
    let same : String.◌++◌ (String.◌++◌ "/sp" (String.◌++◌ "/" id)) (String.◌++◌ "/" "recentPiece")
        ≡ String.◌++◌ "/sp/" (String.◌++◌ id (String.◌++◌ "/" "recentPiece")) =
      rw (sp_slash, append_assoc) refl in
    rw (← same) (clean_request-sp_two id "recentPiece" plain recent_piece-PlainName)

module _ ⦃p : Platform⦄ (targets : Dict String Target) (recent_pieces : Dict String String)
    (query : List (String × String)) where
  abbrev pub get_request : String → Request
  get_request suffix = record { method = "GET"; path = String.◌++◌ "/sp/" suffix; query = query }

  not_root : (suffix : String) → (String.◌++◌ "/sp/" suffix == "/sp") ≡ false
  not_root suffix = elim (Bool-cases (String.◌++◌ "/sp/" suffix == "/sp")) [
    | inr e ↦ e
    | inl e ↦ absurd (
        cc (
          strip_prefix-append "/sp/" suffix,
          no_prefix,
          ap (strip_prefix "/sp/") ((beq_iff (String.◌++◌ "/sp/" suffix) "/sp").0 e),
        ))
  ]

  serve-suffix :
      (suffix : String)
      → clean_request (String.◌++◌ "/sp/" suffix) ≡ String.◌++◌ "/sp/" suffix
      → serve targets recent_pieces (get_request suffix)
        ≡ get_segments targets recent_pieces (split_n 3 suffix)
  unfolding serve handle_sp_subtree
  serve-suffix suffix clean = rw (
    clean, ==_refl, get-ne-connect, not_root, strip_prefix-append, trim_prefix-append,
    get-ne-options, get-ne-head, ==_refl,
  )

  -- GET /sp/ID, for an identifier that is not empty, not a dot or two, and has no slashes, answers with the target of
  -- that identifier, or that there is none.
  pub serve_sp :
      (id : String)
      → PlainName id
      → serve targets recent_pieces (get_request id) ≡ elim (lookup id targets) [
        | none ↦ http_error 404 "SP not found"
        | some t ↦ respond (sp t)
      ]
  unfolding get_segments handle_get_sp
  serve_sp id plain =
      rw (serve-suffix id (clean-path id plain), split_n_one 1 id plain.0, beq_of_ne id "" plain.1)

  -- GET /sp/ID/recentPiece, for an identifier that is not empty, not a dot or two, and has no slashes, answers with the
  -- recent piece of that identifier, or that there is none.
  pub serve_recent_piece :
      (id : String)
      → PlainName id
      → serve targets recent_pieces (get_request (String.◌++◌ id (String.◌++◌ "/" "recentPiece")))
        ≡ elim (lookup id recent_pieces) [
          | none ↦ http_error 404 "No piece found for provided id"
          | some rp ↦ respond (piece rp)
        ]
  unfolding get_segments handle_recent_piece
  serve_recent_piece id plain = rw (
    serve-suffix (String.◌++◌ id (String.◌++◌ "/" "recentPiece")) (clean-path_two id plain),
    split_n_two 0 id "recentPiece" plain.0 recent_piece-PlainName.0,
    beq_of_ne id "" plain.1,
    ==_refl,
  )
