-- ===== src/ApiServer/Consistent.antt =====
-- The listing of participants and the details of one, as `serve` answers both.
use heyfil.Base.{
  contains, nat_eq, string_eq, ==_refl, String, ◌≡◌, refl, sym, ap, ◌∙◌, Bool, true, Option, none,
  some, List, arith, ℕ_discrete,
}
use heyfil.Base.FilePath.{clean_request}
use heyfil.Base.FilePath.Join.{PlainName}
use heyfil.Base.Dict.{lookup, Dict}
use heyfil.ApiServer.Subtree.{get-ne-connect, serve_sp, get-ne-options, get-ne-head, get_request}
use heyfil.ApiServer.{
  lookup, Target, Dict, Platform, serve, handle_sp_root, get_sp_ids, Request, respond, sp, sp_ids,
  query_get, peer_filter, status_filter,
}
use heyfil.ApiServer.Root.{get_sp_ids_lem, passes}
use heyfil.Store.WellFormed.{WellFormed}
use heyfil.Platform.{Platform}
use heyfil.Target.{Target}

list_clean : clean_request "/sp" ≡ "/sp"
unfolding clean_request string_eq ℕ_discrete
list_clean = refl

module _ ⦃p : Platform⦄ (targets : Dict String Target) (recent_pieces : Dict String String)
    (query : List (String × String)) where
  abbrev pub list_request : Request
  list_request = record { method = "GET"; path = "/sp"; query = query }

  pub serve-list : serve targets recent_pieces list_request ≡ get_sp_ids targets query
  unfolding serve handle_sp_root
  serve-list = rw (
    list_clean,
    ==_refl {A = String} "/sp",
    get-ne-connect,
    get-ne-options,
    get-ne-head,
    ==_refl {A = String} "GET",
  )

  passes-some :
      (f g : Target → Bool) (o : Option Target)
      → passes f g o ≡ true
      → (t : Target) × (o ≡ some t) × (f t ≡ true) × (g t ≡ true)
  passes-some f g none h = absurd (cc)
  passes-some f g (some t) h = (t, refl, ground arith, ground arith)

  -- When GET /sp with valid filters answers with a list, then GET /sp/ID answers for each of its
  -- identifiers that is not empty, not a dot or two, and has no slashes with a target that has this identifier and
  -- passes both filters, if the targets are well formed.
  pub serve-listed :
      (f g : Target → Bool) (ids : List String) (id : String)
      → WellFormed targets
      → peer_filter (query_get "peerid" query) ≡ some f
      → status_filter (query_get "status" query) ≡ some g
      → serve targets recent_pieces list_request ≡ respond (sp_ids ids)
      → contains ids id ≡ true
      → PlainName id
      → (t : Target) × (serve targets recent_pieces (get_request targets recent_pieces query id)
          ≡ respond (sp t))
        × (t.id ≡ id)
        × (f t ≡ true)
        × (g t ≡ true)
  serve-listed f g ids id (u, keyed) e e' answered member plain =
      let (ids', listed, _, exact) = get_sp_ids_lem targets query f g u e e' in
      let same : sp_ids ids ≡ sp_ids ids' = ap (λ r. r.body) (sym answered ∙ serve-list ∙ listed) in
      let passed : passes f g (lookup id targets) ≡ true = sym (exact id) ∙ cc in
      let (t, found, by_peer, by_status) = passes-some f g (lookup id targets) passed in
      (
        t,
        serve_sp targets recent_pieces query id plain ∙ rw found refl,
        keyed id t found,
        by_peer,
        by_status,
      )
