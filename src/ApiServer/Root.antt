-- ===== src/ApiServer/Root.antt =====
-- The listing of participants, `handleSPRoot`.
use mathlib.Core.List.{Permᴰ}
use mathlib.Core.List.Permᴰ as Perm
use heyfil.Base.{
  if◌then◌else◌, Option-cases, contains, nat_eq, string_eq, String, ◌≡◌, refl, ap, ◌∙◌, inl, inr,
  Bool, true, false, ◌&&◌, Option, none, some, List, [], ◌∷◌, arith,
}
use heyfil.Base.Int.{int_eq}
use heyfil.Base.Dict.{Dict, lookup, NodupKeys}
use heyfil.Base.Sort.{sort, IsSorted, sort-IsSorted, sort-perm, contains-sort}
use heyfil.Platform.{Platform}
use heyfil.Target.{Target}
use heyfil.ApiServer.{
  respond, sp_ids, query_get, peer_filter, status_filter, select_ids, get_sp_ids,
}

if-perm {ℓ} :
    {A : Type ℓ} (b : Bool) (x : A) {l m : List A}
    → Permᴰ l m
    → Permᴰ (if b then x ∷ l else l) (if b then x ∷ m else m)
if-perm true x h = Permᴰ.cons refl h
if-perm false x h = h

if-swap {ℓ} :
    {A : Type ℓ} (b c : Bool) (x y : A) (l : List A)
    → Permᴰ
        (if c then y ∷ (if b then x ∷ l else l) else (if b then x ∷ l else l))
        (if b then x ∷ (if c then y ∷ l else l) else (if c then y ∷ l else l))
if-swap true true x y l = Permᴰ.swap refl refl
if-swap true false x y l = Perm.refl _
if-swap false true x y l = Perm.refl _
if-swap false false x y l = Perm.refl _

module _ ⦃p : Platform⦄ where
  abbrev pub passes : (Target → Bool) → (Target → Bool) → Option Target → Bool
  passes f g none = false
  passes f g (some t) = f t && g t

  -- Selection by two filters meets the keys of the entries that pass both.
  contains-select_ids :
      (f g : Target → Bool) (ts : Dict String Target) (id : String)
      → NodupKeys ts
      → contains (select_ids f g ts) id ≡ passes f g (lookup id ts)
  unfolding select_ids lookup
  contains-select_ids f g [] id u = refl
  contains-select_ids f g ((k, t) ∷ ts) id (fresh, u) =
      ground (arith, contains-select_ids f g ts id u)

  select_ids-cons :
      (f g : Target → Bool) (id : String) (t : Target) (ts : Dict String Target)
      → select_ids f g ((id, t) ∷ ts)
        ≡ (if f t && g t then id ∷ select_ids f g ts else select_ids f g ts)
  unfolding select_ids
  select_ids-cons f g id t ts = ground arith

  select_ids-perm :
      (f g : Target → Bool) {ts us : Dict String Target}
      → Permᴰ ts us
      → Permᴰ (select_ids f g ts) (select_ids f g us)
  select_ids-perm f g Permᴰ.nil = Perm.refl _
  select_ids-perm f g (Permᴰ.cons {b = (id, t)} {l₁ = l} {l₂ = m} e h) =
      rw (e, select_ids-cons f g id t l, select_ids-cons f g id t m)
        (if-perm (f t && g t) id (select_ids-perm f g h))
  select_ids-perm f g (Permᴰ.swap {a' = (id, t)} {b' = (id', t')} {l = l} e e') =
      rw
        (
          e,
          e',
          select_ids-cons f g id' t' ((id, t) ∷ l),
          select_ids-cons f g id t ((id', t') ∷ l),
          select_ids-cons f g id t l,
          select_ids-cons f g id' t' l,
        )
        (if-swap (f t && g t) (f t' && g t') id id' (select_ids f g l))
  select_ids-perm f g (Permᴰ.trans h k) =
      Permᴰ.trans (select_ids-perm f g h) (select_ids-perm f g k)

  -- A listing with valid filters is the ascending list of the identifiers of the targets that pass
  -- both filters, and of no others.
  pub get_sp_ids_lem :
      (targets : Dict String Target) (query : List (String × String)) (f g : Target → Bool)
      → NodupKeys targets
      → peer_filter (query_get "peerid" query) ≡ some f
      → status_filter (query_get "status" query) ≡ some g
      → (ids : List String) × (get_sp_ids targets query ≡ respond (sp_ids ids))
        × IsSorted ids
        × ((id : String) → contains ids id ≡ passes f g (lookup id targets))
  unfolding get_sp_ids
  get_sp_ids_lem targets query f g u e e' = (
    sort (select_ids f g targets),
    rw (e, e', get_sp_ids),
    sort-IsSorted _,
    λ id. contains-sort id _ ∙ contains-select_ids f g targets id u,
  )

  -- The response does not depend on the order in which the loop meets the targets.
  pub get_sp_ids-perm :
      {ts us : Dict String Target} (query : List (String × String))
      → Permᴰ ts us
      → get_sp_ids ts query ≡ get_sp_ids us query
  unfolding get_sp_ids
  get_sp_ids-perm {ts} {us} query h = elim (Option-cases (peer_filter (query_get "peerid" query))) [
    | inl e ↦ rw (e, get_sp_ids)
    | inr (f, e) ↦ elim (Option-cases (status_filter (query_get "status" query))) [
      | inl e' ↦ rw (e, e', get_sp_ids)
      | inr (g, e') ↦
          rw (e, e', get_sp_ids)
            (ap (λ ids. respond (sp_ids ids)) (sort-perm (select_ids-perm f g h)))
    ]
  ]
