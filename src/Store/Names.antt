-- ===== src/Store/Names.antt =====
-- The names of the files below the store path.
use Prim.Native.String
use Prim.Native.String.{[], ◌∷◌}
use text.Mathlib.TextLemmas.{
  nil-append, cons-append, append-eq-nil_iff, tail-eq_of_cons-eq, append_cancel_right,
}
use heyfil.Base.{
  ◌==◌, nat_eq, string_eq, beq_iff, beq_of_ne, String, ◌≡◌, refl, ap, ◌≢◌, false, arith,
}
use heyfil.Base.FilePath.Join.{join_injective, PlainName}
use heyfil.Base.Text.{NoSlash}
use heyfil.Store.{Storage, target_path, pieces_path, has_suffix}
use heyfil.Store.RoundTrip.{has_suffix-append}
use heyfil.Platform.{Platform}
use heyfil.HeyFil.{HeyFil}

NoSlash-append : (a b : String) → NoSlash a → NoSlash b → NoSlash (String.◌++◌ a b)
NoSlash-append [] b h k = rw nil-append k
NoSlash-append (c ∷ a) b (n, h) k = rw cons-append (n, NoSlash-append a b h k)

not_dot : (a : String) → a ≢ "" → String.◌++◌ a ".json" ≢ "."
not_dot [] n e = n refl
not_dot (c ∷ a) n e =
    let rest : String.◌++◌ a ".json" ≡ "" = tail-eq_of_cons-eq (rw cons-append at e) in
    absurd (cc ((append-eq-nil_iff.0 rest).1))

not_dots : (a : String) → a ≢ "" → String.◌++◌ a ".json" ≢ ".."
not_dots [] n e = n refl
not_dots (c ∷ []) n e =
    let rest : String.◌++◌ "" ".json" ≡ "." = tail-eq_of_cons-eq (rw cons-append at e) in
    absurd (cc (rw nil-append at rest))
not_dots (c ∷ (d ∷ a)) n e =
    let rest : String.◌++◌ (d ∷ a) ".json" ≡ "." = tail-eq_of_cons-eq (rw cons-append at e) in
    not_dot (d ∷ a) (λ q. cc) rest

-- An identifier that can stand in the name of a file.
abbrev pub Plain : String → Type 0
Plain id = (id ≢ "") × NoSlash id

pub json-PlainName : (id : String) → Plain id → PlainName (String.◌++◌ id ".json")
json-PlainName id (n, h) = (
  NoSlash-append id ".json" h (omega arith),
  λ e. n (append-eq-nil_iff.0 e).0,
  not_dot id n,
  not_dots id n,
)

module _ ⦃p : Platform⦄ (io : Storage) where
  pub paths_differ :
      (hf : HeyFil) (a b : String)
      → hf.options.store_path ≢ ""
      → Plain a
      → Plain b
      → (a == b) ≡ false
      → (target_path io hf a == target_path io hf b) ≡ false
  paths_differ hf a b configured plain plain' differ =
      beq_of_ne (target_path io hf a) (target_path io hf b) (λ q.
        let same : a ≡ b = append_cancel_right a b ".json" (
          join_injective hf.options.store_path (String.◌++◌ a ".json") (String.◌++◌ b ".json")
            configured (json-PlainName a plain) (json-PlainName b plain') q) in
        cc (differ, (beq_iff a b).1 same))

  pieces-PlainName : PlainName "recent.pieces"
  pieces-PlainName = (omega arith, λ e. cc, λ e. cc, λ e. cc)

  no_json : has_suffix ".json" "recent.pieces" ≡ false
  unfolding has_suffix string_eq
  no_json = refl

  -- No target is kept in the file of the recent pieces.
  pub pieces_differ :
      (hf : HeyFil) (id : String)
      → hf.options.store_path ≢ ""
      → Plain id
      → (pieces_path io hf == target_path io hf id) ≡ false
  pieces_differ hf id configured plain = beq_of_ne (pieces_path io hf) (target_path io hf id) (λ q.
      let same : "recent.pieces" ≡ String.◌++◌ id ".json" =
        join_injective hf.options.store_path "recent.pieces" (String.◌++◌ id ".json") configured
          pieces-PlainName (json-PlainName id plain) q in
      cc (no_json, has_suffix-append ".json" id, ap (has_suffix ".json") same))
