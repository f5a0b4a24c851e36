-- ===== src/Base/FilePath/Join.antt =====
-- Names that are joined to a directory.
use Prim.Native.Char.{code}
use Prim.Native.String.{[], ◌∷◌, ◌++◌}
use mathlib.Core.List as List
use text.Mathlib.TextLemmas.{
  append-nil, nil-append, cons-append, append_assoc, append_cancel_left, append-eq-nil_iff,
}
use heyfil.Base.Text.{NoSlash}
use heyfil.Base.FilePath.{
  split_from, split_slash, push_part, join_slash, clean_parts, is_rooted, clean, join,
}
use mathlib.Core.List.{reverse-cons}
use heyfil.Base.{
  Bool-cases, ◌==◌, nat_eq, string_eq, beq_of_ne, String, ◌≡◌, refl, sym, ap, ◌∙◌, ◌≢◌, inl, inr,
  Bool, List, ℕ_discrete,
}

-- A name of a file: no slashes, and neither empty nor a dot or two.
abbrev pub PlainName : String → Type 0
PlainName a = NoSlash a × (a ≢ "") × (a ≢ ".") × (a ≢ "..")

split_from-NoSlash : (cur s : String) → NoSlash s → split_from cur s ≡ List.◌∷◌ (cur ++ s) List.[]
unfolding split_from
split_from-NoSlash cur [] _ = rw append-nil
split_from-NoSlash cur (c ∷ s) (n, h) = rw (
  beq_of_ne (code c) 47 n,
  split_from-NoSlash (cur ++ (c ∷ "")) s h,
  append_assoc,
  cons-append,
  nil-append,
)

-- The last part of a path.
pub split_from-last :
    (cur s a : String)
    → NoSlash a
    → split_from cur (s ++ ("/" ++ a)) ≡ List.◌++◌ (split_from cur s) (List.◌∷◌ a List.[])
unfolding split_from ℕ_discrete
split_from-last cur [] a h =
    rw (nil-append, cons-append, nil-append, split_from-NoSlash "" a h, nil-append)
split_from-last cur (c ∷ s) a h = elim (Bool-cases (code c == 47)) [
  | inl q ↦ rw (cons-append, q) (ap (List.◌∷◌ cur) (split_from-last "" s a h))
  | inr q ↦ rw (cons-append, q) (split_from-last (cur ++ (c ∷ "")) s a h)
]

pub push_part-PlainName :
    (r : Bool) (st : List String) (a : String) → PlainName a → push_part r st a ≡ List.◌∷◌ a st
unfolding push_part
push_part-PlainName r st a (_, e, d, dd) =
    rw (beq_of_ne a "" e, beq_of_ne a "." d, beq_of_ne a ".." dd)

-- The parts before the last one leave a stack, whatever the last one is.
clean_parts-last :
    (r : Bool) (st parts : List String)
    → (st' : List String) × ((a : String)
        → clean_parts r st (List.◌++◌ parts (List.◌∷◌ a List.[]))
          ≡ List.reverse (push_part r st' a))
unfolding clean_parts
clean_parts-last r st List.[] = (st, λ a. refl)
clean_parts-last r st (List.◌∷◌ x parts) = clean_parts-last r (push_part r st x) parts

join_slash-last :
    (parts : List String)
    → (pre : String) × ((a : String) → join_slash (List.◌++◌ parts (List.◌∷◌ a List.[])) ≡ pre ++ a)
unfolding join_slash
join_slash-last List.[] = ("", λ a. sym (nil-append a))
join_slash-last (List.◌∷◌ x List.[]) = (x ++ "/", λ a. sym (append_assoc x "/" a))
join_slash-last (List.◌∷◌ x (List.◌∷◌ y parts)) =
    let (pre, e) = join_slash-last (List.◌∷◌ y parts) in
    (
      x ++ ("/" ++ pre),
      λ a.
          ap (λ t. x ++ ("/" ++ t)) (e a)
          ∙ ap (◌++◌ x) (sym (append_assoc "/" pre a))
          ∙ sym (append_assoc x ("/" ++ pre) a),
    )

pub is_rooted-append : (dir s : String) → dir ≢ "" → is_rooted (dir ++ s) ≡ is_rooted dir
unfolding is_rooted
is_rooted-append [] s n = absurd (n refl)
is_rooted-append (c ∷ dir) s n = rw cons-append

clean-last :
    (dir : String)
    → dir ≢ ""
    → (pre : String) × ((a : String)
        → PlainName a
        → join_slash (clean_parts (is_rooted dir) List.[] (split_slash (dir ++ ("/" ++ a))))
          ≡ pre ++ a)
unfolding split_slash
clean-last dir given =
    let (st, stacked) = clean_parts-last (is_rooted dir) List.[] (split_slash dir) in
    let (pre, joined) = join_slash-last (List.reverse st) in
    (
      pre,
      λ a plain.
          ap (λ l. join_slash (clean_parts (is_rooted dir) List.[] l))
            (split_from-last "" dir a plain.0)
          ∙ ap join_slash (stacked a)
          ∙ ap (λ l. join_slash (List.reverse l)) (push_part-PlainName (is_rooted dir) st a plain)
          ∙ ap join_slash (reverse-cons a st)
          ∙ joined a,
    )

-- A name that is joined to a directory stands behind a text that depends on the directory alone.
join-PlainName :
    (dir : String)
    → dir ≢ ""
    → (pre : String) × ((a : String) → PlainName a → join dir a ≡ pre ++ a)
unfolding join clean
join-PlainName dir given =
    let (pre, e) = clean-last dir given in
    elim (Bool-cases (is_rooted dir)) [
      | inl r ↦ (
        "/" ++ pre,
        λ a plain.
            rw
              (
                beq_of_ne dir "" given,
                beq_of_ne a "" plain.1,
                is_rooted-append dir ("/" ++ a) given,
                e a plain,
                r,
              )
              (sym (append_assoc "/" pre a)),
      )
      | inr r ↦ (
        pre,
        λ a plain.
            let full = beq_of_ne (pre ++ a) "" (λ q. plain.1 (append-eq-nil_iff.0 q).1) in
            rw
              (
                beq_of_ne dir "" given,
                beq_of_ne a "" plain.1,
                is_rooted-append dir ("/" ++ a) given,
                e a plain,
                r,
                full,
              )
              refl,
      )
    ]

-- Different names stay different.
pub join_injective :
    (dir a b : String) → dir ≢ "" → PlainName a → PlainName b → join dir a ≡ join dir b → a ≡ b
join_injective dir a b given plain plain' q =
    let (pre, e) = join-PlainName dir given in
    append_cancel_left pre a b (sym (e a plain) ∙ q ∙ e b plain')
