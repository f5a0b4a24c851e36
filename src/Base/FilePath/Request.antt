-- ===== src/Base/FilePath/Request.antt =====
-- Paths of requests that `http.ServeMux` leaves as they are.
use Prim.Native.Char.{code}
use Prim.Native.String.{[], ◌∷◌, ◌++◌}
use mathlib.Core.List as List
use text.Mathlib.TextLemmas.{nil-append, cons-append, append_assoc}
use heyfil.Base.Text.{NoSlash}
use heyfil.Base.FilePath.{
  split_from, split_slash, push_part, join_slash, clean_parts, is_rooted, clean, ends_slash,
  clean_request,
}
use heyfil.Base.FilePath.Join.{PlainName, is_rooted-append, split_from-last, push_part-PlainName}
use heyfil.Base.{
  ◌==◌, nat_eq, string_eq, beq_of_ne, String, ◌≡◌, refl, sym, ap, ◌∙◌, ◌≢◌, Bool, true, false, List,
  ℕ_discrete,
}

ends_slash-append :
    (b : Bool) (s a : String) → ends_slash b (s ++ a) ≡ ends_slash (ends_slash b s) a
unfolding ends_slash
ends_slash-append b [] a = rw nil-append refl
ends_slash-append b (c ∷ s) a = rw cons-append (ends_slash-append (code c == 47) s a)

ends_slash-NoSlash : (b : Bool) (a : String) → NoSlash a → a ≢ "" → ends_slash b a ≡ false
unfolding ends_slash
ends_slash-NoSlash b [] h given = absurd (given refl)
ends_slash-NoSlash b (c ∷ []) (n, h) given = beq_of_ne (code c) 47 n
ends_slash-NoSlash b (c ∷ d ∷ s) (n, h) given =
    ends_slash-NoSlash (code c == 47) (d ∷ s) h (λ e. cc)

-- A path that ends with a plain name has no slash at its end.
ends_slash-PlainName : (s a : String) → PlainName a → ends_slash false (s ++ a) ≡ false
ends_slash-PlainName s a (plain, given, _, _) =
    ends_slash-append false s a ∙ ends_slash-NoSlash (ends_slash false s) a plain given

clean_of_parts :
    (path : String) (parts : List String)
    → is_rooted path ≡ true
    → clean_parts true List.[] (split_slash path) ≡ parts
    → clean path ≡ "/" ++ join_slash parts
unfolding clean
clean_of_parts path parts r e = rw (r, e) refl

sp_rooted : (s : String) → is_rooted ("/sp" ++ s) ≡ true
unfolding is_rooted ℕ_discrete
sp_rooted s = is_rooted-append "/sp" s (λ e. cc)

split_slash-sp :
    (a : String)
    → NoSlash a
    → split_slash ("/sp" ++ ("/" ++ a)) ≡ List.◌∷◌ "" (List.◌∷◌ "sp" (List.◌∷◌ a List.[]))
unfolding split_slash split_from ℕ_discrete
split_slash-sp a h = split_from-last "" "/sp" a h

split_slash-sp_two :
    (a b : String)
    → NoSlash a
    → NoSlash b
    → split_slash (("/sp" ++ ("/" ++ a)) ++ ("/" ++ b))
      ≡ List.◌∷◌ "" (List.◌∷◌ "sp" (List.◌∷◌ a (List.◌∷◌ b List.[])))
unfolding split_slash
split_slash-sp_two a b h h' =
    split_from-last "" ("/sp" ++ ("/" ++ a)) b h'
    ∙ ap (λ l. List.◌++◌ l (List.◌∷◌ b List.[])) (split_slash-sp a h)

clean-sp : (a : String) → PlainName a → clean ("/sp" ++ ("/" ++ a)) ≡ "/sp" ++ ("/" ++ a)
unfolding clean_parts push_part join_slash string_eq
clean-sp a plain =
    clean_of_parts ("/sp" ++ ("/" ++ a)) (List.◌∷◌ "sp" (List.◌∷◌ a List.[])) (sp_rooted ("/" ++ a))
      (rw (split_slash-sp a plain.0)
        (ap List.reverse (push_part-PlainName true (List.◌∷◌ "sp" List.[]) a plain)))
    ∙ sym (append_assoc "/" "sp" ("/" ++ a))

clean-sp_two :
    (a b : String)
    → PlainName a
    → PlainName b
    → clean (("/sp" ++ ("/" ++ a)) ++ ("/" ++ b)) ≡ ("/sp" ++ ("/" ++ a)) ++ ("/" ++ b)
unfolding clean_parts push_part join_slash string_eq
clean-sp_two a b plain plain' =
    clean_of_parts (("/sp" ++ ("/" ++ a)) ++ ("/" ++ b))
      (List.◌∷◌ "sp" (List.◌∷◌ a (List.◌∷◌ b List.[])))
      (rw append_assoc (sp_rooted (("/" ++ a) ++ ("/" ++ b))))
      (rw (split_slash-sp_two a b plain.0 plain'.0) (
        ap (λ st. List.reverse (push_part true st b))
          (push_part-PlainName true (List.◌∷◌ "sp" List.[]) a plain)
        ∙ ap List.reverse (push_part-PlainName true (List.◌∷◌ a (List.◌∷◌ "sp" List.[])) b plain')))
    ∙ sym (append_assoc "/" "sp" ("/" ++ (a ++ ("/" ++ b))))
    ∙ ap (◌++◌ "/sp") (sym (append_assoc "/" a ("/" ++ b)))
    ∙ sym (append_assoc "/sp" ("/" ++ a) ("/" ++ b))

clean_request_of_clean :
    (path : String)
    → is_rooted path ≡ true
    → clean path ≡ path
    → ends_slash false path ≡ false
    → clean_request path ≡ path
unfolding clean_request
clean_request_of_clean path r same last = rw (r, same, last) refl

-- The path of a participant.
pub clean_request-sp :
    (a : String) → PlainName a → clean_request ("/sp" ++ ("/" ++ a)) ≡ "/sp" ++ ("/" ++ a)
clean_request-sp a plain =
    clean_request_of_clean ("/sp" ++ ("/" ++ a)) (sp_rooted ("/" ++ a)) (clean-sp a plain)
      (rw (← append_assoc "/sp" "/" a) (ends_slash-PlainName ("/sp" ++ "/") a plain))

-- The path of what stands under a participant.
pub clean_request-sp_two :
    (a b : String)
    → PlainName a
    → PlainName b
    → clean_request (("/sp" ++ ("/" ++ a)) ++ ("/" ++ b)) ≡ ("/sp" ++ ("/" ++ a)) ++ ("/" ++ b)
clean_request-sp_two a b plain plain' =
    let path = ("/sp" ++ ("/" ++ a)) ++ ("/" ++ b) in
    clean_request_of_clean path (rw append_assoc (sp_rooted (("/" ++ a) ++ ("/" ++ b))))
      (clean-sp_two a b plain plain')
      (rw (← append_assoc ("/sp" ++ ("/" ++ a)) "/" b)
        (ends_slash-PlainName (("/sp" ++ ("/" ++ a)) ++ "/") b plain'))
