-- ===== src/Platforms/NextLink.antt =====
-- Where in a header `parseNextLink` of github/client.go finds the next page.
use contribution_tracker.Prelude.{
  String, ◌≡◌, ◌≢◌, refl, sym, ap, ◌∙◌, Bool, true, false, ◌&&◌, not, ◌==◌, Option, some, none,
  if◌then◌else◌, strip_prefix, strip_prefix-eq, with_prefix, eq_of_some, arith,
}
use mathlib.Core.Path.{subst}
use Prim.Native.Char.{Char}
use Prim.Native.String
use text.Mathlib.TextEquality.{Char-path}
use text.Mathlib.TextLemmas.{nil-append, cons-append}
use contribution_tracker.Platforms.GitHub.Links.{
  is_space, skip_spaces, is_opening, is_closing, put_first, read_run, is_next_relation, checked_run,
  or_later, find_link, parse_next_link,
}

-- The text begins with a URL, its bracket, and the relation of the next page.
abbrev IsLinked : String → String → Type 0
IsLinked s url =
    (spaces : String) × ((rest : String) × ((skip_spaces spaces ≡ "")
        × (s
            ≡ String.◌++◌ url (
                String.◌++◌ ">"
                  (String.◌++◌ ";" (String.◌++◌ spaces (String.◌++◌ "rel=\"next\"" rest)))))))

spaces_skipped :
    (s : String)
    → (spaces : String) × ((s ≡ String.◌++◌ spaces (skip_spaces s)) × (skip_spaces spaces ≡ ""))
spaces_skipped String.[] = ("", (sym (nil-append ""), refl))
spaces_skipped (String.◌∷◌ c s) = by_char (is_space c) refl (spaces_skipped s)
  where
    by_char :
        (b : Bool)
        → is_space c ≡ b
        → ((spaces : String) × ((s ≡ String.◌++◌ spaces (skip_spaces s))
              × (skip_spaces spaces ≡ "")))
        → (spaces : String) × ((String.◌∷◌ c s
              ≡ String.◌++◌ spaces (if b then skip_spaces s else String.◌∷◌ c s))
            × (skip_spaces spaces ≡ ""))
    by_char true space (spaces, (e, only)) = (
      String.◌∷◌ c spaces,
      (
        ap (String.◌∷◌ c) e ∙ sym (cons-append c spaces (skip_spaces s)),
        ap (λ b. if b then skip_spaces spaces else String.◌∷◌ c spaces) space ∙ only,
      ),
    )
    by_char false space later = ("", (sym (nil-append (String.◌∷◌ c s)), refl))

read_run-found :
    (s run rest : String)
    → read_run s ≡ some (run, rest)
    → s ≡ String.◌++◌ run (String.◌++◌ ">" rest)
read_run-found String.[] run rest e = cc
read_run-found (String.◌∷◌ c s) run rest e =
    by_char (is_closing c) refl (read_run s) (read_run-found s) e
  where
    by_char :
        (b : Bool)
        → is_closing c ≡ b
        → (o : Option (String × String))
        → ((run rest : String) → o ≡ some (run, rest) → s ≡ String.◌++◌ run (String.◌++◌ ">" rest))
        → (if b then some ("", s) else put_first c o) ≡ some (run, rest)
        → String.◌∷◌ c s ≡ String.◌++◌ run (String.◌++◌ ">" rest)
    by_char true closing o later e =
        let bracket : c ≡ ">" = Char-path c ">" (ground (arith, closing)) in
        let parts : ("", s) ≡ (run, rest) = eq_of_some e in
        subst (λ p. String.◌∷◌ c s ≡ String.◌++◌ p.0 (String.◌++◌ ">" p.1)) parts
          (ap (λ d. String.◌∷◌ d s) bracket
            ∙ ap (String.◌∷◌ ">") (sym (nil-append s))
            ∙ sym (cons-append ">" "" s)
            ∙ sym (nil-append (String.◌++◌ ">" s)))
    by_char false closing none later e = cc
    by_char false closing (some (r, t)) later e =
        subst (λ p. String.◌∷◌ c s ≡ String.◌++◌ p.0 (String.◌++◌ ">" p.1)) (eq_of_some e)
          (ap (String.◌∷◌ c) (later r t refl) ∙ sym (cons-append c r (String.◌++◌ ">" t)))

-- A run that is followed by the relation.
checked_run-found : (s url : String) → checked_run (read_run s) ≡ some url → IsLinked s url
checked_run-found s url e = by_run (read_run s) refl e
  where
    by_rest :
        (run t : String) (o : Option String)
        → read_run s ≡ some (run, t)
        → strip_prefix ";" t ≡ o
        → (not (run == "") && is_next_relation o) ≡ true
        → IsLinked s run
    by_rest run t none found after e = ground (arith, e)
    by_rest run t (some u) found after e =
        let (spaces, (skipped, only)) = spaces_skipped u in
        let (rest, relation) = with_prefix "rel=\"next\"" (skip_spaces u) (ground (arith, e)) in
        (
          spaces,
          (
            rest,
            (
              only,
              read_run-found s run t found
                  ∙ ap (λ x. String.◌++◌ run (String.◌++◌ ">" x))
                      (sym (strip_prefix-eq ";" t u after)
                        ∙ ap (String.◌++◌ ";") (skipped ∙ ap (String.◌++◌ spaces) relation)),
            ),
          ),
        )

    by_run :
        (o : Option (String × String)) → read_run s ≡ o → checked_run o ≡ some url → IsLinked s url
    by_run none found e = cc
    by_run (some (run, t)) found e =
        tested (not (run == "") && is_next_relation (strip_prefix ";" t)) refl e
      where
        tested :
            (b : Bool)
            → (not (run == "") && is_next_relation (strip_prefix ";" t)) ≡ b
            → (if b then some run else none) ≡ some url
            → IsLinked s url
        tested true holds e =
            subst (IsLinked s) (eq_of_some e) (by_rest run t (strip_prefix ";" t) found refl holds)
        tested false holds e = cc

-- The header has a URL between brackets, followed by the relation of the next page.
abbrev pub Links : String → String → Type 0
Links header url =
    (before : String) × ((spaces : String) × ((rest : String) × ((skip_spaces spaces ≡ "")
          × (header
              ≡ String.◌++◌ before (
                  String.◌++◌ "<" (
                    String.◌++◌ url (
                      String.◌++◌ ">" (
                        String.◌++◌ ";"
                          (String.◌++◌ spaces (String.◌++◌ "rel=\"next\"" rest))))))))))

bracketed :
    (c : Char) (s url : String) → is_opening c ≡ true → IsLinked s url → Links (String.◌∷◌ c s) url
bracketed c s url opening (spaces, (rest, (only, e))) =
    let bracket : c ≡ "<" = Char-path c "<" (ground (arith, opening)) in
    (
      "",
      (
        spaces,
        (
          rest,
          (
            only,
            ap (λ d. String.◌∷◌ d s) bracket
                ∙ ap (String.◌∷◌ "<") (sym (nil-append s))
                ∙ sym (cons-append "<" "" s)
                ∙ ap (String.◌++◌ "<") e
                ∙ sym (nil-append _),
          ),
        ),
      ),
    )

further : (c : Char) (s url : String) → Links s url → Links (String.◌∷◌ c s) url
further c s url (before, (spaces, (rest, (only, e)))) = (
  String.◌∷◌ c before,
  (spaces, (rest, (only, ap (String.◌∷◌ c) e ∙ sym (cons-append c before _)))),
)

find_link-Links : (s url : String) → find_link s ≡ url → url ≢ "" → Links s url
find_link-Links String.[] url e named = absurd (named (sym e))
find_link-Links (String.◌∷◌ c s) url e named =
    by_char (is_opening c) refl (checked_run (read_run s)) refl (find_link-Links s url) e
  where
    by_char :
        (b : Bool)
        → is_opening c ≡ b
        → (o : Option String) → checked_run (read_run s) ≡ o
        → (find_link s ≡ url → url ≢ "" → Links s url)
        → (if b then or_later o (find_link s) else find_link s) ≡ url
        → Links (String.◌∷◌ c s) url
    by_char true opening (some u) run later e =
        bracketed c s url opening (checked_run-found s url (run ∙ ap some e))
    by_char true opening none run later e = further c s url (later e named)
    by_char false opening o run later e = further c s url (later e named)

-- A URL that `parseNextLink` finds stands in the header between brackets, followed by a semicolon, spaces
-- and rel="next".
pub parse_next_link-Links :
    (header url : String) → parse_next_link header ≡ url → url ≢ "" → Links header url
unfolding parse_next_link
parse_next_link-Links header url e named = by_header (header == "") e
  where
    by_header : (b : Bool) → (if b then "" else find_link header) ≡ url → Links header url
    by_header true e = absurd (named (sym e))
    by_header false e = find_link-Links header url e named
