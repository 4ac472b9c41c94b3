-- ===== src/Platforms/Paths.antt =====
-- What `extractProjectPath` of gitlab/fetcher.go finds in a URL's path.
use contribution_tracker.Prelude.{
  String, ◌≡◌, ◌≢◌, refl, sym, ap, ◌∙◌, ◌↔◌, ◌⊎◌, inl, inr, Bool, true, false, Option, some, none,
  if◌then◌else◌, is_prefix, arith, eq_of_some, is_prefix-append, is_prefix_self, with_prefix,
}
use Prim.Native.Char.{Char}
use Prim.Native.String
use text.Mathlib.TextLemmas.{nil-append, cons-append, append_assoc, length-cons, length-append}
use contribution_tracker.Report.Outcomes.{value}
use contribution_tracker.Platforms.Http.{Formats}
use contribution_tracker.Platforms.GitLab.{
  put_before, before_marker, or_empty_text, extract_project_path,
}

here : (s : String) → is_prefix "/-/" s ≡ true → before_marker s ≡ some ""
here String.[] e = cc
here (String.◌∷◌ c s) e = rw e

-- The marker's first two characters and what follows them.
first_two :
    (n rest : String)
    → String.◌++◌ (String.◌++◌ n "/-") (String.◌++◌ "/" rest)
      ≡ String.◌++◌ n (String.◌++◌ "/-/" rest)
first_two n rest =
    append_assoc n "/-" (String.◌++◌ "/" rest)
    ∙ ap (λ s. String.◌++◌ n s) (sym (append_assoc "/-" "/" rest))

-- Whether the marker begins at a character is seen by the two that follow it.
marker_at :
    (c : Char) (n rest : String)
    → is_prefix "/-/" (String.◌∷◌ c (String.◌++◌ n (String.◌++◌ "/-/" rest)))
      ≡ is_prefix "/-/" (String.◌∷◌ c (String.◌++◌ n "/-"))
marker_at c n rest =
    ap (is_prefix "/-/") (
      ap (String.◌∷◌ c) (sym (first_two n rest))
      ∙ sym (cons-append c (String.◌++◌ n "/-") (String.◌++◌ "/" rest)))
    ∙ is_prefix-append "/-/" (String.◌∷◌ c (String.◌++◌ n "/-")) (String.◌++◌ "/" rest)
        (rw (length-cons c (String.◌++◌ n "/-"), length-append n "/-") (omega arith))

put_before-some :
    (c : Char) (o : Option String) (name : String)
    → put_before c o ≡ some name
    → (n : String) × (o ≡ some n) × (name ≡ String.◌∷◌ c n)
put_before-some c none name e = cc
put_before-some c (some n) name e = (n, refl, cc)

put_before-none : (c : Char) (o : Option String) → put_before c o ≡ none → o ≡ none
put_before-none c none e = refl
put_before-none c (some n) e = cc

-- The marker begins with the character, or the text before it does.
marker_cases :
    (b : Bool) (c : Char) (o : Option String) (name : String)
    → (if b then some "" else put_before c o) ≡ some name
    → ((b ≡ true) × (name ≡ ""))
      ⊎ ((b ≡ false) × ((n : String) × (o ≡ some n) × (name ≡ String.◌∷◌ c n)))
marker_cases true c o name e = inl (refl, sym (eq_of_some e))
marker_cases false c o name e = inr (refl, put_before-some c o name e)

no_marker_cases :
    (b : Bool) (c : Char) (o : Option String)
    → (if b then some "" else put_before c o) ≡ none
    → (b ≡ false) × (o ≡ none)
no_marker_cases true c o e = cc
no_marker_cases false c o e = (refl, put_before-none c o e)

abbrev at_marker : Char → String → Bool
at_marker c s = is_prefix "/-/" (String.◌∷◌ c s)

before_marker-found :
    (s name : String)
    → before_marker s ≡ some name
    → ((rest : String) × (s ≡ String.◌++◌ name (String.◌++◌ "/-/" rest)))
      × (before_marker (String.◌++◌ name "/-") ≡ none)
before_marker-found String.[] name e = cc
before_marker-found (String.◌∷◌ c s) name e =
    elim (marker_cases (at_marker c s) c (before_marker s) name e) [
      | inl (found, empty) ↦
          let (rest, parts) = with_prefix "/-/" (String.◌∷◌ c s) found in
          rw empty ((rest, parts ∙ sym (nil-append (String.◌++◌ "/-/" rest))), refl)
      | inr (later, (n, found, same)) ↦
          let ((rest, parts), first) = before_marker-found s n found in
          (
            (
              rest,
              ap (String.◌∷◌ c) parts
                  ∙ sym (cons-append c n (String.◌++◌ "/-/" rest))
                  ∙ ap (λ t. String.◌++◌ t (String.◌++◌ "/-/" rest)) (sym same),
            ),
            ap (λ t. before_marker (String.◌++◌ t "/-")) same
                ∙ ap before_marker (cons-append c n "/-")
                ∙ ap (λ b. if b then some "" else put_before c (before_marker (String.◌++◌ n "/-")))
                    (sym (marker_at c n rest) ∙ ap (at_marker c) (sym parts) ∙ later)
                ∙ ap (put_before c) first,
          )
    ]

found-before_marker :
    (name rest : String)
    → before_marker (String.◌++◌ name "/-") ≡ none
    → before_marker (String.◌++◌ name (String.◌++◌ "/-/" rest)) ≡ some name
found-before_marker String.[] rest first =
    here (String.◌++◌ "" (String.◌++◌ "/-/" rest))
      (rw (nil-append (String.◌++◌ "/-/" rest)) (is_prefix_self "/-/" rest))
found-before_marker (String.◌∷◌ c n) rest first =
    let (unmarked, later) =
      no_marker_cases (at_marker c (String.◌++◌ n "/-")) c (before_marker (String.◌++◌ n "/-"))
        (sym (ap before_marker (cons-append c n "/-")) ∙ first) in
    ap before_marker (cons-append c n (String.◌++◌ "/-/" rest))
    ∙ ap
        (λ b.
          if b
          then some ""
          else put_before c (before_marker (String.◌++◌ n (String.◌++◌ "/-/" rest))))
        (marker_at c n rest ∙ unmarked)
    ∙ ap (put_before c) (found-before_marker n rest later)

name_found :
    (o : Option String) (name : String)
    → name ≢ ""
    → value (or_empty_text o) ≡ value name
    → o ≡ some name
name_found none name named e = absurd (named (sym (eq_of_value e)))
  where
    eq_of_value : {a b : String} → value a ≡ value b → a ≡ b
    eq_of_value e = cc
name_found (some n) name named e = cc

-- Where the URL has a path: a name that is no empty text is found as its project just where the path
-- is a first character, the name, the first marker "/-/" in it and a rest.
pub extract_project_path_iff :
    (lib : Formats) (url : String) (c : Char) (path name : String)
    → lib.url_path url ≡ some (String.◌∷◌ c path)
    → name ≢ ""
    → (extract_project_path lib url ≡ value name) ↔ (
        ((rest : String) × (path ≡ String.◌++◌ name (String.◌++◌ "/-/" rest)))
        × (before_marker (String.◌++◌ name "/-") ≡ none))
unfolding extract_project_path
extract_project_path_iff lib url c path name located named = rw located (
  λ e. before_marker-found path name (name_found (before_marker path) name named e),
  λ h.
      ap (λ o. value (or_empty_text o))
        (ap before_marker h.0.1 ∙ found-before_marker name h.0.0 h.1),
)
