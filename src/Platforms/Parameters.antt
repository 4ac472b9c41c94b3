-- ===== src/Platforms/Parameters.antt =====
-- The parameters of the URL that `nextPageURL` of gitlab/client.go makes.
use contribution_tracker.Prelude.{
  ℕ, String, ◌≡◌, refl, ap, ◌∙◌, ◌||◌, Bool, true, false, Option, some, none, List, [], ◌∷◌, ◌++◌,
  All, any, map, ◌==◌, eqb, if◌then◌else◌, arith,
}
use Prim.Native.Char.{Char, code}
use Prim.Native.String
use text.Mathlib.TextLemmas.{nil-append, cons-append, append_assoc}
use contribution_tracker.Platforms.GitLab.Pages.{
  put_first, split_once, put_in_first, split_params, join_params, is_page, page_param, replace_page,
  with_page, next_page_url,
}

-- A text without "&".
abbrev pub IsParam : String → Type 0
IsParam p = split_params p ≡ p ∷ []

split_params-cons : (s : String) → (p : String) × ((ps : List String) × (split_params s ≡ p ∷ ps))
split_params-cons String.[] = ("", ([], refl))
split_params-cons (String.◌∷◌ c s) = by_char (eqb (code c) b'&') (split_params-cons s)
  where
    by_char :
        (b : Bool)
        → ((p : String) × ((ps : List String) × (split_params s ≡ p ∷ ps)))
        → (p : String) × ((ps : List String) × ((if b
                then "" ∷ split_params s
                else put_in_first c (split_params s))
              ≡ p ∷ ps))
    by_char true later = ("", (split_params s, refl))
    by_char false (p, (ps, e)) = (String.◌∷◌ c p, (ps, ap (put_in_first c) e))

put_in_first-append :
    (c : Char) (s : String) (qs : List String)
    → put_in_first c (split_params s ++ qs) ≡ put_in_first c (split_params s) ++ qs
put_in_first-append c s qs = let (p, (ps, e)) = split_params-cons s in rw e refl

split_params-append :
    (s t : String)
    → split_params (String.◌++◌ s (String.◌++◌ "&" t)) ≡ split_params s ++ split_params t
split_params-append String.[] t =
    ap split_params
      (nil-append (String.◌++◌ "&" t) ∙ cons-append "&" "" t ∙ ap (String.◌∷◌ "&") (nil-append t))
split_params-append (String.◌∷◌ c s) t =
    ap split_params (cons-append c s (String.◌++◌ "&" t))
    ∙ by_char (eqb (code c) b'&') (split_params-append s t)
  where
    by_char :
        (b : Bool)
        → split_params (String.◌++◌ s (String.◌++◌ "&" t)) ≡ split_params s ++ split_params t
        → (if b
            then "" ∷ split_params (String.◌++◌ s (String.◌++◌ "&" t))
            else put_in_first c (split_params (String.◌++◌ s (String.◌++◌ "&" t))))
          ≡ (if b then "" ∷ split_params s else put_in_first c (split_params s)) ++ split_params t
    by_char true e = ap (λ ps. "" ∷ ps) e
    by_char false e = ap (put_in_first c) e ∙ put_in_first-append c s (split_params t)

split_params-join :
    (p : String) (ps : List String)
    → All IsParam (p ∷ ps)
    → split_params (join_params (p ∷ ps)) ≡ p ∷ ps
split_params-join p [] h = h.0
split_params-join p (q ∷ ps) h =
    split_params-append p (join_params (q ∷ ps)) ∙ rw (h.0, split_params-join q ps h.1) refl

split_params-IsParam : (s : String) → All IsParam (split_params s)
split_params-IsParam String.[] = (refl, tt)
split_params-IsParam (String.◌∷◌ c s) =
    by_char (eqb (code c) b'&') refl (split_params s) (split_params-IsParam s)
  where
    by_char :
        (b : Bool)
        → eqb (code c) b'&' ≡ b
        → (ps : List String) → All IsParam ps
        → All IsParam (if b then "" ∷ ps else put_in_first c ps)
    by_char true e ps h = (refl, h)
    by_char false e [] h = (rw e refl, tt)
    by_char false e (p ∷ ps) h = (rw (e, h.0) refl, h.1)

split_once-found :
    (c : Char) (path query : String)
    → split_once (code c) path ≡ none
    → split_once (code c) (String.◌++◌ path (String.◌∷◌ c query)) ≡ some (path, query)
split_once-found c String.[] query e = rw (nil-append (String.◌∷◌ c query)) (same (code c))
  where
    same :
        (n : ℕ)
        → (if eqb n n then some ("", query) else put_first c (split_once (code c) query))
          ≡ some ("", query)
    same n = ground arith
split_once-found c (String.◌∷◌ d path) query e =
    ap (split_once (code c)) (cons-append d path (String.◌∷◌ c query))
    ∙ by_char (eqb (code d) (code c)) (split_once (code c) path) refl e
        (split_once-found c path query)
  where
    by_char :
        (b : Bool) (o : Option (String × String))
        → split_once (code c) path ≡ o
        → (if b then some ("", path) else put_first d o) ≡ none
        → (split_once (code c) path ≡ none
            → split_once (code c) (String.◌++◌ path (String.◌∷◌ c query)) ≡ some (path, query))
        → (if b
            then some ("", String.◌++◌ path (String.◌∷◌ c query))
            else put_first d (split_once (code c) (String.◌++◌ path (String.◌∷◌ c query))))
          ≡ some (String.◌∷◌ d path, query)
    by_char true o before e later = cc
    by_char false (some _) before e later = cc
    by_char false none before e later = ap (put_first d) (later before)

replaced-IsParam :
    (next : String) (ps : List String)
    → IsParam (page_param next)
    → All IsParam ps
    → All IsParam (map (replace_page next) ps)
replaced-IsParam next [] one h = tt
replaced-IsParam next (p ∷ ps) one (h, hs) = (by_page (is_page p), replaced-IsParam next ps one hs)
  where
    by_page : (b : Bool) → IsParam (if b then page_param next else p)
    by_page true = one
    by_page false = h

split-join_replaced :
    (next : String) (ps : List String)
    → All IsParam (map (replace_page next) ps)
    → any is_page ps ≡ true
    → split_params (join_params (map (replace_page next) ps)) ≡ map (replace_page next) ps
split-join_replaced next [] h found = cc
split-join_replaced next (p ∷ ps) h found =
    split_params-join (replace_page next p) (map (replace_page next) ps) h

-- The parameters with the next page's number.
abbrev pub params_for : String → List String → List String
params_for next ps =
    if any is_page ps then map (replace_page next) ps else ps ++ page_param next ∷ []

-- Where the path has no "?" and the next page's name is not empty, not "0" and has no "&": the next
-- page's URL is the path, "?" and parameters, which are those of the URL before with the name in the
-- place of each page, or added at the end where there was none.
pub next_page_url-params :
    (path query next : String)
    → split_once b'?' path ≡ none
    → (next == "" || next == "0") ≡ false
    → split_params (page_param next) ≡ page_param next ∷ []
    → (query' : String) × (next_page_url (String.◌++◌ path (String.◌++◌ "?" query)) next
        ≡ String.◌++◌ path (String.◌++◌ "?" query'))
      × (split_params query' ≡ params_for next (split_params query))
unfolding next_page_url
next_page_url-params path query next plain named one =
    by_page (any is_page (split_params query)) refl
  where
    raw : String
    raw = String.◌++◌ path (String.◌++◌ "?" query)

    parts : split_once b'?' raw ≡ some (path, query)
    parts =
        ap (λ t. split_once b'?' (String.◌++◌ path t))
          (cons-append "?" "" query ∙ ap (String.◌∷◌ "?") (nil-append query))
        ∙ split_once-found "?" path query plain

    added :
        String.◌++◌ raw (String.◌++◌ "&page=" next)
        ≡ String.◌++◌ path (String.◌++◌ "?" (String.◌++◌ query (String.◌++◌ "&" (page_param next))))
    added =
        append_assoc path (String.◌++◌ "?" query) (String.◌++◌ "&page=" next)
        ∙ ap (String.◌++◌ path) (
            append_assoc "?" query (String.◌++◌ "&page=" next)
            ∙ ap (λ t. String.◌++◌ "?" (String.◌++◌ query t)) (append_assoc "&" "page=" next))

    by_page :
        (b : Bool)
        → any is_page (split_params query) ≡ b
        → (query' : String) × ((if next == "" || next == "0"
              then ""
              else with_page raw next (split_once b'?' raw))
            ≡ String.◌++◌ path (String.◌++◌ "?" query'))
          × (split_params query' ≡ (
              if b
              then map (replace_page next) (split_params query)
              else split_params query ++ page_param next ∷ []))
    by_page true found = (
      join_params (map (replace_page next) (split_params query)),
      rw (named, parts, found) refl,
      split-join_replaced next (split_params query)
          (replaced-IsParam next (split_params query) one (split_params-IsParam query)) found,
    )
    by_page false found = (
      String.◌++◌ query (String.◌++◌ "&" (page_param next)),
      rw (named, parts, found) added,
      split_params-append query (page_param next) ∙ ap (λ ps. split_params query ++ ps) one,
    )
