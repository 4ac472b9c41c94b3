-- ===== src/Platforms/GitLab/Pages.antt =====
-- `nextPageURL` of gitlab/client.go: the parameter "page" of a URL is replaced or added.
use contribution_tracker.Prelude.{
  ℕ, String, ◌≡◌, refl, Bool, ◌||◌, Option, some, none, List, [], ◌∷◌, ◌==◌, eqb, any, map,
  if◌then◌else◌, is_prefix,
}
use Prim.Native.Char.{Char, code}
use Prim.Native.String

-- The text before the first character with the code, and what follows it: `strings.SplitN(s, c, 2)`.
abbrev pub put_first : Char → Option (String × String) → Option (String × String)
put_first c none = none
put_first c (some (first, rest)) = some (String.◌∷◌ c first, rest)

abbrev pub split_once : ℕ → String → Option (String × String)
split_once mark String.[] = none
split_once mark (String.◌∷◌ c s) =
    let later = split_once mark s in
    if eqb (code c) mark then some (String.[], s) else put_first c later

abbrev pub put_in_first : Char → List String → List String
put_in_first c [] = String.◌∷◌ c String.[] ∷ []
put_in_first c (p ∷ ps) = String.◌∷◌ c p ∷ ps

-- `strings.Split(s, "&")`
abbrev pub split_params : String → List String
split_params String.[] = String.[] ∷ []
split_params (String.◌∷◌ c s) =
    let later = split_params s in
    if eqb (code c) b'&' then String.[] ∷ later else put_in_first c later

-- `strings.Join(params, "&")`
abbrev pub join_params : List String → String
join_params [] = ""
join_params (p ∷ []) = p
join_params (p ∷ q ∷ ps) = String.◌++◌ p (String.◌++◌ "&" (join_params (q ∷ ps)))

abbrev pub is_page : String → Bool
is_page p = (p == "page") || is_prefix "page=" p

abbrev pub page_param : String → String
page_param next = String.◌++◌ "page=" next

abbrev pub replace_page : String → String → String
replace_page next p = if is_page p then page_param next else p

abbrev pub with_page : String → String → Option (String × String) → String
with_page raw next none = String.◌++◌ raw (String.◌++◌ "?page=" next)
with_page raw next (some (path, query)) =
    if any is_page (split_params query)
    then String.◌++◌ path
        (String.◌++◌ "?" (join_params (map (replace_page next) (split_params query))))
    else String.◌++◌ raw (String.◌++◌ "&page=" next)

unfoldable pub next_page_url : String → String → String
next_page_url raw next =
    if next == "" || next == "0" then "" else with_page raw next (split_once b'?' raw)

replaced : next_page_url "https://g/api?a=1&page=2&b=3" "4" ≡ "https://g/api?a=1&page=4&b=3"
unfolding next_page_url
replaced = refl

added : next_page_url "https://g/api?per_page=100" "2" ≡ "https://g/api?per_page=100&page=2"
unfolding next_page_url
added = refl
