-- ===== src/Platforms/GitHub/Links.antt =====
-- `parseNextLink` of github/client.go: the leftmost match of its pattern, `<([^>]+)>;\s*rel="next"`.
use contribution_tracker.Prelude.{
  String, ◌≡◌, refl, Bool, false, ◌||◌, ◌&&◌, not, Option, some, none, ◌==◌, eqb, if◌then◌else◌,
  is_prefix, strip_prefix,
}
use Prim.Native.Char.{Char, code}

-- `\s`
abbrev pub is_space : Char → Bool
is_space c =
    eqb (code c) 32 || (eqb (code c) 9 || (eqb (code c) 10 || (eqb (code c) 12 || eqb (code c) 13)))

abbrev pub skip_spaces : String → String
skip_spaces String.[] = String.[]
skip_spaces (String.◌∷◌ c s) =
    let rest = skip_spaces s in if is_space c then rest else String.◌∷◌ c s

abbrev pub is_opening : Char → Bool
is_opening c = eqb (code c) b'<'

abbrev pub is_closing : Char → Bool
is_closing c = eqb (code c) b'>'

abbrev pub put_first : Char → Option (String × String) → Option (String × String)
put_first c none = none
put_first c (some (run, rest)) = some (String.◌∷◌ c run, rest)

-- `[^>]*>`: the run can only end at the first closing bracket.
abbrev pub read_run : String → Option (String × String)
read_run String.[] = none
read_run (String.◌∷◌ c s) =
    let later = read_run s in if is_closing c then some (String.[], s) else put_first c later

-- `;\s*rel="next"`
abbrev pub is_next_relation : Option String → Bool
is_next_relation none = false
is_next_relation (some s) = is_prefix "rel=\"next\"" (skip_spaces s)

abbrev pub checked_run : Option (String × String) → Option String
checked_run none = none
checked_run (some (run, rest)) =
    if not (run == "") && is_next_relation (strip_prefix ";" rest) then some run else none

abbrev pub or_later : Option String → String → String
or_later none later = later
or_later (some url) later = url

abbrev pub find_link : String → String
find_link String.[] = ""
find_link (String.◌∷◌ c s) =
    let later = find_link s in
    if is_opening c then or_later (checked_run (read_run s)) later else later

unfoldable pub parse_next_link : String → String
parse_next_link header = if header == "" then "" else find_link header

parsed_github :
    parse_next_link
      "<https://h/a?page=1>; rel=\"prev\", <https://h/a?page=3>; rel=\"next\", <https://h/a?page=9>; rel=\"last\""
    ≡ "https://h/a?page=3"
unfolding parse_next_link
parsed_github = refl
