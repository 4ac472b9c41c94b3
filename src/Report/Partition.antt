-- ===== src/Report/Partition.antt =====
-- The groups that `GenerateReport` of report_service.go makes of a team's repositories.
use contribution_tracker.Prelude.{
  String, ◌≡◌, refl, sym, ap, ◌∙◌, Bool, true, false, some, List, [], ◌∷◌, ◌++◌, All, All-keep,
  append_assoc, append_nil, not, ◌&&◌, ◌==◌, if◌then◌else◌, eq_iff, arith, contains_text, keep, map,
  lookup, insert,
}
use Prim.Native.String
use contribution_tracker.Domain.{GitPlatform, Repository}
use contribution_tracker.Report.Groups.{FetcherGroup, group_key, first_of, joined, group_map}
use contribution_tracker.Report.Keys.{joined_inj}

-- The groups of a platform with a token.
abbrev pub is_group : GitPlatform → String → FetcherGroup → Bool
is_group p token g = (g.platform.name == p.name) && (g.token == token)

-- The repositories of a platform with a token, which is not empty.
abbrev pub is_for : GitPlatform → String → Repository → Bool
is_for p token r =
    not (r.api_token == "") && ((r.platform.name == p.name) && (r.api_token == token))

-- One group with all of them, or none where there are none.
abbrev pub one_group : GitPlatform → String → List Repository → List FetcherGroup
one_group p token [] = []
one_group p token (r ∷ rs) = record { platform = p; token = token; repos = r ∷ rs } ∷ []

abbrev pub groups : List (String × FetcherGroup) → List FetcherGroup
groups m = map (λ e. e.1) m

abbrev IsNamed : GitPlatform → Type 0
IsNamed p = contains_text "\0" p.name ≡ false

-- Each group stands at its own key.
abbrev IsKeyed : String × FetcherGroup → Type 0
IsKeyed e =
    (e.0 ≡ String.◌++◌ e.1.platform.name (String.◌++◌ "\0" e.1.token)) × IsNamed e.1.platform

-- A repository more: in the first of the groups, or in a new one.
abbrev added : List FetcherGroup → Repository → List FetcherGroup
added [] r = first_of r ∷ []
added (g ∷ gs) r = record g { repos = g.repos ++ r ∷ [] } ∷ gs

abbrev added_all : List FetcherGroup → List Repository → List FetcherGroup
added_all gs [] = gs
added_all gs (r ∷ rs) = added_all (added gs r) rs

abbrev put : Repository → List (String × FetcherGroup) → List (String × FetcherGroup)
put r m = insert (group_key r) (joined r (lookup (group_key r) m)) m

put-IsKeyed :
    (r : Repository) (m : List (String × FetcherGroup))
    → IsNamed r.platform
    → All IsKeyed m
    → All IsKeyed (put r m)
unfolding group_key
put-IsKeyed r [] named h = ((refl, named), tt)
put-IsKeyed r ((j, g) ∷ m) named ((at_key, h), hs) =
    by_key (j == group_key r) refl (put-IsKeyed r m named hs)
  where
    by_key :
        (b : Bool)
        → (j == group_key r) ≡ b
        → All IsKeyed (put r m)
        → All IsKeyed (
            if b
            then (group_key r, joined r (if b then some g else lookup (group_key r) m)) ∷ m
            else (j, g)
              ∷ insert (group_key r) (joined r (if b then some g else lookup (group_key r) m)) m)
    by_key true e later = ((sym ((eq_iff j (group_key r)).0 e) ∙ at_key, h), hs)
    by_key false e later = ((at_key, h), later)

and_parts : (a b : Bool) → (a && b) ≡ true → (a ≡ true) × (b ≡ true)
and_parts a b e = ground arith

module _ (p : GitPlatform) (token : String) where
  abbrev chosen : List (String × FetcherGroup) → List FetcherGroup
  chosen m = keep (is_group p token) (groups m)

  -- A group and a repository with the same key are both for the platform and the token, or neither is.
  same_group :
      (j : String) (g : FetcherGroup) (r : Repository)
      → IsKeyed (j, g)
      → IsNamed r.platform
      → (j == group_key r) ≡ true
      → is_group p token g ≡ is_group p token (first_of r)
  unfolding group_key
  same_group j g r (at_key, free) named e =
      let (names, tokens) =
        joined_inj g.platform.name r.platform.name g.token r.api_token free named
          (sym at_key ∙ (eq_iff j (group_key r)).0 e) in
      rw (names, tokens) refl

  other_group :
      (j : String) (g : FetcherGroup) (r : Repository)
      → IsKeyed (j, g)
      → (j == group_key r) ≡ false
      → is_group p token g ≡ true
      → is_group p token (first_of r) ≡ true
      → ⊥
  unfolding group_key
  other_group j g r (at_key, free) e here there =
      both_parts (and_parts _ _ here) (and_parts _ _ there)
    where
      both_parts :
          ((g.platform.name == p.name) ≡ true) × ((g.token == token) ≡ true)
          → ((r.platform.name == p.name) ≡ true) × ((r.api_token == token) ≡ true)
          → ⊥
      both_parts (name, key) (name', key') =
          let names : g.platform.name ≡ r.platform.name =
            (eq_iff g.platform.name p.name).0 name
            ∙ sym ((eq_iff r.platform.name p.name).0 name') in
          let tokens : g.token ≡ r.api_token =
            (eq_iff g.token token).0 key ∙ sym ((eq_iff r.api_token token).0 key') in
          let same : (j == String.◌++◌ r.platform.name (String.◌++◌ "\0" r.api_token)) ≡ true =
            (eq_iff j (String.◌++◌ r.platform.name (String.◌++◌ "\0" r.api_token))).1
              (at_key ∙ rw (names, tokens) refl) in
          cc (same, e)

  put-chosen :
      (r : Repository) (m : List (String × FetcherGroup))
      → IsNamed r.platform
      → All IsKeyed m
      → chosen (put r m) ≡ (if is_group p token (first_of r) then added (chosen m) r else chosen m)
  put-chosen r [] named h = new (is_group p token (first_of r))
    where
      new : (b : Bool) → (if b then first_of r ∷ [] else []) ≡ (if b then first_of r ∷ [] else [])
      new b = refl
  put-chosen r ((j, g) ∷ m) named (h, hs) = by_key (j == group_key r) refl (put-chosen r m named hs)
    where
      found :
          (a b : Bool)
          → a ≡ b
          → (if a then record g { repos = g.repos ++ r ∷ [] } ∷ chosen m else chosen m) ≡ (
              if b
              then added (if a then g ∷ chosen m else chosen m) r
              else (if a then g ∷ chosen m else chosen m))
      found true true e = refl
      found true false e = cc
      found false true e = cc
      found false false e = refl

      passed :
          (a b : Bool)
          → (a ≡ true → b ≡ true → ⊥)
          → chosen (put r m) ≡ (if b then added (chosen m) r else chosen m)
          → (if a then g ∷ chosen (put r m) else chosen (put r m)) ≡ (
              if b
              then added (if a then g ∷ chosen m else chosen m) r
              else (if a then g ∷ chosen m else chosen m))
      passed true true apart e = absurd (apart refl refl)
      passed true false apart e = ap (λ l. g ∷ l) e
      passed false true apart e = e
      passed false false apart e = e

      by_key :
          (b : Bool)
          → (j == group_key r) ≡ b
          → chosen (put r m)
            ≡ (if is_group p token (first_of r) then added (chosen m) r else chosen m)
          → chosen (
              if b
              then (group_key r, joined r (if b then some g else lookup (group_key r) m)) ∷ m
              else (j, g)
                ∷ insert (group_key r) (joined r (if b then some g else lookup (group_key r) m)) m)
            ≡ (if is_group p token (first_of r)
                then added (chosen ((j, g) ∷ m)) r
                else chosen ((j, g) ∷ m))
      by_key true e later = found _ _ (same_group j g r h named e)
      by_key false e later = passed _ _ (other_group j g r h e) later

  group_map-chosen :
      (m : List (String × FetcherGroup)) (rs : List Repository)
      → All (λ r. IsNamed r.platform) rs
      → All IsKeyed m
      → chosen (group_map m rs) ≡ added_all (chosen m) (keep (is_for p token) rs)
  unfolding group_map
  group_map-chosen m [] named h = refl
  group_map-chosen m (r ∷ rs) (named, more) h =
      by_token (r.api_token == "") (λ m' h'. group_map-chosen m' rs more h')
    where
      kept :
          (b : Bool)
          → added_all (if b then added (chosen m) r else chosen m) (keep (is_for p token) rs)
            ≡ added_all
                (chosen m)
                (if b then r ∷ keep (is_for p token) rs else keep (is_for p token) rs)
      kept true = refl
      kept false = refl

      by_token :
          (b : Bool)
          → ((m' : List (String × FetcherGroup))
              → All IsKeyed m'
              → chosen (group_map m' rs) ≡ added_all (chosen m') (keep (is_for p token) rs))
          → chosen (group_map (if b then m else put r m) rs)
            ≡ added_all (chosen m) (
                if not b && is_group p token (first_of r)
                then r ∷ keep (is_for p token) rs
                else keep (is_for p token) rs)
      by_token true later = later m h
      by_token false later =
          later (put r m) (put-IsKeyed r m named h)
          ∙ ap (λ gs. added_all gs (keep (is_for p token) rs)) (put-chosen r m named h)
          ∙ kept (is_group p token (first_of r))

  added_all-first :
      (g : FetcherGroup) (rs : List Repository)
      → added_all (g ∷ []) rs ≡ record g { repos = g.repos ++ rs } ∷ []
  added_all-first g [] = ap (λ l. record g { repos = l } ∷ []) (sym (append_nil g.repos))
  added_all-first g (r ∷ rs) =
      added_all-first (record g { repos = g.repos ++ r ∷ [] }) rs
      ∙ ap (λ l. record g { repos = l } ∷ []) (append_assoc g.repos (r ∷ []) rs)

  added_all-one :
      (rs : List Repository)
      → All (λ r. is_for p token r ≡ true) rs
      → added_all [] rs ≡ one_group p token rs
  added_all-one [] h = refl
  added_all-one (r ∷ rs) (h, hs) =
      added_all-first (first_of r) rs ∙ with_fields (and_parts _ _ (and_parts _ _ h).1)
    where
      with_fields :
          ((r.platform.name == p.name) ≡ true) × ((r.api_token == token) ≡ true)
          → (record { platform = r.platform; token = r.api_token; repos = r ∷ rs } ∷ [])
            ≡ one_group p token (r ∷ rs)
      with_fields (name, key) =
          ap
            (λ n.
              record { platform = record { name = n }; token = r.api_token; repos = r ∷ rs } ∷ [])
            ((eq_iff r.platform.name p.name).0 name)
          ∙ ap (λ t. record { platform = p; token = t; repos = r ∷ rs } ∷ [])
              ((eq_iff r.api_token token).0 key)

-- Where no platform's name has a NUL: for each platform and token there is one group, with that
-- platform, that token and, in the list's order, all the repositories of the platform with the token;
-- and there is none where no repository has them, or where the token is empty.
pub group_map-one_group :
    (p : GitPlatform) (token : String) (rs : List Repository)
    → All (λ r. contains_text "\0" r.platform.name ≡ false) rs
    → keep (is_group p token) (groups (group_map [] rs))
      ≡ one_group p token (keep (is_for p token) rs)
group_map-one_group p token rs named =
    group_map-chosen p token [] rs named tt
    ∙ added_all-one p token (keep (is_for p token) rs)
        (All-keep (λ r. is_for p token r ≡ true) (is_for p token) rs (λ r e. e))
