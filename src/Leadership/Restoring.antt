-- ===== src/Leadership/Restoring.antt =====
-- What restoring a backup does to leaders and members.
use contribution_tracker.Prelude.{
  String, ◌≡◌, refl, sym, ap, ◌∙◌, Bool, true, false, ◌||◌, ◌&&◌, ◌==◌, List, [], ◌∷◌, ◌++◌, inl,
  inr, All, contains, map, arith, Bool-cases, eq_iff,
}
use mathlib.Core.Path.{subst}
use mathlib.Core.List.{flatten}
use contribution_tracker.Domain.{BackupFile, Team}
use contribution_tracker.Database.Schema.{Link, has_link}
use contribution_tracker.Database.Keeps.{Keeps}
use contribution_tracker.Database.Backups.{Base64, restore}
use contribution_tracker.Database.Restoring.{links_of}
use contribution_tracker.Database.Restored.{restore-cases}
use contribution_tracker.Leadership.Invariant.{LeadersAreMembers}

-- Every leader of a team of the file is a member of it.
abbrev pub IsCoherent : BackupFile → Type 0
IsCoherent f = All (λ t. All (λ id. contains id t.member_ids ≡ true) t.leader_ids) f.teams

has_link-both :
    (t u : String) (xs ys : List Link)
    → has_link t u (xs ++ ys) ≡ (has_link t u xs || has_link t u ys)
has_link-both t u [] ys = refl
has_link-both t u ((a, b) ∷ xs) ys = ground (arith, has_link-both t u xs ys)

has_link-team :
    (t u team : String) (ids : List String)
    → has_link t u (map (λ id. (team, id)) ids) ≡ ((team == t) && contains u ids)
has_link-team t u team [] = ground arith
has_link-team t u team (id ∷ ids) = ground (arith, has_link-team t u team ids)

has_link-links :
    (t u : String) (ids : Team → List String) (x : Team) (xs : List Team)
    → has_link t u (links_of ids (x ∷ xs))
      ≡ (((x.id == t) && contains u (ids x)) || has_link t u (links_of ids xs))
unfolding flatten
has_link-links t u ids x xs =
    has_link-both t u (map (λ id. (x.id, id)) (ids x)) (links_of ids xs)
    ∙ ap (λ b. b || has_link t u (links_of ids xs)) (has_link-team t u x.id (ids x))

led_member :
    (u : String) (leaders members : List String)
    → All (λ id. contains id members ≡ true) leaders
    → contains u leaders ≡ true
    → contains u members ≡ true
led_member u [] members h e = cc
led_member u (l ∷ ls) members h e = elim (Bool-cases (l == u)) [
  | inl same ↦ subst (λ i. contains i members ≡ true) ((eq_iff l u).0 same) h.0
  | inr other ↦ led_member u ls members h.1 (ground (arith, other, e))
]

links-members :
    (t u : String) (ts : List Team)
    → All (λ x. All (λ id. contains id x.member_ids ≡ true) x.leader_ids) ts
    → has_link t u (links_of (λ x. x.leader_ids) ts) ≡ true
    → has_link t u (links_of (λ x. x.member_ids) ts) ≡ true
unfolding flatten
links-members t u [] h e = cc
links-members t u (x ∷ xs) h e =
    has_link-links t u (λ x. x.member_ids) x xs
    ∙ either (x.id == t) (contains u x.leader_ids) (has_link t u (links_of (λ x. x.leader_ids) xs))
        (contains u x.member_ids) (has_link t u (links_of (λ x. x.member_ids) xs))
        (led_member u x.leader_ids x.member_ids h.0) (links-members t u xs h.1)
        (sym (has_link-links t u (λ x. x.leader_ids) x xs) ∙ e)
  where
    either :
        (at_team led later member more : Bool)
        → (led ≡ true → member ≡ true)
        → (later ≡ true → more ≡ true)
        → ((at_team && led) || later) ≡ true
        → ((at_team && member) || more) ≡ true
    either true true later member more h k e = rw (h refl) refl
    either true false later member more h k e = ground (arith, k e)
    either false led later member more h k e = k e

-- A file that is coherent keeps leaders among members, restored or not.
pub restore-Keeps_leaders :
    (b : Base64) (visit : List (String × String) → List (String × String)) (f : BackupFile)
    → IsCoherent f
    → Keeps LeadersAreMembers (restore b visit f)
restore-Keeps_leaders b visit f coherent = record {
  at = λ w h. elim (restore-cases b visit f w) [
    | inl (_, _, same) ↦ subst LeadersAreMembers (sym same) h
    | inr (_, same) ↦
        subst LeadersAreMembers (sym same) (λ t u lead. links-members t u f.teams coherent lead)
  ];
}
