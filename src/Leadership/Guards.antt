-- ===== src/Leadership/Guards.antt =====
-- `RemoveLeader` of pgx_team_repo.go leaves a leader to every team.
use contribution_tracker.Prelude.{
  String, ◌≡◌, refl, ◌+◌, ◌≤◌, Bool, true, false, some, List, [], ◌∷◌, not, ◌==◌, eq_iff, arith,
  leb, length, keep, count, if◌then◌else◌,
}
use contribution_tracker.Database.Schema.{Db, Link, is_link, linked}
use contribution_tracker.Database.Session.{World, wrap, exec, fail}
use contribution_tracker.Database.Keeps.{Keeps-fail, Keeps-bind_query, exec_at}
use contribution_tracker.Database.Teams

-- The primary key of `team_leaders`.
abbrev pub IsKey : List Link → Type 0
IsKey ls = (t u : String) → count (is_link t u) ls ≤ 1

-- The primary key holds, and the team has a leader.
abbrev pub IsLed : String → Db → Type 0
IsLed t d = IsKey d.team_leaders × (1 ≤ length (linked t d.team_leaders))

count-keep : (p q : Link → Bool) (ls : List Link) → count p (keep q ls) ≤ count p ls
count-keep p q [] = omega arith
count-keep p q (l ∷ ls) = ground (arith, count-keep p q ls)

linked-delete :
    (t team user : String) (ls : List Link)
    → length (linked t (keep (λ l. not (is_link team user l)) ls))
        + (if team == t then count (is_link team user) ls else 0)
      ≡ length (linked t ls)
linked-delete t team user [] = ground arith
linked-delete t team user ((a, b) ∷ ls) =
    ground (arith, linked-delete t team user ls, eq_iff a team, eq_iff a t, eq_iff team t)

delete_leader-IsLed :
    (t team user : String) (d d' : Db)
    → IsLed t d
    → leb (length (linked team d.team_leaders)) 1 ≡ false
    → Teams.delete_leader team user d ≡ some d'
    → IsLed t d'
delete_leader-IsLed t team user d d' (key, led) many e = (
  λ a b.
      ground
        (arith, key a b, count-keep (is_link a b) (λ l. not (is_link team user l)) d.team_leaders),
  ground (arith, key team user, linked-delete t team user d.team_leaders, eq_iff team t),
)

remove_if-keeps :
    (t : String) (b : Bool) (team user : String) (w : World)
    → leb (length (linked team w.db.team_leaders)) 1 ≡ b
    → IsLed t w.db
    → IsLed t
        ((if b
            then fail Teams.last_leader_stays
            else wrap "remove leader from team: " (exec (Teams.delete_leader team user)))
          w).1.db
unfolding wrap
remove_if-keeps t true team user w e h = (Keeps-fail (IsLed t) _).at w h
remove_if-keeps t false team user w e h =
    exec_at (IsLed t) _ w h (λ d change. delete_leader-IsLed t team user w.db d h e change)

-- Where the primary key of the leaders' table holds, a team that has a leader has one after
-- `RemoveLeader`, for whichever team and user it is called and whatever fails, and the key still holds.
pub remove_leader-IsLed :
    (t team user : String) (w : World)
    → IsLed t w.db
    → IsLed t (Teams.remove_leader team user w).1.db
unfolding Teams.remove_leader
remove_leader-IsLed t team user w h =
    (Keeps-bind_query (IsLed t) _ _ _ (λ w h. remove_if-keeps t _ team user w refl h)).at w h
