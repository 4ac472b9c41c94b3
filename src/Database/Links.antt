-- ===== src/Database/Links.antt =====
-- The link tables under insertions and deletions.
use contribution_tracker.Prelude.{
  String, ◌≡◌, refl, Bool, ◌&&◌, ◌||◌, List, [], ◌∷◌, ◌++◌, arith, eq_iff, keep, contains, ◌==◌,
}
use contribution_tracker.Database.Schema.{Link, has_link, linked}

pub has_link-append :
    (t u a b : String) (ls : List Link)
    → has_link t u (ls ++ (a, b) ∷ []) ≡ (has_link t u ls || ((a == t) && (b == u)))
has_link-append t u a b [] = ground arith
has_link-append t u a b (l ∷ ls) = ground (arith, has_link-append t u a b ls)

-- What a deletion leaves depends on the row itself alone.
pub has_link-keep :
    (t u : String) (p : Link → Bool) (ls : List Link)
    → has_link t u (keep p ls) ≡ (has_link t u ls && p (t, u))
has_link-keep t u p [] = refl
has_link-keep t u p ((a, b) ∷ ls) = ground (arith, has_link-keep t u p ls, eq_iff a t, eq_iff b u)

-- The identifiers that a query loads are those of the rows.
pub contains-linked : (t u : String) (ls : List Link) → contains u (linked t ls) ≡ has_link t u ls
contains-linked t u [] = refl
contains-linked t u ((a, b) ∷ ls) = ground (arith, contains-linked t u ls)
