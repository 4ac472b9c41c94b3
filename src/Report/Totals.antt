-- ===== src/Report/Totals.antt =====
-- The counts of a report against the lists that its goroutines append: `fetchMemberReport` and
-- `buildActivityCounts` of report_service.go.
use contribution_tracker.Prelude.{
  ℕ, ◌≡◌, refl, sym, ap, ◌∙◌, ◌+◌, ◌≤◌, Bool, true, false, List, [], ◌∷◌, ◌++◌, ◌&&◌, if◌then◌else◌,
  eq_iff, arith, All, count, count-append, leb,
}
use mathlib.Core.List.{Permᴰ}
use contribution_tracker.Domain.{Activity, ActivityType, User, get_type}
use contribution_tracker.Database.Session.{World}
use contribution_tracker.Report.{Order, ReportQuery, Thread, start_groups, fetch_member_report}
use contribution_tracker.Report.Counts.{
  ActivityCount, same_type, increment, count_map, build_activity_counts,
}
use contribution_tracker.Report.Fetching.{Registry}
use contribution_tracker.Report.Groups.{FetcherGroup}

-- Goroutines that append under a mutex: at each step one of them appends its next list, whole.
pub data Interleaves : List Thread → List Activity → Type 0 where
  finished : (threads : List Thread) → All (λ t. t ≡ []) threads → Interleaves threads []
  append_next :
      (before after : List Thread) (next : List Activity) (rest : Thread) (later : List Activity)
      → Interleaves (before ++ rest ∷ after) later
      → Interleaves (before ++ (next ∷ rest) ∷ after) (next ++ later)

-- What the entries for a type come to, and how many there are.
abbrev pub tally : ActivityType → List ActivityCount → ℕ
tally t [] = 0
tally t (c ∷ cs) = (if same_type c.kind t then c.count else 0) + tally t cs

abbrev pub entries : ActivityType → List ActivityCount → ℕ
entries t cs = count (λ c. same_type c.kind t) cs

abbrev pub is_of : ActivityType → Activity → Bool
is_of t a = same_type (get_type a) t

abbrev pub count_thread : (Activity → Bool) → Thread → ℕ
count_thread p [] = 0
count_thread p (found ∷ rest) = count p found + count_thread p rest

abbrev pub count_threads : (Activity → Bool) → List Thread → ℕ
count_threads p [] = 0
count_threads p (t ∷ ts) = count_thread p t + count_threads p ts

count_threads-append :
    (p : Activity → Bool) (xs ys : List Thread)
    → count_threads p (xs ++ ys) ≡ count_threads p xs + count_threads p ys
count_threads-append p [] ys = omega arith
count_threads-append p (x ∷ xs) ys = omega (arith, count_threads-append p xs ys)

finished-count :
    (p : Activity → Bool) (ts : List Thread) → All (λ t. t ≡ []) ts → count_threads p ts ≡ 0
finished-count p [] h = refl
finished-count p (t ∷ ts) (e, h) = rw (e, finished-count p ts h)

Interleaves-count :
    (p : Activity → Bool) (ts : List Thread) (found : List Activity)
    → Interleaves ts found
    → count p found ≡ count_threads p ts
Interleaves-count p _ _ (finished ts h) = sym (finished-count p ts h)
Interleaves-count p _ _ (append_next before after next rest later i) = omega (
  arith,
  count-append p next later,
  count_threads-append p before (rest ∷ after),
  count_threads-append p before ((next ∷ rest) ∷ after),
  Interleaves-count p (before ++ rest ∷ after) later i,
)

same_type_trans : (a b t : ActivityType) → same_type a b ≡ true → same_type a t ≡ same_type b t
same_type_trans a b t e = ground (arith, eq_iff a.name b.name, eq_iff a.display_name b.display_name)

tally-increment :
    (t u : ActivityType) (m : List ActivityCount)
    → tally t (increment u m) ≡ (if same_type u t then 1 else 0) + tally t m
tally-increment t u [] = omega arith
tally-increment t u (c ∷ cs) = ground (arith, same_type_trans c.kind u t, tally-increment t u cs)

clash :
    (c u t : ActivityType) → same_type c u ≡ false → same_type u t ≡ true → same_type c t ≡ false
clash c u t apart same = ground (
  arith,
  eq_iff c.name u.name,
  eq_iff c.display_name u.display_name,
  eq_iff c.name t.name,
  eq_iff c.display_name t.display_name,
  eq_iff u.name t.name,
  eq_iff u.display_name t.display_name,
)

-- A new entry is added only where the type has none.
entries-increment :
    (t u : ActivityType) (m : List ActivityCount)
    → entries t (increment u m)
      ≡ entries t m + (if same_type u t && leb (entries t m) 0 then 1 else 0)
entries-increment t u [] = sum_zero (same_type u t)
  where
    sum_zero : (b : Bool) → (if b then 1 else 0) + 0 ≡ 0 + (if b && true then 1 else 0)
    sum_zero true = refl
    sum_zero false = refl
entries-increment t u (c ∷ cs) = added (same_type c.kind u) refl (entries-increment t u cs)
  where
    rest : ℕ
    rest = entries t cs

    taken :
        (ct ut : Bool)
        → ct ≡ ut
        → (if ct then 1 else 0) + rest
          ≡ ((if ct then 1 else 0) + rest)
            + (if ut && leb ((if ct then 1 else 0) + rest) 0 then 1 else 0)
    taken ct ut e = ground arith

    passed :
        (ct ut : Bool) (n : ℕ)
        → (ut ≡ true → ct ≡ false)
        → n ≡ rest + (if ut && leb rest 0 then 1 else 0)
        → (if ct then 1 else 0) + n
          ≡ ((if ct then 1 else 0) + rest)
            + (if ut && leb ((if ct then 1 else 0) + rest) 0 then 1 else 0)
    passed ct ut n h e = ground arith

    added :
        (b : Bool)
        → same_type c.kind u ≡ b
        → entries t (increment u cs) ≡ rest + (if same_type u t && leb rest 0 then 1 else 0)
        → entries t (if b then record c { count = c.count + 1 } ∷ cs else c ∷ increment u cs)
          ≡ entries t (c ∷ cs) + (if same_type u t && leb (entries t (c ∷ cs)) 0 then 1 else 0)
    added true e ih = taken (same_type c.kind t) (same_type u t) (same_type_trans c.kind u t e)
    added false e ih =
        passed (same_type c.kind t) (same_type u t) (entries t (increment u cs))
          (clash c.kind u t e) ih

count_map-entries :
    (t : ActivityType) (m : List ActivityCount) (found : List Activity)
    → entries t m ≤ 1
    → entries t (count_map m found) ≤ 1
unfolding count_map
count_map-entries t m [] h = h
count_map-entries t m (a ∷ found) h =
    count_map-entries t (increment (get_type a) m) found
      (ground (arith, entries-increment t (get_type a) m))

count_map-tally :
    (t : ActivityType) (m : List ActivityCount) (found : List Activity)
    → tally t (count_map m found) ≡ tally t m + count (is_of t) found
unfolding count_map
count_map-tally t m [] = omega arith
count_map-tally t m (a ∷ found) =
    omega
      (arith, count_map-tally t (increment (get_type a) m) found, tally-increment t (get_type a) m)

tally-perm : (t : ActivityType) {cs ds : List ActivityCount} → Permᴰ cs ds → tally t cs ≡ tally t ds
tally-perm t Permᴰ.nil = refl
tally-perm t (Permᴰ.cons {a = a} {b = b} {l₁ = cs} {l₂ = ds} e p) = cc (e, tally-perm t p)
tally-perm t (Permᴰ.swap {a = a} {b = b} {a' = a'} {b' = b'} {l = l} e f) = omega (
  arith,
  ap (λ c. if same_type c.kind t then c.count else 0) e,
  ap (λ c. if same_type c.kind t then c.count else 0) f,
)
tally-perm t (Permᴰ.trans p q) = tally-perm t p ∙ tally-perm t q

entries-perm :
    (t : ActivityType) {cs ds : List ActivityCount} → Permᴰ cs ds → entries t cs ≡ entries t ds
entries-perm t Permᴰ.nil = refl
entries-perm t (Permᴰ.cons {a = a} {b = b} {l₁ = cs} {l₂ = ds} e p) = cc (e, entries-perm t p)
entries-perm t (Permᴰ.swap {a = a} {b = b} {a' = a'} {b' = b'} {l = l} e f) = omega (
  arith,
  ap {B = ℕ} (λ c. if same_type c.kind t then 1 else 0) e,
  ap {B = ℕ} (λ c. if same_type c.kind t then 1 else 0) f,
)
entries-perm t (Permᴰ.trans p q) = entries-perm t p ∙ entries-perm t q

-- Where Go visits each entry of the map once, and the goroutines' appends interleave: for each type a
-- report has at most one entry, and its entries come to the number of activities of the type in the
-- lists that the goroutines append, whatever the order in which they ran.
pub fetch_member_report-counts :
    (order : Order) (registry : Registry) (member : User) (groups : List FetcherGroup)
    (q : ReportQuery) (w : World) (t : ActivityType)
    → ((cs : List ActivityCount) → Permᴰ (order.counts_of cs) cs)
    → ((threads : List Thread) → Interleaves threads (order.run threads))
    → (entries t (fetch_member_report order registry member groups q w).0.counts ≤ 1)
      × (tally t (fetch_member_report order registry member groups q w).0.counts
          ≡ count_threads (is_of t) (start_groups registry member q groups w).0)
unfolding fetch_member_report build_activity_counts
fetch_member_report-counts order registry member groups q w t visits runs =
    let threads : List Thread = (start_groups registry member q groups w).0 in
    let cs : List ActivityCount = count_map [] (order.run threads) in
    (
      omega (
        arith,
        entries-perm t (visits cs),
        count_map-entries t [] (order.run threads) (omega arith),
      ),
      omega (
        arith,
        tally-perm t (visits cs),
        count_map-tally t [] (order.run threads),
        Interleaves-count (is_of t) threads (order.run threads) (runs threads),
      ),
    )
