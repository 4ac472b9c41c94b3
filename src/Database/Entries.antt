-- ===== src/Database/Entries.antt =====
-- The entries of a map as a list: assignments one by one, and the order in which Go visits them.
use contribution_tracker.Prelude.{
  ℕ, String, ◌≡◌, refl, ap, ◌∙◌, ◌+◌, ◌≤◌, Bool, true, false, Option, some, none, List, [], ◌∷◌,
  ◌==◌, count, lookup, insert, lookup-insert, if◌then◌else◌, arith, eq_iff,
}
use mathlib.Core.List.{Permᴰ}

abbrev pub entries : String → List (String × String) → ℕ
entries k m = count (λ e. e.0 == k) m

abbrev pub or_else : Option String → Option String → Option String
or_else none o = o
or_else (some v) o = some v

pub lookup-none : (k : String) (es : List (String × String)) → entries k es ≡ 0 → lookup k es ≡ none
lookup-none k [] e = refl
lookup-none k ((j, v) ∷ es) e = ground (arith, e, lookup-none k es)

-- Assignments one by one: with one for the key at most, what the list has for it.
abbrev pub assigned : List (String × String) → List (String × String) → List (String × String)
assigned m [] = m
assigned m (e ∷ es) = assigned (insert e.0 e.1 m) es

pub lookup-assigned :
    (k : String) (m es : List (String × String))
    → entries k es ≤ 1
    → lookup k (assigned m es) ≡ or_else (lookup k es) (lookup k m)
lookup-assigned k m [] h = refl
lookup-assigned k m ((j, v) ∷ es) h =
    lookup-assigned k (insert j v m) es (ground (arith, h))
    ∙ ap (or_else (lookup k es)) (lookup-insert j k v m)
    ∙ by_key (j == k) (lookup-none k es) h
  where
    by_key :
        (b : Bool)
        → (entries k es ≡ 0 → lookup k es ≡ none)
        → (if b then 1 else 0) + entries k es ≤ 1
        → or_else (lookup k es) (if b then some v else lookup k m)
          ≡ or_else (if b then some v else lookup k es) (lookup k m)
    by_key true missing h = ap (λ o. or_else o (some v)) (missing (omega (arith, h)))
    by_key false missing h = refl

pub entries-perm :
    (k : String) {xs ys : List (String × String)} → Permᴰ xs ys → entries k xs ≡ entries k ys
entries-perm k Permᴰ.nil = refl
entries-perm k (Permᴰ.cons {a = a} {b = b} {l₁ = xs} {l₂ = ys} e p) = cc (e, entries-perm k p)
entries-perm k (Permᴰ.swap {a = a} {b = b} {a' = a'} {b' = b'} {l = l} e f) = omega (
  arith,
  ap {B = ℕ} (λ x. if x.0 == k then 1 else 0) e,
  ap {B = ℕ} (λ x. if x.0 == k then 1 else 0) f,
)
entries-perm k (Permᴰ.trans p q) = entries-perm k p ∙ entries-perm k q

-- With one entry for the key at most, the order does not matter.
pub lookup-perm :
    (k : String) {xs ys : List (String × String)}
    → Permᴰ xs ys
    → entries k xs ≤ 1
    → lookup k xs ≡ lookup k ys
lookup-perm k Permᴰ.nil h = refl
lookup-perm k (Permᴰ.cons {a = a} {b = b} {l₁ = xs} {l₂ = ys} e p) h =
    cc (e, lookup-perm k p (ground (arith, h)))
lookup-perm k (Permᴰ.swap {a = a} {b = b} {a' = a'} {b' = b'} {l = l} e f) h =
    cc (e, f, swapped (a.0 == k) (b.0 == k) (some a.1) (some b.1) (lookup k l) h)
  where
    swapped :
        (c d : Bool) (o p r : Option String)
        → (if c then 1 else 0) + ((if d then 1 else 0) + entries k l) ≤ 1
        → (if c then o else (if d then p else r)) ≡ (if d then p else (if c then o else r))
    swapped true true o p r h = ground (arith, h)
    swapped true false o p r h = refl
    swapped false true o p r h = refl
    swapped false false o p r h = refl
lookup-perm k (Permᴰ.trans p q) h =
    lookup-perm k p h ∙ lookup-perm k q (omega (arith, h, entries-perm k p))

entries-other :
    (k j v : String) (m : List (String × String))
    → (j == k) ≡ false
    → entries k (insert j v m) ≡ entries k m
entries-other k j v [] e = ground (arith, e)
entries-other k j v ((i, w) ∷ m) e =
    ground (arith, e, eq_iff i j, eq_iff i k, eq_iff j k, entries-other k j v m e)

pub entries-insert :
    (k j v : String) (m : List (String × String)) → entries k m ≤ 1 → entries k (insert j v m) ≤ 1
entries-insert k j v [] h = ground arith
entries-insert k j v ((i, w) ∷ m) h =
    ground
      (arith, h, eq_iff i j, eq_iff i k, eq_iff j k, entries-other k j v m, entries-insert k j v m)

pub entries-assigned :
    (k : String) (m es : List (String × String)) → entries k m ≤ 1 → entries k (assigned m es) ≤ 1
entries-assigned k m [] h = h
entries-assigned k m ((j, v) ∷ es) h =
    entries-assigned k (insert j v m) es (entries-insert k j v m h)

pub or_none : (o : Option String) → or_else o none ≡ o
or_none none = refl
or_none (some v) = refl
