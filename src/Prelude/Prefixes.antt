-- ===== src/Prelude/Prefixes.antt =====
-- Texts and their prefixes: what `strip_prefix` leaves, and how much of a text counts.
use Prim.Native.Nat.{◌≤◌}
use Prim.Native.Char.{Char}
use Prim.Native.String
use Prim.Native.String.{String}
use mathlib.Core.Path.{◌≡◌, refl, sym, ◌∙◌}
use mathlib.Core.Bool.{Bool, true, false}
use mathlib.Core.Logic.{◌⊎◌, inl, inr}
use mathlib.Core.Option.{Option, none, some}
use native.Mathlib.Omega.{arith}
use text.Mathlib.TextEquality.{Char-path}
use text.Mathlib.TextLemmas.{nil-append, cons-append, length-cons}
use contribution_tracker.Prelude.Tests.{if◌then◌else◌, eq_of_some, Option-cases}
use contribution_tracker.Prelude.Texts.{same_char, strip_prefix, is_prefix, trim_prefix}

same_char-eq : (c d : Char) → same_char c d ≡ true → c ≡ d
same_char-eq c d e = Char-path c d (ground arith)

pub strip_prefix-eq : (p s t : String) → strip_prefix p s ≡ some t → String.◌++◌ p t ≡ s
strip_prefix-eq String.[] s t e = nil-append t ∙ sym (eq_of_some e)
strip_prefix-eq (String.◌∷◌ c p) String.[] t e = cc
strip_prefix-eq (String.◌∷◌ c p) (String.◌∷◌ d s) t e =
    let (same, rest) = both_of (same_char c d) (strip_prefix p s) t e in
    cc (cons-append c p t, same_char-eq c d same, strip_prefix-eq p s t rest)
  where
    both_of :
        (b : Bool) (r : Option String) (t : String)
        → (if b then r else none) ≡ some t
        → (b ≡ true) × (r ≡ some t)
    both_of true r t e = (refl, e)
    both_of false r t e = cc

-- A text that the trimming changes began with the prefix.
pub trim_prefix-eq : (p s : String) → (trim_prefix p s ≡ s) ⊎ (String.◌++◌ p (trim_prefix p s) ≡ s)
trim_prefix-eq p s = by_cases (strip_prefix p s) (strip_prefix-eq p s)
  where
    by_cases :
        (o : Option String)
        → ((t : String) → o ≡ some t → String.◌++◌ p t ≡ s)
        → ((elim o [ some rest ↦ rest | none ↦ s ]) ≡ s)
          ⊎ (String.◌++◌ p (elim o [ some rest ↦ rest | none ↦ s ]) ≡ s)
    by_cases none h = inl refl
    by_cases (some t) h = inr (h t refl)

-- Only as much of a text counts as the prefix is long.
pub is_prefix-append :
    (p t u : String)
    → String.count p ≤ String.count t
    → is_prefix p (String.◌++◌ t u) ≡ is_prefix p t
is_prefix-append String.[] t u h = refl
is_prefix-append (String.◌∷◌ c p) String.[] u h = ground (arith, length-cons c p)
is_prefix-append (String.◌∷◌ c p) (String.◌∷◌ d t) u h = rw (cons-append d t u) (
    by_char (same_char c d)
      (is_prefix-append p t u (omega (arith, length-cons c p, length-cons d t, h))))
  where
    by_char :
        (b : Bool)
        → is_prefix p (String.◌++◌ t u) ≡ is_prefix p t
        → (elim (if b then strip_prefix p (String.◌++◌ t u) else none) [
          | some _ ↦ true
          | none ↦ false
        ])
          ≡ (elim (if b then strip_prefix p t else none) [ some _ ↦ true | none ↦ false ])
    by_char true e = e
    by_char false e = refl

same_char_self : (c : Char) → same_char c c ≡ true
same_char_self c = ground arith

pub is_prefix_self : (p r : String) → is_prefix p (String.◌++◌ p r) ≡ true
is_prefix_self String.[] r = refl
is_prefix_self (String.◌∷◌ c p) r =
    rw (cons-append c p r) (by_char (same_char c c) (same_char_self c) (is_prefix_self p r))
  where
    by_char :
        (b : Bool)
        → b ≡ true
        → is_prefix p (String.◌++◌ p r) ≡ true
        → (elim (if b then strip_prefix p (String.◌++◌ p r) else none) [
          | some _ ↦ true
          | none ↦ false
        ])
          ≡ true
    by_char true e rest = rest
    by_char false e rest = cc

-- A prefix and what is left after it make the text.
pub with_prefix : (p s : String) → is_prefix p s ≡ true → (r : String) × (s ≡ String.◌++◌ p r)
with_prefix p s e = elim (Option-cases (strip_prefix p s)) [
  | inl missing ↦ ground (arith, missing, e)
  | inr (r, found) ↦ (r, sym (strip_prefix-eq p s r found))
]
