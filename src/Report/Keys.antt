-- ===== src/Report/Keys.antt =====
-- The key of a group in `GenerateReport` of report_service.go: the platform's name, a NUL and the token.
use contribution_tracker.Prelude.{String, ◌≡◌, refl, sym, ◌∙◌, ap, false, contains_text, arith}
use Prim.Native.String
use Prim.Native.Char.{Char}
use text.Mathlib.TextLemmas.{nil-append, cons-append, append_cancel_left, cons-eq-cons}

-- A text without a NUL, character by character.
tail_free :
    (c : Char) (s : String)
    → contains_text "\0" (String.◌∷◌ c s) ≡ false
    → contains_text "\0" s ≡ false
tail_free c s e = ground (arith, e)

abbrev nul : Char
nul = "\0"

head_free :
    (c : Char) (m s t : String)
    → contains_text "\0" (String.◌∷◌ c m) ≡ false
    → String.◌∷◌ c s ≡ String.◌++◌ "\0" t
    → ⊥
head_free c m s t k e =
    let same : c ≡ nul =
      ((cons-eq-cons {xs = s} {ys = t}).0
        (e ∙ cons-append nul "" t ∙ ap (String.◌∷◌ nul) (nil-append t))).0 in
    first_is_nul c same k
  where
    first_is_nul : (c : Char) → c ≡ nul → contains_text "\0" (String.◌∷◌ c m) ≡ false → ⊥
    first_is_nul c same k = cc (k, ap (λ c. contains_text "\0" (String.◌∷◌ c m)) same)

-- Where neither name has a NUL, the two parts of a key are those of no other.
pub joined_inj :
    (n m s t : String)
    → contains_text "\0" n ≡ false
    → contains_text "\0" m ≡ false
    → String.◌++◌ n (String.◌++◌ "\0" s) ≡ String.◌++◌ m (String.◌++◌ "\0" t)
    → (n ≡ m) × (s ≡ t)
joined_inj String.[] String.[] s t h k e = (
  refl,
  append_cancel_left "\0" s t
      (sym (nil-append (String.◌++◌ "\0" s)) ∙ e ∙ nil-append (String.◌++◌ "\0" t)),
)
joined_inj String.[] (String.◌∷◌ c m) s t h k e = absurd (
    head_free c m (String.◌++◌ m (String.◌++◌ "\0" t)) s k
      (sym (cons-append c m (String.◌++◌ "\0" t)) ∙ sym e ∙ nil-append (String.◌++◌ "\0" s)))
joined_inj (String.◌∷◌ c n) String.[] s t h k e = absurd (
    head_free c n (String.◌++◌ n (String.◌++◌ "\0" s)) t h
      (sym (cons-append c n (String.◌++◌ "\0" s)) ∙ e ∙ nil-append (String.◌++◌ "\0" t)))
joined_inj (String.◌∷◌ c n) (String.◌∷◌ d m) s t h k e =
    let (same, rest) =
      cons-eq-cons.0
        (sym (cons-append c n (String.◌++◌ "\0" s)) ∙ e ∙ cons-append d m (String.◌++◌ "\0" t)) in
    let (names, tokens) = joined_inj n m s t (tail_free c n h) (tail_free d m k) rest in
    (cc (same, names), tokens)
