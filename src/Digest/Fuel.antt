-- ===== src/Digest/Fuel.antt =====
-- The loop of lookup_sub_value (digestauth.c) ends: the length of the header is fuel enough.
use icwmp.Prelude.{
  min, ℕ, zero, suc, ◌-◌, ◌≤◌, ◌<◌, ◌≡◌, refl, Bool, true, false, Option, none, some, [], ◌∷◌,
  arith, length, take, if_elim, ◌==◌,
}
use icwmp.Prelude.Text.{Text}
use icwmp.Digest.Lookup.{strchr, before_chr, skip_blanks, tail_of, sub_value, is_key, lookup_loop}

-- A text that is there, and not longer than `n`.
abbrev Within : ℕ → Option Text → Type 0
Within n none = Unit {0}
Within n (some t) = (0 < length t) × (length t ≤ n)

Within-suc : (n : ℕ) (o : Option Text) → Within n o → Within (suc n) o
Within-suc n none h = tt
Within-suc n (some t) h = (h.0, omega (arith, h.1))

strchr-Within : (c : ℕ) (s : Text) → Within (length s) (strchr c s)
unfolding strchr
strchr-Within c [] = tt
strchr-Within c (x ∷ s) =
    let rest = Within-suc (length s) (strchr c s) (strchr-Within c s) in
    if_elim (Within (suc (length s))) (x == c) (some (x ∷ s)) (strchr c s)
      (λ _. (omega arith, omega arith)) (λ _. rest)

skip_blanks_le : (s : Text) → length (skip_blanks s) ≤ length s
unfolding skip_blanks
skip_blanks_le [] = omega arith
skip_blanks_le (x ∷ s) =
    let rest = skip_blanks_le s in
    if_elim (λ (t : Text). length t ≤ suc (length s)) (x == 32) (skip_blanks s) (x ∷ s)
      (λ _. omega arith) (λ _. omega arith)

tail_of_le : (s : Text) → length (tail_of s) ≤ length s - 1
tail_of_le [] = omega arith
tail_of_le (x ∷ s) = omega arith

-- Where the search for the next comma starts.
Next : ℕ → Option (Text × Option Text) → Type 0
Next n none = Unit {0}
Next n (some (v, none)) = Unit {0}
Next n (some (v, some q)) = length q ≤ n

sub_value-Next : (s : Text) → Next (length s) (sub_value s)
unfolding sub_value Next
sub_value-Next [] = tt
sub_value-Next (c ∷ s) =
    if_elim (Next (suc (length s))) (c == b'"') _ _
      (λ _. quoted (strchr b'"' s) (strchr-Within b'"' s))
      (λ _. plain (strchr b',' (c ∷ s)) (strchr-Within b',' (c ∷ s)))
  where
    quoted :
        (o : Option Text)
        → Within (length s) o
        → Next
            (suc (length s))
            (elim o [ none ↦ none | some q2 ↦ some (before_chr b'"' s, some (tail_of q2)) ])
    quoted none h = tt
    quoted (some q) h = omega (arith, tail_of_le q, h.1)

    plain :
        (o : Option Text)
        → Within (suc (length s)) o
        → Next (suc (length s)) (some (before_chr b',' (c ∷ s), o))
    plain none h = tt
    plain (some q) h = h.1

-- A round of the loop; `rec` searches the rest of the header.
abbrev after_comma : (Text → Option Text) → Option Text → Option Text
after_comma rec o = elim o as (λ _. Option Text) [
  | none ↦ some []
  | some comma ↦ rec (skip_blanks (tail_of comma))
]

abbrev after_value : (Text → Option Text) → ℕ → Bool → Option (Text × Option Text) → Option Text
after_value rec size b o = elim o as (λ _. Option Text) [
  | none ↦ some []
  | some (value, qn) ↦ elim b as (λ _. Option Text) [
    | true ↦ some (take (size - 1) value)
    | false ↦ elim qn as (λ _. Option Text) [
      | none ↦ some []
      | some q ↦ after_comma rec (strchr b',' q)
    ]
  ]
]

abbrev after_equals : (Text → Option Text) → ℕ → Bool → Option Text → Option Text
after_equals rec size b o = elim o as (λ _. Option Text) [
  | none ↦ some []
  | some eq ↦ after_value rec size b (sub_value (skip_blanks (tail_of eq)))
]

-- Two searches that end alike on every rest of at most `fuel` characters end alike after a round.
module _ (fuel size : ℕ) (f g : Text → Option Text)
    (agree : (t : Text) → length t ≤ fuel → (v : Text) × (f t ≡ some v) × (g t ≡ some v)) where
  by_comma :
      (o : Option Text) (n : ℕ)
      → Within n o
      → n ≤ suc fuel
      → (v : Text) × (after_comma f o ≡ some v) × (after_comma g o ≡ some v)
  by_comma none n w l = ([], refl, refl)
  by_comma (some comma) n w l =
      agree (skip_blanks (tail_of comma))
        (omega (arith, skip_blanks_le (tail_of comma), tail_of_le comma, w.0, w.1))

  by_value :
      (o : Option (Text × Option Text)) (b : Bool) (n : ℕ)
      → Next n o
      → n ≤ suc fuel
      → (v : Text) × (after_value f size b o ≡ some v) × (after_value g size b o ≡ some v)
  unfolding Next
  by_value none b n w l = ([], refl, refl)
  by_value (some (v, qn)) true n w l = (take (size - 1) v, refl, refl)
  by_value (some (v, none)) false n w l = ([], refl, refl)
  by_value (some (v, some q)) false n w l =
      by_comma (strchr b',' q) (length q) (strchr-Within b',' q) (omega arith)

  by_equals :
      (o : Option Text) (b : Bool) (n : ℕ)
      → Within n o
      → n ≤ suc fuel
      → (v : Text) × (after_equals f size b o ≡ some v) × (after_equals g size b o ≡ some v)
  by_equals none b n w l = ([], refl, refl)
  by_equals (some eq) b n w l =
      let s = skip_blanks (tail_of eq) in
      by_value (sub_value s) b (length s) (sub_value-Next s)
        (omega (arith, skip_blanks_le (tail_of eq), tail_of_le eq, w.0, w.1))

-- Two runs with enough fuel end, with the same text.
both_end :
    (fuel fuel' size : ℕ) (ptr key : Text)
    → length ptr ≤ fuel
    → length ptr ≤ fuel'
    → (v : Text) × (lookup_loop fuel size ptr key ≡ some v)
      × (lookup_loop fuel' size ptr key ≡ some v)
unfolding lookup_loop
both_end zero zero size [] key h k = ([], refl, refl)
both_end zero (suc m) size [] key h k = ([], refl, refl)
both_end (suc n) zero size [] key h k = ([], refl, refl)
both_end (suc n) (suc m) size [] key h k = ([], refl, refl)
both_end zero m size (p ∷ ptr) key h k = absurd (omega arith)
both_end (suc n) zero size (p ∷ ptr) key h k = absurd (omega arith)
both_end (suc n) (suc m) size (p ∷ ptr) key h k =
    let ih =
      λ (t : Text) (l : length t ≤ min n m). both_end n m size t key (omega arith) (omega arith) in
    by_equals (min n m) size (λ t. lookup_loop n size t key) (λ t. lookup_loop m size t key) ih
      (strchr b'=' (p ∷ ptr)) (is_key (p ∷ ptr) key) (length (p ∷ ptr))
      (strchr-Within b'=' (p ∷ ptr)) (omega arith)

-- With at least as much fuel as the text has characters the loop of lookup_sub_value ends, and
-- finds what it finds with exactly that much.
pub lookup_loop_ends :
    (fuel size : ℕ) (ptr key : Text)
    → length ptr ≤ fuel
    → (v : Text) × (lookup_loop fuel size ptr key ≡ some v)
      × (lookup_loop (length ptr) size ptr key ≡ some v)
lookup_loop_ends fuel size ptr key h = both_end fuel (length ptr) size ptr key h (omega arith)
