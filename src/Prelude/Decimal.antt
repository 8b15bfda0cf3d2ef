-- ===== src/Prelude/Decimal.antt =====
-- Integers, and their decimal notation in C: sprintf with %d and %ld, atoi and atol. The widths of int and
-- long are left out: what atoi does on overflow is undefined.
use Prim.Native.Nat.{ℕ, zero, suc, ◌+◌, ◌-◌, ◌*◌, ◌/◌, ◌%◌, ◌<◌, ◌≤◌}
use mathlib.Core.Path.{◌≡◌, refl, ap, ◌∙◌}
use mathlib.Core.Bool.{Bool, true, false, ◌&&◌, ◌||◌}
use mathlib.Core.List.{List, [], ◌∷◌, ◌++◌}
use native.Mathlib.Omega.{arith}
use icwmp.Prelude.Tests.{◌==◌, if◌then◌else◌, ltb, leb, if_elim}
use icwmp.Prelude.Lists.{All}
use icwmp.Prelude.Text.{Text}

pub data ℤ : Type 0 where
  pos negsuc : ℕ → ℤ

-- `a > b`
abbrev pub gt : ℤ → ℤ → Bool
gt (pos a) (pos b) = ltb b a
gt (pos a) (negsuc b) = true
gt (negsuc a) (pos b) = false
gt (negsuc a) (negsuc b) = ltb a b

-- `a + b`
abbrev minus : ℕ → ℕ → ℤ
minus a b = if leb b a then pos (a - b) else negsuc (b - a - 1)

abbrev pub plus : ℤ → ℤ → ℤ
plus (pos a) (pos b) = pos (a + b)
plus (pos a) (negsuc b) = minus a (suc b)
plus (negsuc a) (pos b) = minus b (suc a)
plus (negsuc a) (negsuc b) = negsuc (a + b + 1)

abbrev pub is_zero : ℤ → Bool
is_zero (pos a) = a == 0
is_zero (negsuc a) = false

-- The digits of a number; `fuel` bounds how many there are.
unfoldable digits : ℕ → ℕ → Text
digits zero n = []
digits (suc fuel) n =
    let rest = digits fuel (n / 10) in
    if ltb n 10 then (b'0' + n) ∷ [] else rest ++ (b'0' + n % 10) ∷ []

unfoldable pub sprintf_d : ℤ → Text
unfolding digits
sprintf_d (pos n) = digits (suc n) n
sprintf_d (negsuc n) = b'-' ∷ digits (suc (suc n)) (suc n)

abbrev is_digit : ℕ → Bool
is_digit c = leb b'0' c && leb c b'9'

abbrev is_space : ℕ → Bool
is_space c = c == b' ' || leb 9 c && leb c 13

unfoldable read_digits : ℕ → Text → ℕ
read_digits n [] = n
read_digits n (c ∷ s) =
    let rest = read_digits (n * 10 + (c - b'0')) s in if is_digit c then rest else n

abbrev negate : ℕ → ℤ
negate zero = pos zero
negate (suc n) = negsuc n

unfoldable pub atoi : Text → ℤ
unfolding read_digits
atoi [] = pos 0
atoi (c ∷ s) =
    let rest = atoi s in
    if is_space c
    then rest
    else if c == b'-'
    then negate (read_digits 0 s)
    else if c == b'+'
    then pos (read_digits 0 s)
    else pos (read_digits 0 (c ∷ s))

abbrev IsDigit : ℕ → Type 0
IsDigit c = (b'0' ≤ c) × (c ≤ b'9')

All-append {ℓ κ} :
    {A : Type ℓ} (P : A → Type κ) (xs ys : List A) → All P xs → All P ys → All P (xs ++ ys)
All-append P [] ys h k = k
All-append P (x ∷ xs) ys (p, h) k = (p, All-append P xs ys h k)

digits-IsDigit : (fuel n : ℕ) → All IsDigit (digits fuel n)
unfolding digits
digits-IsDigit zero n = tt
digits-IsDigit (suc fuel) n =
    let last : IsDigit (b'0' + n % 10) = (omega arith, omega arith) in
    if_elim (All IsDigit) (ltb n 10) ((b'0' + n) ∷ [])
      (digits fuel (n / 10) ++ (b'0' + n % 10) ∷ []) (λ e. ((omega arith, ground arith), tt))
      (λ _. All-append IsDigit _ _ (digits-IsDigit fuel (n / 10)) (last, tt))

read_digits-concat :
    (m : ℕ) (s : Text) (c : ℕ)
    → All IsDigit s
    → IsDigit c
    → read_digits m (s ++ c ∷ []) ≡ read_digits m s * 10 + (c - b'0')
unfolding read_digits
read_digits-concat m [] c h (hc, kc) = ground arith
read_digits-concat m (d ∷ s) c ((h, k), hs) kc =
    ground (arith, read_digits-concat (m * 10 + (d - b'0')) s c hs kc)

read_digits-digits : (fuel n : ℕ) → n < fuel → read_digits 0 (digits fuel n) ≡ n
unfolding digits read_digits
read_digits-digits zero n h = omega arith
read_digits-digits (suc fuel) n h =
    if_elim (λ t. read_digits 0 t ≡ n) (ltb n 10) ((b'0' + n) ∷ [])
      (digits fuel (n / 10) ++ (b'0' + n % 10) ∷ []) (λ e. ground arith)
      (λ e.
        let m =
          read_digits-concat 0 (digits fuel (n / 10)) (b'0' + n % 10) (digits-IsDigit fuel (n / 10))
            (omega arith, omega arith) in
        let ih = read_digits-digits fuel (n / 10) (ground arith) in omega arith)

atoi-digits : (s : Text) → All IsDigit s → atoi s ≡ pos (read_digits 0 s)
unfolding atoi read_digits
atoi-digits [] h = refl
atoi-digits (c ∷ s) ((h, k), hs) = ground arith

pub atoi-sprintf_d : (n : ℤ) → atoi (sprintf_d n) ≡ n
unfolding sprintf_d atoi
atoi-sprintf_d (pos n) =
    atoi-digits _ (digits-IsDigit (suc n) n) ∙ ap pos (read_digits-digits (suc n) n (omega arith))
atoi-sprintf_d (negsuc n) = ap negate (read_digits-digits (suc (suc n)) (suc n) (omega arith))
