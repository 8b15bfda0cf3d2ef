-- ===== src/Prelude/Text.antt =====
-- C strings as lists of bytes without the terminating zero, and the functions of string.h that
-- the program calls on them.
use Prim.Native.Nat.{ℕ, ◌+◌}
use Prim.Native.Char.{code}
use Prim.Native.String.{String}
use mathlib.Core.Path.{◌≡◌, refl}
use mathlib.Core.Bool.{Bool, true, false, ◌&&◌, ◌||◌}
use mathlib.Core.Option.{Option, none, some}
use mathlib.Core.List.{List, [], ◌∷◌}
use native.Mathlib.Omega.{arith}
use icwmp.Prelude.Tests.{◌==◌, if◌then◌else◌, ltb, leb}

abbrev pub Text : Type 0
Text = List ℕ

abbrev pub codes : String → Text
codes String.[] = []
codes (String.◌∷◌ c s) = code c ∷ codes s

-- `p ? p : ""`
abbrev pub or_empty : Option Text → Text
or_empty none = []
or_empty (some t) = t

-- The sign of `strcmp`.
pub data Sign : Type 0 where
  less same greater : Sign

unfoldable pub strcmp : Text → Text → Sign
strcmp [] [] = same
strcmp [] (b ∷ t) = less
strcmp (a ∷ s) [] = greater
strcmp (a ∷ s) (b ∷ t) = if a == b then strcmp s t else if ltb a b then less else greater

abbrev pub is_same : Sign → Bool
is_same same = true
is_same _ = false

-- `strcmp(a, b) == 0`
abbrev pub str_eq : Text → Text → Bool
str_eq s t = is_same (strcmp s t)

-- strncmp (s, p, strlen (p)) == 0
unfoldable pub is_prefix : Text → Text → Bool
is_prefix [] s = true
is_prefix (a ∷ p) [] = false
is_prefix (a ∷ p) (b ∷ s) = a == b && is_prefix p s

abbrev lower : ℕ → ℕ
lower c = if leb b'A' c && leb c b'Z' then c + 32 else c

-- strcasecmp (s, t) == 0
unfoldable pub str_ieq : Text → Text → Bool
str_ieq [] [] = true
str_ieq (a ∷ s) (b ∷ t) = lower a == lower b && str_ieq s t
str_ieq _ _ = false

-- strstr (s, t) != NULL
unfoldable pub strstr : Text → Text → Bool
unfolding is_prefix
strstr [] t = is_prefix t []
strstr (a ∷ s) t = is_prefix t (a ∷ s) || strstr s t

pub strcmp_self : (s : Text) → strcmp s s ≡ same
unfolding strcmp
strcmp_self [] = refl
strcmp_self (a ∷ s) = ground (arith, strcmp_self s)

pub strcmp-same : (s t : Text) → strcmp s t ≡ same → s ≡ t
unfolding strcmp
strcmp-same [] [] h = refl
strcmp-same [] (b ∷ t) h = cc
strcmp-same (a ∷ s) [] h = cc
strcmp-same (a ∷ s) (b ∷ t) h = ground (arith, strcmp-same s t)

pub str_eq_sound : (s t : Text) → str_eq s t ≡ true → s ≡ t
str_eq_sound s t h = ground (arith, strcmp-same s t)

pub str_eq_self : (s : Text) → str_eq s s ≡ true
str_eq_self s = ground (arith, strcmp_self s)

-- `strcmp` orders texts: swapping its arguments flips the sign.
abbrev pub flip_sign : Sign → Sign
flip_sign less = greater
flip_sign same = same
flip_sign greater = less

pub strcmp_flip : (s t : Text) → strcmp t s ≡ flip_sign (strcmp s t)
unfolding strcmp
strcmp_flip [] [] = refl
strcmp_flip [] (b ∷ t) = refl
strcmp_flip (a ∷ s) [] = refl
strcmp_flip (a ∷ s) (b ∷ t) = ground (arith, strcmp_flip s t)

pub strcmp_trans : (s t u : Text) → strcmp s t ≡ less → strcmp t u ≡ less → strcmp s u ≡ less
unfolding strcmp
strcmp_trans [] [] u h k = cc
strcmp_trans [] (b ∷ t) [] h k = cc
strcmp_trans [] (b ∷ t) (c ∷ u) h k = refl
strcmp_trans (a ∷ s) [] u h k = cc
strcmp_trans (a ∷ s) (b ∷ t) [] h k = cc
strcmp_trans (a ∷ s) (b ∷ t) (c ∷ u) h k = ground (arith, strcmp_trans s t u)
