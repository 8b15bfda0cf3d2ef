-- ===== src/Digest/Lookup.antt =====
-- lookup_sub_value (digestauth.c): a field of the Authorization header. A pointer into the header is the
-- text from there on.
use icwmp.Prelude.{
  ℕ, zero, suc, ◌-◌, ◌<◌, Bool, true, false, ◌&&◌, Option, none, some, [], ◌∷◌, arith, length,
  length-take, take, ◌==◌, if◌then◌else◌,
}
use icwmp.Prelude.Text.{Text, str_ieq}

-- strchr: the text from the first `c` on.
unfoldable pub strchr : ℕ → Text → Option Text
strchr c [] = none
strchr c (x ∷ xs) = let rest = strchr c xs in if x == c then some (x ∷ xs) else rest

-- The text before the first `c`.
unfoldable pub before_chr : ℕ → Text → Text
before_chr c [] = []
before_chr c (x ∷ xs) = let rest = before_chr c xs in if x == c then [] else x ∷ rest

unfoldable pub skip_blanks : Text → Text
skip_blanks [] = []
skip_blanks (x ∷ xs) = let rest = skip_blanks xs in if x == 32 then rest else x ∷ xs

abbrev pub tail_of : Text → Text
tail_of [] = []
tail_of (x ∷ xs) = xs

-- The value behind the equals sign, and `qn`, where the search for the next comma starts.
-- `none` is a quote that does not end.
unfoldable pub sub_value : Text → Option (Text × Option Text)
unfolding strchr before_chr
sub_value [] = some ([], none)
sub_value (c ∷ q1) =
    if c == b'"'
    then elim (strchr b'"' q1) [
      | none ↦ none
      | some q2 ↦ some (before_chr b'"' q1, some (tail_of q2))
    ]
    else some (before_chr b',' (c ∷ q1), strchr b',' (c ∷ q1))

-- `(0 == strncasecmp (ptr, key, keylen)) && (eq == &ptr[keylen])`
unfoldable pub is_key : Text → Text → Bool
unfolding str_ieq before_chr
is_key ptr key = str_ieq (take (length key) ptr) key && length (before_chr b'=' ptr) == length key

-- The loop; a round moves on by a character at least, so the length of the header is fuel enough. `none` is out of
-- fuel; the text is empty where the key is not found.
unfoldable pub lookup_loop : ℕ → ℕ → Text → Text → Option Text
unfolding strchr skip_blanks sub_value is_key
lookup_loop zero size [] key = some []
lookup_loop zero size (p ∷ ptr) key = none
lookup_loop (suc fuel) size [] key = some []
lookup_loop (suc fuel) size (p ∷ ptr) key = elim (strchr b'=' (p ∷ ptr)) [
  | none ↦ some []
  | some eq ↦ elim (sub_value (skip_blanks (tail_of eq))) [
    | none ↦ some []
    | some (value, qn) ↦ elim (is_key (p ∷ ptr) key) [
      | true ↦ some (take (size - 1) value)
      | false ↦ elim qn [
        | none ↦ some []
        | some q ↦ elim (strchr b',' q) [
          | none ↦ some []
          | some comma ↦ lookup_loop fuel size (skip_blanks (tail_of comma)) key
        ]
      ]
    ]
  ]
]

abbrev pub or_nothing : Option Text → Text
or_nothing none = []
or_nothing (some v) = v

-- What is stored in `dest`; the result of the C function is its length, and 0 where nothing is found.
unfoldable pub lookup_sub_value : ℕ → Text → Text → Text
unfolding lookup_loop
lookup_sub_value size data_ key =
    if size == 0 then [] else or_nothing (lookup_loop (length data_) size data_ key)

length-take_below : (n : ℕ) (xs : Text) → 0 < n → length (take (n - 1) xs) < n
length-take_below n xs h = omega (arith, length-take (n - 1) xs)

lookup_loop_bound :
    (fuel size : ℕ) (ptr key : Text)
    → 0 < size
    → length (or_nothing (lookup_loop fuel size ptr key)) < size
unfolding lookup_loop
lookup_loop_bound zero size [] key h = h
lookup_loop_bound zero size (p ∷ ptr) key h = h
lookup_loop_bound (suc fuel) size [] key h = h
lookup_loop_bound (suc fuel) size (p ∷ ptr) key h =
    grind (arith, length-take_below, lookup_loop_bound fuel size)

-- What lookup_sub_value stores in a buffer of a size above 0 is shorter than that size, so with its
-- terminating zero it fits.
pub lookup_sub_value_bound :
    (size : ℕ) (data_ key : Text) → 0 < size → length (lookup_sub_value size data_ key) < size
unfolding lookup_sub_value
lookup_sub_value_bound size data_ key h =
    ground (arith, lookup_loop_bound (length data_) size data_ key)
