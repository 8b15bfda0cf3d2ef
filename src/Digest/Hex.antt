-- ===== src/Digest/Hex.antt =====
-- Hexadecimal text: cvthex (digestauth.c), and strtoul of the C library at base 16.
use icwmp.Prelude.{
  ℕ, ◌+◌, ◌-◌, ◌*◌, ◌/◌, ◌%◌, ◌≤◌, ◌<◌, ◌≡◌, ◌⊎◌, refl, ap, ◌∙◌, Bool, true, false, ◌&&◌, ◌||◌,
  Option, none, some, List, [], ◌∷◌, arith, length, ltb, leb, ◌==◌, if◌then◌else◌, All,
}
use icwmp.Prelude.Text.{Text}

-- `j <= 9 ? (j + '0') : (j + 'a' - 10)`
unfoldable pub hex_digit : ℕ → ℕ
hex_digit j = if leb j 9 then j + b'0' else j + b'a' - 10

unfoldable pub cvthex : List ℕ → Text
unfolding hex_digit
cvthex [] = []
cvthex (b ∷ bs) = hex_digit (b / 16 % 16) ∷ hex_digit (b % 16) ∷ cvthex bs

unfoldable pub hex_value : ℕ → Option ℕ
hex_value c =
    if leb b'0' c && leb c b'9'
    then some (c - b'0')
    else if leb b'a' c && leb c b'f'
    then some (c - b'a' + 10)
    else if leb b'A' c && leb c b'F'
    then some (c - b'A' + 10)
    else none

-- The value of the digits from here on, and what follows them.
unfoldable pub hex_run : ℕ → Text → ℕ × Text
hex_run acc [] = (acc, [])
hex_run acc (c ∷ cs) = elim (hex_value c) [
  | some v ↦ hex_run (acc * 16 + v) cs
  | none ↦ (acc, c ∷ cs)
]

abbrev is_space : ℕ → Bool
is_space c = c == 32 || (leb 9 c && leb c 13)

skip_space : Text → Text
skip_space [] = []
skip_space (c ∷ cs) = let rest = skip_space cs in if is_space c then rest else c ∷ cs

-- A sign, and the text behind it.
take_sign : Text → Bool × Text
take_sign [] = (false, [])
take_sign (c ∷ cs) =
    if c == b'-' then (true, cs) else if c == b'+' then (false, cs) else (false, c ∷ cs)

-- A prefix 0x counts if a digit follows.
skip_0x : Text → Text
skip_0x (z ∷ x ∷ d ∷ cs) =
    if z == b'0' && (x == b'x' || x == b'X')
    then elim (hex_value d) [ some _ ↦ d ∷ cs | none ↦ z ∷ x ∷ d ∷ cs ]
    else z ∷ x ∷ d ∷ cs
skip_0x cs = cs

abbrev starts_with_digit : Text → Bool
starts_with_digit [] = false
starts_with_digit (c ∷ cs) = elim (hex_value c) [ some _ ↦ true | none ↦ false ]

-- strtoul (s, &end, 16), with ULONG_MAX as the first argument: the value, and the text at `end`.
unfoldable pub strtoul16 : ℕ → Text → ℕ × Text
unfolding hex_run skip_space take_sign skip_0x hex_value
strtoul16 ulong_max s =
    let (negative, t) = take_sign (skip_space s) in
    let digits = skip_0x t in
    let (v, end) = hex_run 0 digits in
    if starts_with_digit digits
    then (
      if ltb ulong_max v
          then ulong_max
          else if negative
          then (ulong_max + 1 - v) % (ulong_max + 1)
          else v,
      end,
    )
    else (0, s)

hex_value-hex_digit : (j : ℕ) → j < 16 → hex_value (hex_digit j) ≡ some j
unfolding hex_value hex_digit
hex_value-hex_digit j h = ground arith

hex_run-digit :
    (acc j : ℕ) (cs : Text) → j < 16 → hex_run acc (hex_digit j ∷ cs) ≡ hex_run (acc * 16 + j) cs
unfolding hex_run
hex_run-digit acc j cs h = rw (hex_value-hex_digit j h, hex_run) refl

-- The number that bytes stand for, the highest first, behind `acc`.
abbrev pub be_value : ℕ → List ℕ → ℕ
be_value acc [] = acc
be_value acc (b ∷ bs) = be_value (acc * 256 + b) bs

pub hex_run-cvthex :
    (bs : List ℕ) (acc : ℕ)
    → All (λ b. b < 256) bs
    → hex_run acc (cvthex bs) ≡ (be_value acc bs, [])
unfolding cvthex hex_run
hex_run-cvthex [] acc h = refl
hex_run-cvthex (b ∷ bs) acc (b_lt, h) =
    let rest = hex_run-cvthex bs (acc * 256 + b) h in
    let high = b / 16 % 16 in
    let joined : (acc * 16 + high) * 16 + b % 16 ≡ acc * 256 + b = omega arith in
    hex_run-digit acc high (hex_digit (b % 16) ∷ cvthex bs) (omega arith)
    ∙ hex_run-digit (acc * 16 + high) (b % 16) (cvthex bs) (omega arith)
    ∙ rw joined rest

pub length-cvthex : (bs : List ℕ) → length (cvthex bs) ≡ 2 * length bs
unfolding cvthex
length-cvthex [] = refl
length-cvthex (b ∷ bs) = omega (arith, length-cvthex bs)

-- A digit of `hex_digit` is neither a blank nor a sign, and never an x.
IsHexDigit : ℕ → Type 0
IsHexDigit c = (b'0' ≤ c) × (c ≤ b'9') ⊎ (b'a' ≤ c) × (c ≤ b'f')

hex_digit-IsHexDigit : (j : ℕ) → j < 16 → IsHexDigit (hex_digit j)
unfolding hex_digit IsHexDigit
hex_digit-IsHexDigit j h = ground arith

skip_space-digit : (c : ℕ) (cs : Text) → IsHexDigit c → skip_space (c ∷ cs) ≡ c ∷ cs
unfolding skip_space IsHexDigit
skip_space-digit c cs h = ground arith

take_sign-digit : (c : ℕ) (cs : Text) → IsHexDigit c → take_sign (c ∷ cs) ≡ (false, c ∷ cs)
unfolding take_sign IsHexDigit
take_sign-digit c cs h = ground arith

skip_0x-digit : (c d : ℕ) (cs : Text) → IsHexDigit d → skip_0x (c ∷ d ∷ cs) ≡ c ∷ d ∷ cs
unfolding skip_0x IsHexDigit
skip_0x-digit c d [] h = refl
skip_0x-digit c d (e ∷ cs) h = ground arith

starts_with_digit-hex_digit :
    (j : ℕ) (cs : Text) → j < 16 → starts_with_digit (hex_digit j ∷ cs) ≡ true
starts_with_digit-hex_digit j cs h = rw (starts_with_digit, hex_value-hex_digit j h) refl

-- Text from here on of which the first two characters are digits is read as its digits say.
strtoul16-digits :
    (ulong_max j d v : ℕ) (cs end : Text)
    → j < 16
    → IsHexDigit d
    → hex_run 0 (hex_digit j ∷ d ∷ cs) ≡ (v, end)
    → v ≤ ulong_max
    → strtoul16 ulong_max (hex_digit j ∷ d ∷ cs) ≡ (v, end)
unfolding strtoul16
strtoul16-digits ulong_max j d v cs end j_lt hd run fits =
    let hj = hex_digit-IsHexDigit j j_lt in
    let not_above : (if ltb ulong_max v then ulong_max else v) ≡ v = ground arith in
    rw
      (
        skip_space-digit (hex_digit j) (d ∷ cs) hj,
        take_sign-digit (hex_digit j) (d ∷ cs) hj,
        skip_0x-digit (hex_digit j) d cs hd,
        run,
        starts_with_digit-hex_digit j (d ∷ cs) j_lt,
      )
      (ap (λ n. (n, end)) not_above)

-- The hexadecimal text that cvthex writes for one byte or more is read by strtoul at base 16, to
-- its end, as the number those bytes stand for with the highest first, if it fits in an unsigned
-- long.
pub strtoul16-cvthex :
    (ulong_max b : ℕ) (bs : List ℕ)
    → All (λ x. x < 256) (b ∷ bs)
    → be_value 0 (b ∷ bs) ≤ ulong_max
    → strtoul16 ulong_max (cvthex (b ∷ bs)) ≡ (be_value 0 (b ∷ bs), [])
unfolding cvthex
strtoul16-cvthex ulong_max b bs h fits =
    strtoul16-digits ulong_max (b / 16 % 16) (hex_digit (b % 16)) (be_value 0 (b ∷ bs)) (cvthex bs)
      [] (omega arith) (hex_digit-IsHexDigit (b % 16) (omega arith)) (hex_run-cvthex (b ∷ bs) 0 h)
      fits
