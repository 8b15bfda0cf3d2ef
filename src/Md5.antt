-- ===== src/Md5.antt =====
-- The MD5 digest (md5.c) on a little-endian machine, where byteReverse does nothing. Words are numbers
-- below 2 ^ 32, bytes numbers below 256.
pub mod Stream
pub mod Update
pub mod Final
use Prim.Native.Nat.{bit_and, bit_or, bit_xor}
use icwmp.Prelude.{
  ℕ, zero, suc, ◌+◌, ◌-◌, ◌*◌, ◌/◌, ◌%◌, ◌^◌, Bool, true, false, List, [], ◌∷◌, length, get_or,
  take, drop, replicate, ◌++◌, ltb, leb, ◌==◌, if◌then◌else◌, modify,
}

abbrev pub word : ℕ
word = 4294967296

abbrev pub u32 : ℕ → ℕ
u32 n = n % word

-- ~x
abbrev not_word : ℕ → ℕ
not_word x = word - 1 - x

f1 : ℕ → ℕ → ℕ → ℕ
f1 x y z = bit_xor z (bit_and x (bit_xor y z))

f2 : ℕ → ℕ → ℕ → ℕ
unfolding f1
f2 x y z = f1 z x y

f3 : ℕ → ℕ → ℕ → ℕ
f3 x y z = bit_xor x (bit_xor y z)

f4 : ℕ → ℕ → ℕ → ℕ
f4 x y z = bit_xor y (bit_or x (not_word z))

-- The four words of `buf`.
pub record Buf : Type 0 where
  pub a : ℕ
  pub b : ℕ
  pub c : ℕ
  pub d : ℕ

-- MD5STEP on w = a; the four words are then named anew, as the next call of the macro names them.
md5_step : (ℕ → ℕ → ℕ → ℕ) → ℕ → ℕ → Buf → Buf
md5_step f data_ s r =
    let w = u32 (r.a + f r.b r.c r.d + data_) in
    let w' = bit_or (u32 (w * 2 ^ s)) (w / 2 ^ (32 - s)) in
    record { a = r.d; b = u32 (w' + r.b); c = r.b; d = r.c }

-- The word of `in`, the constant and the shift of each step of a round.
steps : (ℕ → ℕ → ℕ → ℕ) → List ℕ → List (ℕ × ℕ × ℕ) → Buf → Buf
unfolding md5_step
steps f block [] r = r
steps f block ((i, k, s) ∷ rest) r =
    steps f block rest (md5_step f (u32 (get_or block i 0 + k)) s r)

abbrev round1 : List (ℕ × ℕ × ℕ)
round1 =
    (0, 0xd76aa478, 7)
    ∷ (1, 0xe8c7b756, 12)
    ∷ (2, 0x242070db, 17)
    ∷ (3, 0xc1bdceee, 22)
    ∷ (4, 0xf57c0faf, 7)
    ∷ (5, 0x4787c62a, 12)
    ∷ (6, 0xa8304613, 17)
    ∷ (7, 0xfd469501, 22)
    ∷ (8, 0x698098d8, 7)
    ∷ (9, 0x8b44f7af, 12)
    ∷ (10, 0xffff5bb1, 17)
    ∷ (11, 0x895cd7be, 22)
    ∷ (12, 0x6b901122, 7)
    ∷ (13, 0xfd987193, 12)
    ∷ (14, 0xa679438e, 17)
    ∷ (15, 0x49b40821, 22)
    ∷ []

abbrev round2 : List (ℕ × ℕ × ℕ)
round2 =
    (1, 0xf61e2562, 5)
    ∷ (6, 0xc040b340, 9)
    ∷ (11, 0x265e5a51, 14)
    ∷ (0, 0xe9b6c7aa, 20)
    ∷ (5, 0xd62f105d, 5)
    ∷ (10, 0x02441453, 9)
    ∷ (15, 0xd8a1e681, 14)
    ∷ (4, 0xe7d3fbc8, 20)
    ∷ (9, 0x21e1cde6, 5)
    ∷ (14, 0xc33707d6, 9)
    ∷ (3, 0xf4d50d87, 14)
    ∷ (8, 0x455a14ed, 20)
    ∷ (13, 0xa9e3e905, 5)
    ∷ (2, 0xfcefa3f8, 9)
    ∷ (7, 0x676f02d9, 14)
    ∷ (12, 0x8d2a4c8a, 20)
    ∷ []

abbrev round3 : List (ℕ × ℕ × ℕ)
round3 =
    (5, 0xfffa3942, 4)
    ∷ (8, 0x8771f681, 11)
    ∷ (11, 0x6d9d6122, 16)
    ∷ (14, 0xfde5380c, 23)
    ∷ (1, 0xa4beea44, 4)
    ∷ (4, 0x4bdecfa9, 11)
    ∷ (7, 0xf6bb4b60, 16)
    ∷ (10, 0xbebfbc70, 23)
    ∷ (13, 0x289b7ec6, 4)
    ∷ (0, 0xeaa127fa, 11)
    ∷ (3, 0xd4ef3085, 16)
    ∷ (6, 0x04881d05, 23)
    ∷ (9, 0xd9d4d039, 4)
    ∷ (12, 0xe6db99e5, 11)
    ∷ (15, 0x1fa27cf8, 16)
    ∷ (2, 0xc4ac5665, 23)
    ∷ []

abbrev round4 : List (ℕ × ℕ × ℕ)
round4 =
    (0, 0xf4292244, 6)
    ∷ (7, 0x432aff97, 10)
    ∷ (14, 0xab9423a7, 15)
    ∷ (5, 0xfc93a039, 21)
    ∷ (12, 0x655b59c3, 6)
    ∷ (3, 0x8f0ccc92, 10)
    ∷ (10, 0xffeff47d, 15)
    ∷ (1, 0x85845dd1, 21)
    ∷ (8, 0x6fa87e4f, 6)
    ∷ (15, 0xfe2ce6e0, 10)
    ∷ (6, 0xa3014314, 15)
    ∷ (13, 0x4e0811a1, 21)
    ∷ (4, 0xf7537e82, 6)
    ∷ (11, 0xbd3af235, 10)
    ∷ (2, 0x2ad7d2bb, 15)
    ∷ (9, 0xeb86d391, 21)
    ∷ []

-- Reads `in` as 16 words.
unfoldable pub le_word : List ℕ → ℕ
le_word bs = get_or bs 0 0 + get_or bs 1 0 * 256 + get_or bs 2 0 * 65536 + get_or bs 3 0 * 16777216

words_of : ℕ → List ℕ → List ℕ
unfolding le_word
words_of zero bs = []
words_of (suc n) bs = le_word bs ∷ words_of n (drop 4 bs)

unfoldable pub md5_transform : Buf → List ℕ → Buf
unfolding f1 f2 f3 f4 steps words_of
md5_transform buf bytes =
    let block = words_of 16 bytes in
    let r =
      steps f4 block round4
        (steps f3 block round3 (steps f2 block round2 (steps f1 block round1 buf))) in
    record {
      a = u32 (buf.a + r.a);
      b = u32 (buf.b + r.b);
      c = u32 (buf.c + r.c);
      d = u32 (buf.d + r.d);
    }

pub record Md5Context : Type 0 where
  pub buf : Buf
  pub bits0 : ℕ
  pub bits1 : ℕ
  pub block : List ℕ

-- `block` is what the caller's memory held: MD5Init does not write it.
unfoldable pub md5_init : List ℕ → Md5Context
md5_init garbage = record {
  buf = record { a = 0x67452301; b = 0xefcdab89; c = 0x98badcfe; d = 0x10325476 };
  bits0 = 0;
  bits1 = 0;
  block = garbage;
}

-- memcpy(in + t, src, length src)
unfoldable pub memcpy_at : List ℕ → ℕ → List ℕ → List ℕ
memcpy_at dest t [] = dest
memcpy_at dest t (x ∷ xs) = memcpy_at (modify dest t (λ _. x)) (t + 1) xs

-- `while (len >= 64)`, then the rest. The fuel is the length of the data, see Md5.Stream.
unfoldable pub md5_blocks : ℕ → Buf → List ℕ → List ℕ → Buf × List ℕ
unfolding memcpy_at
md5_blocks zero buf block rest = (buf, memcpy_at block 0 rest)
md5_blocks (suc fuel) buf block rest = elim (leb 64 (length rest)) [
  | true ↦
      let block' = memcpy_at block 0 (take 64 rest) in
      md5_blocks fuel (md5_transform buf block') block' (drop 64 rest)
  | false ↦ (buf, memcpy_at block 0 rest)
]

-- The part of MD5Update behind the count of bits; `t` is the number of bytes in `in`.
unfoldable pub md5_absorb : Buf → List ℕ → ℕ → List ℕ → Buf × List ℕ
unfolding memcpy_at md5_blocks
md5_absorb buf block t data_ =
    let len = length data_ in
    if t == 0
    then md5_blocks len buf block data_
    else if ltb len (64 - t)
    then (buf, memcpy_at block t data_)
    else (let block' = memcpy_at block t (take (64 - t) data_) in
        md5_blocks len (md5_transform buf block') block' (drop (64 - t) data_))

-- The two words of the count of bits after `len` more bytes.
unfoldable pub add_bits : ℕ → ℕ → ℕ → ℕ × ℕ
add_bits bits0 bits1 len =
    let low = u32 (bits0 + u32 (len * 8)) in
    let carried = if ltb low bits0 then u32 (bits1 + 1) else bits1 in
    (low, u32 (carried + len / 536870912))

unfoldable pub md5_update : Md5Context → List ℕ → Md5Context
md5_update ctx data_ =
    let (low, high) = add_bits ctx.bits0 ctx.bits1 (length data_) in
    let (buf, block) = md5_absorb ctx.buf ctx.block (ctx.bits0 / 8 % 64) data_ in
    record { buf = buf; bits0 = low; bits1 = high; block = block }

-- The bytes of a word, the lowest first.
unfoldable pub le_bytes : ℕ → List ℕ
le_bytes w = w % 256 ∷ w / 256 % 256 ∷ w / 65536 % 256 ∷ w / 16777216 % 256 ∷ []

unfoldable pub digest_of : Buf → List ℕ
unfolding le_bytes
digest_of r = le_bytes r.a ++ (le_bytes r.b ++ (le_bytes r.c ++ le_bytes r.d))

unfoldable pub md5_final : Md5Context → List ℕ
md5_final ctx =
    let count = ctx.bits0 / 8 % 64 in
    let marked = memcpy_at ctx.block count (0x80 ∷ []) in
    let left = 64 - 1 - count in
    let size = le_bytes ctx.bits0 ++ le_bytes ctx.bits1 in
    if ltb left 8
    then (let full = memcpy_at marked (count + 1) (replicate left 0) in
        let buf = md5_transform ctx.buf full in
        let last = memcpy_at full 0 (replicate 56 0) in
        digest_of (md5_transform buf (memcpy_at last 56 size)))
    else (let last = memcpy_at marked (count + 1) (replicate (left - 8) 0) in
        digest_of (md5_transform ctx.buf (memcpy_at last 56 size)))

abbrev pub blank : List ℕ
blank = replicate 64 0
