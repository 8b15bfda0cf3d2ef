-- ===== src/Md5/Final.antt =====
-- MD5Final against the textbook: the digest of a text is the fold of the block function over the padded
-- text (md5.c).
use icwmp.Prelude.{
  ap₂, ℕ, zero, suc, ◌+◌, ◌-◌, ◌*◌, ◌/◌, ◌%◌, ◌<◌, ◌≡◌, refl, sym, ap, ◌∙◌, List, [], ◌∷◌, ◌++◌,
  arith, length, ltb, Bool-cases, inl, inr, ◌⊎◌, length-append, take, drop, modify, replicate,
  append_assoc, append-nil, length-take, length-drop, take-append-drop,
}
use icwmp.Md5.{
  Buf, Md5Context, md5_init, md5_update, md5_final, md5_transform, md5_absorb, word, memcpy_at,
  le_bytes, digest_of,
}
use icwmp.Md5.Update.{add_bits_low, add_bits_lem}
use icwmp.Md5.Stream.{feed, feed_full, feed-append_at, md5_absorb-feed}

-- The block function over `n` blocks.
unfoldable pub fold_blocks : ℕ → Buf → List ℕ → Buf
fold_blocks zero buf bs = buf
fold_blocks (suc n) buf bs = fold_blocks n (md5_transform buf (take 64 bs)) (drop 64 bs)

-- A one, as many zeros as bring the length to 56 modulo 64, and the number of bits.
abbrev zeros : ℕ → ℕ
zeros n = (119 - n % 64) % 64

unfoldable pub padding : ℕ → List ℕ
unfolding le_bytes
padding n =
    0x80 ∷ (replicate (zeros n) 0 ++ (le_bytes (8 * n % word) ++ le_bytes (8 * n / word % word)))

unfoldable pub rfc_md5 : List ℕ → List ℕ
unfolding fold_blocks padding
rfc_md5 m =
    digest_of (fold_blocks ((length m + 72) / 64) (md5_init []).buf (m ++ padding (length m)))

length-zeros : (n : ℕ) → length (replicate {A = ℕ} n 0) ≡ n
length-zeros zero = refl
length-zeros (suc n) = ap suc (length-zeros n)

length-padding : (n : ℕ) → length (padding n) ≡ 9 + zeros n
unfolding padding
length-padding n = omega (
  arith,
  length-append (replicate {A = ℕ} (zeros n) 0)
      (le_bytes (8 * n % word) ++ le_bytes (8 * n / word % word)),
  length-zeros (zeros n),
)

memcpy_at-append :
    (xs ys dest : List ℕ) (t : ℕ)
    → memcpy_at dest t (xs ++ ys) ≡ memcpy_at (memcpy_at dest t xs) (t + length xs) ys
unfolding memcpy_at
memcpy_at-append [] ys dest t = ap (λ k. memcpy_at dest k ys) (omega arith)
memcpy_at-append (x ∷ xs) ys dest t =
    memcpy_at-append xs ys (modify dest t (λ _. x)) (t + 1)
    ∙ ap (λ k. memcpy_at (memcpy_at (modify dest t (λ _. x)) (t + 1) xs) k ys) (omega arith)

length-modify : (d : List ℕ) (t x : ℕ) → length (modify d t (λ _. x)) ≡ length d
length-modify [] t x = refl
length-modify (y ∷ d) zero x = refl
length-modify (y ∷ d) (suc t) x = ap suc (length-modify d t x)

length-memcpy_at : (xs d : List ℕ) (t : ℕ) → length (memcpy_at d t xs) ≡ length d
unfolding memcpy_at
length-memcpy_at [] d t = refl
length-memcpy_at (x ∷ xs) d t =
    length-memcpy_at xs (modify d t (λ _. x)) (t + 1) ∙ length-modify d t x

modify-prefix :
    (pre rest : List ℕ) (r x : ℕ) → modify (pre ++ r ∷ rest) (length pre) (λ _. x) ≡ pre ++ x ∷ rest
modify-prefix [] rest r x = refl
modify-prefix (p ∷ pre) rest r x = ap (◌∷◌ p) (modify-prefix pre rest r x)

memcpy_at-prefix :
    (xs pre rest : List ℕ) (t : ℕ)
    → length rest ≡ length xs
    → t ≡ length pre
    → memcpy_at (pre ++ rest) t xs ≡ pre ++ xs
unfolding memcpy_at
memcpy_at-prefix [] pre [] t h k = refl
memcpy_at-prefix [] pre (r ∷ rest) t h k = absurd (omega arith)
memcpy_at-prefix (x ∷ xs) pre [] t h k = absurd (omega arith)
memcpy_at-prefix (x ∷ xs) pre (r ∷ rest) t h k =
    ap (λ d. memcpy_at d (t + 1) xs)
      (ap (λ n. modify (pre ++ r ∷ rest) n (λ _. x)) k
        ∙ modify-prefix pre rest r x
        ∙ sym (append_assoc pre (x ∷ []) rest))
    ∙ memcpy_at-prefix xs (pre ++ x ∷ []) rest (t + 1) (omega arith)
        (omega (arith, length-append pre (x ∷ [])))
    ∙ append_assoc pre (x ∷ []) xs

-- A full copy leaves nothing of what was there.
memcpy_at_all : (xs d : List ℕ) → length d ≡ length xs → memcpy_at d 0 xs ≡ xs
memcpy_at_all xs d h = memcpy_at-prefix xs [] d 0 h refl

-- Whole blocks, one after the other.
feed-fold_blocks :
    (n : ℕ) (xs : List ℕ) (buf : Buf) (block : List ℕ)
    → length block ≡ 64
    → length xs ≡ 64 * n
    → (feed buf block 0 xs).0 ≡ fold_blocks n buf xs
unfolding fold_blocks
feed-fold_blocks zero [] buf block h k = unfold feed in refl
feed-fold_blocks zero (x ∷ xs) buf block h k = absurd (omega arith)
feed-fold_blocks (suc n) xs buf block h k =
    let whole = memcpy_at_all (take 64 xs) block (omega (arith, length-take 64 xs)) in
    ap (λ (l : List ℕ). (feed buf block 0 l).0) (sym (take-append-drop 64 xs))
    ∙ ap (λ (p : Buf × List ℕ). p.0)
        (feed_full (take 64 xs) (drop 64 xs) buf block 0 (omega arith)
          (omega (arith, length-take 64 xs)))
    ∙ ap (λ (b : List ℕ). (feed (md5_transform buf b) b 0 (drop 64 xs)).0) whole
    ∙ feed-fold_blocks n (drop 64 xs) (md5_transform buf (take 64 xs)) (take 64 xs)
        (omega (arith, length-take 64 xs)) (omega (arith, length-drop 64 xs))

replicate-add : (a b : ℕ) → replicate {A = ℕ} (a + b) 0 ≡ replicate a 0 ++ replicate b 0
replicate-add zero b = ap (λ n. replicate {A = ℕ} n 0) (omega arith)
replicate-add (suc a) b =
    let e : suc a + b ≡ suc (a + b) = omega arith in
    ap (λ n. replicate {A = ℕ} n 0) e ∙ ap (◌∷◌ 0) (replicate-add a b)

-- The last 64 bytes, as two copies.
feed_last :
    (xs ys : List ℕ) (buf : Buf) (block : List ℕ) (t : ℕ)
    → t < 64
    → t + length xs + length ys ≡ 64
    → 0 < length ys
    → (feed buf block t (xs ++ ys)).0
      ≡ md5_transform buf (memcpy_at (memcpy_at block t xs) (t + length xs) ys)
unfolding feed
feed_last xs ys buf block t l h p =
    ap (λ (zs : List ℕ). (feed buf block t zs).0) (sym (append-nil (xs ++ ys)))
    ∙ ap (λ (p : Buf × List ℕ). p.0)
        (feed_full (xs ++ ys) [] buf block t l (omega (arith, length-append xs ys)))
    ∙ ap (md5_transform buf) (memcpy_at-append xs ys block t)

-- One block more: the mark, the zeros and the size fit.
final_one :
    (buf : Buf) (block : List ℕ) (t z : ℕ) (size : List ℕ)
    → t < 64
    → t + z + 9 ≡ 64
    → length size ≡ 8
    → (feed buf block t (0x80 ∷ (replicate z 0 ++ size))).0
      ≡ md5_transform buf
          (memcpy_at (memcpy_at (memcpy_at block t (0x80 ∷ [])) (t + 1) (replicate z 0)) 56 size)
final_one buf block t z size l h k =
    let marked = 0x80 ∷ replicate {A = ℕ} z 0 in
    feed_last marked size buf block t l (omega (arith, length-zeros z)) (omega arith)
    ∙ ap (λ k. md5_transform buf (memcpy_at (memcpy_at block t marked) k size))
        (omega (arith, length-zeros z))
    ∙ ap (λ b. md5_transform buf (memcpy_at b 56 size))
        (memcpy_at-append (0x80 ∷ []) (replicate z 0) block t)

-- Two blocks: the mark and some zeros fill one, the other zeros and the size the next. `w` is 56.
final_two :
    (buf : Buf) (block : List ℕ) (t z w : ℕ) (size : List ℕ)
    → t < 64
    → t + z + 1 ≡ 64
    → w ≡ 56
    → length size ≡ 8
    → let full = memcpy_at (memcpy_at block t (0x80 ∷ [])) (t + 1) (replicate z 0) in
      (feed buf block t (0x80 ∷ (replicate (z + w) 0 ++ size))).0
      ≡ md5_transform (md5_transform buf full) (memcpy_at (memcpy_at full 0 (replicate w 0)) w size)
final_two buf block t z w size l h e k =
    let marked = 0x80 ∷ replicate {A = ℕ} z 0 in
    let rest = replicate {A = ℕ} w 0 ++ size in
    let filled = memcpy_at block t marked in
    ap (λ (zs : List ℕ). (feed buf block t (0x80 ∷ (zs ++ size))).0) (replicate-add z w)
    ∙ ap (λ (zs : List ℕ). (feed buf block t (0x80 ∷ zs)).0)
        (append_assoc (replicate z 0) (replicate w 0) size)
    ∙ ap (λ (p : Buf × List ℕ). p.0)
        (feed_full marked rest buf block t l (omega (arith, length-zeros z)))
    ∙ feed_last (replicate w 0) size (md5_transform buf filled) filled 0 (omega arith)
        (omega (arith, length-zeros w)) (omega arith)
    ∙ ap
        (λ k.
          md5_transform (md5_transform buf filled)
            (memcpy_at (memcpy_at filled 0 (replicate w 0)) k size))
        (omega (arith, length-zeros w))
    ∙ ap
        (λ f.
          md5_transform (md5_transform buf f) (memcpy_at (memcpy_at f 0 (replicate w 0)) w size))
        (memcpy_at-append (0x80 ∷ []) (replicate z 0) block t)

length-size : (a b : ℕ) → length (le_bytes a ++ le_bytes b) ≡ 8
unfolding le_bytes
length-size a b = refl

-- MD5Final feeds the mark, `z` zeros and the size.
md5_final-feed :
    (ctx : Md5Context) (z : ℕ)
    → (ctx.bits0 / 8 % 64 + z + 9 ≡ 64) ⊎ (ctx.bits0 / 8 % 64 + z + 9 ≡ 128)
    → z < 64
    → md5_final ctx
      ≡ digest_of
          (feed ctx.buf ctx.block
            (ctx.bits0 / 8 % 64)
            (0x80 ∷ (replicate z 0 ++ (le_bytes ctx.bits0 ++ le_bytes ctx.bits1)))).0
unfolding md5_final
md5_final-feed ctx z h l = elim (Bool-cases (ltb (64 - 1 - ctx.bits0 / 8 % 64) 8)) [
  | inl e ↦
      let t = ctx.bits0 / 8 % 64 in
      let size = le_bytes ctx.bits0 ++ le_bytes ctx.bits1 in
      let same : z ≡ 63 - t + 56 = ground arith in
      rw e (
        ap digest_of (
          sym (
            ap (λ k. (feed ctx.buf ctx.block t (0x80 ∷ (replicate k 0 ++ size))).0) same
            ∙ final_two ctx.buf ctx.block t (63 - t) 56 size (omega arith) (omega arith) refl
                (length-size ctx.bits0 ctx.bits1))))
  | inr e ↦
      let t = ctx.bits0 / 8 % 64 in
      let size = le_bytes ctx.bits0 ++ le_bytes ctx.bits1 in
      let same : z ≡ 63 - t - 8 = ground arith in
      rw e (
        ap digest_of (
          sym (
            ap (λ k. (feed ctx.buf ctx.block t (0x80 ∷ (replicate k 0 ++ size))).0) same
            ∙ final_one ctx.buf ctx.block t (63 - t - 8) size (omega arith) (ground arith)
                (length-size ctx.bits0 ctx.bits1))))
]

-- The digest that MD5Init, MD5Update and MD5Final compute of a text shorter than 2 ^ 32 bytes is
-- the textbook's: the text is padded with a one, with zeros and with its number of bits, and the
-- block function is folded over the blocks. What the 64 bytes of the block buffer held before
-- MD5Init does not matter.
pub md5_rfc :
    (garbage m : List ℕ)
    → length garbage ≡ 64
    → length m < word
    → md5_final (md5_update (md5_init garbage) m) ≡ rfc_md5 m
unfolding md5_init md5_update rfc_md5
md5_rfc garbage m g l =
    md5_final-feed ctx z fits (omega arith)
    ∙ ap digest_of (
        ap (λ (zs : List ℕ). (feed ctx.buf ctx.block t (0x80 ∷ (replicate z 0 ++ zs))).0) sizes
        ∙ ap (λ k. (feed ctx.buf ctx.block k (padding n)).0) moved
        ∙ ap (λ (p : Buf × List ℕ). (feed p.0 p.1 (n % 64) (padding n)).0) absorbed
        ∙ ap (λ (p : Buf × List ℕ). p.0)
            (sym (
              feed-append_at m (padding n) start.buf garbage 0 (n % 64) (omega arith)
                (omega arith)))
        ∙ feed-fold_blocks ((n + 72) / 64) (m ++ padding n) start.buf garbage g
            (omega (arith, length-append m (padding n), length-padding n)))
  where
    n : ℕ
    n = length m

    z : ℕ
    z = zeros n

    start : Md5Context
    start = md5_init garbage

    ctx : Md5Context
    ctx = md5_update start m

    t : ℕ
    t = ctx.bits0 / 8 % 64

    moved : t ≡ n % 64
    moved = omega (arith, add_bits_low 0 0 n)

    fits : (t + z + 9 ≡ 64) ⊎ (t + z + 9 ≡ 128)
    fits = omega (arith, moved)

    absorbed : md5_absorb start.buf garbage 0 m ≡ feed start.buf garbage 0 m
    absorbed = md5_absorb-feed start.buf garbage 0 m (omega arith)

    sizes :
        le_bytes ctx.bits0 ++ le_bytes ctx.bits1
        ≡ le_bytes (8 * n % word) ++ le_bytes (8 * n / word % word)
    sizes =
        ap₂ (λ a b. le_bytes a ++ le_bytes b) (omega (arith, add_bits_lem 0 0 n))
          (omega (arith, add_bits_lem 0 0 n))
