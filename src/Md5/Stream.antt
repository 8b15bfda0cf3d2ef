-- ===== src/Md5/Stream.antt =====
-- MD5Update one byte at a time: the specification of its buffering (md5.c).
use icwmp.Prelude.{
  ℕ, zero, suc, ◌+◌, ◌-◌, ◌*◌, ◌%◌, ◌≤◌, ◌<◌, ◌≡◌, refl, sym, ap, ◌∙◌, true, false, List, [], ◌∷◌,
  ◌++◌, arith, length, take, drop, modify, ltb, leb, ◌==◌, Bool-cases, inl, inr, take-append-drop,
  length-take, length-drop,
}
use icwmp.Md5.{Buf, md5_transform, memcpy_at, md5_blocks, md5_absorb}

-- A byte goes to position `t`; the 64th byte makes a block.
unfoldable pub feed : Buf → List ℕ → ℕ → List ℕ → Buf × List ℕ
feed buf block t [] = (buf, block)
feed buf block t (x ∷ xs) =
    let block' = modify block t (λ _. x) in
    elim (t == 63) [
      | true ↦ feed (md5_transform buf block') block' 0 xs
      | false ↦ feed buf block' (t + 1) xs
    ]

-- Bytes that do not fill the block are copied.
pub feed_short :
    (xs : List ℕ) (buf : Buf) (block : List ℕ) (t : ℕ)
    → t + length xs < 64
    → feed buf block t xs ≡ (buf, memcpy_at block t xs)
unfolding feed memcpy_at
feed_short [] buf block t h = refl
feed_short (x ∷ xs) buf block t h =
    let no63 : (t == 63) ≡ false = ground arith in
    rw (no63, feed) (feed_short xs buf (modify block t (λ _. x)) (t + 1) (omega arith))

-- Bytes that fill it are copied, and the block is absorbed.
pub feed_full :
    (xs ys : List ℕ) (buf : Buf) (block : List ℕ) (t : ℕ)
    → t < 64
    → t + length xs ≡ 64
    → feed buf block t (xs ++ ys)
      ≡ feed (md5_transform buf (memcpy_at block t xs)) (memcpy_at block t xs) 0 ys
unfolding feed memcpy_at
feed_full [] ys buf block t l h = absurd (omega arith)
feed_full (x ∷ []) ys buf block t l h =
    let is63 : (t == 63) ≡ true = ground arith in rw (is63, feed) refl
feed_full (x ∷ y ∷ xs) ys buf block t l h =
    let no63 : (t == 63) ≡ false = ground arith in
    rw (no63, feed)
      (feed_full (y ∷ xs) ys buf (modify block t (λ _. x)) (t + 1) (omega arith) (omega arith))

-- Where the next byte goes.
abbrev pub next_position : ℕ → List ℕ → ℕ
next_position t xs = (t + length xs) % 64

pub feed-append_at :
    (xs ys : List ℕ) (buf : Buf) (block : List ℕ) (t k : ℕ)
    → t < 64
    → k ≡ next_position t xs
    → feed buf block t (xs ++ ys) ≡ feed (feed buf block t xs).0 (feed buf block t xs).1 k ys
unfolding feed
feed-append_at [] ys buf block t k l h = ap (λ k. feed buf block k ys) (omega arith)
feed-append_at (x ∷ xs) ys buf block t k l h =
    let block' = modify block t (λ _. x) in
    elim (Bool-cases (t == 63)) [
      | inl e ↦
          rw (e, feed)
            (feed-append_at xs ys (md5_transform buf block') block' 0 k (omega arith)
              (ground arith))
      | inr e ↦
          rw (e, feed) (feed-append_at xs ys buf block' (t + 1) k (ground arith) (ground arith))
    ]

pub feed-append :
    (xs ys : List ℕ) (buf : Buf) (block : List ℕ) (t : ℕ)
    → t < 64
    → feed buf block t (xs ++ ys)
      ≡ feed (feed buf block t xs).0 (feed buf block t xs).1 (next_position t xs) ys
feed-append xs ys buf block t l = feed-append_at xs ys buf block t (next_position t xs) l refl

feed_block :
    (data_ : List ℕ) (n : ℕ) (buf : Buf) (block : List ℕ) (t : ℕ)
    → t < 64
    → t + n ≡ 64
    → n ≤ length data_
    → feed buf block t data_
      ≡ feed
          (md5_transform buf (memcpy_at block t (take n data_)))
          (memcpy_at block t (take n data_))
          0
          (drop n data_)
feed_block data_ n buf block t l h k =
    ap (feed buf block t) (sym (take-append-drop n data_))
    ∙ feed_full (take n data_) (drop n data_) buf block t l (omega (arith, length-take n data_))

-- The loop over whole blocks, with enough fuel.
pub md5_blocks-feed :
    (fuel : ℕ) (buf : Buf) (block rest : List ℕ)
    → length rest < 64 * suc fuel
    → md5_blocks fuel buf block rest ≡ feed buf block 0 rest
unfolding md5_blocks
md5_blocks-feed zero buf block rest h = sym (feed_short rest buf block 0 (omega arith))
md5_blocks-feed (suc fuel) buf block rest h = elim (Bool-cases (leb 64 (length rest))) [
  | inr e ↦ rw (e, md5_blocks) (sym (feed_short rest buf block 0 (ground arith)))
  | inl e ↦
      rw (e, md5_blocks)
        (md5_blocks-feed fuel _ (memcpy_at block 0 (take 64 rest)) (drop 64 rest)
            (omega (arith, length-drop 64 rest))
          ∙ sym (feed_block rest 64 buf block 0 (omega arith) refl (ground arith)))
]

-- MD5Update buffers as if it were given one byte at a time.
pub md5_absorb-feed :
    (buf : Buf) (block : List ℕ) (t : ℕ) (data_ : List ℕ)
    → t < 64
    → md5_absorb buf block t data_ ≡ feed buf block t data_
unfolding md5_absorb
md5_absorb-feed buf block t data_ l = elim (Bool-cases (t == 0)) [
  | inl e ↦
      let z : t ≡ 0 = ground arith in
      rw (e, md5_absorb) (rw z (md5_blocks-feed (length data_) buf block data_ (omega arith)))
  | inr e ↦ elim (Bool-cases (ltb (length data_) (64 - t))) [
    | inl f ↦ rw (e, f, md5_absorb) (sym (feed_short data_ buf block t (ground arith)))
    | inr f ↦
        rw (e, f, md5_absorb)
          (md5_blocks-feed (length data_) _ (memcpy_at block t (take (64 - t) data_))
              (drop (64 - t) data_) (omega (arith, length-drop (64 - t) data_))
            ∙ sym (feed_block data_ (64 - t) buf block t l (omega arith) (ground arith)))
  ]
]
