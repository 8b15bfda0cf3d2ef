-- ===== src/Md5/Update.antt =====
-- MD5Update in one call or in several (md5.c).
use icwmp.Prelude.{
  ap₂, ℕ, ◌+◌, ◌*◌, ◌/◌, ◌%◌, ◌<◌, ◌≡◌, sym, ap, ◌∙◌, List, ◌++◌, arith, length, length-append,
}
use icwmp.Md5.{Buf, Md5Context, md5_update, md5_absorb, add_bits, word}
use icwmp.Md5.Stream.{feed, next_position, feed-append, md5_absorb-feed}

-- The bits fit in two words, and count whole bytes.
pub record IsValid (ctx : Md5Context) : Type 0 where
  pub low : ctx.bits0 < word
  pub high : ctx.bits1 < word
  pub whole : ctx.bits0 % 8 ≡ 0

-- Both words as one number, modulo 2 ^ 64.
pub add_bits_lem :
    (b0 b1 len : ℕ)
    → b0 < word
    → b1 < word
    → len < word
    → ((add_bits b0 b1 len).0 < word)
      × ((add_bits b0 b1 len).1 < word)
      × ((add_bits b0 b1 len).0 + word * (add_bits b0 b1 len).1
          ≡ (b0 + word * b1 + 8 * len) % 18446744073709551616)
unfolding add_bits
add_bits_lem b0 b1 len h k l = ground arith

pub add_bits_low : (b0 b1 len : ℕ) → (add_bits b0 b1 len).0 ≡ (b0 + 8 * len) % word
unfolding add_bits
add_bits_low b0 b1 len = omega arith

add_bits-add :
    (b0 b1 m n : ℕ)
    → b0 < word
    → b1 < word
    → m + n < word
    → let r = add_bits b0 b1 m in add_bits r.0 r.1 n ≡ add_bits b0 b1 (m + n)
add_bits-add b0 b1 m n h k l =
    let (a0, a1, a) = add_bits_lem b0 b1 m h k (omega arith) in
    let r = add_bits b0 b1 m in
    let two = add_bits_lem r.0 r.1 n a0 a1 (omega arith) in
    let all = add_bits_lem b0 b1 (m + n) h k l in
    ap₂ (λ a b. (a, b)) (omega (arith, a, two, all)) (omega (arith, a, two, all))

-- MD5Update on a valid context and a text shorter than 2 ^ 32 bytes leaves a valid context, in
-- which the two words of the count of bits are one number that has grown by eight times the length,
-- modulo 2 ^ 64, and the state and the buffer are those that the bytes give one at a time: each
-- goes to the next place of the buffer, and the 64th makes a block.
pub md5_update_lem :
    (ctx : Md5Context) (data_ : List ℕ)
    → IsValid ctx
    → length data_ < word
    → let d = md5_update ctx data_ in
      IsValid d
      × (d.bits0 + word * d.bits1
          ≡ (ctx.bits0 + word * ctx.bits1 + 8 * length data_) % 18446744073709551616)
      × ((d.buf, d.block) ≡ feed ctx.buf ctx.block (ctx.bits0 / 8 % 64) data_)
unfolding md5_update
md5_update_lem ctx data_ v l =
    let (low, high, both) = add_bits_lem ctx.bits0 ctx.bits1 (length data_) v.low v.high l in
    (
      record {
        low = low;
        high = high;
        whole = omega (arith, v.whole, add_bits_low ctx.bits0 ctx.bits1 (length data_));
      },
      both,
      md5_absorb-feed ctx.buf ctx.block (ctx.bits0 / 8 % 64) data_ (omega arith),
    )

-- Two calls of MD5Update on a valid context leave the same context as one call on both texts, the
-- unused bytes of its buffer included, if their lengths sum to a 32-bit number.
pub md5_update-append :
    (ctx : Md5Context) (xs ys : List ℕ)
    → IsValid ctx
    → length xs + length ys < word
    → md5_update (md5_update ctx xs) ys ≡ md5_update ctx (xs ++ ys)
unfolding md5_update
md5_update-append ctx xs ys v l = λ i. record {
  buf = (absorbed i).0;
  bits0 = (bits i).0;
  bits1 = (bits i).1;
  block = (absorbed i).1;
}
  where
    t : ℕ
    t = ctx.bits0 / 8 % 64

    t' : ℕ
    t' = (add_bits ctx.bits0 ctx.bits1 (length xs)).0 / 8 % 64

    moved : t' ≡ next_position t xs
    moved = omega (arith, v.whole, add_bits_low ctx.bits0 ctx.bits1 (length xs))

    first : md5_absorb ctx.buf ctx.block t xs ≡ feed ctx.buf ctx.block t xs
    first = md5_absorb-feed ctx.buf ctx.block t xs (omega arith)

    r : Buf × List ℕ
    r = md5_absorb ctx.buf ctx.block t xs

    absorbed : md5_absorb r.0 r.1 t' ys ≡ md5_absorb ctx.buf ctx.block t (xs ++ ys)
    absorbed =
        md5_absorb-feed r.0 r.1 t' ys (omega arith)
        ∙ ap (λ k. feed r.0 r.1 k ys) moved
        ∙ ap (λ (p : Buf × List ℕ). feed p.0 p.1 (next_position t xs) ys) first
        ∙ sym (feed-append xs ys ctx.buf ctx.block t (omega arith))
        ∙ sym (md5_absorb-feed ctx.buf ctx.block t (xs ++ ys) (omega arith))

    low_high : ℕ × ℕ
    low_high = add_bits ctx.bits0 ctx.bits1 (length xs)

    bits :
        add_bits low_high.0 low_high.1 (length ys)
        ≡ add_bits ctx.bits0 ctx.bits1 (length (xs ++ ys))
    bits =
        add_bits-add ctx.bits0 ctx.bits1 (length xs) (length ys) v.low v.high l
        ∙ ap (add_bits ctx.bits0 ctx.bits1) (sym (length-append xs ys))
