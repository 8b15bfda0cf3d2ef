-- ===== src/Digest/Nonce.antt =====
-- The nonce of a challenge (calculate_nonce in digestauth.c) carries the time of its issue, and is taken
-- back for as long as it lives.
use icwmp.Prelude.{
  ℕ, zero, suc, ◌+◌, ◌-◌, ◌*◌, ◌/◌, ◌%◌, ◌≤◌, ◌<◌, ◌≡◌, refl, ap, ◌∙◌, true, List, [], ◌∷◌, ◌++◌,
  arith, length, length-append, drop, All,
}
use icwmp.Prelude.Text.{is_prefix, Text, str_eq, str_eq_self}
use icwmp.Md5.{u32, word}
use icwmp.Digest.{Request, calculate_nonce, nonce_priv_key, timestamp, check_nonce, check_response}
use icwmp.Digest.Hex.{cvthex, strtoul16, strtoul16-cvthex, be_value}

drop-append {ℓ} : {A : Type ℓ} (n : ℕ) (xs ys : List A) → n ≡ length xs → drop n (xs ++ ys) ≡ ys
drop-append zero [] ys h = refl
drop-append zero (x ∷ xs) ys h = ground arith
drop-append (suc n) [] ys h = ground arith
drop-append (suc n) (x ∷ xs) ys h = drop-append n xs ys (omega arith)

-- The last characters of a text that ends in `ys`.
drop-last {ℓ} : {A : Type ℓ} (xs ys : List A) → drop (length (xs ++ ys) - length ys) (xs ++ ys) ≡ ys
drop-last xs ys =
    drop-append (length (xs ++ ys) - length ys) xs ys (omega (arith, length-append xs ys))

be_value-timestamp : (t : ℕ) → t < word → be_value 0 (timestamp t) ≡ t
be_value-timestamp t h = omega arith

timestamp-All : (t : ℕ) → All (λ x. x < 256) (timestamp t)
timestamp-All t = ground arith

strtoul16-timestamp :
    (ulong_max t : ℕ)
    → t < word
    → word ≤ suc ulong_max
    → strtoul16 ulong_max (cvthex (timestamp t)) ≡ (t, [])
strtoul16-timestamp ulong_max t h fits =
    strtoul16-cvthex ulong_max (t / 16777216 % 256) (t / 65536 % 256 ∷ t / 256 % 256 ∷ t % 256 ∷ [])
      (timestamp-All t) (omega (arith, be_value-timestamp t h))
    ∙ ap (λ n. (n, [])) (be_value-timestamp t h)

stamp_at_the_end :
    (hash : Text) (ulong_max t : ℕ)
    → t < word
    → word ≤ suc ulong_max
    → strtoul16 ulong_max
        (drop (length (hash ++ cvthex (timestamp t)) - 8) (hash ++ cvthex (timestamp t)))
      ≡ (t, [])
unfolding cvthex
stamp_at_the_end hash ulong_max t h fits =
    ap (strtoul16 ulong_max) (drop-last hash (cvthex (timestamp t)))
    ∙ strtoul16-timestamp ulong_max t h fits

calculate_nonce_ends :
    (t : ℕ) (method rnd url realm : Text)
    → (hash : Text) × (calculate_nonce t method rnd url realm ≡ hash ++ cvthex (timestamp t))
unfolding calculate_nonce
calculate_nonce_ends t method rnd url realm = (_, refl)

-- The last eight characters of what calculate_nonce makes for a 32-bit time are read by strtoul at
-- base 16 as that time, to their end, where an unsigned long has 32 bits at least.
pub calculate_nonce_time :
    (ulong_max t : ℕ) (method rnd url realm : Text)
    → t < word
    → word ≤ suc ulong_max
    → let nonce = calculate_nonce t method rnd url realm in
      strtoul16 ulong_max (drop (length nonce - 8) nonce) ≡ (t, [])
calculate_nonce_time ulong_max t method rnd url realm h fits =
    let (hash, ends) = calculate_nonce_ends t method rnd url realm in
    rw ends (stamp_at_the_end hash ulong_max t h fits)

-- A nonce that calculate_nonce made at a time t for the method, the url and the realm of a request
-- passes the tests of the nonce from t until t and the timeout, for a uri that begins with the url:
-- the answer is that of the tests on the other fields. The end of its life is below 2 ^ 32, and an
-- unsigned long has 32 bits at least.
pub check_nonce_fresh :
    (q : Request) (t : ℕ) (uri : Text)
    → t ≤ q.now
    → q.now ≤ t + q.nonce_timeout
    → t + q.nonce_timeout < word
    → word ≤ 2 * (q.long_max + 1)
    → is_prefix q.url uri ≡ true
    → let nonce = calculate_nonce t q.http_method nonce_priv_key q.url q.realm in
      check_nonce q nonce uri ≡ check_response q nonce uri
unfolding check_nonce
check_nonce_fresh q t uri issued lives fits long below =
    let nonce = calculate_nonce t q.http_method nonce_priv_key q.url q.realm in
    let stamp : (strtoul16 (2 * q.long_max + 1) (drop (length nonce - 8) nonce)).0 ≡ t =
      ap (λ r. r.0)
        (calculate_nonce_time (2 * q.long_max + 1) t q.http_method nonce_priv_key q.url q.realm
          (omega arith) (omega arith)) in
    let same_time : u32 (strtoul16 (2 * q.long_max + 1) (drop (length nonce - 8) nonce)).0 ≡ t =
      omega arith in
    let same_nonce : str_eq nonce nonce ≡ true = str_eq_self nonce in
    rw (same_time, below, same_nonce) (ground arith)
