-- ===== src/Digest.antt =====
-- HTTP digest authentication of connection requests (digestauth.c): the hashes and the check.
pub mod Lookup
pub mod Hex
pub mod Check
pub mod Nonce
pub mod Fuel
use icwmp.Prelude.{
  ℕ, ◌+◌, ◌-◌, ◌*◌, ◌/◌, ◌%◌, Bool, true, false, ◌&&◌, ◌||◌, not, Option, none, some, List, [], ◌∷◌,
  ◌++◌, length, take, drop, ltb, leb, ◌==◌, if◌then◌else◌,
}
use icwmp.Prelude.Text.{str_ieq, is_prefix, Text, codes, str_eq}
use icwmp.Md5.{Md5Context, md5_init, md5_update, md5_final, blank, u32, word}
use icwmp.Digest.Lookup.{lookup_sub_value}
use icwmp.Digest.Hex.{cvthex, strtoul16}

abbrev colon : Text
colon = codes ":"

abbrev pub nonce_priv_key : Text
nonce_priv_key = codes "h5ffku7rlxp6tjf2xamnfqjev5ul"

-- timestamp[0..3]: the bytes of the time, the highest first.
abbrev pub timestamp : ℕ → Text
timestamp t = t / 16777216 % 256 ∷ t / 65536 % 256 ∷ t / 256 % 256 ∷ t % 256 ∷ []

unfoldable pub calculate_nonce : ℕ → Text → Text → Text → Text → Text
calculate_nonce nonce_time method rnd uri realm =
    let m0 = md5_update (md5_init blank) (timestamp nonce_time) in
    let m1 = md5_update (md5_update (md5_update m0 colon) method) colon in
    let m2 = if ltb 0 (length rnd) then md5_update m1 rnd else m1 in
    let m3 = md5_update (md5_update (md5_update (md5_update m2 colon) uri) colon) realm in
    cvthex (md5_final m3) ++ cvthex (timestamp nonce_time)

unfoldable pub digest_calc_ha1 : Text → Text → Text → Text → Text → Text → Text
digest_calc_ha1 alg username realm password nonce cnonce =
    let m0 = md5_update (md5_update (md5_init blank) username) colon in
    let m1 = md5_update (md5_update (md5_update m0 realm) colon) password in
    let ha1 = md5_final m1 in
    let s0 = md5_update (md5_update (md5_init blank) ha1) colon in
    let s1 = md5_update (md5_update (md5_update s0 nonce) colon) cnonce in
    if str_ieq alg (codes "md5-sess") then cvthex (md5_final s1) else cvthex ha1

unfoldable pub digest_calc_response : Text → Text → Text → Text → Text → Text → Text → Text
digest_calc_response ha1 nonce noncecount cnonce qop method uri =
    let a0 = md5_update (md5_update (md5_update (md5_init blank) method) colon) uri in
    let ha2hex = cvthex (md5_final a0) in
    let r0 = md5_update (md5_update (md5_init blank) (take 32 ha1)) colon in
    let r1 = md5_update (md5_update r0 nonce) colon in
    let q0 = md5_update (md5_update r1 noncecount) colon in
    let q1 = md5_update (md5_update q0 cnonce) colon in
    let q2 = md5_update (md5_update q1 qop) colon in
    let r2 = if ltb 0 (length qop) then q2 else r1 in cvthex (md5_final (md5_update r2 ha2hex))

pub data AuthRet : Type 0 where
  mhd_yes mhd_no mhd_invalid_nonce : AuthRet

-- What the caller and the machine give: the time in seconds, LONG_MAX, and whether `errno` is ERANGE
-- after the last strtoul.
pub record Request : Type 0 where
  pub http_method : Text
  pub url : Text
  pub header : Text
  pub realm : Text
  pub username : Text
  pub password : Text
  pub nonce_timeout : ℕ
  pub now : ℕ
  pub long_max : ℕ
  pub erange : Bool

abbrev pub max_username_length : ℕ
max_username_length = 128

abbrev pub max_realm_length : ℕ
max_realm_length = 256

abbrev pub max_auth_response_length : ℕ
max_auth_response_length = 128

abbrev pub max_nonce_length : ℕ
max_nonce_length = 129

-- The last part: the fields of the response, and the comparison of the digests.
unfoldable pub check_response : Request → Text → Text → AuthRet
check_response q nonce uri =
    let cnonce = lookup_sub_value max_nonce_length q.header (codes "cnonce") in
    let qop = lookup_sub_value 15 q.header (codes "qop") in
    let nc = lookup_sub_value 20 q.header (codes "nc") in
    let response = lookup_sub_value max_auth_response_length q.header (codes "response") in
    let (nci, end) = strtoul16 (2 * q.long_max + 1) nc in
    let ha1 = digest_calc_ha1 (codes "md5") q.username q.realm q.password nonce cnonce in
    let respexp = digest_calc_response ha1 nonce nc cnonce qop q.http_method uri in
    if length cnonce == 0
      || (length qop == 0
          || ((not (str_eq qop (codes "auth")) && not (str_eq qop []))
              || (length nc == 0 || length response == 0)))
    then mhd_no
    else if not (length end == 0) || (nci == q.long_max && q.erange)
    then mhd_no
    else if str_eq response respexp
    then mhd_yes
    else mhd_no

-- `nonce` has at least eight characters, its last eight are the time.
unfoldable pub check_nonce : Request → Text → Text → AuthRet
check_nonce q nonce uri =
    let stamp = drop (length nonce - 8) nonce in
    let nonce_time = u32 (strtoul16 (2 * q.long_max + 1) stamp).0 in
    let limit = u32 (nonce_time + q.nonce_timeout) in
    let expected = calculate_nonce nonce_time q.http_method nonce_priv_key q.url q.realm in
    if ltb limit (u32 q.now) || ltb limit nonce_time
    then mhd_invalid_nonce
    else if not (is_prefix q.url uri)
    then mhd_no
    else if not (str_eq nonce expected)
    then mhd_invalid_nonce
    else check_response q nonce uri

-- `none` is undefined behaviour: the code reads the time at `nonce + len - 8`, before its buffer where
-- `len` is below eight.
unfoldable pub http_digest_auth_check : Request → Option AuthRet
http_digest_auth_check q =
    let un = lookup_sub_value max_username_length q.header (codes "username") in
    let r = lookup_sub_value max_realm_length q.header (codes "realm") in
    let nonce = lookup_sub_value max_nonce_length q.header (codes "nonce") in
    let left = length q.header - (8 + length un) - (5 + length r) - (5 + length nonce) in
    let uri = lookup_sub_value left q.header (codes "uri") in
    if length un == 0 || not (str_eq q.username un)
    then some mhd_no
    else if length r == 0 || not (str_eq q.realm r)
    then some mhd_no
    else if length nonce == 0
    then some mhd_no
    else if length uri == 0
    then some mhd_no
    else if ltb (length nonce) 8
    then none
    else some (check_nonce q nonce uri)

-- The header that http_digest_auth_fail_response writes, behind `WWW-Authenticate: `.
unfoldable pub http_digest_auth_fail_response : ℕ → Text → Text → Text → Text → Text
http_digest_auth_fail_response now method url realm opaque =
    let nonce = calculate_nonce (u32 now) method nonce_priv_key url realm in
    codes "Digest realm=\""
    ++ (realm
        ++ (codes "\",qop=\"auth\",nonce=\""
            ++ (nonce ++ (codes "\",opaque=\"" ++ (opaque ++ codes "\"")))))
