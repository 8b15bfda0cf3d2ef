-- ===== src/Tests/DigestTests.antt =====
-- Digest authentication (digestauth.c) on a header as a client writes it, and on one with a nonce that is too short.
use icwmp.Prelude.{◌-◌, ◌<◌, ◌≡◌, ◌↔◌, refl, true, false, none, some, [], ◌∷◌, arith, length, drop}
use icwmp.Prelude.Text.{Text, codes, is_prefix, strcmp}
use icwmp.Md5.{
  md5_init, md5_update, md5_final, md5_transform, md5_absorb, md5_blocks, add_bits, digest_of,
  memcpy_at,
}
use icwmp.Digest.{
  Request, mhd_yes, calculate_nonce, nonce_priv_key, check_nonce, check_response,
  http_digest_auth_check, digest_calc_ha1, digest_calc_response,
}
use icwmp.Digest.Lookup.{lookup_sub_value, lookup_loop, lookup_sub_value_bound}
use icwmp.Digest.Hex.{cvthex, strtoul16, hex_digit, strtoul16-cvthex}
use icwmp.Digest.Check.{
  IsGenuine, NamesUser, nonce_of, uri_of, http_digest_auth_check_sound,
  http_digest_auth_check_out_of_bounds,
}
use icwmp.Digest.Fuel.{lookup_loop_ends}
use icwmp.Digest.Nonce.{calculate_nonce_time, check_nonce_fresh}

abbrev request : Text → Request
request h = record {
  http_method = codes "GET";
  url = codes "/";
  header = h;
  realm = codes "cr";
  username = codes "acs";
  password = codes "pw";
  nonce_timeout = 300;
  now = 1100;
  long_max = 9223372036854775807;
  erange = false;
}

abbrev answered : Request
answered = request (
    codes
      "username=\"acs\", realm=\"cr\", nonce=\"23324e5d274b322fb776b7bcbcaab253000003e8\", uri=\"/\", response=\"4265241f117019c6971d732572112523\", qop=auth, nc=00000001, cnonce=\"c1\"")

abbrev short_nonce : Request
short_nonce = request (codes "username=\"acs\", realm=\"cr\", nonce=\"abc\", uri=\"/\"")

answered_accepted : http_digest_auth_check answered ≡ some mhd_yes
unfolding http_digest_auth_check check_nonce check_response calculate_nonce digest_calc_ha1
    digest_calc_response lookup_sub_value lookup_loop cvthex strtoul16 hex_digit md5_init md5_update
    md5_final md5_transform md5_absorb md5_blocks add_bits digest_of memcpy_at strcmp is_prefix
answered_accepted = refl

http_digest_auth_check_sound_example :
    NamesUser answered × IsGenuine answered (nonce_of answered) (uri_of answered)
http_digest_auth_check_sound_example = http_digest_auth_check_sound answered answered_accepted

short_nonce_undefined : http_digest_auth_check short_nonce ≡ none
unfolding http_digest_auth_check lookup_sub_value lookup_loop strcmp
short_nonce_undefined = refl

http_digest_auth_check_out_of_bounds_example : (http_digest_auth_check short_nonce ≡ none) ↔ (
    NamesUser short_nonce
    × (0 < length short_nonce.username)
    × (0 < length short_nonce.realm)
    × (0 < length (nonce_of short_nonce))
    × (0 < length (uri_of short_nonce))
    × (length (nonce_of short_nonce) < 8))
http_digest_auth_check_out_of_bounds_example = http_digest_auth_check_out_of_bounds short_nonce

abbrev issued_nonce : Text
issued_nonce = calculate_nonce 1000 (codes "GET") nonce_priv_key (codes "/") (codes "cr")

calculate_nonce_time_example :
    strtoul16 18446744073709551615 (drop (length issued_nonce - 8) issued_nonce) ≡ (1000, [])
calculate_nonce_time_example =
    calculate_nonce_time 18446744073709551615 1000 (codes "GET") nonce_priv_key (codes "/")
      (codes "cr") (omega arith) (omega arith)

root_matches : is_prefix (codes "/") (codes "/x") ≡ true
unfolding is_prefix
root_matches = refl

check_nonce_fresh_example :
    check_nonce answered issued_nonce (codes "/x")
    ≡ check_response answered issued_nonce (codes "/x")
check_nonce_fresh_example =
    check_nonce_fresh answered 1000 (codes "/x") (omega arith) (omega arith) (omega arith)
      (omega arith) root_matches

lookup_sub_value_bound_example : length (lookup_sub_value 3 answered.header (codes "realm")) < 3
lookup_sub_value_bound_example =
    lookup_sub_value_bound 3 answered.header (codes "realm") (omega arith)

strtoul16-cvthex_example : strtoul16 65535 (cvthex (18 ∷ 52 ∷ [])) ≡ (4660, [])
strtoul16-cvthex_example =
    strtoul16-cvthex 65535 18 (52 ∷ []) (omega arith, (omega arith, tt)) (omega arith)

lookup_loop_ends_example :
    (v : Text) × (lookup_loop 12 4 (codes "nc=1, q=2") (codes "q") ≡ some v)
    × (lookup_loop 9 4 (codes "nc=1, q=2") (codes "q") ≡ some v)
lookup_loop_ends_example = lookup_loop_ends 12 4 (codes "nc=1, q=2") (codes "q") (omega arith)
