-- ===== src/Digest/Check.antt =====
-- What http_digest_auth_check (digestauth.c) accepts, and where it reads before its buffer.
use icwmp.Prelude.{
  ℕ, ◌+◌, ◌-◌, ◌*◌, ◌≤◌, ◌<◌, ◌≡◌, ◌↔◌, sym, subst, true, none, some, arith, length, drop,
}
use icwmp.Prelude.Text.{is_prefix, Text, codes, str_eq, str_eq_sound, str_eq_self}
use icwmp.Md5.{u32}
use icwmp.Digest.{
  Request, calculate_nonce, nonce_priv_key, check_nonce, check_response, http_digest_auth_check,
  digest_calc_ha1, digest_calc_response, max_nonce_length, max_username_length, max_realm_length,
  max_auth_response_length, mhd_yes,
}
use icwmp.Digest.Lookup.{lookup_sub_value}
use icwmp.Digest.Hex.{strtoul16}

-- The fields of the header, and the time that a nonce carries in its last eight characters.
module _ (q : Request) where
  abbrev pub nonce_of : Text
  nonce_of = lookup_sub_value max_nonce_length q.header (codes "nonce")

  abbrev pub nonce_time_of : ℕ
  nonce_time_of = u32 (strtoul16 (2 * q.long_max + 1) (drop (length nonce_of - 8) nonce_of)).0

  abbrev pub response_of : Text
  response_of = lookup_sub_value max_auth_response_length q.header (codes "response")

  -- The response of one who knows the password.
  abbrev pub expected_response : Text → Text → Text
  expected_response nonce uri =
      let cnonce = lookup_sub_value max_nonce_length q.header (codes "cnonce") in
      let ha1 = digest_calc_ha1 (codes "md5") q.username q.realm q.password nonce cnonce in
      let nc = lookup_sub_value 20 q.header (codes "nc") in
      let qop = lookup_sub_value 15 q.header (codes "qop") in
      digest_calc_response ha1 nonce nc cnonce qop q.http_method uri

-- What an accepted answer with a nonce and a uri proves of its sender.
pub record IsGenuine (q : Request) (nonce uri : Text) : Type 0 where
  pub stamp : ℕ
  pub issued : nonce ≡ calculate_nonce stamp q.http_method nonce_priv_key q.url q.realm
  pub not_expired : u32 q.now ≤ u32 (stamp + q.nonce_timeout)
  pub below_url : is_prefix q.url uri ≡ true
  pub knows_password : response_of q ≡ expected_response q nonce uri

check_response_sound :
    (q : Request) (nonce uri : Text)
    → check_response q nonce uri ≡ mhd_yes
    → response_of q ≡ expected_response q nonce uri
unfolding check_response
check_response_sound q nonce uri h =
    ground (arith, str_eq_sound (response_of q) (expected_response q nonce uri))

check_nonce_sound :
    (q : Request) (nonce uri : Text) → check_nonce q nonce uri ≡ mhd_yes → IsGenuine q nonce uri
unfolding check_nonce
check_nonce_sound q nonce uri h =
    let time = u32 (strtoul16 (2 * q.long_max + 1) (drop (length nonce - 8) nonce)).0 in
    let expected = calculate_nonce time q.http_method nonce_priv_key q.url q.realm in
    let accepted : check_response q nonce uri ≡ mhd_yes = ground arith in
    record {
      stamp = time;
      issued = str_eq_sound nonce expected (ground arith);
      not_expired = ground arith;
      below_url = ground arith;
      knows_password = check_response_sound q nonce uri accepted;
    }

-- The fields of the header that come before the nonce are those of the request.
pub record NamesUser (q : Request) : Type 0 where
  pub user : lookup_sub_value max_username_length q.header (codes "username") ≡ q.username
  pub realm_named : lookup_sub_value max_realm_length q.header (codes "realm") ≡ q.realm

abbrev pub uri_of : Request → Text
uri_of q =
    let un = lookup_sub_value max_username_length q.header (codes "username") in
    let r = lookup_sub_value max_realm_length q.header (codes "realm") in
    let left = length q.header - (8 + length un) - (5 + length r) - (5 + length (nonce_of q)) in
    lookup_sub_value left q.header (codes "uri")

-- Where http_digest_auth_check answers yes, the header names the user and the realm of the request,
-- its nonce is one that calculate_nonce makes for some time, the method, the url and the realm, the
-- clock is not past that time and the timeout (both as 32-bit numbers), its uri begins with the
-- url, and its response is the digest that the password gives for its other fields.
pub http_digest_auth_check_sound :
    (q : Request)
    → http_digest_auth_check q ≡ some mhd_yes
    → NamesUser q × IsGenuine q (nonce_of q) (uri_of q)
unfolding http_digest_auth_check
http_digest_auth_check_sound q h =
    let un = lookup_sub_value max_username_length q.header (codes "username") in
    let r = lookup_sub_value max_realm_length q.header (codes "realm") in
    let accepted : check_nonce q (nonce_of q) (uri_of q) ≡ mhd_yes = ground arith in
    (
      record {
        user = sym (str_eq_sound q.username un (ground arith));
        realm_named = sym (str_eq_sound q.realm r (ground arith));
      },
      check_nonce_sound q (nonce_of q) (uri_of q) accepted,
    )

-- http_digest_auth_check reads before its buffer exactly where the header names the user and the
-- realm, neither of them empty, and has a uri and a nonce, and the nonce has less than eight
-- characters.
pub http_digest_auth_check_out_of_bounds :
    (q : Request)
    → (http_digest_auth_check q ≡ none) ↔ (
        NamesUser q
        × (0 < length q.username)
        × (0 < length q.realm)
        × (0 < length (nonce_of q))
        × (0 < length (uri_of q))
        × (length (nonce_of q) < 8))
unfolding http_digest_auth_check
http_digest_auth_check_out_of_bounds q =
    let un = lookup_sub_value max_username_length q.header (codes "username") in
    let r = lookup_sub_value max_realm_length q.header (codes "realm") in
    (
      λ e.
          let user : un ≡ q.username = sym (str_eq_sound q.username un (ground arith)) in
          let named : r ≡ q.realm = sym (str_eq_sound q.realm r (ground arith)) in
          (
            record { user = user; realm_named = named },
            subst (λ t. 0 < length t) user (ground arith),
            subst (λ t. 0 < length t) named (ground arith),
            ground arith,
            ground arith,
            ground arith,
          ),
      λ (names, has_user, has_realm, has_nonce, has_uri, short).
          let user : str_eq q.username un ≡ true = rw (names.user) (str_eq_self q.username) in
          let named : str_eq q.realm r ≡ true = rw (names.realm_named) (str_eq_self q.realm) in
          let has_un : 0 < length un = subst (λ t. 0 < length t) (sym names.user) has_user in
          let has_r : 0 < length r = subst (λ t. 0 < length t) (sym names.realm_named) has_realm in
          ground arith,
    )
