-- ===== src/Tests/Access.antt =====
-- The access checks on a host that is not a loopback address.
use open_bmb_vox_cpm2_infere.Common.{
  ◌≡◌, ◌≢◌, refl, true, false, Bool, Option, some, String, String_discrete, arith,
}
use open_bmb_vox_cpm2_infere.Auth.{
  AccessConfig, Bears, header, granted, is_loopback_host, verify_bearer_token,
  validate_bind_auth_policy, validate_bind_auth_policy-Bears,
}

abbrev config : AccessConfig
config = record {
  host = "0.0.0.0";
  api_token = some "secret";
  require_auth = true;
  allow_unauthenticated_external = false;
}

abbrev digest : String → String → Option Bool
digest s t = elim (String_discrete s t) [ yes p ↦ some true | no n ↦ some false ]

digest_equal : (s t : String) → digest s t ≡ some true → s ≡ t
digest_equal s t e =
    elim (String_discrete s t)
        as (λ d. (elim d [ yes p ↦ some true | no n ↦ some false ]) ≡ some true → s ≡ t) [
          | yes p ↦ λ q. p
          | no n ↦ λ q. ground arith
        ]
      e

external : is_loopback_host (λ h. h) (λ h. some false) "0.0.0.0" ≡ false
unfolding is_loopback_host String_discrete
external = refl

bound : validate_bind_auth_policy (λ h. h) (λ h. some false) config ≡ granted
unfolding validate_bind_auth_policy String_discrete
bound = refl

verified : verify_bearer_token digest config (header "Bearer secret") ≡ granted
unfolding verify_bearer_token String_discrete
verified = refl

validate_bind_auth_policy-Bears_example :
    (t : String) × (some "secret" ≡ some t) × (t ≢ "") × Bears (header "Bearer secret") t
validate_bind_auth_policy-Bears_example =
    validate_bind_auth_policy-Bears digest (λ h. h) (λ h. some false) config
      (header "Bearer secret") digest_equal external refl bound verified
