-- ===== src/Auth.antt =====
-- voxcpm_runtime/api_auth.py: the bearer token of a request and the policy on binding. Comparing
-- digests (hmac) and reading an address (ipaddress) belong to Python's library and are parameters.
use Prim.Native.String.{len, count, slice, ◌++◌}
use text.Mathlib.Text.{starts_with}
use text.Mathlib.TextEquality.{starts_with_iff}
use text.Mathlib.TextPositions.{len-append, slice-append_right}
use open_bmb_vox_cpm2_infere.Common.{
  ℕ, ◌≡◌, ◌≢◌, inl, inr, if_pos, if_neg, refl, sym, ap, ◌∙◌, subst, ltb, Bool, true, false, ◌&&◌,
  not, Option, none, some, String, String_discrete, List, [], ◌∷◌, arith, if◌then◌else◌, ite,
  Bool-cases,
}

-- The fields of RuntimeConfig that the access checks read.
pub record AccessConfig : Type 0 where
  pub host : String
  pub api_token : Option String
  pub require_auth : Bool
  pub allow_unauthenticated_external : Bool

-- The Authorization header: absent, or the values that were sent.
pub data Authorization : Type 0 where
  absent : Authorization
  header : String → Authorization
  headers : List String → Authorization

-- An ApiError by its code, its message and its status, or the TypeError of compare_digest.
pub data Access : Type 0 where
  granted : Access
  denied : String → String → ℕ → Access
  type_error : Access

abbrev unauthorized : Access
unauthorized = denied "unauthorized" "Authentication is required." 401

abbrev bearer_prefix : String
bearer_prefix = "Bearer "

-- The header value of a request, where it has just one.
abbrev pub Bears : Authorization → String → Type 0
Bears absent t = ⊥
Bears (header h) t = h ≡ bearer_prefix ++ t
Bears (headers (h ∷ [])) t = h ≡ bearer_prefix ++ t
Bears (headers _) t = ⊥

module _ (compare_digest : String → String → Option Bool) where
  -- hmac.compare_digest raises TypeError on text that is not ASCII.
  abbrev compared : Option Bool → Access
  compared none = type_error
  compared (some true) = granted
  compared (some false) = unauthorized

  unfoldable pub verify_supplied : String → String → Access
  verify_supplied expected supplied =
      ite (String_discrete supplied "") unauthorized (compared (compare_digest supplied expected))

  unfoldable pub verify_header : String → String → Access
  unfolding verify_supplied
  verify_header expected h =
      if ltb 4096 (count h)
      then unauthorized
      else (if starts_with h bearer_prefix
          then verify_supplied expected (slice h (len bearer_prefix) (len h))
          else unauthorized)

  unfoldable pub verify_authorization : String → Authorization → Access
  unfolding verify_header
  verify_authorization expected absent = unauthorized
  verify_authorization expected (header h) = verify_header expected h
  verify_authorization expected (headers (h ∷ [])) = verify_header expected h
  verify_authorization expected (headers _) = unauthorized

  unfoldable pub verify_token : Option String → Authorization → Access
  unfolding verify_authorization
  verify_token none a = denied "api_token_required" "Authentication is unavailable." 500
  verify_token (some expected) a = verify_authorization expected a

  -- verify_bearer_token
  unfoldable pub verify_bearer_token : AccessConfig → Authorization → Access
  unfolding verify_token
  verify_bearer_token c a = if c.require_auth then verify_token c.api_token a else granted

  supplied_lem : (h r : String) → h ≡ bearer_prefix ++ r → slice h (len bearer_prefix) (len h) ≡ r
  supplied_lem h r e =
      subst (λ x. slice x (len bearer_prefix) (len x) ≡ r) (sym e)
        (ap (slice (bearer_prefix ++ r) (len bearer_prefix)) (len-append bearer_prefix r)
          ∙ slice-append_right bearer_prefix r)

  denied_lem : unauthorized ≡ granted → ⊥
  denied_lem e = ground arith

  compared_lem : (o : Option Bool) → compared o ≡ granted → o ≡ some true
  compared_lem none e = ground arith
  compared_lem (some true) e = refl
  compared_lem (some false) e = ground arith

  verify_supplied_lem :
      (expected supplied : String)
      → ((s t : String) → compare_digest s t ≡ some true → s ≡ t)
      → verify_supplied expected supplied ≡ granted
      → (supplied ≡ expected) × (supplied ≢ "")
  unfolding verify_supplied
  verify_supplied_lem expected supplied law e = elim (String_discrete supplied "") [
    | yes p ↦
        let q =
          sym (
            if_pos (String_discrete supplied "") p unauthorized
              (compared (compare_digest supplied expected)))
          ∙ e in
        absurd (denied_lem q)
    | no n ↦
        let q =
          sym (
            if_neg (String_discrete supplied "") n unauthorized
              (compared (compare_digest supplied expected)))
          ∙ e in
        (law supplied expected (compared_lem (compare_digest supplied expected) q), n)
  ]

  verify_header_lem :
      (expected h : String)
      → ((s t : String) → compare_digest s t ≡ some true → s ≡ t)
      → verify_header expected h ≡ granted
      → (h ≡ bearer_prefix ++ expected) × (expected ≢ "")
  unfolding verify_header
  verify_header_lem expected h law e = elim (Bool-cases (starts_with h bearer_prefix)) [
    | inl s ↦
        let (u, path) = (starts_with_iff h bearer_prefix).0 s in
        let supplied = slice h (len bearer_prefix) (len h) in
        let (same, present) = verify_supplied_lem expected supplied law (ground arith) in
        (
          sym path ∙ ap (λ x. bearer_prefix ++ x) (sym (supplied_lem h u (sym path)) ∙ same),
          λ z. present (same ∙ z),
        )
    | inr s ↦ ground arith
  ]

  module _ (law : (s u : String) → compare_digest s u ≡ some true → s ≡ u) where
    authorized :
        (expected : String) (a : Authorization)
        → verify_authorization expected a ≡ granted
        → (expected ≢ "") × Bears a expected
    unfolding verify_authorization
    authorized expected absent e = absurd (denied_lem e)
    authorized expected (header h) e = let (b, n) = verify_header_lem expected h law e in (n, b)
    authorized expected (headers []) e = absurd (denied_lem e)
    authorized expected (headers (h ∷ [])) e =
        let (b, n) = verify_header_lem expected h law e in (n, b)
    authorized expected (headers (h ∷ k ∷ hs)) e = absurd (denied_lem e)

    token_granted :
        (o : Option String) (a : Authorization)
        → verify_token o a ≡ granted
        → (t : String) × (o ≡ some t) × (t ≢ "") × Bears a t
    unfolding verify_token
    token_granted none a e = ground arith
    token_granted (some expected) a e =
        let (n, b) = authorized expected a e in (expected, refl, n, b)

    -- Where authentication is required, and compare_digest takes only equal texts for equal, a request
    -- is granted only if a token is configured that is not empty, and the request has one
    -- Authorization value, which is "Bearer " and that token.
    pub verify_bearer_token-Bears :
        (c : AccessConfig) (a : Authorization)
        → c.require_auth ≡ true
        → verify_bearer_token c a ≡ granted
        → (t : String) × (c.api_token ≡ some t) × (t ≢ "") × Bears a t
    unfolding verify_bearer_token
    verify_bearer_token-Bears c a r e = token_granted c.api_token a (ground arith)

-- config.api_token_configured
abbrev token_configured : Option String → Bool
token_configured none = false
token_configured (some t) = ite (String_discrete t "") false true

-- host.strip().lower(), and ipaddress.ip_address(value).is_loopback, none for its ValueError
module _ (normalized : String → String) (ip_loopback : String → Option Bool) where
  unfoldable pub is_loopback_host : String → Bool
  unfolding String_discrete
  is_loopback_host host =
      let value = normalized host in
      ite (String_discrete value "localhost") true
        (elim (ip_loopback value) [ none ↦ false | some b ↦ b ])

  unfoldable pub validate_bind_auth_policy : AccessConfig → Access
  unfolding is_loopback_host
  validate_bind_auth_policy c =
      if c.require_auth && not (token_configured c.api_token)
      then denied "api_token_required" "Authentication is required but no API token is configured."
          500
      else (if not (is_loopback_host c.host)
            && (not c.require_auth && not c.allow_unauthenticated_external)
          then denied "unauthenticated_external_bind_forbidden"
              "Unauthenticated external binding is not allowed." 500
          else granted)

-- On a host that is not a loopback address, and unless unauthenticated external access is allowed, a
-- configuration that passes validate_bind_auth_policy grants a request only to the holder of the
-- token: one is configured, it is not empty, and the request's one Authorization value is "Bearer "
-- and that token. That compare_digest takes only equal texts for equal is a hypothesis.
pub validate_bind_auth_policy-Bears :
    (compare_digest : String → String → Option Bool) (normalized : String → String)
    (ip_loopback : String → Option Bool) (c : AccessConfig) (a : Authorization)
    → ((s u : String) → compare_digest s u ≡ some true → s ≡ u)
    → is_loopback_host normalized ip_loopback c.host ≡ false
    → c.allow_unauthenticated_external ≡ false
    → validate_bind_auth_policy normalized ip_loopback c ≡ granted
    → verify_bearer_token compare_digest c a ≡ granted
    → (t : String) × (c.api_token ≡ some t) × (t ≢ "") × Bears a t
unfolding validate_bind_auth_policy
validate_bind_auth_policy-Bears compare_digest normalized ip_loopback c a law l x v e =
    verify_bearer_token-Bears compare_digest law c a (ground arith) e
