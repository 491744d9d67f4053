-- ===== src/Jwt/Trust.antt =====
-- Which tokens the readers of common/soejwt accept, and what they read of the tokens that it makes.
use soelib.Common.{
  ℕ, zero, suc, List, [], ◌∷◌, ◌++◌, Option, none, some, true, false, ◌==◌, Bool-cases, ◌≡◌, ◌≢◌,
  refl, sym, ap, ◌∙◌, inl, inr, arith,
}
use mathlib.Core.Option.{some-ne-none}
use soelib.Common.Bytes.{codes, after_prefix, without_first}
use soelib.Common.Pieces.{Without}
use soelib.Common.Text.{String, is_empty}
use soelib.Jwt.Tokens.{
  Claims, key_bytes, signed, Token, Library, Read, ok, panicked, jwt_key, parse_key, without_all,
  size, bearer, bare_token, valid_claims, with_error, parse_token, get_soe_auth_token, parse_jwt,
  jwt_parsed, generate_soe_auth_token,
}

with_error-claims : (o : Option Claims) (e : Option String) → (with_error o e).0 ≡ o
with_error-claims none none = refl
with_error-claims none (some e) = refl
with_error-claims (some c) none = refl
with_error-claims (some c) (some e) = refl

valid_claims-valid :
    (o : Option Token) (e : Option String) (c : Claims)
    → (with_error (valid_claims o) e).0 ≡ some c
    → (t : Token) × (o ≡ some t) × (t.valid ≡ true) × (t.claims ≡ some c)
valid_claims-valid none e c h = absurd (some-ne-none c (sym h))
valid_claims-valid (some t) e c h = elim (Bool-cases t.valid) [
  | inl v ↦ (t, refl, v, sym (with_error-claims t.claims e) ∙ (rw v at h))
  | inr v ↦ absurd (some-ne-none c (sym (rw v at h)))
]

panicked-ne : {A : Type 0} {a : A} → panicked ≢ ok a
panicked-ne h = absurd (cc h)

jwt_token-valid :
    {A : Type 0} (unmarshal : String → Read A) (e : Option String) (o : Option Token) (a : A)
    → jwt_parsed unmarshal e o ≡ ok a
    → (t : Token) × (o ≡ some t) × (t.valid ≡ true) × (e ≡ none)
jwt_token-valid unmarshal (some x) o a h = absurd (cc h)
jwt_token-valid unmarshal none none a h = absurd (cc h)
jwt_token-valid unmarshal none (some t) a h = elim (Bool-cases t.valid) [
  | inl v ↦ (t, refl, v, refl)
  | inr v ↦ absurd (panicked-ne (rw v at h))
]

-- `ParseToken` returns claims only of a token that the library has found valid with the key of the
-- package, and these are the token's claims.
pub parse_token-valid :
    (lib : Library) (token : List ℕ) (c : Claims)
    → (parse_token lib token).0 ≡ some c
    → (t : Token) × ((lib.parse (bare_token token) jwt_key).token ≡ some t)
      × (t.valid ≡ true)
      × (t.claims ≡ some c)
unfolding parse_token
parse_token-valid lib token c h = valid_claims-valid _ _ c h

-- `ParseJWT` returns a subject only of a token that the library has found valid with its key, without
-- an error.
pub parse_jwt-valid :
    {A : Type 0} (lib : Library) (unmarshal : String → Read A) (token : List ℕ) (a : A)
    → parse_jwt lib unmarshal token ≡ ok a
    → (t : Token) × ((lib.parse (without_first bearer token) parse_key).token ≡ some t)
      × (t.valid ≡ true)
      × ((lib.parse (without_first bearer token) parse_key).err ≡ none)
unfolding parse_jwt
parse_jwt-valid lib unmarshal token a h = jwt_token-valid unmarshal _ _ a h

-- `GetSoeAuthToken` reads the same of two tokens with the same claims, whether the library has found
-- them valid or not, and whatever the keys.
pub get_soe_auth_token-unchecked :
    {A : Type 0} (lib : Library) (unmarshal : String → Read A) (secret key token forged : List ℕ)
    (t u : Token)
    → (lib.parse (bare_token token) secret).token ≡ some t
    → (lib.parse (bare_token forged) key).token ≡ some u
    → t.claims ≡ u.claims
    → get_soe_auth_token lib unmarshal secret token ≡ get_soe_auth_token lib unmarshal key forged
unfolding get_soe_auth_token
get_soe_auth_token-unchecked lib unmarshal secret key token forged t u p q e = rw (p, q, e) refl

after_prefix-spaced : (ps s : List ℕ) → Without b' ' s → after_prefix (ps ++ b' ' ∷ []) s ≡ none
after_prefix-spaced [] [] h = refl
after_prefix-spaced [] (c ∷ cs) h = let e : (b' ' == c) ≡ false = ground (arith, h.0) in rw e refl
after_prefix-spaced (p ∷ ps) [] h = refl
after_prefix-spaced (p ∷ ps) (c ∷ cs) h = elim (Bool-cases (p == c)) [
  | inl e ↦ rw e (after_prefix-spaced ps cs h.1)
  | inr e ↦ rw e refl
]

without_all-spaceless : (fuel : ℕ) (s : List ℕ) → Without b' ' s → without_all fuel bearer s ≡ s
without_all-spaceless zero s h = refl
without_all-spaceless (suc fuel) [] h = refl
without_all-spaceless (suc fuel) (c ∷ cs) h =
    rw (after_prefix-spaced (codes "Bearer") (c ∷ cs) h, without_all)
      (ap (λ (l : List ℕ). c ∷ l) (without_all-spaceless fuel cs h.1))

bare_token-bearer : (t : List ℕ) → Without b' ' t → bare_token (bearer ++ t) ≡ t
bare_token-bearer t h = without_all-spaceless (suc (suc (suc (suc (suc (suc (size t))))))) t h

-- The library reads a token that it has signed with the same key, and that does not expire, as valid
-- and with its claims.
abbrev pub IsFaithful : Library → Type 0
IsFaithful lib =
    (c : Claims) (key t : List ℕ)
    → lib.sign c (key_bytes key) ≡ signed t
    → c.expires_at ≡ 0
    → lib.parse t key
      ≡ record { token = some (record { claims = some c; valid = true }); err = none }

-- Of a token that `GenerateSoeAuthToken` has made and that stands after "Bearer ", `GetSoeAuthToken`
-- reads the subject, if this is not empty, the secret is the same, and the token has no space.
pub get_soe_auth_token-generate :
    {A : Type 0} (lib : Library) (unmarshal : String → Read A) (secret t : List ℕ)
    (session app_id tenant_id subject : String)
    → IsFaithful lib
    → generate_soe_auth_token lib secret session app_id tenant_id subject ≡ signed t
    → is_empty subject ≡ false
    → Without b' ' t
    → get_soe_auth_token lib unmarshal secret (bearer ++ t) ≡ unmarshal subject
unfolding generate_soe_auth_token get_soe_auth_token
get_soe_auth_token-generate lib unmarshal secret t session app_id tenant_id subject h made some_text
      plain =
    rw (bare_token-bearer t plain, h _ secret t made refl, some_text) refl
