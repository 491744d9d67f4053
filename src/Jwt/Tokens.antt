-- ===== src/Jwt/Tokens.antt =====
-- common/soejwt/token.go and subject.go. The library of tokens (jwt-go), encoding/json, the clock, the
-- random session and the configured secret are parameters; a text that is only compared is a String, a
-- token is its bytes.
use soelib.Common.{ℕ, zero, suc, ◌+◌, ◌*◌, List, [], ◌∷◌, Option, none, some, Bool, if◌then◌else◌}
use soelib.Common.Bytes.{codes, after_prefix, without_first}
use soelib.Common.Text.{String, is_empty}

-- The claims that the code sets or reads. `subject` of a token that is read may be missing, a text, or
-- of another type.
pub data Claim : Type 0 where
  missing other_type : Claim
  text : String → Claim

pub record Claims : Type 0 where
  pub issuer : String
  pub session : String
  pub subject : Claim
  pub username : String
  pub password : String
  pub expires_at : ℕ

-- A key is given as bytes or as a text.
pub data Key : Type 0 where
  key_bytes key_text : List ℕ → Key

pub data Signed : Type 0 where
  signed : List ℕ → Signed
  not_signed : String → Signed

-- What `Parse` returns: a token, with its claims if they can be had and whether it is valid, or nil; and
-- an error or nil.
pub record Token : Type 0 where
  pub claims : Option Claims
  pub valid : Bool

pub record Parsed : Type 0 where
  pub token : Option Token
  pub err : Option String

pub record Library : Type 0 where
  pub sign : Claims → Key → Signed
  pub parse : List ℕ → List ℕ → Parsed

-- The results of the readers.
pub data Read {ℓ} (A : Type ℓ) : Type ℓ where
  ok : A → Read A
  error : String → Read A
  panicked : Read A

abbrev pub jwt_key : List ℕ
jwt_key = codes "www.soe.crm"

abbrev pub parse_key : List ℕ
parse_key = 195 ∷ 12 ∷ 44 ∷ 161 ∷ 231 ∷ 43 ∷ []

-- `strings.ReplaceAll(s, old, "")` on fuel, for `old` that is not empty: as many rounds as the text has
-- bytes are enough.
abbrev pub without_all : ℕ → List ℕ → List ℕ → List ℕ
without_all zero old s = s
without_all (suc fuel) old [] = []
without_all (suc fuel) old (c ∷ cs) = elim (after_prefix old (c ∷ cs)) [
  | some r ↦ without_all fuel old r
  | none ↦ c ∷ without_all fuel old cs
]

abbrev pub size : List ℕ → ℕ
size [] = 0
size (c ∷ cs) = suc (size cs)

abbrev pub bearer : List ℕ
bearer = codes "Bearer "

-- `ReplaceAll`, and `Replace` of the first.
abbrev pub bare_token : List ℕ → List ℕ
bare_token t = without_all (size t) bearer t

abbrev pub no_claims : Claims
no_claims = record {
  issuer = "";
  session = "";
  subject = missing;
  username = "";
  password = "";
  expires_at = 0;
}

-- The claims of a token that is valid, or nil; and the error.
abbrev pub valid_claims : Option Token → Option Claims
valid_claims none = none
valid_claims (some t) = if t.valid then t.claims else none

abbrev pub with_error : Option Claims → Option String → Option Claims × Option String
with_error none err = (none, err)
with_error (some c) err = (some c, none)

-- The issuer is the tenant, or "" with the ID of an app.
abbrev pub issuer_of : String → String → String
issuer_of app_id tenant_id = if is_empty app_id then tenant_id else ""

module _ {A : Type 0} (unmarshal : String → Read A) where
  -- `claims["sub"].(string)` of another type is a panic.
  abbrev pub auth_subject : Claim → Read A
  auth_subject missing = panicked
  auth_subject other_type = panicked
  auth_subject (text s) = if is_empty s then error "format" else unmarshal s

  abbrev pub auth_claims : Option Claims → Read A
  auth_claims none = error "invalid"
  auth_claims (some c) = auth_subject c.subject

  -- `token.Claims` of a nil token is a panic; the error of `Parse` is dropped.
  abbrev pub auth_token : Option Token → Read A
  auth_token none = panicked
  auth_token (some t) = auth_claims t.claims

  -- `err.Error()` of a nil error is a panic.
  abbrev pub jwt_claims : Option Claims → Read A
  jwt_claims none = panicked
  jwt_claims (some c) = elim c.subject [
    | missing ↦ panicked
    | other_type ↦ panicked
    | text s ↦ unmarshal s
  ]

  abbrev pub jwt_token : Option Token → Read A
  jwt_token none = panicked
  jwt_token (some t) = if t.valid then jwt_claims t.claims else panicked

  abbrev pub jwt_parsed : Option String → Option Token → Read A
  jwt_parsed (some e) t = error e
  jwt_parsed none t = jwt_token t

module _ (lib : Library) where
  -- A token for a day, from `now` in seconds.
  unfoldable pub generate_token : ℕ → String → String → String → Signed
  generate_token now username password issuer =
      lib.sign
        (record no_claims {
          username = username;
          password = password;
          issuer = issuer;
          expires_at = now + 24 * 3600;
        })
        (key_bytes jwt_key)

  unfoldable pub parse_token : List ℕ → Option Claims × Option String
  parse_token token =
      let p = lib.parse (bare_token token) jwt_key in with_error (valid_claims p.token) p.err

  unfoldable pub get_soe_auth_token : {A : Type 0} → (String → Read A) → List ℕ → List ℕ → Read A
  get_soe_auth_token unmarshal secret token =
      auth_token unmarshal (lib.parse (bare_token token) secret).token

  -- With a key of its own.
  unfoldable pub parse_jwt : {A : Type 0} → (String → Read A) → List ℕ → Read A
  parse_jwt unmarshal token =
      let p = lib.parse (without_first bearer token) parse_key in jwt_parsed unmarshal p.err p.token

  unfoldable pub new_jwt_token : String → String → ℕ → Signed
  new_jwt_token user_id subject expires_at =
      lib.sign
        (record no_claims { issuer = user_id; subject = text subject; expires_at = expires_at })
        (key_text jwt_key)

  -- `subject` is the subject in JSON.
  unfoldable pub generate_soe_auth_token : List ℕ → String → String → String → String → Signed
  generate_soe_auth_token secret session app_id tenant_id subject =
      lib.sign
        (record no_claims {
          issuer = issuer_of app_id tenant_id;
          session = session;
          subject = text subject;
        })
        (key_bytes secret)
