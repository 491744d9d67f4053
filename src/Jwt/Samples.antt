-- ===== src/Jwt/Samples.antt =====
-- A library of tokens that signs one set of claims, as the byte 49, and takes it for valid with any
-- key; the byte 50 has the same claims, and is not valid.
use soelib.Common.{
  ℕ, List, [], ◌∷◌, ◌++◌, none, some, Bool, true, false, ◌&&◌, ◌==◌, if◌then◌else◌, ==_iff,
  Bool-cases, inl, inr, ◌≡◌, refl, sym, ap, ◌∙◌,
}
use soelib.Common.Bytes.{codes, without_first}
use soelib.Common.Text.{String, text_eq}
use soelib.Jwt.Tokens.{
  Claim, missing, other_type, Claims, key_text, signed, not_signed, Token, Parsed, Library, Read,
  ok, jwt_key, parse_key, bearer, bare_token, no_claims, text, parse_token, parse_jwt,
  get_soe_auth_token, generate_soe_auth_token, new_jwt_token,
}
use soelib.Jwt.Trust.{
  IsFaithful, parse_token-valid, parse_jwt-valid, get_soe_auth_token-unchecked,
  get_soe_auth_token-generate,
}

abbrev only_claims : Claims
only_claims = record no_claims { issuer = "t"; session = "s"; subject = text "{}" }

abbrev is_text : Claim → String → Bool
is_text (text s) t = text_eq.beq s t
is_text missing t = false
is_text other_type t = false

is_text-eq : (c : Claim) (t : String) → is_text c t ≡ true → c ≡ text t
is_text-eq (text s) t h = ap text ((text_eq.beq_iff s t).0 h)
is_text-eq missing t h = absurd (cc h)
is_text-eq other_type t h = absurd (cc h)

abbrev are_only : Claims → Bool
are_only c =
    text_eq.beq c.issuer "t"
    && (text_eq.beq c.session "s"
        && (is_text c.subject "{}"
            && (text_eq.beq c.username "" && (text_eq.beq c.password "" && c.expires_at == 0))))

both : (a b : Bool) → a && b ≡ true → (a ≡ true) × (b ≡ true)
both true b h = (refl, h)
both false b h = absurd (cc h)

are_only-eq : (c : Claims) → are_only c ≡ true → c ≡ only_claims
are_only-eq c h =
    let h1 = both _ _ h in
    let h2 = both _ _ h1.1 in
    let h3 = both _ _ h2.1 in
    let h4 = both _ _ h3.1 in
    let h5 = both _ _ h4.1 in
    λ i. record {
      issuer = (text_eq.beq_iff c.issuer "t").0 h1.0 i;
      session = (text_eq.beq_iff c.session "s").0 h2.0 i;
      subject = is_text-eq c.subject "{}" h3.0 i;
      username = (text_eq.beq_iff c.username "").0 h4.0 i;
      password = (text_eq.beq_iff c.password "").0 h5.0 i;
      expires_at = (==_iff c.expires_at 0).0 h5.1 i;
    }

abbrev only_token : Bool → Parsed
only_token valid = record {
  token = some (record { claims = some only_claims; valid = valid });
  err = none;
}

abbrev sample_library : Library
sample_library = record {
  sign = λ c k. if are_only c then signed (49 ∷ []) else not_signed "other";
  parse = λ t k. elim t [
    | [] ↦ record { token = none; err = some "malformed" }
    | c ∷ cs ↦ only_token (c == 49)
  ];
}

signed_inj : {s t : List ℕ} → signed s ≡ signed t → s ≡ t
signed_inj {s} e = ap (λ r. elim r [ signed t ↦ t | not_signed x ↦ s ]) e

valid_token : Claims → Parsed
valid_token c = record { token = some (record { claims = some c; valid = true }); err = none }

sample_library-IsFaithful : IsFaithful sample_library
unfolding valid_token
sample_library-IsFaithful c key t e now = elim (Bool-cases (are_only c)) [
  | inl x ↦
      let q : signed (49 ∷ []) ≡ signed t = rw x at e in
      ap (λ s. sample_library.parse s key) (sym (signed_inj q))
      ∙ ap valid_token (sym (are_only-eq c x))
  | inr x ↦ absurd (cc (rw x at e))
]

always_ok : String → Read String
always_ok s = ok s

made : generate_soe_auth_token sample_library (codes "secret") "s" "" "t" "{}" ≡ signed (49 ∷ [])
unfolding generate_soe_auth_token
made = refl

get_soe_auth_token-generate_example :
    get_soe_auth_token sample_library always_ok (codes "secret") (bearer ++ 49 ∷ [])
    ≡ always_ok "{}"
get_soe_auth_token-generate_example =
    get_soe_auth_token-generate sample_library always_ok (codes "secret") (49 ∷ []) "s" "" "t" "{}"
      sample_library-IsFaithful made refl (refl, tt)

-- The token that is not valid is read like the valid one.
get_soe_auth_token-unchecked_example :
    get_soe_auth_token sample_library always_ok (codes "secret") (49 ∷ [])
    ≡ get_soe_auth_token sample_library always_ok (codes "guess") (50 ∷ [])
get_soe_auth_token-unchecked_example =
    get_soe_auth_token-unchecked sample_library always_ok (codes "secret") (codes "guess") (49 ∷ [])
      (50 ∷ []) (record { claims = some only_claims; valid = true })
      (record { claims = some only_claims; valid = false }) refl refl refl

parsed_claims : (parse_token sample_library (49 ∷ [])).0 ≡ some only_claims
unfolding parse_token
parsed_claims = refl

parsed_subject : parse_jwt sample_library always_ok (49 ∷ []) ≡ ok "{}"
unfolding parse_jwt always_ok
parsed_subject = refl

parse_token-valid_example :
    (t : Token) × ((sample_library.parse (bare_token (49 ∷ [])) jwt_key).token ≡ some t)
    × (t.valid ≡ true)
    × (t.claims ≡ some only_claims)
parse_token-valid_example = parse_token-valid sample_library (49 ∷ []) only_claims parsed_claims

parse_jwt-valid_example :
    (t : Token) × ((sample_library.parse (without_first bearer (49 ∷ [])) parse_key).token ≡ some t)
    × (t.valid ≡ true)
    × ((sample_library.parse (without_first bearer (49 ∷ [])) parse_key).err ≡ none)
parse_jwt-valid_example = parse_jwt-valid sample_library always_ok (49 ∷ []) "{}" parsed_subject

-- The key of `NewJWTToken` is a text.
text_key :
    new_jwt_token sample_library "u" "{}" 0
    ≡ sample_library.sign
        (record no_claims { issuer = "u"; subject = text "{}" })
        (key_text jwt_key)
unfolding new_jwt_token
text_key = refl
