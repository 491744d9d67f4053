-- ===== src/Http/Errors.antt =====
-- The texts of failed requests: those made from an answer's body in net/soehttp/soehttp.go, and the
-- kinds of error that net/soehttp/errors.go reads from a text.
use soelib.Common.{
  Option, none, some, Bool, true, false, ◌||◌, if◌then◌else◌, Bool-cases, Option-cases, ◌≡◌, refl,
  ap, ◌∙◌, inl, inr, arith, ◌↔◌, ◌≢◌, List, [], ◌∷◌, ◌++◌,
}
use mathlib.Core.Option.{some-ne-none}
use soelib.Common.Int.{ℤ}
use soelib.Common.Text.{String, is_empty, contains}
use text.Mathlib.Text
use text.Mathlib.TextEquality.{eq_iff}
use soelib.Http.Wire.{Decoders, SoeGoResponseVo, SoeRestApiException, busy, is_500}
use soelib.Http.Remote.{vo_error, handle_map_error}

-- The texts that an answer can carry, the preferred first.
abbrev pub exception_texts : Option SoeRestApiException → List String
exception_texts none = []
exception_texts (some e) = e.data_text ∷ e.message ∷ []

abbrev pub data_texts : ℤ → Option String → List String
data_texts code none = []
data_texts code (some t) = if is_500 code then t ∷ [] else []

abbrev pub vo_texts : Option SoeGoResponseVo → List String
vo_texts none = []
vo_texts (some vo) = data_texts vo.code vo.data_string ++ vo.msg ∷ []

-- The first that is not empty, else the text that the server is busy.
abbrev pub first_text : List String → String
first_text [] = busy
first_text (t ∷ ts) = let rest = first_text ts in if is_empty t then rest else t

first_text_eq : (ts : List String) → is_empty (first_text ts) ≡ false
first_text_eq [] = refl
first_text_eq (t ∷ ts) =
    let rest = first_text_eq ts in
    elim (Bool-cases (is_empty t)) [ inl e ↦ rw e rest | inr e ↦ rw (e, e) refl ]

module _ {O : Type 0} (d : Decoders O) where
  vo_error_first : (vo : Option SoeGoResponseVo) → vo_error d vo ≡ first_text (vo_texts vo)
  vo_error_first none = refl
  vo_error_first (some vo) = elim (Option-cases vo.data_string) [
    | inl e ↦ rw e refl
    | inr x ↦ rw x.1 (elim (Bool-cases (is_500 vo.code)) [
      | inr e ↦ rw e refl
      | inl e ↦ rw e (elim (Bool-cases (is_empty x.0)) [ inl f ↦ rw f refl | inr f ↦ rw f refl ])
    ])
  ]

  abbrev pub texts_of : O → List String
  texts_of o = exception_texts (d.decode_exception o) ++ vo_texts (d.decode_vo o)

  handle_map_error_first : (o : O) → handle_map_error d o ≡ first_text (texts_of o)
  unfolding handle_map_error
  handle_map_error_first o =
      let later_texts = vo_error_first (d.decode_vo o) in
      elim (Option-cases (d.decode_exception o)) [
        | inl e ↦ rw (e, handle_map_error) later_texts
        | inr x ↦
            rw (x.1, handle_map_error)
              (elim (Bool-cases (is_empty x.0.data_text)) [
                | inr e ↦ rw e refl
                | inl e ↦ rw e (elim (Bool-cases (is_empty x.0.message)) [
                  | inr f ↦ rw f refl
                  | inl f ↦ rw f later_texts
                ])
              ])
      ]

  -- The error text of an object: the first of the exception's data and message, the data of a Go
  -- reply with code 500, and its message that is not empty, else that the server is busy; it is
  -- never the empty text.
  pub handle_map_error-first_text :
      (o : O)
      → (handle_map_error d o ≡ first_text (texts_of o)) × (is_empty (handle_map_error d o) ≡ false)
  handle_map_error-first_text o = (
    handle_map_error_first o,
    ap is_empty (handle_map_error_first o) ∙ first_text_eq (texts_of o),
  )

-- `err` is nil or has a text.
unfoldable pub is_circuit_breaker_error : Option String → Bool
is_circuit_breaker_error none = false
is_circuit_breaker_error (some msg) =
    contains msg "fallback" || contains msg "circuit open" || contains msg "hystrix"

unfoldable pub is_timeout_error : Option String → Bool
is_timeout_error none = false
is_timeout_error (some msg) =
    contains msg "timeout"
    || contains msg "deadline exceeded"
    || contains msg "context deadline exceeded"

unfoldable pub is_network_error : Option String → Bool
is_network_error none = false
is_network_error (some msg) =
    contains msg "connection refused"
    || contains msg "no such host"
    || contains msg "network is unreachable"
    || contains msg "connection reset"

unfoldable pub is_hystrix_max_concurrency_error : Option String → Bool
is_hystrix_max_concurrency_error none = false
is_hystrix_max_concurrency_error (some msg) =
    contains msg "max concurrency" || contains msg "too many requests"

unfoldable pub get_error_type : Option String → String
get_error_type none = "success"
get_error_type (some msg) =
    let err = some msg in
    if is_circuit_breaker_error err
    then "circuit_breaker"
    else if is_timeout_error err
    then "timeout"
    else if is_network_error err
    then "network"
    else if is_hystrix_max_concurrency_error err
    then "max_concurrency"
    else "business_error"

-- The tests of `GetErrorType`, in its order.
abbrev pub is_recognised : Option String → Bool
is_recognised err =
    is_circuit_breaker_error err
    || is_timeout_error err
    || is_network_error err
    || is_hystrix_max_concurrency_error err

label : Bool → Bool → Bool → Bool → String
label true _ _ _ = "circuit_breaker"
label false true _ _ = "timeout"
label false false true _ = "network"
label false false false true = "max_concurrency"
label false false false false = "business_error"

differs : {s t : String} → (Text.◌==◌ s t) ≡ false → s ≢ t
differs {s} {t} h e = ground (arith, h, (eq_iff s t).1 e)

label-business_iff :
    (a b c d : Bool) → (label a b c d ≡ "business_error") ↔ ((a || b || c || d) ≡ false)
unfolding label
label-business_iff true b c d = (λ e. absurd (differs refl e), λ e. absurd (ground (arith, e)))
label-business_iff false true c d = (λ e. absurd (differs refl e), λ e. absurd (ground (arith, e)))
label-business_iff false false true d =
    (λ e. absurd (differs refl e), λ e. absurd (ground (arith, e)))
label-business_iff false false false true =
    (λ e. absurd (differs refl e), λ e. absurd (ground (arith, e)))
label-business_iff false false false false = (λ e. refl, λ e. refl)

label-success : (a b c d : Bool) → label a b c d ≢ "success"
unfolding label
label-success true b c d = differs refl
label-success false true c d = differs refl
label-success false false true d = differs refl
label-success false false false true = differs refl
label-success false false false false = differs refl

get_error_type-label :
    (msg : String)
    → get_error_type (some msg)
      ≡ label
          (is_circuit_breaker_error (some msg))
          (is_timeout_error (some msg))
          (is_network_error (some msg))
          (is_hystrix_max_concurrency_error (some msg))
unfolding get_error_type label
get_error_type-label msg = elim (Bool-cases (is_circuit_breaker_error (some msg))) [
  | inl e ↦ rw e refl
  | inr e ↦ rw e (elim (Bool-cases (is_timeout_error (some msg))) [
    | inl f ↦ rw f refl
    | inr f ↦ rw f (elim (Bool-cases (is_network_error (some msg))) [
      | inl g ↦ rw g refl
      | inr g ↦ rw g (elim (Bool-cases (is_hystrix_max_concurrency_error (some msg))) [
        | inl h ↦ rw h refl
        | inr h ↦ rw h refl
      ])
    ])
  ])
]

-- An error counts as one of the business exactly if it is an error and none of the four tests
-- recognises its text; what is no error, and nothing else, counts as a success.
pub get_error_type-business_iff :
    (err : Option String)
    → ((get_error_type err ≡ "business_error") ↔ ((err ≢ none) × (is_recognised err ≡ false)))
      × ((get_error_type err ≡ "success") ↔ (err ≡ none))
unfolding get_error_type
get_error_type-business_iff none =
    ((λ e. absurd (differs refl e), λ h. absurd (h.0 refl)), (λ e. refl, λ e. refl))
get_error_type-business_iff (some msg) = rw (get_error_type-label msg) (
  (
    λ e. (λ n. some-ne-none msg n, (label-business_iff _ _ _ _).0 e),
    λ h. (label-business_iff _ _ _ _).1 h.1,
  ),
  (λ e. absurd (label-success _ _ _ _ e), λ e. absurd (some-ne-none msg e)),
)
