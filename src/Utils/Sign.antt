-- ===== src/Utils/Sign.antt =====
-- `orderParam` of common/utils/sign.go, for a map of texts: the map is the keys in the order that the
-- loop over it meets them, and the value of each. `strings.ToLower` and `sort.Slice` are parameters,
-- and Go's `<` on texts is by bytes, as that of the native texts.
use Prim.Native.String
use Prim.Native.Nat.{Ordering}
use soelib.Common.{List, [], ◌∷◌, Bool, true, false, not, if◌then◌else◌, select}
use soelib.Common.Text.{String, ◌<>◌, text_eq, is_empty}

abbrev pub text_lt : String → String → Bool
text_lt s t = elim (String.compare s t) [ Ordering.lt ↦ true | _ ↦ false ]

-- The function that `sort.Slice` is given.
abbrev pub less : (String → String) → String → String → Bool
less to_lower a b = text_lt (to_lower a) (to_lower b)

abbrev pub kept_keys : (String → String) → List String → List String
kept_keys to_lower keys = select (λ k. not (text_eq.beq (to_lower k) "sign")) keys

-- The loop that fills the buffer.
abbrev pub write_params : List String → (String → String) → String → String
write_params [] value buf = buf
write_params (k ∷ ks) value buf =
    let mark = if is_empty buf then "" else "&" in
    let next = if is_empty (value k) then buf else buf <> mark <> k <> "=" <> value k in
    write_params ks value next

-- The sort takes the comparison and the keys.
unfoldable pub order_param :
    (String → String)
    → ((String → String → Bool) → List String → List String)
    → List String
    → (String → String)
    → String
    → String
order_param to_lower sort keys value biz_key =
    write_params (sort (less to_lower) (kept_keys to_lower keys)) value "" <> biz_key
