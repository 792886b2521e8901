-- ===== src/Json/Decode.antt =====
-- `json.Unmarshal` of a value into Go types: `none` is an error. A struct is filled member by member
-- in document order, a key meets a field without regard to case, `null` leaves a field as it is (a
-- pointer, slice or map becomes nil), and unknown keys are skipped.
use mathlib.Core.Option
use go_acp_server.Base.{
  ℕ, ◌+◌, ◌^◌, code, String, Bool, true, false, ◌&&◌, List, [], ◌∷◌, Option, none, some, leb, ltb,
  nat_eq, if◌then◌else◌, insert, ◌≡◌, refl,
}
use go_acp_server.Go.Numbers.{ℤ, pos, negsuc}
use go_acp_server.Json.{Json, null, bool, num, str, arr, obj, items, members, Raw}

-- The least code point that a letter's case folds with; K (U+212A) and ſ (U+017F) fold with k and s.
fold_code : ℕ → ℕ
fold_code c =
    if leb b'A' c && leb c b'Z'
    then c + 32
    else if nat_eq c 0x212a
    then b'k'
    else if nat_eq c 0x17f
    then b's'
    else c

-- bytes.EqualFold, against a field's name
unfoldable pub equal_fold : String → String → Bool
unfolding fold_code
equal_fold String.[] String.[] = true
equal_fold (String.◌∷◌ c s) (String.◌∷◌ d t) =
    nat_eq (fold_code (code c)) (fold_code (code d)) && equal_fold s t
equal_fold _ _ = false

-- Decodes a value over the old content of the place that it goes to.
abbrev pub Decoder : Type 0 → Type 0
Decoder A = A → Json → Option A

unfoldable pub decode_string : Decoder String
decode_string old null = some old
decode_string old (str s) = some s
decode_string old _ = none

unfoldable pub decode_bool : Decoder Bool
decode_bool old null = some old
decode_bool old (bool b) = some b
decode_bool old _ = none

-- The range of int, of 64 bits.
unfoldable pub in_int64 : ℤ → Bool
in_int64 (pos n) = ltb n (2 ^ 63)
in_int64 (negsuc n) = ltb n (2 ^ 63)

unfoldable pub decode_int : Decoder ℤ
unfolding in_int64
decode_int old null = some old
decode_int old (num n) = if in_int64 n then some n else none
decode_int old _ = none

-- A field of type `any` and one of type `json.RawMessage`.
unfoldable pub decode_any : Decoder Json
decode_any old v = some v

unfoldable pub decode_raw : Decoder Raw
decode_raw old v = some (some v)

module _ {A : Type 0} where
  -- A pointer: what it points to is filled over its old content, or over the zero value.
  unfoldable pub decode_pointer : Decoder A → A → Decoder (Option A)
  decode_pointer decode zero old null = some none
  decode_pointer decode zero none v = Option.map some (decode zero v)
  decode_pointer decode zero (some a) v = Option.map some (decode a v)

  -- What an element is filled over: the old one in its place, or the zero value.
  abbrev pub first_or : A → List A → A
  first_or zero [] = zero
  first_or zero (a ∷ olds) = a

  abbrev pub after_first : List A → List A
  after_first [] = []
  after_first (a ∷ olds) = olds

  unfoldable pub decode_each : Decoder A → A → List A → List Json → Option (List A)
  decode_each decode zero olds [] = some []
  decode_each decode zero olds (v ∷ vs) = elim (decode (first_or zero olds) v) [
    | none ↦ none
    | some a ↦ Option.map (λ as'. a ∷ as') (decode_each decode zero (after_first olds) vs)
  ]

  -- A slice: a member that comes again fills the elements that are there, as far as they go. What a
  -- shorter one in between has cut off is not kept.
  unfoldable pub decode_slice : Decoder A → A → Decoder (List A)
  unfolding decode_each
  decode_slice decode zero old null = some []
  decode_slice decode zero old (arr vs) = decode_each decode zero old (items vs)
  decode_slice decode zero old _ = none

  unfoldable pub fill : (String → Json → A → Option A) → A → List (String × Json) → Option A
  fill set old [] = some old
  fill set old ((k, v) ∷ ms) = elim (set k v old) [ none ↦ none | some a ↦ fill set a ms ]

  -- A struct: `set` puts the member with a given key into the fields.
  unfoldable pub decode_struct : (String → Json → A → Option A) → Decoder A
  unfolding fill
  decode_struct set old null = some old
  decode_struct set old (obj ms) = fill set old (members ms)
  decode_struct set old _ = none

-- map[string]any: the last of several members with one key counts.
unfoldable pub fill_map : List (String × Json) → List (String × Json) → List (String × Json)
fill_map old [] = old
fill_map old ((k, v) ∷ ms) = fill_map (insert k v old) ms

unfoldable pub decode_map : Decoder (List (String × Json))
unfolding fill_map insert
decode_map old null = some []
decode_map old (obj ms) = some (fill_map old (members ms))
decode_map old _ = none

-- v.(string) of an interface value, with "" where it is no string.
unfoldable pub as_string : Option Json → String
as_string (some (str s)) = s
as_string _ = ""

folds : equal_fold "SESSIONID" "sessionId" ≡ true
unfolding equal_fold
folds = refl
