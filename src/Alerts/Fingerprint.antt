-- ===== src/Alerts/Fingerprint.antt =====
-- The identity of an alert: src/oncall/alerts/fingerprint.py. SHA-256 and `json.dumps` are
-- parameters.
use oncall.Json.{Value, Fields, get, dict, end, field, text}
use oncall.Prelude.{
  ℕ, Bool, List, Option, String, [], all_chars, any, if◌then◌else◌, is_hex_char, leb, nat_beq,
  nat_eq, none, size, some, sort_by, string_eq, text_leb, ◌&&◌, ◌==◌, ◌||◌, ◌∷◌,
}
use Prim.Native.Char.{Char, code, char}
use Prim.Native.String.{◌++◌}

-- The parts of an alert's identity that the integration and the alert's name give.
pub record Subject : Type 0 where
  pub project_id : String
  pub environment : String
  pub service : String
  pub alert_name : String

-- `str.lower` of a hexadecimal digit
abbrev lower_hex : Char → Char
lower_hex c =
    if nat_beq (code c) b'A'
    then char b'a' tt
    else if nat_beq (code c) b'B'
    then char b'b' tt
    else if nat_beq (code c) b'C'
    then char b'c' tt
    else if nat_beq (code c) b'D'
    then char b'd' tt
    else if nat_beq (code c) b'E'
    then char b'e' tt
    else if nat_beq (code c) b'F'
    then char b'f' tt
    else c

unfoldable pub lower_hex_text : String → String
lower_hex_text String.[] = String.[]
lower_hex_text (String.◌∷◌ c s) = String.◌∷◌ (lower_hex c) (lower_hex_text s)

-- [0-9a-fA-F]
abbrev pub is_any_hex : ℕ → Bool
is_any_hex c = is_hex_char c || (leb b'A' c && leb c b'F')

-- `_VENDOR_FINGERPRINT.fullmatch`
abbrev pub is_vendor_fingerprint : String → Bool
is_vendor_fingerprint s = all_chars is_any_hex s && (leb 16 (size s) && leb (size s) 64)

unfoldable pub valid_source_fingerprint : Value → Option String
unfolding lower_hex_text
valid_source_fingerprint (text s) =
    if is_vendor_fingerprint s then some (lower_hex_text s) else none
valid_source_fingerprint _ = none

-- `set(names)`, as a list
unfoldable pub distinct : List String → List String
distinct [] = []
distinct (n ∷ ns) = let rest = distinct ns in if any (λ m. m == n) rest then rest else n ∷ rest

unfoldable pub stable_labels : List String → Fields → Fields
unfolding get
stable_labels [] labels = end
stable_labels (n ∷ ns) labels = elim (get n labels) [
  | none ↦ stable_labels ns labels
  | some v ↦ field n v (stable_labels ns labels)
]

-- `identity`, its keys sorted as `json.dumps` writes them
abbrev pub identity_of : Subject → Fields → Fields
identity_of s labels = field "alert_name" (text s.alert_name) (
    field "environment" (text s.environment) (
      field "labels" (dict labels)
        (field "project_id" (text s.project_id) (field "service" (text s.service) end))))

module _ (dumps : Fields → String) (sha256 : String → String) where
  unfoldable pub stable_fingerprint : Subject → Fields → List String → String
  unfolding distinct stable_labels sort_by
  stable_fingerprint s labels names =
      "sha256:"
      ++ sha256 (dumps (identity_of s (stable_labels (sort_by text_leb (distinct names)) labels)))

  unfoldable pub resolve_fingerprint : Value → Subject → Fields → List String → String
  unfolding valid_source_fingerprint
  resolve_fingerprint source s labels names = elim (valid_source_fingerprint source) [
    | some official ↦ official
    | none ↦ stable_fingerprint s labels names
  ]
