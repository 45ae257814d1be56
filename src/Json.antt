-- ===== src/Json.antt =====
-- The values that the source keeps in JSON columns and passes as `dict[str, Any]`.
use oncall.Prelude.{
  ℕ, Bool, Option, String, false, if◌then◌else◌, nat_eq, none, some, string_eq, ◌==◌, arith, eq_iff,
  refl, ◌≡◌,
}

-- `num` stands for the numbers, `uuid` for the text of an identifier, `str(row.id)`.
mutual
  pub data Value : Type 0 where
    null : Value
    boolean : Bool → Value
    num : ℕ → Value
    text : String → Value
    uuid : ℕ → Value
    list : Items → Value
    dict : Fields → Value

  pub data Items : Type 0 where
    nil : Items
    cons : Value → Items → Items

  pub data Fields : Type 0 where
    end : Fields
    field : String → Value → Fields → Fields

-- `d.get(key)`
unfoldable pub get : String → Fields → Option Value
get key end = none
get key (field k v rest) = if k == key then some v else get key rest

-- `isinstance(v, dict)`
abbrev pub as_dict : Option Value → Option Fields
as_dict (some (dict d)) = some d
as_dict _ = none

-- `v == "..."` where `v` is what `d.get(key)` returned
abbrev pub is_text : String → Option Value → Bool
is_text s (some (text t)) = t == s
is_text s _ = false

-- `d[key] = value`: a key that is there keeps its place.
unfoldable pub set_field : String → Value → Fields → Fields
set_field key v end = field key v end
set_field key v (field k w rest) =
    if k == key then field k v rest else field k w (set_field key v rest)

pub get-set_field :
    (k key : String) (v : Value) (d : Fields)
    → get k (set_field key v d) ≡ (if key == k then some v else get k d)
unfolding get set_field
get-set_field k key v end = refl
get-set_field k key v (field j w rest) =
    ground (arith, get-set_field k key v rest, eq_iff j key, eq_iff j k, eq_iff key k)
