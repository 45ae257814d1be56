-- ===== src/Gateway/Size.antt =====
-- The bounding of a result, src/oncall/mcp_gateway/client.py.
use oncall.Json.{
  Value, Items, Fields, boolean, cons, dict, end, field, list, nil, null, num, text, uuid,
}
use Prim.Native.String.{◌++◌}
use oncall.Prelude.{
  ℕ, String, if◌then◌else◌, leb, size, suc, take_chars, zero, ◌-◌, Bool, List, Option, Outcome, [],
  false, none, ok, raised, some, true, ◌∷◌,
}

-- `string[: max(1, limit - 1)] + "…"` of a text that is longer than the limit
abbrev pub shrink_text : ℕ → String → String
shrink_text limit s =
    if leb (size s) limit
    then s
    else (if leb 1 (limit - 1) then take_chars (limit - 1) s else take_chars 1 s) ++ "…"

-- `_shrink`: of a list the first items that the limit lets pass, each shrunk
unfoldable mutual
  pub shrink : ℕ → ℕ → Value → Value
  shrink list_limit string_limit (dict d) = dict (shrink_fields list_limit string_limit d)
  shrink list_limit string_limit (list items) =
      list (shrink_items list_limit string_limit list_limit items)
  shrink list_limit string_limit (text s) = text (shrink_text string_limit s)
  shrink list_limit string_limit null = null
  shrink list_limit string_limit (boolean b) = boolean b
  shrink list_limit string_limit (num n) = num n
  shrink list_limit string_limit (uuid n) = uuid n

  pub shrink_items : ℕ → ℕ → ℕ → Items → Items
  shrink_items list_limit string_limit zero items = nil
  shrink_items list_limit string_limit (suc n) nil = nil
  shrink_items list_limit string_limit (suc n) (cons v rest) =
      cons (shrink list_limit string_limit v) (shrink_items list_limit string_limit n rest)

  pub shrink_fields : ℕ → ℕ → Fields → Fields
  shrink_fields list_limit string_limit end = end
  shrink_fields list_limit string_limit (field key v rest) =
      field key (shrink list_limit string_limit v) (shrink_fields list_limit string_limit rest)

-- The limits that are tried, in their order.
abbrev pub limits : List (ℕ × ℕ)
limits = (100, 2048) ∷ ((50, 1024) ∷ ((20, 512) ∷ ((10, 256) ∷ ((3, 128) ∷ []))))

-- A result that validates is refused, or does not fit under any limit.
pub data SizeError : Type 0 where
  invalid_result exceeds_limit : SizeError

module _ (json_size : Fields → ℕ) (model_validate : Fields → Option Fields) where
  -- The loop over the limits; `model_validate` is the dump of the validated result.
  unfoldable pub first_fitting : Fields → ℕ → List (ℕ × ℕ) → Outcome SizeError (Fields × Bool)
  unfolding shrink_fields
  first_fitting value max_bytes [] = raised exceeds_limit
  first_fitting value max_bytes (limit ∷ rest) =
      let later = first_fitting value max_bytes rest in
      elim (model_validate (shrink_fields limit.0 limit.1 value)) [
        | none ↦ raised invalid_result
        | some validated ↦
            if leb (json_size validated) max_bytes then ok (validated, true) else later
      ]

  -- `_bounded_result`
  unfoldable pub bounded_result : Fields → ℕ → Outcome SizeError (Fields × Bool)
  unfolding first_fitting
  bounded_result value max_bytes =
      if leb (json_size value) max_bytes
      then ok (value, false)
      else first_fitting value max_bytes limits
