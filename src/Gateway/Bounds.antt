-- ===== src/Gateway/Bounds.antt =====
-- What the bounding of a result guarantees: src/oncall/mcp_gateway/client.py.
use oncall.Gateway.Size.{
  shrink, shrink_text, shrink_items, shrink_fields, bounded_result, first_fitting, limits,
}
use oncall.Json.{
  Items, Value, Fields, boolean, cons, dict, end, field, list, nil, null, num, text, uuid,
}
use oncall.Prelude.{
  ℕ, size, suc, ◌≤◌, Bool-cases, String, arith, inl, inr, leb, size-append, size-take_chars,
  take_chars, zero, ◌-◌, Bool, List, Option, Option-cases, [], false, ok, refl, some, true, ◌&&◌,
  ◌∷◌, ◌≡◌, ◌⊎◌,
}

abbrev pub item_count : Items → ℕ
item_count nil = 0
item_count (cons v rest) = suc (item_count rest)

-- The lists of a value have at most so many items, its texts at most so many characters.
unfoldable mutual
  pub IsWithin : ℕ → ℕ → Value → Type 0
  IsWithin items chars (dict d) = AreFieldsWithin items chars d
  IsWithin items chars (list l) = (item_count l ≤ items) × AreItemsWithin items chars l
  IsWithin items chars (text s) = size s ≤ chars
  IsWithin items chars null = Unit
  IsWithin items chars (boolean b) = Unit
  IsWithin items chars (num n) = Unit
  IsWithin items chars (uuid n) = Unit

  pub AreItemsWithin : ℕ → ℕ → Items → Type 0
  AreItemsWithin items chars nil = Unit
  AreItemsWithin items chars (cons v rest) =
      IsWithin items chars v × AreItemsWithin items chars rest

  pub AreFieldsWithin : ℕ → ℕ → Fields → Type 0
  AreFieldsWithin items chars end = Unit
  AreFieldsWithin items chars (field key v rest) =
      IsWithin items chars v × AreFieldsWithin items chars rest

size-shrink_text : (limit : ℕ) (s : String) → 2 ≤ limit → size (shrink_text limit s) ≤ limit
size-shrink_text limit s big = elim (Bool-cases (leb (size s) limit)) [
  | inl e ↦ rw (e) (ground arith)
  | inr e ↦ rw (e) (elim (Bool-cases (leb 1 (limit - 1))) [
    | inl f ↦
        rw (f)
          (omega (arith, size-append (take_chars (limit - 1) s) "…", size-take_chars (limit - 1) s))
    | inr f ↦ absurd (ground arith)
  ])
]

item_count-shrink_items :
    (items chars n : ℕ) (l : Items) → item_count (shrink_items items chars n l) ≤ n
unfolding shrink_items
item_count-shrink_items items chars zero l = omega arith
item_count-shrink_items items chars (suc n) nil = omega arith
item_count-shrink_items items chars (suc n) (cons v l) =
    omega (arith, item_count-shrink_items items chars n l)

mutual
  unfolding shrink IsWithin

  shrink-IsWithin :
      (items chars : ℕ) (v : Value) → 2 ≤ chars → IsWithin items chars (shrink items chars v)
  shrink-IsWithin items chars (dict d) big = shrink_fields-IsWithin items chars d big
  shrink-IsWithin items chars (list l) big =
      (item_count-shrink_items items chars items l, shrink_items-IsWithin items chars items l big)
  shrink-IsWithin items chars (text s) big = size-shrink_text chars s big
  shrink-IsWithin items chars null big = tt
  shrink-IsWithin items chars (boolean b) big = tt
  shrink-IsWithin items chars (num n) big = tt
  shrink-IsWithin items chars (uuid n) big = tt

  shrink_items-IsWithin :
      (items chars n : ℕ) (l : Items)
      → 2 ≤ chars
      → AreItemsWithin items chars (shrink_items items chars n l)
  shrink_items-IsWithin items chars zero l big = tt
  shrink_items-IsWithin items chars (suc n) nil big = tt
  shrink_items-IsWithin items chars (suc n) (cons v l) big =
      (shrink-IsWithin items chars v big, shrink_items-IsWithin items chars n l big)

  shrink_fields-IsWithin :
      (items chars : ℕ) (d : Fields)
      → 2 ≤ chars
      → AreFieldsWithin items chars (shrink_fields items chars d)
  shrink_fields-IsWithin items chars end big = tt
  shrink_fields-IsWithin items chars (field key v d) big =
      (shrink-IsWithin items chars v big, shrink_fields-IsWithin items chars d big)

module _ (json_size : Fields → ℕ) (model_validate : Fields → Option Fields) where
  -- What is validated of a shrunk value: its lists and texts are within limits
  abbrev pub IsShrunk : Fields → Fields → Type 0
  IsShrunk value result =
      (items : ℕ) × (chars : ℕ) × (items ≤ 100)
      × (chars ≤ 2048)
      × AreFieldsWithin items chars (shrink_fields items chars value)
      × (model_validate (shrink_fields items chars value) ≡ some result)

  are_limits : List (ℕ × ℕ) → Bool
  are_limits [] = true
  are_limits (limit ∷ rest) =
      leb limit.0 100 && (leb 2 limit.1 && (leb limit.1 2048 && are_limits rest))

  first_fitting-Fits :
      (value : Fields) (max_bytes : ℕ) (tried : List (ℕ × ℕ)) (result : Fields) (truncated : Bool)
      → are_limits tried ≡ true
      → first_fitting json_size model_validate value max_bytes tried ≡ ok (result, truncated)
      → (json_size result ≤ max_bytes) × (truncated ≡ true) × IsShrunk value result
  unfolding first_fitting are_limits
  first_fitting-Fits value max_bytes [] result truncated fine h = absurd (cc)
  first_fitting-Fits value max_bytes (limit ∷ rest) result truncated fine h =
      elim (Option-cases (model_validate (shrink_fields limit.0 limit.1 value))) [
        | inl e ↦ absurd (ground arith)
        | inr (validated, e) ↦ elim (Bool-cases (leb (json_size validated) max_bytes)) [
          | inl f ↦ (
            ground arith,
            ground arith,
            (
              limit.0,
              limit.1,
              ground arith,
              ground arith,
              shrink_fields-IsWithin limit.0 limit.1 value (ground arith),
              ground arith,
            ),
          )
          | inr f ↦
              first_fitting-Fits value max_bytes rest result truncated (ground arith) (ground arith)
        ]
      ]

  -- What the gateway passes on is at most `max_bytes` long. It is the result of the tool itself, or
  -- it is marked as truncated and is what validates of a value whose lists have at most 100 items
  -- and whose texts have at most 2048 characters.
  pub bounded_result-Fits :
      (value : Fields) (max_bytes : ℕ) (result : Fields) (truncated : Bool)
      → bounded_result json_size model_validate value max_bytes ≡ ok (result, truncated)
      → (json_size result ≤ max_bytes)
        × (((truncated ≡ false) × (result ≡ value)) ⊎ ((truncated ≡ true) × IsShrunk value result))
  unfolding bounded_result are_limits
  bounded_result-Fits value max_bytes result truncated h =
      elim (Bool-cases (leb (json_size value) max_bytes)) [
        | inl e ↦ (ground arith, inl (ground arith, ground arith))
        | inr e ↦
            (let r =
                first_fitting-Fits value max_bytes limits result truncated refl
                  (rw (bounded_result, e) at h) in
              (r.0, inr (r.1, r.2)))
      ]
