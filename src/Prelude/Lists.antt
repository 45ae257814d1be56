-- ===== src/Prelude/Lists.antt =====
-- Lists as the rows of a table: queries, updates and membership.
use Prim.Native.Nat.{ℕ, zero, suc, ◌+◌}
use mathlib.Core.Path.{◌≡◌, refl, subst}
use mathlib.Core.Bool.{Bool, true, false, ◌&&◌, ◌||◌}
use mathlib.Core.List.{List, [], ◌∷◌, ◌++◌}
use mathlib.Core.Option.{Option, none, some, some-injective}
use native.Mathlib.Omega.{arith}
use mathlib.Core.Logic.{inl, inr}
use oncall.Prelude.Tests.{leb, ltb, if◌then◌else◌, Bool-cases}

module _ {ℓ} {A : Type ℓ} where
  abbrev pub length : List A → ℕ
  length [] = 0
  length (x ∷ xs) = suc (length xs)

  -- `xs[:n]`
  abbrev pub take : ℕ → List A → List A
  take zero xs = []
  take (suc n) [] = []
  take (suc n) (x ∷ xs) = x ∷ take n xs

  abbrev pub any : (A → Bool) → List A → Bool
  any p [] = false
  any p (x ∷ xs) = p x || any p xs

  abbrev pub all : (A → Bool) → List A → Bool
  all p [] = true
  all p (x ∷ xs) = p x && all p xs

  -- `select(T).where(p)` with `scalar_one_or_none`, or the first row
  unfoldable pub find : (A → Bool) → List A → Option A
  find p [] = none
  find p (x ∷ xs) = if p x then some x else find p xs

  -- `select(T).where(p)`, all rows
  unfoldable pub select : (A → Bool) → List A → List A
  select p [] = []
  select p (x ∷ xs) = let rest = select p xs in if p x then x ∷ rest else rest

  -- `update(T).where(p).values(...)`
  unfoldable pub update_where : (A → Bool) → (A → A) → List A → List A
  update_where p f [] = []
  update_where p f (x ∷ xs) = (if p x then f x else x) ∷ update_where p f xs

  -- an assignment to a field of the row that `find p` loaded
  unfoldable pub update_first : (A → Bool) → (A → A) → List A → List A
  update_first p f [] = []
  update_first p f (x ∷ xs) = if p x then f x ∷ xs else x ∷ update_first p f xs

  abbrev pub larger : (A → ℕ) → A → Option A → A
  larger key x none = x
  larger key x (some y) = if ltb (key x) (key y) then y else x

  -- `order_by(key.desc()).limit(1)`; of rows with one key, the first
  unfoldable pub latest_by : (A → ℕ) → List A → Option A
  latest_by key [] = none
  latest_by key (x ∷ xs) = some (larger key x (latest_by key xs))

  abbrev smaller : (A → ℕ) → A → Option A → A
  smaller key x none = x
  smaller key x (some y) = if ltb (key y) (key x) then y else x

  -- `order_by(key.asc()).limit(1)`; of rows with one key, the first
  unfoldable pub earliest_by : (A → ℕ) → List A → Option A
  earliest_by key [] = none
  earliest_by key (x ∷ xs) = some (smaller key x (earliest_by key xs))

  unfoldable pub count : (A → Bool) → List A → ℕ
  count p [] = 0
  count p (x ∷ xs) = let rest = count p xs in if p x then suc rest else rest

module _ {ℓ κ} {A : Type ℓ} where
  abbrev pub All : (A → Type κ) → List A → Type κ
  All P [] = Unit
  All P (x ∷ xs) = P x × All P xs

module _ {ℓ} {A : Type ℓ} where
  pub find_sound : (p : A → Bool) (xs : List A) {x : A} → find p xs ≡ some x → p x ≡ true
  unfolding find
  find_sound p [] h = cc
  find_sound p (y ∷ xs) {x} h = ground (arith, find_sound p xs {x = x})

module _ {ℓ} {A : Type ℓ} (key : A → ℕ) (p : A → Bool) where
  -- The newest of the selected rows was selected.
  pub latest_by-select_sound :
      (xs : List A) {x : A} → latest_by key (select p xs) ≡ some x → p x ≡ true
  unfolding select latest_by
  latest_by-select_sound [] h = cc
  latest_by-select_sound (y ∷ xs) {x} h = elim (Bool-cases (p y)) [
    | inr e ↦ latest_by-select_sound xs {x = x} (rw (e, select) at h)
    | inl e ↦ (let h' = rw (e, select) at h in ground (arith, latest_by-select_sound xs {x = x}))
  ]

module _ {ℓ} {A : Type ℓ} (p : A → Bool) where
  pub count-append : (xs ys : List A) → count p (xs ++ ys) ≡ count p xs + count p ys
  unfolding count
  count-append [] ys = omega arith
  count-append (x ∷ xs) ys = ground (arith, count-append xs ys)

  -- An assignment that the test does not see leaves the count.
  pub count-update_first :
      (q : A → Bool) (f : A → A) (xs : List A)
      → ((x : A) → p (f x) ≡ p x)
      → count p (update_first q f xs) ≡ count p xs
  unfolding count update_first
  count-update_first q f [] h = refl
  count-update_first q f (x ∷ xs) h = ground (arith, h x, count-update_first q f xs h)

  pub count-of-find :
      (q : A → Bool) (xs : List A)
      → ((x : A) → p x ≡ true → q x ≡ true)
      → find q xs ≡ none
      → count p xs ≡ 0
  unfolding count find
  count-of-find q [] h e = refl
  count-of-find q (x ∷ xs) h e = ground (arith, h x, count-of-find q xs h)

  -- An assignment to the loaded row, seen by the test, for a row that it loses.
  pub count-update_first-less :
      (q : A → Bool) (f : A → A) (xs : List A) {x : A}
      → find q xs ≡ some x
      → p x ≡ true
      → p (f x) ≡ false
      → suc (count p (update_first q f xs)) ≡ count p xs
  unfolding count find update_first
  count-update_first-less q f [] h t u = cc
  count-update_first-less q f (y ∷ xs) {x} h t u =
      ground (arith, count-update_first-less q f xs {x = x})

  pub count-update_first-same :
      (q : A → Bool) (f : A → A) (xs : List A) {x : A}
      → find q xs ≡ some x
      → p (f x) ≡ p x
      → count p (update_first q f xs) ≡ count p xs
  unfolding count find update_first
  count-update_first-same q f [] h t = cc
  count-update_first-same q f (y ∷ xs) {x} h t =
      ground (arith, count-update_first-same q f xs {x = x})

  -- A bulk update that ends the test for the rows it is for.
  pub count-update_where-none :
      (f : A → A) (xs : List A) → ((x : A) → p (f x) ≡ false) → count p (update_where p f xs) ≡ 0
  unfolding count update_where
  count-update_where-none f [] h = refl
  count-update_where-none f (x ∷ xs) h = ground (arith, h x, count-update_where-none f xs h)

  pub count-update_where-le :
      (q : A → Bool) (f : A → A) (xs : List A)
      → ((x : A) → q x ≡ true → p (f x) ≡ false)
      → leb (count p (update_where q f xs)) (count p xs) ≡ true
  unfolding count update_where
  count-update_where-le q f [] h = refl
  count-update_where-le q f (x ∷ xs) h = ground (arith, h x, count-update_where-le q f xs h)

module _ {ℓ κ} {A : Type ℓ} (P : A → Type κ) where
  pub All-append : (xs ys : List A) → All P xs → All P ys → All P (xs ++ ys)
  All-append [] ys h k = k
  All-append (x ∷ xs) ys h k = (h.0, All-append xs ys h.1 k)

  pub All-update_first :
      (q : A → Bool) (f : A → A) (xs : List A)
      → ((x : A) → P x → P (f x))
      → All P xs
      → All P (update_first q f xs)
  unfolding update_first
  All-update_first q f [] h a = tt
  All-update_first q f (x ∷ xs) h a = elim (Bool-cases (q x)) [
    | inl e ↦ rw e (h x a.0, a.1)
    | inr e ↦ rw e (a.0, All-update_first q f xs h a.1)
  ]

  pub All-update_where :
      (q : A → Bool) (f : A → A) (xs : List A)
      → ((x : A) → P x → P (f x))
      → All P xs
      → All P (update_where q f xs)
  unfolding update_where
  All-update_where q f [] h a = tt
  All-update_where q f (x ∷ xs) h a = elim (Bool-cases (q x)) [
    | inl e ↦ rw e (h x a.0, All-update_where q f xs h a.1)
    | inr e ↦ rw e (a.0, All-update_where q f xs h a.1)
  ]

  pub find-All : (q : A → Bool) (xs : List A) {x : A} → find q xs ≡ some x → All P xs → P x
  unfolding find
  find-All q [] h a = absurd (cc)
  find-All q (y ∷ xs) {x} h a = elim (Bool-cases (q y)) [
    | inl e ↦ (let h' = rw (e, find) at h in subst P (some-injective _ _ h') a.0)
    | inr e ↦ find-All q xs {x = x} (rw (e, find) at h) a.1
  ]

module _ {ℓ} {A : Type ℓ} where
  -- An assignment that leaves the key does not change which row is loaded.
  pub find-update_first :
      (q : A → Bool) (f : A → A) (xs : List A) {x : A}
      → find q xs ≡ some x
      → q (f x) ≡ true
      → find q (update_first q f xs) ≡ some (f x)
  unfolding find update_first
  find-update_first q f [] h t = absurd (cc)
  find-update_first q f (y ∷ xs) {x} h t = ground (arith, find-update_first q f xs {x = x})
