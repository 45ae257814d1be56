-- ===== src/Prelude/Members.antt =====
-- The row that a query loads is one of the table.
use mathlib.Core.List.{Mem, mem-cons_self, mem-cons_of_mem}
use mathlib.Core.Path.{◌≡◌, subst, sym}
use mathlib.Core.Bool.{Bool, true}
use mathlib.Core.List.{List, [], ◌∷◌}
use mathlib.Core.Option.{Option, none, some, some-injective}
use mathlib.Core.Logic.{◌⊎◌, inl, inr}
use Prim.Native.Nat.{ℕ}
use native.Mathlib.Omega.{arith}
use oncall.Prelude.Tests.{Bool-cases}
use oncall.Prelude.Lists.{find, select, latest_by, larger}

module _ {ℓ} {A : Type ℓ} (p : A → Bool) where
  pub find-Mem : (xs : List A) {x : A} → find p xs ≡ some x → Mem x xs
  unfolding find
  find-Mem [] h = absurd (cc)
  find-Mem (y ∷ xs) {x} h = elim (Bool-cases (p y)) [
    | inl e ↦ subst (λ z. Mem z (y ∷ xs)) (some-injective _ _ (rw (e, find) at h)) mem-cons_self
    | inr e ↦ mem-cons_of_mem y {a = x} {l = xs} (find-Mem xs {x = x} (rw (e, find) at h))
  ]

module _ {ℓ} {A : Type ℓ} (key : A → ℕ) where
  larger-either : (x : A) (o : Option A) {z : A} → larger key x o ≡ z → (z ≡ x) ⊎ (o ≡ some z)
  larger-either x none h = inl (ground (arith))
  larger-either x (some y) h = ground arith

module _ {ℓ} {A : Type ℓ} (key : A → ℕ) (p : A → Bool) where
  pub latest_by-select-Mem : (xs : List A) {x : A} → latest_by key (select p xs) ≡ some x → Mem x xs
  unfolding latest_by select
  latest_by-select-Mem [] h = absurd (cc)
  latest_by-select-Mem (y ∷ xs) {x} h = elim (Bool-cases (p y)) [
    | inr e ↦
        mem-cons_of_mem y {a = x} {l = xs} (latest_by-select-Mem xs {x = x} (rw (e, select) at h))
    | inl e ↦
        elim (larger-either key y (latest_by key (select p xs)) {z = x}
          (some-injective _ _ (rw (e, select, latest_by) at h))) [
            | inl z ↦ subst (λ w. Mem w (y ∷ xs)) (sym z) mem-cons_self
            | inr z ↦ mem-cons_of_mem y {a = x} {l = xs} (latest_by-select-Mem xs {x = x} z)
          ]
  ]

module _ {ℓ} {A : Type ℓ} (q p : A → Bool) where
  pub find-select : (xs : List A) {x : A} → find q (select p xs) ≡ some x → (p x ≡ true) × Mem x xs
  unfolding find select
  find-select [] h = absurd (cc)
  find-select (y ∷ xs) {x} h = elim (Bool-cases (p y)) [
    | inr e ↦
        (let (t, m) = find-select xs {x = x} (rw (e, select) at h) in
          (t, mem-cons_of_mem y {a = x} {l = xs} m))
    | inl e ↦ elim (Bool-cases (q y)) [
      | inl f ↦
          subst (λ z. (p z ≡ true) × Mem z (y ∷ xs))
            (some-injective _ _ (rw (e, select, f, find) at h)) (e, mem-cons_self)
      | inr f ↦
          (let (t, m) = find-select xs {x = x} (rw (e, select, f, find) at h) in
            (t, mem-cons_of_mem y {a = x} {l = xs} m))
    ]
  ]
