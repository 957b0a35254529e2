-- ===== src/Prelude/Members.antt =====
-- Membership, and a bounded quantifier by recursion, which the tactics read.
use Prim.Native.Nat.{ℕ}
use mathlib.Core.Path.{◌≡◌, refl, ap}
use mathlib.Core.Logic.{◌↔◌, ◌⊎◌, ⊎_elim}
use mathlib.Core.Bool.{Bool, true}
use mathlib.Core.List.{List, [], ◌∷◌, ◌++◌, Memᴰ}
use mathlib.Core.List.Memᴰ
use native.Mathlib.Omega.{arith}
use grasp.Prelude.Lists.{retain}
use grasp.Prelude.Maps.{contains}

abbrev pub All {ℓ κ} : {A : Type ℓ} → (A → Type κ) → List A → Type κ
All P [] = Unit
All P (x ∷ xs) = P x × All P xs

module _ {ℓ} {A : Type ℓ} where
  pub Memᴰ-cons : (a x : A) (xs : List A) → Memᴰ a (x ∷ xs) ↔ ((a ≡ x) ⊎ Memᴰ a xs)
  Memᴰ-cons a x xs = (Memᴰ.cases_cons, ⊎_elim Memᴰ.head Memᴰ.tail)

  pub Memᴰ-append : (a : A) (xs ys : List A) → Memᴰ a (xs ++ ys) ↔ (Memᴰ a xs ⊎ Memᴰ a ys)
  Memᴰ-append a xs ys = (Memᴰ.append_cases xs, ⊎_elim (Memᴰ.append_left ys) (Memᴰ.append_right xs))

  pub Memᴰ-retain :
      (p : A → Bool) (a : A) (xs : List A) → Memᴰ a (retain p xs) ↔ (Memᴰ a xs × (p a ≡ true))
  Memᴰ-retain p a [] = (λ m. absurd (Memᴰ.not-nil m), λ m. m.0)
  Memᴰ-retain p a (x ∷ xs) = ground (
    arith,
    Memᴰ-retain p a xs,
    Memᴰ-cons a x xs,
    Memᴰ-cons a x (retain p xs),
    λ (e : a ≡ x). ap p e,
  )

pub contains_iff : (xs : List ℕ) (a : ℕ) → (contains xs a ≡ true) ↔ Memᴰ a xs
contains_iff [] a = (λ e. cc, λ m. absurd (Memᴰ.not-nil m))
contains_iff (x ∷ xs) a = ground (arith, contains_iff xs a, Memᴰ-cons a x xs)

module _ {ℓ} {A : Type ℓ} where
  -- Filters that agree on the members of a list.
  pub retain_congr_mem :
      (p q : A → Bool) (xs : List A) → ((x : A) → Memᴰ x xs → p x ≡ q x) → retain p xs ≡ retain q xs
  retain_congr_mem p q [] h = refl
  retain_congr_mem p q (x ∷ xs) h =
      rw (h x (Memᴰ.head refl), retain_congr_mem p q xs (λ y m. h y (Memᴰ.tail m)))
