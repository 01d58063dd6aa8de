-- ===== src/Prelude/Lists.antt =====
-- Lists measured by native numbers, and searched, filtered and updated by Boolean tests.
use Prim.Native.Nat.{ℕ, zero, suc, ◌+◌, min}
use mathlib.Core.Path.{◌≡◌, refl, ap, subst}
use mathlib.Core.Logic.{◌↔◌, ◌⊎◌, inl, inr}
use mathlib.Core.Bool.{Bool, true, false, ◌&&◌, ◌||◌}
use mathlib.Core.Option.{Option, none, some}
use mathlib.Core.List.{List, [], ◌∷◌, ◌++◌, map}
use native.Mathlib.Omega.{arith}
use trouveur.Prelude.Tests.{if◌then◌else◌, Eq, nat_eq, ◌==◌, Bool-cases}

module _ {ℓ} {A : Type ℓ} where
  abbrev pub length : List A → ℕ
  length [] = 0
  length (x ∷ xs) = suc (length xs)

  unfoldable pub take : ℕ → List A → List A
  take zero xs = []
  take (suc n) [] = []
  take (suc n) (x ∷ xs) = x ∷ take n xs

  unfoldable pub drop : ℕ → List A → List A
  drop zero xs = xs
  drop (suc n) [] = []
  drop (suc n) (x ∷ xs) = drop n xs

  unfoldable pub filter : (A → Bool) → List A → List A
  filter p [] = []
  filter p (x ∷ xs) = if p x then x ∷ filter p xs else filter p xs

  unfoldable pub any : (A → Bool) → List A → Bool
  any p [] = false
  any p (x ∷ xs) = p x || any p xs

  unfoldable pub count : (A → Bool) → List A → ℕ
  count p [] = 0
  count p (x ∷ xs) = (if p x then 1 else 0) + count p xs

  -- SQL's UPDATE: the rows that pass the test are changed, in place.
  unfoldable pub update_where : (A → Bool) → (A → A) → List A → List A
  update_where p f [] = []
  update_where p f (x ∷ xs) = (if p x then f x else x) ∷ update_where p f xs

  -- A predicate that every member has.
  abbrev pub All {κ} : (A → Type κ) → List A → Type κ
  All P [] = Unit
  All P (x ∷ xs) = P x × All P xs

  pub List-cases : (xs : List A) → (xs ≡ []) ⊎ ((x : A) × (ys : List A) × (xs ≡ x ∷ ys))
  List-cases [] = inl refl
  List-cases (x ∷ xs) = inr (x, xs, refl)

  pub length-append : (xs ys : List A) → length (xs ++ ys) ≡ length xs + length ys
  length-append [] ys = omega arith
  length-append (x ∷ xs) ys = omega (arith, length-append xs ys)

  pub length-take : (n : ℕ) (xs : List A) → length (take n xs) ≡ min n (length xs)
  unfolding take
  length-take zero xs = omega arith
  length-take (suc n) [] = omega arith
  length-take (suc n) (x ∷ xs) = omega (arith, length-take n xs)

  pub length-filter : (p : A → Bool) (xs : List A) → length (filter p xs) ≡ count p xs
  unfolding filter count
  length-filter p [] = refl
  length-filter p (x ∷ xs) = ground (arith, length-filter p xs)

  pub take-append-drop : (n : ℕ) (xs : List A) → take n xs ++ drop n xs ≡ xs
  unfolding take drop
  take-append-drop zero xs = refl
  take-append-drop (suc n) [] = refl
  take-append-drop (suc n) (x ∷ xs) = ap (◌∷◌ x) (take-append-drop n xs)

  module _ {κ} (P : A → Type κ) where
    pub All-take : (n : ℕ) (xs : List A) → All P xs → All P (take n xs)
    unfolding take
    All-take zero xs h = tt
    All-take (suc n) [] h = tt
    All-take (suc n) (x ∷ xs) h = (h.0, All-take n xs h.1)

    pub All-append : (xs ys : List A) → All P xs → All P ys → All P (xs ++ ys)
    All-append [] ys hx hy = hy
    All-append (x ∷ xs) ys hx hy = (hx.0, All-append xs ys hx.1 hy)

    pub All-prefix : (xs ys : List A) → All P (xs ++ ys) → All P xs
    All-prefix [] ys h = tt
    All-prefix (x ∷ xs) ys h = (h.0, All-prefix xs ys h.1)

    pub All-filter : (p : A → Bool) (xs : List A) → All P xs → All P (filter p xs)
    unfolding filter
    All-filter p [] h = tt
    All-filter p (x ∷ xs) h = elim (Bool-cases (p x)) [
      | inl e ↦ rw e (h.0, All-filter p xs h.1)
      | inr e ↦ rw e (All-filter p xs h.1)
    ]

    pub All-map {μ} : {Q : A → Type μ} → ((x : A) → P x → Q x) → (xs : List A) → All P xs → All Q xs
    All-map f [] h = tt
    All-map f (x ∷ xs) h = (f x h.0, All-map f xs h.1)

  pub filter-append :
      (p : A → Bool) (xs ys : List A) → filter p (xs ++ ys) ≡ filter p xs ++ filter p ys
  unfolding filter
  filter-append p [] ys = refl
  filter-append p (x ∷ xs) ys = ground (arith, filter-append p xs ys)

  pub filter-All : (p : A → Bool) (xs : List A) → All (λ x. p x ≡ true) (filter p xs)
  unfolding filter
  filter-All p [] = tt
  filter-All p (x ∷ xs) = elim (Bool-cases (p x)) [
    | inl e ↦ rw e (e, filter-All p xs)
    | inr e ↦ rw e (filter-All p xs)
  ]

module _ {ℓ κ} {A : Type ℓ} {B : Type κ} where
  pub length-map : (xs : List A) (f : A → B) → length (map f xs) ≡ length xs
  length-map [] f = refl
  length-map (x ∷ xs) f = ap suc (length-map xs f)

-- Rows of a table, found by their key.
module _ {ℓ} {R : Type ℓ} (key : R → ℕ) where
  unfoldable pub find : ℕ → List R → Option R
  find k [] = none
  find k (r ∷ rs) = if key r == k then some r else find k rs

module _ {ℓ} {A : Type ℓ} ⦃e : Eq A⦄ where
  unfoldable pub elem : A → List A → Bool
  elem a [] = false
  elem a (x ∷ xs) = x == a || elem a xs

  -- No element stands twice.
  abbrev pub IsDistinct : List A → Type 0
  IsDistinct [] = Unit
  IsDistinct (x ∷ xs) = (elem x xs ≡ false) × IsDistinct xs

  pub elem-append_left : (a : A) (xs ys : List A) → elem a xs ≡ true → elem a (xs ++ ys) ≡ true
  unfolding elem
  elem-append_left a [] ys h = absurd (ground (arith, h))
  elem-append_left a (x ∷ xs) ys h = ground (arith, h, elem-append_left a xs ys)

  pub elem-append_none :
      (a : A) (xs ys : List A) → elem a xs ≡ false → elem a ys ≡ false → elem a (xs ++ ys) ≡ false
  unfolding elem
  elem-append_none a [] ys h k = k
  elem-append_none a (x ∷ xs) ys h k = ground (arith, h, elem-append_none a xs ys)

  elem-prefix : (a : A) (xs ys : List A) → elem a (xs ++ ys) ≡ false → elem a xs ≡ false
  unfolding elem
  elem-prefix a [] ys h = refl
  elem-prefix a (x ∷ xs) ys h = ground (arith, elem-prefix a xs ys)

  pub IsDistinct-prefix : (xs ys : List A) → IsDistinct (xs ++ ys) → IsDistinct xs
  IsDistinct-prefix [] ys d = tt
  IsDistinct-prefix (x ∷ xs) ys d = (elem-prefix x xs ys d.0, IsDistinct-prefix xs ys d.1)

  pub All-elem_at {κ} : (Q : A → Type κ) (k : A) (xs : List A) → All Q xs → elem k xs ≡ true → Q k
  unfolding elem
  All-elem_at Q k [] h m = absurd (ground arith)
  All-elem_at Q k (x ∷ xs) h m = elim (Bool-cases (x == k)) [
    | inl here ↦ subst Q ((e.beq_iff x k).0 here) h.0
    | inr later ↦ All-elem_at Q k xs h.1 (ground arith)
  ]

module _ {ℓ} {A : Type ℓ} ⦃e : Eq A⦄ where
  abbrev pub list_beq : List A → List A → Bool
  list_beq [] [] = true
  list_beq [] (y ∷ ys) = false
  list_beq (x ∷ xs) [] = false
  list_beq (x ∷ xs) (y ∷ ys) = x == y && list_beq xs ys

  pub list_beq_iff : (xs ys : List A) → (list_beq xs ys ≡ true) ↔ (xs ≡ ys)
  list_beq_iff [] [] = (λ h. refl, λ h. refl)
  list_beq_iff [] (y ∷ ys) = (λ h. absurd (ground arith), λ h. absurd (ground arith))
  list_beq_iff (x ∷ xs) [] = (λ h. absurd (ground arith), λ h. absurd (ground arith))
  list_beq_iff (x ∷ xs) (y ∷ ys) = ground (arith, e.beq_iff x y, list_beq_iff xs ys)

  instance abbrev pub list_eq : Eq (List A)
  list_eq = record { beq = list_beq; beq_iff = list_beq_iff }
