-- ===== src/Prelude/Counts.antt =====
-- Counting the rows that pass a test, across UPDATE, DELETE and INSERT.
use Prim.Native.Nat.{◌+◌, ◌≤◌}
use mathlib.Core.Path.{◌≡◌, refl}
use mathlib.Core.Bool.{Bool, true, false, ◌&&◌, ◌||◌}
use mathlib.Core.Logic.{inl, inr}
use mathlib.Core.Option
use mathlib.Core.Option.{Option, none, some}
use mathlib.Core.List.{List, [], ◌∷◌, ◌++◌}
use native.Mathlib.Omega.{arith}
use trouveur.Prelude.Tests.{if◌then◌else◌, Bool-cases}
use trouveur.Prelude.Lists.{length, filter, update_where, count, any, All}

module _ {ℓ} {A : Type ℓ} where
  pub count-append : (p : A → Bool) (xs ys : List A) → count p (xs ++ ys) ≡ count p xs + count p ys
  unfolding count
  count-append p [] ys = omega arith
  count-append p (x ∷ xs) ys = omega (arith, count-append p xs ys)

  pub count-le-length : (p : A → Bool) (xs : List A) → count p xs ≤ length xs
  unfolding count
  count-le-length p [] = omega arith
  count-le-length p (x ∷ xs) = ground (arith, count-le-length p xs)

  pub count-filter-le : (p q : A → Bool) (xs : List A) → count p (filter q xs) ≤ count p xs
  unfolding count filter
  count-filter-le p q [] = omega arith
  count-filter-le p q (x ∷ xs) = ground (arith, count-filter-le p q xs)

  pub count-update_where :
      (p q : A → Bool) (f : A → A)
      → ((x : A) → p (f x) ≡ p x)
      → (xs : List A) → count p (update_where q f xs) ≡ count p xs
  unfolding count update_where
  count-update_where p q f same [] = refl
  count-update_where p q f same (x ∷ xs) = ground (arith, same x, count-update_where p q f same xs)

  pub any_updated :
      (q p : A → Bool) (f : A → A)
      → ((x : A) → q x ≡ true → p x ≡ true → q (f x) ≡ true)
      → (xs : List A) → any q xs ≡ true
      → any q (update_where p f xs) ≡ true
  unfolding any update_where
  any_updated q p f keeps [] h = h
  any_updated q p f keeps (x ∷ xs) h = elim (Bool-cases (p x)) [
    | inr out ↦ rw out (ground (arith, any_updated q p f keeps xs))
    | inl changed ↦ elim (Bool-cases (q x)) [
      | inl here ↦ rw (changed, keeps x here changed) refl
      | inr later ↦ rw changed (ground (arith, any_updated q p f keeps xs))
    ]
  ]

  pub any_turned :
      (q p : A → Bool) (f : A → A)
      → ((x : A) → p x ≡ true → q (f x) ≡ true)
      → (xs : List A) → any p xs ≡ true
      → any q (update_where p f xs) ≡ true
  unfolding any update_where
  any_turned q p f turns [] h = absurd (ground arith)
  any_turned q p f turns (x ∷ xs) h = elim (Bool-cases (p x)) [
    | inl changed ↦ rw (changed, turns x changed) refl
    | inr other ↦ rw other (ground (arith, any_turned q p f turns xs))
  ]

  pub count_of_not-any : (p : A → Bool) (xs : List A) → any p xs ≡ false → count p xs ≡ 0
  unfolding count any
  count_of_not-any p [] h = refl
  count_of_not-any p (x ∷ xs) h = ground (arith, count_of_not-any p xs)

  pub count_and-none :
      (p q : A → Bool) (xs : List A) → any p xs ≡ false → count (λ x. p x && q x) xs ≡ 0
  unfolding count any
  count_and-none p q [] h = refl
  count_and-none p q (x ∷ xs) h = ground (arith, count_and-none p q xs)

  pub All-update_where {κ} :
      (P : A → Type κ) (q : A → Bool) (f : A → A)
      → ((x : A) → P x → P (f x))
      → (xs : List A) → All P xs
      → All P (update_where q f xs)
  unfolding update_where
  All-update_where P q f keeps [] h = tt
  All-update_where P q f keeps (x ∷ xs) h =
      elim (q x) as (λ b. All P ((if b then f x else x) ∷ update_where q f xs)) [
        | true ↦ (keeps x h.0, All-update_where P q f keeps xs h.1)
        | false ↦ (h.0, All-update_where P q f keeps xs h.1)
      ]

  pub any-update_where :
      (p q : A → Bool) (f : A → A)
      → ((x : A) → p (f x) ≡ p x)
      → (xs : List A) → any p (update_where q f xs) ≡ any p xs
  unfolding any update_where
  any-update_where p q f same [] = refl
  any-update_where p q f same (x ∷ xs) = ground (arith, same x, any-update_where p q f same xs)

  pub any-append : (p : A → Bool) (xs ys : List A) → any p (xs ++ ys) ≡ (any p xs || any p ys)
  unfolding any
  any-append p [] ys = ground arith
  any-append p (x ∷ xs) ys = ground (arith, any-append p xs ys)

  -- An update whose result fails a test leaves no more rows that pass it.
  pub count-update_le :
      (p q : A → Bool) (f : A → A)
      → ((x : A) → p (f x) ≡ false)
      → (xs : List A) → count p (update_where q f xs) ≤ count p xs
  unfolding count update_where
  count-update_le p q f gone [] = omega arith
  count-update_le p q f gone (x ∷ xs) = ground (arith, gone x, count-update_le p q f gone xs)

  pub count-update_none :
      (p q : A → Bool) (f : A → A)
      → ((x : A) → q x ≡ true → p (f x) ≡ false)
      → (xs : List A) → count p xs ≡ 0
      → count p (update_where q f xs) ≡ 0
  unfolding count update_where
  count-update_none p q f gone [] h = h
  count-update_none p q f gone (x ∷ xs) h =
      ground (arith, h, gone x, count-update_none p q f gone xs)

  pub count-update_kept :
      (p q : A → Bool) (f : A → A)
      → ((x : A) → p x ≡ false → p (f x) ≡ false)
      → (xs : List A) → count p xs ≡ 0
      → count p (update_where q f xs) ≡ 0
  unfolding count update_where
  count-update_kept p q f kept [] h = h
  count-update_kept p q f kept (x ∷ xs) h =
      ground (arith, h, kept x, count-update_kept p q f kept xs)

  -- The update changes every row that may pass.
  pub count-update_all :
      (p q : A → Bool) (f : A → A)
      → ((x : A) → q x ≡ true → p (f x) ≡ false)
      → (xs : List A) → count (λ x. q x && p x) (update_where q f xs) ≡ 0
  unfolding count update_where
  count-update_all p q f gone [] = refl
  count-update_all p q f gone (x ∷ xs) = ground (arith, gone x, count-update_all p q f gone xs)

  pub count_and_none :
      (p q : A → Bool) (xs : List A) → any p xs ≡ false → count (λ x. p x && q x) xs ≡ 0
  unfolding count any
  count_and_none p q [] h = refl
  count_and_none p q (x ∷ xs) h = ground (arith, h, count_and_none p q xs)

  pub count-update_self :
      (p : A → Bool) (f : A → A)
      → ((x : A) → p (f x) ≡ false)
      → (xs : List A) → count p (update_where p f xs) ≡ 0
  unfolding count update_where
  count-update_self p f gone [] = refl
  count-update_self p f gone (x ∷ xs) = ground (arith, gone x, count-update_self p f gone xs)

  pub update_where_nothing :
      (q : A → Bool) (f : A → A) (xs : List A) → count q xs ≡ 0 → update_where q f xs ≡ xs
  unfolding count update_where
  update_where_nothing q f [] h = refl
  update_where_nothing q f (x ∷ xs) h = ground (arith, update_where_nothing q f xs)

  -- The first row that passes a test.
  unfoldable pub first : (A → Bool) → List A → Option A
  first p [] = none
  first p (x ∷ xs) = if p x then some x else first p xs

  pub first-passes : (p : A → Bool) (xs : List A) (a : A) → first p xs ≡ some a → p a ≡ true
  unfolding first
  first-passes p [] a h = absurd (ground arith)
  first-passes p (x ∷ xs) a h = ground (arith, first-passes p xs a)

  pub first-update_where :
      (p q : A → Bool) (f : A → A)
      → ((x : A) → p (f x) ≡ p x)
      → (xs : List A)
      → first p (update_where q f xs) ≡ Option.map (λ x. if q x then f x else x) (first p xs)
  unfolding first update_where
  first-update_where p q f same [] = refl
  first-update_where p q f same (x ∷ xs) = ground (arith, same x, first-update_where p q f same xs)

  pub first-append :
      (p : A → Bool) (xs : List A) (y : A)
      → first p (xs ++ y ∷ []) ≡ (if any p xs then first p xs else if p y then some y else none)
  unfolding first any
  first-append p [] y = refl
  first-append p (x ∷ xs) y = ground (arith, first-append p xs y)

  pub first_of_any :
      (p : A → Bool) (xs : List A) → any p xs ≡ true → (a : A) × (first p xs ≡ some a)
  unfolding first any
  first_of_any p [] h = absurd (ground arith)
  first_of_any p (x ∷ xs) h = elim (Bool-cases (p x)) [
    | inl e ↦ (x, rw e)
    | inr e ↦ rw e (first_of_any p xs (ground arith))
  ]

  -- No row passes both tests: the first one that passes `p` fails `q`.
  pub first_fails :
      (p q : A → Bool) (xs : List A) (a : A)
      → first p xs ≡ some a
      → count (λ x. p x && q x) xs ≡ 0
      → q a ≡ false
  unfolding first count
  first_fails p q [] a h z = absurd (ground arith)
  first_fails p q (x ∷ xs) a h z = ground (arith, first_fails p q xs a)

  pub any_of_first : (p : A → Bool) (xs : List A) (a : A) → first p xs ≡ some a → any p xs ≡ true
  unfolding first any
  any_of_first p [] a h = absurd (ground arith)
  any_of_first p (x ∷ xs) a h = ground (arith, any_of_first p xs a)

  -- An update that spares the rows passing `p` leaves the first of them as it was.
  pub first_spared :
      (p q : A → Bool) (f : A → A)
      → ((x : A) → p x ≡ true → q x ≡ false)
      → (xs : List A) → Option.map (λ x. if q x then f x else x) (first p xs) ≡ first p xs
  unfolding first
  first_spared p q f spares [] = refl
  first_spared p q f spares (x ∷ xs) = elim (Bool-cases (p x)) [
    | inl e ↦ rw (e, spares x e) refl
    | inr e ↦ rw e (first_spared p q f spares xs)
  ]

  pub any-filter : (p q : A → Bool) (xs : List A) → any p (filter q xs) ≡ any (λ x. q x && p x) xs
  unfolding any filter
  any-filter p q [] = refl
  any-filter p q (x ∷ xs) = ground (arith, any-filter p q xs)

  pub any-update :
      (p q : A → Bool) (f : A → A) (xs : List A)
      → any p (update_where q f xs) ≡ any (λ x. p (if q x then f x else x)) xs
  unfolding any update_where
  any-update p q f [] = refl
  any-update p q f (x ∷ xs) = ground (arith, any-update p q f xs)

  pub any_congr : (p q : A → Bool) (xs : List A) → ((x : A) → p x ≡ q x) → any p xs ≡ any q xs
  unfolding any
  any_congr p q [] h = refl
  any_congr p q (x ∷ xs) h = ground (arith, h x, any_congr p q xs h)

  pub any-append_miss :
      (p : A → Bool) (xs : List A) (x : A) → p x ≡ false → any p (xs ++ x ∷ []) ≡ any p xs
  unfolding any
  any-append_miss p [] x h = ground arith
  any-append_miss p (y ∷ xs) x h = ground (arith, any-append_miss p xs x h)
