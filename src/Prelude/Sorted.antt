-- ===== src/Prelude/Sorted.antt =====
-- Sorted lists of numbers: membership through sorting, filtering and cutting.
use Prim.Native.Nat.{ℕ, zero, suc, ◌≤◌, ◌<◌}
use mathlib.Core.Path.{◌≡◌, refl, ap}
use mathlib.Core.Logic.{inl, inr}
use mathlib.Core.Bool.{Bool, true, ◌&&◌}
use mathlib.Core.List.{List, [], ◌∷◌}
use native.Mathlib.Omega.{arith}
use trouveur.Prelude.Tests.{nat_eq, ◌==◌, ltb, Bool-cases}
use trouveur.Prelude.Lists.{take, filter, count, elem, All, All-map, All-elem_at}
use trouveur.Prelude.Sorting.{insert_by, sort_by}

abbrev pub IsSorted : List ℕ → Type 0
IsSorted [] = Unit
IsSorted (x ∷ xs) = All (λ y. x ≤ y) xs × IsSorted xs

All-insert_lt :
    (b a : ℕ) (xs : List ℕ) → b ≤ a → All (λ y. b ≤ y) xs → All (λ y. b ≤ y) (insert_by ltb a xs)
unfolding insert_by
All-insert_lt b a [] h hs = (h, tt)
All-insert_lt b a (x ∷ xs) h hs = elim (Bool-cases (ltb x a)) [
  | inl e ↦ rw e (hs.0, All-insert_lt b a xs h hs.1)
  | inr e ↦ rw e (h, hs)
]

insert_by-IsSorted : (a : ℕ) (xs : List ℕ) → IsSorted xs → IsSorted (insert_by ltb a xs)
unfolding insert_by
insert_by-IsSorted a [] s = (tt, tt)
insert_by-IsSorted a (x ∷ xs) s = elim (Bool-cases (ltb x a)) [
  | inl e ↦ rw e (All-insert_lt x a xs (ground arith) s.0, insert_by-IsSorted a xs s.1)
  | inr e ↦
      let le : a ≤ x = ground arith in
      rw e ((le, All-map (λ y. x ≤ y) (λ y h. omega arith) xs s.0), s)
]

pub sort_by-IsSorted : (xs : List ℕ) → IsSorted (sort_by ltb xs)
unfolding sort_by
sort_by-IsSorted [] = tt
sort_by-IsSorted (x ∷ xs) = insert_by-IsSorted x (sort_by ltb xs) (sort_by-IsSorted xs)

elem-insert_by : (y a : ℕ) (xs : List ℕ) → elem y (insert_by ltb a xs) ≡ elem y (a ∷ xs)
unfolding insert_by elem
elem-insert_by y a [] = refl
elem-insert_by y a (x ∷ xs) = ground (arith, elem-insert_by y a xs)

pub elem-sort_by : (y : ℕ) (xs : List ℕ) → elem y (sort_by ltb xs) ≡ elem y xs
unfolding sort_by elem
elem-sort_by y [] = refl
elem-sort_by y (x ∷ xs) = ground (arith, elem-insert_by y x (sort_by ltb xs), elem-sort_by y xs)

pub elem-filter : (p : ℕ → Bool) (y : ℕ) (xs : List ℕ) → elem y (filter p xs) ≡ (elem y xs && p y)
unfolding filter elem
elem-filter p y [] = refl
elem-filter p y (x ∷ xs) =
    let rest = elem-filter p y xs in
    elim (Bool-cases (x == y)) [
      | inl here ↦ let same = ap p ((nat_eq.beq_iff x y).0 here) in ground (arith, same, rest)
      | inr later ↦ ground (arith, rest)
    ]

-- The last element of a list with the head `x`.
unfoldable pub last_of : ℕ → List ℕ → ℕ
last_of x [] = x
last_of x (y ∷ ys) = last_of y ys

pub last_of-elem : (x : ℕ) (xs : List ℕ) → elem (last_of x xs) (x ∷ xs) ≡ true
unfolding last_of elem
last_of-elem x [] = ground arith
last_of-elem x (y ∷ ys) = ground (arith, last_of-elem y ys)

-- The members of a sorted list up to the last element of a prefix stand in that prefix.
pub elem-take_sorted :
    (n : ℕ) (s : List ℕ) (y c : ℕ) (cs : List ℕ)
    → IsSorted s
    → take n s ≡ c ∷ cs
    → elem y s ≡ true
    → y ≤ last_of c cs
    → elem y (c ∷ cs) ≡ true
unfolding take elem last_of
elem-take_sorted zero s y c cs sorted e m h = absurd (ground arith)
elem-take_sorted (suc n) [] y c cs sorted e m h = absurd (ground arith)
elem-take_sorted (suc n) (x ∷ xs) y c [] sorted e m h = elim (Bool-cases (x == y)) [
  | inl here ↦ ground arith
  | inr later ↦ let above = All-elem_at (λ z. x ≤ z) y xs sorted.0 (ground arith) in ground arith
]
elem-take_sorted (suc n) (x ∷ xs) y c (d ∷ ds) sorted e m h = elim (Bool-cases (x == y)) [
  | inl here ↦ ground arith
  | inr later ↦
      ground (arith, elem-take_sorted n xs y d ds sorted.1 (ground arith) (ground arith) h)
]

-- Fewer members are above a larger bound, if that bound is a member itself.
count_above-le : (a b : ℕ) (xs : List ℕ) → a ≤ b → count (ltb b) xs ≤ count (ltb a) xs
unfolding count
count_above-le a b [] h = omega arith
count_above-le a b (x ∷ xs) h = ground (arith, count_above-le a b xs)

pub count_above-lt :
    (a b : ℕ) (xs : List ℕ) → a < b → elem b xs ≡ true → count (ltb b) xs < count (ltb a) xs
unfolding count elem
count_above-lt a b [] h m = absurd (ground arith)
count_above-lt a b (x ∷ xs) h m = elim (Bool-cases (x == b)) [
  | inl here ↦ ground (arith, count_above-le a b xs)
  | inr later ↦ ground (arith, count_above-lt a b xs)
]

pub elem-take : (n y : ℕ) (xs : List ℕ) → elem y (take n xs) ≡ true → elem y xs ≡ true
unfolding take elem
elem-take zero y xs m = absurd (ground arith)
elem-take (suc n) y [] m = absurd (ground arith)
elem-take (suc n) y (x ∷ xs) m = ground (arith, elem-take n y xs)
