-- ===== src/Prelude/Chunks.antt =====
-- Cutting a list into batches, as `range(0, len(rows), n)` with slices does.
use Prim.Native.Nat.{ℕ, zero, suc, ◌-◌, ◌≤◌}
use mathlib.Core.Path.{◌≡◌, refl, sym, ap, ◌∙◌}
use mathlib.Core.List.{List, [], ◌∷◌, ◌++◌, append_assoc}
use native.Mathlib.Omega.{arith}
use trouveur.Prelude.Lists.{length, take, drop, All, take-append-drop, length-take}

module _ {ℓ} {A : Type ℓ} where
  pub length-drop : (n : ℕ) (xs : List A) → length (drop n xs) ≡ length xs - n
  unfolding drop
  length-drop zero xs = omega arith
  length-drop (suc n) [] = omega arith
  length-drop (suc n) (x ∷ xs) = omega (arith, length-drop n xs)

  unfoldable pub concat : List (List A) → List A
  concat [] = []
  concat (xs ∷ xss) = xs ++ concat xss

  -- The number of rounds bounds the slices; as many as there are elements are enough.
  unfoldable pub slices : ℕ → ℕ → List A → List (List A)
  slices zero n xs = []
  slices (suc rounds) n [] = []
  slices (suc rounds) n (x ∷ xs) = take n (x ∷ xs) ∷ slices rounds n (drop n (x ∷ xs))

  unfoldable pub chunks : ℕ → List A → List (List A)
  unfolding slices
  chunks n xs = slices (length xs) n xs

  pub slices-short : (rounds n : ℕ) (xs : List A) → All (λ ys. length ys ≤ n) (slices rounds n xs)
  unfolding slices
  slices-short zero n xs = tt
  slices-short (suc rounds) n [] = tt
  slices-short (suc rounds) n (x ∷ xs) =
      (omega (arith, length-take n (x ∷ xs)), slices-short rounds n (drop n (x ∷ xs)))

  pub concat-slices :
      (rounds n : ℕ) (xs : List A) → length xs ≤ rounds → concat (slices rounds (suc n) xs) ≡ xs
  unfolding concat slices take drop
  concat-slices zero n [] h = refl
  concat-slices zero n (x ∷ xs) h = absurd (omega arith)
  concat-slices (suc rounds) n [] h = refl
  concat-slices (suc rounds) n (x ∷ xs) h =
      ap (λ ys. x ∷ (take n xs ++ ys))
        (concat-slices rounds n (drop n xs) (omega (arith, length-drop n xs)))
      ∙ ap (◌∷◌ x) (take-append-drop n xs)

  -- The batches, put together again, are the list.
  pub concat-chunks : (n : ℕ) (xs : List A) → concat (chunks (suc n) xs) ≡ xs
  unfolding chunks
  concat-chunks n xs = concat-slices (length xs) n xs (omega arith)

  -- No batch is longer than asked.
  pub chunks-short : (n : ℕ) (xs : List A) → All (λ ys. length ys ≤ n) (chunks n xs)
  unfolding chunks
  chunks-short n xs = slices-short (length xs) n xs

  pub concat-append : (xss yss : List (List A)) → concat (xss ++ yss) ≡ concat xss ++ concat yss
  unfolding concat
  concat-append [] yss = refl
  concat-append (xs ∷ xss) yss =
      ap (λ zs. xs ++ zs) (concat-append xss yss) ∙ sym (append_assoc xs (concat xss) (concat yss))
