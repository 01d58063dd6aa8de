-- ===== src/Retrieval/Placed.antt =====
-- Where the recall check puts a job in an arm, and what it then finds.
use trouveur.Prelude.{
  ℕ, zero, suc, ◌+◌, ◌≤◌, ◌<◌, ◌≡◌, refl, ap, ◌∙◌, subst, Bool, true, false, not, some, List, [],
  ◌∷◌, ◌++◌, arith, leb, ◌==◌, nat_eq, beq_same, length, take, drop, filter, filter-All, count, All,
  All-map, Bool-cases, inl, inr,
}
use trouveur.Retrieval.{dense_position, insert}
use trouveur.Retrieval.Ranks.{rank_in}

-- The ids of the arm but the job.
abbrev pub others_of : ℕ → List ℕ → List ℕ
others_of job pool = filter (λ other. not (other == job)) pool

rank_in_placed :
    (start job position depth : ℕ) (others : List ℕ)
    → All (λ x. not (x == job) ≡ true) others
    → position ≤ length others
    → position < depth
    → rank_in start job (take depth (take position others ++ job ∷ drop position others))
      ≡ some (start + position)
unfolding rank_in take drop
rank_in_placed start job zero (suc depth) others apart within_pool shallow =
    rw (beq_same job) (ap some (omega arith))
rank_in_placed start job (suc position) (suc depth) (x ∷ others) apart within_pool shallow =
    let other : (x == job) ≡ false = ground (arith, apart.0) in
    rw other (
      rank_in_placed (start + 1) job position depth others apart.1 (omega arith) (omega arith)
      ∙ ap some (omega arith))
rank_in_placed start job (suc position) depth [] apart within_pool shallow = absurd (omega arith)
rank_in_placed start job position zero others apart within_pool shallow = absurd (omega arith)

-- A job placed in an arm at a position within the arm's other ids and below its depth is found
-- there, its places counted from 1.
pub insert-rank_in :
    (pool : List ℕ) (job position depth : ℕ)
    → position ≤ length (others_of job pool)
    → position < depth
    → rank_in 1 job (insert pool job (some position) depth) ≡ some (1 + position)
unfolding insert
insert-rank_in pool job position depth within_pool shallow =
    let deep : leb depth position ≡ false = ground (arith, shallow) in
    rw deep (
      rank_in_placed 1 job position depth (others_of job pool)
        (filter-All (λ other. not (other == job)) pool) within_pool shallow)

module _ {ℓ} {Score : Type ℓ} (is_less : Score → Score → Bool) where
  -- No distance is less than one before it.
  abbrev pub IsOrdered : List Score → Type ℓ
  IsOrdered [] = Unit
  IsOrdered (x ∷ xs) = All (λ y. is_less y x ≡ false) xs × IsOrdered xs

  none_closer :
      (distance : Score) (xs : List Score)
      → All (λ y. is_less y distance ≡ false) xs
      → count (λ y. is_less y distance) xs ≡ 0
  unfolding count
  none_closer distance [] far = refl
  none_closer distance (x ∷ xs) far = ground (arith, far.0, none_closer distance xs far.1)

  -- Where the distances are in order, and what stands at or before a distance that is less than
  -- the job's is less too, those before the job's position are less than the job's, and those from
  -- there on are not.
  pub dense_position_splits :
      (distance : Score) (pool : List Score)
      → ((x y : Score)
          → is_less y x ≡ false
          → is_less y distance ≡ true
          → is_less x distance ≡ true)
      → IsOrdered pool
      → All (λ x. is_less x distance ≡ true) (take (dense_position is_less pool distance) pool)
        × All (λ x. is_less x distance ≡ false) (drop (dense_position is_less pool distance) pool)
  unfolding dense_position count take drop
  dense_position_splits distance [] total ordered = (tt, tt)
  dense_position_splits distance (x ∷ pool) total ordered = elim (Bool-cases (is_less x distance)) [
    | inl closer ↦
        let rest = dense_position_splits distance pool total ordered.1 in
        let n = count (λ y. is_less y distance) pool in
        rw closer (
          subst
            (λ m.
              All (λ y. is_less y distance ≡ true) (take m (x ∷ pool))
              × All (λ y. is_less y distance ≡ false) (drop m (x ∷ pool)))
            (next n) ((closer, rest.0), rest.1))
    | inr far ↦
        let beyond : All (λ y. is_less y distance ≡ false) pool =
          All-map (λ y. is_less y x ≡ false)
            (λ y after. elim (Bool-cases (is_less y distance)) [
              | inl closer ↦ absurd (ground (arith, total x y after closer, far))
              | inr apart ↦ apart
            ])
            pool ordered.0 in
        rw (far, none_closer distance pool beyond) (tt, (far, beyond))
  ]
    where
      next : (n : ℕ) → suc n ≡ 1 + n
      next n = omega arith
