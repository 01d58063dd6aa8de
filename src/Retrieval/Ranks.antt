-- ===== src/Retrieval/Ranks.antt =====
-- The best rank of an id is the least of its first places.
use trouveur.Prelude.{
  ℕ, ◌+◌, ◌≤◌, min, ◌≡◌, refl, sym, ap, ◌∙◌, subst, Option, some, none, List, [], ◌∷◌, map, arith,
  ltb, ◌==◌, nat_eq, beq_same, ne_sym, Bool-cases, inl, inr, if◌then◌else◌,
}
use trouveur.Retrieval.{Ranks, is_better, note_rank, note_list, note_lists, best_ranks}

-- The first place of an id in a list whose places are numbered from `start`.
unfoldable pub rank_in : ℕ → ℕ → List ℕ → Option ℕ
rank_in start k [] = none
rank_in start k (x ∷ ranked) =
    let later = rank_in (start + 1) k ranked in if x == k then some start else later

abbrev pub least : Option ℕ → Option ℕ → Option ℕ
least none b = b
least (some a) none = some a
least (some a) (some b) = some (min a b)

abbrev pub least_of : Option ℕ → List (Option ℕ) → Option ℕ
least_of best [] = best
least_of best (rank ∷ ranks) = least_of (least best rank) ranks

abbrev IsFrom : ℕ → Option ℕ → Type 0
IsFrom start none = Unit
IsFrom start (some rank) = start ≤ rank

rank_in-IsFrom : (start k : ℕ) (ranked : List ℕ) → IsFrom start (rank_in start k ranked)
unfolding rank_in
rank_in-IsFrom start k [] = tt
rank_in-IsFrom start k (x ∷ ranked) = elim (Bool-cases (x == k)) [
  | inl here ↦ rw here (omega arith)
  | inr later ↦
      rw later (weaken start (rank_in (start + 1) k ranked) (rank_in-IsFrom (start + 1) k ranked))
]
  where
    weaken : (n : ℕ) (o : Option ℕ) → IsFrom (n + 1) o → IsFrom n o
    weaken n none h = tt
    weaken n (some rank) h = omega (arith, h)

least_better :
    (start : ℕ) (best : Option ℕ)
    → (if is_better start best then some start else best) ≡ least best (some start)
least_better start none = refl
least_better start (some rank) = elim (Bool-cases (ltb start rank)) [
  | inl before ↦ rw before (ap some (ground (arith, before)))
  | inr after ↦ rw after (ap some (ground (arith, after)))
]

least_settled :
    (start : ℕ) (best later : Option ℕ)
    → IsFrom (start + 1) later
    → least (least best (some start)) later ≡ least best (some start)
least_settled start none none h = refl
least_settled start none (some rank) h = ap some (omega (arith, h))
least_settled start (some best) none h = refl
least_settled start (some best) (some rank) h = ap some (omega (arith, h))

note_rank_self :
    (start k : ℕ) (best : Ranks) → note_rank start k best k ≡ least (best k) (some start)
unfolding note_rank
note_rank_self start k best = rw (beq_same k) (least_better start (best k))

note_list-least :
    (start : ℕ) (ranked : List ℕ) (best : Ranks) (k : ℕ)
    → note_list start ranked best k ≡ least (best k) (rank_in start k ranked)
unfolding note_list rank_in note_rank
note_list-least start [] best k = keeps (best k)
  where
    keeps : (o : Option ℕ) → o ≡ least o none
    keeps none = refl
    keeps (some rank) = refl
note_list-least start (x ∷ ranked) best k =
    note_list-least (start + 1) ranked (note_rank start x best) k ∙ elim (Bool-cases (x == k)) [
      | inl here ↦ rw here (
          ap (λ rank. least rank (rank_in (start + 1) k ranked))
            (subst (λ j. note_rank start j best k ≡ least (best k) (some start))
              (sym ((nat_eq.beq_iff x k).0 here)) (note_rank_self start k best))
          ∙ least_settled start (best k) (rank_in (start + 1) k ranked)
              (rank_in-IsFrom (start + 1) k ranked))
      | inr other ↦ rw (other, ne_sym x k other) refl
    ]

note_lists-least :
    (lists : List (List ℕ)) (best : Ranks) (k : ℕ)
    → note_lists lists best k ≡ least_of (best k) (map (rank_in 1 k) lists)
unfolding note_lists
note_lists-least [] best k = refl
note_lists-least (ranked ∷ lists) best k =
    note_lists-least lists (note_list 1 ranked best) k
    ∙ ap (λ rank. least_of rank (map (rank_in 1 k) lists)) (note_list-least 1 ranked best k)

-- The best rank of an id is the least of its first places in the lists, counted from 1, and none
-- where no list has it.
pub best_ranks-least :
    (lists : List (List ℕ)) (k : ℕ) → best_ranks lists k ≡ least_of none (map (rank_in 1 k) lists)
unfolding best_ranks
best_ranks-least lists k = note_lists-least lists (λ k. none) k
