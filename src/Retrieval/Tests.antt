-- ===== src/Retrieval/Tests.antt =====
-- Arms fused and a job placed in them; a score is a number, its share the distance from 100.
use trouveur.Prelude.{
  ℕ, ◌+◌, ◌-◌, ◌≡◌, refl, some, none, List, [], ◌∷◌, map, arith, ltb, any, elem, filter, take,
  update_where, sort_by, insert_by,
}
use trouveur.Retrieval.{best_ranks, reciprocal_rank_fusion, fuse, insert}
use trouveur.Retrieval.Ranks.{rank_in, least_of, best_ranks-least}
use trouveur.Retrieval.Fused.{count_of, reciprocal_rank_fusion_once}
use trouveur.Retrieval.Placed.{insert-rank_in}

abbrev lists : List (List ℕ)
lists = (7 ∷ 8 ∷ 9 ∷ []) ∷ (9 ∷ 7 ∷ []) ∷ []

abbrev plus : ℕ → ℕ → ℕ
plus a b = a + b

abbrev share : ℕ → ℕ
share position = 100 - position

fused_two :
    map
      (λ e. e.0)
      (fuse plus 0 share ltb
        (record { dense = (7 ∷ 8 ∷ 9 ∷ []) ∷ []; lexical = (9 ∷ 7 ∷ []) ∷ [] })
        2)
    ≡ 7 ∷ 9 ∷ []
unfolding fuse take sort_by insert_by update_where elem
fused_two = refl

nine_second : best_ranks lists 9 ≡ some 1
unfolding best_ranks
nine_second = refl

best_ranks-least_example : best_ranks lists 9 ≡ least_of none (map (rank_in 1 9) lists)
best_ranks-least_example = best_ranks-least lists 9

reciprocal_rank_fusion_once_example : count_of 9 (reciprocal_rank_fusion plus 0 share ltb lists) ≡ 1
unfolding any elem
reciprocal_rank_fusion_once_example = reciprocal_rank_fusion_once plus 0 share ltb lists 9

insert-rank_in_example : rank_in 1 5 (insert (7 ∷ 5 ∷ 9 ∷ []) 5 (some 1) 3) ≡ some 2
unfolding filter
insert-rank_in_example = insert-rank_in (7 ∷ 5 ∷ 9 ∷ []) 5 1 3 (omega arith) (omega arith)
