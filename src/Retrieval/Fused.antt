-- ===== src/Retrieval/Fused.antt =====
-- What fusing the lists keeps: every id once.
use trouveur.Prelude.{
  ℕ, ◌+◌, ◌≤◌, ◌≡◌, refl, ap, ◌∙◌, Bool, true, ◌||◌, List, [], ◌∷◌, map, arith, leb, ◌==◌, nat_eq,
  any, elem, count, count-append, count-update_where, count-sort_by, Bool-cases, inl, inr,
  if◌then◌else◌,
}
use trouveur.Retrieval.{add_score, score_list, score_lists, entry_before, reciprocal_rank_fusion}

module _ {ℓ} {Score : Type ℓ} where
  abbrev pub count_of : ℕ → List (ℕ × Score) → ℕ
  count_of k = count (λ (e : ℕ × Score). e.0 == k)

  elem-keys :
      (k : ℕ) (scores : List (ℕ × Score))
      → elem k (map (λ (e : ℕ × Score). e.0) scores) ≡ leb 1 (count_of k scores)
  unfolding elem count
  elem-keys k [] = refl
  elem-keys k (e ∷ scores) = ground (arith, elem-keys k scores)

module _ {ℓ} {Score : Type ℓ} (plus : Score → Score → Score) (nil : Score) (share : ℕ → Score)
    (is_less : Score → Score → Bool) where
  add_score_once :
      (k job_id : ℕ) (amount : Score) (scores : List (ℕ × Score))
      → count_of k scores ≤ 1
      → count_of k (add_score plus nil share is_less job_id amount scores)
        ≡ (if leb 1 (count_of k scores) || job_id == k then 1 else 0)
  unfolding add_score count
  add_score_once k job_id amount scores once =
      let keyed = elem-keys job_id scores in
      let at_job : (job_id == k) ≡ true → count_of job_id scores ≡ count_of k scores =
        λ same. ap (λ j. count_of j scores) ((nat_eq.beq_iff job_id k).0 same) in
      elim (Bool-cases (elem job_id (map (λ (e : ℕ × Score). e.0) scores))) [
        | inl old ↦
            rw old (
              count-update_where _ _ _ (λ e. refl) scores
              ∙ ground (arith, old, keyed, at_job, once))
        | inr new ↦ rw (new, count-append) (ground (arith, new, keyed, at_job, once))
      ]

  score_list_once :
      (k position : ℕ) (ranked : List ℕ) (scores : List (ℕ × Score))
      → count_of k scores ≤ 1
      → count_of k (score_list plus nil share is_less position ranked scores)
        ≡ (if leb 1 (count_of k scores) || elem k ranked then 1 else 0)
  unfolding score_list elem
  score_list_once k position [] scores once = ground (arith, once)
  score_list_once k position (job_id ∷ ranked) scores once =
      let added = add_score_once k job_id (share position) scores once in
      score_list_once k (position + 1) ranked
        (add_score plus nil share is_less job_id (share position) scores) (ground (arith, added))
      ∙ ground (arith, added)

  score_lists_once :
      (k : ℕ) (lists : List (List ℕ)) (scores : List (ℕ × Score))
      → count_of k scores ≤ 1
      → count_of k (score_lists plus nil share is_less lists scores)
        ≡ (if leb 1 (count_of k scores) || any (elem k) lists then 1 else 0)
  unfolding score_lists any
  score_lists_once k [] scores once = ground (arith, once)
  score_lists_once k (ranked ∷ lists) scores once =
      let added = score_list_once k 1 ranked scores once in
      score_lists_once k lists (score_list plus nil share is_less 1 ranked scores)
        (ground (arith, added))
      ∙ ground (arith, added)

  -- Fusing lists gives every id that one of them has exactly once, and no other.
  pub reciprocal_rank_fusion_once :
      (lists : List (List ℕ)) (k : ℕ)
      → count_of k (reciprocal_rank_fusion plus nil share is_less lists)
        ≡ (if any (elem k) lists then 1 else 0)
  unfolding reciprocal_rank_fusion count
  reciprocal_rank_fusion_once lists k =
      count-sort_by (entry_before plus nil share is_less) (λ (e : ℕ × Score). e.0 == k)
        (score_lists plus nil share is_less lists [])
      ∙ score_lists_once k lists [] (omega arith)
