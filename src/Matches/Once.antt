-- ===== src/Matches/Once.antt =====
-- A verdict is bought once for a version of the profile, and a posting is mailed once.
use trouveur.Prelude.{
  ℕ, zero, suc, ◌≤◌, ◌≡◌, refl, ap, ◌∙◌, subst, Bool, true, not, ◌&&◌, Option, some, List, [], ◌∷◌,
  map, arith, ◌==◌, nat_eq, is_some, elem, any, count, any-update_where, count-update_all,
  count-sort_by, filter, take, sort_by, update_where, All, Bool-cases, inl, inr,
}
use trouveur.Db.{Tx}
use trouveur.Matches.{
  Match, Verdict, is_match, scored_as, apply_each, apply_scores, mark_notified, is_unscored,
  pending_rerank, is_unsent, higher_score, pending_digest,
}
use trouveur.Matches.Kept.{
  Statement, finds, sets, scores, notifies, execute_all, is_from, IsKept, apply_each-IsKept,
  execute_all-IsKept,
}

abbrev pub verdict_ids {ℓ} : {Flags : Type ℓ} → List (Verdict Flags) → List ℕ
verdict_ids = map (λ v. v.job_id)

module _ {ℓ} {Score Flags : Type ℓ} where
  filter_refuses :
      (q r : Match Score Flags → Bool) (test : Match Score Flags → Bool)
      → ((m : Match Score Flags) → q m ≡ true → test m ≡ true → r m ≡ true)
      → (matches : List (Match Score Flags)) → count r matches ≡ 0
      → count test (filter q matches) ≡ 0
  unfolding count filter
  filter_refuses q r test covers [] h = refl
  filter_refuses q r test covers (m ∷ matches) h =
      ground (arith, h, covers m, filter_refuses q r test covers matches)

  -- A posting scored under a version of the profile is not to be scored again under it.
  scored_kept :
      (is_higher : Option Score → Option Score → Bool) (is_open : ℕ → Bool)
      (user_id version job_id : ℕ) (job_ids : List ℕ) (statements : List (Statement Score Flags))
      (matches : List (Match Score Flags))
      → IsKept (λ m. not (is_unscored version m)) user_id job_id matches
      → All (λ statement. is_from version statement ≡ true) statements
      → count
          (λ m. m.job_id == job_id)
          (pending_rerank is_higher is_open user_id version job_ids
            (execute_all statements matches))
        ≡ 0
  unfolding pending_rerank
  scored_kept is_higher is_open user_id version job_id job_ids statements matches h late =
      count-sort_by _ (λ m. m.job_id == job_id) _
      ∙ filter_refuses _ (λ m. is_match user_id job_id m && not (not (is_unscored version m)))
          (λ m. m.job_id == job_id) (λ m wanted here. ground (arith, wanted, here))
          (execute_all statements matches)
          (execute_all-IsKept (λ m. not (is_unscored version m)) version user_id job_id
            (λ r m fine. fine) (λ t state m fine. fine)
            (λ t later v m late fine. ground (arith, late)) (λ t m fine. fine) statements matches
            late h).1

  -- One verdict makes the row current.
  verdict-IsKept :
      (t : Tx) (user_id version : ℕ) (v : Verdict Flags) (matches : List (Match Score Flags))
      → any (is_match user_id v.job_id) matches ≡ true
      → IsKept
          (λ m. not (is_unscored version m))
          user_id
          v.job_id
          (update_where (is_match user_id v.job_id) (scored_as t version v) matches)
  verdict-IsKept t user_id version v matches there = (
    any-update_where (is_match user_id v.job_id) (is_match user_id v.job_id) (scored_as t version v)
          (λ m. refl) matches
        ∙ there,
    count-update_all (λ m. not (not (is_unscored version m))) (is_match user_id v.job_id)
        (scored_as t version v) (λ m here. ground arith) matches,
  )

  apply_each_scores :
      (t : Tx) (user_id version job_id : ℕ) (rows : List (Verdict Flags))
      (matches : List (Match Score Flags))
      → any (is_match user_id job_id) matches ≡ true
      → elem job_id (verdict_ids rows) ≡ true
      → IsKept
          (λ m. not (is_unscored version m))
          user_id
          job_id
          (apply_each t user_id version rows matches)
  unfolding apply_each elem
  apply_each_scores t user_id version job_id [] matches there member =
      absurd (ground (arith, member))
  apply_each_scores t user_id version job_id (v ∷ rows) matches there member =
      elim (Bool-cases (v.job_id == job_id)) [
        | inr other ↦
            apply_each_scores t user_id version job_id rows
              (update_where (is_match user_id v.job_id) (scored_as t version v) matches)
              (any-update_where (is_match user_id job_id) (is_match user_id v.job_id)
                  (scored_as t version v) (λ m. refl) matches
                ∙ there)
              (ground (arith, member, other))
        | inl own ↦
            let same : v.job_id ≡ job_id = (nat_eq.beq_iff v.job_id job_id).0 own in
            subst
              (λ k.
                IsKept (λ m. not (is_unscored version m)) user_id k
                  (apply_each t user_id version (v ∷ rows) matches))
              same
              (apply_each-IsKept (λ m. not (is_unscored version m)) version user_id v.job_id
                (λ r m fine. fine) (λ u state m fine. fine)
                (λ u later w m late fine. ground (arith, late)) (λ u m fine. fine) t user_id version
                rows (update_where (is_match user_id v.job_id) (scored_as t version v) matches)
                (ground arith)
                (verdict-IsKept t user_id version v matches
                  (ap (λ k. any (is_match user_id k) matches) same ∙ there)))
      ]

  -- A posting of a reader's matches that a batch of verdicts scores under the batch's version of
  -- the profile is not pending for a score under that version after any later statements whose
  -- verdicts are of that version or a later one.
  pub scored_once :
      (is_higher : Option Score → Option Score → Bool) (is_open : ℕ → Bool) (t : Tx)
      (user_id job_id : ℕ) (v : Verdict Flags) (rows : List (Verdict Flags)) (job_ids : List ℕ)
      (statements : List (Statement Score Flags)) (matches : List (Match Score Flags))
      → any (is_match user_id job_id) matches ≡ true
      → elem job_id (verdict_ids (v ∷ rows)) ≡ true
      → All (λ statement. is_from v.profile_version statement ≡ true) statements
      → count
          (λ m. m.job_id == job_id)
          (pending_rerank is_higher is_open user_id v.profile_version job_ids
            (execute_all statements (apply_scores t user_id (v ∷ rows) matches)))
        ≡ 0
  unfolding apply_scores
  scored_once is_higher is_open t user_id job_id v rows job_ids statements matches there member
        late =
      scored_kept is_higher is_open user_id v.profile_version job_id job_ids statements
        (apply_each t user_id v.profile_version (v ∷ rows) matches)
        (apply_each_scores t user_id v.profile_version job_id (v ∷ rows) matches there member) late

  count-take :
      (test : Match Score Flags → Bool) (n : ℕ) (matches : List (Match Score Flags))
      → count test (take n matches) ≤ count test matches
  unfolding count take
  count-take test zero matches = omega arith
  count-take test (suc n) [] = omega arith
  count-take test (suc n) (m ∷ matches) = ground (arith, count-take test n matches)

  marked_each :
      (t : Tx) (user_id job_id : ℕ) (job_ids : List ℕ) (matches : List (Match Score Flags))
      → elem job_id job_ids ≡ true
      → count
          (λ m. is_match user_id job_id m && not (is_some m.notified_at))
          (update_where
            (λ m. m.user_id == user_id && elem m.job_id job_ids)
            (λ m. record m { notified_at = some t.now })
            matches)
        ≡ 0
  unfolding count update_where
  marked_each t user_id job_id job_ids [] member = refl
  marked_each t user_id job_id job_ids (m ∷ matches) member =
      elim (Bool-cases (is_match user_id job_id m)) [
        | inr other ↦ ground (arith, other, marked_each t user_id job_id job_ids matches member)
        | inl own ↦
            let listed : elem m.job_id job_ids ≡ true =
              ap (λ k. elem k job_ids) ((nat_eq.beq_iff m.job_id job_id).0 (ground (arith, own)))
              ∙ member in
            ground (arith, own, listed, marked_each t user_id job_id job_ids matches member)
      ]

  notified-IsKept :
      (t : Tx) (user_id job_id : ℕ) (job_ids : List ℕ) (matches : List (Match Score Flags))
      → any (is_match user_id job_id) matches ≡ true
      → elem job_id job_ids ≡ true
      → IsKept (λ m. is_some m.notified_at) user_id job_id (mark_notified t user_id job_ids matches)
  unfolding mark_notified
  notified-IsKept t user_id job_id job_ids matches there member = (
    any-update_where (is_match user_id job_id) _ _ (λ m. refl) matches ∙ there,
    marked_each t user_id job_id job_ids matches member,
  )

  -- A reader's statements, whatever the version.
  from_zero :
      (statements : List (Statement Score Flags))
      → All (λ statement. is_from 0 statement ≡ true) statements
  from_zero [] = tt
  from_zero (finds t rows ∷ statements) = (refl, from_zero statements)
  from_zero (sets t u j state ∷ statements) = (refl, from_zero statements)
  from_zero (scores t u [] ∷ statements) = (refl, from_zero statements)
  from_zero (scores t u (v ∷ rows) ∷ statements) = (ground arith, from_zero statements)
  from_zero (notifies t u job_ids ∷ statements) = (refl, from_zero statements)

  -- A posting of a reader's matches that is marked as mailed is in no digest after any later
  -- statements.
  pub notified_once :
      (is_open : ℕ → Bool) (t : Tx) (user_id job_id limit : ℕ) (job_ids : List ℕ)
      (statements : List (Statement Score Flags)) (matches : List (Match Score Flags))
      → any (is_match user_id job_id) matches ≡ true
      → elem job_id job_ids ≡ true
      → count
          (λ m. m.job_id == job_id)
          (pending_digest is_open user_id limit
            (execute_all statements (mark_notified t user_id job_ids matches)))
        ≡ 0
  unfolding pending_digest
  notified_once is_open t user_id job_id limit job_ids statements matches there member =
      let after = execute_all statements (mark_notified t user_id job_ids matches) in
      let kept =
        execute_all-IsKept (λ m. is_some m.notified_at) 0 user_id job_id (λ r m fine. fine)
          (λ u state m fine. fine) (λ u later v m late fine. fine) (λ u m fine. refl) statements
          (mark_notified t user_id job_ids matches) (from_zero statements)
          (notified-IsKept t user_id job_id job_ids matches there member) in
      let none_left =
        filter_refuses (is_unsent user_id is_open)
          (λ m. is_match user_id job_id m && not (is_some m.notified_at)) (λ m. m.job_id == job_id)
          (λ m wanted here. ground (arith, wanted, here)) after kept.1 in
      omega (
        arith,
        none_left,
        count-take (λ m. m.job_id == job_id) limit
            (sort_by higher_score (filter (is_unsent user_id is_open) after)),
        count-sort_by higher_score (λ m. m.job_id == job_id)
            (filter (is_unsent user_id is_open) after),
      )
