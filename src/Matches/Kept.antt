-- ===== src/Matches/Kept.antt =====
-- What the statements on user_job_match keep of a reader's match.
use trouveur.Prelude.{
  ℕ, ◌≡◌, refl, sym, ap, ◌∙◌, Bool, true, false, not, ◌&&◌, some, List, [], ◌∷◌, String, arith, ltb,
  ◌==◌, nat_eq, elem, any, count, any-append, count-append, count-update_kept, any-update_where,
  update_where, All, Bool-cases, inl, inr,
}
use trouveur.Db.{Tx}
use trouveur.Matches.{
  Match, Found, Verdict, is_match, blank, upsert, refound, upsert_match, upsert_matches, set_state,
  scored_as, apply_each, apply_scores, mark_notified,
}

-- The statements that change a match.
pub data Statement {ℓ} (Score Flags : Type ℓ) : Type ℓ where
  finds : Tx → List (Found Score) → Statement Score Flags
  sets : Tx → ℕ → ℕ → String → Statement Score Flags
  scores : Tx → ℕ → List (Verdict Flags) → Statement Score Flags
  notifies : Tx → ℕ → List ℕ → Statement Score Flags

module _ {ℓ} {Score Flags : Type ℓ} where
  abbrev pub execute : Statement Score Flags → List (Match Score Flags) → List (Match Score Flags)
  execute (finds t rows) = upsert_matches t rows
  execute (sets t user_id job_id state) = set_state t user_id job_id state
  execute (scores t user_id rows) = apply_scores t user_id rows
  execute (notifies t user_id job_ids) = mark_notified t user_id job_ids

  abbrev pub execute_all :
      List (Statement Score Flags) → List (Match Score Flags) → List (Match Score Flags)
  execute_all [] matches = matches
  execute_all (statement ∷ statements) matches = execute_all statements (execute statement matches)

  -- The verdicts are of the version or a later one.
  abbrev pub is_from : ℕ → Statement Score Flags → Bool
  is_from version (finds t rows) = true
  is_from version (sets t user_id job_id state) = true
  is_from version (scores t user_id []) = true
  is_from version (scores t user_id (v ∷ rows)) = not (ltb v.profile_version version)
  is_from version (notifies t user_id job_ids) = true

  -- The reader has a match with the posting, and every such row passes the test.
  abbrev pub IsKept : (Match Score Flags → Bool) → ℕ → ℕ → List (Match Score Flags) → Type 0
  IsKept p user_id job_id matches =
      (any (is_match user_id job_id) matches ≡ true)
      × (count (λ m. is_match user_id job_id m && not (p m)) matches ≡ 0)

  module _ (p : Match Score Flags → Bool) (version user_id job_id : ℕ)
      (refinds : (r : Found Score) (m : Match Score Flags) → p m ≡ true → p (refound r m) ≡ true)
      (resets : (t : Tx) (state : String) (m : Match Score Flags)
        → p m ≡ true
        → p (record m { state = state; state_changed_at = some t.now }) ≡ true)
      (rescores : (t : Tx) (later : ℕ) (v : Verdict Flags) (m : Match Score Flags)
        → ltb later version ≡ false
        → p m ≡ true
        → p (scored_as t later v m) ≡ true)
      (renotifies : (t : Tx) (m : Match Score Flags)
        → p m ≡ true
        → p (record m { notified_at = some t.now }) ≡ true) where
    pub update-IsKept :
        (q : Match Score Flags → Bool) (f : Match Score Flags → Match Score Flags)
        → ((m : Match Score Flags) → is_match user_id job_id (f m) ≡ is_match user_id job_id m)
        → ((m : Match Score Flags) → p m ≡ true → p (f m) ≡ true)
        → (matches : List (Match Score Flags)) → IsKept p user_id job_id matches
        → IsKept p user_id job_id (update_where q f matches)
    update-IsKept q f same kept matches h = (
      any-update_where (is_match user_id job_id) q f same matches ∙ h.0,
      count-update_kept (λ m. is_match user_id job_id m && not (p m)) q f
          (λ m fine. ground (arith, fine, same m, kept m)) matches h.1,
    )

    upsert-IsKept :
        (u j : ℕ) (row : Match Score Flags) (f : Match Score Flags → Match Score Flags)
        → row.user_id ≡ u
        → row.job_id ≡ j
        → ((m : Match Score Flags) → is_match user_id job_id (f m) ≡ is_match user_id job_id m)
        → ((m : Match Score Flags) → p m ≡ true → p (f m) ≡ true)
        → (matches : List (Match Score Flags)) → IsKept p user_id job_id matches
        → IsKept p user_id job_id (upsert u j row f matches)
    unfolding any count
    upsert-IsKept u j row f user job same kept matches h =
        elim (Bool-cases (any (is_match u j) matches)) [
          | inl old ↦ rw old (update-IsKept (is_match u j) f same kept matches h)
          | inr new ↦ elim (Bool-cases (is_match user_id job_id row)) [
            | inr other ↦ rw new (rw (any-append, h.0) refl, rw (count-append, h.1, other) refl)
            | inl own ↦
                let reader : user_id ≡ u =
                  sym ((nat_eq.beq_iff row.user_id user_id).0 (ground (arith, own))) ∙ user in
                let posting : job_id ≡ j =
                  sym ((nat_eq.beq_iff row.job_id job_id).0 (ground (arith, own))) ∙ job in
                let found : any (is_match u j) matches ≡ true =
                  ap (λ k. any (is_match u k) matches) (sym posting)
                  ∙ ap (λ k. any (is_match k job_id) matches) (sym reader)
                  ∙ h.0 in
                absurd (ground (arith, found, new))
          ]
        ]

    upsert_matches-IsKept :
        (t : Tx) (rows : List (Found Score)) (matches : List (Match Score Flags))
        → IsKept p user_id job_id matches
        → IsKept p user_id job_id (upsert_matches t rows matches)
    unfolding upsert_matches upsert_match
    upsert_matches-IsKept t [] matches h = h
    upsert_matches-IsKept t (r ∷ rows) matches h =
        upsert_matches-IsKept t rows (upsert_match t r matches) (
          upsert-IsKept r.user_id r.job_id
            (refound r (blank t r.user_id r.job_id r.profile_version "new")) (refound r) refl refl
            (λ m. refl) (refinds r) matches h)

    pub apply_each-IsKept :
        (t : Tx) (u later : ℕ) (rows : List (Verdict Flags)) (matches : List (Match Score Flags))
        → ltb later version ≡ false
        → IsKept p user_id job_id matches
        → IsKept p user_id job_id (apply_each t u later rows matches)
    unfolding apply_each
    apply_each-IsKept t u later [] matches late h = h
    apply_each-IsKept t u later (v ∷ rows) matches late h =
        apply_each-IsKept t u later rows
          (update_where (is_match u v.job_id) (scored_as t later v) matches) late
          (update-IsKept (is_match u v.job_id) (scored_as t later v) (λ m. refl)
            (λ m. rescores t later v m late) matches h)

    execute-IsKept :
        (statement : Statement Score Flags) (matches : List (Match Score Flags))
        → is_from version statement ≡ true
        → IsKept p user_id job_id matches
        → IsKept p user_id job_id (execute statement matches)
    unfolding set_state apply_scores mark_notified
    execute-IsKept (finds t rows) matches late h = upsert_matches-IsKept t rows matches h
    execute-IsKept (sets t u j state) matches late h =
        upsert-IsKept u j (record (blank t u j 0 state) { state_changed_at = some t.now })
          (λ m. record m { state = state; state_changed_at = some t.now }) refl refl (λ m. refl)
          (resets t state) matches h
    execute-IsKept (scores t u []) matches late h = h
    execute-IsKept (scores t u (v ∷ rows)) matches late h =
        apply_each-IsKept t u v.profile_version (v ∷ rows) matches (ground (arith, late)) h
    execute-IsKept (notifies t u job_ids) matches late h =
        update-IsKept (λ m. m.user_id == u && elem m.job_id job_ids)
          (λ m. record m { notified_at = some t.now }) (λ m. refl) (renotifies t) matches h

    pub execute_all-IsKept :
        (statements : List (Statement Score Flags)) (matches : List (Match Score Flags))
        → All (λ statement. is_from version statement ≡ true) statements
        → IsKept p user_id job_id matches
        → IsKept p user_id job_id (execute_all statements matches)
    execute_all-IsKept [] matches late h = h
    execute_all-IsKept (statement ∷ statements) matches late h =
        execute_all-IsKept statements (execute statement matches) late.1
          (execute-IsKept statement matches late.0 h)
