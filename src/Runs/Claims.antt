-- ===== src/Runs/Claims.antt =====
-- Claiming runs: one at a time, and one whenever one is ready.
use trouveur.Prelude.{
  ℕ, ◌≤◌, ◌≡◌, refl, sym, ◌∙◌, subst, ap, Bool, true, false, some, List, [], ◌∷◌, arith, ◌==◌,
  nat_eq, beq_same, is_some, filter, any, count, length, length-filter, length-sort_by,
  update_where, find, find-update_where, find_self, All, All-filter, All-sort_by, filter-All,
  sort_by, Bool-cases, List-cases, inl, inr,
}
use trouveur.Db.{Tx}
use trouveur.Runs.{Run, Runs, is_ready, run_before, start_run, start_first, claim_next_run}
use trouveur.Runs.States.{
  IsValid, IsFoundIn, run_key, some_same, start_same, claim_next_run-IsValid,
}

-- The run that a claim returned, as it stood before.
record IsClaimed (t : Tx) (locked : List ℕ) (rs : Runs) (r : Run) : Type 0 where
  before : Run
  ready : is_ready t locked before ≡ true
  found : IsFoundIn rs.rows before
  started : r ≡ start_run t before
  written :
      (claim_next_run t locked rs).0.rows
      ≡ update_where (λ s. s.id == before.id) (start_run t) rs.rows

first_IsClaimed :
    (t : Tx) (ready : List Run) (rs : Runs) (r : Run)
    → (start_first t ready rs).1 ≡ some r
    → (first : Run) × (later : List Run) × (ready ≡ first ∷ later) × (r ≡ start_run t first)
unfolding start_first
first_IsClaimed t [] rs r h = absurd (ground (arith, h))
first_IsClaimed t (first ∷ later) rs r h = (first, later, refl, some_same (sym h))

claim_next_run-IsClaimed :
    (t : Tx) (locked : List ℕ) (rs : Runs) (r : Run)
    → IsValid rs
    → (claim_next_run t locked rs).1 ≡ some r
    → IsClaimed t locked rs r
unfolding claim_next_run start_first
claim_next_run-IsClaimed t locked rs r v h =
    let passed = filter (is_ready t locked) rs.rows in
    let (first, later, same, started) = first_IsClaimed t (sort_by run_before passed) rs r h in
    let all_ready = subst (All (λ (r : Run). is_ready t locked r ≡ true)) same (
      All-sort_by run_before (λ (r : Run). is_ready t locked r ≡ true) passed
        (filter-All (is_ready t locked) rs.rows)) in
    let all_found = subst (All (IsFoundIn rs.rows)) same (
      All-sort_by run_before (IsFoundIn rs.rows) passed (
        All-filter (IsFoundIn rs.rows) (is_ready t locked) rs.rows
          (find_self run_key rs.rows v.distinct))) in
    record {
      before = first;
      ready = all_ready.0;
      found = all_found.0;
      started = started;
      written = ap (λ ready. (start_first t ready rs).0.rows) same;
    }

found_after :
    (t : Tx) (locked : List ℕ) (rs : Runs) (r : Run) (c : IsClaimed t locked rs r)
    → find run_key c.before.id (claim_next_run t locked rs).0.rows ≡ some (start_run t c.before)
found_after t locked rs r c =
    ap (find run_key c.before.id) c.written
    ∙ find-update_where run_key (λ s. s.id == c.before.id) (start_run t) (start_same t) c.before.id
        rs.rows
    ∙ rw (c.found, beq_same c.before.id) refl

any_counted : (p : Run → Bool) (rows : List Run) → any p rows ≡ true → 1 ≤ count p rows
unfolding any count
any_counted p [] h = absurd (ground arith)
any_counted p (r ∷ rows) h = ground (arith, h, any_counted p rows)

-- In a valid queue, a run that one claim returned is not returned by the next.
pub claim_next_run-claim_next_run :
    (t u : Tx) (locked more : List ℕ) (rs : Runs) (r s : Run)
    → IsValid rs
    → (claim_next_run t locked rs).1 ≡ some r
    → (claim_next_run u more (claim_next_run t locked rs).0).1 ≡ some s
    → (r.id == s.id) ≡ false
unfolding start_run
claim_next_run-claim_next_run t u locked more rs r s v one two =
    let c = claim_next_run-IsClaimed t locked rs r v one in
    let d =
      claim_next_run-IsClaimed u more (claim_next_run t locked rs).0 s
        (claim_next_run-IsValid t locked rs v) two in
    elim (Bool-cases (r.id == s.id)) [
      | inr other ↦ other
      | inl same ↦
          let ids : d.before.id ≡ c.before.id =
            sym (ap (λ (x : Run). x.id) d.started ∙ start_same u d.before)
            ∙ sym ((nat_eq.beq_iff r.id s.id).0 same)
            ∙ ap (λ (x : Run). x.id) c.started
            ∙ start_same t c.before in
          let again : d.before ≡ start_run t c.before = some_same (
            sym d.found
            ∙ ap (λ k. find run_key k (claim_next_run t locked rs).0.rows) ids
            ∙ found_after t locked rs r c) in
          absurd (ground (arith, subst (λ x. is_ready u more x ≡ true) again d.ready))
    ]

-- A claim returns a run whenever an unlocked one is queued and due.
pub claim_next_run_takes :
    (t : Tx) (locked : List ℕ) (rs : Runs)
    → any (is_ready t locked) rs.rows ≡ true
    → is_some (claim_next_run t locked rs).1 ≡ true
unfolding claim_next_run start_first
claim_next_run_takes t locked rs h =
    elim (List-cases (sort_by run_before (filter (is_ready t locked) rs.rows))) [
      | inr (first, later, e) ↦ rw (e, start_first) refl
      | inl e ↦ absurd (
          omega (
            arith,
            any_counted (is_ready t locked) rs.rows h,
            length-filter (is_ready t locked) rs.rows,
            length-sort_by run_before (filter (is_ready t locked) rs.rows),
            ap (λ (xs : List Run). length xs) e,
          ))
    ]
