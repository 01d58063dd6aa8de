-- ===== src/Runs/States.antt =====
-- The states of a run, as every statement on the queue of runs leaves them.
use trouveur.Prelude.{
  ℕ, ◌+◌, ◌<◌, ◌≡◌, refl, sym, ◌∙◌, ap, Bool, true, not, ◌&&◌, Option, some, none, List, [], ◌∷◌,
  map, arith, ◌==◌, nat_eq, is_some, filter, any, update_where, All-update_where, find, find_self,
  elem-keys_above, IsDistinct, IsDistinct-append, keys-update_where, All, All-append, All-map,
  All-filter, All-sort_by, filter-All, sort_by, Bool-cases, inl, inr,
}
use trouveur.Db.{Text, Tx}
use trouveur.Runs.{
  RunStatus, queued, running, success, failed, cancelled, RunStage, RunTrigger, is_queued,
  is_running, Run, Runs, new_run, enqueue_run, is_ready, run_before, start_run, start_first,
  claim_next_run, finish_run, request_cancel, start_run_progress, set_run_stage,
  advance_run_progress, fail_orphaned_runs,
}

-- A queued run has not started, a running one has and has not finished, any other has finished.
abbrev pub IsStagedAt : RunStatus → Option ℕ → Option ℕ → Type 0
IsStagedAt queued started finished = (started ≡ none) × (finished ≡ none)
IsStagedAt running started finished = (is_some started ≡ true) × (finished ≡ none)
IsStagedAt success started finished = is_some finished ≡ true
IsStagedAt failed started finished = is_some finished ≡ true
IsStagedAt cancelled started finished = is_some finished ≡ true

abbrev pub IsStaged : Run → Type 0
IsStaged r = IsStagedAt r.status r.started_at r.finished_at

abbrev pub run_key : Run → ℕ
run_key r = r.id

pub record IsValid (rs : Runs) : Type 0 where
  pub distinct : IsDistinct (map run_key rs.rows)
  pub below : All (λ r. r.id < rs.next_run) rs.rows
  pub staged : All IsStaged rs.rows

-- The row stands in the table under its own id.
abbrev pub IsFoundIn : List Run → Run → Type 0
IsFoundIn rows r = find run_key r.id rows ≡ some r

IsStaged-update :
    (Q : Run → Type 0) (q : Run → Bool) (f : Run → Run)
    → ((r : Run) → q r ≡ true → Q r → IsStaged r → IsStaged (f r))
    → (rows : List Run) → All Q rows
    → All IsStaged rows
    → All IsStaged (update_where q f rows)
unfolding update_where
IsStaged-update Q q f keeps [] k h = tt
IsStaged-update Q q f keeps (r ∷ rows) k h = elim (Bool-cases (q r)) [
  | inl e ↦ rw e (keeps r e k.0 h.0, IsStaged-update Q q f keeps rows k.1 h.1)
  | inr e ↦ rw e (h.0, IsStaged-update Q q f keeps rows k.1 h.1)
]

below_update :
    (n : ℕ) (q : Run → Bool) (f : Run → Run)
    → ((r : Run) → (f r).id ≡ r.id)
    → (rows : List Run) → All (λ r. r.id < n) rows
    → All (λ r. r.id < n) (update_where q f rows)
below_update n q f same rows h =
    All-update_where (λ (r : Run). r.id < n) q f (λ r k. rw (same r) k) rows h

update-IsValid :
    (q : Run → Bool) (f : Run → Run) (rs : Runs)
    → ((r : Run) → (f r).id ≡ r.id)
    → ((r : Run) → q r ≡ true → IsFoundIn rs.rows r → IsStaged r → IsStaged (f r))
    → IsValid rs
    → IsValid (record rs { rows = update_where q f rs.rows })
update-IsValid q f rs same keeps v = record {
  distinct = rw (keys-update_where run_key q f same rs.rows) v.distinct;
  below = below_update rs.next_run q f same rs.rows v.below;
  staged =
      IsStaged-update (IsFoundIn rs.rows) q f keeps rs.rows (find_self run_key rs.rows v.distinct)
        v.staged;
}

enqueue_run-IsValid :
    (t : Tx) (trigger : RunTrigger) (user : Option ℕ) (rs : Runs)
    → IsValid rs
    → IsValid (enqueue_run t trigger user rs).0
unfolding enqueue_run new_run
enqueue_run-IsValid t trigger user rs v = record {
  distinct =
      IsDistinct-append run_key rs.rows _ v.distinct
        (elem-keys_above run_key rs.next_run rs.rows v.below);
  below =
      All-append (λ (r : Run). r.id < rs.next_run + 1) rs.rows _
        (All-map (λ (r : Run). r.id < rs.next_run) (λ r h. omega (arith, h)) rs.rows v.below)
        (omega arith, tt);
  staged = All-append IsStaged rs.rows _ v.staged ((refl, refl), tt);
}

pub some_same : {a b : Run} → some a ≡ some b → a ≡ b
some_same h = cc

pub start_same : (t : Tx) (r : Run) → (start_run t r).id ≡ r.id
unfolding start_run
start_same t r = refl

queued_open :
    (s : RunStatus) (started finished : Option ℕ)
    → is_queued s ≡ true
    → IsStagedAt s started finished
    → finished ≡ none
queued_open queued started finished e h = h.1
queued_open running started finished e h = h.1
queued_open success started finished e h = absurd (ground (arith, e))
queued_open failed started finished e h = absurd (ground (arith, e))
queued_open cancelled started finished e h = absurd (ground (arith, e))

not_finished : (r : Run) → is_queued r.status ≡ true → IsStaged r → r.finished_at ≡ none
not_finished r = queued_open r.status r.started_at r.finished_at

-- The run that a claim starts was queued.
started-IsStaged :
    (t : Tx) (rows : List Run) (r s : Run)
    → is_queued r.status ≡ true
    → IsFoundIn rows r
    → (s.id == r.id) ≡ true
    → IsFoundIn rows s
    → IsStaged s
    → IsStaged (start_run t s)
unfolding start_run
started-IsStaged t rows r s queued_ found same found' h =
    let one : s ≡ r =
      some_same
        (sym found' ∙ ap (λ k. find run_key k rows) ((nat_eq.beq_iff s.id r.id).0 same) ∙ found) in
    (refl, not_finished s (rw one queued_) h)

start_first-IsValid :
    (t : Tx) (ready : List Run) (rs : Runs)
    → All (λ r. is_queued r.status ≡ true) ready
    → All (IsFoundIn rs.rows) ready
    → IsValid rs
    → IsValid (start_first t ready rs).0
unfolding start_first
start_first-IsValid t [] rs queued_ found v = v
start_first-IsValid t (r ∷ later) rs queued_ found v =
    update-IsValid (λ s. s.id == r.id) (start_run t) rs (start_same t)
      (λ s same found'. started-IsStaged t rs.rows r s queued_.0 found.0 same found') v

pub claim_next_run-IsValid :
    (t : Tx) (locked : List ℕ) (rs : Runs) → IsValid rs → IsValid (claim_next_run t locked rs).0
unfolding claim_next_run
claim_next_run-IsValid t locked rs v =
    let passed = filter (is_ready t locked) rs.rows in
    start_first-IsValid t (sort_by run_before passed) rs
      (All-sort_by run_before (λ (r : Run). is_queued r.status ≡ true) passed
        (All-map (λ (r : Run). is_ready t locked r ≡ true) (λ r h. ground (arith, h)) passed
          (filter-All (is_ready t locked) rs.rows)))
      (All-sort_by run_before (IsFoundIn rs.rows) passed (
        All-filter (IsFoundIn rs.rows) (is_ready t locked) rs.rows
          (find_self run_key rs.rows v.distinct)))
      v

abbrev pub is_final : RunStatus → Bool
is_final s = not (is_queued s) && not (is_running s)

final_staged :
    (s : RunStatus) (started : Option ℕ) (now : ℕ)
    → is_final s ≡ true
    → IsStagedAt s started (some now)
final_staged queued started now h = absurd (ground (arith, h))
final_staged running started now h = absurd (ground (arith, h))
final_staged success started now h = refl
final_staged failed started now h = refl
final_staged cancelled started now h = refl

-- One statement of some transaction on the queue; a run is finished with a final status.
pub data Step (t : Tx) (rs : Runs) : Runs → Type 0 where
  enqueues : (trigger : RunTrigger) (user : Option ℕ) → Step t rs (enqueue_run t trigger user rs).0
  claims : (locked : List ℕ) → Step t rs (claim_next_run t locked rs).0
  finishes :
      (run_id : ℕ) (status : RunStatus) (error : Option Text)
      → is_final status ≡ true
      → Step t rs (finish_run t run_id status error rs)
  cancels : (run_id : ℕ) → Step t rs (request_cancel t run_id rs).0
  begins : (run_id sources_total : ℕ) → Step t rs (start_run_progress t run_id sources_total rs)
  enters : (run_id : ℕ) (stage : RunStage) → Step t rs (set_run_stage t run_id stage rs)
  advances :
      (run_id done : ℕ) (current_source : Option Text)
      → Step t rs (advance_run_progress run_id done current_source rs)
  orphans : (disappeared : Text) → Step t rs (fail_orphaned_runs t disappeared rs).0

-- What the statements make of an empty queue, in any order.
pub data IsReached : Runs → Type 0 where
  at_start : IsReached (record { rows = []; next_run = 1 })
  later : {t : Tx} {rs rs' : Runs} → IsReached rs → Step t rs rs' → IsReached rs'

request_cancel-IsValid :
    (t : Tx) (run_id : ℕ) (rs : Runs) → IsValid rs → IsValid (request_cancel t run_id rs).0
unfolding request_cancel
request_cancel-IsValid t run_id rs v =
    elim (Bool-cases (any (λ r. r.id == run_id && is_queued r.status) rs.rows)) [
      | inl waits ↦ rw waits (update-IsValid _ _ rs (λ r. refl) (λ r e found h. refl) v)
      | inr other ↦ rw other (update-IsValid _ _ rs (λ r. refl) (λ r e found h. h) v)
    ]

Step-IsValid : (t : Tx) (rs rs' : Runs) → Step t rs rs' → IsValid rs → IsValid rs'
unfolding finish_run start_run_progress set_run_stage advance_run_progress fail_orphaned_runs
Step-IsValid t rs _ (enqueues trigger user) v = enqueue_run-IsValid t trigger user rs v
Step-IsValid t rs _ (claims locked) v = claim_next_run-IsValid t locked rs v
Step-IsValid t rs _ (finishes run_id status error final) v =
    update-IsValid _ _ rs (λ r. refl) (λ r e found h. final_staged status r.started_at t.now final)
      v
Step-IsValid t rs _ (cancels run_id) v = request_cancel-IsValid t run_id rs v
Step-IsValid t rs _ (begins run_id sources_total) v =
    update-IsValid _ _ rs (λ r. refl) (λ r e found h. h) v
Step-IsValid t rs _ (enters run_id stage) v = update-IsValid _ _ rs (λ r. refl) (λ r e found h. h) v
Step-IsValid t rs _ (advances run_id done current_source) v =
    update-IsValid _ _ rs (λ r. refl) (λ r e found h. h) v
Step-IsValid t rs _ (orphans disappeared) v =
    update-IsValid _ _ rs (λ r. refl) (λ r e found h. refl) v

-- In every state that the statements on runs can reach from an empty queue, run ids are distinct,
-- a queued run has not started, a running one has and has not finished, and any other has
-- finished.
pub reached-IsValid : (rs : Runs) → IsReached rs → IsValid rs
reached-IsValid _ at_start = record { distinct = tt; below = tt; staged = tt }
reached-IsValid _ (later {t} {rs} {rs'} before step) =
    Step-IsValid t rs rs' step (reached-IsValid rs before)
