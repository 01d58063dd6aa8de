-- ===== src/Runner/Slot.antt =====
-- One scheduled run for a slot.
use trouveur.Prelude.{
  ◌≤◌, ℕ, ◌≡◌, refl, ap, ◌∙◌, Bool, true, false, List, [], ◌∷◌, ◌++◌, some, none, arith, ltb, All,
  filter, take, sort_by, insert_by,
}
use trouveur.Db.{Tx}
use trouveur.Runs.{Runs, scheduled, new_run, enqueue_run}
use trouveur.Runner.{
  Schedule, is_scheduled_run_due, queued_later, recent_runs, is_scheduled, last_queued,
  maybe_enqueue_scheduled,
}

module _ {ℓ} {A : Type ℓ} (before : A → A → Bool) where
  sort_by-last :
      (xs : List A) (a : A)
      → All (λ x. before a x ≡ true) xs
      → sort_by before (xs ++ a ∷ []) ≡ a ∷ sort_by before xs
  unfolding sort_by insert_by
  sort_by-last [] a first = refl
  sort_by-last (x ∷ xs) a first = rw (sort_by-last xs a first.1, first.0) refl

-- A scheduled run that was just queued is the last one queued.
last_queued_new :
    (t : Tx) (rs : Runs)
    → All (λ r. ltb r.queued_at t.now ≡ true) rs.rows
    → last_queued (filter is_scheduled (recent_runs 50 (enqueue_run t scheduled none rs).0))
      ≡ some t.now
unfolding recent_runs enqueue_run new_run take filter
last_queued_new t rs earlier =
    rw (sort_by-last queued_later rs.rows (new_run t scheduled none rs.next_run) earlier) refl

not_due_at :
    (settings : Schedule) (now last : ℕ)
    → ltb last (settings.slot_today now) ≡ false
    → is_scheduled_run_due settings now (some last) ≡ false
unfolding is_scheduled_run_due
not_due_at settings now last current = ground (arith, current)

not_due :
    (settings : Schedule) (u : Tx) (clock : ℕ) (rs : Runs) (last : ℕ)
    → last_queued (filter is_scheduled (recent_runs 50 rs)) ≡ some last
    → ltb last (settings.slot_today clock) ≡ false
    → maybe_enqueue_scheduled settings u clock rs ≡ rs
unfolding maybe_enqueue_scheduled is_scheduled_run_due
not_due settings u clock rs last queued current =
    let last_due = last_queued (filter is_scheduled (recent_runs 50 rs)) in
    let waits : is_scheduled_run_due settings clock last_due ≡ false =
      ap (is_scheduled_run_due settings clock) queued ∙ not_due_at settings clock last current in
    rw waits refl

-- Where a tick is due by the process's clock, its transaction began no earlier than the slot, and
-- every run was queued before that, after it a tick with the same slot of the day, whatever its
-- transaction's time, queues no other run.
pub maybe_enqueue_once :
    (settings : Schedule) (t u : Tx) (clock later : ℕ) (rs : Runs)
    → All (λ r. ltb r.queued_at t.now ≡ true) rs.rows
    → settings.slot_today clock ≤ t.now
    → settings.slot_today later ≡ settings.slot_today clock
    → is_scheduled_run_due settings clock (last_queued (filter is_scheduled (recent_runs 50 rs)))
      ≡ true
    → maybe_enqueue_scheduled settings u later (maybe_enqueue_scheduled settings t clock rs)
      ≡ maybe_enqueue_scheduled settings t clock rs
unfolding maybe_enqueue_scheduled
maybe_enqueue_once settings t u clock later rs earlier begun same due = rw due (
    not_due settings u later (enqueue_run t scheduled none rs).0 t.now
      (last_queued_new t rs earlier) (rw same (ground (arith, begun))))
