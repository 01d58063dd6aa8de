-- ===== src/Ingest/Lifecycle.antt =====
-- What a sweep has stored outlives the closing at its end, and a failed one closes nothing.
use trouveur.Prelude.{
  ℕ, ◌+◌, ◌≤◌, ◌≡◌, refl, ap, Bool, true, Option, List, [], ◌∷◌, ◌++◌, map, map-append,
  append_assoc, String, List-cases, Bool-cases, inl, inr, ◌∙◌,
}
use trouveur.Db.{Db, Tx}
use trouveur.Sources.{SweepOutcome}
use trouveur.Ingest.{Incoming}
use trouveur.Ingest.Seen.{has_seen, close_unseen_spares, close_stale_spares}
use trouveur.Ingest.Pipeline.{
  apply_lifecycle, Swept, returned, raised_blocked, raised, Counts, sweep_source,
  sweep_sources_from, sweep_sources, IngestReport,
}

apply_lifecycle_spares :
    (t : Tx) (source : String) (outcome : SweepOutcome) (started stale now : ℕ) (r : Incoming)
    (db : Db)
    → started ≤ now
    → t.now ≤ now + stale
    → has_seen now r db ≡ true
    → has_seen now r (apply_lifecycle t source outcome started stale db).0 ≡ true
unfolding apply_lifecycle
apply_lifecycle_spares t source outcome started stale now r db late fresh h =
    elim (List-cases outcome.closable_scopes) [
      | inl e ↦ rw (e, apply_lifecycle) (close_stale_spares t source stale now r db fresh h)
      | inr (scope, scopes, e) ↦
          rw (e, apply_lifecycle)
            (close_unseen_spares t source (scope ∷ scopes) started now r db late h)
    ]

-- However a source's sweep ended, a posting that it saw at its start or later, and within the age
-- at which postings go stale, is open when the source is done with.
pub sweep_source_spares :
    (t : Tx) (source : String) (started stale : ℕ) (counts : Counts) (swept : Swept) (now : ℕ)
    (r : Incoming) (db : Db)
    → started ≤ now
    → t.now ≤ now + stale
    → has_seen now r db ≡ true
    → has_seen now r (sweep_source t source started stale counts swept db).0 ≡ true
unfolding sweep_source
sweep_source_spares t source started stale counts (returned outcome) now r db late fresh h =
    apply_lifecycle_spares t source outcome started stale now r db late fresh h
sweep_source_spares t source started stale counts (raised_blocked text) now r db late fresh h = h
sweep_source_spares t source started stale counts (raised text) now r db late fresh h = h

module _ {ℓ} {World Source Report : Type ℓ} (should_stop : World → World × Bool)
    (sweep_one_source : Source → World → World × Report)
    (source_done : ℕ → Option Source → World → World) where
  abbrev pub sources_of : List (Source × Report) → List Source
  sources_of = map (λ r. r.0)

  from_partition :
      (index : ℕ) (sources : List Source) (world : World)
      (report : IngestReport should_stop sweep_one_source source_done)
      → report.skipped ≡ []
      → sources_of
            (sweep_sources_from should_stop sweep_one_source source_done index sources world
              report).1.per_source
          ++ (sweep_sources_from should_stop sweep_one_source source_done index sources world
              report).1.skipped
        ≡ sources_of report.per_source ++ sources
  unfolding sweep_sources_from
  from_partition index [] world report h = rw h refl
  from_partition index (source ∷ later) world report h = elim (Bool-cases (should_stop world).1) [
    | inl stop ↦ rw stop refl
    | inr on ↦ rw on (
        from_partition (index + 1) later _ _ h
        ∙ ap (λ ss. ss ++ later) (map-append (λ r. r.0) report.per_source _)
        ∙ append_assoc (sources_of report.per_source) (source ∷ []) later)
  ]

  -- Every source is swept or skipped, in order, so a cancelled run leaves out a tail of them.
  pub sweep_sources_partition :
      (sources : List Source) (world : World)
      → sources_of
            (sweep_sources should_stop sweep_one_source source_done sources world).1.per_source
          ++ (sweep_sources should_stop sweep_one_source source_done sources world).1.skipped
        ≡ sources
  unfolding sweep_sources
  sweep_sources_partition sources world =
      from_partition 0 sources world (record { per_source = []; skipped = [] }) refl
