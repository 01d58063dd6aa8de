-- ===== src/Workers/Details/Stops.antt =====
-- Each source is stopped by its own answers.
use trouveur.Prelude.{
  ℕ, ◌+◌, ◌≡◌, refl, sym, ap, subst, ◌∙◌, Bool, true, false, ◌||◌, List, [], ◌∷◌, String, arith,
  leb, ◌==◌, string_eq, nat_eq, beq_same, beq_sym, ne_sym, any, any-append, Bool-cases, inl, inr,
  if◌then◌else◌,
}
use trouveur.Db.{Text, Job}
use trouveur.Sources.{source_burst}
use trouveur.Workers.Details.{
  skipped, gone, refused, errored, fetched, Step, starts, lands, Fetching, Wording, is_stopped,
  stop, count_failed, land, take_step, take_steps, not_started,
}

-- Whether the answers stop the source, read on its own: a refusal does, and a burst of failures in
-- a row, of which `run` have come before.
unfoldable pub stops {ℓ} : {Payload : Type ℓ} → String → ℕ → List (Step Payload) → Bool
stops source run [] = false
stops source run (starts row ∷ steps) = stops source run steps
stops source run (lands row skipped ∷ steps) = stops source run steps
stops source run (lands row (refused error) ∷ steps) =
    row.source == source || stops source run steps
stops source run (lands row (errored error) ∷ steps) =
    if row.source == source
    then leb source_burst (run + 1) || stops source (run + 1) steps
    else stops source run steps
stops source run (lands row gone ∷ steps) =
    if row.source == source then stops source 0 steps else stops source run steps
stops source run (lands row (fetched document) ∷ steps) =
    if row.source == source then stops source 0 steps else stops source run steps

module _ {ℓ} {Payload : Type ℓ} (w : Wording) where
  is_stopped-stop :
      (source other : String) (reason : Text) (f : Fetching Payload)
      → is_stopped source (stop other reason f) ≡ (is_stopped source f || other == source)
  unfolding any
  is_stopped-stop source other reason f = elim (Bool-cases (is_stopped other f)) [
    | inr new ↦ rw (new, any-append) (ground arith)
    | inl old ↦ rw old (elim (Bool-cases (other == source)) [
      | inr apart ↦ rw apart (ground arith)
      | inl same ↦
          let known : is_stopped source f ≡ true =
            ap (λ name. is_stopped name f) (sym ((string_eq.beq_iff other source).0 same)) ∙ old in
          rw known refl
    ])
  ]

  failed-stop :
      (source other : String) (reason : Text) (f : Fetching Payload)
      → (stop other reason f).failed_in_a_row source ≡ f.failed_in_a_row source
  failed-stop source other reason f = elim (Bool-cases (is_stopped other f)) [
    | inl old ↦ rw old refl
    | inr new ↦ rw new refl
  ]

  -- The state after a stop, seen by one source.
  after_stop :
      (source other : String) (reason : Text) (f : Fetching Payload) (steps : List (Step Payload))
      → (is_stopped source (stop other reason f)
          || stops source ((stop other reason f).failed_in_a_row source) steps)
        ≡ (is_stopped source f
            || (other == source || stops source (f.failed_in_a_row source) steps))
  after_stop source other reason f steps =
      rw (failed-stop source other reason f, is_stopped-stop source other reason f) (ground arith)

  -- A reset of one source's count, seen by a source.
  after_reset :
      (source other : String) (f : Fetching Payload) (steps : List (Step Payload))
      → stops source ((count_failed other 0 f).failed_in_a_row source) steps ≡ (
          if other == source
          then stops source 0 steps
          else stops source (f.failed_in_a_row source) steps)
  after_reset source other f steps = elim (Bool-cases (other == source)) [
    | inl same ↦ rw (beq_sym other source same, same) refl
    | inr apart ↦ rw (ne_sym other source apart, apart) refl
  ]

  -- A step, seen by one source.
  StepStops : String → Step Payload → List (Step Payload) → Fetching Payload → Type 0
  StepStops source step steps f =
      (is_stopped source (take_step w step f)
        || stops source ((take_step w step f).failed_in_a_row source) steps)
      ≡ (is_stopped source f || stops source (f.failed_in_a_row source) (step ∷ steps))

  errored_own :
      (row : Job) (error : Text) (steps : List (Step Payload)) (f : Fetching Payload)
      → StepStops row.source (lands row (errored error)) steps f
  unfolding StepStops take_step land stops
  errored_own row error steps f =
      let n = f.failed_in_a_row row.source + 1 in
      let counted = count_failed row.source n f in
      elim (Bool-cases (leb source_burst n)) [
        | inl burst ↦
            rw (burst, beq_same row.source)
              (after_stop row.source row.source (w.of_burst row.source error) counted steps
                ∙ rw (beq_same row.source) refl)
        | inr few ↦ rw (few, beq_same row.source) refl
      ]

  errored_other :
      (source : String) (row : Job) (error : Text) (steps : List (Step Payload))
      (f : Fetching Payload)
      → (row.source == source) ≡ false
      → StepStops source (lands row (errored error)) steps f
  unfolding StepStops take_step land stops
  errored_other source row error steps f apart =
      let n = f.failed_in_a_row row.source + 1 in
      let counted = count_failed row.source n f in
      elim (Bool-cases (leb source_burst n)) [
        | inl burst ↦
            rw (burst, apart)
              (after_stop source row.source (w.of_burst row.source error) counted steps
                ∙ rw (apart, ne_sym row.source source apart) refl)
        | inr few ↦ rw (few, apart, ne_sym row.source source apart) refl
      ]

  step_stops :
      (source : String) (step : Step Payload) (steps : List (Step Payload)) (f : Fetching Payload)
      → StepStops source step steps f
  unfolding StepStops take_step land stops
  step_stops source (starts row) steps f = elim (Bool-cases (is_stopped row.source f)) [
    | inl held ↦ rw held refl
    | inr free ↦ rw free refl
  ]
  step_stops source (lands row skipped) steps f = refl
  step_stops source (lands row (refused error)) steps f =
      after_stop source row.source (w.of_block row.source error) f steps
  step_stops source (lands row (errored error)) steps f = elim (Bool-cases (row.source == source)) [
    | inr apart ↦ errored_other source row error steps f apart
    | inl same ↦
        subst (λ name. StepStops name (lands row (errored error)) steps f)
          ((string_eq.beq_iff row.source source).0 same) (errored_own row error steps f)
  ]
  step_stops source (lands row gone) steps f =
      ap (λ b. is_stopped source f || b) (after_reset source row.source f steps)
  step_stops source (lands row (fetched document)) steps f =
      ap (λ b. is_stopped source f || b) (after_reset source row.source f steps)

  take_steps-stops :
      (source : String) (steps : List (Step Payload)) (f : Fetching Payload)
      → is_stopped source (take_steps w steps f)
        ≡ (is_stopped source f || stops source (f.failed_in_a_row source) steps)
  unfolding take_steps stops StepStops
  take_steps-stops source [] f = ground arith
  take_steps-stops source (step ∷ steps) f =
      take_steps-stops source steps (take_step w step f) ∙ step_stops source step steps f

  -- After any interleaving of starts and answers, a source is stopped exactly where its own
  -- answers stop it: a refusal, or five failures with none of its other answers between them.
  pub fetched-stops :
      (source : String) (steps : List (Step Payload))
      → is_stopped source (take_steps w steps not_started) ≡ stops source 0 steps
  unfolding any
  fetched-stops source steps = take_steps-stops source steps not_started ∙ ground arith
