-- ===== src/Runner/Waiting.antt =====
-- The wait for arrivals ends, and says how many it left.
use trouveur.Prelude.{
  ℕ, zero, suc, ◌≡◌, refl, Bool, true, false, ◌||◌, not, some, arith, ◌==◌, nat_eq, Bool-cases, inl,
  inr,
}
use trouveur.Runner.{prepare_arrivals}

module _ {ℓ} {State : Type ℓ} (waiting : State → ℕ) (should_stop is_late : State → Bool)
    (drain : State → State × Bool) where
  abbrev pub after : ℕ → State → State
  after zero s = s
  after (suc rounds) s = after rounds (drain s).0

  round_ends :
      (fuel : ℕ) (s : State)
      → ((is_late (drain s).0 || not (drain s).1) ≡ false
          → (result : State × ℕ) × (prepare_arrivals waiting should_stop is_late drain fuel
                (drain s).0
              ≡ some result))
      → (result : State × ℕ) × (prepare_arrivals waiting should_stop is_late drain (suc fuel) s
          ≡ some result)
  unfolding prepare_arrivals
  round_ends fuel s next = elim (Bool-cases (waiting s == 0)) [
    | inl idle ↦ rw (idle, prepare_arrivals) ((s, 0), refl)
    | inr busy ↦ elim (Bool-cases (should_stop s)) [
      | inl stop ↦ rw (busy, stop, prepare_arrivals) ((s, waiting s), refl)
      | inr on ↦ elim (Bool-cases (is_late (drain s).0 || not (drain s).1)) [
        | inl over ↦ rw (busy, on, over, prepare_arrivals) (((drain s).0, waiting s), refl)
        | inr again ↦ rw (busy, on, again, prepare_arrivals) (next again)
      ]
    ]
  ]

  -- Where the deadline has passed after some round, that many rounds of fuel end the wait for
  -- arrivals.
  pub prepare_arrivals_ends :
      (rounds : ℕ) (s : State)
      → is_late (after (suc rounds) s) ≡ true
      → (result : State × ℕ) × (prepare_arrivals waiting should_stop is_late drain (suc rounds) s
          ≡ some result)
  prepare_arrivals_ends zero s late = round_ends 0 s (λ again. absurd (ground (arith, late, again)))
  prepare_arrivals_ends (suc rounds) s late =
      round_ends (suc rounds) s (λ again. prepare_arrivals_ends rounds (drain s).0 late)
