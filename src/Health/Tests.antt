-- ===== src/Health/Tests.antt =====
-- A scope that fails twice after a good sweep.
use trouveur.Prelude.{first, String, ℕ, ◌≡◌, refl, Bool, true, false, none, List, [], ◌∷◌, any}
use mathlib.Core.Option
use trouveur.Db.{Tx}
use trouveur.Sources.{ScopeResult}
use trouveur.Health.{new_health, record_result, Health, health_at}
use trouveur.Health.Streak.{
  Recorded, oks_of, failures_of, record_sweeps, failures_since, record_sweeps_streak,
}

abbrev at : ℕ → Tx
at now = record { now = now; locked_items = []; locked_jobs = [] }

abbrev result : Bool → ScopeResult
result ok = record { scope = 7 ∷ []; is_ok = ok; documents = 3; error = none; is_blocked = false }

abbrev swept_at : ℕ → String → Bool → Recorded
swept_at now source ok = record { at = at now; source = source; result = result ok }

-- Another source's good sweep stands between the two failures.
abbrev sweeps : List Recorded
sweeps =
    swept_at 1 "lever" true
    ∷ swept_at 2 "lever" false
    ∷ swept_at 3 "ashby" true
    ∷ swept_at 4 "lever" false
    ∷ []

abbrev others : List Health
unfolding record_result new_health any
others = record_result (at 0) "ashby" (result false) []

two_failures : failures_since (true ∷ false ∷ false ∷ []) ≡ 2
unfolding failures_since any
two_failures = refl

lever_oks : oks_of "lever" (7 ∷ []) sweeps ≡ true ∷ false ∷ false ∷ []
unfolding oks_of
lever_oks = refl

record_sweeps_streak_example :
    Option.map
      (λ (h : Health). h.consecutive_failures)
      (health_at "lever" (7 ∷ []) (record_sweeps sweeps others))
    ≡ failures_of (oks_of "lever" (7 ∷ []) sweeps)
unfolding others record_result new_health any first
record_sweeps_streak_example = record_sweeps_streak "lever" (7 ∷ []) sweeps others refl
