-- ===== src/Health/Streak.antt =====
-- A scope's consecutive failures, over the sweeps that were recorded for it.
use trouveur.Prelude.{
  ◌==◌, ◌&&◌, ℕ, ◌+◌, ◌≡◌, refl, ◌∙◌, subst, ap, Bool, true, false, Option, some, none, List, [],
  ◌∷◌, String, arith, nat_eq, string_eq, list_eq, any, length, Bool-cases, inl, inr, if◌then◌else◌,
}
use mathlib.Core.Option
use trouveur.Db.{Text, Tx}
use trouveur.Sources.{ScopeResult}
use trouveur.Health.{Health, new_health, merge_health, record_result, health_at}
use trouveur.Health.Rows.{both_true, settled, health_at-record_result, health_at-other}

-- A result that was recorded: when, of which source, and what it says.
pub record Recorded : Type 0 where
  pub at : Tx
  pub source : String
  pub result : ScopeResult

-- Results recorded one after the other, of any sources and scopes.
unfoldable pub record_sweeps : List Recorded → List Health → List Health
unfolding record_result
record_sweeps [] table = table
record_sweeps (s ∷ later) table = record_sweeps later (record_result s.at s.source s.result table)

-- Whether the sweeps of one scope of one source went well, in order.
unfoldable pub oks_of : String → Text → List Recorded → List Bool
oks_of source scope [] = []
oks_of source scope (s ∷ later) =
    let rest = oks_of source scope later in
    if s.source == source && (s.result).scope == scope then (s.result).is_ok ∷ rest else rest

-- How many sweeps stand after the last one that went well.
unfoldable pub failures_since : List Bool → ℕ
failures_since [] = 0
failures_since (ok ∷ later) =
    if any (λ b. b) (ok ∷ later) then failures_since later else length (ok ∷ later)

streak_from : ℕ → List Bool → ℕ
streak_from n [] = n
streak_from n (ok ∷ later) = streak_from (if ok then 0 else n + 1) later

failures_since_none : (oks : List Bool) → any (λ b. b) oks ≡ false → failures_since oks ≡ length oks
unfolding failures_since any
failures_since_none [] h = refl
failures_since_none (ok ∷ later) h = rw h refl

streak_from-any :
    (n : ℕ) (oks : List Bool)
    → streak_from n oks ≡ (if any (λ b. b) oks then failures_since oks else n + length oks)
unfolding streak_from failures_since any
streak_from-any n [] = omega arith
streak_from-any n (true ∷ later) =
    streak_from-any 0 later ∙ ground (arith, failures_since_none later)
streak_from-any n (false ∷ later) = streak_from-any (n + 1) later ∙ ground arith

streak_zero : (oks : List Bool) → streak_from 0 oks ≡ failures_since oks
streak_zero oks = elim (Bool-cases (any (λ b. b) oks)) [
  | inl e ↦ streak_from-any 0 oks ∙ rw e refl
  | inr e ↦ streak_from-any 0 oks ∙ rw e (omega (arith, failures_since_none oks e))
]

failures_at : String → Text → List Health → Option ℕ
failures_at source scope table =
    Option.map (λ (h : Health). h.consecutive_failures) (health_at source scope table)

-- What a result makes of the failures in a row, where the scope had a row or had none.
abbrev counted : Option ℕ → Bool → ℕ
counted none ok = if ok then 0 else 1
counted (some n) ok = if ok then 0 else n + 1

failures_at-settled :
    (t : Tx) (source : String) (r : ScopeResult) (row : Option Health)
    → (settled t source r row).consecutive_failures
      ≡ counted (Option.map (λ (h : Health). h.consecutive_failures) row) r.is_ok
unfolding settled new_health merge_health
failures_at-settled t source r none = refl
failures_at-settled t source r (some h) = refl

failures_at-same :
    (t : Tx) (source : String) (r : ScopeResult) (table : List Health)
    → failures_at source r.scope (record_result t source r table)
      ≡ some (counted (failures_at source r.scope table) r.is_ok)
unfolding failures_at
failures_at-same t source r table =
    ap (Option.map (λ (h : Health). h.consecutive_failures))
      (health_at-record_result t source r table)
    ∙ ap some (failures_at-settled t source r (health_at source r.scope table))

streak_of_oks : Option ℕ → List Bool → Option ℕ
streak_of_oks n [] = n
streak_of_oks n (ok ∷ later) = some (streak_from (counted n ok) later)

streak_of_oks-next :
    (n : Option ℕ) (ok : Bool) (later : List Bool)
    → streak_of_oks (some (counted n ok)) later ≡ some (streak_from (counted n ok) later)
unfolding streak_of_oks streak_from
streak_of_oks-next n ok [] = refl
streak_of_oks-next n ok (next ∷ later) = refl

failures_at-record_sweeps :
    (source : String) (scope : Text) (sweeps : List Recorded) (table : List Health)
    → failures_at source scope (record_sweeps sweeps table)
      ≡ streak_of_oks (failures_at source scope table) (oks_of source scope sweeps)
unfolding record_sweeps oks_of streak_of_oks failures_at
failures_at-record_sweeps source scope [] table = refl
failures_at-record_sweeps source scope (s ∷ later) table =
    let table' = record_result s.at s.source s.result table in
    let rest = failures_at-record_sweeps source scope later table' in
    let oks = oks_of source scope later in
    elim (Bool-cases (s.source == source && (s.result).scope == scope)) [
      | inr apart ↦
          rest
          ∙ ap (λ h. streak_of_oks (Option.map (λ (h : Health). h.consecutive_failures) h) oks)
              (health_at-other s.at source scope s.source s.result table apart)
          ∙ rw apart refl
      | inl here ↦
          let (p, q) = both_true (s.source == source) ((s.result).scope == scope) here in
          let same_source = (string_eq.beq_iff s.source source).0 p in
          let same_scope = (list_eq.beq_iff (s.result).scope scope).0 q in
          let moved : failures_at source scope table'
              ≡ some (counted (failures_at source scope table) (s.result).is_ok) =
            moved_to s.at s.source source s.result scope table same_source same_scope in
          rest
          ∙ ap (λ n. streak_of_oks n oks) moved
          ∙ streak_of_oks-next (failures_at source scope table) (s.result).is_ok oks
          ∙ rw here refl
    ]
  where
    moved_to :
        (t : Tx) (given source : String) (r : ScopeResult) (scope : Text) (table : List Health)
        → given ≡ source
        → r.scope ≡ scope
        → failures_at source scope (record_result t given r table)
          ≡ some (counted (failures_at source scope table) r.is_ok)
    moved_to t given source r scope table same_source same_scope =
        subst
          (λ x.
            failures_at x scope (record_result t given r table)
            ≡ some (counted (failures_at x scope table) r.is_ok))
          same_source
          (subst
            (λ x.
              failures_at given x (record_result t given r table)
              ≡ some (counted (failures_at given x table) r.is_ok))
            same_scope (failures_at-same t given r table))

-- The failures in a row that the results of a scope make, where it had no row before them.
abbrev pub failures_of : List Bool → Option ℕ
failures_of [] = none
failures_of (ok ∷ later) = some (failures_since (ok ∷ later))

streak_of_oks-none : (oks : List Bool) → streak_of_oks none oks ≡ failures_of oks
unfolding streak_of_oks streak_from
streak_of_oks-none [] = refl
streak_of_oks-none (ok ∷ later) = ap some (streak_zero (ok ∷ later))

-- Where a scope of a source has no row, then after results of any sources and scopes it has one if
-- any was its own, and its consecutive failures are its results after its last good one.
pub record_sweeps_streak :
    (source : String) (scope : Text) (sweeps : List Recorded) (table : List Health)
    → health_at source scope table ≡ none
    → Option.map
        (λ (h : Health). h.consecutive_failures)
        (health_at source scope (record_sweeps sweeps table))
      ≡ failures_of (oks_of source scope sweeps)
unfolding failures_at
record_sweeps_streak source scope sweeps table new =
    failures_at-record_sweeps source scope sweeps table
    ∙ ap
        (λ h.
          streak_of_oks (Option.map (λ (h : Health). h.consecutive_failures) h)
            (oks_of source scope sweeps))
        new
    ∙ streak_of_oks-none (oks_of source scope sweeps)
