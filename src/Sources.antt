-- ===== src/Sources.antt =====
-- trouveur/sources/base.py and errors.py: what every source shares. A text is a list of code
-- points; the reasons that the code writes out as sentences are data here.
pub mod Board
pub mod Feed
pub mod Client
mod Tests
use trouveur.Prelude.{ℕ, ◌≡◌, refl, ◌⊎◌, inl, inr, Bool, true, false, Option, List, [], ◌∷◌}
use trouveur.Db.{Text}

-- the exceptions of errors.py that `except FetchError` catches, each with its text
pub data Failure : Type 0 where
  source_blocked source_refused fetch_error : Text → Failure

-- what a call that may raise one of them gives back
pub data Result {ℓ} (Value : Type ℓ) : Type ℓ where
  err : Failure → Result Value
  ok : Value → Result Value

module _ {ℓ κ} {Value : Type ℓ} {Next : Type κ} where
  infixl 5 ◌>>=◌
  -- An exception skips what stands after it.
  abbrev pub ◌>>=◌ : Result Value → (Value → Result Next) → Result Next
  err failure >>= then_ = err failure
  ok value >>= then_ = then_ value

  -- What has returned was reached through a value.
  pub bind_returned :
      (first : Result Value) (then_ : Value → Result Next) {next : Next}
      → (first >>= then_) ≡ ok next
      → (value : Value) × (first ≡ ok value) × (then_ value ≡ ok next)
  bind_returned (err failure) then_ h = cc
  bind_returned (ok value) then_ h = (value, refl, h)

pub Result-cases {ℓ} :
    {A : Type ℓ} (m : Result A) → ((a : A) × (m ≡ ok a)) ⊎ ((e : Failure) × (m ≡ err e))
Result-cases (ok a) = inl (a, refl)
Result-cases (err e) = inr (e, refl)

-- GLOBAL_SCOPE
abbrev pub global_scope : Text
global_scope = b'*' ∷ []

-- Consecutive failures that read as the source failing.
abbrev pub source_burst : ℕ
source_burst = 5

-- Why a sweep counts as blocked: the provider's own refusal, a run of refused boards, or refusals
-- by most of the boards that were tried.
pub data Blocked : Type 0 where
  by_provider : Text → Blocked
  in_a_row : ℕ → Blocked
  of_tried : ℕ → ℕ → Blocked

pub record ScopeResult : Type 0 where
  pub scope : Text
  pub is_ok : Bool
  pub documents : ℕ
  pub error : Option Failure
  pub is_blocked : Bool

pub record SweepOutcome : Type 0 where
  pub closable_scopes : List Text
  pub partitions_total : ℕ
  pub partitions_done : ℕ
  pub partitions_overflowed : ℕ
  pub documents : ℕ
  pub scope_results : List ScopeResult
  pub expected : Option ℕ
  pub errors : List (Text × Failure)
  pub blocked : Option Blocked

-- `SweepOutcome.complete`
abbrev pub is_complete : SweepOutcome → Bool
is_complete o = elim o.closable_scopes [ [] ↦ false | x ∷ xs ↦ true ]
