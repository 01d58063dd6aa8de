-- ===== src/Health.antt =====
-- What trouveur/db/queries/admin.py keeps of the sweeps of each scope: record_scope_health and
-- prune_scope_health over the rows of source_scope_health.
pub mod Rows
pub mod Streak
mod Tests
use trouveur.Prelude.{
  ℕ, ◌+◌, Bool, true, false, not, ◌&&◌, ◌||◌, Option, some, none, List, [], ◌∷◌, ◌++◌, String, ◌==◌,
  nat_eq, string_eq, list_eq, is_none, take, filter, any, count, update_where, elem, first,
  if◌then◌else◌,
}
use trouveur.Db.{Text, Tx}
use trouveur.Sources.{Failure, source_blocked, source_refused, fetch_error, ScopeResult}

-- a row of source_scope_health
pub record Health : Type 0 where
  pub source : String
  pub scope : Text
  pub last_ok_at : Option ℕ
  pub last_documents : ℕ
  pub last_error : Option Text
  pub consecutive_failures : ℕ
  pub blocked : Bool
  pub updated_at : ℕ
  pub trial_at : Option ℕ

-- str(exc)
abbrev text_of : Failure → Text
text_of (source_blocked text) = text
text_of (source_refused text) = text
text_of (fetch_error text) = text

-- `(result.error or "")[:2000] or None`
abbrev error_of : Option Failure → Option Text
error_of none = none
error_of (some failure) = elim (take 2000 (text_of failure)) [ [] ↦ none | c ∷ cs ↦ some (c ∷ cs) ]

abbrev ok_at : Tx → ScopeResult → Option ℕ
ok_at t r = if r.is_ok then some t.now else none

unfoldable pub new_health : Tx → String → ScopeResult → Health
new_health t source r = record {
  source = source;
  scope = r.scope;
  last_ok_at = ok_at t r;
  last_documents = r.documents;
  last_error = error_of r.error;
  consecutive_failures = if r.is_ok then 0 else 1;
  blocked = r.is_blocked;
  updated_at = t.now;
  trial_at = none;
}

abbrev or_else : Option ℕ → Option ℕ → Option ℕ
or_else none old = old
or_else (some new) old = some new

unfoldable pub merge_health : Tx → ScopeResult → Health → Health
merge_health t r h = record h {
  last_ok_at = or_else (ok_at t r) h.last_ok_at;
  last_documents = r.documents;
  last_error = error_of r.error;
  blocked = r.is_blocked;
  consecutive_failures = if r.is_ok then 0 else h.consecutive_failures + 1;
  updated_at = t.now;
}

abbrev pub is_scope : String → Text → Health → Bool
is_scope source scope h = h.source == source && h.scope == scope

unfoldable pub record_result : Tx → String → ScopeResult → List Health → List Health
unfolding new_health merge_health
record_result t source r table =
    if any (is_scope source r.scope) table
    then update_where (is_scope source r.scope) (merge_health t r) table
    else table ++ new_health t source r ∷ []

unfoldable pub record_each : Tx → String → List ScopeResult → List Health → List Health
unfolding record_result
record_each t source [] table = table
record_each t source (r ∷ results) table =
    record_each t source results (record_result t source r table)

unfoldable pub repeats_scope : List ScopeResult → Bool
repeats_scope [] = false
repeats_scope (r ∷ results) = any (λ s. s.scope == r.scope) results || repeats_scope results

-- One statement; PostgreSQL refuses to write one row twice in it, which raises: nothing here.
unfoldable pub record_scope_health :
    Tx → String → List ScopeResult → List Health → Option (List Health)
unfolding record_each repeats_scope
record_scope_health t source results table =
    if repeats_scope results then none else some (record_each t source results table)

-- `tenants` are the rows of source_tenant.
abbrev pub is_forgotten : String → List Text → List (String × Text) → Health → Bool
is_forgotten source known tenants h =
    h.source == source
    && not (elem h.scope known)
    && not (any (λ x. x.0 == h.source && x.1 == h.scope) tenants)

unfoldable pub prune_scope_health :
    String → List Text → List (String × Text) → List Health → List Health × ℕ
prune_scope_health source known tenants table = (
  filter (λ h. not (is_forgotten source known tenants h)) table,
  count (is_forgotten source known tenants) table,
)

abbrev pub health_at : String → Text → List Health → Option Health
health_at source scope table = first (is_scope source scope) table
