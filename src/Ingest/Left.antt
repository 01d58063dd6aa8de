-- ===== src/Ingest/Left.antt =====
-- Which postings a sweep closes.
use trouveur.Prelude.{
  ℕ, ◌≡◌, refl, sym, ap, ◌∙◌, Bool, true, false, ◌&&◌, Option, some, none, List, [], ◌∷◌, String,
  arith, nat_eq, string_eq, list_eq, is_none, elem, Option-cases, inl, inr, Bool-cases, ◌⊎◌, ◌<◌,
}
use mathlib.Core.Option
use trouveur.Db.{Text, kind_eq, Job, Db, Tx}
use trouveur.Ingest.{in_scopes, is_unseen, close_unseen}
use trouveur.Ingest.Closing.{job_at, closed_if, job_at-close_where, closed_if_spared}

no_scope : (scope : Option Text) → in_scopes scope [] ≡ false
unfolding elem
no_scope none = refl
no_scope (some scope) = refl

-- The posting is open, of the source and in one of the scopes, and was last seen before `started`.
pub record IsLeft (source : String) (scopes : List Text) (started : ℕ) (j : Job) : Type 0 where
  pub is_open : j.closed_at ≡ none
  pub of_source : j.source ≡ source
  pub scope : Text
  pub in_scope : j.scope ≡ some scope
  pub is_named : elem scope scopes ≡ true
  pub seen_before : j.last_seen_at < started

closes_left : String → List Text → ℕ → Job → Bool
closes_left source scopes started j = is_none j.closed_at && is_unseen source scopes started j

closes_left-IsLeft :
    (source : String) (scopes : List Text) (started : ℕ) (j : Job)
    → closes_left source scopes started j ≡ true
    → IsLeft source scopes started j
unfolding closes_left
closes_left-IsLeft source scopes started j h = elim (Option-cases j.scope) [
  | inl e ↦ absurd (ground (arith, h, e))
  | inr (scope, e) ↦ record {
    is_open = ground (arith, h);
    of_source = (string_eq.beq_iff j.source source).0 (ground (arith, h));
    scope = scope;
    in_scope = e;
    is_named = ground (arith, h, e);
    seen_before = ground (arith, h);
  }
]

IsLeft-closes_left :
    (source : String) (scopes : List Text) (started : ℕ) (j : Job)
    → IsLeft source scopes started j
    → closes_left source scopes started j ≡ true
unfolding closes_left
IsLeft-closes_left source scopes started j l =
    let same = (string_eq.beq_iff j.source source).1 l.of_source in
    rw (l.is_open, same, l.in_scope, l.is_named) (ground (arith, l.seen_before))

close_unseen_at :
    (t : Tx) (source : String) (scopes : List Text) (started : ℕ) (k : ℕ) (db : Db)
    → job_at k (close_unseen t source scopes started db).0
      ≡ Option.map (closed_if t.now (is_unseen source scopes started)) (job_at k db)
unfolding close_unseen elem
close_unseen_at t source [] started k db = elim (Option-cases (job_at k db)) [
  | inl e ↦ rw e refl
  | inr (j, e) ↦ rw e (
      ap some (
        sym (
          closed_if_spared t.now (is_unseen source [] started) j
            (rw (no_scope j.scope) (ground arith)))))
]
close_unseen_at t source (scope ∷ scopes) started k db = job_at-close_where t _ k db

-- A sweep closes a posting where it is open, of its source, in one of the scopes named and last
-- seen before the sweep began, and leaves every other posting as it is.
pub close_unseen_exact :
    (t : Tx) (source : String) (scopes : List Text) (started : ℕ) (k : ℕ) (db : Db) (j : Job)
    → job_at k db ≡ some j
    → (IsLeft source scopes started j
        × (job_at k (close_unseen t source scopes started db).0
            ≡ some (record j { closed_at = some t.now })))
      ⊎ ((¬ IsLeft source scopes started j)
          × (job_at k (close_unseen t source scopes started db).0 ≡ some j))
unfolding closes_left
close_unseen_exact t source scopes started k db j found =
    let at =
      close_unseen_at t source scopes started k db
      ∙ ap (Option.map (closed_if t.now (is_unseen source scopes started))) found in
    elim (Bool-cases (closes_left source scopes started j)) [
      | inl left ↦ inl (closes_left-IsLeft source scopes started j left, at ∙ rw left refl)
      | inr kept ↦ inr (
        λ l. absurd (ground (arith, kept, IsLeft-closes_left source scopes started j l)),
        at ∙ ap some (closed_if_spared t.now (is_unseen source scopes started) j kept),
      )
    ]
