-- ===== src/Sources/Board/Accounts.antt =====
-- The loop of `sweep_boards`: what its variables hold of the boards tried so far.
use trouveur.Prelude.{
  ℕ, ◌+◌, ◌≡◌, refl, sym, ◌∙◌, Bool, true, false, Option, List, [], ◌∷◌, ◌++◌, map, append-nil,
  append_assoc, arith, length, length-append, filter, concat, concat-append, All, filter-append,
  All-append, All-map, any, any-append_miss, is_some, leb, Bool-cases, inl, inr, map-append,
}
use trouveur.Db.{Text}
use trouveur.Sources.{
  Failure, source_blocked, source_refused, fetch_error, ok, Result-cases, source_burst, ScopeResult,
}
use trouveur.Sources.Board.{
  Document, Batches, Adapter, documents_of, sweep_one, Loop, on_failure, on_board, sweep_from,
}
use trouveur.Sources.Board.Answers.{IsAnswered, sweep_one-IsAnswered}

abbrev pub scopes_of : List ScopeResult → List Text
scopes_of = map (λ r. r.scope)

abbrev pub answered_scopes : List ScopeResult → List Text
answered_scopes results = scopes_of (filter (λ r. r.is_ok) results)

module _ {ℓ} {Response Payload Row : Type ℓ} (a : Adapter Response Payload Row) where
  -- The board was answered, and the documents of all its rows stand together in what was sunk.
  pub record IsStored (sunk : Batches Row) (scope : Text) : Type ℓ where
    pub rows : List Row
    pub answered : IsAnswered a scope rows
    pub before : List (Document Row)
    pub after : List (Document Row)
    pub stored : concat sunk ≡ before ++ documents_of a scope rows ++ after

  pub record IsSound (l : Loop a) : Type ℓ where
    pub closable : l.outcome.closable_scopes ≡ answered_scopes l.outcome.scope_results
    pub done : l.outcome.partitions_done ≡ length l.outcome.closable_scopes
    pub counted : l.outcome.documents ≡ length (concat l.sunk)
    pub stored : All (IsStored l.sunk) l.outcome.closable_scopes
    -- a result that says blocked is never forgotten
    pub blocked :
        (any (λ r. r.is_blocked) l.outcome.scope_results ≡ true) → is_some l.outcome.blocked ≡ true

  IsStored-append :
      (sunk more : Batches Row) (scope : Text) → IsStored sunk scope → IsStored (sunk ++ more) scope
  IsStored-append sunk more scope s = record {
    rows = s.rows;
    answered = s.answered;
    before = s.before;
    after = s.after ++ concat more;
    stored = rw (concat-append, s.stored) (simp append_assoc);
  }

  on_board-IsSound :
      (scope : Text) (sunk : Batches Row) (seen : ℕ) (expected : Option ℕ) (l : Loop a)
      → sweep_one a scope ≡ ok (sunk, seen, expected)
      → IsSound l
      → IsSound (on_board a scope (sunk, seen, expected) l)
  unfolding on_board filter
  on_board-IsSound scope sunk seen expected l swept s =
      let (rows, answered, all_rows, counted) =
        sweep_one-IsAnswered a scope sunk seen expected swept in
      record {
        closable = rw (filter-append, map-append, s.closable) refl;
        done = rw length-append (omega (arith, s.done));
        counted = rw (concat-append, length-append) (omega (arith, s.counted, counted));
        stored =
            All-append (IsStored (l.sunk ++ sunk)) l.outcome.closable_scopes _
              (All-map (IsStored l.sunk) (IsStored-append l.sunk sunk) l.outcome.closable_scopes
                s.stored)
              (
                record {
                  rows = rows;
                  answered = answered;
                  before = concat l.sunk;
                  after = [];
                  stored = rw (concat-append, all_rows, append-nil) refl;
                },
                tt,
              );
        blocked = λ h.
            s.blocked
              (sym (any-append_miss (λ r. r.is_blocked) l.outcome.scope_results _ refl) ∙ h);
      }

  -- A failed board adds a result that is not closable, and nothing to the sink.
  failed_closable :
      (results : List ScopeResult) (r : ScopeResult)
      → r.is_ok ≡ false
      → answered_scopes (results ++ r ∷ []) ≡ answered_scopes results
  unfolding filter
  failed_closable results r h = rw (filter-append, h, append-nil) refl

  -- The flags of a result that says nothing of a block.
  quiet :
      (l : Loop a) (r : ScopeResult)
      → IsSound l
      → r.is_blocked ≡ false
      → any (λ r. r.is_blocked) (l.outcome.scope_results ++ r ∷ []) ≡ true
      → is_some l.outcome.blocked ≡ true
  quiet l r s unblocked h =
      s.blocked (sym (any-append_miss (λ r. r.is_blocked) l.outcome.scope_results r unblocked) ∙ h)

  on_failure-IsSound :
      (scope : Text) (failure : Failure) (l : Loop a)
      → IsSound l
      → IsSound (on_failure a scope failure l).0
  unfolding on_failure
  on_failure-IsSound scope (source_blocked text) l s = record {
    closable = s.closable ∙ sym (failed_closable l.outcome.scope_results _ refl);
    done = s.done;
    counted = s.counted;
    stored = s.stored;
    blocked = λ h. refl;
  }
  on_failure-IsSound scope (source_refused text) l s =
      elim (Bool-cases (leb source_burst (l.refused_in_a_row + 1))) [
        | inl burst ↦ rw burst (record {
          closable = s.closable ∙ sym (failed_closable l.outcome.scope_results _ refl);
          done = s.done;
          counted = s.counted;
          stored = s.stored;
          blocked = λ h. refl;
        })
        | inr few ↦ rw few (record {
          closable = s.closable ∙ sym (failed_closable l.outcome.scope_results _ refl);
          done = s.done;
          counted = s.counted;
          stored = s.stored;
          blocked = quiet l _ s refl;
        })
      ]
  on_failure-IsSound scope (fetch_error text) l s = record {
    closable = s.closable ∙ sym (failed_closable l.outcome.scope_results _ refl);
    done = s.done;
    counted = s.counted;
    stored = s.stored;
    blocked = quiet l _ s refl;
  }

  after_failure :
      (stop : Bool) {l l' : Loop a}
      → IsSound l
      → IsSound l'
      → IsSound (elim stop [ true ↦ l | false ↦ l' ])
  after_failure true s s' = s
  after_failure false s s' = s'

  pub sweep_from-IsSound :
      (scopes : List Text) (l : Loop a) → IsSound l → IsSound (sweep_from a scopes l)
  unfolding sweep_from
  sweep_from-IsSound [] l s = s
  sweep_from-IsSound (scope ∷ scopes) l s = elim (Result-cases (sweep_one a scope)) [
    | inl ((sunk, seen, expected), e) ↦
        rw (e, sweep_from)
          (sweep_from-IsSound scopes (on_board a scope (sunk, seen, expected) l)
            (on_board-IsSound scope sunk seen expected l e s))
    | inr (failure, e) ↦
        rw (e, sweep_from)
          (after_failure (on_failure a scope failure l).1 (on_failure-IsSound scope failure l s) (
            sweep_from-IsSound scopes (on_failure a scope failure l).0
              (on_failure-IsSound scope failure l s)))
  ]
