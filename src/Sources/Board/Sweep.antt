-- ===== src/Sources/Board/Sweep.antt =====
-- `sweep_boards` as a whole: what its outcome promises to the code that closes postings.
use trouveur.Prelude.{
  ◌+◌, ◌*◌, ◌≡◌, refl, sym, subst, ◌⊎◌, Bool, true, false, List, [], ◌∷◌, ◌++◌, Option, some,
  filter, map-append, append_assoc, arith, length, concat, any, All, is_some, is_none, leb, ltb,
  Bool-cases, inl, inr, ◌&&◌,
}
use trouveur.Db.{Text}
use trouveur.Sources.{
  Failure, source_blocked, source_refused, fetch_error, Result-cases, source_burst, SweepOutcome,
  Blocked, of_tried,
}
use trouveur.Sources.Board.{
  Adapter, Loop, on_failure, on_board, sweep_from, start, mostly_refused, sweep_boards, sweep_one,
}
use trouveur.Sources.Board.Accounts.{
  scopes_of, answered_scopes, IsStored, IsSound, sweep_from-IsSound,
}

module _ {ℓ} {Response Payload Row : Type ℓ} (a : Adapter Response Payload Row) where
  on_failure_scopes :
      (scope : Text) (failure : Failure) (l : Loop a)
      → scopes_of (on_failure a scope failure l).0.outcome.scope_results
        ≡ scopes_of l.outcome.scope_results ++ scope ∷ []
  unfolding on_failure
  on_failure_scopes scope (source_blocked text) l = rw map-append
  on_failure_scopes scope (source_refused text) l =
      elim (Bool-cases (leb source_burst (l.refused_in_a_row + 1))) [
        | inl burst ↦ rw burst (rw map-append)
        | inr few ↦ rw few (rw map-append)
      ]
  on_failure_scopes scope (fetch_error text) l = rw map-append

  on_failure_stop :
      (scope : Text) (failure : Failure) (l : Loop a)
      → (on_failure a scope failure l).1 ≡ true
      → is_some (on_failure a scope failure l).0.outcome.blocked ≡ true
  unfolding on_failure
  on_failure_stop scope (source_blocked text) l h = refl
  on_failure_stop scope (source_refused text) l h = ground arith
  on_failure_stop scope (fetch_error text) l h = absurd (ground arith)

  -- The scopes with a result, then those that were left out because the sweep stopped.
  Asked : Loop a → List Text → Type 0
  Asked l all =
      (rest : List Text) × (scopes_of l.outcome.scope_results ++ rest ≡ all)
      × ((is_some l.outcome.blocked ≡ true) ⊎ (rest ≡ []))

  after_failure :
      (stop : Bool) (l l' : Loop a) (all rest : List Text)
      → scopes_of l.outcome.scope_results ++ rest ≡ all
      → (stop ≡ true → is_some l.outcome.blocked ≡ true)
      → Asked l' all
      → Asked (elim stop [ true ↦ l | false ↦ l' ]) all
  unfolding Asked
  after_failure true l l' all rest e blocked asked = (rest, e, inl (blocked refl))
  after_failure false l l' all rest e blocked asked = asked

  further :
      (scopes : List Text) (scope : Text) (l' l : Loop a)
      → scopes_of l'.outcome.scope_results ≡ scopes_of l.outcome.scope_results ++ scope ∷ []
      → scopes_of l'.outcome.scope_results ++ scopes
        ≡ scopes_of l.outcome.scope_results ++ scope ∷ scopes
  further scopes scope l' l e = rw (e, append_assoc) refl

  sweep_from-Asked :
      (scopes : List Text) (l : Loop a)
      → Asked (sweep_from a scopes l) (scopes_of l.outcome.scope_results ++ scopes)
  unfolding sweep_from Asked on_board
  sweep_from-Asked [] l = ([], refl, inr refl)
  sweep_from-Asked (scope ∷ scopes) l = elim (Result-cases (sweep_one a scope)) [
    | inl (found, e) ↦
        rw (e, sweep_from)
          (subst (λ all. Asked (sweep_from a scopes (on_board a scope found l)) all)
            (further scopes scope (on_board a scope found l) l (rw map-append))
            (sweep_from-Asked scopes (on_board a scope found l)))
    | inr (failure, e) ↦
        let l' = (on_failure a scope failure l).0 in
        let more = further scopes scope l' l (on_failure_scopes scope failure l) in
        rw (e, sweep_from)
          (after_failure (on_failure a scope failure l).1 l' (sweep_from a scopes l') _ scopes more
            (on_failure_stop scope failure l)
            (subst (λ all. Asked (sweep_from a scopes l') all) more (sweep_from-Asked scopes l')))
  ]

  start-IsSound : (scopes : List Text) → IsSound a (start a scopes)
  unfolding filter any concat
  start-IsSound scopes = record {
    closable = refl;
    done = refl;
    counted = refl;
    stored = tt;
    blocked = λ h. absurd (ground arith);
  }

  swept-IsSound : (scopes : List Text) → IsSound a (sweep_from a scopes (start a scopes))
  swept-IsSound scopes = sweep_from-IsSound a scopes (start a scopes) (start-IsSound scopes)

  -- The verdict after the loop changes nothing but the block, and never takes a block back.
  mostly_refused_same :
      (l : Loop a)
      → (b : Option Blocked) × (mostly_refused a l ≡ record l.outcome { blocked = b })
        × (is_some l.outcome.blocked ≡ true → is_some b ≡ true)
  unfolding mostly_refused
  mostly_refused_same l =
      let tried = length l.outcome.scope_results in
      elim (Bool-cases
        (is_none l.outcome.blocked && leb source_burst l.refused && ltb tried (l.refused * 2))) [
          | inl most ↦ (some (of_tried l.refused tried), rw (most, mostly_refused) refl, λ h. refl)
          | inr few ↦ (l.outcome.blocked, rw (few, mostly_refused) refl, λ h. h)
        ]

  -- Of every scope reported closable the board was answered, and the documents of all its rows
  -- stand together in what was handed to the sink.
  pub sweep_boards-IsStored :
      (scopes : List Text)
      → All (IsStored a (sweep_boards a scopes).1) (sweep_boards a scopes).0.closable_scopes
  unfolding sweep_boards
  sweep_boards-IsStored scopes =
      let l = sweep_from a scopes (start a scopes) in
      let (b, same, _) = mostly_refused_same l in
      subst (λ (o : SweepOutcome). All (IsStored a l.sunk) o.closable_scopes) (sym same)
        (swept-IsSound scopes).stored

  -- The closable scopes are those with a good result, in order; the partitions done are counted by
  -- them, and the documents by what was handed to the sink.
  pub sweep_boards_accounts :
      (scopes : List Text)
      → ((sweep_boards a scopes).0.closable_scopes
          ≡ answered_scopes (sweep_boards a scopes).0.scope_results)
        × ((sweep_boards a scopes).0.partitions_done
            ≡ length (sweep_boards a scopes).0.closable_scopes)
        × ((sweep_boards a scopes).0.documents ≡ length (concat (sweep_boards a scopes).1))
  unfolding sweep_boards
  sweep_boards_accounts scopes =
      let l = sweep_from a scopes (start a scopes) in
      let (b, same, _) = mostly_refused_same l in
      let s = swept-IsSound scopes in
      subst
        (λ (o : SweepOutcome).
          (o.closable_scopes ≡ answered_scopes o.scope_results)
          × (o.partitions_done ≡ length o.closable_scopes)
          × (o.documents ≡ length (concat l.sunk)))
        (sym same) (s.closable, s.done, s.counted)

  -- The results are of a prefix of the scopes, in order, and a sweep that leaves scopes out says
  -- that it was blocked.
  pub sweep_boards_asked :
      (scopes : List Text)
      → (rest : List Text) × (scopes_of (sweep_boards a scopes).0.scope_results ++ rest ≡ scopes)
        × ((is_some (sweep_boards a scopes).0.blocked ≡ true) ⊎ (rest ≡ []))
  unfolding sweep_boards Asked
  sweep_boards_asked scopes =
      let l = sweep_from a scopes (start a scopes) in
      let (b, same, keeps) = mostly_refused_same l in
      let (rest, all, why) = sweep_from-Asked scopes (start a scopes) in
      subst
        (λ (o : SweepOutcome).
          (rest : List Text) × (scopes_of o.scope_results ++ rest ≡ scopes)
          × ((is_some o.blocked ≡ true) ⊎ (rest ≡ [])))
        (sym same)
        (rest, all, elim why [ inl blocked ↦ inl (keeps blocked) | inr none_left ↦ inr none_left ])

  -- A scope result that says blocked marks the whole sweep as blocked.
  pub sweep_boards_blocked :
      (scopes : List Text)
      → any (λ r. r.is_blocked) (sweep_boards a scopes).0.scope_results ≡ true
      → is_some (sweep_boards a scopes).0.blocked ≡ true
  unfolding sweep_boards
  sweep_boards_blocked scopes =
      let l = sweep_from a scopes (start a scopes) in
      let (b, same, keeps) = mostly_refused_same l in
      subst
        (λ (o : SweepOutcome).
          any (λ r. r.is_blocked) o.scope_results ≡ true → is_some o.blocked ≡ true)
        (sym same) (λ h. keeps ((swept-IsSound scopes).blocked h))
