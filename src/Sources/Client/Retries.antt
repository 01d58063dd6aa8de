-- ===== src/Sources/Client/Retries.antt =====
-- When a request raises SourceBlocked.
use trouveur.Prelude.{
  ℕ, zero, suc, ◌+◌, ◌-◌, ◌≤◌, ◌≡◌, refl, ap, ◌∙◌, Bool, true, false, ◌&&◌, ◌||◌, Option, some,
  none, arith, ◌==◌, nat_eq, elem, Option-cases, Bool-cases, inl, inr,
}
use trouveur.Db.{Text}
use trouveur.Sources.Client.{
  Response, Attempt, answered, failed, retry_status, LastError, nothing_asked, Ending, answer,
  challenged, gave_up_blocked, gave_up, refuses, concluded, error_of, give_up, request_from,
  request,
}

-- The endings that raise SourceBlocked.
abbrev pub is_blocked : Ending → Bool
is_blocked (answer response) = false
is_blocked (challenged code) = true
is_blocked (gave_up_blocked error) = true
is_blocked (gave_up error) = false

-- An attempt that the provider refused: too many requests, or a wall in place of an answer.
abbrev pub is_refusal : (Response → Bool) → Attempt → Bool
is_refusal is_wall (failed error) = false
is_refusal is_wall (answered response) =
    response.status_code == 429 || refuses response.status_code && is_wall response

concluded_blocked :
    (is_wall : Response → Bool) (a : Attempt) (ending : Ending)
    → concluded is_wall a ≡ some ending
    → is_blocked ending ≡ is_refusal is_wall a
unfolding concluded elem
concluded_blocked is_wall (failed error) ending h = absurd (ground (arith, h))
concluded_blocked is_wall (answered response) ending h =
    elim (Bool-cases (refuses response.status_code && is_wall response)) [
      | inl walled ↦
          let same : some (challenged response.status_code) ≡ some ending =
            ground (arith, h, walled) in
          ending_subst (challenged response.status_code) ending same (ground (arith, walled))
      | inr plain ↦ elim (Bool-cases (elem response.status_code retry_status)) [
        | inl again ↦ absurd (ground (arith, h, plain, again))
        | inr final ↦
            let same : some (answer response) ≡ some ending = ground (arith, h, plain, final) in
            ending_subst (answer response) ending same (ground (arith, plain, final))
      ]
    ]
  where
    ending_subst :
        (e f : Ending)
        → some e ≡ some f
        → is_blocked e ≡ is_refusal is_wall (answered response)
        → is_blocked f ≡ is_refusal is_wall (answered response)
    ending_subst e f same at_e = ground (arith, same, at_e)

give_up_blocked :
    (is_wall : Response → Bool) (a : Attempt)
    → concluded is_wall a ≡ none
    → is_blocked (give_up (error_of a)) ≡ is_refusal is_wall a
unfolding concluded give_up elem
give_up_blocked is_wall (failed error) h = refl
give_up_blocked is_wall (answered response) h =
    elim (Bool-cases (refuses response.status_code && is_wall response)) [
      | inl walled ↦ absurd (ground (arith, h, walled))
      | inr plain ↦ elim (Bool-cases (response.status_code == 429)) [
        | inl many ↦ rw many refl
        | inr other ↦ rw (other, plain) refl
      ]
    ]

module _ (is_wall : Response → Bool) (read_float : Text → Option ℕ) (jitter : ℕ → ℕ) where
  moved :
      (attempts : ℕ → Attempt) (n m : ℕ)
      → n ≡ m
      → is_refusal is_wall (attempts n) ≡ is_refusal is_wall (attempts m)
  moved attempts n m same = ap (λ k. is_refusal is_wall (attempts k)) same

  request_from_blocked :
      (attempts : ℕ → Attempt) (left attempt : ℕ) (last : LastError)
      → let e = request_from is_wall read_float jitter attempts (suc left) attempt last in
        (1 ≤ e.sent) × (is_blocked e.ending ≡ is_refusal is_wall (attempts (attempt + e.sent - 1)))
  unfolding request_from
  request_from_blocked attempts zero attempt last =
      elim (Option-cases (concluded is_wall (attempts attempt))) [
        | inl e ↦
            rw (e, request_from)
              (
                omega arith,
                give_up_blocked is_wall (attempts attempt) e
                    ∙ moved attempts (attempt) (attempt + 1 - 1) (omega arith),
              )
        | inr (ending, e) ↦
            rw (e, request_from)
              (
                omega arith,
                concluded_blocked is_wall (attempts attempt) ending e
                    ∙ moved attempts attempt (attempt + 1 - 1) (omega arith),
              )
      ]
  request_from_blocked attempts (suc left) attempt last =
      let rest = request_from_blocked attempts left (attempt + 1) (error_of (attempts attempt)) in
      let sent' =
        (request_from is_wall read_float jitter attempts (suc left) (attempt + 1)
          (error_of (attempts attempt))).sent in
      elim (Option-cases (concluded is_wall (attempts attempt))) [
        | inl e ↦
            rw (e, request_from)
              (
                omega arith,
                rest.1
                    ∙ moved attempts (attempt + 1 + sent' - 1) (attempt + (sent' + 1) - 1)
                        (omega arith),
              )
        | inr (ending, e) ↦
            rw (e, request_from)
              (
                omega arith,
                concluded_blocked is_wall (attempts attempt) ending e
                    ∙ moved attempts attempt (attempt + 1 - 1) (omega arith),
              )
      ]

  -- With at least one attempt allowed, a request raises SourceBlocked exactly where the last
  -- attempt that it made was answered 429, or 403, 429 or 503 with a bot wall.
  pub request_blocked :
      (attempts : ℕ → Attempt) (limit : ℕ)
      → 1 ≤ limit
      → is_blocked (request is_wall read_float jitter attempts limit).ending
        ≡ is_refusal is_wall (attempts (request is_wall read_float jitter attempts limit).sent)
  unfolding request
  request_blocked attempts zero some_left = absurd (omega arith)
  request_blocked attempts (suc left) some_left =
      let e = request_from is_wall read_float jitter attempts (suc left) 1 nothing_asked in
      (request_from_blocked attempts left 1 nothing_asked).1
      ∙ moved attempts (1 + e.sent - 1) e.sent (omega arith)
