-- ===== src/Sources/Client/Json.antt =====
-- What get_json and post_json take for JSON.
use trouveur.Prelude.{
  ℕ, zero, suc, ◌+◌, ◌-◌, ◌≤◌, ◌≡◌, refl, ap, ◌∙◌, Bool, false, Option, some, arith, ◌==◌, nat_eq,
  Option-cases, Bool-cases, inl, inr,
}
use trouveur.Db.{Text}
use trouveur.Sources.Client.{
  Response, Attempt, answered, failed, LastError, nothing_asked, raised, status, Ending, answer,
  challenged, gave_up_blocked, gave_up, concluded, error_of, give_up, request_from, request, value,
  decode, decode_ending, get_json,
}

give_up_unanswered : (last : LastError) (r : Response) → give_up last ≡ answer r → ⊥
unfolding give_up
give_up_unanswered nothing_asked r h = ground (arith, h)
give_up_unanswered (raised error) r h = ground (arith, h)
give_up_unanswered (status code) r h = ground (arith, h)

concluded_answer :
    (is_wall : Response → Bool) (a : Attempt) (r : Response)
    → concluded is_wall a ≡ some (answer r)
    → a ≡ answered r
unfolding concluded
concluded_answer is_wall (failed error) r h = absurd (ground (arith, h))
concluded_answer is_wall (answered response) r h = ground (arith, h)

module _ (is_wall : Response → Bool) (read_float : Text → Option ℕ) (jitter : ℕ → ℕ) where
  request_from_answer :
      (attempts : ℕ → Attempt) (left attempt : ℕ) (last : LastError) (r : Response)
      → (request_from is_wall read_float jitter attempts left attempt last).ending ≡ answer r
      → (1 ≤ (request_from is_wall read_float jitter attempts left attempt last).sent)
        × (attempts (
              attempt
              + (request_from is_wall read_float jitter attempts left attempt last).sent
              - 1)
            ≡ answered r)
  unfolding request_from
  request_from_answer attempts zero attempt last r h = absurd (give_up_unanswered last r h)
  request_from_answer attempts (suc left) attempt last r h =
      elim (Option-cases (concluded is_wall (attempts attempt))) [
        | inl e ↦
            let rest =
              request_from_answer attempts left (attempt + 1) (error_of (attempts attempt)) r
                (ground (arith, h, e)) in
            let sent' =
              (request_from is_wall read_float jitter attempts left (attempt + 1)
                (error_of (attempts attempt))).sent in
            rw (e, request_from) (omega arith, ap attempts (omega (arith, rest.0)) ∙ rest.1)
        | inr (ending, e) ↦
            let same : ending ≡ answer r = ground (arith, h, e) in
            rw (e, request_from)
              (
                omega arith,
                ap attempts (omega arith)
                    ∙ concluded_answer is_wall (attempts attempt) r (e ∙ ap some same),
              )
      ]

module _ {ℓ} {Json : Type ℓ} (is_wall is_blank : Response → Bool)
    (read_json : Response → Option Json) where
  -- The answer holds the value: a page of JSON under status 200.
  abbrev pub IsJson : Response → Json → Type ℓ
  IsJson r json =
      (r.status_code ≡ 200) × (is_blank r ≡ false) × (is_wall r ≡ false) × (read_json r ≡ some json)

  decode-IsJson :
      (r : Response) (json : Json)
      → decode is_wall is_blank read_json r ≡ value json
      → IsJson r json
  unfolding decode
  decode-IsJson r json h = elim (Bool-cases (r.status_code == 200)) [
    | inr other ↦ absurd (ground (arith, h, other))
    | inl fine ↦ elim (Bool-cases (is_blank r)) [
      | inl blank ↦ absurd (ground (arith, h, fine, blank))
      | inr full ↦ elim (Bool-cases (is_wall r)) [
        | inl wall ↦ absurd (ground (arith, h, fine, full, wall))
        | inr page ↦ elim (Option-cases (read_json r)) [
          | inl e ↦ absurd (ground (arith, h, fine, full, page, e))
          | inr (found, e) ↦
              let same : value found ≡ value json = ground (arith, h, fine, full, page, e) in
              (ground (arith, fine), full, page, ground (arith, e, same))
        ]
      ]
    ]
  ]

  decode_ending-IsJson :
      (e : Ending) (json : Json)
      → decode_ending is_wall is_blank read_json e ≡ value json
      → (r : Response) × (e ≡ answer r) × IsJson r json
  unfolding decode_ending
  decode_ending-IsJson (answer r) json h = (r, refl, decode-IsJson r json h)
  decode_ending-IsJson (challenged code) json h = absurd (ground (arith, h))
  decode_ending-IsJson (gave_up_blocked error) json h = absurd (ground (arith, h))
  decode_ending-IsJson (gave_up error) json h = absurd (ground (arith, h))

  -- A value taken for JSON is what the parser reads in the answer to the last attempt, which has
  -- status 200, is not blank and is no bot wall.
  pub get_json-IsJson :
      (read_float : Text → Option ℕ) (jitter : ℕ → ℕ) (attempts : ℕ → Attempt) (limit : ℕ)
      (json : Json)
      → get_json is_wall is_blank read_json read_float jitter attempts limit ≡ value json
      → (r : Response) × (attempts (request is_wall read_float jitter attempts limit).sent
          ≡ answered r)
        × IsJson r json
  unfolding get_json decode_ending request
  get_json-IsJson read_float jitter attempts limit json h =
      let e = request is_wall read_float jitter attempts limit in
      let found = decode_ending-IsJson e.ending json h in
      let asked =
        request_from_answer is_wall read_float jitter attempts limit 1 nothing_asked found.0
          found.1 in
      (found.0, ap attempts (omega (arith, asked.0)) ∙ asked.1, found.2)
