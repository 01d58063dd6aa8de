-- ===== src/Sources/Client/Ends.antt =====
-- Which attempts a request makes, and what it comes to by the last of them.
use trouveur.Prelude.{
  ℕ, zero, suc, ◌+◌, ◌≤◌, ◌≡◌, refl, ap, sym, ◌∙◌, Bool, true, false, not, ◌&&◌, ◌||◌, ◌⊎◌, inl,
  inr, Option, some, none, List, [], ◌∷◌, arith, ◌==◌, nat_eq, elem, All, Bool-cases, if◌then◌else◌,
}
use trouveur.Db.{Text}
use trouveur.Sources.Client.{
  Response, Attempt, answered, failed, LastError, raised, status, nothing_asked, Ending, answer,
  challenged, gave_up_blocked, gave_up, retry_status, refuses, concluded, error_of, give_up,
  request_from, request,
}

-- 403, 429 or 503 with a bot wall
abbrev pub is_walled : (Response → Bool) → Response → Bool
is_walled is_wall r =
    (r.status_code == 403 || r.status_code == 429 || r.status_code == 503) && is_wall r

-- 429, 500, 502, 503 or 504
abbrev pub is_passing : ℕ → Bool
is_passing code = code == 429 || code == 500 || code == 502 || code == 503 || code == 504

-- An attempt that another follows while some are left.
abbrev pub is_retried : (Response → Bool) → Attempt → Bool
is_retried is_wall (failed error) = true
is_retried is_wall (answered r) = is_passing r.status_code && not (is_walled is_wall r)

-- What a request comes to whose last attempt this is.
abbrev pub outcome : (Response → Bool) → Attempt → Ending
outcome is_wall (failed error) = gave_up (raised error)
outcome is_wall (answered r) =
    if is_walled is_wall r
    then challenged r.status_code
    else if r.status_code == 429
    then gave_up_blocked (status r.status_code)
    else if is_passing r.status_code
    then gave_up (status r.status_code)
    else answer r

-- The attempts from one number on.
abbrev pub tries : (ℕ → Attempt) → ℕ → ℕ → List Attempt
tries attempts zero attempt = []
tries attempts (suc left) attempt = attempts attempt ∷ tries attempts left (attempt + 1)

refuses_lem :
    (is_wall : Response → Bool) (r : Response)
    → (refuses r.status_code && is_wall r) ≡ is_walled is_wall r
unfolding elem
refuses_lem is_wall r = ground arith

retry_status_lem : (code : ℕ) → elem code retry_status ≡ is_passing code
unfolding elem
retry_status_lem code = ground arith

module _ (is_wall : Response → Bool) where
  concluded-retried : (a : Attempt) → is_retried is_wall a ≡ true → concluded is_wall a ≡ none
  unfolding concluded
  concluded-retried (failed error) h = refl
  concluded-retried (answered r) h =
      let plain : (refuses r.status_code && is_wall r) ≡ false =
        refuses_lem is_wall r ∙ last_fails (is_passing r.status_code) (is_walled is_wall r) h in
      let again : elem r.status_code retry_status ≡ true =
        retry_status_lem r.status_code ∙ first_holds (is_passing r.status_code) _ h in
      rw (plain, again) refl
    where
      last_fails : (a b : Bool) → (a && not b) ≡ true → b ≡ false
      last_fails a b h = ground (arith, h)

      first_holds : (a b : Bool) → (a && b) ≡ true → a ≡ true
      first_holds a b h = ground (arith, h)

  give_up-retried :
      (a : Attempt) → is_retried is_wall a ≡ true → give_up (error_of a) ≡ outcome is_wall a
  unfolding give_up
  give_up-retried (failed error) h = refl
  give_up-retried (answered r) h = elim (Bool-cases (is_walled is_wall r)) [
    | inl walled ↦ absurd (ground (arith, h, walled))
    | inr plain ↦
        let passing : is_passing r.status_code ≡ true = ground (arith, h) in
        rw (plain, passing) refl
  ]

  concluded-last :
      (a : Attempt) → is_retried is_wall a ≡ false → concluded is_wall a ≡ some (outcome is_wall a)
  unfolding concluded
  concluded-last (failed error) h = absurd (ground (arith, h))
  concluded-last (answered r) h = elim (Bool-cases (is_walled is_wall r)) [
    | inl walled ↦
        let hit : (refuses r.status_code && is_wall r) ≡ true = refuses_lem is_wall r ∙ walled in
        rw (hit, walled) refl
    | inr plain ↦
        let miss : (refuses r.status_code && is_wall r) ≡ false = refuses_lem is_wall r ∙ plain in
        let final : is_passing r.status_code ≡ false = ground (arith, h, plain) in
        let other : (r.status_code == 429) ≡ false = ground (arith, final) in
        let out : elem r.status_code retry_status ≡ false =
          retry_status_lem r.status_code ∙ final in
        rw (miss, out, plain, final, other) refl
  ]

  -- Of `left` attempts from number `attempt` on, all but the last one made are retried, and it is
  -- the last allowed or is not to be retried; the request comes to what that one says.
  pub record IsEnded (attempts : ℕ → Attempt) (left attempt sent : ℕ) (ending : Ending)
      : Type 0 where
    pub before : ℕ
    pub counted : sent ≡ suc before
    pub within : suc before ≤ left
    pub retried : All (λ a. is_retried is_wall a ≡ true) (tries attempts before attempt)
    pub ends : (suc before ≡ left) ⊎ (is_retried is_wall (attempts (attempt + before)) ≡ false)
    pub outcome_of : ending ≡ outcome is_wall (attempts (attempt + before))

  at_first : (attempts : ℕ → Attempt) (attempt : ℕ) → attempts attempt ≡ attempts (attempt + 0)
  at_first attempts attempt = ap attempts (omega arith)

  at_next :
      (attempts : ℕ → Attempt) (attempt before : ℕ)
      → attempts (attempt + 1 + before) ≡ attempts (attempt + suc before)
  at_next attempts attempt before = ap attempts (omega arith)

  IsEnded-here :
      (attempts : ℕ → Attempt) (left attempt : ℕ)
      → (1 ≡ left) ⊎ (is_retried is_wall (attempts attempt) ≡ false)
      → 1 ≤ left
      → IsEnded attempts left attempt 1 (outcome is_wall (attempts attempt))
  IsEnded-here attempts left attempt ends some_left = record {
    before = 0;
    counted = refl;
    within = some_left;
    retried = tt;
    ends = elim ends [
      | inl only ↦ inl only
      | inr final ↦ inr (ap (is_retried is_wall) (sym (at_first attempts attempt)) ∙ final)
    ];
    outcome_of = ap (outcome is_wall) (at_first attempts attempt);
  }

  IsEnded-later :
      (attempts : ℕ → Attempt) (left attempt sent : ℕ) (ending : Ending)
      → is_retried is_wall (attempts attempt) ≡ true
      → IsEnded attempts left (attempt + 1) sent ending
      → IsEnded attempts (suc left) attempt (sent + 1) ending
  IsEnded-later attempts left attempt sent ending again rest = record {
    before = suc rest.before;
    counted = omega (arith, rest.counted);
    within = omega (arith, rest.within);
    retried = (again, rest.retried);
    ends = elim rest.ends [
      | inl only ↦ inl (ap suc only)
      | inr final ↦
          inr (ap (is_retried is_wall) (sym (at_next attempts attempt rest.before)) ∙ final)
    ];
    outcome_of = rest.outcome_of ∙ ap (outcome is_wall) (at_next attempts attempt rest.before);
  }

  module _ (read_float : Text → Option ℕ) (jitter : ℕ → ℕ) where
    request_from-IsEnded :
        (attempts : ℕ → Attempt) (left attempt : ℕ) (last : LastError)
        → let e = request_from is_wall read_float jitter attempts (suc left) attempt last in
          IsEnded attempts (suc left) attempt e.sent e.ending
    unfolding request_from
    request_from-IsEnded attempts zero attempt last =
        elim (Bool-cases (is_retried is_wall (attempts attempt))) [
          | inr final ↦
              rw (concluded-last (attempts attempt) final, request_from)
                (IsEnded-here attempts 1 attempt (inl refl) (omega arith))
          | inl again ↦
              rw (concluded-retried (attempts attempt) again, request_from)
                (rw (give_up-retried (attempts attempt) again)
                  (IsEnded-here attempts 1 attempt (inl refl) (omega arith)))
        ]
    request_from-IsEnded attempts (suc left) attempt last =
        let rest = request_from-IsEnded attempts left (attempt + 1) (error_of (attempts attempt)) in
        let e =
          request_from is_wall read_float jitter attempts (suc left) (attempt + 1)
            (error_of (attempts attempt)) in
        elim (Bool-cases (is_retried is_wall (attempts attempt))) [
          | inr final ↦
              rw (concluded-last (attempts attempt) final, request_from)
                (IsEnded-here attempts (suc (suc left)) attempt (inr final) (omega arith))
          | inl again ↦
              rw (concluded-retried (attempts attempt) again, request_from)
                (IsEnded-later attempts (suc left) attempt e.sent e.ending again rest)
        ]

    -- With at least one attempt allowed, a request makes between one and that many; all but the
    -- last that it makes failed, or were answered 429, 500, 502, 503 or 504 without a bot wall;
    -- the last was not such a one, or is the last allowed; and its failure or answer alone says
    -- how the request ends.
    pub request_ends :
        (attempts : ℕ → Attempt) (limit : ℕ)
        → 1 ≤ limit
        → IsEnded attempts limit 1
            (request is_wall read_float jitter attempts limit).sent
            (request is_wall read_float jitter attempts limit).ending
    unfolding request
    request_ends attempts zero some_left = absurd (omega arith)
    request_ends attempts (suc left) some_left = request_from-IsEnded attempts left 1 nothing_asked
