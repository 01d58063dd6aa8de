-- ===== src/Sources/Client/Waits.antt =====
-- The waits between the attempts of a request are short and few.
use trouveur.Prelude.{
  ℕ, zero, suc, ◌+◌, ◌-◌, ◌*◌, ◌≤◌, ◌≡◌, Bool, Option, some, none, [], ◌∷◌, arith, leb, nat_eq,
  length, All, Option-cases, Bool-cases, inl, inr,
}
use trouveur.Db.{Text, second}
use trouveur.Sources.Client.{
  Response, Attempt, answered, failed, client_attempts, LastError, nothing_asked, concluded,
  error_of, wait_after, backoff, retry_after_of, request_from, request,
}

module _ (is_wall : Response → Bool) (read_float : Text → Option ℕ) (jitter : ℕ → ℕ) where
  backoff_short :
      (attempt : ℕ)
      → ((n : ℕ) → jitter n ≤ 500000)
      → attempt ≤ 3
      → backoff is_wall read_float jitter attempt ≤ 120 * second
  backoff_short zero small few = omega (arith, small 0)
  backoff_short (suc zero) small few = omega (arith, small 1)
  backoff_short (suc (suc zero)) small few = omega (arith, small 2)
  backoff_short (suc (suc (suc zero))) small few = omega (arith, small 3)
  backoff_short (suc (suc (suc (suc n)))) small few = absurd (omega arith)

  retry_after_short :
      (raw : Option Text) (wait : ℕ)
      → retry_after_of is_wall read_float jitter raw ≡ some wait
      → wait ≤ 120 * second
  retry_after_short none wait h = absurd (ground (arith, h))
  retry_after_short (some []) wait h = absurd (ground (arith, h))
  retry_after_short (some (c ∷ raw)) wait h = elim (Option-cases (read_float (c ∷ raw))) [
    | inl e ↦ absurd (ground (arith, h, e))
    | inr (asked, e) ↦ ground (arith, h, e)
  ]

  wait_after_short :
      (attempt : ℕ) (a : Attempt)
      → ((n : ℕ) → jitter n ≤ 500000)
      → attempt ≤ 3
      → wait_after is_wall read_float jitter attempt a ≤ 120 * second
  wait_after_short attempt (failed error) small few = backoff_short attempt small few
  wait_after_short attempt (answered response) small few =
      elim (Option-cases (retry_after_of is_wall read_float jitter response.retry_after)) [
        | inl e ↦ rw (e, wait_after) (backoff_short attempt small few)
        | inr (wait, e) ↦ rw (e, wait_after) (retry_after_short response.retry_after wait e)
      ]

  -- The waits of a request.
  request_from_waits :
      (attempts : ℕ → Attempt) (left attempt : ℕ) (last : LastError)
      → ((n : ℕ) → jitter n ≤ 500000)
      → attempt + left ≤ 5
      → 1 ≤ attempt
      → let e = request_from is_wall read_float jitter attempts left attempt last in
        All (λ wait. wait ≤ 120 * second) e.slept × (length e.slept ≤ left - 1) × (e.sent ≤ left)
  unfolding request_from
  request_from_waits attempts zero attempt last small few late = (tt, omega arith, omega arith)
  request_from_waits attempts (suc left) attempt last small few late =
      let rest =
        request_from_waits attempts left (attempt + 1) (error_of (attempts attempt)) small
          (omega arith) (omega arith) in
      elim (Option-cases (concluded is_wall (attempts attempt))) [
        | inr (ending, e) ↦ rw (e, request_from) (tt, omega arith, omega arith)
        | inl e ↦ elim (Bool-cases (leb 1 left)) [
          | inl more ↦
              rw (e, request_from, more)
                (
                  (
                    wait_after_short attempt (attempts attempt) small (ground (arith, more)),
                    rest.0,
                  ),
                  ground (arith, more, rest.1),
                  omega (arith, rest.2),
                )
          | inr over ↦
              rw (e, request_from, over)
                (rest.0, ground (arith, over, rest.1), omega (arith, rest.2))
        ]
      ]

  -- With at most four attempts, and a jitter of half a second at most, a request waits between
  -- attempts two minutes at most each time, fewer times than it may attempt, and makes no more
  -- attempts than it may.
  pub request_waits :
      (attempts : ℕ → Attempt) (limit : ℕ)
      → ((n : ℕ) → jitter n ≤ 500000)
      → limit ≤ client_attempts
      → let e = request is_wall read_float jitter attempts limit in
        All (λ wait. wait ≤ 120 * second) e.slept × (length e.slept ≤ limit - 1) × (e.sent ≤ limit)
  unfolding request
  request_waits attempts limit small few =
      request_from_waits attempts limit 1 nothing_asked small (omega arith) (omega arith)
