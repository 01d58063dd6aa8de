-- ===== src/Ingest/Blocks.antt =====
-- block_history of trouveur/db/queries/ingest.py, and the pauses that trouveur/ingest/pipeline.py
-- takes from it: a source whose sweeps were blocked is left alone, longer each time.
pub mod Streak
use trouveur.Prelude.{
  ℕ, zero, suc, ◌+◌, ◌-◌, ◌*◌, ◌^◌, min, max, ◌≤◌, ◌<◌, ◌≡◌, refl, Bool, true, false, not, ◌&&◌,
  ◌||◌, Option, some, none, List, [], ◌∷◌, String, arith, ltb, leb, ◌==◌, nat_eq, string_eq,
  is_none, filter, count, sort_by, if◌then◌else◌, Bool-cases, Option-cases, ap, sym, ◌∙◌, inl, inr,
}
use trouveur.Db.{second}

abbrev pub day : ℕ
day = 86400 * second

abbrev pub slow_days : ℕ
slow_days = 14

abbrev pub max_slowdown : ℕ
max_slowdown = 16

-- a row of source_sweep, with the columns that the query reads
pub record Sweep : Type 0 where
  pub source : String
  pub started_at : ℕ
  pub finished_at : Option ℕ
  pub blocked : Bool

unfoldable pub pause_after : ℕ → ℕ
pause_after blocks = min (day * 2 ^ min (blocks - 1) 8) (7 * day)

unfoldable pub slowdown : ℕ → ℕ
slowdown recent_blocks = min (2 ^ min recent_blocks 8) max_slowdown

-- `ranked`: the finished sweeps of one source, numbered from 1 by started_at, the latest first
unfoldable pub ranked_from : ℕ → List Sweep → List (ℕ × Sweep)
ranked_from n [] = []
ranked_from n (s ∷ rest) = (n, s) ∷ ranked_from (n + 1) rest

-- `streak_end`: the number of the latest sweep that was not blocked
unfoldable pub first_unblocked : List (ℕ × Sweep) → Option ℕ
first_unblocked [] = none
first_unblocked ((n, s) ∷ rest) = elim (first_unblocked rest) [
  | none ↦ if not s.blocked then some n else none
  | some m ↦ if not s.blocked then some (min n m) else some m
]

-- `e.first_unblocked IS NULL OR r.n < e.first_unblocked`
abbrev is_before : ℕ → Option ℕ → Bool
is_before n none = true
is_before n (some first) = ltb n first

unfoldable pub streak_before : Option ℕ → List (ℕ × Sweep) → ℕ
streak_before first ranked = count (λ r. (r.1).blocked && is_before r.0 first) ranked

unfoldable pub streak_of : List (ℕ × Sweep) → ℕ
unfolding first_unblocked streak_before
streak_of ranked = streak_before (first_unblocked ranked) ranked

abbrev finished_after : ℕ → Option ℕ → Bool
finished_after since none = false
finished_after since (some finished) = ltb since finished

unfoldable pub recent_of : ℕ → List (ℕ × Sweep) → ℕ
recent_of since ranked = count (λ r. (r.1).blocked && finished_after since (r.1).finished_at) ranked

abbrev latest : Option ℕ → Option ℕ → Option ℕ
latest none b = b
latest (some a) none = some a
latest (some a) (some b) = some (max a b)

unfoldable pub last_blocked_of : List (ℕ × Sweep) → Option ℕ
last_blocked_of [] = none
last_blocked_of ((n, s) ∷ rest) =
    if s.blocked then latest s.finished_at (last_blocked_of rest) else last_blocked_of rest

pub record History : Type 0 where
  pub streak : ℕ
  pub recent : ℕ
  pub last_blocked_at : Option ℕ

-- The row of one source, where the query lists it.
unfoldable pub block_history : ℕ → ℕ → List Sweep → String → Option History
unfolding ranked_from streak_of recent_of last_blocked_of
block_history now days sweeps source =
    let finished =
      filter (λ (s : Sweep). s.source == source && not (is_none s.finished_at)) sweeps in
    let ranked =
      ranked_from 1 (sort_by (λ (s r : Sweep). leb r.started_at s.started_at) finished) in
    let streak = streak_of ranked in
    let recent = recent_of (now - days * day) ranked in
    if ltb 0 streak || ltb 0 recent
    then some
        (record { streak = streak; recent = recent; last_blocked_at = last_blocked_of ranked })
    else none

-- `paused` of `run`: until when a source is left alone, where it is.
unfoldable pub paused_until : ℕ → Option History → Option ℕ
unfolding pause_after
paused_until now none = none
paused_until now (some h) = elim h.last_blocked_at [
  | none ↦ none
  | some last ↦
      let until = last + pause_after h.streak in
      if not (h.streak == 0) && ltb now until then some until else none
]

pow_pos : (n : ℕ) → 1 ≤ 2 ^ n
pow_pos zero = omega arith
pow_pos (suc n) = omega (arith, pow_pos n)

pow_mono : (n m : ℕ) → n ≤ m → 2 ^ n ≤ 2 ^ m
pow_mono zero m h = pow_pos m
pow_mono (suc n) zero h = absurd (omega (arith, h))
pow_mono (suc n) (suc m) h = omega (arith, pow_mono n m (omega (arith, h)))

-- A pause is a day at the least and a week at the most, and no shorter after more blocks.
pub pause_after_bounds :
    (blocks more : ℕ)
    → blocks ≤ more
    → (day ≤ pause_after blocks)
      × (pause_after blocks ≤ pause_after more)
      × (pause_after more ≤ 7 * day)
unfolding pause_after
pause_after_bounds blocks more h = (
  omega (arith, pow_pos (min (blocks - 1) 8)),
  omega (arith, pow_mono (min (blocks - 1) 8) (min (more - 1) 8) (omega (arith, h))),
  omega arith,
)

-- Within a day of the last block, a source whose latest sweeps were blocked is left alone, from a
-- day to a week after that block.
pub paused_until_bounds :
    (now last : ℕ) (h : History)
    → h.last_blocked_at ≡ some last
    → 0 < h.streak
    → now < last + day
    → (until : ℕ) × (paused_until now (some h) ≡ some until)
      × (last + day ≤ until)
      × (until ≤ last + 7 * day)
unfolding paused_until
paused_until_bounds now last h at blocked soon =
    let (low, mono, high) = pause_after_bounds h.streak h.streak (omega arith) in
    (
      last + pause_after h.streak,
      rw (at, paused_until) (ground (arith, blocked, soon, low)),
      omega (arith, low),
      omega (arith, high),
    )

-- A week after its last block a source is no longer left alone.
pub paused_until_over :
    (now last : ℕ) (h : History)
    → h.last_blocked_at ≡ some last
    → last + 7 * day ≤ now
    → paused_until now (some h) ≡ none
unfolding paused_until
paused_until_over now last h at late =
    let (low, mono, high) = pause_after_bounds h.streak h.streak (omega arith) in
    rw (at, paused_until) (ground (arith, late, high))
