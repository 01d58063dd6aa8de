-- ===== src/Ingest/Blocks/Streak.antt =====
-- What block_history says of a source's streak, by the sweeps that the table holds.
use trouveur.Prelude.{
  ℕ, ◌+◌, ◌-◌, ◌*◌, ◌≤◌, ◌<◌, ◌≡◌, refl, Bool, true, false, not, ◌&&◌, ◌||◌, Option, some, none,
  List, [], ◌∷◌, String, arith, ltb, leb, ◌==◌, nat_eq, string_eq, is_none, filter, count, any,
  sort_by, insert_by, if◌then◌else◌, Bool-cases, Option-cases, ap, sym, ◌∙◌, inl, inr, All, All-map,
  All-sort_by, All-insert_by, any-sort_by, count-sort_by,
}
use trouveur.Ingest.Blocks.{
  Sweep, ranked_from, first_unblocked, is_before, streak_before, streak_of, recent_of,
  last_blocked_of, day, History, block_history,
}

-- The run of blocked sweeps at the head of the list, counted one by one.
unfoldable blocked_run : List Sweep → ℕ
blocked_run [] = 0
blocked_run (s ∷ rest) = if s.blocked then 1 + blocked_run rest else 0

first_unblocked_ge :
    (n m : ℕ) (ss : List Sweep) → first_unblocked (ranked_from n ss) ≡ some m → n ≤ m
unfolding ranked_from first_unblocked
first_unblocked_ge n m [] h = absurd (ground arith)
first_unblocked_ge n m (s ∷ rest) h =
    elim (Option-cases (first_unblocked (ranked_from (n + 1) rest))) [
      | inl e ↦ ground (arith, h, e)
      | inr (k, e) ↦ ground (arith, h, e, first_unblocked_ge (n + 1) k rest e)
    ]

-- A latest sweep that was not blocked ends the run at once, one that was lengthens it.
first_unblocked_free :
    (n : ℕ) (s : Sweep) (rest : List Sweep)
    → s.blocked ≡ false
    → first_unblocked (ranked_from n (s ∷ rest)) ≡ some n
unfolding ranked_from first_unblocked
first_unblocked_free n s rest free =
    elim (Option-cases (first_unblocked (ranked_from (n + 1) rest))) [
      | inl e ↦ rw (e, free) refl
      | inr (k, e) ↦ rw (e, free) (ap some (omega (arith, first_unblocked_ge (n + 1) k rest e)))
    ]

first_unblocked_blocked :
    (n : ℕ) (s : Sweep) (rest : List Sweep)
    → s.blocked ≡ true
    → first_unblocked (ranked_from n (s ∷ rest)) ≡ first_unblocked (ranked_from (n + 1) rest)
unfolding ranked_from first_unblocked
first_unblocked_blocked n s rest blocked =
    elim (Option-cases (first_unblocked (ranked_from (n + 1) rest))) [
      | inl e ↦ rw (e, blocked) refl
      | inr (k, e) ↦ rw (e, blocked) refl
    ]

none_before :
    (first n : ℕ) (ss : List Sweep) → first ≤ n → streak_before (some first) (ranked_from n ss) ≡ 0
unfolding ranked_from count streak_before
none_before first n [] h = refl
none_before first n (s ∷ rest) h =
    ground (arith, h, none_before first (n + 1) rest (omega (arith, h)))

one_before :
    (n : ℕ) (s : Sweep) (rest : List Sweep) (first : Option ℕ)
    → s.blocked ≡ true
    → is_before n first ≡ true
    → streak_before first (ranked_from n (s ∷ rest))
      ≡ 1 + streak_before first (ranked_from (n + 1) rest)
unfolding ranked_from count streak_before
one_before n s rest first blocked before = rw (blocked, before) refl

none_at :
    (n : ℕ) (s : Sweep) (rest : List Sweep)
    → s.blocked ≡ false
    → streak_before (some n) (ranked_from n (s ∷ rest)) ≡ 0
none_at n s rest free = none_before n n (s ∷ rest) (omega arith)

streak_of_nil : (n : ℕ) → streak_of (ranked_from n []) ≡ 0
unfolding streak_of streak_before ranked_from count
streak_of_nil n = refl

run_free : (s : Sweep) (rest : List Sweep) → s.blocked ≡ false → blocked_run (s ∷ rest) ≡ 0
unfolding blocked_run
run_free s rest free = rw free refl

run_blocked :
    (s : Sweep) (rest : List Sweep)
    → s.blocked ≡ true
    → blocked_run (s ∷ rest) ≡ 1 + blocked_run rest
unfolding blocked_run
run_blocked s rest blocked = rw blocked refl

-- Over a list numbered from its head, the streak is the run of blocked sweeps at the head.
streak_of-ranked_from : (n : ℕ) (ss : List Sweep) → streak_of (ranked_from n ss) ≡ blocked_run ss
unfolding streak_of blocked_run
streak_of-ranked_from n [] = streak_of_nil n
streak_of-ranked_from n (s ∷ rest) =
    let first = first_unblocked (ranked_from (n + 1) rest) in
    elim (Bool-cases s.blocked) [
      | inr free ↦
          ap (λ f. streak_before f (ranked_from n (s ∷ rest))) (first_unblocked_free n s rest free)
          ∙ none_at n s rest free
          ∙ sym (run_free s rest free)
      | inl blocked ↦
          let before : is_before n first ≡ true = elim (Option-cases first) [
            | inl e ↦ rw e refl
            | inr (k, e) ↦ rw e (ground (arith, first_unblocked_ge (n + 1) k rest e))
          ] in
          ap (λ f. streak_before f (ranked_from n (s ∷ rest)))
            (first_unblocked_blocked n s rest blocked)
          ∙ one_before n s rest first blocked before
          ∙ ap (λ k. 1 + k) (streak_of-ranked_from (n + 1) rest)
          ∙ sym (run_blocked s rest blocked)
    ]

abbrev later_first : Sweep → Sweep → Bool
later_first s r = leb r.started_at s.started_at

-- No two of the sweeps started at the same time.
unfoldable pub AreApart : List Sweep → Type 0
AreApart [] = Unit
AreApart (s ∷ rest) = All (λ (r : Sweep). ¬ (r.started_at ≡ s.started_at)) rest × AreApart rest

IsDescending : List Sweep → Type 0
IsDescending [] = Unit
IsDescending (s ∷ rest) = All (λ (r : Sweep). r.started_at < s.started_at) rest × IsDescending rest

insert_by-IsDescending :
    (a : Sweep) (ss : List Sweep)
    → All (λ (r : Sweep). ¬ (r.started_at ≡ a.started_at)) ss
    → IsDescending ss
    → IsDescending (insert_by later_first a ss)
unfolding insert_by IsDescending
insert_by-IsDescending a [] apart down = (tt, tt)
insert_by-IsDescending a (s ∷ ss) apart down = elim (Bool-cases (later_first s a)) [
  | inl later ↦
      let lt : a.started_at < s.started_at = ground (arith, later, apart.0) in
      rw later (
        All-insert_by later_first (λ (r : Sweep). r.started_at < s.started_at) a ss lt down.0,
        insert_by-IsDescending a ss apart.1 down.1,
      )
  | inr first ↦
      let lt : s.started_at < a.started_at = ground (arith, first) in
      rw first (
        (
          lt,
          All-map (λ (r : Sweep). r.started_at < s.started_at) (λ r h. omega (arith, h, lt)) ss
              down.0,
        ),
        down,
      )
]

sort_by-IsDescending : (ss : List Sweep) → AreApart ss → IsDescending (sort_by later_first ss)
unfolding sort_by IsDescending AreApart
sort_by-IsDescending [] apart = tt
sort_by-IsDescending (s ∷ ss) apart =
    insert_by-IsDescending s (sort_by later_first ss)
      (All-sort_by later_first (λ (r : Sweep). ¬ (r.started_at ≡ s.started_at)) ss apart.0)
      (sort_by-IsDescending ss apart.1)

-- A sweep that was not blocked, at this one's start or later.
abbrev answers_since : Sweep → Sweep → Bool
answers_since s u = not u.blocked && leb s.started_at u.started_at

-- A blocked sweep since whose start none of the sweeps went unblocked.
abbrev pub is_unanswered : List Sweep → Sweep → Bool
is_unanswered sweeps s =
    s.blocked && not (any (λ u. not u.blocked && leb s.started_at u.started_at) sweeps)

none_since :
    (s : Sweep) (ss : List Sweep)
    → All (λ (r : Sweep). r.started_at < s.started_at) ss
    → any (answers_since s) ss ≡ false
unfolding any
none_since s [] down = refl
none_since s (r ∷ ss) down = ground (arith, down.0, none_since s ss down.1)

count_same :
    (p q : Sweep → Bool) (ss : List Sweep) → ((s : Sweep) → p s ≡ q s) → count p ss ≡ count q ss
unfolding count
count_same p q [] same = refl
count_same p q (s ∷ ss) same = rw (same s, count_same p q ss same) refl

after_blocked :
    (s : Sweep) (ss : List Sweep)
    → s.blocked ≡ true
    → (r : Sweep) → is_unanswered (s ∷ ss) r ≡ is_unanswered ss r
unfolding any
after_blocked s ss blocked r = rw blocked refl

all_answered :
    (s : Sweep) (whole ss : List Sweep)
    → s.blocked ≡ false
    → All (λ (r : Sweep). r.started_at < s.started_at) ss
    → count (is_unanswered (s ∷ whole)) ss ≡ 0
unfolding count any
all_answered s whole [] free down = refl
all_answered s whole (r ∷ ss) free down =
    ground (arith, free, down.0, all_answered s whole ss free down.1)

count_hit :
    (p : Sweep → Bool) (s : Sweep) (ss : List Sweep)
    → p s ≡ true
    → 1 + count p ss ≡ count p (s ∷ ss)
unfolding count
count_hit p s ss hit = rw hit refl

count_miss :
    (p : Sweep → Bool) (s : Sweep) (ss : List Sweep)
    → p s ≡ false
    → count p ss ≡ 0
    → count p (s ∷ ss) ≡ 0
unfolding count
count_miss p s ss miss zeros = rw (miss, zeros) refl

blocked_unanswered :
    (s : Sweep) (ss : List Sweep)
    → s.blocked ≡ true
    → any (answers_since s) ss ≡ false
    → is_unanswered (s ∷ ss) s ≡ true
unfolding any
blocked_unanswered s ss blocked alone = ground (arith, blocked, alone)

free_answered : (whole : List Sweep) (s : Sweep) → s.blocked ≡ false → is_unanswered whole s ≡ false
free_answered whole s free = ground (arith, free)

blocked_run_nil : blocked_run [] ≡ 0
unfolding blocked_run
blocked_run_nil = refl

-- In a list by descending start, the run at its head is made of the unanswered ones.
blocked_run-count :
    (ss : List Sweep) → IsDescending ss → blocked_run ss ≡ count (is_unanswered ss) ss
unfolding IsDescending count
blocked_run-count [] down = blocked_run_nil
blocked_run-count (s ∷ ss) down = elim (Bool-cases s.blocked) [
  | inl blocked ↦
      run_blocked s ss blocked
      ∙ ap (λ n. 1 + n) (blocked_run-count ss down.1)
      ∙ ap (λ n. 1 + n) (sym (count_same _ _ ss (after_blocked s ss blocked)))
      ∙ count_hit (is_unanswered (s ∷ ss)) s ss
          (blocked_unanswered s ss blocked (none_since s ss down.0))
  | inr free ↦
      run_free s ss free
      ∙ sym (
          count_miss (is_unanswered (s ∷ ss)) s ss (free_answered (s ∷ ss) s free)
            (all_answered s ss ss free down.0))
]

-- The finished sweeps of the source.
abbrev pub finished_of : String → List Sweep → List Sweep
finished_of source sweeps =
    filter (λ (s : Sweep). s.source == source && not (is_none s.finished_at)) sweeps

-- the streak of the source's row, or 0 where the query lists no row
abbrev pub streak_in : Option History → ℕ
streak_in none = 0
streak_in (some h) = h.streak

streak_of_sorted :
    (ss : List Sweep)
    → AreApart ss
    → streak_of (ranked_from 1 (sort_by later_first ss)) ≡ count (is_unanswered ss) ss
streak_of_sorted ss apart =
    let sorted = sort_by later_first ss in
    streak_of-ranked_from 1 sorted
    ∙ blocked_run-count sorted (sort_by-IsDescending ss apart)
    ∙ count_same _ _ sorted
        (λ s. ap (λ b. s.blocked && not b) (any-sort_by later_first (answers_since s) ss))
    ∙ count-sort_by later_first (is_unanswered ss) ss

-- Where no two finished sweeps of a source started at the same time, the streak that the block
-- history gives it, 0 where it lists none, is the number of its blocked finished sweeps since
-- whose start no finished sweep of it went unblocked.
pub block_history_streak :
    (now days : ℕ) (sweeps : List Sweep) (source : String)
    → AreApart (finished_of source sweeps)
    → streak_in (block_history now days sweeps source)
      ≡ count (is_unanswered (finished_of source sweeps)) (finished_of source sweeps)
unfolding block_history
block_history_streak now days sweeps source apart =
    let ranked = ranked_from 1 (sort_by later_first (finished_of source sweeps)) in
    let streak = streak_of ranked in
    let recent = recent_of (now - days * day) ranked in
    let listed =
      elim (Bool-cases (ltb 0 streak || ltb 0 recent))
        as (λ x.
          streak_in (
            if ltb 0 streak || ltb 0 recent
            then some (record {
              streak = streak;
              recent = recent;
              last_blocked_at = last_blocked_of ranked;
            })
            else none)
          ≡ streak) [ inl e ↦ rw e refl | inr e ↦ rw e (ground (arith, e)) ] in
    listed ∙ streak_of_sorted (finished_of source sweeps) apart
