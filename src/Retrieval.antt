-- ===== src/Retrieval.antt =====
-- trouveur/match/fuse.py, the fusing half of trouveur/match/retrieve.py, and the positions of
-- trouveur/match/recall.py. A score, a distance and a text rank are floats, which are a parameter
-- with their addition and their comparison; a dict is a list of its entries, in their order.
pub mod Ranks
pub mod Fused
pub mod Placed
mod Tests
use trouveur.Prelude.{
  ℕ, zero, suc, ◌+◌, Bool, true, false, not, ◌&&◌, ◌||◌, Option, some, none, List, [], ◌∷◌, ◌++◌,
  map, ltb, leb, ◌==◌, nat_eq, is_none, take, drop, filter, any, count, elem, update_where, sort_by,
  if◌then◌else◌,
}

-- the dict of best_ranks
abbrev pub Ranks : Type 0
Ranks = ℕ → Option ℕ

abbrev pub is_better : ℕ → Option ℕ → Bool
is_better position none = true
is_better position (some best) = ltb position best

unfoldable pub note_rank : ℕ → ℕ → Ranks → Ranks
note_rank position job_id best k =
    if k == job_id && is_better position (best job_id) then some position else best k

-- `enumerate(ranked, start)`
unfoldable pub note_list : ℕ → List ℕ → Ranks → Ranks
unfolding note_rank
note_list position [] best = best
note_list position (job_id ∷ ranked) best =
    note_list (position + 1) ranked (note_rank position job_id best)

unfoldable pub note_lists : List (List ℕ) → Ranks → Ranks
unfolding note_list
note_lists [] best = best
note_lists (ranked ∷ lists) best = note_lists lists (note_list 1 ranked best)

unfoldable pub best_ranks : List (List ℕ) → Ranks
unfolding note_lists
best_ranks lists = note_lists lists (λ k. none)

pub record Arms : Type 0 where
  pub dense : List (List ℕ)
  pub lexical : List (List ℕ)

-- `Arms.all`
abbrev pub all_arms : Arms → List (List ℕ)
all_arms arms = arms.dense ++ arms.lexical

abbrev pub ranks : Arms → Ranks × Ranks
ranks arms = (best_ranks arms.dense, best_ranks arms.lexical)

module _ {ℓ} {Score : Type ℓ} (plus : Score → Score → Score) (nil : Score) (share : ℕ → Score)
    (is_less : Score → Score → Bool) where
  -- an entry of the dict of scores
  abbrev pub Entry : Type ℓ
  Entry = ℕ × Score

  abbrev pub ids_of : List Entry → List ℕ
  ids_of = map (λ (e : Entry). e.0)

  -- `scores[job_id] += …` on a defaultdict
  unfoldable pub add_score : ℕ → Score → List Entry → List Entry
  add_score job_id amount scores =
      if elem job_id (ids_of scores)
      then update_where (λ (e : Entry). e.0 == job_id) (λ (e : Entry). (e.0, plus e.1 amount))
          scores
      else scores ++ (job_id, plus nil amount) ∷ []

  unfoldable pub score_list : ℕ → List ℕ → List Entry → List Entry
  unfolding add_score
  score_list position [] scores = scores
  score_list position (job_id ∷ ranked) scores =
      score_list (position + 1) ranked (add_score job_id (share position) scores)

  unfoldable pub score_lists : List (List ℕ) → List Entry → List Entry
  unfolding score_list
  score_lists [] scores = scores
  score_lists (ranked ∷ lists) scores = score_lists lists (score_list 1 ranked scores)

  -- the key (-score, id)
  abbrev pub entry_before : Entry → Entry → Bool
  entry_before x y = is_less y.1 x.1 || (not (is_less x.1 y.1) && ltb x.0 y.0)

  unfoldable pub reciprocal_rank_fusion : List (List ℕ) → List Entry
  unfolding score_lists
  reciprocal_rank_fusion lists = sort_by entry_before (score_lists lists [])

  unfoldable pub fuse : Arms → ℕ → List Entry
  unfolding reciprocal_rank_fusion
  fuse arms limit = take limit (reciprocal_rank_fusion (all_arms arms))

module _ {ℓ} {Score : Type ℓ} (is_less : Score → Score → Bool) where
  unfoldable pub dense_position : List Score → Score → ℕ
  dense_position distances distance = count (λ other. is_less other distance) distances

  -- `before` of lexical_position: the higher rank, then the newer, and the undated last
  abbrev pub is_newer : Option ℕ → Option ℕ → Bool
  is_newer none posted_at = is_none posted_at
  is_newer (some other) none = true
  is_newer (some other) (some posted_at) = ltb posted_at other

  abbrev pub falls_before : Score → Option ℕ → Score × Option ℕ → Bool
  falls_before rank posted_at other =
      if is_less other.0 rank || is_less rank other.0
      then is_less rank other.0
      else is_newer other.1 posted_at

  unfoldable pub lexical_position : List (Score × Option ℕ) → Score → Option ℕ → ℕ
  lexical_position pool rank posted_at = count (falls_before rank posted_at) pool

-- recall.insert
unfoldable pub insert : List ℕ → ℕ → Option ℕ → ℕ → List ℕ
insert pool job none depth = take depth (filter (λ other. not (other == job)) pool)
insert pool job (some position) depth =
    let others = filter (λ other. not (other == job)) pool in
    if leb depth position
    then take depth others
    else take depth (take position others ++ job ∷ drop position others)
