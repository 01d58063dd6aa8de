-- ===== src/Prelude/Tables.antt =====
-- Tables of rows with a numeric key: what UPDATE and DELETE do to the row found under a key.
use Prim.Native.Nat.{ℕ, ◌<◌}
use mathlib.Core.Path.{◌≡◌, refl, sym, subst}
use mathlib.Core.Logic.{inl, inr}
use mathlib.Core.Bool.{Bool, true, false, ◌||◌}
use mathlib.Core.Option
use mathlib.Core.Option.{Option, none, some}
use mathlib.Core.List.{List, [], ◌∷◌, ◌++◌, map}
use native.Mathlib.Omega.{arith}
use trouveur.Prelude.Tests.{if◌then◌else◌, is_none, Eq, nat_eq, ◌==◌, Bool-cases, ne_sym}
use trouveur.Prelude.Lists.{filter, update_where, find, elem, IsDistinct, All, All-map}

-- The row if it passes the test.
abbrev pub keep_if {ℓ} : {A : Type ℓ} → (A → Bool) → Option A → Option A
keep_if p none = none
keep_if p (some a) = if p a then some a else none

module _ {ℓ} {A : Type ℓ} where
  pub All-zip {κ μ} :
      (P : A → Type κ) (Q : A → Type μ) (xs : List A)
      → All P xs
      → All Q xs
      → All (λ x. P x × Q x) xs
  All-zip P Q [] h k = tt
  All-zip P Q (x ∷ xs) h k = ((h.0, k.0), All-zip P Q xs h.1 k.1)

-- Lists of rows under keys of any type.
module _ {ℓ κ} {R : Type ℓ} {K : Type κ} ⦃e : Eq K⦄ (key : R → K) where
  elem-keys-append :
      (k : K) (rows : List R) (r : R)
      → elem k (map key (rows ++ r ∷ [])) ≡ (elem k (map key rows) || key r == k)
  unfolding elem
  elem-keys-append k [] r = ground arith
  elem-keys-append k (x ∷ rows) r = ground (arith, elem-keys-append k rows r)

  pub IsDistinct-append :
      (rows : List R) (r : R)
      → IsDistinct (map key rows)
      → elem (key r) (map key rows) ≡ false
      → IsDistinct (map key (rows ++ r ∷ []))
  unfolding elem
  IsDistinct-append [] r d h = (refl, tt)
  IsDistinct-append (x ∷ rows) r d h = (
    rw elem-keys-append (rw d.0 (ne_sym (key x) (key r) (ground arith))),
    IsDistinct-append rows r d.1 (ground arith),
  )

  -- A key outside a set that holds all the keys is none of them.
  pub elem-keys_outside :
      (seen : List K) (k : K) (rows : List R)
      → All (λ r. elem (key r) seen ≡ true) rows
      → elem k seen ≡ false
      → elem k (map key rows) ≡ false
  unfolding elem
  elem-keys_outside seen k [] h out = refl
  elem-keys_outside seen k (r ∷ rows) h out = elim (Bool-cases (key r == k)) [
    | inl here ↦
        absurd (ground (arith, subst (λ j. elem j seen ≡ true) ((e.beq_iff (key r) k).0 here) h.0))
    | inr later ↦ ground (arith, elem-keys_outside seen k rows h.1)
  ]

module _ {ℓ} {R : Type ℓ} (key : R → ℕ) where
  pub find-update_where :
      (p : R → Bool) (f : R → R)
      → ((r : R) → key (f r) ≡ key r)
      → (k : ℕ) (rows : List R)
      → find key k (update_where p f rows)
        ≡ Option.map (λ r. if p r then f r else r) (find key k rows)
  unfolding find update_where
  find-update_where p f same k [] = refl
  find-update_where p f same k (r ∷ rows) =
      ground (arith, same r, find-update_where p f same k rows)

  pub keys-update_where :
      (p : R → Bool) (f : R → R)
      → ((r : R) → key (f r) ≡ key r)
      → (rows : List R) → map key (update_where p f rows) ≡ map key rows
  unfolding update_where
  keys-update_where p f same [] = refl
  keys-update_where p f same (r ∷ rows) = ground (arith, same r, keys-update_where p f same rows)

  -- What holds of every row's key holds of each key that is listed.
  pub All-elem {κ} :
      (Q : ℕ → Type κ) (k : ℕ) (rows : List R)
      → All (λ r. Q (key r)) rows
      → elem k (map key rows) ≡ true
      → Q k
  unfolding elem
  All-elem Q k [] h e = absurd (ground arith)
  All-elem Q k (r ∷ rows) h e = elim (Bool-cases (key r == k)) [
    | inl here ↦ subst Q ((nat_eq.beq_iff (key r) k).0 here) h.0
    | inr later ↦ All-elem Q k rows h.1 (ground arith)
  ]

  All-key-ne :
      (k : ℕ) (rows : List R) → elem k (map key rows) ≡ false → All (λ r. (k == key r) ≡ false) rows
  unfolding elem
  All-key-ne k [] h = tt
  All-key-ne k (r ∷ rows) h = (ground arith, All-key-ne k rows (ground arith))

  -- With distinct keys every row is found under its own key.
  pub find_self :
      (rows : List R) → IsDistinct (map key rows) → All (λ r. find key (key r) rows ≡ some r) rows
  unfolding find
  find_self [] d = tt
  find_self (x ∷ rows) d = (
    ground arith,
    All-map (λ r. (find key (key r) rows ≡ some r) × ((key x == key r) ≡ false)) (λ r h. rw h.1 h.0)
        rows
        (All-zip (λ r. find key (key r) rows ≡ some r) (λ r. (key x == key r) ≡ false) rows
          (find_self rows d.1) (All-key-ne (key x) rows d.0)),
  )

  pub elem-keys-filter :
      (p : R → Bool) (k : ℕ) (rows : List R)
      → elem k (map key rows) ≡ false
      → elem k (map key (filter p rows)) ≡ false
  unfolding elem filter
  elem-keys-filter p k [] h = refl
  elem-keys-filter p k (r ∷ rows) h = ground (arith, elem-keys-filter p k rows)

  pub IsDistinct-filter :
      (p : R → Bool) (rows : List R)
      → IsDistinct (map key rows)
      → IsDistinct (map key (filter p rows))
  unfolding filter
  IsDistinct-filter p [] d = tt
  IsDistinct-filter p (r ∷ rows) d = elim (Bool-cases (p r)) [
    | inl e ↦ rw e (elem-keys-filter p (key r) rows d.0, IsDistinct-filter p rows d.1)
    | inr e ↦ rw e (IsDistinct-filter p rows d.1)
  ]

  pub find_absent : (k : ℕ) (rows : List R) → elem k (map key rows) ≡ false → find key k rows ≡ none
  unfolding elem find
  find_absent k [] h = refl
  find_absent k (r ∷ rows) h = ground (arith, find_absent k rows)

  pub find_key : (k : ℕ) (rows : List R) (r : R) → find key k rows ≡ some r → key r ≡ k
  unfolding find
  find_key k [] r h = absurd (ground arith)
  find_key k (x ∷ rows) r h = ground (arith, find_key k rows r)

  pub find-filter :
      (p : R → Bool) (k : ℕ) (rows : List R)
      → IsDistinct (map key rows)
      → find key k (filter p rows) ≡ keep_if p (find key k rows)
  unfolding find filter
  find-filter p k [] d = refl
  find-filter p k (r ∷ rows) d = elim (Bool-cases (key r == k)) [
    | inl here ↦
        let e = (nat_eq.beq_iff (key r) k).0 here in
        ground (arith, find_absent k (filter p rows), elem-keys-filter p (key r) rows)
    | inr later ↦ ground (arith, find-filter p k rows)
  ]

  pub elem-keys_above :
      (n : ℕ) (rows : List R) → All (λ r. key r < n) rows → elem n (map key rows) ≡ false
  unfolding elem
  elem-keys_above n [] h = refl
  elem-keys_above n (r ∷ rows) h = ground (arith, elem-keys_above n rows)

  pub find-append :
      (k : ℕ) (rows : List R) (r : R)
      → find key k (rows ++ r ∷ []) ≡ (
          if is_none (find key k rows)
          then (if key r == k then some r else none)
          else find key k rows)
  unfolding find
  find-append k [] r = refl
  find-append k (x ∷ rows) r = ground (arith, find-append k rows r)

  -- UPDATE … WHERE key IN ids
  pub find-update_ids :
      (ids : List ℕ) (f : R → R)
      → ((r : R) → key (f r) ≡ key r)
      → (k : ℕ) (rows : List R)
      → find key k (update_where (λ r. elem (key r) ids) f rows)
        ≡ (if elem k ids then Option.map f (find key k rows) else find key k rows)
  unfolding find update_where
  find-update_ids ids f same k [] = ground arith
  find-update_ids ids f same k (r ∷ rows) = elim (Bool-cases (key r == k)) [
    | inl here ↦ let e = (nat_eq.beq_iff (key r) k).0 here in rw (← e) (ground (arith, same r))
    | inr later ↦ ground (arith, same r, find-update_ids ids f same k rows)
  ]

  pub elem-keys_of_find :
      (p : R → Bool) (k : ℕ) (rows : List R) (r : R)
      → find key k rows ≡ some r
      → p r ≡ true
      → elem k (map key (filter p rows)) ≡ true
  unfolding find elem filter
  elem-keys_of_find p k [] r h e = absurd (ground arith)
  elem-keys_of_find p k (x ∷ rows) r h e = elim (Bool-cases (key x == k)) [
    | inl here ↦
        let same : x ≡ r = ground arith in rw (subst (λ a. p a ≡ true) (sym same) e) (ground arith)
    | inr later ↦ ground (arith, elem-keys_of_find p k rows r)
  ]

module _ {ℓ κ} {A : Type ℓ} {B : Type κ} where
  pub All_of_map {μ} :
      (P : B → Type μ) (f : A → B) (xs : List A) → All P (map f xs) → All (λ x. P (f x)) xs
  All_of_map P f [] h = tt
  All_of_map P f (x ∷ xs) h = (h.0, All_of_map P f xs h.1)
