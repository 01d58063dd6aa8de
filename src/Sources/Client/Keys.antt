-- ===== src/Sources/Client/Keys.antt =====
-- Which hosts share a politeness budget.
use trouveur.Prelude.{
  ℕ, ◌≤◌, ◌≡◌, refl, true, false, List, [], ◌∷◌, ◌++◌, arith, leb, ◌==◌, nat_eq, list_eq, beq_same,
  length, length-append, filter, filter-append, elem, Bool-cases, inl, inr, if◌then◌else◌,
}
use trouveur.Db.{Text}
use trouveur.Sources.Client.{
  begin_with, split_on, dot, is_label, labels_of, domain_of, budget_per_host, host_of, throttle_key,
}

begin_with_again :
    (x y : ℕ) (labels more : List Text)
    → begin_with x (begin_with y labels ++ more) ≡ begin_with x (begin_with y labels) ++ more
begin_with_again x y [] more = refl
begin_with_again x y (label ∷ labels) more = refl

begin_with-split_on :
    (c x : ℕ) (text : Text) (more : List Text)
    → begin_with x (split_on c text ++ more) ≡ begin_with x (split_on c text) ++ more
unfolding split_on
begin_with-split_on c x [] more = refl
begin_with-split_on c x (y ∷ text) more = elim (Bool-cases (y == c)) [
  | inl cut ↦ rw cut refl
  | inr kept ↦ rw kept (begin_with_again x y (split_on c text) more)
]

split_on-append :
    (c : ℕ) (text rest : Text) → split_on c (text ++ c ∷ rest) ≡ split_on c text ++ split_on c rest
unfolding split_on
split_on-append c [] rest = rw (beq_same c) refl
split_on-append c (x ∷ text) rest = elim (Bool-cases (x == c)) [
  | inl cut ↦ rw (cut, split_on-append c text rest) refl
  | inr kept ↦
      rw (kept, split_on-append c text rest) (begin_with-split_on c x text (split_on c rest))
]

split_on_plain : (c : ℕ) (label : Text) → elem c label ≡ false → split_on c label ≡ label ∷ []
unfolding split_on elem
split_on_plain c [] plain = refl
split_on_plain c (x ∷ label) plain = elim (Bool-cases (x == c)) [
  | inl cut ↦ absurd (ground (arith, plain, cut))
  | inr kept ↦ rw (kept, split_on_plain c label (ground (arith, plain, kept))) refl
]

domain_of-append :
    (labels : List Text) (a b : Text) → domain_of (labels ++ a ∷ b ∷ []) ≡ a ++ dot ∷ b
domain_of-append [] a b = refl
domain_of-append (x ∷ []) a b = refl
domain_of-append (x ∷ y ∷ []) a b = refl
domain_of-append (x ∷ y ∷ z ∷ labels) a b = domain_of-append (y ∷ z ∷ labels) a b

module _ (lower : Text → Text) where
  labels_of_domain :
      (prefix a b : Text)
      → is_label a ≡ true
      → is_label b ≡ true
      → elem dot a ≡ false
      → elem dot b ≡ false
      → labels_of (prefix ++ dot ∷ (a ++ dot ∷ b)) ≡ labels_of prefix ++ a ∷ b ∷ []
  unfolding filter
  labels_of_domain prefix a b full_a full_b plain_a plain_b =
      rw
        (
          split_on-append dot prefix (a ++ dot ∷ b),
          split_on-append dot a b,
          split_on_plain dot a plain_a,
          split_on_plain dot b plain_b,
          filter-append,
          full_a,
          full_b,
        )
        refl

  -- The key of a host that has a label before the two last ones is those two with a dot between
  -- them, whatever stands before them, unless each host of that domain has a budget of its own:
  -- then it is the host.
  pub throttle_key_shared :
      (netloc prefix a b : Text)
      → host_of lower netloc ≡ prefix ++ dot ∷ (a ++ dot ∷ b)
      → 1 ≤ length (labels_of prefix)
      → is_label a ≡ true
      → is_label b ≡ true
      → elem dot a ≡ false
      → elem dot b ≡ false
      → throttle_key lower netloc ≡ (
          if elem (a ++ dot ∷ b) budget_per_host
          then prefix ++ dot ∷ (a ++ dot ∷ b)
          else a ++ dot ∷ b)
  unfolding throttle_key
  throttle_key_shared netloc prefix a b host sub full_a full_b plain_a plain_b =
      let labels = labels_of_domain prefix a b full_a full_b plain_a plain_b in
      let many : leb (length (labels_of prefix ++ a ∷ b ∷ [])) 2 ≡ false =
        ground (arith, sub, length-append (labels_of prefix) (a ∷ b ∷ [])) in
      rw (host, labels, many, domain_of-append (labels_of prefix) a b) refl
