-- ===== src/Health/Rows.antt =====
-- What recording a result does to the row of a scope.
use trouveur.Prelude.{
  update_where, ◌++◌, ◌==◌, ◌&&◌, ◌≡◌, refl, ◌∙◌, ap, Bool, true, false, Option, some, none, List,
  [], ◌∷◌, String, arith, nat_eq, string_eq, list_eq, beq_same, any, first, first-passes,
  first-update_where, first-append, first_of_any, Bool-cases, inl, inr,
}
use trouveur.Db.{Text, Tx}
use trouveur.Sources.{ScopeResult}
use trouveur.Health.{Health, new_health, merge_health, is_scope, record_result, health_at}

first_missing : (p : Health → Bool) (hs : List Health) → any p hs ≡ false → first p hs ≡ none
unfolding first any
first_missing p [] h = refl
first_missing p (x ∷ xs) h = ground (arith, first_missing p xs)

pub both_true : (a b : Bool) → (a && b) ≡ true → (a ≡ true) × (b ≡ true)
both_true a b h = (ground (arith, h), ground (arith, h))

module _ (p : Health → Bool) where
  first-update_other :
      (q : Health → Bool) (f : Health → Health)
      → ((h : Health) → p (f h) ≡ p h)
      → ((h : Health) → q h ≡ true → p h ≡ false)
      → (hs : List Health) → first p (update_where q f hs) ≡ first p hs
  unfolding first update_where
  first-update_other q f keeps apart [] = refl
  first-update_other q f keeps apart (h ∷ hs) =
      let rest = first-update_other q f keeps apart hs in
      elim (Bool-cases (q h)) [
        | inl hit ↦ rw (hit, keeps h, apart h hit) rest
        | inr miss ↦ rw (miss, rest) refl
      ]

  first-append_other :
      (hs : List Health) (h : Health) → p h ≡ false → first p (hs ++ h ∷ []) ≡ first p hs
  unfolding first
  first-append_other [] h miss = rw miss refl
  first-append_other (x ∷ hs) h miss = rw (first-append_other hs h miss) refl

unfoldable pub settled : Tx → String → ScopeResult → Option Health → Health
settled t source r none = new_health t source r
settled t source r (some h) = merge_health t r h

pub health_at-record_result :
    (t : Tx) (source : String) (r : ScopeResult) (table : List Health)
    → health_at source r.scope (record_result t source r table)
      ≡ some (settled t source r (health_at source r.scope table))
unfolding record_result settled new_health merge_health
health_at-record_result t source r table =
    let p = is_scope source r.scope in
    elim (Bool-cases (any p table)) [
      | inl known ↦
          let (h, found) = first_of_any p table known in
          rw
            (
              known,
              first-update_where p p (merge_health t r) (λ h. refl) table,
              found,
              first-passes p table h found,
            )
            refl
      | inr new ↦
          rw (new, first-append, new, first_missing p table new, beq_same source, beq_same r.scope)
            refl
    ]

-- The row of another scope, or of another source, does not move.
pub health_at-other :
    (t : Tx) (source : String) (scope : Text) (other : String) (r : ScopeResult)
    (table : List Health)
    → (other == source && r.scope == scope) ≡ false
    → health_at source scope (record_result t other r table) ≡ health_at source scope table
unfolding record_result new_health merge_health
health_at-other t source scope other r table apart =
    elim (Bool-cases (any (is_scope other r.scope) table)) [
      | inl known ↦ rw known (
          first-update_other (is_scope source scope) (is_scope other r.scope) (merge_health t r)
            (λ h. refl)
            (λ h is_other.
              let (s, p) = both_true (h.source == other) (h.scope == r.scope) is_other in
              let same_source = (string_eq.beq_iff h.source other).0 s in
              let same_scope = (list_eq.beq_iff h.scope r.scope).0 p in
              ap (λ x. x == source && h.scope == scope) same_source
              ∙ ap (λ x. other == source && x == scope) same_scope
              ∙ apart)
            table)
      | inr new ↦ rw new (first-append_other (is_scope source scope) table _ apart)
    ]
