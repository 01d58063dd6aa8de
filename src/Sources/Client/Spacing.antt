-- ===== src/Sources/Client/Spacing.antt =====
-- The requests to one provider keep their distance.
use trouveur.Prelude.{
  ◌+◌, ◌≤◌, ◌≡◌, refl, ap, sym, ◌∙◌, subst, Bool, true, not, ◌&&◌, List, [], ◌∷◌, ◌++◌, arith, ltb,
  ◌==◌, nat_eq, list_eq, beq_same, Bool-cases, inl, inr,
}
use trouveur.Db.{Text}
use trouveur.Sources.Client.Throttle.{Turn, Clocks, stamp_of, throttle, throttle_each}

-- Every turn's lock is gained after the turn before it under its key has ended.
abbrev pub in_order : List Turn → Clocks → Bool
in_order [] last = true
in_order (turn ∷ turns) last =
    not (ltb turn.now (last turn.key)) && in_order turns (throttle turn last)

stamp_of_late :
    (turn : Turn) (last : Clocks)
    → last turn.key ≤ turn.now
    → last turn.key + turn.delay ≤ stamp_of last turn
unfolding stamp_of
stamp_of_late turn last after = ground (arith, after)

throttle_late :
    (turn : Turn) (last : Clocks) (key : Text)
    → last turn.key ≤ turn.now
    → last key ≤ throttle turn last key
unfolding throttle
throttle_late turn last key after = elim (Bool-cases (key == turn.key)) [
  | inr other ↦ rw other (omega arith)
  | inl same ↦ rw same (
      subst (λ k. last k ≤ stamp_of last turn) (sym ((list_eq.beq_iff key turn.key).0 same))
        (omega (arith, stamp_of_late turn last after)))
]

throttle_each_late :
    (turns : List Turn) (last : Clocks) (key : Text)
    → in_order turns last ≡ true
    → last key ≤ throttle_each turns last key
unfolding throttle_each
throttle_each_late [] last key orderly = omega arith
throttle_each_late (turn ∷ turns) last key orderly = omega (
  arith,
  throttle_late turn last key (ground (arith, orderly)),
  throttle_each_late turns (throttle turn last) key (ground (arith, orderly)),
)

in_order-append :
    (turns : List Turn) (second : Turn) (last : Clocks)
    → in_order (turns ++ second ∷ []) last ≡ true
    → (in_order turns last ≡ true) × (throttle_each turns last second.key ≤ second.now)
unfolding throttle_each
in_order-append [] second last orderly = (refl, ground (arith, orderly))
in_order-append (turn ∷ turns) second last orderly =
    let rest = in_order-append turns second (throttle turn last) (ground (arith, orderly)) in
    (ground (arith, orderly, rest.0), rest.1)

-- Where each turn's lock is gained after the turn before it under its key has ended, of two turns
-- under one key the later ends at least its delay after the earlier, whatever turns stand between
-- them.
pub throttle_spaced :
    (first second : Turn) (between : List Turn) (last : Clocks)
    → second.key ≡ first.key
    → in_order (between ++ second ∷ []) (throttle first last) ≡ true
    → stamp_of last first + second.delay
      ≤ stamp_of (throttle_each between (throttle first last)) second
unfolding throttle
throttle_spaced first second between last same orderly =
    let (kept, after) = in_order-append between second (throttle first last) orderly in
    let clocks = throttle_each between (throttle first last) in
    let stamped : throttle first last second.key ≡ stamp_of last first =
      ap (throttle first last) same ∙ rw (beq_same first.key) refl in
    omega (
      arith,
      stamped,
      throttle_each_late between (throttle first last) second.key kept,
      stamp_of_late second clocks after,
    )
