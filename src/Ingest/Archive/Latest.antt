-- ===== src/Ingest/Archive/Latest.antt =====
-- What the archive answers for a document that was just stored.
use trouveur.Prelude.{
  ℕ, ◌≤◌, ◌≡◌, refl, sym, ◌∙◌, subst, Bool, true, false, not, ◌&&◌, some, none, List, [], ◌∷◌,
  arith, ltb, nat_eq, string_eq, list_eq, beq_same, beq_sym, beq_meets, any, any-append,
  any_updated, any_turned, filter, All, All-map, Bool-cases, Option-cases, inl, inr,
}
use trouveur.Ingest.Archive.{
  Archive, Archived, RawDocument, DocumentKind, same_kind, same_document, refetched, archive_one,
  archive_each, archive_documents, repeats_document, newest, is_of, latest_document,
}

same_kind_self : (k : DocumentKind) → same_kind k k ≡ true
same_kind_self DocumentKind.listing = refl
same_kind_self DocumentKind.detail = refl

same_kind_meets :
    (a b c : DocumentKind) → same_kind a c ≡ true → same_kind b c ≡ true → same_kind a b ≡ true
same_kind_meets DocumentKind.listing DocumentKind.listing c h k = refl
same_kind_meets DocumentKind.listing DocumentKind.detail DocumentKind.listing h k =
    ground (arith, h, k)
same_kind_meets DocumentKind.listing DocumentKind.detail DocumentKind.detail h k =
    ground (arith, h, k)
same_kind_meets DocumentKind.detail DocumentKind.detail c h k = refl
same_kind_meets DocumentKind.detail DocumentKind.listing DocumentKind.listing h k =
    ground (arith, h, k)
same_kind_meets DocumentKind.detail DocumentKind.listing DocumentKind.detail h k =
    ground (arith, h, k)

same_kind_sym : (a b : DocumentKind) → same_kind a b ≡ true → same_kind b a ≡ true
same_kind_sym DocumentKind.listing DocumentKind.listing h = refl
same_kind_sym DocumentKind.listing DocumentKind.detail h = h
same_kind_sym DocumentKind.detail DocumentKind.listing h = h
same_kind_sym DocumentKind.detail DocumentKind.detail h = refl

module _ {ℓ} {Payload : Type ℓ} where
  -- The row holds the document, as fetched at its time or later.
  abbrev is_kept : RawDocument Payload → Archived Payload → Bool
  is_kept d a = same_document d a.document && not (ltb (a.document).fetched_at d.fetched_at)

  abbrev pub has_document : RawDocument Payload → Archive Payload → Bool
  has_document d ar = any (is_kept d) ar.rows

  same_document_self : (d : RawDocument Payload) → same_document d d ≡ true
  same_document_self d =
      rw
        (
          beq_same d.source,
          beq_same d.external_id,
          same_kind_self d.kind,
          beq_same d.payload_sha256,
        )
        refl

  same_document_meets :
      (d e a : RawDocument Payload)
      → same_document d a ≡ true
      → same_document e a ≡ true
      → same_document d e ≡ true
  same_document_meets d e a h k = ground (
    arith,
    h,
    k,
    same_kind_meets d.kind e.kind a.kind,
    beq_meets d.source e.source a.source,
    beq_meets d.external_id e.external_id a.external_id,
    beq_meets d.payload_sha256 e.payload_sha256 a.payload_sha256,
  )

  -- A document found by its kind is newest among its own, or another is at least as new.
  newest_found :
      (p : Archived Payload → Bool) (time : ℕ) (rows : List (Archived Payload))
      → any (λ a. p a && not (ltb (a.document).fetched_at time)) rows ≡ true
      → (a : Archived Payload) × (newest (filter p rows) ≡ some a)
        × (time ≤ (a.document).fetched_at)
  unfolding any filter newest
  newest_found p time [] h = absurd (ground (arith, h))
  newest_found p time (a ∷ rows) h =
      let earlier : (b : Archived Payload)
          → newest (filter p rows) ≡ some b
          → any (λ a. p a && not (ltb (a.document).fetched_at time)) rows ≡ true
          → time ≤ (b.document).fetched_at =
        λ b e later.
          let found = newest_found p time rows later in
          let same : some found.0 ≡ some b = sym found.1 ∙ e in ground (arith, same, found.2) in
      elim (Bool-cases (p a)) [
        | inr out ↦ rw out (newest_found p time rows (ground (arith, h, out)))
        | inl own ↦ elim (Option-cases (newest (filter p rows))) [
          | inl e ↦
              rw (own, e)
                (
                  a,
                  refl,
                  elim (Bool-cases (ltb (a.document).fetched_at time)) [
                    | inr late ↦ ground (arith, late)
                    | inl early ↦
                        let found = newest_found p time rows (ground (arith, h, early)) in
                        absurd (ground (arith, found.1, e))
                  ],
                )
          | inr (b, e) ↦ elim (Bool-cases (ltb (a.document).fetched_at (b.document).fetched_at)) [
            | inl before ↦ rw (own, e, before) (b, refl, ground (arith, h, before, earlier b e))
            | inr after ↦ rw (own, e, after) (a, refl, ground (arith, h, after, earlier b e))
          ]
        ]
      ]

  archive_one_keeps :
      (d e : RawDocument Payload) (ar : Archive Payload)
      → same_document e d ≡ false
      → has_document e ar ≡ true
      → has_document e (archive_one d ar) ≡ true
  unfolding archive_one
  archive_one_keeps d e ar other h =
      elim (Bool-cases (any (λ a. same_document d a.document) ar.rows)) [
        | inl old ↦ rw old (
            any_updated (is_kept e) _ (refetched d)
              (λ a kept here.
                absurd (ground (arith, same_document_meets e d a.document, kept, here, other)))
              ar.rows h)
        | inr new ↦ rw (new, any-append, h) refl
      ]

  archive_one_has :
      (d : RawDocument Payload) (ar : Archive Payload) → has_document d (archive_one d ar) ≡ true
  unfolding archive_one any
  archive_one_has d ar = elim (Bool-cases (any (λ a. same_document d a.document) ar.rows)) [
    | inl old ↦
        rw old (any_turned (is_kept d) _ (refetched d) (λ a here. ground (arith, here)) ar.rows old)
    | inr new ↦ rw (new, any-append, same_document_self d) (ground arith)
  ]

  archive_each_keeps :
      (e : RawDocument Payload) (documents : List (RawDocument Payload)) (ar : Archive Payload)
      → any (same_document e) documents ≡ false
      → has_document e ar ≡ true
      → has_document e (archive_each documents ar) ≡ true
  unfolding archive_each any
  archive_each_keeps e [] ar other h = h
  archive_each_keeps e (d ∷ documents) ar other h =
      archive_each_keeps e documents (archive_one d ar) (ground (arith, other))
        (archive_one_keeps d e ar (ground (arith, other)) h)

  archive_each_has :
      (documents : List (RawDocument Payload)) (ar : Archive Payload)
      → repeats_document documents ≡ false
      → All (λ d. has_document d (archive_each documents ar) ≡ true) documents
  unfolding archive_each repeats_document
  archive_each_has [] ar once = tt
  archive_each_has (d ∷ documents) ar once = (
    archive_each_keeps d documents (archive_one d ar) (ground (arith, once)) (archive_one_has d ar),
    archive_each_has documents (archive_one d ar) (ground (arith, once)),
  )

  kept-is_of :
      (d : RawDocument Payload) (rows : List (Archived Payload))
      → any (is_kept d) rows ≡ true
      → any
          (λ a.
            is_of d.source d.kind d.external_id a && not (ltb (a.document).fetched_at d.fetched_at))
          rows
        ≡ true
  unfolding any
  kept-is_of d [] h = h
  kept-is_of d (a ∷ rows) h = ground (
    arith,
    h,
    kept-is_of d rows,
    beq_sym d.source (a.document).source,
    beq_sym d.external_id (a.document).external_id,
    same_kind_sym d.kind (a.document).kind,
  )

  -- The listing or detail that the archive answers for a document is as new as it.
  abbrev pub is_answered : Archive Payload → RawDocument Payload → Bool
  is_answered ar d = elim (latest_document d.source d.kind d.external_id ar) [
    | none ↦ false
    | some a ↦ not (ltb (a.document).fetched_at d.fetched_at)
  ]

  has_document-latest :
      (d : RawDocument Payload) (ar : Archive Payload)
      → has_document d ar ≡ true
      → is_answered ar d ≡ true
  unfolding latest_document
  has_document-latest d ar h =
      let found =
        newest_found (is_of d.source d.kind d.external_id) d.fetched_at ar.rows
          (kept-is_of d ar.rows h) in
      rw (found.1, is_answered) (ground (arith, found.2))

  pub archive_documents_answered :
      (documents : List (RawDocument Payload)) (ar ar' : Archive Payload)
      → archive_documents documents ar ≡ some ar'
      → All (λ d. is_answered ar' d ≡ true) documents
  unfolding archive_documents
  archive_documents_answered documents ar ar' h = elim (Bool-cases (repeats_document documents)) [
    | inl twice ↦ absurd (ground (arith, h, twice))
    | inr once ↦
        let same : archive_each documents ar ≡ ar' = ground (arith, h, once) in
        subst (λ r. All (λ d. is_answered r d ≡ true) documents) same
          (All-map (λ d. has_document d (archive_each documents ar) ≡ true)
            (λ d. has_document-latest d (archive_each documents ar)) documents
            (archive_each_has documents ar once))
  ]
