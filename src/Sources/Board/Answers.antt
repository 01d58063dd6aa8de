-- ===== src/Sources/Board/Answers.antt =====
-- What the outcome of a board sweep says of the boards: which were answered in full, which were
-- asked at all, and what was stored of them.
use trouveur.Prelude.{
  ℕ, ◌≡◌, refl, sym, ap, ◌∙◌, Option, List, [], ◌∷◌, ◌++◌, arith, length, concat, concat-chunks,
  chunks,
}
use trouveur.Db.{Text}
use trouveur.Sources.{ok, bind_returned}
use trouveur.Sources.Board.{
  batch, Batches, Adapter, documents_of, check_status, sink_batches, sweep_one,
}

module _ {ℓ} {Response Payload Row : Type ℓ} (a : Adapter Response Payload Row) where
  -- A board answered with status 200, and its body holds the rows.
  pub record IsAnswered (scope : Text) (rows : List Row) : Type ℓ where
    pub response : Response
    pub payload : Payload
    pub got : a.get scope ≡ ok response
    pub status : a.status_code response ≡ 200
    pub decoded : a.decode response ≡ ok payload
    pub extracted : a.extract payload ≡ ok rows

  documents_of-append :
      (scope : Text) (xs ys : List Row)
      → documents_of a scope (xs ++ ys) ≡ documents_of a scope xs ++ documents_of a scope ys
  unfolding documents_of
  documents_of-append scope [] ys = refl
  documents_of-append scope (x ∷ xs) ys = ground (arith, documents_of-append scope xs ys)

  concat-sink_batches :
      (scope : Text) (xss : List (List Row))
      → concat (sink_batches a scope xss) ≡ documents_of a scope (concat xss)
  unfolding sink_batches concat documents_of
  concat-sink_batches scope [] = refl
  concat-sink_batches scope (xs ∷ xss) =
      ground (arith, documents_of-append scope xs (concat xss), concat-sink_batches scope xss)

  check_status_passed :
      (scope : Text) (r r' : Response)
      → check_status a scope r ≡ ok r'
      → (r' ≡ r) × (a.status_code r ≡ 200)
  unfolding check_status
  check_status_passed scope r r' h = (ground arith, ground arith)

  -- A board whose sweep returns was answered, and all its identified rows are handed to the sink.
  pub sweep_one-IsAnswered :
      (scope : Text) (sunk : Batches Row) (seen : ℕ) (expected : Option ℕ)
      → sweep_one a scope ≡ ok (sunk, seen, expected)
      → (rows : List Row) × IsAnswered scope rows
        × (concat sunk ≡ documents_of a scope rows)
        × (seen ≡ length (concat sunk))
  unfolding sweep_one
  sweep_one-IsAnswered scope sunk seen expected h =
      let (response, got, h₁) = bind_returned (a.get scope) _ h in
      let (response', checked, h₂) = bind_returned (check_status a scope response) _ h₁ in
      let (payload, decoded, h₃) = bind_returned (a.decode response') _ h₂ in
      let (rows, extracted, h₄) = bind_returned (a.extract payload) _ h₃ in
      let (same, status) = check_status_passed scope response response' checked in
      let batches = sink_batches a scope (chunks batch rows) in
      let stored : concat batches ≡ documents_of a scope rows =
        concat-sink_batches scope (chunks batch rows)
        ∙ ap (documents_of a scope) (concat-chunks 199 rows) in
      let whole : batches ≡ sunk = ground arith in
      let counted : length (concat batches) ≡ seen = ground arith in
      (
        rows,
        record {
          response = response;
          payload = payload;
          got = got;
          status = status;
          decoded = ap a.decode (sym same) ∙ decoded;
          extracted = extracted;
        },
        ap concat (sym whole) ∙ stored,
        sym counted ∙ ap (λ b. length (concat b)) whole,
      )
