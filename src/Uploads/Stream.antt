-- ===== src/Uploads/Stream.antt =====
-- Which uploads are let through.
use fastapi_auth_api.Base.{
  String, ℕ, zero, suc, ◌+◌, ◌-◌, ◌≤◌, ◌<◌, ◌≡◌, ◌↔◌, ◌⊎◌, refl, true, false, List, [], ◌∷◌, ◌++◌,
  arith, ltb, if◌then◌else◌, length, take, All, inl, inr,
}
use mathlib.Core.List.{append-nil, append_assoc}
use fastapi_auth_api.Http.{Result, ok, err, HttpException}
use fastapi_auth_api.Uploads.{
  Bytes, UploadCategory, scan_chunk_for_viruses, signature_head_size, read_chunks, fits,
  read_and_validate_stream,
}

-- The whole upload.
abbrev pub content : List Bytes → Bytes
content [] = []
content (chunk ∷ later) = chunk ++ content later

abbrev pub size : List Bytes → ℕ
size [] = 0
size (chunk ∷ later) = length chunk + size later

-- Growing a head of `n` bytes keeps it the beginning of what was read.
take-grow :
    (n : ℕ) (seen chunk : Bytes)
    → (if ltb (length (take n seen)) n
        then take n seen ++ take (n - length (take n seen)) chunk
        else take n seen)
      ≡ take n (seen ++ chunk)
take-grow zero seen chunk = ground arith
take-grow (suc n) [] chunk = ground arith
take-grow (suc n) (x ∷ seen) chunk = ground (arith, take-grow n seen chunk)

pub Result-cases :
    {A : Type 0} (r : Result A) → ((a : A) × (r ≡ ok a)) ⊎ ((e : HttpException) × (r ≡ err e))
Result-cases (ok a) = inl (a, refl)
Result-cases (err e) = inr (e, refl)

module _ (str : ℕ → String) (category : UploadCategory) where
  -- Every chunk is free of the signature that the scan knows.
  abbrev pub IsClean : List Bytes → Type 0
  IsClean chunks = All (λ chunk. scan_chunk_for_viruses chunk ≡ true) chunks

  read_chunks_sound :
      (chunks : List Bytes) (total n : ℕ) (seen head : Bytes)
      → read_chunks str category chunks total (take signature_head_size seen) ≡ ok (n, head)
      → total ≤ category.max_size_bytes
      → (n ≡ total + size chunks)
        × (n ≤ category.max_size_bytes)
        × (head ≡ take signature_head_size (seen ++ content chunks))
        × IsClean chunks
  unfolding read_chunks
  read_chunks_sound [] total n seen head h bound =
      (ground arith, ground arith, ground (arith, append-nil seen), tt)
  read_chunks_sound (chunk ∷ later) total n seen head h bound =
      let small : total + length chunk ≤ category.max_size_bytes = ground arith in
      let clean : scan_chunk_for_viruses chunk ≡ true = ground arith in
      let rest : read_chunks str category later (total + length chunk)
            (take signature_head_size (seen ++ chunk))
          ≡ ok (n, head) =
        ground (arith, take-grow signature_head_size seen chunk) in
      let (sum, limit, beginning, all_clean) =
        read_chunks_sound later (total + length chunk) n (seen ++ chunk) head rest small in
      (
        omega (arith, sum),
        limit,
        ground (arith, beginning, append_assoc seen chunk (content later)),
        (clean, all_clean),
      )

  read_chunks_complete :
      (chunks : List Bytes) (total : ℕ) (seen : Bytes)
      → total + size chunks ≤ category.max_size_bytes
      → IsClean chunks
      → read_chunks str category chunks total (take signature_head_size seen)
        ≡ ok (total + size chunks, take signature_head_size (seen ++ content chunks))
  unfolding read_chunks
  read_chunks_complete [] total seen bound clean = ground (arith, append-nil seen)
  read_chunks_complete (chunk ∷ later) total seen bound clean =
      let ih =
        read_chunks_complete later (total + length chunk) (seen ++ chunk) (omega arith) clean.1 in
      let sum : total + length chunk + size later ≡ total + (length chunk + size later) =
        omega arith in
      let small : ltb category.max_size_bytes (total + length chunk) ≡ false = ground arith in
      ground (
        arith,
        clean.0,
        ih,
        sum,
        small,
        take-grow signature_head_size seen chunk,
        append_assoc seen chunk (content later),
      )

  -- An upload, read in any chunks, is let through exactly when it has between one byte and the
  -- limit of its category, no chunk has the signature that the scan knows, and its first 32 bytes
  -- look like its category; the answer is its size.
  pub read_and_validate_stream_iff :
      (chunks : List Bytes) (n : ℕ)
      → (read_and_validate_stream str category chunks ≡ ok n) ↔ (
          (n ≡ size chunks)
          × (0 < n)
          × (n ≤ category.max_size_bytes)
          × IsClean chunks
          × (fits category.signature_check (take signature_head_size (content chunks)) ≡ true))
  unfolding read_and_validate_stream
  read_and_validate_stream_iff chunks n = (sound, λ h. complete h)
    where
      sound :
          read_and_validate_stream str category chunks ≡ ok n
          → (n ≡ size chunks)
            × (0 < n)
            × (n ≤ category.max_size_bytes)
            × IsClean chunks
            × (fits category.signature_check (take signature_head_size (content chunks)) ≡ true)
      sound h = elim (Result-cases (read_chunks str category chunks 0 [])) [
        | inl ((total, head), e) ↦
            let same : total ≡ n = ground arith in
            let (sum, limit, beginning, clean) =
              read_chunks_sound chunks 0 total [] head e (omega arith) in
            (
              omega (arith, sum, same),
              ground (arith, h, e),
              omega (arith, limit, same),
              clean,
              ground (arith, h, e, beginning),
            )
        | inr (x, e) ↦ absurd (ground (arith, h, e))
      ]

      complete :
          ((n ≡ size chunks)
            × (0 < n)
            × (n ≤ category.max_size_bytes)
            × IsClean chunks
            × (fits category.signature_check (take signature_head_size (content chunks)) ≡ true))
          → read_and_validate_stream str category chunks ≡ ok n
      complete (sum, some_bytes, limit, clean, looks) =
          let read = read_chunks_complete chunks 0 [] (omega arith) clean in
          ground (arith, read, sum, some_bytes, looks)
