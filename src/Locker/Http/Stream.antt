-- ===== src/Locker/Http/Stream.antt =====
-- server/locker/server.go: requests in a stream that grows.
use medge_net.Prelude.{
  ℕ, zero, suc, ◌+◌, ◌^◌, ◌≡◌, ◌≤◌, refl, ap, false, List, [], ◌∷◌, ◌++◌, Option, none, some, Bytes,
  ltb, leb, length, length-append, take-append_of_le, drop-append_of_le, take, drop, arith, inl,
  inr, Bool-cases, Option-cases,
}
use medge_net.Prelude.Int.{ℤ, pos, negsuc}
use medge_net.Locker.Http.{
  cut_at, end_of_headers, split_crlf, HttpRequest, HttpParse, waiting, parsed, slice_panic,
  request_line, with_body, with_headers, with_lines, parse_block, parse_http_request,
}
use medge_net.Locker.Http.Cut.{cut_at_sound, cut_at_lengths, cut_at-append}

abbrev behind : Bytes → HttpParse → HttpParse
behind more (parsed req rest) = parsed req (rest ++ more)
behind more _ = waiting

still_there :
    (n header_end : ℕ) (input after more : Bytes)
    → length input ≡ header_end + length after
    → ltb (length input) (header_end + n) ≡ false
    → (n ≤ length after) × (ltb (length (input ++ more)) (header_end + n) ≡ false)
still_there n header_end input after more len e = ground (arith, length-append input more)

with_body-append :
    (n : ℤ) (header_end : ℕ) (input after more : Bytes) (build : Bytes → HttpRequest)
    (req : HttpRequest) (rest : Bytes)
    → length input ≡ header_end + length after
    → with_body n header_end input after build ≡ parsed req rest
    → with_body n header_end (input ++ more) (after ++ more) build ≡ parsed req (rest ++ more)
unfolding with_body
with_body-append (negsuc n) header_end input after more build req rest len h = ground arith
with_body-append (pos n) header_end input after more build req rest len h =
    elim (Bool-cases (leb (2 ^ 63) (header_end + n))) [
      | inl e ↦ ground arith
      | inr e ↦ elim (Bool-cases (ltb (length input) (header_end + n))) [
        | inl e' ↦ ground arith
        | inr e' ↦
            let (fits, e'') = still_there n header_end input after more len e' in
            rw (e, e'', take-append_of_le n after more fits, drop-append_of_le n after more fits)
              (ap (behind more) (rw (e, e') at h))
      ]
    ]

module _ (to_lower : Bytes → Bytes) where
  headers-append :
      (r : Option (Bytes × Bytes)) (lines : List Bytes) (input head after more : Bytes)
      (req : HttpRequest) (rest : Bytes)
      → length input ≡ length head + 4 + length after
      → with_headers to_lower input head after lines r ≡ parsed req rest
      → with_headers to_lower (input ++ more) head (after ++ more) lines r
        ≡ parsed req (rest ++ more)
  unfolding with_headers
  headers-append none lines input head after more req rest len h = ground arith
  headers-append (some (method, path)) lines input head after more req rest len h =
      with_body-append _ _ input after more _ req rest len h

  lines-append :
      (lines : List Bytes) (input head after more : Bytes) (req : HttpRequest) (rest : Bytes)
      → length input ≡ length head + 4 + length after
      → with_lines to_lower input head after lines ≡ parsed req rest
      → with_lines to_lower (input ++ more) head (after ++ more) lines ≡ parsed req (rest ++ more)
  unfolding with_lines
  lines-append [] input head after more req rest len h = ground arith
  lines-append (first ∷ lines) input head after more req rest len h =
      headers-append (request_line first) lines input head after more req rest len h

-- A request that has been read stays the same request when more bytes arrive, which stand behind the
-- bytes that it leaves.
pub parse_http_request-append :
    (to_lower : Bytes → Bytes) (input more : Bytes) (req : HttpRequest) (rest : Bytes)
    → parse_http_request to_lower input ≡ parsed req rest
    → parse_http_request to_lower (input ++ more) ≡ parsed req (rest ++ more)
unfolding parse_http_request parse_block
parse_http_request-append to_lower input more req rest h =
    elim (Option-cases (cut_at end_of_headers input)) [
      | inl e ↦ ground arith
      | inr ((head, after), e) ↦ rw (cut_at-append end_of_headers input head after more e) (
          lines-append to_lower (split_crlf head) input head after more req rest
            (cut_at_lengths input head after e) (rw e at h))
    ]

with_body-append_panic :
    (n : ℤ) (header_end : ℕ) (input after more : Bytes) (build : Bytes → HttpRequest)
    → with_body n header_end input after build ≡ slice_panic
    → with_body n header_end (input ++ more) (after ++ more) build ≡ slice_panic
unfolding with_body
with_body-append_panic (negsuc n) header_end input after more build h = refl
with_body-append_panic (pos n) header_end input after more build h = ground arith

module _ (to_lower : Bytes → Bytes) where
  headers-append_panic :
      (r : Option (Bytes × Bytes)) (lines : List Bytes) (input head after more : Bytes)
      → with_headers to_lower input head after lines r ≡ slice_panic
      → with_headers to_lower (input ++ more) head (after ++ more) lines r ≡ slice_panic
  unfolding with_headers
  headers-append_panic none lines input head after more h = ground arith
  headers-append_panic (some (method, path)) lines input head after more h =
      with_body-append_panic _ _ input after more _ h

  lines-append_panic :
      (lines : List Bytes) (input head after more : Bytes)
      → with_lines to_lower input head after lines ≡ slice_panic
      → with_lines to_lower (input ++ more) head (after ++ more) lines ≡ slice_panic
  unfolding with_lines
  lines-append_panic [] input head after more h = ground arith
  lines-append_panic (first ∷ lines) input head after more h =
      headers-append_panic (request_line first) lines input head after more h

-- A request that makes the slice panic does so when more bytes have arrived too.
pub parse_http_request-append_panic :
    (to_lower : Bytes → Bytes) (input more : Bytes)
    → parse_http_request to_lower input ≡ slice_panic
    → parse_http_request to_lower (input ++ more) ≡ slice_panic
unfolding parse_http_request parse_block
parse_http_request-append_panic to_lower input more h =
    elim (Option-cases (cut_at end_of_headers input)) [
      | inl e ↦ ground arith
      | inr ((head, after), e) ↦
          rw (cut_at-append end_of_headers input head after more e)
            (lines-append_panic to_lower (split_crlf head) input head after more (rw e at h))
    ]

take-drop : (n : ℕ) (xs : Bytes) → take n xs ++ drop n xs ≡ xs
take-drop zero xs = refl
take-drop (suc n) [] = refl
take-drop (suc n) (x ∷ xs) = ap (x ∷◌) (take-drop n xs)

-- The body and what is left, side by side.
abbrev tail_bytes : HttpParse → Bytes
tail_bytes (parsed req rest) = req.body ++ rest
tail_bytes _ = []

with_body_bytes :
    (n : ℤ) (header_end : ℕ) (input after : Bytes) (build : Bytes → HttpRequest) (req : HttpRequest)
    (rest : Bytes)
    → ((body : Bytes) → (build body).body ≡ body)
    → with_body n header_end input after build ≡ parsed req rest
    → req.body ++ rest ≡ after
unfolding with_body
with_body_bytes (negsuc n) header_end input after build req rest same h = ground arith
with_body_bytes (pos n) header_end input after build req rest same h =
    elim (Bool-cases (leb (2 ^ 63) (header_end + n))) [
      | inl e ↦ ground arith
      | inr e ↦ elim (Bool-cases (ltb (length input) (header_end + n))) [
        | inl e' ↦ ground arith
        | inr e' ↦ cc (ap tail_bytes (rw (e, e') at h), same (take n after), take-drop n after)
      ]
    ]

module _ (to_lower : Bytes → Bytes) where
  headers_bytes :
      (r : Option (Bytes × Bytes)) (lines : List Bytes) (input head after : Bytes)
      (req : HttpRequest) (rest : Bytes)
      → with_headers to_lower input head after lines r ≡ parsed req rest
      → req.body ++ rest ≡ after
  unfolding with_headers
  headers_bytes none lines input head after req rest h = ground arith
  headers_bytes (some (method, path)) lines input head after req rest h =
      with_body_bytes _ _ input after _ req rest (λ body. refl) h

  lines_bytes :
      (lines : List Bytes) (input head after : Bytes) (req : HttpRequest) (rest : Bytes)
      → with_lines to_lower input head after lines ≡ parsed req rest
      → req.body ++ rest ≡ after
  unfolding with_lines
  lines_bytes [] input head after req rest h = ground arith
  lines_bytes (first ∷ lines) input head after req rest h =
      headers_bytes (request_line first) lines input head after req rest h

-- A request takes its bytes off the front of the stream: the header block, the empty line that ends
-- it, the body, and the rest. None is lost or read twice.
pub parse_http_request_bytes :
    (to_lower : Bytes → Bytes) (input : Bytes) (req : HttpRequest) (rest : Bytes)
    → parse_http_request to_lower input ≡ parsed req rest
    → (head : Bytes) × (input ≡ head ++ (end_of_headers ++ (req.body ++ rest)))
unfolding parse_http_request parse_block
parse_http_request_bytes to_lower input req rest h =
    elim (Option-cases (cut_at end_of_headers input)) [
      | inl e ↦ ground arith
      | inr ((head, after), e) ↦ (
        head,
        rw (lines_bytes to_lower (split_crlf head) input head after req rest (rw e at h))
            (cut_at_sound end_of_headers input head after e),
      )
    ]
