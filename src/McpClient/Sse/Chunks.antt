-- ===== src/McpClient/Sse/Chunks.antt =====
-- Where the stream is cut into chunks makes no difference.
use universal_agent_protocol.Base.{
  ℕ, ◌+◌, ◌≡◌, refl, ◌≢◌, ◌≤◌, false, none, some, List, [], ◌∷◌, ◌++◌, Text, arith, length,
  length-append, Bool-cases, inl, inr, append_assoc, ◌==◌, ltb, ap, sym, ◌∙◌, map, subst,
}
use universal_agent_protocol.McpClient.Sse.{
  Bytes, Reader, start, read_line, drain, feed, feed_all, read_sse_events, flush,
}

-- All chunks together.
abbrev pub concat : List (List ℕ) → List ℕ
concat [] = []
concat (x ∷ xs) = x ++ concat xs

drain_nil : (r : Reader) → drain [] r ≡ (r, [])
unfolding drain
drain_nil r = refl

drain-append :
    (s t : Text) (r : Reader)
    → drain (s ++ t) r ≡ ((drain t (drain s r).0).0, (drain s r).1 ++ (drain t (drain s r).0).1)
unfolding drain
drain-append [] t r = refl
drain-append (c ∷ s) t r = elim (Bool-cases (c == 10)) [
  | inr inside ↦ rw inside (drain-append s t (record r { buffer = r.buffer ++ c ∷ [] }))
  | inl newline ↦
      let r' = record ((read_line r.buffer r).0) { buffer = [] } in
      rw (newline, drain-append s t r', append_assoc) refl
]

-- The buffer holds no more than was read.
drain-buffer : (s : Text) (r : Reader) → length (drain s r).0.buffer ≤ length r.buffer + length s
unfolding drain
drain-buffer [] r = omega arith
drain-buffer (c ∷ s) r = elim (Bool-cases (c == 10)) [
  | inr inside ↦ rw inside (
      omega (
        arith,
        drain-buffer s (record r { buffer = r.buffer ++ c ∷ [] }),
        length-append r.buffer (c ∷ []),
      ))
  | inl newline ↦
      let r' = record ((read_line r.buffer r).0) { buffer = [] } in
      rw newline (omega (arith, drain-buffer s r'))
]

module _ (decode : Bytes → Text) (limit : ℕ) where
  feed_all-drain :
      (chunks : List Bytes) (r : Reader)
      → length r.buffer + length (concat (map decode chunks)) ≤ limit
      → feed_all decode limit r chunks ≡ some (drain (concat (map decode chunks)) r)
  unfolding feed_all feed
  feed_all-drain [] r h = ap some (sym (drain_nil r))
  feed_all-drain (c ∷ chunks) r h =
      let chunk = decode c in
      let rest = concat (map decode chunks) in
      let fits : ltb limit (length (r.buffer ++ chunk)) ≡ false =
        ground (arith, length-append r.buffer chunk, length-append chunk rest) in
      let ih =
        feed_all-drain chunks (drain chunk r).0
          (omega (arith, drain-buffer chunk r, length-append chunk rest)) in
      ground (arith, drain-append chunk rest r)

  -- No chunk ends within a character: the chunks decode to what their bytes decode to together.
  abbrev pub IsCutBetweenCharacters : List Bytes → Type 0
  IsCutBetweenCharacters xs = concat (map decode xs) ≡ decode (concat xs)

  read_fits :
      (xs : List Bytes)
      → IsCutBetweenCharacters xs
      → length (decode (concat xs)) ≤ limit
      → read_sse_events decode limit xs
        ≡ some
            ((drain (decode (concat xs)) start).1 ++ (flush (drain (decode (concat xs)) start).0).1)
  unfolding read_sse_events start
  read_fits xs cut h =
      let e = feed_all-drain xs start (rw cut (omega arith)) in rw (e, cut, read_sse_events) refl

  -- Two ways to cut the same bytes into chunks give the same events, if neither cuts a character and
  -- the decoded text fits the size limit: the reader then reads both to the end.
  pub read_sse_events-chunks :
      (xs ys : List Bytes)
      → concat xs ≡ concat ys
      → IsCutBetweenCharacters xs
      → IsCutBetweenCharacters ys
      → length (decode (concat xs)) ≤ limit
      → (read_sse_events decode limit xs ≡ read_sse_events decode limit ys)
        × (read_sse_events decode limit xs ≢ none)
  read_sse_events-chunks xs ys same cut cut' h =
      let first = read_fits xs cut h in
      let second = read_fits ys cut' (subst (λ t. length (decode t) ≤ limit) same h) in
      (first ∙ (rw same refl ∙ sym second), λ e. cc first)
