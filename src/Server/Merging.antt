-- ===== src/Server/Merging.antt =====
-- Streaming messages back in pieces, for any kind of message that is a list of parts.
use otelview_postgres.Common.{
  ℕ, ◌+◌, ◌-◌, ◌≡◌, refl, sym, ap, ◌∙◌, subst, List, [], ◌∷◌, ◌++◌, map, All, Result, ok, arith,
  append_assoc, append-nil, try_fold, length, length-map, Bytes,
}
use otelview_postgres.Common as Common
use otelview_postgres.Common.Chunks.{chunks, concat, concat-chunks, chunks-map}
use otelview_postgres.Codec.{Codec, Survives}
use otelview_postgres.Server.{reply, map_err, internal, chunk_size, stream_chunks}

module _ {ℓ κ} {A : Type ℓ} (P : A → Type κ) where
  All-front : (xs ys : List A) → All P (xs ++ ys) → All P xs
  All-front [] ys h = tt
  All-front (x ∷ xs) ys h = (h.0, All-front xs ys h.1)

  All-back : (xs ys : List A) → All P (xs ++ ys) → All P ys
  All-back [] ys h = h
  All-back (x ∷ xs) ys h = All-back xs ys h.1

-- Messages `M` made of a list of parts `R`.
module _ {M R : Type 0} (parts : M → List R) (of : List R → M) (codec : Codec M) where
  abbrev pub all_parts : List M → List R
  all_parts ms = concat (map parts ms)

  abbrev pub merge_next : M → Bytes → Result M
  merge_next chunk payload =
      Common.◌>>=◌ (codec.decode payload) λ m. ok (of (parts chunk ++ parts m))

  abbrev pub merge_all : List Bytes → Result M
  merge_all payloads = try_fold merge_next (of []) payloads

  module _ (parts-of : (rs : List R) → parts (of rs) ≡ rs) where
    merge-from :
        (front : List R) (ms : List M)
        → All (Survives codec) ms
        → try_fold merge_next (of front) (map codec.encode ms) ≡ ok (of (front ++ all_parts ms))
    merge-from front [] h = rw append-nil
    merge-from front (m ∷ ms) h =
        rw (h.0, parts-of front, merge-from (front ++ parts m) ms h.1, append_assoc)

    pieces-merged :
        (pieces : List (List M))
        → All (Survives codec) (concat pieces)
        → map (λ piece. map_err internal (merge_all piece)) (map (map codec.encode) pieces)
          ≡ map reply (map (λ ms. of (all_parts ms)) pieces)
    pieces-merged [] h = refl
    pieces-merged (ms ∷ pieces) h = rw (
      merge-from [] ms (All-front (Survives codec) ms (concat pieces) h),
      pieces-merged pieces (All-back (Survives codec) ms (concat pieces) h),
    )

    all_parts-append : (ms ns : List M) → all_parts (ms ++ ns) ≡ all_parts ms ++ all_parts ns
    all_parts-append [] ns = refl
    all_parts-append (m ∷ ms) ns =
        rw (all_parts-append ms ns) (sym (append_assoc (parts m) (all_parts ms) (all_parts ns)))

    all_parts-pieces :
        (pieces : List (List M))
        → all_parts (map (λ ms. of (all_parts ms)) pieces) ≡ all_parts (concat pieces)
    all_parts-pieces [] = refl
    all_parts-pieces (ms ∷ pieces) =
        rw (parts-of (all_parts ms), all_parts-pieces pieces)
          (sym (all_parts-append ms (concat pieces)))

    pub stream_parts :
        (messages : List M)
        → All (Survives codec) messages
        → (chunks' : List M) × (stream_chunks (map codec.encode messages) merge_all
            ≡ map reply chunks')
          × (all_parts chunks' ≡ all_parts messages)
          × (length chunks' ≡ length (chunks 256 messages))
    unfolding stream_chunks
    stream_parts messages h =
        let pieces : List (List M) = chunks chunk_size messages in
        let whole : concat pieces ≡ messages = concat-chunks chunk_size messages (omega arith) in
        (
          map (λ ms. of (all_parts ms)) pieces,
          ap (map (λ piece. map_err internal (merge_all piece)))
                (chunks-map codec.encode chunk_size messages)
              ∙ pieces-merged pieces (subst (All (Survives codec)) (sym whole) h),
          all_parts-pieces pieces ∙ ap all_parts whole,
          length-map (λ ms. of (all_parts ms)) pieces,
        )
