-- ===== src/Runtime/Helpers.antt =====
-- runtime/helpers/slice.go: splitting a slice into chunks.
use multichain_liquidator_bo.Base.{
  ℕ, zero, suc, ◌+◌, ◌-◌, ◌*◌, ◌≤◌, ◌<◌, ◌≡◌, refl, sym, ap, ◌∙◌, Option, none, some, List, [], ◌∷◌,
  ◌++◌, arith, dec_lt, ltb, if◌then◌else◌, length, take, drop, concat, All, take-append-drop,
  length-take, length-drop, take_all, drop_all,
}
use mathlib.Core.List.{append-nil, append_assoc}

-- `if len(slice) < chunkSize { chunkSize = len(slice) }`
cut : ℕ → ℕ → ℕ
cut len chunk_size = if ltb len chunk_size then len else chunk_size

tight_step :
    (n size len : ℕ) → 0 < len → 0 < size → n * size < len - size + size → suc n * size < len + size
tight_step zero size len h k t = omega arith
tight_step (suc n) size len h k t = omega arith

cut_small : (n size : ℕ) → n < size → cut n size ≡ n
unfolding cut
cut_small n size h = ground arith

cut_large : (n size : ℕ) → size ≤ n → cut n size ≡ size
unfolding cut
cut_large n size h = ground arith

module _ {A : Type 0} where
  -- The `for` loop on fuel, its variables `chunkSize`, `slice` and `chunks`; `none` means that the
  -- fuel ran out. A chunk size is 0 or more: below 0 the source would slice out of range.
  pub chunk_loop : ℕ → ℕ → List A → List (List A) → Option (List (List A))
  unfolding cut
  chunk_loop zero chunk_size slice chunks = none
  chunk_loop (suc f) chunk_size [] chunks = some chunks
  chunk_loop (suc f) chunk_size (x ∷ xs) chunks =
      let size = cut (length (x ∷ xs)) chunk_size in
      chunk_loop f size (drop size (x ∷ xs)) (chunks ++ take size (x ∷ xs) ∷ [])

  -- Each round takes an item at least, so one round more than there are items is enough.
  unfoldable pub chunk_slice : List A → ℕ → Option (List (List A))
  unfolding chunk_loop
  chunk_slice slice chunk_size = chunk_loop (suc (length slice)) chunk_size slice []

  -- What the chunks of a slice are: its items in order, in groups of `size` but for the last.
  pub record IsChunked (size : ℕ) (slice : List A) (chunks : List (List A)) : Type 0 where
    pub joined : concat chunks ≡ slice
    pub sized : All (λ c. (0 < length c) × (length c ≤ size)) chunks
    pub enough : length slice ≤ length chunks * size
    pub tight : length chunks * size < length slice + size

  pub nil-IsChunked : (size : ℕ) → 0 < size → IsChunked size [] []
  nil-IsChunked size h = record {
    joined = refl;
    sized = tt;
    enough = omega arith;
    tight = omega arith;
  }

  -- One more chunk in front of the chunks of what is left.
  pub cons-IsChunked :
      (size : ℕ) (slice : List A) (chunks : List (List A))
      → 0 < length slice
      → 0 < size
      → IsChunked size (drop size slice) chunks
      → IsChunked size slice (take size slice ∷ chunks)
  cons-IsChunked size slice chunks p q h = record {
    joined = ap (take size slice ++◌) h.joined ∙ take-append-drop size slice;
    sized =
        ((omega (arith, length-take size slice), omega (arith, length-take size slice)), h.sized);
    enough = omega (arith, h.enough, length-drop size slice);
    tight =
        tight_step (length chunks) size (length slice) p q (rw (length-drop size slice) at h.tight);
  }

  abbrev Chunks : ℕ → ℕ → List A → List (List A) → Type 0
  Chunks f size slice acc =
      (chunks : List (List A)) × (chunk_loop f size slice acc ≡ some (acc ++ chunks))
      × IsChunked size slice chunks

  chunk_loop_step :
      (f size : ℕ) (x : A) (xs : List A) (acc : List (List A)) (k : ℕ)
      → cut (length (x ∷ xs)) size ≡ k
      → chunk_loop (suc f) size (x ∷ xs) acc
        ≡ chunk_loop f k (drop k (x ∷ xs)) (acc ++ take k (x ∷ xs) ∷ [])
  unfolding chunk_loop
  chunk_loop_step f size x xs acc k e =
      ap (λ (j : ℕ). chunk_loop f j (drop j (x ∷ xs)) (acc ++ take j (x ∷ xs) ∷ [])) e

  stop_after :
      (f k : ℕ) (rest c d : List A) (acc : List (List A))
      → rest ≡ []
      → c ≡ d
      → chunk_loop (suc f) k rest (acc ++ c ∷ []) ≡ some (acc ++ d ∷ [])
  unfolding chunk_loop
  stop_after f k rest c d acc e g = rw (e, g) refl

  -- The round that takes less than a full chunk empties the slice.
  last_chunk :
      (f size : ℕ) (x : A) (xs : List A) (acc : List (List A))
      → 0 < f
      → length (x ∷ xs) < size
      → 0 < size
      → Chunks (suc f) size (x ∷ xs) acc
  last_chunk zero size x xs acc h small p = absurd (omega arith)
  last_chunk (suc f) size x xs acc h small p =
      let slice = x ∷ xs in
      (
        take size slice ∷ [],
        chunk_loop_step (suc f) size x xs acc (length slice) (cut_small (length slice) size small)
            ∙ stop_after (f) (length slice) (drop (length slice) slice) (take (length slice) slice)
                (take size slice) acc (drop_all (length slice) slice (omega arith))
                (take_all (length slice) slice (omega arith)
                  ∙ sym (take_all size slice (omega arith))),
        cons-IsChunked size slice [] (omega arith) p rw (drop_all size slice (omega arith))
            (nil-IsChunked size p),
      )

  chunk_loop-Chunks :
      (f size : ℕ) (slice : List A) (acc : List (List A))
      → length slice < f
      → 0 < size
      → Chunks f size slice acc
  chunk_loop-Chunks zero size slice acc h p = absurd (omega arith)
  chunk_loop-Chunks (suc f) size [] acc h p =
      ([], unfold chunk_loop in ap some (sym (append-nil acc)), nil-IsChunked size p)
  chunk_loop-Chunks (suc f) size (x ∷ xs) acc h p = elim (dec_lt (length (x ∷ xs)) size) [
    | yes small ↦ last_chunk f size x xs acc (omega arith) small p
    | no large ↦
        let slice = x ∷ xs in
        let (chunks, e, c) =
          chunk_loop-Chunks f size (drop size slice) (acc ++ take size slice ∷ [])
            (omega (arith, length-drop size slice)) p in
        (
          take size slice ∷ chunks,
          chunk_loop_step f size x xs acc size (cut_large (length slice) size (omega arith))
              ∙ e
              ∙ ap some (append_assoc acc (take size slice ∷ []) chunks),
          cons-IsChunked size slice chunks (omega arith) p c,
        )
  ]

  -- Splitting by a positive chunk size ends: its chunks joined give the slice back, none is empty
  -- or larger than the chunk size, and there are as many as the length divided by the size, rounded
  -- up.
  pub chunk_slice-IsChunked :
      (slice : List A) (chunk_size : ℕ)
      → 0 < chunk_size
      → (chunks : List (List A)) × (chunk_slice slice chunk_size ≡ some chunks)
        × IsChunked chunk_size slice chunks
  unfolding chunk_slice
  chunk_slice-IsChunked slice chunk_size h =
      chunk_loop-Chunks (suc (length slice)) chunk_size slice [] (omega arith) h

  -- With chunk size 0 the loop appends empty chunks for ever, unless the slice is empty.
  pub chunk_loop_diverges :
      (f : ℕ) (x : A) (xs : List A) (chunks : List (List A)) → chunk_loop f 0 (x ∷ xs) chunks ≡ none
  chunk_loop_diverges zero x xs chunks = unfold chunk_loop in refl
  chunk_loop_diverges (suc f) x xs chunks =
      chunk_loop_step f 0 x xs chunks 0 (cut_large (length (x ∷ xs)) 0 (omega arith))
      ∙ chunk_loop_diverges f x xs (chunks ++ [] ∷ [])
