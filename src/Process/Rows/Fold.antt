-- ===== src/Process/Rows/Fold.antt =====
-- The rows of a table, one after the other: what the loop computes.
use go_pass.Base.{
  ℕ, zero, suc, ◌+◌, ◌*◌, ◌%◌, ◌≤◌, ◌<◌, ◌≡◌, refl, ◌∙◌, Option, some, true, false, inl, inr, arith,
  ltb, Bool-cases, if◌then◌else◌, Bytes, List, [], ◌∷◌, length, length-drop, take, drop, ◌>>=◌,
  slice_to, slice_to-le, drop-drop, >>=-ext,
}
use native.Mathlib.Nat.{suc-mul}
use go_pass.Process.Rows.{word, row_loop}

-- At most `left` whole rows from the front.
abbrev pub chunks : ℕ → ℕ → Bytes → List Bytes
chunks row_size zero rest = []
chunks row_size (suc left) rest =
    if ltb (length rest) row_size
    then []
    else take row_size rest ∷ chunks row_size left (drop row_size rest)

abbrev pub fold {ℓ} : {S : Type ℓ} → (S → Bytes → Option S) → S → List Bytes → Option S
fold handle s [] = some s
fold handle s (row ∷ rows) = handle s row >>= λ s'. fold handle s' rows

module _ {ℓ} {S : Type ℓ} (row_size : ℕ) (handle : S → Bytes → Option S) (buf : Bytes)
    (small : length buf + row_size < word) where
  row_loop-step :
      (left n off : ℕ) (s : S)
      → 4 + n * row_size ≡ off
      → off ≤ length buf
      → row_loop row_size handle buf (suc left) n s ≡ (
          if ltb (length buf) (off + row_size)
          then some s
          else (slice_to buf off (off + row_size) >>= λ row.
              handle s row >>= λ s'. row_loop row_size handle buf left (n + 1) s'))
  unfolding row_loop
  row_loop-step left n off s at h =
      let o : off % word ≡ off = omega arith in
      let e : (off + row_size) % word ≡ off + row_size = omega arith in
      let l : length buf % word ≡ length buf = omega arith in rw (at, o, e, l) refl

  -- The loop takes the rows in order, as many as the count says and the table holds.
  pub row_loop-fold :
      (left n off : ℕ) (s : S)
      → 4 + n * row_size ≡ off
      → off ≤ length buf
      → row_loop row_size handle buf left n s ≡ fold handle s (chunks row_size left (drop off buf))
  row_loop-fold zero n off s at h = unfold row_loop in refl
  row_loop-fold (suc left) n off s at h = elim (Bool-cases (ltb (length buf) (off + row_size))) [
    | inl over ↦
        let short : ltb (length (drop off buf)) row_size ≡ true =
          ground (arith, length-drop off buf) in
        row_loop-step left n off s at h ∙ rw (over, short) refl
    | inr within ↦
        let whole : ltb (length (drop off buf)) row_size ≡ false =
          ground (arith, length-drop off buf) in
        let fits : off + row_size ≤ length buf = ground arith in
        row_loop-step left n off s at h
        ∙ rw (within, whole, slice_to-le buf off row_size fits, drop-drop off row_size buf)
            (>>=-ext (handle s (take row_size (drop off buf))) _ _ λ s'.
              row_loop-fold left (n + 1) (off + row_size) s' (omega (arith, suc-mul n row_size))
                fits)
  ]
