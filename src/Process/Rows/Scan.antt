-- ===== src/Process/Rows/Scan.antt =====
-- Tables whose rows are decoded and added to a map: what is found under a key afterwards.
use go_pass.Base.{
  ℕ, zero, suc, ◌+◌, ◌≤◌, ◌<◌, ◌≡◌, refl, ap, ◌∙◌, Option, none, some, inl, inr, arith, ite, ltb,
  Bool-cases, Bytes, List, [], ◌∷◌, All, length, length-take_of_le, drop, Returns,
}
use go_pass.Process.Rows.{word, row_loop}
use go_pass.Process.Rows.Fold.{chunks, fold, row_loop-fold}
use go_pass.Process.Resolver.{scan_row}

chunks-length :
    (row_size left : ℕ) (rest : Bytes)
    → All (λ (row : Bytes). length row ≡ row_size) (chunks row_size left rest)
chunks-length row_size zero rest = tt
chunks-length row_size (suc left) rest = elim (Bool-cases (ltb (length rest) row_size)) [
  | inl short ↦ rw short tt
  | inr whole ↦ rw whole (
    length-take_of_le row_size rest (ground arith),
    chunks-length row_size left (drop row_size rest),
  )
]

-- What a row says, a row out of range saying nothing.
abbrev pub meaning : {K : Type 0} → (Bytes → Option (Option (K × ℕ))) → Bytes → Option (K × ℕ)
meaning decode row = elim (decode row) [ none ↦ none | some m ↦ m ]

abbrev pub or_else : {V : Type 0} → Option V → Option V → Option V
or_else none v = v
or_else (some w) v = some w

-- Under a key, the value of the last row that says the key and a value, or else what was there.
abbrev pub last_row :
    {K V : Type 0}
    → Discrete K
    → (Bytes → Option (K × ℕ))
    → (ℕ → Option V)
    → K
    → List Bytes
    → Option V
    → Option V
last_row dec says value j [] before = before
last_row dec says value j (row ∷ rows) before = last_row dec says value j rows (elim (says row) [
  | none ↦ before
  | some (k, pid) ↦ ite (dec k j) (or_else (value pid) before) before
])

module _ {ℓ} {S : Type ℓ} {K V : Type 0} (dec : Discrete K)
    (decode : Bytes → Option (Option (K × ℕ))) (add : S → K → ℕ → S) (row_size : ℕ)
    (total : (row : Bytes) → length row ≡ row_size → Returns (decode row)) (P : S → Type 0)
    (view : S → K → Option V) (value : ℕ → Option V)
    (keeps : (s : S) (k : K) (pid : ℕ) → P s → P (add s k pid))
    (adds : (s : S) (k : K) (pid : ℕ) (j : K)
      → P s
      → view (add s k pid) j ≡ ite (dec k j) (or_else (value pid) (view s j)) (view s j)) where
  -- A scan that ends, with what the rows say under each key.
  pub record Scanned (s : S) (rows : List Bytes) (r : Option S) : Type ℓ where
    pub end : S
    pub result : r ≡ some end
    pub kept : P end
    pub found : (j : K) → view end j ≡ last_row dec (meaning decode) value j rows (view s j)

  cons-Scanned :
      (row : Bytes) (rows : List Bytes) (s : S) (m : Option (K × ℕ))
      → P s
      → decode row ≡ some m
      → ((s' : S) → P s' → Scanned s' rows (fold (scan_row decode add) s' rows))
      → Scanned s (row ∷ rows) (fold (scan_row decode add) s (row ∷ rows))
  unfolding scan_row
  cons-Scanned row rows s none p e rest =
      let r = rest s p in
      record {
        end = r.end;
        result = rw e r.result;
        kept = r.kept;
        found = λ j. r.found j ∙ rw e refl;
      }
  cons-Scanned row rows s (some (k, pid)) p e rest =
      let r = rest (add s k pid) (keeps s k pid p) in
      record {
        end = r.end;
        result = rw e r.result;
        kept = r.kept;
        found = λ j.
            r.found j
            ∙ ap (last_row dec (meaning decode) value j rows) (adds s k pid j p)
            ∙ rw e refl;
      }

  fold-Scanned :
      (rows : List Bytes) (s : S)
      → All (λ (row : Bytes). length row ≡ row_size) rows
      → P s
      → Scanned s rows (fold (scan_row decode add) s rows)
  fold-Scanned [] s sized p = record { end = s; result = refl; kept = p; found = λ j. refl }
  fold-Scanned (row ∷ rows) s (size, sized) p =
      let (m, e) = total row size in
      cons-Scanned row rows s m p e (λ s' p'. fold-Scanned rows s' sized p')

  -- The loop over a table, from its first row.
  pub row_loop-Scanned :
      (buf : Bytes) (count : ℕ) (s : S)
      → 4 ≤ length buf
      → length buf + row_size < word
      → P s
      → Scanned s
          (chunks row_size count (drop 4 buf))
          (row_loop row_size (scan_row decode add) buf count 0 s)
  row_loop-Scanned buf count s enough small p =
      rw (row_loop-fold row_size (scan_row decode add) buf small count 0 4 s (omega arith) enough) (
        fold-Scanned (chunks row_size count (drop 4 buf)) s
          (chunks-length row_size count (drop 4 buf)) p)
