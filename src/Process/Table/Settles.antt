-- ===== src/Process/Table/Settles.antt =====
-- table_windows.go: how often a table is asked for, and tables that stop growing.
use go_pass.Base.{
  ℕ, zero, suc, ◌+◌, ◌≤◌, ◌<◌, ◌≡◌, ◌==◌, not, ◌&&◌, ◌||◌, Returns, returns, Returns-if, Option,
  some, inl, inr, arith, Bool-cases, leb, Bytes,
}
use go_pass.Process.Table.{
  Answer, TableResult, ok, error_insufficient_buffer, max_table_attempts, fetch_loop,
  fetch_with_retry, query_win_table,
}

fetch_loop-Returns :
    (fetch : ℕ → ℕ → Answer) (fuel attempt size : ℕ)
    → attempt ≤ max_table_attempts
    → max_table_attempts < attempt + fuel
    → Returns (fetch_loop fetch fuel attempt size)
unfolding fetch_loop
fetch_loop-Returns fetch zero attempt size low enough = absurd (omega arith)
fetch_loop-Returns fetch (suc fuel) attempt size low enough =
    let answer = fetch attempt size in
    Returns-if (answer.ret == 0) _ _ (λ _. returns _)
      λ _.
        Returns-if (not (answer.ret == error_insufficient_buffer)) _ _ (λ _. returns _)
          λ _.
            Returns-if (leb max_table_attempts attempt || leb answer.need size) _ _ (λ _. returns _)
              λ more.
                fetch_loop-Returns fetch fuel (attempt + 1) answer.need (ground arith)
                  (ground arith)

-- Whatever the DLL answers, a table query ends within its four rounds, with a buffer or an error.
pub query_win_table-Returns :
    (probe : Answer) (fetch : ℕ → ℕ → Answer) → Returns (query_win_table probe fetch)
unfolding query_win_table fetch_with_retry
query_win_table-Returns probe fetch =
    Returns-if
      (not (probe.ret == 0) && (not (probe.ret == error_insufficient_buffer) || probe.need == 0)) _
      _ (λ _. returns _)
      λ _.
        Returns-if (probe.need == 0) _ _ (λ _. returns _)
          λ _. fetch_loop-Returns fetch max_table_attempts 1 probe.need (omega arith) (omega arith)

-- A table that has `sizes k` bytes in round `k`: it fits or the DLL asks for its size.
pub record IsTable (sizes : ℕ → ℕ) (fetch : ℕ → ℕ → Answer) : Type 0 where
  pub fits : (k s : ℕ) → sizes k ≤ s → (fetch k s).ret ≡ 0
  pub asks :
      (k s : ℕ)
      → s < sizes k
      → ((fetch k s).ret ≡ error_insufficient_buffer) × ((fetch k s).need ≡ sizes k)

module _ (sizes : ℕ → ℕ) (fetch : ℕ → ℕ → Answer) (t : IsTable sizes fetch) where
  abbrev IsRead : Option TableResult → Type 0
  IsRead r = (buf : Bytes) × (r ≡ some (ok buf))

  fetch_loop-fits : (fuel k s : ℕ) → sizes k ≤ s → IsRead (fetch_loop fetch (suc fuel) k s)
  unfolding fetch_loop
  fetch_loop-fits fuel k s h = ((fetch k s).buf, ground (arith, t.fits k s h))

  fetch_loop-asks :
      (fuel k s : ℕ)
      → s < sizes k
      → k < max_table_attempts
      → fetch_loop fetch (suc fuel) k s ≡ fetch_loop fetch fuel (k + 1) (sizes k)
  unfolding fetch_loop
  fetch_loop-asks fuel k s h more = let (code, size) = t.asks k s h in ground (arith, code, size)

  fetch_loop-last :
      (fuel k s : ℕ)
      → s < sizes k
      → k < max_table_attempts
      → 0 < fuel
      → sizes (k + 1) ≤ sizes k
      → IsRead (fetch_loop fetch (suc fuel) k s)
  fetch_loop-last zero k s h more positive stops = elim positive [ ]
  fetch_loop-last (suc fuel) k s h more positive stops =
      rw (fetch_loop-asks (suc fuel) k s h more) (fetch_loop-fits fuel (k + 1) (sizes k) stops)

  fetch_loop-settles :
      (fuel k s j : ℕ)
      → k ≤ j
      → j < max_table_attempts
      → j + 1 < k + fuel
      → sizes (j + 1) ≤ sizes j
      → IsRead (fetch_loop fetch fuel k s)
  fetch_loop-settles zero k s j low high enough stops = absurd (omega arith)
  fetch_loop-settles (suc fuel) k s j low high enough stops = elim (Bool-cases (leb (sizes k) s)) [
    | inl h ↦ fetch_loop-fits fuel k s (ground arith)
    | inr h ↦ elim (Bool-cases (leb j k)) [
      | inl last ↦
          let same : j ≡ k = ground arith in
          fetch_loop-last fuel k s (ground arith) (omega arith) (omega arith) (rw same at stops)
      | inr earlier ↦
          rw (fetch_loop-asks fuel k s (ground arith) (ground arith))
            (fetch_loop-settles fuel (k + 1) (sizes k) j (ground arith) high (omega arith) stops)
    ]
  ]

-- A table that does not grow from round `j` to the next, for some `j` below 4, is read: the loop that
-- asks again with the size asked for succeeds, from whatever size it starts.
pub fetch_with_retry_settles :
    (sizes : ℕ → ℕ) (fetch : ℕ → ℕ → Answer) (size j : ℕ)
    → IsTable sizes fetch
    → 0 < j
    → j < max_table_attempts
    → sizes (j + 1) ≤ sizes j
    → (buf : Bytes) × (fetch_with_retry fetch size ≡ some (ok buf))
unfolding fetch_with_retry
fetch_with_retry_settles sizes fetch size j t positive below stops =
    fetch_loop-settles sizes fetch t max_table_attempts 1 size j positive below (omega arith) stops
