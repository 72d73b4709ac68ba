-- ===== src/Process/Rows.antt =====
-- internal/process: the loop over the rows of a table, which `refreshTCP`, `refreshUDP`,
-- `parseIPv6TCPRows` and `parseIPv6UDPRows` share but for the size of a row and what they do with it.
-- Offsets are 32-bit numbers. `none` is a slice or an index out of range.
pub mod Fold
pub mod Scan
pub mod Layout
use go_pass.Base.{
  ℕ, zero, suc, ◌+◌, ◌-◌, ◌*◌, ◌%◌, Option, none, some, ltb, if◌then◌else◌, Bytes, length, ◌>>=◌,
  slice_to,
}

abbrev pub word : ℕ
word = 4294967296

-- `left` rounds from row `n` on, each with what `handle` does with the row.
unfoldable pub row_loop {ℓ} :
    {S : Type ℓ} → ℕ → (S → Bytes → Option S) → Bytes → ℕ → ℕ → S → Option S
row_loop row_size handle buf zero n s = some s
row_loop row_size handle buf (suc left) n s =
    let off = (4 + n * row_size) % word in
    let end = (off + row_size) % word in
    let next = row_loop row_size handle buf left (n + 1) in
    if ltb (length buf % word) end
    then some s
    else (do row ← slice_to buf off end; s' ← handle s row; next s')
