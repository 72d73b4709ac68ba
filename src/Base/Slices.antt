-- ===== src/Base/Slices.antt =====
-- Slices of byte strings, and numbers read in little-endian order. `none` is out of range.
use Prim.Native.Nat.{ℕ, zero, suc, ◌+◌, ◌-◌, ◌*◌, ◌≤◌, ◌<◌}
use mathlib.Core.Path.{◌≡◌, refl, sym, ap, ◌∙◌}
use mathlib.Core.Bool.{◌||◌}
use mathlib.Core.List.{[], ◌∷◌}
use mathlib.Core.Option.{Option, none, some}
use native.Mathlib.Omega.{arith}
use go_pass.Base.Tests.{ltb, if◌then◌else◌}
use go_pass.Base.Lists.{get_elem?, get_elem?-lt, length, take, drop}
use go_pass.Base.Texts.{Bytes, ◌>>=◌}

-- `xs[start:end]`
unfoldable pub slice_to : Bytes → ℕ → ℕ → Option Bytes
slice_to xs start end =
    if ltb end start || ltb (length xs) end then none else some (take (end - start) (drop start xs))

pub slice_to-le :
    (xs : Bytes) (start n : ℕ)
    → start + n ≤ length xs
    → slice_to xs start (start + n) ≡ some (take n (drop start xs))
unfolding slice_to
slice_to-le xs start n h = let size : start + n - start ≡ n = omega arith in ground (arith, size)

-- `binary.LittleEndian.Uint32(p[i:i+4])`
unfoldable pub read_le32 : Bytes → ℕ → Option ℕ
read_le32 p i = do
  b0 ← get_elem? p i
  b1 ← get_elem? p (i + 1)
  b2 ← get_elem? p (i + 2)
  b3 ← get_elem? p (i + 3)
  some (b0 + 256 * b1 + 65536 * b2 + 16777216 * b3)

pub read_le32-lt : (p : Bytes) (i : ℕ) → i + 3 < length p → (v : ℕ) × (read_le32 p i ≡ some v)
unfolding read_le32
read_le32-lt p i h =
    let (b0, e0) = get_elem?-lt p i (omega arith) in
    let (b1, e1) = get_elem?-lt p (i + 1) (omega arith) in
    let (b2, e2) = get_elem?-lt p (i + 2) (omega arith) in
    let (b3, e3) = get_elem?-lt p (i + 3) h in
    (b0 + 256 * b1 + 65536 * b2 + 16777216 * b3, rw (e0, e1, e2, e3))

pub slice_to-front : (xs : Bytes) (n : ℕ) → n ≤ length xs → slice_to xs 0 n ≡ some (take n xs)
unfolding slice_to
slice_to-front xs n h = let size : n - 0 ≡ n = omega arith in ground (arith, size)

drop_nil : (n : ℕ) → drop {A = ℕ} n [] ≡ []
drop_nil zero = refl
drop_nil (suc n) = refl

pub drop-drop : (m n : ℕ) (xs : Bytes) → drop n (drop m xs) ≡ drop (m + n) xs
drop-drop zero n xs = ap (λ k. drop k xs) (omega arith)
drop-drop (suc m) n [] = drop_nil n ∙ sym (drop_nil (suc m + n))
drop-drop (suc m) n (x ∷ xs) =
    let e : suc (m + n) ≡ suc m + n = omega arith in drop-drop m n xs ∙ ap (λ k. drop k (x ∷ xs)) e
