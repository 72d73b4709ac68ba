-- ===== src/Process/Names/Buffer.antt =====
-- process_windows.go: `queryUTF16WithRetry` and `processName`.
use go_pass.Base.{
  ℕ, zero, suc, ◌+◌, ◌*◌, ◌/◌, ◌≤◌, ◌<◌, ◌≡◌, refl, Bool, true, false, not, ◌||◌, List, [], ◌∷◌,
  Option, none, some, inl, inr, arith, ltb, leb, ◌==◌, if◌then◌else◌, Bool-cases, Text, All, length,
  take, slice_to, slice_to-front, ◌>>=◌,
}
use go_pass.Process.Names.{
  NameAnswer, max_utf16_buffer, query_utf16_loop, utf16_rounds, query_utf16_with_retry,
  is_separator, base_from, base_name, process_name,
}

-- A call writes into the buffer that it is given.
abbrev pub Fills : (ℕ → NameAnswer) → Type 0
Fills call = (size : ℕ) → length (call size).buf ≡ size

-- The count stays in the buffer.
abbrev pub IsCounted : Option (List ℕ × ℕ) → Type 0
IsCounted none = Unit {0}
IsCounted (some (buf, n)) = n ≤ length buf

-- A query that ends.
pub record Ends (r : Option (Option (List ℕ × ℕ))) : Type 0 where
  pub found : Option (List ℕ × ℕ)
  pub result : r ≡ some found
  pub counted : IsCounted found

Ends-if :
    (b : Bool) (x y : Option (Option (List ℕ × ℕ)))
    → Ends x
    → (b ≡ false → Ends y)
    → Ends (if b then x else y)
Ends-if true x y hx hy = hx
Ends-if false x y hx hy = hy refl

-- The least size from which a number of rounds is enough.
abbrev least : ℕ → ℕ
least zero = 2 * max_utf16_buffer
least (suc rounds) = (least rounds + 1) / 2

query_utf16_loop-Ends :
    (call : ℕ → NameAnswer) (rounds size : ℕ)
    → Fills call
    → least rounds ≤ size
    → size < 2 * max_utf16_buffer
    → Ends (query_utf16_loop call rounds size)
unfolding query_utf16_loop
query_utf16_loop-Ends call zero size fills low high = absurd (omega arith)
query_utf16_loop-Ends call (suc rounds) size fills low high =
    let answer = call size in
    Ends-if answer.success _ _
      (record {
        found = some (answer.buf, if ltb size answer.need then size else answer.need);
        result = refl;
        counted = ground (arith, fills size);
      })
      λ _.
        Ends-if (not answer.insufficient || leb max_utf16_buffer size) _ _
          (record { found = none; result = refl; counted = tt })
          λ more. query_utf16_loop-Ends call rounds (size * 2) fills (omega arith) (ground arith)

least_16 : least utf16_rounds ≡ 1
least_16 = refl

-- With calls that write into the buffer they are given, and from a size between 1 and the bound, the
-- query ends within sixteen rounds, and the count that it returns stays in the buffer it returns.
pub query_utf16_with_retry-Ends :
    (call : ℕ → NameAnswer) (size : ℕ)
    → Fills call
    → 0 < size
    → size < 2 * max_utf16_buffer
    → Ends (query_utf16_with_retry call size)
unfolding query_utf16_with_retry
query_utf16_with_retry-Ends call size fills low high =
    query_utf16_loop-Ends call utf16_rounds size fills (omega (arith, least_16)) high

abbrev IsPlain : ℕ → Type 0
IsPlain c = is_separator c ≡ false

base_from-IsPlain :
    (name path : Text) → ((All IsPlain path) → All IsPlain name) → All IsPlain (base_from name path)
unfolding base_from
base_from-IsPlain name [] h = h tt
base_from-IsPlain name (c ∷ path) h = elim (Bool-cases (is_separator c)) [
  | inl e ↦ rw e (base_from-IsPlain path path (λ p. p))
  | inr e ↦ rw e (base_from-IsPlain name path (λ p. h (e, p)))
]

-- `processName` cuts a path off after its last separator: no separator is left.
base_name-IsPlain : (path : Text) → All IsPlain (base_name path)
unfolding base_name
base_name-IsPlain path = base_from-IsPlain path path (λ p. p)

-- A name that was found has no separator in it.
abbrev pub IsName : Text → Type 0
IsName name = All (λ (c : ℕ). is_separator c ≡ false) name

named_path :
    (to_string : List ℕ → Text) (found : Option (List ℕ × ℕ))
    → IsCounted found
    → (name : Text) × (elim found as (λ _. Option Text) [
      | none ↦ some []
      | some f ↦ slice_to f.0 0 f.1 >>= λ path. some (base_name (to_string path))
    ]
        ≡ some name)
      × IsName name
named_path to_string none h = ([], refl, tt)
named_path to_string (some (buf, n)) h =
    (base_name (to_string (take n buf)), rw (slice_to-front buf n h) refl, base_name-IsPlain _)

-- With calls that write into the buffer they are given, `processName` ends for every process, with
-- no slice out of range, and the name that it returns has no separator in it.
pub process_name_lem :
    (opens : ℕ → Bool) (call : ℕ → ℕ → NameAnswer) (to_string : List ℕ → Text) (pid : ℕ)
    → Fills (call pid)
    → (name : Text) × (process_name opens call to_string pid ≡ some name) × IsName name
unfolding process_name
process_name_lem opens call to_string pid fills = elim (Bool-cases (pid == 0)) [
  | inl idle ↦ ([], rw idle refl, tt)
  | inr live ↦ elim (Bool-cases (opens pid)) [
    | inr shut ↦ ([], rw (live, shut) refl, tt)
    | inl opened ↦
        let queried =
          query_utf16_with_retry-Ends (call pid) 260 fills (omega arith) (omega arith) in
        let (name, e, plain) = named_path to_string queried.found queried.counted in
        (name, rw (live, opened, queried.result) e, plain)
  ]
]
