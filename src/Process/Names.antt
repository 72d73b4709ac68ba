-- ===== src/Process/Names.antt =====
-- internal/process: the names of processes. pidnamecache_windows.go keeps them for two seconds, and
-- so does `Resolver` in process_windows.go; `resolve` is `processName`, whose calls of Windows are
-- parameters.
pub mod Cache
pub mod Buffer
use go_pass.Base.{
  ℕ, zero, suc, ◌+◌, ◌-◌, ◌*◌, Bool, true, false, not, ◌||◌, List, [], ◌∷◌, Option, none, some, ltb,
  leb, ◌==◌, if◌then◌else◌, Text, ℕ_discrete, lookup, insert, retain, take, ◌>>=◌, slice_to,
}

abbrev pub pid_name_cache_ttl : ℕ
pid_name_cache_ttl = 2 * 1000000000

pub record PidCacheEntry : Type 0 where
  pub name : Text
  pub checked_at : ℕ

abbrev pub PidCache : Type 0
PidCache = List (ℕ × PidCacheEntry)

abbrev pub is_fresh : ℕ → PidCacheEntry → Bool
is_fresh now e = ltb (now - e.checked_at) pid_name_cache_ttl

-- The name, asked for and kept.
abbrev pub resolved : (ℕ → Text) → PidCache → ℕ → ℕ → PidCache × Text
resolved resolve c pid now =
    (insert ℕ_discrete pid (record { name = resolve pid; checked_at = now }) c, resolve pid)

-- `pidNameCache.get`
unfoldable pub get : (ℕ → Text) → PidCache → ℕ → ℕ → PidCache × Text
get resolve c pid now = if pid == 0 then (c, []) else elim (lookup ℕ_discrete pid c) [
  | none ↦ resolved resolve c pid now
  | some e ↦ if is_fresh now e then (c, e.name) else resolved resolve c pid now
]

-- `pidNameCache.sweep`
unfoldable pub sweep : ℕ → PidCache → PidCache
sweep now c = retain (λ pid e. is_fresh now e) c

-- What a call of `QueryFullProcessImageNameW` with a buffer of some size answers.
pub record NameAnswer : Type 0 where
  pub success : Bool
  pub insufficient : Bool
  pub need : ℕ
  pub buf : List ℕ

abbrev pub max_utf16_buffer : ℕ
max_utf16_buffer = 32768

-- `queryUTF16WithRetry`: the buffer and the count, or none for `false`. The outer option is fuel.
unfoldable pub query_utf16_loop : (ℕ → NameAnswer) → ℕ → ℕ → Option (Option (List ℕ × ℕ))
query_utf16_loop call zero size = none
query_utf16_loop call (suc fuel) size =
    let answer = call size in
    let again = query_utf16_loop call fuel (size * 2) in
    if answer.success
    then some (some (answer.buf, if ltb size answer.need then size else answer.need))
    else if not answer.insufficient || leb max_utf16_buffer size
    then some none
    else again

abbrev pub utf16_rounds : ℕ
utf16_rounds = 16

unfoldable pub query_utf16_with_retry : (ℕ → NameAnswer) → ℕ → Option (Option (List ℕ × ℕ))
unfolding query_utf16_loop
query_utf16_with_retry call size = query_utf16_loop call utf16_rounds size

-- What follows the last backslash or slash of a path: `path[strings.LastIndexAny(path, …)+1:]`.
abbrev pub is_separator : ℕ → Bool
is_separator c = c == 92 || c == b'/'

unfoldable pub base_from : Text → Text → Text
base_from name [] = name
base_from name (c ∷ path) = if is_separator c then base_from path path else base_from name path

unfoldable pub base_name : Text → Text
unfolding base_from
base_name path = base_from path path

-- `processName`: `opens` says whether the process can be opened, `call` are the answers for it, and
-- `to_string` is `syscall.UTF16ToString`. `none` is a slice out of range.
unfoldable pub process_name : (ℕ → Bool) → (ℕ → ℕ → NameAnswer) → (List ℕ → Text) → ℕ → Option Text
unfolding query_utf16_with_retry base_name
process_name opens call to_string pid =
    let queried = query_utf16_with_retry (call pid) 260 in
    if pid == 0
    then some []
    else if not (opens pid)
    then some []
    else queried >>= λ r. elim r [
      | none ↦ some []
      | some found ↦ slice_to found.0 0 found.1 >>= λ path. some (base_name (to_string path))
    ]
