-- ===== src/Engine/Sni.antt =====
-- internal/engine/sni.go: the host name in a TLS ClientHello. `none` is an index or a slice out of
-- range, or a loop out of fuel.
pub mod Within
pub mod Total
pub mod Examples
use go_pass.Base.{
  ℕ, zero, suc, ◌+◌, ◌-◌, ◌*◌, Bool, true, false, not, ◌&&◌, ◌||◌, List, [], ◌∷◌, Option, none,
  some, ltb, ◌==◌, if◌then◌else◌, Bytes, ◌>>=◌, be16, get_elem?, length, take, drop,
}

pub data SniError : Type 0 where
  not_handshake incomplete_record not_client_hello incomplete_hello hello_too_short : SniError
  bad_session_id missing_ciphers bad_ciphers missing_compression bad_compression : SniError
  missing_extensions bad_extensions bad_extension bad_server_name sni_not_found : SniError

-- What `ExtractSNI` returns.
pub data SniResult : Type 0 where
  host : Bytes → SniResult
  failed : SniError → SniResult

-- `xs[i : i+n]`
unfoldable pub slice : Bytes → ℕ → ℕ → Option Bytes
slice xs i n = if ltb (length xs) (i + n) then none else some (take n (drop i xs))

-- The loop over the names of a server name list, `more` being how the search goes on after the list.
-- Each round takes three bytes or more, so fuel above the length is enough.
unfoldable pub name_loop : ℕ → Bytes → Option SniResult → Option SniResult
unfolding slice
name_loop zero names more = none
name_loop (suc fuel) names more = if ltb (length names) 3 then more else (do
  kind ← get_elem? names 0
  n ← be16 names 1
  let later = name_loop fuel (drop (3 + n) names) more
  let this = slice names 3 n >>= λ name. some (host name)
  if ltb (length names - 3) n
      then some (failed bad_server_name)
      else if kind == 0 && not (n == 0)
      then this
      else later)

-- The body of the extension for server names.
unfoldable pub server_names : Bytes → Option SniResult → Option SniResult
unfolding name_loop
server_names body more = if ltb (length body) 2 then more else (do
  n ← be16 body 0
  let listed = slice body 2 n >>= λ names. name_loop (suc (length names)) names more
  if ltb (length body - 2) n then more else listed)

-- The loop over the extensions; each round takes four bytes or more.
unfoldable pub extension_loop : ℕ → Bytes → Option SniResult
unfolding server_names
extension_loop zero exts = none
extension_loop (suc fuel) exts = if ltb (length exts) 4 then some (failed sni_not_found) else (do
  kind ← be16 exts 0
  n ← be16 exts 2
  let later = extension_loop fuel (drop (4 + n) exts)
  let named = slice exts 4 n >>= λ body. server_names body later
  if ltb (length exts - 4) n
      then some (failed bad_extension)
      else if kind == 0
      then named
      else later)

unfoldable pub after_compression : Bytes → ℕ → Option SniResult
unfolding extension_loop
after_compression rest offset =
    if ltb (length rest) (offset + 2) then some (failed missing_extensions) else (do
      n ← be16 rest offset
      let found = slice rest (offset + 2) n >>= λ exts. extension_loop (suc (length exts)) exts
      if ltb (length rest) (offset + 2 + n) then some (failed bad_extensions) else found)

unfoldable pub after_ciphers : Bytes → ℕ → Option SniResult
unfolding after_compression
after_ciphers rest offset =
    if ltb offset (length rest)
    then (do
      n ← get_elem? rest offset
      let found = after_compression rest (offset + 1 + n)
      if ltb (length rest) (offset + 1 + n) then some (failed bad_compression) else found)
    else some (failed missing_compression)

unfoldable pub after_session_id : Bytes → ℕ → Option SniResult
unfolding after_ciphers
after_session_id rest offset =
    if ltb (length rest) (offset + 2) then some (failed missing_ciphers) else (do
      n ← be16 rest offset
      let found = after_ciphers rest (offset + 2 + n)
      if ltb (length rest) (offset + 2 + n) then some (failed bad_ciphers) else found)

-- From the session id on.
unfoldable pub after_random : Bytes → ℕ → Option SniResult
unfolding after_session_id
after_random rest offset =
    if ltb offset (length rest)
    then (do
      n ← get_elem? rest offset
      let found = after_session_id rest (offset + 1 + n)
      if ltb (length rest) (offset + 1 + n) then some (failed bad_session_id) else found)
    else some (failed hello_too_short)

unfoldable pub client_hello : Bytes → Option SniResult
unfolding after_random
client_hello rest = if ltb (length rest) 4 then some (failed not_client_hello) else (do
  kind ← get_elem? rest 0
  hi ← get_elem? rest 1
  mid ← get_elem? rest 2
  lo ← get_elem? rest 3
  let n = 65536 * hi + 256 * mid + lo
  let found = after_random rest 38
  if not (kind == 1)
      then some (failed not_client_hello)
      else if ltb n 34 || ltb (length rest) (4 + n)
      then some (failed incomplete_hello)
      else found)

unfoldable pub extract_sni : Bytes → Option SniResult
unfolding client_hello
extract_sni input = if ltb (length input) 5 then some (failed not_handshake) else (do
  kind ← get_elem? input 0
  n ← be16 input 3
  let found = slice input 5 n >>= λ rest. client_hello rest
  if not (kind == 22)
      then some (failed not_handshake)
      else if n == 0 || ltb (length input) (5 + n)
      then some (failed incomplete_record)
      else found)
