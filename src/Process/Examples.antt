-- ===== src/Process/Examples.antt =====
-- internal/process: small tables.
use go_pass.Base.{
  ℕ, zero, suc, ◌≡◌, refl, ap, Bool, true, ◌&&◌, [], ◌∷◌, ◌++◌, Option, none, some, ltb, arith,
  if◌then◌else◌, Text, Bytes, codes, length, drop, replicate, lookup, ℕ_discrete, read_le32,
}
use go_pass.Process.Flows.{Flow, Entry, Flow-discrete}
use go_pass.Process.Table.{Answer, ok, error_insufficient_buffer, fetch_with_retry}
use go_pass.Process.Table.Settles.{IsTable, fetch_with_retry_settles}
use go_pass.Process.Names.{PidCache, NameAnswer, process_name}
use go_pass.Process.Names.Cache.{IsRecord}
use go_pass.Process.Names.Buffer.{IsName, process_name_lem}
use go_pass.Process.Rows.Fold.{chunks}
use go_pass.Process.Rows.Scan.{last_row}
use go_pass.Process.Rows.Layout.{IsBytes, tcp_row}
use go_pass.Process.Resolver.{Resolver, new_resolver, Machine, lookup_with_refresh}
use go_pass.Process.Resolver.Refresh.{pid_of, lookup_with_refresh_lem}
use go_pass.Process.Ipv6.{Machine6, refresh_tcp6}
use go_pass.Process.Ipv6.Refreshed.{Refreshed6, refresh_tcp6_lem}

-- A table of 28 bytes, then of 52.
abbrev sizes : ℕ → ℕ
sizes zero = 0
sizes (suc zero) = 28
sizes (suc (suc k)) = 52

abbrev growing : ℕ → ℕ → Answer
growing k size =
    if ltb size (sizes k)
    then record { ret = error_insufficient_buffer; need = sizes k; buf = [] }
    else record { ret = 0; need = sizes k; buf = replicate (sizes k) 0 }

growing-IsTable : IsTable sizes growing
growing-IsTable = record { fits = λ k s h. ground arith; asks = λ k s h. ground arith }

fetch_with_retry_settles_example : (buf : Bytes) × (fetch_with_retry growing 20 ≡ some (ok buf))
fetch_with_retry_settles_example =
    fetch_with_retry_settles sizes growing 20 2 growing-IsTable (omega arith) (omega arith)
      (omega arith)

abbrev name_call : ℕ → ℕ → NameAnswer
name_call pid size = record {
  success = ltb 300 size;
  insufficient = true;
  need = 3;
  buf = replicate size 92;
}

length-replicate : (n x : ℕ) → length (replicate n x) ≡ n
length-replicate zero x = refl
length-replicate (suc n) x = ap suc (length-replicate n x)

process_name_lem_example :
    (name : Text) × (process_name (λ pid. true) name_call (λ p. p) 42 ≡ some name) × IsName name
process_name_lem_example =
    process_name_lem (λ pid. true) name_call (λ p. p) 42 (λ size. length-replicate size 92)

are_bytes : Bytes → Bool
are_bytes [] = true
are_bytes (b ∷ bs) = ltb b 256 && are_bytes bs

are_bytes-IsBytes : (bs : Bytes) → are_bytes bs ≡ true → IsBytes bs
unfolding are_bytes
are_bytes-IsBytes [] h = tt
are_bytes-IsBytes (b ∷ bs) h = (ground arith, are_bytes-IsBytes bs (ground arith))

-- An established connection of process 42, and the same in a row that is closed, of process 7.
abbrev row : ℕ → ℕ → Bytes
row state pid =
    state ∷ 0 ∷ 0 ∷ 0 ∷ 192 ∷ 168 ∷ 1 ∷ 10 ∷ 0xc7 ∷ 0x38 ∷ 0 ∷ 0 ∷ 93 ∷ 184 ∷ 216 ∷ 34 ∷ 0x01 ∷ 0xbb
    ∷ 0 ∷ 0 ∷ pid ∷ 0 ∷ 0 ∷ 0 ∷ []

abbrev tcp_table : Bytes
tcp_table = (2 ∷ 0 ∷ 0 ∷ 0 ∷ []) ++ row 5 42 ++ row 1 7

tcp_table-IsBytes : IsBytes tcp_table
unfolding are_bytes
tcp_table-IsBytes = are_bytes-IsBytes tcp_table refl

abbrev flow : Flow
flow = record { local_ip = 167880896; local_port = 51000; remote_ip = 584628317; remote_port = 443 }

abbrev machine : Machine
machine = record {
  tcp_table = ok tcp_table;
  udp_table = ok [];
  resolve = λ pid. codes "browser.exe";
  tcp_now = 5;
  udp_now = 6;
}

owned : last_row Flow-discrete tcp_row some flow (chunks 24 2 (drop 4 tcp_table)) none ≡ some 42
unfolding read_le32 Flow-discrete ℕ_discrete go_pass.Process.Flows.ntohs
owned = refl

lookup_with_refresh_lem_example :
    (after : Resolver) × (found : Option Entry) × (lookup_with_refresh machine new_resolver
        new_resolver flow
      ≡ some (after, found))
    × (pid_of found
        ≡ last_row Flow-discrete tcp_row some flow (chunks 24 2 (drop 4 tcp_table)) none)
unfolding go_pass.Process.Resolver.lookup_tcp lookup read_le32
lookup_with_refresh_lem_example =
    lookup_with_refresh_lem machine new_resolver new_resolver flow tcp_table 2 refl refl refl
      (record { enough = omega arith; small = omega arith }) tt tcp_table-IsBytes refl

abbrev names : ℕ → Text
names zero = []
names (suc pid) = codes "browser.exe"

abbrev cache : PidCache
cache = (42, record { name = names 42; checked_at = 10000000000 }) ∷ []

cache-IsRecord : IsRecord (λ t. names) cache
unfolding lookup
cache-IsRecord = record { unique = (refl, tt); taken = λ pid e h. ground (arith, h) }

-- From [2001:db8::1]:51000 to [2606:2800::22]:443.
abbrev row6 : ℕ → ℕ → Bytes
row6 state pid =
    (0x20 ∷ 0x01 ∷ 0x0d ∷ 0xb8 ∷ 0 ∷ 0 ∷ 0 ∷ 0 ∷ 0 ∷ 0 ∷ 0 ∷ 0 ∷ 0 ∷ 0 ∷ 0 ∷ 1 ∷ 3 ∷ 0 ∷ 0 ∷ 0
      ∷ 0xc7 ∷ 0x38 ∷ 0 ∷ 0 ∷ [])
    ++ (0x26 ∷ 0x06 ∷ 0x28 ∷ 0 ∷ 0 ∷ 0 ∷ 0 ∷ 0 ∷ 0 ∷ 0 ∷ 0 ∷ 0 ∷ 0 ∷ 0 ∷ 0 ∷ 0x22 ∷ 0 ∷ 0 ∷ 0 ∷ 0
        ∷ 0x01 ∷ 0xbb ∷ 0 ∷ 0 ∷ [])
    ++ (state ∷ 0 ∷ 0 ∷ 0 ∷ pid ∷ 0 ∷ 0 ∷ 0 ∷ [])

abbrev tcp6_table : Bytes
tcp6_table = (2 ∷ 0 ∷ 0 ∷ 0 ∷ []) ++ row6 5 42 ++ row6 1 7

tcp6_table-IsBytes : IsBytes tcp6_table
unfolding are_bytes
tcp6_table-IsBytes = are_bytes-IsBytes tcp6_table refl

abbrev machine6 : Machine6
machine6 = record { table = ok tcp6_table; resolve = names; arrived = 1; now = 2; finished = 3 }

refresh_tcp6_lem_example :
    Refreshed6 machine6
      (chunks 56 2 (drop 4 tcp6_table))
      (refresh_tcp6 machine6 cache (record { flows = []; last = none }))
unfolding read_le32
refresh_tcp6_lem_example =
    refresh_tcp6_lem machine6 cache (record { flows = []; last = none }) tcp6_table 2 refl
      cache-IsRecord refl refl (record { enough = omega arith; small = omega arith })
      tcp6_table-IsBytes refl
