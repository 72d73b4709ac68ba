-- ===== src/Engine/Tunnel.antt =====
-- internal/engine/tproxy.go: a connection that was diverted to the transparent proxy. What the client
-- sends is the bytes that arrive before the two seconds of the first read are over, and the bytes
-- later on. `waited` is what the rest of the program does to the shared state meanwhile.
pub mod Sniffing
pub mod Carried
pub mod Examples
use go_pass.Base.{
  ℕ, zero, suc, ◌+◌, ◌*◌, Bool, true, false, not, ◌&&◌, ◌||◌, List, [], ◌∷◌, ◌++◌, Option, none,
  some, ltb, leb, ◌==◌, if◌then◌else◌, Text, Bytes, itoa, ◌>>=◌, be16, get_elem?, length, take,
  drop,
}
use go_pass.Engine.Addr.{Ipv4, ip_string}
use go_pass.Engine.ConnTrack.{ConnTarget, ConnTracker, get, activate, delete}
use go_pass.Engine.Sni.{SniResult, host, failed, extract_sni}
use go_pass.Engine.Upstream.{has_byte}
use go_pass.Engine.Stats.{Stats, add_active_conn, remove_active_conn}

abbrev pub max_record : ℕ
max_record = 16384

-- What `readTLSClientHello` returns, the bytes and the name in them, where none is an error; and what it
-- leaves on the connection of the bytes that arrive before the deadline.
pub record Hello : Type 0 where
  pub buf : Bytes
  pub sni : Option Bytes
  pub left : Bytes

abbrev pub sni_of : SniResult → Option Bytes
sni_of (host name) = some name
sni_of (failed e) = none

-- `arriving` is what comes before the deadline.
unfoldable pub read_tls_client_hello : Bytes → Option Hello
read_tls_client_hello arriving =
    let hdr = take 5 arriving in
    let refused : Option Hello = some (record { buf = hdr; sni = none; left = drop 5 arriving }) in
    if ltb (length hdr) 5 then refused else (do
      kind ← get_elem? hdr 0
      record_len ← be16 hdr 3
      let body = take record_len (drop 5 arriving)
      let read = hdr ++ body
      let left = drop record_len (drop 5 arriving)
      let parsed =
          extract_sni read >>= λ r. some (record { buf = read; sni = sni_of r; left = left })
      if not (kind == 22)
          then refused
          else if leb record_len 0 || ltb max_record record_len
          then refused
          else if ltb (length body) record_len
          then some (record { buf = read; sni = none; left = left })
          else parsed)

abbrev is_unspecified : Ipv4 → Bool
is_unspecified a = a.b0 == 0 && a.b1 == 0 && a.b2 == 0 && a.b3 == 0

-- `net.JoinHostPort`
unfoldable pub join_host_port : Text → ℕ → Text
join_host_port name port =
    if has_byte b':' name
    then (b'[' ∷ name) ++ (b']' ∷ (b':' ∷ itoa port))
    else name ++ (b':' ∷ itoa port)

unfoldable pub original_target : Ipv4 → ℕ → Option Text
unfolding join_host_port
original_target ip port =
    if is_unspecified ip
    then none
    else if port == 0
    then none
    else some (join_host_port (ip_string ip) port)

pub record Conn : Type 0 where
  -- none where the connection is no TCP connection
  pub remote_addr : Option (Text × ℕ)
  pub arriving : Bytes
  pub later : Bytes

pub record Shared : Type 0 where
  pub tracker : ConnTracker
  pub stats : Stats

-- `dials` is whether the upstream dialer connects to a target, `accepts` whether the first write works.
pub record Upstream : Type 0 where
  pub dials : Text → Bool
  pub accepts : Bytes → Bool

-- How the handling of a connection ends: `tunnel` with its id, its target and what goes to the target where
-- the copying meets no error.
pub data Handled : Type 0 where
  refused no_target : Handled
  not_dialed not_written : Text → Handled
  tunnel : Text → Text → Bytes → Handled

-- The target by the name in the client's hello, if there is one.
unfoldable pub named_target : ConnTarget → Text → Option Bytes → Text
unfolding join_host_port
named_target target addr none = addr
named_target target addr (some name) =
    if length name == 0 then addr else join_host_port name target.orig_dst_port

-- The bytes kept of what was read before the dialing, the target, and what is left on the connection of
-- the bytes that arrive before the deadline.
pub record Sniffed : Type 0 where
  pub peek_buf : Bytes
  pub target_addr : Text
  pub left : Bytes

unfoldable pub sniff : Conn → ConnTarget → Text → Option Sniffed
unfolding read_tls_client_hello named_target
sniff conn target addr =
    if target.orig_dst_port == 443
    then (do
      hello ← read_tls_client_hello conn.arriving
      some (record {
        peek_buf = hello.buf;
        target_addr = named_target target addr hello.sni;
        left = hello.left;
      }))
    else some (record { peek_buf = []; target_addr = addr; left = conn.arriving })

abbrev pub conn_id : Text → ℕ → Text
conn_id src_ip src_port = src_ip ++ (b':' ∷ itoa src_port)

-- From the dialing on, with what was read, the target, and what is left to read; the copying sends all
-- that is still on the connection.
unfoldable pub connect :
    Upstream → Conn → Text → Sniffed → (Shared → Shared) → Shared → Shared × Handled
unfolding add_active_conn remove_active_conn
connect up conn id found waited sh =
    if not (up.dials found.target_addr)
    then (waited sh, not_dialed found.target_addr)
    else if not (length found.peek_buf == 0) && not (up.accepts found.peek_buf)
    then (waited sh, not_written found.target_addr)
    else (let tunnelling =
          waited (record sh { stats = add_active_conn id found.target_addr sh.stats }) in
        (
          record tunnelling { stats = remove_active_conn id tunnelling.stats },
          tunnel id found.target_addr (found.peek_buf ++ (found.left ++ conn.later)),
        ))

-- `defer tp.tracker.Delete(srcIP, srcPort)`
abbrev pub ended : Text → ℕ → Shared × Handled → Shared × Handled
ended src_ip src_port (sh, outcome) =
    (record sh { tracker = delete sh.tracker src_ip src_port }, outcome)

-- none is an index out of range.
unfoldable pub handle_conn :
    Upstream → Conn → (Shared → Shared) → Shared → Option (Shared × Handled)
unfolding original_target sniff connect
handle_conn up conn waited sh = elim conn.remote_addr [
  | none ↦ some (sh, refused)
  | some (src_ip, src_port) ↦ elim (get sh.tracker src_ip src_port) [
    | none ↦ some (sh, refused)
    | some target ↦
        let active = record sh { tracker = activate sh.tracker src_ip src_port } in
        elim (original_target target.orig_dst_ip target.orig_dst_port) [
          | none ↦ some (ended src_ip src_port (active, no_target))
          | some addr ↦ sniff conn target addr >>= λ found. some (
              ended src_ip src_port (connect up conn (conn_id src_ip src_port) found waited active))
        ]
  ]
]
