-- ===== src/Engine/Intercept/Total.antt =====
-- windivert.go: the reads and writes of packet bytes under the handlers' length checks.
use go_pass.Base.{
  ℕ, ◌+◌, ◌≤◌, ◌<◌, ◌≡◌, ◌∙◌, Option, some, arith, length, length-set, set, get_elem?-lt, Bytes,
  be16-lt, put_be16-lt, bit_or,
}
use go_pass.Engine.Addr.{Ipv4, loopback_v4}
use go_pass.Engine.ConnTrack.{ConnTarget}
use go_pass.Engine.Batch.{WinDivertAddress}
use go_pass.Engine.Intercept.{read_ip4, put_ip4}
use go_pass.Engine.Intercept.Hijack.{loopback_flags, rewrite_hijack, nat_address, rewrite_reply}
use go_pass.Engine.Intercept.Tcp4.{TcpHeader, read_tcp4}
use go_pass.Engine.Intercept.Ipv6.{slice16, Tcp6Header, read_tcp6}

pub read_ip4-lt : (p : Bytes) (i : ℕ) → i + 3 < length p → (a : Ipv4) × (read_ip4 p i ≡ some a)
unfolding read_ip4
read_ip4-lt p i h =
    let (b0, e0) = get_elem?-lt p i (omega arith) in
    let (b1, e1) = get_elem?-lt p (i + 1) (omega arith) in
    let (b2, e2) = get_elem?-lt p (i + 2) (omega arith) in
    let (b3, e3) = get_elem?-lt p (i + 3) h in
    (record { b0 = b0; b1 = b1; b2 = b2; b3 = b3 }, rw (e0, e1, e2, e3))

-- A write that succeeds and keeps the packet's length.
abbrev pub Writes : Bytes → Option Bytes → Type 0
Writes p r = (q : Bytes) × (r ≡ some q) × (length q ≡ length p)

pub put_ip4-lt : (p : Bytes) (i : ℕ) (a : Ipv4) → i + 3 < length p → Writes p (put_ip4 p i a)
unfolding put_ip4
put_ip4-lt p i a h =
    let (_, e) = get_elem?-lt p (i + 3) h in
    let p1 = set p i a.b0 in
    let p2 = set p1 (i + 1) a.b1 in
    let p3 = set p2 (i + 2) a.b2 in
    (
      set p3 (i + 3) a.b3,
      rw e,
      length-set p3 (i + 3) a.b3
          ∙ length-set p2 (i + 2) a.b2
          ∙ length-set p1 (i + 1) a.b1
          ∙ length-set p i a.b0,
    )

pub read_tcp4-lt :
    (p : Bytes) (ihl : ℕ)
    → 20 ≤ ihl
    → ihl + 20 ≤ length p
    → (h : TcpHeader) × (read_tcp4 p ihl ≡ some h)
unfolding read_tcp4
read_tcp4-lt p ihl l h =
    let (sp, e1) = be16-lt p ihl (omega arith) in
    let (dp, e2) = be16-lt p (ihl + 2) (omega arith) in
    let (f, e3) = get_elem?-lt p (ihl + 13) (omega arith) in
    let (d, e4) = read_ip4-lt p 16 (omega arith) in
    let (s, e5) = read_ip4-lt p 12 (omega arith) in
    (record { src_port = sp; dst_port = dp; flags = f; src = s; dst = d }, rw (e1, e2, e3, e4, e5))

-- Rewritings of a whole packet succeed and keep its length.
abbrev pub Rewrites : Bytes → Option (Bytes × WinDivertAddress) → Type 0
Rewrites p r = (x : Bytes × WinDivertAddress) × (r ≡ some x) × (length x.0 ≡ length p)

pub rewrite_hijack-lt :
    (p : Bytes) (addr : WinDivertAddress) (ihl mapped tproxy : ℕ)
    → 20 ≤ ihl
    → ihl + 4 ≤ length p
    → Rewrites p (rewrite_hijack p addr ihl mapped tproxy)
unfolding rewrite_hijack
rewrite_hijack-lt p addr ihl mapped tproxy l h =
    let (p1, e1, n1) = put_ip4-lt p 12 loopback_v4 (omega arith) in
    let (p2, e2, n2) = put_ip4-lt p1 16 loopback_v4 (omega arith) in
    let (p3, e3, n3) = put_be16-lt p2 ihl mapped (omega arith) in
    let (p4, e4, n4) = put_be16-lt p3 (ihl + 2) tproxy (omega arith) in
    (
      (p4, record addr { bits = bit_or addr.bits loopback_flags }),
      rw (e1, e2, e3, e4),
      n4 ∙ n3 ∙ n2 ∙ n1,
    )

pub rewrite_reply-lt :
    (p : Bytes) (addr : WinDivertAddress) (ihl : ℕ) (target : ConnTarget)
    → 20 ≤ ihl
    → ihl + 4 ≤ length p
    → Rewrites p (rewrite_reply p addr ihl target)
unfolding rewrite_reply
rewrite_reply-lt p addr ihl target l h =
    let (p1, e1, n1) = put_ip4-lt p 12 target.orig_dst_ip (omega arith) in
    let (p2, e2, n2) = put_be16-lt p1 ihl target.orig_dst_port (omega arith) in
    let (p3, e3, n3) = put_ip4-lt p2 16 target.orig_src_ip (omega arith) in
    let (p4, e4, n4) = put_be16-lt p3 (ihl + 2) target.orig_src_port (omega arith) in
    ((p4, nat_address addr target), rw (e1, e2, e3, e4), n4 ∙ n3 ∙ n2 ∙ n1)

pub read_tcp6-lt : (p : Bytes) → 60 ≤ length p → (h : Tcp6Header) × (read_tcp6 p ≡ some h)
unfolding read_tcp6
read_tcp6-lt p h =
    let (sp, e1) = be16-lt p 40 (omega arith) in
    let (dp, e2) = be16-lt p 42 (omega arith) in
    let (f, e3) = get_elem?-lt p 53 (omega arith) in
    (
      record { src_port = sp; dst_port = dp; flags = f; src = slice16 p 8; dst = slice16 p 24 },
      rw (e1, e2, e3),
    )
