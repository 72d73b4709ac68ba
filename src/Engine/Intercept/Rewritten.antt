-- ===== src/Engine/Intercept/Rewritten.antt =====
-- windivert.go: how the header of a hijacked packet, and of a restored reply, is read.
use go_pass.Base.{
  ℕ, ◌+◌, ◌/◌, ◌%◌, [], ◌∷◌, ◌≤◌, ◌<◌, ◌≡◌, ◌∙◌, refl, Option, some, inl, inr, arith, length,
  get_elem?, Bytes, be16, bit_or,
}
use go_pass.Engine.Addr.{Ipv4, loopback_v4}
use go_pass.Engine.ConnTrack.{ConnTarget}
use go_pass.Engine.Batch.{WinDivertAddress}
use go_pass.Engine.Intercept.{read_ip4}
use go_pass.Engine.Intercept.Hijack.{rewrite_hijack, rewrite_reply, nat_address, loopback_flags}
use go_pass.Engine.Intercept.Tcp4.{TcpHeader, read_tcp4}
use go_pass.Engine.Intercept.Wrote.{
  Wrote, put_be16-Wrote, put_ip4-Wrote, byte-Apart, be16-Apart, read_ip4-Apart, be16-Wrote,
  read_ip4-Wrote,
}

-- Reading the header, from what its parts read.
read_tcp4_from :
    (p : Bytes) (ihl src_port dst_port flags : ℕ) (src dst : Ipv4)
    → be16 p ihl ≡ some src_port
    → be16 p (ihl + 2) ≡ some dst_port
    → get_elem? p (ihl + 13) ≡ some flags
    → read_ip4 p 16 ≡ some dst
    → read_ip4 p 12 ≡ some src
    → read_tcp4 p ihl
      ≡ some
          (record { src_port = src_port; dst_port = dst_port; flags = flags; src = src; dst = dst })
unfolding read_tcp4
read_tcp4_from p ihl sp dp f s d e1 e2 e3 e4 e5 = rw (e1, e2, e3, e4, e5) refl

read_tcp4_flags :
    (p : Bytes) (ihl : ℕ) (h : TcpHeader)
    → read_tcp4 p ihl ≡ some h
    → get_elem? p (ihl + 13) ≡ some h.flags
unfolding read_tcp4
read_tcp4_flags p ihl h e = ground arith

pub read_tcp4_dst :
    (p : Bytes) (ihl : ℕ) (h : TcpHeader)
    → read_tcp4 p ihl ≡ some h
    → (be16 p (ihl + 2) ≡ some h.dst_port) × (read_ip4 p 16 ≡ some h.dst)
unfolding read_tcp4
read_tcp4_dst p ihl h e = (ground arith, ground arith)

-- The four writes of both rewritings, in the two orders, give these reads.
module _ (p : Bytes) (ihl : ℕ) (header : 20 ≤ ihl) (whole : ihl + 20 ≤ length p) (src dst : Ipv4)
    (src_port dst_port flags : ℕ) (fits_src : src_port < 65536) (fits_dst : dst_port < 65536)
    (flagged : get_elem? p (ihl + 13) ≡ some flags) where
  abbrev after : TcpHeader
  after = record { src_port = src_port; dst_port = dst_port; flags = flags; src = src; dst = dst }

  byte_after :
      {q r bs : Bytes} {i : ℕ}
      → Wrote q i bs r
      → i + length bs ≤ ihl + 4
      → get_elem? r (ihl + 13) ≡ get_elem? q (ihl + 13)
  byte_after w before = byte-Apart w (ihl + 13) (inr (omega arith))

  hijacked_reads :
      (p1 p2 p3 p4 : Bytes)
      → Wrote p 12 (src.b0 ∷ src.b1 ∷ src.b2 ∷ src.b3 ∷ []) p1
      → Wrote p1 16 (dst.b0 ∷ dst.b1 ∷ dst.b2 ∷ dst.b3 ∷ []) p2
      → Wrote p2 ihl (src_port / 256 % 256 ∷ src_port % 256 ∷ []) p3
      → Wrote p3 (ihl + 2) (dst_port / 256 % 256 ∷ dst_port % 256 ∷ []) p4
      → read_tcp4 p4 ihl ≡ some after
  hijacked_reads p1 p2 p3 p4 w1 w2 w3 w4 =
      read_tcp4_from p4 ihl src_port dst_port flags src dst
        (be16-Apart w4 ihl (inl (omega arith)) ∙ be16-Wrote src_port w3 fits_src)
        (be16-Wrote dst_port w4 fits_dst)
        (byte_after w4 (omega arith)
          ∙ byte_after w3 (omega arith)
          ∙ byte_after w2 (omega arith)
          ∙ byte_after w1 (omega arith)
          ∙ flagged)
        (read_ip4-Apart w4 16 (inl (omega arith))
          ∙ read_ip4-Apart w3 16 (inl (omega arith))
          ∙ read_ip4-Wrote dst w2)
        (read_ip4-Apart w4 12 (inl (omega arith))
          ∙ read_ip4-Apart w3 12 (inl (omega arith))
          ∙ read_ip4-Apart w2 12 (inl (omega arith))
          ∙ read_ip4-Wrote src w1)

  reply_reads :
      (p1 p2 p3 p4 : Bytes)
      → Wrote p 12 (src.b0 ∷ src.b1 ∷ src.b2 ∷ src.b3 ∷ []) p1
      → Wrote p1 ihl (src_port / 256 % 256 ∷ src_port % 256 ∷ []) p2
      → Wrote p2 16 (dst.b0 ∷ dst.b1 ∷ dst.b2 ∷ dst.b3 ∷ []) p3
      → Wrote p3 (ihl + 2) (dst_port / 256 % 256 ∷ dst_port % 256 ∷ []) p4
      → read_tcp4 p4 ihl ≡ some after
  reply_reads p1 p2 p3 p4 w1 w2 w3 w4 =
      read_tcp4_from p4 ihl src_port dst_port flags src dst
        (be16-Apart w4 ihl (inl (omega arith))
          ∙ be16-Apart w3 ihl (inr (omega arith))
          ∙ be16-Wrote src_port w2 fits_src)
        (be16-Wrote dst_port w4 fits_dst)
        (byte_after w4 (omega arith)
          ∙ byte_after w3 (omega arith)
          ∙ byte_after w2 (omega arith)
          ∙ byte_after w1 (omega arith)
          ∙ flagged)
        (read_ip4-Apart w4 16 (inl (omega arith)) ∙ read_ip4-Wrote dst w3)
        (read_ip4-Apart w4 12 (inl (omega arith))
          ∙ read_ip4-Apart w3 12 (inl (omega arith))
          ∙ read_ip4-Apart w2 12 (inl (omega arith))
          ∙ read_ip4-Wrote src w1)

-- What a rewriting gives, as its header is read, and nothing else.
pub record Reads (r : Option (Bytes × WinDivertAddress)) (ihl : ℕ) (h : TcpHeader)
    (addr : WinDivertAddress) : Type 0 where
  pub out : Bytes
  pub result : r ≡ some (out, addr)
  pub reads : read_tcp4 out ihl ≡ some h

module _ (p : Bytes) (addr : WinDivertAddress) (ihl : ℕ) (header : 20 ≤ ihl)
    (whole : ihl + 20 ≤ length p) (h : TcpHeader) (read : read_tcp4 p ihl ≡ some h) where
  pub rewrite_hijack-Reads :
      (mapped tproxy : ℕ)
      → mapped < 65536
      → tproxy < 65536
      → Reads
          (rewrite_hijack p addr ihl mapped tproxy)
          ihl
          (record {
            src_port = mapped;
            dst_port = tproxy;
            flags = h.flags;
            src = loopback_v4;
            dst = loopback_v4;
          })
          (record addr { bits = bit_or addr.bits loopback_flags })
  unfolding rewrite_hijack
  rewrite_hijack-Reads mapped tproxy fits fits' =
      let (p1, e1, w1) = put_ip4-Wrote p 12 loopback_v4 (omega arith) in
      let (p2, e2, w2) = put_ip4-Wrote p1 16 loopback_v4 (omega (arith, w1.size)) in
      let (p3, e3, w3) = put_be16-Wrote p2 ihl mapped (omega (arith, w1.size, w2.size)) in
      let (p4, e4, w4) =
        put_be16-Wrote p3 (ihl + 2) tproxy (omega (arith, w1.size, w2.size, w3.size)) in
      record {
        out = p4;
        result = rw (e1, e2, e3, e4) refl;
        reads =
            hijacked_reads p ihl header whole loopback_v4 loopback_v4 mapped tproxy h.flags fits
              fits' (read_tcp4_flags p ihl h read) p1 p2 p3 p4 w1 w2 w3 w4;
      }

  pub rewrite_reply-Reads :
      (target : ConnTarget)
      → target.orig_src_port < 65536
      → target.orig_dst_port < 65536
      → Reads
          (rewrite_reply p addr ihl target)
          ihl
          (record {
            src_port = target.orig_dst_port;
            dst_port = target.orig_src_port;
            flags = h.flags;
            src = target.orig_dst_ip;
            dst = target.orig_src_ip;
          })
          (nat_address addr target)
  unfolding rewrite_reply
  rewrite_reply-Reads target fits fits' =
      let (p1, e1, w1) = put_ip4-Wrote p 12 target.orig_dst_ip (omega arith) in
      let (p2, e2, w2) = put_be16-Wrote p1 ihl target.orig_dst_port (omega (arith, w1.size)) in
      let (p3, e3, w3) = put_ip4-Wrote p2 16 target.orig_src_ip (omega (arith, w1.size, w2.size)) in
      let (p4, e4, w4) =
        put_be16-Wrote p3 (ihl + 2) target.orig_src_port
          (omega (arith, w1.size, w2.size, w3.size)) in
      record {
        out = p4;
        result = rw (e1, e2, e3, e4) refl;
        reads =
            reply_reads p ihl header whole target.orig_dst_ip target.orig_src_ip
              target.orig_dst_port target.orig_src_port h.flags fits' fits
              (read_tcp4_flags p ihl h read) p1 p2 p3 p4 w1 w2 w3 w4;
      }
