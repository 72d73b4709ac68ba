-- ===== src/Engine/Connect/Opened.antt =====
-- httpproxy.go, `Dial`: what the caller gets.
use go_pass.Base.{
  ℕ, ◌≡◌, refl, true, false, not, [], ◌∷◌, ◌++◌, Option, none, some, inl, inr, arith, Bool-cases,
  Option-cases, ◌==◌, if◌then◌else◌, Text, Bytes, codes, length,
}
use go_pass.Engine.Upstream.{HttpProxyDialer}
use go_pass.Engine.Connect.{
  Peer, ConnectError, not_connected, bad_target, bad_request, not_sent, no_response, rejected,
  Dialed, fail, connect_request, opened, dial,
}

-- A connection to the target: open, without a deadline, after an answer of 200 to the request, and giving all bytes
-- that came after the answer's header.
pub record Tunnels (p : Peer) (d : HttpProxyDialer) (r : Dialed) : Type 0 where
  pub stays_open : r.is_open ≡ true
  pub no_deadline : r.has_deadline ≡ false
  pub target : Text
  pub asked : r.sent ≡ some (connect_request p d target)
  pub left : Bytes
  pub answered : p.read_response ≡ some (200, left)
  pub all_read : r.reads ≡ left ++ p.later

abbrev pub Ended : Peer → HttpProxyDialer → Dialed → Option ConnectError → Type 0
Ended p d r none = Tunnels p d r
Ended p d r (some e) = r.is_open ≡ false

all_bytes :
    (left later : Bytes) → (if not (length left == 0) then left ++ later else later) ≡ left ++ later
all_bytes [] later = refl
all_bytes (b ∷ left) later = ground arith

opened-Tunnels :
    (p : Peer) (d : HttpProxyDialer) (target : Text) (status : ℕ) (left : Bytes)
    → (status == 200) ≡ true
    → p.read_response ≡ some (status, left)
    → Tunnels p d (opened p (connect_request p d target) left)
opened-Tunnels p d target status left good answered = record {
  stays_open = refl;
  no_deadline = refl;
  target = target;
  asked = refl;
  left = left;
  answered = let same : status ≡ 200 = ground arith in rw⁻¹ same answered;
  all_read = all_bytes left p.later;
}

dial_from :
    (p : Peer) (d : HttpProxyDialer) (addr : Text) (r : Dialed)
    → dial p d addr ≡ r
    → Ended p d r r.failure
    → Ended p d (dial p d addr) (dial p d addr).failure
dial_from p d addr r e h = rw e h

-- Whatever the proxy and the network do: if `Dial` reports an error, no connection is left open; if it reports none,
-- the proxy has answered the request with 200, the connection is open and has no deadline, and its reader gets every
-- byte that came after the answer's header, those in the reader's buffer first.
pub dial_lem :
    (p : Peer) (d : HttpProxyDialer) (addr : Text)
    → Ended p d (dial p d addr) (dial p d addr).failure
unfolding dial
dial_lem p d addr = elim (Bool-cases (p.dials d.proxy_addr)) [
  | inr off ↦
      dial_from p d addr
        (record {
          failure = some not_connected;
          is_open = false;
          has_deadline = false;
          sent = none;
          reads = [];
        })
        (rw (off, dial) refl) refl
  | inl on ↦ elim (Option-cases (p.parses (codes "http://" ++ addr))) [
    | inl e ↦ dial_from p d addr (fail none bad_target) (rw (on, dial, e) refl) refl
    | inr (target, e) ↦ elim (Bool-cases (p.makes target)) [
      | inr bad ↦ dial_from p d addr (fail none bad_request) (rw (on, dial, e, bad) refl) refl
      | inl made ↦ elim (Bool-cases (p.writes (connect_request p d target))) [
        | inr lost ↦
            dial_from p d addr (fail none not_sent) (rw (on, dial, e, made, lost) refl) refl
        | inl written ↦ elim (Option-cases p.read_response) [
          | inl silent ↦
              dial_from p d addr (fail (some (connect_request p d target)) no_response)
                (rw (on, dial, e, made, written, silent) refl) refl
          | inr ((status, left), answered) ↦ elim (Bool-cases (status == 200)) [
            | inr bad ↦
                dial_from p d addr (fail (some (connect_request p d target)) (rejected status))
                  (rw (on, dial, e, made, written, answered, bad) refl) refl
            | inl good ↦
                dial_from p d addr (opened p (connect_request p d target) left)
                  (rw (on, dial, e, made, written, answered, good) refl)
                  (opened-Tunnels p d target status left good answered)
          ]
        ]
      ]
    ]
  ]
]
