-- ===== src/Engine/Tunnel/Carried.antt =====
-- tproxy.go, `handleConn`: what goes to the target, and the shared state afterwards.
use go_pass.Base.{
  ℕ, ◌≡◌, ◌∙◌, ap, refl, sym, not, ◌&&◌, [], ◌++◌, append_assoc, Option, none, some, inl, inr,
  arith, ◌==◌, Bool-cases, Option-cases, Text, length,
}
use go_pass.Engine.ConnTrack.{ConnKey, ConnTarget, get, activate, delete}
use go_pass.Engine.ConnTrack.Invariant.{Inv}
use go_pass.Engine.ConnTrack.Remove.{delete_lem, activate_lem}
use go_pass.Engine.Stats.{add_active_conn}
use go_pass.Engine.Stats.Counted.{IsCounted, add_active_conn-IsCounted}
use go_pass.Engine.Tunnel.{
  Conn, Shared, Upstream, Sniffed, Handled, refused, no_target, not_dialed, not_written, tunnel,
  sniff, connect, handle_conn, ended, original_target, conn_id, named_target,
}
use go_pass.Engine.Tunnel.Sniffing.{read_tls_client_hello-Reads}

-- What is kept of what was read, and what is left on the connection, are what arrived.
pub record Sniffs (conn : Conn) (r : Option Sniffed) : Type 0 where
  pub found : Sniffed
  pub result : r ≡ some found
  pub replayed : found.peek_buf ++ (found.left ++ conn.later) ≡ conn.arriving ++ conn.later

sniff_lem : (conn : Conn) (target : ConnTarget) (addr : Text) → Sniffs conn (sniff conn target addr)
unfolding sniff
sniff_lem conn target addr =
    let read = read_tls_client_hello-Reads conn.arriving in
    elim (Bool-cases (target.orig_dst_port == 443)) [
      | inr plain ↦
          rw (sniff, plain)
            (record {
              found = record { peek_buf = []; target_addr = addr; left = conn.arriving };
              result = refl;
              replayed = refl;
            })
      | inl tls ↦ record {
        found = record {
          peek_buf = read.hello.buf;
          target_addr = named_target target addr read.hello.sni;
          left = read.hello.left;
        };
        result = rw (sniff, tls, read.result) refl;
        replayed =
            sym (append_assoc read.hello.buf read.hello.left conn.later)
            ∙ ap (λ b. b ++ conn.later) read.joined;
      }
    ]

-- Everything the client sent is what goes to the target.
abbrev pub IsCarried : Conn → Handled → Type 0
IsCarried conn (tunnel id addr sent) = sent ≡ conn.arriving ++ conn.later
IsCarried conn refused = Unit {0}
IsCarried conn no_target = Unit {0}
IsCarried conn (not_dialed addr) = Unit {0}
IsCarried conn (not_written addr) = Unit {0}

-- The tracker's invariant, and a count of connections that is right.
abbrev pub IsSound : Shared → Type 0
IsSound sh = Inv sh.tracker × IsCounted sh.stats

-- A connection that was taken up leaves no entry.
abbrev pub IsCleared : Conn → Shared × Handled → Type 0
IsCleared conn (sh, refused) = Unit {0}
IsCleared conn (sh, outcome) =
    (src_ip : Text) (src_port : ℕ)
    → conn.remote_addr ≡ some (src_ip, src_port)
    → get sh.tracker src_ip src_port ≡ none

pub record Handles (conn : Conn) (r : Option (Shared × Handled)) : Type 0 where
  pub after : Shared × Handled
  pub result : r ≡ some after
  pub carried : IsCarried conn after.1
  pub sound : IsSound after.0
  pub cleared : IsCleared conn after

module _ (up : Upstream) (conn : Conn) (waited : Shared → Shared)
    (kept : (sh : Shared) → IsSound sh → IsSound (waited sh)) where
  connect_lem :
      (id : Text) (found : Sniffed) (sh : Shared)
      → found.peek_buf ++ (found.left ++ conn.later) ≡ conn.arriving ++ conn.later
      → IsSound sh
      → IsCarried conn (connect up conn id found waited sh).1
        × IsSound (connect up conn id found waited sh).0
  unfolding connect
  connect_lem id found sh whole sound = elim (Bool-cases (not (up.dials found.target_addr))) [
    | inl down ↦ rw (connect, down) (tt, kept sh sound)
    | inr dialed ↦
        elim (Bool-cases (not (length found.peek_buf == 0) && not (up.accepts found.peek_buf))) [
          | inl broken ↦ rw (connect, dialed, broken) (tt, kept sh sound)
          | inr written ↦
              let counted = (add_active_conn-IsCounted id found.target_addr sh.stats sound.1).0 in
              let later =
                kept (record sh { stats = add_active_conn id found.target_addr sh.stats })
                  (sound.0, counted) in
              rw (connect, dialed, written)
                (whole, (later.0, (add_active_conn-IsCounted id found.target_addr _ later.1).1))
        ]
  ]

  IsCleared-any :
      (sh : Shared) (outcome : Handled)
      → ((src_ip : Text) (src_port : ℕ)
          → conn.remote_addr ≡ some (src_ip, src_port)
          → get sh.tracker src_ip src_port ≡ none)
      → IsCleared conn (sh, outcome)
  IsCleared-any sh refused gone = tt
  IsCleared-any sh no_target gone = gone
  IsCleared-any sh (not_dialed addr) gone = gone
  IsCleared-any sh (not_written addr) gone = gone
  IsCleared-any sh (tunnel id addr sent) gone = gone

  ended_lem :
      (src_ip : Text) (src_port : ℕ) (r : Shared × Handled) (all : Option (Shared × Handled))
      → all ≡ some (ended src_ip src_port r)
      → conn.remote_addr ≡ some (src_ip, src_port)
      → IsCarried conn r.1
      → IsSound r.0
      → Handles conn all
  unfolding get
  ended_lem src_ip src_port (sh, outcome) all e from carried sound =
      let key : ConnKey = record { src_ip = src_ip; src_port = src_port } in
      let (inv, gone) = delete_lem sh.tracker key sound.0 in
      record {
        after = ended src_ip src_port (sh, outcome);
        result = e;
        carried = carried;
        sound = (inv, sound.1);
        cleared =
            IsCleared-any (record sh { tracker = delete sh.tracker src_ip src_port }) outcome
              λ ip port same.
                let here : get (delete sh.tracker src_ip src_port) src_ip src_port ≡ none =
                  ground (arith, gone key) in
                let ips : ip ≡ src_ip = cc (from, same) in
                let ports : port ≡ src_port = cc (from, same) in rw (ips, ports) here;
      }

  sniffed_lem :
      (src_ip : Text) (src_port : ℕ) (target : ConnTarget) (addr : Text) (found : Sniffed)
      (sh : Shared)
      → conn.remote_addr ≡ some (src_ip, src_port)
      → get sh.tracker src_ip src_port ≡ some target
      → original_target target.orig_dst_ip target.orig_dst_port ≡ some addr
      → sniff conn target addr ≡ some found
      → found.peek_buf ++ (found.left ++ conn.later) ≡ conn.arriving ++ conn.later
      → IsSound (record sh { tracker = activate sh.tracker src_ip src_port })
      → Handles conn (handle_conn up conn waited sh)
  unfolding handle_conn
  sniffed_lem src_ip src_port target addr found sh e known somewhere sniffed whole still =
      let active : Shared = record sh { tracker = activate sh.tracker src_ip src_port } in
      let id = conn_id src_ip src_port in
      let (carried, after) = connect_lem id found active whole still in
      ended_lem src_ip src_port (connect up conn id found waited active) _
        (rw (handle_conn, e, known, somewhere, sniffed) refl) e carried after

  -- On a sound state, and with a rest of the program that keeps it so, the handling of a connection
  -- ends without an index out of range, whatever the client sends; what goes to the target through a
  -- tunnel whose copying meets no error is everything that the client sent, in order, the bytes read
  -- to find the name included; the state is sound again; and unless the connection was refused at
  -- once, the tracker has no entry for it.
  pub handle_conn_lem : (sh : Shared) → IsSound sh → Handles conn (handle_conn up conn waited sh)
  unfolding handle_conn
  handle_conn_lem sh sound = elim (Option-cases (conn.remote_addr)) [
    | inl nil ↦
        rw (handle_conn, nil)
          (record {
            after = (sh, refused);
            result = refl;
            carried = tt;
            sound = sound;
            cleared = tt;
          })
    | inr (from, e) ↦ elim (Option-cases (get sh.tracker from.0 from.1)) [
      | inl unknown ↦
          rw (handle_conn, e, unknown)
            (record {
              after = (sh, refused);
              result = refl;
              carried = tt;
              sound = sound;
              cleared = tt;
            })
      | inr (target, known) ↦
          let active : Shared = record sh { tracker = activate sh.tracker from.0 from.1 } in
          let key : ConnKey = record { src_ip = from.0; src_port = from.1 } in
          let still : IsSound active = ((activate_lem sh.tracker key sound.0).0, sound.1) in
          elim (Option-cases (original_target target.orig_dst_ip target.orig_dst_port)) [
            | inl nowhere ↦
                ended_lem from.0 from.1 (active, no_target) _
                  (rw (handle_conn, e, known, nowhere) refl) e tt still
            | inr (addr, somewhere) ↦
                let s = sniff_lem conn target addr in
                sniffed_lem from.0 from.1 target addr s.found sh e known somewhere s.result
                  s.replayed still
          ]
    ]
  ]
