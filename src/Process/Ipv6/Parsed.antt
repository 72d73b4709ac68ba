-- ===== src/Process/Ipv6/Parsed.antt =====
-- ipv6_windows.go and ipv6refresh_windows.go: what is found in a parsed table, and the gate.
use go_pass.Base.{
  ℕ, ◌≡◌, refl, Option, none, some, false, arith, ite, ltb, Bytes, Text, List, [], ◌∷◌, length,
  drop, Returns, returns, read_le32, read_le32-lt, slice_to-le, slice_to-front, lookup,
  lookup-insert,
}
use go_pass.Process.Flows.{Ipv6TcpFlow-discrete, Ipv6UdpFlow-discrete}
use go_pass.Process.Rows.Fold.{chunks}
use go_pass.Process.Rows.Scan.{last_row, meaning, or_else, row_loop-Scanned}
use go_pass.Process.Resolver.Refresh.{IsTableOf}
use go_pass.Process.Ipv6.{
  decode_tcp6, decode_udp6, add_named, parse_ipv6_tcp_rows, parse_ipv6_udp_rows,
}

decode_tcp6-Returns : (row : Bytes) → length row ≡ 56 → Returns (decode_tcp6 row)
unfolding decode_tcp6
decode_tcp6-Returns row h =
    let (a, e0) = read_le32-lt row 48 (omega arith) in
    let (b, e1) = read_le32-lt row 20 (omega arith) in
    let (c, e2) = read_le32-lt row 44 (omega arith) in
    let (d, e3) = read_le32-lt row 52 (omega arith) in
    rw (e0, slice_to-front row 16 (omega arith), slice_to-le row 24 16 (omega arith), e1, e2, e3)
      (returns _)

decode_udp6-Returns : (row : Bytes) → length row ≡ 28 → Returns (decode_udp6 row)
unfolding decode_udp6
decode_udp6-Returns row h =
    let (b, e1) = read_le32-lt row 20 (omega arith) in
    let (c, e2) = read_le32-lt row 24 (omega arith) in
    rw (slice_to-front row 16 (omega arith), e1, e2) (returns _)

-- A process without a name counts for nothing.
abbrev pub name_value : (ℕ → Text) → ℕ → Option Text
name_value names pid = elim (names pid) [ [] ↦ none | c ∷ cs ↦ some (c ∷ cs) ]

-- A source of names: in a good state it gives the name of each process and stays in a good state.
pub record IsNaming {C : Type 0} (names : ℕ → Text) (name_of : C → ℕ → C × Text) (Good : C → Type 0)
    : Type 0 where
  pub gives : (c : C) (pid : ℕ) → Good c → (name_of c pid).1 ≡ names pid
  pub stays : (c : C) (pid : ℕ) → Good c → Good (name_of c pid).0

module _ {C K : Type 0} (dec : Discrete K) (names : ℕ → Text) (name_of : C → ℕ → C × Text)
    (Good : C → Type 0) (naming : IsNaming names name_of Good) where
  add_named-stays :
      (s : C × List (K × Text)) (k : K) (pid : ℕ)
      → Good s.0
      → Good (add_named dec name_of s k pid).0
  unfolding add_named
  add_named-stays s k pid good = go (name_of s.0 pid).1 refl
    where
      go : (t : Text) → (name_of s.0 pid).1 ≡ t → Good (add_named dec name_of s k pid).0
      go [] e = rw (e, add_named) (naming.stays s.0 pid good)
      go (c ∷ cs) e = rw (e, add_named) (naming.stays s.0 pid good)

  view_name-add_named :
      (s : C × List (K × Text)) (k : K) (pid : ℕ) (j : K)
      → Good s.0
      → lookup dec j (add_named dec name_of s k pid).1
        ≡ ite (dec k j) (or_else (name_value names pid) (lookup dec j s.1)) (lookup dec j s.1)
  unfolding add_named
  view_name-add_named s k pid j good = go (names pid) refl
    where
      go :
          (t : Text)
          → names pid ≡ t
          → lookup dec j (add_named dec name_of s k pid).1
            ≡ ite (dec k j) (or_else (name_value names pid) (lookup dec j s.1)) (lookup dec j s.1)
      go [] e = ground (arith, naming.gives s.0 pid good)
      go (c ∷ cs) e = ground (arith, naming.gives s.0 pid good, lookup-insert dec j k (c ∷ cs) s.1)

-- A parse that ends: names still come from a good state, and each key has the name of its last row.
pub record Parsed {C K : Type 0} (dec : Discrete K) (decode : Bytes → Option (Option (K × ℕ)))
    (names : ℕ → Text) (Good : C → Type 0) (rows : List Bytes) (r : Option (C × List (K × Text)))
    : Type 0 where
  pub end : C × List (K × Text)
  pub result : r ≡ some end
  pub good : Good end.0
  pub found :
      (j : K) → lookup dec j end.1 ≡ last_row dec (meaning decode) (name_value names) j rows none

module _ {C : Type 0} (names : ℕ → Text) (name_of : C → ℕ → C × Text) (Good : C → Type 0)
    (naming : IsNaming names name_of Good) (c : C) (good : Good c) (buf : Bytes) (count : ℕ)
    (counted : read_le32 buf 0 ≡ some count) where
  -- On a table of IPv6 TCP connections with its count, and with a source that gives the name of each
  -- process, the parser ends with no access out of range, and finds for every flow the name of the
  -- last row that has the flow, is not closed and has a process with a name.
  pub parse_ipv6_tcp_rows_lem :
      IsTableOf 56 buf
      → Parsed Ipv6TcpFlow-discrete decode_tcp6 names Good
          (chunks 56 count (drop 4 buf))
          (parse_ipv6_tcp_rows name_of c buf)
  unfolding parse_ipv6_tcp_rows lookup
  parse_ipv6_tcp_rows_lem t =
      let scan =
        row_loop-Scanned Ipv6TcpFlow-discrete decode_tcp6 (add_named Ipv6TcpFlow-discrete name_of)
          56 decode_tcp6-Returns (λ s. Good s.0) (λ s j. lookup Ipv6TcpFlow-discrete j s.1)
          (name_value names) (add_named-stays Ipv6TcpFlow-discrete names name_of Good naming)
          (view_name-add_named Ipv6TcpFlow-discrete names name_of Good naming) buf count (c, [])
          t.enough t.small good in
      let long : ltb (length buf) 4 ≡ false = ground (arith, t.enough) in
      record {
        end = scan.end;
        result = rw (long, counted) scan.result;
        good = scan.kept;
        found = scan.found;
      }

  -- The same of a table of IPv6 UDP endpoints.
  pub parse_ipv6_udp_rows_lem :
      IsTableOf 28 buf
      → Parsed Ipv6UdpFlow-discrete decode_udp6 names Good
          (chunks 28 count (drop 4 buf))
          (parse_ipv6_udp_rows name_of c buf)
  unfolding parse_ipv6_udp_rows lookup
  parse_ipv6_udp_rows_lem t =
      let scan =
        row_loop-Scanned Ipv6UdpFlow-discrete decode_udp6 (add_named Ipv6UdpFlow-discrete name_of)
          28 decode_udp6-Returns (λ s. Good s.0) (λ s j. lookup Ipv6UdpFlow-discrete j s.1)
          (name_value names) (add_named-stays Ipv6UdpFlow-discrete names name_of Good naming)
          (view_name-add_named Ipv6UdpFlow-discrete names name_of Good naming) buf count (c, [])
          t.enough t.small good in
      let long : ltb (length buf) 4 ≡ false = ground (arith, t.enough) in
      record {
        end = scan.end;
        result = rw (long, counted) scan.result;
        good = scan.kept;
        found = scan.found;
      }
