-- ===== src/Process/Rows/Layout.antt =====
-- The rows of the TCP tables, as the headers of Windows lay them out: MIB_TCPROW_OWNER_PID and
-- MIB_TCP6ROW_OWNER_PID. A port is in network order, every other number in the machine's.
use go_pass.Base.{
  ℕ, zero, suc, ◌+◌, ◌*◌, ◌%◌, ◌<◌, ◌≡◌, refl, sym, ap, ite, ◌∙◌, Option, none, some, Bool, ◌&&◌,
  ◌==◌, inl, inr, arith, ltb, if◌then◌else◌, Bool-cases, Bytes, [], ◌∷◌, All, length,
  length-take_of_le, take, drop, get_elem?, read_le32, slice_to, slice_to-front, slice_to-le,
}
use go_pass.Process.Flows.{Flow, Ipv6TcpFlow, ntohs}
use go_pass.Process.Rows.Fold.{chunks}
use go_pass.Process.Rows.Scan.{last_row, meaning, or_else}
use go_pass.Process.Resolver.{decode_tcp}
use go_pass.Process.Ipv6.{decode_tcp6}

abbrev pub IsBytes : Bytes → Type 0
IsBytes bs = All (λ (b : ℕ). b < 256) bs

abbrev pub byte_at : ℕ → Bytes → ℕ
byte_at i row = elim (get_elem? row i) [ none ↦ 0 | some b ↦ b ]

abbrev pub number_at : ℕ → Bytes → ℕ
number_at i row =
    byte_at i row
    + 256 * byte_at (i + 1) row
    + 65536 * byte_at (i + 2) row
    + 16777216 * byte_at (i + 3) row

abbrev pub port_at : ℕ → Bytes → ℕ
port_at i row = 256 * byte_at i row + byte_at (i + 1) row

-- MIB_TCP_STATE_CLOSED is 1.
abbrev pub closed_at : ℕ → Bytes → Bool
closed_at i row =
    byte_at i row == 1
    && byte_at (i + 1) row == 0
    && byte_at (i + 2) row == 0
    && byte_at (i + 3) row == 0

-- A row of 24 bytes: the state, the local address and port, the remote ones, and the process.
abbrev pub tcp_row : Bytes → Option (Flow × ℕ)
tcp_row row =
    if closed_at 0 row
    then none
    else some (
      record {
        local_ip = number_at 4 row;
        local_port = port_at 8 row;
        remote_ip = number_at 12 row;
        remote_port = port_at 16 row;
      },
      number_at 20 row,
    )

-- A row of 56 bytes: the local address, its scope and port, the remote ones, the state and the process.
abbrev pub tcp6_row : Bytes → Option (Ipv6TcpFlow × ℕ)
tcp6_row row =
    if closed_at 48 row
    then none
    else some (
      record {
        local_ip = take 16 row;
        local_port = port_at 20 row;
        remote_ip = take 16 (drop 24 row);
        remote_port = port_at 44 row;
      },
      number_at 52 row,
    )

get_elem?-byte_at : (row : Bytes) (i : ℕ) → i < length row → get_elem? row i ≡ some (byte_at i row)
get_elem?-byte_at [] i h = absurd (omega arith)
get_elem?-byte_at (b ∷ row) zero h = refl
get_elem?-byte_at (b ∷ row) (suc i) h = get_elem?-byte_at row i (omega arith)

byte_at-lt : (row : Bytes) (i : ℕ) → IsBytes row → byte_at i row < 256
byte_at-lt [] i h = omega arith
byte_at-lt (b ∷ row) zero (small, h) = small
byte_at-lt (b ∷ row) (suc i) (small, h) = byte_at-lt row i h

read_le32-number_at :
    (row : Bytes) (i : ℕ) → i + 3 < length row → read_le32 row i ≡ some (number_at i row)
unfolding read_le32
read_le32-number_at row i h =
    rw
      (
        get_elem?-byte_at row i (omega arith),
        get_elem?-byte_at row (i + 1) (omega arith),
        get_elem?-byte_at row (i + 2) (omega arith),
        get_elem?-byte_at row (i + 3) h,
      )
      refl

ntohs-port :
    (a b c d : ℕ)
    → a < 256
    → b < 256
    → ntohs ((a + 256 * b + 65536 * c + 16777216 * d) % 65536) ≡ 256 * a + b
unfolding ntohs
ntohs-port a b c d ha hb = omega arith

ntohs-port_at :
    (row : Bytes) (i : ℕ) → IsBytes row → ntohs (number_at i row % 65536) ≡ port_at i row
ntohs-port_at row i h =
    ntohs-port (byte_at i row) (byte_at (i + 1) row) (byte_at (i + 2) row) (byte_at (i + 3) row)
      (byte_at-lt row i h) (byte_at-lt row (i + 1) h)

closed_number :
    (a b c d : ℕ)
    → a < 256
    → (a + 256 * b + 65536 * c + 16777216 * d == 1) ≡ (a == 1 && b == 0 && c == 0 && d == 0)
closed_number a b c d h = ground arith

closed_at_lem : (row : Bytes) (i : ℕ) → IsBytes row → (number_at i row == 1) ≡ closed_at i row
closed_at_lem row i h =
    closed_number (byte_at i row) (byte_at (i + 1) row) (byte_at (i + 2) row) (byte_at (i + 3) row)
      (byte_at-lt row i h)

said : {K : Type 0} → Option (Option (K × ℕ)) → Option (K × ℕ)
said none = none
said (some m) = m

decode_tcp-reads :
    (row : Bytes) (state local port remote port' pid p q : ℕ) (z : Bool)
    → read_le32 row 0 ≡ some state
    → read_le32 row 4 ≡ some local
    → read_le32 row 8 ≡ some port
    → read_le32 row 12 ≡ some remote
    → read_le32 row 16 ≡ some port'
    → read_le32 row 20 ≡ some pid
    → ntohs (port % 65536) ≡ p
    → ntohs (port' % 65536) ≡ q
    → (state == 1) ≡ z
    → decode_tcp row
      ≡ some (
          if z
          then none
          else some (
            record { local_ip = local; local_port = p; remote_ip = remote; remote_port = q },
            pid,
          ))
unfolding decode_tcp
decode_tcp-reads row state local port remote port' pid p q z a b c d e f g h k =
    rw (a, b, c, d, e, f, g, h, k) refl

decode_tcp-tcp_row :
    (row : Bytes) → length row ≡ 24 → IsBytes row → meaning decode_tcp row ≡ tcp_row row
unfolding said
decode_tcp-tcp_row row size h = ap (said {K = Flow}) (
    decode_tcp-reads row _ _ _ _ _ _ _ _ _ (read_le32-number_at row 0 (omega arith))
      (read_le32-number_at row 4 (omega arith)) (read_le32-number_at row 8 (omega arith))
      (read_le32-number_at row 12 (omega arith)) (read_le32-number_at row 16 (omega arith))
      (read_le32-number_at row 20 (omega arith)) (ntohs-port_at row 8 h) (ntohs-port_at row 16 h)
      (closed_at_lem row 0 h))

decode_tcp6-reads :
    (row local remote : Bytes) (state port port' pid p q : ℕ) (z : Bool)
    → read_le32 row 48 ≡ some state
    → slice_to row 0 16 ≡ some local
    → slice_to row 24 40 ≡ some remote
    → read_le32 row 20 ≡ some port
    → read_le32 row 44 ≡ some port'
    → read_le32 row 52 ≡ some pid
    → ntohs (port % 65536) ≡ p
    → ntohs (port' % 65536) ≡ q
    → (state == 1) ≡ z
    → decode_tcp6 row
      ≡ some (
          if z
          then none
          else some (
            record { local_ip = local; local_port = p; remote_ip = remote; remote_port = q },
            pid,
          ))
unfolding decode_tcp6
decode_tcp6-reads row local remote state port port' pid p q z a b c d e f g h k =
    rw (a, b, c, d, e, f, g, h, k) refl

decode_tcp6-tcp6_row :
    (row : Bytes) → length row ≡ 56 → IsBytes row → meaning decode_tcp6 row ≡ tcp6_row row
unfolding said
decode_tcp6-tcp6_row row size h = ap (said {K = Ipv6TcpFlow}) (
    decode_tcp6-reads row _ _ _ _ _ _ _ _ _ (read_le32-number_at row 48 (omega arith))
      (slice_to-front row 16 (omega arith)) (slice_to-le row 24 16 (omega arith))
      (read_le32-number_at row 20 (omega arith)) (read_le32-number_at row 44 (omega arith))
      (read_le32-number_at row 52 (omega arith)) (ntohs-port_at row 20 h) (ntohs-port_at row 44 h)
      (closed_at_lem row 48 h))

take-IsBytes : (n : ℕ) (bs : Bytes) → IsBytes bs → IsBytes (take n bs)
take-IsBytes zero bs h = tt
take-IsBytes (suc n) [] h = tt
take-IsBytes (suc n) (b ∷ bs) (small, h) = (small, take-IsBytes n bs h)

drop-IsBytes : (n : ℕ) (bs : Bytes) → IsBytes bs → IsBytes (drop n bs)
drop-IsBytes zero bs h = h
drop-IsBytes (suc n) [] h = tt
drop-IsBytes (suc n) (b ∷ bs) (small, h) = drop-IsBytes n bs h

-- Two ways to read rows of a size that agree find the same.
module _ {K V : Type 0} (dec : Discrete K) (says says' : Bytes → Option (K × ℕ))
    (value : ℕ → Option V) (j : K) (row_size : ℕ)
    (agree : (row : Bytes) → length row ≡ row_size → IsBytes row → says row ≡ says' row) where
  found : Option (K × ℕ) → Option V → Option V
  found m before = elim m [
    | none ↦ before
    | some (k, pid) ↦ ite (dec k j) (or_else (value pid) before) before
  ]

  last_row-chunks :
      (left : ℕ) (bs : Bytes) (before : Option V)
      → IsBytes bs
      → last_row dec says value j (chunks row_size left bs) before
        ≡ last_row dec says' value j (chunks row_size left bs) before
  unfolding found
  last_row-chunks zero bs before h = refl
  last_row-chunks (suc left) bs before h = elim (Bool-cases (ltb (length bs) row_size)) [
    | inl short ↦ rw short refl
    | inr whole ↦
        let size : length (take row_size bs) ≡ row_size =
          length-take_of_le row_size bs (ground arith) in
        let rows = chunks row_size left (drop row_size bs) in
        let cut : chunks row_size (suc left) bs ≡ take row_size bs ∷ rows = rw whole refl in
        ap (λ c. last_row dec says value j c before) cut
        ∙ ap (λ m. last_row dec says value j rows (found m before))
            (agree (take row_size bs) size (take-IsBytes row_size bs h))
        ∙ last_row-chunks left (drop row_size bs) _ (drop-IsBytes row_size bs h)
        ∙ ap (λ c. last_row dec says' value j c before) (sym cut)
  ]

pub last_row-tcp_row :
    {V : Type 0} (dec : Discrete Flow) (value : ℕ → Option V) (j : Flow) (count : ℕ) (bs : Bytes)
    → IsBytes bs
    → last_row dec (meaning decode_tcp) value j (chunks 24 count (drop 4 bs)) none
      ≡ last_row dec tcp_row value j (chunks 24 count (drop 4 bs)) none
last_row-tcp_row dec value j count bs h =
    last_row-chunks dec (meaning decode_tcp) tcp_row value j 24 decode_tcp-tcp_row count (drop 4 bs)
      none (drop-IsBytes 4 bs h)

pub last_row-tcp6_row :
    {V : Type 0} (dec : Discrete Ipv6TcpFlow) (value : ℕ → Option V) (j : Ipv6TcpFlow) (count : ℕ)
    (bs : Bytes)
    → IsBytes bs
    → last_row dec (meaning decode_tcp6) value j (chunks 56 count (drop 4 bs)) none
      ≡ last_row dec tcp6_row value j (chunks 56 count (drop 4 bs)) none
last_row-tcp6_row dec value j count bs h =
    last_row-chunks dec (meaning decode_tcp6) tcp6_row value j 56 decode_tcp6-tcp6_row count
      (drop 4 bs) none (drop-IsBytes 4 bs h)
