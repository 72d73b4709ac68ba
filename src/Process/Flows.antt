-- ===== src/Process/Flows.antt =====
-- internal/process: the keys and the entries of the tables, in process_windows.go and ipv6_windows.go.
use go_pass.Base.{ℕ, ◌+◌, ◌*◌, ◌/◌, ◌%◌, Bytes, Text, Text-discrete, ℕ_discrete}

pub record Flow : Type 0 where
  pub local_ip : ℕ
  pub local_port : ℕ
  pub remote_ip : ℕ
  pub remote_port : ℕ

pub record Entry : Type 0 where
  pub flow : Flow
  pub pid : ℕ
  pub name : Text

pub record UdpFlow : Type 0 where
  pub local_ip : ℕ
  pub local_port : ℕ

pub record UdpEntry : Type 0 where
  pub flow : UdpFlow
  pub pid : ℕ
  pub name : Text

pub record Ipv6TcpFlow : Type 0 where
  pub local_ip : Bytes
  pub local_port : ℕ
  pub remote_ip : Bytes
  pub remote_port : ℕ

pub record Ipv6UdpFlow : Type 0 where
  pub local_ip : Bytes
  pub local_port : ℕ

unfoldable pub Flow-discrete : Discrete Flow
Flow-discrete = hlevel ℕ_discrete

unfoldable pub UdpFlow-discrete : Discrete UdpFlow
UdpFlow-discrete = hlevel ℕ_discrete

unfoldable pub Ipv6TcpFlow-discrete : Discrete Ipv6TcpFlow
Ipv6TcpFlow-discrete = hlevel (ℕ_discrete, Text-discrete)

unfoldable pub Ipv6UdpFlow-discrete : Discrete Ipv6UdpFlow
Ipv6UdpFlow-discrete = hlevel (ℕ_discrete, Text-discrete)

-- `v<<8 | v>>8` on 16 bits.
unfoldable pub ntohs : ℕ → ℕ
ntohs v = (v * 256 + v / 256) % 65536
