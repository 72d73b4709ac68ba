-- ===== src/Config.antt =====
-- internal/config/config.go: the configuration, its defaults, and saving it. The decoding and the
-- printing of JSON are parameters. A nil list of processes is the absent one.
pub mod Defaults
pub mod Saving
pub mod Examples
use go_pass.Base.{
  ℕ, ◌+◌, ◌*◌, Bool, true, false, not, List, [], ◌∷◌, Option, none, some, ◌==◌, if◌then◌else◌, ℤ,
  pos, below, above, is_zero, Bytes, Text, codes, ◌>>=◌, Text-discrete, lookup, insert, erase,
  length,
}

pub record PerformanceConfig : Type 0 where
  pub buffer_size : ℤ

abbrev pub min_buffer_size : ℕ
min_buffer_size = 32 * 1024

abbrev pub max_buffer_size : ℕ
max_buffer_size = 1024 * 1024

unfoldable pub clamp_buffer_size : ℤ → ℤ
clamp_buffer_size size =
    if below size min_buffer_size
    then pos min_buffer_size
    else if above size max_buffer_size
    then pos max_buffer_size
    else size

pub record SystemConfig : Type 0 where
  pub tproxy_port : ℤ
  pub conn_track_gc_interval : ℤ
  pub conn_track_ttl : ℤ

pub record Server : Type 0 where
  pub tag : Text
  pub type : Text
  pub address : Text
  pub port : ℤ
  pub username : Text
  pub password : Text

-- The fields of `APIConfig` and `OutboundConfig` stand in place of these records.
pub record Config : Type 0 where
  pub listen_addr : Text
  pub servers : List Server
  pub performance : PerformanceConfig
  pub system : SystemConfig
  pub process_whitelist : Option (List Text)

unfoldable pub default_config : Config
default_config = record {
  listen_addr = codes "127.0.0.1:8080";
  servers =
      record {
        tag = codes "proxy";
        type = codes "socks5";
        address = codes "127.0.0.1";
        port = pos 9192;
        username = [];
        password = [];
      }
      ∷ [];
  performance = record { buffer_size = pos (64 * 1024) };
  system = record {
    tproxy_port = pos 7893;
    conn_track_gc_interval = pos 15;
    conn_track_ttl = pos 30;
  };
  process_whitelist = some [];
}

abbrev default_text : Text → Text → Text
default_text d [] = d
default_text d (c ∷ cs) = c ∷ cs

abbrev default_servers : List Server → List Server → List Server
default_servers d [] = d
default_servers d (s ∷ ss) = s ∷ ss

abbrev default_positive : ℤ → ℤ → ℤ
default_positive d x = if not (above x 0) then d else x

abbrev default_list : Option (List Text) → Option (List Text)
default_list none = some []
default_list (some l) = some l

abbrev default_system : SystemConfig → SystemConfig → SystemConfig
default_system d s = if is_zero s.tproxy_port then d else record s {
  conn_track_gc_interval = default_positive d.conn_track_gc_interval s.conn_track_gc_interval;
  conn_track_ttl = default_positive d.conn_track_ttl s.conn_track_ttl;
}

abbrev default_performance : PerformanceConfig → PerformanceConfig → PerformanceConfig
default_performance d p = record {
  buffer_size = if is_zero p.buffer_size then d.buffer_size else clamp_buffer_size p.buffer_size;
}

-- `UnmarshalJSON` from the decoded values on.
unfoldable pub with_defaults : Config → Config
unfolding default_config default_text default_servers default_positive default_list default_system
    default_performance clamp_buffer_size
with_defaults c = record {
  listen_addr = default_text default_config.listen_addr c.listen_addr;
  servers = default_servers default_config.servers c.servers;
  performance = default_performance default_config.performance c.performance;
  system = default_system default_config.system c.system;
  process_whitelist = default_list c.process_whitelist;
}

-- `decode` is `json.Unmarshal` into the fields of a configuration; none is an error.
unfoldable pub unmarshal_json : (Bytes → Config → Option Config) → Bytes → Config → Option Config
unfolding with_defaults
unmarshal_json decode input c = do decoded ← decode input c; some (with_defaults decoded)

-- `var c Config`
abbrev pub zero_config : Config
zero_config = record {
  listen_addr = [];
  servers = [];
  performance = record { buffer_size = pos 0 };
  system = record { tproxy_port = pos 0; conn_track_gc_interval = pos 0; conn_track_ttl = pos 0 };
  process_whitelist = none;
}

unfoldable pub load :
    (Text → Option Bytes) → (Bytes → Config → Option Config) → Text → Option Config
unfolding unmarshal_json
load read_file decode path = do input ← read_file path; unmarshal_json decode input zero_config

-- Files with their contents. What the system answers to `Save`: the name that `CreateTemp` makes up,
-- what is written before `Write` ends and whether it failed, and whether `Close`, `Rename` and the
-- `Remove` of the temporary file work; the error of that removal is dropped.
abbrev pub Files : Type 0
Files = List (Text × Bytes)

pub record Disk : Type 0 where
  pub temp : Option Text
  pub written : Bytes → Bytes
  pub write_ok : Bool
  pub close_ok : Bool
  pub rename_ok : Bool
  pub remove_ok : Bool

abbrev put : Text → Bytes → Files → Files
put path data_of fs = insert Text-discrete path data_of fs

abbrev remove : Text → Files → Files
remove path fs = erase Text-discrete path fs

-- `_ = os.Remove(tmp)`
abbrev remove_temp : Disk → Text → Files → Files
remove_temp disk tmp fs = if disk.remove_ok then remove tmp fs else fs

-- `Save` with the printed configuration; the flag is false where it returns an error.
unfoldable pub save : (Config → Option Bytes) → Disk → Config → Text → Files → Files × Bool
save print disk c path fs = elim (print c) [
  | none ↦ (fs, false)
  | some printed ↦ elim disk.temp [
    | none ↦ (fs, false)
    | some tmp ↦
        if not disk.write_ok
        then (remove_temp disk tmp (put tmp (disk.written printed) fs), false)
        else if not disk.close_ok
        then (remove_temp disk tmp (put tmp printed fs), false)
        else if not disk.rename_ok
        then (remove_temp disk tmp (put tmp printed fs), false)
        else (put path printed (remove tmp (put tmp printed fs)), true)
  ]
]
