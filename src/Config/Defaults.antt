-- ===== src/Config/Defaults.antt =====
-- config.go: what `UnmarshalJSON` makes of decoded values.
use go_pass.Base.{
  ◌≡◌, ◌≢◌, refl, true, false, [], ◌∷◌, List, Option, none, some, inl, inr, arith, Bool-cases, ℤ,
  pos, negsuc, below, above, is_zero, Text,
}
use go_pass.Config.{
  Config, Server, SystemConfig, PerformanceConfig, min_buffer_size, max_buffer_size,
  clamp_buffer_size, default_config, default_text, default_servers, default_positive, default_list,
  default_system, default_performance, with_defaults,
}

-- A size within the bounds of the relay's buffers.
pub record IsBounded (size : ℤ) : Type 0 where
  pub low : below size min_buffer_size ≡ false
  pub high : above size max_buffer_size ≡ false

clamp_buffer_size-IsBounded : (size : ℤ) → IsBounded (clamp_buffer_size size)
unfolding clamp_buffer_size
clamp_buffer_size-IsBounded size = elim (Bool-cases (below size min_buffer_size)) [
  | inl low ↦ rw low (record { low = refl; high = refl })
  | inr low ↦ elim (Bool-cases (above size max_buffer_size)) [
    | inl high ↦ rw (low, high) (record { low = refl; high = refl })
    | inr high ↦ rw (low, high) (record { low = low; high = high })
  ]
]

clamp_bounded : (s : ℤ) → IsBounded s → clamp_buffer_size s ≡ s
unfolding clamp_buffer_size
clamp_bounded s b = rw (b.low, b.high)

-- The clamp brings every size into the bounds, and leaves a size that is there alone.
pub clamp_buffer_size_lem :
    (size : ℤ)
    → IsBounded (clamp_buffer_size size)
      × (clamp_buffer_size (clamp_buffer_size size) ≡ clamp_buffer_size size)
clamp_buffer_size_lem size =
    (clamp_buffer_size-IsBounded size, clamp_bounded _ (clamp_buffer_size-IsBounded size))

-- An address to listen on, a server, a buffer within the bounds of the relay, a TProxy port that is not
-- 0, a positive interval and a positive TTL, and a list of processes that is there.
pub record IsComplete (c : Config) : Type 0 where
  pub listens : c.listen_addr ≢ []
  pub serves : c.servers ≢ []
  pub bounded : IsBounded c.performance.buffer_size
  pub has_port : is_zero c.system.tproxy_port ≡ false
  pub has_interval : above c.system.conn_track_gc_interval 0 ≡ true
  pub has_ttl : above c.system.conn_track_ttl 0 ≡ true
  pub listed : c.process_whitelist ≢ none

default_positive-above : (d x : ℤ) → above d 0 ≡ true → above (default_positive d x) 0 ≡ true
default_positive-above d x h = elim (Bool-cases (above x 0)) [ inl e ↦ rw e e | inr e ↦ rw e h ]

default_system_complete :
    (s : SystemConfig)
    → (is_zero (default_system default_config.system s).tproxy_port ≡ false)
      × (above (default_system default_config.system s).conn_track_gc_interval 0 ≡ true)
      × (above (default_system default_config.system s).conn_track_ttl 0 ≡ true)
unfolding default_config
default_system_complete s = elim (Bool-cases (is_zero s.tproxy_port)) [
  | inl e ↦ rw e (refl, refl, refl)
  | inr e ↦ rw e (
    e,
    default_positive-above (pos 15) s.conn_track_gc_interval refl,
    default_positive-above (pos 30) s.conn_track_ttl refl,
  )
]

default_performance-IsBounded :
    (p : PerformanceConfig)
    → IsBounded (default_performance default_config.performance p).buffer_size
unfolding default_config
default_performance-IsBounded p = elim (Bool-cases (is_zero p.buffer_size)) [
  | inl e ↦ rw e (record { low = refl; high = refl })
  | inr e ↦ rw e (clamp_buffer_size-IsBounded p.buffer_size)
]

default_text-ne : (d t : Text) → d ≢ [] → default_text d t ≢ []
default_text-ne d [] h = h
default_text-ne d (c ∷ cs) h = λ e. cc

default_servers-ne : (d l : List Server) → d ≢ [] → default_servers d l ≢ []
default_servers-ne d [] h = h
default_servers-ne d (s ∷ ss) h = λ e. cc

default_list-ne : (l : Option (List Text)) → default_list l ≢ none
default_list-ne none = λ e. cc
default_list-ne (some l) = λ e. cc

with_defaults-IsComplete : (c : Config) → IsComplete (with_defaults c)
unfolding with_defaults
with_defaults-IsComplete c =
    let system = default_system_complete c.system in
    record {
      listens = default_text-ne _ c.listen_addr (unfold default_config in λ e. cc);
      serves = default_servers-ne _ c.servers (unfold default_config in λ e. cc);
      bounded = default_performance-IsBounded c.performance;
      has_port = system.0;
      has_interval = system.1;
      has_ttl = system.2;
      listed = default_list-ne c.process_whitelist;
    }

text_same : (d t : Text) → t ≢ [] → default_text d t ≡ t
text_same d [] h = absurd (h refl)
text_same d (c ∷ cs) h = refl

servers_same : (d l : List Server) → l ≢ [] → default_servers d l ≡ l
servers_same d [] h = absurd (h refl)
servers_same d (s ∷ ss) h = refl

list_same : (l : Option (List Text)) → l ≢ none → default_list l ≡ l
list_same none h = absurd (h refl)
list_same (some l) h = refl

positive_same : (d x : ℤ) → above x 0 ≡ true → default_positive d x ≡ x
positive_same d x h = rw h refl

bounded_nonzero : (x : ℤ) → IsBounded x → is_zero x ≡ false
bounded_nonzero (pos x) b = ground (arith, b.low)
bounded_nonzero (negsuc x) b = refl

performance_same :
    (p : PerformanceConfig)
    → IsBounded p.buffer_size
    → default_performance default_config.performance p ≡ p
performance_same p b = λ i. record { buffer_size = size_same i }
  where
    size_same : (default_performance default_config.performance p).buffer_size ≡ p.buffer_size
    size_same = rw (bounded_nonzero p.buffer_size b) (clamp_bounded p.buffer_size b)

system_same :
    (s : SystemConfig)
    → is_zero s.tproxy_port ≡ false
    → above s.conn_track_gc_interval 0 ≡ true
    → above s.conn_track_ttl 0 ≡ true
    → default_system default_config.system s ≡ s
system_same s port interval ttl = rw port (λ i. record s {
  conn_track_gc_interval =
      positive_same default_config.system.conn_track_gc_interval s.conn_track_gc_interval interval
        i;
  conn_track_ttl = positive_same default_config.system.conn_track_ttl s.conn_track_ttl ttl i;
})

-- Such a configuration is left as it is.
pub with_defaults_same : (c : Config) → IsComplete c → with_defaults c ≡ c
unfolding with_defaults
with_defaults_same c k = λ i. record {
  listen_addr = text_same default_config.listen_addr c.listen_addr k.listens i;
  servers = servers_same default_config.servers c.servers k.serves i;
  performance = performance_same c.performance k.bounded i;
  system = system_same c.system k.has_port k.has_interval k.has_ttl i;
  process_whitelist = list_same c.process_whitelist k.listed i;
}

-- Whatever is decoded, with the defaults the configuration has an address to listen on, at least one
-- server (its fields are not looked at), a buffer size from 32 KiB to 1 MiB, a TProxy port that is not 0
-- (its range is not looked at), a positive GC interval and a positive TTL, and a list of processes; and
-- the defaults change nothing more when they are taken again.
pub with_defaults_lem :
    (c : Config)
    → IsComplete (with_defaults c) × (with_defaults (with_defaults c) ≡ with_defaults c)
with_defaults_lem c =
    (with_defaults-IsComplete c, with_defaults_same (with_defaults c) (with_defaults-IsComplete c))
