-- ===== src/Engine/ConnTrack.antt =====
-- internal/engine/conntrack.go: the table of hijacked connections. The maps are association lists,
-- time is a number of nanoseconds handed in by the caller, and each method runs under the lock, so
-- it is one step. A result `(port, ok)` is an option, `none` for `(0, false)`.
pub mod Invariant
pub mod Alloc
pub mod Gc
pub mod Remove
pub mod Flows
pub mod Given
pub mod Examples
use go_pass.Base.{
  ℕ, zero, suc, ◌+◌, ◌-◌, ◌*◌, ◌/◌, ◌%◌, Bool, true, false, not, ◌&&◌, List, [], ◌∷◌, Option, none,
  some, ite, ltb, ◌==◌, if◌then◌else◌, Text, Text-discrete, ℕ_discrete, lookup, insert, erase,
}
use go_pass.Engine.Addr.{Ipv4, Ipv4-discrete, ip_string, loopback_text}

pub record ConnKey : Type 0 where
  pub src_ip : Text
  pub src_port : ℕ

pub record OrigFlowKey : Type 0 where
  pub src_ip : Text
  pub src_port : ℕ
  pub dst_ip : Text
  pub dst_port : ℕ

unfoldable pub ConnKey-discrete : Discrete ConnKey
ConnKey-discrete = hlevel (ℕ_discrete, Text-discrete)

unfoldable pub OrigFlowKey-discrete : Discrete OrigFlowKey
OrigFlowKey-discrete = hlevel (ℕ_discrete, Text-discrete)

pub record ConnTarget : Type 0 where
  pub orig_src_ip : Ipv4
  pub orig_src_port : ℕ
  pub orig_dst_ip : Ipv4
  pub orig_dst_port : ℕ
  pub orig_if_idx : ℕ
  pub orig_sub_if_idx : ℕ
  pub created_at : ℕ

pub record ConnTracker : Type 0 where
  pub entries : List (ConnKey × ConnTarget)
  pub active : List (ConnKey × Unit {0})
  pub orig : List (OrigFlowKey × ConnKey)
  pub ttl : ℕ
  pub next_port : ℕ
  pub reserved_port : ℕ
  pub closed : Bool

abbrev pub mapped_port_min : ℕ
mapped_port_min = 32768

abbrev pub mapped_port_max : ℕ
mapped_port_max = 60999

abbrev pub second : ℕ
second = 1000000000

-- The key that a mapped port has in `entries`.
abbrev pub mapped_key : ℕ → ConnKey
mapped_key port = record { src_ip = loopback_text; src_port = port }

abbrev pub orig_key : Ipv4 → ℕ → Ipv4 → ℕ → OrigFlowKey
orig_key src_ip src_port dst_ip dst_port = record {
  src_ip = ip_string src_ip;
  src_port = src_port;
  dst_ip = ip_string dst_ip;
  dst_port = dst_port;
}

-- The key in `orig` of the connection that an entry stands for.
abbrev pub target_key : ConnTarget → OrigFlowKey
target_key v = orig_key v.orig_src_ip v.orig_src_port v.orig_dst_ip v.orig_dst_port

unfoldable pub entry_of : ConnKey → ConnTracker → Option ConnTarget
unfolding lookup
entry_of k t = lookup ConnKey-discrete k t.entries

unfoldable pub mapped_of : OrigFlowKey → ConnTracker → Option ConnKey
unfolding lookup
mapped_of o t = lookup OrigFlowKey-discrete o t.orig

-- An interval that is not positive falls back to the default; the GC interval only sets the pace
-- of the ticker.
unfoldable pub new_conn_tracker : ℕ → ℕ → ConnTracker
new_conn_tracker ttl reserved_port = record {
  entries = [];
  active = [];
  orig = [];
  ttl = if ttl == 0 then 30 else ttl;
  next_port = mapped_port_min;
  reserved_port = reserved_port;
  closed = false;
}

abbrev pub advance : ℕ → ℕ
advance port =
    let next = (port + 1) % 65536 in if ltb mapped_port_max next then mapped_port_min else next

-- The entry that `Set` writes at a free port.
abbrev pub add_conn : ℕ → ConnTarget → ConnTracker → ConnTracker
add_conn port target t = record t {
  entries = insert ConnKey-discrete (mapped_key port) target t.entries;
  orig = insert OrigFlowKey-discrete (target_key target) (mapped_key port) t.orig;
}

-- The loop of `Set` over the ports, with the rounds left.
unfoldable pub alloc : ℕ → ConnTracker → ConnTarget → ConnTracker × Option ℕ
alloc zero t target = (t, none)
alloc (suc rounds) t target =
    let port = t.next_port in
    let t' = record t { next_port = advance port } in
    let rest = alloc rounds t' target in
    if port == t.reserved_port then rest else elim (entry_of (mapped_key port) t) [
      | some _ ↦ rest
      | none ↦ (add_conn port target t', some port)
    ]

abbrev pub pool_rounds : ℕ
pool_rounds = suc (mapped_port_max - mapped_port_min)

abbrev pub drop_orig : OrigFlowKey → ConnTracker → ConnTracker
drop_orig o t = record t { orig = erase OrigFlowKey-discrete o t.orig }

-- `Set` for a connection whose target is `target`, `CreatedAt` being the time of the call.
unfoldable pub set_target : ConnTracker → ConnTarget → ConnTracker × Option ℕ
set_target t target = elim (mapped_of (target_key target) t) [
  | none ↦ alloc pool_rounds t target
  | some mapped ↦ elim (entry_of mapped t) [
    | some _ ↦ (t, some mapped.src_port)
    | none ↦ alloc pool_rounds (drop_orig (target_key target) t) target
  ]
]

unfoldable pub activate : ConnTracker → Text → ℕ → ConnTracker
activate t mapped_ip mapped_port =
    let key : ConnKey = record { src_ip = mapped_ip; src_port = mapped_port } in
    elim (entry_of key t) [
      | none ↦ t
      | some _ ↦ record t { active = insert ConnKey-discrete key tt t.active }
    ]

unfoldable pub get : ConnTracker → Text → ℕ → Option ConnTarget
get t src_ip src_port = entry_of (record { src_ip = src_ip; src_port = src_port }) t

unfoldable pub has_mapped : ConnTracker → ℕ → Bool
has_mapped t port =
    if port == 0
    then false
    else elim (entry_of (mapped_key port) t) [ none ↦ false | some _ ↦ true ]

-- `if mapped, exists := ct.orig[o]; exists && mapped == key { delete(ct.orig, o) }`
unfoldable pub unlink : OrigFlowKey → ConnKey → ConnTracker → ConnTracker
unlink o key t = elim (mapped_of o t) [
  | none ↦ t
  | some mapped ↦ ite (ConnKey-discrete mapped key) (drop_orig o t) t
]

abbrev pub drop_entry : ConnKey → ConnTracker → ConnTracker
drop_entry key t = record t { entries = erase ConnKey-discrete key t.entries }

unlink_entry : ConnKey → Option ConnTarget → ConnTracker → ConnTracker
unfolding unlink
unlink_entry key none t = t
unlink_entry key (some v) t = unlink (target_key v) key t

unfoldable pub delete : ConnTracker → Text → ℕ → ConnTracker
unfolding unlink_entry
delete t src_ip src_port =
    let key : ConnKey = record { src_ip = src_ip; src_port = src_port } in
    let t' = record t { active = erase ConnKey-discrete key t.active } in
    drop_entry key (unlink_entry key (entry_of key t) t')

-- The numbers of an int64.
abbrev pub int64_modulus : ℕ
int64_modulus = 18446744073709551616

-- `now.Sub(v.CreatedAt) > time.Duration(ct.ttl)*time.Second`: the product wraps around, and stands for a
-- negative duration from 2^63 on.
abbrev pub expired : ℕ → ConnTracker → ConnTarget → Bool
expired now t v =
    let ttl = (t.ttl * second) % int64_modulus in
    if ltb ttl (int64_modulus / 2)
    then ltb (v.created_at + ttl) now
    else ltb (v.created_at + ttl) (now + int64_modulus)

-- One round of the loop over `entries` in `startGC`.
unfoldable pub gc_entry : ℕ → ConnTracker → ConnKey × ConnTarget → ConnTracker
gc_entry now t (k, v) = elim (lookup ConnKey-discrete k t.active) [
  | some _ ↦ t
  | none ↦ if expired now t v then drop_entry k (unlink (target_key v) k t) else t
]

unfoldable pub gc_loop : ℕ → ConnTracker → List (ConnKey × ConnTarget) → ConnTracker
unfolding gc_entry
gc_loop now t [] = t
gc_loop now t (e ∷ es) = gc_loop now (gc_entry now t e) es

-- A tick of the ticker, which a closed tracker no longer reads.
unfoldable pub gc_tick : ℕ → ConnTracker → ConnTracker
gc_tick now t = if t.closed then t else gc_loop now t t.entries

pub close : ConnTracker → ConnTracker
close t = record t { closed = true }
