-- ===== src/Process/Names/Cache.antt =====
-- pidnamecache_windows.go: how old a cached name can be.
use go_pass.Base.{
  ℕ, ◌-◌, ◌<◌, ◌≡◌, refl, [], some, inl, inr, arith, Bool-cases, Option-cases, ◌==◌, Text,
  ℕ_discrete, lookup, insert, retain, sym, ◌∙◌, Unique, kept, kept-eq-some, lookup-insert,
  lookup-retain, insert-Unique, retain-Unique,
}
use go_pass.Process.Names.{
  pid_name_cache_ttl, PidCacheEntry, PidCache, is_fresh, resolved, get, sweep,
}

-- `names t pid` is the name of a process at a time; each entry is a record of one time.
pub record IsRecord (names : ℕ → ℕ → Text) (c : PidCache) : Type 0 where
  pub unique : Unique ℕ_discrete c
  pub taken :
      (pid : ℕ) (e : PidCacheEntry)
      → lookup ℕ_discrete pid c ≡ some e
      → e.name ≡ names e.checked_at pid

-- The name that a process had less than two seconds ago; nothing for the pid 0.
pub data IsRecent (names : ℕ → ℕ → Text) (now pid : ℕ) (name : Text) : Type 0 where
  idle : pid ≡ 0 → name ≡ [] → IsRecent names now pid name
  recent : (t : ℕ) → now - t < pid_name_cache_ttl → name ≡ names t pid → IsRecent names now pid name

insert-IsRecord :
    (names : ℕ → ℕ → Text) (c : PidCache) (pid now : ℕ)
    → IsRecord names c
    → IsRecord names (insert ℕ_discrete pid (record { name = names now pid; checked_at = now }) c)
insert-IsRecord names c pid now r = record {
  unique = insert-Unique ℕ_discrete pid _ c r.unique;
  taken = λ pid' e h. elim (ℕ_discrete pid pid') [
    | yes same ↦ ground (
      arith,
      lookup-insert ℕ_discrete pid' pid (record { name = names now pid; checked_at = now }) c,
    )
    | no differs ↦ r.taken pid' e (
        ground (
          arith,
          lookup-insert ℕ_discrete pid' pid (record { name = names now pid; checked_at = now }) c,
        ))
  ];
}

resolved_lem :
    (names : ℕ → ℕ → Text) (c : PidCache) (pid now : ℕ)
    → IsRecord names c
    → IsRecord names (resolved (names now) c pid now).0
      × IsRecent names now pid (resolved (names now) c pid now).1
resolved_lem names c pid now r = (insert-IsRecord names c pid now r, recent now (omega arith) refl)

-- On a cache of names that processes had when they were asked for, `get` keeps it one, and returns the
-- name that the process had less than two seconds ago, or nothing for the pid 0.
pub get_lem :
    (names : ℕ → ℕ → Text) (c : PidCache) (pid now : ℕ)
    → IsRecord names c
    → IsRecord names (get (names now) c pid now).0
      × IsRecent names now pid (get (names now) c pid now).1
unfolding get
get_lem names c pid now r = elim (Bool-cases (pid == 0)) [
  | inl zero_pid ↦ rw zero_pid (r, idle (ground arith) refl)
  | inr pos ↦ elim (Option-cases (lookup ℕ_discrete pid c)) [
    | inl missing ↦ rw (pos, missing) (resolved_lem names c pid now r)
    | inr (e, held) ↦ elim (Bool-cases (is_fresh now e)) [
      | inl fresh ↦
          rw (pos, held, fresh) (r, recent e.checked_at (ground arith) (r.taken pid e held))
      | inr stale ↦ rw (pos, held, stale) (resolved_lem names c pid now r)
    ]
  ]
]

-- A sweep keeps exactly the entries younger than two seconds, which are those that `get` may use.
pub sweep_lem :
    (names : ℕ → ℕ → Text) (c : PidCache) (now : ℕ)
    → IsRecord names c
    → IsRecord names (sweep now c)
      × ((pid : ℕ)
          → lookup ℕ_discrete pid (sweep now c)
            ≡ kept (λ _ e. is_fresh now e) pid (lookup ℕ_discrete pid c))
unfolding sweep
sweep_lem names c now r = (
  record {
    unique = retain-Unique ℕ_discrete (λ _ e. is_fresh now e) c r.unique;
    taken = λ pid e h. r.taken pid e (was_held pid e h);
  },
  law,
)
  where
    law :
        (pid : ℕ)
        → lookup ℕ_discrete pid (retain (λ _ e. is_fresh now e) c)
          ≡ kept (λ _ e. is_fresh now e) pid (lookup ℕ_discrete pid c)
    law pid = lookup-retain ℕ_discrete (λ _ e. is_fresh now e) pid c r.unique

    was_held :
        (pid : ℕ) (e : PidCacheEntry)
        → lookup ℕ_discrete pid (retain (λ _ e'. is_fresh now e') c) ≡ some e
        → lookup ℕ_discrete pid c ≡ some e
    was_held pid e h =
        let half = kept-eq-some (λ (_ : ℕ) e'. is_fresh now e') pid (lookup ℕ_discrete pid c) e in
        (half.0 (sym (law pid) ∙ h)).0
