-- ===== src/Engine/Statuses/Counted.antt =====
-- windivert.go, `ProcessStatuses`: that the groups count every connection once.
use go_pass.Base.{
  ℕ, ◌+◌, ◌≤◌, ◌≡◌, refl, ◌∙◌, Bool, true, false, not, ◌&&◌, List, [], ◌∷◌, inl, inr, arith,
  Bool-cases, ◌==◌, if◌then◌else◌, Text, Text-discrete, ℕ_discrete, text_eq, length, length-append,
  All,
}
use go_pass.Process.Flows.{Entry}
use go_pass.Engine.Intercept.{Env, World, is_whitelisted}
use go_pass.Engine.Whitelist.{is_empty}
use go_pass.Engine.Statuses.{
  ProcessStatus, proxy_text, direct_text, add_target, target_of_flow, count_in, status_of,
  group_loop, process_statuses,
}

abbrev one_if : Bool → ℕ
one_if true = 1
one_if false = 0

-- The connections of the groups with a status.
abbrev pub connections_with : Text → List ProcessStatus → ℕ
connections_with s [] = 0
connections_with s (g ∷ groups) =
    if text_eq g.status s
    then g.connections + connections_with s groups
    else connections_with s groups

-- How many connections of the snapshot belong to a named process for which a test holds.
abbrev pub named_entries : (Text → Bool) → List Entry → ℕ
named_entries test [] = 0
named_entries test (e ∷ entries) =
    let rest = named_entries test entries in
    if not (is_empty e.name) && test e.name then 1 + rest else rest

abbrev same_group : ℕ → Text → ProcessStatus → Bool
same_group pid status g = pid == g.pid && text_eq status g.status

-- No two groups have the same process and status.
abbrev pub IsApart : List ProcessStatus → Type 0
IsApart [] = Unit {0}
IsApart (g ∷ groups) = All (λ x. same_group g.pid g.status x ≡ false) groups × IsApart groups

text_eq-true : (s t : Text) → text_eq s t ≡ true → s ≡ t
text_eq-true s t h = elim (Text-discrete s t) [
  | yes same ↦ same
  | no differs ↦ absurd (ground arith)
]

text_eq_refl : (s : Text) → text_eq s s ≡ true
text_eq_refl s = ground arith

count_in_match :
    (e : Entry) (status : Text) (g : ProcessStatus) (groups : List ProcessStatus)
    → (g.pid == e.pid && text_eq g.status status) ≡ true
    → count_in e status (g ∷ groups)
      ≡ record g {
        connections = g.connections + 1;
        targets = add_target (target_of_flow e.flow) g.targets;
      }
        ∷ groups
unfolding count_in
count_in_match e status g groups h = rw h refl

count_in_next :
    (e : Entry) (status : Text) (g : ProcessStatus) (groups : List ProcessStatus)
    → (g.pid == e.pid && text_eq g.status status) ≡ false
    → count_in e status (g ∷ groups) ≡ g ∷ count_in e status groups
unfolding count_in
count_in_next e status g groups h = rw h refl

connections_with-count_in :
    (s : Text) (e : Entry) (status : Text) (groups : List ProcessStatus)
    → connections_with s (count_in e status groups)
      ≡ one_if (text_eq status s) + connections_with s groups
unfolding count_in
connections_with-count_in s e status [] = ground arith
connections_with-count_in s e status (g ∷ groups) =
    elim (Bool-cases (g.pid == e.pid && text_eq g.status status)) [
      | inl here ↦
          let same : g.status ≡ status = text_eq-true g.status status (ground arith) in
          rw (count_in_match e status g groups here, same) (ground arith)
      | inr next ↦
          rw (count_in_next e status g groups next)
            (ground (arith, connections_with-count_in s e status groups))
    ]

-- A property of the process and the status of a group.
All-count_in :
    (P : ℕ → Text → Type 0) (e : Entry) (status : Text) (groups : List ProcessStatus)
    → P e.pid status
    → All (λ g. P g.pid g.status) groups
    → All (λ g. P g.pid g.status) (count_in e status groups)
unfolding count_in
All-count_in P e status [] new h = (new, tt)
All-count_in P e status (g ∷ groups) new (h, hs) =
    elim (Bool-cases (g.pid == e.pid && text_eq g.status status)) [
      | inl here ↦ rw (count_in_match e status g groups here) (h, hs)
      | inr next ↦
          rw (count_in_next e status g groups next) (h, All-count_in P e status groups new hs)
    ]

count_in-IsApart :
    (e : Entry) (status : Text) (groups : List ProcessStatus)
    → IsApart groups
    → IsApart (count_in e status groups)
unfolding count_in
count_in-IsApart e status [] h = (tt, tt)
count_in-IsApart e status (g ∷ groups) (h, hs) =
    elim (Bool-cases (g.pid == e.pid && text_eq g.status status)) [
      | inl here ↦ rw (count_in_match e status g groups here) (h, hs)
      | inr next ↦ rw (count_in_next e status g groups next) (
        All-count_in (λ pid st. (g.pid == pid && text_eq g.status st) ≡ false) e status groups next
            h,
        count_in-IsApart e status groups hs,
      )
    ]

add_target_few :
    (target : Text) (ts : List Text) → length ts ≤ 4 → length (add_target target ts) ≤ 4
add_target_few target ts h = ground (arith, length-append ts (target ∷ []))

abbrev pub IsFew : ProcessStatus → Type 0
IsFew g = length g.targets ≤ 4

count_in-IsFew :
    (e : Entry) (status : Text) (groups : List ProcessStatus)
    → All IsFew groups
    → All IsFew (count_in e status groups)
unfolding count_in
count_in-IsFew e status [] h = (add_target_few (target_of_flow e.flow) [] (omega arith), tt)
count_in-IsFew e status (g ∷ groups) (h, hs) =
    elim (Bool-cases (g.pid == e.pid && text_eq g.status status)) [
      | inl here ↦
          rw (count_in_match e status g groups here)
            (add_target_few (target_of_flow e.flow) g.targets h, hs)
      | inr next ↦ rw (count_in_next e status g groups next) (h, count_in-IsFew e status groups hs)
    ]

proxied_counts :
    (whitelisted : Text → Bool) (e : Entry)
    → one_if (text_eq (status_of whitelisted e) proxy_text) ≡ one_if (whitelisted e.name)
unfolding Text-discrete ℕ_discrete
proxied_counts whitelisted e = elim (Bool-cases (whitelisted e.name)) [
  | inl h ↦ rw h refl
  | inr h ↦ rw h refl
]

direct_counts :
    (whitelisted : Text → Bool) (e : Entry)
    → one_if (text_eq (status_of whitelisted e) direct_text) ≡ one_if (not (whitelisted e.name))
unfolding Text-discrete ℕ_discrete
direct_counts whitelisted e = elim (Bool-cases (whitelisted e.name)) [
  | inl h ↦ rw h refl
  | inr h ↦ rw h refl
]

-- One of the two statuses.
abbrev pub IsKnownText : Text → Type 0
IsKnownText status = text_eq status direct_text ≡ not (text_eq status proxy_text)

abbrev pub IsKnown : ProcessStatus → Type 0
IsKnown g = IsKnownText g.status

status_of-IsKnownText :
    (whitelisted : Text → Bool) (e : Entry) → IsKnownText (status_of whitelisted e)
unfolding Text-discrete ℕ_discrete
status_of-IsKnownText whitelisted e = elim (Bool-cases (whitelisted e.name)) [
  | inl h ↦ rw h refl
  | inr h ↦ rw h refl
]

-- What the groups say of a snapshot.
pub record Tallies (whitelisted : Text → Bool) (entries : List Entry) (groups : List ProcessStatus)
    : Type 0 where
  pub proxied : connections_with proxy_text groups ≡ named_entries whitelisted entries
  pub direct :
      connections_with direct_text groups ≡ named_entries (λ name. not (whitelisted name)) entries
  pub apart : IsApart groups
  pub few : All IsFew groups
  pub known : All IsKnown groups

module _ (whitelisted : Text → Bool) (s : Text) (test : Text → Bool)
    (counts : (e : Entry)
      → one_if (text_eq (status_of whitelisted e) s) ≡ one_if (test e.name)) where
  connections_with-group_loop :
      (entries : List Entry) (groups : List ProcessStatus)
      → connections_with s (group_loop whitelisted entries groups)
        ≡ named_entries test entries + connections_with s groups
  unfolding group_loop
  connections_with-group_loop [] groups = omega arith
  connections_with-group_loop (e ∷ entries) groups = elim (Bool-cases (is_empty e.name)) [
    | inl blank ↦ rw blank (connections_with-group_loop entries groups)
    | inr named ↦ rw named (
        connections_with-group_loop entries (count_in e (status_of whitelisted e) groups)
        ∙ ground (arith, connections_with-count_in s e (status_of whitelisted e) groups, counts e))
  ]

-- What every group's addition keeps, the loop keeps.
group_loop_keeps :
    (P : List ProcessStatus → Type 0) (whitelisted : Text → Bool)
    → ((e : Entry) (groups : List ProcessStatus)
        → P groups
        → P (count_in e (status_of whitelisted e) groups))
    → (entries : List Entry) (groups : List ProcessStatus) → P groups
    → P (group_loop whitelisted entries groups)
unfolding group_loop
group_loop_keeps P whitelisted step [] groups h = h
group_loop_keeps P whitelisted step (e ∷ entries) groups h = elim (Bool-cases (is_empty e.name)) [
  | inl blank ↦ rw blank (group_loop_keeps P whitelisted step entries groups h)
  | inr named ↦ rw named (group_loop_keeps P whitelisted step entries _ (step e groups h))
]

-- For every snapshot of connections: those in groups with the status proxy are exactly as many as those of
-- a named program on the whitelist, those in groups with the status direct as many as those of a named program
-- that is not; no two groups have the same process and status, every group has one of
-- the two statuses, and no group lists more than four targets.
pub process_statuses-Tallies :
    (env : Env) (w : World) (entries : List Entry)
    → Tallies (is_whitelisted env w) entries (process_statuses env w entries)
unfolding process_statuses
process_statuses-Tallies env w entries =
    let whitelisted = is_whitelisted env w in
    record {
      proxied =
          connections_with-group_loop whitelisted proxy_text whitelisted
            (proxied_counts whitelisted) entries []
          ∙ omega arith;
      direct =
          connections_with-group_loop whitelisted direct_text (λ name. not (whitelisted name))
            (direct_counts whitelisted) entries []
          ∙ omega arith;
      apart =
          group_loop_keeps IsApart whitelisted
            (λ e groups h. count_in-IsApart e (status_of whitelisted e) groups h) entries [] tt;
      few =
          group_loop_keeps (All IsFew) whitelisted
            (λ e groups h. count_in-IsFew e (status_of whitelisted e) groups h) entries [] tt;
      known =
          group_loop_keeps (All IsKnown) whitelisted
            (λ e groups h.
              All-count_in (λ pid status. IsKnownText status) e (status_of whitelisted e) groups
                (status_of-IsKnownText whitelisted e) h)
            entries [] tt;
    }
