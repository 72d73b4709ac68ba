-- ===== src/Singleton/Processes.antt =====
-- singleton.go: several processes that take the lock and end, on a system whose named objects behave as
-- documented, and how one call of `Acquire` ends.
use go_pass.Base.{
  ℕ, ◌≡◌, ◌≢◌, refl, true, List, [], ◌∷◌, Option, none, some, inl, inr, arith, ite, ℕ_discrete,
  Bool-cases, Option-cases, ◌==◌, if◌then◌else◌, Text, Bytes,
}
use go_pass.Singleton.{
  CreateError, already_exists, access_denied, errno, AcquireError, already_running, bad_name,
  create_failed, Creation, mutex_name, classify_create_mutex_err, acquire_once, acquire,
}

-- The open handles of the lock's object with the processes that have them, and each process's package variable.
pub record System : Type 0 where
  pub open_handles : List (ℕ × ℕ)
  pub handle_of : ℕ → ℕ

-- A new object is made, with a handle, only if nobody has a handle of one of this name.
abbrev pub IsDocumented : System → Creation → Type 0
IsDocumented s c = c.failure ≡ none → (s.open_handles ≡ []) × (c.handle ≢ 0)

abbrev pub attach : ℕ → List ℕ → List (ℕ × ℕ) → List (ℕ × ℕ)
attach p [] open_handles = open_handles
attach p (h ∷ hs) open_handles = (p, h) ∷ attach p hs open_handles

abbrev pub assign : ℕ → ℕ → (ℕ → ℕ) → ℕ → ℕ
assign p h handle_of q = ite (ℕ_discrete p q) h (handle_of q)

-- Process `p` calls `Acquire`.
unfoldable pub acquired_by :
    (Text → Option Bytes) → ℕ → (Bytes → Creation) → System → System × Option AcquireError
unfolding acquire attach assign
acquired_by utf16 p create_mutex s =
    let r = acquire utf16 create_mutex (s.handle_of p) in
    (
      record { open_handles = attach p r.0 s.open_handles; handle_of = assign p r.1.0 s.handle_of },
      r.1.1,
    )

abbrev pub released_by : ℕ → List (ℕ × ℕ) → List (ℕ × ℕ)
released_by p [] = []
released_by p ((q, h) ∷ rest) =
    let others = released_by p rest in ite (ℕ_discrete p q) others ((q, h) ∷ others)

-- Process `p` ends, and the system closes its handles.
unfoldable pub ended : ℕ → System → System
unfolding released_by assign
ended p s = record {
  open_handles = released_by p s.open_handles;
  handle_of = assign p 0 s.handle_of;
}

-- What can happen to the processes, one call after the other.
pub data Reachable (utf16 : Text → Option Bytes) : System → Type 0 where
  at_first : Reachable utf16 (record { open_handles = []; handle_of = λ p. 0 })
  acquires :
      (p : ℕ) (create_mutex : Bytes → Creation) (s : System)
      → ((name : Bytes) → IsDocumented s (create_mutex name))
      → Reachable utf16 s
      → Reachable utf16 (acquired_by utf16 p create_mutex s).0
  ends : (p : ℕ) (s : System) → Reachable utf16 s → Reachable utf16 (ended p s)

-- How `Acquire` ends: with the lock it had, with an error and nothing left open, or with a new handle.
pub data Acquired (create_mutex : Bytes → Creation) (handle : ℕ)
    (r : List ℕ × (ℕ × Option AcquireError)) : Type 0 where
  had : handle ≢ 0 → r ≡ ([], (handle, none)) → Acquired create_mutex handle r
  refused :
      (e : AcquireError) → handle ≡ 0 → r ≡ ([], (handle, some e)) → Acquired create_mutex handle r
  took :
      (name : Bytes)
      → handle ≡ 0
      → (create_mutex name).failure ≡ none
      → r ≡ (
        if (create_mutex name).handle == 0 then [] else (create_mutex name).handle ∷ [],
        ((create_mutex name).handle, none),
      )
      → Acquired create_mutex handle r

acquire_named :
    (utf16 : Text → Option Bytes) (create_mutex : Bytes → Creation) (handle : ℕ) (name : Bytes)
    (f : Option CreateError)
    → (handle == 0) ≡ true
    → utf16 mutex_name ≡ some name
    → (create_mutex name).failure ≡ f
    → Acquired create_mutex handle (acquire utf16 create_mutex handle)
unfolding acquire acquire_once classify_create_mutex_err
acquire_named utf16 create_mutex handle name none free e f =
    took name (ground arith) f (ground arith)
acquire_named utf16 create_mutex handle name (some already_exists) free e f =
    refused already_running (ground arith) (ground arith)
acquire_named utf16 create_mutex handle name (some access_denied) free e f =
    refused already_running (ground arith) (ground arith)
acquire_named utf16 create_mutex handle name (some (errno n)) free e f =
    refused (create_failed n) (ground arith) (ground arith)

pub acquire-Acquired :
    (utf16 : Text → Option Bytes) (create_mutex : Bytes → Creation) (handle : ℕ)
    → Acquired create_mutex handle (acquire utf16 create_mutex handle)
unfolding acquire acquire_once
acquire-Acquired utf16 create_mutex handle = elim (Bool-cases (handle == 0)) [
  | inr held ↦ had (λ z. absurd (ground arith)) (ground arith)
  | inl free ↦ elim (Option-cases (utf16 mutex_name)) [
    | inl bad ↦ refused bad_name (ground arith) (ground arith)
    | inr (name, e) ↦ acquire_named utf16 create_mutex handle name _ free e refl
  ]
]
