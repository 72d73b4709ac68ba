-- ===== src/Singleton/Exclusion.antt =====
-- singleton.go: that no two processes have the lock.
use go_pass.Base.{
  ℕ, ◌≡◌, ◌≢◌, refl, sym, ap, ◌∙◌, false, List, [], ◌∷◌, Option, none, some, inl, inr, arith,
  ℕ_discrete, Bool-cases, ◌==◌, Text, Bytes,
}
use go_pass.Singleton.{AcquireError, Creation}
use go_pass.Singleton.Processes.{
  System, IsDocumented, attach, assign, acquired_by, released_by, ended, Reachable, at_first,
  acquires, ends, had, refused, took, acquire-Acquired,
}

-- At most one process has the lock, and nobody else has a handle of its object.
data Held (s : System) : Type 0 where
  nobody : s.open_handles ≡ [] → ((q : ℕ) → s.handle_of q ≡ 0) → Held s
  only :
      (p : ℕ)
      → s.open_handles ≡ (p, s.handle_of p) ∷ []
      → s.handle_of p ≢ 0
      → ((q : ℕ) → p ≢ q → s.handle_of q ≡ 0)
      → Held s

assign_self : (p h : ℕ) (f : ℕ → ℕ) → assign p h f p ≡ h
assign_self p h f = ground arith

assign_other : (p q h : ℕ) (f : ℕ → ℕ) → p ≢ q → assign p h f q ≡ f q
assign_other p q h f differs = ground arith

assign_same : (p q : ℕ) (f : ℕ → ℕ) → assign p (f p) f q ≡ f q
assign_same p q f = elim (ℕ_discrete p q) [
  | yes same ↦ rw same (assign_self q (f q) f)
  | no differs ↦ assign_other p q (f p) f differs
]

Held-ext :
    (s t : System)
    → t.open_handles ≡ s.open_handles
    → ((q : ℕ) → t.handle_of q ≡ s.handle_of q)
    → Held s
    → Held t
Held-ext s t handles same (nobody e zero_all) = nobody (handles ∙ e) (λ q. same q ∙ zero_all q)
Held-ext s t handles same (only o e pos others) =
    only o (handles ∙ e ∙ ap (λ h. (o, h) ∷ []) (sym (same o))) (λ z. pos (sym (same o) ∙ z))
      (λ q differs. same q ∙ others q differs)

-- Where nobody has a handle of the object, nobody has the lock.
free_lock : (s : System) → Held s → s.open_handles ≡ [] → (q : ℕ) → s.handle_of q ≡ 0
free_lock s (nobody e zero_all) none_open q = zero_all q
free_lock s (only o e pos others) none_open q = cc (e, none_open)

released_own : (p q h : ℕ) → p ≡ q → released_by p ((q, h) ∷ []) ≡ []
released_own p q h same = ground arith

released_others : (p q h : ℕ) → p ≢ q → released_by p ((q, h) ∷ []) ≡ (q, h) ∷ []
released_others p q h differs = ground arith

module _ (p : ℕ) (s : System) where
  after : List ℕ × (ℕ × Option AcquireError) → System
  after r = record {
    open_handles = attach p r.0 s.open_handles;
    handle_of = assign p r.1.0 s.handle_of;
  }

  same_Held : (err : Option AcquireError) → Held s → Held (after ([], (s.handle_of p, err)))
  unfolding after
  same_Held err = Held-ext s _ refl (λ q. assign_same p q s.handle_of)

  took_Held : (h : ℕ) → s.open_handles ≡ [] → h ≢ 0 → Held s → Held (after (h ∷ [], (h, none)))
  unfolding after
  took_Held h alone pos held =
      only p (rw (alone, assign_self p h s.handle_of) refl)
        (λ z. pos (sym (assign_self p h s.handle_of) ∙ z))
        (λ q differs. assign_other p q h s.handle_of differs ∙ free_lock s held alone q)

  ended-Held : Held s → Held (ended p s)
  unfolding ended
  ended-Held (nobody e zero_all) = nobody (rw e refl) (λ q. elim (ℕ_discrete p q) [
    | yes same ↦ rw same (assign_self q 0 s.handle_of)
    | no differs ↦ assign_other p q 0 s.handle_of differs ∙ zero_all q
  ])
  ended-Held (only o e pos others) = elim (ℕ_discrete p o) [
    | yes same ↦ nobody (ap (released_by p) e ∙ released_own p o (s.handle_of o) same) (λ q.
        elim (ℕ_discrete p q) [
          | yes here ↦ rw here (assign_self q 0 s.handle_of)
          | no there ↦ assign_other p q 0 s.handle_of there ∙ others q (λ z. there (same ∙ z))
        ])
    | no differs ↦
        let kept = assign_other p o 0 s.handle_of differs in
        only o
          (ap (released_by p) e
            ∙ released_others p o (s.handle_of o) differs
            ∙ ap (λ h. (o, h) ∷ []) (sym kept))
          (λ z. pos (sym kept ∙ z))
          (λ q away. elim (ℕ_discrete p q) [
            | yes here ↦ rw here (assign_self q 0 s.handle_of)
            | no there ↦ assign_other p q 0 s.handle_of there ∙ others q away
          ])
  ]

-- A call that ends without an error leaves the process with the lock, and everyone else without.
pub record Alone (p : ℕ) (s : System) : Type 0 where
  pub holds : s.handle_of p ≢ 0
  pub others_none : (q : ℕ) → p ≢ q → s.handle_of q ≡ 0

only_one : (p : ℕ) (s : System) → Held s → s.handle_of p ≢ 0 → Alone p s
only_one p s (nobody e zero_all) holds = absurd (holds (zero_all p))
only_one p s (only o e pos others) holds = record {
  holds = holds;
  others_none = λ q away. elim (ℕ_discrete o p) [
    | yes same ↦ others q (λ z. away (sym same ∙ z))
    | no differs ↦ absurd (holds (others p differs))
  ];
}

-- What a call of `Acquire` leaves.
abbrev pub Outcome : ℕ → System → System × Option AcquireError → Type 0
Outcome p before (s, none) = Alone p s
Outcome p before (s, some err) = (q : ℕ) → s.handle_of q ≡ before.handle_of q

abbrev Left : ℕ → System → System × Option AcquireError → Type 0
Left p before r = Held r.0 × Outcome p before r

not_zero : (h : ℕ) → h ≢ 0 → (h == 0) ≡ false
not_zero h pos = elim (Bool-cases (h == 0)) [ inl is ↦ absurd (pos (ground arith)) | inr is ↦ is ]

acquired_by-Left :
    (utf16 : Text → Option Bytes) (p : ℕ) (create_mutex : Bytes → Creation) (s : System)
    → ((name : Bytes) → IsDocumented s (create_mutex name))
    → Held s
    → Left p s (acquired_by utf16 p create_mutex s)
unfolding acquired_by after
acquired_by-Left utf16 p create_mutex s documented held =
    elim (acquire-Acquired utf16 create_mutex (s.handle_of p)) [
      | had pos e ↦
          let h = same_Held p s none held in
          rw e (h, only_one p _ h (λ z. pos (sym (assign_self p (s.handle_of p) s.handle_of) ∙ z)))
      | refused err z e ↦ rw e (same_Held p s (some err) held, λ q. assign_same p q s.handle_of)
      | took name z made e ↦
          let (alone, pos) = documented name made in
          let nonzero : ((create_mutex name).handle == 0) ≡ false =
            not_zero (create_mutex name).handle pos in
          let h = took_Held p s (create_mutex name).handle alone pos held in
          rw (e, nonzero)
            (
              h,
              only_one p _ h
                  (λ x. pos (sym (assign_self p (create_mutex name).handle s.handle_of) ∙ x)),
            )
    ]

Reachable-Held : (utf16 : Text → Option Bytes) (s : System) → Reachable utf16 s → Held s
Reachable-Held utf16 s at_first = nobody refl (λ q. refl)
Reachable-Held utf16 s (acquires p create_mutex before documented r) =
    (acquired_by-Left utf16 p create_mutex before documented (Reachable-Held utf16 before r)).0
Reachable-Held utf16 s (ends p before r) = ended-Held p before (Reachable-Held utf16 before r)

-- In every state that processes bring about by calling `Acquire` and by ending, in any order, and for every
-- answer of the system as documented: if a call of `Acquire` reports no error, its process has the lock and
-- no other process has it; if it reports an error, no process has gained or lost the lock. As documented
-- means that a new object, with a handle, is made only if nobody has a handle of an object of the name.
pub acquire_alone :
    (utf16 : Text → Option Bytes) (p : ℕ) (create_mutex : Bytes → Creation) (s : System)
    → ((name : Bytes) → IsDocumented s (create_mutex name))
    → Reachable utf16 s
    → Outcome p s (acquired_by utf16 p create_mutex s)
acquire_alone utf16 p create_mutex s documented r =
    (acquired_by-Left utf16 p create_mutex s documented (Reachable-Held utf16 s r)).1
