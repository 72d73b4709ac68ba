-- ===== src/Engine/Intercept/Wrote.antt =====
-- windivert.go: what `put16` and `copy` leave in a packet, and what is read there afterwards.
use go_pass.Base.{
  ℕ, zero, suc, ◌+◌, ◌*◌, ◌/◌, ◌%◌, ◌≤◌, ◌<◌, ◌≡◌, ◌⊎◌, inl, inr, refl, sym, ◌∙◌, [], ◌∷◌, ◌++◌,
  length-append, get_elem?-append, Option, some, arith, length, length-set, set, get_elem?,
  get_elem?-lt, get_elem?-set_self, get_elem?-set_other, Bytes, be16, put_be16,
}
use go_pass.Engine.Addr.{Ipv4}
use go_pass.Engine.Intercept.{read_ip4, put_ip4}

-- The packet `q` is `p` with these bytes from `i` on.
pub record Wrote (p : Bytes) (i : ℕ) (bs : Bytes) (q : Bytes) : Type 0 where
  pub size : length q ≡ length p
  pub inside : (k : ℕ) → k < length bs → get_elem? q (i + k) ≡ get_elem? bs k
  pub outside : (j : ℕ) → ((j < i) ⊎ (i + length bs ≤ j)) → get_elem? q j ≡ get_elem? p j

set-Wrote : (p : Bytes) (i b : ℕ) → i < length p → Wrote p i (b ∷ []) (set p i b)
set-Wrote p i b h = record {
  size = length-set p i b;
  inside = λ k small.
      let first : k ≡ 0 = omega arith in
      rw first (let same : i + 0 ≡ i = omega arith in rw same (get_elem?-set_self p i b h));
  outside = λ j away. get_elem?-set_other p i j b (λ e. absurd (ground arith));
}

get_elem?-snoc : (bs : Bytes) (b : ℕ) → get_elem? (bs ++ b ∷ []) (length bs) ≡ some b
get_elem?-snoc [] b = refl
get_elem?-snoc (x ∷ bs) b = get_elem?-snoc bs b

below_or_last : (k n : ℕ) → k < n + 1 → (k < n) ⊎ (k ≡ n)
below_or_last zero zero h = inr refl
below_or_last zero (suc n) h = inl (omega arith)
below_or_last (suc k) zero h = absurd (omega arith)
below_or_last (suc k) (suc n) h = elim (below_or_last k n (omega arith)) [
  | inl l ↦ inl (omega arith)
  | inr e ↦ inr (omega arith)
]

-- One byte more.
Wrote-snoc :
    (p : Bytes) (i : ℕ) (bs : Bytes) (q : Bytes) (b : ℕ) (j : ℕ)
    → Wrote p i bs q
    → i + length bs ≡ j
    → j < length p
    → Wrote p i (bs ++ b ∷ []) (set q j b)
Wrote-snoc p i bs q b j w e h = record {
  size = length-set q j b ∙ w.size;
  inside = λ k small.
      elim (below_or_last k (length bs) (omega (arith, length-append bs (b ∷ [])))) [
        | inl before ↦
            let (a, read) = get_elem?-lt bs k before in
            get_elem?-set_other q j (i + k) b (λ same. absurd (omega (arith, same)))
            ∙ w.inside k before
            ∙ read
            ∙ sym (get_elem?-append bs (b ∷ []) k a read)
        | inr last ↦
            rw last
              (rw e (get_elem?-set_self q j b (omega (arith, w.size))) ∙ sym (get_elem?-snoc bs b))
      ];
  outside = λ k away. elim away [
    | inl under ↦
        get_elem?-set_other q j k b (λ same. absurd (omega (arith, same))) ∙ w.outside k (inl under)
    | inr over ↦
        let past : i + length bs + 1 ≤ k = omega (arith, length-append bs (b ∷ [])) in
        get_elem?-set_other q j k b (λ same. absurd (omega (arith, same)))
        ∙ w.outside k (inr (omega arith))
  ];
}

-- A write that succeeds, and what it leaves.
abbrev pub WroteBy : Bytes → ℕ → Bytes → Option Bytes → Type 0
WroteBy p i bs r = (q : Bytes) × (r ≡ some q) × Wrote p i bs q

pub put_be16-Wrote :
    (p : Bytes) (i v : ℕ)
    → i + 1 < length p
    → WroteBy p i (v / 256 % 256 ∷ v % 256 ∷ []) (put_be16 p i v)
unfolding put_be16
put_be16-Wrote p i v h =
    let (_, e) = get_elem?-lt p (i + 1) h in
    let w = set-Wrote p i (v / 256 % 256) (omega arith) in
    (
      set (set p i (v / 256 % 256)) (i + 1) (v % 256),
      rw e refl,
      Wrote-snoc p i (v / 256 % 256 ∷ []) _ (v % 256) (i + 1) w (omega arith) h,
    )

pub put_ip4-Wrote :
    (p : Bytes) (i : ℕ) (a : Ipv4)
    → i + 3 < length p
    → WroteBy p i (a.b0 ∷ a.b1 ∷ a.b2 ∷ a.b3 ∷ []) (put_ip4 p i a)
unfolding put_ip4
put_ip4-Wrote p i a h =
    let (_, e) = get_elem?-lt p (i + 3) h in
    let w0 = set-Wrote p i a.b0 (omega arith) in
    let w1 = Wrote-snoc p i (a.b0 ∷ []) _ a.b1 (i + 1) w0 (omega arith) (omega arith) in
    let w2 = Wrote-snoc p i (a.b0 ∷ a.b1 ∷ []) _ a.b2 (i + 2) w1 (omega arith) (omega arith) in
    (
      set (set (set (set p i a.b0) (i + 1) a.b1) (i + 2) a.b2) (i + 3) a.b3,
      rw e refl,
      Wrote-snoc p i (a.b0 ∷ a.b1 ∷ a.b2 ∷ []) _ a.b3 (i + 3) w2 (omega arith) h,
    )

-- These many bytes from `j` on are outside what was written.
abbrev pub Apart : ℕ → Bytes → ℕ → ℕ → Type 0
Apart i bs j n = (j + n ≤ i) ⊎ (i + length bs ≤ j)

module _ {p q bs : Bytes} {i : ℕ} (w : Wrote p i bs q) where
  at-Apart : (j n k : ℕ) → Apart i bs j n → k < n → get_elem? q (j + k) ≡ get_elem? p (j + k)
  at-Apart j n k (inl under) small = w.outside (j + k) (inl (omega arith))
  at-Apart j n k (inr over) small = w.outside (j + k) (inr (omega arith))

  pub byte-Apart : (j : ℕ) → Apart i bs j 1 → get_elem? q j ≡ get_elem? p j
  byte-Apart j (inl under) = w.outside j (inl (omega arith))
  byte-Apart j (inr over) = w.outside j (inr over)

  pub be16-Apart : (j : ℕ) → Apart i bs j 2 → be16 q j ≡ be16 p j
  unfolding be16
  be16-Apart j away =
      let e0 = at-Apart j 2 0 away (omega arith) in
      let e1 = at-Apart j 2 1 away (omega arith) in
      let start : j + 0 ≡ j = omega arith in ground (arith, start)

  pub read_ip4-Apart : (j : ℕ) → Apart i bs j 4 → read_ip4 q j ≡ read_ip4 p j
  unfolding read_ip4
  read_ip4-Apart j away =
      let start : j + 0 ≡ j = omega arith in
      let e0 : get_elem? q j ≡ get_elem? p j = rw⁻¹ start (at-Apart j 4 0 away (omega arith)) in
      let e1 = at-Apart j 4 1 away (omega arith) in
      let e2 = at-Apart j 4 2 away (omega arith) in
      let e3 = at-Apart j 4 3 away (omega arith) in rw (e0, e1, e2, e3) refl

Wrote-first : {p q bs : Bytes} {i b : ℕ} → Wrote p i (b ∷ bs) q → get_elem? q i ≡ some b
Wrote-first {i = i} w = let start : i + 0 ≡ i = omega arith in rw⁻¹ start (w.inside 0 (omega arith))

two_bytes : (v : ℕ) → v < 65536 → (v / 256 % 256) * 256 + v % 256 ≡ v
two_bytes v small = omega arith

-- A port that was written is read.
pub be16-Wrote :
    {p q : Bytes} {i : ℕ} (v : ℕ)
    → Wrote p i (v / 256 % 256 ∷ v % 256 ∷ []) q
    → v < 65536
    → be16 q i ≡ some v
unfolding be16
be16-Wrote v w small = rw (Wrote-first w, w.inside 1 (omega arith), two_bytes v small) refl

-- An address that was written is read.
pub read_ip4-Wrote :
    {p q : Bytes} {i : ℕ} (a : Ipv4)
    → Wrote p i (a.b0 ∷ a.b1 ∷ a.b2 ∷ a.b3 ∷ []) q
    → read_ip4 q i ≡ some a
unfolding read_ip4
read_ip4-Wrote a w =
    rw (Wrote-first w, w.inside 1 (omega arith), w.inside 2 (omega arith), w.inside 3 (omega arith))
      refl
