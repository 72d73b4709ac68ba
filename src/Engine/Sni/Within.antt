-- ===== src/Engine/Sni/Within.antt =====
-- sni.go: hosts that stand in the input, and the two loops.
use go_pass.Base.{
  ℕ, zero, suc, ◌+◌, ◌-◌, ◌≤◌, ◌<◌, ◌≡◌, refl, sym, ap, ◌∙◌, Bool, true, false, not, ◌&&◌, [], ◌++◌,
  append_assoc, append-nil, Option, some, ltb, ◌==◌, if◌then◌else◌, Bytes, ◌>>=◌, be16-lt,
  get_elem?-lt, length, length-drop, length-take_of_le, take, drop, take-append-drop, inl, inr,
  Bool-cases, arith,
}
use go_pass.Engine.Sni.{
  SniError, SniResult, host, failed, bad_server_name, bad_extension, sni_not_found, slice,
  name_loop, server_names, extension_loop,
}

-- The bytes stand in the input, one after the other.
pub record IsInside (name input : Bytes) : Type 0 where
  pub before : Bytes
  pub after : Bytes
  pub joined : input ≡ before ++ (name ++ after)

-- A host is not empty and stands in the input; an error says nothing.
abbrev pub IsFrom : Bytes → SniResult → Type 0
IsFrom input (host name) = (0 < length name) × IsInside name input
IsFrom input (failed e) = Unit {0}

-- A parser that ends, with such a result.
pub record EndsIn (input : Bytes) (r : Option SniResult) : Type 0 where
  pub end : SniResult
  pub result : r ≡ some end
  pub from : IsFrom input end

pub fails : (input : Bytes) (e : SniError) → EndsIn input (some (failed e))
fails input e = record { end = failed e; result = refl; from = tt }

pub EndsIn-if :
    (input : Bytes) (b : Bool) (x y : Option SniResult)
    → EndsIn input x
    → (b ≡ false → EndsIn input y)
    → EndsIn input (if b then x else y)
EndsIn-if input true x y e f = e
EndsIn-if input false x y e f = f refl

pub EndsIn-either :
    (input : Bytes) (b : Bool) (x y : Option SniResult)
    → (b ≡ true → EndsIn input x)
    → (b ≡ false → EndsIn input y)
    → EndsIn input (if b then x else y)
EndsIn-either input true x y e f = e refl
EndsIn-either input false x y e f = f refl

pub IsInside-take-drop : (i n : ℕ) (xs : Bytes) → IsInside (take n (drop i xs)) xs
IsInside-take-drop i n xs = record {
  before = take i xs;
  after = drop n (drop i xs);
  joined =
      sym (ap (λ ys. take i xs ++ ys) (take-append-drop n (drop i xs)) ∙ take-append-drop i xs);
}

IsInside-drop : (i : ℕ) (xs : Bytes) → IsInside (drop i xs) xs
IsInside-drop i xs = record {
  before = take i xs;
  after = [];
  joined = sym (ap (λ ys. take i xs ++ ys) (append-nil (drop i xs)) ∙ take-append-drop i xs);
}

pub IsInside-trans : (a b c : Bytes) → IsInside a b → IsInside b c → IsInside a c
IsInside-trans a b c h k = record {
  before = k.before ++ h.before;
  after = h.after ++ k.after;
  joined =
      k.joined
      ∙ ap (λ z. k.before ++ (z ++ k.after)) h.joined
      ∙ ap (λ z. k.before ++ z)
          (append_assoc h.before (a ++ h.after) k.after
            ∙ ap (λ z. h.before ++ z) (append_assoc a h.after k.after))
      ∙ sym (append_assoc k.before h.before (a ++ (h.after ++ k.after)));
}

-- What is found in a part is found in the whole.
pub EndsIn-whole :
    (part input : Bytes) (r : Option SniResult)
    → IsInside part input
    → EndsIn part r
    → EndsIn input r
EndsIn-whole part input r h e = record { end = e.end; result = e.result; from = lift e.end e.from }
  where
    lift : (x : SniResult) → IsFrom part x → IsFrom input x
    lift (host name) (positive, k) = (positive, IsInside-trans name part input k h)
    lift (failed x) k = tt

pub slice-le : (xs : Bytes) (i n : ℕ) → i + n ≤ length xs → slice xs i n ≡ some (take n (drop i xs))
unfolding slice
slice-le xs i n h = ground arith

length-slice : (xs : Bytes) (i n : ℕ) → i + n ≤ length xs → length (take n (drop i xs)) ≡ n
length-slice xs i n h = length-take_of_le n (drop i xs) (omega (arith, length-drop i xs))

named_host :
    (input xs : Bytes) (i n : ℕ)
    → IsInside xs input
    → i + n ≤ length xs
    → 0 < n
    → EndsIn input (slice xs i n >>= λ name. some (host name))
named_host input xs i n inside h positive = rw (slice-le xs i n h) (record {
  end = host (take n (drop i xs));
  result = refl;
  from = (
    omega (arith, length-slice xs i n h),
    IsInside-trans _ xs input (IsInside-take-drop i n xs) inside,
  );
})

name_loop-EndsIn :
    (input : Bytes) (fuel : ℕ) (names : Bytes) (more : Option SniResult)
    → length names < fuel
    → IsInside names input
    → EndsIn input more
    → EndsIn input (name_loop fuel names more)
unfolding name_loop
name_loop-EndsIn input zero names more h inside e = absurd (omega arith)
name_loop-EndsIn input (suc fuel) names more h inside e = elim (Bool-cases (ltb (length names) 3)) [
  | inl short ↦ rw short e
  | inr long ↦
      let (kind, f) = get_elem?-lt names 0 (ground arith) in
      let (n, g) = be16-lt names 1 (ground arith) in
      let others =
        name_loop-EndsIn input fuel (drop (3 + n) names) more
          (ground (arith, length-drop (3 + n) names))
          (IsInside-trans _ names input (IsInside-drop (3 + n) names) inside) e in
      rw (long, f, g)
        (EndsIn-if input (ltb (length names - 3) n) _ _ (fails input bad_server_name) λ within.
          EndsIn-either input (kind == 0 && not (n == 0)) _ _
            (λ this. named_host input names 3 n inside (ground arith) (ground arith))
            (λ other. others))
]

server_names-EndsIn :
    (input body : Bytes) (more : Option SniResult)
    → IsInside body input
    → EndsIn input more
    → EndsIn input (server_names body more)
unfolding server_names
server_names-EndsIn input body more inside e = elim (Bool-cases (ltb (length body) 2)) [
  | inl short ↦ rw short e
  | inr long ↦
      let (n, f) = be16-lt body 0 (ground arith) in
      rw (long, f)
        (EndsIn-if input (ltb (length body - 2) n) _ _ e λ within.
          rw (slice-le body 2 n (ground arith)) (
            name_loop-EndsIn input (suc (length (take n (drop 2 body)))) (take n (drop 2 body)) more
              (omega arith) (IsInside-trans _ body input (IsInside-take-drop 2 n body) inside) e))
]

pub extension_loop-EndsIn :
    (input : Bytes) (fuel : ℕ) (exts : Bytes)
    → length exts < fuel
    → IsInside exts input
    → EndsIn input (extension_loop fuel exts)
unfolding extension_loop
extension_loop-EndsIn input zero exts h inside = absurd (omega arith)
extension_loop-EndsIn input (suc fuel) exts h inside = elim (Bool-cases (ltb (length exts) 4)) [
  | inl short ↦ rw short (fails input sni_not_found)
  | inr long ↦
      let (kind, f) = be16-lt exts 0 (ground arith) in
      let (n, g) = be16-lt exts 2 (ground arith) in
      let others =
        extension_loop-EndsIn input fuel (drop (4 + n) exts)
          (ground (arith, length-drop (4 + n) exts))
          (IsInside-trans _ exts input (IsInside-drop (4 + n) exts) inside) in
      rw (long, f, g)
        (EndsIn-if input (ltb (length exts - 4) n) _ _ (fails input bad_extension) λ within.
          EndsIn-either input (kind == 0) _ _
            (λ this. rw (slice-le exts 4 n (ground arith)) (
              server_names-EndsIn input (take n (drop 4 exts)) _
                (IsInside-trans _ exts input (IsInside-take-drop 4 n exts) inside) others))
            (λ other. others))
]
