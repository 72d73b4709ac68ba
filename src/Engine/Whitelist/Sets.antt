-- ===== src/Engine/Whitelist/Sets.antt =====
-- engine.go: the whitelist as a set of names.
use go_pass.Base.{
  All, ◌≡◌, refl, sym, ap, ◌∙◌, Bool, true, false, not, ◌&&◌, ◌||◌, List, [], ◌∷◌, ◌++◌, map, inl,
  inr, arith, Bool-cases, Text, Text-discrete, text_eq, lookup, insert, lookup-insert,
}
use go_pass.Engine.Whitelist.{
  Strings, norm, Names, has, is_empty, normalize_loop, normalize_whitelist, whitelist_loop,
  set_whitelist, any_fold, added, filtered, removed,
}

abbrev pub contains : Text → List Text → Bool
contains n [] = false
contains n (x ∷ xs) = text_eq x n || contains n xs

-- The name is not empty, and some name of the list becomes it.
abbrev pub names : Strings → Text → List Text → Bool
names st n list = not (is_empty n) && contains n (map (norm st) list)

contains-concat :
    (n x : Text) (xs : List Text) → contains n (xs ++ x ∷ []) ≡ contains n xs || text_eq x n
contains-concat n x [] = ground arith
contains-concat n x (y ∷ xs) = ground (arith, contains-concat n x xs)

has-insert : (n x : Text) (m : Names) → has n (insert Text-discrete x tt m) ≡ text_eq x n || has n m
has-insert n x m = ground (arith, lookup-insert Text-discrete n x tt m)

is_empty-eq : (x n : Text) → text_eq x n ≡ true → is_empty x ≡ is_empty n
is_empty-eq x n h = elim (Text-discrete x n) [ yes e ↦ ap is_empty e | no ne ↦ ground arith ]

contains-eq : (x n : Text) (l : List Text) → text_eq x n ≡ true → contains x l ≡ contains n l
contains-eq x n l h = elim (Text-discrete x n) [
  | yes e ↦ ap (λ v. contains v l) e
  | no ne ↦ ground arith
]

normalize_loop-contains :
    (st : Strings) (list : List Text) (seen : Names) (clean : List Text)
    → ((k : Text) → has k seen ≡ contains k clean)
    → (n : Text)
    → contains n (normalize_loop st list seen clean) ≡ contains n clean || names st n list
unfolding normalize_loop
normalize_loop-contains st [] seen clean same n = ground arith
normalize_loop-contains st (x ∷ list) seen clean same n = elim (Bool-cases (is_empty (norm st x))) [
  | inl empty ↦
      rw (empty, normalize_loop-contains st list seen clean same n)
        (ground (arith, is_empty-eq (norm st x) n))
  | inr full ↦ elim (Bool-cases (has (norm st x) seen)) [
    | inl old ↦
        rw (full, old, normalize_loop-contains st list seen clean same n)
          (ground
            (arith, is_empty-eq (norm st x) n, contains-eq (norm st x) n clean, same (norm st x)))
    | inr new ↦
        rw
          (
            full,
            new,
            normalize_loop-contains st list (insert Text-discrete (norm st x) tt seen)
                (clean ++ norm st x ∷ [])
                (λ k. ground (
                  arith,
                  has-insert k (norm st x) seen,
                  contains-concat k (norm st x) clean,
                  same k,
                ))
                n,
          )
          (ground (arith, is_empty-eq (norm st x) n, contains-concat n (norm st x) clean))
  ]
]

-- The list that `normalizeWhitelist` gives holds exactly the names that are not empty and that some entry of
-- the list becomes in lower case and trimmed.
pub normalize_whitelist-contains :
    (st : Strings) (list : List Text) (n : Text)
    → contains n (normalize_whitelist st list) ≡ names st n list
unfolding normalize_whitelist lookup
normalize_whitelist-contains st list n = normalize_loop-contains st list [] [] (λ k. refl) n

whitelist_loop-has :
    (st : Strings) (list : List Text) (m : Names) (n : Text)
    → has n (whitelist_loop st list m) ≡ has n m || names st n list
unfolding whitelist_loop
whitelist_loop-has st [] m n = ground arith
whitelist_loop-has st (x ∷ list) m n = elim (Bool-cases (is_empty (norm st x))) [
  | inl empty ↦
      rw (empty, whitelist_loop-has st list m n) (ground (arith, is_empty-eq (norm st x) n))
  | inr full ↦
      rw (full, whitelist_loop-has st list (insert Text-discrete (norm st x) tt m) n)
        (ground (arith, is_empty-eq (norm st x) n, has-insert n (norm st x) m))
]

-- The interceptor's set and the engine's list are the same set of names, whatever the list given to them.
pub set_whitelist-has :
    (st : Strings) (list : List Text) (n : Text)
    → has n (set_whitelist st list) ≡ contains n (normalize_whitelist st list)
unfolding set_whitelist lookup
set_whitelist-has st list n =
    whitelist_loop-has st list [] n ∙ sym (normalize_whitelist-contains st list n)

-- On the names of a list, `strings.EqualFold` compares what lower case and trimming leave.
abbrev pub FoldsOn : Strings → Text → List Text → Type 0
FoldsOn st name cur =
    All (λ (p : Text). st.equal_fold p name ≡ text_eq (norm st p) (norm st name)) cur

names-concat :
    (st : Strings) (n name : Text) (cur : List Text)
    → names st n (cur ++ name ∷ []) ≡ names st n cur || not (is_empty n) && text_eq (norm st name) n
names-concat st n name [] = ground arith
names-concat st n name (x ∷ cur) = ground (arith, names-concat st n name cur)

any_fold-contains :
    (st : Strings) (name : Text) (cur : List Text)
    → FoldsOn st name cur
    → any_fold st name cur ≡ contains (norm st name) (map (norm st) cur)
any_fold-contains st name [] folds = refl
any_fold-contains st name (p ∷ cur) (fold, folds) =
    ground (arith, fold, any_fold-contains st name cur folds)

text_eq-cong : (p x n : Text) → text_eq p x ≡ true → text_eq p n ≡ text_eq x n
text_eq-cong p x n h = elim (Text-discrete p x) [
  | yes e ↦ ap (λ v. text_eq v n) e
  | no ne ↦ ground arith
]

text_eq_comm : (p x : Text) → text_eq p x ≡ text_eq x p
text_eq_comm p x = ground arith

-- After `AddProcess` the list holds what it held, in lower case and trimmed, and the name; nothing else.
-- On the list's names, `strings.EqualFold` compares what lower case and trimming leave.
pub added-contains :
    (st : Strings) (name : Text) (cur : List Text) (n : Text)
    → FoldsOn st name cur
    → contains n (added st name cur)
      ≡ names st n cur || not (is_empty n) && text_eq (norm st name) n
unfolding added
added-contains st name cur n folds = elim (Bool-cases (any_fold st name cur)) [
  | inl old ↦
      rw (old, normalize_whitelist-contains st cur n)
        (ground (
          arith,
          any_fold-contains st name cur folds,
          contains-eq (norm st name) n (map (norm st) cur),
        ))
  | inr new ↦
      rw (new, normalize_whitelist-contains st (cur ++ name ∷ []) n) (names-concat st n name cur)
]

names-filtered :
    (st : Strings) (name : Text) (cur : List Text) (n : Text)
    → FoldsOn st name cur
    → contains n (map (norm st) (filtered st name cur))
      ≡ contains n (map (norm st) cur) && not (text_eq (norm st name) n)
unfolding filtered
names-filtered st name [] n folds = refl
names-filtered st name (p ∷ cur) n (fold, folds) = ground (
  arith,
  fold,
  names-filtered st name cur n folds,
  text_eq-cong (norm st p) (norm st name) n,
  text_eq-cong (norm st p) n (norm st name),
  text_eq_comm n (norm st name),
)

-- After `RemoveProcess` of a name that is not empty, the list holds what it held, in lower case and trimmed,
-- except the name. `strings.EqualFold` is taken as for `AddProcess`.
pub removed-contains :
    (st : Strings) (name : Text) (cur : List Text) (n : Text)
    → is_empty name ≡ false
    → FoldsOn st name cur
    → contains n (removed st name cur) ≡ names st n cur && not (text_eq (norm st name) n)
unfolding removed
removed-contains st name cur n full folds =
    rw (full, normalize_whitelist-contains st (filtered st name cur) n)
      (ground (arith, names-filtered st name cur n folds))
