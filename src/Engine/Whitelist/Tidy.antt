-- ===== src/Engine/Whitelist/Tidy.antt =====
-- engine.go: the names in a cleaned list change no more when they are cleaned again.
use go_pass.Base.{
  ◌≡◌, refl, ap, ◌∙◌, false, List, [], ◌∷◌, ◌++◌, map, inl, inr, Bool-cases, Text, Text-discrete,
  insert,
}
use go_pass.Engine.Whitelist.{
  Strings, norm, Names, has, is_empty, normalize_loop, normalize_whitelist, set_whitelist, any_fold,
  added, removed, filtered,
}
use go_pass.Engine.Whitelist.Sets.{contains, set_whitelist-has, normalize_whitelist-contains}

-- Lower case and trimming, done twice, change nothing more.
abbrev pub IsTidy : Strings → Type 0
IsTidy st = (x : Text) → norm st (norm st x) ≡ norm st x

abbrev pub IsClean : Strings → List Text → Type 0
IsClean st list = map (norm st) list ≡ list

IsClean-concat :
    (st : Strings) (list : List Text) (x : Text)
    → IsClean st list
    → norm st x ≡ x
    → IsClean st (list ++ x ∷ [])
IsClean-concat st [] x h e = ap (λ v. v ∷ []) e
IsClean-concat st (y ∷ list) x h e =
    let rest : map (norm st) list ≡ list = cc h in cc (h, IsClean-concat st list x rest e)

normalize_loop-IsClean :
    (st : Strings) (list : List Text) (seen : Names) (clean : List Text)
    → IsTidy st
    → IsClean st clean
    → IsClean st (normalize_loop st list seen clean)
unfolding normalize_loop
normalize_loop-IsClean st [] seen clean tidy h = h
normalize_loop-IsClean st (x ∷ list) seen clean tidy h = elim (Bool-cases (is_empty (norm st x))) [
  | inl empty ↦ rw empty (normalize_loop-IsClean st list seen clean tidy h)
  | inr full ↦ elim (Bool-cases (has (norm st x) seen)) [
    | inl old ↦ rw (full, old) (normalize_loop-IsClean st list seen clean tidy h)
    | inr new ↦
        rw (full, new)
          (normalize_loop-IsClean st list (insert Text-discrete (norm st x) tt seen)
            (clean ++ norm st x ∷ []) tidy (IsClean-concat st clean (norm st x) h (tidy x)))
  ]
]

pub normalize_whitelist-IsClean :
    (st : Strings) (list : List Text) → IsTidy st → IsClean st (normalize_whitelist st list)
unfolding normalize_whitelist
normalize_whitelist-IsClean st list tidy = normalize_loop-IsClean st list [] [] tidy refl

-- A set made from a clean list.
pub IsClean-has :
    (st : Strings) (list : List Text) (n : Text)
    → IsClean st list
    → is_empty n ≡ false
    → has n (set_whitelist st list) ≡ contains n list
IsClean-has st list n clean full =
    set_whitelist-has st list n ∙ normalize_whitelist-contains st list n ∙ rw (clean, full) refl

pub added-IsClean :
    (st : Strings) (name : Text) (cur : List Text) → IsTidy st → IsClean st (added st name cur)
unfolding added
added-IsClean st name cur tidy = elim (Bool-cases (any_fold st name cur)) [
  | inl old ↦ rw old (normalize_whitelist-IsClean st cur tidy)
  | inr new ↦ rw new (normalize_whitelist-IsClean st (cur ++ name ∷ []) tidy)
]

pub removed-IsClean :
    (st : Strings) (name : Text) (cur : List Text) → IsTidy st → IsClean st (removed st name cur)
unfolding removed
removed-IsClean st name cur tidy = elim (Bool-cases (is_empty name)) [
  | inl blank ↦ rw blank (normalize_whitelist-IsClean st cur tidy)
  | inr full ↦ rw full (normalize_whitelist-IsClean st (filtered st name cur) tidy)
]
