-- ===== src/Engine/Whitelist/Examples.antt =====
-- engine.go: a list of programs. Package strings on ASCII.
use go_pass.Base.{
  ℕ, ◌+◌, ◌<◌, ◌≡◌, ◌∙◌, sym, ◌==◌, ◌||◌, inl, inr, Bool-cases, refl, ap, Bool, true, false, ◌&&◌,
  List, [], ◌∷◌, map, arith, leb, if◌then◌else◌, Text, codes, text_eq,
}
use go_pass.Engine.Whitelist.{Strings, normalize_whitelist}
use go_pass.Engine.Whitelist.Folding.{IsAscii, IsAsciiStrings}
use go_pass.Engine.Whitelist.Tidy.{IsTidy}

abbrev pub lower : ℕ → ℕ
lower c = if leb 65 c && leb c 90 then c + 32 else c

lower-lower : (c : ℕ) → lower (lower c) ≡ lower c
lower-lower c = ground arith

lower-lower_all : (x : Text) → map lower (map lower x) ≡ map lower x
lower-lower_all [] = refl
lower-lower_all (c ∷ cs) = cc (lower-lower c, lower-lower_all cs)

abbrev pub blank : ℕ → Bool
blank c = c == 32 || (leb 9 c && leb c 13)

blank-lower : (c : ℕ) → blank (lower c) ≡ blank c
blank-lower c = ground arith

unfoldable pub trim_left : Text → Text
trim_left [] = []
trim_left (c ∷ cs) = if blank c then trim_left cs else c ∷ cs

abbrev pub cut : Bool → ℕ → Text → Text
cut b c [] = if b then [] else c ∷ []
cut b c (d ∷ ds) = c ∷ d ∷ ds

unfoldable pub trim_right : Text → Text
trim_right [] = []
trim_right (c ∷ cs) = cut (blank c) c (trim_right cs)

trim_left-lower : (x : Text) → trim_left (map lower x) ≡ map lower (trim_left x)
unfolding trim_left
trim_left-lower [] = refl
trim_left-lower (c ∷ cs) = elim (Bool-cases (blank c)) [
  | inl e ↦ rw (blank-lower c, e) (trim_left-lower cs)
  | inr e ↦ rw (blank-lower c, e) refl
]

cut-lower :
    (c : ℕ) (r : Text)
    → cut (blank (lower c)) (lower c) (map lower r) ≡ map lower (cut (blank c) c r)
cut-lower c [] = elim (Bool-cases (blank c)) [
  | inl e ↦ rw (blank-lower c, e) refl
  | inr e ↦ rw (blank-lower c, e) refl
]
cut-lower c (d ∷ ds) = refl

trim_right-lower : (x : Text) → trim_right (map lower x) ≡ map lower (trim_right x)
unfolding trim_right
trim_right-lower [] = refl
trim_right-lower (c ∷ cs) =
    ap (cut (blank (lower c)) (lower c)) (trim_right-lower cs) ∙ cut-lower c (trim_right cs)

trim_right-cut :
    (c : ℕ) (r : Text) → trim_right r ≡ r → trim_right (cut (blank c) c r) ≡ cut (blank c) c r
unfolding trim_right
trim_right-cut c [] h = elim (Bool-cases (blank c)) [
  | inl e ↦ rw (trim_right, e) refl
  | inr e ↦ rw (trim_right, e) (rw e refl)
]
trim_right-cut c (d ∷ ds) h = ap (cut (blank c) c) h

trim_right-trim_right : (x : Text) → trim_right (trim_right x) ≡ trim_right x
unfolding trim_right
trim_right-trim_right [] = refl
trim_right-trim_right (c ∷ cs) = trim_right-cut c (trim_right cs) (trim_right-trim_right cs)

trim_left-cut :
    (c : ℕ) (r : Text) → blank c ≡ false → trim_left (cut (blank c) c r) ≡ cut (blank c) c r
unfolding trim_left
trim_left-cut c [] e = rw (trim_left, e) (rw e refl)
trim_left-cut c (d ∷ ds) e = rw e refl

trim_left-trim_right : (x : Text) → trim_left (trim_right (trim_left x)) ≡ trim_right (trim_left x)
unfolding trim_left trim_right
trim_left-trim_right [] = refl
trim_left-trim_right (c ∷ cs) = elim (Bool-cases (blank c)) [
  | inl e ↦ rw e (trim_left-trim_right cs)
  | inr e ↦ rw e (trim_left-cut c (trim_right cs) e)
]

trim_left-IsAscii : (x : Text) → IsAscii x → IsAscii (trim_left x)
unfolding trim_left
trim_left-IsAscii [] h = tt
trim_left-IsAscii (c ∷ cs) (small, h) = elim (Bool-cases (blank c)) [
  | inl e ↦ rw e (trim_left-IsAscii cs h)
  | inr e ↦ rw e (small, h)
]

cut-IsAscii : (b : Bool) (c : ℕ) (r : Text) → c < 128 → IsAscii r → IsAscii (cut b c r)
cut-IsAscii true c [] small h = tt
cut-IsAscii false c [] small h = (small, tt)
cut-IsAscii b c (d ∷ ds) small h = (small, h)

trim_right-IsAscii : (x : Text) → IsAscii x → IsAscii (trim_right x)
unfolding trim_right
trim_right-IsAscii [] h = tt
trim_right-IsAscii (c ∷ cs) (small, h) = cut-IsAscii (blank c) c _ small (trim_right-IsAscii cs h)

abbrev pub ascii : Strings
ascii = record {
  to_lower = map lower;
  trim_space = λ name. trim_right (trim_left name);
  equal_fold = λ a b. text_eq (map lower a) (map lower b);
}

trims_twice : (a : Text) → ascii.trim_space (ascii.trim_space a) ≡ ascii.trim_space a
trims_twice a = ap trim_right (trim_left-trim_right a) ∙ trim_right-trim_right (trim_left a)

trims_lowered : (a : Text) → ascii.trim_space (map lower a) ≡ map lower (ascii.trim_space a)
trims_lowered a = ap trim_right (trim_left-lower a) ∙ trim_right-lower (trim_left a)

pub ascii-IsAsciiStrings : IsAsciiStrings ascii
ascii-IsAsciiStrings = record {
  folds = λ a b p q. refl;
  trims_once = trims_twice;
  trims_lower = trims_lowered;
  trims_ascii = λ a h. trim_right-IsAscii (trim_left a) (trim_left-IsAscii a h);
}

pub ascii-IsTidy : IsTidy ascii
ascii-IsTidy x =
    trims_lowered (ascii.trim_space (map lower x))
    ∙ ap (map lower) (trims_twice (map lower x))
    ∙ sym (trims_lowered (map lower x))
    ∙ ap ascii.trim_space (lower-lower_all x)

abbrev pub programs : List Text
programs = codes "Chrome.exe" ∷ codes "curl.exe" ∷ codes "CHROME.EXE" ∷ []

normalized_once : normalize_whitelist ascii programs ≡ codes "chrome.exe" ∷ codes "curl.exe" ∷ []
unfolding trim_left trim_right normalize_whitelist go_pass.Base.lookup go_pass.Base.insert
    go_pass.Base.Text-discrete go_pass.Base.ℕ_discrete
normalized_once = refl
