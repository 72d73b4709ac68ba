-- ===== src/Base/Texts.antt =====
-- Go strings as lists of bytes, `strconv.Itoa` on a number that is not negative, and reads of
-- big- and little-endian numbers from a byte slice. `none` is an index out of range, a panic.
use Prim.Native.Nat.{ℕ, zero, suc, ◌+◌, ◌*◌, ◌/◌, ◌%◌, ◌<◌}
use Prim.Native.Char.{code}
use Prim.Native.String.{String}
use mathlib.Core.Path.{◌≡◌, refl, ◌∙◌}
use mathlib.Core.List.{List, [], ◌∷◌, ◌++◌}
use mathlib.Core.Option.{Option, none, some}
use mathlib.Core.Bool.{Bool, true, false}
use mathlib.Core.Logic.{ite}
use native.Mathlib.Decide.{ℕ_discrete}
use native.Mathlib.Omega.{arith}
use go_pass.Base.Tests.{ltb, if◌then◌else◌}
use go_pass.Base.Lists.{get_elem?, set, length, length-set, get_elem?-lt}

abbrev pub Bytes : Type 0
Bytes = List ℕ

abbrev pub IsByte : ℕ → Type 0
IsByte b = b < 256

abbrev pub Text : Type 0
Text = List ℕ

unfoldable pub Text-discrete : Discrete Text
Text-discrete = hlevel ℕ_discrete

abbrev pub text_eq : Text → Text → Bool
text_eq s t = ite (Text-discrete s t) true false

-- The bytes of an ASCII literal.
abbrev pub codes : String → Text
codes String.[] = []
codes (String.◌∷◌ c s) = code c ∷ codes s

-- Each round takes one digit, so `n` rounds are enough for `n`.
digits : ℕ → ℕ → Text
digits zero n = (b'0' + n % 10) ∷ []
digits (suc fuel) n =
    let rest = digits fuel (n / 10) in
    if ltb n 10 then (b'0' + n) ∷ [] else rest ++ (b'0' + n % 10) ∷ []

unfoldable pub itoa : ℕ → Text
unfolding digits
itoa n = digits n n

infixl 5 ◌>>=◌
abbrev pub ◌>>=◌ {ℓ κ} : {A : Type ℓ} {B : Type κ} → Option A → (A → Option B) → Option B
none >>= f = none
some a >>= f = f a

-- `binary.BigEndian.Uint16(p[i:i+2])`
unfoldable pub be16 : Bytes → ℕ → Option ℕ
be16 p i = do hi ← get_elem? p i; lo ← get_elem? p (i + 1); some (hi * 256 + lo)

-- `binary.BigEndian.PutUint16(p[i:i+2], v)`
unfoldable pub put_be16 : Bytes → ℕ → ℕ → Option Bytes
put_be16 p i v = do _ ← get_elem? p (i + 1); some (set (set p i (v / 256 % 256)) (i + 1) (v % 256))

pub be16-lt : (p : Bytes) (i : ℕ) → i + 1 < length p → (v : ℕ) × (be16 p i ≡ some v)
unfolding be16
be16-lt p i h =
    let (hi, e) = get_elem?-lt p i (omega arith) in
    let (lo, f) = get_elem?-lt p (i + 1) h in (hi * 256 + lo, rw (e, f))

pub put_be16-lt :
    (p : Bytes) (i v : ℕ)
    → i + 1 < length p
    → (q : Bytes) × (put_be16 p i v ≡ some q) × (length q ≡ length p)
unfolding put_be16
put_be16-lt p i v h =
    let (_, e) = get_elem?-lt p (i + 1) h in
    (
      set (set p i (v / 256 % 256)) (i + 1) (v % 256),
      rw e,
      length-set (set p i (v / 256 % 256)) (i + 1) (v % 256) ∙ length-set p i (v / 256 % 256),
    )

itoa_test : itoa 60999 ≡ codes "60999"
unfolding itoa
itoa_test = refl
