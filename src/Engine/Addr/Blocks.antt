-- ===== src/Engine/Addr/Blocks.antt =====
-- The address scopes as lists of CIDR blocks.
use go_pass.Base.{
  ℕ, ◌+◌, ◌*◌, ◌/◌, ◌≡◌, Bool, false, ◌&&◌, ◌||◌, List, [], ◌∷◌, arith, leb, ◌==◌, IsByte,
}
use go_pass.Engine.Addr.{is_private_or_local4}

-- The address as a number of 32 bits.
abbrev pub value4 : ℕ → ℕ → ℕ → ℕ → ℕ
value4 a b c d = ((a * 256 + b) * 256 + c) * 256 + d

-- A block `base/len`: the size of what its prefix leaves open, 2 ^ (32 - len), and the prefix.
pub record Block : Type 0 where
  pub size : ℕ
  pub prefix : ℕ

abbrev pub in_block : ℕ → Block → Bool
in_block v k = v / k.size == k.prefix

abbrev pub in_blocks : ℕ → List Block → Bool
in_blocks v [] = false
in_blocks v (k ∷ ks) = in_block v k || in_blocks v ks

abbrev pub block : ℕ → ℕ → ℕ → ℕ → ℕ → Block
block a b c d size = record { size = size; prefix = value4 a b c d / size }

-- 0/8, 10/8, 127/8, 169.254/16, 172.16/12, 192.168/16, 100.64/10, 192.0.0/24 and 224/3.
abbrev pub exempt_blocks : List Block
exempt_blocks =
    block 0 0 0 0 16777216
    ∷ block 10 0 0 0 16777216
    ∷ block 127 0 0 0 16777216
    ∷ block 169 254 0 0 65536
    ∷ block 172 16 0 0 1048576
    ∷ block 192 168 0 0 65536
    ∷ block 100 64 0 0 4194304
    ∷ block 192 0 0 0 256
    ∷ block 224 0 0 0 536870912
    ∷ []

module _ (a b c d : ℕ) (hb : IsByte b) (hc : IsByte c) (hd : IsByte d) where
  prefix_8 : value4 a b c d / 16777216 ≡ a
  prefix_8 = omega arith

  prefix_16 : value4 a b c d / 65536 ≡ a * 256 + b
  prefix_16 = omega arith

  prefix_12 : value4 a b c d / 1048576 ≡ a * 16 + b / 16
  prefix_12 = omega arith

  prefix_10 : value4 a b c d / 4194304 ≡ a * 4 + b / 64
  prefix_10 = omega arith

  prefix_24 : value4 a b c d / 256 ≡ (a * 256 + b) * 256 + c
  prefix_24 = omega arith

  prefix_3 : value4 a b c d / 536870912 ≡ a / 32
  prefix_3 = omega arith

abbrev pair_test : ℕ → ℕ → ℕ → ℕ → Bool
pair_test a b x y = a == x && b == y

test_16 : (a b x y : ℕ) → IsByte b → IsByte y → (a * 256 + b == x * 256 + y) ≡ pair_test a b x y
test_16 a b x y hb hy = ground arith

test_12 : (a b : ℕ) → IsByte b → (a * 16 + b / 16 == 2753) ≡ (a == 172 && leb 16 b && leb b 31)
test_12 a b hb = ground arith

test_10 : (a b : ℕ) → IsByte b → (a * 4 + b / 64 == 401) ≡ (a == 100 && leb 64 b && leb b 127)
test_10 a b hb = ground arith

test_24 :
    (a b c : ℕ)
    → IsByte b
    → IsByte c
    → ((a * 256 + b) * 256 + c == 12582912) ≡ (a == 192 && b == 0 && c == 0)
test_24 a b c hb hc = ground arith

test_3 : (a : ℕ) → IsByte a → (a / 32 == 7) ≡ leb 224 a
test_3 a ha = ground arith

-- The switch over the bytes of an address accepts exactly the addresses of the nine exempt CIDR
-- blocks 0/8, 10/8, 127/8, 169.254/16, 172.16/12, 192.168/16, 100.64/10, 192.0.0/24 and 224/3.
pub is_private_or_local4-in_blocks :
    (a b c d : ℕ)
    → IsByte a
    → IsByte b
    → IsByte c
    → IsByte d
    → is_private_or_local4 a b c d ≡ in_blocks (value4 a b c d) exempt_blocks
unfolding is_private_or_local4
is_private_or_local4-in_blocks a b c d ha hb hc hd =
    rw
      (
        prefix_8 a b c d hb hc hd,
        prefix_16 a b c d hb hc hd,
        prefix_12 a b c d hb hc hd,
        prefix_10 a b c d hb hc hd,
        prefix_24 a b c d hb hc hd,
        prefix_3 a b c d hb hc hd,
        test_16 a b 169 254 hb (omega arith),
        test_16 a b 192 168 hb (omega arith),
        test_12 a b hb,
        test_10 a b hb,
        test_24 a b c hb hc,
        test_3 a ha,
      )
      (ground arith)
