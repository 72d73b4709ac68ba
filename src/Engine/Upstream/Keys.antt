-- ===== src/Engine/Upstream/Keys.antt =====
-- upstream.go: the cache key tells settings apart.
use go_pass.Base.{ℕ, ◌≡◌, refl, false, [], ◌∷◌, ◌++◌, arith, Text}
use go_pass.Engine.Upstream.{Settings, has_byte, upstream_cache_key}

-- No colon in the type, no NUL in the address and the name of the user.
pub record IsPlain (s : Settings) : Type 0 where
  pub no_colon : has_byte 58 s.p_type ≡ false
  pub addr_no_nul : has_byte 0 s.p_addr ≡ false
  pub username_no_nul : has_byte 0 s.username ≡ false

-- Two texts that are cut at the first place of a byte.
cut_first :
    (b : ℕ) (xs ys : Text) (r t : Text)
    → has_byte b xs ≡ false
    → has_byte b ys ≡ false
    → xs ++ (b ∷ r) ≡ ys ++ (b ∷ t)
    → (xs ≡ ys) × (r ≡ t)
cut_first b [] [] r t h k e = (refl, cc e)
cut_first b [] (y ∷ ys) r t h k e = ground (arith, e)
cut_first b (x ∷ xs) [] r t h k e = ground (arith, e)
cut_first b (x ∷ xs) (y ∷ ys) r t h k e =
    let (tails, rests) = cut_first b xs ys r t (ground arith) (ground arith) (cc e) in
    (cc (e, tails), rests)

-- Settings without a colon in the type and a NUL in the address and the user's name, and with one key, are
-- equal.
pub upstream_cache_key-injective :
    (s t : Settings) → IsPlain s → IsPlain t → upstream_cache_key s ≡ upstream_cache_key t → s ≡ t
upstream_cache_key-injective s t p q e =
    let (types, rest) = cut_first 58 s.p_type t.p_type _ _ p.no_colon q.no_colon e in
    let (addrs, rest') =
      cut_first 0 s.p_addr t.p_addr (s.username ++ (0 ∷ s.password))
        (t.username ++ (0 ∷ t.password)) p.addr_no_nul q.addr_no_nul (cc rest) in
    let (users, passwords) =
      cut_first 0 s.username t.username s.password t.password p.username_no_nul q.username_no_nul
        rest' in
    cc (types, addrs, users, passwords)
