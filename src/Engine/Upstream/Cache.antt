-- ===== src/Engine/Upstream/Cache.antt =====
-- upstream.go, `Dialer`: the cache changes nothing but the work done.
use go_pass.Base.{
  ◌≡◌, ◌⊎◌, inl, inr, refl, sym, ◌∙◌, ap, true, false, ◌&&◌, Option, none, some, ite, if◌then◌else◌,
  Option-cases, Text, Text-discrete,
}
use go_pass.Engine.Upstream.{
  Dialer, UpstreamDialer, Settings, is_some, settings, upstream_cache_key, custom, hit, build, fill,
  dialer,
}
use go_pass.Engine.Upstream.Keys.{IsPlain, upstream_cache_key-injective}
use go_pass.Engine.Upstream.Reach.{Reach, by_hand, by_key, IsFaithful, Reach-IsFaithful, filled}

module _ {S : Type 0} (socks5 : Text → Option (Text × Text) → Option S) where
  -- The dialer that was put by hand into a state, or what `Dialer` builds from the settings it read.
  pub data Answers (s : Settings) (u w : UpstreamDialer S) (r : Option (Dialer S)) : Type 0 where
    by_hand_before : u.cached_key ≡ custom → r ≡ u.cached → Answers s u w r
    by_hand_after : w.cached_key ≡ custom → r ≡ w.cached → Answers s u w r
    as_built : r ≡ build socks5 s → Answers s u w r

  data IsHit (s : Settings) (u : UpstreamDialer S) (d : Dialer S) : Type 0 where
    hit_by_hand : u.cached_key ≡ custom → u.cached ≡ some d → IsHit s u d
    hit_by_key : build socks5 s ≡ some d → IsHit s u d

  chosen :
      {P Q : Type 0} (p : Dec P) (q : Dec Q) (cached : Option (Dialer S)) (d : Dialer S)
      → (if ite p true false && is_some cached
          then cached
          else if is_some cached && ite q true false
          then cached
          else none)
        ≡ some d
      → (cached ≡ some d) × (P ⊎ Q)
  chosen (yes x) q (some c) d h = (h, inl x)
  chosen (no n) (yes y) (some c) d h = (h, inr y)
  chosen (no n) (no n') (some c) d h = cc h
  chosen (yes x) (yes y) none d h = cc h
  chosen (yes x) (no n) none d h = cc h
  chosen (no n) (yes y) none d h = cc h
  chosen (no n) (no n') none d h = cc h

  hit-key :
      (key : Text) (u : UpstreamDialer S) (d : Dialer S)
      → hit key u ≡ some d
      → (u.cached ≡ some d) × ((u.cached_key ≡ custom) ⊎ (u.cached_key ≡ key))
  unfolding hit
  hit-key key u d h =
      chosen (Text-discrete u.cached_key custom) (Text-discrete u.cached_key key) u.cached d h

  hit_lem :
      (s : Settings) (u : UpstreamDialer S) (d : Dialer S)
      → IsPlain s
      → IsFaithful socks5 u
      → hit (upstream_cache_key s) u ≡ some d
      → IsHit s u d
  hit_lem s u d p f h =
      let (c, key) = hit-key (upstream_cache_key s) u d h in
      elim key [
        | inl by ↦ hit_by_hand by c
        | inr by ↦ elim (f.faithful d c) [
          | by_hand k ↦ hit_by_hand k c
          | by_key t q k made ↦
              hit_by_key
                (ap (build socks5) (upstream_cache_key-injective s t p q (sym by ∙ k)) ∙ made)
        ]
      ]

  fill_lem :
      (s : Settings) (u w : UpstreamDialer S)
      → IsPlain s
      → IsFaithful socks5 w
      → Answers s u w (fill socks5 s w).1
  unfolding fill
  fill_lem s u w p f = elim (Option-cases (hit (upstream_cache_key s) w)) [
    | inl miss ↦ elim (Option-cases (build socks5 s)) [
      | inl failed ↦ as_built (rw (fill, miss, failed) refl)
      | inr (d, done) ↦ as_built (rw (fill, miss, done) refl)
    ]
    | inr (d, h) ↦ elim (hit_lem s w d p f h) [
      | hit_by_hand k c ↦ by_hand_after k (rw (fill, h) (sym c))
      | hit_by_key made ↦ as_built (rw (fill, h) (sym made))
    ]
  ]

  -- From a state that goroutines can bring the dialer to, whatever state they bring it to while `Dialer` waits
  -- for the lock: `Dialer` returns what it would build from the settings that it read, also where it takes a
  -- dialer from the cache, or else a dialer put there by hand; and the state after it is one of those states.
  -- The settings that the dialer is made with and updated to have no colon in the type and no NUL in the
  -- address and the user's name.
  pub dialer_lem :
      (u w : UpstreamDialer S)
      → Reach socks5 u
      → Reach socks5 w
      → Answers (settings u) u w (dialer socks5 w u).1 × Reach socks5 (dialer socks5 w u).0
  unfolding dialer
  dialer_lem u w ru rwa =
      let p = (Reach-IsFaithful socks5 u ru).plain in
      elim (Option-cases (hit (upstream_cache_key (settings u)) u)) [
        | inl miss ↦
            rw (dialer, miss)
              (
                fill_lem (settings u) u w p (Reach-IsFaithful socks5 w rwa),
                filled (settings u) w p rwa,
              )
        | inr (d, h) ↦
            rw (dialer, h)
              (
                elim (hit_lem (settings u) u d p (Reach-IsFaithful socks5 u ru) h) [
                  | hit_by_hand k c ↦ by_hand_before k (sym c)
                  | hit_by_key done ↦ as_built (sym done)
                ],
                ru,
              )
      ]
