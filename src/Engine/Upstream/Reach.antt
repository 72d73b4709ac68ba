-- ===== src/Engine/Upstream/Reach.antt =====
-- upstream.go: the states that goroutines can bring a dialer to, in any order of the parts that hold its lock.
use go_pass.Base.{◌≡◌, inl, inr, refl, ◌∙◌, Option, some, Option-cases, Text}
use go_pass.Engine.Upstream.{
  Dialer, UpstreamDialer, Settings, settings, upstream_cache_key, custom, new_upstream_dialer,
  update, set_dialer, hit, build, fill,
}
use go_pass.Engine.Upstream.Keys.{IsPlain}

module _ {S : Type 0} (socks5 : Text → Option (Text × Text) → Option S) where
  pub data Reach : UpstreamDialer S → Type 0 where
    made : (s : Settings) → IsPlain s → Reach (new_upstream_dialer s)
    updated : (s : Settings) (u : UpstreamDialer S) → IsPlain s → Reach u → Reach (update s u)
    replaced : (d : Option (Dialer S)) (u : UpstreamDialer S) → Reach u → Reach (set_dialer d u)
    filled : (s : Settings) (u : UpstreamDialer S) → IsPlain s → Reach u → Reach (fill socks5 s u).0

  -- What is cached was put there by `SetDialer`, or was built from the settings that its key stands for.
  pub data IsCachedFor (key : Text) (d : Dialer S) : Type 0 where
    by_hand : key ≡ custom → IsCachedFor key d
    by_key :
        (s : Settings)
        → IsPlain s
        → key ≡ upstream_cache_key s
        → build socks5 s ≡ some d
        → IsCachedFor key d

  pub record IsFaithful (u : UpstreamDialer S) : Type 0 where
    pub plain : IsPlain (settings u)
    pub faithful : (d : Dialer S) → u.cached ≡ some d → IsCachedFor u.cached_key d

  fill-IsFaithful :
      (s : Settings) (u : UpstreamDialer S)
      → IsPlain s
      → IsFaithful u
      → IsFaithful (fill socks5 s u).0
  unfolding fill
  fill-IsFaithful s u p f = elim (Option-cases (hit (upstream_cache_key s) u)) [
    | inl miss ↦ elim (Option-cases (build socks5 s)) [
      | inl failed ↦ rw (fill, miss, failed) f
      | inr (d, done) ↦
          rw (fill, miss, done)
            (record { plain = f.plain; faithful = λ d' e. by_key s p refl (done ∙ e) })
    ]
    | inr (d, h) ↦ rw (fill, h) f
  ]

  pub Reach-IsFaithful : (u : UpstreamDialer S) → Reach u → IsFaithful u
  Reach-IsFaithful u (made s p) = record { plain = p; faithful = λ d e. cc e }
  Reach-IsFaithful u (updated s v p r) = record { plain = p; faithful = λ d e. cc e }
  Reach-IsFaithful u (replaced d v r) = record {
    plain = (Reach-IsFaithful v r).plain;
    faithful = λ d e. by_hand refl;
  }
  Reach-IsFaithful u (filled s v p r) = fill-IsFaithful s v p (Reach-IsFaithful v r)
