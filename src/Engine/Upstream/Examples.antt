-- ===== src/Engine/Upstream/Examples.antt =====
-- upstream.go: settings that change while a dialer is being made.
use go_pass.Base.{ℕ, ◌≡◌, refl, Bool, true, false, List, [], ◌∷◌, Option, none, some, Text, codes}
use go_pass.Engine.Upstream.{UpstreamDialer, Settings, new_upstream_dialer, update, dialer, build}
use go_pass.Engine.Upstream.Keys.{IsPlain}
use go_pass.Engine.Upstream.Reach.{Reach, made, updated}
use go_pass.Engine.Upstream.Cache.{Answers, dialer_lem}

-- A SOCKS5 dialer is what it was made with.
abbrev socks5 : Text → Option (Text × Text) → Option (Text × Option (Text × Text))
socks5 addr auth = some (addr, auth)

abbrev pub before : Settings
before = record {
  p_type = codes "socks5";
  p_addr = codes "127.0.0.1:9192";
  username = codes "u";
  password = codes "p";
}

abbrev after : Settings
after = record {
  p_type = codes "http";
  p_addr = codes "127.0.0.1:8080";
  username = [];
  password = [];
}

before-IsPlain : IsPlain before
before-IsPlain = record { no_colon = refl; addr_no_nul = refl; username_no_nul = refl }

after-IsPlain : IsPlain after
after-IsPlain = record { no_colon = refl; addr_no_nul = refl; username_no_nul = refl }

abbrev start : UpstreamDialer (Text × Option (Text × Text))
start = new_upstream_dialer before

abbrev changed : UpstreamDialer (Text × Option (Text × Text))
changed = update after start

start-Reach : Reach socks5 start
start-Reach = made before before-IsPlain

-- The call that read the old settings makes their dialer, and the next call makes a new one.
old_settings : (dialer socks5 changed start).1 ≡ build socks5 before
unfolding build dialer go_pass.Base.Text-discrete go_pass.Base.ℕ_discrete
old_settings = refl

new_settings :
    (dialer socks5 (dialer socks5 changed start).0 (dialer socks5 changed start).0).1
    ≡ build socks5 after
unfolding build dialer go_pass.Base.Text-discrete go_pass.Base.ℕ_discrete
new_settings = refl

dialer_lem_example :
    Answers socks5 before start changed (dialer socks5 changed start).1
    × Reach socks5 (dialer socks5 changed start).0
dialer_lem_example =
    dialer_lem socks5 start changed start-Reach (updated after start after-IsPlain start-Reach)
