-- ===== src/Engine/Sni/Examples.antt =====
-- sni.go: a ClientHello for the host `a.b`.
use go_pass.Base.{◌≡◌, refl, ◌∷◌, ◌++◌, some, replicate, Bytes, codes, be16}
use go_pass.Engine.Sni.{host, extract_sni}
use go_pass.Engine.Sni.Within.{EndsIn}
use go_pass.Engine.Sni.Total.{extract_sni-EndsIn}

-- The record and handshake headers, version, random, an empty session id, one cipher suite, one
-- compression method, and one extension with the name `a.b`.
abbrev hello : Bytes
hello =
    22
    ∷ 3
    ∷ 1
    ∷ 0
    ∷ 59
    ∷ 1
    ∷ 0
    ∷ 0
    ∷ 55
    ∷ 3
    ∷ 3
    ∷ (replicate 32 7
        ++ (0
            ∷ 0
            ∷ 2
            ∷ 0x13
            ∷ 0x01
            ∷ 1
            ∷ 0
            ∷ 0
            ∷ 12
            ∷ 0
            ∷ 0
            ∷ 0
            ∷ 8
            ∷ 0
            ∷ 6
            ∷ 0
            ∷ 0
            ∷ 3
            ∷ codes "a.b"))

finds_host : extract_sni hello ≡ some (host (codes "a.b"))
unfolding extract_sni be16
finds_host = refl

extract_sni-EndsIn_example : EndsIn hello (extract_sni hello)
extract_sni-EndsIn_example = extract_sni-EndsIn hello
