-- ===== src/Engine/Control/FilterIp.antt =====
-- engine.go and windivert.go: the address of the upstream that the packet filter lets by.
use go_pass.Base.{
  ℕ, ◌≡◌, refl, sym, ap, ◌∙◌, false, List, [], ◌∷◌, ◌++◌, Option, none, some, inl, inr, arith,
  Bool-cases, Option-cases, Text, Bytes, itoa,
}
use go_pass.Engine.Addr.{Ipv4, to4, ip_string, is_loopback4}
use go_pass.Engine.Whitelist.{is_empty}
use go_pass.Engine.Control.{
  Host, reachable_v4, first_v4, looked_up, proxy_filter_ip, parse_ipv4_bytes,
}

pub data IsAmong (a : Ipv4) : List Bytes → Type 0 where
  here : (ip : Bytes) (ips : List Bytes) → to4 ip ≡ some a → IsAmong a (ip ∷ ips)
  there : (ip : Bytes) (ips : List Bytes) → IsAmong a ips → IsAmong a (ip ∷ ips)

-- An IPv4 address that the system gives for the name of a host.
pub data IsAnswer (h : Host) (name : Text) (a : Ipv4) : Type 0 where
  parsed : (ip : Bytes) → h.parse_ip name ≡ some ip → to4 ip ≡ some a → IsAnswer h name a
  looked : (ips : List Bytes) → h.lookup_ip name ≡ some ips → IsAmong a ips → IsAnswer h name a

-- `net.ParseIP` reads what `net.IP.String` prints of an IPv4 address.
abbrev pub IsReader : Host → Text → Type 0
IsReader h name =
    (a : Ipv4)
    → IsAnswer h name a
    → (ip : Bytes) × (h.parse_ip (ip_string a) ≡ some ip) × (to4 ip ≡ some a)

-- The text of an IPv4 address that is not a loopback address, or no text.
pub data IsFilterIp (Given : Ipv4 → Type 0) (text : Text) : Type 0 where
  no_filter : text ≡ [] → IsFilterIp Given text
  filter_ip :
      (a : Ipv4) → Given a → is_loopback4 a ≡ false → text ≡ ip_string a → IsFilterIp Given text

IsFilterIp-mono :
    (P Q : Ipv4 → Type 0) (text : Text)
    → ((a : Ipv4) → P a → Q a)
    → IsFilterIp P text
    → IsFilterIp Q text
IsFilterIp-mono P Q text f (no_filter e) = no_filter e
IsFilterIp-mono P Q text f (filter_ip a given free e) = filter_ip a (f a given) free e

reachable_v4_lem :
    (ip : Bytes) (a : Ipv4)
    → reachable_v4 ip ≡ some a
    → (to4 ip ≡ some a) × (is_loopback4 a ≡ false)
unfolding reachable_v4
reachable_v4_lem ip a e = elim (Option-cases (to4 ip)) [
  | inl nil ↦ ground (arith, e)
  | inr (b, c) ↦ elim (Bool-cases (is_loopback4 b)) [
    | inl looped ↦ ground (arith, e)
    | inr free ↦ ground (arith, e)
  ]
]

first_v4-IsFilterIp : (ips : List Bytes) → IsFilterIp (λ a. IsAmong a ips) (first_v4 ips)
unfolding first_v4
first_v4-IsFilterIp [] = no_filter refl
first_v4-IsFilterIp (ip ∷ ips) = elim (Option-cases (reachable_v4 ip)) [
  | inl nil ↦
      rw (first_v4, nil)
        (IsFilterIp-mono (λ a. IsAmong a ips) (λ a. IsAmong a (ip ∷ ips)) (first_v4 ips)
          (λ a. there ip ips) (first_v4-IsFilterIp ips))
  | inr (a, c) ↦
      let (is_v4, free) = reachable_v4_lem ip a c in
      filter_ip a (here ip ips is_v4) free (rw (first_v4, c) refl)
]

looked_up-IsFilterIp :
    (h : Host) (name : Text) (ips : Option (List Bytes))
    → h.lookup_ip name ≡ ips
    → IsFilterIp (IsAnswer h name) (looked_up ips)
unfolding looked_up
looked_up-IsFilterIp h name none e = no_filter refl
looked_up-IsFilterIp h name (some ips) e =
    IsFilterIp-mono (λ a. IsAmong a ips) (IsAnswer h name) (first_v4 ips) (λ a. looked ips e)
      (first_v4-IsFilterIp ips)

-- The filter is told no loopback address, whatever the name of the upstream's host resolves to.
pub proxy_filter_ip-IsFilterIp :
    (h : Host) (name : Text) → IsFilterIp (IsAnswer h name) (proxy_filter_ip h name)
unfolding proxy_filter_ip
proxy_filter_ip-IsFilterIp h name = elim (Option-cases (h.parse_ip name)) [
  | inl nil ↦ rw (proxy_filter_ip, nil) (looked_up-IsFilterIp h name (h.lookup_ip name) refl)
  | inr (ip, e) ↦ elim (Option-cases (reachable_v4 ip)) [
    | inl nil ↦ rw (proxy_filter_ip, e, nil) (looked_up-IsFilterIp h name (h.lookup_ip name) refl)
    | inr (a, c) ↦
        let (is_v4, free) = reachable_v4_lem ip a c in
        filter_ip a (parsed ip e is_v4) free (rw (proxy_filter_ip, e, c) refl)
  ]
]

is_empty-between : (xs ys : Text) (c : ℕ) → is_empty (xs ++ (c ∷ ys)) ≡ false
is_empty-between [] ys c = refl
is_empty-between (x ∷ xs) ys c = refl

is_empty-ip_string : (a : Ipv4) → is_empty (ip_string a) ≡ false
unfolding ip_string
is_empty-ip_string a = is_empty-between (itoa a.b0) _ _

-- The address that the packet filter has afterwards, if any, is the one it was told.
pub parse_ipv4_bytes-IsFilterIp :
    (h : Host) (name text : Text) (a : Ipv4)
    → IsReader h name
    → IsFilterIp (IsAnswer h name) text
    → parse_ipv4_bytes h text ≡ some a
    → (is_loopback4 a ≡ false) × (text ≡ ip_string a)
unfolding parse_ipv4_bytes
parse_ipv4_bytes-IsFilterIp h name text a reads (no_filter e) got =
    let nil : none ≡ some a = sym (ap (parse_ipv4_bytes h) e) ∙ got in cc nil
parse_ipv4_bytes-IsFilterIp h name text a reads (filter_ip b given free e) got =
    let (ip, read_ip, mapped) = reads b given in
    let read : parse_ipv4_bytes h (ip_string b) ≡ some b =
      rw (parse_ipv4_bytes, is_empty-ip_string b, read_ip, mapped) refl in
    let same : b ≡ a = cc (read, ap (parse_ipv4_bytes h) e, got) in rw (sym same) (free, e)
