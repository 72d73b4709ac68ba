-- ===== src/Api/Guarded.antt =====
-- api.go, `guard`: which requests get through.
use go_pass.Base.{
  ℕ, ◌≡◌, ◌≢◌, ◌⊎◌, ◌∙◌, sym, ap, refl, Bool, true, false, not, ◌&&◌, ◌==◌, [], ◌∷◌, ◌++◌, none,
  some, inl, inr, arith, if◌then◌else◌, Bool-cases, Bytes, Text, Option-cases, codes, text_eq, All,
}
use go_pass.Engine.Whitelist.{is_empty}
use go_pass.Api.{
  Web, Request, served, cross_origin, bad_host, guard, allowed_api_host, listen_host_of,
  header_host, is_literal, is_loopback_literal, is_bound, has_prefix, api_path, same_origin,
  is_bracket, trim_start, trim_end, trim_brackets,
}

abbrev pub IsBracket : ℕ → Type 0
IsBracket c = (c ≡ 91) ⊎ (c ≡ 93)

-- The host part of a header, or the whole header where it has no port.
abbrev pub IsHostPart : Web → Text → Text → Type 0
IsHostPart web header part =
    ((port : Text) × (web.split_host_port header ≡ some (part, port)))
    ⊎ ((web.split_host_port header ≡ none) × (part ≡ header))

-- The name is the host part of the header in lower case, without brackets around it.
pub record Names (web : Web) (header name : Text) : Type 0 where
  pub before : Text
  pub bare : Text
  pub after : Text
  pub opened : All IsBracket before
  pub closed : All IsBracket after
  pub host_part : IsHostPart web header (before ++ (bare ++ after))
  pub lowered : name ≡ web.system.strings.to_lower bare

-- The name is this machine's, an address, or the one host that the server listens at.
pub data IsLocal (web : Web) (listen_addr name : Text) : Type 0 where
  localhost : name ≡ codes "localhost" → IsLocal web listen_addr name
  literal : (ip : Bytes) → web.system.parse_ip name ≡ some ip → IsLocal web listen_addr name
  listening :
      (at port : Text)
      → web.split_host_port listen_addr ≡ some (at, port)
      → web.system.strings.to_lower at ≢ []
      → web.system.strings.to_lower at ≢ codes "0.0.0.0"
      → web.system.strings.to_lower at ≢ codes "::"
      → web.system.strings.equal_fold name (web.system.strings.to_lower at) ≡ true
      → IsLocal web listen_addr name

-- The origin's host is the one in the header.
abbrev pub IsSameOrigin : Web → Request → Type 0
IsSameOrigin web r =
    (h : Text) × (web.url_host r.origin ≡ some h)
    × (web.system.strings.equal_fold h r.host_header ≡ true)

is_bracket-IsBracket : (c : ℕ) → is_bracket c ≡ true → IsBracket c
unfolding is_bracket
is_bracket-IsBracket c h = elim (Bool-cases (c == 91)) [
  | inl e ↦ inl (ground arith)
  | inr e ↦ inr (ground arith)
]

trim_start_lem : (t : Text) → (before : Text) × All IsBracket before × (before ++ trim_start t ≡ t)
unfolding trim_start
trim_start_lem [] = ([], tt, refl)
trim_start_lem (c ∷ cs) = elim (Bool-cases (is_bracket c)) [
  | inr e ↦ ([], tt, rw (trim_start, e) refl)
  | inl e ↦
      let (before, all, same) = trim_start_lem cs in
      (c ∷ before, (is_bracket-IsBracket c e, all), rw (trim_start, e) (ap (λ r. c ∷ r) same))
]

trim_end-cut :
    (c : ℕ) (cs : Text) → is_bracket c && is_empty (trim_end cs) ≡ true → trim_end (c ∷ cs) ≡ []
unfolding trim_end
trim_end-cut c cs e = rw e refl

trim_end-kept :
    (c : ℕ) (cs : Text)
    → is_bracket c && is_empty (trim_end cs) ≡ false
    → trim_end (c ∷ cs) ≡ c ∷ trim_end cs
unfolding trim_end
trim_end-kept c cs e = rw e refl

is_empty-nil : (t : Text) → is_empty t ≡ true → t ≡ []
is_empty-nil [] h = refl
is_empty-nil (c ∷ cs) h = cc h

trim_end_lem : (t : Text) → (after : Text) × All IsBracket after × (trim_end t ++ after ≡ t)
unfolding trim_end
trim_end_lem [] = ([], tt, refl)
trim_end_lem (c ∷ cs) =
    let (after, all, same) = trim_end_lem cs in
    elim (Bool-cases (is_bracket c && is_empty (trim_end cs))) [
      | inr e ↦ (after, all, rw (trim_end-kept c cs e) (ap (λ r. c ∷ r) same))
      | inl e ↦
          let nothing = is_empty-nil (trim_end cs) (ground (arith, e)) in
          (
            c ∷ after,
            (is_bracket-IsBracket c (ground (arith, e)), all),
            rw (trim_end-cut c cs e) (ap (λ r. c ∷ r) (ap (λ r. r ++ after) (sym nothing) ∙ same)),
          )
    ]

part_lem :
    (web : Web) (header part : Text)
    → IsHostPart web header part
    → header_host web header ≡ web.system.strings.to_lower (trim_brackets part)
    → Names web header (header_host web header)
unfolding trim_brackets
part_lem web header part is_part e =
    let (before, opened, first) = trim_start_lem part in
    let (after, closed, last) = trim_end_lem (trim_start part) in
    record {
      before = before;
      bare = trim_brackets part;
      after = after;
      opened = opened;
      closed = closed;
      host_part = rw (ap (λ r. before ++ r) last ∙ first) is_part;
      lowered = e;
    }

header_host-Names : (web : Web) (header : Text) → Names web header (header_host web header)
unfolding header_host
header_host-Names web header = elim (Option-cases (web.split_host_port header)) [
  | inl e ↦ part_lem web header header (inr (e, refl)) (rw (header_host, e) refl)
  | inr ((part, port), e) ↦ part_lem web header part (inl (port, e)) (rw (header_host, e) refl)
]

same_origin-IsSameOrigin : (web : Web) (r : Request) → same_origin web r ≡ true → IsSameOrigin web r
same_origin-IsSameOrigin web r h = elim (Option-cases (web.url_host r.origin)) [
  | inl e ↦ absurd (ground arith)
  | inr (name, e) ↦ (name, e, ground arith)
]

is_literal-some :
    (web : Web) (name : Text)
    → is_literal web name ≡ true
    → (ip : Bytes) × (web.system.parse_ip name ≡ some ip)
is_literal-some web name h = elim (Option-cases (web.system.parse_ip name)) [
  | inl e ↦ absurd (ground arith)
  | inr found ↦ found
]

text_eq-same : (s t : Text) → text_eq s t ≡ true → s ≡ t
text_eq-same s t h = ground arith

text_ne : (s t : Text) → text_eq s t ≡ false → s ≢ t
text_ne s t h = λ e. ground arith

-- Where the server listens at one address, it has a host and a port, and the host is no wildcard.
bound_lem :
    (web : Web) (listen_addr name : Text)
    → is_bound (listen_host_of web listen_addr) ≡ true
    → web.system.strings.equal_fold name (listen_host_of web listen_addr) ≡ true
    → IsLocal web listen_addr name
unfolding listen_host_of
bound_lem web listen_addr name bound same = elim (Option-cases (web.split_host_port listen_addr)) [
  | inl e ↦ absurd (ground arith)
  | inr ((at, port), e) ↦
      let host : listen_host_of web listen_addr ≡ web.system.strings.to_lower at =
        rw (listen_host_of, e) refl in
      let here : is_bound (web.system.strings.to_lower at) ≡ true = rw host at bound in
      listening at port e (λ nil. ground (arith, here, nil)) (text_ne _ _ (ground (arith, here)))
        (text_ne _ _ (ground (arith, here))) (rw host at same)
]

is_loopback_literal-is_literal :
    (web : Web) (name : Text) → is_loopback_literal web name ≡ true → is_literal web name ≡ true
unfolding is_loopback_literal
is_loopback_literal-is_literal web name h = elim (Option-cases (web.system.parse_ip name)) [
  | inl nil ↦ ground (arith, h)
  | inr (ip, e) ↦ rw (is_literal, e) refl
]

allowed_by :
    (blank this near bound same lit : Bool)
    → (if blank
        then false
        else if this
        then true
        else if near
        then true
        else if bound
        then same
        else lit)
      ≡ true
    → (this ≡ true) ⊎ ((near ≡ true) ⊎ (((bound ≡ true) × (same ≡ true)) ⊎ (lit ≡ true)))
allowed_by blank true near bound same lit h = inl refl
allowed_by blank false true bound same lit h = inr (inl refl)
allowed_by blank false false true same lit h = inr (inr (inl (refl, ground (arith, h))))
allowed_by blank false false false same lit h = inr (inr (inr (ground (arith, h))))

allowed_api_host_lem :
    (web : Web) (listen_addr header : Text)
    → allowed_api_host web (listen_host_of web listen_addr) header ≡ true
    → IsLocal web listen_addr (header_host web header)
unfolding allowed_api_host
allowed_api_host_lem web listen_addr header ok =
    let listen_host = listen_host_of web listen_addr in
    let name = header_host web header in
    elim (allowed_by (is_empty name) (text_eq name (codes "localhost"))
      (is_loopback_literal web name) (is_bound listen_host)
      (web.system.strings.equal_fold name listen_host) (is_literal web name) ok) [
        | inl this ↦ localhost (text_eq-same _ _ this)
        | inr rest ↦ elim rest [
          | inl near ↦
              let (ip, e) =
                is_literal-some web name (is_loopback_literal-is_literal web name near) in
              literal ip e
          | inr more ↦ elim more [
            | inl (bound, same) ↦ bound_lem web listen_addr name bound same
            | inr lit ↦ let (ip, e) = is_literal-some web name lit in literal ip e
          ]
        ]
      ]

served_by :
    (api blank same allowed : Bool)
    → api ≡ true
    → (if not api
        then served
        else if not blank && not same
        then cross_origin
        else if not allowed
        then bad_host
        else served)
      ≡ served
    → (allowed ≡ true) × ((blank ≡ true) ⊎ (same ≡ true))
served_by false blank same allowed a h = cc a
served_by true true same true a h = (refl, inl refl)
served_by true true same false a h = cc h
served_by true false true true a h = (refl, inr refl)
served_by true false true false a h = cc h
served_by true false false allowed a h = cc h

-- A request to the API that the guard serves names `localhost`, an IP address, or the one host that the
-- server listens at, never another name: the name is the host part of its Host header in lower case,
-- without the brackets around it. Where it has an origin, the origin's host is the one in that header.
pub guard_lem :
    (web : Web) (listen_addr : Text) (r : Request)
    → has_prefix api_path r.path ≡ true
    → guard web listen_addr r ≡ served
    → ((name : Text) × Names web r.host_header name × IsLocal web listen_addr name)
      × ((r.origin ≡ []) ⊎ IsSameOrigin web r)
unfolding guard
guard_lem web listen_addr r api ok =
    let (allowed, origin_ok) =
      served_by (has_prefix api_path r.path) (is_empty r.origin) (same_origin web r)
        (allowed_api_host web (listen_host_of web listen_addr) r.host_header) api ok in
    (
      (
        header_host web r.host_header,
        header_host-Names web r.host_header,
        allowed_api_host_lem web listen_addr r.host_header allowed,
      ),
      elim origin_ok [
        | inl nothing ↦ inl (is_empty-nil r.origin nothing)
        | inr same ↦ inr (same_origin-IsSameOrigin web r same)
      ],
    )
