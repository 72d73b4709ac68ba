-- ===== src/Engine/Tunnel/Sniffing.antt =====
-- tproxy.go, `readTLSClientHello`: what was read is kept.
use go_pass.Base.{
  ℕ, zero, suc, ◌+◌, ◌≤◌, ◌<◌, ◌≡◌, refl, ap, ◌∙◌, Bool, true, false, not, ◌||◌, [], ◌∷◌, ◌++◌,
  append_assoc, Option, none, some, arith, ltb, leb, ◌==◌, if◌then◌else◌, Bytes, ◌>>=◌, be16-lt,
  get_elem?-lt, length, take, drop, take-append-drop, length-append,
}
use go_pass.Engine.Sni.{SniResult, host, failed, extract_sni}
use go_pass.Engine.Sni.Within.{IsInside, IsFrom}
use go_pass.Engine.Sni.Total.{extract_sni-EndsIn}
use go_pass.Engine.Tunnel.{Hello, max_record, sni_of, read_tls_client_hello}

-- A name that was found is not empty and stands in what was read.
abbrev pub IsNameIn : Bytes → Option Bytes → Type 0
IsNameIn input none = Unit {0}
IsNameIn input (some name) = (0 < length name) × IsInside name input

-- What is returned and what is left on the connection are what arrived; what is returned is at most a
-- header and a record of the largest length.
pub record Reads (arriving : Bytes) (r : Option Hello) : Type 0 where
  pub hello : Hello
  pub result : r ≡ some hello
  pub joined : hello.buf ++ hello.left ≡ arriving
  pub small : length hello.buf ≤ 5 + max_record
  pub name : IsNameIn hello.buf hello.sni

Reads-if :
    (arriving : Bytes) (b : Bool) (x y : Option Hello)
    → Reads arriving x
    → (b ≡ false → Reads arriving y)
    → Reads arriving (if b then x else y)
Reads-if arriving true x y p q = p
Reads-if arriving false x y p q = q refl

length-take_le : (n : ℕ) (xs : Bytes) → length (take n xs) ≤ n
length-take_le zero xs = omega arith
length-take_le (suc n) [] = omega arith
length-take_le (suc n) (x ∷ xs) = omega (arith, length-take_le n xs)

sni_of-IsNameIn : (input : Bytes) (r : SniResult) → IsFrom input r → IsNameIn input (sni_of r)
sni_of-IsNameIn input (host name) from = from
sni_of-IsNameIn input (failed e) from = tt

refused_lem :
    (arriving : Bytes)
    → Reads arriving (some (record { buf = take 5 arriving; sni = none; left = drop 5 arriving }))
refused_lem arriving = record {
  hello = record { buf = take 5 arriving; sni = none; left = drop 5 arriving };
  result = refl;
  joined = take-append-drop 5 arriving;
  small = omega (arith, length-take_le 5 arriving);
  name = tt;
}

-- A header and a part of what follows it.
joined_lem :
    (n : ℕ) (arriving : Bytes)
    → (take 5 arriving ++ take n (drop 5 arriving)) ++ drop n (drop 5 arriving) ≡ arriving
joined_lem n arriving =
    append_assoc (take 5 arriving) (take n (drop 5 arriving)) (drop n (drop 5 arriving))
    ∙ ap (λ v. take 5 arriving ++ v) (take-append-drop n (drop 5 arriving))
    ∙ take-append-drop 5 arriving

small_lem :
    (n : ℕ) (arriving : Bytes)
    → n ≤ max_record
    → length (take 5 arriving ++ take n (drop 5 arriving)) ≤ 5 + max_record
small_lem n arriving h = omega (
  arith,
  length-append (take 5 arriving) (take n (drop 5 arriving)),
  length-take_le 5 arriving,
  length-take_le n (drop 5 arriving),
)

-- After the tests on the header.
body_lem :
    (n : ℕ) (arriving : Bytes)
    → n ≤ max_record
    → Reads arriving (
        if ltb (length (take n (drop 5 arriving))) n
        then some (record {
          buf = take 5 arriving ++ take n (drop 5 arriving);
          sni = none;
          left = drop n (drop 5 arriving);
        })
        else (extract_sni (take 5 arriving ++ take n (drop 5 arriving)) >>= λ r. some (record {
          buf = take 5 arriving ++ take n (drop 5 arriving);
          sni = sni_of r;
          left = drop n (drop 5 arriving);
        })))
body_lem n arriving fits =
    let read = take 5 arriving ++ take n (drop 5 arriving) in
    let parsed = extract_sni-EndsIn read in
    Reads-if arriving (ltb (length (take n (drop 5 arriving))) n) _ _
      (record {
        hello = record { buf = read; sni = none; left = drop n (drop 5 arriving) };
        result = refl;
        joined = joined_lem n arriving;
        small = small_lem n arriving fits;
        name = tt;
      })
      λ whole. record {
        hello = record { buf = read; sni = sni_of parsed.end; left = drop n (drop 5 arriving) };
        result = rw (parsed.result) refl;
        joined = joined_lem n arriving;
        small = small_lem n arriving fits;
        name = sni_of-IsNameIn read parsed.end parsed.from;
      }

-- Whatever arrives, `readTLSClientHello` indexes nothing out of range; what it returns is followed by
-- what it leaves on the connection, no byte of what arrived is lost, and it is no longer than a header and the longest record; and a name that it
-- returns is not empty and stands in it.
pub read_tls_client_hello-Reads :
    (arriving : Bytes) → Reads arriving (read_tls_client_hello arriving)
unfolding read_tls_client_hello
read_tls_client_hello-Reads arriving =
    Reads-if arriving (ltb (length (take 5 arriving)) 5) _ _ (refused_lem arriving) λ long.
      let (kind, k) = get_elem?-lt (take 5 arriving) 0 (ground arith) in
      let (n, e) = be16-lt (take 5 arriving) 3 (ground arith) in
      rw (k, e)
        (Reads-if arriving (not (kind == 22)) _ _ (refused_lem arriving) λ _.
          Reads-if arriving (leb n 0 || ltb max_record n) _ _ (refused_lem arriving)
            λ fits. body_lem n arriving (ground (arith, fits)))
