-- ===== src/Engine/Connect.antt =====
-- internal/engine/httpproxy.go, `Dial`: a connection through an HTTP proxy. What packages net, net/url and net/http
-- and the proxy do is a parameter.
pub mod Opened
pub mod Examples
use go_pass.Base.{
  ℕ, Bool, true, false, not, List, [], ◌∷◌, ◌++◌, Option, none, some, ◌==◌, if◌then◌else◌, Text,
  Bytes, codes, length,
}
use go_pass.Engine.Upstream.{HttpProxyDialer}
use go_pass.Engine.Whitelist.{is_empty}

pub record ConnectRequest : Type 0 where
  pub target : Text
  pub headers : List (Text × Text)

-- `dials` is whether the proxy is reached, `parses` is `url.Parse` and `String`, `makes` whether `NewRequest` accepts
-- its result, `writes` whether the request is sent, `version` the version without its v. `read_response` is `ReadResponse` on what the reader takes from
-- the connection: the status and what it has left in its buffer; `later` is what the connection still
-- brings.
pub record Peer : Type 0 where
  pub dials : Text → Bool
  pub parses : Text → Option Text
  pub makes : Text → Bool
  pub writes : ConnectRequest → Bool
  pub read_response : Option (ℕ × Bytes)
  pub later : Bytes
  pub base64 : Text → Text
  pub version : Text

pub data ConnectError : Type 0 where
  not_connected bad_target bad_request not_sent no_response : ConnectError
  rejected : ℕ → ConnectError

-- What `Dial` leaves: the error or none, whether the connection is open and has a deadline, the request sent, and what
-- a reader of the returned connection gets.
pub record Dialed : Type 0 where
  pub failure : Option ConnectError
  pub is_open : Bool
  pub has_deadline : Bool
  pub sent : Option ConnectRequest
  pub reads : Bytes

-- `fail`, which closes the connection.
abbrev pub fail : Option ConnectRequest → ConnectError → Dialed
fail sent e = record {
  failure = some e;
  is_open = false;
  has_deadline = true;
  sent = sent;
  reads = [];
}

abbrev pub authorization : Peer → HttpProxyDialer → List (Text × Text)
authorization p d =
    if not (is_empty d.username)
    then (
      codes "Proxy-Authorization",
      codes "Basic " ++ p.base64 (d.username ++ (b':' ∷ d.password)),
    )
      ∷ []
    else []

abbrev pub connect_request : Peer → HttpProxyDialer → Text → ConnectRequest
connect_request p d target = record {
  target = target;
  headers = authorization p d ++ (codes "User-Agent", codes "GoPass/" ++ p.version) ∷ [];
}

-- The connection returned: the buffered one where the reader has bytes left.
abbrev pub opened : Peer → ConnectRequest → Bytes → Dialed
opened p rq left = record {
  failure = none;
  is_open = true;
  has_deadline = false;
  sent = some rq;
  reads = if not (length left == 0) then left ++ p.later else p.later;
}

unfoldable pub dial : Peer → HttpProxyDialer → Text → Dialed
dial p d addr =
    if not (p.dials d.proxy_addr)
    then record {
      failure = some not_connected;
      is_open = false;
      has_deadline = false;
      sent = none;
      reads = [];
    }
    else elim (p.parses (codes "http://" ++ addr)) [
      | none ↦ fail none bad_target
      | some target ↦
          if not (p.makes target)
          then fail none bad_request
          else if not (p.writes (connect_request p d target))
          then fail none not_sent
          else elim p.read_response [
            | none ↦ fail (some (connect_request p d target)) no_response
            | some (status, left) ↦
                if not (status == 200)
                then fail (some (connect_request p d target)) (rejected status)
                else opened p (connect_request p d target) left
          ]
    ]
