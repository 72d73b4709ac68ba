-- ===== src/Engine/Connect/Examples.antt =====
-- httpproxy.go, `Dial`: a proxy whose first data come with its answer.
use go_pass.Base.{true, [], ◌∷◌, some, Text, codes}
use go_pass.Engine.Upstream.{HttpProxyDialer}
use go_pass.Engine.Connect.{Peer, dial}
use go_pass.Engine.Connect.Opened.{Ended, dial_lem}

abbrev peer : Peer
peer = record {
  dials = λ addr. true;
  parses = λ url. some url;
  makes = λ url. true;
  writes = λ rq. true;
  read_response = some (200, 22 ∷ 3 ∷ []);
  later = 3 ∷ [];
  base64 = λ t. t;
  version = codes "1";
}

abbrev with_user : HttpProxyDialer
with_user = record {
  proxy_addr = codes "10.0.0.7:3128";
  username = codes "user";
  password = codes "secret";
}

abbrev target : Text
target = codes "example.org:443"

dial_lem_example :
    Ended peer with_user (dial peer with_user target) (dial peer with_user target).failure
dial_lem_example = dial_lem peer with_user target
