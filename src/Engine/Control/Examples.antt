-- ===== src/Engine/Control/Examples.antt =====
-- engine.go: changes that the settings page makes while the interceptor runs.
use go_pass.Base.{
  ltb, arith, ℕ, ◌≡◌, refl, sym, ap, ◌∙◌, Bool, true, false, ◌&&◌, ◌||◌, not, List, [], ◌∷◌, Option,
  none, some, ℤ, pos, Text, Bytes, codes, text_eq,
}
use go_pass.Config.{default_config}
use go_pass.Config.Examples.{busy, print}
use go_pass.Engine.Addr.{Ipv4, ip_string, to4}
use go_pass.Engine.ConnTrack.Examples.{tracker0}
use go_pass.Engine.FlowPolicy.{new_flow_policies}
use go_pass.Engine.Intercept.{Env, World, decide_new_flow}
use go_pass.Engine.Intercept.Examples.{env_of, world_of}
use go_pass.Engine.Upstream.{new_upstream_dialer}
use go_pass.Engine.Upstream.Examples.{before}
use go_pass.Engine.Whitelist.{norm, set_whitelist}
use go_pass.Engine.Whitelist.Sets.{names}
use go_pass.Engine.Whitelist.Folding.{IsAscii, AllTrimmed}
use go_pass.Engine.Whitelist.Examples.{
  trim_left, trim_right, ascii, ascii-IsTidy, ascii-IsAsciiStrings, programs,
}
use go_pass.Engine.Control.{
  Host, Engine, get_process_whitelist, add_process, remove_process, update_upstream,
}
use go_pass.Engine.Control.Whitelisting.{listed, add_process_lem, remove_process_lem}
use go_pass.Engine.Control.FilterIp.{IsReader, parsed, looked}
use go_pass.Engine.Control.Settings.{Updated, update_upstream_lem}

-- Every text is read as one address.
abbrev pub system : Host
system = record {
  parse_ip = λ t. some (10 ∷ 0 ∷ 0 ∷ 7 ∷ []);
  lookup_ip = λ t. none;
  strings = ascii;
  print = print;
  disk = busy;
}

abbrev program : Text
program = codes "Git.exe"

abbrev pub running : Engine Text
running = record {
  cfg = record default_config { process_whitelist = some programs };
  tproxy = some (record { upstream = new_upstream_dialer before; buffer_size = pos 65536 });
  interceptor = some (world_of tracker0 new_flow_policies);
}

abbrev with_git : World
with_git = record (world_of tracker0 new_flow_policies) {
  whitelist = set_whitelist ascii (codes "chrome.exe" ∷ codes "curl.exe" ∷ codes "git.exe" ∷ []);
}

abbrev without_curl : World
without_curl = record (world_of tracker0 new_flow_policies) {
  whitelist = set_whitelist ascii (codes "chrome.exe" ∷ []);
}

abbrev env : Env
env = env_of program

added_git : (add_process system program [] running []).0.interceptor ≡ some with_git
unfolding trim_left trim_right add_process go_pass.Engine.Whitelist.added go_pass.Base.Text-discrete
    go_pass.Base.ℕ_discrete go_pass.Base.lookup go_pass.Base.insert
added_git = refl

abbrev are_small : Text → Bool
are_small [] = true
are_small (c ∷ cs) = ltb c 128 && are_small cs

are_small-IsAscii : (name : Text) → are_small name ≡ true → IsAscii name
are_small-IsAscii [] h = tt
are_small-IsAscii (c ∷ cs) h = (ground arith, are_small-IsAscii cs (ground arith))

programs_trimmed : AllTrimmed ascii programs
unfolding trim_left trim_right
programs_trimmed = (
  (are_small-IsAscii (codes "Chrome.exe") refl, refl),
  (
    (are_small-IsAscii (codes "curl.exe") refl, refl),
    ((are_small-IsAscii (codes "CHROME.EXE") refl, refl), tt),
  ),
)

program-IsAscii : IsAscii program
program-IsAscii = are_small-IsAscii program refl

curl-IsAscii : IsAscii (codes " CURL.exe ")
curl-IsAscii = are_small-IsAscii (codes " CURL.exe ") refl

add_process_lem_example :
    decide_new_flow env with_git true (some (codes "git.exe"))
    ≡ listed (
        names ascii (codes "git.exe") (get_process_whitelist running)
        || text_eq (norm ascii program) (codes "git.exe"))
unfolding trim_left trim_right
add_process_lem_example =
    add_process_lem system [] running [] with_git env (codes "git.exe") program ascii-IsAsciiStrings
      program-IsAscii programs_trimmed ascii-IsTidy refl added_git refl

removed_curl :
    (remove_process system (codes " CURL.exe ") [] running []).0.interceptor ≡ some without_curl
unfolding trim_left trim_right remove_process go_pass.Engine.Whitelist.removed
    go_pass.Base.Text-discrete go_pass.Base.ℕ_discrete go_pass.Base.lookup go_pass.Base.insert
removed_curl = refl

remove_process_lem_example :
    decide_new_flow env without_curl true (some (codes "curl.exe"))
    ≡ listed (
        names ascii (codes "curl.exe") (get_process_whitelist running)
        && not (text_eq (norm ascii (codes "CURL.exe")) (codes "curl.exe")))
unfolding trim_left trim_right
remove_process_lem_example =
    remove_process_lem system [] running [] without_curl env (codes "curl.exe") (codes " CURL.exe ")
      ascii-IsAsciiStrings curl-IsAscii programs_trimmed ascii-IsTidy refl removed_curl refl

abbrev upstream_host : Text
upstream_host = codes "10.0.0.7"

only_address :
    (a : Ipv4)
    → to4 (10 ∷ 0 ∷ 0 ∷ 7 ∷ []) ≡ some a
    → (ip : Bytes) × (system.parse_ip (ip_string a) ≡ some ip) × (to4 ip ≡ some a)
only_address a e = (10 ∷ 0 ∷ 0 ∷ 7 ∷ [], refl, e)

pub system-IsReader : (name : Text) → IsReader system name
system-IsReader name a (parsed ip e is_v4) =
    let same : ip ≡ 10 ∷ 0 ∷ 0 ∷ 7 ∷ [] = cc e in only_address a (sym (ap to4 same) ∙ is_v4)
system-IsReader name a (looked ips e among) = cc e

update_upstream_lem_example :
    Updated
      (codes "http")
      upstream_host
      (pos 8080)
      running
      (update_upstream system
        (codes "http")
        upstream_host
        (pos 8080)
        (codes "config.json")
        running
        []).0
update_upstream_lem_example =
    update_upstream_lem system (codes "http") upstream_host (pos 8080) (codes "config.json") running
      [] (system-IsReader upstream_host)
