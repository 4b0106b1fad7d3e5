-- ===== src/Let/Firewall/Rules.antt =====
-- The rules of a sandbox as lists of words (sandboxd-let/network/firewall.go), and the ports that they are
-- made from (sandboxd-let/sandbox/runtime.go).
use Prim.Native.Nat.{bit_xor}
use Prim.Native.Char.{code}
use Prim.Native.String.{◌++◌ as append, char_at}
use go_gvisor_containerd_let.Base.{
  ℕ, zero, suc, ◌*◌, ◌/◌, ◌%◌, ◌^◌, ℤ, String, Bool, true, false, ◌&&◌, not, Option, none, some,
  List, [], ◌∷◌, ◌++◌, str_eq, is_empty, trim_space, to_lower, has_prefix, fields, if◌then◌else◌,
}
use go_gvisor_containerd_let.Let.Types.{concat, decimal_int, PortMapping}
use go_gvisor_containerd_let.Let.Validate.{or_tcp}
use go_gvisor_containerd_let.Let.Ports.{normalize_proto}

pub record PublishedPort : Type 0 where
  pub container_port : ℤ
  pub protocol : String

pub record HostPortForward : Type 0 where
  pub host_port : ℤ
  pub container_port : ℤ
  pub protocol : String

unfoldable pub to_published_ports : List PortMapping → List PublishedPort
to_published_ports [] = []
to_published_ports (p ∷ pm) =
    record { container_port = p.container_port; protocol = normalize_proto p.protocol }
    ∷ to_published_ports pm

unfoldable pub to_host_port_forwards : List PortMapping → List HostPortForward
to_host_port_forwards [] = []
to_host_port_forwards (p ∷ pm) =
    record {
      host_port = p.host_port;
      container_port = p.container_port;
      protocol = normalize_proto p.protocol;
    }
    ∷ to_host_port_forwards pm

-- 32-bit FNV-1a, of an ASCII text.
fnv32a : ℕ → String → ℕ
fnv32a h String.[] = h
fnv32a h (String.◌∷◌ c s) = fnv32a (bit_xor h (code c) * 16777619 % 2 ^ 32) s

-- `%08x`: so many hexadecimal digits before a text.
hex_from : ℕ → ℕ → String → String
hex_from zero n rest = rest
hex_from (suc k) n rest =
    hex_from k (n / 16) (String.◌∷◌ (char_at "0123456789abcdef" (n % 16)) rest)

unfoldable pub short_id : String → String
unfolding fnv32a hex_from
short_id id = hex_from 8 (fnv32a 2166136261 id) ""

unfoldable pub comment_of : String → String
comment_of id = append "SBX:" id

unfoldable pub prerouting_rule : String → String → HostPortForward → List String
unfolding comment_of
prerouting_rule id ip f =
    "-p"
    ∷ or_tcp (to_lower (trim_space f.protocol))
    ∷ "--dport"
    ∷ decimal_int f.host_port
    ∷ "-m"
    ∷ "comment"
    ∷ "--comment"
    ∷ comment_of id
    ∷ "-j"
    ∷ "DNAT"
    ∷ "--to-destination"
    ∷ concat (ip ∷ ":" ∷ decimal_int f.container_port ∷ [])
    ∷ []

unfoldable pub output_rule : String → String → HostPortForward → List String
unfolding prerouting_rule
output_rule id ip f = "-m" ∷ "addrtype" ∷ "--dst-type" ∷ "LOCAL" ∷ prerouting_rule id ip f

abbrev unquoted_end : String → Bool
unquoted_end c = not (str_eq c "\"")

-- strings.Trim(v, "\"").
trim_quotes_left : String → String
trim_quotes_left String.[] = ""
trim_quotes_left (String.◌∷◌ c s) =
    if unquoted_end (String.◌∷◌ c "") then String.◌∷◌ c s else trim_quotes_left s

trim_quotes_right : String → String
trim_quotes_right String.[] = ""
trim_quotes_right (String.◌∷◌ c s) =
    let rest = trim_quotes_right s in
    if is_empty rest && not (unquoted_end (String.◌∷◌ c "")) then "" else String.◌∷◌ c rest

-- strings.CutPrefix with the prefix of the comments.
cut_comment : String → Option String
cut_comment (String.◌∷◌ a (String.◌∷◌ b (String.◌∷◌ c (String.◌∷◌ d rest)))) =
    if has_prefix "SBX:" (String.◌∷◌ a (String.◌∷◌ b (String.◌∷◌ c (String.◌∷◌ d ""))))
    then some rest
    else none
cut_comment v = none

or_next : Option String → String → String
or_next none next = next
or_next (some id) next = id

unfoldable pub sandbox_id_from_rule : List String → String
unfolding trim_quotes_left trim_quotes_right cut_comment or_next
sandbox_id_from_rule [] = ""
sandbox_id_from_rule (f ∷ []) = ""
sandbox_id_from_rule (f ∷ v ∷ rest) =
    let later = sandbox_id_from_rule (v ∷ rest) in
    if str_eq f "--comment"
    then or_next (cut_comment (trim_quotes_right (trim_quotes_left v))) later
    else later

-- `fields[2:]` of a line that appends a rule.
unfoldable pub spec_of : List String → Option (List String)
spec_of (a ∷ chain ∷ word ∷ rest) = if str_eq a "-A" then some (word ∷ rest) else none
spec_of other = none

unfoldable pub is_kept : String → List String → Bool
is_kept id [] = false
is_kept id (k ∷ keep) = if str_eq k id then true else is_kept id keep

private_cidrs : List String
private_cidrs =
    "10.0.0.0/8" ∷ "172.16.0.0/12" ∷ "192.168.0.0/16" ∷ "127.0.0.0/8" ∷ "169.254.0.0/16"
    ∷ "100.64.0.0/10" ∷ "198.18.0.0/15" ∷ "224.0.0.0/4" ∷ "240.0.0.0/4" ∷ []

abbrev pub accept_rule : String → PublishedPort → List String
accept_rule ip p =
    "-d"
    ∷ append ip "/32"
    ∷ "-p"
    ∷ or_tcp (to_lower p.protocol)
    ∷ "--dport"
    ∷ decimal_int p.container_port
    ∷ "-j"
    ∷ "ACCEPT"
    ∷ []

abbrev dns_rules : List String → List (List String)
dns_rules to =
    (to ++ ("-p" ∷ "udp" ∷ "--dport" ∷ "53" ∷ "-j" ∷ "ACCEPT" ∷ []))
    ∷ (to ++ ("-p" ∷ "tcp" ∷ "--dport" ∷ "53" ∷ "-j" ∷ "ACCEPT" ∷ []))
    ∷ []

nameserver_rules : List String → List (List String)
nameserver_rules [] = dns_rules []
nameserver_rules (ns ∷ nss) = dns_rules ("-d" ∷ ns ∷ []) ++ nameserver_rules nss

reject_rules : List String → List (List String)
reject_rules [] = []
reject_rules (cidr ∷ cidrs) = ("-d" ∷ cidr ∷ "-j" ∷ "REJECT" ∷ []) ∷ reject_rules cidrs

abbrev pub established : List String
established = "-m" ∷ "conntrack" ∷ "--ctstate" ∷ "ESTABLISHED,RELATED" ∷ "-j" ∷ "ACCEPT" ∷ []

-- The rules of the chain for what a sandbox sends.
unfoldable pub forward_rules : List String → String → Bool → List (List String)
unfolding nameserver_rules reject_rules private_cidrs
forward_rules nameservers bridge_cidr egress =
    (established ∷ (if egress then nameserver_rules nameservers else []))
    ++ (("-m" ∷ "addrtype" ∷ "--dst-type" ∷ "LOCAL" ∷ "-j" ∷ "REJECT" ∷ [])
        ∷ (reject_rules (bridge_cidr ∷ private_cidrs)
            ++ (("-j" ∷ (if egress then "ACCEPT" else "REJECT") ∷ []) ∷ [])))

-- The rules of the chain for what a sandbox sends to the host.
unfoldable pub input_rules : List PublishedPort → List (List String)
input_rules [] = ("-j" ∷ "REJECT" ∷ []) ∷ []
input_rules (p ∷ ps) =
    ("-p"
      ∷ or_tcp (to_lower p.protocol)
      ∷ "--sport"
      ∷ decimal_int p.container_port
      ∷ "-j"
      ∷ "ACCEPT"
      ∷ [])
    ∷ input_rules ps

-- A rule of a sandbox that is not kept.
unfoldable pub is_orphan : List String → String → Bool
unfolding sandbox_id_from_rule is_kept
is_orphan keep line =
    let id = sandbox_id_from_rule (fields (trim_space line)) in
    not (is_empty id) && not (is_kept id keep)

abbrev pub chain_of : String → String → String
chain_of id what = concat ("SBX-" ∷ short_id id ∷ what ∷ [])
