-- ===== src/Let/Ports.antt =====
-- Host ports on a node (sandboxd-let/sandbox/service.go): ensureHostPortsAvailable and the
-- reservations that it looks at. A map is an association list with one entry for a key; the methods
-- hold `portMu`, and a creation holds the lock "_ports" over the check and the reservation. Whether
-- a port can be bound locally is a parameter.
pub mod Exclusion
use Prim.Native.String.{◌++◌ as append}
use go_gvisor_containerd_let.Base.{
  ℕ, ℤ, eqb_ℤ, String, Bool, true, false, ◌&&◌, not, Option, none, some, List, [], ◌∷◌, ◌++◌, map,
  str_eq, is_empty, trim_space, to_lower, if◌then◌else◌,
}
use go_gvisor_containerd_let.Let.Types.{
  Failure, Outcome, done, failed, decimal_int, or_else, fail_if, PortMapping, Sandbox,
}

unfoldable pub normalize_proto : String → String
normalize_proto proto = let p = to_lower (trim_space proto) in if is_empty p then "tcp" else p

unfoldable pub port_key : ℤ → String → String
port_key port proto = append (decimal_int port) (append "/" (normalize_proto proto))

abbrev pub key_of : PortMapping → String
key_of p = port_key p.host_port (normalize_proto p.protocol)

-- `reservedPorts`: the owner of each key.
abbrev pub Reservations : Type 0
Reservations = List (String × String)

unfoldable pub owner_of : String → Reservations → Option String
owner_of k [] = none
owner_of k ((j, v) ∷ rs) = if str_eq j k then some v else owner_of k rs

unfoldable pub put : String → String → Reservations → Reservations
put k v [] = (k, v) ∷ []
put k v ((j, u) ∷ rs) = if str_eq j k then (k, v) ∷ rs else (j, u) ∷ put k v rs

unfoldable pub remove : String → Reservations → Reservations
remove k [] = []
remove k ((j, v) ∷ rs) = let rest = remove k rs in if str_eq j k then rest else (j, v) ∷ rest

unfoldable pub reserved_port_owner : ℤ → String → Reservations → Option String
unfolding port_key
reserved_port_owner port proto rs = owner_of (port_key port proto) rs

-- reserveRequestedPorts, without the function that it returns.
unfoldable pub reserve_requested_ports : String → List PortMapping → Reservations → Reservations
reserve_requested_ports id [] rs = rs
reserve_requested_ports id (p ∷ ps) rs = reserve_requested_ports id ps (put (key_of p) id rs)

abbrev pub owned_by : String → Option String → Bool
owned_by id none = false
owned_by id (some v) = str_eq v id

-- The function that reserveRequestedPorts returns.
unfoldable pub release_requested_ports : String → List PortMapping → Reservations → Reservations
release_requested_ports id [] rs = rs
release_requested_ports id (p ∷ ps) rs =
    release_requested_ports id ps
      (if owned_by id (owner_of (key_of p) rs) then remove (key_of p) rs else rs)

unfoldable pub release_reserved_ports : String → Reservations → Reservations
release_reserved_ports id [] = []
release_reserved_ports id ((k, v) ∷ rs) =
    let rest = release_reserved_ports id rs in if str_eq v id then rest else (k, v) ∷ rest

-- `used`: the sandbox and the protocol of each host port, of the last one that has it.
abbrev pub Used : Type 0
Used = List (ℤ × (String × String))

unfoldable pub used_at : ℤ → Used → Option (String × String)
used_at port [] = none
used_at port ((q, u) ∷ used) = if eqb_ℤ q port then some u else used_at port used

-- A write to `used` hides the earlier ones.
unfoldable pub record_ports : String → List PortMapping → Used → Used
record_ports id [] used = used
record_ports id (p ∷ ps) used =
    record_ports id ps ((p.host_port, (id, normalize_proto p.protocol)) ∷ used)

unfoldable pub record_sandboxes : String → List Sandbox → Used → Used
unfolding record_ports
record_sandboxes id [] used = used
record_sandboxes id (sb ∷ all) used =
    record_sandboxes id all (if str_eq sb.id id then used else record_ports sb.id sb.ports used)

-- `%d/%s (…)` behind the text.
described : String → ℤ → String → String → String
described text port proto why =
    append text
      (append (decimal_int port) (append "/" (append proto (append " (" (append why ")")))))

use_failure : ℤ → String → Option (String × String) → Failure → Failure
unfolding described
use_failure port proto none rest = rest
use_failure port proto (some u) rest =
    fail_if (str_eq u.1 proto)
      (described "host port already in use: " port proto (append "sandbox " u.0)) rest

owner_failure : ℤ → String → String → Option String → Failure → Failure
unfolding described
owner_failure port proto id none rest = rest
owner_failure port proto id (some owner) rest =
    fail_if (not (str_eq owner id))
      (described "host port already reserved: " port proto (append "sandbox " owner)) rest

bind_failure : ℤ → String → Failure → Failure
unfolding described
bind_failure port proto none = none
bind_failure port proto (some e) = some (described "host port already in use: " port proto e)

-- The body of the loop over the requested ports.
unfoldable pub check_requested :
    (ℤ → String → Failure) → String → Used → Reservations → PortMapping → Failure
unfolding normalize_proto use_failure owner_failure bind_failure
check_requested bind id used rs p =
    let proto = normalize_proto p.protocol in
    use_failure p.host_port proto (used_at p.host_port used) (
      owner_failure p.host_port proto id (reserved_port_owner p.host_port proto rs)
        (bind_failure p.host_port proto (bind p.host_port proto)))

unfoldable pub check_all_requested :
    (ℤ → String → Failure) → String → Used → Reservations → List PortMapping → Failure
check_all_requested bind id used rs [] = none
check_all_requested bind id used rs (p ∷ ps) =
    or_else (check_requested bind id used rs p) (check_all_requested bind id used rs ps)

ensure_listed :
    (ℤ → String → Failure)
    → String
    → Reservations
    → Outcome (List Sandbox)
    → List PortMapping
    → Failure
unfolding record_sandboxes check_all_requested
ensure_listed bind id rs (failed e) requested = some e
ensure_listed bind id rs (done all) requested =
    check_all_requested bind id (record_sandboxes id all []) rs requested

-- `listed` is what the store's List answers.
unfoldable pub ensure_host_ports_available :
    (ℤ → String → Failure)
    → String
    → Reservations
    → Outcome (List Sandbox)
    → List PortMapping
    → Failure
unfolding ensure_listed
ensure_host_ports_available bind id rs listed [] = none
ensure_host_ports_available bind id rs listed (p ∷ ps) = ensure_listed bind id rs listed (p ∷ ps)
