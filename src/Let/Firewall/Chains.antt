-- ===== src/Let/Firewall/Chains.antt =====
-- The chains that all sandboxes share, and the nameservers of the host
-- (sandboxd-let/network/firewall.go). The lines of resolv.conf and net.ParseIP are arguments.
use Prim.Native.Char.{Char, code}
use Prim.Native.String.{◌++◌ as append, char_at}
use go_gvisor_containerd_let.Base.{
  ◌-◌, ◌≡◌, refl, subst, sym, leb, String, Bool, true, false, ◌&&◌, ◌||◌, not, Option, none, some,
  List, [], ◌∷◌, arith, str_eq, eq_iff, is_empty, trim_space, has_prefix, fields, if◌then◌else◌,
  Bool-cases, inl, inr,
}
use go_gvisor_containerd_let.Orch.Tables.{exists}
use go_gvisor_containerd_let.Orch.Tables.Rows.{Unique}
use go_gvisor_containerd_let.Let.Types.{Failure, Outcome, done, failed}
use go_gvisor_containerd_let.Let.Firewall.{Iptables, continued}

upper_char : Char → Char
upper_char c =
    if leb b'a' (code c) && leb (code c) b'z'
    then char_at "ABCDEFGHIJKLMNOPQRSTUVWXYZ" (code c - b'a')
    else c

-- strings.ToUpper, on ASCII letters.
to_upper : String → String
unfolding upper_char
to_upper String.[] = String.[]
to_upper (String.◌∷◌ c s) = String.◌∷◌ (upper_char c) (to_upper s)

abbrev or_forward : List String → List String
or_forward [] = "FORWARD" ∷ []
or_forward (chain ∷ chains) = chain ∷ chains

-- `containsChain(…, "FORWARD")`.
abbrev names_forward : String → Bool
names_forward chain = str_eq (to_upper (trim_space chain)) "FORWARD"

unfoldable pub hook_chains : List String → List String
unfolding to_upper exists
hook_chains configured =
    let chains = or_forward configured in
    if exists names_forward chains then chains else "FORWARD" ∷ chains

module _ (ipt : Iptables) where
  open ipt use {Tables, insert, delete, new_chain, list_chains}

  has_chain : String → Tables → Bool
  unfolding exists
  has_chain chain t = elim (list_chains "filter" t) [
    | failed e ↦ false
    | done chains ↦ exists (str_eq chain) chains
  ]

  wrapped : Failure × Tables → Failure × Tables
  wrapped (none, t) = (none, t)
  wrapped (some e, t) = (some (append "insert rule: " e), t)

  unfoldable pub insert_first : String → List String → Tables → Failure × Tables
  unfolding wrapped
  insert_first parent rule t =
      wrapped (insert "filter" parent 1 rule (delete "filter" parent rule t))

  hook_all : List String → Tables → Failure × Tables
  unfolding insert_first has_chain to_upper
  hook_all [] t = (none, t)
  hook_all (configured ∷ rest) t =
      let chain = trim_space (to_upper configured) in
      continued ipt
        (if is_empty chain || not (has_chain chain t)
          then (none, t)
          else insert_first chain ("-j" ∷ "SANDBOX-FWD" ∷ []) t)
        (hook_all rest)

  unfoldable pub ensure_global_chains : List String → Tables → Failure × Tables
  unfolding hook_all hook_chains
  ensure_global_chains configured t =
      continued ipt
        (insert_first "FORWARD" ("-m" ∷ "mark" ∷ "--mark" ∷ "0x2000/0x2000" ∷ "-j" ∷ "ACCEPT" ∷ [])
          (new_chain "filter" "SANDBOX-IN" (new_chain "filter" "SANDBOX-FWD" t)))
        λ t1.
          continued ipt
            (insert_first "FORWARD"
              ("-m" ∷ "conntrack" ∷ "--ctstate" ∷ "ESTABLISHED,RELATED" ∷ "-j" ∷ "ACCEPT" ∷ []) t1)
            λ t2.
              continued ipt (hook_all (hook_chains configured) t2)
                (insert_first "INPUT" ("-j" ∷ "SANDBOX-IN" ∷ []))

-- net.ParseIP with To4 and String: the printed address, if it is one of IPv4.
abbrev pub ParseIp4 : Type 0
ParseIp4 = String → Option String

with_mask : Option String → Option String
with_mask none = none
with_mask (some ip) = some (append ip "/32")

nameserver_of : ParseIp4 → List String → Option String
unfolding with_mask
nameserver_of parse_ip4 (key ∷ ip ∷ rest) =
    if str_eq key "nameserver" then with_mask (parse_ip4 ip) else none
nameserver_of parse_ip4 other = none

abbrev listed_as : Bool → String → List String → (List String → List String) → List String
listed_as true s seen rest = rest seen
listed_as false s seen rest = s ∷ rest (s ∷ seen)

abbrev unless_seen : Option String → List String → (List String → List String) → List String
unless_seen none seen rest = rest seen
unless_seen (some s) seen rest = listed_as (exists (str_eq s) seen) s seen rest

-- The lines, and the nameservers that were seen; an empty line has no fields.
unfoldable pub scan_nameservers : ParseIp4 → List String → List String → List String
unfolding nameserver_of exists
scan_nameservers parse_ip4 [] seen = []
scan_nameservers parse_ip4 (text ∷ lines) seen =
    let line = trim_space text in
    unless_seen
      (if is_empty line || has_prefix "#" line then none else nameserver_of parse_ip4 (fields line))
      seen (scan_nameservers parse_ip4 lines)

unfoldable pub system_nameservers : ParseIp4 → Outcome (List String) → List String
unfolding scan_nameservers
system_nameservers parse_ip4 (failed e) = []
system_nameservers parse_ip4 (done lines) = scan_nameservers parse_ip4 lines []

-- FORWARD is always among the chains that are hooked.
hook_chains-forward :
    (configured : List String) → exists names_forward (hook_chains configured) ≡ true
unfolding hook_chains exists trim_space
hook_chains-forward [] = refl
hook_chains-forward (chain ∷ chains) = ground arith

module _ (seen : List String) (rest : List String → List String) where
  unless_seen-fresh :
      (o : Option String) (s : String)
      → ((later : List String)
          → exists (str_eq s) later ≡ true
          → exists (str_eq s) (rest later) ≡ false)
      → exists (str_eq s) seen ≡ true
      → exists (str_eq s) (unless_seen o seen rest) ≡ false
  unfolding exists
  unless_seen-fresh none s fresh h = fresh seen h
  unless_seen-fresh (some x) s fresh h = elim (Bool-cases (exists (str_eq x) seen)) [
    | inl e ↦
        subst (λ b. exists (str_eq s) (listed_as b x seen rest) ≡ false) (sym e) (fresh seen h)
    | inr e ↦
        subst (λ b. exists (str_eq s) (listed_as b x seen rest) ≡ false) (sym e)
          (elim (Bool-cases (str_eq s x)) [
            | inl q ↦
                absurd (cc (subst (λ y. exists (str_eq y) seen ≡ true) ((eq_iff s x).0 q) h, e))
            | inr q ↦ rw q (fresh (x ∷ seen) (rw (q, h) refl))
          ])
  ]

  unless_seen-Unique :
      (o : Option String)
      → ((later : List String) → Unique str_eq (rest later))
      → ((later : List String) (s : String)
          → exists (str_eq s) later ≡ true
          → exists (str_eq s) (rest later) ≡ false)
      → Unique str_eq (unless_seen o seen rest)
  unfolding exists
  unless_seen-Unique none unique fresh = unique seen
  unless_seen-Unique (some x) unique fresh = elim (Bool-cases (exists (str_eq x) seen)) [
    | inl e ↦ subst (λ b. Unique str_eq (listed_as b x seen rest)) (sym e) (unique seen)
    | inr e ↦
        subst (λ b. Unique str_eq (listed_as b x seen rest)) (sym e)
          (fresh (x ∷ seen) x (rw ((eq_iff x x).1 refl) refl), unique (x ∷ seen))
  ]

scan_nameservers-fresh :
    (parse_ip4 : ParseIp4) (lines seen : List String) (s : String)
    → exists (str_eq s) seen ≡ true
    → exists (str_eq s) (scan_nameservers parse_ip4 lines seen) ≡ false
unfolding scan_nameservers exists
scan_nameservers-fresh parse_ip4 [] seen s h = refl
scan_nameservers-fresh parse_ip4 (text ∷ lines) seen s h =
    unless_seen-fresh seen (scan_nameservers parse_ip4 lines) _ s
      (λ later. scan_nameservers-fresh parse_ip4 lines later s) h

scan_nameservers-Unique :
    (parse_ip4 : ParseIp4) (lines seen : List String)
    → Unique str_eq (scan_nameservers parse_ip4 lines seen)
unfolding scan_nameservers
scan_nameservers-Unique parse_ip4 [] seen = tt
scan_nameservers-Unique parse_ip4 (text ∷ lines) seen =
    unless_seen-Unique seen (scan_nameservers parse_ip4 lines) _
      (scan_nameservers-Unique parse_ip4 lines) (scan_nameservers-fresh parse_ip4 lines)

-- No nameserver is listed twice.
system_nameservers-Unique :
    (parse_ip4 : ParseIp4) (opened : Outcome (List String))
    → Unique str_eq (system_nameservers parse_ip4 opened)
unfolding system_nameservers
system_nameservers-Unique parse_ip4 (failed e) = tt
system_nameservers-Unique parse_ip4 (done lines) = scan_nameservers-Unique parse_ip4 lines []
