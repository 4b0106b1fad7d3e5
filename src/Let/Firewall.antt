-- ===== src/Let/Firewall.antt =====
-- The firewall rules of a sandbox (sandboxd-let/network/firewall.go). iptables is an interface, of which the
-- code ignores the errors of `delete` and of the operations on chains; the nameservers are an
-- argument.
pub mod Rules
pub mod Published
pub mod Orphans
pub mod Chains
use Prim.Native.Nat.{bit_xor}
use Prim.Native.Char.{code}
use Prim.Native.String.{◌++◌ as append, char_at}
use go_gvisor_containerd_let.Base.{
  ℕ, zero, suc, ◌*◌, ◌/◌, ◌%◌, ◌^◌, ℤ, String, Bool, true, false, ◌&&◌, not, Option, none, some,
  List, [], ◌∷◌, ◌++◌, str_eq, is_empty, trim_space, to_lower, contains, has_prefix, fields,
  if◌then◌else◌,
}
use go_gvisor_containerd_let.Let.Types.{
  Failure, Outcome, done, failed, concat, decimal_int, PortMapping,
}
use go_gvisor_containerd_let.Let.Validate.{or_tcp}
use go_gvisor_containerd_let.Let.Ports.{normalize_proto}
use go_gvisor_containerd_let.Let.Firewall.Rules.{
  PublishedPort, HostPortForward, to_published_ports, to_host_port_forwards, short_id, comment_of,
  prerouting_rule, output_rule, sandbox_id_from_rule, spec_of, is_kept, accept_rule, established,
  forward_rules, input_rules, is_orphan, chain_of,
}

-- What the code calls of go-iptables: table and chain come first, a rule is the list of its words.
pub record Iptables : Type 1 where
  pub Tables : Type 0
  pub append_unique : String → String → List String → Tables → Failure × Tables
  pub insert : String → String → ℕ → List String → Tables → Failure × Tables
  pub delete : String → String → List String → Tables → Tables
  pub new_chain : String → String → Tables → Tables
  pub clear_chain : String → String → Tables → Tables
  pub delete_chain : String → String → Tables → Tables
  pub list_chains : String → Tables → Outcome (List String)
  pub list_rules : String → String → Tables → Outcome (List String)

module _ (ipt : Iptables) where
  open ipt use {
    Tables, append_unique, insert, delete, new_chain, clear_chain, delete_chain, list_rules,
  }

  -- `if err != nil { return err }`.
  abbrev pub continued : Failure × Tables → (Tables → Failure × Tables) → Failure × Tables
  continued (none, t) k = k t
  continued (some e, t) k = (some e, t)

  unfoldable pub apply_host_port_dnat :
      String → String → List HostPortForward → Tables → Failure × Tables
  unfolding prerouting_rule output_rule
  apply_host_port_dnat id ip [] t = (none, t)
  apply_host_port_dnat id ip (f ∷ fs) t =
      continued (append_unique "nat" "PREROUTING" (prerouting_rule id ip f) t) λ t1.
        continued (append_unique "nat" "OUTPUT" (output_rule id ip f) t1)
          (apply_host_port_dnat id ip fs)

  unfoldable pub delete_host_port_dnat : String → String → List HostPortForward → Tables → Tables
  unfolding prerouting_rule output_rule
  delete_host_port_dnat id ip [] t = t
  delete_host_port_dnat id ip (f ∷ fs) t = delete_host_port_dnat id ip fs (
      delete "nat" "OUTPUT" (output_rule id ip f)
        (delete "nat" "PREROUTING" (prerouting_rule id ip f) t))

  delete_spec : String → Option (List String) → Tables → Tables
  delete_spec chain none t = t
  delete_spec chain (some spec) t = delete "nat" chain spec t

  -- The loops over the listed lines, with the lines that they do not skip.
  unfoldable pub delete_lines : String → (String → Bool) → List String → Tables → Tables
  unfolding delete_spec spec_of
  delete_lines chain chosen [] t = t
  delete_lines chain chosen (line ∷ lines) t =
      delete_lines chain chosen lines
        (if chosen line then delete_spec chain (spec_of (fields (trim_space line))) t else t)

  unfoldable pub clean_chain : (String → Bool) → String → Tables → Tables
  unfolding delete_lines
  clean_chain chosen chain t = elim (list_rules "nat" chain t) [
    | failed e ↦ t
    | done lines ↦ delete_lines chain chosen lines t
  ]

  unfoldable pub delete_host_port_dnat_by_sandbox : String → Tables → Tables
  unfolding clean_chain comment_of
  delete_host_port_dnat_by_sandbox id t =
      let tagged = contains (append "--comment " (comment_of id)) in
      clean_chain tagged "OUTPUT" (clean_chain tagged "PREROUTING" t)

  unfoldable pub delete_orphan_host_port_dnat : List String → Tables → Tables
  unfolding clean_chain is_orphan
  delete_orphan_host_port_dnat keep t =
      clean_chain (is_orphan keep) "OUTPUT" (clean_chain (is_orphan keep) "PREROUTING" t)

  unfoldable pub insert_forward_accept_early : String → PublishedPort → Tables → Failure × Tables
  insert_forward_accept_early ip p t =
      insert "filter" "FORWARD" 2 (accept_rule ip p)
        (delete "filter" "FORWARD" (accept_rule ip p) t)

  insert_all : String → List PublishedPort → Tables → Tables
  unfolding insert_forward_accept_early
  insert_all ip [] t = t
  insert_all ip (p ∷ ps) t = insert_all ip ps (insert_forward_accept_early ip p t).1

  -- `_ = ipt.AppendUnique("filter", …)`, for each rule.
  append_all : String → List (List String) → Tables → Tables
  append_all chain [] t = t
  append_all chain (r ∷ rs) t = append_all chain rs (append_unique "filter" chain r t).1

  unfoldable pub apply_sandbox_rules :
      List String
      → String
      → String
      → String
      → String
      → Bool
      → List PublishedPort
      → Tables
      → Failure × Tables
  unfolding insert_all append_all forward_rules input_rules
  apply_sandbox_rules nameservers id ip bridge_cidr bridge_if egress ports t =
      let fwd = chain_of id "-FWD" in
      let inp = chain_of id "-IN" in
      let source = "-s" ∷ append ip "/32" ∷ "-j" ∷ [] in
      continued
        (append_unique "filter" "SANDBOX-FWD" (source ++ (fwd ∷ []))
          (new_chain "filter" inp (new_chain "filter" fwd t)))
        λ t1.
          continued
            (append_unique "filter" "SANDBOX-IN" ("-i" ∷ bridge_if ∷ (source ++ (inp ∷ []))) t1)
            λ t2. (
              none,
              append_all inp (established ∷ input_rules ports) (
                  append_all fwd (forward_rules nameservers bridge_cidr egress)
                    (insert_all ip ports t2)),
            )

  delete_accepts : String → List PublishedPort → Tables → Tables
  delete_accepts ip [] t = t
  delete_accepts ip (p ∷ ps) t =
      delete_accepts ip ps (delete "filter" "FORWARD" (accept_rule ip p) t)

  unfoldable pub delete_sandbox_rules :
      String → String → String → List PublishedPort → Tables → Tables
  unfolding delete_accepts
  delete_sandbox_rules id ip bridge_if ports t =
      let fwd = chain_of id "-FWD" in
      let inp = chain_of id "-IN" in
      let source = "-s" ∷ append ip "/32" ∷ "-j" ∷ [] in
      let t1 = delete "filter" "SANDBOX-FWD" (source ++ (fwd ∷ [])) (delete_accepts ip ports t) in
      let t2 = delete "filter" "SANDBOX-IN" ("-i" ∷ bridge_if ∷ (source ++ (inp ∷ []))) t1 in
      delete_chain "filter" inp
        (delete_chain "filter" fwd (clear_chain "filter" inp (clear_chain "filter" fwd t2)))
