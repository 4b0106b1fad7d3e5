-- ===== src/Let/Tests/Firewall.antt =====
-- The theorems about the firewall, applied to an iptables that counts its rules.
use go_gvisor_containerd_let.Base.{
  ap, subst, sym, some, Bool, has_prefix, ◌∙◌, List, String, eq_iff, str_eq, Bool-cases, inr,
  fields, ℕ, ◌-◌, ◌≡◌, refl, pos, inl, none, [], ◌∷◌, if◌then◌else◌, to_lower, trim_space, decimal,
}
use go_gvisor_containerd_let.Orch.Tables.Rows.{All}
use go_gvisor_containerd_let.Let.Types.{Outcome, done, failed, decimal_int}
use go_gvisor_containerd_let.Let.Validate.{or_tcp}
use go_gvisor_containerd_let.Let.Firewall.Rules.{
  HostPortForward, prerouting_rule, output_rule, spec_of, is_kept, sandbox_id_from_rule,
}
use go_gvisor_containerd_let.Let.Firewall.{
  Iptables, apply_host_port_dnat, delete_host_port_dnat, delete_orphan_host_port_dnat,
}
use go_gvisor_containerd_let.Let.Firewall.Orphans.{
  IsListed, IsListing, delete_orphan_host_port_dnat-spares,
}
use go_gvisor_containerd_let.Let.Firewall.Published.{
  Place, same_place, at_least_one, IsIptables, delete_host_port_dnat-restores,
}

abbrev two_lines : List String
two_lines =
    "-A PREROUTING -m comment --comment SBX:s2 -j ACCEPT"
    ∷ "-A PREROUTING -m comment --comment SBX:s1 -j ACCEPT" ∷ []

abbrev listed_if : Bool → Outcome (List String)
listed_if b = if b then done two_lines else done []

-- It counts the rules, and lists two in a chain.
abbrev counting : Iptables
counting = record {
  Tables = Place → ℕ;
  append_unique = λ t c r ts. (none, λ p. if same_place t c r p then at_least_one (ts p) else ts p);
  insert = λ t c n r ts. (none, ts);
  delete = λ t c r ts p. if same_place t c r p then ts p - 1 else ts p;
  new_chain = λ t c ts. ts;
  clear_chain = λ t c ts. ts;
  delete_chain = λ t c ts. ts;
  list_chains = λ t ts. done [];
  list_rules = λ t c ts. listed_if (str_eq c "PREROUTING");
}

abbrev counting_laws : IsIptables counting
counting_laws = record {
  count = λ p ts. ts p;
  count_append = λ t c r ts p h. refl;
  count_delete = λ t c r ts p. refl;
}

abbrev web_forward : HostPortForward
web_forward = record { host_port = pos 8080; container_port = pos 80; protocol = "tcp" }

abbrev ssh_rule : Place
ssh_rule = record {
  table = "nat";
  chain = "PREROUTING";
  words = "-p" ∷ "tcp" ∷ "--dport" ∷ "22" ∷ "-j" ∷ "ACCEPT" ∷ [];
}

delete_host_port_dnat-restores_example :
    delete_host_port_dnat counting "s1" "10.1.0.2"
      (web_forward ∷ [])
      (apply_host_port_dnat counting "s1" "10.1.0.2" (web_forward ∷ []) (λ p. 1)).1
      ssh_rule
    ≡ 1
unfolding prerouting_rule output_rule apply_host_port_dnat or_tcp to_lower trim_space decimal_int
    decimal
delete_host_port_dnat-restores_example =
    delete_host_port_dnat-restores counting counting_laws "s1" "10.1.0.2" ssh_rule
      (web_forward ∷ []) (λ p. 1) refl (inl refl)

abbrev lines_or_none : Outcome (List String) → List String
lines_or_none (done lines) = lines
lines_or_none (failed e) = []

appended :
    (words rule : List String)
    → some words ≡ some rule
    → "-A" ∷ "PREROUTING" ∷ words ≡ "-A" ∷ "PREROUTING" ∷ rule
appended words rule e = cc

two_lines-IsListed : All (IsListed "PREROUTING") two_lines
unfolding spec_of fields trim_space
two_lines-IsListed = ((λ rule e. appended _ rule e), ((λ rule e. appended _ rule e), tt))

abbrev listing_laws : IsListing counting
listing_laws = record {
  lists = λ c ts lines h. elim (Bool-cases (str_eq c "PREROUTING")) [
    | inl e ↦
        let eq = ap lines_or_none (ap listed_if (sym e) ∙ h) in
        subst (λ name. All (IsListed name) lines) (sym ((eq_iff c "PREROUTING").0 e))
          (subst (All (IsListed "PREROUTING")) eq two_lines-IsListed)
    | inr e ↦ subst (All (IsListed c)) (ap lines_or_none (ap listed_if (sym e) ∙ h)) tt
  ];
}

abbrev kept_rule : Place
kept_rule = record {
  table = "nat";
  chain = "PREROUTING";
  words = "-m" ∷ "comment" ∷ "--comment" ∷ "SBX:s1" ∷ "-j" ∷ "ACCEPT" ∷ [];
}

delete_orphan_host_port_dnat-spares_example :
    delete_orphan_host_port_dnat counting ("s1" ∷ []) (λ p. 1) kept_rule ≡ 1
unfolding is_kept sandbox_id_from_rule has_prefix
delete_orphan_host_port_dnat-spares_example =
    delete_orphan_host_port_dnat-spares counting counting_laws listing_laws ("s1" ∷ []) kept_rule
      refl (λ p. 1)
