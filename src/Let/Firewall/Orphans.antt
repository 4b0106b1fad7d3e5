-- ===== src/Let/Firewall/Orphans.antt =====
-- The rules that the deletion of orphans spares.
use go_gvisor_containerd_let.Base.{
  ◌-◌, ◌≡◌, refl, ap, ◌∙◌, String, Bool, true, false, ◌&&◌, not, Option, none, some, List, [], ◌∷◌,
  eq_iff, Bool-cases, inl, inr, arith, str_eq, is_empty, trim_space, fields, if◌then◌else◌,
}
use go_gvisor_containerd_let.Orch.Tables.Rows.{All}
use go_gvisor_containerd_let.Let.Types.{Outcome, done, failed}
use go_gvisor_containerd_let.Let.Firewall.Rules.{sandbox_id_from_rule, spec_of, is_kept, is_orphan}
use go_gvisor_containerd_let.Let.Firewall.{
  Iptables, delete_spec, delete_lines, clean_chain, delete_orphan_host_port_dnat,
}
use go_gvisor_containerd_let.Let.Firewall.Published.{Place, same_place, same_words, IsIptables}

-- A line that appends a rule names the chain that is listed.
abbrev pub IsListed : String → String → Type 0
IsListed chain line =
    (rule : List String)
    → spec_of (fields (trim_space line)) ≡ some rule
    → fields (trim_space line) ≡ "-A" ∷ chain ∷ rule

pub record IsListing (ipt : Iptables) : Type 0 where
  pub lists :
      (chain : String) (ts : ipt.Tables) (lines : List String)
      → ipt.list_rules "nat" chain ts ≡ done lines
      → All (IsListed chain) lines

both : (b c : Bool) → b && c ≡ true → (b ≡ true) × (c ≡ true)
both true true h = (refl, refl)
both true false h = grind arith
both false c h = grind arith

same_words-≡ : (as' bs : List String) → same_words as' bs ≡ true → as' ≡ bs
same_words-≡ [] [] h = refl
same_words-≡ (a ∷ as') (b ∷ bs) h =
    let (e, es) = both (str_eq a b) (same_words as' bs) h in
    let one = (eq_iff a b).0 e in let rest = same_words-≡ as' bs es in cc
same_words-≡ [] (b ∷ bs) h = grind arith
same_words-≡ (a ∷ as') [] h = grind arith

id-prerouting :
    (rule : List String)
    → sandbox_id_from_rule ("-A" ∷ "PREROUTING" ∷ rule) ≡ sandbox_id_from_rule rule
unfolding sandbox_id_from_rule
id-prerouting [] = refl
id-prerouting (w ∷ rest) = refl

id-output :
    (rule : List String) → sandbox_id_from_rule ("-A" ∷ "OUTPUT" ∷ rule) ≡ sandbox_id_from_rule rule
unfolding sandbox_id_from_rule
id-output [] = refl
id-output (w ∷ rest) = refl

module _ (ipt : Iptables) (laws : IsIptables ipt) (listing : IsListing ipt) (keep : List String)
    (p : Place) (kept : is_kept (sandbox_id_from_rule p.words) keep ≡ true) where
  open laws use {count, count_delete}

  kept-spared :
      (chain line : String) (rule : List String)
      → (sandbox_id_from_rule ("-A" ∷ chain ∷ rule) ≡ sandbox_id_from_rule rule)
      → IsListed chain line
      → is_orphan keep line ≡ true
      → spec_of (fields (trim_space line)) ≡ some rule
      → same_place "nat" chain rule p ≡ false
  unfolding is_orphan
  kept-spared chain line rule same l o e = elim (Bool-cases (same_place "nat" chain rule p)) [
    | inr other ↦ other
    | inl h ↦
        let words = same_words rule p.words in
        let (_, named) = both (str_eq "nat" p.table) (str_eq chain p.chain && words) h in
        let (_, equal) = both (str_eq chain p.chain) words named in
        let listed = sandbox_id_from_rule (fields (trim_space line)) in
        let id =
          ap sandbox_id_from_rule (l rule e)
          ∙ same
          ∙ ap sandbox_id_from_rule (same_words-≡ rule p.words equal) in
        let in_keep : is_kept listed keep ≡ true = ap (λ i. is_kept i keep) id ∙ kept in
        let (_, chosen) = both (not (is_empty listed)) (not (is_kept listed keep)) o in grind arith
  ]

  count-delete_line :
      (chain line : String) (ts : ipt.Tables)
      → ((rule : List String)
          → sandbox_id_from_rule ("-A" ∷ chain ∷ rule) ≡ sandbox_id_from_rule rule)
      → IsListed chain line
      → (o : Bool) → is_orphan keep line ≡ o
      → (spec : Option (List String)) → spec_of (fields (trim_space line)) ≡ spec
      → count p (if o then delete_spec ipt chain spec ts else ts) ≡ count p ts
  unfolding delete_spec
  count-delete_line chain line ts same l false eo spec es = refl
  count-delete_line chain line ts same l true eo none es = refl
  count-delete_line chain line ts same l true eo (some rule) es =
      count_delete "nat" chain rule ts p
      ∙ ap (λ (b : Bool). if b then count p ts - 1 else count p ts)
          (kept-spared chain line rule (same rule) l eo es)

  count-delete_lines :
      (chain : String) (lines : List String) (ts : ipt.Tables)
      → ((rule : List String)
          → sandbox_id_from_rule ("-A" ∷ chain ∷ rule) ≡ sandbox_id_from_rule rule)
      → All (IsListed chain) lines
      → count p (delete_lines ipt chain (is_orphan keep) lines ts) ≡ count p ts
  unfolding delete_lines
  count-delete_lines chain [] ts same l = refl
  count-delete_lines chain (line ∷ lines) ts same l =
      count-delete_lines chain lines _ same l.1
      ∙ count-delete_line chain line ts same l.0 (is_orphan keep line) refl
          (spec_of (fields (trim_space line))) refl

  count-clean_chain :
      (chain : String) (ts : ipt.Tables)
      → ((rule : List String)
          → sandbox_id_from_rule ("-A" ∷ chain ∷ rule) ≡ sandbox_id_from_rule rule)
      → count p (clean_chain ipt (is_orphan keep) chain ts) ≡ count p ts
  unfolding clean_chain
  count-clean_chain chain ts same = after (ipt.list_rules "nat" chain ts) refl
    where
      after :
          (r : Outcome (List String))
          → ipt.list_rules "nat" chain ts ≡ r
          → count p (elim r [
            | failed e ↦ ts
            | done lines ↦ delete_lines ipt chain (is_orphan keep) lines ts
          ])
            ≡ count p ts
      after (failed e) h = refl
      after (done lines) h = count-delete_lines chain lines ts same (listing.lists chain ts lines h)

  -- The deletion of orphans leaves a rule with the tag of a sandbox that is kept as often in its chain as
  -- it was, for any iptables of which Delete does what it documents and whose listing of a chain
  -- names the chain in the lines that append a rule.
  pub delete_orphan_host_port_dnat-spares :
      (ts : ipt.Tables) → count p (delete_orphan_host_port_dnat ipt keep ts) ≡ count p ts
  unfolding delete_orphan_host_port_dnat
  delete_orphan_host_port_dnat-spares ts =
      count-clean_chain "OUTPUT" _ id-output ∙ count-clean_chain "PREROUTING" ts id-prerouting
