-- ===== src/Let/Firewall/Published.antt =====
-- What is published for a sandbox is taken back by its deletion.
use go_gvisor_containerd_let.Base.{
  ℕ, ◌+◌, ◌-◌, ◌==◌, ◌≡◌, refl, ap, sym, ◌∙◌, ◌⊎◌, String, Bool, true, false, ◌&&◌, none, some,
  List, [], ◌∷◌, arith, str_eq, if◌then◌else◌,
}
use go_gvisor_containerd_let.Let.Types.{Failure}
use go_gvisor_containerd_let.Let.Firewall.Rules.{HostPortForward, prerouting_rule, output_rule}
use go_gvisor_containerd_let.Let.Firewall.{
  Iptables, continued, apply_host_port_dnat, delete_host_port_dnat,
}

abbrev pub same_words : List String → List String → Bool
same_words [] [] = true
same_words (a ∷ as') (b ∷ bs) = str_eq a b && same_words as' bs
same_words as' bs = false

-- A rule in a chain of a table.
pub record Place : Type 0 where
  pub table : String
  pub chain : String
  pub words : List String

abbrev pub same_place : String → String → List String → Place → Bool
same_place t c r p = str_eq t p.table && (str_eq c p.chain && same_words r p.words)

abbrev pub at_least_one : ℕ → ℕ
at_least_one n = if n == 0 then 1 else n

-- How often a rule stands in its chain: AppendUnique adds one that is missing, and Delete takes one
-- away that is there; both leave all other rules.
pub record IsIptables (ipt : Iptables) : Type 0 where
  pub count : Place → ipt.Tables → ℕ
  pub count_append :
      (t c : String) (r : List String) (ts : ipt.Tables) (p : Place)
      → (ipt.append_unique t c r ts).0 ≡ none
      → count p (ipt.append_unique t c r ts).1
        ≡ (if same_place t c r p then at_least_one (count p ts) else count p ts)
  pub count_delete :
      (t c : String) (r : List String) (ts : ipt.Tables) (p : Place)
      → count p (ipt.delete t c r ts) ≡ (if same_place t c r p then count p ts - 1 else count p ts)

abbrev one_if : Bool → ℕ
one_if b = if b then 1 else 0

-- How many of the rules that publish the ports are this one.
abbrev pub published : String → String → Place → List HostPortForward → ℕ
published id ip p [] = 0
published id ip p (f ∷ fs) =
    one_if (same_place "nat" "PREROUTING" (prerouting_rule id ip f) p)
    + one_if (same_place "nat" "OUTPUT" (output_rule id ip f) p)
    + published id ip p fs

-- Two rules more that are appended, or taken away.
appended_twice :
    (b c : Bool) (n rest : ℕ)
    → (let first : ℕ = if b then at_least_one n else n in
        let second : ℕ = if c then at_least_one first else first in
        if rest == 0 then second else at_least_one second)
      ≡ (if one_if b + one_if c + rest == 0 then n else at_least_one n)
appended_twice true true n rest = ground arith
appended_twice true false n rest = ground arith
appended_twice false true n rest = ground arith
appended_twice false false n rest = ground arith

deleted_twice :
    (b c : Bool) (n rest : ℕ)
    → (let first : ℕ = if b then n - 1 else n in
        let second : ℕ = if c then first - 1 else first in second - rest)
      ≡ n - (one_if b + one_if c + rest)
deleted_twice true true n rest = omega arith
deleted_twice true false n rest = omega arith
deleted_twice false true n rest = omega arith
deleted_twice false false n rest = omega arith

module _ (ipt : Iptables) (laws : IsIptables ipt) (id ip : String) (p : Place) where
  open laws use {count, count_append, count_delete}

  continued-none :
      (m : Failure × ipt.Tables) (k : ipt.Tables → Failure × ipt.Tables)
      → (continued ipt m k).0 ≡ none
      → (m.0 ≡ none) × (continued ipt m k ≡ k m.1)
  continued-none (none, t) k h = (refl, refl)
  continued-none (some e, t) k h = cc

  count-apply :
      (fs : List HostPortForward) (ts : ipt.Tables)
      → (apply_host_port_dnat ipt id ip fs ts).0 ≡ none
      → count p (apply_host_port_dnat ipt id ip fs ts).1
        ≡ (if published id ip p fs == 0 then count p ts else at_least_one (count p ts))
  unfolding apply_host_port_dnat
  count-apply [] ts h = refl
  count-apply (f ∷ fs) ts h =
      let pre = prerouting_rule id ip f in
      let out = output_rule id ip f in
      let m = ipt.append_unique "nat" "PREROUTING" pre ts in
      let k = λ (t : ipt.Tables).
        continued ipt (ipt.append_unique "nat" "OUTPUT" out t)
          (apply_host_port_dnat ipt id ip fs) in
      let (e, one) = continued-none m k h in
      let m' = ipt.append_unique "nat" "OUTPUT" out m.1 in
      let h' : (k m.1).0 ≡ none = ap (λ (r : Failure × ipt.Tables). r.0) (sym one) ∙ h in
      let (e', two) = continued-none m' (apply_host_port_dnat ipt id ip fs) h' in
      let h'' = ap (λ (r : Failure × ipt.Tables). r.0) (sym two) ∙ h' in
      let n = published id ip p fs in
      ap (λ (r : Failure × ipt.Tables). count p r.1) (one ∙ two)
      ∙ count-apply fs m'.1 h''
      ∙ ap (λ (c : ℕ). if n == 0 then c else at_least_one c)
          (count_append "nat" "OUTPUT" out m.1 p e'
            ∙ ap (λ (c : ℕ). if same_place "nat" "OUTPUT" out p then at_least_one c else c)
                (count_append "nat" "PREROUTING" pre ts p e))
      ∙ appended_twice (same_place "nat" "PREROUTING" pre p) (same_place "nat" "OUTPUT" out p)
          (count p ts) n

  count-remove :
      (fs : List HostPortForward) (ts : ipt.Tables)
      → count p (delete_host_port_dnat ipt id ip fs ts) ≡ count p ts - published id ip p fs
  unfolding delete_host_port_dnat
  count-remove [] ts = omega arith
  count-remove (f ∷ fs) ts =
      let pre = prerouting_rule id ip f in
      let out = output_rule id ip f in
      let ts' = ipt.delete "nat" "PREROUTING" pre ts in
      let n = published id ip p fs in
      count-remove fs (ipt.delete "nat" "OUTPUT" out ts')
      ∙ ap (λ (c : ℕ). c - n)
          (count_delete "nat" "OUTPUT" out ts' p
            ∙ ap (λ (c : ℕ). if same_place "nat" "OUTPUT" out p then c - 1 else c)
                (count_delete "nat" "PREROUTING" pre ts p))
      ∙ deleted_twice (same_place "nat" "PREROUTING" pre p) (same_place "nat" "OUTPUT" out p)
          (count p ts) n

  -- A deletion takes back what a successful publication has added: a rule that the ports do not ask for,
  -- or that was not there before, stands in its chain as often after the two as before, for any
  -- iptables of which AppendUnique and Delete do what they document.
  pub delete_host_port_dnat-restores :
      (fs : List HostPortForward) (ts : ipt.Tables)
      → (apply_host_port_dnat ipt id ip fs ts).0 ≡ none
      → (published id ip p fs ≡ 0) ⊎ (count p ts ≡ 0)
      → count p (delete_host_port_dnat ipt id ip fs (apply_host_port_dnat ipt id ip fs ts).1)
        ≡ count p ts
  delete_host_port_dnat-restores fs ts h own =
      count-remove fs (apply_host_port_dnat ipt id ip fs ts).1 ∙ ground (arith, count-apply fs ts h)
