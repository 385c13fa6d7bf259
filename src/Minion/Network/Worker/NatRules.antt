-- ===== src/Minion/Network/Worker/NatRules.antt =====
-- The rules that `generateTargetNatRules` (minion/network/worker.go) makes, before they are parsed.
use mathlib.Core.List.{
  mem-cons, mem-cons_self, mem-cons_of_mem, not-mem-nil, Mem-prop, mem-append, mem-append_left,
  mem-append_right,
}
use mathlib.Core.Logic.{∥∥₁_elim, ∥∥₁_prop}
use mathlib.Core.Logic.Or
use di.Prelude.{
  ◌++◌, find, String, ◌≡◌, ◌↔◌, ◌⊎◌, ◌<>◌, refl, sym, ◌∙◌, subst, inl, inr, List, [], ◌∷◌, Mem,
  str_eq, eq_iff, Bool-cases, ℤ,
}
use di.Db.Rows.{Container, Connection}
use di.Minion.Network.Worker.{decimal, list_at}
use di.Minion.Network.Worker.Web.{
  Ports, ports_from_web, nat_rule, port_rules, web_rules, target_nat_strings,
}
use di.Minion.Network.Worker.PortMap.{list_at-entry, ports_from_web-Nodup}
use di.Minion.Network.Worker.Exposed.{Admitted, ports_from_web-Admitted}

abbrev protocols : List String
protocols = "tcp" ∷ "udp" ∷ []

module _ (s : String) (Q : String → Type 0) (prop : IsProp (Q s)) where
  port_rules-only :
      (ip : String) (ports : List ℤ)
      → ((port : ℤ) (p : String) → Mem port ports → Mem p protocols → Q (nat_rule ip port p))
      → Mem s (port_rules ip ports)
      → Q s
  unfolding port_rules
  port_rules-only ip [] f h = absurd (not-mem-nil h)
  port_rules-only ip (port ∷ ports) f h =
      Or.elim prop (mem-cons.0 h) (λ e. subst Q (sym e) (f port "tcp" mem-cons_self mem-cons_self))
        (λ r.
          Or.elim prop (mem-cons.0 r)
            (λ e.
              subst Q (sym e) (f port "udp" mem-cons_self (mem-cons_of_mem "tcp" mem-cons_self)))
            (port_rules-only ip ports (λ q p k. f q p (mem-cons_of_mem port k))))

  web_rules-only :
      (m : Ports)
      → ((ip : String) (ports : List ℤ) (port : ℤ) (p : String)
          → Mem (ip, ports) m
          → Mem port ports
          → Mem p protocols
          → Q (nat_rule ip port p))
      → Mem s (web_rules m)
      → Q s
  unfolding web_rules
  web_rules-only [] f h = absurd (not-mem-nil h)
  web_rules-only ((ip, ports) ∷ m) f h =
      Or.elim prop (mem-append.0 h)
        (port_rules-only ip ports (λ port p. f ip ports port p mem-cons_self))
        (web_rules-only m (λ i ps port p k. f i ps port p (mem-cons_of_mem (ip, ports) k)))

port_rules-there :
    (ip p : String) (port : ℤ) (ports : List ℤ)
    → Mem p protocols
    → Mem port ports
    → Mem (nat_rule ip port p) (port_rules ip ports)
unfolding port_rules
port_rules-there ip p port [] k m = absurd (not-mem-nil m)
port_rules-there ip p port (q ∷ ports) k m =
    Or.elim Mem-prop (mem-cons.0 m)
      (λ e.
        let head : Mem (nat_rule ip q p) (port_rules ip (q ∷ ports)) =
          Or.elim Mem-prop (mem-cons.0 k)
            (λ f.
              subst (λ x. Mem (nat_rule ip q x) (port_rules ip (q ∷ ports))) (sym f) mem-cons_self)
            (λ r.
              Or.elim Mem-prop (mem-cons.0 r)
                (λ f.
                  subst (λ x. Mem (nat_rule ip q x) (port_rules ip (q ∷ ports))) (sym f)
                    (mem-cons_of_mem _ mem-cons_self))
                (λ z. absurd (not-mem-nil z))) in
        subst (λ x. Mem (nat_rule ip x p) (port_rules ip (q ∷ ports))) (sym e) head)
      (λ r. mem-cons_of_mem _ (mem-cons_of_mem _ (port_rules-there ip p port ports k r)))

web_rules-there :
    (ip p : String) (port : ℤ) (m : Ports)
    → Mem p protocols
    → Mem port (list_at ip m)
    → Mem (nat_rule ip port p) (web_rules m)
unfolding web_rules list_at find
web_rules-there ip p port [] k h = absurd (not-mem-nil h)
web_rules-there ip p port ((j, ports) ∷ m) k h = elim (Bool-cases (str_eq j ip)) [
  | inl e ↦ mem-append_left (web_rules m) (
      subst (λ x. Mem (nat_rule ip port p) (port_rules x ports)) (sym ((eq_iff j ip).0 e))
        (port_rules-there ip p port ports k (rw (e, list_at, find) at h)))
  | inr n ↦
      mem-append_right (port_rules j ports)
        (web_rules-there ip p port m k (rw (n, list_at, find) at h))
]

-- The rules that are always there.
abbrev base : List String
base =
    "-P PREROUTING ACCEPT" ∷ "-P INPUT ACCEPT" ∷ "-P OUTPUT ACCEPT" ∷ "-P POSTROUTING ACCEPT"
    ∷ "-A POSTROUTING -s 10.0.0.0/8 -o eth0 -j MASQUERADE" ∷ []

module _ (containers : List Container) (connections : List Connection) where
  -- A translation of a protocol on the first port of a connection from the public internet to a label
  -- of the container.
  abbrev Translation : String → Type 0
  Translation s =
      (dbc : Container) × (conn : Connection) × (p : String) × Mem dbc containers
      × Mem conn connections
      × (conn.from ≡ "public")
      × Mem conn.to dbc.labels
      × ((p ≡ "tcp") ⊎ (p ≡ "udp"))
      × (s
          ≡ "-A PREROUTING -i eth0 -p "
            <> p
            <> " -m "
            <> p
            <> " --dport "
            <> decimal conn.min_port
            <> " -j DNAT --to-destination "
            <> dbc.ip
            <> ":"
            <> decimal conn.min_port)

  abbrev pub Wanted : String → Type 0
  Wanted s = ∥ Mem s base ⊎ Translation s ∥₁

  translated :
      (s ip p : String) (port : ℤ)
      → Admitted containers connections ip port
      → Mem p protocols
      → s ≡ nat_rule ip port p
      → Wanted s
  unfolding nat_rule
  translated s ip p port a k e = ∥∥₁_elim a ∥∥₁_prop λ (dbc, conn, d, c, f, t, i, q).
      Or.elim ∥∥₁_prop (mem-cons.0 k)
        (λ g. ∣ inr (dbc, conn, p, d, c, f, t, inl g, e ∙ spelled dbc conn i q) ∣₁)
        (λ r.
          Or.elim ∥∥₁_prop (mem-cons.0 r)
            (λ g. ∣ inr (dbc, conn, p, d, c, f, t, inr g, e ∙ spelled dbc conn i q) ∣₁)
            (λ z. absurd (not-mem-nil z)))
    where
      spelled :
          (dbc : Container) (conn : Connection)
          → dbc.ip ≡ ip
          → conn.min_port ≡ port
          → nat_rule ip port p ≡ nat_rule dbc.ip conn.min_port p
      spelled dbc conn i q = λ j. nat_rule (sym i j) (sym q j) p

  translation_there :
      (s : String) → Translation s → Mem s (target_nat_strings containers connections)
  unfolding target_nat_strings nat_rule
  translation_there s (dbc, conn, p, d, c, f, t, o, e) =
      let known : Mem p protocols = elim o [
        | inl g ↦ subst (λ x. Mem x protocols) (sym g) mem-cons_self
        | inr g ↦ subst (λ x. Mem x protocols) (sym g) (mem-cons_of_mem "tcp" mem-cons_self)
      ] in
      subst (λ x. Mem x (target_nat_strings containers connections)) (sym e)
        (mem-append_right base (
          web_rules-there dbc.ip p conn.min_port (ports_from_web containers connections) known (
            (ports_from_web-Admitted containers connections dbc.ip conn.min_port).1
              ∣ (dbc, conn, d, c, f, t, refl, refl) ∣₁)))

  -- `generateTargetNatRules` makes, before it parses them, these rules and no others: the four default
  -- policies, the masquerading of what leaves, and, for each of the protocols tcp and udp, a
  -- translation of a port of the host to the same port of a container, exactly if the public internet
  -- connects to a label of the container by a connection with that port as its first.
  pub target_nat_strings-Wanted :
      (s : String) → Mem s (target_nat_strings containers connections) ↔ Wanted s
  unfolding target_nat_strings
  target_nat_strings-Wanted s = (
    λ m.
        let at : Mem s (base ++ web_rules (ports_from_web containers connections)) = m in
        Or.elim ∥∥₁_prop (mem-append.0 at) (λ b. ∣ inl b ∣₁)
          (web_rules-only s Wanted ∥∥₁_prop (ports_from_web containers connections)
            (λ ip ports port p k h q.
              ∥∥₁_elim
                (list_at-entry ip ports (ports_from_web containers connections)
                  (ports_from_web-Nodup containers connections) k)
                ∥∥₁_prop
                λ e.
                  translated (nat_rule ip port p) ip p port
                    ((ports_from_web-Admitted containers connections ip port).0
                      (subst (λ x. Mem port x) (sym e) h))
                    q refl)),
    λ h. ∥∥₁_elim h Mem-prop λ o. elim o [
      | inl b ↦ mem-append_left (web_rules (ports_from_web containers connections)) b
      | inr t ↦ translation_there s t
    ],
  )
