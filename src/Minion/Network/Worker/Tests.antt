-- ===== src/Minion/Network/Worker/Tests.antt =====
-- The worker of minion/network/worker.go at concrete containers, and a host on which a device has the
-- address that the last command about it left.
use text.Mathlib.TextLemmas.{append_cancel_left, append_cancel_right}
use text.Mathlib.TextPositions.{slice-append_left}
use Prim.Native.String.{slice, count}
use mathlib.Core.HLevel.{⊥_prop}
use mathlib.Core.Bool.{false≢true}
use mathlib.Core.List.{mem-cons, mem-cons_self, not-mem-nil, Nodup-cons, Nodup-nil}
use mathlib.Core.Logic.Or
use di.Prelude.{
  String, Bool, true, false, ◌≡◌, ◌≢◌, ◌↔◌, ◌⊎◌, inl, inr, refl, sym, ap, subst, ◌∙◌, Option, some,
  List, [], ◌∷◌, ◌<>◌, Mem, str_eq, eq_iff, if◌then◌else◌, Bool-cases, String-discrete, ◌-◌,
  sort_strings, ℤ, pos, ℕ, ℕ_discrete, leb,
}
use di.Join.{join}
use di.Db.Rows.{Container, Connection, ℤ-discrete}
use di.Db.{blank_container}
use di.Minion.Network.Worker.{OvsPort, decimal, di_bridge, generate_target_ports}
use di.Minion.Network.Worker.Commands.{Ran, stdout, add_ip, del_ip}
use di.Minion.Network.Worker.Updates.{update_ips}
use di.Minion.Network.Worker.Settled.{Deletes, Adds, Lists, update_ips-Settled, update_ips-twice}
use di.Minion.Network.Worker.Web.{ports_from_web, target_nat_strings}
use di.Minion.Network.Worker.NatRules.{Wanted, target_nat_strings-Wanted}
use di.Minion.Network.Worker.Hosts.{Entry, Entry-discrete, label_conns, spaces, generate_etc_hosts}
use di.Minion.Network.Worker.Flows.{rules, panics, target_flows, labels_flows}
use di.Minion.Network.Worker.Words.{addresses}
use di.Minion.Network.Worker.EtcHosts.{Named, text_of, generate_etc_hosts-Named}

abbrev log_sh : String → List String → List String × Ran
log_sh cmd w = (cmd ∷ w, stdout "")

abbrev deletion : String → String
deletion ip = "ip " <> "addr del " <> ip <> " dev " <> di_bridge

abbrev addition : String → String
addition ip = "ip " <> "addr add " <> ip <> " dev " <> di_bridge

abbrev has : String → List String → Bool
has y [] = str_eq y "10.0.0.9/8"
has y (cmd ∷ w) =
    let rest = has y w in
    if str_eq cmd (addition y) then true else if str_eq cmd (deletion y) then false else rest

abbrev Has : String → List String → Type 0
Has y w = has y w ≡ true

differ : {a b : String} → a ≢ b → str_eq a b ≡ false
differ {a} {b} n = elim (Bool-cases (str_eq a b)) [
  | inl e ↦ absurd (n ((eq_iff a b).0 e))
  | inr e ↦ e
]

clash : (ip y : String) → deletion ip ≢ addition y
clash ip y e =
    let rest =
      append_cancel_left "ip " ("addr del " <> ip <> " dev " <> di_bridge)
        ("addr add " <> y <> " dev " <> di_bridge) e in
    let same : "addr del " ≡ "addr add " =
      sym (slice-append_left "addr del " (ip <> " dev " <> di_bridge))
      ∙ ap (λ x. slice x 0 9) rest
      ∙ slice-append_left "addr add " (y <> " dev " <> di_bridge) in
    false≢true ((eq_iff "addr del " "addr add ").1 same)

same_ip :
    (verb ip y : String)
    → "ip " <> verb <> ip <> " dev " <> di_bridge ≡ "ip " <> verb <> y <> " dev " <> di_bridge
    → ip ≡ y
same_ip verb ip y e = append_cancel_right ip y (" dev " <> di_bridge) (
    append_cancel_left verb (ip <> " dev " <> di_bridge) (y <> " dev " <> di_bridge) (
      append_cancel_left "ip " (verb <> ip <> " dev " <> di_bridge)
        (verb <> y <> " dev " <> di_bridge) e))

log-Deletes : Deletes Has (λ ip. del_ip log_sh "" ip di_bridge)
unfolding del_ip
log-Deletes = (
  λ ip y w. elim (String-discrete y ip) [
    | yes e ↦
        rw (differ (clash ip y), (eq_iff (deletion ip) (deletion y)).1 (ap deletion (sym e)))
          (λ h. absurd (false≢true h))
    | no n ↦ rw (differ (clash ip y), differ (λ f. n (sym (same_ip "addr del " ip y f)))) (λ h. h)
  ],
  λ ip w ok.
      rw (differ (clash ip ip), (eq_iff (deletion ip) (deletion ip)).1 refl) (λ h. false≢true h),
)

log-Adds : Adds Has (λ ip. add_ip log_sh "" ip di_bridge)
unfolding add_ip
log-Adds ip y w = elim (String-discrete y ip) [
  | yes e ↦
      rw ((eq_iff (addition ip) (addition y)).1 (ap addition (sym e)))
        ((λ h. inr (e, refl)), (λ h. refl))
  | no n ↦
      rw (differ (λ f. n (sym (same_ip "addr add " ip y f))), differ (λ f. clash y ip (sym f)))
        (inl, (λ o. elim o [ inl h ↦ h | inr (e, _) ↦ absurd (n e) ]))
]

abbrev current : List String
current = "10.0.0.9/8" ∷ []

abbrev target : List String
target = "10.0.0.1/8" ∷ []

reads : (y : String) → Has y [] ↔ Mem y current
reads y = (
  λ h. subst (λ x. Mem x current) (sym ((eq_iff y "10.0.0.9/8").0 h)) mem-cons_self,
  λ m. elim (String-discrete y "10.0.0.9/8") [
    | yes e ↦ (eq_iff y "10.0.0.9/8").1 e
    | no n ↦ absurd (Or.elim ⊥_prop (mem-cons.0 m) n not-mem-nil)
  ],
)

lists : Lists Has current []
lists = (Nodup-cons.1 (not-mem-nil, Nodup-nil), reads)

update_ips-Settled_example :
    (Has "10.0.0.1/8" (update_ips log_sh "" di_bridge current target []).0
      → Mem "10.0.0.1/8" target)
    × (Mem "10.0.0.1/8" target
        → Mem "10.0.0.1/8" current
          ⊎ Has "10.0.0.1/8" (update_ips log_sh "" di_bridge current target []).0)
unfolding update_ips join
update_ips-Settled_example =
    update_ips-Settled log_sh Has "" di_bridge log-Adds current target [] lists log-Deletes refl
      "10.0.0.1/8"

-- What the device has after the first round.
abbrev once : List String
once = (update_ips log_sh "" di_bridge current target []).0

relists : Lists Has target once
unfolding update_ips join
relists = (
  Nodup-cons.1 (not-mem-nil, Nodup-nil),
  λ y. (
    (update_ips-Settled log_sh Has "" di_bridge log-Adds current target [] lists log-Deletes refl
        y).0,
    λ m. elim (String-discrete y "10.0.0.1/8") [
      | yes e ↦ subst (λ x. Has x once) (sym e) refl
      | no n ↦ absurd (Or.elim ⊥_prop (mem-cons.0 m) n not-mem-nil)
    ],
  ),
)

update_ips-twice_example :
    Has "10.0.0.1/8" (update_ips log_sh "" di_bridge target target once).0 ↔ Mem "10.0.0.1/8" target
unfolding update_ips join
update_ips-twice_example =
    update_ips-twice log_sh Has "" di_bridge log-Adds log-Deletes current target target [] lists
      refl relists refl "10.0.0.1/8"

abbrev web : Container
web = record (blank_container 1) {
  ip = "10.0.0.2";
  mac = "02:00:0a:00:00:02";
  sched_id = "0123456789abcdef";
  labels = "web" ∷ [];
}

abbrev connections : List Connection
connections =
    (record { id = 1; from = "public"; to = "web"; min_port = pos 80; max_port = pos 80 })
    ∷ (record { id = 2; from = "web"; to = "db"; min_port = pos 1; max_port = pos 9 })
    ∷ []

open_ports : ports_from_web (web ∷ []) connections ≡ ("10.0.0.2", pos 80 ∷ []) ∷ []
unfolding ports_from_web
open_ports = refl

nat_strings :
    target_nat_strings (web ∷ []) connections
    ≡ "-P PREROUTING ACCEPT" ∷ "-P INPUT ACCEPT" ∷ "-P OUTPUT ACCEPT" ∷ "-P POSTROUTING ACCEPT"
      ∷ "-A POSTROUTING -s 10.0.0.0/8 -o eth0 -j MASQUERADE"
      ∷ "-A PREROUTING -i eth0 -p tcp -m tcp --dport 80 -j DNAT --to-destination 10.0.0.2:80"
      ∷ "-A PREROUTING -i eth0 -p udp -m udp --dport 80 -j DNAT --to-destination 10.0.0.2:80" ∷ []
unfolding target_nat_strings
nat_strings = refl

abbrev rule : String
rule = "-A PREROUTING -i eth0 -p udp -m udp --dport 80 -j DNAT --to-destination 10.0.0.2:80"

target_nat_strings-Wanted_example :
    Mem rule (target_nat_strings (web ∷ []) connections) ↔ Wanted (web ∷ []) connections rule
target_nat_strings-Wanted_example = target_nat_strings-Wanted (web ∷ []) connections rule

abbrev addresses_of : List (String × String)
addresses_of = ("db", "10.0.0.3") ∷ []

hosts_file :
    generate_etc_hosts web addresses_of (label_conns connections [])
    ≡ "10.0.0.2        0123456789ab\n10.0.0.3        db.di\n127.0.0.1       localhost\n::1             localhost ip6-localhost ip6-loopback\nfe00::0         ip6-localnet\nff00::0         ip6-mcastprefix\nff02::1         ip6-allnodes\nff02::2         ip6-allrouters\n"
unfolding generate_etc_hosts label_conns sort_strings Entry-discrete String-discrete
hosts_file = refl

generate_etc_hosts-Named_example :
    (ls : List String) × (generate_etc_hosts web addresses_of (label_conns connections [])
      ≡ text_of ls)
    × ((l : String)
        → Mem l ls
          ↔ ∥ (
              (e : Entry) × Named web addresses_of connections e
              × (e.0 <> spaces (15 - count e.0) <> " " <> e.1 ≡ l)) ∥₁)
generate_etc_hosts-Named_example = generate_etc_hosts-Named web addresses_of connections

-- `ip addr list`, as it prints a device.
addresses_read :
    addresses
      "2: eth0: <UP> mtu 1450\n    inet 10.0.0.2/8 scope global eth0\n    inet6 fe80::1/64 scope link\n"
    ≡ "10.0.0.2/8" ∷ "fe80::1/64" ∷ []
unfolding addresses
addresses_read = refl

ports : (ps : List OvsPort) × (generate_target_ports (web ∷ []) ≡ some ps)
unfolding generate_target_ports
ports = (_, refl)

abbrev number : String → Option ℤ
number name = if str_eq name "0123456789ab_di" then some (pos 3) else some (pos 4)

abbrev ceil_log2 : ℕ → ℕ
ceil_log2 n = if leb n 1 then 0 else if leb n 2 then 1 else if leb n 4 then 2 else 3

flows :
    target_flows "02:00:0a:00:00:01" number connections ceil_log2 (web ∷ []) []
    ≡ rules (
        "table=0 priority=5000,in_port=3 actions=output:4"
        ∷ "table=2 priority=5000,in_port=4 actions=output:3"
        ∷ "table=0 priority=0,in_port=4 actions=output:3"
        ∷ "table=0 priority=5000,in_port=4,tcp,tp_src=80,dl_dst=02:00:0a:00:00:01 actions=LOCAL"
        ∷ "table=0 priority=5000,in_port=LOCAL,tcp,tp_dst=80,dl_dst=02:00:0a:00:00:02 actions=4"
        ∷ "table=0 priority=5000,in_port=4,udp,tp_src=80,dl_dst=02:00:0a:00:00:01 actions=LOCAL"
        ∷ "table=0 priority=5000,in_port=LOCAL,udp,tp_dst=80,dl_dst=02:00:0a:00:00:02 actions=4"
        ∷ "table=0 priority=5000,icmp,in_port=4,dl_dst=02:00:0a:00:00:01 actions=LOCAL"
        ∷ "table=0 priority=5000,icmp,in_port=LOCAL,dl_dst=02:00:0a:00:00:02 actions=output:4"
        ∷ "table=0 priority=4500,arp,in_port=LOCAL,dl_dst=ff:ff:ff:ff:ff:ff actions=output:4"
        ∷ "table=0 priority=4500,arp,in_port=4 actions=output:3,LOCAL"
        ∷ "table=0 priority=4500,arp,in_port=LOCAL,dl_dst=02:00:0a:00:00:02 actions=output:4" ∷ [])
unfolding target_flows decimal ℤ-discrete ℕ_discrete
flows = refl

balanced :
    labels_flows ceil_log2
      (("web", "b" ∷ "a" ∷ []) ∷ [])
      (record { id = 1; label = "web"; ip = "10.0.0.9"; multi_host = true } ∷ [])
    ≡ "table=0 priority=4000,dl_dst=0a:00:00:00:00:00,ip,nw_dst=10.0.0.9 actions=multipath(symmetric_l3l4,0,modulo_n,2,0,NXM_NX_REG0[0..1]),resubmit(,1)"
      ∷ "table=1 priority=5000,ip,nw_dst=10.0.0.9,reg0=0 actions=mod_dl_dst:a,resubmit(,2)"
      ∷ "table=1 priority=5000,ip,nw_dst=10.0.0.9,reg0=0x1 actions=mod_dl_dst:b,resubmit(,2)" ∷ []
unfolding labels_flows sort_strings decimal
balanced = refl

short_id : target_flows "" number [] ceil_log2 (blank_container 1 ∷ []) [] ≡ panics
unfolding target_flows
short_id = refl
