-- ===== src/Minion/Network/Worker/PortMap.antt =====
-- The map of ports that `generateTargetNatRules` (minion/network/worker.go) builds: an address is in
-- it once.
use mathlib.Core.List.{
  mem-cons, mem-cons_self, mem-cons_of_mem, not-mem-nil, Mem-prop, mem-map_of_mem, Nodup-cons,
  Nodup-nil,
}
use mathlib.Core.Logic.{∥∥₁_prop}
use mathlib.Core.Logic.Or
use mathlib.Core.HLevel.{⊥_prop}
use di.Prelude.{
  find, put, keys, String, false, ◌≡◌, sym, ap, subst, inl, inr, List, [], ◌∷◌, Mem, Nodup, str_eq,
  eq_iff, Bool-cases, ℤ, arith,
}
use di.Db.Rows.{Container, Connection, ℤ-discrete}
use di.Minion.Network.Worker.{add_key, list_at}
use di.Minion.Network.Worker.Web.{
  Ports, open_port, open_labels, open_connections, open_containers, ports_from_web,
}

keys-put :
    {V : Type 0} (q k : String) (v : V) (m : List (String × V))
    → Mem q (keys (put k v m))
    → Mem q (k ∷ keys m)
unfolding keys put
keys-put q k v [] h = h
keys-put q k v ((j, w) ∷ m) h = elim (Bool-cases (str_eq j k)) [
  | inl e ↦ mem-cons_of_mem k (rw (e, put) at h)
  | inr e ↦
      Or.elim Mem-prop (mem-cons.0 (rw (e, put) at h))
        (λ f. mem-cons_of_mem k (subst (λ x. Mem x (j ∷ keys m)) (sym f) mem-cons_self))
        (λ r.
          Or.elim Mem-prop (mem-cons.0 (keys-put q k v m r))
            (λ f. subst (λ x. Mem x (k ∷ j ∷ keys m)) (sym f) mem-cons_self)
            (λ o. mem-cons_of_mem k (mem-cons_of_mem j o)))
]

keys-put-Nodup :
    {V : Type 0} (k : String) (v : V) (m : List (String × V))
    → Nodup (keys m)
    → Nodup (keys (put k v m))
unfolding keys put
keys-put-Nodup k v [] u = Nodup-cons.1 (not-mem-nil, Nodup-nil)
keys-put-Nodup k v ((j, w) ∷ m) u = elim (Bool-cases (str_eq j k)) [
  | inl e ↦ rw (e, put) u
  | inr e ↦
      rw (e, put)
        (Nodup-cons.1 (
          λ h.
              Or.elim ⊥_prop (mem-cons.0 (keys-put j k v m h)) (λ f. ground (arith, eq_iff j k))
                (Nodup-cons.0 u).0,
          keys-put-Nodup k v m (Nodup-cons.0 u).1,
        ))
]

pub list_at-entry :
    {V : Type 0} (k : String) (vs : List V) (m : List (String × List V))
    → Nodup (keys m)
    → Mem (k, vs) m
    → ∥ list_at k m ≡ vs ∥₁
unfolding list_at find keys
list_at-entry k vs [] u h = absurd (not-mem-nil h)
list_at-entry k vs ((j, ws) ∷ m) u h =
    Or.elim ∥∥₁_prop (mem-cons.0 h)
      (λ e.
        let same : j ≡ k = sym (ap (λ p. p.0) e) in
        let held : ws ≡ vs = sym (ap (λ p. p.1) e) in ∣ rw ((eq_iff j k).1 same, list_at) held ∣₁)
      (λ r.
        let other : str_eq j k ≡ false = elim (Bool-cases (str_eq j k)) [
          | inr n ↦ n
          | inl e ↦ absurd (
              (Nodup-cons.0 u).0 (
                subst (λ x. Mem x (keys m)) (sym ((eq_iff j k).0 e)) (mem-map_of_mem (λ p. p.0) r)))
        ] in
        rw (other, list_at) (list_at-entry k vs m (Nodup-cons.0 u).1 r))

-- What every write into the map keeps holds of the map of `generateTargetNatRules`.
module _ (I : Ports → Type 0)
    (step : (ip : String) (port : ℤ) (m : Ports) → I m → I (open_port ip port m)) where
  open_labels-keeps :
      (ip : String) (conn : Connection) (labels : List String) (m : Ports)
      → I m
      → I (open_labels ip conn labels m)
  unfolding open_labels
  open_labels-keeps ip conn [] m h = h
  open_labels-keeps ip conn (l ∷ labels) m h =
      open_labels-keeps ip conn labels _ (elim (Bool-cases (str_eq conn.to l)) [
        | inl e ↦ rw e (step ip conn.min_port m h)
        | inr n ↦ rw n h
      ])

  open_connections-keeps :
      (dbc : Container) (connections : List Connection) (m : Ports)
      → I m
      → I (open_connections dbc connections m)
  unfolding open_connections
  open_connections-keeps dbc [] m h = h
  open_connections-keeps dbc (conn ∷ connections) m h =
      open_connections-keeps dbc connections _ (elim (Bool-cases (str_eq conn.from "public")) [
        | inl e ↦ rw e (open_labels-keeps dbc.ip conn dbc.labels m h)
        | inr n ↦ rw n h
      ])

  open_containers-keeps :
      (connections : List Connection) (containers : List Container) (m : Ports)
      → I m
      → I (open_containers connections containers m)
  unfolding open_containers
  open_containers-keeps connections [] m h = h
  open_containers-keeps connections (dbc ∷ containers) m h =
      open_containers-keeps connections containers _ (open_connections-keeps dbc connections m h)

pub ports_from_web-Nodup :
    (containers : List Container) (connections : List Connection)
    → Nodup (keys (ports_from_web containers connections))
unfolding ports_from_web open_port keys
ports_from_web-Nodup containers connections =
    open_containers-keeps (λ m. Nodup (keys m))
      (λ ip port m u. keys-put-Nodup ip (add_key ℤ-discrete port (list_at ip m)) m u) connections
      containers [] Nodup-nil
