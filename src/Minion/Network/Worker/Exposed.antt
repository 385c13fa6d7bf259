-- ===== src/Minion/Network/Worker/Exposed.antt =====
-- Which ports the loops of `generateTargetNatRules` (minion/network/worker.go) find.
use mathlib.Core.Bool.{false≢true}
use mathlib.Core.List.{mem-cons, mem-cons_self, mem-cons_of_mem, not-mem-nil, Mem-prop}
use mathlib.Core.Logic.{∥∥₁_elim, ∥∥₁_prop}
use mathlib.Core.Logic.Or
use di.Prelude.{
  String, false, ◌≡◌, ◌↔◌, refl, sym, ◌∙◌, subst, inl, inr, List, [], ◌∷◌, Mem, str_eq, eq_iff,
  Bool-cases, if◌then◌else◌, ℤ,
}
use di.Db.Rows.{Container, Connection, ℤ-discrete}
use di.Dsl.Func.Labels.{public_label}
use di.Minion.Network.Worker.{add_key, list_at}
use di.Minion.Network.Worker.Keyed.{
  add_key-mem, add_key-grows, add_key-only, list_at-put, list_at-put_other,
}
use di.Minion.Network.Worker.Web.{
  Ports, open_port, open_labels, open_connections, open_containers, ports_from_web,
}

-- One write into the map.
module _ (ip : String) (port : ℤ) (m : Ports) where
  open_port-here : list_at ip (open_port ip port m) ≡ add_key ℤ-discrete port (list_at ip m)
  unfolding open_port
  open_port-here = list_at-put ip (add_key ℤ-discrete port (list_at ip m)) m

  open_port-there :
      (q : String) → str_eq ip q ≡ false → list_at q (open_port ip port m) ≡ list_at q m
  unfolding open_port
  open_port-there q n = list_at-put_other q ip (add_key ℤ-discrete port (list_at ip m)) m n

  open_port-grows :
      (q : String) (p : ℤ) → Mem p (list_at q m) → Mem p (list_at q (open_port ip port m))
  open_port-grows q p h = elim (Bool-cases (str_eq ip q)) [
    | inr n ↦ rw (open_port-there q n) h
    | inl e ↦
        subst (λ x. Mem p (list_at x m) → Mem p (list_at x (open_port ip port m)))
          ((eq_iff ip q).0 e)
          (λ k. rw open_port-here (add_key-grows ℤ-discrete port (list_at ip m) p k)) h
  ]

-- A statement of all the ports that a map holds.
module _ (P : String → ℤ → Type 0) (prop : (ip : String) (port : ℤ) → IsProp (P ip port)) where
  abbrev Every : Ports → Type 0
  Every m = (ip : String) (port : ℤ) → Mem port (list_at ip m) → P ip port

  open_port-Every :
      (ip : String) (port : ℤ) (m : Ports) → P ip port → Every m → Every (open_port ip port m)
  open_port-Every ip port m p h q k = elim (Bool-cases (str_eq ip q)) [
    | inr n ↦ rw (open_port-there ip port m q n) (h q k)
    | inl e ↦
        subst (λ x. Mem k (list_at x (open_port ip port m)) → P x k) ((eq_iff ip q).0 e)
          (rw (open_port-here ip port m)
            (add_key-only ℤ-discrete port (list_at ip m) (P ip) (prop ip) (h ip) p k))
  ]

  open_labels-Every :
      (ip : String) (conn : Connection) (labels : List String) (m : Ports)
      → (Mem conn.to labels → P ip conn.min_port)
      → Every m
      → Every (open_labels ip conn labels m)
  unfolding open_labels
  open_labels-Every ip conn [] m f h = h
  open_labels-Every ip conn (l ∷ labels) m f h =
      open_labels-Every ip conn labels _ (λ k. f (mem-cons_of_mem l k))
        (elim (Bool-cases (str_eq conn.to l)) [
          | inr n ↦ rw n h
          | inl e ↦ rw e (
              open_port-Every ip conn.min_port m
                (f (subst (λ x. Mem x (l ∷ labels)) (sym ((eq_iff conn.to l).0 e)) mem-cons_self))
                h)
        ])

  open_connections-Every :
      (dbc : Container) (connections : List Connection) (m : Ports)
      → ((conn : Connection)
          → Mem conn connections
          → conn.from ≡ public_label
          → Mem conn.to dbc.labels
          → P dbc.ip conn.min_port)
      → Every m
      → Every (open_connections dbc connections m)
  unfolding open_connections
  open_connections-Every dbc [] m f h = h
  open_connections-Every dbc (conn ∷ connections) m f h =
      open_connections-Every dbc connections _ (λ c k. f c (mem-cons_of_mem conn k))
        (elim (Bool-cases (str_eq conn.from public_label)) [
          | inr n ↦ rw n h
          | inl e ↦ rw e (
              open_labels-Every dbc.ip conn dbc.labels m
                (f conn mem-cons_self ((eq_iff conn.from public_label).0 e)) h)
        ])

  open_containers-Every :
      (connections : List Connection) (containers : List Container) (m : Ports)
      → ((dbc : Container) (conn : Connection)
          → Mem dbc containers
          → Mem conn connections
          → conn.from ≡ public_label
          → Mem conn.to dbc.labels
          → P dbc.ip conn.min_port)
      → Every m
      → Every (open_containers connections containers m)
  unfolding open_containers
  open_containers-Every connections [] m f h = h
  open_containers-Every connections (dbc ∷ containers) m f h =
      open_containers-Every connections containers _ (λ c d k. f c d (mem-cons_of_mem dbc k))
        (open_connections-Every dbc connections m (λ d. f dbc d mem-cons_self) h)

-- The loops only add ports.
module _ (q : String) (p : ℤ) where
  abbrev Open : Ports → Type 0
  Open m = Mem p (list_at q m)

  open_labels-grows :
      (ip : String) (conn : Connection) (labels : List String) (m : Ports)
      → Open m
      → Open (open_labels ip conn labels m)
  unfolding open_labels
  open_labels-grows ip conn [] m h = h
  open_labels-grows ip conn (l ∷ labels) m h =
      open_labels-grows ip conn labels _ (elim (Bool-cases (str_eq conn.to l)) [
        | inr n ↦ rw n h
        | inl e ↦ rw e (open_port-grows ip conn.min_port m q p h)
      ])

  open_connections-grows :
      (dbc : Container) (connections : List Connection) (m : Ports)
      → Open m
      → Open (open_connections dbc connections m)
  unfolding open_connections
  open_connections-grows dbc [] m h = h
  open_connections-grows dbc (conn ∷ connections) m h =
      open_connections-grows dbc connections _ (elim (Bool-cases (str_eq conn.from public_label)) [
        | inr n ↦ rw n h
        | inl e ↦ rw e (open_labels-grows dbc.ip conn dbc.labels m h)
      ])

  open_containers-grows :
      (connections : List Connection) (containers : List Container) (m : Ports)
      → Open m
      → Open (open_containers connections containers m)
  unfolding open_containers
  open_containers-grows connections [] m h = h
  open_containers-grows connections (dbc ∷ containers) m h =
      open_containers-grows connections containers _ (open_connections-grows dbc connections m h)

open_labels-opens :
    (ip : String) (conn : Connection) (labels : List String) (m : Ports)
    → Mem conn.to labels
    → Mem conn.min_port (list_at ip (open_labels ip conn labels m))
unfolding open_labels
open_labels-opens ip conn [] m k = absurd (not-mem-nil k)
open_labels-opens ip conn (l ∷ labels) m k = elim (Bool-cases (str_eq conn.to l)) [
  | inl e ↦ rw e (
      open_labels-grows ip conn.min_port ip conn labels _ (
        rw (open_port-here ip conn.min_port m)
          (add_key-mem ℤ-discrete conn.min_port (list_at ip m))))
  | inr n ↦ rw n (
      open_labels-opens ip conn labels m (
        Or.elim Mem-prop (mem-cons.0 k) (λ e. absurd (false≢true (sym n ∙ (eq_iff conn.to l).1 e)))
          (λ r. r)))
]

open_connections-opens :
    (dbc : Container) (conn : Connection) (connections : List Connection) (m : Ports)
    → Mem conn connections
    → conn.from ≡ public_label
    → Mem conn.to dbc.labels
    → Mem conn.min_port (list_at dbc.ip (open_connections dbc connections m))
unfolding open_connections
open_connections-opens dbc conn [] m k f t = absurd (not-mem-nil k)
open_connections-opens dbc conn (c ∷ connections) m k f t =
    Or.elim Mem-prop (mem-cons.0 k)
      (λ e. open_connections-grows dbc.ip conn.min_port dbc connections _ (
        subst
          (λ x. Mem conn.min_port (
            list_at dbc.ip
              (if str_eq x.from public_label then open_labels dbc.ip x dbc.labels m else m)))
          e
          (rw ((eq_iff conn.from public_label).1 f)
            (open_labels-opens dbc.ip conn dbc.labels m t))))
      (λ r. open_connections-opens dbc conn connections _ r f t)

open_containers-opens :
    (connections : List Connection) (dbc : Container) (conn : Connection)
    (containers : List Container) (m : Ports)
    → Mem dbc containers
    → Mem conn connections
    → conn.from ≡ public_label
    → Mem conn.to dbc.labels
    → Mem conn.min_port (list_at dbc.ip (open_containers connections containers m))
unfolding open_containers
open_containers-opens connections dbc conn [] m d k f t = absurd (not-mem-nil d)
open_containers-opens connections dbc conn (c ∷ containers) m d k f t =
    Or.elim Mem-prop (mem-cons.0 d)
      (λ e. open_containers-grows dbc.ip conn.min_port connections containers _ (
        subst (λ x. Mem conn.min_port (list_at dbc.ip (open_connections x connections m))) e
          (open_connections-opens dbc conn connections m k f t)))
      (λ r. open_containers-opens connections dbc conn containers _ r k f t)

module _ (containers : List Container) (connections : List Connection) where
  -- Some container with the address is labelled with the end of a connection that begins at the public
  -- internet and whose first port is this one.
  abbrev pub Admitted : String → ℤ → Type 0
  Admitted ip port = ∥ (
      (dbc : Container) × (conn : Connection) × Mem dbc containers
      × Mem conn connections
      × (conn.from ≡ public_label)
      × Mem conn.to dbc.labels
      × (dbc.ip ≡ ip)
      × (conn.min_port ≡ port)) ∥₁

  pub ports_from_web-Admitted :
      (ip : String) (port : ℤ)
      → Mem port (list_at ip (ports_from_web containers connections)) ↔ Admitted ip port
  unfolding ports_from_web
  ports_from_web-Admitted ip port = (
    open_containers-Every Admitted (λ a b. ∥∥₁_prop) connections containers []
        (λ dbc conn d k f t. ∣ (dbc, conn, d, k, f, t, refl, refl) ∣₁)
        (λ a b k. absurd (not-mem-nil k)) ip port,
    λ h. ∥∥₁_elim h Mem-prop λ (dbc, conn, d, k, f, t, e, g).
        subst (λ x. Mem port (list_at x (open_containers connections containers []))) e
          (subst (λ x. Mem x (list_at dbc.ip (open_containers connections containers []))) g
            (open_containers-opens connections dbc conn containers [] d k f t)),
  )
