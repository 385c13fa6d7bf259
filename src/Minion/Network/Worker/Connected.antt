-- ===== src/Minion/Network/Worker/Connected.antt =====
-- Which connections the loop of `updateEtcHosts` (minion/network/worker.go) keeps for each label.
use mathlib.Core.List.{
  mem-append, mem-append_left, mem-append_right, mem-cons, mem-cons_self, mem-cons_of_mem,
  not-mem-nil, Mem-prop,
}
use mathlib.Core.Logic.Or
use di.Prelude.{
  put, String, false, ◌≡◌, sym, subst, inl, inr, List, [], ◌∷◌, ◌++◌, Mem, str_eq, eq_iff,
  Bool-cases, if◌then◌else◌,
}
use di.Db.Rows.{Connection}
use di.Minion.Network.Worker.{list_at}
use di.Minion.Network.Worker.Keyed.{list_at-put, list_at-put_other}
use di.Minion.Network.Worker.Hosts.{Conns, is_internet, label_conns}

abbrev add_conn : Connection → Conns → Conns
add_conn conn m = put conn.from (list_at conn.from m ++ conn.to ∷ []) m

add_conn-grows :
    (conn : Connection) (m : Conns) (q to : String)
    → Mem to (list_at q m)
    → Mem to (list_at q (add_conn conn m))
add_conn-grows conn m q to h = elim (Bool-cases (str_eq conn.from q)) [
  | inr n ↦ rw (list_at-put_other q conn.from (list_at conn.from m ++ conn.to ∷ []) m n) h
  | inl e ↦
      subst (λ x. Mem to (list_at x m) → Mem to (list_at x (add_conn conn m)))
        ((eq_iff conn.from q).0 e)
        (λ k.
          rw (list_at-put conn.from (list_at conn.from m ++ conn.to ∷ []) m)
            (mem-append_left (conn.to ∷ []) k))
        h
]

-- A statement of all that a map of connections holds.
module _ (P : String → String → Type 0) (prop : (l to : String) → IsProp (P l to)) where
  abbrev pub Every : Conns → Type 0
  Every m = (l to : String) → Mem to (list_at l m) → P l to

  add_conn-Every :
      (conn : Connection) (m : Conns) → P conn.from conn.to → Every m → Every (add_conn conn m)
  add_conn-Every conn m p h l to = elim (Bool-cases (str_eq conn.from l)) [
    | inr n ↦ rw (list_at-put_other l conn.from (list_at conn.from m ++ conn.to ∷ []) m n) (h l to)
    | inl e ↦
        subst (λ x. Mem to (list_at x (add_conn conn m)) → P x to) ((eq_iff conn.from l).0 e)
          (rw (list_at-put conn.from (list_at conn.from m ++ conn.to ∷ []) m) λ k.
            Or.elim (prop conn.from to) (mem-append.0 k) (h conn.from to) (λ o.
              Or.elim (prop conn.from to) (mem-cons.0 o) (λ f. subst (P conn.from) (sym f) p)
                (λ z. absurd (not-mem-nil z))))
  ]

  pub label_conns-Every :
      (connections : List Connection) (m : Conns)
      → ((conn : Connection)
          → Mem conn connections
          → is_internet conn ≡ false
          → P conn.from conn.to)
      → Every m
      → Every (label_conns connections m)
  unfolding label_conns
  label_conns-Every [] m f h = h
  label_conns-Every (conn ∷ connections) m f h =
      label_conns-Every connections _ (λ c k. f c (mem-cons_of_mem conn k))
        (elim (Bool-cases (is_internet conn)) [
          | inl e ↦ rw e h
          | inr n ↦ rw n (add_conn-Every conn m (f conn mem-cons_self n) h)
        ])

label_conns-grows :
    (connections : List Connection) (m : Conns) (q to : String)
    → Mem to (list_at q m)
    → Mem to (list_at q (label_conns connections m))
unfolding label_conns
label_conns-grows [] m q to h = h
label_conns-grows (conn ∷ connections) m q to h =
    label_conns-grows connections _ q to (elim (Bool-cases (is_internet conn)) [
      | inl e ↦ rw e h
      | inr n ↦ rw n (add_conn-grows conn m q to h)
    ])

pub label_conns-there :
    (conn : Connection) (connections : List Connection) (m : Conns)
    → Mem conn connections
    → is_internet conn ≡ false
    → Mem conn.to (list_at conn.from (label_conns connections m))
unfolding label_conns
label_conns-there conn [] m k n = absurd (not-mem-nil k)
label_conns-there conn (c ∷ connections) m k n =
    Or.elim Mem-prop (mem-cons.0 k)
      (λ e. label_conns-grows connections _ conn.from conn.to (
        subst (λ x. Mem conn.to (list_at conn.from (if is_internet x then m else add_conn x m))) e
          (rw (n, list_at-put conn.from (list_at conn.from m ++ conn.to ∷ []) m)
            (mem-append_right (list_at conn.from m) mem-cons_self))))
      (λ r. label_conns-there conn connections _ r n)
