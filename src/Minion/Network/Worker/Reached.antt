-- ===== src/Minion/Network/Worker/Reached.antt =====
-- Which labels the loops of `updateEtcHosts` and `generateEtcHosts` (minion/network/worker.go) add
-- for a container.
use mathlib.Core.List.{mem-cons, mem-cons_self, mem-cons_of_mem, not-mem-nil, Mem-prop}
use mathlib.Core.Logic.Or
use di.Prelude.{
  Bool, String, false, ◌||◌, ◌≡◌, ◌≢◌, subst, inl, inr, List, [], ◌∷◌, ◌<>◌, Mem, str_eq, eq_iff,
  Bool-cases, if◌then◌else◌, arith,
}
use di.Db.Rows.{Connection}
use di.Dsl.Func.Labels.{public_label}
use di.Minion.Network.Worker.{add_key, list_at}
use di.Minion.Network.Worker.Keyed.{add_key-mem, add_key-grows, add_key-only}
use di.Minion.Network.Worker.Updates.{ip_of}
use di.Minion.Network.Worker.Hosts.{
  Conns, Entry, Entry-discrete, is_internet, add_reached, add_labels,
}

module _ (label_ip : List (String × String)) where
  abbrev pub entry : String → Entry
  entry to = (ip_of to label_ip, to <> ".di")

  abbrev pub hidden : String → Bool
  hidden to = str_eq to public_label || str_eq (ip_of to label_ip) ""

  pub has_address : (to : String) → hidden to ≡ false → ip_of to label_ip ≢ ""
  has_address to n = ground (arith, eq_iff (ip_of to label_ip) "")

  pub shown :
      (conn : Connection)
      → is_internet conn ≡ false
      → ip_of conn.to label_ip ≢ ""
      → hidden conn.to ≡ false
  unfolding is_internet
  shown conn n a = ground (arith, eq_iff (ip_of conn.to label_ip) "")

  -- A statement of all the entries.
  module _ (Q : Entry → Type 0) (prop : (e : Entry) → IsProp (Q e)) where
    add_reached-only :
        (tos : List String) (hosts : List Entry)
        → ((to : String) → Mem to tos → hidden to ≡ false → Q (entry to))
        → ((e : Entry) → Mem e hosts → Q e)
        → (e : Entry) → Mem e (add_reached label_ip tos hosts)
        → Q e
    unfolding add_reached
    add_reached-only [] hosts f h = h
    add_reached-only (to ∷ tos) hosts f h =
        add_reached-only tos _ (λ t k. f t (mem-cons_of_mem to k))
          (elim (Bool-cases (hidden to)) [
            | inl e ↦ rw e h
            | inr n ↦
                rw n (add_key-only Entry-discrete (entry to) hosts Q prop h (f to mem-cons_self n))
          ])

    pub add_labels-only :
        (conns : Conns) (labels : List String) (hosts : List Entry)
        → ((l to : String)
            → Mem l labels
            → Mem to (list_at l conns)
            → hidden to ≡ false
            → Q (entry to))
        → ((e : Entry) → Mem e hosts → Q e)
        → (e : Entry) → Mem e (add_labels label_ip conns labels hosts)
        → Q e
    unfolding add_labels
    add_labels-only conns [] hosts f h = h
    add_labels-only conns (l ∷ labels) hosts f h =
        add_labels-only conns labels _ (λ k to i. f k to (mem-cons_of_mem l i))
          (add_reached-only (list_at l conns) hosts (λ to. f l to mem-cons_self) h)

  add_reached-grows :
      (tos : List String) (hosts : List Entry) (e : Entry)
      → Mem e hosts
      → Mem e (add_reached label_ip tos hosts)
  unfolding add_reached
  add_reached-grows [] hosts e h = h
  add_reached-grows (to ∷ tos) hosts e h =
      add_reached-grows tos _ e (elim (Bool-cases (hidden to)) [
        | inl y ↦ rw y h
        | inr n ↦ rw n (add_key-grows Entry-discrete (entry to) hosts e h)
      ])

  add_reached-there :
      (to : String) (tos : List String) (hosts : List Entry)
      → Mem to tos
      → hidden to ≡ false
      → Mem (entry to) (add_reached label_ip tos hosts)
  unfolding add_reached
  add_reached-there to [] hosts k n = absurd (not-mem-nil k)
  add_reached-there to (t ∷ tos) hosts k n =
      Or.elim Mem-prop (mem-cons.0 k)
        (λ e. add_reached-grows tos _ (entry to) (
          subst
            (λ x.
              Mem (entry to) (if hidden x then hosts else add_key Entry-discrete (entry x) hosts))
            e (rw n (add_key-mem Entry-discrete (entry to) hosts))))
        (λ r. add_reached-there to tos _ r n)

  module _ (conns : Conns) where
    pub add_labels-grows :
        (labels : List String) (hosts : List Entry) (e : Entry)
        → Mem e hosts
        → Mem e (add_labels label_ip conns labels hosts)
    unfolding add_labels
    add_labels-grows [] hosts e h = h
    add_labels-grows (l ∷ labels) hosts e h =
        add_labels-grows labels _ e (add_reached-grows (list_at l conns) hosts e h)

    pub add_labels-there :
        (l to : String) (labels : List String) (hosts : List Entry)
        → Mem l labels
        → Mem to (list_at l conns)
        → hidden to ≡ false
        → Mem (entry to) (add_labels label_ip conns labels hosts)
    unfolding add_labels
    add_labels-there l to [] hosts k i n = absurd (not-mem-nil k)
    add_labels-there l to (j ∷ labels) hosts k i n =
        Or.elim Mem-prop (mem-cons.0 k)
          (λ e. add_labels-grows labels _ (entry to) (
            add_reached-there to (list_at j conns) hosts (subst (λ x. Mem to (list_at x conns)) e i)
              n))
          (λ r. add_labels-there l to labels _ r i n)
