-- ===== src/Minion/Network/Worker/EtcHosts.antt =====
-- The file `/etc/hosts` of a container, as `generateEtcHosts` of minion/network/worker.go writes it.
use mathlib.Core.List.{not-mem-nil, Mem-prop, mem-map}
use mathlib.Core.Logic.{∥∥₁_elim, ∥∥₁_prop}
use mathlib.Core.List.Perm
use Prim.Native.String.{len, slice, count}
use di.Prelude.{
  ltb, not, ◌&&◌, true, ◌-◌, sort_strings, sort_strings-perm, map, String, false, ◌≡◌, ◌≢◌, ◌↔◌,
  ◌⊎◌, refl, sym, ap, subst, inl, inr, List, [], ◌∷◌, ◌<>◌, Mem, str_eq, eq_iff, Bool-cases,
  if◌then◌else◌, arith,
}
use di.Db.Rows.{Container, Connection}
use di.Minion.Network.Worker.{list_at}
use di.Minion.Network.Worker.Keyed.{add_key-mem, add_key-grows, add_key-only}
use di.Minion.Network.Worker.Updates.{ip_of}
use di.Minion.Network.Worker.Hosts.{
  Conns, Entry, Entry-discrete, is_internet, label_conns, localhosts, own_entry, add_labels,
  new_hosts, short_uuid, spaces, host_line, lines, generate_etc_hosts,
}
use di.Minion.Network.Worker.Reached.{
  entry, hidden, has_address, shown, add_labels-only, add_labels-grows, add_labels-there,
}
use di.Minion.Network.Worker.Connected.{label_conns-Every, label_conns-there}

-- The entries of every container.
abbrev fixed : List Entry
fixed =
    ("127.0.0.1", "localhost")
    ∷ ("::1", "localhost ip6-localhost ip6-loopback")
    ∷ ("fe00::0", "ip6-localnet")
    ∷ ("ff00::0", "ip6-mcastprefix")
    ∷ ("ff02::1", "ip6-allnodes")
    ∷ ("ff02::2", "ip6-allrouters")
    ∷ []

internet :
    (conn : Connection) → conn.from ≢ "public" → conn.to ≢ "public" → is_internet conn ≡ false
unfolding is_internet
internet conn f t = ground (arith, eq_iff conn.from "public", eq_iff conn.to "public")

not_from : (conn : Connection) → is_internet conn ≡ false → conn.from ≢ "public"
unfolding is_internet
not_from conn n e = ground (arith, eq_iff conn.from "public")

not_to : (conn : Connection) → is_internet conn ≡ false → conn.to ≢ "public"
unfolding is_internet
not_to conn n e = ground (arith, eq_iff conn.to "public")

-- The lines, each followed by a newline.
abbrev pub text_of : List String → String
text_of [] = ""
text_of (l ∷ ls) = l <> "\n" <> text_of ls

lines-text_of : (ls : List String) → lines ls ≡ text_of ls
unfolding lines
lines-text_of [] = refl
lines-text_of (l ∷ ls) = ap (λ t. l <> "\n" <> t) (lines-text_of ls)

module _ (dbc : Container) (label_ip : List (String × String)) (connections : List Connection) where
  -- The entry of a container itself, if it has an address and a scheduler id: of a long id the first
  -- twelve characters.
  abbrev Own : Entry → Type 0
  Own e =
      (dbc.ip ≢ "")
      × (dbc.sched_id ≢ "")
      × (e
          ≡ (dbc.ip, (if ltb (len dbc.sched_id) 12 then dbc.sched_id else slice dbc.sched_id 0 12)))

  -- An entry for a connection that begins at a label of the container and ends at a label that has an
  -- address; neither label is the public internet.
  abbrev Connected : Entry → Type 0
  Connected e =
      (conn : Connection) × Mem conn connections
      × Mem conn.from dbc.labels
      × (conn.from ≢ "public")
      × (conn.to ≢ "public")
      × (ip_of conn.to label_ip ≢ "")
      × (e ≡ (ip_of conn.to label_ip, conn.to <> ".di"))

  abbrev pub Named : Entry → Type 0
  Named e = ∥ Mem e fixed ⊎ (Own e ⊎ Connected e) ∥₁

  -- Some connection between labels goes from the one to the other.
  abbrev Reach : String → String → Type 0
  Reach l to = ∥ (
      (conn : Connection) × Mem conn connections
      × (is_internet conn ≡ false)
      × (conn.from ≡ l)
      × (conn.to ≡ to)) ∥₁

  abbrev conns : Conns
  conns = label_conns connections []

  reached : (l to : String) → Mem to (list_at l conns) → Reach l to
  unfolding list_at
  reached =
      label_conns-Every Reach (λ l to. ∥∥₁_prop) connections []
        (λ conn k n. ∣ (conn, k, n, refl, refl) ∣₁) (λ l to k. absurd (not-mem-nil k))

  own_only : (e : Entry) → Mem e (own_entry dbc localhosts) → Named e
  unfolding own_entry short_uuid
  own_only e = elim (Bool-cases (not (str_eq dbc.ip "") && not (str_eq dbc.sched_id ""))) [
    | inr n ↦ rw n (λ k. ∣ inl k ∣₁)
    | inl y ↦ rw y (
        add_key-only Entry-discrete _ localhosts Named (λ x. ∥∥₁_prop) (λ x k. ∣ inl k ∣₁)
          ∣ inr (
            inl (
              (λ f. ground (arith, y, eq_iff dbc.ip "")),
              (λ f. ground (arith, y, eq_iff dbc.sched_id "")),
              refl,
            )) ∣₁
          e)
  ]

  own_there : (e : Entry) → Own e → Mem e (own_entry dbc localhosts)
  unfolding own_entry short_uuid
  own_there e (a, i, f) =
      let y : (not (str_eq dbc.ip "") && not (str_eq dbc.sched_id "")) ≡ true =
        ground (arith, eq_iff dbc.ip "", eq_iff dbc.sched_id "") in
      subst (λ x. Mem x (own_entry dbc localhosts)) (sym f)
        (rw y (add_key-mem Entry-discrete _ localhosts))

  fixed_there : (e : Entry) → Mem e fixed → Mem e (own_entry dbc localhosts)
  unfolding own_entry
  fixed_there e k = elim (Bool-cases (not (str_eq dbc.ip "") && not (str_eq dbc.sched_id ""))) [
    | inr n ↦ rw n k
    | inl y ↦ rw y (add_key-grows Entry-discrete _ localhosts e k)
  ]

  named :
      (l to : String)
      → Mem l dbc.labels
      → Mem to (list_at l conns)
      → hidden label_ip to ≡ false
      → Named (entry label_ip to)
  named l to k i n = ∥∥₁_elim (reached l to i) ∥∥₁_prop λ (conn, c, j, f, t).
      ∣ inr (
        inr (
          conn,
          c,
          subst (λ x. Mem x dbc.labels) (sym f) k,
          not_from conn j,
          not_to conn j,
          subst (λ x. ip_of x label_ip ≢ "") (sym t) (has_address label_ip to n),
          ap (entry label_ip) (sym t),
        )) ∣₁

  own_added : (e : Entry) → Mem e (own_entry dbc localhosts) → Mem e (new_hosts dbc label_ip conns)
  unfolding new_hosts
  own_added e k = add_labels-grows label_ip conns dbc.labels (own_entry dbc localhosts) e k

  connected_there : (e : Entry) → Connected e → Mem e (new_hosts dbc label_ip conns)
  unfolding new_hosts
  connected_there e (conn, c, k, p, q, a, f) =
      let n = internet conn p q in
      subst (λ x. Mem x (add_labels label_ip conns dbc.labels (own_entry dbc localhosts))) (sym f)
        (add_labels-there label_ip conns conn.from conn.to dbc.labels (own_entry dbc localhosts) k
          (label_conns-there conn connections [] c n) (shown label_ip conn n a))

  new_hosts-Named : (e : Entry) → Mem e (new_hosts dbc label_ip conns) ↔ Named e
  unfolding new_hosts
  new_hosts-Named e = (
    add_labels-only label_ip Named (λ x. ∥∥₁_prop) conns dbc.labels (own_entry dbc localhosts) named
        own_only e,
    λ h. ∥∥₁_elim h Mem-prop λ o. elim o [
      | inl k ↦ own_added e (fixed_there e k)
      | inr (inl k) ↦ own_added e (own_there e k)
      | inr (inr c) ↦ connected_there e c
    ],
  )

  -- The `/etc/hosts` that is written for a container is a text of lines, each followed by a newline. A
  -- line is the address of a named entry, padded to fifteen columns, a space and the name, and each
  -- named entry has its line. Named are the six entries for the host itself; the container, if it has
  -- an address and a scheduler id; and each label at which a connection from a label of the container
  -- ends, if it has an address and neither of the labels is the public internet.
  pub generate_etc_hosts-Named :
      (ls : List String) × (generate_etc_hosts dbc label_ip conns ≡ text_of ls)
      × ((l : String)
          → Mem l ls
            ↔ ∥ ((e : Entry) × Named e × (e.0 <> spaces (15 - count e.0) <> " " <> e.1 ≡ l)) ∥₁)
  unfolding generate_etc_hosts host_line
  generate_etc_hosts-Named =
      let hosts = new_hosts dbc label_ip conns in
      let sorted = sort_strings-perm (map host_line hosts) in
      (
        sort_strings (map host_line hosts),
        lines-text_of (sort_strings (map host_line hosts)),
        λ l. (
          (λ m.
              ∥∥₁_elim (mem-map.0 ((Perm.mem_iff sorted).0 m)) ∥∥₁_prop
                λ (e, k, f). ∣ (e, (new_hosts-Named e).0 k, f) ∣₁),
          (λ h.
              (Perm.mem_iff sorted).1 (
                mem-map.1 (∥∥₁_elim h ∥∥₁_prop λ (e, k, f). ∣ (e, (new_hosts-Named e).1 k, f) ∣₁))),
        ),
      )
