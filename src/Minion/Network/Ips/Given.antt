-- ===== src/Minion/Network/Ips/Given.antt =====
-- `syncIPs` of minion/network/store.go over a whole directory.
use mathlib.Core.List.{mem-cons, mem-cons_self, mem-cons_of_mem, Nodup-cons, Nodup-nil, Mem-prop}
use mathlib.Core.Logic.Or
use di.Prelude.{
  refl, none, some, ◌-◌, if◌then◌else◌, keys, ℕ, ◌%◌, ◌≤◌, String, ◌≡◌, Option, List, [], ◌∷◌, Mem,
  Nodup, ◌==◌, subst, sym, inl, inr, Bool-cases,
}
use di.Minion.Network.Store.{Directory, Store, child}
use di.Minion.Network.Ips.{gateway_ip, parse_ip, scan_ips, assign_ips, sync_ips}
use di.Minion.Network.Ips.Fresh.{Assigned, assign_ips-Assigned}

module _ (parse4 : String → Option ℕ) (prefix : ℕ) where
  -- The address of the prefix that a text stands for, and 0 where it stands for none.
  abbrev pub address : String → ℕ
  address text = elim (parse4 text) [
    | none ↦ 0
    | some ip ↦ if ip - ip % 65536 == prefix then ip else 0
  ]

  -- The addresses of the prefix that the directory has, and the keys without one.
  abbrev pub in_use : Directory → List ℕ
  in_use [] = []
  in_use ((k, m) ∷ dir) =
      let rest = in_use dir in
      if address (child "IP" m) == 0 then rest else address (child "IP" m) ∷ rest

  abbrev pub unassigned : Directory → List String
  unassigned [] = []
  unassigned ((k, m) ∷ dir) =
      let rest = unassigned dir in if address (child "IP" m) == 0 then k ∷ rest else rest

  scanned : (dir : Directory) → scan_ips parse4 prefix dir ≡ (in_use dir, unassigned dir)
  unfolding scan_ips parse_ip
  scanned [] = refl
  scanned ((k, m) ∷ dir) = elim (Bool-cases (address (child "IP" m) == 0)) [
    | inl e ↦ rw (e, scan_ips) (rw (scanned dir) refl)
    | inr e ↦ rw (e, scan_ips) (rw (scanned dir) refl)
  ]

  unassigned-keys : (dir : Directory) (k : String) → Mem k (unassigned dir) → Mem k (keys dir)
  unfolding keys
  unassigned-keys [] k m = m
  unassigned-keys ((j, c) ∷ dir) k m = elim (Bool-cases (address (child "IP" c) == 0)) [
    | inl e ↦
        Or.elim Mem-prop (mem-cons.0 (rw (e, unassigned) at m))
          (λ f. subst (λ x. Mem x (j ∷ keys dir)) (sym f) mem-cons_self)
          (λ n. mem-cons_of_mem j (unassigned-keys dir k n))
    | inr e ↦ mem-cons_of_mem j (unassigned-keys dir k (rw (e, unassigned) at m))
  ]

  unassigned-Nodup : (dir : Directory) → Nodup (keys dir) → Nodup (unassigned dir)
  unfolding keys
  unassigned-Nodup [] u = Nodup-nil
  unassigned-Nodup ((j, c) ∷ dir) u = elim (Bool-cases (address (child "IP" c) == 0)) [
    | inl e ↦
        rw (e, unassigned)
          (Nodup-cons.1 (
            λ m. (Nodup-cons.0 u).0 (unassigned-keys dir j m),
            unassigned-Nodup dir (Nodup-cons.0 u).1,
          ))
    | inr e ↦ rw (e, unassigned) (unassigned-Nodup dir (Nodup-cons.0 u).1)
  ]

  -- `syncIPs` for a /16 prefix other than 0, on a directory with distinct keys: every address that it
  -- gives out is in the prefix, is neither the gateway's nor one that the directory already has, and is
  -- given out once; it goes to an entry that had none and stands there afterwards, as printed. An entry
  -- that had none is given one, unless the store refuses to set an address for it, when it stays as it
  -- was, or 256 numbers drawn in a row all give addresses that are taken, when it ends up without one.
  -- The other entries stay as they were.
  pub sync_ips-Assigned :
      {W : Type 0} (rand32 : W → W × ℕ) (show4 : ℕ → String) (store : Store W) (path : String)
      (dir : Directory) (w : W)
      → prefix % 65536 ≡ 0
      → 1 ≤ prefix
      → Nodup (keys dir)
      → Assigned rand32 show4 store path prefix
          (unassigned dir)
          (address "10.0.0.1" ∷ in_use dir)
          dir
          (sync_ips rand32 parse4 show4 store dir path prefix w).0
  unfolding sync_ips gateway_ip parse_ip
  sync_ips-Assigned rand32 show4 store path dir w whole some_net u =
      subst
        (λ (x : List ℕ × List String).
          Assigned rand32 show4 store path prefix (unassigned dir) (address "10.0.0.1" ∷ in_use dir)
            dir
            (assign_ips rand32 parse4 show4 store path prefix x.1 (address "10.0.0.1" ∷ x.0) dir
              w).0)
        (sym (scanned dir))
        (assign_ips-Assigned rand32 parse4 show4 store path prefix whole some_net (unassigned dir)
          (address "10.0.0.1" ∷ in_use dir) dir w (unassigned-Nodup dir u))
