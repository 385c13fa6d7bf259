-- ===== src/Minion/Network/Worker/Settled.antt =====
-- `updateIPs` of minion/network/worker.go and the addresses that a device should have.
use mathlib.Core.HLevel.{⊥_prop}
use mathlib.Core.Bool.{false≢true}
use mathlib.Core.List.Perm
use mathlib.Core.List.{
  mem-append_right, mem-cons, mem-cons_self, mem-cons_of_mem, not-mem-nil, Mem-prop, dec_mem,
}
use mathlib.Core.Logic.Or
use di.Prelude.{
  map, ap, String, Bool, true, ◌≡◌, ◌↔◌, ◌⊎◌, inl, inr, refl, sym, subst, List, [], ◌∷◌, Mem, Nodup,
  String-discrete, Bool-cases, arith, eq_iff, pos,
}
use di.Join.{join}
use di.Join.Partition.{join-lefts}
use di.Join.Greedy.{Negative}
use di.Join.Exact.{kept_wanted, made_wanted, wanted_kept, stays}
use di.Minion.Network.Worker.Commands.{Ran, add_ip, del_ip}
use di.Minion.Network.Worker.Updates.{ip_score, each_or_stop, update_ips}

ip_score_match : (l r : String) → ¬ Negative (ip_score l r) → l ≡ r
unfolding ip_score
ip_score_match l r h = ground (arith, eq_iff l r)

ip_score_same : (k : String) → ip_score k k ≡ pos 0
unfolding ip_score
ip_score_same k = rw ((eq_iff k k).1 refl) refl

-- A command that deletes adds no address, and when it succeeds the address that it names is gone.
-- Other addresses may be gone as well: with a primary address go the secondary ones of its network.
abbrev pub Deletes : {W : Type 0} → (String → W → Type 0) → (String → W → W × Bool) → Type 0
Deletes {W} Has delete =
    ((ip y : String) (w : W) → Has y (delete ip w).0 → Has y w)
    × ((ip : String) (w : W) → (delete ip w).1 ≡ true → ¬ Has ip (delete ip w).0)

-- A command that adds adds the address that it names, if it succeeds, and changes no other.
abbrev pub Adds : {W : Type 0} → (String → W → Type 0) → (String → W → W × Bool) → Type 0
Adds {W} Has add =
    (ip y : String) (w : W) → Has y (add ip w).0 ↔ (Has y w ⊎ ((y ≡ ip) × ((add ip w).1 ≡ true)))

module _ {W : Type 0} (Has : String → W → Type 0) where
  module _ (delete : String → W → W × Bool) (deletes : Deletes Has delete) where
    delete_less :
        (ips : List String) (y : String) (w : W) → Has y (each_or_stop delete ips w).0 → Has y w
    unfolding each_or_stop
    delete_less [] y w h = h
    delete_less (ip ∷ ips) y w h = elim (Bool-cases (delete ip w).1) [
      | inl e ↦ deletes.0 ip y w (delete_less ips y _ (rw e at h))
      | inr e ↦ deletes.0 ip y w (rw e at h)
    ]

    delete_gone :
        (ips : List String) (y : String) (w : W)
        → (each_or_stop delete ips w).1 ≡ true
        → Has y (each_or_stop delete ips w).0
        → ¬ Mem y ips
    unfolding each_or_stop
    delete_gone [] y w ok h = not-mem-nil
    delete_gone (ip ∷ ips) y w ok h = elim (Bool-cases (delete ip w).1) [
      | inr e ↦ absurd (false≢true (rw e at ok))
      | inl e ↦
          let h' = rw e at h in
          let there = delete_less ips y (delete ip w).0 h' in
          λ m.
            Or.elim ⊥_prop (mem-cons.0 m)
              (λ f. deletes.1 ip w e (subst (λ x. Has x (delete ip w).0) f there))
              (delete_gone ips y _ (rw e at ok) h')
    ]

  module _ (add : String → W → W × Bool) (adds : Adds Has add) where
    add_kept : (ips : List String) (y : String) (w : W) → Has y w → Has y (each_or_stop add ips w).0
    unfolding each_or_stop
    add_kept [] y w h = h
    add_kept (ip ∷ ips) y w h =
        let here : Has y (add ip w).0 = (adds ip y w).1 (inl h) in
        elim (Bool-cases (add ip w).1) [ inl e ↦ rw e (add_kept ips y _ here) | inr e ↦ rw e here ]

    add_only :
        (ips : List String) (y : String) (w : W)
        → ¬ Mem y ips
        → Has y (each_or_stop add ips w).0
        → Has y w
    unfolding each_or_stop
    add_only [] y w n h = h
    add_only (ip ∷ ips) y w n h =
        let back : Has y (add ip w).0 → Has y w = λ here. elim ((adds ip y w).0 here) [
          | inl held ↦ held
          | inr (e, _) ↦ absurd (n (subst (λ x. Mem x (ip ∷ ips)) (sym e) mem-cons_self))
        ] in
        elim (Bool-cases (add ip w).1) [
          | inl e ↦ back (add_only ips y _ (λ m. n (mem-cons_of_mem ip m)) (rw e at h))
          | inr e ↦ back (rw e at h)
        ]

    add_there :
        (ips : List String) (y : String) (w : W)
        → (each_or_stop add ips w).1 ≡ true
        → Mem y ips
        → Has y (each_or_stop add ips w).0
    unfolding each_or_stop
    add_there [] y w ok m = absurd (not-mem-nil m)
    add_there (ip ∷ ips) y w ok m = elim (Bool-cases (add ip w).1) [
      | inr e ↦ absurd (false≢true (rw e at ok))
      | inl e ↦ rw e (elim (String-discrete y ip) [
        | yes f ↦ add_kept ips y _ ((adds ip y w).1 (inr (f, e)))
        | no n ↦
            add_there ips y _ (rw e at ok)
              (Or.elim Mem-prop (mem-cons.0 m) (λ f. absurd (n f)) (λ r. r))
      ])
    ]

is_nil : (xs : List String) → ((y : String) → ¬ Mem y xs) → xs ≡ []
is_nil [] h = refl
is_nil (x ∷ xs) h = absurd (h x mem-cons_self)

-- `current` lists the addresses of the device, each once.
abbrev pub Lists : {W : Type 0} → (String → W → Type 0) → List String → W → Type 0
Lists Has current w = Nodup current × ((y : String) → Has y w ↔ Mem y current)

module _ {W : Type 0} (sh : String → W → W × Ran) (Has : String → W → Type 0) (ns dev : String)
    (adds : Adds Has (λ ip. add_ip sh ns ip dev)) where
  module _ (current target : List String) (w : W) (lists : Lists Has current w) where
    abbrev lonely_lefts : List String
    lonely_lefts = (join ip_score current target).lonely_lefts

    abbrev lonely_rights : List String
    lonely_rights = (join ip_score current target).lonely_rights

    abbrev deleted : W × Bool
    deleted = each_or_stop (λ ip. del_ip sh ns ip dev) lonely_lefts w

    abbrev added : W × Bool
    added = each_or_stop (λ ip. add_ip sh ns ip dev) lonely_rights deleted.0

    -- An address of the end was there after the deletions, or is one that was to be made.
    only_wanted : (y : String) → (Has y deleted.0 → Mem y target) → Has y added.0 → Mem y target
    only_wanted y left h = elim (dec_mem String-discrete y lonely_rights) [
      | yes m ↦ made_wanted ip_score ip_score_match current target y m
      | no n ↦ left (add_only Has (λ ip. add_ip sh ns ip dev) adds lonely_rights y deleted.0 n h)
    ]

    module _ (kept : (y : String) → Mem y current → Mem y target) where
      nothing_deleted : deleted ≡ (w, true)
      unfolding each_or_stop
      nothing_deleted =
          ap (λ l. each_or_stop (λ ip. del_ip sh ns ip dev) l w)
            (is_nil lonely_lefts λ y m.
              stays ip_score ip_score_match current target lists.0 String-discrete ip_score_same y
                (kept y (
                  (Perm.mem_iff (join-lefts ip_score current target)).1
                    (mem-append_right (map (λ p. p.0) (join ip_score current target).pairs) m)))
                m)

      all_wanted : (y : String) → added.1 ≡ true → Mem y target → Has y added.0
      all_wanted y ok m = elim (dec_mem String-discrete y lonely_rights) [
        | yes r ↦ add_there Has (λ ip. add_ip sh ns ip dev) adds lonely_rights y deleted.0 ok r
        | no n ↦
            add_kept Has (λ ip. add_ip sh ns ip dev) adds lonely_rights y deleted.0
              (subst (λ (d : W × Bool). Has y d.0) (sym nothing_deleted)
                ((lists.1 y).1
                  (wanted_kept ip_score ip_score_match current target lists.0 y m n).0))
      ]

      -- Where every address of the device is wanted, exactly the wanted ones are there afterwards.
      settled :
          (update_ips sh ns dev current target w).1 ≡ true
          → (y : String) → Has y (update_ips sh ns dev current target w).0 ↔ Mem y target
      unfolding update_ips
      settled ok y =
          let e : deleted.1 ≡ true = ap (λ (d : W × Bool). d.1) nothing_deleted in
          rw e (
            only_wanted y (λ h.
                kept y ((lists.1 y).0 (subst (λ (d : W × Bool). Has y d.0) nothing_deleted h))),
            all_wanted y (rw e at ok),
          )

    module _ (deletes : Deletes Has (λ ip. del_ip sh ns ip dev)) where
      left_wanted : (y : String) → deleted.1 ≡ true → Has y deleted.0 → Mem y target
      left_wanted y ok left =
          kept_wanted ip_score ip_score_match current target y
            ((lists.1 y).0
              (delete_less Has (λ ip. del_ip sh ns ip dev) deletes lonely_lefts y w left))
            (delete_gone Has (λ ip. del_ip sh ns ip dev) deletes lonely_lefts y w ok left)

      made_there : (y : String) → added.1 ≡ true → Mem y target → Mem y current ⊎ Has y added.0
      made_there y ok m = elim (dec_mem String-discrete y lonely_rights) [
        | yes r ↦
            inr (add_there Has (λ ip. add_ip sh ns ip dev) adds lonely_rights y deleted.0 ok r)
        | no n ↦ inl (wanted_kept ip_score ip_score_match current target lists.0 y m n).0
      ]

      -- Let `add_ip` add the address that it names, if it succeeds, and change no other; let `del_ip`
      -- add none and remove the one that it names, if it succeeds, and perhaps others; let `current`
      -- list the addresses of the device, each once. If `updateIPs` returns no error, every address
      -- of the device is one of `target`, and each of `target` that the device lacked before is there.
      pub update_ips-Settled :
          (update_ips sh ns dev current target w).1 ≡ true
          → (y : String)
          → (Has y (update_ips sh ns dev current target w).0 → Mem y target)
            × (Mem y target → Mem y current ⊎ Has y (update_ips sh ns dev current target w).0)
      unfolding update_ips
      update_ips-Settled ok y = elim (Bool-cases deleted.1) [
        | inl e ↦ rw e (only_wanted y (left_wanted y e), made_there y (rw e at ok))
        | inr e ↦ absurd (false≢true (rw e at ok))
      ]

  -- Under the same conditions on the commands: when `updateIPs` returns no error in two rounds with
  -- the same `target`, each for a list of what the device has then, the device has the addresses
  -- `target` and no others, even if a deletion of the first round removed wanted ones with its own.
  pub update_ips-twice :
      (deletes : Deletes Has (λ ip. del_ip sh ns ip dev)) (current again target : List String)
      (w : W)
      → Lists Has current w
      → (update_ips sh ns dev current target w).1 ≡ true
      → Lists Has again (update_ips sh ns dev current target w).0
      → (update_ips sh ns dev again target (update_ips sh ns dev current target w).0).1 ≡ true
      → (y : String)
      → Has y (update_ips sh ns dev again target (update_ips sh ns dev current target w).0).0
        ↔ Mem y target
  update_ips-twice deletes current again target w lists ok relists ok' =
      settled again target (update_ips sh ns dev current target w).0 relists
        (λ y m. (update_ips-Settled current target w lists deletes ok y).0 ((relists.1 y).1 m)) ok'
