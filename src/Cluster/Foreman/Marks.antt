-- ===== src/Cluster/Foreman/Marks.antt =====
-- The two loops of `updateMinionMap` of cluster/foreman.go, which mark and sweep the minions.
use mathlib.Core.Bool.{false≢true}
use mathlib.Core.List.{Memᴰ, mem-cons_self, mem-cons_of_mem}
use di.Prelude.{
  find, put, find-put, find-put_other, put-All, some-injective, String, true, false, ◌≡◌, refl, sym,
  ap, ◌∙◌, subst, ◌⊎◌, inl, inr, none, some, List, [], ◌∷◌, Mem, eq_iff, str_eq, Bool-cases,
  Option-cases, All,
}
use di.Db.Rows.{Machine}
use di.Cluster.Foreman.{Rpc, Entry, no_config, mark_machines, sweep}

module _ {C : Type 0} where
  -- The minion has one of the machines and stands under the public address of that machine.
  abbrev pub Owns : List Machine → String × Entry C → Type 0
  Owns machines e = (e.1.machine.public_ip ≡ e.0) × Mem e.1.machine machines

  abbrev pub MarkedOwn : List Machine → String × Entry C → Type 0
  MarkedOwn machines e = (e.1.mark ≡ false) ⊎ Owns machines e

  -- The map has an entry for the address.
  abbrev pub Present : List (String × Entry C) → String → Type 0
  Present minions ip = (m : Entry C) × (find ip minions ≡ some m)

  abbrev pub Marked : List (String × Entry C) → String → Type 0
  Marked minions ip = (m : Entry C) × (find ip minions ≡ some m) × (m.mark ≡ true)

  put-Present :
      (q ip : String) (v : Entry C) (l : List (String × Entry C))
      → Present l q
      → Present (put ip v l) q
  put-Present q ip v l (m, e) = elim (Bool-cases (str_eq ip q)) [
    | inl f ↦ (v, subst (λ k. find k (put ip v l) ≡ some v) ((eq_iff ip q).0 f) (find-put ip v l))
    | inr f ↦ (m, find-put_other q ip v l f ∙ e)
  ]

  put-Marked :
      (q ip : String) (v : Entry C) (l : List (String × Entry C))
      → v.mark ≡ true
      → Marked l q
      → Marked (put ip v l) q
  put-Marked q ip v l t (m, e, g) = elim (Bool-cases (str_eq ip q)) [
    | inl f ↦
        (v, subst (λ k. find k (put ip v l) ≡ some v) ((eq_iff ip q).0 f) (find-put ip v l), t)
    | inr f ↦ (m, find-put_other q ip v l f ∙ e, g)
  ]

module _ {W C : Type 0} (rpc : Rpc W C) where
  -- One round of the first loop: no client could be made for a new address, or the address has an
  -- entry for the machine, marked.
  abbrev Marking : Machine → List (String × Entry C) → List (String × Entry C) → Type 0
  Marking m minions minions' =
      ((find m.public_ip minions ≡ none) × (minions' ≡ minions))
      ⊎ ((v : Entry C) × (v.machine ≡ m) × (v.mark ≡ true) × (minions' ≡ put m.public_ip v minions))

  mark_step :
      (m : Machine) (machines : List Machine) (minions : List (String × Entry C)) (w : W)
      → (minions' : List (String × Entry C)) × (w' : W) × (mark_machines rpc
            (m ∷ machines)
            minions
            w
          ≡ mark_machines rpc machines minions' w')
        × Marking m minions minions'
  unfolding mark_machines
  mark_step m machines minions w = elim (Option-cases (find m.public_ip minions)) [
    | inr (min, e) ↦
        let v : Entry C = record min { machine = m; mark = true } in
        (put m.public_ip v minions, w, rw (e, mark_machines) refl, inr (v, refl, refl, refl))
    | inl e ↦ elim (Option-cases (rpc.new_client m.public_ip w).1) [
      | inl f ↦ (
        minions,
        (rpc.new_client m.public_ip w).0,
        rw (e, mark_machines) (rw f refl),
        inl (e, refl),
      )
      | inr (c, f) ↦
          let v : Entry C = record {
            client = c;
            connected = false;
            machine = m;
            config = no_config;
            mark = true;
          } in
          (
            put m.public_ip v minions,
            (rpc.new_client m.public_ip w).0,
            rw (e, mark_machines) (rw f refl),
            inr (v, refl, refl, refl),
          )
    ]
  ]

  -- What a round leaves as it was, and what it adds.
  step-MarkedOwn :
      (all : List Machine) (m : Machine) (minions minions' : List (String × Entry C))
      → Mem m all
      → Marking m minions minions'
      → All (MarkedOwn all) minions
      → All (MarkedOwn all) minions'
  step-MarkedOwn all m minions minions' n (inl (e, f)) h = rw f h
  step-MarkedOwn all m minions minions' n (inr (v, e, t, f)) h = rw f (
      put-All (MarkedOwn all) m.public_ip v minions
        (λ k q. inr (ap (λ (x : Machine). x.public_ip) e ∙ sym q, subst (λ x. Mem x all) (sym e) n))
        h)

  step-Present :
      (q : String) (m : Machine) (minions minions' : List (String × Entry C))
      → Marking m minions minions'
      → Present minions q
      → Present minions' q
  step-Present q m minions minions' (inl (e, f)) h = rw f h
  step-Present q m minions minions' (inr (v, e, t, f)) h =
      rw f (put-Present q m.public_ip v minions h)

  step-Marked :
      (q : String) (m : Machine) (minions minions' : List (String × Entry C))
      → Marking m minions minions'
      → Marked minions q
      → Marked minions' q
  step-Marked q m minions minions' (inl (e, f)) h = rw f h
  step-Marked q m minions minions' (inr (v, e, t, f)) h =
      rw f (put-Marked q m.public_ip v minions t h)

  step-marks :
      (m : Machine) (minions minions' : List (String × Entry C))
      → Marking m minions minions'
      → Present minions m.public_ip
      → Marked minions' m.public_ip
  step-marks m minions minions' (inl (e, f)) (v, g) = cc
  step-marks m minions minions' (inr (v, e, t, f)) h = rw f (v, find-put m.public_ip v minions, t)

  pub loop-MarkedOwn :
      (all machines : List Machine) (minions : List (String × Entry C)) (w : W)
      → ((m : Machine) → Mem m machines → Mem m all)
      → All (MarkedOwn all) minions
      → All (MarkedOwn all) (mark_machines rpc machines minions w).0
  unfolding mark_machines
  loop-MarkedOwn all [] minions w sub h = h
  loop-MarkedOwn all (m ∷ machines) minions w sub h =
      let (minions', w', e, s) = mark_step m machines minions w in
      subst (λ (r : List (String × Entry C) × W). All (MarkedOwn all) r.0) (sym e)
        (loop-MarkedOwn all machines minions' w' (λ x n. sub x (mem-cons_of_mem m n))
          (step-MarkedOwn all m minions minions' (sub m mem-cons_self) s h))

  loop-Marked :
      (q : String) (machines : List Machine) (minions : List (String × Entry C)) (w : W)
      → Marked minions q
      → Marked (mark_machines rpc machines minions w).0 q
  unfolding mark_machines
  loop-Marked q [] minions w h = h
  loop-Marked q (m ∷ machines) minions w h =
      let (minions', w', e, s) = mark_step m machines minions w in
      subst (λ (r : List (String × Entry C) × W). Marked r.0 q) (sym e)
        (loop-Marked q machines minions' w' (step-Marked q m minions minions' s h))

  pub loop-marks :
      (machines : List Machine) (minions : List (String × Entry C)) (w : W) (m : Machine)
      → Memᴰ m machines
      → Present minions m.public_ip
      → Marked (mark_machines rpc machines minions w).0 m.public_ip
  unfolding mark_machines
  loop-marks [] minions w m n h = elim n [ ]
  loop-marks (x ∷ machines) minions w m (Memᴰ.head e) h =
      let (minions', w', f, s) = mark_step x machines minions w in
      subst (λ (r : List (String × Entry C) × W). Marked r.0 m.public_ip) (sym f)
        (loop-Marked m.public_ip machines minions' w' (
          subst (λ (y : Machine). Marked minions' y.public_ip) (sym e)
            (step-marks x minions minions' s
              (subst (λ (y : Machine). Present minions y.public_ip) e h))))
  loop-marks (x ∷ machines) minions w m (Memᴰ.tail n) h =
      let (minions', w', f, s) = mark_step x machines minions w in
      subst (λ (r : List (String × Entry C) × W). Marked r.0 m.public_ip) (sym f)
        (loop-marks machines minions' w' m n (step-Present m.public_ip x minions minions' s h))

  pub sweep-Owns :
      (all : List Machine) (minions : List (String × Entry C)) (w : W)
      → All (MarkedOwn all) minions
      → All (λ e. (e.1.mark ≡ false) × Owns all e) (sweep rpc minions w).0
  unfolding sweep
  sweep-Owns all [] w h = tt
  sweep-Owns all ((ip, m) ∷ minions) w (a, h) = elim (Bool-cases m.mark) [
    | inl e ↦ rw (e, sweep) ((refl, marked_own e a), sweep-Owns all minions w h)
    | inr e ↦ rw (e, sweep) (sweep-Owns all minions (rpc.close m.client w) h)
  ]
    where
      marked_own : m.mark ≡ true → MarkedOwn all (ip, m) → Owns all (ip, m)
      marked_own e (inl f) = absurd (false≢true (sym f ∙ e))
      marked_own e (inr o) = o

  pub sweep-Marked :
      (q : String) (minions : List (String × Entry C)) (w : W)
      → Marked minions q
      → Present (sweep rpc minions w).0 q
  unfolding sweep find
  sweep-Marked q [] w (v, e, t) = cc
  sweep-Marked q ((ip, m) ∷ minions) w (v, e, t) = elim (Bool-cases (str_eq ip q)) [
    | inl f ↦
        let same : m ≡ v = some-injective (rw f at e) in
        let on : m.mark ≡ true = ap (λ (x : Entry C). x.mark) same ∙ t in
        (record m { mark = false }, rw (on, sweep) (rw (f, find) refl))
    | inr f ↦
        let found : find q minions ≡ some v = rw f at e in
        elim (Bool-cases m.mark) [
          | inl g ↦ rw (g, sweep) (rw (f, find) (sweep-Marked q minions w (v, found, t)))
          | inr g ↦ rw (g, sweep) (sweep-Marked q minions (rpc.close m.client w) (v, found, t))
        ]
  ]
