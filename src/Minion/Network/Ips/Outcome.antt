-- ===== src/Minion/Network/Ips/Outcome.antt =====
-- What becomes of an entry without an address in `syncIPs` of minion/network/store.go.
use mathlib.Core.Bool.{false≢true}
use mathlib.Core.List.{mem-cons_self, mem-cons_of_mem}
use mathlib.Core.Logic.{∥∥₁_elim, ∥∥₁_prop}
use di.Prelude.{
  subst, find, ℕ, zero, suc, ◌+◌, ◌-◌, ◌%◌, ◌≤◌, ◌<◌, String, true, false, ◌≡◌, ◌∙◌, sym, ◌⊎◌, inl,
  inr, none, List, [], ◌∷◌, Mem, ◌<>◌, arith, ◌==◌, Bool-cases,
}
use di.Minion.Network.Store.{Directory, Store, children}
use di.Minion.Network.Ips.{occurs, random_loop}

-- The address was in use, or has been given out.
abbrev pub Taken : List ℕ → List (String × ℕ) → ℕ → Type 0
Taken used news ip = ∥ Mem ip used ⊎ ((k : String) × Mem (k, ip) news) ∥₁

mem_occurs : (n : ℕ) (ms : List ℕ) → occurs n ms ≡ true → Mem n ms
mem_occurs n [] h = absurd (false≢true h)
mem_occurs n (k ∷ ms) h = elim (Bool-cases (k == n)) [
  | inl e ↦
      let same : n ≡ k = ground (arith, e) in subst (λ x. Mem x (k ∷ ms)) (sym same) mem-cons_self
  | inr e ↦ mem-cons_of_mem k (mem_occurs n ms (ground (arith, e, h)))
]

module _ {W : Type 0} (rand32 : W → W × ℕ) where
  -- The `i`th of the numbers drawn from `w` on.
  abbrev draw : ℕ → W → ℕ
  draw zero w = (rand32 w).1
  draw (suc i) w = draw i (rand32 w).0

  pub random_exhausted :
      (prefix : ℕ)
      → prefix % 65536 ≡ 0
      → 1 ≤ prefix
      → (tries : ℕ) (conflicts : List ℕ) (w : W)
      → (random_loop rand32 tries conflicts prefix w).1 ≡ 0
      → (i : ℕ) → i < tries
      → Mem (draw i w % 65536 + prefix) conflicts
  unfolding random_loop
  random_exhausted prefix whole some zero conflicts w e i l = absurd (omega arith)
  random_exhausted prefix whole some (suc tries) conflicts w e i l =
      let ip32 = (rand32 w).1 % 65536 + (prefix - prefix % 65536) in
      let same : ip32 ≡ (rand32 w).1 % 65536 + prefix = omega arith in
      elim (Bool-cases (occurs ip32 conflicts)) [
        | inr n ↦ let zeroed : ip32 ≡ 0 = rw (n, random_loop) at e in absurd (omega arith)
        | inl y ↦ at_least i l (subst (λ x. Mem x conflicts) same (mem_occurs ip32 conflicts y)) (
            random_exhausted prefix whole some tries conflicts (rand32 w).0
              (rw (y, random_loop) at e))
      ]
    where
      at_least :
          (i : ℕ)
          → i < suc tries
          → Mem ((rand32 w).1 % 65536 + prefix) conflicts
          → ((i : ℕ) → i < tries → Mem (draw i (rand32 w).0 % 65536 + prefix) conflicts)
          → Mem (draw i w % 65536 + prefix) conflicts
      at_least zero l here rest = here
      at_least (suc i) l here rest = rest i (omega arith)

  module _ (show4 : ℕ → String) (store : Store W) (path : String) (prefix : ℕ) where
    -- The entry stays as it is, and the store has refused an address for it.
    abbrev Refused : Directory → Directory → String → Type 0
    Refused dir dir' k =
        (find k dir' ≡ find k dir)
        × (ip : ℕ) × (w : W) × ((store.set (path <> "/" <> k <> "/IP") (show4 ip) w).1 ≡ false)

    -- The entry ends up without an address, and 256 draws in a row have hit taken addresses.
    abbrev Exhausted : List ℕ → List (String × ℕ) → Directory → String → Type 0
    Exhausted used news dir' k =
        (find "IP" (children k dir') ≡ none)
        × (w : W) × ((i : ℕ) → i < 256 → Taken used news (draw i w % 65536 + prefix))

    -- It is given an address, or it is one of the two.
    abbrev pub Outcome : List ℕ → List (String × ℕ) → Directory → Directory → String → Type 0
    Outcome used news dir dir' k =
        ∥ ((ip : ℕ) × Mem (k, ip) news) ⊎ (Refused dir dir' k ⊎ Exhausted used news dir' k) ∥₁

    pub Outcome-grows :
        (used used' : List ℕ) (news news' : List (String × ℕ)) (dir dir₁ dir' : Directory)
        (k : String)
        → ((ip : ℕ) → Taken used' news' ip → Taken used news ip)
        → ((ip : ℕ) → Mem (k, ip) news' → Mem (k, ip) news)
        → find k dir₁ ≡ find k dir
        → Outcome used' news' dir₁ dir' k
        → Outcome used news dir dir' k
    Outcome-grows used used' news news' dir dir₁ dir' k taken given same o =
        ∥∥₁_elim o ∥∥₁_prop λ c. elim c [
          | inl (ip, m) ↦ ∣ inl (ip, given ip m) ∣₁
          | inr (inl (e, ip, w, r)) ↦ ∣ inr (inl (e ∙ same, ip, w, r)) ∣₁
          | inr (inr (e, w, h)) ↦ ∣ inr (inr (e, w, λ i l. taken _ (h i l))) ∣₁
        ]
