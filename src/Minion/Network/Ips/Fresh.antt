-- ===== src/Minion/Network/Ips/Fresh.antt =====
-- The addresses that `syncIPs` of minion/network/store.go gives out are new and in the prefix.
use mathlib.Core.HLevel.{⊥_prop, hedberg, ×_prop}
use native.Mathlib.Bridge.{le_prop}
use mathlib.Core.List.{
  mem-cons, mem-cons_self, mem-cons_of_mem, not-mem-nil, Nodup-cons, Nodup-nil, mem-map, Mem-prop,
}
use mathlib.Core.Logic.{∥∥₁_elim, ∥∥₁_prop}
use mathlib.Core.Logic.Or
use di.Prelude.{
  find, put, del, find-del, find-put, find-put_other, ℕ, zero, suc, ◌+◌, ◌-◌, ◌%◌, ◌≤◌, String,
  false, ◌≡◌, ◌≢◌, refl, sym, ap, ◌∙◌, subst, ◌⊎◌, inl, inr, Option, List, [], ◌∷◌, map, Mem, Nodup,
  ◌<>◌, arith, ◌==◌, Bool-cases, String-discrete,
}
use di.Minion.Network.Store.{Directory, Children, Store, child, children}
use di.Minion.Network.Store.Dirs.{not_eq}
use di.Minion.Network.Ips.Outcome.{Taken, Outcome, Outcome-grows, random_exhausted}
use di.Minion.Network.Ips.{occurs, put_child, del_child, random_loop, random_ip, assign_ips}

-- An address of a /16 prefix.
abbrev pub InPrefix : ℕ → ℕ → Type 0
InPrefix prefix ip = (prefix ≤ ip) × (ip ≤ prefix + 65535)

occurs_mem : (n : ℕ) (ms : List ℕ) → occurs n ms ≡ false → ¬ Mem n ms
occurs_mem n [] h m = not-mem-nil m
occurs_mem n (k ∷ ms) h m =
    Or.elim ⊥_prop (mem-cons.0 m) (λ e. ground arith) (occurs_mem n ms (ground arith))

module _ {W : Type 0} (rand32 : W → W × ℕ) (prefix : ℕ) (whole : prefix % 65536 ≡ 0) where
  random_new :
      (tries : ℕ) (conflicts : List ℕ) (w : W)
      → ((random_loop rand32 tries conflicts prefix w).1 ≡ 0)
        ⊎ (¬ Mem (random_loop rand32 tries conflicts prefix w).1 conflicts
            × InPrefix prefix (random_loop rand32 tries conflicts prefix w).1)
  unfolding random_loop
  random_new zero conflicts w = inl refl
  random_new (suc tries) conflicts w =
      let ip32 = (rand32 w).1 % 65536 + (prefix - prefix % 65536) in
      elim (Bool-cases (occurs ip32 conflicts)) [
        | inl e ↦ rw (e, random_loop) (random_new tries conflicts (rand32 w).0)
        | inr e ↦
            rw (e, random_loop) (inr (occurs_mem ip32 conflicts e, (omega arith, omega arith)))
      ]

module _ {W : Type 0} (rand32 : W → W × ℕ) (show4 : ℕ → String) (store : Store W) (path : String)
    (prefix : ℕ) where
  -- What the second loop may make of `dir`: `news` are the addresses that it gives out, none of them
  -- twice and none of `used`; each entry of `ks` is given one, or the store refuses it, or 256 draws
  -- fail; and no other entry is touched.
  pub record Assigned (ks : List String) (used : List ℕ) (dir dir' : Directory) : Type 0 where
    pub news : List (String × ℕ)
    pub distinct : Nodup (map (λ e. e.1) news)
    pub unused : (k : String) (ip : ℕ) → Mem (k, ip) news → ¬ Mem ip used
    pub in_prefix : (k : String) (ip : ℕ) → Mem (k, ip) news → InPrefix prefix ip
    pub lacked : (k : String) (ip : ℕ) → Mem (k, ip) news → Mem k ks
    pub written : (k : String) (ip : ℕ) → Mem (k, ip) news → child "IP" (children k dir') ≡ show4 ip
    pub served :
        (k : String) → Mem k ks → Outcome rand32 show4 store path prefix used news dir dir' k
    pub others : (k : String) → ¬ Mem k ks → find k dir' ≡ find k dir

  -- An entry that is given nothing, whatever else happens to it.
  Assigned-none :
      (k : String) (ks : List String) (used : List ℕ) (dir dir₁ dir' : Directory)
      → ((q : String) → k ≢ q → find q dir₁ ≡ find q dir)
      → ¬ Mem k ks
      → (h : Assigned ks used dir₁ dir')
      → Outcome rand32 show4 store path prefix used h.news dir dir' k
      → Assigned (k ∷ ks) used dir dir'
  Assigned-none k ks used dir dir₁ dir' same out h o = record {
    news = h.news;
    distinct = h.distinct;
    unused = h.unused;
    in_prefix = h.in_prefix;
    lacked = λ q ip m. mem-cons_of_mem k (h.lacked q ip m);
    written = h.written;
    served = λ q m.
        Or.elim ∥∥₁_prop (mem-cons.0 m)
          (λ e. subst (Outcome rand32 show4 store path prefix used h.news dir dir') (sym e) o)
          (λ r.
            Outcome-grows rand32 show4 store path prefix used used h.news h.news dir dir₁ dir' q
              (λ ip t. t) (λ ip n. n) (same q (λ e. out (subst (λ x. Mem x ks) (sym e) r)))
              (h.served q r));
    others = λ q n.
        h.others q (λ m. n (mem-cons_of_mem k m))
        ∙ same q (λ e. n (subst (λ x. Mem x (k ∷ ks)) e mem-cons_self));
  }

  children-put : (k : String) (m : Children) (dir : Directory) → children k (put k m dir) ≡ m
  unfolding children
  children-put k m dir = rw (children, find-put k m dir) refl

  Assigned-one :
      (k : String) (ks : List String) (used : List ℕ) (ip : ℕ) (m : Children) (dir dir' : Directory)
      → ¬ Mem k ks
      → ¬ Mem ip used
      → InPrefix prefix ip
      → child "IP" m ≡ show4 ip
      → Assigned ks (ip ∷ used) (put k m dir) dir'
      → Assigned (k ∷ ks) used dir dir'
  unfolding children
  Assigned-one k ks used ip m dir dir' out new inside shown h = record {
    news = (k, ip) ∷ h.news;
    distinct = Nodup-cons.1 (
      λ n.
          ∥∥₁_elim (mem-map.0 n) ⊥_prop
            λ ((q, j), o, e). h.unused q j o (subst (λ x. Mem x (ip ∷ used)) (sym e) mem-cons_self),
      h.distinct,
    );
    unused = λ q j n u.
        Or.elim ⊥_prop (mem-cons.0 n)
          (λ e. new (subst (λ x. Mem x used) (ap (λ (p : String × ℕ). p.1) e) u))
          (λ o. h.unused q j o (mem-cons_of_mem ip u));
    in_prefix = λ q j n.
        Or.elim (×_prop le_prop le_prop) (mem-cons.0 n)
          (λ e. subst (InPrefix prefix) (sym (ap (λ (p : String × ℕ). p.1) e)) inside)
          (λ o. h.in_prefix q j o);
    lacked = λ q j n.
        Or.elim Mem-prop (mem-cons.0 n)
          (λ e. subst (λ x. Mem x (k ∷ ks)) (sym (ap (λ (p : String × ℕ). p.0) e)) mem-cons_self)
          (λ o. mem-cons_of_mem k (h.lacked q j o));
    written = λ q j n.
        Or.elim (hedberg String-discrete _ _) (mem-cons.0 n)
          (λ e.
            ap (λ (p : String × ℕ). child "IP" (children p.0 dir')) e
            ∙ head_written
            ∙ ap (λ (p : String × ℕ). show4 p.1) (sym e))
          (λ o. h.written q j o);
    served = λ q n.
        Or.elim ∥∥₁_prop (mem-cons.0 n)
          (λ e. ∣ inl (ip, subst (λ x. Mem (x, ip) ((k, ip) ∷ h.news)) (sym e) mem-cons_self) ∣₁)
          (λ r.
            Outcome-grows rand32 show4 store path prefix used (ip ∷ used) ((k, ip) ∷ h.news) h.news
              dir (put k m dir) dir' q (taken_before h.news) (λ j o. mem-cons_of_mem (k, ip) o)
              (find-put_other q k m dir (not_eq k q (λ e. out (subst (λ x. Mem x ks) (sym e) r))))
              (h.served q r));
    others = λ q n.
        h.others q (λ o. n (mem-cons_of_mem k o))
        ∙ find-put_other q k m dir
            (not_eq k q (λ e. n (subst (λ x. Mem x (k ∷ ks)) e mem-cons_self)));
  }
    where
      taken_before :
          (news : List (String × ℕ)) (j : ℕ)
          → Taken (ip ∷ used) news j
          → Taken used ((k, ip) ∷ news) j
      taken_before news j t = ∥∥₁_elim t ∥∥₁_prop λ c. elim c [
        | inr (q, o) ↦ ∣ inr (q, mem-cons_of_mem (k, ip) o) ∣₁
        | inl u ↦
            Or.elim ∥∥₁_prop (mem-cons.0 u)
              (λ e. ∣ inr (k, subst (λ x. Mem (k, x) ((k, ip) ∷ news)) (sym e) mem-cons_self) ∣₁)
              (λ r. ∣ inl r ∣₁)
      ]

      head_written : child "IP" (children k dir') ≡ show4 ip
      head_written = rw (children, h.others k out, find-put k m dir) shown

child-put : (k v : String) (m : Children) → child k (put k v m) ≡ v
unfolding child
child-put k v m = rw (child, find-put k v m) refl

module _ {W : Type 0} (rand32 : W → W × ℕ) (parse4 : String → Option ℕ) (show4 : ℕ → String)
    (store : Store W) (path : String) (prefix : ℕ) (whole : prefix % 65536 ≡ 0)
    (some_net : 1 ≤ prefix) where
  -- An entry for which no address is found ends up without one.
  exhausted :
      (k : String) (ks : List String) (used : List ℕ) (dir dir' : Directory) (w : W)
      → ¬ Mem k ks
      → (random_loop rand32 256 used prefix w).1 ≡ 0
      → (h : Assigned rand32 show4 store path prefix ks used
          (put k (del "IP" (children k dir)) dir)
          dir')
      → Outcome rand32 show4 store path prefix used h.news dir dir' k
  unfolding children
  exhausted k ks used dir dir' w out z h =
      ∣ inr (
        inr (
          rw (children, h.others k out, find-put k (del "IP" (children k dir)) dir)
              (find-del "IP" (children k dir)),
          w,
          λ i l. ∣ inl (random_exhausted rand32 prefix whole some_net 256 used w z i l) ∣₁,
        )) ∣₁

  pub assign_ips-Assigned :
      (ks : List String) (used : List ℕ) (dir : Directory) (w : W)
      → Nodup ks
      → Assigned rand32 show4 store path prefix ks used dir
          (assign_ips rand32 parse4 show4 store path prefix ks used dir w).0
  unfolding assign_ips random_ip put_child del_child
  assign_ips-Assigned [] used dir w u = record {
    news = [];
    distinct = Nodup-nil;
    unused = λ k ip m. absurd (not-mem-nil m);
    in_prefix = λ k ip m. absurd (not-mem-nil m);
    lacked = λ k ip m. absurd (not-mem-nil m);
    written = λ k ip m. absurd (not-mem-nil m);
    served = λ k m. absurd (not-mem-nil m);
    others = λ k n. refl;
  }
  assign_ips-Assigned (k ∷ ks) used dir w u =
      let (out, u') = Nodup-cons.0 u in
      let w₁ = (random_loop rand32 256 used prefix w).0 in
      let ip = (random_loop rand32 256 used prefix w).1 in
      let set = store.set (path <> "/" <> k <> "/IP") (show4 ip) w₁ in
      elim (Bool-cases (ip == 0)) [
        | inl e ↦
            let rest =
              assign_ips-Assigned ks used (put k (del "IP" (children k dir)) dir)
                (store.delete (path <> "/" <> k <> "/IP") w₁).0 u' in
            rw (e, assign_ips)
              (Assigned-none rand32 show4 store path prefix k ks used dir _ _
                (λ q n. find-put_other q k _ dir (not_eq k q n)) out rest
                (exhausted k ks used dir _ w out (ground (arith, e)) rest))
        | inr e ↦ elim (Bool-cases set.1) [
          | inr f ↦
              rw (e, assign_ips)
                (rw f (
                  let rest = assign_ips-Assigned ks used dir set.0 u' in
                  Assigned-none rand32 show4 store path prefix k ks used dir dir _ (λ q n. refl) out
                    rest ∣ inr (inl (rest.others k out, ip, w₁, f)) ∣₁))
          | inl f ↦ elim (random_new rand32 prefix whole 256 used w) [
            | inl z ↦ absurd (ground (arith, z))
            | inr (new, inside) ↦
                rw (e, assign_ips)
                  (rw f (
                    Assigned-one rand32 show4 store path prefix k ks used ip
                      (put "IP" (show4 ip) (children k dir)) dir _ out new inside
                      (child-put "IP" (show4 ip) (children k dir))
                      (assign_ips-Assigned ks (ip ∷ used) _ set.0 u')))
          ]
        ]
      ]
