-- ===== src/Db/Alerts/Notified.antt =====
-- No change of a table goes unnoticed by its triggers (`run` of db/db.go, `alert` of db/table.go).
use mathlib.Core.List.{Memᴰ}
use mathlib.Core.Logic.{∥∥₁_elim}
use di.Prelude.{
  ℕ, ◌+◌, ◌<◌, true, false, ◌≡◌, refl, sym, ap, ◌∙◌, subst, ◌⊎◌, inl, inr, some, List, [], ◌∷◌, Mem,
  arith, ◌==◌, Option-cases, some-injective, none≢some, ite,
}
use mathlib.Core.Bool.{Bool-set}
use di.Db.Tables.{Table, find, insert, remove, commit, overwrite}
use di.Db.Alerts.{Signals, notify, alert_loop, alert, Ops, done, inserts, removes, commits}

module _ {A : Type 0} (id : A → ℕ) (deep_equal : Discrete A) where
  -- Unchanged, or at a higher sequence number; the triggers and what they have seen are the same.
  abbrev pub Tracked : Table A → Table A → Type 0
  Tracked t u = ((u ≡ t) ⊎ (t.seq < u.seq)) × (u.triggers ≡ t.triggers) × (u.trig_seq ≡ t.trig_seq)

  Tracked-trans : (t v u : Table A) → Tracked t v → Tracked v u → Tracked t u
  Tracked-trans t v u (inl e, f, g) (inl e', f', g') = (inl (e' ∙ e), f' ∙ f, g' ∙ g)
  Tracked-trans t v u (inl e, f, g) (inr l', f', g') =
      (inr (omega (arith, ap (λ (x : Table A). x.seq) e)), f' ∙ f, g' ∙ g)
  Tracked-trans t v u (inr l, f, g) (inl e', f', g') =
      (inr (omega (arith, ap (λ (x : Table A). x.seq) e')), f' ∙ f, g' ∙ g)
  Tracked-trans t v u (inr l, f, g) (inr l', f', g') = (inr (omega arith), f' ∙ f, g' ∙ g)

  ite-Tracked :
      {P : Type 0} (d : Dec P) (t : Table A) (rs : List A)
      → Tracked t (ite d t (record t { rows = rs; seq = t.seq + 1 }))
  ite-Tracked (yes p) t rs = (inl refl, refl, refl)
  ite-Tracked (no n) t rs = (inr (omega arith), refl, refl)

  commit-Tracked : (r : A) (t v : Table A) → commit id deep_equal r t ≡ some v → Tracked t v
  unfolding commit
  commit-Tracked r t v e = elim (Option-cases (find id (id r) t.rows)) [
    | inl f ↦ absurd (none≢some (sym (rw (f, commit) refl) ∙ e))
    | inr (old, f) ↦
        let h : ite (deep_equal old r) t
              (record t { rows = overwrite id r t.rows; seq = t.seq + 1 })
            ≡ v =
          some-injective (sym (rw (f, commit) refl) ∙ e) in
        subst (Tracked t) h (ite-Tracked (deep_equal old r) t (overwrite id r t.rows))
  ]

  Ops-Tracked : {t u : Table A} → Ops id deep_equal t u → Tracked t u
  unfolding insert remove
  Ops-Tracked done = (inl refl, refl, refl)
  Ops-Tracked {t} {u} (inserts r h) =
      Tracked-trans t (insert id r t) u (inr (omega arith), refl, refl) (Ops-Tracked h)
  Ops-Tracked {t} {u} (removes r h) =
      Tracked-trans t (remove id r t) u (inr (omega arith), refl, refl) (Ops-Tracked h)
  Ops-Tracked {t} {u} (commits {v = v} r e h) =
      Tracked-trans t v u (commit-Tracked r t v e) (Ops-Tracked h)

notify-keeps :
    (t u : ℕ) (signals : Signals) → (signals u).pending ≡ true → (notify t signals u).pending ≡ true
unfolding notify
notify-keeps t u signals h = ground arith

notify_self : (t : ℕ) (signals : Signals) → (notify t signals t).pending ≡ true
unfolding notify
notify_self t signals = ground arith

loop-keeps :
    (ts : List ℕ) (u : ℕ) (signals : Signals)
    → (signals u).pending ≡ true
    → ((alert_loop ts signals).1 u).pending ≡ true
unfolding alert_loop
loop-keeps [] u signals h = h
loop-keeps (t ∷ ts) u signals h = loop-keeps ts u (notify t signals) (notify-keeps t u signals h)

loop-notifies :
    (ts : List ℕ) (u : ℕ) (signals : Signals)
    → Memᴰ u ts
    → ((alert_loop ts signals).1 u).pending ≡ true
unfolding alert_loop
loop-notifies [] u signals m = elim m [ ]
loop-notifies (t ∷ ts) u signals (Memᴰ.head e) =
    loop-keeps ts u (notify t signals)
      (subst (λ x. (notify t signals x).pending ≡ true) (sym e) (notify_self t signals))
loop-notifies (t ∷ ts) u signals (Memᴰ.tail m) = loop-notifies ts u (notify t signals) m

module _ {A : Type 0} (id : A → ℕ) (deep_equal : Discrete A) where
  -- After any transaction on a table whose triggers have been told of all that went before: the table
  -- is as it was, or every trigger that watches it has a notification waiting.
  pub alert-notifies :
      (t u : Table A) (signals : Signals) (trigger : ℕ)
      → t.seq ≡ t.trig_seq
      → Ops id deep_equal t u
      → Mem trigger t.triggers
      → (u ≡ t) ⊎ (((alert u signals).1 trigger).pending ≡ true)
  unfolding alert
  alert-notifies t u signals trigger quiet ops m = by_change (Ops-Tracked id deep_equal ops)
    where
      by_change :
          Tracked id deep_equal t u → (u ≡ t) ⊎ (((alert u signals).1 trigger).pending ≡ true)
      by_change (inl e, f, g) = inl e
      by_change (inr l, f, g) =
          let news : (u.seq == u.trig_seq) ≡ false = ground arith in
          inr (
            rw (alert, news)
              (∥∥₁_elim (subst (Mem trigger) (sym f) m) (Bool-set _ _)
                (loop-notifies u.triggers trigger signals)))
