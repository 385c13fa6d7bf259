-- ===== src/Minion/Scheduler/Swarm/Affinities.antt =====
-- The affinities of makeEnv of minion/scheduler/swarm.go.
use mathlib.Core.List.{mem-cons, mem-cons_self, mem-cons_of_mem, mem-append, not-mem-nil, Mem-prop}
use mathlib.Core.Logic.Or
use di.Prelude.{
  String, ◌⊎◌, refl, subst, inl, inr, List, [], ◌∷◌, Mem, str_eq, eq_iff, Bool-cases, ◌<>◌,
}
use di.Db.Rows.{Container}
use di.Minion.Docker.{user_label, label_true_value}
use di.Minion.Scheduler.Swarm.{affinities, label_affinities, make_env}

affinities-grow :
    (l c d : String) (ex : List (String × String)) (s : String)
    → Mem s (affinities l ex)
    → Mem s (affinities l ((c, d) ∷ ex))
unfolding affinities
affinities-grow l c d ex s m = elim (Bool-cases (str_eq c l)) [
  | inl e ↦ rw e (mem-cons_of_mem _ m)
  | inr e ↦ elim (Bool-cases (str_eq d l)) [
    | inl e' ↦ rw (e, e') (mem-cons_of_mem _ m)
    | inr e' ↦ rw (e, e') m
  ]
]

-- One pair of `Exclusive` that has the label first, and one that has it second.
affinities-first :
    (l b : String) (ex : List (String × String))
    → Mem (l, b) ex
    → Mem ("affinity:" <> user_label b <> "!=" <> label_true_value) (affinities l ex)
unfolding affinities
affinities-first l b [] h = absurd (not-mem-nil h)
affinities-first l b ((c, d) ∷ ex) h =
    Or.elim Mem-prop (mem-cons.0 h)
      (λ q.
        subst
          (λ (p : String × String).
            Mem ("affinity:" <> user_label b <> "!=" <> label_true_value) (affinities l (p ∷ ex)))
          q (rw ((eq_iff l l).1 refl) mem-cons_self))
      (λ q.
        affinities-grow l c d ex ("affinity:" <> user_label b <> "!=" <> label_true_value)
          (affinities-first l b ex q))

affinities-second :
    (l a : String) (ex : List (String × String))
    → Mem (a, l) ex
    → Mem ("affinity:" <> user_label a <> "!=" <> label_true_value) (affinities l ex)
unfolding affinities
affinities-second l a [] h = absurd (not-mem-nil h)
affinities-second l a ((c, d) ∷ ex) h =
    Or.elim Mem-prop (mem-cons.0 h)
      (λ q.
        subst
          (λ (p : String × String).
            Mem ("affinity:" <> user_label a <> "!=" <> label_true_value) (affinities l (p ∷ ex)))
          q
          (elim (Bool-cases (str_eq a l)) [
            | inl e ↦ let a≡ = (eq_iff a l).0 e in rw (a≡, (eq_iff l l).1 refl) mem-cons_self
            | inr e ↦ rw (e, (eq_iff l l).1 refl) mem-cons_self
          ]))
      (λ q.
        affinities-grow l c d ex ("affinity:" <> user_label a <> "!=" <> label_true_value)
          (affinities-second l a ex q))

label_affinities-mem :
    (s l : String) (ls : List String) (ex : List (String × String))
    → Mem l ls
    → Mem s (affinities l ex)
    → Mem s (label_affinities ls ex)
unfolding label_affinities
label_affinities-mem s l [] ex h m = absurd (not-mem-nil h)
label_affinities-mem s l (k ∷ ls) ex h m =
    Or.elim Mem-prop (mem-cons.0 h)
      (λ q. mem-append.1 (Or.inl (subst (λ (x : String). Mem s (affinities x ex)) q m)))
      (λ q. mem-append.1 (Or.inr (label_affinities-mem s l ls ex q m)))

-- A container is kept off the machines of the labels it excludes: when a pair of `Exclusive` joins
-- one of its labels with another label, in either order, the container is started with the affinity
-- that excludes the other label.
pub make_env-exclusive :
    (dbc : Container) (label other : String)
    → Mem label dbc.labels
    → Mem (label, other) dbc.exclusive ⊎ Mem (other, label) dbc.exclusive
    → Mem ("affinity:" <> user_label other <> "!=" <> label_true_value) (make_env dbc)
unfolding make_env
make_env-exclusive dbc label other m h = mem-append.1 (
    Or.inl (
      label_affinities-mem _ label dbc.labels dbc.exclusive m (elim h [
        | inl p ↦ affinities-first label other dbc.exclusive p
        | inr p ↦ affinities-second label other dbc.exclusive p
      ])))
