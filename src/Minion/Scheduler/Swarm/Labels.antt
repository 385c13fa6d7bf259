-- ===== src/Minion/Scheduler/Swarm/Labels.antt =====
-- makeLabels of minion/scheduler/swarm.go and the labels that syncDB reads.
use mathlib.Core.List.{mem-cons, mem-cons_self, mem-cons_of_mem, mem-append, Mem-prop, append-nil}
use mathlib.Core.Logic.Or
use mathlib.Core.Logic.{◌↔◌}
use di.Prelude.{
  String, not, ◌||◌, ◌≡◌, refl, sym, ap, ◌∙◌, subst, inl, inr, List, [], ◌∷◌, ◌++◌, Mem, str_eq,
  eq_iff, Bool-cases, put,
}
use di.Db.Rows.{Container}
use di.Minion.Docker.{
  user_label, is_user_label, parse_user_label, parse_user_label-user_label, label_true_value,
  scheduler_label_key, scheduler_label_value,
}
use di.Minion.Scheduler.{user_labels}
use di.Minion.Scheduler.Swarm.{add_user_labels, make_labels}

read_user_label :
    (lb : String) (m : List (String × String))
    → user_labels ((user_label lb, label_true_value) ∷ m) ≡ lb ∷ user_labels m
unfolding user_labels
read_user_label lb m =
    let (a, b) = parse_user_label-user_label lb in
    rw (a, user_labels) (ap (λ (x : String). x ∷ user_labels m) b)

user_labels-drop :
    (l k v : String) (m : List (String × String))
    → Mem l (user_labels m)
    → Mem l (user_labels ((k, v) ∷ m))
unfolding user_labels
user_labels-drop l k v m h =
    elim (Bool-cases (not (is_user_label k) || not (str_eq v label_true_value))) [
      | inl e ↦ rw e h
      | inr e ↦ rw e (mem-cons_of_mem _ h)
    ]

user_labels-step :
    (k v : String) (m n : List (String × String)) (l lb : String)
    → (Mem l (user_labels n) → Mem l (lb ∷ user_labels m))
    → Mem l (user_labels ((k, v) ∷ n))
    → Mem l (lb ∷ user_labels ((k, v) ∷ m))
unfolding user_labels
user_labels-step k v m n l lb f h =
    elim (Bool-cases (not (is_user_label k) || not (str_eq v label_true_value))) [
      | inl e ↦ rw e (f (rw e at h))
      | inr e ↦ rw e (
          Or.elim Mem-prop (mem-cons.0 (rw e at h))
            (λ q.
              mem-cons_of_mem lb
                (subst (λ x. Mem x (parse_user_label k ∷ user_labels m)) (sym q) mem-cons_self))
            (λ q.
              Or.elim Mem-prop (mem-cons.0 (f q))
                (λ r.
                  subst (λ x. Mem x (lb ∷ parse_user_label k ∷ user_labels m)) (sym r)
                    mem-cons_self)
                (λ r. mem-cons_of_mem lb (mem-cons_of_mem (parse_user_label k) r))))
    ]

user_labels-back :
    (k v : String) (m n : List (String × String)) (l lb : String)
    → (Mem l (lb ∷ user_labels m) → Mem l (user_labels n))
    → Mem l (lb ∷ user_labels ((k, v) ∷ m))
    → Mem l (user_labels ((k, v) ∷ n))
unfolding user_labels
user_labels-back k v m n l lb f h =
    elim (Bool-cases (not (is_user_label k) || not (str_eq v label_true_value))) [
      | inl e ↦ rw e (f (rw e at h))
      | inr e ↦ rw e (
          Or.elim Mem-prop (mem-cons.0 (rw e at h))
            (λ q.
              mem-cons_of_mem (parse_user_label k)
                (f (subst (λ x. Mem x (lb ∷ user_labels m)) (sym q) mem-cons_self)))
            (λ q.
              Or.elim Mem-prop (mem-cons.0 q)
                (λ r. subst (λ x. Mem x (parse_user_label k ∷ user_labels n)) (sym r) mem-cons_self)
                (λ r. mem-cons_of_mem (parse_user_label k) (f (mem-cons_of_mem lb r)))))
    ]

-- A label that is written over an entry of its own.
user_labels-over :
    (l lb v : String) (m : List (String × String))
    → Mem l (lb ∷ user_labels ((user_label lb, v) ∷ m))
    → Mem l (lb ∷ user_labels m)
unfolding user_labels
user_labels-over l lb v m h =
    elim (Bool-cases (not (is_user_label (user_label lb)) || not (str_eq v label_true_value))) [
      | inl e ↦ rw e at h
      | inr e ↦
          Or.elim Mem-prop (mem-cons.0 (rw e at h))
            (λ q. subst (λ x. Mem x (lb ∷ user_labels m)) (sym q) mem-cons_self)
            (λ q.
              subst (λ (x : String). Mem l (x ∷ user_labels m)) (parse_user_label-user_label lb).1
                q)
    ]

user_labels-put :
    (l lb : String) (m : List (String × String))
    → Mem l (user_labels (put (user_label lb) label_true_value m)) ↔ Mem l (lb ∷ user_labels m)
unfolding put
user_labels-put l lb [] = rw (read_user_label lb []) ((λ h. h), (λ h. h))
user_labels-put l lb ((j, w) ∷ m) = elim (Bool-cases (str_eq j (user_label lb))) [
  | inl e ↦
      let j≡ = (eq_iff j (user_label lb)).0 e in
      rw (e, j≡, read_user_label lb m)
        (
          (λ h.
              Or.elim Mem-prop (mem-cons.0 h)
                (λ q.
                  subst (λ x. Mem x (lb ∷ user_labels ((user_label lb, w) ∷ m))) (sym q)
                    mem-cons_self)
                (λ q. mem-cons_of_mem lb (user_labels-drop l (user_label lb) w m q))),
          user_labels-over l lb w m,
        )
  | inr e ↦ rw e (
    user_labels-step j w m (put (user_label lb) label_true_value m) l lb (user_labels-put l lb m).0,
    user_labels-back j w m (put (user_label lb) label_true_value m) l lb (user_labels-put l lb m).1,
  )
]

user_labels-add_user_labels :
    (l : String) (ls : List String) (m : List (String × String))
    → Mem l (user_labels (add_user_labels ls m)) ↔ Mem l (ls ++ user_labels m)
unfolding add_user_labels
user_labels-add_user_labels l [] m = ((λ h. h), (λ h. h))
user_labels-add_user_labels l (lb ∷ ls) m =
    let (there, back) = user_labels-add_user_labels l ls (put (user_label lb) label_true_value m) in
    let (read, write) = user_labels-put l lb m in
    (
      (λ h.
          Or.elim Mem-prop (mem-append.0 (there h))
            (λ p. mem-cons_of_mem lb (mem-append.1 (Or.inl p)))
            (λ p.
              Or.elim Mem-prop (mem-cons.0 (read p))
                (λ q. subst (λ x. Mem x (lb ∷ (ls ++ user_labels m))) (sym q) mem-cons_self)
                (λ q. mem-cons_of_mem lb (mem-append.1 (Or.inr q))))),
      (λ h.
          Or.elim Mem-prop (mem-cons.0 h)
            (λ q. back (
              mem-append.1
                (Or.inr (write (subst (λ x. Mem x (lb ∷ user_labels m)) (sym q) mem-cons_self)))))
            (λ q.
              Or.elim Mem-prop (mem-append.0 q) (λ p. back (mem-append.1 (Or.inl p)))
                (λ p. back (mem-append.1 (Or.inr (write (mem-cons_of_mem lb p))))))),
    )

system_label-ignored : user_labels ((scheduler_label_key, scheduler_label_value) ∷ []) ≡ []
unfolding user_labels is_user_label
system_label-ignored = refl

-- The labels that syncDB reads off a container that was started with makeLabels are the labels of
-- its row: a label is read exactly when the row has it, whatever the labels are.
pub user_labels-make_labels :
    (dbc : Container) (l : String) → Mem l (user_labels (make_labels dbc)) ↔ Mem l dbc.labels
unfolding make_labels
user_labels-make_labels dbc l =
    subst (λ (xs : List String). Mem l (user_labels (make_labels dbc)) ↔ Mem l xs)
      (ap (λ (xs : List String). dbc.labels ++ xs) system_label-ignored ∙ append-nil dbc.labels)
      (user_labels-add_user_labels l dbc.labels ((scheduler_label_key, scheduler_label_value) ∷ []))
