-- ===== src/Db/Rows/Less/Orders.antt =====
-- Which of the `less` methods of db/*.go order the rows.
use di.Prelude.{
  ℕ, String, Bool, true, false, not, ◌≡◌, ◌≢◌, ◌<◌, refl, sym, ap, ◌∙◌, inl, inr, str_eq,
  str_ltb-flip, int_eq, ltb, if◌then◌else◌, eq_iff, arith, Bool-cases,
}
use di.Db.Rows.{Machine, Connection, Label, Role, role_none, worker, master, role_eq}
use di.Db.Rows.Less.{
  role_gt, int_ltb, bool_eq, is_up, is_down, machine_less, connection_less, label_less,
}

str_eq_sym : (a b : String) → str_eq a b ≡ str_eq b a
str_eq_sym a b = elim (Bool-cases (str_eq a b)) [
  | inl e ↦ e ∙ sym ((eq_iff b a).1 (sym ((eq_iff a b).0 e)))
  | inr e ↦ elim (Bool-cases (str_eq b a)) [
    | inl f ↦ (eq_iff a b).1 (sym ((eq_iff b a).0 f)) ∙ sym f
    | inr f ↦ e ∙ sym f
  ]
]

ltb-flip : (a b : ℕ) → a ≢ b → ltb b a ≡ not (ltb a b)
ltb-flip a b n = ground arith

-- One key of a comparison: where the keys differ they decide, else the rest does.
by_key :
    (same same' here here' rest rest' : Bool)
    → same' ≡ same
    → (same ≡ false → here' ≡ not here)
    → rest' ≡ not rest
    → (if not same' then here' else rest') ≡ not (if not same then here else rest)
by_key true same' here here' rest rest' e h r = rw e r
by_key false same' here here' rest rest' e h r = rw e (h refl)

bool_eq_sym : (a b : Bool) → bool_eq b a ≡ bool_eq a b
bool_eq_sym true true = refl
bool_eq_sym true false = refl
bool_eq_sym false true = refl
bool_eq_sym false false = refl

bool_flip : (a b : Bool) → bool_eq a b ≡ false → b ≡ not a
bool_flip true true e = e
bool_flip true false e = refl
bool_flip false true e = refl
bool_flip false false e = sym e

role_eq_sym : (a b : Role) → role_eq b a ≡ role_eq a b
role_eq_sym role_none role_none = refl
role_eq_sym role_none worker = refl
role_eq_sym role_none master = refl
role_eq_sym worker role_none = refl
role_eq_sym worker worker = refl
role_eq_sym worker master = refl
role_eq_sym master role_none = refl
role_eq_sym master worker = refl
role_eq_sym master master = refl

role_flip : (a b : Role) → role_eq a b ≡ false → role_gt b a ≡ not (role_gt a b)
role_flip role_none role_none e = sym e
role_flip role_none worker e = refl
role_flip role_none master e = refl
role_flip worker role_none e = refl
role_flip worker worker e = sym e
role_flip worker master e = refl
role_flip master role_none e = refl
role_flip master worker e = refl
role_flip master master e = sym e

-- Two machines with different ids are in order one way around and only that way.
pub machine_less-flip : (l r : Machine) → l.id ≢ r.id → machine_less r l ≡ not (machine_less l r)
unfolding machine_less
machine_less-flip l r n = by_key _ _ _ _ _ _ (role_eq_sym l.role r.role) (role_flip l.role r.role) (
    by_key _ _ _ _ _ _ (bool_eq_sym (is_up l) (is_up r)) (bool_flip (is_up l) (is_up r)) (
      by_key _ _ _ _ _ _ (bool_eq_sym (is_down l) (is_down r))
        (λ e. ap not (bool_flip (is_down l) (is_down r) e))
        (by_key _ _ _ _ _ _ (str_eq_sym r.cloud_id l.cloud_id) (str_ltb-flip l.cloud_id r.cloud_id)
          (ltb-flip l.id r.id n))))

-- Two labels with different ids are in order one way around and only that way.
pub label_less-flip : (l r : Label) → l.id ≢ r.id → label_less r l ≡ not (label_less l r)
unfolding label_less
label_less-flip l r n =
    by_key _ _ _ _ _ _ (str_eq_sym r.label l.label) (str_ltb-flip l.label r.label)
      (ltb-flip l.id r.id n)

-- Connections are not ordered: of two that agree but for the lower port, where the one with the
-- smaller id has a single port and the other one a range up to it, each is below the other.
pub connection_less_cycle :
    (c o : Connection)
    → c.from ≡ o.from
    → c.to ≡ o.to
    → int_eq c.max_port o.max_port ≡ true
    → int_eq o.max_port c.max_port ≡ true
    → int_eq c.min_port o.max_port ≡ true
    → int_eq o.min_port c.max_port ≡ false
    → int_ltb o.min_port c.min_port ≡ true
    → c.id < o.id
    → (connection_less c o ≡ true) × (connection_less o c ≡ true)
unfolding connection_less
connection_less_cycle c o f t x y m k l i =
    let f' = (eq_iff c.from o.from).1 f in
    let t' = (eq_iff c.to o.to).1 t in
    let below : ltb c.id o.id ≡ true = ground arith in
    (
      rw (f', t', x, m) below,
      rw (sym (str_eq_sym c.from o.from) ∙ f', sym (str_eq_sym c.to o.to) ∙ t', y, k) l,
    )
