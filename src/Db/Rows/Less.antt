-- ===== src/Db/Rows/Less.antt =====
-- The `less` methods of db/machine.go, db/connection.go and db/label.go, by which rows are sorted.
pub mod Orders
use di.Prelude.{
  ℕ, String, Bool, true, false, not, ◌&&◌, ◌||◌, ℤ, pos, negsuc, str_eq, str_ltb, int_eq, ltb, leb,
  ◌==◌, if◌then◌else◌,
}
use di.Db.Rows.{Machine, Connection, Label, Role, role_none, worker, master, role_eq}

-- `l.Role > r.Role`
abbrev pub role_gt : Role → Role → Bool
role_gt master master = false
role_gt master _ = true
role_gt worker role_none = true
role_gt _ _ = false

abbrev pub int_ltb : ℤ → ℤ → Bool
int_ltb (pos a) (pos b) = ltb a b
int_ltb (negsuc a) (negsuc b) = ltb b a
int_ltb (negsuc a) (pos b) = true
int_ltb (pos a) (negsuc b) = false

abbrev pub bool_eq : Bool → Bool → Bool
bool_eq true true = true
bool_eq false false = true
bool_eq _ _ = false

abbrev pub is_up : Machine → Bool
is_up m = not (str_eq m.public_ip "") && not (str_eq m.private_ip "")

abbrev pub is_down : Machine → Bool
is_down m = str_eq m.public_ip "" && str_eq m.private_ip ""

unfoldable pub machine_less : Machine → Machine → Bool
machine_less l r =
    if not (role_eq l.role r.role)
    then role_gt l.role r.role
    else if not (bool_eq (is_up l) (is_up r))
    then is_up l
    else if not (bool_eq (is_down l) (is_down r))
    then not (is_down l)
    else if not (str_eq l.cloud_id r.cloud_id)
    then str_ltb l.cloud_id r.cloud_id
    else ltb l.id r.id

unfoldable pub connection_less : Connection → Connection → Bool
connection_less c o =
    if not (str_eq c.from o.from)
    then str_ltb c.from o.from
    else if not (str_eq c.to o.to)
    then str_ltb c.to o.to
    else if not (int_eq c.max_port o.max_port)
    then int_ltb c.max_port o.max_port
    else if not (int_eq c.min_port o.max_port)
    then int_ltb c.min_port o.min_port
    else ltb c.id o.id

unfoldable pub label_less : Label → Label → Bool
label_less r r2 = if not (str_eq r.label r2.label) then str_ltb r.label r2.label else ltb r.id r2.id
