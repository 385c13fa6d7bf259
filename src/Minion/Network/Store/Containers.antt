-- ===== src/Minion/Network/Store/Containers.antt =====
-- What a minion reads from the container directory of the store (`readContainerTransact`).
use mathlib.Core.List.{append-nil}
use mathlib.Core.Bool.{false≢true}
use di.Prelude.{
  inl, inr, none≢some, some-injective, true, if◌then◌else◌, Bool-cases, find, String, Bool, ◌≡◌,
  refl, sym, ap, ◌∙◌, subst, Option, none, some, List, [], ◌∷◌, ◌++◌, map, Perm,
}
use di.Db.{Database, container_row, minion_row, select_from}
use di.Db.Rows.{Container, Minion, Role, role_none, worker, master, role_eq}
use di.Db.Sync.Effects.{select_any, rows, Frame, Holds, commit_all-Holds}
use di.Db.Sync.Policy.{WellFormed, WellFormed→Holds, Holds→WellFormed}
use di.Db.Tables
use di.Minion.Policy.Follow.{any}
use di.Minion.Network.Store.{
  Directory, Children, child, read_container, read_container_transact, is_worker,
}

-- The row of the minion, when there is one row, says that it is a worker.
abbrev pub OnWorker : Database → Type 0
OnWorker db = (m : Minion) × (rows {A = Minion} db ≡ m ∷ []) × (m.role ≡ worker)

module _ (json_labels : String → List String) (mac_of : String → Option String) where
  -- What the row `c'` of a container is when the row was `c` and the directory `dir` has been read.
  pub record IsRead (dir : Directory) (db : Database) (c c' : Container) : Type 0 where
    pub same_id : c'.id ≡ c.id
    pub same_pid : c'.pid ≡ c.pid
    pub same_sched_id : c'.sched_id ≡ c.sched_id
    pub same_image : c'.image ≡ c.image
    pub same_command : c'.command ≡ c.command
    pub same_env : c'.env ≡ c.env
    pub same_exclusive : c'.exclusive ≡ c.exclusive
    pub listed_ip : (m : Children) → find c.sched_id dir ≡ some m → c'.ip ≡ child "IP" m
    pub missing_ip : find c.sched_id dir ≡ none → c'.ip ≡ ""
    pub listed_mac :
        (m : Children) (mac : String)
        → find c.sched_id dir ≡ some m
        → mac_of (child "IP" m) ≡ some mac
        → c'.mac ≡ mac
    pub unread_mac :
        (m : Children)
        → find c.sched_id dir ≡ some m
        → mac_of (child "IP" m) ≡ none
        → c'.mac ≡ c.mac
    pub missing_mac : find c.sched_id dir ≡ none → c'.mac ≡ c.mac
    pub worker_labels :
        (m : Children)
        → OnWorker db
        → find c.sched_id dir ≡ some m
        → c'.labels ≡ json_labels (child "Labels" m)
    pub missing_labels : OnWorker db → find c.sched_id dir ≡ none → c'.labels ≡ []
    pub other_labels : ¬ OnWorker db → c'.labels ≡ c.labels

  -- Every container of `db` has been read, and nothing else has changed.
  pub record Read (dir : Directory) (db db' : Database) : Type 0 where
    pub read : Container → Container
    pub as_read : (c : Container) → IsRead dir db c (read c)
    pub containers : Perm (rows {A = Container} db') (map read (rows {A = Container} db))
    pub frame : Frame Container db db'
    pub valid : WellFormed Container db'

-- `b` decides whether the rows are one, of a worker.
abbrev Decides : List Minion → Bool → Type 0
Decides ms b =
    (b ≡ true → ((m : Minion) × (ms ≡ m ∷ []) × (m.role ≡ worker)))
    × (((m : Minion) × (ms ≡ m ∷ []) × (m.role ≡ worker)) → b ≡ true)

role_worker : (r : Role) → role_eq r worker ≡ true → r ≡ worker
role_worker role_none e = absurd (false≢true e)
role_worker worker e = refl
role_worker master e = absurd (false≢true e)

is_worker-Decides : (ms : List Minion) → Decides ms (is_worker ms)
unfolding is_worker
is_worker-Decides [] = ((λ e. absurd (false≢true e)), (λ (m, e, r). cc))
is_worker-Decides (m ∷ []) = (
  λ e. (m, refl, role_worker m.role e),
  λ (n, e, r).
      let same : m ≡ n = cc in
      subst (λ (x : Minion). role_eq x.role worker ≡ true) (sym same)
        (subst (λ x. role_eq x worker ≡ true) (sym r) refl),
)
is_worker-Decides (m ∷ n ∷ ms) = ((λ e. absurd (false≢true e)), (λ (k, e, r). cc))

abbrev with_unit : List Container → List (Unit {0} × Container)
with_unit = map (λ c. (tt, c))

with_unit-rows : (cs : List Container) → map (λ p. p.1) (with_unit cs) ≡ cs
with_unit-rows [] = refl
with_unit-rows (c ∷ cs) = ap (λ (l : List Container). c ∷ l) (with_unit-rows cs)

with_unit-map :
    (read : Container → Container) (cs : List Container)
    → map (λ p. read p.1) (with_unit cs) ≡ map read cs
with_unit-map read [] = refl
with_unit-map read (c ∷ cs) = ap (λ (l : List Container). read c ∷ l) (with_unit-map read cs)

module _ (json_labels : String → List String) (mac_of : String → Option String) where
  read_container-id :
      (dir : Directory) (on_worker : Bool) (c : Container)
      → (read_container json_labels mac_of dir on_worker c).id ≡ c.id
  unfolding read_container
  read_container-id dir on_worker c = by_entry (find c.sched_id dir) refl
    where
      by_entry :
          (o : Option (List (String × String)))
          → find c.sched_id dir ≡ o
          → (read_container json_labels mac_of dir on_worker c).id ≡ c.id
      by_entry none e = rw (read_container, e) refl
      by_entry (some m) e = rw (read_container, e) refl

  module _ (dir : Directory) (db : Database) (b : Bool) (decides : Decides (rows {A = Minion} db) b)
      (c : Container) where
    if_worker : {A : Type 0} (x y : A) → OnWorker db → (if b then x else y) ≡ x
    if_worker x y h = rw (decides.1 h) refl

    if_other : {A : Type 0} (x y : A) → ¬ OnWorker db → (if b then x else y) ≡ y
    if_other x y n = elim (Bool-cases b) [ inl e ↦ absurd (n (decides.0 e)) | inr e ↦ rw e refl ]

    missing_row :
        find c.sched_id dir ≡ none
        → IsRead json_labels mac_of dir db c
            (record c { ip = ""; labels = (if b then [] else c.labels) })
    missing_row e = record {
      same_id = refl;
      same_pid = refl;
      same_sched_id = refl;
      same_image = refl;
      same_command = refl;
      same_env = refl;
      same_exclusive = refl;
      listed_ip = λ m f. absurd (none≢some (sym e ∙ f));
      missing_ip = λ f. refl;
      listed_mac = λ m mac f g. absurd (none≢some (sym e ∙ f));
      unread_mac = λ m f g. refl;
      missing_mac = λ f. refl;
      worker_labels = λ m h f. absurd (none≢some (sym e ∙ f));
      missing_labels = λ h f. if_worker [] c.labels h;
      other_labels = λ n. if_other [] c.labels n;
    }

    listed_row :
        (m : Children)
        → find c.sched_id dir ≡ some m
        → IsRead json_labels mac_of dir db c (record c {
          ip = child "IP" m;
          mac = elim (mac_of (child "IP" m)) [ none ↦ c.mac | some mac ↦ mac ];
          labels = (if b then json_labels (child "Labels" m) else c.labels);
        })
    listed_row m e =
        let same : (n : Children) → find c.sched_id dir ≡ some n → m ≡ n =
          λ n f. some-injective (sym e ∙ f) in
        record {
          same_id = refl;
          same_pid = refl;
          same_sched_id = refl;
          same_image = refl;
          same_command = refl;
          same_env = refl;
          same_exclusive = refl;
          listed_ip = λ n f. ap (child "IP") (same n f);
          missing_ip = λ f. absurd (none≢some (sym f ∙ e));
          listed_mac = λ n mac f g. rw (ap (λ x. mac_of (child "IP" x)) (same n f) ∙ g) refl;
          unread_mac = λ n f g. rw (ap (λ x. mac_of (child "IP" x)) (same n f) ∙ g) refl;
          missing_mac = λ f. absurd (none≢some (sym f ∙ e));
          worker_labels = λ n h f.
              if_worker (json_labels (child "Labels" m)) c.labels h
              ∙ ap (λ x. json_labels (child "Labels" x)) (same n f);
          missing_labels = λ h f. absurd (none≢some (sym f ∙ e));
          other_labels = λ n. if_other (json_labels (child "Labels" m)) c.labels n;
        }

    read_container-IsRead :
        IsRead json_labels mac_of dir db c (read_container json_labels mac_of dir b c)
    unfolding read_container
    read_container-IsRead = by_entry (find c.sched_id dir) refl
      where
        by_entry :
            (o : Option Children)
            → find c.sched_id dir ≡ o
            → IsRead json_labels mac_of dir db c (read_container json_labels mac_of dir b c)
        by_entry none e = rw (read_container, e) (missing_row e)
        by_entry (some m) e = rw (read_container, e) (listed_row m e)

  -- On a database whose container ids are distinct and handed out, `readContainerTransact` does not
  -- panic, and afterwards every container, and nothing else, has been read. Its address is the one
  -- that the directory has for its scheduler id, or empty when the id is missing there; its hardware
  -- address belongs to that address, or stays as it was when the id is missing or its address cannot
  -- be read. On a worker its labels are those of the directory, or none when the id is missing;
  -- elsewhere they stay. The other fields stay.
  pub read_container_transact-Read :
      (dir : Directory) (db : Database)
      → WellFormed Container db
      → (db' : Database) × (read_container_transact json_labels mac_of dir db ≡ some db')
        × Read json_labels mac_of dir db db'
  unfolding read_container_transact select_from Tables.select
  read_container_transact-Read dir db w =
      let on_worker = is_worker (select_from any db) in
      let read = read_container json_labels mac_of dir on_worker in
      let listed : map (λ p. p.1) (with_unit (select_from any db)) ++ [] ≡ rows {A = Container} db =
        append-nil _ ∙ with_unit-rows (select_from any db) ∙ select_any (rows {A = Container} db) in
      let (db', e, h) =
        commit_all-Holds (λ (s : Unit {0}) c. read c) (λ s c. read_container-id dir on_worker c) db
          db (with_unit (select_from any db)) []
          (subst (Holds db db) (sym listed) (WellFormed→Holds w)) in
      (
        db',
        e,
        record {
          read = read;
          as_read = read_container-IsRead dir db on_worker (
              subst (λ x. Decides x on_worker) (select_any (rows {A = Minion} db))
                (is_worker-Decides (select_from any db)));
          containers =
              subst (Perm (rows {A = Container} db'))
                (append-nil _
                  ∙ with_unit-map read (select_from any db)
                  ∙ ap (map read) (select_any (rows {A = Container} db)))
                h.perm;
          frame = h.frame;
          valid = Holds→WellFormed h;
        },
      )
