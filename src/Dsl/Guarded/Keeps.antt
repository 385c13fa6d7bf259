-- ===== src/Dsl/Guarded/Keeps.antt =====
-- What an evaluation keeps true of the store: the checks of dsl/func.go hold of all that it wrote.
use di.Prelude.{
  ◌≤◌, ◌<◌, arith, length, length-append, All-map, ap, subst, none≢some, some-injective, ◌⊎◌, ℕ,
  zero, suc, String, Option, none, some, List, [], ◌∷◌, ◌++◌, ◌≡◌, ◌≢◌, refl, sym, ◌∙◌, All,
  All-snoc, set, get_elem?, put-All, Bool-cases, inl, inr,
}
use di.Dsl.{Float, DslConnection}
use di.Dsl.Ast.{Ast, Ctx, AstLabel, key_eq}
use di.Dsl.Store.{
  Shared, AstContainer, Store, Outcome, ok, failed, panicked, timeout, M, pure, fail, panic,
  no_fuel, gets, must, ◌>>=◌, ◌>>◌, map_error, after, map_failed, Error,
}
use di.Dsl.Store.Actions.{
  get_frame, head_frame, global_ctx, global_shared, alloc_frame, alloc_shared, set_frame,
  modify_shared, add_label, add_connection, list_machine, list_container, put_shared, put_container,
  modify_container, alloc_machine, set_machine, alloc_container, set_env, set_exclusive,
  set_container_labels, no_shared, add_to_set, put_key, connection_eq,
}
use di.Dsl.Func.Labels.{public_label}
use di.Dsl.Func.Atoms.{add_container}
use di.Dsl.Guarded.{
  Guarded, Connectable, IsString, pures, fails, panics, times_out, reads, binds, maps_error,
  allocs_frame, allocs_shared, sets_frame, adds_label, adds_connection, lists_machine,
  allocs_machine, sets_machine, adds_container, sets_env, sets_exclusive, sets_container_labels,
}

abbrev pub LabelEntry : String × AstLabel → Type 0
LabelEntry (name, l) = (l.ident ≡ name) × (name ≢ public_label)

abbrev pub EnvEntry : {F : Type 0} → Ast F × Ast F → Type 0
EnvEntry (k, v) = IsString k × IsString v

-- The containers of a context are in the store.
abbrev pub Listed : ℕ → Shared → Type 0
Listed n sh = All (λ i. i < n) sh.containers

pub record SharedSound (sh : Shared) : Type 0 where
  pub connections : All Connectable sh.connections
  pub labels : All LabelEntry sh.labels

pub record ContainerSound {F : Type 0} (c : AstContainer F) : Type 0 where
  pub command : All IsString c.command
  pub env : All EnvEntry c.env

pub record StoreSound {F : Type 0} (st : Store F) : Type 0 where
  pub shareds : All SharedSound st.shareds
  pub containers : All ContainerSound st.containers
  pub listed : All (Listed (length st.containers)) st.shareds

-- The store after an evaluation that returns.
abbrev pub Returned : {F A : Type 0} → Outcome (Store F) A → Type 0
Returned (ok a st) = StoreSound st
Returned _ = Unit

set-All :
    {A : Type 0} (P : A → Type 0) (xs : List A) (i : ℕ) (x : A)
    → All P xs
    → P x
    → All P (set xs i x)
set-All P [] i x h p = tt
set-All P (y ∷ ys) zero x (a, h) p = (p, h)
set-All P (y ∷ ys) (suc i) x (a, h) p = (a, set-All P ys i x h p)

get_elem?-All :
    {A : Type 0} (P : A → Type 0) (xs : List A) (i : ℕ) (x : A)
    → All P xs
    → get_elem? xs i ≡ some x
    → P x
get_elem?-All P [] i x h e = absurd (none≢some e)
get_elem?-All P (y ∷ ys) zero x (a, h) e = subst P (some-injective e) a
get_elem?-All P (y ∷ ys) (suc i) x (a, h) e = get_elem?-All P ys i x h e

add_to_set-All :
    (c : DslConnection) (cs : List DslConnection)
    → Connectable c
    → All Connectable cs
    → All Connectable (add_to_set c cs)
unfolding add_to_set
add_to_set-All c [] p h = (p, tt)
add_to_set-All c (d ∷ ds) p (a, h) = elim (Bool-cases (connection_eq d c)) [
  | inl e ↦ rw (e, add_to_set) (a, h)
  | inr e ↦ rw (e, add_to_set) (a, add_to_set-All c ds p h)
]

put_key-All :
    {F : Type 0} (fl : Float F) (k v : Ast F) (m : List (Ast F × Ast F))
    → IsString k
    → IsString v
    → All EnvEntry m
    → All EnvEntry (put_key fl k v m)
unfolding put_key
put_key-All fl k v [] p q h = ((p, q), tt)
put_key-All fl k v ((j, w) ∷ m) p q ((a, b), h) = elim (Bool-cases (key_eq fl j k)) [
  | inl e ↦ rw (e, put_key) ((a, q), h)
  | inr e ↦ rw (e, put_key) ((a, b), put_key-All fl k v m p q h)
]

length-set : {A : Type 0} (xs : List A) (i : ℕ) (x : A) → length (set xs i x) ≡ length xs
length-set [] i x = refl
length-set (y ∷ ys) zero x = refl
length-set (y ∷ ys) (suc i) x = ap suc (length-set ys i x)

Listed-grow : (n k : ℕ) (shs : List Shared) → n ≤ k → All (Listed n) shs → All (Listed k) shs
Listed-grow n k shs le =
    All-map (Listed n) (Listed k) shs
      (λ sh. All-map (λ i. i < n) (λ i. i < k) sh.containers (λ i p. omega arith))

abbrev Placed : {F : Type 0} → Store F → Shared → Type 0
Placed st sh = SharedSound sh × Listed (length st.containers) sh

module _ {F : Type 0} where
  put_shared-Returned :
      (i : ℕ) (f : Shared → Shared) (o : Option Shared) (st : Store F)
      → StoreSound st
      → ((sh : Shared) → o ≡ some sh → Placed st (f sh))
      → Returned (put_shared i f o st)
  put_shared-Returned i f none st s h = tt
  put_shared-Returned i f (some sh) st s h =
      let (p, q) = h sh refl in
      record {
        shareds = set-All SharedSound st.shareds i (f sh) s.shareds p;
        containers = s.containers;
        listed = set-All (Listed (length st.containers)) st.shareds i (f sh) s.listed q;
      }

  modify_shared-Returned :
      (i : ℕ) (f : Shared → Shared) (st : Store F)
      → StoreSound st
      → ((sh : Shared) → Placed st sh → Placed st (f sh))
      → Returned (modify_shared i f st)
  unfolding modify_shared
  modify_shared-Returned i f st s h = put_shared-Returned i f (get_elem? st.shareds i) st s (λ sh e.
      h sh (
        get_elem?-All SharedSound st.shareds i sh s.shareds e,
        get_elem?-All (Listed (length st.containers)) st.shareds i sh s.listed e,
      ))

  put_container-Returned :
      (i : ℕ) (f : AstContainer F → AstContainer F) (o : Option (AstContainer F)) (st : Store F)
      → StoreSound st
      → ((c : AstContainer F) → o ≡ some c → ContainerSound (f c))
      → Returned (put_container i f o st)
  put_container-Returned i f none st s h = tt
  put_container-Returned i f (some c) st s h = record {
    shareds = s.shareds;
    containers = set-All ContainerSound st.containers i (f c) s.containers (h c refl);
    listed =
        Listed-grow (length st.containers) (length (set st.containers i (f c))) st.shareds
          (let e = length-set st.containers i (f c) in omega arith) s.listed;
  }

  modify_container-Returned :
      (i : ℕ) (f : AstContainer F → AstContainer F) (st : Store F)
      → StoreSound st
      → ((c : AstContainer F) → ContainerSound c → ContainerSound (f c))
      → Returned (modify_container i f st)
  unfolding modify_container
  modify_container-Returned i f st s h =
      put_container-Returned i f (get_elem? st.containers i) st s
        (λ c e. h c (get_elem?-All ContainerSound st.containers i c s.containers e))

after-Returned :
    {F A B : Type 0} (o : Outcome (Store F) A) (f : A → M F B)
    → Returned o
    → ((a : A) (st : Store F) → StoreSound st → Returned (f a st))
    → Returned (after o f)
after-Returned (ok a st) f s h = h a st s
after-Returned (failed e) f s h = tt
after-Returned panicked f s h = tt
after-Returned timeout f s h = tt

map_failed-Returned :
    {F A : Type 0} (g : Error → Error) (o : Outcome (Store F) A)
    → Returned o
    → Returned (map_failed g o)
map_failed-Returned g (ok a st) s = s
map_failed-Returned g (failed e) s = tt
map_failed-Returned g panicked s = tt
map_failed-Returned g timeout s = tt

-- Actions that only look at the store: they give a value or panic.
abbrev Looks : {F A : Type 0} → M F A → Type 0
Looks {F} {A} m = (st : Store F) → ((a : A) × (m st ≡ ok a st)) ⊎ (m st ≡ panicked)

module _ {F : Type 0} where
  bind-Looks :
      {A B : Type 0} (m : M F A) (f : A → M F B)
      → Looks m
      → ((a : A) → Looks (f a))
      → Looks (m >>= f)
  unfolding ◌>>=◌
  bind-Looks m f p q st = elim (p st) [ inl (a, e) ↦ rw e (q a st) | inr e ↦ inr (rw e refl) ]

  must-Looks : {A : Type 0} (o : Option A) → Looks {F = F} (must o)
  unfolding must pure panic
  must-Looks none st = inr refl
  must-Looks (some a) st = inl (a, refl)

  get_frame-Looks : (i : ℕ) → Looks {F = F} (get_frame i)
  unfolding get_frame gets
  get_frame-Looks i = bind-Looks _ _ (λ st. inl (_, refl)) must-Looks

  head_frame-Looks : (ctx : Ctx) → Looks {F = F} (head_frame ctx)
  unfolding head_frame pure panic
  head_frame-Looks [] st = inr refl
  head_frame-Looks (i ∷ is) st = inl (i, refl)

  global_ctx-Looks : (ctx : Ctx) → Looks {F = F} (global_ctx ctx)
  unfolding global_ctx pure panic
  global_ctx-Looks [] st = inr refl
  global_ctx-Looks (i ∷ []) st = inl (_, refl)
  global_ctx-Looks (i ∷ j ∷ is) st = global_ctx-Looks (j ∷ is) st

  global_shared-Looks : (ctx : Ctx) → Looks {F = F} (global_shared ctx)
  unfolding global_shared pure
  global_shared-Looks ctx = bind-Looks _ _ (global_ctx-Looks ctx) (λ g.
      bind-Looks _ _ (head_frame-Looks g)
        (λ i. bind-Looks _ _ (get_frame-Looks i) (λ fr st. inl (_, refl))))

  alloc_container-Sound :
      (c : AstContainer F) (st : Store F)
      → All IsString c.command
      → c.env ≡ []
      → StoreSound st
      → StoreSound (record st { containers = st.containers ++ (c ∷ []) })
  alloc_container-Sound c st p q s = record {
    shareds = s.shareds;
    containers =
        All-snoc ContainerSound st.containers c s.containers
          (record { command = p; env = subst (All EnvEntry) (sym q) tt });
    listed =
        Listed-grow (length st.containers) (length (st.containers ++ (c ∷ []))) st.shareds
          (let e = length-append st.containers (c ∷ []) in omega arith) s.listed;
  }

  list_container-Returned :
      (g i : ℕ) (a : Ast F) (st : Store F)
      → i < length st.containers
      → StoreSound st
      → Returned ((list_container g i >> pure a) st)
  unfolding ◌>>=◌ pure list_container
  list_container-Returned g i a st lt s =
      after-Returned _ _
        (modify_shared-Returned g _ st s (λ sh (p, q). (
          record { connections = p.connections; labels = p.labels },
          All-snoc (λ k. k < length st.containers) sh.containers i q lt,
        )))
        (λ _ st' s'. s')

  add_container-Returned :
      (ctx : Ctx) (c : AstContainer F) (st : Store F)
      → All IsString c.command
      → c.env ≡ []
      → StoreSound st
      → Returned (add_container ctx c st)
  unfolding add_container ◌>>=◌ alloc_container
  add_container-Returned ctx c st p q s =
      let st' : Store F = record st { containers = st.containers ++ (c ∷ []) } in
      elim (global_shared-Looks ctx st') [
        | inl (g, e) ↦ rw e (
            list_container-Returned g (length st.containers) _ st'
              (let l = length-append st.containers (c ∷ []) in omega arith)
              (alloc_container-Sound c st p q s))
        | inr e ↦ rw e tt
      ]

pub Guarded-Returned :
    {F A : Type 0} {m n : M F A} → Guarded A m n → (st : Store F) → StoreSound st → Returned (m st)
unfolding pure fail panic no_fuel gets ◌>>=◌ map_error alloc_frame alloc_shared set_frame add_label
    add_connection list_machine alloc_machine set_machine set_env set_exclusive set_container_labels
Guarded-Returned (pures a) st s = s
Guarded-Returned (fails e) st s = tt
Guarded-Returned panics st s = tt
Guarded-Returned (times_out m) st s = tt
Guarded-Returned (reads f) st s = s
Guarded-Returned (binds {m = m} {f = f} p q) st s =
    after-Returned (m st) f (Guarded-Returned p st s) (λ a st' s'. Guarded-Returned (q a) st' s')
Guarded-Returned (maps_error g {m = m} p) st s =
    map_failed-Returned g (m st) (Guarded-Returned p st s)
Guarded-Returned (allocs_frame fr) st s = record {
  shareds = s.shareds;
  containers = s.containers;
  listed = s.listed;
}
Guarded-Returned allocs_shared st s = record {
  shareds =
      All-snoc SharedSound st.shareds no_shared s.shareds
        (record { connections = tt; labels = tt });
  containers = s.containers;
  listed = All-snoc (Listed (length st.containers)) st.shareds no_shared s.listed tt;
}
Guarded-Returned (sets_frame i fr) st s = record {
  shareds = s.shareds;
  containers = s.containers;
  listed = s.listed;
}
Guarded-Returned (adds_label i name l e n) st s = modify_shared-Returned i _ st s (λ sh (h, q). (
  record {
    connections = h.connections;
    labels = put-All LabelEntry name l sh.labels (λ j q. (e ∙ sym q, λ r. n (sym q ∙ r))) h.labels;
  },
  q,
))
Guarded-Returned (adds_connection i c p) st s = modify_shared-Returned i _ st s (λ sh (h, q). (
  record { connections = add_to_set-All c sh.connections p h.connections; labels = h.labels },
  q,
))
Guarded-Returned (lists_machine i p) st s =
    modify_shared-Returned i _ st s
      (λ sh (h, q). (record { connections = h.connections; labels = h.labels }, q))
Guarded-Returned (allocs_machine m) st s = record {
  shareds = s.shareds;
  containers = s.containers;
  listed = s.listed;
}
Guarded-Returned (sets_machine i m) st s = record {
  shareds = s.shareds;
  containers = s.containers;
  listed = s.listed;
}
Guarded-Returned (adds_container ctx c p q) st s = add_container-Returned ctx c st p q s
Guarded-Returned (sets_env fl i k v p q) st s =
    modify_container-Returned i _ st s
      (λ c h. record { command = h.command; env = put_key-All fl k v c.env p q h.env })
Guarded-Returned (sets_exclusive i ps) st s =
    modify_container-Returned i _ st s (λ c h. record { command = h.command; env = h.env })
Guarded-Returned (sets_container_labels i ls) st s =
    modify_container-Returned i _ st s (λ c h. record { command = h.command; env = h.env })
