-- ===== src/Minion/Policy/Ports.antt =====
-- A policy from its text to the rows of a minion: dsl/eval.go, dsl/dsl.go and minion/engine.go.
use mathlib.Core.List.{mem-map_of_mem, mem-map}
use mathlib.Core.List.Perm
use mathlib.Core.HLevel.{hedberg, ¬_prop}
use native.Mathlib.Bridge.{le_prop}
use mathlib.Core.Logic.{∥∥₁_elim}
use di.Prelude.{
  ℤ, negsuc, ℕ, String, Option, some, List, ◌≡◌, inl, inr, refl, sym, ◌∙◌, subst, ap, All, All→Mem,
  Mem, Perm, map, pos, some-injective, none≢some, Option-cases,
}
use di.Dsl.{DslConnection, Dsl, accepted, rejected, crashed}
use di.Dsl.Ast.{Ast, Ctx, of_list}
use di.Dsl.Store.{Store, Outcome, ok, failed, panicked, timeout}
use di.Dsl.Eval.{eval}
use di.Dsl.Func.{Host}
use di.Dsl.Query.{compile, handle_of, dsl_handle, query_connections, query_containers}
use di.Dsl.Guarded.{InRange, Connectable}
use di.Dsl.Compiled.{eval-query_connections}
use di.Db.{Database, connection_row, container_row, select_from}
use di.Db.Rows.{ℤ-discrete, Connection, Container, Role}
use di.Db.Sync.Policy.{WellFormed}
use di.Minion.Policy.{update_policy}
use di.Minion.Policy.Follow.{any, connection_view, connection_source, update_policy-PolicyHolds}

dsl_handle-connections :
    {F : Type 0} (ctx : Ctx) (st : Store F) (fetch : String → Option (List String)) (text : String)
    (spec : Dsl F)
    → dsl_handle ctx st fetch text ≡ some spec
    → spec.query_connections ≡ query_connections ctx st
unfolding dsl_handle
dsl_handle-connections ctx st fetch text spec h = elim (Option-cases (query_containers ctx st)) [
  | inl e ↦ absurd (none≢some (rw e at h))
  | inr (cs, e) ↦ sym (ap (λ (d : Dsl _). d.query_connections) (some-injective (rw e at h)))
]

InRange-prop : (lo hi : ℤ) → IsProp (InRange lo hi)
InRange-prop (pos a) (pos b) = hlevel le_prop
InRange-prop (pos a) (negsuc b) = hlevel
InRange-prop (negsuc a) (pos b) = hlevel
InRange-prop (negsuc a) (negsuc b) = hlevel

Connectable-prop : (c : DslConnection) → IsProp (Connectable c)
Connectable-prop c p q = λ i. record {
  in_range = InRange-prop c.min_port c.max_port p.in_range q.in_range i;
  public_port = λ e. hedberg ℤ-discrete c.min_port c.max_port (p.public_port e) (q.public_port e) i;
  public_once = λ e. ¬_prop (p.public_once e) (q.public_once e) i;
}

-- The connection that a row holds.
abbrev pub row_connection : Connection → DslConnection
row_connection c = record { from = c.from; to = c.to; min_port = c.min_port; max_port = c.max_port }

mem-Connectable :
    (rows : List Connection) (qs : List DslConnection)
    → Perm (map connection_view rows) (map connection_source qs)
    → All Connectable qs
    → (c : Connection) → Mem c rows
    → Connectable (row_connection c)
mem-Connectable rows qs p h c m =
    ∥∥₁_elim (mem-map.0 ((Perm.mem_iff p).0 (mem-map_of_mem connection_view m)))
      (Connectable-prop _)
      (λ (q, n, e).
        subst (λ (r : Connection). Connectable (row_connection r)) e
          (All→Mem Connectable-prop qs h q n))

module _ {F : Type 0} (host : Host F) (fuel : ℕ) (fetch : String → Option (List String))
    (parse : String → Option (List (Ast F))) (show : List (Ast F) → String) where
  handle_of-Connectable :
      (asts : List (Ast F)) (spec : Dsl F) (o : Outcome (Store F) (Ast F × Ctx))
      → o ≡ eval host fuel (Ast.root (of_list asts))
      → handle_of host fuel fetch parse show asts o ≡ accepted spec
      → All Connectable spec.query_connections
  handle_of-Connectable asts spec (ok (v, ctx) st) e h =
      elim (Option-cases (dsl_handle ctx st fetch (show asts))) [
        | inl f ↦ let clash : crashed ≡ accepted spec = rw (f, handle_of) at h in cc
        | inr (d, f) ↦
            let held : accepted d ≡ accepted spec = rw (f, handle_of) at h in
            let same : d ≡ spec = cc in
            subst (All Connectable)
              (sym (dsl_handle-connections ctx st fetch (show asts) spec (f ∙ ap some same)))
              (eval-query_connections host fuel (Ast.root (of_list asts)) v ctx st (sym e))
      ]
  handle_of-Connectable asts spec (failed x) e h = cc
  handle_of-Connectable asts spec panicked e h = cc
  handle_of-Connectable asts spec timeout e h = cc

  compile-Connectable :
      (text : String) (spec : Dsl F)
      → compile host fuel fetch parse show text ≡ accepted spec
      → All Connectable spec.query_connections
  unfolding compile
  compile-Connectable text spec h = elim (Option-cases (parse text)) [
    | inl e ↦ let clash : rejected ≡ accepted spec = rw (e, compile) at h in cc
    | inr (asts, e) ↦ handle_of-Connectable asts spec _ refl (rw (e, compile) at h)
  ]

  -- From the text of a policy to the tables: after a minion was given a policy that compiles, every
  -- row of its connection table has ports in order between 0 and 65535, and the public internet is
  -- on one side of it at most, with a single port. The update does not panic, given distinct ids
  -- that were handed out.
  pub update_policy-Connectable :
      (db : Database) (role : Role) (text : String) (spec : Dsl F)
      → compile host fuel fetch parse show text ≡ accepted spec
      → WellFormed Connection db
      → WellFormed Container db
      → (db' : Database) × (update_policy (compile host fuel fetch parse show) db role text
          ≡ some db')
        × ((c : Connection) → Mem c (select_from any db') → Connectable (row_connection c))
  update_policy-Connectable db role text spec h w v =
      let (db', e, p) =
        update_policy-PolicyHolds spec (compile host fuel fetch parse show) db role text h w v in
      (
        db',
        e,
        mem-Connectable (select_from any db') spec.query_connections p.connections
            (compile-Connectable text spec h),
      )
