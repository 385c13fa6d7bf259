-- ===== src/Minion/Policy/Tests.antt =====
-- A policy of the language of dsl/ in the tables of a minion.
use di.Prelude.{ℕ, String, Option, none, some, List, [], ◌≡◌, refl, Mem}
use di.Dsl.{Compilation, accepted, Dsl}
use di.Dsl.Ast.{Ast, to_list}
use di.Dsl.Query.{
  compile, dsl_handle, query_containers, handle_shared, query_listed, query_container, strings_of,
  env_of,
}
use di.Dsl.Func.{as_string}
use di.Dsl.Tests.{run, host, web}
use di.Dsl.Guarded.{Connectable}
use di.Db.{Database, new, select_from, connection_row, container_row}
use di.Db.Tables.{new_table}
use di.Db.Checks.{WellFormed-by_check}
use di.Db.Rows.{Connection, Container, master}
use di.Db.Sync.Policy.{WellFormed}
use di.Minion.Policy.{update_policy}
use di.Minion.Policy.Follow.{any}
use di.Minion.Policy.Ports.{row_connection, update_policy-Connectable}

abbrev parse : String → Option (List (Ast ℕ))
parse text = elim web [ Ast.root xs ↦ some (to_list xs) | _ ↦ none ]

abbrev fetch : String → Option (List String)
fetch user = none

abbrev show : List (Ast ℕ) → String
show asts = "(web)"

abbrev spec_of : Compilation ℕ → Dsl ℕ
spec_of (accepted d) = d
spec_of _ = record {
  query_machines = [];
  query_containers = [];
  query_connections = [];
  query_float = λ k. none;
  query_string = λ k. "";
  query_str_slice = λ k. [];
  code = "";
}

web_compiles :
    compile host 12 fetch parse show "" ≡ accepted (spec_of (compile host 12 fetch parse show ""))
unfolding compile run web dsl_handle query_containers handle_shared query_listed query_container
    strings_of env_of as_string
web_compiles = refl

connections-WellFormed : WellFormed Connection new
unfolding new new_table
connections-WellFormed = WellFormed-by_check Connection new refl

containers-WellFormed : WellFormed Container new
unfolding new new_table
containers-WellFormed = WellFormed-by_check Container new refl

update_policy-Connectable_example :
    (db' : Database) × (update_policy (compile host 12 fetch parse show) new master "" ≡ some db')
    × ((c : Connection) → Mem c (select_from any db') → Connectable (row_connection c))
update_policy-Connectable_example =
    update_policy-Connectable host 12 fetch parse show new master ""
      (spec_of (compile host 12 fetch parse show "")) web_compiles connections-WellFormed
      containers-WellFormed
