-- ===== src/Dsl.antt =====
-- dsl/dsl.go: what a compiled policy hands to the rest of the system.
-- The floating-point numbers are a type `F`, with the tests that the code makes on them.
pub mod Ast
pub mod Store
pub mod Func
pub mod Eval
pub mod Guarded
pub mod Query
pub mod Compiled
pub mod Progression
pub mod Tests
use di.Prelude.{String, Bool, Option, List, ℤ, ◌&&◌, ◌||◌}

pub record Range (F : Type 0) : Type 0 where
  pub min : F
  pub max : F

pub record DslMachine (F : Type 0) : Type 0 where
  pub provider : String
  pub role : String
  pub size : String
  pub cpu : Range F
  pub ram : Range F
  pub disk_size : ℤ
  pub region : String
  pub ssh_keys : List String

pub record DslContainer : Type 0 where
  pub image : String
  pub command : List String
  pub env : List (String × String)
  pub exclusive : List (String × String)
  pub labels : List String

pub record DslConnection : Type 0 where
  pub from : String
  pub to : String
  pub min_port : ℤ
  pub max_port : ℤ

-- The answers of a `Dsl` handle to the queries of its users. `none` of `query_float` is an error.
pub record Dsl (F : Type 0) : Type 0 where
  pub query_machines : List (DslMachine F)
  pub query_containers : List DslContainer
  pub query_connections : List DslConnection
  pub query_float : String → Option F
  pub query_string : String → String
  pub query_str_slice : String → List String
  pub code : String

-- What `New` comes to: a handle, an error, a panic, or that the evaluation goes on beyond the fuel.
pub data Compilation (F : Type 0) : Type 0 where
  accepted : Dsl F → Compilation F
  rejected : Compilation F
  crashed : Compilation F
  endless : Compilation F

-- `float64`: zero, the comparisons, and the conversion of an `int`.
pub record Float (F : Type 0) : Type 0 where
  pub zero : F
  pub eq : F → F → Bool
  pub lt : F → F → Bool
  pub le : F → F → Bool
  pub of_int : ℤ → F

-- `Range.Accepts`
unfoldable pub accepts : {F : Type 0} → Float F → Range F → F → Bool
accepts float range x =
    float.le range.min x && (float.eq range.max float.zero || float.le x range.max)
