-- ===== src/Db/Rows.antt =====
-- The rows of db/*.go and the constants of db/constants.go. An id is a Go `int` that counts up
-- from 1; ports and disk sizes are compared only. A map inside a row is an association list in
-- the order of its keys, so that `reflect.DeepEqual` is equality; nil and empty slices are one.
pub mod Less
use di.Prelude.{
  ℕ, String, Bool, true, false, Option, none, some, List, ◌||◌, ℤ, ℕ_discrete, String-discrete,
  str_eq, if◌then◌else◌,
}

pub data Role : Type 0 where
  role_none worker master : Role

-- `Provider` is a string type.
abbrev pub Provider : Type 0
Provider = String

unfoldable pub Role-discrete : Discrete Role
Role-discrete = hlevel

unfoldable pub ℤ-discrete : Discrete ℤ
ℤ-discrete = hlevel ℕ_discrete

pub record Cluster : Type 0 where
  pub id : ℕ
  pub namespace : String
  pub spec : String
  pub acls : List String

pub record Machine : Type 0 where
  pub id : ℕ
  pub cluster_id : ℕ
  pub role : Role
  pub provider : Provider
  pub region : String
  pub size : String
  pub disk_size : ℤ
  pub ssh_keys : List String
  pub cloud_id : String
  pub public_ip : String
  pub private_ip : String

pub record Container : Type 0 where
  pub id : ℕ
  pub pid : ℤ
  pub ip : String
  pub mac : String
  pub sched_id : String
  pub image : String
  pub command : List String
  pub labels : List String
  pub env : List (String × String)
  pub exclusive : List (String × String)

pub record Minion : Type 0 where
  pub id : ℕ
  pub minion_id : String
  pub role : Role
  pub private_ip : String

pub record Connection : Type 0 where
  pub id : ℕ
  pub from : String
  pub to : String
  pub min_port : ℤ
  pub max_port : ℤ

pub record Label : Type 0 where
  pub id : ℕ
  pub label : String
  pub ip : String
  pub multi_host : Bool

pub record Etcd : Type 0 where
  pub id : ℕ
  pub etcd_ips : List String
  pub leader : Bool
  pub leader_ip : String

unfoldable pub Cluster-discrete : Discrete Cluster
Cluster-discrete = hlevel (ℕ_discrete, String-discrete)

unfoldable pub Machine-discrete : Discrete Machine
Machine-discrete = hlevel (ℕ_discrete, String-discrete)

unfoldable pub Container-discrete : Discrete Container
Container-discrete = hlevel (ℕ_discrete, String-discrete)

unfoldable pub Minion-discrete : Discrete Minion
Minion-discrete = hlevel (ℕ_discrete, String-discrete)

unfoldable pub Connection-discrete : Discrete Connection
Connection-discrete = hlevel (ℕ_discrete, String-discrete)

unfoldable pub Label-discrete : Discrete Label
Label-discrete = hlevel (ℕ_discrete, String-discrete)

unfoldable pub Etcd-discrete : Discrete Etcd
Etcd-discrete = hlevel (ℕ_discrete, String-discrete)

unfoldable pub parse_provider : String → Option Provider
parse_provider name =
    if str_eq name "AmazonSpot"
      || str_eq name "Google"
      || str_eq name "Vagrant"
      || str_eq name "Azure"
    then some name
    else none

unfoldable pub parse_role : String → Option Role
parse_role role =
    if str_eq role "Master"
    then some master
    else if str_eq role "Worker"
    then some worker
    else if str_eq role ""
    then some role_none
    else none

abbrev pub role_eq : Role → Role → Bool
role_eq role_none role_none = true
role_eq worker worker = true
role_eq master master = true
role_eq _ _ = false
