-- ===== src/Minion/Scheduler/Swarm.antt =====
-- minion/scheduler/swarm.go: makeLabels and makeEnv, what a container is started with.
-- A Go map is an association list; the set of strings of `makeEnv` is a list of them.
use mathlib.Core.List.{
  mem-cons, mem-cons_self, mem-cons_of_mem, mem-append, not-mem-nil, Mem-prop, append-nil,
}
use mathlib.Core.Logic.Or
use mathlib.Core.Logic.{◌↔◌}
use di.Prelude.{
  String, Bool, not, ◌||◌, ◌≡◌, ◌⊎◌, refl, sym, ap, ◌∙◌, subst, inl, inr, List, [], ◌∷◌, ◌++◌, Mem,
  str_eq, eq_iff, Bool-cases, find, put, ◌<>◌, if◌then◌else◌,
}
use di.Db.Rows.{Container}
use di.Minion.Docker.{
  user_label, is_user_label, parse_user_label, parse_user_label-user_label, label_true_value,
  scheduler_label_key, scheduler_label_value,
}
use di.Minion.Scheduler.{user_labels}
pub mod Labels
pub mod Affinities

-- `labels[docker.UserLabel(lb)] = docker.LabelTrueValue` for each label
unfoldable pub add_user_labels : List String → List (String × String) → List (String × String)
unfolding put user_label
add_user_labels [] labels = labels
add_user_labels (lb ∷ lbs) labels =
    add_user_labels lbs (put (user_label lb) label_true_value labels)

unfoldable pub make_labels : Container → List (String × String)
unfolding add_user_labels
make_labels dbc = add_user_labels dbc.labels ((scheduler_label_key, scheduler_label_value) ∷ [])

-- The affinities of one label, and those of all.
unfoldable pub affinities : String → List (String × String) → List String
unfolding user_label
affinities label [] = []
affinities label ((a, b) ∷ exclusive) =
    let rest = affinities label exclusive in
    if str_eq a label
    then ("affinity:" <> user_label b <> "!=" <> label_true_value) ∷ rest
    else if str_eq b label
    then ("affinity:" <> user_label a <> "!=" <> label_true_value) ∷ rest
    else rest

unfoldable pub label_affinities : List String → List (String × String) → List String
unfolding affinities
label_affinities [] exclusive = []
label_affinities (label ∷ labels) exclusive =
    affinities label exclusive ++ label_affinities labels exclusive

unfoldable pub env_strings : List (String × String) → List String
env_strings [] = []
env_strings ((key, value) ∷ env) = (key <> "=" <> value) ∷ env_strings env

unfoldable pub make_env : Container → List String
unfolding label_affinities env_strings
make_env dbc = label_affinities dbc.labels dbc.exclusive ++ env_strings dbc.env
