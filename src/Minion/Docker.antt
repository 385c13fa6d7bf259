-- ===== src/Minion/Docker.antt =====
-- minion/docker/docker.go: the containers that the daemon reports, and the names of labels.
-- The daemon itself is outside the program.
use Prim.Native.String.{slice, len}
use text.Mathlib.Text.{starts_with}
use text.Mathlib.TextPositions.{starts_with-append, slice-append_right, len-append}
use di.Prelude.{String, Bool, true, ◌≡◌, ◌<>◌, ℤ, List, if◌then◌else◌}

abbrev pub label_base : String
label_base = "di."

abbrev pub user_label_prefix : String
user_label_prefix = label_base <> "user.label."

abbrev pub system_label_prefix : String
system_label_prefix = label_base <> "system.label."

abbrev pub label_true_value : String
label_true_value = "1"

abbrev pub scheduler_label_key : String
scheduler_label_key = system_label_prefix <> "DI"

abbrev pub scheduler_label_value : String
scheduler_label_value = "Scheduler"

-- `Container` as the client returns it.
pub record DockerContainer : Type 0 where
  pub id : String
  pub name : String
  pub image : String
  pub ip : String
  pub path : String
  pub args : List String
  pub pid : ℤ
  pub env : List (String × String)
  pub labels : List (String × String)

unfoldable pub user_label : String → String
user_label label = user_label_prefix <> label

unfoldable pub is_user_label : String → Bool
is_user_label label = starts_with label user_label_prefix

-- `strings.TrimPrefix`
unfoldable pub parse_user_label : String → String
parse_user_label label =
    if starts_with label user_label_prefix
    then slice label (len user_label_prefix) (len label)
    else label

-- Every label, tagged as a user label, is recognised as one and read back.
pub parse_user_label-user_label :
    (label : String)
    → (is_user_label (user_label label) ≡ true) × (parse_user_label (user_label label) ≡ label)
unfolding is_user_label parse_user_label user_label
parse_user_label-user_label label = (
  starts_with-append user_label_prefix label,
  rw (starts_with-append user_label_prefix label, len-append user_label_prefix label)
      (slice-append_right user_label_prefix label),
)
