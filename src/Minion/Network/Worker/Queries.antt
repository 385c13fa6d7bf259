-- ===== src/Minion/Network/Worker/Queries.antt =====
-- What minion/network/link.go asks `ip` for; `none` is an error.
use di.Prelude.{String, Option, none, some, List, ◌∷◌, ◌<>◌, str_eq, if◌then◌else◌}
use di.Minion.Network.Worker.Commands.{Ran, stdout, ip_exec_verbose}
use di.Minion.Network.Worker.Words.{fields, addresses}

-- The field that follows the first field `query` that is not the last one.
unfoldable pub value_after : String → List String → Option String
value_after query (name ∷ value ∷ rest) =
    let later = value_after query (value ∷ rest) in if str_eq name query then some value else later
value_after query _ = none

module _ {W : Type 0} (sh : String → W → W × Ran) where
  unfoldable pub output : {A : Type 0} → (String → Option A) → W × Ran → W × Option A
  output read (w, stdout text) = (w, read text)
  output read (w, _) = (w, none)

  unfoldable pub list_ip : String → String → W → W × Option (List String)
  unfolding ip_exec_verbose output addresses
  list_ip namespace dev w =
      output (λ text. some (addresses text))
        (ip_exec_verbose sh namespace ("addr list dev " <> dev) w)

  unfoldable pub link_query : String → String → String → W → W × Option String
  unfolding ip_exec_verbose output fields value_after
  link_query namespace name query w =
      output (λ text. value_after query (fields text))
        (ip_exec_verbose sh namespace ("link show " <> name) w)

  unfoldable pub get_mac : String → String → W → W × Option String
  unfolding link_query
  get_mac namespace dev = link_query namespace dev "link/ether"
