-- ===== src/Minion/Network/Ips.antt =====
-- minion/network/store.go: `syncIPs`, which gives an address to every entry that lacks one.
-- An address is a `uint32`. The mask of all calls is 0xffff0000, so `x & mask` is
-- `x - x % 65536`, `x & ^mask` is `x % 65536`, and an or of the two kinds is a sum. The parser and
-- the printer of addresses, of the package net, and `rand.Uint32` are parameters.
pub mod Outcome
pub mod Fresh
pub mod Given
use di.Prelude.{
  put, del, ℕ, zero, suc, ◌+◌, ◌-◌, ◌%◌, String, Bool, true, false, Option, none, some, List, [],
  ◌∷◌, ◌<>◌, ◌||◌, str_eq, ◌==◌, if◌then◌else◌,
}
use di.Minion.Network.Store.{Directory, Children, Store, child, children}

unfoldable pub gateway_ip : String
gateway_ip = "10.0.0.1"

abbrev pub occurs : ℕ → List ℕ → Bool
occurs n [] = false
occurs n (m ∷ ms) = m == n || occurs n ms

module _ (parse4 : String → Option ℕ) where
  -- `parseIP`: 0 where the string is no address of the prefix.
  unfoldable pub parse_ip : String → ℕ → ℕ
  parse_ip ip_str prefix = elim (parse4 ip_str) [
    | none ↦ 0
    | some ip32 ↦ if ip32 - ip32 % 65536 == prefix then ip32 else 0
  ]

  -- The first loop of `syncIPs`: the addresses in use, and the entries that have none.
  unfoldable pub scan_ips : ℕ → Directory → List ℕ × List String
  unfolding parse_ip child
  scan_ips prefix [] = ([], [])
  scan_ips prefix ((k, m) ∷ dir) =
      let (ip_set, unassigned) = scan_ips prefix dir in
      let ip = parse_ip (child "IP" m) prefix in
      if ip == 0 then (ip_set, k ∷ unassigned) else (ip ∷ ip_set, unassigned)

-- `dir[k][name] = value` and `delete(dir[k], name)`, for a key that the directory has.
unfoldable pub put_child : String → String → String → Directory → Directory
unfolding put children
put_child k name value dir = put k (put name value (children k dir)) dir

unfoldable pub del_child : String → String → Directory → Directory
unfolding put del children
del_child k name dir = put k (del name (children k dir)) dir

module _ {W : Type 0} (rand32 : W → W × ℕ) where
  unfoldable pub random_loop : ℕ → List ℕ → ℕ → W → W × ℕ
  random_loop zero conflicts prefix w = (w, 0)
  random_loop (suc tries) conflicts prefix w =
      let (w₁, r) = rand32 w in
      let ip32 = r % 65536 + (prefix - prefix % 65536) in
      elim (occurs ip32 conflicts) [
        | false ↦ (w₁, ip32)
        | true ↦ random_loop tries conflicts prefix w₁
      ]

  -- `randomIP`: 256 attempts.
  unfoldable pub random_ip : List ℕ → ℕ → W → W × ℕ
  unfolding random_loop
  random_ip = random_loop 256

  module _ (parse4 : String → Option ℕ) (show4 : ℕ → String) (store : Store W) where
    -- The second loop of `syncIPs`; what is logged is left out.
    unfoldable pub assign_ips : String → ℕ → List String → List ℕ → Directory → W → Directory × W
    unfolding random_ip put_child del_child
    assign_ips path prefix [] ip_set dir w = (dir, w)
    assign_ips path prefix (k ∷ ks) ip_set dir w =
        let (w₁, ip32) = random_ip ip_set prefix w in
        elim (ip32 == 0) [
          | true ↦
              assign_ips path prefix ks ip_set (del_child k "IP" dir)
                (store.delete (path <> "/" <> k <> "/IP") w₁).0
          | false ↦
              let (w₂, stored) = store.set (path <> "/" <> k <> "/IP") (show4 ip32) w₁ in
              elim stored [
                | false ↦ assign_ips path prefix ks ip_set dir w₂
                | true ↦
                    assign_ips path prefix ks (ip32 ∷ ip_set) (put_child k "IP" (show4 ip32) dir) w₂
              ]
        ]

    unfoldable pub sync_ips : Directory → String → ℕ → W → Directory × W
    unfolding scan_ips assign_ips gateway_ip
    sync_ips dir path prefix w =
        let (ip_set, unassigned) = scan_ips parse4 prefix dir in
        assign_ips path prefix unassigned (parse_ip parse4 gateway_ip prefix ∷ ip_set) dir w
