-- ===== src/Util.antt =====
-- util/util.go: `EditDistance`. The network, tar and file helpers are not modelled.
pub mod Distance
mod Tests
use di.Prelude.{
  ℕ, suc, ◌+◌, String, Bool, true, false, ◌||◌, List, [], ◌∷◌, length, str_eq, if◌then◌else◌, ltb,
}

abbrev pub contains : String → List String → Bool
contains s [] = false
contains s (t ∷ ts) = str_eq s t || contains s ts

-- `delete(amap, label)`
abbrev pub erase_label : String → List String → List String
erase_label s [] = []
erase_label s (t ∷ ts) = if str_eq s t then erase_label s ts else t ∷ erase_label s ts

-- `for _, label := range a { amap[label] = struct{}{} }`
abbrev pub add_labels : List String → List String → List String
add_labels amap [] = amap
add_labels amap (l ∷ ls) = add_labels (if contains l amap then amap else l ∷ amap) ls

unfoldable pub distance_loop : List String → ℕ → List String → ℕ
distance_loop amap ed [] = ed + length amap
distance_loop amap ed (l ∷ ls) =
    let found = contains l amap in
    distance_loop (if found then erase_label l amap else amap) (if found then ed else ed + 1) ls

unfoldable pub edit_distance : List String → List String → ℕ
unfolding distance_loop
edit_distance a b = distance_loop (add_labels [] a) 0 b
