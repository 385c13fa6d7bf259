-- ===== src/Prelude/Strings.antt =====
-- Go's `sort.Strings` and `==` of string slices.
use mathlib.Core.Bool.{Bool, true, false}
use mathlib.Core.List.{List, [], ◌∷◌, Perm}
use mathlib.Core.List.Perm
use Prim.Native.Nat.{Ordering}
use Prim.Native.String.{String, compare}
use native.Mathlib.Omega.{arith}
use di.Prelude.Tests.{if◌then◌else◌, String-discrete}

-- `s <= t`, by bytes.
abbrev pub str_leb : String → String → Bool
str_leb s t = elim (compare s t) [ Ordering.gt ↦ false | _ ↦ true ]

abbrev pub str_ltb : String → String → Bool
str_ltb s t = elim (compare s t) [ Ordering.lt ↦ true | _ ↦ false ]

unfoldable pub insert_string : String → List String → List String
insert_string s [] = s ∷ []
insert_string s (t ∷ ts) = if str_leb s t then s ∷ t ∷ ts else t ∷ insert_string s ts

-- `sort.Strings`, which sorts in place.
unfoldable pub sort_strings : List String → List String
unfolding insert_string
sort_strings [] = []
sort_strings (s ∷ ss) = insert_string s (sort_strings ss)

insert_string-perm : (s : String) (ts : List String) → Perm (insert_string s ts) (s ∷ ts)
unfolding insert_string
insert_string-perm s [] = Perm.refl (s ∷ [])
insert_string-perm s (t ∷ ts) =
    let below = Perm.trans (Perm.cons t (insert_string-perm s ts)) (Perm.swap s t ts) in
    ground (arith, below, Perm.refl (s ∷ t ∷ ts))

pub sort_strings-perm : (ss : List String) → Perm (sort_strings ss) ss
unfolding sort_strings
sort_strings-perm [] = Perm.nil
sort_strings-perm (s ∷ ss) =
    Perm.trans (insert_string-perm s (sort_strings ss)) (Perm.cons s (sort_strings-perm ss))

unfoldable pub Strings-discrete : Discrete (List String)
Strings-discrete = hlevel String-discrete
