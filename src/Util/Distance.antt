-- ===== src/Util/Distance.antt =====
-- `EditDistance` of util/util.go counts the strings that are in one list alone.
use di.Prelude.{
  ℕ, ◌+◌, ◌≡◌, refl, String, Bool, true, false, not, ◌&&◌, ◌||◌, List, [], ◌∷◌, length, str_eq,
  eq_iff, if◌then◌else◌, arith, Bool-cases, inl, inr,
}
use di.Util.{contains, erase_label, add_labels, distance_loop, edit_distance}

-- How many elements of the first list are not in the second.
abbrev pub only_in : List String → List String → ℕ
only_in [] ys = 0
only_in (x ∷ xs) ys = (if contains x ys then 0 else 1) + only_in xs ys

-- No string occurs twice.
abbrev pub distinct : List String → Bool
distinct [] = true
distinct (x ∷ xs) = not (contains x xs) && distinct xs

only_in-erase_left :
    (l : String) (s ls : List String) → only_in (erase_label l s) ls ≡ only_in s (l ∷ ls)
only_in-erase_left l [] ls = refl
only_in-erase_left l (x ∷ s) ls = ground (arith, only_in-erase_left l s ls, eq_iff l x, eq_iff x l)

contains-erase :
    (x l : String) (s : List String)
    → contains x (erase_label l s) ≡ (not (str_eq x l) && contains x s)
contains-erase x l [] = ground arith
contains-erase x l (y ∷ s) =
    ground (arith, contains-erase x l s, eq_iff x l, eq_iff l y, eq_iff x y)

only_in-erase_right :
    (l : String) (ls s : List String)
    → contains l ls ≡ false
    → only_in ls (erase_label l s) ≡ only_in ls s
only_in-erase_right l [] s h = refl
only_in-erase_right l (x ∷ ls) s h =
    ground (arith, only_in-erase_right l ls s, contains-erase x l s, eq_iff l x, eq_iff x l)

only_in-absent :
    (l : String) (s ls : List String) → contains l s ≡ false → only_in s (l ∷ ls) ≡ only_in s ls
only_in-absent l [] ls h = refl
only_in-absent l (x ∷ s) ls h = ground (arith, only_in-absent l s ls, eq_iff l x, eq_iff x l)

only_in-nil : (s : List String) → only_in s [] ≡ length s
only_in-nil [] = refl
only_in-nil (x ∷ s) = omega (arith, only_in-nil s)

distance_loop_lem :
    (b s : List String) (ed : ℕ)
    → distinct b ≡ true
    → distance_loop s ed b ≡ ed + only_in s b + only_in b s
unfolding distance_loop
distance_loop_lem [] s ed h = omega (arith, only_in-nil s)
distance_loop_lem (l ∷ ls) s ed h = elim (Bool-cases (contains l s)) [
  | inl found ↦ rw found (
      ground (
        arith,
        distance_loop_lem ls (erase_label l s) ed,
        only_in-erase_left l s ls,
        only_in-erase_right l ls s,
      ))
  | inr absent ↦ rw absent (ground (arith, distance_loop_lem ls s (ed + 1), only_in-absent l s ls))
]

-- The strings of `a`, each once: the keys of `amap`.
abbrev pub strings_of : List String → List String
strings_of a = add_labels [] a

contains-add :
    (x : String) (a s : List String) → contains x (add_labels s a) ≡ (contains x s || contains x a)
contains-add x [] s = ground arith
contains-add x (l ∷ a) s =
    ground (arith, contains-add x a (if contains l s then s else l ∷ s), eq_iff x l)

only_in-add : (b a : List String) → only_in b (strings_of a) ≡ only_in b a
only_in-add [] a = refl
only_in-add (x ∷ b) a = ground (arith, only_in-add b a, contains-add x a [])

-- On a second list that names no string twice, `EditDistance` is the number of distinct strings of the
-- first list that are not in the second, plus the number of strings of the second that are not in
-- the first.
pub edit_distance_lem :
    (a b : List String)
    → distinct b ≡ true
    → edit_distance a b ≡ only_in (strings_of a) b + only_in b a
unfolding edit_distance
edit_distance_lem a b h = omega (arith, distance_loop_lem b (strings_of a) 0 h, only_in-add b a)
