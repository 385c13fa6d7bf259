-- ===== src/Minion/Network/Worker/Words.antt =====
-- What minion/network/link.go reads in the output of `ip`: the fields of a text (`strings.Fields`) and
-- the matches of `(?:inet|inet6) (\S+)`.
use Prim.Native.Nat.{ℕ, zero, suc}
use Prim.Native.Char.{Char, code}
use Prim.Native.String.{String, [], ◌∷◌, ◌++◌}
use text.Mathlib.Text.{starts_with}
use mathlib.Core.List.{List}
use di.Prelude.{Bool, not, ◌||◌, ◌&&◌, leb, ◌==◌, str_eq, if◌then◌else◌}
use di.Minion.Network.Worker.{no_words, cons_word}

-- The white space of ASCII, in which `ip` prints.
unfoldable pub is_space : Char → Bool
is_space c = code c == 32 || leb 9 (code c) && leb (code c) 13

-- `\s`, which leaves out the vertical tab
unfoldable pub is_re_space : Char → Bool
unfolding is_space
is_re_space c = is_space c && not (code c == 11)

unfoldable pub end_word : String → List String → List String
end_word word rest = if str_eq word "" then rest else cons_word word rest

-- `word` is what has been read of the field at hand.
unfoldable pub fields_from : String → String → List String
unfolding is_space end_word
fields_from word [] = end_word word no_words
fields_from word (c ∷ text) =
    let rest = fields_from "" text in
    let more = fields_from (word ++ (c ∷ "")) text in
    if is_space c then end_word word rest else more

unfoldable pub fields : String → List String
unfolding fields_from
fields text = fields_from "" text

-- How far a match has come: nothing yet, so many characters to the text that it captures, or what it
-- has captured.
pub data Seen : Type 0 where
  seek : Seen
  skip : ℕ → Seen
  word : String → Seen

unfoldable pub keyword : String → Seen
keyword text =
    if starts_with text "inet " then skip 4 else if starts_with text "inet6 " then skip 5 else seek

-- Where a keyword ends, the capture begins with the first character that is not white space; white
-- space there is no match, and no other match begins within the keyword.
unfoldable pub addresses_from : Seen → String → List String
unfolding is_re_space keyword
addresses_from (word w) [] = cons_word w no_words
addresses_from _ [] = no_words
addresses_from seek (c ∷ text) = addresses_from (keyword (c ∷ text)) text
addresses_from (skip (suc n)) (c ∷ text) = addresses_from (skip n) text
addresses_from (skip zero) (c ∷ text) =
    addresses_from (if is_re_space c then keyword (c ∷ text) else word (c ∷ "")) text
addresses_from (word w) (c ∷ text) =
    let found = cons_word w (addresses_from (keyword (c ∷ text)) text) in
    let more = addresses_from (word (w ++ (c ∷ ""))) text in if is_re_space c then found else more

unfoldable pub addresses : String → List String
unfolding addresses_from
addresses text = addresses_from seek text
