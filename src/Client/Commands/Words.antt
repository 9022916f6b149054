-- ===== src/Client/Commands/Words.antt =====
-- The words and numbers of a command line: what cmd/gjallarhorn-client/commands.go and gui.go use of
-- `strings` and `strconv`, on ASCII characters.
use gjallarhorn.Prelude.{
  ℕ, ◌+◌, ◌-◌, ◌*◌, Bool, true, false, ◌&&◌, ◌||◌, List, [], ◌∷◌, ◌++◌, Option, none, some,
  if◌then◌else◌, ltb, leb, ◌==◌,
}
use gjallarhorn.Prelude.Bytes.{Bytes}

-- `\t\n\v\f\r` and the space.
abbrev pub is_space : ℕ → Bool
is_space c = (leb 9 c && leb c 13) || (c == 32)

-- A word that is begun ends where a space comes; `none` is no word.
abbrev pub emit : Bytes → List Bytes → List Bytes
emit [] words = words
emit (c ∷ word) words = (c ∷ word) ∷ words

-- `strings.Fields`, with the word so far.
unfoldable pub fields_from : Bytes → Bytes → List Bytes
fields_from word [] = emit word []
fields_from word (c ∷ cs) =
    let space = is_space c in
    let rest = fields_from (if space then [] else word ++ (c ∷ [])) cs in
    if space then emit word rest else rest

unfoldable pub fields : Bytes → List Bytes
unfolding fields_from
fields line = fields_from [] line

-- `strings.Split(s, " ")`.
unfoldable pub split_from : Bytes → Bytes → List Bytes
split_from word [] = word ∷ []
split_from word (c ∷ cs) =
    let rest = split_from (if c == 32 then [] else word ++ (c ∷ [])) cs in
    if c == 32 then word ∷ rest else rest

unfoldable pub split : Bytes → List Bytes
unfolding split_from
split line = split_from [] line

-- `strings.TrimRight(s, "\n")`.
abbrev pub drop_newline : ℕ → Bytes → Bytes
drop_newline c [] = if c == 10 then [] else c ∷ []
drop_newline c (d ∷ cs) = c ∷ d ∷ cs

unfoldable pub trim_newlines : Bytes → Bytes
trim_newlines [] = []
trim_newlines (c ∷ cs) = drop_newline c (trim_newlines cs)

unfoldable pub parse_decimal : ℕ → Bytes → Option ℕ
parse_decimal acc [] = some acc
parse_decimal acc (c ∷ cs) =
    let rest = parse_decimal (acc * 10 + (c - 48)) cs in if leb 48 c && leb c 57 then rest else none

-- At least one digit, and a value that `int` holds.
abbrev pub parse_magnitude : Bool → Bytes → Option (Bool × ℕ)
parse_magnitude negative [] = none
parse_magnitude negative (c ∷ cs) = elim (parse_decimal 0 (c ∷ cs)) [
  | none ↦ none
  | some n ↦
      if ltb n (if negative then 9223372036854775809 else 9223372036854775808)
      then some (negative, n)
      else none
]

-- `strconv.ParseInt(s, 10, 0)` where `int` has 64 bits: a sign and a magnitude.
unfoldable pub parse_int : Bytes → Option (Bool × ℕ)
unfolding parse_decimal
parse_int [] = none
parse_int (c ∷ cs) =
    if c == 45
    then parse_magnitude true cs
    else parse_magnitude false (if c == 43 then cs else c ∷ cs)
