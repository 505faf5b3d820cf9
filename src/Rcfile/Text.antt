-- ===== src/Rcfile/Text.antt =====
-- The std::string work of RcFile. A string is a list of its characters.
use libcwd.Base.{
  ℕ, ◌-◌, Bool, true, false, not, ◌&&◌, ◌||◌, List, [], ◌∷◌, leb, ◌==◌, if◌then◌else◌,
}
use mathlib.Core.List.{reverse}
use libcwd.Rcfile.{Bytes}

-- " \t\n\v"
abbrev pub is_blank : ℕ → Bool
is_blank c = c == 32 || c == 9 || c == 10 || c == 11

-- ", \t\n\v"
abbrev pub is_separator : ℕ → Bool
is_separator c = c == 44 || is_blank c

-- s.erase(0, s.find_first_not_of(set)), all of it if there is none.
unfoldable pub drop_while : (ℕ → Bool) → Bytes → Bytes
drop_while p [] = []
drop_while p (c ∷ s) = let rest = drop_while p s in if p c then rest else c ∷ s

-- s.erase(s.find_first_of(set)), none of it if there is none.
unfoldable pub take_until : (ℕ → Bool) → Bytes → Bytes
take_until p [] = []
take_until p (c ∷ s) = if p c then [] else c ∷ take_until p s

-- s.erase(0, s.find_first_of(set)); nothing is left if there is none.
unfoldable pub drop_until : (ℕ → Bool) → Bytes → Bytes
drop_until p [] = []
drop_until p (c ∷ s) = let rest = drop_until p s in if p c then c ∷ s else rest

-- s.erase(s.find_last_not_of(set) + 1)
unfoldable pub drop_end : (ℕ → Bool) → Bytes → Bytes
drop_end p [] = []
drop_end p (c ∷ s) = elim (drop_end p s) [ [] ↦ if p c then [] else c ∷ [] | d ∷ t ↦ c ∷ d ∷ t ]

unfoldable pub trim : Bytes → Bytes
unfolding drop_while drop_end
trim s = drop_end is_blank (drop_while is_blank s)

unfoldable pub contains : ℕ → Bytes → Bool
contains a [] = false
contains a (c ∷ s) = c == a || contains a s

-- toupper in the C locale.
unfoldable pub to_upper : ℕ → ℕ
to_upper c = if leb 97 c && leb c 122 then c - 32 else c

unfoldable pub eq_bytes : Bytes → Bytes → Bool
eq_bytes [] [] = true
eq_bytes [] (d ∷ t) = false
eq_bytes (c ∷ s) [] = false
eq_bytes (c ∷ s) (d ∷ t) = c == d && eq_bytes s t

-- What getline yields until it fails: `line` holds the characters read since the last newline.
unfoldable pub lines_from : Bytes → Bytes → List Bytes
lines_from [] [] = []
lines_from (c ∷ line) [] = reverse (c ∷ line) ∷ []
lines_from line (c ∷ s) =
    let next = lines_from [] s in
    let more = lines_from (c ∷ line) s in if c == 10 then reverse line ∷ next else more

unfoldable pub lines : Bytes → List Bytes
lines s = lines_from [] s

-- What a line of the file is.
pub data Line : Type 0 where
  ignored malformed : Line
  setting : Bytes → Bytes → Line

-- The keyword and the value of a trimmed line that has an `=`, not in front.
unfoldable pub keyword_of : Bytes → Bytes
keyword_of line = take_until (λ c. is_blank c || c == 61) line

-- value.erase(0, line.find_first_of("=") + 1)
unfoldable pub behind_equals : Bytes → Bytes
behind_equals [] = []
behind_equals (c ∷ s) = if c == 61 then s else behind_equals s

unfoldable pub classify : Bytes → Line
classify [] = ignored
classify (c ∷ s) =
    if c == 35
    then ignored
    else if not (contains 61 (c ∷ s)) || c == 61
    then malformed
    else setting (keyword_of (c ∷ s)) (trim (behind_equals (c ∷ s)))

-- One turn of the loop of RcFile::read up to the tests on the keyword.
unfoldable pub interpret : Bytes → Line
interpret line = classify (trim line)
