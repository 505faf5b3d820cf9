-- ===== src/Demangle/Machine.antt =====
-- The rest of class session of include/cwd_demangle.h, and the monad in which its members run. A
-- string or a qualifier_list that is passed by reference is a number, its place in a store, so that
-- an output may be function_name_ itself. To read behind the NUL, or to write behind a buffer,
-- is `undefined_access`. The session's
-- `result` and cursor are those of Demangle.
use libcwd.Base.{
  ℕ, suc, zero, ◌+◌, Bool, true, false, ◌||◌, Option, none, some, List, [], ◌∷◌, ◌++◌, ltb, leb,
  ◌==◌, if◌then◌else◌, length, get_elem?, codes,
}
use Prim.Native.String.{String}
use libcwd.Demangle
use libcwd.Demangle.{Bytes, Session, Outcome, returned, char_at, next_peek, eat_current, advance}

-- substitution_nt
pub data SubstitutionNt : Type 0 where
  type template_template_param : SubstitutionNt
  nested_name_prefix nested_name_template_prefix unscoped_template_name : SubstitutionNt

pub record Substitution : Type 0 where
  pub start_pos : ℕ
  pub sub_type : SubstitutionNt
  pub number_of_prefixes : ℕ

-- A qualifier: its characters, of which there are several in a run of K, V and r only.
pub record Qualifier : Type 0 where
  pub letters : Bytes
  pub optional_type : Bytes
  pub qualifier_pos : ℕ
  pub part_of_substitution : Bool

-- The qualifiers last first.
pub record QualifierList : Type 0 where
  pub printing_suppressed : Bool
  pub qualifier_starts : List Qualifier

pub record Depth : Type 0 where
  pub inside_template_args : ℕ
  pub inside_type : ℕ
  pub inside_substitution : ℕ

pub record Flags : Type 0 where
  pub saw_destructor : Bool
  pub name_is_cdtor : Bool
  pub name_is_template : Bool
  pub name_is_conversion_operator : Bool
  pub template_args_need_space : Bool
  pub template_arg_pos_offset : ℕ

pub record Frame : Type 0 where
  pub cursor : Session
  pub depth : Depth
  pub flags : Flags
  pub function_name : ℕ
  pub template_arg_pos : List ℕ
  pub substitutions_pos : List Substitution

pub record Machine : Type 0 where
  pub frame : Frame
  pub strings : List Bytes
  pub qualifier_lists : List QualifierList

pub data Ending (A : Type 0) : Type 0 where
  ok : A → Machine → Ending A
  undefined_access out_of_fuel : Ending A

abbrev pub M : Type 0 → Type 0
M A = Machine → Ending A

infixl 5 ◌>>=◌ ◌>>◌
unfoldable pub ◌>>=◌ : {A B : Type 0} → M A → (A → M B) → M B
◌>>=◌ m f w = elim (m w) [
  | ok a w' ↦ f a w'
  | undefined_access ↦ undefined_access
  | out_of_fuel ↦ out_of_fuel
]

abbrev pub ◌>>◌ : {B : Type 0} → M (Unit {0}) → M B → M B
m >> k = m >>= λ _. k

abbrev pub run : {A : Type 0} → Machine → M A → Ending A
run w m = m w

unfoldable pub return : {A : Type 0} → A → M A
return a w = ok a w

unfoldable pub branch : {A : Type 0} → Bool → M A → M A → M A
branch b m n w = if b then m w else n w

unfoldable pub stop : {A : Type 0} → M A
stop w = out_of_fuel

unfoldable pub overrun : {A : Type 0} → M A
overrun w = undefined_access

unfoldable pub frame : M Frame
frame w = ok w.frame w

abbrev pub set_cursor : Session → Machine → Machine
set_cursor s w = record w { frame = record w.frame { cursor = s } }

unfoldable pub set_pos : ℕ → M (Unit {0})
set_pos p w = ok tt (set_cursor (record w.frame.cursor { pos = p }) w)

unfoldable pub set_result : Bool → M (Unit {0})
set_result b w = ok tt (set_cursor (record w.frame.cursor { result = b }) w)

unfoldable pub set_depth : (Depth → Depth) → M (Unit {0})
set_depth f w = ok tt (record w { frame = record w.frame { depth = f w.frame.depth } })

unfoldable pub set_flags : (Flags → Flags) → M (Unit {0})
set_flags f w = ok tt (record w { frame = record w.frame { flags = f w.frame.flags } })

-- str_[i], within the array
unfoldable pub read_char : ℕ → M ℕ
read_char i w =
    let s = w.frame.cursor in
    if leb i (length s.str) then ok (char_at s.str i) w else undefined_access

abbrev pub position : M ℕ
position = frame >>= λ fr. return fr.cursor.pos

-- current(), next_peek(), next() and eat_current()
unfoldable pub read_current : M ℕ
read_current w =
    let s = w.frame.cursor in run w (branch (ltb s.pos s.len) (read_char s.pos) (return 0))

unfoldable pub read_next_peek : M ℕ
read_next_peek w =
    let s = w.frame.cursor in
    run w (branch (ltb (s.pos + 1) s.len) (read_char (s.pos + 1)) (return 0))

unfoldable pub read_next : M ℕ
read_next w =
    let s = w.frame.cursor in
    run w (
      branch (ltb (s.pos + 1) s.len)
        (read_char (s.pos + 1) >>= λ c. set_pos (s.pos + 1) >>= λ _. return c) (return 0))

unfoldable pub eat : M ℕ
eat w =
    let s = w.frame.cursor in
    run w (
      branch (ltb s.pos s.len) (read_char s.pos >>= λ c. set_pos (s.pos + 1) >>= λ _. return c)
        (return 0))

abbrev pub skip : M (Unit {0})
skip = eat >>= λ _. return tt

-- restore()
abbrev pub restore_pos : ℕ → M (Unit {0})
restore_pos p = do set_pos p; set_result true

-- _GLIBCXX_DEMANGLER_FAILURE and _GLIBCXX_DEMANGLER_RETURN
abbrev pub fail : M Bool
fail = do set_result false; return false

abbrev pub give : M Bool
give = frame >>= λ fr. return fr.cursor.result

-- if (!x) _GLIBCXX_DEMANGLER_FAILURE; rest
infixr 4 ◌>>!◌
abbrev pub ◌>>!◌ : M Bool → M Bool → M Bool
x >>! rest = x >>= λ b. branch b rest fail

abbrev pub set_at : {A : Type 0} → List A → ℕ → A → List A
set_at [] i a = []
set_at (x ∷ xs) zero a = a ∷ xs
set_at (x ∷ xs) (suc i) a = x ∷ set_at xs i a

abbrev pub string_or_empty : Option Bytes → Bytes
string_or_empty none = []
string_or_empty (some s) = s

abbrev pub string_at : ℕ → Machine → Bytes
string_at r w = string_or_empty (get_elem? w.strings r)

unfoldable pub get_string : ℕ → M Bytes
get_string r w = ok (string_at r w) w

unfoldable pub set_string : ℕ → Bytes → M (Unit {0})
set_string r s w = ok tt (record w { strings = set_at w.strings r s })

-- output += s
unfoldable pub emit : ℕ → Bytes → M (Unit {0})
emit r s w = run w (get_string r >>= λ t. set_string r (t ++ s))

abbrev pub put : ℕ → String → M (Unit {0})
put r s = emit r (codes s)

-- A local string_type.
unfoldable pub fresh : M ℕ
fresh w = ok (length w.strings) (record w { strings = w.strings ++ [] ∷ [] })

abbrev pub with_outcome : ℕ → Machine → Outcome → Ending Bool
with_outcome r w (returned b s output) =
    let s' = record w.frame.cursor { pos = s.pos; result = s.result } in
    ok b (record (set_cursor s' w) { strings = set_at w.strings r output })
with_outcome r w Demangle.undefined = undefined_access

-- A decoder that calls no other one; each first reads the current character, and none changes the
-- text.
unfoldable pub leaf : (Session → Bytes → Outcome) → ℕ → M Bool
leaf f r w = run w (read_current >>= λ _ w'. with_outcome r w' (f w'.frame.cursor (string_at r w')))

infix 45 ◌is◌
abbrev pub ◌is◌ : ℕ → String → Bool
c is s = c == char_at (codes s) 0

abbrev pub is_cv : ℕ → Bool
is_cv c = c is "K" || c is "V" || c is "r"

-- add_substitution
unfoldable pub add_substitution : ℕ → SubstitutionNt → ℕ → M (Unit {0})
add_substitution start t n w =
    let fr = w.frame in
    let sub : Substitution = record { start_pos = start; sub_type = t; number_of_prefixes = n } in
    if fr.depth.inside_substitution == 0
    then ok tt
        (record w { frame = record fr { substitutions_pos = fr.substitutions_pos ++ sub ∷ [] } })
    else ok tt w

unfoldable pub add_template_arg : ℕ → M (Unit {0})
add_template_arg p w =
    let fr = w.frame in
    ok tt (record w { frame = record fr { template_arg_pos = fr.template_arg_pos ++ p ∷ [] } })
