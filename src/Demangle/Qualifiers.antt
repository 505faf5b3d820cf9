-- ===== src/Demangle/Qualifiers.antt =====
-- The lists of qualifiers of include/cwd_demangle.h. A list is a number, its place in the machine's
-- `qualifier_lists`; an iterator is what is left of the list. The bits of `cvq` are a record.
use libcwd.Base.{
  ℕ, ◌+◌, ◌-◌, Bool, true, false, not, ◌&&◌, ◌||◌, Option, none, some, List, [], ◌∷◌, ◌++◌, ltb,
  ◌==◌, if◌then◌else◌, length, get_elem?, codes,
}
use libcwd.Demangle.{Bytes}
use libcwd.Demangle.Machine.{
  Qualifier, QualifierList, M, ok, ◌>>=◌, ◌>>◌, return, branch, frame, set_depth, set_at, type,
  add_substitution, get_string, set_string, put, emit, ◌is◌, is_cv, Depth,
}

abbrev no_qualifiers : QualifierList
no_qualifiers = record { printing_suppressed = false; qualifier_starts = [] }

unfoldable pub new_list : M ℕ
new_list w =
    ok (length w.qualifier_lists)
      (record w { qualifier_lists = w.qualifier_lists ++ no_qualifiers ∷ [] })

abbrev pub list_or_empty : Option QualifierList → QualifierList
list_or_empty none = no_qualifiers
list_or_empty (some l) = l

unfoldable pub get_list : ℕ → M QualifierList
get_list l w = ok (list_or_empty (get_elem? w.qualifier_lists l)) w

unfoldable pub set_list : ℕ → QualifierList → M (Unit {0})
set_list l q w = ok tt (record w { qualifier_lists = set_at w.qualifier_lists l q })

unfoldable pub set_suppressed : ℕ → Bool → M (Unit {0})
set_suppressed l b w = (get_list l >>= λ q. set_list l (record q { printing_suppressed = b })) w

-- qualifiers->printing_suppressed(), if there are any
unfoldable pub suppress : Option ℕ → M (Unit {0})
suppress none w = return tt w
suppress (some l) w = set_suppressed l true w

-- The qualifier's constructors.
unfoldable pub add_qualifier_start : ℕ → Bytes → ℕ → Bytes → M (Unit {0})
add_qualifier_start l letters start optional_type w =
    (do
      fr ← frame
      q ← get_list l
      let new : Qualifier = record {
        letters = letters;
        optional_type = optional_type;
        qualifier_pos = start;
        part_of_substitution = not (fr.depth.inside_substitution == 0);
      }
      set_list l (record q { qualifier_starts = new ∷ q.qualifier_starts }))
      w

pub record Cvq : Type 0 where
  pub cvq_k : Bool
  pub cvq_v : Bool
  pub cvq_r : Bool
  pub cvq_a : Bool
  pub a_cnt : ℕ

abbrev pub no_cvq : Cvq
no_cvq = record { cvq_k = false; cvq_v = false; cvq_r = false; cvq_a = false; a_cnt = 0 }

abbrev pub is_seen : Cvq → Bool
is_seen q = q.cvq_k || q.cvq_v || q.cvq_r || q.cvq_a

abbrev pub first_qualifier : Qualifier → ℕ
first_qualifier q = elim q.letters [ [] ↦ 0 | c ∷ _ ↦ c ]

-- The arrays of a series: `n` of them are still to come.
unfoldable pub put_arrays : ℕ → ℕ → Bool → List Qualifier → ℕ → M (Unit {0})
put_arrays prefix postfix last [] n w = return tt w
put_arrays prefix postfix last (q ∷ qs) n w =
    let index = q.optional_type in
    let in_front = λ (s : Bytes).
      get_string postfix >>= λ t. set_string postfix (s ++ index ++ codes "]" ++ t) in
    let again = λ (k : ℕ). put_arrays prefix postfix last qs k in
    let array =
      branch (n == 1 && last) (in_front (codes " ["))
        (branch (ltb 1 n) (in_front (codes "[")) (do put prefix " ("; in_front (codes ") ["))) in
    (branch (is_cv (first_qualifier q)) (again n)
        (branch (first_qualifier q is "A") (array >>= λ _. again (n - 1)) (return tt)))
      w

unfoldable pub put_if : Bool → ℕ → Bytes → M (Unit {0})
put_if b prefix s w = branch b (emit prefix s) (return tt) w

unfoldable pub decode_KVrA : ℕ → ℕ → Cvq → Bool → List Qualifier → M (Unit {0})
decode_KVrA prefix postfix cvq last iter_array w =
    (do
      put_if cvq.cvq_k prefix (codes " const")
      put_if cvq.cvq_v prefix (codes " volatile")
      put_if cvq.cvq_r prefix (codes " restrict")
      branch cvq.cvq_a (put_arrays prefix postfix last iter_array cvq.a_cnt) (return tt))
      w

abbrev pub see_cv : Cvq → Bytes → Cvq
see_cv q [] = q
see_cv q (c ∷ cs) =
    see_cv
      (record q {
        cvq_k = q.cvq_k || c is "K";
        cvq_v = q.cvq_v || c is "V";
        cvq_r = q.cvq_r || c is "r";
      })
      cs

abbrev pub see_array : Cvq → Cvq
see_array q = record q { cvq_a = true; a_cnt = q.a_cnt + 1 }

-- add_substitution of a qualified type, also inside a substitution.
unfoldable pub add_qualified : Bool → Qualifier → M (Unit {0})
add_qualified member q w =
    branch (not member && not q.part_of_substitution)
      (do
        fr ← frame
        set_depth (λ (d : Depth). record d { inside_substitution = 0 })
        add_substitution q.qualifier_pos type 0
        set_depth (λ (d : Depth). record d { inside_substitution = fr.depth.inside_substitution }))
      (return tt) w

-- The qualifiers from an iterator on, where `cvq` was seen and `iter_array` points to its first A.
unfoldable pub qualifiers_loop : ℕ → ℕ → Bool → List Qualifier → Cvq → List Qualifier → M (Unit {0})
qualifiers_loop prefix postfix member [] cvq iter_array w =
    branch (is_seen cvq) (decode_KVrA prefix postfix cvq true iter_array) (return tt) w
qualifiers_loop prefix postfix member (q ∷ qs) cvq iter_array w =
    let c = first_qualifier q in
    let flush =
      branch (is_seen cvq) (decode_KVrA prefix postfix cvq false iter_array) (return tt) in
    let again = λ (k : Cvq) (i : List Qualifier). qualifiers_loop prefix postfix member qs k i in
    (do
      add_qualified member q
      branch (c is "P") (do flush; put prefix "*"; again no_cvq iter_array)
          (branch (c is "R") (do flush; put prefix "&"; again no_cvq iter_array)
            (branch (is_cv c) (again (see_cv cvq q.letters) iter_array) (
              branch (c is "A") (again (see_array cvq) (if cvq.cvq_a then iter_array else q ∷ qs)) (
                branch (c is "M")
                  (do
                    flush
                    put prefix " "
                    emit prefix q.optional_type
                    put prefix "::*"
                    again no_cvq iter_array)
                  (branch (c is "U")
                    (do flush; put prefix " "; emit prefix q.optional_type; again no_cvq iter_array)
                    (again cvq iter_array)))))))
      w

unfoldable pub decode_qualifiers : ℕ → ℕ → ℕ → Bool → M (Unit {0})
decode_qualifiers l prefix postfix member w =
    (do
      q ← get_list l
      qualifiers_loop prefix postfix member q.qualifier_starts no_cvq []
      set_suppressed l false)
      w
