-- ===== src/Demangle/Kept/Listing.antt =====
-- What the qualifier lists keep.
use libcwd.Base.{ℕ, Bool, Option, none, some, List, [], ◌∷◌}
use libcwd.Demangle.{Bytes}
use libcwd.Demangle.Machine.{Machine, Qualifier}
use libcwd.Demangle.Kept.{Keeps}
use libcwd.Demangle.Kept.Rules.{keeps, Keeps-set_depth}
use libcwd.Demangle.Qualifiers.{Cvq}
use libcwd.Demangle.Qualifiers.{
  add_qualified, add_qualifier_start, decode_KVrA, decode_qualifiers, put_arrays, put_if,
  qualifiers_loop, set_suppressed, suppress,
}

pub Keeps-set_suppressed : (l : ℕ) (b : Bool) (w : Machine) → Keeps w (set_suppressed l b w)
unfolding set_suppressed
Keeps-set_suppressed l b w = search (keeps) depth 60 fits 4000

pub Keeps-suppress : (o : Option ℕ) (w : Machine) → Keeps w (suppress o w)
unfolding suppress
Keeps-suppress none w = search (keeps) depth 60 fits 4000
Keeps-suppress (some l) w = search (keeps, Keeps-set_suppressed) depth 60 fits 4000

pub Keeps-add_qualifier_start :
    (l : ℕ) (letters : Bytes) (start : ℕ) (optional_type : Bytes) (w : Machine)
    → Keeps w (add_qualifier_start l letters start optional_type w)
unfolding add_qualifier_start
Keeps-add_qualifier_start l letters start optional_type w = search (keeps) depth 60 fits 4000

pub Keeps-put_arrays :
    (prefix : ℕ) (postfix : ℕ) (last : Bool) (o : List Qualifier) (n : ℕ) (w : Machine)
    → Keeps w (put_arrays prefix postfix last o n w)
unfolding put_arrays
Keeps-put_arrays prefix postfix last [] n w = search (keeps) depth 60 fits 4000
Keeps-put_arrays prefix postfix last (q ∷ qs) n w =
    search (keeps, (Keeps-put_arrays prefix postfix last qs)) depth 60 fits 4000

pub Keeps-put_if : (b : Bool) (prefix : ℕ) (s : Bytes) (w : Machine) → Keeps w (put_if b prefix s w)
unfolding put_if
Keeps-put_if b prefix s w = search (keeps) depth 60 fits 4000

pub Keeps-decode_KVrA :
    (prefix : ℕ) (postfix : ℕ) (cvq : Cvq) (last : Bool) (iter_array : List Qualifier) (w : Machine)
    → Keeps w (decode_KVrA prefix postfix cvq last iter_array w)
unfolding decode_KVrA
Keeps-decode_KVrA prefix postfix cvq last iter_array w =
    search (keeps, Keeps-put_arrays, Keeps-put_if) depth 60 fits 4000

pub Keeps-add_qualified :
    (member : Bool) (q : Qualifier) (w : Machine) → Keeps w (add_qualified member q w)
unfolding add_qualified
Keeps-add_qualified member q w = search (keeps, Keeps-set_depth) depth 60 fits 4000

pub Keeps-qualifiers_loop :
    (prefix : ℕ) (postfix : ℕ) (member : Bool) (o : List Qualifier) (cvq : Cvq)
    (iter_array : List Qualifier) (w : Machine)
    → Keeps w (qualifiers_loop prefix postfix member o cvq iter_array w)
unfolding qualifiers_loop
Keeps-qualifiers_loop prefix postfix member [] cvq iter_array w =
    search (keeps, Keeps-decode_KVrA) depth 60 fits 4000
Keeps-qualifiers_loop prefix postfix member (q ∷ qs) cvq iter_array w =
    search
      (
        keeps,
        Keeps-decode_KVrA,
        Keeps-add_qualified,
        (Keeps-qualifiers_loop prefix postfix member qs),
      )
      depth 60 fits 4000

pub Keeps-decode_qualifiers :
    (l : ℕ) (prefix : ℕ) (postfix : ℕ) (member : Bool) (w : Machine)
    → Keeps w (decode_qualifiers l prefix postfix member w)
unfolding decode_qualifiers
Keeps-decode_qualifiers l prefix postfix member w =
    search (keeps, Keeps-set_suppressed, Keeps-qualifiers_loop) depth 60 fits 4000
