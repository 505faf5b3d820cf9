-- ===== src/Demangle/Names.antt =====
-- decode_source_name reads back a name behind its length.
use libcwd.Base.{
  ℕ, suc, zero, ◌+◌, ◌-◌, ◌*◌, ◌≤◌, ◌<◌, ◌≡◌, refl, sym, ◌∙◌, ap, Bool, true, false, ◌&&◌, ◌||◌,
  some, Option, [], ◌∷◌, ◌++◌, ltb, ◌==◌, length, length-append, append_nil, All, arith,
  if◌then◌else◌, lt→ltb, codes,
}
use mathlib.Core.List.{append_assoc}
use libcwd.Demangle.{Bytes, Session, advance, is_digit, give_back}
use libcwd.Demangle.Leaf.{
  length_loop, copy_loop, decode_source_name, int_limit, has_prefix, is_anonymous, same_around,
  after_length, name_of_length,
}
use libcwd.Demangle.Cursor.{
  Sees, Sees-advance_past, current-Sees, Sees-advance, eat-Sees, next-Sees, next_peek-Sees,
  advance-suc, advance_none, advance-advance, length-Sees,
}
use libcwd.Demangle.Numbers.{IsDigits}

-- The number that digits stand for, behind a number in front of them.
abbrev pub value : ℕ → Bytes → ℕ
value n [] = n
value n (d ∷ ds) = value (10 * n + d - 48) ds

digit_at_least : (d : ℕ) → is_digit d ≡ true → 48 ≤ d
unfolding is_digit
digit_at_least d h = ground (arith, h)

le-value : (n : ℕ) (ds : Bytes) → IsDigits ds → n ≤ value n ds
le-value n [] h = omega arith
le-value n (d ∷ ds) h = omega (arith, digit_at_least d h.0, le-value (10 * n + d - 48) ds h.1)

-- No overflow on the way to a number that is 48 below the limit.
length_loop_lem :
    (fuel n d : ℕ) (ds : Bytes) (c : ℕ) (rest : Bytes) (s : Session)
    → length ds < fuel
    → Sees (d ∷ ds ++ c ∷ rest) s
    → IsDigits ds
    → is_digit c ≡ false
    → value n ds + 48 < int_limit
    → length_loop fuel n s ≡ some (value n ds, advance (suc (length ds)) s)
unfolding length_loop
length_loop_lem zero n d ds c rest s l h hd hc hv = absurd (omega (arith, l))
length_loop_lem (suc fuel) n d [] c rest s l h hd hc hv =
    rw (next_peek-Sees s d c rest h, next-Sees s d c rest h, hc) refl
length_loop_lem (suc fuel) n d (d' ∷ ds) c rest s l h hd hc hv =
    rw
      (
        next_peek-Sees s d d' (ds ++ c ∷ rest) h,
        next-Sees s d d' (ds ++ c ∷ rest) h,
        hd.0,
        lt→ltb (10 * n + d') int_limit
            (omega (arith, hv, digit_at_least d' hd.0, le-value (10 * n + d' - 48) ds hd.1)),
      )
      (length_loop_lem fuel (10 * n + d' - 48) d' ds c rest (advance 1 s) (omega (arith, l))
          (Sees-advance s _ d h) hd.1 hc hv
        ∙ ap (λ t. some (value (10 * n + d' - 48) ds, t)) (advance-suc (suc (length ds)) s))

copy_loop_lem :
    (name rest : Bytes) (s : Session) (output : Bytes)
    → Sees (name ++ rest) s
    → All (λ c. (c == 0) ≡ false) name
    → copy_loop (length name) s output ≡ give_back (advance (length name) s) (output ++ name)
unfolding copy_loop
copy_loop_lem [] rest s output h hn =
    ap (give_back s) (sym (append_nil output))
    ∙ ap (λ t. give_back t (output ++ [])) (advance_none s)
copy_loop_lem (c ∷ name) rest s output h hn =
    rw (current-Sees s (name ++ rest) c h, eat-Sees s (name ++ rest) c h, hn.0)
      (copy_loop_lem name rest (advance 1 s) (output ++ c ∷ []) (Sees-advance s _ c h) hn.1
        ∙ ap (λ t. give_back t ((output ++ c ∷ []) ++ name)) (advance-suc (length name) s)
        ∙ ap (λ o. give_back (advance (suc (length name)) s) o) (append_assoc output (c ∷ []) name))

-- Neither the name nor what follows it makes it an anonymous namespace.
abbrev pub IsPlain : Bytes → Bytes → Type 0
IsPlain name rest = has_prefix (codes "_GLOBAL_") (name ++ rest) ≡ false

never : (b : Bool) (o : Option Bool) → (if b && false then o else some false) ≡ some false
never true o = refl
never false o = refl

not_anonymous :
    (n : ℕ) (t : Bytes) (s : Session)
    → Sees t s
    → has_prefix (codes "_GLOBAL_") t ≡ false
    → is_anonymous n s ≡ some false
unfolding is_anonymous
not_anonymous n t s h hp =
    ap (λ b. if ltb 11 n && b then same_around s else some false)
      (ap (has_prefix (codes "_GLOBAL_")) h.0 ∙ hp)
    ∙ never (ltb 11 n) (same_around s)

first_digit : (d : ℕ) → ltb 48 d ≡ true → is_digit d ≡ true → (ltb d 49 || ltb 57 d) ≡ false
unfolding is_digit
first_digit d h0 hd = ground (arith, h0, hd)

turns_enough : (ds t : Bytes) (d : ℕ) (s : Session) → Sees (d ∷ ds ++ t) s → length ds < s.len
turns_enough ds t d s h = omega (arith, length-Sees (d ∷ ds ++ t) s h, length-append ds t)

-- decode_source_name reads a name behind its length in decimal: it succeeds, unless decoding has
-- failed before, puts out the name, and leaves the cursor behind it. The length is not 0, does not
-- start with 0 and is at least 48 below 2^31; the name has no NUL, does not start with a digit, and
-- the text from it on does not start with `_GLOBAL_`.
pub decode_source_name_lem :
    (d : ℕ) (ds : Bytes) (c : ℕ) (name rest : Bytes) (s : Session) (output : Bytes)
    → Sees (d ∷ ds ++ ((c ∷ name) ++ rest)) s
    → ltb 48 d ≡ true
    → is_digit d ≡ true
    → IsDigits ds
    → value (d - 48) ds ≡ length (c ∷ name)
    → length (c ∷ name) + 48 < int_limit
    → is_digit c ≡ false
    → All (λ x. (x == 0) ≡ false) (c ∷ name)
    → IsPlain (c ∷ name) rest
    → decode_source_name s output
      ≡ give_back (advance (length (d ∷ ds) + length (c ∷ name)) s) (output ++ (c ∷ name))
unfolding decode_source_name after_length name_of_length
decode_source_name_lem d ds c name rest s output h h0 hd hds hv hl hc hn hp =
    let s' = advance (suc (length ds)) s in
    let ahead = Sees-advance_past (d ∷ ds) ((c ∷ name) ++ rest) s h in
    rw
      (
        current-Sees s (ds ++ ((c ∷ name) ++ rest)) d h,
        first_digit d h0 hd,
        length_loop_lem s.len (d - 48) d ds c (name ++ rest) s (turns_enough ds _ d s h) h hds hc
            (omega (arith, hv, hl)),
        not_anonymous (value (d - 48) ds) ((c ∷ name) ++ rest) s' ahead hp,
      )
      (ap (λ n. copy_loop n s' output) hv
        ∙ copy_loop_lem (c ∷ name) rest s' output ahead hn
        ∙ ap (λ t. give_back t (output ++ c ∷ name))
            (advance-advance (suc (length ds)) (suc (length name)) s))
