-- ===== src/Demangle/Kept/Reading.antt =====
-- What decode_real and the loops over digits keep.
use libcwd.Base.{ℕ, suc, zero, Option, none, some, List}
use libcwd.Demangle.{Bytes}
use libcwd.Demangle.Machine.{M, Machine}
use libcwd.Demangle.Kept.{Keeps}
use libcwd.Demangle.Kept.Rules.{keeps}
use libcwd.Demangle.Grammar.{ImplementationDetails}
use libcwd.Demangle.Grammar.Leaves.{
  after_words, copy_hex, decode_real, more_words, parameter_loop, put_real, read_word, read_words,
  seq_id_loop,
}

pub Keeps-seq_id_loop :
    (o : ℕ) (value : ℕ) (c : ℕ) (w : Machine) → Keeps w (seq_id_loop o value c w)
unfolding seq_id_loop
Keeps-seq_id_loop zero value c w = search (keeps) depth 60 fits 4000
Keeps-seq_id_loop (suc fuel) value c w = search (keeps, (Keeps-seq_id_loop fuel)) depth 60 fits 4000

pub Keeps-parameter_loop :
    (o : ℕ) (value : ℕ) (c : ℕ) (w : Machine) → Keeps w (parameter_loop o value c w)
unfolding parameter_loop
Keeps-parameter_loop zero value c w = search (keeps) depth 60 fits 4000
Keeps-parameter_loop (suc fuel) value c w =
    search (keeps, (Keeps-parameter_loop fuel)) depth 60 fits 4000

pub Keeps-read_word : (o : ℕ) (word : ℕ) (c : ℕ) (w : Machine) → Keeps w (read_word o word c w)
unfolding read_word
Keeps-read_word zero word c w = search (keeps) depth 60 fits 4000
Keeps-read_word (suc n) word c w = search (keeps, (Keeps-read_word n)) depth 60 fits 4000

pub Keeps-more_words :
    (rest : (ℕ → M (Option (List ℕ)))) (o : Option (ℕ × ℕ)) (w : Machine)
    → ((c : ℕ) (v : Machine) → Keeps v (rest c v))
    → Keeps w (more_words rest o w)
unfolding more_words
Keeps-more_words rest none w k = search (keeps) depth 60 fits 4000
Keeps-more_words rest (some (word, c)) w k = search (keeps, k) depth 60 fits 4000

pub Keeps-read_words : (o : ℕ) (c : ℕ) (w : Machine) → Keeps w (read_words o c w)
unfolding read_words
Keeps-read_words zero c w = search (keeps) depth 60 fits 4000
Keeps-read_words (suc n) c w =
    search (keeps, Keeps-read_word, Keeps-more_words, (Keeps-read_words n)) depth 60 fits 4000

pub Keeps-copy_hex : (output : ℕ) (o : ℕ) (c : ℕ) (w : Machine) → Keeps w (copy_hex output o c w)
unfolding copy_hex
Keeps-copy_hex output zero c w = search (keeps) depth 60 fits 4000
Keeps-copy_hex output (suc n) c w = search (keeps, (Keeps-copy_hex output n)) depth 60 fits 4000

pub Keeps-put_real :
    (output : ℕ) (size : ℕ) (saved_pos : ℕ) (o : Option Bytes) (w : Machine)
    → Keeps w (put_real output size saved_pos o w)
unfolding put_real
Keeps-put_real output size saved_pos (some buf) w = search (keeps) depth 60 fits 4000
Keeps-put_real output size saved_pos none w = search (keeps, Keeps-copy_hex) depth 60 fits 4000

pub Keeps-after_words :
    (id : ImplementationDetails) (output : ℕ) (size : ℕ) (saved_pos : ℕ) (o : Option (List ℕ))
    (w : Machine)
    → Keeps w (after_words id output size saved_pos o w)
unfolding after_words
Keeps-after_words id output size saved_pos none w = search (keeps) depth 60 fits 4000
Keeps-after_words id output size saved_pos (some words) w =
    search (keeps, Keeps-put_real) depth 60 fits 4000

pub Keeps-decode_real :
    (id : ImplementationDetails) (output : ℕ) (size : ℕ) (w : Machine)
    → Keeps w (decode_real id output size w)
unfolding decode_real
Keeps-decode_real id output size w =
    search (keeps, Keeps-read_words, Keeps-after_words) depth 60 fits 4000
