-- ===== src/ControlFlag.antt =====
-- include/libcwd/control_flag.h. The program only joins masks by `|`, clears one bit by `& ~`, and
-- tests masks against constants, so a `control_flag_t` is a record with a field for each bit.
use libcwd.Base.{Bool, false, ◌||◌}

pub record ControlFlag : Type 0 where
  pub nonewline : Bool
  pub noprefix : Bool
  pub nolabel : Bool
  pub blank_margin : Bool
  pub blank_label : Bool
  pub blank_marker : Bool
  pub cerr : Bool
  pub flush : Bool
  pub wait : Bool
  pub error : Bool
  pub continued_cf : Bool
  pub continued_expected : Bool
  pub fatal : Bool
  pub coredump : Bool
  pub continued : Bool
  pub finish : Bool

-- The mask 0.
abbrev pub no_flags : ControlFlag
no_flags = record {
  nonewline = false;
  noprefix = false;
  nolabel = false;
  blank_margin = false;
  blank_label = false;
  blank_marker = false;
  cerr = false;
  flush = false;
  wait = false;
  error = false;
  continued_cf = false;
  continued_expected = false;
  fatal = false;
  coredump = false;
  continued = false;
  finish = false;
}

-- `a | b`
abbrev pub or_flags : ControlFlag → ControlFlag → ControlFlag
or_flags a b = record {
  nonewline = a.nonewline || b.nonewline;
  noprefix = a.noprefix || b.noprefix;
  nolabel = a.nolabel || b.nolabel;
  blank_margin = a.blank_margin || b.blank_margin;
  blank_label = a.blank_label || b.blank_label;
  blank_marker = a.blank_marker || b.blank_marker;
  cerr = a.cerr || b.cerr;
  flush = a.flush || b.flush;
  wait = a.wait || b.wait;
  error = a.error || b.error;
  continued_cf = a.continued_cf || b.continued_cf;
  continued_expected = a.continued_expected || b.continued_expected;
  fatal = a.fatal || b.fatal;
  coredump = a.coredump || b.coredump;
  continued = a.continued || b.continued;
  finish = a.finish || b.finish;
}
