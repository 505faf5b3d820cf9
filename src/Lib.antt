-- ===== src/Lib.antt =====
-- A model of libcwd, a C++ library for debug output, with the theorems that its parts are correct.
--
-- The library writes debug output in lines. `Dout(channel|flags, text)` combines a channel set,
-- starts a line in an output state of its own, runs the text, and finishes the line, which writes
-- the buffer to the debug object's ostream. A text may hold further debug output (a nested line),
-- a line may stay open (`continued_cf`), and another thread may cut it off. Around this stand the
-- strings for margin and marker, the registry of channels, the switches, the configuration file
-- with its wildcard masks, a reference count, escaped output of bytes, the lookup of the function
-- that an address lies in, from ELF and DWARF symbols, and the demangler of its name.
--
-- The files and what they model:
--   SymbolRanges   include/dwarf_symbol_ranges.h, and get_symbol_range_from_function_symbols_map
--                  of src/dwarf.cxx. std::map is the list of its entries by key; an iterator is the
--                  part of the list ahead of it.
--   ControlFlag    include/libcwd/control_flag.h: a mask is a record with a field for each bit.
--   DebugStack     include/private_DebugStack.inl.h.
--   Strerrno       src/strerrno.cxx.
--   Dout           src/debug.cxx, include/libcwd/ChannelSet.inl.h, DebugObject.inl.h and
--                  macro_Libcwd_macros.h. `World` is the state: the running thread's data, the
--                  other threads', the heap of output states, and the debug object with the events
--                  on its streams. Buffer::writeto is Writeto, start is Start, finish is Finish, the
--                  channel sets and the macro are Scope; the theorems stand in Balance, Quiet,
--                  Line, Errno, Plain and Whole.
--   DebugString    class DebugString of src/debug.cxx, with push_margin and pop_margin.
--   Channels       DebugChannels and Channel::initialize of src/debug.cxx; the theorems stand in
--                  Order, Labels and Registered.
--   Switches       on, off and the indentation; force_on and restore of a channel, with
--                  Channel::NS_initialize, are in Forced.
--   OstreamState   the locking of the ostream, include/libcwd/DebugObject.inl.h.
--   Rcfile         src/utils/rcfile.cxx and include/libcwd/RcFile.h. `World` is the RcFile object with
--                  the switches of all channels; a DoutFatal is a value. The search for the file is
--                  Locate, the operations on channels are Switching, RcFile::read is Read, the work
--                  on strings is Text. Sound, Kept, Found and Turns carry the proof of Restored; the
--                  other theorems stand in Lines, Passes, Other, Switched and Tokens.
--   Demangle       include/cwd_demangle.h and src/demangle.cxx. Leaf has the decoders that call no
--                  other part of the grammar, Operators the table of operators with its hash.
--                  Machine is the rest of class session, as a state monad: a string that is passed
--                  by reference is a place in a store, since function_name_ may be the output
--                  itself; Qualifiers is qualifier_list. Grammar has the recursive decoders, each
--                  over a record of all of them, and Grammar.Knot ties them with fuel and has
--                  demangle::symbol and demangle::type; Library has demangle_symbol and
--                  demangle_type. Decimal is decimal_float with print_IEEE_fp. The symbols of
--                  tests/demangler.cpp are in Runs. The theorems stand in Names, Numbers, Perfect,
--                  Within, Kept, SeqId, Endless, Thunk and Decimal.Value.
--   RefCount       include/utils/AIRefCount.h.
--   Match          src/utils/match.cxx.
--   Escape         src/utils/char2str.cxx, include/libcwd/char2str.h and buf2str.h.
--   LockableAutoPtr  include/libcwd/lockable_auto_ptr.h.
--   Base           shared names, tests, lists and integers.
--
-- Bounds and fuel: `match` has fuel for one call inside another per character of the mask, which
-- each call inside shortens; the loop over a list of channels has a turn for each character, the
-- loops that turn a channel on one for each call of `off`, the digit loops of the demangler one for
-- each character of the text; a recursive decoder of the demangler gets its fuel from the caller,
-- since not every text lets it end; calculate_capacity has fuel for 64 doublings, enough for a
-- 64-bit length. size_t wraps at 2^64, unsigned short at 2^16, and the std::atomic<int> of
-- AIRefCount at 2^32; the ints `_off`, off_count and those of off_cnt_array are unbounded integers,
-- which fits a program with fewer than 2^31 calls of `off` that are not cancelled; an int that
-- would overflow in the demangler ends in `undefined`, and a read behind the text's NUL in
-- `undefined_access`. The configuration is that with CWDEBUG_DEBUG, CWDEBUG_DEBUGT and
-- CWDEBUG_DEBUGOUTPUT off, and CWDEBUG_LOCATION and HAVE_PWD_H on.
--
-- Parameters: strerror of the C library, what a write to a stream leaves in errno, the null test of
-- a DIE's address, the byte that fresh memory holds, the environment and the files that the
-- configuration is read from, the application's unknown_keyword, which is assumed to return and to
-- touch no switch, the value of an uninitialized bool, and the application's try_lock.
--
-- Not modelled: force_on and restore of a debug object, the message of DoutFatal, the debug output
-- of the demangler, the reading of ELF and DWARF files, the threads' startup, and all that only
-- calls the system.
pub mod Base
pub mod SymbolRanges
pub mod ControlFlag
pub mod Demangle
pub mod DebugStack
pub mod Strerrno
pub mod Dout
pub mod Match
pub mod Rcfile
pub mod RefCount
pub mod OstreamState
pub mod Switches
pub mod Channels
pub mod LockableAutoPtr
pub mod Escape
pub mod DebugString
