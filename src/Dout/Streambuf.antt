-- ===== src/Dout/Streambuf.antt =====
-- class Buffer of src/debug.cxx over what it uses of std::stringbuf.
use libcwd.Base.{ℕ, ◌+◌, ◌-◌, false, [], ◌∷◌, ◌++◌, length, take, drop}
use libcwd.Dout.{Buffer, Bytes}

abbrev pub empty_buffer : Buffer
empty_buffer = record {
  chars = [];
  out_pos = 0;
  in_pos = 0;
  position = 0;
  unfinished_already_printed = false;
  continued_needed = false;
}

-- Writing through the stream: characters at the put position are written over.
unfoldable pub sputn : Bytes → Buffer → Buffer
sputn s b = record b {
  chars = take b.out_pos b.chars ++ (s ++ drop (b.out_pos + length s) b.chars);
  out_pos = b.out_pos + length s;
}

-- What lies between the get and the put position.
unfoldable pub pending : Buffer → Bytes
pending b = take (b.out_pos - b.in_pos) (drop b.in_pos b.chars)

-- sgetn(msgbuf, curlen): the get position moves up to the put position.
unfoldable pub consume : Buffer → Buffer
consume b = record b { in_pos = b.in_pos + (b.out_pos - b.in_pos) }

unfoldable pub store_position : Buffer → Buffer
store_position b = record b { position = b.out_pos }

unfoldable pub restore_position : Buffer → Buffer
restore_position b = record b { out_pos = b.position; in_pos = 0; continued_needed = false }

unfoldable pub continued : Buffer → Buffer
continued b = record b { unfinished_already_printed = false }

-- The first `put` of write_prefix_to is made whatever the size: with no character at all, sgetc()
-- is EOF, which is put as the byte 255.
unfoldable pub first_char : Bytes → ℕ
first_char [] = 255
first_char (c ∷ cs) = c

-- What write_prefix_to puts: a character, then those up to `position_`.
unfoldable pub prefix_of : Buffer → Bytes
unfolding first_char
prefix_of b = first_char b.chars ∷ take (b.position - 1) (drop 1 b.chars)
