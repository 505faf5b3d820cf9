-- ===== src/Channels.antt =====
-- The registry of debug channels, DebugChannels of src/debug.cxx, with Channel::initialize. A label
-- is the array label_ of 17 bytes; a C string stops at its first NUL, or with the list.
pub mod Order
pub mod Labels
pub mod Registered
mod Samples
use libcwd.Base.{
  ℕ, suc, zero, ◌+◌, ◌-◌, Bool, true, false, ◌&&◌, Option, none, some, List, [], ◌∷◌, ◌++◌, length,
  map, replicate, ltb, leb, ◌==◌, if◌then◌else◌, codes,
}
use libcwd.Base.Int.{ℤ, pos, negsuc, ◌+ℤ◌, ◌-ℤ◌, eqb_ℤ}
use libcwd.ControlFlag.{ControlFlag}

abbrev pub Bytes : Type 0
Bytes = List ℕ

abbrev pub max_label_len : ℕ
max_label_len = 16

pub record Channel : Type 0 where
  pub label : Bytes
  pub index : ℕ

pub record FatalChannel : Type 0 where
  pub label : Bytes
  pub maskbit : Option ControlFlag

-- ChannelSets, WST_max_len, and the labels of dc::core and dc::fatal.
pub record Registry : Type 0 where
  pub visible : List Channel
  pub hidden : List Channel
  pub next_index : ℕ
  pub max_len : ℕ
  pub core : Bytes
  pub fatal : Bytes

-- label_[i] = c
unfoldable pub set_at : ℕ → ℕ → Bytes → Bytes
set_at i c [] = []
set_at zero c (x ∷ s) = c ∷ s
set_at (suc i) c (x ∷ s) = x ∷ set_at i c s

unfoldable pub set_label_at : ℕ → ℕ → Channel → Channel
set_label_at i c ch = record ch { label = set_at i c ch.label }

-- strncmp(a, b, n) > 0
unfoldable pub greater : ℕ → Bytes → Bytes → Bool
greater zero a b = false
greater (suc n) [] b = false
greater (suc n) (x ∷ a) [] = ltb 0 x
greater (suc n) (x ∷ a) (y ∷ b) =
    let rest = greater n a b in if x == y then (if x == 0 then false else rest) else ltb y x

-- strncmp(a, b, n) == 0
unfoldable pub equal : ℕ → Bytes → Bytes → Bool
equal zero a b = true
equal (suc n) [] [] = true
equal (suc n) [] (y ∷ b) = y == 0
equal (suc n) (x ∷ a) [] = x == 0
equal (suc n) (x ∷ a) (y ∷ b) =
    let rest = equal n a b in if x == y then (if x == 0 then true else rest) else false

-- tolower in the C locale.
unfoldable pub lower : ℕ → ℕ
lower c = if leb 65 c && leb c 90 then c + 32 else c

-- !strncasecmp(label, name, strlen(label)) of a label with no NUL.
unfoldable pub is_prefix : Bytes → Bytes → Bool
is_prefix [] b = true
is_prefix (x ∷ a) [] = false
is_prefix (x ∷ a) (y ∷ b) = let rest = is_prefix a b in if lower x == lower y then rest else false

-- The last one in the list that matches.
unfoldable pub find_from : Option Channel → Bytes → List Channel → Option Channel
find_from result label [] = result
find_from result label (ch ∷ chs) =
    find_from (if is_prefix label ch.label then some ch else result) label chs

unfoldable pub find : Bytes → Registry → Option Channel
find label r = find_from none label r.visible

-- The label with spaces behind it and a NUL at `width`: Channel::initialize.
unfoldable pub padded : Bytes → ℕ → Bytes → Bytes
padded label width old_end =
    set_at width 0 (label ++ (replicate (max_label_len - length label) 32 ++ old_end))

-- The new width, and every label cut there.
unfoldable pub widen : ℕ → Registry → Registry
widen label_len r =
    let width = if ltb r.max_len label_len then label_len else r.max_len in
    let move : Channel → Channel = λ ch. set_label_at width 0 (set_label_at r.max_len 32 ch) in
    record r { visible = map move r.visible; hidden = map move r.hidden; max_len = width }

unfoldable pub widen_builtin : ℕ → Registry → Registry
widen_builtin width r = record r {
  core = set_at width 0 (set_at r.max_len 32 r.core);
  fatal = set_at width 0 (set_at r.max_len 32 r.fatal);
}

-- In front of the first label that is greater.
unfoldable pub insert : ℕ → Channel → List Channel → List Channel
insert width ch [] = ch ∷ []
insert width ch (x ∷ xs) =
    let rest = insert width ch xs in
    if greater width x.label ch.label then ch ∷ x ∷ xs else x ∷ rest

-- The registry, the new channel, and its entry of off_cnt_array. `none` is the DoutFatal.
unfoldable pub initialize_channel : Bytes → Bool → Registry → Option (Registry × Channel × ℤ)
initialize_channel label add_to_channel_list r =
    if ltb max_label_len (length label)
    then none
    else let wide = widen (length label) r in
      let r' = record (widen_builtin wide.max_len r) {
        visible = wide.visible;
        hidden = wide.hidden;
        max_len = wide.max_len;
        next_index = r.next_index + 1;
      } in
      let channel : Channel = record {
        label = padded label r'.max_len (0 ∷ []);
        index = r.next_index + 1;
      } in
      let off_cnt =
        if equal (length label) channel.label (codes "WARNING") then negsuc 0 else pos 0 in
      some (
        if add_to_channel_list
            then record r' { visible = insert r'.max_len channel r'.visible }
            else record r' { hidden = r'.hidden ++ (channel ∷ []) },
        channel,
        off_cnt,
      )

-- The registry and the new label of a fatal channel.
unfoldable pub initialize_fatal_channel :
    Bytes → ControlFlag → Registry → Option (Registry × FatalChannel)
initialize_fatal_channel label maskbit r =
    if ltb max_label_len (length label)
    then none
    else let r' = widen (length label) r in
      some (r', record { label = padded label r'.max_len (0 ∷ []); maskbit = some maskbit })

-- Channel::off and Channel::on on an entry of off_cnt_array. `none` is the DoutFatal.
unfoldable pub off : ℤ → ℤ
off n = n +ℤ pos 1

unfoldable pub on : ℤ → Option ℤ
on n = if eqb_ℤ n (negsuc 0) then none else some (n -ℤ pos 1)
