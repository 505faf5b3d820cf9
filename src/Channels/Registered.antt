-- ===== src/Channels/Registered.antt =====
-- What DebugChannels::initialize_channel of src/debug.cxx makes of the visible channels: the labels get
-- the new width, and the new channel its place.
use libcwd.Base.{
  ℕ, ◌+◌, ◌-◌, ◌≤◌, ◌≡◌, refl, sym, ◌∙◌, ap, Bool, true, false, none, some, List, [], ◌∷◌, ◌++◌,
  length, map, replicate, length-append, length-replicate, ltb, All, arith, if◌then◌else◌,
  Bool-cases, inl, inr,
}
use mathlib.Core.Path.{subst}
use libcwd.Base.Int.{ℤ}
use libcwd.Channels.{
  Bytes, Channel, Registry, max_label_len, set_at, greater, padded, widen, widen_builtin, insert,
  initialize_channel,
}
use libcwd.Channels.Labels.{
  IsLabel, label_end, relabelled, moved, spaces, set_at-append, set_at-spaces, append_assoc,
  moved-IsSorted, moved-AreLabels, map-moved,
}
use libcwd.Channels.Order.{IsSorted, insert-IsSorted, All-insert}

-- The visible channels stand in the order of their labels, and these are filled up to the width.
abbrev pub IsOrdered : Registry → Type 0
IsOrdered r =
    (r.max_len ≤ max_label_len)
    × All (λ ch. IsLabel r.max_len ch.label) r.visible
    × IsSorted r.max_len r.visible

-- The new channel stands somewhere among the old ones, if it is added to the list.
abbrev pub IsPlaced : Bool → Channel → (olds news : List Channel) → Type 0
IsPlaced false ch olds news = news ≡ olds
IsPlaced true ch olds news =
    (front : List Channel) × (back : List Channel) × (olds ≡ front ++ back)
    × (news ≡ front ++ (ch ∷ back))

-- The width with a label of that length.
abbrev pub width_with : ℕ → Registry → ℕ
width_with label_len r = if ltb r.max_len label_len then label_len else r.max_len

insert-IsPlaced :
    (width : ℕ) (ch : Channel) (xs : List Channel) → IsPlaced true ch xs (insert width ch xs)
unfolding insert
insert-IsPlaced width ch [] = ([], [], refl, refl)
insert-IsPlaced width ch (x ∷ xs) = elim (Bool-cases (greater width x.label ch.label)) [
  | inl e ↦ rw (e) ([], x ∷ xs, refl, refl)
  | inr e ↦
      let (front, back, o, n) = insert-IsPlaced width ch xs in
      rw (e) (x ∷ front, back, ap (λ l. x ∷ l) o, ap (λ l. x ∷ l) n)
]

padded_lem :
    (label : Bytes) (w : ℕ)
    → length label ≤ w
    → w ≤ max_label_len
    → padded label w (0 ∷ []) ≡ label ++ (replicate (w - length label) 32 ++ label_end w)
unfolding padded
padded_lem label w h fits =
    let rest = spaces (max_label_len - length label) in
    ap (λ n. set_at n 0 (label ++ rest)) (omega (arith, h))
    ∙ set_at-append 0 (w - length label) label rest
    ∙ ap (λ n. label ++ set_at (w - length label) 0 (spaces n)) (omega (arith, h, fits))
    ∙ ap (◌++◌ label) (set_at-spaces (w - length label) (max_label_len - w))

padded-IsLabel :
    (label : Bytes) (w : ℕ)
    → length label ≤ w
    → w ≤ max_label_len
    → IsLabel w (padded label w (0 ∷ []))
padded-IsLabel label w h fits = (
  label ++ replicate (w - length label) 32,
  length-append label (replicate (w - length label) 32)
      ∙ omega (arith, h, length-replicate {A = ℕ} (w - length label) 32),
  padded_lem label w h fits
      ∙ sym (append_assoc label (replicate (w - length label) 32) (label_end w)),
)

-- The visible channels behind the registration.
abbrev visible_after : Bool → ℕ → Channel → List Channel → List Channel
visible_after add w ch xs = if add then insert w ch xs else xs

visible_after_lem :
    (add : Bool) (w : ℕ) (ch : Channel) (xs : List Channel)
    → IsLabel w ch.label
    → All (λ x. IsLabel w x.label) xs
    → IsSorted w xs
    → All (λ x. IsLabel w x.label) (visible_after add w ch xs)
      × IsSorted w (visible_after add w ch xs)
      × IsPlaced add ch xs (visible_after add w ch xs)
visible_after_lem false w ch xs l ls sorted = (ls, sorted, refl)
visible_after_lem true w ch xs l ls sorted = (
  All-insert (λ x. IsLabel w x.label) w ch xs l ls,
  insert-IsSorted w ch xs sorted,
  insert-IsPlaced w ch xs,
)

abbrev new_channel : Bytes → Registry → Channel
new_channel label r = record {
  label = padded label (width_with (length label) r) (0 ∷ []);
  index = r.next_index + 1;
}

-- What holds of the list of visible channels, whether the new one is added or not.
abbrev Holds : Bytes → Bool → Registry → Type 0
Holds label add r =
    let w = width_with (length label) r in
    let ch = new_channel label r in
    let news = visible_after add w ch (map (moved r.max_len w) r.visible) in
    (w ≤ max_label_len)
    × (ch.label ≡ label ++ (replicate (w - length label) 32 ++ label_end w))
    × All (λ x. IsLabel w x.label) news
    × IsSorted w news
    × IsPlaced add ch (map (relabelled r.max_len w) r.visible) news

visible-Holds :
    (label : Bytes) (add : Bool) (r : Registry)
    → IsOrdered r
    → length label ≤ max_label_len
    → Holds label add r
visible-Holds label add r (narrow, labels, sorted) short =
    let w = width_with (length label) r in
    let ch = new_channel label r in
    let long_enough : length label ≤ w = ground arith in
    let wider : r.max_len ≤ w = ground arith in
    let fits : w ≤ max_label_len = ground arith in
    let olds = map (moved r.max_len w) r.visible in
    let (ls, order, place) =
      visible_after_lem add w ch olds (padded-IsLabel label w long_enough fits)
        (moved-AreLabels r.max_len w wider fits r.visible labels)
        (moved-IsSorted r.max_len w wider fits r.visible labels sorted) in
    (
      fits,
      padded_lem label w long_enough fits,
      ls,
      order,
      subst (λ l. IsPlaced add ch l (visible_after add w ch olds))
          (map-moved r.max_len w wider fits r.visible labels) place,
    )

if_short :
    {A : Type 0} (label : Bytes) (a : A)
    → length label ≤ max_label_len
    → (if ltb max_label_len (length label) then none else some a) ≡ some a
if_short label a h = ground arith

-- Registering a channel with a label that is not too long: the width is the greatest label's, the
-- channel gets the next index and its label, filled up with spaces, and every visible channel keeps
-- its label, filled up to the new width. The visible channels are the old ones, with the new one
-- among them if it is to be added, and they stand in the order of their labels if they did before.
pub initialize_channel-IsOrdered :
    (label : Bytes) (add : Bool) (r : Registry)
    → IsOrdered r
    → length label ≤ max_label_len
    → (r' : Registry) × (ch : Channel) × (off_cnt : ℤ) × (initialize_channel label add r
        ≡ some (r', ch, off_cnt))
      × (r'.max_len ≡ width_with (length label) r)
      × (ch.index ≡ r.next_index + 1)
      × (ch.label ≡ label ++ (replicate (r'.max_len - length label) 32 ++ label_end r'.max_len))
      × IsOrdered r'
      × IsPlaced add ch (map (relabelled r.max_len r'.max_len) r.visible) r'.visible
unfolding initialize_channel widen widen_builtin
initialize_channel-IsOrdered label true r ordered short =
    let (fits, text, ls, order, place) = visible-Holds label true r ordered short in
    (_, _, _, if_short label _ short, refl, refl, text, (fits, ls, order), place)
initialize_channel-IsOrdered label false r ordered short =
    let (fits, text, ls, order, place) = visible-Holds label false r ordered short in
    (_, _, _, if_short label _ short, refl, refl, text, (fits, ls, order), place)
