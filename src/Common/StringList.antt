-- ===== src/Common/StringList.antt =====
-- avahi-common/strlst.c: lists of byte strings, as the TXT data of a service holds them.
-- Memory is always given: the branches for a failed allocation are left out.
pub mod Wire
pub mod Text
pub mod Pairs
use nvmrdisplay.Prelude.{ℕ, zero, suc, ◌+◌, ◌-◌, ◌/◌, ◌%◌, Bool, true, false, ◌&&◌, ◌||◌}
use mathlib.Core.Option
use nvmrdisplay.Prelude.{Option, none, some, List, [], ◌∷◌, ◌++◌, reverse}
use nvmrdisplay.Prelude.{length, get_elem?, take, drop, bytes_eq, ltb, leb, ◌==◌, if◌then◌else◌}
use nvmrdisplay.Prelude.Chars.{strcasecmp_eq, strncasecmp_eq, c_string}

-- `AvahiStringList`: the text of each node, the head first. The size of a node is its length.
abbrev pub StringList : Type 0
StringList = List (List ℕ)

pub add_arbitrary : StringList → List ℕ → StringList
add_arbitrary l text = text ∷ l

-- The loop of `avahi_string_list_parse` with the strings read so far in `r`.
-- `c` is what `size` leaves of the data; a round takes a byte at least.
pub parse_loop : ℕ → List ℕ → StringList → Option StringList
unfolding add_arbitrary
parse_loop fuel [] r = some r
parse_loop zero (k ∷ c) r = none
parse_loop (suc fuel) (k ∷ c) r =
    let rest = parse_loop fuel (drop k c) (if ltb 0 k then add_arbitrary r (take k c) else r) in
    if ltb (length c) k then none else rest

unfoldable pub parse : List ℕ → Option StringList
unfolding parse_loop
parse bytes = parse_loop (length bytes) bytes []

-- The bytes that one round of the first loop of `serialize` may write: at most 255 of the string,
-- and no more than `size - 1`.
abbrev pub clip : ℕ → ℕ → ℕ
clip size n = let k = if ltb 255 n then 255 else n in if ltb (size - 1) k then size - 1 else k

-- The loop over the reversed list; the result is what is written. It stops at `size ≤ 1`.
pub serialize_loop : StringList → ℕ → List ℕ
serialize_loop [] size = []
serialize_loop (text ∷ l) size =
    let k = clip size (length text) in
    let skipped = serialize_loop l size in
    let written = k ∷ (take k text ++ serialize_loop l (size - (1 + k))) in
    if ltb 1 size then (if length text == 0 then skipped else written) else []

-- `avahi_string_list_serialize` with a buffer of `size` bytes: the `used` bytes of the buffer.
pub serialize : StringList → ℕ → List ℕ
unfolding serialize_loop
serialize l size =
    let out = serialize_loop (reverse l) size in
    if length out == 0 && ltb 0 size then 0 ∷ [] else out

-- The loop of `avahi_string_list_serialize` with no buffer, which only counts.
pub serialized_loop : StringList → ℕ → ℕ
serialized_loop [] used = used
serialized_loop (text ∷ l) used =
    let k = if ltb 255 (length text) then 255 else length text in
    serialized_loop l (if length text == 0 then used else used + (1 + k))

unfoldable pub serialized_size : StringList → ℕ
unfolding serialized_loop
serialized_size l = let used = serialized_loop l 0 in if used == 0 then 1 else used

-- Whether the comparison `*p < 32` holds of a `char`. Where `char` is signed (`signed` is true) a
-- byte from 128 on is negative.
abbrev pub is_below_32 : Bool → ℕ → Bool
is_below_32 signed b = ltb b 32 || (signed && leb 128 b)

-- First pass of `avahi_string_list_to_string`: the room that a byte takes.
pub char_room : Bool → ℕ → ℕ
char_room signed b = if b == 34 || b == 92 then 2 else if is_below_32 signed b then 4 else 1

pub text_room : Bool → List ℕ → ℕ
unfolding char_room
text_room signed [] = 0
text_room signed (b ∷ text) = char_room signed b + text_room signed text

-- `n != l` is `separated`: a space stands in front of each string but the first.
pub list_room : Bool → Bool → StringList → ℕ
unfolding text_room
list_room signed separated [] = 0
list_room signed separated (text ∷ l) =
    (if separated then 1 else 0) + (text_room signed text + 2) + list_room signed true l

-- Second pass: the bytes that are written for a byte.
pub escape_char : Bool → ℕ → List ℕ
escape_char signed b =
    if b == 34 || b == 92
    then 92 ∷ b ∷ []
    else if is_below_32 signed b
    then 92 ∷ (48 + b / 100) ∷ (48 + b / 10 % 10) ∷ (48 + b % 10) ∷ []
    else b ∷ []

pub escape_text : Bool → List ℕ → List ℕ
unfolding escape_char
escape_text signed [] = []
escape_text signed (b ∷ text) = escape_char signed b ++ escape_text signed text

pub write_loop : Bool → Bool → StringList → List ℕ
unfolding escape_text
write_loop signed separated [] = []
write_loop signed separated (text ∷ l) =
    (if separated then 32 ∷ [] else [])
    ++ ((34 ∷ (escape_text signed text ++ (34 ∷ []))) ++ write_loop signed true l)

-- The size of the buffer that `avahi_string_list_to_string` allocates, and the string in it.
pub to_string_size : Bool → StringList → ℕ
unfolding list_room
to_string_size signed l = list_room signed false l + 1

pub to_string : Bool → StringList → List ℕ
unfolding write_loop
to_string signed l = write_loop signed false (reverse l)

pub equal : StringList → StringList → Bool
equal [] [] = true
equal [] (b ∷ bs) = false
equal (a ∷ as') [] = false
equal (a ∷ as') (b ∷ bs) =
    let rest = equal as' bs in
    if length a == length b then (if bytes_eq a b then rest else false) else false

pub copy_loop : StringList → StringList → StringList
unfolding add_arbitrary
copy_loop [] r = r
copy_loop (text ∷ l) r = copy_loop l (add_arbitrary r text)

pub copy : StringList → StringList
unfolding copy_loop
copy l = reverse (copy_loop l [])

-- The test of a node in `avahi_string_list_find`. The text is NUL-terminated behind its size, and
-- `text[n]` is read only where the first `n` characters agree with the key.
pub matches_key : List ℕ → List ℕ → Bool
matches_key text key =
    strcasecmp_eq (c_string text) key
    || (strncasecmp_eq (length key) (c_string text) key
        && (elim (get_elem? text (length key)) [ none ↦ false | some b ↦ b == 61 ]))

pub find : StringList → List ℕ → Option (List ℕ)
unfolding matches_key
find [] key = none
find (text ∷ l) key = let rest = find l key in if matches_key text key then some text else rest

-- `avahi_string_list_add_pair_arbitrary`: `none` is a NULL value.
unfoldable pub add_pair_arbitrary : StringList → List ℕ → Option (List ℕ) → StringList
add_pair_arbitrary l key none = key ∷ l
add_pair_arbitrary l key (some value) = (key ++ (61 ∷ value)) ∷ l

-- `memchr(l->text, '=', l->size)`: what stands before the first '=' and behind it.
pub split_eq : List ℕ → Option (List ℕ × List ℕ)
split_eq [] = none
split_eq (b ∷ text) =
    if b == 61 then some ([], text) else Option.map (λ kv. (b ∷ kv.0, kv.1)) (split_eq text)

-- `avahi_string_list_get_pair` with all three pointers given: the key, and the value if there is one.
pub get_pair : List ℕ → List ℕ × Option (List ℕ)
unfolding split_eq
get_pair text = elim (split_eq text) [
  | none ↦ (c_string text, none)
  | some (k, v) ↦ (c_string k, some v)
]
