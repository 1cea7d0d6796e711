-- ===== src/Common/StringList/Wire.antt =====
-- The wire form of a string list: what `serialize` writes and what `parse` reads back.
use nvmrdisplay.Prelude.{ℕ, zero, suc, ◌+◌, ◌-◌, ◌≤◌, ◌<◌, ◌≡◌, refl, sym, ap, ◌∙◌, ◌≢◌, inl, inr}
use nvmrdisplay.Prelude.{some, List, [], ◌∷◌, ◌++◌, reverse, arith}
use nvmrdisplay.Prelude.{length, take, drop, All, length-append, length-take, take_all}
use nvmrdisplay.Prelude.{
  take-append_length, drop-append_length, All-reverse, ◌==◌, ltb, if◌then◌else◌,
}
use mathlib.Core.Path.{subst}
use mathlib.Core.Option.{some-injective}
use nvmrdisplay.Prelude.{append-nil, append_assoc, reverse-append, Bool-cases}
use nvmrdisplay.Prelude.{ltb-lt, ltb→lt, reverse-ne-nil, ltb-ge, ==_false, reverse-reverse}
use nvmrdisplay.Common.StringList.{
  StringList, add_arbitrary, clip, parse_loop, parse, serialize_loop, serialize,
}
use nvmrdisplay.Common.StringList.{serialized_loop, serialized_size}

serialize_loop_le : (l : StringList) (size : ℕ) → length (serialize_loop l size) ≤ size
unfolding serialize_loop
serialize_loop_le [] size = omega arith
serialize_loop_le (text ∷ l) size = ground (
  arith,
  serialize_loop_le l size,
  serialize_loop_le l (size - (1 + clip size (length text))),
  length-append (take (clip size (length text)) text)
      (serialize_loop l (size - (1 + clip size (length text)))),
  length-take (clip size (length text)) text,
)

-- The buffer is never overrun, whatever the list and the size of the buffer are.
pub length-serialize-le : (l : StringList) (size : ℕ) → length (serialize l size) ≤ size
unfolding serialize
length-serialize-le l size = ground (arith, serialize_loop_le (reverse l) size)

-- Strings that have a wire form of their own: 1 to 255 bytes.
abbrev pub IsWire : List ℕ → Type 0
IsWire text = (0 < length text) × (length text ≤ 255)

-- The wire form: each string behind its length.
unfoldable pub wire : StringList → List ℕ
wire [] = []
wire (text ∷ l) = length text ∷ (text ++ wire l)

length-wire :
    (text : List ℕ) (l : StringList) → length (wire (text ∷ l)) ≡ 1 + length text + length (wire l)
unfolding wire
length-wire text l = omega (arith, length-append text (wire l))

serialize_loop-wire :
    (l : StringList) (size : ℕ)
    → All IsWire l
    → length (wire l) ≤ size
    → serialize_loop l size ≡ wire l
unfolding serialize_loop
serialize_loop-wire [] size h fits = unfold wire in refl
serialize_loop-wire (text ∷ l) size (ht, hl) fits =
    let n = length text in
    let whole : clip size n ≡ n = ground (arith, length-wire text l) in
    rw (ltb-lt 1 size (omega (arith, length-wire text l)), ==_false n 0 (omega arith), whole)
      (rw
        (
          take_all n text (omega arith),
          serialize_loop-wire l (size - (1 + n)) hl (omega (arith, length-wire text l)),
        )
        (unfold wire in refl))

parse_loop-wire :
    (l : StringList) (fuel : ℕ) (r : StringList)
    → All IsWire l
    → length (wire l) ≤ fuel
    → parse_loop fuel (wire l) r ≡ some (reverse l ++ r)
unfolding parse_loop wire
parse_loop-wire [] fuel r h fits = refl
parse_loop-wire (text ∷ l) zero r h fits = absurd (omega arith)
parse_loop-wire (text ∷ l) (suc fuel) r (ht, hl) fits =
    rw (ltb-ge (length (text ++ wire l)) (length text) (omega (arith, length-append text (wire l))))
      (rw
        (
          drop-append_length text (wire l),
          take-append_length text (wire l),
          ltb-lt 0 (length text) ht.0,
        )
        (unfold add_arbitrary in
          (parse_loop-wire l fuel (text ∷ r) hl (omega (arith, length-append text (wire l)))
            ∙ ap some (
                sym (rw (reverse-append (text ∷ []) l) (append_assoc (reverse l) (text ∷ []) r))))))

wire_pos : (l : StringList) → l ≢ [] → 0 < length (wire l)
unfolding wire
wire_pos [] ne = absurd (ne refl)
wire_pos (x ∷ l) ne = omega arith

serialize-wire :
    (x : List ℕ) (l : StringList) (size : ℕ)
    → All IsWire (x ∷ l)
    → length (wire (reverse (x ∷ l))) ≤ size
    → serialize (x ∷ l) size ≡ wire (reverse (x ∷ l))
unfolding serialize
serialize-wire x l size h fits =
    let out = wire (reverse (x ∷ l)) in
    let e : serialize_loop (reverse (x ∷ l)) size ≡ out =
      serialize_loop-wire (reverse (x ∷ l)) size (All-reverse IsWire (x ∷ l) h) fits in
    rw (e, ==_false (length out) 0 (omega (arith, wire_pos (reverse (x ∷ l)) (reverse-ne-nil x l))))

-- What `parse` makes of what `serialize` wrote into a buffer that is large enough is the list itself,
-- for every list of strings of 1 to 255 bytes, the empty list included.
pub parse-serialize :
    (l : StringList) (size : ℕ)
    → All IsWire l
    → 0 < size
    → length (wire (reverse l)) ≤ size
    → parse (serialize l size) ≡ some l
parse-serialize [] size h pos fits = unfold parse serialize in rw (ltb-lt 0 size pos)
parse-serialize (x ∷ l) size h pos fits = rw (serialize-wire x l size h fits) (
    unfold parse in
    (parse_loop-wire (reverse (x ∷ l)) (length (wire (reverse (x ∷ l)))) []
        (All-reverse IsWire (x ∷ l) h) (omega arith)
      ∙ rw (append-nil, reverse-reverse)))

-- The bytes that the list takes on the wire, empty strings skipped and long ones cut.
wire_room : StringList → ℕ
wire_room [] = 0
wire_room (text ∷ l) =
    (if length text == 0 then 0 else 1 + (if ltb 255 (length text) then 255 else length text))
    + wire_room l

wire_room-wire : (l : StringList) → All IsWire l → length (wire l) ≡ wire_room l
unfolding wire_room wire
wire_room-wire [] h = refl
wire_room-wire (text ∷ l) ((low, high), hl) =
    ground (arith, low, high, length-append text (wire l), wire_room-wire l hl)

wire_room-append : (l m : StringList) → wire_room (l ++ m) ≡ wire_room l + wire_room m
unfolding wire_room
wire_room-append [] m = omega arith
wire_room-append (x ∷ l) m = omega (arith, wire_room-append l m)

wire_room-reverse : (l : StringList) → wire_room (reverse l) ≡ wire_room l
unfolding wire_room
wire_room-reverse [] = refl
wire_room-reverse (x ∷ l) =
    rw (reverse-append (x ∷ []) l)
      (rw (wire_room-append (reverse l) (x ∷ []), wire_room-reverse l) (omega arith))

serialized_loop-wire_room :
    (l : StringList) (used : ℕ) → serialized_loop l used ≡ used + wire_room l
unfolding serialized_loop wire_room
serialized_loop-wire_room [] used = omega arith
serialized_loop-wire_room (text ∷ l) used = ground (
  arith,
  serialized_loop-wire_room l used,
  serialized_loop-wire_room l (used + (1 + 255)),
  serialized_loop-wire_room l (used + (1 + length text)),
)

-- A string takes two bytes at least.
wire_room_ne_one : (l : StringList) → wire_room l ≢ 1
unfolding wire_room
wire_room_ne_one [] = omega arith
wire_room_ne_one (text ∷ l) = ground (arith, wire_room_ne_one l)

length-serialize_loop :
    (l : StringList) (size : ℕ) → wire_room l ≤ size → length (serialize_loop l size) ≡ wire_room l
unfolding serialize_loop wire_room
length-serialize_loop [] size h = refl
length-serialize_loop (text ∷ l) size h =
    let k = clip size (length text) in
    ground (
      arith,
      wire_room_ne_one l,
      length-serialize_loop l size,
      length-serialize_loop l (size - (1 + k)),
      length-append (take k text) (serialize_loop l (size - (1 + k))),
      length-take k text,
    )

-- A buffer of at least the size that the call without a buffer asks for is filled with exactly as
-- many bytes as that call returned, for every list.
pub length-serialize-serialized_size :
    (l : StringList) (size : ℕ)
    → serialized_size l ≤ size
    → length (serialize l size) ≡ serialized_size l
unfolding serialize serialized_size
length-serialize-serialized_size l size h = ground (
  arith,
  serialized_loop-wire_room l 0,
  wire_room-reverse l,
  length-serialize_loop (reverse l) size,
)

pub serialized_size_pos : (l : StringList) → 0 < serialized_size l
unfolding serialized_size
serialized_size_pos l = ground arith

-- A buffer of the size that is asked for is enough to read the list back.
pub parse-serialized_size :
    (l : StringList) → All IsWire l → parse (serialize l (serialized_size l)) ≡ some l
unfolding serialized_size
parse-serialized_size l h =
    let n = wire_room-wire (reverse l) (All-reverse IsWire l h) ∙ wire_room-reverse l in
    let size = serialized_loop-wire_room l 0 in
    parse-serialize l (serialized_size l) h (ground (arith, size)) (ground (arith, n, size))

All-drop {ℓ} : (P : ℕ → Type ℓ) (n : ℕ) (xs : List ℕ) → All P xs → All P (drop n xs)
All-drop P zero xs h = h
All-drop P (suc n) [] h = h
All-drop P (suc n) (x ∷ xs) h = All-drop P n xs h.1

next-IsWire :
    (k : ℕ) (c : List ℕ) (r : StringList)
    → k < 256
    → k ≤ length c
    → All IsWire r
    → All IsWire (if ltb 0 k then add_arbitrary r (take k c) else r)
unfolding add_arbitrary
next-IsWire k c r hk fits hr = elim (Bool-cases (ltb 0 k)) [
  | inl t ↦ rw t (omega (arith, length-take k c, ltb→lt 0 k t), hr)
  | inr f ↦ rw f hr
]

parse_loop-IsWire :
    (fuel : ℕ) (c : List ℕ) (r l : StringList)
    → All (λ k. k < 256) c
    → All IsWire r
    → parse_loop fuel c r ≡ some l
    → All IsWire l
unfolding parse_loop
parse_loop-IsWire fuel [] r l hc hr e = subst (All IsWire) (some-injective r l e) hr
parse_loop-IsWire zero (k ∷ c) r l hc hr e = cc
parse_loop-IsWire (suc fuel) (k ∷ c) r l (hk, hc) hr e = elim (Bool-cases (ltb (length c) k)) [
  | inl t ↦ absurd (cc (rw t at e))
  | inr f ↦
      parse_loop-IsWire fuel (drop k c) (if ltb 0 k then add_arbitrary r (take k c) else r) l
        (All-drop (λ b. b < 256) k c hc) (next-IsWire k c r hk (ground arith) hr) (rw f at e)
]

-- Every list that `parse` makes of bytes holds strings of 1 to 255 bytes only, so it has a wire form
-- that `parse` reads back as the same list.
pub parse-IsWire :
    (bytes : List ℕ) {l : StringList}
    → All (λ k. k < 256) bytes
    → parse bytes ≡ some l
    → All IsWire l
unfolding parse
parse-IsWire bytes {l} h e = parse_loop-IsWire (length bytes) bytes [] l h tt e
