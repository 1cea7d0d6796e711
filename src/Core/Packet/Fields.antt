-- ===== src/Core/Packet/Fields.antt =====
-- What is written into a packet is read from it.
use nvmrdisplay.Prelude.{
  ℕ, zero, suc, ◌+◌, ◌*◌, ◌/◌, ◌%◌, ◌^◌, ◌<◌, ◌≤◌, ◌≡◌, sym, ◌≢◌, refl, ap, ◌∙◌, arith,
}
use nvmrdisplay.Prelude.{List, [], ◌∷◌, ◌++◌, length, ltb, ◌==◌, if◌then◌else◌}
use nvmrdisplay.Prelude.{length-append, drop-append_length}
use mathlib.Core.Path.{subst}
use nvmrdisplay.Prelude.Outcome.{done}
use nvmrdisplay.Core.Packet.{Packet, header_size, put, byte_at, set_field, get_field, extend}
use nvmrdisplay.Prelude.{
  Bool-cases, inl, inr, ltb-ge, leb-gt, ℕ_discrete, ==_false, leb, take, take_all, length-take,
  if_rule, ◌-◌, min, false,
}
use nvmrdisplay.Core.Packet.{append_uint16, append_uint32, append_bytes, append_string, ahead}
use nvmrdisplay.Core.Packet.{consume_uint16, consume_uint32, consume_bytes, consume_string}

done_inj : {A : Type 0} {a b : A} → done a ≡ done b → a ≡ b
done_inj e = cc

byte_at-put : (i v : ℕ) (l : List ℕ) → i < length l → byte_at i (put i v l) ≡ v
byte_at-put i v [] h = absurd (omega arith)
byte_at-put zero v (x ∷ l) h = refl
byte_at-put (suc i) v (x ∷ l) h = byte_at-put i v l (omega arith)

byte_at-put_other : (i j v : ℕ) (l : List ℕ) → i ≢ j → byte_at i (put j v l) ≡ byte_at i l
byte_at-put_other i j v [] h = refl
byte_at-put_other zero zero v (x ∷ l) h = absurd (h refl)
byte_at-put_other (suc i) zero v (x ∷ l) h = refl
byte_at-put_other zero (suc j) v (x ∷ l) h = refl
byte_at-put_other (suc i) (suc j) v (x ∷ l) h = byte_at-put_other i j v l (omega (arith, h))

pub length-put : (i v : ℕ) (l : List ℕ) → length (put i v l) ≡ length l
length-put i v [] = refl
length-put zero v (x ∷ l) = refl
length-put (suc i) v (x ∷ l) = ap suc (length-put i v l)

-- The bytes behind `set_field`.
abbrev written : ℕ → ℕ → List ℕ → List ℕ
written i v l = put (2 * i) (v / 256 % 256) (put (2 * i + 1) (v % 256) l)

written_same :
    (i v : ℕ) (l : List ℕ)
    → v < 2 ^ 16
    → 2 * i + 1 < length l
    → byte_at (2 * i) (written i v l) * 256 + byte_at (2 * i + 1) (written i v l) ≡ v
written_same i v l hv h =
    let low = put (2 * i + 1) (v % 256) l in
    rw
      (
        byte_at-put (2 * i) (v / 256 % 256) low (omega (arith, length-put (2 * i + 1) (v % 256) l)),
        byte_at-put_other (2 * i + 1) (2 * i) (v / 256 % 256) low (λ e. omega arith),
        byte_at-put (2 * i + 1) (v % 256) l h,
      )
      (omega arith)

written_other :
    (i k v : ℕ) (l : List ℕ) → k ≢ 2 * i → k ≢ 2 * i + 1 → byte_at k (written i v l) ≡ byte_at k l
written_other i k v l h h' =
    byte_at-put_other k (2 * i) (v / 256 % 256) (put (2 * i + 1) (v % 256) l) h
    ∙ byte_at-put_other k (2 * i + 1) (v % 256) l h'

-- Of the six fields of the header, in a packet that is long enough to hold it, the one that is set to
-- a value of 16 bits reads as that value, and each other one as before.
pub get_field-set_field :
    (i j v : ℕ) (p : Packet) {p' : Packet}
    → i < 6
    → j < 6
    → v < 2 ^ 16
    → header_size ≤ length p.bytes
    → set_field i v p ≡ done p'
    → get_field j p' ≡ (if j == i then done v else get_field j p)
unfolding set_field get_field
get_field-set_field i j v p {p'} hi hj hv size e =
    let same : record p { bytes = written i v p.bytes } ≡ p' =
      done_inj (rw (leb-gt header_size i (omega arith)) at e) in
    subst (λ q. get_field j q ≡ (if j == i then done v else get_field j p)) same
      (elim (ℕ_discrete j i) [
        | yes eq ↦ ground (arith, eq, written_same i v p.bytes hv (omega arith))
        | no ne ↦ ground (
          arith,
          ne,
          written_other i (2 * j) v p.bytes (λ x. ne (omega arith)) (λ x. omega arith),
          written_other i (2 * j + 1) v p.bytes (λ x. omega arith) (λ x. ne (omega arith)),
        )
      ])

-- Everything is read.
abbrev pub IsRead : Packet → Type 0
IsRead p = p.rindex ≡ length p.bytes

-- What is appended stands ahead of the read index, and it is all that does.
record IsAhead (b : List ℕ) (p : Packet) : Type 0 where
  in_front : ahead p ≡ b
  read_to : p.rindex + length b ≡ length p.bytes

-- A packet with room gets the bytes, and is the same otherwise.
pub extend_done :
    (b : List ℕ) (p : Packet) {d : ℕ} {p' : Packet}
    → extend b p ≡ done (d, p')
    → p' ≡ record p { bytes = p.bytes ++ b }
unfolding extend
extend_done b p {d} {p'} e = elim (Bool-cases (ltb p.max_size (length p.bytes + length b))) [
  | inl t ↦ ground (arith, t)
  | inr f ↦ sym (ap (λ x. x.1) (done_inj (rw f at e)))
]

extend-IsAhead :
    (b : List ℕ) (p : Packet) {d : ℕ} {p' : Packet}
    → IsRead p
    → extend b p ≡ done (d, p')
    → IsAhead b p'
extend-IsAhead b p {d} {p'} r e = subst (IsAhead b) (sym (extend_done b p e)) (record {
  in_front = rw r (drop-append_length p.bytes b);
  read_to = omega (arith, r, length-append p.bytes b);
})

-- A number of 16 bits that is appended to a packet of which everything is read is the next that is
-- read.
pub consume_uint16-append_uint16 :
    (v : ℕ) (p : Packet) {d : ℕ} {p' : Packet}
    → v < 2 ^ 16
    → IsRead p
    → append_uint16 v p ≡ done (d, p')
    → consume_uint16 p' ≡ done (v, record p' { rindex = length p'.bytes })
unfolding append_uint16 consume_uint16
consume_uint16-append_uint16 v p {d} {p'} hv r e =
    let a = extend-IsAhead (v / 256 % 256 ∷ v % 256 ∷ []) p r e in
    let n : p'.rindex + 2 ≡ length p'.bytes = a.read_to in
    rw (a.in_front, n, ltb-ge (length p'.bytes) (length p'.bytes) (omega arith))
      (ap (λ x. done (x, record p' { rindex = length p'.bytes })) (omega arith))

-- A number of 32 bits that is appended to a packet of which everything is read is the next that is
-- read.
pub consume_uint32-append_uint32 :
    (v : ℕ) (p : Packet) {d : ℕ} {p' : Packet}
    → v < 2 ^ 32
    → IsRead p
    → append_uint32 v p ≡ done (d, p')
    → consume_uint32 p' ≡ done (v, record p' { rindex = length p'.bytes })
unfolding append_uint32 consume_uint32
consume_uint32-append_uint32 v p {d} {p'} hv r e =
    let a =
      extend-IsAhead (v / 2 ^ 24 % 256 ∷ v / 2 ^ 16 % 256 ∷ v / 2 ^ 8 % 256 ∷ v % 256 ∷ []) p r e in
    let n : p'.rindex + 4 ≡ length p'.bytes = a.read_to in
    rw (a.in_front, n, ltb-ge (length p'.bytes) (length p'.bytes) (omega arith))
      (ap (λ x. done (x, record p' { rindex = length p'.bytes })) (omega arith))

-- A string that stands ahead behind its length is read into a buffer that it fits with a NUL.
consume_string-ahead :
    (t : List ℕ) (l : ℕ) (p : Packet)
    → IsAhead (length t ∷ t) p
    → length t < l
    → consume_string l p ≡ done (t, record p { rindex = length p.bytes })
unfolding consume_string
consume_string-ahead t l p a fits =
    let k = length t in
    let l' = if ltb (k + 1) l then k + 1 else l in
    let cut : l' - 1 ≡ k = ground arith in
    let n : p.rindex + 1 + k ≡ length p.bytes = omega (arith, a.read_to) in
    rw
      (
        a.in_front,
        ==_false l 0 (λ z. omega arith),
        leb-gt (length p.bytes) p.rindex (omega arith),
        n,
        ltb-ge (length p.bytes) (length p.bytes) (omega arith),
        cut,
        take_all k t (omega arith),
      )
      refl

shorter : (a b : ℕ) → (if leb a b then a else b) ≡ min a b
shorter a b = ground arith

le_of_leb : (a b : ℕ) → leb a b ≡ false → b ≤ a
le_of_leb a b h = ground arith

-- A string that is appended to a packet of which everything is read is the next that is read, cut
-- after its first 255 bytes, by a reader with room for these and a NUL.
pub consume_string-append_string :
    (s : List ℕ) (l : ℕ) (p : Packet) {d : ℕ} {p' : Packet}
    → 255 < l
    → IsRead p
    → append_string s p ≡ done (d, p')
    → consume_string l p' ≡ done (take 255 s, record p' { rindex = length p'.bytes })
unfolding append_string
consume_string-append_string s l p {d} {p'} room r e =
    let k = if leb 255 (length s) then 255 else length s in
    let same : take k s ≡ take 255 s =
      if_rule (λ i. take i s ≡ take 255 s) (leb 255 (length s)) (λ t. refl)
        (λ f.
          take_all (length s) s (omega arith)
          ∙ sym (take_all 255 s (le_of_leb 255 (length s) f))) in
    let n : k ≡ length (take 255 s) = shorter 255 (length s) ∙ sym (length-take 255 s) in
    let a : IsAhead (length (take 255 s) ∷ take 255 s) p' =
      rw (sym n, sym same) (extend-IsAhead (k ∷ take k s) p r e) in
    consume_string-ahead (take 255 s) l p' a (omega (arith, length-take 255 s))

-- Bytes, one at least, that are appended to a packet of which everything is read are the next that are
-- read.
pub consume_bytes-append_bytes :
    (b : List ℕ) (p : Packet) {d : ℕ} {p' : Packet}
    → 0 < length b
    → IsRead p
    → append_bytes b p ≡ done (d, p')
    → consume_bytes (length b) p' ≡ done (b, record p' { rindex = length p'.bytes })
unfolding append_bytes consume_bytes
consume_bytes-append_bytes b p {d} {p'} some_bytes r e =
    let a = extend-IsAhead b p r (rw (==_false (length b) 0 (λ z. omega arith)) at e) in
    rw
      (
        ==_false (length b) 0 (λ z. omega arith),
        a.in_front,
        a.read_to,
        ltb-ge (length p'.bytes) (length p'.bytes) (omega arith),
        take_all (length b) b (omega arith),
      )
      refl
