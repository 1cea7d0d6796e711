-- ===== src/Core/Packet/Records/Steps.antt =====
-- The steps of writing and of reading a record, one after the other.
use nvmrdisplay.Prelude.{ℕ, zero, suc, ◌+◌, ◌/◌, ◌%◌, ◌^◌, ◌<◌, ◌≤◌, ◌≡◌, refl, ap, sym, ◌∙◌, arith}
use nvmrdisplay.Prelude.{
  List, [], ◌∷◌, ◌++◌, length, drop, length-append, ltb-ge, drop-append_length,
}
use nvmrdisplay.Prelude.Outcome.{Outcome, done, ◌>>=◌}
use nvmrdisplay.Core.Packet.{
  Packet, put, ahead, extend, append_uint16, append_uint32, consume_uint16, consume_uint32,
}
use nvmrdisplay.Core.Packet.Names.{Written, written}
use nvmrdisplay.Core.Packet.Names.RoundTrip.{extend-room}
use nvmrdisplay.Core.Packet.Records.{◌>>>◌, plain, put16}

pub behind :
    {x y : Outcome Written} {p : Packet} (f : Packet → Outcome Written)
    → x ≡ done (written p)
    → f p ≡ y
    → (x >>> f) ≡ y
behind f e h = rw e h

pub bind_done {ℓ κ} :
    {A : Type ℓ} {B : Type κ} {x : Outcome A} {v : A} {y : Outcome B} (f : A → Outcome B)
    → x ≡ done v
    → f v ≡ y
    → (x >>= f) ≡ y
bind_done f e h = rw e h

-- A packet with more behind it.
abbrev pub longer : List ℕ → Packet → Packet
longer b p = record p { bytes = p.bytes ++ b }

pub plain-room :
    (b : List ℕ) (p : Packet)
    → length p.bytes + length b ≤ p.max_size
    → plain p (extend b p) ≡ done (written (longer b p))
plain-room b p room = rw (extend-room b p room) refl

pub put16-room :
    (v : ℕ) (p : Packet)
    → length p.bytes + 2 ≤ p.max_size
    → put16 v p ≡ done (written (longer (v / 256 % 256 ∷ v % 256 ∷ []) p))
unfolding append_uint16
put16-room v p room = plain-room (v / 256 % 256 ∷ v % 256 ∷ []) p room

abbrev pub word32 : ℕ → List ℕ
word32 v = v / 2 ^ 24 % 256 ∷ v / 2 ^ 16 % 256 ∷ v / 2 ^ 8 % 256 ∷ v % 256 ∷ []

pub put32-room :
    (v : ℕ) (p : Packet)
    → length p.bytes + 4 ≤ p.max_size
    → plain p (append_uint32 v p) ≡ done (written (longer (word32 v) p))
unfolding append_uint32
put32-room v p room = plain-room (word32 v) p room

suc_add : (i k : ℕ) → suc i + k ≡ suc (i + k)
suc_add i k = omega arith

drop_nil : (k : ℕ) → drop {A = ℕ} k [] ≡ []
drop_nil zero = refl
drop_nil (suc k) = refl

-- Putting a byte behind the first bytes.
pub put-append : (x y : List ℕ) (i v : ℕ) → put (length x + i) v (x ++ y) ≡ x ++ put i v y
put-append [] y i v = ap (λ k. put k v y) (omega arith)
put-append (b ∷ x) y i v =
    ap (λ k. put k v (b ∷ (x ++ y))) (suc_add (length x) i) ∙ ap (λ t. b ∷ t) (put-append x y i v)

pub drop-drop : (i k : ℕ) (xs : List ℕ) → drop (i + k) xs ≡ drop k (drop i xs)
drop-drop zero k xs = ap (λ j. drop j xs) (omega arith)
drop-drop (suc i) k [] = ap (λ j. drop j []) (suc_add i k) ∙ sym (drop_nil k)
drop-drop (suc i) k (x ∷ xs) = ap (λ j. drop j (x ∷ xs)) (suc_add i k) ∙ drop-drop i k xs

-- The read index stands before the bytes.
pub record IsAt (b : List ℕ) (p : Packet) : Type 0 where
  pub seen : ahead p ≡ b
  pub total : p.rindex + length b ≡ length p.bytes

abbrev pub moved : ℕ → Packet → Packet
moved n p = record p { rindex = p.rindex + n }

pub moved-IsAt : (b c : List ℕ) (p : Packet) → IsAt (b ++ c) p → IsAt c (moved (length b) p)
moved-IsAt b c p h = record {
  seen =
      drop-drop p.rindex (length b) p.bytes ∙ ap (drop (length b)) h.seen ∙ drop-append_length b c;
  total = omega (arith, h.total, length-append b c);
}

pub consume_uint16-IsAt :
    (v : ℕ) (c : List ℕ) (p : Packet)
    → v < 2 ^ 16
    → IsAt (v / 256 % 256 ∷ v % 256 ∷ c) p
    → consume_uint16 p ≡ done (v, moved 2 p)
unfolding consume_uint16
consume_uint16-IsAt v c p small h =
    rw (h.seen, ltb-ge (length p.bytes) (p.rindex + 2) (omega (arith, h.total)))
      (ap (λ x. done (x, moved 2 p)) (omega arith))

pub consume_uint32-IsAt :
    (v : ℕ) (c : List ℕ) (p : Packet)
    → v < 2 ^ 32
    → IsAt (word32 v ++ c) p
    → consume_uint32 p ≡ done (v, moved 4 p)
unfolding consume_uint32
consume_uint32-IsAt v c p small h =
    rw (h.seen, ltb-ge (length p.bytes) (p.rindex + 4) (omega (arith, h.total)))
      (ap (λ x. done (x, moved 4 p)) (omega arith))
