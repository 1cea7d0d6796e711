-- ===== src/Core/Packet/Records/Data.antt =====
-- The data of a record that holds no name: what is written of it, and that it is read back.
use nvmrdisplay.Prelude.{ℕ, ◌+◌, ◌<◌, ◌≤◌, ◌≡◌, refl, ap, sym, ◌∙◌, arith}
use nvmrdisplay.Prelude.{
  List, [], ◌∷◌, length, take, All, append-nil, take_all, ltb-ge, ltb-lt, ==_false, ==_self,
}
use nvmrdisplay.Prelude.Outcome.{done}
use nvmrdisplay.Common.StringList.{StringList, serialize, serialized_size}
use nvmrdisplay.Common.StringList.Wire.{
  IsWire, parse-serialized_size, length-serialize-serialized_size, serialized_size_pos,
}
use nvmrdisplay.Core.Records.{RecordData, srv, ptr, hinfo, txt, a, aaaa, generic}
use nvmrdisplay.Core.Packet.{Packet, ahead, append_bytes, consume_bytes, skip}
use nvmrdisplay.Core.Packet.Names.{written}
use nvmrdisplay.Core.Packet.Records.{
  Form, txt_form, a_form, aaaa_form, generic_form, form_of, append_rdata, parse_rdata, parse_form,
  plain,
}
use nvmrdisplay.Core.Packet.Records.Steps.{longer, plain-room, IsAt, moved, bind_done}

-- Data that are of the type and hold no name: the strings of a TXT record, an address, or bytes.
abbrev pub IsNameless : ℕ → RecordData → Type 0
IsNameless kind (txt l) = (kind ≡ 16) × All IsWire l
IsNameless kind (a b) = (kind ≡ 1) × (length b ≡ 4)
IsNameless kind (aaaa b) = (kind ≡ 28) × (length b ≡ 16)
IsNameless kind (generic b) = form_of kind ≡ generic_form
IsNameless kind (srv priority weight port name) = ⊥
IsNameless kind (ptr name) = ⊥
IsNameless kind (hinfo cpu os) = ⊥

abbrev pub rdata_bytes : RecordData → List ℕ
rdata_bytes (txt l) = serialize l (serialized_size l)
rdata_bytes (a b) = b
rdata_bytes (aaaa b) = b
rdata_bytes (generic b) = b
rdata_bytes (srv priority weight port name) = []
rdata_bytes (ptr name) = []
rdata_bytes (hinfo cpu os) = []

append_bytes-room :
    (b : List ℕ) (p : Packet)
    → 0 < length b
    → length p.bytes + length b ≤ p.max_size
    → plain p (append_bytes b p) ≡ done (written (longer b p))
unfolding append_bytes
append_bytes-room b p low room =
    rw (==_false (length b) 0 (omega (arith, low))) (plain-room b p room)

pub append_rdata-room :
    (kind : ℕ) (rdata : RecordData) (p : Packet)
    → IsNameless kind rdata
    → length p.bytes + length (rdata_bytes rdata) ≤ p.max_size
    → append_rdata rdata p ≡ done (written (longer (rdata_bytes rdata) p))
unfolding append_rdata
append_rdata-room kind (txt l) p h room = plain-room (serialize l (serialized_size l)) p room
append_rdata-room kind (a b) p h room = append_bytes-room b p (omega (arith, h.1)) room
append_rdata-room kind (aaaa b) p h room = append_bytes-room b p (omega (arith, h.1)) room
append_rdata-room kind (generic []) p h room =
    ap (λ t. done (written (record p { bytes = t }))) (sym (append-nil p.bytes))
append_rdata-room kind (generic (c ∷ b)) p h room =
    rw (==_false (length (c ∷ b)) 0 (omega arith)) (append_bytes-room (c ∷ b) p (omega arith) room)
append_rdata-room kind (srv priority weight port name) p h room = absurd h
append_rdata-room kind (ptr name) p h room = absurd h
append_rdata-room kind (hinfo cpu os) p h room = absurd h

take-ahead : (b : List ℕ) (p : Packet) → IsAt b p → take (length b) (ahead p) ≡ b
take-ahead b p h = ap (take (length b)) h.seen ∙ take_all (length b) b (omega arith)

consume_bytes-IsAt :
    (b : List ℕ) (p : Packet)
    → 0 < length b
    → IsAt b p
    → consume_bytes (length b) p ≡ done (b, moved (length b) p)
unfolding consume_bytes
consume_bytes-IsAt b p low h =
    rw
      (
        ==_false (length b) 0 (omega (arith, low)),
        ltb-ge (length p.bytes) (p.rindex + length b) (omega (arith, h.total)),
        take-ahead b p h,
      )
      refl

skip-IsAt : (b : List ℕ) (p : Packet) → IsAt b p → skip (length b) p ≡ done (moved (length b) p)
unfolding skip
skip-IsAt b p h = rw (ltb-ge (length p.bytes) (p.rindex + length b) (omega (arith, h.total))) refl

parse_rdata-parse_form :
    (kind n : ℕ) (f : Form) (rdata : RecordData) (p : Packet)
    → form_of kind ≡ f
    → parse_form f n p ≡ done (rdata, moved n p)
    → parse_rdata kind n p ≡ done (rdata, moved n p)
unfolding parse_rdata
parse_rdata-parse_form kind n f rdata p e h =
    bind_done _ (ap (λ g. parse_form g n p) e ∙ h) (rw (==_self (p.rindex + n)) refl)

parse_txt-IsAt :
    (l : StringList) (p : Packet)
    → All IsWire l
    → IsAt (serialize l (serialized_size l)) p
    → let n = length (serialize l (serialized_size l)) in
      parse_form txt_form n p ≡ done (txt l, moved n p)
unfolding parse_form
parse_txt-IsAt l p wires h =
    let b = serialize l (serialized_size l) in
    let low : 0 < length b = omega (
      arith,
      length-serialize-serialized_size l (serialized_size l) (omega arith),
      serialized_size_pos l,
    ) in
    rw (ltb-lt 0 (length b) low, take-ahead b p h, parse-serialized_size l wires, skip-IsAt b p h)
      refl

parse_generic-IsAt :
    (b : List ℕ) (p : Packet)
    → IsAt b p
    → parse_form generic_form (length b) p ≡ done (generic b, moved (length b) p)
unfolding parse_form
parse_generic-IsAt [] p h = ap (λ i. done (generic [], record p { rindex = i })) (omega arith)
parse_generic-IsAt (c ∷ b) p h =
    rw (ltb-lt 0 (length (c ∷ b)) (omega arith), take-ahead (c ∷ b) p h, skip-IsAt (c ∷ b) p h) refl

parse_a-IsAt :
    (b : List ℕ) (p : Packet)
    → length b ≡ 4
    → IsAt b p
    → parse_form a_form 4 p ≡ done (a b, moved 4 p)
unfolding parse_form
parse_a-IsAt b p n h =
    bind_done _ (ap (λ k. consume_bytes k p) (sym n) ∙ consume_bytes-IsAt b p (omega (arith, n)) h)
      (ap (λ k. done (a b, moved k p)) n)

parse_aaaa-IsAt :
    (b : List ℕ) (p : Packet)
    → length b ≡ 16
    → IsAt b p
    → parse_form aaaa_form 16 p ≡ done (aaaa b, moved 16 p)
unfolding parse_form
parse_aaaa-IsAt b p n h =
    bind_done _ (ap (λ k. consume_bytes k p) (sym n) ∙ consume_bytes-IsAt b p (omega (arith, n)) h)
      (ap (λ k. done (aaaa b, moved k p)) n)

pub parse_rdata-IsAt :
    (kind : ℕ) (rdata : RecordData) (p : Packet)
    → IsNameless kind rdata
    → IsAt (rdata_bytes rdata) p
    → parse_rdata kind (length (rdata_bytes rdata)) p
      ≡ done (rdata, moved (length (rdata_bytes rdata)) p)
parse_rdata-IsAt kind (txt l) p (k, wires) h =
    parse_rdata-parse_form kind _ txt_form (txt l) p (ap form_of k) (parse_txt-IsAt l p wires h)
parse_rdata-IsAt kind (a b) p (k, n) h =
    parse_rdata-parse_form kind (length b) a_form (a b) p (ap form_of k)
      (rw n (parse_a-IsAt b p n h))
parse_rdata-IsAt kind (aaaa b) p (k, n) h =
    parse_rdata-parse_form kind (length b) aaaa_form (aaaa b) p (ap form_of k)
      (rw n (parse_aaaa-IsAt b p n h))
parse_rdata-IsAt kind (generic b) p k h =
    parse_rdata-parse_form kind (length b) generic_form (generic b) p k (parse_generic-IsAt b p h)
parse_rdata-IsAt kind (srv priority weight port name) p h at = absurd h
parse_rdata-IsAt kind (ptr name) p h at = absurd h
parse_rdata-IsAt kind (hinfo cpu os) p h at = absurd h
