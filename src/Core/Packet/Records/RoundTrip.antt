-- ===== src/Core/Packet/Records/RoundTrip.antt =====
-- A record that is written into a packet is what is read from it.
use nvmrdisplay.Prelude.{
  ℕ, ◌+◌, ◌-◌, ◌/◌, ◌%◌, ◌^◌, ◌<◌, ◌≤◌, ◌≡◌, ap, ap₂, sym, ◌∙◌, arith, Bool, true, false,
}
use nvmrdisplay.Prelude.{
  List, [], ◌∷◌, ◌++◌, length, ltb-ge, length-append, append_assoc, if◌then◌else◌, ltb, ◌&&◌,
}
use nvmrdisplay.Prelude.Outcome.{done}
use nvmrdisplay.Common.Domain.Splits.{Splits}
use nvmrdisplay.Core.Records.{Record}
use nvmrdisplay.Core.Packet.{Packet, put}
use nvmrdisplay.Core.Packet.Names.{written, append_name}
use nvmrdisplay.Core.Packet.Names.Uncompressed.{wire_name}
use nvmrdisplay.Core.Packet.Names.RoundTrip.{append_loop-wire_name}
use nvmrdisplay.Core.Packet.Records.{append_record, consume_record, set_length, or_give_up, flag_of}
use nvmrdisplay.Core.Packet.Records.Steps.{
  behind, longer, put16-room, put32-room, word32, put-append,
}
use nvmrdisplay.Core.Packet.Records.Data.{IsNameless, rdata_bytes, append_rdata-room}
use nvmrdisplay.Core.Packet.Records.Reading.{
  IsName, word16, behind_name, record_of, consume_record-IsAt,
}

-- The two bytes at the place of the length.
put-length :
    (x b : List ℕ) (h l : ℕ)
    → put (length x) h (put (length x + 1) l ((x ++ (0 ∷ 0 ∷ [])) ++ b)) ≡ (x ++ (h ∷ l ∷ [])) ++ b
put-length x b h l =
    ap (λ t. put (length x) h (put (length x + 1) l t)) (append_assoc x (0 ∷ 0 ∷ []) b)
    ∙ ap (put (length x) h) (put-append x (0 ∷ 0 ∷ b) 1 l)
    ∙ ap (λ i. put i h (x ++ (0 ∷ l ∷ b))) (omega arith)
    ∙ put-append x (0 ∷ l ∷ b) 0 h
    ∙ sym (append_assoc x (h ∷ l ∷ []) b)

regroup :
    (x k c t n b : List ℕ) → ((((x ++ k) ++ c) ++ t) ++ n) ++ b ≡ x ++ (k ++ (c ++ (t ++ (n ++ b))))
regroup x k c t n b =
    append_assoc (((x ++ k) ++ c) ++ t) n b
    ∙ append_assoc ((x ++ k) ++ c) t (n ++ b)
    ∙ append_assoc (x ++ k) c (t ++ (n ++ b))
    ∙ append_assoc x k (c ++ (t ++ (n ++ b)))

set_length-longer :
    (b : List ℕ) (p : Packet)
    → length b < 2 ^ 16
    → set_length
        (length p.bytes)
        (length (longer (0 ∷ 0 ∷ []) p).bytes)
        (longer b (longer (0 ∷ 0 ∷ []) p))
      ≡ done (written (record p { bytes = (p.bytes ++ word16 (length b)) ++ b }))
set_length-longer b p small =
    let x = p.bytes ++ (0 ∷ 0 ∷ []) in
    let n : length (x ++ b) - length x ≡ length b = omega (arith, length-append x b) in
    rw (n, ltb-ge 65535 (length b) (omega (arith, small)))
      (ap (λ t. done (written (record p { bytes = t })))
        (put-length p.bytes b (length b / 256 % 256) (length b % 256)))

-- The class and the time to live as they are written.
abbrev pub written_class : Bool → ℕ → ℕ
written_class cache_flush clazz = if cache_flush then clazz % 2 ^ 15 + 2 ^ 15 else clazz % 2 ^ 15

abbrev pub written_ttl : ℕ → ℕ → ℕ
written_ttl max_ttl ttl = if ltb 0 max_ttl && ltb max_ttl ttl then max_ttl else ttl

append_record-bytes :
    {ls : List (List ℕ)} (r : Record) (cache_flush : Bool) (max_ttl : ℕ) (p : Packet)
    → Splits r.key.name ls
    → IsNameless r.key.kind r.rdata
    → length (rdata_bytes r.rdata) < 2 ^ 16
    → p.name_table ≡ []
    → length p.bytes + (length (wire_name ls) + (10 + length (rdata_bytes r.rdata))) ≤ p.max_size
    → (q : Packet) × (append_record r cache_flush max_ttl p ≡ done (written q))
      × (q.rindex ≡ p.rindex)
      × (q.bytes
          ≡ p.bytes
            ++ (wire_name ls
                ++ behind_name r.key.kind
                    (written_class cache_flush r.key.clazz)
                    (written_ttl max_ttl r.ttl)
                    (rdata_bytes r.rdata)))
unfolding append_record append_name
append_record-bytes {ls} r cache_flush max_ttl p sp h small new room =
    let (q, run, bytes, index, limit) =
      append_loop-wire_name (length r.key.name) (length p.bytes) p sp (omega arith) (rw new tt)
        (omega (arith, room)) in
    let b = rdata_bytes r.rdata in
    let k = word16 r.key.kind in
    let c = word16 (written_class cache_flush r.key.clazz) in
    let t = word32 (written_ttl max_ttl r.ttl) in
    let q4 = longer t (longer c (longer k q)) in
    let n1 : length q.bytes ≡ length p.bytes + length (wire_name ls) =
      ap length bytes ∙ length-append p.bytes (wire_name ls) in
    let n2 = length-append q.bytes k in
    let n3 = length-append (q.bytes ++ k) c in
    let n4 = length-append ((q.bytes ++ k) ++ c) t in
    let n5 = length-append q4.bytes (0 ∷ 0 ∷ []) in
    let room1 : length q.bytes + 2 ≤ q.max_size = omega (arith, room, n1, limit) in
    let room2 : length (q.bytes ++ k) + 2 ≤ q.max_size = omega (arith, room, n1, n2, limit) in
    let room3 : length ((q.bytes ++ k) ++ c) + 4 ≤ q.max_size =
      omega (arith, room, n1, n2, n3, limit) in
    let room4 : length q4.bytes + 2 ≤ q.max_size = omega (arith, room, n1, n2, n3, n4, limit) in
    let room5 : length (q4.bytes ++ (0 ∷ 0 ∷ [])) + length b ≤ q.max_size =
      omega (arith, room, n1, n2, n3, n4, n5, limit) in
    let class_of = written_class cache_flush r.key.clazz in
    let ttl_of = written_ttl max_ttl r.ttl in
    let fixed = behind_name r.key.kind class_of ttl_of b in
    let header =
      behind _
        (behind _ (behind _ run (put16-room r.key.kind q room1))
          (put16-room class_of (longer k q) room2))
        (put32-room ttl_of (longer c (longer k q)) room3) in
    let body = behind _ (put16-room 0 q4 room4) (
      behind _ (append_rdata-room r.key.kind r.rdata (longer (0 ∷ 0 ∷ []) q4) h room5)
        (set_length-longer b q4 small)) in
    (
      record q4 { bytes = (q4.bytes ++ word16 (length b)) ++ b },
      ap (or_give_up (length p.bytes)) (behind _ header body),
      index,
      regroup q.bytes k c t (word16 (length b)) b
          ∙ ap (λ x. x ++ fixed) bytes
          ∙ append_assoc p.bytes (wire_name ls) fixed,
    )

written_class_lem :
    (cache_flush : Bool) (clazz : ℕ)
    → (written_class cache_flush clazz < 2 ^ 16)
      × (written_class cache_flush clazz % 2 ^ 15 ≡ clazz % 2 ^ 15)
      × (flag_of (written_class cache_flush clazz) ≡ cache_flush)
written_class_lem true clazz = (omega arith, omega arith, ground arith)
written_class_lem false clazz = (omega arith, omega arith, ground arith)

-- A record whose data are the strings of a TXT record, an address or bytes of a type without a form is
-- written into a packet that has room, is read to its end and remembers no names, and is what is read
-- next: its name in the normal form, the class without its highest bit, the time to live at most the
-- limit, the data as they were, and the cache flush bit. The name reads as labels, one at least, that
-- packets and buffers have room for; the time to live is not the number that stands for the default.
pub consume_record-append_record :
    {ls : List (List ℕ)} (r : Record) (cache_flush : Bool) (max_ttl : ℕ) (p : Packet)
    → Splits r.key.name ls
    → IsName ls
    → r.key.kind < 2 ^ 16
    → r.ttl < 2 ^ 32 - 1
    → IsNameless r.key.kind r.rdata
    → length (rdata_bytes r.rdata) < 2 ^ 16
    → p.name_table ≡ []
    → p.rindex ≡ length p.bytes
    → length p.bytes + (length (wire_name ls) + (10 + length (rdata_bytes r.rdata))) ≤ p.max_size
    → (q : Packet) × (append_record r cache_flush max_ttl p ≡ done (written q))
      × (consume_record q
          ≡ done (
            record_of ls r.key.kind (r.key.clazz % 2 ^ 15) (written_ttl max_ttl r.ttl) r.rdata,
            cache_flush,
            record q { rindex = length q.bytes },
          ))
consume_record-append_record {ls} r cache_flush max_ttl p sp v hk ht h small new read room =
    let (q, run, index, bytes) = append_record-bytes r cache_flush max_ttl p sp h small new room in
    let clazz = written_class cache_flush r.key.clazz in
    let ttl = written_ttl max_ttl r.ttl in
    let (hc, low, flag) = written_class_lem cache_flush r.key.clazz in
    let low_ttl : ttl < 2 ^ 32 - 1 = ground (arith, ht) in
    (
      q,
      run,
      consume_record-IsAt ls r.key.kind clazz ttl r.rdata p.bytes q v hk hc low_ttl small h bytes
            (index ∙ read)
          ∙ ap₂
              (λ c f.
                done
                  (record_of ls r.key.kind c ttl r.rdata, f, record q { rindex = length q.bytes }))
              low flag,
    )
