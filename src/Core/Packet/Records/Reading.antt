-- ===== src/Core/Packet/Records/Reading.antt =====
-- Reading a record whose name stands in the packet without pointers and whose data hold no name.
use nvmrdisplay.Prelude.{
  ℕ, ◌+◌, ◌-◌, ◌/◌, ◌%◌, ◌^◌, ◌<◌, ◌≡◌, ◌≢◌, refl, ap, sym, ◌∙◌, arith, Bool, true, inr,
}
use nvmrdisplay.Prelude.{
  List, [], ◌∷◌, ◌++◌, length, drop, All, ltb-ge, length-append, drop-append_length, if◌then◌else◌,
  ltb, ==_false,
}
use nvmrdisplay.Prelude.Outcome.{Outcome, done, null}
use nvmrdisplay.Common.Label.{domain_name_max}
use nvmrdisplay.Common.StringList.{StringList}
use nvmrdisplay.Common.StringList.Wire.{IsWire}
use nvmrdisplay.Common.Domain.Splits.{IsLabel, joined, joined-Splits}
use nvmrdisplay.Common.Domain.Normal.{normalize_name-joined}
use nvmrdisplay.Common.Names.{is_valid_domain_name}
use nvmrdisplay.Common.Names.Accepts.{is_valid_domain_name_iff}
use nvmrdisplay.Core.Records.{
  RecordData, srv, ptr, hinfo, txt, a, aaaa, generic, Record, key_new, new_ttl, rdata_valid,
  texts_valid, record_is_valid,
}
use nvmrdisplay.Core.Packet.{Packet}
use nvmrdisplay.Core.Packet.Names.{labels_max, consume_labels, consume_name}
use nvmrdisplay.Core.Packet.Names.Uncompressed.{wire_name, IsShort, consume_labels-wire_name}
use nvmrdisplay.Core.Packet.Records.{consume_record, flag_of}
use nvmrdisplay.Core.Packet.Records.Steps.{
  IsAt, moved, moved-IsAt, bind_done, word32, consume_uint16-IsAt, consume_uint32-IsAt,
}
use nvmrdisplay.Core.Packet.Records.Data.{IsNameless, rdata_bytes, parse_rdata-IsAt}

-- The labels of a name that the packet's functions take without loss.
pub record IsName (ls : List (List ℕ)) : Type 0 where
  pub some_label : ls ≢ []
  pub labels : All IsLabel ls
  pub short : All IsShort ls
  pub few : length ls < labels_max
  pub fits : length (joined true ls) < domain_name_max

not_empty : (ls : List (List ℕ)) → All IsShort ls → All (λ l. l ≢ []) ls
not_empty [] h = tt
not_empty (l ∷ ls) ((low, high), h) = ((λ e. omega (arith, low, ap length e)), not_empty ls h)

key_new-joined :
    (ls : List (List ℕ)) (clazz kind : ℕ)
    → IsName ls
    → key_new (joined true ls) clazz kind
      ≡ done (record { name = joined true ls; clazz = clazz; kind = kind })
unfolding key_new
key_new-joined ls clazz kind v =
    bind_done _
      (normalize_name-joined domain_name_max (joined-Splits ls v.labels) (not_empty ls v.short)
        v.fits)
      refl

name_valid : (ls : List (List ℕ)) → IsName ls → is_valid_domain_name (joined true ls) ≡ true
name_valid ls v =
    (is_valid_domain_name_iff (joined true ls)).1
      (v.fits, inr (ls, joined-Splits ls v.labels, v.some_label, not_empty ls v.short))

texts_valid-IsWire : (l : StringList) → All IsWire l → texts_valid l ≡ true
texts_valid-IsWire [] h = refl
texts_valid-IsWire (text ∷ l) ((low, high), h) =
    rw (ltb-ge 255 (length text) high, ==_false (length text) 0 (omega (arith, low)))
      (texts_valid-IsWire l h)

rdata_valid-IsNameless :
    (kind : ℕ) (rdata : RecordData) → IsNameless kind rdata → rdata_valid rdata ≡ true
rdata_valid-IsNameless kind (txt l) (k, wires) = texts_valid-IsWire l wires
rdata_valid-IsNameless kind (a b) h = refl
rdata_valid-IsNameless kind (aaaa b) h = refl
rdata_valid-IsNameless kind (generic b) h = refl
rdata_valid-IsNameless kind (srv priority weight port name) h = absurd h
rdata_valid-IsNameless kind (ptr name) h = absurd h
rdata_valid-IsNameless kind (hinfo cpu os) h = absurd h

abbrev pub word16 : ℕ → List ℕ
word16 v = v / 256 % 256 ∷ v % 256 ∷ []

-- What stands behind the name of a record.
abbrev pub behind_name : ℕ → ℕ → ℕ → List ℕ → List ℕ
behind_name kind clazz ttl b =
    word16 kind ++ (word16 clazz ++ (word32 ttl ++ (word16 (length b) ++ b)))

consume_name-IsAt :
    (ls : List (List ℕ)) (pre post : List ℕ) (p : Packet)
    → IsName ls
    → p.bytes ≡ pre ++ (wire_name ls ++ post)
    → p.rindex ≡ length pre
    → consume_name domain_name_max p ≡ done (joined true ls, moved (length (wire_name ls)) p)
unfolding consume_name
consume_name-IsAt ls pre post p v e at =
    let run : consume_labels p.bytes p.rindex domain_name_max
        ≡ done (length (wire_name ls), joined true ls) =
      rw (e, at) (consume_labels-wire_name ls pre post domain_name_max v.short v.few v.fits) in
    bind_done _ run refl

-- The record that is read.
abbrev pub record_of : List (List ℕ) → ℕ → ℕ → ℕ → RecordData → Record
record_of ls kind clazz ttl rdata = record {
  key = record { name = joined true ls; clazz = clazz; kind = kind };
  ttl = ttl;
  rdata = rdata;
}

key_step :
    (ls : List (List ℕ)) (kind clazz : ℕ) (b : List ℕ) (p : Packet)
    → IsName ls
    → IsAt b p
    → (if ltb (length p.bytes) (p.rindex + length b)
        then null
        else key_new (joined true ls) clazz kind)
      ≡ done (record { name = joined true ls; clazz = clazz; kind = kind })
key_step ls kind clazz b p v h =
    rw (ltb-ge (length p.bytes) (p.rindex + length b) (omega (arith, h.total)))
      (key_new-joined ls clazz kind v)

valid_step :
    (ls : List (List ℕ)) (kind clazz ttl : ℕ) (rdata : RecordData) (flag : Bool) (p : Packet)
    → IsName ls
    → ttl < 2 ^ 32 - 1
    → IsNameless kind rdata
    → IsAt (rdata_bytes rdata) p
    → if◌then◌else◌ {A = Outcome (Record × Bool × Packet)}
        (record_is_valid (record_of ls kind clazz (new_ttl ttl) rdata))
        (done
          (record_of ls kind clazz (new_ttl ttl) rdata, flag, moved (length (rdata_bytes rdata)) p))
        null
      ≡ done (record_of ls kind clazz ttl rdata, flag, record p { rindex = length p.bytes })
unfolding record_is_valid
valid_step ls kind clazz ttl rdata flag p v ht h at =
    rw
      (
        ==_false ttl (2 ^ 32 - 1) (omega (arith, ht)),
        name_valid ls v,
        rdata_valid-IsNameless kind rdata h,
        at.total,
      )
      refl

pub consume_record-IsAt :
    (ls : List (List ℕ)) (kind clazz ttl : ℕ) (rdata : RecordData) (pre : List ℕ) (p : Packet)
    → IsName ls
    → kind < 2 ^ 16
    → clazz < 2 ^ 16
    → ttl < 2 ^ 32 - 1
    → length (rdata_bytes rdata) < 2 ^ 16
    → IsNameless kind rdata
    → p.bytes ≡ pre ++ (wire_name ls ++ behind_name kind clazz ttl (rdata_bytes rdata))
    → p.rindex ≡ length pre
    → consume_record p
      ≡ done (
        record_of ls kind (clazz % 2 ^ 15) ttl rdata,
        flag_of clazz,
        record p { rindex = length p.bytes },
      )
unfolding consume_record
consume_record-IsAt ls kind clazz ttl rdata pre p v hk hc ht hn h e at =
    let b = rdata_bytes rdata in
    let post = behind_name kind clazz ttl b in
    let p0 : IsAt (wire_name ls ++ post) p = record {
      seen =
          ap (λ t. drop t p.bytes) at
          ∙ ap (drop (length pre)) e
          ∙ drop-append_length pre (wire_name ls ++ post);
      total = omega (arith, at, ap length e, length-append pre (wire_name ls ++ post));
    } in
    let p1 = moved-IsAt (wire_name ls) post p p0 in
    let q1 = moved (length (wire_name ls)) p in
    let p2 =
      moved-IsAt (word16 kind) (word16 clazz ++ (word32 ttl ++ (word16 (length b) ++ b))) q1 p1 in
    let p3 = moved-IsAt (word16 clazz) (word32 ttl ++ (word16 (length b) ++ b)) (moved 2 q1) p2 in
    let p4 = moved-IsAt (word32 ttl) (word16 (length b) ++ b) (moved 2 (moved 2 q1)) p3 in
    let p5 = moved-IsAt (word16 (length b)) b (moved 4 (moved 2 (moved 2 q1))) p4 in
    let q5 = moved 2 (moved 4 (moved 2 (moved 2 q1))) in
    let here : length q5.bytes ≡ q5.rindex + length b = sym p5.total in
    bind_done _ (consume_name-IsAt ls pre post p v e at) (
      bind_done _ (consume_uint16-IsAt kind _ q1 hk p1) (
        bind_done _ (consume_uint16-IsAt clazz _ (moved 2 q1) hc p2) (
          bind_done _ (consume_uint32-IsAt ttl _ (moved 2 (moved 2 q1)) (omega (arith, ht)) p3) (
            bind_done _ (consume_uint16-IsAt (length b) _ (moved 4 (moved 2 (moved 2 q1))) hn p4) (
              bind_done _ (key_step ls kind (clazz % 2 ^ 15) b q5 v p5) (
                bind_done _ (parse_rdata-IsAt kind rdata q5 h p5)
                  (valid_step ls kind (clazz % 2 ^ 15) ttl rdata (flag_of clazz) q5 v ht h p5)))))))
