-- ===== src/Core/RecordTests.antt =====
-- The TXT record of a service, written into a packet.
use nvmrdisplay.Prelude.{ℕ, ◌<◌, ◌≡◌, refl, arith, true, List, [], ◌∷◌, length}
use nvmrdisplay.Prelude.Outcome.{done}
use nvmrdisplay.Common.Label.{escape_byte, is_proper}
use nvmrdisplay.Common.Label.RoundTrip.{escaped}
use nvmrdisplay.Common.Utf8.{utf8_valid_ascii}
use nvmrdisplay.Common.StringList.{serialized_size}
use nvmrdisplay.Common.StringList.Wire.{length-serialize-serialized_size}
use nvmrdisplay.Common.Domain.Splits.{IsLabel, joined, joined-Splits}
use nvmrdisplay.Core.Records.{Record, txt}
use nvmrdisplay.Core.Packet.{Packet}
use nvmrdisplay.Core.Packet.Names.{written}
use nvmrdisplay.Core.Packet.Names.Uncompressed.{wire_name}
use nvmrdisplay.Core.Packet.Records.{append_record, consume_record}
use nvmrdisplay.Core.Packet.Records.Data.{rdata_bytes}
use nvmrdisplay.Core.Packet.Records.Reading.{IsName, record_of}
use nvmrdisplay.Core.Packet.Records.RoundTrip.{consume_record-append_record}

-- An empty packet.
abbrev empty : Packet
empty = record {
  bytes = 0 ∷ 0 ∷ 0 ∷ 0 ∷ 0 ∷ 0 ∷ 0 ∷ 0 ∷ 0 ∷ 0 ∷ 0 ∷ 0 ∷ [];
  rindex = 12;
  max_size = 512;
  res_size = 0;
  name_table = [];
}

-- The name "cab".
abbrev cab : List (List ℕ)
cab = (99 ∷ 97 ∷ 98 ∷ []) ∷ []

cab-IsLabel : IsLabel (99 ∷ 97 ∷ 98 ∷ [])
cab-IsLabel = record {
  not_empty = λ e. cc;
  fits = omega arith;
  chars = omega arith;
  well_formed = utf8_valid_ascii (99 ∷ 97 ∷ 98 ∷ []) (omega arith);
}

length-cab : length (joined true cab) < 1014
unfolding joined escaped escape_byte is_proper
length-cab = omega arith

cab-IsName : IsName cab
cab-IsName = record {
  some_label = λ e. cc;
  labels = (cab-IsLabel, tt);
  short = omega arith;
  few = omega arith;
  fits = length-cab;
}

-- "a=1", for a minute, in the class IN.
abbrev cab_record : Record
cab_record = record {
  key = record { name = joined true cab; clazz = 1; kind = 16 };
  ttl = 60;
  rdata = txt ((97 ∷ 61 ∷ 49 ∷ []) ∷ []);
}

length-cab_data : length (rdata_bytes cab_record.rdata) ≡ 4
unfolding serialized_size
length-cab_data = length-serialize-serialized_size ((97 ∷ 61 ∷ 49 ∷ []) ∷ []) 4 (omega arith)

consume_record-append_record_example :
    (q : Packet) × (append_record cab_record true 0 empty ≡ done (written q))
    × (consume_record q
        ≡ done (
          record_of cab 16 1 60 (txt ((97 ∷ 61 ∷ 49 ∷ []) ∷ [])),
          true,
          record q { rindex = length q.bytes },
        ))
unfolding wire_name
consume_record-append_record_example =
    consume_record-append_record cab_record true 0 empty (joined-Splits cab (cab-IsLabel, tt))
      cab-IsName (omega arith) (omega arith) (refl, omega arith) (omega (arith, length-cab_data))
      refl refl (omega (arith, length-cab_data))
