-- ===== src/Common/Tests.antt =====
-- Concrete strings, names and times: the theorems at inputs of the kind that the program meets.
use nvmrdisplay.Prelude.{ℕ, ◌+◌, ◌<◌, ◌≡◌, refl, arith, true, false, some}
use nvmrdisplay.Prelude.{List, [], ◌∷◌, length, All}
use nvmrdisplay.Prelude.Outcome.{done, abort}
use nvmrdisplay.Common.StringList.{StringList, parse, serialize, to_string}
use nvmrdisplay.Common.StringList.Wire.{parse-serialize, wire}
use nvmrdisplay.Common.Label.{unescape_label, escape_label}
use nvmrdisplay.Common.Label.RoundTrip.{unescape_label-escape_label, escaped}
use nvmrdisplay.Common.Domain.Splits.{Splits, IsLabel, joined, joined-Splits}
use nvmrdisplay.Common.Domain.{normalize_name}
use nvmrdisplay.Common.Domain.Normal.{normalize_name-abort}
use mathlib.Core.Path.{subst}
use nvmrdisplay.Prelude.{ap, ◌∙◌}
use nvmrdisplay.Common.StringList.{to_string_size}
use nvmrdisplay.Common.StringList.Text.{length-to_string}
use nvmrdisplay.Common.StringList.Pairs.{IsKey}
use nvmrdisplay.Common.Label.{escape_byte, is_proper}
use nvmrdisplay.Common.Domain.{domain_equal, domain_hash}
use nvmrdisplay.Common.Domain.Normal.{normalize_name-joined, normalize_name-normalize_name}
use nvmrdisplay.Common.Domain.Equal.{
  NonEmpty, labels_equal, domain_equal-Splits, domain_hash-domain_equal,
}
use nvmrdisplay.Common.Utf8.{utf8_valid, utf8_valid_ascii}

-- "a=1" and "b"
abbrev two_strings : StringList
two_strings = (97 ∷ 61 ∷ 49 ∷ []) ∷ (98 ∷ []) ∷ []

parse-serialize_example : parse (serialize two_strings 6) ≡ some two_strings
unfolding wire
parse-serialize_example = parse-serialize two_strings 6 (omega arith) (omega arith) (omega arith)

-- "a.b"
abbrev a_b : List ℕ
a_b = 97 ∷ 46 ∷ 98 ∷ []

a_b-escaped :
    escape_label a_b 10 ≡ done (record { ok = true; written = 97 ∷ 92 ∷ 46 ∷ 98 ∷ []; size = 6 })
unfolding escape_label
a_b-escaped = refl

unescape_label-escape_label_example :
    unescape_label 64 (97 ∷ 92 ∷ 46 ∷ 98 ∷ 46 ∷ 99 ∷ []) ≡ some (a_b, 99 ∷ [])
unescape_label-escape_label_example =
    unescape_label-escape_label 64 10 a_b (46 ∷ 99 ∷ []) (omega arith)
      (utf8_valid_ascii a_b (omega arith)) (omega arith) refl a_b-escaped refl

-- "_a.b", escaped by nothing.
abbrev label_a : List ℕ
label_a = 97 ∷ []

abbrev label_b : List ℕ
label_b = 98 ∷ []

label_a-IsLabel : IsLabel label_a
label_a-IsLabel = record {
  not_empty = λ e. cc;
  fits = omega arith;
  chars = omega arith;
  well_formed = utf8_valid_ascii label_a (omega arith);
}

label_b-IsLabel : IsLabel label_b
label_b-IsLabel = record {
  not_empty = λ e. cc;
  fits = omega arith;
  chars = omega arith;
  well_formed = utf8_valid_ascii label_b (omega arith);
}

-- "a.b" as a domain name, of the labels "a" and "b".
abbrev labels_a_b : List (List ℕ)
labels_a_b = label_a ∷ label_b ∷ []

text_of_a_b : joined true labels_a_b ≡ a_b
unfolding joined escaped escape_byte is_proper
text_of_a_b = refl

a_b-Splits : Splits a_b labels_a_b
a_b-Splits =
    subst (λ s. Splits s labels_a_b) text_of_a_b
      (joined-Splits labels_a_b (label_a-IsLabel, (label_b-IsLabel, tt)))

labels_a_b-NonEmpty : All NonEmpty labels_a_b
labels_a_b-NonEmpty = (label_a-IsLabel.not_empty, (label_b-IsLabel.not_empty, tt))

length-labels : length (joined true labels_a_b) < 10
length-labels = rw text_of_a_b (omega arith)

a_b_is_normal : normalize_name a_b 10 ≡ done (record { bytes = a_b; terminated = true })
a_b_is_normal =
    normalize_name-joined 10 a_b-Splits labels_a_b-NonEmpty length-labels
    ∙ ap (λ s. done (record { bytes = s; terminated = true })) text_of_a_b

normalize_name-normalize_name_example :
    (true ≡ true)
    × (normalize_name a_b 10 ≡ done (record { bytes = a_b; terminated = true }))
    × (domain_equal false a_b a_b ≡ done true)
normalize_name-normalize_name_example =
    normalize_name-normalize_name 10 (omega arith) a_b-Splits labels_a_b-NonEmpty length-labels
      a_b_is_normal

-- A buffer of two bytes is full behind the first label.
length-joined_a : length (joined true (label_a ∷ [])) + 1 ≡ 2
unfolding joined escaped escape_byte is_proper
length-joined_a = refl

normalize_name-abort_example : normalize_name a_b 2 ≡ abort
normalize_name-abort_example =
    normalize_name-abort (label_a ∷ []) [] 2 a_b-Splits (λ e. cc) (label_a-IsLabel.not_empty, tt)
      label_b-IsLabel.not_empty length-joined_a

domain_equal-Splits_example : domain_equal false a_b a_b ≡ done (labels_equal labels_a_b labels_a_b)
domain_equal-Splits_example =
    domain_equal-Splits a_b-Splits a_b-Splits labels_a_b-NonEmpty labels_a_b-NonEmpty

-- "A.b" and "a.b"
domain_equal_case : domain_equal false (65 ∷ 46 ∷ 98 ∷ []) a_b ≡ done true
unfolding domain_equal unescape_label utf8_valid
domain_equal_case = refl

domain_hash-domain_equal_example : domain_hash true (65 ∷ 46 ∷ 98 ∷ []) ≡ domain_hash true a_b
domain_hash-domain_equal_example =
    domain_hash-domain_equal true (65 ∷ 46 ∷ 98 ∷ []) a_b domain_equal_case

a_b-unescaped : unescape_label 64 a_b ≡ some (label_a, label_b)
unfolding unescape_label utf8_valid
a_b-unescaped = refl

parsed : parse (1 ∷ 98 ∷ 0 ∷ []) ≡ some ((98 ∷ []) ∷ [])
unfolding parse
parsed = refl

length-to_string_example : length (to_string true two_strings) + 1 ≡ to_string_size true two_strings
length-to_string_example = length-to_string true two_strings

a-IsKey : IsKey (97 ∷ [])
a-IsKey = omega arith
