-- ===== src/Common/ServiceTests.antt =====
-- A concrete service and concrete times: the theorems at inputs of the kind that the program meets.
use nvmrdisplay.Prelude.{ℕ, ◌<◌, ◌≡◌, ◌≢◌, ◌↔◌, ◌⊎◌, refl, arith, true, false, some}
use nvmrdisplay.Prelude.{List, [], ◌∷◌, ◌++◌, length, All}
use nvmrdisplay.Prelude.Int.{pos}
use nvmrdisplay.Common.Utf8.{utf8_valid_ascii}
use nvmrdisplay.Common.Label.{domain_name_max, escape_byte, is_proper}
use nvmrdisplay.Common.Label.RoundTrip.{escaped}
use nvmrdisplay.Common.Domain.Splits.{Splits, IsLabel, joined, joined-Splits}
use nvmrdisplay.Common.Domain.Equal.{NonEmpty}
use nvmrdisplay.Common.Names.{is_valid_service_type_generic, is_valid_domain_name}
use nvmrdisplay.Common.Names.Accepts.{
  ReadsAs, IsTypeLabel, IsRoot, is_valid_service_type_generic_iff, is_valid_domain_name_iff,
}
use nvmrdisplay.Common.Services.{ok, join, split, in_domain}
use nvmrdisplay.Common.Services.RoundTrip.{IsService, split-join}
use nvmrdisplay.Common.Timeval.{Timeval}
use mathlib.Core.Path.{subst}

-- The labels "cab", "_nv", "_tcp" and "local".
abbrev cab : List ℕ
cab = 99 ∷ 97 ∷ 98 ∷ []

abbrev nv : List ℕ
nv = 95 ∷ 110 ∷ 118 ∷ []

abbrev tcp : List ℕ
tcp = 95 ∷ 116 ∷ 99 ∷ 112 ∷ []

abbrev local : List ℕ
local = 108 ∷ 111 ∷ 99 ∷ 97 ∷ 108 ∷ []

-- "_nv._tcp"
abbrev kind : List ℕ
kind = 95 ∷ 110 ∷ 118 ∷ 46 ∷ 95 ∷ 116 ∷ 99 ∷ 112 ∷ []

is_label :
    (l : List ℕ)
    → l ≢ []
    → length l < 64
    → All (λ b. (0 < b) × (b < 256)) l
    → All (λ b. b < 128) l
    → IsLabel l
is_label l ne n c a = record {
  not_empty = ne;
  fits = n;
  chars = c;
  well_formed = utf8_valid_ascii l a;
}

cab-IsLabel : IsLabel cab
cab-IsLabel = is_label cab (λ e. cc) (omega arith) (omega arith) (omega arith)

nv-IsLabel : IsLabel nv
nv-IsLabel = is_label nv (λ e. cc) (omega arith) (omega arith) (omega arith)

tcp-IsLabel : IsLabel tcp
tcp-IsLabel = is_label tcp (λ e. cc) (omega arith) (omega arith) (omega arith)

local-IsLabel : IsLabel local
local-IsLabel = is_label local (λ e. cc) (omega arith) (omega arith) (omega arith)

joined-kind : joined true (nv ∷ tcp ∷ []) ≡ kind
unfolding joined escaped escape_byte is_proper
joined-kind = refl

joined-local : joined true (local ∷ []) ≡ local
unfolding joined escaped escape_byte is_proper
joined-local = refl

kind-Splits : Splits kind (nv ∷ tcp ∷ [])
kind-Splits =
    subst (λ s. Splits s (nv ∷ tcp ∷ [])) joined-kind
      (joined-Splits (nv ∷ tcp ∷ []) (nv-IsLabel, (tcp-IsLabel, tt)))

local-Splits : Splits local (local ∷ [])
local-Splits =
    subst (λ s. Splits s (local ∷ [])) joined-local (joined-Splits (local ∷ []) (local-IsLabel, tt))

cab-IsService : IsService cab kind local (nv ∷ tcp ∷ []) [] local
cab-IsService = record {
  service_label = cab-IsLabel;
  kind_chars = omega arith;
  kind_short = omega arith;
  kind_reads = kind-Splits;
  kind_some = λ e. cc;
  kind_labels = ((refl, omega arith), ((refl, omega arith), tt));
  kind_fits = rw joined-kind (omega arith);
  place_chars = omega arith;
  place_short = omega arith;
  place_reads = local-Splits;
  place_labels = (local-IsLabel.not_empty, tt);
  place_fits = rw joined-local (omega arith);
  no_underscore = refl;
}

length_whole : length (joined true (cab ∷ ((nv ∷ tcp ∷ []) ++ (local ∷ [])))) < 30
unfolding joined escaped escape_byte is_proper
length_whole = omega arith

split-join_example :
    (p : List ℕ) × (join 30 (some cab) kind local ≡ ok p)
    × (split p (some 64) 64 64
        ≡ ok (record {
          state = in_domain;
          service = cab;
          kind = record { bytes = joined true (nv ∷ tcp ∷ []); room = 56; empty = false };
          place = record { bytes = joined true (local ∷ []); room = 59; empty = false };
        }))
unfolding joined escaped escape_byte is_proper
split-join_example =
    split-join cab-IsService 30 64 64 64 length_whole (omega arith) (omega arith) (omega arith)

is_valid_service_type_generic_iff_example :
    (is_valid_service_type_generic kind ≡ true) ↔ ((8 < domain_name_max) × ReadsAs IsTypeLabel kind)
is_valid_service_type_generic_iff_example = is_valid_service_type_generic_iff kind

is_valid_domain_name_iff_example :
    (is_valid_domain_name local ≡ true)
    ↔ ((5 < domain_name_max) × (IsRoot local ⊎ ReadsAs NonEmpty local))
is_valid_domain_name_iff_example = is_valid_domain_name_iff local

-- One second and a half.
abbrev early : Timeval
early = record { sec = pos 1; usec = pos 500000 }
