-- ===== src/App/Txt.antt =====
-- servicediscover.cpp: the strings of a TXT record as a map. A QString is the list of its code units.
pub mod Values
use nvmrdisplay.Prelude.{
  ℕ, Bool, true, false, Option, none, some, List, [], ◌∷◌, ◌==◌, if◌then◌else◌, bytes_eq,
}

-- What the program asks of Qt: `QString::fromLocal8Bit`, `QString::number`, and the text of a
-- `QHostAddress` of four bytes in network order.
pub record Qt : Type 0 where
  pub from_local : List ℕ → List ℕ
  pub number : ℕ → List ℕ
  pub dotted : List ℕ → List ℕ

-- Put a code unit in front of the first part.
abbrev pub lengthen : ℕ → List (List ℕ) → List (List ℕ)
lengthen c [] = []
lengthen c (p ∷ ps) = (c ∷ p) ∷ ps

-- `asQstring.split('=')`, which keeps empty parts.
unfoldable pub split : List ℕ → List (List ℕ)
split [] = [] ∷ []
split (c ∷ s) = let rest = split s in if c == 61 then [] ∷ rest else lengthen c rest

-- The list of the parts, if they are two.
abbrev pub pair_of : List (List ℕ) → Option (List ℕ × List ℕ)
pair_of [] = none
pair_of (k ∷ []) = none
pair_of (k ∷ v ∷ []) = some (k, v)
pair_of (k ∷ v ∷ w ∷ ps) = none

-- A `QMap<QString,QString>`, of which only `insert`, `contains` and `value` are used.
abbrev pub Map : Type 0
Map = List (List ℕ × List ℕ)

-- An entry of the key is replaced.
pub insert : List ℕ → List ℕ → Map → Map
insert k v [] = (k, v) ∷ []
insert k v ((j, w) ∷ m) = if bytes_eq j k then (k, v) ∷ m else (j, w) ∷ insert k v m

pub value : List ℕ → Map → Option (List ℕ)
value k [] = none
value k ((j, w) ∷ m) = if bytes_eq j k then some w else value k m

module _ (qt : Qt) where
  unfoldable pub txt_entry : List ℕ → Option (List ℕ × List ℕ)
  unfolding split
  txt_entry text = pair_of (split (qt.from_local text))

  -- The loop of `foundRPIVideoSender` and of `foundHTTPServer`.
  pub txt_loop : List (List ℕ) → Map → Map
  unfolding txt_entry insert
  txt_loop [] m = m
  txt_loop (text ∷ texts) m =
      txt_loop texts (elim (txt_entry text) [ none ↦ m | some (k, v) ↦ insert k v m ])

  pub txt_map : List (List ℕ) → Map
  unfolding txt_loop
  txt_map texts = txt_loop texts []
