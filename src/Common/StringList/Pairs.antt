-- ===== src/Common/StringList/Pairs.antt =====
-- Key and value pairs in a string list: what `add_pair_arbitrary` stores, `find` and `get_pair` give back.
use nvmrdisplay.Prelude.{ℕ, ◌≡◌, ◌≢◌, refl, arith, some}
use nvmrdisplay.Prelude.{List, [], ◌∷◌, ◌++◌, All, if◌then◌else◌, ==_false, map, ap}
use nvmrdisplay.Prelude.Chars.{IsChar, strcasecmp_eq, c_string_lem}
use nvmrdisplay.Common.StringList.{
  StringList, matches_key, find, add_pair_arbitrary, split_eq, get_pair,
}

-- A key holds neither a NUL nor an equals sign.
abbrev pub IsKey : List ℕ → Type 0
IsKey key = All (λ c. IsChar c × (c ≢ 61)) key

pair_matches :
    (key k v : List ℕ) → IsKey key → IsKey k → matches_key (key ++ (61 ∷ v)) k ≡ strcasecmp_eq key k
unfolding matches_key
pair_matches [] [] v h hk = refl
pair_matches [] (y ∷ ys) v h hk = ground arith
pair_matches (x ∷ xs) [] v h hk = ground arith
pair_matches (x ∷ xs) (y ∷ ys) v h hk = ground (arith, pair_matches xs ys v h.1 hk.1)

-- Behind a new pair, `find` answers a key that is spelled like the pair's, but for case, by the pair,
-- and every other key as before. Neither key holds a NUL or an equals sign.
pub find-add_pair_arbitrary :
    (l : StringList) (key k v : List ℕ)
    → IsKey key
    → IsKey k
    → find (add_pair_arbitrary l key (some v)) k
      ≡ (if strcasecmp_eq key k then some (key ++ (61 ∷ v)) else find l k)
find-add_pair_arbitrary l key k v h hk =
    unfold find add_pair_arbitrary in rw (pair_matches key k v h hk)

split_eq_key : (key v : List ℕ) → IsKey key → split_eq (key ++ (61 ∷ v)) ≡ some (key, v)
unfolding split_eq
split_eq_key [] v h = refl
split_eq_key (x ∷ xs) v h = rw (==_false x 61 h.0.1, split_eq_key xs v h.1)

IsKey-chars : (key : List ℕ) → IsKey key → All IsChar key
IsKey-chars [] h = tt
IsKey-chars (x ∷ xs) h = (h.0.0, IsKey-chars xs h.1)

get_pair_key : (key v : List ℕ) → IsKey key → get_pair (key ++ (61 ∷ v)) ≡ (key, some v)
unfolding get_pair
get_pair_key key v h = rw (split_eq_key key v h, get_pair, c_string_lem key (IsKey-chars key h))

-- `get_pair` takes the entry that `add_pair_arbitrary` put in front apart into its key and its value,
-- whatever bytes the value holds, and the other entries give the pairs that they gave before.
pub get_pair-add_pair_arbitrary :
    (l : StringList) (key v : List ℕ)
    → IsKey key
    → map get_pair (add_pair_arbitrary l key (some v)) ≡ (key, some v) ∷ map get_pair l
get_pair-add_pair_arbitrary l key v h =
    unfold add_pair_arbitrary in ap (λ p. p ∷ map get_pair l) (get_pair_key key v h)
