-- ===== src/Common/Domain/Splits.antt =====
-- The labels of a domain name as a relation, and the text that a list of labels has.
use nvmrdisplay.Prelude.{ℕ, ◌<◌, ◌≡◌, ◌≢◌, refl, ap, ◌∙◌, Bool, true, false, some}
use nvmrdisplay.Prelude.{List, [], ◌∷◌, ◌++◌, length, All, append_assoc, sym}
use nvmrdisplay.Prelude.Chars.{IsChar}
use nvmrdisplay.Common.Utf8.{utf8_valid}
use nvmrdisplay.Common.Label.{label_max, unescape_label}
use nvmrdisplay.Common.Label.Bounds.{unescape_label_bounds}
use nvmrdisplay.Common.Label.Chars.{unescape_label_chars}
use nvmrdisplay.Common.Label.RoundTrip.{
  escaped, escaped_cons, IsEnd, behind, unescape_label-escaped,
}

-- The name reads as the labels, one after the other.
pub data Splits : List ℕ → List (List ℕ) → Type 0 where
  end : Splits [] []
  label :
      {c : ℕ} {s l rest : List ℕ} {ls : List (List ℕ)}
      → unescape_label label_max (c ∷ s) ≡ some (l, rest)
      → Splits rest ls
      → Splits (c ∷ s) (l ∷ ls)

-- A label that can stand in a name: it is not empty, fits its buffer, and is well-formed text.
pub record IsLabel (l : List ℕ) : Type 0 where
  pub not_empty : l ≢ []
  pub fits : length l < label_max
  pub chars : All IsChar l
  pub well_formed : utf8_valid l ≡ true

-- The escaped labels with dots between them; `first` says that no label stands in front.
unfoldable pub joined : Bool → List (List ℕ) → List ℕ
joined first [] = []
joined true (l ∷ ls) = escaped l ++ joined false ls
joined false (l ∷ ls) = 46 ∷ (escaped l ++ joined false ls)

joined-append_inner :
    (ls ms : List (List ℕ)) → joined false (ls ++ ms) ≡ joined false ls ++ joined false ms
unfolding joined
joined-append_inner [] ms = refl
joined-append_inner (l ∷ ls) ms =
    ap (λ t. 46 ∷ t)
      (rw (joined-append_inner ls ms)
        (sym (append_assoc (escaped l) (joined false ls) (joined false ms))))

pub joined-append :
    (l : List ℕ) (ls ms : List (List ℕ))
    → joined true ((l ∷ ls) ++ ms) ≡ joined true (l ∷ ls) ++ joined false ms
unfolding joined
joined-append l ls ms =
    rw (joined-append_inner ls ms)
      (sym (append_assoc (escaped l) (joined false ls) (joined false ms)))

IsEnd-joined : (ls : List (List ℕ)) → IsEnd (joined false ls)
unfolding joined
IsEnd-joined [] = tt
IsEnd-joined (l ∷ ls) = refl

behind-joined : (ls : List (List ℕ)) → behind (joined false ls) ≡ joined true ls
unfolding joined
behind-joined [] = refl
behind-joined (l ∷ ls) = refl

unescape_label-joined :
    (l : List ℕ) (ls : List (List ℕ))
    → IsLabel l
    → unescape_label label_max (escaped l ++ joined false ls) ≡ some (l, joined true ls)
unescape_label-joined l ls h =
    unescape_label-escaped label_max l (joined false ls) h.chars h.well_formed h.fits
      (IsEnd-joined ls)
    ∙ ap (λ t. some (l, t)) (behind-joined ls)

label_first :
    {s l rest : List ℕ} {ls : List (List ℕ)} (b : ℕ) (t : List ℕ)
    → s ≡ b ∷ t
    → unescape_label label_max s ≡ some (l, rest)
    → Splits rest ls
    → Splits s (l ∷ ls)
label_first b t e h r = rw e (label (rw e at h) r)

-- The joined labels read as the labels again.
pub joined-Splits : (ls : List (List ℕ)) → All IsLabel ls → Splits (joined true ls) ls
unfolding joined
joined-Splits [] h = end
joined-Splits (l ∷ ls) (hl, h) =
    let (b, t, e) = escaped_cons l hl.not_empty in
    label_first b (t ++ joined false ls) (rw e) (unescape_label-joined l ls hl) (joined-Splits ls h)

-- The labels of a name that holds characters can stand in a name, if none is empty.
pub Splits-IsLabel :
    {s : List ℕ} {ls : List (List ℕ)}
    → All IsChar s
    → Splits s ls
    → All (λ l. l ≢ []) ls
    → All IsLabel ls
Splits-IsLabel h end ne = tt
Splits-IsLabel h (label {c} {s} {l} {rest} {ls} e sp) ne =
    let (hl, hr, u) = unescape_label_chars label_max (c ∷ s) h e in
    (
      record {
        not_empty = ne.0;
        fits = (unescape_label_bounds label_max (c ∷ s) e).0;
        chars = hl;
        well_formed = u;
      },
      Splits-IsLabel hr sp ne.1,
    )
