-- ===== src/Common/Domain/Normal.antt =====
-- The normal form of a name: what `normalize_name` writes, and when it fails to.
use nvmrdisplay.Prelude.{
  ℕ, zero, suc, ◌+◌, ◌-◌, ◌≤◌, ◌<◌, ◌≡◌, ◌≢◌, refl, arith, Bool, true, false, some,
}
use nvmrdisplay.Prelude.{
  List, [], ◌∷◌, ◌++◌, length, All, is_nil, append-nil, append_assoc, sym, ap, ◌∙◌, ◌&&◌,
}
use nvmrdisplay.Prelude.{length-append}
use nvmrdisplay.Prelude.Chars.{IsChar, strcasecmp_eq_self}
use nvmrdisplay.Prelude.Outcome.{done, abort}
use nvmrdisplay.Common.Label.{label_max, unescape_label}
use nvmrdisplay.Common.Label.Bounds.{unescape_label_bounds}
use nvmrdisplay.Common.Label.RoundTrip.{escaped, escape_label-escaped, escape_label_none}
use nvmrdisplay.Common.Domain.{
  Buffer, Writer, write_label, append_label, normalize_loop, normalize_name, domain_equal,
}
use nvmrdisplay.Common.Domain.Splits.{Splits, end, label, joined, joined-Splits, Splits-IsLabel}
use nvmrdisplay.Common.Domain.Equal.{NonEmpty, labels_equal, domain_equal-Splits}

write_label-fits :
    (l : List ℕ) (w : Writer)
    → length (escaped l) < w.size
    → write_label l w
      ≡ done (record {
        out = record { bytes = w.out.bytes ++ escaped l; terminated = true };
        size = w.size - length (escaped l);
        empty = false;
      })
unfolding write_label
write_label-fits l w h = rw (escape_label-escaped l w.size h)

-- What `append_label` adds: a dot, unless the name is empty yet, and the escaped label.
abbrev pub added : Bool → List ℕ → List ℕ
added true l = escaped l
added false l = 46 ∷ escaped l

append_label-fits :
    (l : List ℕ) (out : Buffer) (size : ℕ) (empty : Bool)
    → length (added empty l) < size
    → append_label l (record { out = out; size = size; empty = empty })
      ≡ done (record {
        out = record { bytes = out.bytes ++ added empty l; terminated = true };
        size = size - length (added empty l);
        empty = false;
      })
unfolding append_label
append_label-fits l out size true h =
    write_label-fits l (record { out = out; size = size; empty = true }) h
append_label-fits l out size false h = ground (
  arith,
  write_label-fits l (record {
    out = record { bytes = out.bytes ++ (46 ∷ []); terminated = false };
    size = size - 1;
    empty = false;
  }),
  append_assoc out.bytes (46 ∷ []) (escaped l),
)

-- The state of the loop with these bytes written.
abbrev writer : List ℕ → ℕ → Bool → Writer
writer bytes size empty = record {
  out = record { bytes = bytes; terminated = true };
  size = size;
  empty = empty;
}

normalize_step :
    (fuel c : ℕ) (s l rest bytes : List ℕ) (size : ℕ) (empty : Bool)
    → unescape_label label_max (c ∷ s) ≡ some (l, rest)
    → l ≢ []
    → length (added empty l) < size
    → normalize_loop (suc fuel) (c ∷ s) (writer bytes size empty)
      ≡ normalize_loop fuel rest
          (writer (bytes ++ added empty l) (size - length (added empty l)) false)
unfolding normalize_loop
normalize_step fuel c s [] rest bytes size empty e ne h = absurd (ne refl)
normalize_step fuel c s (b ∷ l) rest bytes size empty e ne h =
    ground
      (arith, append_label-fits (b ∷ l) (record { bytes = bytes; terminated = true }) size empty h)

pub joined-added :
    (empty : Bool) (l : List ℕ) (ls : List (List ℕ))
    → joined empty (l ∷ ls) ≡ added empty l ++ joined false ls
unfolding joined
joined-added true l ls = refl
joined-added false l ls = refl

loop_path :
    (fuel : ℕ) (t : List ℕ) {a b : List ℕ} {m n : ℕ} {x y : Bool}
    → a ≡ b
    → m ≡ n
    → x ≡ y
    → normalize_loop fuel t (writer a m x) ≡ normalize_loop fuel t (writer b n y)
loop_path fuel t p q r = λ i. normalize_loop fuel t (writer (p i) (q i) (r i))

pub and_true : (b : Bool) → (b && true) ≡ b
and_true true = refl
and_true false = refl

pub and_false : (b : Bool) → (b && false) ≡ false
and_false true = refl
and_false false = refl

-- The labels `ls` are written, and the loop goes on with a name that reads as `ms`.
normalize_loop-prefix :
    (ls ms : List (List ℕ)) (fuel : ℕ) {s : List ℕ} (bytes : List ℕ) (size : ℕ) (empty : Bool)
    → Splits s (ls ++ ms)
    → length s ≤ fuel
    → All NonEmpty ls
    → length (joined empty ls) < size
    → (t : List ℕ) × (f : ℕ) × (Splits t ms)
      × (length t ≤ f)
      × (normalize_loop fuel s (writer bytes size empty)
          ≡ normalize_loop f t (
              writer
                (bytes ++ joined empty ls)
                (size - length (joined empty ls))
                (empty && is_nil ls)))
unfolding joined
normalize_loop-prefix [] ms fuel {s} bytes size empty sp le ne h =
    (s, fuel, sp, le, sym (loop_path fuel s (append-nil bytes) (omega arith) (and_true empty)))
normalize_loop-prefix (l ∷ ls) ms zero bytes size empty (label e sp) le ne h = absurd (omega arith)
normalize_loop-prefix (l ∷ ls) ms (suc fuel) bytes size empty (label {c} {s} {l = l'} {rest} e sp)
      le (nl, ne) h =
    let k = length (added empty l) in
    let le' : length rest ≤ fuel = omega (arith, unescape_label_bounds label_max (c ∷ s) e) in
    let fits : (k < size) × (length (joined false ls) < size - k) = omega (
      arith,
      length-append (added empty l) (joined false ls),
      ap length (joined-added empty l ls),
    ) in
    let (t, f, st, lt, eq) =
      normalize_loop-prefix ls ms fuel (bytes ++ added empty l) (size - k) false sp le' ne fits.1 in
    (
      t,
      f,
      st,
      lt,
      normalize_step fuel c s l rest bytes size empty e nl fits.0
          ∙ eq
          ∙ loop_path f t
              (append_assoc bytes (added empty l) (joined false ls)
                ∙ ap (λ j. bytes ++ j) (sym (joined-added empty l ls)))
              (omega (
                arith,
                length-append (added empty l) (joined false ls),
                ap length (joined-added empty l ls),
              ))
              (sym (and_false empty)),
    )

loop_end : (f : ℕ) {t : List ℕ} (w : Writer) → Splits t [] → normalize_loop f t w ≡ done w.out
unfolding normalize_loop
loop_end zero w end = refl
loop_end (suc f) w end = refl

start_loop :
    (s : List ℕ) (size : ℕ)
    → 0 < size
    → normalize_name s size ≡ normalize_loop (length s) s (writer [] size true)
unfolding normalize_name
start_loop s size h = ground arith

-- Names of labels that the buffer has room for are written in their normal form, with a NUL behind it.
pub normalize_name-joined :
    {s : List ℕ} {ls : List (List ℕ)} (size : ℕ)
    → Splits s ls
    → All NonEmpty ls
    → length (joined true ls) < size
    → normalize_name s size ≡ done (record { bytes = joined true ls; terminated = true })
normalize_name-joined {s} {ls} size sp ne h =
    let sp' : Splits s (ls ++ []) = rw (append-nil ls) sp in
    let (t, f, st, lt, eq) =
      normalize_loop-prefix ls [] (length s) [] size true sp' (omega arith) ne h in
    start_loop s size (omega arith) ∙ eq ∙ loop_end f _ st

-- The loop at a label for whose dot one byte is left, which was that of the NUL.
loop_abort :
    (f : ℕ) {t m : List ℕ} {ms : List (List ℕ)} (bytes : List ℕ)
    → Splits t (m ∷ ms)
    → length t ≤ f
    → m ≢ []
    → normalize_loop f t (writer bytes 1 false) ≡ abort
unfolding normalize_loop append_label write_label
loop_abort zero bytes (label e st) le ne = absurd (omega arith)
loop_abort (suc f) {m = []} bytes (label e st) le ne = absurd (ne refl)
loop_abort (suc f) {m = x ∷ m} bytes (label e st) le ne = ground (arith, escape_label_none (x ∷ m))

-- Where the first labels of a name fill the buffer to its last byte, which is that of the NUL, and
-- another label follows, the `assert` of `avahi_escape_label` fails: the program ends.
pub normalize_name-abort :
    (ls ms : List (List ℕ)) {s m : List ℕ} (size : ℕ)
    → Splits s (ls ++ (m ∷ ms))
    → ls ≢ []
    → All NonEmpty ls
    → m ≢ []
    → length (joined true ls) + 1 ≡ size
    → normalize_name s size ≡ abort
normalize_name-abort [] ms size sp full ne nm h = absurd (full refl)
normalize_name-abort (l ∷ ls) ms {s} {m} size sp full ne nm h =
    let (t, f, st, lt, eq) =
      normalize_loop-prefix (l ∷ ls) (m ∷ ms) (length s) [] size true sp (omega arith) ne
        (omega arith) in
    start_loop s size (omega arith)
    ∙ eq
    ∙ loop_path f t refl (omega arith) refl
    ∙ loop_abort f (joined true (l ∷ ls)) st lt nm

labels_equal_self : (ls : List (List ℕ)) → labels_equal ls ls ≡ true
unfolding labels_equal
labels_equal_self [] = refl
labels_equal_self (l ∷ ls) = rw (strcasecmp_eq_self l, labels_equal_self ls)

-- The normal form of a name is a name that is equal to it and that is its own normal form, where the
-- name holds characters, none of its labels is empty, and the buffer has room for the normal form.
pub normalize_name-normalize_name :
    {s : List ℕ} {ls : List (List ℕ)} (size : ℕ) {b : Buffer}
    → All IsChar s
    → Splits s ls
    → All NonEmpty ls
    → length (joined true ls) < size
    → normalize_name s size ≡ done b
    → (b.terminated ≡ true)
      × (normalize_name b.bytes size ≡ done b)
      × (domain_equal false s b.bytes ≡ done true)
normalize_name-normalize_name {s} {ls} size {b} hs sp ne h e =
    let same : b ≡ record { bytes = joined true ls; terminated = true } =
      cc (normalize_name-joined size sp ne h) in
    let again : Splits (joined true ls) ls = joined-Splits ls (Splits-IsLabel hs sp ne) in
    rw same (
      refl,
      normalize_name-joined size again ne h,
      domain_equal-Splits sp again ne ne ∙ ap done (labels_equal_self ls),
    )
