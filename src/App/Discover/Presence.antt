-- ===== src/App/Discover/Presence.antt =====
-- The known senders as a count for each name: what was found and not lost since.
use nvmrdisplay.Prelude.{ℕ, ◌+◌, ◌≡◌, refl, ap, ◌∙◌, arith, List, [], ◌∷◌, ◌++◌}
use nvmrdisplay.Prelude.{if◌then◌else◌, bytes_eq, bytes_eq→eq, Bool-cases, inl, inr}
use nvmrdisplay.App.Txt.{Qt, Map, txt_map}
use nvmrdisplay.App.Txt.Values.{differ}
use nvmrdisplay.App.Discover.{
  Sender, Signal, rtsp_found, rtsp_went_away, jmri_webserver_found, Step, lost_video, new_sender,
  found_video, rtsp_signals,
}

-- A call of the discovery.
pub data Call : Type 0 where
  found_sender : List ℕ → List ℕ → ℕ → List (List ℕ) → Call
  lost_sender : List ℕ → Call

-- The abstract view: how often a name is present after the calls, if it was present `n` times before.
abbrev pub present : List ℕ → List Call → ℕ → ℕ
present name [] n = n
present name (found_sender other address port texts ∷ calls) n =
    present name calls (if bytes_eq other name then n + 1 else n)
present name (lost_sender other ∷ calls) n =
    present name calls (if bytes_eq other name then 0 else n)

-- How many of the senders have the name.
abbrev pub count : List ℕ → List Sender → ℕ
count name [] = 0
count name (s ∷ senders) = (if bytes_eq s.name name then 1 else 0) + count name senders

-- How many of the signals say that the sender of the name went away.
abbrev pub gone : List ℕ → List Signal → ℕ
gone name [] = 0
gone name (rtsp_went_away other ∷ signals) =
    (if bytes_eq other name then 1 else 0) + gone name signals
gone name (rtsp_found url other video ∷ signals) = gone name signals
gone name (jmri_webserver_found url ∷ signals) = gone name signals

count-append :
    (name : List ℕ) (a b : List Sender) → count name (a ++ b) ≡ count name a + count name b
count-append name [] b = omega arith
count-append name (s ∷ a) b = omega (arith, count-append name a b)

-- What becomes of the senders of each name when one name is lost.
pub count-lost_video :
    (name other : List ℕ) (senders : List Sender)
    → (count name (lost_video other senders).0
        ≡ (if bytes_eq other name then 0 else count name senders))
      × (gone name (lost_video other senders).1
          ≡ (if bytes_eq other name then count name senders else 0))
unfolding lost_video
count-lost_video name other [] = (ground arith, ground arith)
count-lost_video name other (s ∷ senders) = elim (Bool-cases (bytes_eq s.name other)) [
  | inl t ↦ rw t (
      let same = ap (λ n. bytes_eq n name) (bytes_eq→eq s.name other t) in
      let ih = count-lost_video name other senders in
      (ground (arith, same, ih.0), ground (arith, same, ih.1)))
  | inr f ↦ rw f (
      let ih = count-lost_video name other senders in
      (
        ground (arith, differ s.name other name f, ih.0),
        ground (arith, differ s.name other name f, ih.1),
      ))
]

gone-append : (name : List ℕ) (a b : List Signal) → gone name (a ++ b) ≡ gone name a + gone name b
gone-append name [] b = omega arith
gone-append name (rtsp_went_away other ∷ a) b = omega (arith, gone-append name a b)
gone-append name (rtsp_found url other video ∷ a) b = gone-append name a b
gone-append name (jmri_webserver_found url ∷ a) b = gone-append name a b

-- How often the name is found by the calls.
abbrev pub founds : List ℕ → List Call → ℕ
founds name [] = 0
founds name (found_sender other address port texts ∷ calls) =
    (if bytes_eq other name then 1 else 0) + founds name calls
founds name (lost_sender other ∷ calls) = founds name calls

module _ (qt : Qt) where
  pub call : Call → List Sender → Step
  unfolding found_video
  call (found_sender name address port texts) senders =
      found_video qt name address port texts senders
  call (lost_sender name) senders = lost_video name senders

  -- The calls one after the other, with the signals of all.
  pub run : List Call → List Sender → Step
  unfolding call
  run [] senders = (senders, [])
  run (c ∷ calls) senders =
      let (mid, signals) = call c senders in
      let (last, more) = run calls mid in (last, signals ++ more)

  -- After any calls of the discovery the senders of a name that are known are exactly those that the
  -- abstract view has: as many as were found since the name was last lost, or since the start.
  pub count-run :
      (name : List ℕ) (calls : List Call) (senders : List Sender)
      → count name (run calls senders).0 ≡ present name calls (count name senders)
  unfolding run found_video new_sender
  count-run name [] senders = refl
  count-run name (found_sender other address port texts ∷ calls) senders =
      let s = new_sender qt other address port in
      count-run name calls (senders ++ (s ∷ []))
      ∙ ap (present name calls) (count-append name senders (s ∷ []) ∙ ground arith)
  count-run name (lost_sender other ∷ calls) senders =
      count-run name calls (lost_video other senders).0
      ∙ ap (present name calls) (count-lost_video name other senders).0

  gone-rtsp_signals : (name other : List ℕ) (m : Map) → gone name (rtsp_signals qt other m) ≡ 0
  unfolding rtsp_signals
  gone-rtsp_signals name other m = ground arith

  -- After any calls each sender that was known or found is still known, or was reported as gone, once.
  pub gone-run :
      (name : List ℕ) (calls : List Call) (senders : List Sender)
      → count name (run calls senders).0 + gone name (run calls senders).1
        ≡ count name senders + founds name calls
  unfolding run found_video new_sender
  gone-run name [] senders = omega arith
  gone-run name (found_sender other address port texts ∷ calls) senders =
      let s = new_sender qt other address port in
      let signals = rtsp_signals qt other (txt_map qt texts) in
      omega (
        arith,
        gone-run name calls (senders ++ (s ∷ [])),
        count-append name senders (s ∷ []),
        gone-append name signals (run calls (senders ++ (s ∷ []))).1,
        gone-rtsp_signals name other (txt_map qt texts),
      )
  gone-run name (lost_sender other ∷ calls) senders =
      let (left, signals) = lost_video other senders in
      let (a, b) = count-lost_video name other senders in
      ground (arith, gone-run name calls left, gone-append name signals (run calls left).1, a, b)
