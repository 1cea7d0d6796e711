-- ===== src/Core/Announce/Group/Counts.antt =====
-- avahi-core/announce.c: how the group's count of probing announcers and the announcers go together.
use nvmrdisplay.Prelude.{ℕ, zero, suc, ◌+◌, ◌%◌, ◌<◌, ◌≤◌, ◌≡◌, refl, arith, Bool, false}
use nvmrdisplay.Prelude.{
  Option, none, some, List, [], ◌∷◌, get_elem?, if_rule, ◌==◌, leb, Bool-cases, inl, inr,
}
use nvmrdisplay.Prelude.Outcome.{Outcome, done}
use nvmrdisplay.Core.Announce.{
  AnnouncerState, probing, waiting, announcing, established, Announcer, Flags, Counter, Moved,
  unsigned_mod, is_registering, next_state, next_probe, announce, restart, return_to_initial_state,
  go_to_initial_state, reannounce, leave_probing, initial_state, is_off, reannounced_state,
  decrease, increase,
}
use nvmrdisplay.Core.Announce.Group.{
  weight, probing_of, probing_in, probing_on, probing_at, Entry, get_announcer, put_announcer,
  set_entry, release, release_announcers, release_entries, counter_of, remove_announcers,
  goodbye_entries,
}
use nvmrdisplay.Core.Announce.Group.Commit.{update_flags, drop_entry}

-- The count moves with the announcer.
abbrev pub Balanced : Counter → AnnouncerState → Moved → Type 0
Balanced c s m =
    let n = (counter_of c m.group).n_probing in
    (n < unsigned_mod)
    × ((n + weight s) % unsigned_mod ≡ (c.n_probing + weight m.announcer.state) % unsigned_mod)

pub restart-Balanced :
    (s t : AnnouncerState) (c : Counter) (a : Announcer)
    → c.n_probing < unsigned_mod
    → Balanced c s (restart t (leave_probing s (some c)) a)
unfolding restart
restart-Balanced probing probing c a h = ground arith
restart-Balanced probing waiting c a h = ground arith
restart-Balanced probing announcing c a h = ground arith
restart-Balanced probing established c a h = ground arith
restart-Balanced waiting probing c a h = ground arith
restart-Balanced waiting waiting c a h = ground arith
restart-Balanced waiting announcing c a h = ground arith
restart-Balanced waiting established c a h = ground arith
restart-Balanced announcing probing c a h = ground arith
restart-Balanced announcing waiting c a h = ground arith
restart-Balanced announcing announcing c a h = ground arith
restart-Balanced announcing established c a h = ground arith
restart-Balanced established probing c a h = ground arith
restart-Balanced established waiting c a h = ground arith
restart-Balanced established announcing c a h = ground arith
restart-Balanced established established c a h = ground arith

pub return_to_initial_state-Balanced :
    (f : Flags) (c : Counter) (a : Announcer)
    → c.n_probing < unsigned_mod
    → Balanced c a.state (return_to_initial_state f (some c) a)
unfolding return_to_initial_state go_to_initial_state
return_to_initial_state-Balanced f c a h =
    restart-Balanced a.state (initial_state f (leave_probing a.state (some c))) c a h

pub reannounce-Balanced :
    (f : Flags) (c : Counter) (a : Announcer)
    → c.n_probing < unsigned_mod
    → Balanced c a.state (reannounce f (some c) a)
unfolding reannounce
reannounce-Balanced f c a h =
    if_rule (Balanced c a.state) (is_off (some c)) (λ t. (h, refl))
      (λ t. restart-Balanced a.state (reannounced_state f a.state) c a h)

-- What a call gives, if it gives something.
abbrev pub Gives : (Moved → Type 0) → Outcome Moved → Type 0
Gives P (done m) = P m
Gives P _ = Unit

announce-Balanced :
    (f : Flags) (g c : Counter) (a : Announcer) (s : AnnouncerState)
    → g.n_probing < unsigned_mod
    → (g.n_probing + weight s) % unsigned_mod ≡ c.n_probing % unsigned_mod
    → weight a.state ≡ 0
    → Balanced c s (announce f (some g) a)
unfolding announce
announce-Balanced f g c a s h e z =
    if_rule
      (λ (t : Announcer).
        Balanced c s (record { announcer = t; group = some g; actions = []; check = false }))
      (leb 4 (increase a.n_iteration)) (λ t. (h, ground arith)) (λ t. (h, ground arith))

next_probe-Balanced :
    (f : Flags) (c : Counter) (a : Announcer)
    → c.n_probing < unsigned_mod
    → a.state ≡ probing
    → Gives (Balanced c a.state) (next_probe f (some c) a)
unfolding next_probe
next_probe-Balanced f c a h p =
    if_rule (Gives (Balanced c a.state)) (leb 4 a.n_iteration)
      (λ t. elim (Bool-cases (c.n_probing == 0)) [
        | inl z ↦ rw z tt
        | inr z ↦ rw z (
            if_rule (λ m. Balanced c a.state m)
              (is_registering (some (record c { n_probing = decrease c.n_probing })))
              (λ r. (ground arith, ground (arith, p)))
              (λ r.
                announce-Balanced f (record c { n_probing = decrease c.n_probing }) c
                  (record a { state = announcing; n_iteration = 1; time_event = none }) a.state
                  (ground arith) (ground (arith, p)) refl))
      ])
      (λ t. (h, refl))

pub next_state-Balanced :
    (f : Flags) (c : Counter) (a : Announcer)
    → c.n_probing < unsigned_mod
    → Gives (Balanced c a.state) (next_state f (some c) a)
unfolding next_state
next_state-Balanced f c a h = by_state a.state refl
  where
    by_state :
        (s : AnnouncerState) → a.state ≡ s → Gives (Balanced c a.state) (next_state f (some c) a)
    by_state probing e = rw (e, next_state) (rw (← e) (next_probe-Balanced f c a h e))
    by_state waiting e = rw (e, next_state) (h, ground (arith, e))
    by_state announcing e =
        rw (e, next_state)
          (announce-Balanced f c c a announcing h (omega arith) (ground (arith, e)))
    by_state established e = rw (e, next_state) (h, ground (arith, e))

-- The announcer that a loop of check_probed releases did not probe, and does not then.
weight-release :
    (now : Bool) (f : Flags) (g : Option Counter) (a : Announcer)
    → weight (release now f g a).0.state ≡ weight a.state
unfolding release announce
weight-release now f g a = ground arith

probing_of-release_announcers :
    (now : Bool) (f : Flags) (g : Option Counter) (l : List Announcer)
    → probing_of (release_announcers now f g l).0 ≡ probing_of l
unfolding release_announcers
probing_of-release_announcers now f g [] = refl
probing_of-release_announcers now f g (a ∷ l) =
    omega (arith, weight-release now f g a, probing_of-release_announcers now f g l)

pub probing_in-release_entries :
    (now : Bool) (g : Option Counter) (es : List Entry)
    → probing_in (release_entries now g es).0 ≡ probing_in es
unfolding release_entries
probing_in-release_entries now g [] = refl
probing_in-release_entries now g (e ∷ es) = omega (
  arith,
  probing_of-release_announcers now e.flags g e.announcers,
  probing_in-release_entries now g es,
)

-- What is written back in place of the announcer that was found.
probing_of-put_announcer :
    (i : ℕ) (b : Announcer) (l : List Announcer) {a : Announcer}
    → get_announcer i l ≡ some a
    → probing_of (put_announcer i b l) + weight a.state ≡ probing_of l + weight b.state
unfolding get_announcer put_announcer
probing_of-put_announcer i b [] h = cc
probing_of-put_announcer i b (x ∷ l) {a} h = ground (arith, probing_of-put_announcer i b l {a = a})

pub probing_in-set_entry :
    (k i : ℕ) (b : Announcer) (es : List Entry) {e : Entry} {a : Announcer}
    → get_elem? es k ≡ some e
    → get_announcer i e.announcers ≡ some a
    → probing_in (set_entry k (record e { announcers = put_announcer i b e.announcers }) es)
        + weight a.state
      ≡ probing_in es + weight b.state
probing_in-set_entry k i b [] h q = cc
probing_in-set_entry zero i b (x ∷ es) {e} {a} h q =
    ground (arith, probing_of-put_announcer i b e.announcers q)
probing_in-set_entry (suc k) i b (x ∷ es) h q = omega (arith, probing_in-set_entry k i b es h q)

probing_of-remove_announcers :
    (i : ℕ) (l : List Announcer)
    → probing_of (remove_announcers i l) + probing_on i l ≡ probing_of l
unfolding remove_announcers
probing_of-remove_announcers i [] = refl
probing_of-remove_announcers i (a ∷ l) = ground (arith, probing_of-remove_announcers i l)

pub probing_in-goodbye_entries :
    (i : ℕ) (es : List Entry) → probing_in (goodbye_entries i es) + probing_at i es ≡ probing_in es
unfolding goodbye_entries
probing_in-goodbye_entries i [] = refl
probing_in-goodbye_entries i (e ∷ es) =
    omega (arith, probing_of-remove_announcers i e.announcers, probing_in-goodbye_entries i es)

pub probing_in-update_flags :
    (k : ℕ) (f : Flags) (es : List Entry) → probing_in (update_flags k f es) ≡ probing_in es
unfolding update_flags
probing_in-update_flags k f [] = refl
probing_in-update_flags zero f (e ∷ es) = refl
probing_in-update_flags (suc k) f (e ∷ es) = omega (arith, probing_in-update_flags k f es)

pub probing_in-drop_entry : (k : ℕ) (es : List Entry) → probing_in (drop_entry k es) ≤ probing_in es
unfolding drop_entry
probing_in-drop_entry k [] = omega arith
probing_in-drop_entry zero (e ∷ es) = omega arith
probing_in-drop_entry (suc k) (e ∷ es) = omega (arith, probing_in-drop_entry k es)
