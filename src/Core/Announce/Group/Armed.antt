-- ===== src/Core/Announce/Group/Armed.antt =====
-- avahi-core/announce.c: the timer of an announcer is set exactly while it probes or announces.
use nvmrdisplay.Prelude.{
  ℕ, zero, suc, ◌≡◌, refl, arith, Bool, true, false, Option, none, some, List, [], ◌∷◌,
}
use nvmrdisplay.Prelude.{get_elem?, if_rule, leb, All, ◌==◌, Bool-cases, inl, inr}
use nvmrdisplay.Prelude.Outcome.{Outcome}
use nvmrdisplay.Core.Announce.{
  AnnouncerState, probing, waiting, announcing, established, Announcer, Flags, Counter, Moved,
  Delay, is_registering, next_state, next_probe, announce, restart, reannounce, leave_probing,
  is_off, reannounced_state, increase, less_probing,
}
use nvmrdisplay.Core.Announce.Group.{
  Entry, get_announcer, put_announcer, set_entry, release, release_announcers, release_entries,
  remove_announcers, goodbye_entries,
}
use nvmrdisplay.Core.Announce.Group.Commit.{update_flags, drop_entry}
use nvmrdisplay.Core.Announce.Group.Counts.{Gives}

abbrev pub is_timed : AnnouncerState → Bool
is_timed probing = true
is_timed waiting = false
is_timed announcing = true
is_timed established = false

abbrev pub is_set : Option Delay → Bool
is_set none = false
is_set (some d) = true

abbrev pub IsArmed : Announcer → Type 0
IsArmed a = is_set a.time_event ≡ is_timed a.state

abbrev pub AreArmed : List Entry → Type 0
AreArmed = All λ e. All IsArmed e.announcers

pub restart-IsArmed :
    (s : AnnouncerState) (g : Option Counter) (a : Announcer) → IsArmed (restart s g a).announcer
unfolding restart
restart-IsArmed probing g a = refl
restart-IsArmed waiting g a = refl
restart-IsArmed announcing g a = refl
restart-IsArmed established g a = refl

pub reannounce-IsArmed :
    (f : Flags) (g : Option Counter) (a : Announcer)
    → IsArmed a
    → IsArmed (reannounce f g a).announcer
unfolding reannounce
reannounce-IsArmed f g a h =
    if_rule (λ (m : Moved). IsArmed m.announcer) (is_off g) (λ t. h)
      (λ t. restart-IsArmed (reannounced_state f a.state) (leave_probing a.state g) a)

announce-IsArmed :
    (f : Flags) (g : Option Counter) (a : Announcer)
    → a.state ≡ announcing
    → IsArmed (announce f g a).announcer
unfolding announce
announce-IsArmed f g a e =
    if_rule IsArmed (leb 4 (increase a.n_iteration)) (λ t. refl) (λ t. ground (arith, e))

abbrev pub GivesArmed : Outcome Moved → Type 0
GivesArmed = Gives λ m. IsArmed m.announcer

next_probe-IsArmed :
    (f : Flags) (g : Option Counter) (a : Announcer)
    → a.state ≡ probing
    → GivesArmed (next_probe f g a)
unfolding next_probe
next_probe-IsArmed f none a p =
    if_rule GivesArmed (leb 4 a.n_iteration)
      (λ t.
        announce-IsArmed f none
          (record a { state = announcing; n_iteration = 1; time_event = none }) refl)
      (λ t. ground (arith, p))
next_probe-IsArmed f (some c) a p =
    if_rule GivesArmed (leb 4 a.n_iteration)
      (λ t. elim (Bool-cases (c.n_probing == 0)) [
        | inl z ↦ rw z tt
        | inr z ↦ rw z (
            if_rule (λ (m : Moved). IsArmed m.announcer) (is_registering (less_probing (some c)))
              (λ r. refl)
              (λ r.
                announce-IsArmed f (less_probing (some c))
                  (record a { state = announcing; n_iteration = 1; time_event = none }) refl))
      ])
      (λ t. ground (arith, p))

pub next_state-IsArmed :
    (f : Flags) (g : Option Counter) (a : Announcer) → IsArmed a → GivesArmed (next_state f g a)
unfolding next_state
next_state-IsArmed f g a h = by_state a.state refl g
  where
    by_state :
        (s : AnnouncerState) → a.state ≡ s → (g : Option Counter) → GivesArmed (next_state f g a)
    by_state probing e g = rw (e, next_state) (next_probe-IsArmed f g a e)
    by_state waiting e none = rw (e, next_state) tt
    by_state waiting e (some c) = rw (e, next_state) h
    by_state announcing e g = rw (e, next_state) (announce-IsArmed f g a e)
    by_state established e g = rw (e, next_state) h

release-IsArmed :
    (now : Bool) (f : Flags) (g : Option Counter) (a : Announcer)
    → IsArmed a
    → IsArmed (release now f g a).0
unfolding release announce
release-IsArmed now f g a h = ground arith

release_announcers-IsArmed :
    (now : Bool) (f : Flags) (g : Option Counter) (l : List Announcer)
    → All IsArmed l
    → All IsArmed (release_announcers now f g l).0
unfolding release_announcers
release_announcers-IsArmed now f g [] h = tt
release_announcers-IsArmed now f g (a ∷ l) h =
    (release-IsArmed now f g a h.0, release_announcers-IsArmed now f g l h.1)

pub release_entries-AreArmed :
    (now : Bool) (g : Option Counter) (es : List Entry)
    → AreArmed es
    → AreArmed (release_entries now g es).0
unfolding release_entries
release_entries-AreArmed now g [] h = tt
release_entries-AreArmed now g (e ∷ es) h = (
  release_announcers-IsArmed now e.flags g e.announcers h.0,
  release_entries-AreArmed now g es h.1,
)

get_announcer-IsArmed :
    (i : ℕ) (l : List Announcer) {a : Announcer}
    → All IsArmed l
    → get_announcer i l ≡ some a
    → IsArmed a
unfolding get_announcer
get_announcer-IsArmed i [] h q = cc
get_announcer-IsArmed i (x ∷ l) {a} h q = ground (arith, get_announcer-IsArmed i l {a = a} h.1)

put_announcer-IsArmed :
    (i : ℕ) (b : Announcer) (l : List Announcer)
    → IsArmed b
    → All IsArmed l
    → All IsArmed (put_announcer i b l)
unfolding put_announcer
put_announcer-IsArmed i b [] hb h = tt
put_announcer-IsArmed i b (x ∷ l) hb h =
    if_rule (All IsArmed) (x.interface == i) (λ t. (hb, h.1))
      (λ t. (h.0, put_announcer-IsArmed i b l hb h.1))

pub found-IsArmed :
    (k i : ℕ) (es : List Entry) {e : Entry} {a : Announcer}
    → AreArmed es
    → get_elem? es k ≡ some e
    → get_announcer i e.announcers ≡ some a
    → IsArmed a
found-IsArmed k i [] h p q = cc
found-IsArmed zero i (x ∷ es) {e} {a} h p q =
    get_announcer-IsArmed i x.announcers {a = a} h.0 (ground (arith, p, q))
found-IsArmed (suc k) i (x ∷ es) h p q = found-IsArmed k i es h.1 p q

pub set_entry-AreArmed :
    (k i : ℕ) (b : Announcer) (es : List Entry) {e : Entry}
    → AreArmed es
    → get_elem? es k ≡ some e
    → IsArmed b
    → AreArmed (set_entry k (record e { announcers = put_announcer i b e.announcers }) es)
set_entry-AreArmed k i b [] h p hb = cc
set_entry-AreArmed zero i b (x ∷ es) {e} h p hb =
    (put_announcer-IsArmed i b e.announcers hb (ground (arith, p)), h.1)
set_entry-AreArmed (suc k) i b (x ∷ es) h p hb = (h.0, set_entry-AreArmed k i b es h.1 p hb)

remove_announcers-IsArmed :
    (i : ℕ) (l : List Announcer) → All IsArmed l → All IsArmed (remove_announcers i l)
unfolding remove_announcers
remove_announcers-IsArmed i [] h = tt
remove_announcers-IsArmed i (a ∷ l) h =
    if_rule (All IsArmed) (a.interface == i) (λ t. remove_announcers-IsArmed i l h.1)
      (λ t. (h.0, remove_announcers-IsArmed i l h.1))

pub goodbye_entries-AreArmed :
    (i : ℕ) (es : List Entry) → AreArmed es → AreArmed (goodbye_entries i es)
unfolding goodbye_entries
goodbye_entries-AreArmed i [] h = tt
goodbye_entries-AreArmed i (e ∷ es) h =
    (remove_announcers-IsArmed i e.announcers h.0, goodbye_entries-AreArmed i es h.1)

pub update_flags-AreArmed :
    (k : ℕ) (f : Flags) (es : List Entry) → AreArmed es → AreArmed (update_flags k f es)
unfolding update_flags
update_flags-AreArmed k f [] h = tt
update_flags-AreArmed zero f (e ∷ es) h = h
update_flags-AreArmed (suc k) f (e ∷ es) h = (h.0, update_flags-AreArmed k f es h.1)

pub drop_entry-AreArmed : (k : ℕ) (es : List Entry) → AreArmed es → AreArmed (drop_entry k es)
unfolding drop_entry
drop_entry-AreArmed k [] h = tt
drop_entry-AreArmed zero (e ∷ es) h = h.1
drop_entry-AreArmed (suc k) (e ∷ es) h = (h.0, drop_entry-AreArmed k es h.1)
