-- ===== src/Core/Announce/Alone.antt =====
-- avahi-core/announce.c: the whole life of the announcer of an entry that has no group.
use nvmrdisplay.Prelude.{ℕ, zero, suc, ◌≡◌, refl, Bool, true, false, ◌&&◌, not, Option, none, some}
use nvmrdisplay.Prelude.{List, [], ◌∷◌, ◌++◌, if◌then◌else◌}
use nvmrdisplay.Prelude.Outcome.{Outcome, done, ◌>>=◌}
use nvmrdisplay.Core.Announce.{
  Delay, Announcer, established, Flags, Action, probe, response, next_state, next_probe, announce,
  restart, go_to_initial_state,
}
use nvmrdisplay.Core.Announce.Group.{blank}

-- What an expiry of the timer causes, and what the timer is set to next.
abbrev pub Expiry : Type 0
Expiry = List Action × Option Delay

-- The timer expires as often as it is set, n times at most.
pub expiries : ℕ → Flags → Announcer → Outcome (Announcer × List Expiry)
expiries zero f a = done (a, [])
expiries (suc n) f a = elim a.time_event [
  | none ↦ done (a, [])
  | some d ↦ next_state f none a >>= λ m.
      expiries n f m.announcer >>= λ s. done (s.0, (m.actions, m.announcer.time_event) ∷ s.1)
]

abbrev pub after : ℕ → ℕ → Option Delay
after msec jitter = some (record { msec = msec; jitter = jitter })

abbrev pub probes : ℕ → List Expiry
probes i =
    (probe i ∷ [], after 250 0) ∷ (probe i ∷ [], after 250 0) ∷ (probe i ∷ [], after 250 0) ∷ []

abbrev pub responses : ℕ → Bool → List Expiry
responses i unique =
    (response i unique ∷ [], after 1000 250)
    ∷ (response i unique ∷ [], after 2000 250)
    ∷ (response i unique ∷ [], none)
    ∷ []

-- What the timer of an announcer causes from the time that it is made.
abbrev pub life : Flags → ℕ → List Expiry
life f i =
    if f.unique && not f.no_probe
    then probes i ++ responses i f.unique
    else if f.no_announce
    then []
    else responses i f.unique

-- The life of an announcer, at the end of which it is established and its timer is off.
abbrev pub HasLife : Flags → ℕ → Type 0
HasLife f i =
    (b : Announcer) × (expiries 6 f (go_to_initial_state f none (blank i)).announcer
      ≡ done (b, life f i))
    × (b.state ≡ established)
    × (b.time_event ≡ none)

flagged : (u p a : Bool) (i : ℕ) → HasLife (record { unique = u; no_probe = p; no_announce = a }) i
unfolding expiries next_state next_probe announce restart go_to_initial_state
flagged true false true i = (_, refl, refl, refl)
flagged true false false i = (_, refl, refl, refl)
flagged true true true i = (_, refl, refl, refl)
flagged true true false i = (_, refl, refl, refl)
flagged false p true i = (_, refl, refl, refl)
flagged false p false i = (_, refl, refl, refl)

-- The announcer of an entry without a group is established in the end, its timer off. Till then it
-- probes three times, with 250 ms in between, if the record is unique and is to be probed for, and then
-- answers three times, one and two seconds apart, also if the record is not to be announced; without
-- probes it answers three times too, unless the record is not to be announced.
pub expiries-go_to_initial_state : (f : Flags) (i : ℕ) → HasLife f i
expiries-go_to_initial_state f i = flagged f.unique f.no_probe f.no_announce i
