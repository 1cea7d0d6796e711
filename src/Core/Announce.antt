-- ===== src/Core/Announce.antt =====
-- avahi-core/announce.c: the announcer of an entry on an interface probes for the record, waits for the
-- other members of the entry's group, and announces it. The constructor `waiting` of an announcer has
-- no timer; `time_event` is what the timer was last set to, as the arguments of avahi_elapse_time.
pub mod Members
pub mod Group
pub mod Alone
use nvmrdisplay.Prelude.{ℕ, ◌+◌, ◌-◌, ◌*◌, ◌%◌, ◌^◌, Bool, true, false, ◌&&◌, not}
use nvmrdisplay.Prelude.{Option, none, some, List, [], ◌∷◌, ltb, leb, ◌==◌, if◌then◌else◌}
use nvmrdisplay.Prelude.Outcome.{Outcome, done, abort, ◌>>=◌}

-- `AvahiAnnouncerState`
pub data AnnouncerState : Type 0 where
  probing waiting announcing established : AnnouncerState

-- `AvahiEntryGroupState`
pub data GroupState : Type 0 where
  uncommited registering group_established collision failure : GroupState

-- The arguments of `avahi_elapse_time`, in milliseconds.
pub record Delay : Type 0 where
  pub msec : ℕ
  pub jitter : ℕ

-- `AvahiAnnouncer`, on the interface with a number.
pub record Announcer : Type 0 where
  pub interface : ℕ
  pub state : AnnouncerState
  pub n_iteration : ℕ
  pub sec_delay : ℕ
  pub time_event : Option Delay

-- The bits AVAHI_PUBLISH_UNIQUE, AVAHI_PUBLISH_NO_PROBE and AVAHI_PUBLISH_NO_ANNOUNCE.
pub record Flags : Type 0 where
  pub unique : Bool
  pub no_probe : Bool
  pub no_announce : Bool

-- What an announcer reads and writes of the group of its entry.
pub record Counter : Type 0 where
  pub state : GroupState
  pub n_probing : ℕ

-- `response` is the answer that is prepared and generated, for the whole set of records or for one.
pub data Action : Type 0 where
  probe : ℕ → Action
  response : ℕ → Bool → Action

-- `check` says that avahi_s_entry_group_check_probed is called, with 1.
pub record Moved : Type 0 where
  pub announcer : Announcer
  pub group : Option Counter
  pub actions : List Action
  pub check : Bool

-- An `unsigned` of 32 bits.
abbrev pub unsigned_mod : ℕ
unsigned_mod = 2 ^ 32

abbrev pub increase : ℕ → ℕ
increase n = (n + 1) % unsigned_mod

abbrev pub decrease : ℕ → ℕ
decrease n = (n + unsigned_mod - 1) % unsigned_mod

abbrev pub is_registering : Option Counter → Bool
is_registering none = false
is_registering (some c) = elim c.state [ registering ↦ true | _ ↦ false ]

-- `if (group) n_probing--`, and `n_probing++`.
abbrev pub less_probing : Option Counter → Option Counter
less_probing none = none
less_probing (some c) = some (record c { n_probing = decrease c.n_probing })

abbrev pub more_probing : Option Counter → Option Counter
more_probing none = none
more_probing (some c) = some (record c { n_probing = increase c.n_probing })

-- The branch of `next_state` for AVAHI_ANNOUNCING.
pub announce : Flags → Option Counter → Announcer → Moved
announce f g a =
    let n = increase a.n_iteration in
    let next =
      if leb 4 n
      then record a { state = established; n_iteration = n; time_event = none }
      else record a {
        n_iteration = n;
        time_event = some (record { msec = a.sec_delay * 1000 % unsigned_mod; jitter = 250 });
        sec_delay = if ltb n 10 then a.sec_delay * 2 % unsigned_mod else a.sec_delay;
      } in
    record {
      announcer = next;
      group = g;
      actions = response a.interface f.unique ∷ [];
      check = false;
    }

-- The assert behind "Probing done".
abbrev pub probing_done : Option Counter → Outcome (Option Counter)
probing_done none = done none
probing_done (some c) = if c.n_probing == 0 then abort else done (less_probing (some c))

-- The branch of `next_state` for AVAHI_PROBING; the call of `next_state` in it goes to another branch.
pub next_probe : Flags → Option Counter → Announcer → Outcome Moved
unfolding announce
next_probe f g a =
    if leb 4 a.n_iteration
    then (probing_done g >>= λ h. done (
        if is_registering h
        then record {
          announcer = record a { state = waiting; time_event = none };
          group = h;
          actions = [];
          check = true;
        }
        else announce f h (record a { state = announcing; n_iteration = 1; time_event = none })))
    else done (record {
      announcer = record a {
        time_event = some (record { msec = 250; jitter = 0 });
        n_iteration = increase a.n_iteration;
      };
      group = g;
      actions = probe a.interface ∷ [];
      check = false;
    })

abbrev pub stay : Bool → Option Counter → Announcer → Moved
stay check g a = record { announcer = a; group = g; actions = []; check = check }

-- `next_state`; the assert of its first branch needs a group.
pub next_state : Flags → Option Counter → Announcer → Outcome Moved
unfolding next_probe announce
next_state f g a = elim a.state [
  | waiting ↦ elim g [ none ↦ abort | some c ↦ done (stay true (some c) a) ]
  | probing ↦ next_probe f g a
  | announcing ↦ done (announce f g a)
  | established ↦ done (stay false g a)
]

-- The end of `go_to_initial_state` and `reannounce`, behind the choice of the state.
pub restart : AnnouncerState → Option Counter → Announcer → Moved
restart s g a =
    stay false (elim s [ probing ↦ more_probing g | _ ↦ g ])
      (record a {
        state = s;
        n_iteration = 1;
        sec_delay = 1;
        time_event = elim s [
          | probing ↦ some (record { msec = 0; jitter = 250 })
          | announcing ↦ some (record { msec = 0; jitter = 250 })
          | _ ↦ none
        ];
      })

abbrev pub initial_state : Flags → Option Counter → AnnouncerState
initial_state f g =
    if f.unique && not f.no_probe then probing else if f.no_announce then established else elim g [
      | none ↦ announcing
      | some c ↦ elim c.state [ group_established ↦ announcing | _ ↦ waiting ]
    ]

-- `go_to_initial_state`
pub go_to_initial_state : Flags → Option Counter → Announcer → Moved
unfolding restart
go_to_initial_state f g a = restart (initial_state f g) g a

-- `if (a->state == AVAHI_PROBING && a->entry->group) n_probing--`
abbrev pub leave_probing : AnnouncerState → Option Counter → Option Counter
leave_probing s g = elim s [ probing ↦ less_probing g | _ ↦ g ]

-- `avahi_entry_return_to_initial_state`, on the announcer that it finds.
pub return_to_initial_state : Flags → Option Counter → Announcer → Moved
unfolding go_to_initial_state restart
return_to_initial_state f g a = go_to_initial_state f (leave_probing a.state g) a

abbrev pub reannounced_state : Flags → AnnouncerState → AnnouncerState
reannounced_state f probing = probing
reannounced_state f waiting = if f.unique && not f.no_probe then probing else waiting
reannounced_state f announcing = if f.no_announce then established else announcing
reannounced_state f established = if f.no_announce then established else announcing

abbrev pub is_off : Option Counter → Bool
is_off none = false
is_off (some c) = elim c.state [ uncommited ↦ true | collision ↦ true | _ ↦ false ]

-- `reannounce`
pub reannounce : Flags → Option Counter → Announcer → Moved
unfolding restart
reannounce f g a =
    if is_off g
    then stay false g a
    else restart (reannounced_state f a.state) (leave_probing a.state g) a
