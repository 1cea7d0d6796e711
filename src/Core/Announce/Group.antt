-- ===== src/Core/Announce/Group.antt =====
-- avahi-core/announce.c and avahi-core/entry.c: a group of entries with their announcers, and what is
-- done to it. `client` is what the call-back of the group's owner makes of the group.
pub mod Commit
pub mod Counts
pub mod Armed
pub mod Invariant
pub mod Runs
mod Tests
unfoldable pub use nvmrdisplay.Core.Announce.Members.{new_group}
pub use nvmrdisplay.Core.Announce.Members.{
  Entry, Group, weight, probing_of, probing_in, probing_on, probing_at,
}
use nvmrdisplay.Prelude.{
  ℕ, zero, suc, ◌+◌, ◌-◌, Bool, true, false, ◌&&◌, ◌||◌, not, Option, none, some, List, [], ◌∷◌,
  ◌++◌,
}
use nvmrdisplay.Prelude.{is_nil, get_elem?, ltb, ◌==◌, if◌then◌else◌}
use nvmrdisplay.Prelude.Outcome.{Outcome, done, null, abort, ◌>>=◌}
use nvmrdisplay.Core.Announce.{
  AnnouncerState, probing, waiting, announcing, established, GroupState, uncommited, registering,
  group_established, collision, failure, Announcer, Flags, Counter, Action, Moved, is_registering,
  announce, go_to_initial_state,
}

-- `avahi_entry_is_commited`, of an entry with a group.
abbrev pub is_commited : GroupState → Bool
is_commited registering = true
is_commited group_established = true
is_commited _ = false

-- What `server_add_internal` does to a group whose state lets it: a new entry, without announcers, in
-- front.
unfoldable pub add_entry : Flags → (ℕ → Bool) → Group → Group
add_entry f on g =
    if is_commited g.counter.state
    then g
    else record g { entries = record { flags = f; matches = on; announcers = [] } ∷ g.entries }

abbrev pub same_state : GroupState → GroupState → Bool
same_state uncommited uncommited = true
same_state registering registering = true
same_state group_established group_established = true
same_state collision collision = true
same_state failure failure = true
same_state _ _ = false

-- `avahi_s_entry_group_change_state`, to a state whose assert holds.
pub change_state : (Group → Group) → GroupState → Group → Group
change_state client s g =
    if same_state g.counter.state s
    then g
    else client (record g {
      counter = record g.counter { state = s };
      register_time_event = g.register_time_event && not (is_registering (some g.counter));
    })

abbrev pub Step : Type 0
Step = Outcome (Group × List Action)

-- `get_announcer`
pub get_announcer : ℕ → List Announcer → Option Announcer
get_announcer i [] = none
get_announcer i (a ∷ l) = if a.interface == i then some a else get_announcer i l

-- Write back the announcer that get_announcer finds.
pub put_announcer : ℕ → Announcer → List Announcer → List Announcer
put_announcer i b [] = []
put_announcer i b (a ∷ l) = if a.interface == i then b ∷ l else a ∷ put_announcer i b l

abbrev pub set_entry : ℕ → Entry → List Entry → List Entry
set_entry k e [] = []
set_entry zero e (x ∷ xs) = e ∷ xs
set_entry (suc k) e (x ∷ xs) = x ∷ set_entry k e xs

-- An announcer of the loop of `avahi_s_entry_group_check_probed`.
pub release : Bool → Flags → Option Counter → Announcer → Announcer × List Action
unfolding announce
release immediately f g a = elim a.state [
  | waiting ↦
      if immediately
      then (let m = announce f g (record a { state = announcing; n_iteration = 1 }) in
          (m.announcer, m.actions))
      else (
        record a {
          state = announcing;
          n_iteration = 0;
          time_event = some (record { msec = 0; jitter = 250 });
        },
        [],
      )
  | _ ↦ (a, [])
]

pub release_announcers :
    Bool → Flags → Option Counter → List Announcer → List Announcer × List Action
release_announcers immediately f g [] = ([], [])
release_announcers immediately f g (a ∷ l) =
    let (b, first) = release immediately f g a in
    let (bs, rest) = release_announcers immediately f g l in (b ∷ bs, first ++ rest)

pub release_entries : Bool → Option Counter → List Entry → List Entry × List Action
release_entries immediately g [] = ([], [])
release_entries immediately g (e ∷ es) =
    let (announcers, first) = release_announcers immediately e.flags g e.announcers in
    let (others, rest) = release_entries immediately g es in
    (record e { announcers = announcers } ∷ others, first ++ rest)

-- `avahi_s_entry_group_check_probed`, of a group that is not dead.
pub check_probed : (Group → Group) → Bool → Group → Group × List Action
unfolding change_state
check_probed client immediately g =
    if not (is_registering (some g.counter)) || ltb 0 g.counter.n_probing
    then (g, [])
    else (let h = change_state client group_established g in
        if h.dead
        then (h, [])
        else (let (es, actions) = release_entries immediately (some h.counter) h.entries in
            (record h { entries = es }, actions)))

abbrev pub counter_of : Counter → Option Counter → Counter
counter_of c none = c
counter_of c (some d) = d

-- Put what became of an announcer of the entry with number k back into its group.
pub store : (Group → Group) → ℕ → ℕ → Entry → Group → Moved → Group × List Action
store client k i e g m =
    let h = record g {
      counter = counter_of g.counter m.group;
      entries =
          set_entry k (record e { announcers = put_announcer i m.announcer e.announcers })
            g.entries;
    } in
    let (h', more) = check_probed client true h in
    if m.check then (h', m.actions ++ more) else (h, m.actions)

-- Do something to the announcer of an entry on an interface, if there is one.
pub on_announcer :
    (Group → Group) → (Flags → Option Counter → Announcer → Outcome Moved) → ℕ → ℕ → Group → Step
on_announcer client f k i g = elim (get_elem? g.entries k) [
  | none ↦ done (g, [])
  | some e ↦ elim (get_announcer i e.announcers) [
    | none ↦ done (g, [])
    | some a ↦ f e.flags (some g.counter) a >>= λ m. done (store client k i e g m)
  ]
]

abbrev pub is_none {ℓ} : {A : Type ℓ} → Option A → Bool
is_none none = true
is_none (some a) = false

-- What a new announcer is before `go_to_initial_state`.
abbrev pub blank : ℕ → Announcer
blank i = record {
  interface = i;
  state = probing;
  n_iteration = 0;
  sec_delay = 0;
  time_event = none;
}

-- `new_announcer`, for an entry with a group; `up` says that the interface is `announcing`.
pub new_announcer : Bool → ℕ → Entry → Counter → Entry × Counter
unfolding go_to_initial_state
new_announcer up i e c =
    if e.matches i && up && is_commited c.state && is_none (get_announcer i e.announcers)
    then (let m = go_to_initial_state e.flags (some c) (blank i) in
        (record e { announcers = m.announcer ∷ e.announcers }, counter_of c m.group))
    else (e, c)

-- `avahi_announce_entry`: a walk over the interfaces, each with its number and its `announcing`.
pub announce_entry : List (ℕ × Bool) → Entry → Counter → Entry × Counter
announce_entry [] e c = (e, c)
announce_entry ((i, up) ∷ is) e c = let (e', c') = new_announcer up i e c in announce_entry is e' c'

-- `avahi_announce_group`, and `avahi_announce_interface` for the entries of one group.
pub announce_entries : List (ℕ × Bool) → List Entry → Counter → List Entry × Counter
announce_entries is [] c = ([], c)
announce_entries is (e ∷ es) c =
    let (e', c') = announce_entry is e c in
    let (es', c'') = announce_entries is es c' in (e' ∷ es', c'')

pub announce_group : List (ℕ × Bool) → Group → Group
announce_group is g =
    let (es, c) = announce_entries is g.entries g.counter in record g { entries = es; counter = c }

-- The loop of `avahi_goodbye_interface` with `remove`, on the announcers of an entry.
pub remove_announcers : ℕ → List Announcer → List Announcer
remove_announcers i [] = []
remove_announcers i (a ∷ l) =
    let rest = remove_announcers i l in if a.interface == i then rest else a ∷ rest

pub goodbye_entries : ℕ → List Entry → List Entry
goodbye_entries i [] = []
goodbye_entries i (e ∷ es) =
    record e { announcers = remove_announcers i e.announcers } ∷ goodbye_entries i es

-- `avahi_goodbye_interface` with `remove`, for the entries of one group.
pub goodbye_interface : ℕ → Group → Group
goodbye_interface i g = record g {
  entries = goodbye_entries i g.entries;
  lost = g.lost + probing_at i g.entries;
}

-- `avahi_entry_is_registered` and `avahi_entry_is_probing`
pub entry_is_registered : Entry → ℕ → Bool
entry_is_registered e i = elim (get_announcer i e.announcers) [
  | none ↦ false
  | some a ↦ elim a.state [
    | probing ↦ false
    | waiting ↦ not e.flags.unique
    | announcing ↦ true
    | established ↦ true
  ]
]

pub entry_is_probing : Entry → ℕ → Bool
entry_is_probing e i = elim (get_announcer i e.announcers) [
  | none ↦ false
  | some a ↦ elim a.state [
    | probing ↦ true
    | waiting ↦ e.flags.unique
    | announcing ↦ false
    | established ↦ false
  ]
]
