-- ===== src/Core/Announce/Members.antt =====
-- avahi-core/internal.h and avahi-core/entry.c: the entries of a group, with their announcers.
use nvmrdisplay.Prelude.{ℕ, ◌+◌, Bool, false, List, [], ◌∷◌, ◌==◌, if◌then◌else◌}
use nvmrdisplay.Core.Announce.{
  AnnouncerState, probing, waiting, announcing, established, uncommited, Announcer, Flags, Counter,
}

-- `AvahiEntry`: the flags and the announcers; `matches` is avahi_interface_match for an interface.
pub record Entry : Type 0 where
  pub flags : Flags
  pub matches : ℕ → Bool
  pub announcers : List Announcer

abbrev pub weight : AnnouncerState → ℕ
weight probing = 1
weight waiting = 0
weight announcing = 0
weight established = 0

-- The announcers that probe, in a list and in a group.
abbrev pub probing_of : List Announcer → ℕ
probing_of [] = 0
probing_of (a ∷ l) = weight a.state + probing_of l

abbrev pub probing_in : List Entry → ℕ
probing_in [] = 0
probing_in (e ∷ es) = probing_of e.announcers + probing_in es

-- Those on an interface.
abbrev pub probing_on : ℕ → List Announcer → ℕ
probing_on i [] = 0
probing_on i (a ∷ l) = (if a.interface == i then weight a.state else 0) + probing_on i l

abbrev pub probing_at : ℕ → List Entry → ℕ
probing_at i [] = 0
probing_at i (e ∷ es) = probing_on i e.announcers + probing_at i es

-- `AvahiSEntryGroup`, with the entries that are not dead; `register_time_event` says that there is this
-- timer. `lost` is not a field of the source, and nothing but itself is computed from it: it counts, for
-- statements, the announcers that were removed while they probed, since n_probing was last set to 0.
pub record Group : Type 0 where
  pub counter : Counter
  pub dead : Bool
  pub register_time_event : Bool
  pub entries : List Entry
  pub lost : ℕ

-- The group that `avahi_s_entry_group_new` makes.
unfoldable pub new_group : Group
new_group = record {
  counter = record { state = uncommited; n_probing = 0 };
  dead = false;
  register_time_event = false;
  entries = [];
  lost = 0;
}
