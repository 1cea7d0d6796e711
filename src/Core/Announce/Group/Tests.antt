-- ===== src/Core/Announce/Group/Tests.antt =====
-- A group with one unique record, which is announced on one interface.
use nvmrdisplay.Prelude.{ℕ, ◌+◌, ◌<◌, ◌≡◌, refl, Bool, true, false, List, [], ◌∷◌, ◌⊎◌, arith}
use nvmrdisplay.Core.Announce.{Flags, uncommited, registering, restart, go_to_initial_state}
use nvmrdisplay.Core.Announce.Alone.{HasLife, expiries-go_to_initial_state}
use nvmrdisplay.Core.Announce.Group.{
  Group, new_group, add_entry, check_probed, goodbye_interface, goodbye_entries, remove_announcers,
  get_announcer, new_announcer, announce_entry, announce_entries, announce_group, probing_in,
  change_state,
}
use nvmrdisplay.Core.Announce.Group.Commit.{commit_real, commit}
use nvmrdisplay.Core.Announce.Group.Invariant.{Fits}
use nvmrdisplay.Core.Announce.Group.Runs.{
  AreReleased, Reaches, fresh, entry, committed, gone, Reaches-Fits, check_probed-Reaches,
}

abbrev unique_flags : Flags
unique_flags = record { unique = true; no_probe = false; no_announce = false }

abbrev idle : Group → Group
idle g = g

idle-Fits : (g : Group) → Fits g → Fits (idle g)
idle-Fits g v = v

abbrev everywhere : ℕ → Bool
everywhere i = true

abbrev one_up : List (ℕ × Bool)
one_up = (7, true) ∷ []

-- The group is committed, so that its announcer probes, and then the interface goes away.
abbrev started : Group
started = (commit_real idle one_up (add_entry unique_flags everywhere new_group)).0

abbrev orphaned : Group
orphaned = goodbye_interface 7 started

started-Reaches : Reaches idle idle-Fits started
unfolding commit commit_real add_entry new_group change_state check_probed announce_group
    announce_entries announce_entry new_announcer get_announcer go_to_initial_state restart
started-Reaches = committed false one_up (entry unique_flags everywhere fresh) refl

orphaned-Reaches : Reaches idle idle-Fits orphaned
orphaned-Reaches = gone 7 started-Reaches

Reaches-Fits_example : Fits orphaned
Reaches-Fits_example = Reaches-Fits idle idle-Fits orphaned-Reaches

orphaned_registering : orphaned.counter.state ≡ registering
unfolding commit_real change_state add_entry new_group goodbye_interface check_probed announce_group
    announce_entries announce_entry new_announcer get_announcer go_to_initial_state restart
orphaned_registering = refl

orphaned_few : probing_in orphaned.entries + orphaned.lost < 4294967296
unfolding commit_real change_state add_entry new_group goodbye_interface goodbye_entries
    remove_announcers check_probed announce_group announce_entries announce_entry new_announcer
    get_announcer go_to_initial_state restart
orphaned_few = omega arith

check_probed-Reaches_example :
    ((0 < probing_in orphaned.entries + orphaned.lost)
      × (check_probed idle false orphaned ≡ (orphaned, [])))
    ⊎ ((probing_in orphaned.entries + orphaned.lost ≡ 0)
        × (((check_probed idle false orphaned).0.dead ≡ true)
            ⊎ AreReleased (check_probed idle false orphaned).0.entries))
check_probed-Reaches_example =
    check_probed-Reaches idle idle-Fits false orphaned-Reaches orphaned_registering orphaned_few

-- The count stays at one when no announcer is orphaned: the group is never established.
orphaned_behind : (probing_in orphaned.entries ≡ 0) × (orphaned.counter.n_probing ≡ 1)
unfolding commit_real change_state add_entry new_group goodbye_interface goodbye_entries
    remove_announcers check_probed announce_group announce_entries announce_entry new_announcer
    get_announcer go_to_initial_state restart
orphaned_behind = (refl, refl)

expiries-go_to_initial_state_example : HasLife unique_flags 7
expiries-go_to_initial_state_example = expiries-go_to_initial_state unique_flags 7

-- An owner whose call-back resets the group keeps the count right, also after a lost probe.
abbrev resets : Group → Group
resets g = record g {
  entries = [];
  lost = 0;
  counter = record { state = uncommited; n_probing = 0 };
  register_time_event = false;
}

resets-Fits : (g : Group) → Fits g → Fits (resets g)
resets-Fits g v = record { counted = refl; armed = tt }
