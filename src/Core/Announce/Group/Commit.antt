-- ===== src/Core/Announce/Group/Commit.antt =====
-- avahi-core/entry.c and avahi-core/server.c: commits, updates, resets and the freeing of a group.
use nvmrdisplay.Prelude.{ℕ, zero, suc, ◌+◌, ◌-◌, Bool, true, false, ◌||◌, not, List, [], ◌∷◌}
use nvmrdisplay.Prelude.{is_nil, if◌then◌else◌}
use nvmrdisplay.Prelude.Outcome.{done, null, abort}
use nvmrdisplay.Core.Announce.{GroupState, registering, Flags, Action}
use nvmrdisplay.Core.Announce.Group.{
  Entry, Group, Step, probing_in, is_commited, change_state, check_probed, announce_group,
}

-- What `server_add_internal` writes with AVAHI_PUBLISH_UPDATE; the entry is then announced anew.
unfoldable pub update_flags : ℕ → Flags → List Entry → List Entry
update_flags k f [] = []
update_flags zero f (e ∷ es) = record e { flags = f } ∷ es
update_flags (suc k) f (e ∷ es) = e ∷ update_flags k f es

unfoldable pub update_entry : ℕ → Flags → Group → Group
unfolding update_flags
update_entry k f g = record g { entries = update_flags k f g.entries }

-- `entry_group_commit_real`
unfoldable pub commit_real : (Group → Group) → List (ℕ × Bool) → Group → Group × List Action
unfolding announce_group change_state
commit_real client is g =
    let h = change_state client registering g in
    if h.dead then (h, []) else check_probed client false (announce_group is h)

-- `avahi_s_entry_group_commit`: an error is `null`. `holdoff` says that the time to register, which the
-- number of trials puts off, is not reached yet.
unfoldable pub commit : (Group → Group) → Bool → List (ℕ × Bool) → Group → Step
unfolding commit_real
commit client holdoff is g =
    if g.dead
    then abort
    else if is_commited g.counter.state || is_nil g.entries
    then null
    else if not holdoff
    then done (commit_real client is g)
    else if g.register_time_event
    then abort
    else done (change_state client registering (record g { register_time_event = true }), [])

-- `entry_group_register_time_event_callback`
unfoldable pub elapse_register : (Group → Group) → List (ℕ × Bool) → Group → Group × List Action
unfolding commit_real
elapse_register client is g = commit_real client is (record g { register_time_event = false })

-- `avahi_entry_free`, of the entry with number k.
unfoldable pub drop_entry : ℕ → List Entry → List Entry
drop_entry k [] = []
drop_entry zero (e ∷ es) = es
drop_entry (suc k) (e ∷ es) = e ∷ drop_entry k es

unfoldable pub entry_free : ℕ → Group → Group
unfolding drop_entry
entry_free k g =
    let left = drop_entry k g.entries in
    record g { entries = left; lost = g.lost + (probing_in g.entries - probing_in left) }

-- `avahi_s_entry_group_free`: the entries and the group die.
unfoldable pub group_free : Group → Group
group_free g = record g {
  dead = true;
  register_time_event = false;
  entries = [];
  lost = g.lost + probing_in g.entries;
}

-- `avahi_s_entry_group_reset`, and the group's part of `withdraw_entry` (avahi-core/server.c): the
-- entries die, and the state becomes the one that is given.
unfoldable pub clear_group : (Group → Group) → GroupState → Group → Group
unfolding change_state
clear_group client s g =
    change_state client s
      (record g { entries = []; lost = 0; counter = record g.counter { n_probing = 0 } })
