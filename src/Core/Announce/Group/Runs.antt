-- ===== src/Core/Announce/Group/Runs.antt =====
-- avahi-core/announce.c: the life of a group of entries, as a sequence of the calls that change it.
use nvmrdisplay.Prelude.{ℕ, ◌+◌, ◌<◌, ◌≡◌, ◌≢◌, refl, arith, Bool, true, ◌||◌, not, Option, some}
use nvmrdisplay.Prelude.{List, [], ◌∷◌, if_rule, ltb, All, Bool-cases, inl, inr, ◌⊎◌}
use nvmrdisplay.Prelude.Outcome.{done}
use mathlib.Core.Path.{subst}
use nvmrdisplay.Core.Announce.{
  waiting, uncommited, collision, registering, group_established, Announcer, Flags, Counter, Action,
  unsigned_mod, is_registering, announce, next_state,
}
use nvmrdisplay.Core.Announce.Group.{
  Entry, Group, release, release_announcers, release_entries, new_group, add_entry, check_probed,
  on_announcer, announce_group, goodbye_interface, change_state, is_commited, probing_in,
}
use nvmrdisplay.Core.Announce.Group.Commit.{
  clear_group, update_entry, entry_free, commit, elapse_register, group_free,
}
use nvmrdisplay.Core.Announce.Group.Invariant.{
  Fits, GivesFits, returning, reannouncing, commit-Fits, elapse_register-Fits, announce_group-Fits,
  check_probed-Fits, clear_group-Fits, update_entry-Fits, entry_free-Fits, group_free-Fits,
  goodbye_interface-Fits, next_state-Moves, returning-Moves, reannouncing-Moves, on_announcer-Fits,
}

-- An announcer waits for the rest of its group.
abbrev pub IsReleased : Announcer → Type 0
IsReleased a = a.state ≢ waiting

abbrev pub AreReleased : List Entry → Type 0
AreReleased = All λ e. All IsReleased e.announcers

release-IsReleased :
    (now : Bool) (f : Flags) (g : Option Counter) (a : Announcer) → IsReleased (release now f g a).0
unfolding release announce
release-IsReleased now f g a = ground arith

release_announcers-IsReleased :
    (now : Bool) (f : Flags) (g : Option Counter) (l : List Announcer)
    → All IsReleased (release_announcers now f g l).0
unfolding release_announcers
release_announcers-IsReleased now f g [] = tt
release_announcers-IsReleased now f g (a ∷ l) =
    (release-IsReleased now f g a, release_announcers-IsReleased now f g l)

release_entries-AreReleased :
    (now : Bool) (g : Option Counter) (es : List Entry) → AreReleased (release_entries now g es).0
unfolding release_entries
release_entries-AreReleased now g [] = tt
release_entries-AreReleased now g (e ∷ es) =
    (release_announcers-IsReleased now e.flags g e.announcers, release_entries-AreReleased now g es)

-- `client` is the call-back of the group's owner, and what it does to the group itself.
module _ (client : Group → Group) (keeps : (g : Group) → Fits g → Fits (client g)) where
  -- What calls make of a new group, in any order. The walks over all interfaces are sequences of steps.
  pub data Reaches : Group → Type 0 where
    fresh : Reaches new_group
    entry : {g : Group} → (f : Flags) → (on : ℕ → Bool) → Reaches g → Reaches (add_entry f on g)
    updated : {g : Group} → (k : ℕ) → (f : Flags) → Reaches g → Reaches (update_entry k f g)
    dropped : {g : Group} → (k : ℕ) → Reaches g → Reaches (entry_free k g)
    committed :
        {g : Group} {s : Group × List Action}
        → (holdoff : Bool) → (is : List (ℕ × Bool)) → Reaches g
        → commit client holdoff is g ≡ done s
        → Reaches s.0
    held_off :
        {g : Group}
        → (is : List (ℕ × Bool)) → Reaches g
        → g.register_time_event ≡ true
        → Reaches (elapse_register client is g).0
    announced : {g : Group} → (is : List (ℕ × Bool)) → Reaches g → Reaches (announce_group is g)
    checked : {g : Group} → (now : Bool) → Reaches g → Reaches (check_probed client now g).0
    timer :
        {g : Group} {s : Group × List Action}
        → (k i : ℕ) → Reaches g
        → on_announcer client next_state k i g ≡ done s
        → Reaches s.0
    returned :
        {g : Group} {s : Group × List Action}
        → (k i : ℕ) → Reaches g
        → on_announcer client returning k i g ≡ done s
        → Reaches s.0
    reannounced :
        {g : Group} {s : Group × List Action}
        → (k i : ℕ) → Reaches g
        → on_announcer client reannouncing k i g ≡ done s
        → Reaches s.0
    gone : {g : Group} → (i : ℕ) → Reaches g → Reaches (goodbye_interface i g)
    was_reset : {g : Group} → Reaches g → Reaches (clear_group client uncommited g)
    collided : {g : Group} → Reaches g → Reaches (clear_group client collision g)
    freed : {g : Group} → Reaches g → Reaches (group_free g)

  -- After entries were added, updated and freed, commits with and without a delay, timers, conflicts,
  -- resets, the coming and going of interfaces and the freeing of the group, in any order: the count is
  -- the number of its announcers that probe, and of those that were removed while they probed since it
  -- was last set to 0, as a number of 32 bits; and the timer of each announcer is set exactly while that
  -- probes or announces. What the owner's call-back does to the group is to keep this.
  pub Reaches-Fits : {g : Group} → Reaches g → Fits g
  unfolding new_group add_entry
  Reaches-Fits fresh = record { counted = refl; armed = tt }
  Reaches-Fits (entry {g} f on r) =
      let v = Reaches-Fits r in
      if_rule Fits (is_commited g.counter.state) (λ t. v)
        (λ t. record { counted = omega (arith, v.counted); armed = (tt, v.armed) })
  Reaches-Fits (updated {g} k f r) = update_entry-Fits k f g (Reaches-Fits r)
  Reaches-Fits (dropped {g} k r) = entry_free-Fits k g (Reaches-Fits r)
  Reaches-Fits (committed {g} holdoff is r e) =
      subst GivesFits e (commit-Fits client keeps holdoff is g (Reaches-Fits r))
  Reaches-Fits (held_off {g} is r e) = elapse_register-Fits client keeps is g (Reaches-Fits r)
  Reaches-Fits (announced {g} is r) = announce_group-Fits is g (Reaches-Fits r)
  Reaches-Fits (checked {g} now r) = check_probed-Fits client keeps now g (Reaches-Fits r)
  Reaches-Fits (timer {g} k i r e) =
      subst GivesFits e
        (on_announcer-Fits client keeps next_state next_state-Moves k i g (Reaches-Fits r))
  Reaches-Fits (returned {g} k i r e) =
      subst GivesFits e
        (on_announcer-Fits client keeps returning returning-Moves k i g (Reaches-Fits r))
  Reaches-Fits (reannounced {g} k i r e) =
      subst GivesFits e
        (on_announcer-Fits client keeps reannouncing reannouncing-Moves k i g (Reaches-Fits r))
  Reaches-Fits (gone {g} i r) = goodbye_interface-Fits i g (Reaches-Fits r)
  Reaches-Fits (was_reset {g} r) = clear_group-Fits client keeps uncommited g
  Reaches-Fits (collided {g} r) = clear_group-Fits client keeps collision g
  Reaches-Fits (freed {g} r) = group_free-Fits g (Reaches-Fits r)

  -- In a group that registers, with fewer announcers than 2 ^ 32, the check of its count lets no
  -- announcer go on as long as one probes, or did when it was removed since the count was last set to 0;
  -- else none is left waiting, if the owner's call-back has not freed the group.
  pub check_probed-Reaches :
      (now : Bool) {g : Group}
      → Reaches g
      → g.counter.state ≡ registering
      → probing_in g.entries + g.lost < unsigned_mod
      → ((0 < probing_in g.entries + g.lost) × (check_probed client now g ≡ (g, [])))
        ⊎ ((probing_in g.entries + g.lost ≡ 0)
            × (((check_probed client now g).0.dead ≡ true)
                ⊎ AreReleased (check_probed client now g).0.entries))
  unfolding check_probed
  check_probed-Reaches now {g} r s fewer =
      let v = Reaches-Fits r in
      elim (Bool-cases (ltb 0 g.counter.n_probing)) [
        | inl more ↦ inl (ground (arith, v.counted), ground arith)
        | inr none_left ↦ inr (
          ground (arith, v.counted),
          if_rule (λ (t : Group × List Action). (t.0.dead ≡ true) ⊎ AreReleased t.0.entries)
              (not (is_registering (some g.counter)) || ltb 0 g.counter.n_probing)
              (λ t. absurd (ground (arith, s, none_left, t)))
              (λ t.
                let h = change_state client group_established g in
                if_rule (λ (t : Group × List Action). (t.0.dead ≡ true) ⊎ AreReleased t.0.entries)
                  h.dead (λ d. inl d)
                  (λ d. inr (release_entries-AreReleased now (some h.counter) h.entries))),
        )
      ]
