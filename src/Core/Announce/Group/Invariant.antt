-- ===== src/Core/Announce/Group/Invariant.antt =====
-- avahi-core/announce.c: what each call does to the count and the timers of a group.
use nvmrdisplay.Prelude.{
  ℕ, ◌+◌, ◌%◌, ◌<◌, ◌≡◌, refl, arith, Bool, true, false, ◌&&◌, ◌||◌, not, Option, some,
}
use nvmrdisplay.Prelude.{
  List, [], ◌∷◌, is_nil, get_elem?, if_rule, ltb, All, Option-cases, inl, inr,
}
use nvmrdisplay.Prelude.Outcome.{Outcome, done, ◌>>=◌}
use nvmrdisplay.Core.Announce.{
  announcing, GroupState, registering, group_established, Announcer, Flags, Counter, Action, Moved,
  unsigned_mod, is_registering, next_state, go_to_initial_state, initial_state,
  return_to_initial_state, reannounce, leave_probing,
}
use nvmrdisplay.Core.Announce.Group.{
  Entry, Group, Step, get_announcer, put_announcer, set_entry, check_probed, counter_of, store,
  on_announcer, is_commited, is_none, blank, new_announcer, announce_entry, announce_entries,
  announce_group, goodbye_interface, probing_of, probing_in, same_state, change_state,
}
use nvmrdisplay.Core.Announce.Group.Commit.{
  commit_real, commit, elapse_register, clear_group, update_entry, entry_free, group_free,
}
use nvmrdisplay.Core.Announce.Group.Counts.{
  Balanced, Gives, next_state-Balanced, return_to_initial_state-Balanced, reannounce-Balanced,
  restart-Balanced, probing_in-release_entries, probing_in-set_entry, probing_in-goodbye_entries,
  probing_in-update_flags, probing_in-drop_entry,
}
use nvmrdisplay.Core.Announce.Group.Armed.{
  IsArmed, AreArmed, restart-IsArmed, reannounce-IsArmed, next_state-IsArmed,
  release_entries-AreArmed, found-IsArmed, set_entry-AreArmed, goodbye_entries-AreArmed,
  update_flags-AreArmed, drop_entry-AreArmed,
}

-- The group's count is the number of its announcers that probe, and of those that did when they were
-- removed since it was last set to 0, as an `unsigned`; the timers of its announcers are set as they should be.
pub record Fits (g : Group) : Type 0 where
  pub counted : g.counter.n_probing ≡ (probing_in g.entries + g.lost) % unsigned_mod
  pub armed : AreArmed g.entries

-- What new announcers make of an entry and of the count.
record Grown (c d : Counter) (before after : List Announcer) : Type 0 where
  low : d.n_probing < unsigned_mod
  moved :
      (d.n_probing + probing_of before) % unsigned_mod
      ≡ (c.n_probing + probing_of after) % unsigned_mod
  timed : All IsArmed after

new_announcer-Grown :
    (up : Bool) (i : ℕ) (e : Entry) (c : Counter)
    → c.n_probing < unsigned_mod
    → All IsArmed e.announcers
    → Grown c (new_announcer up i e c).1 e.announcers (new_announcer up i e c).0.announcers
unfolding new_announcer go_to_initial_state
new_announcer-Grown up i e c h armed =
    if_rule (λ (s : Entry × Counter). Grown c s.1 e.announcers s.0.announcers)
      (e.matches i && up && is_commited c.state && is_none (get_announcer i e.announcers))
      (λ t.
        let (low, moved) =
          restart-Balanced announcing (initial_state e.flags (some c)) c (blank i) h in
        record {
          low = low;
          moved = omega (arith, moved);
          timed = (restart-IsArmed (initial_state e.flags (some c)) (some c) (blank i), armed);
        })
      (λ f. record { low = h; moved = refl; timed = armed })

announce_entry-Grown :
    (is : List (ℕ × Bool)) (e : Entry) (c : Counter)
    → c.n_probing < unsigned_mod
    → All IsArmed e.announcers
    → Grown c (announce_entry is e c).1 e.announcers (announce_entry is e c).0.announcers
unfolding announce_entry
announce_entry-Grown [] e c h armed = record { low = h; moved = refl; timed = armed }
announce_entry-Grown ((i, up) ∷ is) e c h armed =
    let one = new_announcer-Grown up i e c h armed in
    let (e', c') = new_announcer up i e c in
    let rest = announce_entry-Grown is e' c' one.low one.timed in
    record { low = rest.low; moved = omega (arith, one.moved, rest.moved); timed = rest.timed }

announce_entries-Grown :
    (is : List (ℕ × Bool)) (es : List Entry) (c : Counter)
    → c.n_probing < unsigned_mod
    → AreArmed es
    → let s = announce_entries is es c in
      (s.1.n_probing < unsigned_mod)
      × ((s.1.n_probing + probing_in es) % unsigned_mod
          ≡ (c.n_probing + probing_in s.0) % unsigned_mod)
      × AreArmed s.0
unfolding announce_entries
announce_entries-Grown is [] c h armed = (h, refl, tt)
announce_entries-Grown is (e ∷ es) c h armed =
    let one = announce_entry-Grown is e c h armed.0 in
    let c' = (announce_entry is e c).1 in
    let (low, moved, timed) = announce_entries-Grown is es c' one.low armed.1 in
    (low, omega (arith, one.moved, moved), (one.timed, timed))

pub announce_group-Fits : (is : List (ℕ × Bool)) (g : Group) → Fits g → Fits (announce_group is g)
unfolding announce_group
announce_group-Fits is g v =
    let (low, moved, timed) =
      announce_entries-Grown is g.entries g.counter (omega (arith, v.counted)) v.armed in
    record { counted = omega (arith, moved, low, v.counted); armed = timed }

pub goodbye_interface-Fits : (i : ℕ) (g : Group) → Fits g → Fits (goodbye_interface i g)
unfolding goodbye_interface
goodbye_interface-Fits i g v = record {
  counted = omega (arith, v.counted, probing_in-goodbye_entries i g.entries);
  armed = goodbye_entries-AreArmed i g.entries v.armed;
}

-- A call that gives a group leaves it as it should be.
abbrev pub GivesFits : Step → Type 0
GivesFits (done s) = Fits s.0
GivesFits _ = Unit

-- A call on an announcer moves the count with it and keeps its timer right.
abbrev pub Moves : (Flags → Option Counter → Announcer → Outcome Moved) → Type 0
Moves f =
    (l : Flags) (c : Counter) (a : Announcer)
    → c.n_probing < unsigned_mod
    → IsArmed a
    → Gives (Balanced c a.state) (f l (some c) a)
      × Gives (λ m. IsArmed m.announcer) (f l (some c) a)

abbrev pub returning : Flags → Option Counter → Announcer → Outcome Moved
returning l g a = done (return_to_initial_state l g a)

abbrev pub reannouncing : Flags → Option Counter → Announcer → Outcome Moved
reannouncing l g a = done (reannounce l g a)

pub next_state-Moves : Moves next_state
next_state-Moves l c a h t = (next_state-Balanced l c a h, next_state-IsArmed l (some c) a t)

pub returning-Moves : Moves returning
unfolding return_to_initial_state go_to_initial_state
returning-Moves l c a h t =
    let g = leave_probing a.state (some c) in
    (return_to_initial_state-Balanced l c a h, restart-IsArmed (initial_state l g) g a)

pub reannouncing-Moves : Moves reannouncing
reannouncing-Moves l c a h t = (reannounce-Balanced l c a h, reannounce-IsArmed l (some c) a t)

-- `client` is the call-back of the group's owner.
module _ (client : Group → Group) (keeps : (g : Group) → Fits g → Fits (client g)) where
  pub change_state-Fits : (s : GroupState) (g : Group) → Fits g → Fits (change_state client s g)
  unfolding change_state
  change_state-Fits s g v =
      if_rule Fits (same_state g.counter.state s) (λ t. v)
        (λ t. keeps _ (record { counted = v.counted; armed = v.armed }))

  pub check_probed-Fits : (now : Bool) (g : Group) → Fits g → Fits (check_probed client now g).0
  unfolding check_probed
  check_probed-Fits now g v =
      if_rule (λ (s : Group × List Action). Fits s.0)
        (not (is_registering (some g.counter)) || ltb 0 g.counter.n_probing) (λ t. v)
        (λ t.
          let h = change_state client group_established g in
          let w = change_state-Fits group_established g v in
          if_rule (λ (s : Group × List Action). Fits s.0) h.dead (λ d. w)
            (λ d. record {
              counted =
                  omega
                    (arith, w.counted, probing_in-release_entries now (some h.counter) h.entries);
              armed = release_entries-AreArmed now (some h.counter) h.entries w.armed;
            }))

  store-Fits :
      (k i : ℕ) (e : Entry) (a : Announcer) (g : Group) (m : Moved)
      → get_elem? g.entries k ≡ some e
      → get_announcer i e.announcers ≡ some a
      → Fits g
      → Balanced g.counter a.state m
      → IsArmed m.announcer
      → Fits (store client k i e g m).0
  unfolding store
  store-Fits k i e a g m p q v b t =
      let h : Fits (record g {
        counter = counter_of g.counter m.group;
        entries =
            set_entry k (record e { announcers = put_announcer i m.announcer e.announcers })
              g.entries;
      }) =
        record {
          counted =
              omega
                (arith, v.counted, b, probing_in-set_entry k i m.announcer g.entries {a = a} p q);
          armed = set_entry-AreArmed k i m.announcer g.entries v.armed p t;
        } in
      if_rule (λ (s : Group × List Action). Fits s.0) m.check (λ c. check_probed-Fits true _ h)
        (λ c. h)

  stored :
      (k i : ℕ) (x : Entry) (a : Announcer) (g : Group) (o : Outcome Moved)
      → get_elem? g.entries k ≡ some x
      → get_announcer i x.announcers ≡ some a
      → Fits g
      → Gives (Balanced g.counter a.state) o
      → Gives (λ m. IsArmed m.announcer) o
      → GivesFits (o >>= λ m. done (store client k i x g m))
  stored k i x a g (done m) p q v b t = store-Fits k i x a g m p q v b t
  stored k i x a g _ p q v b t = tt

  pub on_announcer-Fits :
      (f : Flags → Option Counter → Announcer → Outcome Moved)
      → Moves f
      → (k i : ℕ) (g : Group) → Fits g
      → GivesFits (on_announcer client f k i g)
  unfolding on_announcer
  on_announcer-Fits f moves k i g v = elim (Option-cases (get_elem? g.entries k)) [
    | inl p ↦ rw (p, on_announcer) v
    | inr (x, p) ↦ elim (Option-cases (get_announcer i x.announcers)) [
      | inl q ↦ rw (p, on_announcer) (rw q v)
      | inr (a, q) ↦
          let (b, t) =
            moves x.flags g.counter a (omega (arith, v.counted))
              (found-IsArmed k i g.entries {a = a} v.armed p q) in
          rw (p, on_announcer) (rw q (stored k i x a g (f x.flags (some g.counter) a) p q v b t))
    ]
  ]

  pub commit_real-Fits :
      (is : List (ℕ × Bool)) (g : Group) → Fits g → Fits (commit_real client is g).0
  unfolding commit_real
  commit_real-Fits is g v =
      let h = change_state client registering g in
      let w = change_state-Fits registering g v in
      if_rule (λ (s : Group × List Action). Fits s.0) h.dead (λ d. w)
        (λ d. check_probed-Fits false (announce_group is h) (announce_group-Fits is h w))

  pub commit-Fits :
      (holdoff : Bool) (is : List (ℕ × Bool)) (g : Group)
      → Fits g
      → GivesFits (commit client holdoff is g)
  unfolding commit
  commit-Fits holdoff is g v =
      let w : Fits (record g { register_time_event = true }) = record {
        counted = v.counted;
        armed = v.armed;
      } in
      if_rule GivesFits g.dead (λ t. tt)
        (λ t.
          if_rule GivesFits (is_commited g.counter.state || is_nil g.entries) (λ t. tt)
            (λ t.
              if_rule GivesFits (not holdoff) (λ t. commit_real-Fits is g v)
                (λ t.
                  if_rule GivesFits g.register_time_event (λ t. tt)
                    (λ t. change_state-Fits registering _ w))))

  pub elapse_register-Fits :
      (is : List (ℕ × Bool)) (g : Group) → Fits g → Fits (elapse_register client is g).0
  unfolding elapse_register
  elapse_register-Fits is g v =
      commit_real-Fits is (record g { register_time_event = false })
        (record { counted = v.counted; armed = v.armed })

  pub clear_group-Fits : (s : GroupState) (g : Group) → Fits (clear_group client s g)
  unfolding clear_group
  clear_group-Fits s g =
      let h : Group = record g {
        entries = [];
        lost = 0;
        counter = record g.counter { n_probing = 0 };
      } in
      change_state-Fits s h (record { counted = refl; armed = tt })

pub update_entry-Fits : (k : ℕ) (f : Flags) (g : Group) → Fits g → Fits (update_entry k f g)
unfolding update_entry
update_entry-Fits k f g v = record {
  counted = omega (arith, v.counted, probing_in-update_flags k f g.entries);
  armed = update_flags-AreArmed k f g.entries v.armed;
}

pub entry_free-Fits : (k : ℕ) (g : Group) → Fits g → Fits (entry_free k g)
unfolding entry_free
entry_free-Fits k g v = record {
  counted = omega (arith, v.counted, probing_in-drop_entry k g.entries);
  armed = drop_entry-AreArmed k g.entries v.armed;
}

pub group_free-Fits : (g : Group) → Fits g → Fits (group_free g)
unfolding group_free
group_free-Fits g v = record { counted = omega (arith, v.counted); armed = tt }
