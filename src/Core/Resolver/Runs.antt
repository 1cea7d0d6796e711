-- ===== src/Core/Resolver/Runs.antt =====
-- Sequences of what a resolver is told.
use nvmrdisplay.Prelude.{ℕ, ◌<◌, ◌≡◌, refl, arith, Bool, false, ◌&&◌, ◌||◌, not}
use nvmrdisplay.Prelude.{List, [], ◌∷◌, ◌++◌, if◌then◌else◌, if_rule, ◌⊎◌, inl, inr}
use mathlib.Core.Path.{subst}
use nvmrdisplay.Prelude.Int.{ℤ, pos, ltb_ℤ}
use nvmrdisplay.Prelude.Outcome.{done, null, abort, stuck, ◌>>=◌}
use nvmrdisplay.Core.Resolver.{
  Protocol, Browser, of_srv, of_txt, of_a, of_aaaa, Resolver, Action, failed, Step, all_flags,
  finish_failure, complete,
}
use nvmrdisplay.Core.Resolver.Events.{
  Event, new, remove, cache_exhausted, all_for_now, failure, set_flags, other_interface,
  other_protocol, given_protocol, record_browser_callback, time_event_callback, prepared,
}
use nvmrdisplay.Core.Resolver.Complete.{
  founds, failures, IsWaiting, IsGood, unchanged, new_record-IsGood, failures-append,
}
use nvmrdisplay.Core.Resolver.Gone.{remove_record-IsGood, browser_failure-IsGood}

complete-set_flags :
    (b : Browser) (flags : ℕ) (r : Resolver) → complete (set_flags b flags r) ≡ complete r
unfolding complete
complete-set_flags of_srv flags r = refl
complete-set_flags of_txt flags r = refl
complete-set_flags of_a flags r = refl
complete-set_flags of_aaaa flags r = refl

set_flags-IsWaiting :
    (b : Browser) (flags : ℕ) (r : Resolver) → IsWaiting r → IsWaiting (set_flags b flags r)
unfolding complete
set_flags-IsWaiting of_srv flags r w = w
set_flags-IsWaiting of_txt flags r w = w
set_flags-IsWaiting of_a flags r w = w
set_flags-IsWaiting of_aaaa flags r w = w

record_browser_callback-IsGood :
    (made : Browser → Bool) (b : Browser) (flags : ℕ) (e : Event) (r : Resolver)
    → IsWaiting r
    → IsGood r (record_browser_callback made b flags e r)
unfolding record_browser_callback complete
record_browser_callback-IsGood made b flags (new interface protocol n) r w =
    let s = set_flags b flags r in
    if_rule (IsGood r) (other_interface s.interface interface || other_protocol s.protocol protocol)
      (λ t. unchanged r s [] (complete-set_flags b flags r) (set_flags-IsWaiting b flags r w) refl)
      (λ f.
        new_record-IsGood r
          (record s {
            interface = if ltb_ℤ (pos 0) s.interface then s.interface else interface;
            protocol = given_protocol s.protocol protocol;
          })
          made n.rdata n (complete-set_flags b flags r) (set_flags-IsWaiting b flags r w))
record_browser_callback-IsGood made b flags (remove same same_key gone) r w =
    remove_record-IsGood r (set_flags b flags r) same same_key gone.rdata gone
      (complete-set_flags b flags r) (set_flags-IsWaiting b flags r w)
record_browser_callback-IsGood made b flags cache_exhausted r w =
    unchanged r (set_flags b flags r) [] (complete-set_flags b flags r)
      (set_flags-IsWaiting b flags r w) refl
record_browser_callback-IsGood made b flags all_for_now r w =
    unchanged r (set_flags b flags r) [] (complete-set_flags b flags r)
      (set_flags-IsWaiting b flags r w) refl
record_browser_callback-IsGood made b flags failure r w =
    browser_failure-IsGood r (set_flags b flags r) b (complete-set_flags b flags r)
      (set_flags-IsWaiting b flags r w)

-- While the timer runs exactly if a record is missing, what a record browser says makes the resolver
-- call back that the service was found, once, exactly if it had not all records and has them now; and
-- then the timer still runs exactly if a record is missing, or a failure was called back.
pub founds-record_browser_callback :
    (made : Browser → Bool) (b : Browser) (flags : ℕ) (e : Event) (r : Resolver) {r' : Resolver}
    {l : List Action}
    → IsWaiting r
    → record_browser_callback made b flags e r ≡ done (r', l)
    → (founds l ≡ (if complete r' && not (complete r) then 1 else 0))
      × (IsWaiting r' ⊎ (0 < failures l))
founds-record_browser_callback made b flags e r w run =
    subst (IsGood r) run (record_browser_callback-IsGood made b flags e r w)

-- What a resolver is told: by a browser, of which browsers can be made now, or by its timer.
pub data Call : Type 0 where
  says : (Browser → Bool) → Browser → ℕ → Event → Call
  times_out : Call

unfoldable pub call : Call → Resolver → Step
unfolding record_browser_callback time_event_callback
call (says made b flags e) r = record_browser_callback made b flags e r
call times_out r = time_event_callback r

unfoldable pub run : List Call → Resolver → Step
unfolding call
run [] r = done (r, [])
run (c ∷ cs) r = call c r >>= λ s. run cs s.0 >>= λ t. done (t.0, s.1 ++ t.1)

-- No resolver waits in vain.
abbrev IsKept : Step → Type 0
IsKept (done (r, l)) = IsWaiting r ⊎ (0 < failures l)
IsKept null = Unit
IsKept abort = Unit
IsKept stuck = Unit

behind_failure :
    (l : List Action) (y : Step) → 0 < failures l → IsKept (y >>= λ t. done (t.0, l ++ t.1))
behind_failure l (done (r, m)) f = inr (omega (arith, f, failures-append l m))
behind_failure l null f = tt
behind_failure l abort f = tt
behind_failure l stuck f = tt

behind_waiting : (l : List Action) (y : Step) → IsKept y → IsKept (y >>= λ t. done (t.0, l ++ t.1))
behind_waiting l (done (r, m)) (inl w) = inl w
behind_waiting l (done (r, m)) (inr f) = inr (omega (arith, f, failures-append l m))
behind_waiting l null k = tt
behind_waiting l abort k = tt
behind_waiting l stuck k = tt

IsKept-behind :
    (old : Resolver) (x : Step) (k : Resolver → Step)
    → ((r : Resolver) → IsWaiting r → IsKept (k r))
    → IsGood old x
    → IsKept (x >>= λ s. k s.0 >>= λ t. done (t.0, s.1 ++ t.1))
IsKept-behind old (done (r, l)) k h (n, inl w) = behind_waiting l (k r) (h r w)
IsKept-behind old (done (r, l)) k h (n, inr f) = behind_failure l (k r) f
IsKept-behind old null k h g = tt
IsKept-behind old abort k h g = tt
IsKept-behind old stuck k h g = tt

run-IsKept : (cs : List Call) (r : Resolver) → IsWaiting r → IsKept (run cs r)
unfolding run call time_event_callback finish_failure
run-IsKept [] r w = inl w
run-IsKept (says made b flags e ∷ cs) r w =
    IsKept-behind r (record_browser_callback made b flags e r) (run cs) (run-IsKept cs)
      (record_browser_callback-IsGood made b flags e r w)
run-IsKept (times_out ∷ cs) r w =
    behind_failure (failed (all_flags r) ∷ []) (run cs (record r { time_event = false }))
      (omega arith)

-- A resolver that was made, whatever it is told and in whatever order, has called back a failure, or its
-- timer runs exactly if it has not all records.
pub run-prepared :
    (interface : ℤ) (protocol address_protocol : Protocol) (no_txt no_address : Bool)
    (cs : List Call) {r : Resolver} {l : List Action}
    → run cs (prepared interface protocol address_protocol no_txt no_address) ≡ done (r, l)
    → IsWaiting r ⊎ (0 < failures l)
unfolding prepared complete
run-prepared interface protocol address_protocol no_txt no_address cs e =
    subst IsKept e
      (run-IsKept cs (prepared interface protocol address_protocol no_txt no_address) refl)
