-- ===== src/Core/Resolver/Gone.antt =====
-- The steps of a resolver that take a record away, or lose the browsers.
use nvmrdisplay.Prelude.{◌≡◌, refl, arith, Bool, false, ◌&&◌, none}
use nvmrdisplay.Prelude.{[], ◌∷◌, ◌++◌, if_rule, inr}
use nvmrdisplay.Prelude.Outcome.{Outcome, done, null, abort, stuck, ◌>>=◌}
use nvmrdisplay.Core.Records.{RecordData, srv, ptr, hinfo, txt, a, aaaa, generic, Record}
use nvmrdisplay.Core.Resolver.{
  Browser, of_srv, of_txt, of_a, of_aaaa, Resolver, restart_browser, free_browser, Step,
  finish_failure, complete, start_timeout, free_if, restart_if,
}
use nvmrdisplay.Core.Resolver.Events.{
  equals, remove_address, remove_record, all_gone, browser_failure,
}
use nvmrdisplay.Core.Resolver.Complete.{IsWaiting, IsGood, unchanged, taken}

bind-IsGood :
    (old : Resolver) (x : Outcome Bool) (f : Bool → Step)
    → ((e : Bool) → IsGood old (f e))
    → IsGood old (x >>= f)
bind-IsGood old (done e) f h = h e
bind-IsGood old null f h = tt
bind-IsGood old abort f h = tt
bind-IsGood old stuck f h = tt

remove_address-IsGood :
    (old r : Resolver) (same same_key : Bool) (gone : Record)
    → complete r ≡ complete old
    → IsWaiting r
    → IsGood old (remove_address same same_key gone r)
unfolding remove_address complete
remove_address-IsGood old r same same_key gone eq w =
    if_rule (IsGood old) r.no_address (λ t. tt)
      (λ f. bind-IsGood old (equals same same_key gone r.address_record) _ (λ e.
        if_rule (IsGood old) e
          (λ t.
            taken old (start_timeout (record r { address_record = none }))
              (restart_if r.browser_aaaa of_aaaa ++ restart_if r.browser_a of_a) (ground (arith, f))
              refl (ground arith))
          (λ g. unchanged old r [] eq w refl)))

pub remove_record-IsGood :
    (old r : Resolver) (same same_key : Bool) (d : RecordData) (gone : Record)
    → complete r ≡ complete old
    → IsWaiting r
    → IsGood old (remove_record same same_key d gone r)
unfolding remove_record complete
remove_record-IsGood old r same same_key (srv priority weight port host) gone eq w =
    bind-IsGood old (equals same same_key gone r.srv_record) _ (λ e.
      if_rule (IsGood old) e
        (λ t.
          taken old
            (start_timeout
              (record r { srv_record = none; browser_a = false; browser_aaaa = false }))
            (free_if r.browser_a of_a
              ++ free_if r.browser_aaaa of_aaaa
              ++ (restart_browser of_srv ∷ []))
            refl refl (ground arith))
        (λ g. unchanged old r [] eq w refl))
remove_record-IsGood old r same same_key (txt l) gone eq w =
    if_rule (IsGood old) r.no_txt (λ t. tt)
      (λ f. bind-IsGood old (equals same same_key gone r.txt_record) _ (λ e.
        if_rule (IsGood old) e
          (λ t.
            taken old (start_timeout (record r { txt_record = none })) (restart_browser of_txt ∷ [])
              (ground (arith, f)) refl refl)
          (λ g. unchanged old r [] eq w refl)))
remove_record-IsGood old r same same_key (a b) gone eq w =
    remove_address-IsGood old r same same_key gone eq w
remove_record-IsGood old r same same_key (aaaa b) gone eq w =
    remove_address-IsGood old r same same_key gone eq w
remove_record-IsGood old r same same_key (ptr name) gone eq w = tt
remove_record-IsGood old r same same_key (hinfo cpu os) gone eq w = tt
remove_record-IsGood old r same same_key (generic b) gone eq w = tt

all_gone-IsGood : (old r : Resolver) → complete r ≡ complete old → IsGood old (all_gone r)
unfolding all_gone finish_failure complete
all_gone-IsGood old r eq = (ground (arith, eq), inr (ground arith))

pub browser_failure-IsGood :
    (old r : Resolver) (b : Browser)
    → complete r ≡ complete old
    → IsWaiting r
    → IsGood old (browser_failure b r)
unfolding browser_failure complete
browser_failure-IsGood old r of_srv eq w = all_gone-IsGood old r eq
browser_failure-IsGood old r of_txt eq w = all_gone-IsGood old r eq
browser_failure-IsGood old r of_a eq w =
    if_rule (IsGood old) (r.browser_a && r.browser_aaaa)
      (λ t. unchanged old (record r { browser_a = false }) (free_browser of_a ∷ []) eq w refl)
      (λ f. all_gone-IsGood old r eq)
browser_failure-IsGood old r of_aaaa eq w =
    if_rule (IsGood old) (r.browser_a && r.browser_aaaa)
      (λ t. unchanged old (record r { browser_aaaa = false }) (free_browser of_aaaa ∷ []) eq w refl)
      (λ f. all_gone-IsGood old r eq)
