-- ===== src/Core/Resolver/Complete.antt =====
-- When the resolver calls back, and that it never waits without a timer.
use nvmrdisplay.Prelude.{
  ℕ, ◌+◌, ◌<◌, ◌≡◌, refl, ap, sym, ◌∙◌, arith, Bool, true, false, ◌&&◌, not, Option, none, some,
}
use nvmrdisplay.Prelude.{List, [], ◌∷◌, ◌++◌, if◌then◌else◌, if_rule, ◌⊎◌, inl}
use nvmrdisplay.Prelude.Outcome.{done, null, abort, stuck, ◌>>=◌}
use nvmrdisplay.Core.Records.{RecordData, srv, ptr, hinfo, txt, a, aaaa, generic, Record}
use nvmrdisplay.Core.Resolver.{
  Browser, of_a, of_aaaa, Resolver, Action, start_browser, restart_browser, free_browser, found,
  failed, Step, is_some, all_flags, finish_found, complete, free_if, asks_inet, asks_inet6,
  call_if_complete, new_srv, new_address, new_record,
}

-- The call-backs that a service was found, and that it failed.
abbrev pub founds : List Action → ℕ
founds [] = 0
founds (found s address t flags ∷ l) = founds l + 1
founds (failed flags ∷ l) = founds l
founds (start_browser b host ∷ l) = founds l
founds (restart_browser b ∷ l) = founds l
founds (free_browser b ∷ l) = founds l

abbrev pub failures : List Action → ℕ
failures [] = 0
failures (found s address t flags ∷ l) = failures l
failures (failed flags ∷ l) = failures l + 1
failures (start_browser b host ∷ l) = failures l
failures (restart_browser b ∷ l) = failures l
failures (free_browser b ∷ l) = failures l

-- The timer runs as long as records are missing.
abbrev pub IsWaiting : Resolver → Type 0
IsWaiting r = r.time_event ≡ not (complete r)

-- A step is good, if it has a result.
abbrev pub IsGood : Resolver → Step → Type 0
IsGood old (done (r, l)) =
    (founds l ≡ (if complete r && not (complete old) then 1 else 0))
    × (IsWaiting r ⊎ (0 < failures l))
IsGood old null = Unit
IsGood old abort = Unit
IsGood old stuck = Unit

pub founds-append : (l m : List Action) → founds (l ++ m) ≡ founds l + founds m
founds-append [] m = omega arith
founds-append (found s address t flags ∷ l) m = omega (arith, founds-append l m)
founds-append (failed flags ∷ l) m = founds-append l m
founds-append (start_browser b host ∷ l) m = founds-append l m
founds-append (restart_browser b ∷ l) m = founds-append l m
founds-append (free_browser b ∷ l) m = founds-append l m

pub failures-append : (l m : List Action) → failures (l ++ m) ≡ failures l + failures m
failures-append [] m = omega arith
failures-append (failed flags ∷ l) m = omega (arith, failures-append l m)
failures-append (found s address t flags ∷ l) m = failures-append l m
failures-append (start_browser b host ∷ l) m = failures-append l m
failures-append (restart_browser b ∷ l) m = failures-append l m
failures-append (free_browser b ∷ l) m = failures-append l m

-- A step that changes no record.
pub unchanged :
    (old r : Resolver) (l : List Action)
    → complete r ≡ complete old
    → IsWaiting r
    → founds l ≡ 0
    → IsGood old (done (r, l))
unchanged old r l same w n = (ground (arith, same, n), inl w)

-- A step that takes a record away.
pub taken :
    (old r : Resolver) (l : List Action)
    → complete r ≡ false
    → r.time_event ≡ true
    → founds l ≡ 0
    → IsGood old (done (r, l))
taken old r l gone timer n = (ground (arith, gone, n), inl (timer ∙ ap not (sym gone)))

found-IsGood :
    (old r : Resolver) (l : List Action) (o : Option Record)
    → complete old ≡ false
    → complete r ≡ true
    → founds l ≡ 0
    → IsGood old (
        (elim o as (λ o. Step) [
          | none ↦ abort
          | some s ↦ done (
            record r { time_event = false },
            found s r.address_record r.txt_record (all_flags r) ∷ [],
          )
        ])
        >>= λ s. done (s.0, l ++ s.1))
unfolding complete
found-IsGood old r l none before now n = tt
found-IsGood old r l (some s) before now n =
    let more = founds-append l (found s r.address_record r.txt_record (all_flags r) ∷ []) in
    (more ∙ ground (arith, before, now, n), inl (ap not (sym now)))

call_if_complete-IsGood :
    (old r : Resolver) (l : List Action)
    → complete old ≡ false
    → r.time_event ≡ true
    → founds l ≡ 0
    → IsGood old (call_if_complete true l r)
unfolding call_if_complete finish_found
call_if_complete-IsGood old r l before timer n =
    if_rule (IsGood old) (true && complete r)
      (λ t. found-IsGood old r l r.srv_record before (ground (arith, t)) n)
      (λ f. taken old r l (ground (arith, f)) timer n)

new_address-IsGood :
    (old r : Resolver) (n : Record)
    → complete r ≡ complete old
    → IsWaiting r
    → IsGood old (new_address n r)
unfolding new_address complete
new_address-IsGood old r n same w =
    if_rule (IsGood old) r.no_address (λ t. tt)
      (λ f.
        if_rule (IsGood old) (is_some r.address_record) (λ t. unchanged old r [] same w refl)
          (λ g.
            call_if_complete-IsGood old (record r { address_record = some n }) []
              (ground (arith, same, f, g)) (ground (arith, w, f, g)) refl))

no_founds :
    (x y s t : Bool) (host : List ℕ)
    → founds (
        free_if x of_a
        ++ free_if y of_aaaa
        ++ (if s then start_browser of_a host ∷ [] else [])
        ++ (if t then start_browser of_aaaa host ∷ [] else []))
      ≡ 0
no_founds x y s t host = ground arith

new_srv-IsGood :
    (old r : Resolver) (made : Browser → Bool) (host : List ℕ) (n : Record)
    → complete old ≡ false
    → r.time_event ≡ true
    → IsGood old (new_srv made host n r)
unfolding new_srv
new_srv-IsGood old r made host n before timer =
    let started_a = not r.no_address && asks_inet r.address_protocol && made of_a in
    let started_aaaa = not r.no_address && asks_inet6 r.address_protocol && made of_aaaa in
    call_if_complete-IsGood old
      (record r { srv_record = some n; browser_a = started_a; browser_aaaa = started_aaaa })
      (free_if r.browser_a of_a
        ++ free_if r.browser_aaaa of_aaaa
        ++ (if started_a then start_browser of_a host ∷ [] else [])
        ++ (if started_aaaa then start_browser of_aaaa host ∷ [] else []))
      before timer (no_founds r.browser_a r.browser_aaaa started_a started_aaaa host)

pub new_record-IsGood :
    (old r : Resolver) (made : Browser → Bool) (d : RecordData) (n : Record)
    → complete r ≡ complete old
    → IsWaiting r
    → IsGood old (new_record made d n r)
unfolding new_record complete
new_record-IsGood old r made (srv priority weight port host) n same w =
    if_rule (IsGood old) (is_some r.srv_record) (λ t. unchanged old r [] same w refl)
      (λ f. new_srv-IsGood old r made host n (ground (arith, same, f)) (ground (arith, w, f)))
new_record-IsGood old r made (txt l) n same w =
    if_rule (IsGood old) r.no_txt (λ t. tt)
      (λ f.
        if_rule (IsGood old) (is_some r.txt_record) (λ t. unchanged old r [] same w refl)
          (λ g.
            call_if_complete-IsGood old (record r { txt_record = some n }) []
              (ground (arith, same, f, g)) (ground (arith, w, f, g)) refl))
new_record-IsGood old r made (a b) n same w = new_address-IsGood old r n same w
new_record-IsGood old r made (aaaa b) n same w = new_address-IsGood old r n same w
new_record-IsGood old r made (ptr name) n same w = tt
new_record-IsGood old r made (hinfo cpu os) n same w = tt
new_record-IsGood old r made (generic b) n same w = tt
