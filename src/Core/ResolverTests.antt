-- ===== src/Core/ResolverTests.antt =====
-- A resolver that is told of the SRV record of a service.
use nvmrdisplay.Prelude.{
  ◌<◌, ◌≡◌, refl, Bool, true, false, some, [], ◌∷◌, ◌⊎◌, not, ◌&&◌, if◌then◌else◌,
}
use nvmrdisplay.Prelude.Int.{pos}
use nvmrdisplay.Prelude.Outcome.{done, abort, ◌>>=◌}
use nvmrdisplay.Core.Records.{Record, srv, a, txt, record_equal_no_ttl}
use nvmrdisplay.Core.Resolver.{
  inet, Browser, of_srv, of_a, of_txt, Resolver, start_browser, restart_browser, free_browser,
  found, finish_found, new_address, complete, call_if_complete, new_srv, new_record,
}
use nvmrdisplay.Core.Resolver.Events.{
  new, remove, equals, remove_record, record_browser_callback, prepared,
}
use nvmrdisplay.Core.Resolver.Complete.{founds, failures, IsWaiting}
use nvmrdisplay.Core.Resolver.Total.{Takes, Elsewhere, record_browser_callback_lem}
use nvmrdisplay.Core.Resolver.Runs.{says, run, call, founds-record_browser_callback, run-prepared}

abbrev srv_of_h : Record
srv_of_h = record {
  key = record { name = 115 ∷ []; clazz = 1; kind = 33 };
  ttl = 120;
  rdata = srv 0 0 80 (104 ∷ []);
}

abbrev start : Resolver
start = prepared (pos 1) inet inet false false

abbrev can_make : Browser → Bool
can_make b = true

abbrev behind_srv : Resolver
behind_srv = record start { srv_record = some srv_of_h; browser_a = true }

start-IsWaiting : IsWaiting start
unfolding prepared complete
start-IsWaiting = refl

told :
    record_browser_callback can_make of_srv 0 (new (pos 1) inet srv_of_h) start
    ≡ done (behind_srv, start_browser of_a (104 ∷ []) ∷ [])
unfolding prepared record_browser_callback new_record new_srv call_if_complete complete
told = refl

founds-record_browser_callback_example :
    (founds (start_browser of_a (104 ∷ []) ∷ [])
      ≡ (if complete behind_srv && not (complete start) then 1 else 0))
    × (IsWaiting behind_srv ⊎ (0 < failures (start_browser of_a (104 ∷ []) ∷ [])))
founds-record_browser_callback_example =
    founds-record_browser_callback can_make of_srv 0 (new (pos 1) inet srv_of_h) start
      start-IsWaiting told

record_browser_callback_lem_example :
    (Elsewhere (pos 1) inet (pos 1) inet
      × (record_browser_callback can_make of_srv 0 (new (pos 1) inet srv_of_h) start
          ≡ done (start, [])))
    ⊎ (¬ (Elsewhere (pos 1) inet (pos 1) inet)
        × (((true ≡ true)
              × Takes start srv_of_h.rdata srv_of_h
                  (record_browser_callback can_make of_srv 0 (new (pos 1) inet srv_of_h) start))
            ⊎ ((true ≡ false)
                × (record_browser_callback can_make of_srv 0 (new (pos 1) inet srv_of_h) start
                    ≡ abort))))
unfolding prepared
record_browser_callback_lem_example =
    record_browser_callback_lem can_make of_srv 0 (pos 1) inet srv_of_h start

abbrev srv_of_i : Record
srv_of_i = record srv_of_h { rdata = srv 0 0 81 (105 ∷ []) }

abbrev address_of_h : Record
address_of_h = record srv_of_h { rdata = a (10 ∷ 0 ∷ 0 ∷ 1 ∷ []) }

abbrev texts : Record
texts = record srv_of_h { rdata = txt [] }

-- The SRV record goes and comes back with another host: the address of the first host is reported.
stale_address :
    (run
        (says can_make of_srv 0 (new (pos 1) inet srv_of_h)
          ∷ says can_make of_a 0 (new (pos 1) inet address_of_h)
          ∷ says can_make of_srv 0 (remove true true srv_of_h)
          ∷ says can_make of_srv 0 (new (pos 1) inet srv_of_i)
          ∷ says can_make of_txt 0 (new (pos 1) inet texts)
          ∷ [])
        start
      >>= λ s. done s.1)
    ≡ done (
        start_browser of_a (104 ∷ [])
        ∷ free_browser of_a
        ∷ restart_browser of_srv
        ∷ start_browser of_a (105 ∷ [])
        ∷ found srv_of_i (some address_of_h) (some texts) 0
        ∷ [])
unfolding run call prepared record_browser_callback new_record new_srv new_address call_if_complete
    complete finish_found remove_record equals record_equal_no_ttl
stale_address = refl

told_run :
    run (says can_make of_srv 0 (new (pos 1) inet srv_of_h) ∷ []) start
    ≡ done (behind_srv, start_browser of_a (104 ∷ []) ∷ [])
unfolding run call prepared record_browser_callback new_record new_srv call_if_complete complete
told_run = refl

run-prepared_example : IsWaiting behind_srv ⊎ (0 < failures (start_browser of_a (104 ∷ []) ∷ []))
run-prepared_example =
    run-prepared (pos 1) inet inet false false
      (says can_make of_srv 0 (new (pos 1) inet srv_of_h) ∷ []) told_run
