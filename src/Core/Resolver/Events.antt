-- ===== src/Core/Resolver/Events.antt =====
-- avahi-core/resolve-service.c: what the record browsers and the timer tell a resolver.
use nvmrdisplay.Prelude.{
  ℕ, Bool, true, false, ◌&&◌, ◌||◌, not, ◌==◌, Option, none, some, [], ◌∷◌, ◌++◌, if◌then◌else◌,
}
use nvmrdisplay.Prelude.Int.{ℤ, pos, ltb_ℤ, pos_part}
use nvmrdisplay.Prelude.Outcome.{Outcome, done, abort, ◌>>=◌}
use nvmrdisplay.Core.Records.{
  RecordData, srv, ptr, hinfo, txt, a, aaaa, generic, Record, record_equal_no_ttl,
}
use nvmrdisplay.Core.Resolver.{
  Protocol, unspec, inet, inet6, Browser, of_srv, of_txt, of_a, of_aaaa, Resolver, restart_browser,
  free_browser, Step, finish_failure, start_timeout, free_if, restart_if, new_record,
}

-- Whether a record is there and equal; the flags say whether the pointers of the two records, and of
-- their keys, are one.
unfoldable pub equals : Bool → Bool → Record → Option Record → Outcome Bool
equals same same_key gone none = done false
equals same same_key gone (some held) = record_equal_no_ttl same same_key gone held

-- The address record goes.
unfoldable pub remove_address : Bool → Bool → Record → Resolver → Step
unfolding equals
remove_address same same_key gone r =
    if r.no_address
    then abort
    else (equals same same_key gone r.address_record >>= λ e.
        if e
        then done (
          start_timeout (record r { address_record = none }),
          restart_if r.browser_aaaa of_aaaa ++ restart_if r.browser_a of_a,
        )
        else done (r, []))

-- The switch of AVAHI_BROWSER_REMOVE over the type of the record.
unfoldable pub remove_record : Bool → Bool → RecordData → Record → Resolver → Step
unfolding equals remove_address
remove_record same same_key (srv priority weight port host) gone r =
    (equals same same_key gone r.srv_record >>= λ e.
    if e
    then done (
      start_timeout (record r { srv_record = none; browser_a = false; browser_aaaa = false }),
      free_if r.browser_a of_a ++ free_if r.browser_aaaa of_aaaa ++ (restart_browser of_srv ∷ []),
    )
    else done (r, []))
remove_record same same_key (txt l) gone r =
    if r.no_txt
    then abort
    else (equals same same_key gone r.txt_record >>= λ e.
        if e
        then done (start_timeout (record r { txt_record = none }), restart_browser of_txt ∷ [])
        else done (r, []))
remove_record same same_key (a b) gone r = remove_address same same_key gone r
remove_record same same_key (aaaa b) gone r = remove_address same same_key gone r
remove_record same same_key (ptr name) gone r = abort
remove_record same same_key (hinfo cpu os) gone r = abort
remove_record same same_key (generic b) gone r = abort

-- The case of AVAHI_BROWSER_FAILURE: every browser is freed.
unfoldable pub all_gone : Resolver → Step
unfolding finish_failure
all_gone r =
    (finish_failure (record r {
      browser_srv = false;
      browser_txt = false;
      browser_a = false;
      browser_aaaa = false;
    })
      >>= λ s. done (
        s.0,
        free_if r.browser_srv of_srv
            ++ free_if r.browser_txt of_txt
            ++ free_if r.browser_a of_a
            ++ free_if r.browser_aaaa of_aaaa
            ++ s.1,
      ))

-- The same, where of two address browsers one may fail.
unfoldable pub browser_failure : Browser → Resolver → Step
unfolding all_gone
browser_failure of_srv r = all_gone r
browser_failure of_txt r = all_gone r
browser_failure of_a r =
    if r.browser_a && r.browser_aaaa
    then done (record r { browser_a = false }, free_browser of_a ∷ [])
    else all_gone r
browser_failure of_aaaa r =
    if r.browser_a && r.browser_aaaa
    then done (record r { browser_aaaa = false }, free_browser of_aaaa ∷ [])
    else all_gone r

-- What a record browser says.
pub data Event : Type 0 where
  new : ℤ → Protocol → Record → Event
  remove : Bool → Bool → Record → Event
  cache_exhausted all_for_now failure : Event

-- The flags that each record came with.
abbrev pub set_flags : Browser → ℕ → Resolver → Resolver
set_flags of_srv flags r = record r { srv_flags = flags }
set_flags of_txt flags r = record r { txt_flags = flags }
set_flags of_a flags r = record r { address_flags = flags }
set_flags of_aaaa flags r = record r { address_flags = flags }

-- Both are given, and they differ.
abbrev pub other_interface : ℤ → ℤ → Bool
other_interface i j = ltb_ℤ (pos 0) i && ltb_ℤ (pos 0) j && not (pos_part j == pos_part i)

abbrev pub other_protocol : Protocol → Protocol → Bool
other_protocol unspec q = false
other_protocol inet inet6 = true
other_protocol inet unspec = false
other_protocol inet inet = false
other_protocol inet6 inet = true
other_protocol inet6 unspec = false
other_protocol inet6 inet6 = false

abbrev pub given_protocol : Protocol → Protocol → Protocol
given_protocol unspec q = q
given_protocol inet q = inet
given_protocol inet6 q = inet6

-- `record_browser_callback`, called by the browser `b`, which is there.
unfoldable pub record_browser_callback : (Browser → Bool) → Browser → ℕ → Event → Resolver → Step
unfolding new_record remove_record browser_failure
record_browser_callback made b flags (new interface protocol n) r =
    let s = set_flags b flags r in
    if other_interface s.interface interface || other_protocol s.protocol protocol
    then done (s, [])
    else new_record made n.rdata n (record s {
      interface = if ltb_ℤ (pos 0) s.interface then s.interface else interface;
      protocol = given_protocol s.protocol protocol;
    })
record_browser_callback made b flags (remove same same_key gone) r =
    remove_record same same_key gone.rdata gone (set_flags b flags r)
record_browser_callback made b flags cache_exhausted r = done (set_flags b flags r, [])
record_browser_callback made b flags all_for_now r = done (set_flags b flags r, [])
record_browser_callback made b flags failure r = browser_failure b (set_flags b flags r)

-- `time_event_callback`
unfoldable pub time_event_callback : Resolver → Step
unfolding finish_failure
time_event_callback r = finish_failure r

-- What `avahi_s_service_resolver_prepare` makes, where it makes one.
unfoldable pub prepared : ℤ → Protocol → Protocol → Bool → Bool → Resolver
prepared interface protocol address_protocol no_txt no_address = start_timeout (record {
  address_protocol = address_protocol;
  interface = interface;
  protocol = protocol;
  browser_srv = true;
  browser_txt = not no_txt;
  browser_a = false;
  browser_aaaa = false;
  srv_record = none;
  txt_record = none;
  address_record = none;
  srv_flags = 0;
  txt_flags = 0;
  address_flags = 0;
  no_txt = no_txt;
  no_address = no_address;
  time_event = false;
})
