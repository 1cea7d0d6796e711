-- ===== src/Core/Resolver.antt =====
-- avahi-core/resolve-service.c: a resolver gathers the SRV, TXT and address records of a service from
-- the record browsers, and calls back when it has all of them, or when that takes too long. The
-- constructor of a record's data stands for its type. What is asked of the rest of the engine is a list
-- of actions, in their order.
pub mod Events
pub mod Complete
pub mod Gone
pub mod Runs
pub mod Total
use nvmrdisplay.Prelude.{
  ℕ, Bool, true, false, ◌&&◌, ◌||◌, not, Option, none, some, List, [], ◌∷◌, ◌++◌,
}
use nvmrdisplay.Prelude.{if◌then◌else◌, bit_or}
use nvmrdisplay.Prelude.Int.{ℤ, pos, ltb_ℤ, pos_part}
use nvmrdisplay.Prelude.{◌==◌}
use nvmrdisplay.Prelude.Outcome.{Outcome, done, abort, ◌>>=◌}
use nvmrdisplay.Common.StringList.{StringList}
use nvmrdisplay.Core.Records.{
  RecordData, srv, ptr, hinfo, txt, a, aaaa, generic, Record, record_equal_no_ttl,
}

-- `AvahiProtocol`
pub data Protocol : Type 0 where
  unspec inet inet6 : Protocol

-- The four record browsers.
pub data Browser : Type 0 where
  of_srv of_txt of_a of_aaaa : Browser

-- `AvahiSServiceResolver`: of the browsers and of the timer, whether they are there; `no_txt` and
-- `no_address` are the bits of `user_flags`.
pub record Resolver : Type 0 where
  pub address_protocol : Protocol
  pub interface : ℤ
  pub protocol : Protocol
  pub browser_srv : Bool
  pub browser_txt : Bool
  pub browser_a : Bool
  pub browser_aaaa : Bool
  pub srv_record : Option Record
  pub txt_record : Option Record
  pub address_record : Option Record
  pub srv_flags : ℕ
  pub txt_flags : ℕ
  pub address_flags : ℕ
  pub no_txt : Bool
  pub no_address : Bool
  pub time_event : Bool

-- `found` has the record of the service, of its address and of its strings, for the call-back.
pub data Action : Type 0 where
  start_browser : Browser → List ℕ → Action
  restart_browser : Browser → Action
  free_browser : Browser → Action
  found : Record → Option Record → Option Record → ℕ → Action
  failed : ℕ → Action

abbrev pub Step : Type 0
Step = Outcome (Resolver × List Action)

abbrev pub is_some {ℓ} : {A : Type ℓ} → Option A → Bool
is_some none = false
is_some (some x) = true

abbrev pub all_flags : Resolver → ℕ
all_flags r = bit_or (bit_or r.txt_flags r.srv_flags) r.address_flags

-- `finish` with AVAHI_RESOLVER_FAILURE.
pub finish_failure : Resolver → Step
finish_failure r = done (record r { time_event = false }, failed (all_flags r) ∷ [])

-- `finish` with AVAHI_RESOLVER_FOUND, whose assert needs the SRV record.
unfoldable pub finish_found : Resolver → Step
finish_found r = elim r.srv_record [
  | none ↦ abort
  | some s ↦
      done
        (record r { time_event = false }, found s r.address_record r.txt_record (all_flags r) ∷ [])
]

-- The condition for a call-back.
unfoldable pub complete : Resolver → Bool
complete r =
    is_some r.srv_record
    && (is_some r.txt_record || r.no_txt)
    && (is_some r.address_record || r.no_address)

-- `start_timeout`
abbrev pub start_timeout : Resolver → Resolver
start_timeout r = record r { time_event = true }

abbrev pub free_if : Bool → Browser → List Action
free_if there b = if there then free_browser b ∷ [] else []

abbrev pub restart_if : Bool → Browser → List Action
restart_if there b = if there then restart_browser b ∷ [] else []

abbrev pub asks_inet : Protocol → Bool
asks_inet unspec = true
asks_inet inet = true
asks_inet inet6 = false

abbrev pub asks_inet6 : Protocol → Bool
asks_inet6 unspec = true
asks_inet6 inet = false
asks_inet6 inet6 = true

-- `changed` and the test behind the switch: the actions so far come first.
unfoldable pub call_if_complete : Bool → List Action → Resolver → Step
unfolding complete finish_found
call_if_complete changed before r =
    if changed && complete r
    then (finish_found r >>= λ s. done (s.0, before ++ s.1))
    else done (r, before)

-- The address browsers for the host of a new SRV record; `made` says whether one could be made.
unfoldable pub new_srv : (Browser → Bool) → List ℕ → Record → Resolver → Step
unfolding call_if_complete
new_srv made host s r =
    let ask_a = not r.no_address && asks_inet r.address_protocol in
    let ask_aaaa = not r.no_address && asks_inet6 r.address_protocol in
    let started_a = ask_a && made of_a in
    let started_aaaa = ask_aaaa && made of_aaaa in
    call_if_complete true
      (free_if r.browser_a of_a
        ++ free_if r.browser_aaaa of_aaaa
        ++ (if started_a then start_browser of_a host ∷ [] else [])
        ++ (if started_aaaa then start_browser of_aaaa host ∷ [] else []))
      (record r { srv_record = some s; browser_a = started_a; browser_aaaa = started_aaaa })

-- A new address record.
unfoldable pub new_address : Record → Resolver → Step
unfolding call_if_complete
new_address record' r =
    if r.no_address
    then abort
    else if is_some r.address_record
    then done (r, [])
    else call_if_complete true [] (record r { address_record = some record' })

-- The switch of AVAHI_BROWSER_NEW over the type of the record.
unfoldable pub new_record : (Browser → Bool) → RecordData → Record → Resolver → Step
unfolding new_srv new_address call_if_complete
new_record made (srv priority weight port host) n r =
    if is_some r.srv_record then done (r, []) else new_srv made host n r
new_record made (txt l) n r =
    if r.no_txt
    then abort
    else if is_some r.txt_record
    then done (r, [])
    else call_if_complete true [] (record r { txt_record = some n })
new_record made (a b) n r = new_address n r
new_record made (aaaa b) n r = new_address n r
new_record made (ptr name) n r = abort
new_record made (hinfo cpu os) n r = abort
new_record made (generic b) n r = abort
