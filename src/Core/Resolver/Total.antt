-- ===== src/Core/Resolver/Total.antt =====
-- What a resolver does with a new record that a browser tells it of.
use nvmrdisplay.Prelude.{
  ℕ, zero, suc, ◌≡◌, ◌≢◌, ◌⊎◌, ◌↔◌, inl, inr, Bool-cases, ==_false, ap, refl, arith, Bool, true,
  false, ◌&&◌, ◌||◌, not, Option, none, some,
}
use nvmrdisplay.Prelude.{List, [], ◌∷◌, ◌++◌, if◌then◌else◌, if_rule}
use mathlib.Core.Path.{subst}
use nvmrdisplay.Prelude.Int.{ℤ, pos, negsuc, ltb_ℤ, pos_part}
use nvmrdisplay.Prelude.Outcome.{done, abort, ◌>>=◌}
use nvmrdisplay.Core.Records.{RecordData, srv, ptr, hinfo, txt, a, aaaa, generic, Record}
use nvmrdisplay.Core.Resolver.{
  Protocol, unspec, inet, inet6, Browser, of_a, of_aaaa, Resolver, Action, Step, is_some,
  finish_found, complete, call_if_complete, new_srv, new_address, new_record, all_flags, found,
  free_if, asks_inet, asks_inet6, start_browser,
}
use nvmrdisplay.Core.Resolver.Events.{
  new, set_flags, other_interface, other_protocol, given_protocol, record_browser_callback,
}

-- What a resolver holds: the records of the service, of its strings and of its address.
abbrev pub Holds : Option Record → Option Record → Option Record → Resolver → Type 0
Holds s t address r = (r.srv_record ≡ s) × (r.txt_record ≡ t) × (r.address_record ≡ address)

-- The call has a result, with a resolver that holds these records.
abbrev pub Leaves : Option Record → Option Record → Option Record → Step → Type 0
Leaves s t address x = (y : Resolver × List Action) × (x ≡ done y) × Holds s t address y.0

-- Records that the flags want: of the service, and of its strings and its address.
abbrev pub wanted : Resolver → RecordData → Bool
wanted r (srv priority weight port host) = true
wanted r (txt l) = not r.no_txt
wanted r (a b) = not r.no_address
wanted r (aaaa b) = not r.no_address
wanted r (ptr name) = false
wanted r (hinfo cpu os) = false
wanted r (generic b) = false

-- The first record of a kind stays.
abbrev pub first : Option Record → Record → Option Record
first none n = some n
first (some m) n = some m

-- The new record is held, if none of its kind was.
abbrev pub Takes : Resolver → RecordData → Record → Step → Type 0
Takes r (srv priority weight port host) n =
    Leaves (first r.srv_record n) r.txt_record r.address_record
Takes r (txt l) n = Leaves r.srv_record (first r.txt_record n) r.address_record
Takes r _ n = Leaves r.srv_record r.txt_record (first r.address_record n)

-- Another interface than the resolver's, or another protocol, both of them known.
abbrev pub Elsewhere : ℤ → Protocol → ℤ → Protocol → Type 0
Elsewhere i p j q =
    ((m k : ℕ) × (i ≡ pos (suc m)) × (j ≡ pos (suc k)) × (m ≢ k))
    ⊎ ((p ≢ unspec) × (q ≢ unspec) × (p ≢ q))

found-Leaves :
    (r : Resolver) (l : List Action) (o : Option Record)
    → r.srv_record ≡ o
    → is_some o ≡ true
    → Leaves r.srv_record r.txt_record r.address_record (
        (elim o as (λ o. Step) [
          | none ↦ abort
          | some s ↦ done (
            record r { time_event = false },
            found s r.address_record r.txt_record (all_flags r) ∷ [],
          )
        ])
        >>= λ s. done (s.0, l ++ s.1))
found-Leaves r l none e h = absurd (cc)
found-Leaves r l (some s) e h = (_, refl, (refl, refl, refl))

call_if_complete-Leaves :
    (r : Resolver) (l : List Action)
    → Leaves r.srv_record r.txt_record r.address_record (call_if_complete true l r)
unfolding call_if_complete finish_found complete
call_if_complete-Leaves r l =
    if_rule (Leaves r.srv_record r.txt_record r.address_record) (true && complete r)
      (λ t. found-Leaves r l r.srv_record refl (ground (arith, t)))
      (λ f. (_, refl, (refl, refl, refl)))

first_some : (o : Option Record) (n : Record) → is_some o ≡ true → o ≡ first o n
first_some none n h = cc
first_some (some m) n h = refl

first_none : (o : Option Record) (n : Record) → is_some o ≡ false → some n ≡ first o n
first_none none n h = refl
first_none (some m) n h = cc

new_address-Leaves :
    (n : Record) (r : Resolver)
    → r.no_address ≡ false
    → Leaves r.srv_record r.txt_record (first r.address_record n) (new_address n r)
unfolding new_address
new_address-Leaves n r h =
    let P = Leaves r.srv_record r.txt_record (first r.address_record n) in
    if_rule P r.no_address (λ t. absurd (cc))
      (λ g.
        if_rule P (is_some r.address_record)
          (λ t. (_, refl, (refl, refl, first_some r.address_record n t)))
          (λ f.
            subst
              (λ o.
                Leaves r.srv_record r.txt_record o
                  (call_if_complete true [] (record r { address_record = some n })))
              (first_none r.address_record n f)
              (call_if_complete-Leaves (record r { address_record = some n }) [])))

new_srv-Leaves :
    (made : Browser → Bool) (host : List ℕ) (n : Record) (r : Resolver)
    → Leaves (some n) r.txt_record r.address_record (new_srv made host n r)
unfolding new_srv
new_srv-Leaves made host n r =
    let started_a = not r.no_address && asks_inet r.address_protocol && made of_a in
    let started_aaaa = not r.no_address && asks_inet6 r.address_protocol && made of_aaaa in
    call_if_complete-Leaves
      (record r { srv_record = some n; browser_a = started_a; browser_aaaa = started_aaaa })
      (free_if r.browser_a of_a
        ++ free_if r.browser_aaaa of_aaaa
        ++ (if started_a then start_browser of_a host ∷ [] else [])
        ++ (if started_aaaa then start_browser of_aaaa host ∷ [] else []))

new_record-Takes :
    (made : Browser → Bool) (d : RecordData) (n : Record) (r : Resolver)
    → wanted r d ≡ true
    → Takes r d n (new_record made d n r)
unfolding new_record
new_record-Takes made (srv priority weight port host) n r h =
    if_rule (Leaves (first r.srv_record n) r.txt_record r.address_record) (is_some r.srv_record)
      (λ t. (_, refl, (first_some r.srv_record n t, refl, refl)))
      (λ f.
        subst (λ o. Leaves o r.txt_record r.address_record (new_srv made host n r))
          (first_none r.srv_record n f) (new_srv-Leaves made host n r))
new_record-Takes made (txt l) n r h =
    let P = Leaves r.srv_record (first r.txt_record n) r.address_record in
    if_rule P r.no_txt (λ t. absurd (ground (arith, t)))
      (λ g.
        if_rule P (is_some r.txt_record) (λ t. (_, refl, (refl, first_some r.txt_record n t, refl)))
          (λ f.
            subst
              (λ o.
                Leaves r.srv_record o r.address_record
                  (call_if_complete true [] (record r { txt_record = some n })))
              (first_none r.txt_record n f)
              (call_if_complete-Leaves (record r { txt_record = some n }) [])))
new_record-Takes made (a b) n r h = new_address-Leaves n r (ground arith)
new_record-Takes made (aaaa b) n r h = new_address-Leaves n r (ground arith)
new_record-Takes made (ptr name) n r h = cc
new_record-Takes made (hinfo cpu os) n r h = cc
new_record-Takes made (generic b) n r h = cc

new_record-abort :
    (made : Browser → Bool) (d : RecordData) (n : Record) (r : Resolver)
    → wanted r d ≡ false
    → new_record made d n r ≡ abort
unfolding new_record new_address
new_record-abort made (srv priority weight port host) n r h = cc
new_record-abort made (txt l) n r h = ground arith
new_record-abort made (a b) n r h = ground arith
new_record-abort made (aaaa b) n r h = ground arith
new_record-abort made (ptr name) n r h = refl
new_record-abort made (hinfo cpu os) n r h = refl
new_record-abort made (generic b) n r h = refl

-- What of the interface and the protocol the resolver gets to know does not matter.
settled-Takes :
    (made : Browser → Bool) (d : RecordData) (n : Record) (s : Resolver) (i : ℤ) (p : Protocol)
    → wanted s d ≡ true
    → Takes s d n (new_record made d n (record s { interface = i; protocol = p }))
settled-Takes made (srv priority weight port host) n s i p h =
    new_record-Takes made (srv priority weight port host) n
      (record s { interface = i; protocol = p }) h
settled-Takes made (txt l) n s i p h =
    new_record-Takes made (txt l) n (record s { interface = i; protocol = p }) h
settled-Takes made (a b) n s i p h =
    new_record-Takes made (a b) n (record s { interface = i; protocol = p }) h
settled-Takes made (aaaa b) n s i p h =
    new_record-Takes made (aaaa b) n (record s { interface = i; protocol = p }) h
settled-Takes made (ptr name) n s i p h =
    new_record-Takes made (ptr name) n (record s { interface = i; protocol = p }) h
settled-Takes made (hinfo cpu os) n s i p h =
    new_record-Takes made (hinfo cpu os) n (record s { interface = i; protocol = p }) h
settled-Takes made (generic b) n s i p h =
    new_record-Takes made (generic b) n (record s { interface = i; protocol = p }) h

settled-abort :
    (made : Browser → Bool) (d : RecordData) (n : Record) (s : Resolver) (i : ℤ) (p : Protocol)
    → wanted s d ≡ false
    → new_record made d n (record s { interface = i; protocol = p }) ≡ abort
settled-abort made (srv priority weight port host) n s i p h =
    new_record-abort made (srv priority weight port host) n
      (record s { interface = i; protocol = p }) h
settled-abort made (txt l) n s i p h =
    new_record-abort made (txt l) n (record s { interface = i; protocol = p }) h
settled-abort made (a b) n s i p h =
    new_record-abort made (a b) n (record s { interface = i; protocol = p }) h
settled-abort made (aaaa b) n s i p h =
    new_record-abort made (aaaa b) n (record s { interface = i; protocol = p }) h
settled-abort made (ptr name) n s i p h =
    new_record-abort made (ptr name) n (record s { interface = i; protocol = p }) h
settled-abort made (hinfo cpu os) n s i p h =
    new_record-abort made (hinfo cpu os) n (record s { interface = i; protocol = p }) h
settled-abort made (generic b) n s i p h =
    new_record-abort made (generic b) n (record s { interface = i; protocol = p }) h

other_interface_iff :
    (i j : ℤ)
    → (other_interface i j ≡ true) ↔ ((m k : ℕ) × (i ≡ pos (suc m)) × (j ≡ pos (suc k)) × (m ≢ k))
other_interface_iff (negsuc m) j = ((λ e. absurd (ground arith)), (λ h. cc (h.2)))
other_interface_iff (pos zero) j = ((λ e. absurd (ground arith)), (λ h. cc (h.2)))
other_interface_iff (pos (suc m)) (negsuc k) = ((λ e. absurd (ground arith)), (λ h. cc (h.3)))
other_interface_iff (pos (suc m)) (pos zero) = ((λ e. absurd (ground arith)), (λ h. cc (h.3)))
other_interface_iff (pos (suc m)) (pos (suc k)) = (
  (λ e. (m, k, refl, refl, (λ q. absurd (ground (arith, q))))),
  (λ h.
      let n =
        ==_false (suc k) (suc m) (λ q. h.4 (omega (arith, ap pos_part h.2, ap pos_part h.3, q))) in
      ground (arith, n)),
)

other_protocol_iff :
    (p q : Protocol) → (other_protocol p q ≡ true) ↔ ((p ≢ unspec) × (q ≢ unspec) × (p ≢ q))
other_protocol_iff unspec q = ((λ e. cc), (λ h. absurd (h.0 refl)))
other_protocol_iff inet unspec = ((λ e. cc), (λ h. absurd (h.1 refl)))
other_protocol_iff inet inet = ((λ e. cc), (λ h. absurd (h.2 refl)))
other_protocol_iff inet inet6 = ((λ e. ((λ q. cc), (λ q. cc), (λ q. cc))), (λ h. refl))
other_protocol_iff inet6 unspec = ((λ e. cc), (λ h. absurd (h.1 refl)))
other_protocol_iff inet6 inet6 = ((λ e. cc), (λ h. absurd (h.2 refl)))
other_protocol_iff inet6 inet = ((λ e. ((λ q. cc), (λ q. cc), (λ q. cc))), (λ h. refl))

away_iff :
    (i : ℤ) (p : Protocol) (j : ℤ) (q : Protocol)
    → (other_interface i j || other_protocol p q ≡ true) ↔ Elsewhere i p j q
away_iff i p j q = (
  (λ e. elim (Bool-cases (other_interface i j)) [
    | inl t ↦ inl ((other_interface_iff i j).0 t)
    | inr f ↦ inr ((other_protocol_iff p q).0 (ground (arith, f)))
  ]),
  (λ h. elim h [
    | inl x ↦ rw ((other_interface_iff i j).1 x) refl
    | inr y ↦ rw ((other_protocol_iff p q).1 y) (ground arith)
  ]),
)

-- A new record that comes from elsewhere than the resolver looks at changes nothing but the flags that
-- came with it. One of a type that the flags of the resolver want is held from then on, if no record of
-- its kind was held before; else that stays, and so do the records of the other kinds. No assert fails.
-- With any other record the call aborts.
pub record_browser_callback_lem :
    (made : Browser → Bool) (b : Browser) (flags : ℕ) (interface : ℤ) (protocol : Protocol)
    (n : Record) (r : Resolver)
    → let s = set_flags b flags r in
      let call = record_browser_callback made b flags (new interface protocol n) r in
      (Elsewhere s.interface s.protocol interface protocol × (call ≡ done (s, [])))
      ⊎ (¬ (Elsewhere s.interface s.protocol interface protocol)
          × (((wanted s n.rdata ≡ true) × Takes s n.rdata n call)
              ⊎ ((wanted s n.rdata ≡ false) × (call ≡ abort))))
unfolding record_browser_callback
record_browser_callback_lem made b flags interface protocol n r =
    let s = set_flags b flags r in
    let other = other_interface s.interface interface || other_protocol s.protocol protocol in
    let i = if ltb_ℤ (pos 0) s.interface then s.interface else interface in
    let p = given_protocol s.protocol protocol in
    let away = away_iff s.interface s.protocol interface protocol in
    elim (Bool-cases other) [
      | inl e ↦ inl (away.0 e, rw e refl)
      | inr e ↦ inr (
        (λ h. absurd (cc (away.1 h, e))),
        (elim (Bool-cases (wanted s n.rdata)) [
          | inl w ↦ inl (
            w,
            if_rule (Takes s n.rdata n) other (λ t. absurd (cc (t, e)))
                (λ f. settled-Takes made n.rdata n s i p w),
          )
          | inr w ↦ inr (w, rw e (settled-abort made n.rdata n s i p w))
        ]),
      )
    ]
