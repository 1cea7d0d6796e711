-- ===== src/Core/Cache/Timers/Poof.antt =====
-- Passive observation of failure: how many questions without an answer an entry outlives.
use nvmrdisplay.Prelude.{ℕ, ◌+◌, ◌<◌, ◌≡◌, refl, arith}
use nvmrdisplay.Prelude.{false, List, [], ◌∷◌}
use nvmrdisplay.Prelude.Int.{ltb_ℤ}
use nvmrdisplay.Common.Timeval.{Timeval, timeval_diff, timeval_add}
use nvmrdisplay.Core.Cache.{
  Ops, valid, poof, poof_final, Entry, World, second, expire_in_one_second,
}
use nvmrdisplay.Core.Cache.Timers.{start_poof_entry}

module _ {Rec Key Addr : Type 0} (o : Ops Rec Key Addr) where
  -- The entry after a question at each of the times.
  abbrev pub questions : List World → Addr → Entry Rec Addr → Entry Rec Addr
  questions [] a e = e
  questions (w ∷ ws) a e = questions ws a (start_poof_entry o w a e)

  -- Each question comes a second after the one before, or later.
  abbrev pub Spaced : Timeval → List World → Type 0
  Spaced t [] = Unit {0}
  Spaced t (w ∷ ws) = (ltb_ℤ (timeval_diff w.now t) second ≡ false) × Spaced w.now ws

  -- An entry in the state POOF outlives the question, or not, by the number that it holds.
  poof_step :
      (w : World) (a : Addr) (e : Entry Rec Addr)
      → e.state ≡ poof
      → ltb_ℤ (timeval_diff w.now e.poof_timestamp) second ≡ false
      → e.poof_num < 3
      → ((start_poof_entry o w a e).state ≡ poof)
        × ((start_poof_entry o w a e).poof_num ≡ e.poof_num + 1)
        × ((start_poof_entry o w a e).poof_timestamp ≡ w.now)
  unfolding start_poof_entry
  poof_step w a e p s n = ground arith

  poof_last :
      (w : World) (a : Addr) (e : Entry Rec Addr)
      → e.state ≡ poof
      → ltb_ℤ (timeval_diff w.now e.poof_timestamp) second ≡ false
      → e.poof_num ≡ 3
      → ((start_poof_entry o w a e).state ≡ poof_final)
        × ((start_poof_entry o w a e).expiry ≡ timeval_add w.now second)
  unfolding start_poof_entry expire_in_one_second
  poof_last w a e p s n = ground arith

  -- An entry that waits stays as it is, at the number of the questions and the time of the last one.
  record IsWaiting (t : Timeval) (n : ℕ) (e : Entry Rec Addr) : Type 0 where
    waits : e.state ≡ poof
    counted : e.poof_num ≡ n
    asked : e.poof_timestamp ≡ t

  first-IsWaiting :
      (w : World) (a : Addr) (e : Entry Rec Addr)
      → e.state ≡ valid
      → IsWaiting w.now 0 (start_poof_entry o w a e)
  unfolding start_poof_entry
  first-IsWaiting w a e v = rw v (record { waits = refl; counted = refl; asked = refl })

  again-IsWaiting :
      (w : World) (a : Addr) (t : Timeval) (n : ℕ) (e : Entry Rec Addr)
      → IsWaiting t n e
      → ltb_ℤ (timeval_diff w.now t) second ≡ false
      → n < 3
      → IsWaiting w.now (n + 1) (start_poof_entry o w a e)
  again-IsWaiting w a t n e i late below =
      let (p, q, r) = poof_step w a e i.waits (rw i.asked late) (rw i.counted below) in
      record { waits = p; counted = rw (q, i.counted) refl; asked = r }

  -- A valid entry that is asked for, and asked for again at least a second later each time, with no
  -- answer in between, outlives four questions in the state POOF. The fifth question makes it
  -- POOF_FINAL, to expire in one second.
  pub questions_lem :
      (w0 w1 w2 w3 w4 : World) (a : Addr) (e : Entry Rec Addr)
      → e.state ≡ valid
      → Spaced w0.now (w1 ∷ w2 ∷ w3 ∷ w4 ∷ [])
      → ((questions (w0 ∷ w1 ∷ w2 ∷ w3 ∷ []) a e).state ≡ poof)
        × ((questions (w0 ∷ w1 ∷ w2 ∷ w3 ∷ w4 ∷ []) a e).state ≡ poof_final)
        × ((questions (w0 ∷ w1 ∷ w2 ∷ w3 ∷ w4 ∷ []) a e).expiry ≡ timeval_add w4.now second)
  questions_lem w0 w1 w2 w3 w4 a e v s =
      let i0 = first-IsWaiting w0 a e v in
      let i1 = again-IsWaiting w1 a w0.now 0 (questions (w0 ∷ []) a e) i0 s.0 (omega arith) in
      let i2 =
        again-IsWaiting w2 a w1.now 1 (questions (w0 ∷ w1 ∷ []) a e) i1 s.1.0 (omega arith) in
      let i3 =
        again-IsWaiting w3 a w2.now 2 (questions (w0 ∷ w1 ∷ w2 ∷ []) a e) i2 s.1.1.0
          (omega arith) in
      let last =
        poof_last w4 a (questions (w0 ∷ w1 ∷ w2 ∷ w3 ∷ []) a e) i3.waits (rw i3.asked s.1.1.1.0)
          i3.counted in
      (i3.waits, last.0, last.1)
