-- ===== src/Core/Responses/Sending.antt =====
-- avahi-core/response-sched.c: what is done when the timer of a scheduled response expires. The job is
-- the one that is scheduled for its record. What is used of packets (avahi-core/dns.c) and of the server
-- (avahi-core/server.c) is the record `Net`.
pub mod Total
use nvmrdisplay.Prelude.{
  ℕ, zero, suc, ◌+◌, ◌≡◌, ◌≤◌, ◌<◌, refl, sym, ap, ◌∙◌, arith, Bool, true, false, Option, none,
  some, List, [], ◌∷◌, All,
}
use nvmrdisplay.Prelude.{if◌then◌else◌, if_rule, Option-cases, inl, inr, ◌⊎◌}
use mathlib.Core.Path.{subst}
use nvmrdisplay.Prelude.Outcome.{Outcome, done, null, abort, stuck, ◌>>=◌}
use nvmrdisplay.Core.Responses.{
  Ops, Job, Scheduler, World, find_job, free_job, has_record, response_scheduler_post, marked,
}
use nvmrdisplay.Core.Responses.Scheduled.{
  IsOps, IsValid, Gives, response_scheduler_post-Gives, free_job-Distinct,
}
use nvmrdisplay.Core.Responses.Posted.{response_scheduler_post_lem}

-- `new_response` is avahi_dns_packet_new_response with the interface's MTU, and `fitting` that with the
-- size that avahi_record_get_estimate_size gives; `aux_records` are those that
-- avahi_server_enumerate_aux_records calls back with, and their flush bits.
pub record Net (Rec Packet : Type 0) : Type 0 where
  pub new_response : Packet
  pub fitting : Rec → Packet
  pub append_record : Rec → Bool → Packet → Option Packet
  pub aux_records : Rec → List (Rec × Bool)

module _ {Rec Addr Packet : Type 0} (o : Ops Rec Addr) (net : Net Rec Packet) where
  open o use {record_equal, key_is_pattern}
  open net use {new_response, fitting, append_record, aux_records}

  -- `enumerate_aux_records_callback`, for all auxiliary records of the job.
  pub post_aux : World → Rec → List (Rec × Bool) → Scheduler Rec Addr → Outcome (Scheduler Rec Addr)
  post_aux w r [] s = done s
  post_aux w r ((a, flush) ∷ l) s = elim (find_job (has_record o r) s.jobs) [
    | none ↦ post_aux w r l s
    | some j ↦ response_scheduler_post o w a flush j.querier false s >>= λ t. post_aux w r l t.0
  ]

  -- `job_mark_done`
  pub mark_done : World → Rec → Scheduler Rec Addr → Scheduler Rec Addr
  mark_done w r s = elim (find_job (has_record o r) s.jobs) [
    | none ↦ s
    | some j ↦ record s {
      jobs = free_job (has_record o r) s.jobs;
      history = marked o w j ∷ s.history;
    }
  ]

  -- `packet_add_response_job`: `none` where the packet has no room.
  pub add_job :
      World → Rec → Packet → Scheduler Rec Addr → Outcome (Option (Packet × Scheduler Rec Addr))
  unfolding post_aux mark_done
  add_job w r p s = elim (find_job (has_record o r) s.jobs) [
    | none ↦ done none
    | some j ↦ elim (append_record j.rec j.flush_cache p) [
      | none ↦ done none
      | some q ↦ post_aux w r (aux_records j.rec) s >>= λ t. done (some (q, mark_done w r t))
    ]
  ]

  abbrev pub Filled : Type 0
  Filled = Packet × ℕ × Scheduler Rec Addr

  -- `while (s->jobs)` of `send_response_packet`; the first job is the one that is added.
  pub fill : ℕ → World → ℕ → Packet → Scheduler Rec Addr → Outcome Filled
  fill zero w n p s = stuck
  fill (suc fuel) w n p s = elim s.jobs [
    | [] ↦ done (p, n, s)
    | j ∷ l ↦ add_job w j.rec p s >>= λ a. elim a [
      | none ↦ done (p, n, s)
      | some (q, t) ↦ fill fuel w (n + 1) q t
    ]
  ]

  -- `send_response_packet`: the packet that is sent, with ANCOUNT, if one is.
  pub send_response_packet :
      ℕ → World → Rec → Scheduler Rec Addr → Outcome (Scheduler Rec Addr × Option (Packet × ℕ))
  unfolding add_job fill mark_done
  send_response_packet fuel w r s = add_job w r new_response s >>= λ a. elim a [
    | some (q, t) ↦ fill fuel w 1 q t >>= λ f. done (f.2, some (f.0, f.1))
    | none ↦ add_job w r (fitting r) s >>= λ b. elim b [
      | some (q, t) ↦ done (t, some (q, 1))
      | none ↦ done (mark_done w r s, none)
    ]
  ]
