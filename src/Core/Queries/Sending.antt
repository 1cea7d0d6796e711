-- ===== src/Core/Queries/Sending.antt =====
-- avahi-core/query-sched.c: what is done when the timer of a query expires. What it uses of packets
-- (avahi-core/dns.c) and of the cache (avahi-core/cache.c) is the record `Packets`.
pub mod Answers
pub mod Elapse
pub mod Keeps
use nvmrdisplay.Prelude.{
  ℕ, zero, suc, ◌+◌, Bool, true, false, Option, none, some, List, [], ◌∷◌, ◌++◌,
}
use nvmrdisplay.Prelude.{reverse, get_elem?, if◌then◌else◌}
use nvmrdisplay.Prelude.Outcome.{Outcome, done, abort, stuck, ◌>>=◌}
use nvmrdisplay.Common.Timeval.{Timeval}
use nvmrdisplay.Core.Queries.{Job, Scheduler, marked}

-- `new_query` is avahi_dns_packet_new_query with the interface's MTU; `append_key` and `append_record`
-- give the longer packet, if there is room. `known` are the records that a walk of the cache for a key
-- visits and that are not past half their time to live, in its order.
pub record Packets (Key Rec Packet : Type 0) : Type 0 where
  pub new_query : Packet
  pub append_key : Key → Packet → Option Packet
  pub append_record : Rec → Packet → Option Packet
  pub is_empty : Packet → Bool
  pub known : Key → List Rec

-- A packet as it is sent: the fields QDCOUNT, ANCOUNT and the flag TC are set behind what is appended.
pub record Sent (Packet : Type 0) : Type 0 where
  pub packet : Packet
  pub qdcount : ℕ
  pub ancount : ℕ
  pub truncated : Bool

-- What a round of the loop over known answers leaves: the packet, its counts, and what was sent.
pub record Progress (Packet : Type 0) : Type 0 where
  pub packet : Packet
  pub qdcount : ℕ
  pub ancount : ℕ
  pub sent : List (Sent Packet)

module _ {Key Rec Packet : Type 0} (o : Packets Key Rec Packet) where
  open o use {new_query, append_key, append_record, is_empty, known}

  -- The inner loop of `append_known_answers_and_send`, and the count behind it.
  pub append_answer : ℕ → Rec → Progress Packet → Outcome (Progress Packet)
  append_answer zero r p = stuck
  append_answer (suc fuel) r p =
      let more = append_answer fuel r (record {
        packet = new_query;
        qdcount = 0;
        ancount = 0;
        sent =
            p.sent
            ++ (record {
              packet = p.packet;
              qdcount = p.qdcount;
              ancount = p.ancount;
              truncated = true;
            }
                ∷ []);
      }) in
      elim (append_record r p.packet) [
        | some q ↦ done (record p { packet = q; ancount = p.ancount + 1 })
        | none ↦ if is_empty p.packet then done p else more
      ]

  pub append_answers : List Rec → Progress Packet → Outcome (Progress Packet)
  unfolding append_answer
  append_answers [] p = done p
  append_answers (r ∷ l) p = append_answer 2 r p >>= λ q. append_answers l q

  -- `append_known_answers_and_send`
  pub append_known_answers_and_send : List Rec → Packet → ℕ → Outcome (List (Sent Packet))
  unfolding append_answers
  append_known_answers_and_send l p n =
      append_answers l (record { packet = p; qdcount = n; ancount = 0; sent = [] }) >>= λ q. done (
        q.sent
        ++ (record {
          packet = q.packet;
          qdcount = q.qdcount;
          ancount = q.ancount;
          truncated = false;
        }
            ∷ []))

  -- The loop of `elapse_callback` that fills up the packet: the packet, how many queries it has got, the
  -- known answers, newest in front, the queries left and the history.
  pub record Filled : Type 0 where
    pub packet : Packet
    pub n : ℕ
    pub answers : List Rec
    pub jobs : List (Job Key)
    pub history : List (Job Key)

  pub fill : Timeval → ℕ → Packet → List Rec → List (Job Key) → List (Job Key) → Filled
  fill now n p answers [] history = record {
    packet = p;
    n = n;
    answers = answers;
    jobs = [];
    history = history;
  }
  fill now n p answers (j ∷ l) history = elim (append_key j.key p) [
    | none ↦ record { packet = p; n = n; answers = answers; jobs = j ∷ l; history = history }
    | some q ↦ fill now (n + 1) q (reverse (known j.key) ++ answers) l (marked now j ∷ history)
  ]

  -- Take the job at a place out of a list.
  pub remove_place : ℕ → List (Job Key) → List (Job Key)
  remove_place i [] = []
  remove_place zero (j ∷ l) = l
  remove_place (suc i) (j ∷ l) = j ∷ remove_place i l

  -- `elapse_callback` of a job in the history.
  unfoldable pub elapse_history : ℕ → Scheduler Key → Scheduler Key
  elapse_history i s = record s { history = remove_place i s.history }

  -- `elapse_callback` of a scheduled job, with the packets that are sent.
  pub elapse_job : Timeval → ℕ → Scheduler Key → Outcome (Scheduler Key × List (Sent Packet))
  unfolding remove_place fill append_known_answers_and_send
  elapse_job now i s = elim (get_elem? s.jobs i) [
    | none ↦ done (s, [])
    | some j ↦ elim (append_key j.key new_query) [
      | none ↦ abort
      | some p ↦
          let f =
            fill now 1 p (reverse (known j.key)) (remove_place i s.jobs)
              (marked now j ∷ s.history) in
          append_known_answers_and_send f.answers f.packet f.n >>= λ sent.
          done (record s { jobs = f.jobs; history = f.history }, sent)
    ]
  ]
