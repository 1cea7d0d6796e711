-- ===== src/Core/Queriers/Runs.antt =====
-- avahi-core/querier.c and avahi-core/query-sched.c: those who browse for a key, in any sequence of calls.
use nvmrdisplay.Prelude.{ℕ, ◌≡◌, refl, ap, ◌∙◌, Bool, List, [], ◌∷◌}
use nvmrdisplay.Prelude.Outcome.{Outcome, done, ◌>>=◌}
use nvmrdisplay.Core.Queriers.{Interface}
use nvmrdisplay.Core.Queriers.Users.{IsEquality, users}
use nvmrdisplay.Core.Queriers.Sound.{IsSound}
use nvmrdisplay.Core.Queriers.Calls.{Call, call, interest, serves}

module _ {Key : Type 0} (key_equal : Key → Key → Bool) where
  pub run : List (Call Key) → Interface Key → Outcome (Interface Key)
  run [] i = done i
  run (c ∷ l) i = call key_equal c i >>= λ j. run l j

  abbrev pub interest_run : Key → List (Call Key) → ℕ → ℕ
  interest_run m [] n = n
  interest_run m (c ∷ l) n = interest_run m l (interest key_equal m c n)

  module _ (laws : IsEquality key_equal) where
    -- Whatever is asked of the queriers of an interface, in whatever order, nothing fails, no two of them
    -- have the same key, their intervals lie between a second and an hour (so that the product with 1000
    -- does not wrap), the query scheduler stays orderly, and each key is used as often as the adds and
    -- removes for it say: an add for an equal key counts one up, a remove one down unless there is none,
    -- and expiries and refreshes of the cache change nothing. Equality of keys is to be an equivalence,
    -- and the interface is to be like this before.
    pub users-run :
        (cs : List (Call Key)) (i : Interface Key)
        → IsSound key_equal laws i
        → (j : Interface Key) × (run cs i ≡ done j)
          × IsSound key_equal laws j
          × ((m : Key)
              → users key_equal laws m j.queriers
                ≡ interest_run m cs (users key_equal laws m i.queriers))
    unfolding run
    users-run [] i v = (i, refl, v, λ m. refl)
    users-run (c ∷ cs) i v =
        let (x, made, w, here) = serves key_equal laws c i v in
        let (j, rest, u, after) = users-run cs x w in
        (j, rw made rest, u, λ m. after m ∙ ap (interest_run m cs) (here m))
