-- ===== src/App/Browse/Once.antt =====
-- How often the daemon is asked to resolve a video sender.
use nvmrdisplay.Prelude.{
  ℕ, ◌+◌, ◌≡◌, arith, Bool, true, false, List, [], ◌∷◌, ◌++◌, if◌then◌else◌, bytes_eq,
}
use nvmrdisplay.Prelude.{Bool-cases, inl, inr, ap, bytes_eq→eq}
use nvmrdisplay.App.Txt.{Qt}
use nvmrdisplay.App.Discover.{lost_video, found_video}
use nvmrdisplay.App.Browse.{
  DaemonSignal, browse_failure, all_for_now, cache_exhausted, video_sender_new,
}
use nvmrdisplay.App.Browse.{
  video_sender_removed, video_sender_found, http_new, http_removed, http_found, resolver_error,
}
use nvmrdisplay.App.Browse.{
  Request, resolve_video, resolve_http, State, contains, handle, signal_video_sender_new,
}

-- The requests that are for the video sender of the name.
abbrev pub asked : List ℕ → List Request → ℕ
asked name [] = 0
asked name (resolve_video other kind domain ∷ rs) =
    (if bytes_eq other name then 1 else 0) + asked name rs
asked name (resolve_http other kind domain ∷ rs) = asked name rs

-- Whether the daemon says of the name that it is new.
abbrev pub is_announced : List ℕ → List DaemonSignal → Bool
is_announced name [] = false
is_announced name (video_sender_new other kind domain ∷ es) =
    if bytes_eq other name then true else is_announced name es
is_announced name (browse_failure ∷ es) = is_announced name es
is_announced name (all_for_now ∷ es) = is_announced name es
is_announced name (cache_exhausted ∷ es) = is_announced name es
is_announced name (video_sender_removed other ∷ es) = is_announced name es
is_announced name (video_sender_found other address port txt ∷ es) = is_announced name es
is_announced name (http_new other kind domain ∷ es) = is_announced name es
is_announced name (http_removed other ∷ es) = is_announced name es
is_announced name (http_found address port txt ∷ es) = is_announced name es
is_announced name (resolver_error ∷ es) = is_announced name es

asked-append :
    (name : List ℕ) (a b : List Request) → asked name (a ++ b) ≡ asked name a + asked name b
asked-append name [] b = omega arith
asked-append name (resolve_video other kind domain ∷ a) b = omega (arith, asked-append name a b)
asked-append name (resolve_http other kind domain ∷ a) b = asked-append name a b

same_contains :
    (other name : List ℕ) (names : List (List ℕ))
    → bytes_eq other name ≡ true
    → contains other names ≡ contains name names
same_contains other name names e = ap (λ n. contains n names) (bytes_eq→eq other name e)

module _ (qt : Qt) where
  -- The requests of a sequence of signals.
  pub requests : List DaemonSignal → State → List Request
  unfolding handle
  requests [] s = []
  requests (e ∷ es) s = (handle qt e s).2 ++ requests es (handle qt e s).0

  -- Whatever the daemon signals, in whatever order, it is asked to resolve a video sender once if it
  -- says of the name that it is new, and never again, also not for a sender that was removed and is
  -- back; it is not asked where the name has a resolver from before.
  pub asked-requests :
      (name : List ℕ) (es : List DaemonSignal) (s : State)
      → asked name (requests es s)
        ≡ (if contains name s.resolvers then 0 else if is_announced name es then 1 else 0)
  unfolding requests
  asked-requests name [] s = ground arith
  asked-requests name (browse_failure ∷ es) s = asked-requests name es s
  asked-requests name (all_for_now ∷ es) s = asked-requests name es s
  asked-requests name (cache_exhausted ∷ es) s = asked-requests name es s
  asked-requests name (video_sender_new other kind domain ∷ es) s =
      elim (Bool-cases (contains other s.resolvers)) [
        | inl t ↦
            rw (signal_video_sender_new, t)
              (ground (arith, asked-requests name es s, same_contains other name s.resolvers, t))
        | inr f ↦
            rw (signal_video_sender_new, f)
              (ground (
                arith,
                asked-requests name es (record s { resolvers = other ∷ s.resolvers }),
                same_contains other name s.resolvers,
                f,
              ))
      ]
  asked-requests name (video_sender_removed other ∷ es) s =
      asked-requests name es (record s { senders = (lost_video other s.senders).0 })
  asked-requests name (video_sender_found other address port txt ∷ es) s =
      asked-requests name es
        (record s { senders = (found_video qt other address port txt s.senders).0 })
  asked-requests name (http_new other kind domain ∷ es) s = asked-requests name es s
  asked-requests name (http_removed other ∷ es) s = asked-requests name es s
  asked-requests name (http_found address port txt ∷ es) s = asked-requests name es s
  asked-requests name (resolver_error ∷ es) s = asked-requests name es s
