-- ===== src/App/Browse.antt =====
-- avahibrowse.cpp: discovery by the Avahi daemon over D-Bus, as the handlers of its signals. A resolver
-- is asked of the daemon by a request; `resolvers` are the names in `m_nameToResolver`. Names and
-- addresses are given as the QStrings that the handlers make of them.
pub mod Once
use nvmrdisplay.Prelude.{ℕ, Bool, true, false, List, [], ◌∷◌, if◌then◌else◌, bytes_eq}
use nvmrdisplay.App.Txt.{Qt}
use nvmrdisplay.App.Discover.{Sender, Signal, lost_video, found_video, found_http}

-- The signals of the daemon, with what the handlers use of their arguments.
pub data DaemonSignal : Type 0 where
  browse_failure all_for_now cache_exhausted : DaemonSignal
  video_sender_new : List ℕ → List ℕ → List ℕ → DaemonSignal
  video_sender_removed : List ℕ → DaemonSignal
  video_sender_found : List ℕ → List ℕ → ℕ → List (List ℕ) → DaemonSignal
  http_new : List ℕ → List ℕ → List ℕ → DaemonSignal
  http_removed : List ℕ → DaemonSignal
  http_found : List ℕ → ℕ → List (List ℕ) → DaemonSignal
  resolver_error : DaemonSignal

-- `ServiceResolverNew`, with the handler that its answer goes to.
pub data Request : Type 0 where
  resolve_video resolve_http : List ℕ → List ℕ → List ℕ → Request

pub record State : Type 0 where
  pub senders : List Sender
  pub resolvers : List (List ℕ)

abbrev pub contains : List ℕ → List (List ℕ) → Bool
contains name [] = false
contains name (n ∷ ns) = if bytes_eq n name then true else contains name ns

abbrev pub Step : Type 0
Step = State × List Signal × List Request

-- `signalVideoSenderNew`
pub signal_video_sender_new : List ℕ → List ℕ → List ℕ → State → Step
signal_video_sender_new name kind domain s =
    if contains name s.resolvers
    then (s, [], [])
    else (record s { resolvers = name ∷ s.resolvers }, [], resolve_video name kind domain ∷ [])

-- `signalVideoSenderRemoved`
pub signal_video_sender_removed : List ℕ → State → Step
signal_video_sender_removed name s =
    let (senders, signals) = lost_video name s.senders in
    (record s { senders = senders }, signals, [])

module _ (qt : Qt) where
  -- `resolvedVideoSenderFound`
  pub resolved_video_sender_found : List ℕ → List ℕ → ℕ → List (List ℕ) → State → Step
  resolved_video_sender_found name address port txt s =
      let (senders, signals) = found_video qt name address port txt s.senders in
      (record s { senders = senders }, signals, [])

  -- The handlers, `signalFailure` to `resolvedHTTPError`.
  pub handle : DaemonSignal → State → Step
  unfolding signal_video_sender_new signal_video_sender_removed resolved_video_sender_found
  handle browse_failure s = (s, [], [])
  handle all_for_now s = (s, [], [])
  handle cache_exhausted s = (s, [], [])
  handle (video_sender_new name kind domain) s = signal_video_sender_new name kind domain s
  handle (video_sender_removed name) s = signal_video_sender_removed name s
  handle (video_sender_found name address port txt) s =
      resolved_video_sender_found name address port txt s
  handle (http_new name kind domain) s = (s, [], resolve_http name kind domain ∷ [])
  handle (http_removed name) s = (s, [], [])
  handle (http_found address port txt) s = (s, found_http qt address port txt, [])
  handle resolver_error s = (s, [], [])
