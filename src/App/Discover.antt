-- ===== src/App/Discover.antt =====
-- servicediscover.cpp: the video senders that are known, and the signals to the display.
pub mod Presence
use nvmrdisplay.Prelude.{
  ℕ, Bool, true, false, Option, none, some, List, [], ◌∷◌, ◌++◌, if◌then◌else◌, bytes_eq,
}
use nvmrdisplay.App.Txt.{Qt, Map, value, txt_map}

-- `RPIVideoSender`: what it is made of, and the address of its web socket.
pub record Sender : Type 0 where
  pub name : List ℕ
  pub ip_addr : List ℕ
  pub websocket_addr : List ℕ

-- The signals of `ServiceDiscover`.
pub data Signal : Type 0 where
  jmri_webserver_found : List ℕ → Signal
  rtsp_found : List ℕ → List ℕ → List ℕ → Signal
  rtsp_went_away : List ℕ → Signal

-- "rtsp", "videoname", "jmri", "ws://", "http://" and ":"
abbrev pub rtsp_key : List ℕ
rtsp_key = 114 ∷ 116 ∷ 115 ∷ 112 ∷ []

abbrev pub videoname_key : List ℕ
videoname_key = 118 ∷ 105 ∷ 100 ∷ 101 ∷ 111 ∷ 110 ∷ 97 ∷ 109 ∷ 101 ∷ []

abbrev pub jmri_key : List ℕ
jmri_key = 106 ∷ 109 ∷ 114 ∷ 105 ∷ []

abbrev pub ws_scheme : List ℕ
ws_scheme = 119 ∷ 115 ∷ 58 ∷ 47 ∷ 47 ∷ []

abbrev pub http_scheme : List ℕ
http_scheme = 104 ∷ 116 ∷ 116 ∷ 112 ∷ 58 ∷ 47 ∷ 47 ∷ []

-- `QMap::value` of a key that is missing is the empty string.
abbrev pub or_empty : Option (List ℕ) → List ℕ
or_empty none = []
or_empty (some v) = v

-- `m_resolvedVideoSenders`, and the signals that a call emits.
abbrev pub Step : Type 0
Step = List Sender × List Signal

-- `lostRPIVideoSender`: every sender of the name goes, with a signal for each.
unfoldable pub lost_video : List ℕ → List Sender → Step
lost_video name [] = ([], [])
lost_video name (s ∷ senders) =
    let (rest, signals) = lost_video name senders in
    if bytes_eq s.name name then (rest, rtsp_went_away s.name ∷ signals) else (s ∷ rest, signals)

module _ (qt : Qt) where
  -- The constructor of `RPIVideoSender`.
  unfoldable pub new_sender : List ℕ → List ℕ → ℕ → Sender
  new_sender name address port = record {
    name = name;
    ip_addr = address;
    websocket_addr = ws_scheme ++ (address ++ (58 ∷ qt.number port));
  }

  -- The signals of `foundRPIVideoSender`.
  unfoldable pub rtsp_signals : List ℕ → Map → List Signal
  rtsp_signals name m = elim (value rtsp_key m) [
    | none ↦ []
    | some url ↦ rtsp_found url name (or_empty (value videoname_key m)) ∷ []
  ]

  -- `foundRPIVideoSender`
  unfoldable pub found_video : List ℕ → List ℕ → ℕ → List (List ℕ) → List Sender → Step
  unfolding new_sender rtsp_signals
  found_video name address port texts senders =
      (senders ++ (new_sender name address port ∷ []), rtsp_signals name (txt_map qt texts))

  -- `foundHTTPServer`
  pub found_http : List ℕ → ℕ → List (List ℕ) → List Signal
  found_http address port texts = elim (value jmri_key (txt_map qt texts)) [
    | none ↦ []
    | some v ↦ jmri_webserver_found (http_scheme ++ (address ++ (58 ∷ qt.number port))) ∷ []
  ]
