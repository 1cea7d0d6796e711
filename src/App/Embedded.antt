-- ===== src/App/Embedded.antt =====
-- embeddedavahibrowse.cpp: discovery by the mDNS engine in the program, as its call-backs. What they ask
-- of the engine is a list of requests: a resolver is made, or freed. A name is given as the QString that
-- a call-back makes of it.
pub mod Announced
pub mod Held
use nvmrdisplay.Prelude.{ℕ, List, [], ◌∷◌}
use nvmrdisplay.Common.StringList.{StringList}
use nvmrdisplay.App.Txt.{Qt}
use nvmrdisplay.App.Discover.{Sender, Signal, rtsp_went_away, found_video, found_http}

-- `AvahiBrowserEvent` and `AvahiResolverEvent`
pub data BrowserEvent : Type 0 where
  new remove cache_exhausted all_for_now failure : BrowserEvent

pub data ResolverEvent : Type 0 where
  found failed : ResolverEvent

-- `AvahiAddress`
pub data Address : Type 0 where
  inet inet6 : List ℕ → Address

-- The two browsers: for the web server and for video senders.
pub data Browser : Type 0 where
  jmri video_sender : Browser

-- A new resolver's creation may fail, which is only printed.
pub data Request : Type 0 where
  new_resolver : Browser → List ℕ → List ℕ → List ℕ → Request
  free_resolver : Request

pub record Effect : Type 0 where
  pub senders : List Sender
  pub signals : List Signal
  pub requests : List Request

-- The loop that copies the strings of the engine.
pub txt_data : StringList → List (List ℕ)
txt_data [] = []
txt_data (text ∷ l) = text ∷ txt_data l

-- `jmri_browse_cb`
pub jmri_browse_cb : BrowserEvent → List ℕ → List ℕ → List ℕ → List Sender → Effect
jmri_browse_cb new name kind domain senders = record {
  senders = senders;
  signals = [];
  requests = new_resolver jmri name kind domain ∷ [];
}
jmri_browse_cb remove name kind domain senders = record {
  senders = senders;
  signals = [];
  requests = [];
}
jmri_browse_cb cache_exhausted name kind domain senders = record {
  senders = senders;
  signals = [];
  requests = [];
}
jmri_browse_cb all_for_now name kind domain senders = record {
  senders = senders;
  signals = [];
  requests = [];
}
jmri_browse_cb failure name kind domain senders = record {
  senders = senders;
  signals = [];
  requests = [];
}

-- `videosender_browse_cb`, which emits the signal itself when a sender is removed.
pub videosender_browse_cb : BrowserEvent → List ℕ → List ℕ → List ℕ → List Sender → Effect
videosender_browse_cb new name kind domain senders = record {
  senders = senders;
  signals = [];
  requests = new_resolver video_sender name kind domain ∷ [];
}
videosender_browse_cb remove name kind domain senders = record {
  senders = senders;
  signals = rtsp_went_away name ∷ [];
  requests = [];
}
videosender_browse_cb cache_exhausted name kind domain senders = record {
  senders = senders;
  signals = [];
  requests = [];
}
videosender_browse_cb all_for_now name kind domain senders = record {
  senders = senders;
  signals = [];
  requests = [];
}
videosender_browse_cb failure name kind domain senders = record {
  senders = senders;
  signals = [];
  requests = [];
}

module _ (qt : Qt) where
  -- `jmri_resolve_cb`
  pub jmri_resolve_cb : ResolverEvent → Address → ℕ → StringList → List Sender → Effect
  unfolding txt_data
  jmri_resolve_cb failed address port txt senders = record {
    senders = senders;
    signals = [];
    requests = free_resolver ∷ [];
  }
  jmri_resolve_cb found (inet6 a) port txt senders = record {
    senders = senders;
    signals = [];
    requests = free_resolver ∷ [];
  }
  jmri_resolve_cb found (inet a) port txt senders = record {
    senders = senders;
    signals = found_http qt (qt.dotted a) port (txt_data txt);
    requests = free_resolver ∷ [];
  }

  -- `videosender_resolve_cb`
  pub videosender_resolve_cb :
      ResolverEvent → List ℕ → Address → ℕ → StringList → List Sender → Effect
  unfolding txt_data
  videosender_resolve_cb failed name address port txt senders = record {
    senders = senders;
    signals = [];
    requests = free_resolver ∷ [];
  }
  videosender_resolve_cb found name (inet6 a) port txt senders = record {
    senders = senders;
    signals = [];
    requests = free_resolver ∷ [];
  }
  videosender_resolve_cb found name (inet a) port txt senders =
      let (more, signals) = found_video qt name (qt.dotted a) port (txt_data txt) senders in
      record { senders = more; signals = signals; requests = free_resolver ∷ [] }
