-- ===== src/App/Embedded/Held.antt =====
-- The senders that the embedded discovery holds: each that it ever resolved.
use nvmrdisplay.Prelude.{ℕ, ◌+◌, ◌≡◌, arith, List, [], ◌∷◌, length, length-append}
use nvmrdisplay.Common.StringList.{StringList}
use nvmrdisplay.App.Txt.{Qt}
use nvmrdisplay.App.Discover.{Sender, found_video, new_sender}
use nvmrdisplay.App.Embedded.{BrowserEvent, ResolverEvent, found, failed}
use nvmrdisplay.App.Embedded.{
  Address, inet, inet6, jmri_browse_cb, videosender_browse_cb, jmri_resolve_cb,
}
use nvmrdisplay.App.Embedded.{videosender_resolve_cb, txt_data}

-- A call-back of the engine.
pub data Callback : Type 0 where
  jmri_browse video_browse : BrowserEvent → List ℕ → List ℕ → List ℕ → Callback
  jmri_resolve : ResolverEvent → Address → ℕ → StringList → Callback
  video_resolve : ResolverEvent → List ℕ → Address → ℕ → StringList → Callback

-- How often a video sender is resolved to an IPv4 address.
abbrev pub resolved : List Callback → ℕ
resolved [] = 0
resolved (jmri_browse e name kind domain ∷ cs) = resolved cs
resolved (video_browse e name kind domain ∷ cs) = resolved cs
resolved (jmri_resolve e address port txt ∷ cs) = resolved cs
resolved (video_resolve failed name address port txt ∷ cs) = resolved cs
resolved (video_resolve found name (inet6 a) port txt ∷ cs) = resolved cs
resolved (video_resolve found name (inet a) port txt ∷ cs) = resolved cs + 1

module _ (qt : Qt) where
  pub call_back : Callback → List Sender → List Sender
  unfolding jmri_browse_cb videosender_browse_cb jmri_resolve_cb videosender_resolve_cb
  call_back (jmri_browse e name kind domain) senders =
      (jmri_browse_cb e name kind domain senders).senders
  call_back (video_browse e name kind domain) senders =
      (videosender_browse_cb e name kind domain senders).senders
  call_back (jmri_resolve e address port txt) senders =
      (jmri_resolve_cb qt e address port txt senders).senders
  call_back (video_resolve e name address port txt) senders =
      (videosender_resolve_cb qt e name address port txt senders).senders

  pub call_backs : List Callback → List Sender → List Sender
  unfolding call_back
  call_backs [] senders = senders
  call_backs (c ∷ cs) senders = call_backs cs (call_back c senders)

  jmri_browse_keeps :
      (e : BrowserEvent) (name kind domain : List ℕ) (senders : List Sender)
      → (jmri_browse_cb e name kind domain senders).senders ≡ senders
  unfolding jmri_browse_cb
  jmri_browse_keeps e name kind domain senders = ground arith

  video_browse_keeps :
      (e : BrowserEvent) (name kind domain : List ℕ) (senders : List Sender)
      → (videosender_browse_cb e name kind domain senders).senders ≡ senders
  unfolding videosender_browse_cb
  video_browse_keeps e name kind domain senders = ground arith

  jmri_resolve_keeps :
      (e : ResolverEvent) (address : Address) (port : ℕ) (txt : StringList) (senders : List Sender)
      → (jmri_resolve_cb qt e address port txt senders).senders ≡ senders
  unfolding jmri_resolve_cb
  jmri_resolve_keeps e address port txt senders = ground arith

  -- After any call-backs of the engine the embedded discovery holds one sender more for each time that
  -- a video sender was resolved to an IPv4 address, however often services were removed.
  pub length-call_backs :
      (cs : List Callback) (senders : List Sender)
      → length (call_backs cs senders) ≡ length senders + resolved cs
  unfolding call_backs videosender_resolve_cb found_video
  length-call_backs [] senders = omega arith
  length-call_backs (jmri_browse e name kind domain ∷ cs) senders =
      rw (jmri_browse_keeps e name kind domain senders) (length-call_backs cs senders)
  length-call_backs (video_browse e name kind domain ∷ cs) senders =
      rw (video_browse_keeps e name kind domain senders) (length-call_backs cs senders)
  length-call_backs (jmri_resolve e address port txt ∷ cs) senders =
      rw (jmri_resolve_keeps e address port txt senders) (length-call_backs cs senders)
  length-call_backs (video_resolve failed name address port txt ∷ cs) senders =
      length-call_backs cs senders
  length-call_backs (video_resolve found name (inet6 a) port txt ∷ cs) senders =
      length-call_backs cs senders
  length-call_backs (video_resolve found name (inet a) port txt ∷ cs) senders =
      let more = (found_video qt name (qt.dotted a) port (txt_data txt) senders).0 in
      omega (
        arith,
        length-call_backs cs more,
        length-append senders (new_sender qt name (qt.dotted a) port ∷ []),
      )
