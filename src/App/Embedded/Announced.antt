-- ===== src/App/Embedded/Announced.antt =====
-- From the bytes that a video sender announces to the signal that shows its stream.
use nvmrdisplay.Prelude.{ℕ, ◌<◌, ◌≤◌, ◌≡◌, refl, arith, false, none, some, List, [], ◌∷◌, ◌++◌}
use nvmrdisplay.Prelude.{length, reverse, All, ap}
use nvmrdisplay.Common.StringList.{StringList, parse, serialize, add_pair_arbitrary}
use nvmrdisplay.Common.StringList.Wire.{IsWire, wire, parse-serialize}
use nvmrdisplay.App.Txt.{Qt, value, txt_map}
use nvmrdisplay.App.Txt.Values.{
  IsQt, has_equals, last_value, value-last_value, txt_entry-pair, or_else-none,
}
use nvmrdisplay.App.Discover.{
  Sender, rtsp_found, rtsp_key, videoname_key, or_empty, found_video, rtsp_signals,
}
use nvmrdisplay.App.Embedded.{txt_data, inet, found, videosender_resolve_cb}

txt_data_lem : (l : StringList) → txt_data l ≡ l
unfolding txt_data
txt_data_lem [] = refl
txt_data_lem (text ∷ l) = ap (λ t. text ∷ t) (txt_data_lem l)

module _ (qt : Qt) (h : IsQt qt) where
  rtsp-first :
      (url : List ℕ) (l : StringList)
      → All (λ c. c < 128) url
      → has_equals url ≡ false
      → last_value qt rtsp_key l ≡ none
      → last_value qt rtsp_key ((rtsp_key ++ (61 ∷ url)) ∷ l) ≡ some url
  rtsp-first url l ascii plain other =
      rw (other, txt_entry-pair qt rtsp_key url h (omega arith) ascii refl, plain) refl

  videoname-first :
      (url : List ℕ) (l : StringList)
      → All (λ c. c < 128) url
      → has_equals url ≡ false
      → last_value qt videoname_key ((rtsp_key ++ (61 ∷ url)) ∷ l) ≡ last_value qt videoname_key l
  videoname-first url l ascii plain =
      rw (txt_entry-pair qt rtsp_key url h (omega arith) ascii refl, plain)
        (or_else-none (last_value qt videoname_key l))

  -- A sender that announces an "rtsp" string with a URL of ASCII characters and no equals sign, and no
  -- other such string, is shown: the bytes of its TXT record are parsed, and when the engine resolves
  -- the service to an IPv4 address the signal with that URL and the name is emitted, with the value of
  -- the last "videoname" string, for every buffer that the record fits.
  pub videosender_resolve_cb-serialize :
      (l : StringList) (url name address : List ℕ) (port size : ℕ) (senders : List Sender)
      → All (λ c. c < 128) url
      → has_equals url ≡ false
      → last_value qt rtsp_key l ≡ none
      → All IsWire (add_pair_arbitrary l rtsp_key (some url))
      → 0 < size
      → length (wire (reverse (add_pair_arbitrary l rtsp_key (some url)))) ≤ size
      → (parse (serialize (add_pair_arbitrary l rtsp_key (some url)) size)
          ≡ some (add_pair_arbitrary l rtsp_key (some url)))
        × ((videosender_resolve_cb qt found name
              (inet address)
              port
              (add_pair_arbitrary l rtsp_key (some url))
              senders).signals
            ≡ rtsp_found url name (or_empty (last_value qt videoname_key l)) ∷ [])
  unfolding videosender_resolve_cb found_video rtsp_signals add_pair_arbitrary
  videosender_resolve_cb-serialize l url name address port size senders ascii plain other wires room
        fits =
      let txt = add_pair_arbitrary l rtsp_key (some url) in
      let found_value : value rtsp_key (txt_map qt (txt_data txt)) ≡ some url =
        rw (txt_data_lem txt, value-last_value qt rtsp_key txt)
          (rtsp-first url l ascii plain other) in
      let video : value videoname_key (txt_map qt (txt_data txt)) ≡ last_value qt videoname_key l =
        rw (txt_data_lem txt, value-last_value qt videoname_key txt)
          (videoname-first url l ascii plain) in
      (parse-serialize txt size wires room fits, rw (rtsp_signals, found_value, video) refl)
