-- ===== src/App/Tests.antt =====
-- A sender that is found, resolved and lost: the theorems on discovery at inputs of that kind.
use nvmrdisplay.Prelude.{ℕ, ◌+◌, ◌≡◌, refl, arith, none, some, List, [], ◌∷◌, length}
use nvmrdisplay.Common.StringList.{parse, serialize, add_pair_arbitrary}
use nvmrdisplay.Common.StringList.Wire.{wire}
use nvmrdisplay.App.Txt.{Qt, value, txt_map, txt_entry}
use nvmrdisplay.App.Txt.Values.{IsQt, value-txt_map, txt_entry-pair}
use nvmrdisplay.App.Discover.{rtsp_found, rtsp_key}
use nvmrdisplay.App.Discover.Presence.{
  Call, found_sender, lost_sender, count, gone, run, count-run, gone-run,
}
use nvmrdisplay.App.Embedded.{new, remove, inet, found, videosender_resolve_cb}
use nvmrdisplay.App.Embedded.Announced.{videosender_resolve_cb-serialize}
use nvmrdisplay.App.Embedded.Held.{
  Callback, video_browse, video_resolve, call_backs, length-call_backs,
}
use nvmrdisplay.App.Browse.{DaemonSignal, video_sender_new, video_sender_removed}
use nvmrdisplay.App.Browse.Once.{asked, requests, asked-requests}

-- Qt on Latin-1 text, with numbers and addresses left out.
abbrev latin : Qt
latin = record { from_local = λ s. s; number = λ n. []; dotted = λ a. [] }

abbrev latin-IsQt : IsQt latin
latin-IsQt = record { ascii = λ s h. refl }

-- "a=1" and "a=2"
abbrev two_values : List (List ℕ)
two_values = (97 ∷ 61 ∷ 49 ∷ []) ∷ (97 ∷ 61 ∷ 50 ∷ []) ∷ []

value-txt_map_example : value (97 ∷ []) (txt_map latin two_values) ≡ some (50 ∷ [])
unfolding txt_entry
value-txt_map_example = value-txt_map latin (97 ∷ []) two_values

-- "a=1=2"
txt_entry-pair_example : txt_entry latin (97 ∷ 61 ∷ 49 ∷ 61 ∷ 50 ∷ []) ≡ none
txt_entry-pair_example =
    txt_entry-pair latin (97 ∷ []) (49 ∷ 61 ∷ 50 ∷ []) latin-IsQt (omega arith) (omega arith) refl

-- The sender "a" is found twice, and lost.
abbrev three_calls : List Call
three_calls =
    found_sender (97 ∷ []) [] 80 [] ∷ found_sender (97 ∷ []) [] 81 [] ∷ lost_sender (97 ∷ []) ∷ []

count-run_example : count (97 ∷ []) (run latin three_calls []).0 ≡ 0
count-run_example = count-run latin (97 ∷ []) three_calls []

gone-run_example :
    count (97 ∷ []) (run latin three_calls []).0 + gone (97 ∷ []) (run latin three_calls []).1 ≡ 2
gone-run_example = gone-run latin (97 ∷ []) three_calls []

videosender_resolve_cb-serialize_example :
    (parse (serialize (add_pair_arbitrary [] rtsp_key (some (120 ∷ []))) 7)
      ≡ some ((114 ∷ 116 ∷ 115 ∷ 112 ∷ 61 ∷ 120 ∷ []) ∷ []))
    × ((videosender_resolve_cb latin found
          (97 ∷ [])
          (inet (10 ∷ 0 ∷ 0 ∷ 1 ∷ []))
          80
          ((114 ∷ 116 ∷ 115 ∷ 112 ∷ 61 ∷ 120 ∷ []) ∷ [])
          []).signals
        ≡ rtsp_found (120 ∷ []) (97 ∷ []) [] ∷ [])
unfolding add_pair_arbitrary wire
videosender_resolve_cb-serialize_example =
    videosender_resolve_cb-serialize latin latin-IsQt [] (120 ∷ []) (97 ∷ []) (10 ∷ 0 ∷ 0 ∷ 1 ∷ [])
      80 7 [] (omega arith) refl refl (omega arith) (omega arith) (omega arith)

-- The sender "a" is new, resolved, and removed.
abbrev three_call_backs : List Callback
three_call_backs =
    video_browse new (97 ∷ []) [] []
    ∷ video_resolve found (97 ∷ []) (inet (10 ∷ 0 ∷ 0 ∷ 1 ∷ [])) 80 []
    ∷ video_browse remove (97 ∷ []) [] []
    ∷ []

length-call_backs_example : length (call_backs latin three_call_backs []) ≡ 1
length-call_backs_example = length-call_backs latin three_call_backs []

-- The sender "a" is new, removed, and new again.
abbrev three_signals : List DaemonSignal
three_signals =
    video_sender_new (97 ∷ []) [] []
    ∷ video_sender_removed (97 ∷ [])
    ∷ video_sender_new (97 ∷ []) [] []
    ∷ []

asked-requests_example :
    asked (97 ∷ []) (requests latin three_signals (record { senders = []; resolvers = [] })) ≡ 1
asked-requests_example =
    asked-requests latin (97 ∷ []) three_signals (record { senders = []; resolvers = [] })
