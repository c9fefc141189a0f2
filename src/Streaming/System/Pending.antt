-- ===== src/Streaming/System/Pending.antt =====
-- The texts of the reports in a queue, and the packets that come of them.
use note_usb.Shared.{◌≡◌, refl, false, List, [], ◌∷◌, ◌++◌, arith, Text, is_empty, if◌then◌else◌}
use note_usb.Streaming.{Report}
use note_usb.Streaming.Capture.{sentinel, report}
use note_usb.Streaming.System.{ProcessPc, holding, drain_holding}

-- The contents of the reports in a queue, without the sentinels.
unfoldable pub reports_in : List Report → List Text
reports_in [] = []
reports_in (r ∷ rs) = let rest = reports_in rs in if r.is_sentinel then rest else r.content ∷ rest

unfoldable pub in_hand : ProcessPc → List Text
in_hand (holding content) = content ∷ []
in_hand (drain_holding content) = content ∷ []
in_hand other = []

-- What is newest first, once `ts` has come, oldest first, each made a packet.
unfoldable pub arriving_as : (Text → Text) → List Text → List Text → List Text
arriving_as packet [] old = old
arriving_as packet (t ∷ ts) old = arriving_as packet ts (packet t ∷ old)

unfoldable pub packets_of : (Text → Text) → List Text → List Text
packets_of packet [] = []
packets_of packet (t ∷ ts) = packet t ∷ packets_of packet ts

-- No report of the queue is empty but a sentinel.
abbrev pub AllFilled : List Report → Type 0
AllFilled [] = Unit
AllFilled (r ∷ rs) = ((r.is_sentinel ≡ false) → is_empty r.content ≡ false) × AllFilled rs

pub AllFilled-append :
    (rs : List Report) (r : Report)
    → AllFilled rs
    → ((r.is_sentinel ≡ false) → is_empty r.content ≡ false)
    → AllFilled (rs ++ r ∷ [])
AllFilled-append [] r a f = (f, tt)
AllFilled-append (x ∷ rs) r a f = (a.0, AllFilled-append rs r a.1 f)

pub reports_in-report :
    (rs : List Report) (content : Text)
    → reports_in (rs ++ report content ∷ []) ≡ reports_in rs ++ content ∷ []
unfolding reports_in
reports_in-report [] content = refl
reports_in-report (r ∷ rs) content = ground (arith, reports_in-report rs content)

pub reports_in-sentinel : (rs : List Report) → reports_in (rs ++ sentinel ∷ []) ≡ reports_in rs
unfolding reports_in
reports_in-sentinel [] = refl
reports_in-sentinel (r ∷ rs) = ground (arith, reports_in-sentinel rs)

pub arriving_as-append :
    (packet : Text → Text) (ts : List Text) (t : Text) (old : List Text)
    → arriving_as packet (ts ++ t ∷ []) old ≡ packet t ∷ arriving_as packet ts old
unfolding arriving_as
arriving_as-append packet [] t old = refl
arriving_as-append packet (x ∷ ts) t old = arriving_as-append packet ts t (packet x ∷ old)
