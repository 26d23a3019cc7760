-- ===== src/Alert/Prometheus/Description.antt =====
-- The text of the devices is a list with commas between its entries.
use Prim.Native.String
use Prim.Native.String.{len, slice}
use text.Mathlib.TextLemmas.{nil-append, append_assoc}
use text.Mathlib.TextPositions.{len-append, slice-append_left}
use climatik_project.Prelude.{◌+◌, ◌-◌, true, String, [], ◌∷◌, map, ◌≡◌, refl, ap, ◌∙◌, arith, ltb}
use climatik_project.Go.Text.{join, concat}
use climatik_project.Go.Map.{Map}
use climatik_project.Alert.Prometheus.{append_devices, trim_comma, device_text}

abbrev pub entry : String × String → String
entry (device, value) = concat (device ∷ ":" ∷ value ∷ [])

append_devices-join :
    (acc : String) (d : String × String) (devices : Map String)
    → append_devices acc (d ∷ devices)
      ≡ String.◌++◌ (String.◌++◌ acc (join "," (map entry (d ∷ devices)))) ","
unfolding append_devices join
append_devices-join acc d [] = simp append_assoc
append_devices-join acc d (e ∷ devices) =
    append_devices-join (String.◌++◌ acc (concat (d.0 ∷ ":" ∷ d.1 ∷ "," ∷ []))) e devices
    ∙ simp append_assoc

trim_comma-append : (s : String) → trim_comma (String.◌++◌ s ",") ≡ s
trim_comma-append s =
    let e : len (String.◌++◌ s ",") ≡ len s + 1 = len-append s "," in
    let cut : len (String.◌++◌ s ",") - 1 ≡ len s = omega (arith, e) in
    let positive : ltb 0 (len (String.◌++◌ s ",")) ≡ true = ground (arith, e) in
    rw positive (rw cut (slice-append_left s ","))

-- The text of the devices is "device:value" for each entry, in the order in which the map was
-- visited, with a comma between two entries and none at the end; it is empty for no devices.
pub device_text-eq-join :
    (devices : Map String) → device_text devices ≡ join "," (map entry devices)
unfolding device_text
device_text-eq-join [] = unfold append_devices join in refl
device_text-eq-join (d ∷ devices) =
    ap trim_comma (append_devices-join "" d devices)
    ∙ trim_comma-append _
    ∙ nil-append (join "," (map entry (d ∷ devices)))
