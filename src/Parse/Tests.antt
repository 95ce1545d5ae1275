-- ===== src/Parse/Tests.antt =====
-- Runs of the parser.
use zk_arche_compare.Base.{◌≡◌, refl, Option, none, some, Text, codes, is_space, is_digit}
use zk_arche_compare.Regex.{search_in, match_at, capture, Captures}
use zk_arche_compare.Parse.{metrics_re}

abbrev sample : Text
sample =
    codes
      "x SERVER METRICS -> Some(127.0.0.1:53412) Duration: 2.5ms, Sent: 240 bytes, Received: 320 bytes"

abbrev unit_of : Option Captures → Text
unit_of none = codes "?"
unit_of (some c) = capture 3 c

sample_unit : unit_of (search_in metrics_re sample) ≡ codes "ms"
unfolding search_in match_at codes capture is_space is_digit
sample_unit = refl

-- The line of src/bin/mtls_client.rs names its protocol before a comma, and does not match.
abbrev mtls_sample : Text
mtls_sample =
    codes
      "CLIENT METRICS -> Protocol: mTLS/TCP, Duration: 2.5ms, Sent: 240 bytes, Received: 320 bytes, DeviceID: 7"

mtls_sample_unmatched : search_in metrics_re mtls_sample ≡ none
unfolding search_in match_at codes capture is_space is_digit
mtls_sample_unmatched = refl
