-- ===== src/Tests/Ingress.antt =====
-- The ways into the relay on concrete inputs: the WebSocket's queue and frames, the Raw TCP map, and
-- the registry of transports.
use lumen_project_final.Prelude.{
  ◌++◌, ◌≡◌, refl, true, false, ◌&&◌, String, List, leb, none, some, [], ◌∷◌, arith,
}
use lumen_project_final.Prelude.Eq.{string_eq}
use lumen_project_final.Prelude.Dict.{get, put}
use lumen_project_final.Prelude.Member.{contains}
use lumen_project_final.Prelude.Text.{strip, cut, is_space}
use lumen_project_final.Turbo.{Limits, Socket, binary, text, enqueue, receive_nowait, sent_frame}
use lumen_project_final.Turbo.Queue.{
  IsOrdered, IsFlowing, Run, stays, goes_on, arrives, takes, connected, Run-flows, Run-resumes,
  receive_nowait-stalls,
}
use lumen_project_final.Turbo.Framing.{read_frame, read_frame-sent_frame}
use lumen_project_final.RawTcp.{
  Names, Deployment, deployment, sni_for, location_for_sni, safe_location_id,
}
use lumen_project_final.RawTcp.Profiles.{IsStable, AllStable, location_for_sni-sni_for}
use lumen_project_final.Addresses.{Hostnames, normalize_sni}
use lumen_project_final.Repository.Metadata.{codes}
use lumen_project_final.Transports.{Runtime, missing, is_available, settings_ok, vless_parameters}
use lumen_project_final.Transports.FailClosed.{is_good, vless_parameters-is_good}

abbrev small : Limits
small = record { queue_high = 2; queue_low = 1; bytes_high = 100; bytes_low = 10 }

small-IsOrdered : IsOrdered small
small-IsOrdered = record { queue = omega arith; bytes = omega arith }

-- Two frames come in, which pauses reading, and both are taken out.
abbrev filled : Socket
filled = enqueue small (binary 7) (enqueue small (binary 60) connected)

abbrev drained : Socket
drained = (receive_nowait small (receive_nowait small filled).1).1

burst : Run small connected filled
burst =
    goes_on (goes_on stays (arrives 60 connected)) (arrives 7 (enqueue small (binary 60) connected))

Run-flows_example : IsFlowing small filled
Run-flows_example = Run-flows small filled small-IsOrdered burst

Run-resumes_example : drained.read_paused ≡ false
unfolding enqueue receive_nowait
Run-resumes_example =
    Run-resumes small drained small-IsOrdered
      (goes_on (goes_on burst (takes filled)) (takes (receive_nowait small filled).1)) refl

receive_nowait-stalls_example :
    ((receive_nowait small (enqueue small (text 120 60) connected)).1.queue ≡ [])
    × ((receive_nowait small (enqueue small (text 120 60) connected)).1.read_paused ≡ true)
receive_nowait-stalls_example = receive_nowait-stalls small 0 120 60 (omega arith) (omega arith)

read_frame-sent_frame_example :
    read_frame (sent_frame (1 ∷ 2 ∷ 3 ∷ []) ++ 130 ∷ 0 ∷ []) ≡ some (1 ∷ 2 ∷ 3 ∷ [], 130 ∷ 0 ∷ [])
read_frame-sent_frame_example = read_frame-sent_frame (1 ∷ 2 ∷ 3 ∷ []) (130 ∷ 0 ∷ []) (omega arith)

-- No text is an IP address, and letters are small.
abbrev hostnames : Hostnames
hostnames = record {
  compressed = λ s. none;
  idna = λ s. some s;
  lower = λ s. s;
  is_digit = λ c. leb 48 c && leb c 57;
}

abbrev plain : Names
plain = record { hostnames = hostnames; keeps = λ c. true }

once : normalize_sni hostnames "999.1.1.1." ≡ some "999.1.1.1"
unfolding normalize_sni strip is_space codes
once = refl

-- What a name gives is refused as a name.
twice : normalize_sni hostnames "999.1.1.1" ≡ none
unfolding normalize_sni strip is_space codes
twice = refl

abbrev raw_rows : List (String × String)
raw_rows = (" main.example", "") ∷ ("de.example.", "de1") ∷ []

same_again :
    (raw_name name : String)
    → normalize_sni hostnames raw_name ≡ some name
    → normalize_sni hostnames name ≡ some name
    → IsStable plain raw_name
same_again raw_name name e f other h = let same : name ≡ other = cc (e, h) in rw⁻¹ same f

main_once : normalize_sni hostnames " main.example" ≡ some "main.example"
unfolding normalize_sni strip is_space codes
main_once = refl

main_twice : normalize_sni hostnames "main.example" ≡ some "main.example"
unfolding normalize_sni strip is_space codes
main_twice = refl

de_once : normalize_sni hostnames "de.example." ≡ some "de.example"
unfolding normalize_sni strip is_space codes
de_once = refl

de_twice : normalize_sni hostnames "de.example" ≡ some "de.example"
unfolding normalize_sni strip is_space codes
de_twice = refl

rows_stable : AllStable plain raw_rows
rows_stable = (
  same_again " main.example" "main.example" main_once main_twice,
  (same_again "de.example." "de.example" de_once de_twice, tt),
)

abbrev two_rows : Deployment
two_rows = record {
  public_host = "proxy.example";
  public_port = 7000;
  sni_locations = ("main.example", "") ∷ ("de.example", "de1") ∷ [];
  default_sni = "main.example";
}

accepted : deployment plain "proxy.example" 7000 "main.example" raw_rows ≡ some two_rows
unfolding deployment get put strip cut contains normalize_sni is_space codes
accepted = refl

location_for_sni-sni_for_example :
    location_for_sni plain "de.example" two_rows ≡ some (safe_location_id plain "de1")
unfolding sni_for cut
location_for_sni-sni_for_example =
    location_for_sni-sni_for plain "proxy.example" 7000 "main.example" raw_rows two_rows "de1"
      "de.example" rows_stable accepted refl

abbrev runtime : Runtime
runtime = record {
  raw_tcp_available = false;
  uri_network = "tcp";
  safe_location = λ l. l;
  lower = λ s. s;
}

vless_parameters-is_good_example :
    is_good (vless_parameters runtime "vless-grpc" "u1" "example.org" "" missing)
    ≡ (is_available runtime "vless-grpc" && settings_ok missing)
vless_parameters-is_good_example =
    vless_parameters-is_good runtime "vless-grpc" "u1" "example.org" "" missing
