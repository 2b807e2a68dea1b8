-- ===== src/Device/Connector/Tests.antt =====
-- The connector of lib/units/base-device/support/connector.js on small inputs.
use mercury_farm.Base.{◌≡◌, refl, true, false, none, some, [], ◌∷◌, ◌++◌, map}
use mercury_farm.Device.Connector.{
  Options, android, new, run, start_result, starts_on, start_settles, stop_settles, step, start,
  start_at, begun, start_ends, started_with, final_url, android_url, with_port, reply_all,
  reply_started, stop_ends,
}
use mercury_farm.Device.Connector.Sharing.{left_by, start-is_shared}

abbrev options : Options
options = record {
  device_type = android;
  storage_host = some (some "farm");
  url_without_adb_port = false;
}

start-is_shared_example :
    run options
      (starts_on "a" ∷ map starts_on ("b" ∷ "c" ∷ [])
        ++ start_settles (some "u") (some (some "7401")) ∷ [])
      new
    ≡ left_by (start_result options (some "u") (some (some "7401"))) ("a" ∷ "b" ∷ "c" ∷ []) new
unfolding new
start-is_shared_example =
    start-is_shared options "a" ("b" ∷ "c" ∷ []) (some "u") (some (some "7401")) new refl refl

url_test :
    (run options (starts_on "a" ∷ start_settles (some "u") (some (some "7401")) ∷ []) new).url
    ≡ some "farm:7401"
unfolding run step start start_at begun new start_ends started_with start_result final_url
    android_url with_port reply_all reply_started
url_test = refl

-- a stop that ends while a start is going on
stop_test :
    (run options
      (starts_on "a" ∷ stop_settles "b" none ∷ start_settles (some "u") (some (some "7401")) ∷ [])
      new).started
    ≡ true
unfolding run step start start_at begun new start_ends started_with start_result final_url
    android_url with_port reply_all reply_started stop_ends
stop_test = refl
