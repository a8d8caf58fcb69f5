-- ===== src/Aprsis/Tests.antt =====
-- src/aprsis.c: concrete calls, and a client that could not resolve its server.
use meshcore_repeater.Common.{negsuc, ◌≡◌, refl, true, false, [], ◌∷◌, none, some, replicate}
use meshcore_repeater.Common.Text.{codes}
use meshcore_repeater.Config.Lists.{split_dash}
use meshcore_repeater.Aprsis.{Aprsis, AprsisSettings}
use meshcore_repeater.Aprsis.Callsign.{
  aprsis_passcode, call_root, hash_pairs, aprsis_valid_callsign, upper_call, ssid_ok, all_alnum,
  shape_ok, count_letters, has_letter,
}
use meshcore_repeater.Aprsis.Session.{Io, bytes_in, taken, aprsis_service, aprsis_init}
use meshcore_repeater.Aprsis.Bounds.{Fits}
use meshcore_repeater.Aprsis.Reached.{Idle, booted, serviced, Reached-Fits, Reached-Idle}

passcode_of_n0call : aprsis_passcode (codes "n0call-7") ≡ 13023
unfolding aprsis_passcode call_root hash_pairs
passcode_of_n0call = refl

valid_call : aprsis_valid_callsign (codes "yo6xyz-7") ≡ some (codes "YO6XYZ-7")
unfolding aprsis_valid_callsign upper_call split_dash ssid_ok all_alnum shape_ok count_letters
    has_letter
valid_call = refl

plain_name : aprsis_valid_callsign (codes "Brasov") ≡ none
unfolding aprsis_valid_callsign upper_call split_dash ssid_ok all_alnum shape_ok count_letters
    has_letter
plain_name = refl

abbrev settings : AprsisSettings
settings = record {
  enable = true;
  call = codes "YO6XYZ-10";
  passcode = codes "-1";
  tocall = codes "APRFGR";
  node_symbol = codes "Mn";
  beacon_interval = 1800;
  node_rate = 900;
}

abbrev io : Io
io = record {
  broken = false;
  readable = true;
  writable = true;
  socket_ok = true;
  connect_ok = true;
  so_error = 0;
  input = bytes_in (codes "# hello");
  sends = taken 10 ∷ [];
  beacon_sends = [];
  beacon = none;
}

abbrev later : Aprsis
later = aprsis_service io (aprsis_init settings (replicate 32 1) (negsuc 0) false).1 60000

Reached-Fits_example : Fits later
Reached-Fits_example =
    Reached-Fits settings (replicate 32 1) false later (serviced io 60000 (booted (negsuc 0)))

Reached-Idle_example : Idle later
Reached-Idle_example =
    Reached-Idle settings (replicate 32 1) later (serviced io 60000 (booted (negsuc 0)))
