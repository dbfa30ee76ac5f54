-- ===== src/Audio/Tests.antt =====
-- The noise gate and the broadcast at concrete inputs, with float64 as whole numbers.
use pi_live_captions.Base.{
  List, [], ◌∷◌, ◌≡◌, refl, All, Bool, ℤ, pos, negsuc, true, false, none, some, Text, codes,
  trim_space, is_space, arith,
}
use pi_live_captions.Audio.Toy.{toy, micro, micro-time}
use pi_live_captions.Audio.Format.{Frame}
use pi_live_captions.Audio.NoiseGate.{NoiseGate, NoiseSettings, PeakSample, process_all, trim_peaks}
use pi_live_captions.Audio.NoiseGate.Contract.{AreGated, Alternates, passed}
use pi_live_captions.Audio.NoiseGate.Opening.{marks, openings, sounds, process_all-openings}
use pi_live_captions.Audio.NoiseGate.Peaks.{recent, trim_peaks-recent}
use pi_live_captions.Audio.Broadcast.{
  Call, publishes, subscribes, closes, close, close_all, new_broadcaster, run, call, publish,
  subscribe, offer, offer_all,
}
use pi_live_captions.Audio.Devices.{
  list_backend, parse_devices, parse_device, split_newlines, cut_prefix, cut_last, cut_bracket,
  name_label,
}
use pi_live_captions.Audio.Capture as Capture
use pi_live_captions.Audio.Capture.{
  Read, Attempt, PipeError, start_capture, new_device_source, capture_once, capture, take_read,
  unavailable, next_wait,
}
use pi_live_captions.Audio.Capture.Clock.{IsClocked, start_capture-IsClocked}
use pi_live_captions.Audio.Broadcast.Bounds.{IsServed, run-new_broadcaster-IsValid}

abbrev one_read : Read
one_read = record { bytes = 1 ∷ 2 ∷ []; clock = pos 5; taken = true; err = none }

abbrev last_read : Read
last_read = record { bytes = 3 ∷ []; clock = pos 9; taken = true; err = some PipeError.eof }

abbrev attempts : List Attempt
attempts =
    record {
      launch_err = none;
      reads = one_read ∷ last_read ∷ [];
      last_stderr = codes "no such device";
      cancelled = false;
      slept = true;
    }
    ∷ record {
      launch_err = some (codes "no ffmpeg");
      reads = [];
      last_stderr = [];
      cancelled = false;
      slept = true;
    }
    ∷ record {
      launch_err = none;
      reads = one_read ∷ [];
      last_stderr = [];
      cancelled = false;
      slept = true;
    }
    ∷ []

start_capture-IsClocked_example : IsClocked micro (start_capture micro [] attempts)
start_capture-IsClocked_example = start_capture-IsClocked micro micro-time [] attempts

two_waits : (start_capture micro [] attempts).waits ≡ 250_000_000 ∷ 500_000_000 ∷ []
unfolding start_capture Capture.run new_device_source capture_once capture take_read unavailable
    next_wait
two_waits = refl

abbrev listing : Text → Text
listing backend =
    codes "Auto-detected sources for pulse:\n* default [Built-in]\n  usb.mono [HyperX DuoCast]\n\n"

listed :
    list_backend listing (codes "pulse")
    ≡ record {
      backend = codes "pulse";
      name = codes "default";
      label = codes "Built-in";
      is_default = true;
    }
      ∷ record {
        backend = codes "pulse";
        name = codes "usb.mono";
        label = codes "HyperX DuoCast";
        is_default = false;
      }
      ∷ []
unfolding list_backend parse_devices parse_device split_newlines cut_prefix cut_last cut_bracket
    name_label trim_space is_space
listed = refl

abbrev settings : NoiseSettings ℤ
settings = record { threshold_dbfs = pos 0; release_sec = pos 5 }

abbrev noise_gate : NoiseGate ℤ
noise_gate = record {
  settings = settings;
  startup = settings;
  open_now = false;
  last_above = pos 0;
  last_offset = pos 0;
  last_sample = none;
  rms = negsuc 99;
  peaks = [];
}

abbrev loud : Frame
loud = record {
  noise_gated = false;
  noise_gate_open = false;
  pcm = 0 ∷ 1 ∷ 0 ∷ 1 ∷ [];
  offset = pos 7;
  captured_at = none;
}

abbrev quiet_frame : Frame
quiet_frame = record loud { pcm = 0 ∷ 0 ∷ []; offset = pos 9_000_000_000 }

abbrev forth : List (Frame × ℤ × Bool)
forth = (loud, pos 1, true) ∷ (quiet_frame, pos 2, true) ∷ (quiet_frame, pos 3, false) ∷ []

process_all-openings_example :
    AreGated (passed forth) (process_all toy noise_gate forth).1
    × (marks (process_all toy noise_gate forth).1
        ≡ openings toy noise_gate.settings (sounds toy noise_gate) (passed forth))
    × Alternates noise_gate.open_now
        (process_all toy noise_gate forth).2
        (process_all toy noise_gate forth).0.open_now
process_all-openings_example =
    process_all-openings toy noise_gate forth (omega arith)
      (omega arith, (omega arith, (omega arith, tt)))

abbrev some_peaks : List (PeakSample ℤ)
some_peaks = record { at = pos 5; db = pos 1 } ∷ record { at = pos 1_000_000_000; db = pos 2 } ∷ []

trim_peaks-recent_example :
    trim_peaks (pos 1_500_000_000) some_peaks ≡ recent (pos 1_500_000_000) some_peaks
trim_peaks-recent_example =
    trim_peaks-recent (pos 1_500_000_000) some_peaks ((omega arith, tt), (tt, tt))

abbrev calls : List Call
calls =
    subscribes
    ∷ publishes (1 ∷ [])
    ∷ publishes (2 ∷ [])
    ∷ publishes (3 ∷ [])
    ∷ publishes (4 ∷ [])
    ∷ publishes (5 ∷ [])
    ∷ closes
    ∷ subscribes
    ∷ []

fifth_dropped : (run new_broadcaster calls).dropped ≡ 1
unfolding run call publish subscribe offer offer_all close close_all
fifth_dropped = refl

run-new_broadcaster-IsValid_example : All (IsServed true) (run new_broadcaster calls).listeners
run-new_broadcaster-IsValid_example = run-new_broadcaster-IsValid calls
