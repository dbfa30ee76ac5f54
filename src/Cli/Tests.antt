-- ===== src/Cli/Tests.antt =====
-- Runs of internal/cli, and the theorems at them.
use mathlib.Core.List.{Memᴰ}
use pi_live_captions.Base.{
  ℕ, [], ◌∷◌, true, false, none, some, inr, ◌↔◌, ◌≡◌, refl, ℤ, pos, negsuc, Text, codes, text_eq,
  if◌then◌else◌, ◌≤ℤ◌, sub_ℕ, subst, sym, ◌+◌, ◌*◌, quot_ℤ, arith,
}
use pi_live_captions.Audio.Toy.{toy, times}
use pi_live_captions.Stt.Transcript.{untimed}
use pi_live_captions.Caption.Hub.State.{new_hub}
use pi_live_captions.Caption.Writer.State.{new_writer, Payload, AttrValue}
use pi_live_captions.Metrics.State.{Metrics, new_metrics}
use pi_live_captions.Metrics.Operations.{set_stt_state_hook}
use pi_live_captions.Metrics.Snapshot.{Clock}
use pi_live_captions.Ui.Terminal.{new_terminal}
use pi_live_captions.Cli.Flags.{SttFlags, Files, EngineName, start_engine, split_lines}
use pi_live_captions.Cli.Flags.Launch.{start_engine-IsReady, IsReady}
use pi_live_captions.Cli.Session.{
  Session, Answers, Meeting, Published, observe_transcripts, shutdown,
}
use pi_live_captions.Cli.Session.Latency.{
  Accounted, totals, observe_transcripts-new_metrics-Accounted,
}
use pi_live_captions.Cli.Session.Standing.{IsWritten}
use pi_live_captions.Cli.Session.Ending.{shutdown_lem}
use pi_live_captions.Cli.Session.Over.{Ranks}
use pi_live_captions.Metrics.Report.{Snapshot}
use pi_live_captions.Ui.Summary.{summarize}
use pi_live_captions.Cli.Banner.{
  browser_url, split_host_port, split_last, host_of, bracketed, join_host_port, shown_host,
}

abbrev flags : SttFlags ℤ
flags = record {
  engine = codes "deepgram";
  api_key = [];
  model = [];
  language = codes "de";
  keyterm = codes "Amen" ∷ [];
  keyterm_file = codes "names";
  noise_threshold_dbfs = negsuc 49;
  noise_release = pos 5_000_000_000;
  auto_pause = true;
  silence_hold = pos 60_000_000_000;
  diarize = true;
  music_detect = true;
}

abbrev names : Files
names path = some (codes " Obadiah \n\n# Kings\nAhab")

abbrev environment : Text → Text
environment name = if text_eq name (codes "DEEPGRAM_API_KEY") then codes "key" else []

split_names : split_lines (codes "a\n\nb") ≡ codes "a\n" ∷ codes "\n" ∷ codes "b" ∷ []
unfolding split_lines
split_names = refl

start_engine-IsReady_example :
    (start_engine names environment flags
      ≡ inr (
        EngineName.deepgram,
        record flags {
          api_key = codes "key";
          model = codes "nova-3";
          keyterm = codes "Amen" ∷ codes "Obadiah" ∷ codes "Ahab" ∷ [];
        },
      ))
    ↔ IsReady names environment flags EngineName.deepgram (record flags {
      api_key = codes "key";
      model = codes "nova-3";
      keyterm = codes "Amen" ∷ codes "Obadiah" ∷ codes "Ahab" ∷ [];
    })
start_engine-IsReady_example = start_engine-IsReady names environment flags EngineName.deepgram _

abbrev spoken : Published
spoken = record {
  transcript = record {
    words = untimed (codes "amen");
    speaker = 1;
    start = pos 0;
    duration = pos 5;
    received_at = some (pos 30);
    captured_at = some (pos 10);
    sent_at = some (pos 14);
  };
  published = pos 33;
  now = pos 34;
  now_phases = pos 35;
}

observe_transcripts-new_metrics-Accounted_example :
    let m : Metrics ℤ = new_metrics (codes "1") (codes "s") (pos 0) in
    Accounted (λ x. Memᴰ x (totals (spoken ∷ []))) (observe_transcripts m (spoken ∷ []))
observe_transcripts-new_metrics-Accounted_example =
    observe_transcripts-new_metrics-Accounted ℤ (codes "1") (codes "s") (pos 0) (spoken ∷ [])

local_url : browser_url (codes "0.0.0.0:8080") ≡ codes "http://localhost:8080"
unfolding browser_url split_host_port split_last host_of bracketed join_host_port shown_host
local_url = refl

ipv6_url : browser_url (codes "[::1]:80") ≡ codes "http://[::1]:80"
unfolding browser_url split_host_port split_last host_of bracketed join_host_port shown_host
ipv6_url = refl

abbrev session : Session ℤ
session = record {
  met = set_stt_state_hook (new_metrics (codes "1") (codes "s") (pos 0));
  hub = new_hub true true;
  writer = some (new_writer (pos 0) none);
  audio = none;
  term = new_terminal true false false;
}

abbrev answers : Answers
answers = record {
  refused = some (codes "disk full");
  answer = none;
  close_err = none;
  audit_refused = none;
  audit_close_err = none;
}

abbrev clock : Clock
clock = record { locked = pos 90; paused = pos 91; gate = pos 92; up = pos 93; degraded = pos 94 }

abbrev meeting : Meeting
meeting = record {
  now = pos 90;
  state_answer = none;
  clock = clock;
  flushing = answers;
  clock_after = clock;
  end_answer = none;
  closing = answers;
}

abbrev numbered : ℤ → Text
numbered n = codes "n"

times_zero : (n : ℕ) → times (pos 0) (pos n) ≡ pos 0
times_zero n i = sub_ℕ (left i) (right i)
  where
    left : 0 * n + 0 * 0 ≡ 0
    left = omega arith

    right : 0 * 0 + 0 * n ≡ 0
    right = omega arith

toy-Ranks : Ranks toy
unfolding quot_ℤ
toy-Ranks n = subst (λ r. (pos 0 ≤ℤ r) × (r ≤ℤ r)) (sym (times_zero n)) (omega arith, omega arith)

shutdown_lem_example :
    (s' : Session ℤ) × (snap : Snapshot ℤ) × (shutdown toy numbered numbered numbered 9
        (λ x. 5)
        session
        meeting
      ≡ some (s', snap))
    × (snap.health ≡ codes "closed")
    × (s'.term ≡ summarize toy numbered numbered session.term snap s'.met.monitor_enabled)
    × IsWritten s'.writer (
        Payload.state_change (codes "stt") (codes "closed")
        ∷ Payload.diagnostic
            (codes "error")
            (codes "transcript write failed")
            ((codes "err", AttrValue.text (codes "disk full")) ∷ [])
        ∷ Payload.ended 5
        ∷ Payload.diagnostic
            (codes "error")
            (codes "transcript write failed")
            ((codes "err", AttrValue.text (codes "disk full")) ∷ [])
        ∷ [])
unfolding new_metrics new_writer set_stt_state_hook
shutdown_lem_example =
    shutdown_lem toy numbered numbered numbered 9 (λ x. 5) session (new_writer (pos 0) none) meeting
      toy-Ranks refl (refl, refl) (refl, refl, refl, refl, refl)
