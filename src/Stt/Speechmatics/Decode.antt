-- ===== src/Stt/Speechmatics/Decode.antt =====
-- internal/stt/speechmatics/speechmatics.go: Decode.
use pi_live_captions.Base.{
  List, [], Bool, true, false, Option, none, some, codes, text_eq, if◌then◌else◌,
}
use pi_live_captions.Audio.Float.{Float64}
use pi_live_captions.Stt.Engine.{seconds_to_duration}
use pi_live_captions.Stt.Transcript.{Transcript}
use pi_live_captions.Stt.Connection.{MusicEdge}
use pi_live_captions.Stt.Speechmatics.{ServerMessage, EngineError, end_of_transcript, as_error}
use pi_live_captions.Stt.Speechmatics.Transcripts.{transcripts}

-- The segments and the music edge, or an error.
pub data Decoded : Type 0 where
  decoded : List Transcript → Option MusicEdge → Decoded
  broken : EngineError → Decoded

module _ (fl : Float64) where
  open fl use {F}

  unfoldable pub music_edge : ServerMessage F → Bool → Option MusicEdge
  music_edge m active =
      if text_eq m.event.kind (codes "music")
      then some (record {
        active = active;
        at = seconds_to_duration fl (if active then m.event.start_time else m.event.end_time);
      })
      else none

  unfoldable pub decode_message : ServerMessage F → Decoded
  decode_message m =
      if text_eq m.message (codes "AddTranscript")
      then decoded (transcripts fl m) none
      else if text_eq m.message (codes "AddPartialTranscript")
      then decoded [] none
      else if text_eq m.message (codes "Error")
      then broken (as_error m)
      else if text_eq m.message (codes "EndOfTranscript")
      then broken end_of_transcript
      else if text_eq m.message (codes "Warning")
      then decoded [] none
      else if text_eq m.message (codes "AudioEventStarted")
      then decoded [] (music_edge m true)
      else if text_eq m.message (codes "AudioEventEnded")
      then decoded [] (music_edge m false)
      else decoded [] none

  unfoldable pub decode : Option (ServerMessage F) → Decoded
  decode none = decoded [] none
  decode (some m) = decode_message m
