-- ===== src/Cli/Banner.antt =====
-- internal/cli/run.go: the address that is shown for the page, and the rows of the banner. The
-- standard library's SplitHostPort and JoinHostPort are written out.
pub mod Address
use pi_live_captions.Base.{
  ℕ, List, [], ◌∷◌, ◌++◌, Bool, true, false, not, ◌&&◌, ◌||◌, Option, none, some, Text, codes,
  text_eq, is_empty, decimal, length, ltb, ◌==◌, if◌then◌else◌, ◌>>=◌,
}
use pi_live_captions.Ui.Terminal.{BannerField}
use pi_live_captions.Cli.Flags.{SttFlags}

abbrev pub has_char : ℕ → Text → Bool
has_char x [] = false
has_char x (c ∷ cs) = c == x || has_char x cs

-- The text around the last colon.
unfoldable pub split_last : Text → Option (Text × Text)
split_last [] = none
split_last (c ∷ cs) = elim (split_last cs) [
  | some p ↦ some (c ∷ p.0, p.1)
  | none ↦ if c == b':' then some ([], cs) else none
]

-- The text in front of a first ']' that ends it.
unfoldable pub bracketed : Text → Option Text
bracketed [] = none
bracketed (c ∷ cs) =
    let rest = bracketed cs in
    if c == b']'
    then (if is_empty cs then some [] else none)
    else elim rest [ none ↦ none | some h ↦ some (c ∷ h) ]

-- The host of what stands in front of the last colon; none for an error.
unfoldable pub host_of : Text → Option Text
host_of [] = some []
host_of (c ∷ cs) =
    let inner = bracketed cs in
    if c == b'['
    then elim inner [ none ↦ none | some h ↦ if has_char b'[' h then none else some h ]
    else if has_char b':' (c ∷ cs) || has_char b'[' (c ∷ cs) || has_char b']' (c ∷ cs)
    then none
    else some (c ∷ cs)

-- net.SplitHostPort
unfoldable pub split_host_port : Text → Option (Text × Text)
split_host_port s = do
  p ← split_last s
  host ← host_of p.0
  if has_char b'[' p.1 || has_char b']' p.1 then none else some (host, p.1)

-- net.JoinHostPort
unfoldable pub join_host_port : Text → Text → Text
join_host_port host port =
    if has_char b':' host || has_char b'%' host
    then b'[' ∷ (host ++ b']' ∷ b':' ∷ port)
    else host ++ b':' ∷ port

-- The name of this machine for every address.
unfoldable pub shown_host : Text → Text
shown_host host =
    if is_empty host || text_eq host (codes "0.0.0.0") || text_eq host (codes "::")
    then codes "localhost"
    else host

unfoldable pub browser_url : Text → Text
browser_url addr = elim (split_host_port addr) [
  | none ↦ codes "http://" ++ addr
  | some p ↦ codes "http://" ++ join_host_port (shown_host p.0) p.1
]

abbrev pub row_of : Text → Text → Text → BannerField
row_of label value note = record { label = label; value = value; note = note }

-- What newSession shows: the options, whether there is a monitor, a broadcaster and an admin
-- password, and the transcript's directory.
pub record Shown : Type 0 where
  pub kind : Text
  pub source_label : Text
  pub has_monitor : Bool
  pub has_audio : Bool
  pub audio_stream : Bool
  pub audio_reason : Text
  pub addr : Text
  pub logo : Text
  pub mdns_name : Text
  pub has_password : Bool
  pub transcript_dir : Option Text

unfoldable pub audio_banner_field : Shown → Text → BannerField
audio_banner_field o base =
    if o.has_audio
    then row_of (codes "audio") (base ++ codes "/audio.mp3") []
    else if not o.audio_stream
    then row_of (codes "audio") (codes "disabled") (codes "--no-audio-stream")
    else row_of (codes "audio") (codes "disabled") o.audio_reason

unfoldable pub stt_note : {F : Type 0} → SttFlags F → Text
stt_note f =
    let note = codes "model=" ++ (f.model ++ (codes "  language=" ++ f.language)) in
    if ltb 0 (length f.keyterm)
    then note ++ (codes "  keyterms=" ++ decimal (length f.keyterm))
    else note

abbrev pub row_if : Bool → BannerField → List BannerField
row_if b f = if b then f ∷ [] else []

abbrev pub transcript_row : Option Text → BannerField
transcript_row none = row_of (codes "transcript") (codes "disabled") (codes "--no-transcript")
transcript_row (some dir) = row_of (codes "transcript") dir []

-- The banner of newSession.
unfoldable pub banner_fields : {F : Type 0} → Shown → SttFlags F → List BannerField
banner_fields o f =
    let base = browser_url o.addr in
    let admin =
      if o.has_password
      then codes "password required (user: admin)"
      else codes "controls disabled: set ADMIN_PASSWORD" in
    row_of (codes "source") (o.kind ++ (codes "  " ++ o.source_label)) []
    ∷ (row_if o.has_monitor (
          row_of (codes "monitor") (codes "pulse:default (~80ms buffer)")
            (codes "perceived delay overstates actual by this much"))
        ++ row_of (codes "stt") f.engine (stt_note f)
          ∷ transcript_row o.transcript_dir
          ∷ (row_if (not (is_empty o.logo)) (row_of (codes "logo") o.logo [])
              ++ row_of (codes "viewer") base []
                ∷ row_of (codes "admin") (base ++ codes "/admin") admin
                ∷ audio_banner_field o base
                ∷ row_if (not (is_empty o.mdns_name))
                    (row_of (codes "mdns") (o.mdns_name ++ codes ".local") [])))
