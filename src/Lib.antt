-- ===== src/Lib.antt =====
-- livecaption turns a soundboard feed into live captions. Audio frames (internal/audio) are drained
-- into a bounded ring beside a silence gate (internal/stt/ring.go, internal/stt/gate.go); one
-- connection at a time takes them to a recognizer, with an index from stream positions back to
-- capture times (internal/stt/anchor.go); settled segments reach the hub
-- (internal/caption/hub.go), which paints them on the viewers' screens, closes transcript lines and
-- suppresses what is heard during music.
--
-- Audio: Float is what the program uses of float64, as a parameter, and Toy a stand-in for it on
-- whole numbers that the tests run; Format is internal/audio/source.go, Level is
-- internal/audio/level.go, NoiseGate is internal/audio/noise_gate.go, Broadcast is
-- internal/audio/broadcast.go, Capture is internal/audio/device.go, Devices is
-- internal/audio/devices.go and Monitor is internal/audio/monitor.go.
-- Stt: Gate, Ring and Anchor are internal/stt/gate.go, ring.go and anchor.go; Transcript is the
-- data of internal/stt/stt.go; SourceTime, Backoff and Driver are sourceTime, the backoff and the
-- reconnect loop of internal/stt/session.go, and Connection its loops for one connection; Engine,
-- Deepgram and Speechmatics are the protocols in internal/stt/deepgram/deepgram.go and
-- internal/stt/speechmatics/speechmatics.go, with Runs as the reference for both groupings; Mock
-- is internal/stt/mock.
-- Metrics: internal/metrics/metrics.go. ConnState and State are the types and New, Latency and
-- Percentile the latency series and their figures, Operations the methods that count, Report, Health
-- and Snapshot are Snapshot, and History runs a list of calls. A method that takes the lock is one step,
-- and so is one that only adds to atomics; a snapshot, which reads the atomics after the lock, is
-- one step too. The rest of the folder proves.
-- Caption: Event, Cutoff and Hub are internal/caption/hub.go. Cutoff is afterMusic; Hub.State is
-- the struct with its subscribers, Hub.Publish is publish and closeLocked, Hub.Music is SetMusic,
-- ResetConnection and releaseMusic, Hub.Operations has the other public methods and runs a list of
-- calls. Writer is internal/caption/writer.go and internal/caption/audit.go: Writer.State is the
-- struct and the records, Writer.Sink writes a record, Writer.Lines is Write, flush and Close,
-- Writer.Redaction is the attributes of a diagnostic. The rest of each folder proves.
--
-- Ui: internal/ui/terminal.go and internal/ui/logging.go. Terminal is the struct with its methods,
-- Status and Summary the texts, Logging the pretty handler and Calls runs a list of calls. The rest
-- of the folder proves.
-- Cli: internal/cli. Flags are the recognizer's flags and what fills them in, Banner the rows and
-- the address that are shown, Session the parts of a run that its hooks, observeLatency and shutdown
-- change, with the metrics, the hub, the writer and the terminal of the other folders. The rest of
-- each folder proves.
-- Web: Limiter and Requests are the handlers of internal/web/server.go that check or change
-- something; Rate and Reports prove.
--
-- Every operation of the gate, the ring, the index and the hub holds a lock, so each is a function
-- from the old state to the new one, and a concurrent run is a list of calls. An operation of the
-- hub reads the clock as an argument; a timer's function is a call that may come at any time, also
-- after the timer was stopped. What leaves the hub is the list `out`.
--
-- A time.Duration is an integer of nanoseconds and a time.Time is an optional one (none is the zero
-- time); both are int64 in Go, and the model does not wrap, so it is exact for media times and
-- differences within 292 years. Counters and byte counts are natural numbers and do not wrap; the
-- music token is a uint64 and does. Text is a list of Unicode code points, with Go's len as its
-- UTF-8 length; text that is not valid UTF-8 is outside the model. The binary search runs on fuel,
-- one round for each entry, which is enough since each round shortens the interval.
--
-- Not modelled: processes, sockets, files and terminals; JSON and URL
-- encoding, whose decoded messages are arguments; the web server's assets and streaming responses;
-- the parsing of the command line, and the goroutines that a run starts.
pub mod Base
pub mod Audio
pub mod Stt
pub mod Caption
pub mod Metrics
pub mod Ui
pub mod Web
pub mod Cli
