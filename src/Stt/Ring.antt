-- ===== src/Stt/Ring.antt =====
-- internal/stt/ring.go: the buffer of PCM chunks between capture and the connection. Its lock makes
-- each operation atomic. A drop that is counted (STTBufferDrop) is returned with its offset.
pub mod Bounds
use pi_live_captions.Base.{
  ℕ, suc, ◌+◌, ◌-◌, List, [], ◌∷◌, ◌++◌, Bool, true, false, Option, none, some, length, ltb,
  if◌then◌else◌,
}
use pi_live_captions.Audio.Format.{Duration, Time, Frame}
use pi_live_captions.Stt.Gate.{Gate}

pub record Chunk : Type 0 where
  pub pcm : List ℕ
  pub captured_at : Time
  pub active : Bool
  pub offset : Duration

-- `notified` says that the channel `notify`, of one place, holds its token.
pub record Ring : Type 0 where
  pub chunks : List Chunk
  pub bytes : ℕ
  pub cap_bytes : ℕ
  pub notified : Bool

unfoldable pub new_ring : ℕ → Ring
new_ring cap_bytes = record { chunks = []; bytes = 0; cap_bytes = cap_bytes; notified = false }

abbrev pub report : Chunk → List Duration → List Duration
report c drops = if c.active then c.offset ∷ drops else drops

-- The loop of `push`. `bytes` is the sum over the chunks, so the subtraction is exact.
evict : ℕ → ℕ → List Chunk → ℕ × List Chunk × List Duration
evict cap bytes [] = (bytes, [], [])
evict cap bytes (c ∷ []) = (bytes, c ∷ [], [])
evict cap bytes (c ∷ d ∷ rest) =
    let later = evict cap (bytes - length c.pcm) (d ∷ rest) in
    if ltb cap bytes then (later.0, later.1, report c later.2) else (bytes, c ∷ d ∷ rest, [])

abbrev pub admit : Gate → Frame → Chunk
admit g f = record {
  pcm = f.pcm;
  captured_at = f.captured_at;
  active = g.active;
  offset = f.offset;
}

unfoldable pub push : Ring → Gate → Frame → Ring × List Duration
unfolding evict
push r g f =
    let kept = evict r.cap_bytes (r.bytes + length f.pcm) (r.chunks ++ admit g f ∷ []) in
    (record r { chunks = kept.1; bytes = kept.0; notified = true }, kept.2)

pop_chunks : Ring → List Chunk → Option Chunk × Ring
pop_chunks r [] = (none, r)
pop_chunks r (c ∷ cs) = (some c, record r { chunks = cs; bytes = r.bytes - length c.pcm })

unfoldable pub pop : Ring → Option Chunk × Ring
unfolding pop_chunks
pop r = pop_chunks r r.chunks

unfoldable pub empty : Ring → Bool
empty r = elim r.chunks [ [] ↦ true | _ ∷ _ ↦ false ]
