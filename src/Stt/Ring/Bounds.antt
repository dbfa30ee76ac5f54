-- ===== src/Stt/Ring/Bounds.antt =====
-- What the ring holds after each operation, and what it drops.
use pi_live_captions.Base.{
  ℕ, ◌+◌, ◌-◌, ◌≤◌, ◌<◌, List, [], ◌∷◌, ◌++◌, true, none, some, ◌≡◌, refl, subst, ◌∙◌, ap, ◌⊎◌, inl,
  inr, length, ltb, arith, Bool-cases,
}
use pi_live_captions.Audio.Format.{Duration, Frame}
use pi_live_captions.Stt.Gate.{Gate}
use pi_live_captions.Stt.Ring.{Chunk, Ring, new_ring, report, evict, admit, push, pop, pop_chunks}

-- The bytes of PCM in a list of chunks.
abbrev pub total : List Chunk → ℕ
total [] = 0
total (c ∷ cs) = length c.pcm + total cs

-- The offsets of the chunks that were admitted while the gate was active.
abbrev pub active_offsets : List Chunk → List Duration
active_offsets [] = []
active_offsets (c ∷ cs) = report c (active_offsets cs)

-- `kept` is what is left of `all` when `dropped` has gone from its front, and no more has gone than
-- had to: what is left fits or is one chunk, and with any dropped chunk it would not fit.
pub record Evicts (cap : ℕ) (all dropped kept : List Chunk) : Type 0 where
  pub split : all ≡ dropped ++ kept
  pub newest : 0 < length all → 0 < length kept
  pub fits : (total kept ≤ cap) ⊎ (length kept ≤ 1)
  pub forced :
      (pre : List Chunk) (d : Chunk) (post : List Chunk)
      → dropped ≡ pre ++ d ∷ post
      → cap < total (d ∷ post ++ kept)

total-append : (xs ys : List Chunk) → total (xs ++ ys) ≡ total xs + total ys
total-append [] ys = omega arith
total-append (x ∷ xs) ys = omega (arith, total-append xs ys)

pub record IsValid (r : Ring) : Type 0 where
  pub counted : r.bytes ≡ total r.chunks
  pub bounded : (r.bytes ≤ r.cap_bytes) ⊎ (length r.chunks ≤ 1)

pub new_ring-IsValid : (cap : ℕ) → IsValid (new_ring cap)
unfolding new_ring
new_ring-IsValid cap = record { counted = refl; bounded = inl (omega arith) }

nothing-split : (pre post : List Chunk) (d : Chunk) → [] ≡ pre ++ d ∷ post → ⊥
nothing-split [] post d e = cc
nothing-split (p ∷ pre) post d e = cc

stay-Evicts :
    (cap : ℕ) (all : List Chunk) → (total all ≤ cap) ⊎ (length all ≤ 1) → Evicts cap all [] all
stay-Evicts cap all fit = record {
  split = refl;
  newest = λ h. h;
  fits = fit;
  forced = λ pre d post e. absurd (nothing-split pre post d e);
}

forced-cons :
    (cap : ℕ) (c : Chunk) (all dropped kept : List Chunk)
    → cap < total (c ∷ all)
    → Evicts cap all dropped kept
    → (pre : List Chunk) (d : Chunk) (post : List Chunk) → c ∷ dropped ≡ pre ++ d ∷ post
    → cap < total (d ∷ post ++ kept)
forced-cons cap c all dropped kept over v [] d post e =
    subst (λ cs. cap < total cs) (ap (◌∷◌ c) v.split ∙ ap (λ cs. cs ++ kept) e) over
forced-cons cap c all dropped kept over v (p ∷ pre) d post e = v.forced pre d post (cc)

drop-Evicts :
    (cap : ℕ) (c : Chunk) (all dropped kept : List Chunk)
    → cap < total (c ∷ all)
    → 0 < length all
    → Evicts cap all dropped kept
    → Evicts cap (c ∷ all) (c ∷ dropped) kept
drop-Evicts cap c all dropped kept over more v = record {
  newest = λ h. v.newest more;
  split = ap (◌∷◌ c) v.split;
  fits = v.fits;
  forced = forced-cons cap c all dropped kept over v;
}

abbrev Loop : ℕ → ℕ → List Chunk → Type 0
Loop cap bytes all =
    let (left, kept, drops) = evict cap bytes all in
    (left ≡ total kept)
    × ((dropped : List Chunk) × Evicts cap all dropped kept × (drops ≡ active_offsets dropped))

evict_lem : (cap bytes : ℕ) (all : List Chunk) → bytes ≡ total all → Loop cap bytes all
unfolding evict
evict_lem cap bytes [] e = (e, ([], stay-Evicts cap [] (inr (omega arith)), refl))
evict_lem cap bytes (c ∷ []) e = (e, ([], stay-Evicts cap (c ∷ []) (inr (omega arith)), refl))
evict_lem cap bytes (c ∷ d ∷ rest) e = elim (Bool-cases (ltb cap bytes)) [
  | inl over ↦
      rw over (more (evict_lem cap (bytes - length c.pcm) (d ∷ rest) (omega arith)) (ground arith))
  | inr under ↦ rw under (e, ([], stay-Evicts cap (c ∷ d ∷ rest) (inl (ground arith)), refl))
]
  where
    more :
        Loop cap (bytes - length c.pcm) (d ∷ rest)
        → cap < bytes
        → let (left, kept, drops) = evict cap (bytes - length c.pcm) (d ∷ rest) in
          (left ≡ total kept)
          × ((dropped : List Chunk) × Evicts cap (c ∷ d ∷ rest) dropped kept
              × (report c drops ≡ active_offsets dropped))
    more (counted, (dropped, v, reported)) over = (
      counted,
      (
        c ∷ dropped,
        drop-Evicts cap c (d ∷ rest) dropped _ (omega arith) (omega arith) v,
        ap (report c) reported,
      ),
    )

-- A push into a valid ring admits the chunk at the back with the gate's state, and drops from the
-- front no more than it has to; it counts exactly the dropped chunks that were admitted while the
-- gate was active, leaves a token for the writer, and keeps the ring valid.
pub push_lem :
    (r : Ring) (g : Gate) (f : Frame)
    → IsValid r
    → let (r', drops) = push r g f in
      IsValid r'
      × (r'.notified ≡ true)
      × ((dropped : List Chunk) × Evicts r.cap_bytes (r.chunks ++ admit g f ∷ []) dropped r'.chunks
          × (drops ≡ active_offsets dropped))
unfolding push
push_lem r g f v = finish (
    evict_lem r.cap_bytes (r.bytes + length f.pcm) (r.chunks ++ admit g f ∷ [])
      (omega (arith, v.counted, total-append r.chunks (admit g f ∷ []))))
  where
    finish :
        Loop r.cap_bytes (r.bytes + length f.pcm) (r.chunks ++ admit g f ∷ [])
        → let (r', drops) = push r g f in
          IsValid r'
          × (r'.notified ≡ true)
          × ((dropped : List Chunk) × Evicts r.cap_bytes
                (r.chunks ++ admit g f ∷ [])
                dropped
                r'.chunks
              × (drops ≡ active_offsets dropped))
    finish (counted, (dropped, e, reported)) =
        (record { counted = counted; bounded = rw counted e.fits }, refl, (dropped, e, reported))

pop_chunks_lem :
    (r : Ring) (cs : List Chunk)
    → r.chunks ≡ cs
    → IsValid r
    → let (c, r') = pop_chunks r cs in
      IsValid r'
      × (((cs ≡ []) × (c ≡ none) × (r' ≡ r)) ⊎ ((x : Chunk) × (c ≡ some x) × (cs ≡ x ∷ r'.chunks)))
unfolding pop_chunks
pop_chunks_lem r [] e v = (v, inl (refl, refl, refl))
pop_chunks_lem r (x ∷ cs) e v = (
  record { counted = omega (arith, v.counted, ap total e); bounded = fit v.bounded },
  inr (x, refl, refl),
)
  where
    fit :
        (r.bytes ≤ r.cap_bytes) ⊎ (length r.chunks ≤ 1)
        → (r.bytes - length x.pcm ≤ r.cap_bytes) ⊎ (length cs ≤ 1)
    fit (inl h) = inl (omega arith)
    fit (inr h) = inr (omega (arith, ap (length {A = Chunk}) e))

-- A pop takes the oldest chunk, and nothing only from an empty ring; it keeps the ring valid.
pub pop_lem :
    (r : Ring)
    → IsValid r
    → let (c, r') = pop r in
      IsValid r'
      × (((r.chunks ≡ []) × (c ≡ none) × (r' ≡ r))
          ⊎ ((x : Chunk) × (c ≡ some x) × (r.chunks ≡ x ∷ r'.chunks)))
unfolding pop
pop_lem r v = pop_chunks_lem r r.chunks refl v
