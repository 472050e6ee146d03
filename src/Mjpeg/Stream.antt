-- ===== src/Mjpeg/Stream.antt =====
-- What a stream of components/service/src/mjpeg_service.c does with frames, headers and time.
use esp_mo_net.Base.{
  [], ◌∷◌, ◌++◌, refl, none, some, true, false, List, ℕ, ◌≡◌, Bool, ◌<◌, length, if◌then◌else◌, ap,
  arith, Option, ◌^◌, ◌&&◌, ◌+◌, Bool-cases, ◌≤◌, ◌*◌, inl, length-append, take, ◌⊎◌, inr,
  take_whole, ltb, length-take, overwrite_lem, drop, take-append, ltb→lt,
}
use esp_mo_net.Mjpeg.{
  resp_set_type, resp_set_hdr, set_nodelay, StreamCall, Turn, pace, Frame, stream_loop, part_header,
  fb_return, task_delay, send_chunk, chunks, hdr_size, running_on, header_chunk, frame_us,
}
use mathlib.Core.List.{append_assoc}
use esp_mo_net.Format.{snprintf, decimal_u32, codes}
use esp_mo_net.Format.Size.{length-decimal_u32}

-- The frames that were given back, in order.
abbrev pub returned : List StreamCall → List ℕ
returned [] = []
returned (fb_return a ∷ calls) = a ∷ returned calls
returned (resp_set_type ∷ calls) = returned calls
returned (resp_set_hdr ∷ calls) = returned calls
returned (set_nodelay ∷ calls) = returned calls
returned (send_chunk bs ∷ calls) = returned calls
returned (task_delay ms ∷ calls) = returned calls

-- The frames that the loop got: up to the first turn that fails.
abbrev pub got : List Turn → List ℕ
got [] = []
got (t ∷ turns) = elim t.frame [
  | none ↦ []
  | some fb ↦ fb.address ∷ (if t.header_sent && t.body_sent then got turns else [])
]

returned-append : (xs ys : List StreamCall) → returned (xs ++ ys) ≡ returned xs ++ returned ys
returned-append [] ys = refl
returned-append (fb_return a ∷ xs) ys = ap (◌∷◌ a) (returned-append xs ys)
returned-append (resp_set_type ∷ xs) ys = returned-append xs ys
returned-append (resp_set_hdr ∷ xs) ys = returned-append xs ys
returned-append (set_nodelay ∷ xs) ys = returned-append xs ys
returned-append (send_chunk bs ∷ xs) ys = returned-append xs ys
returned-append (task_delay ms ∷ xs) ys = returned-append xs ys

returned-pace : (next now : ℕ) → returned (pace next now).0 ≡ []
unfolding pace
returned-pace next now = ground arith

returned-chunks :
    (hdr : List ℕ) (fb : Frame) (ok : Bool) (calls : List StreamCall)
    → returned (chunks hdr fb ok ++ fb_return fb.address ∷ calls) ≡ fb.address ∷ returned calls
returned-chunks hdr fb true calls = refl
returned-chunks hdr fb false calls = refl

returned-turn :
    (hdr : List ℕ) (fb : Frame) (ok : Bool) (next now : ℕ) (rest : List StreamCall)
    → returned ((chunks hdr fb ok ++ fb_return fb.address ∷ []) ++ ((pace next now).0 ++ rest))
      ≡ fb.address ∷ returned rest
returned-turn hdr fb ok next now rest =
    let sent = chunks hdr fb ok ++ fb_return fb.address ∷ [] in
    rw (
      returned-append sent ((pace next now).0 ++ rest),
      returned-append (pace next now).0 rest,
      returned-pace next now,
      returned-chunks hdr fb ok [],
    )

-- The stream gives back exactly the frames that it got, each once and in order, whichever send
-- fails and whenever the camera does.
pub frames_returned :
    (hdr : List ℕ) (turns : List Turn) (next : ℕ)
    → returned (stream_loop hdr next turns).0 ≡ got turns
unfolding stream_loop
frames_returned hdr [] next = refl
frames_returned hdr (t ∷ turns) next =
    by_frame t.frame refl (frames_returned hdr turns (pace next t.now).1)
  where
    by_frame :
        (o : Option Frame)
        → t.frame ≡ o
        → returned (stream_loop hdr (pace next t.now).1 turns).0 ≡ got turns
        → returned (stream_loop hdr next (t ∷ turns)).0 ≡ got (t ∷ turns)
    by_frame none e ih = rw e
    by_frame (some fb) e ih = elim (Bool-cases (t.header_sent && t.body_sent)) [
      | inl ok ↦ rw (e, ok, ← ih) (returned-turn hdr fb t.header_sent next t.now _)
      | inr broken ↦ rw (e, broken) (returned-chunks hdr fb t.header_sent [])
    ]

length-part_header : (len : ℕ) → len < 2 ^ 32 → length (part_header len) ≤ 82
unfolding part_header
length-part_header len h =
    omega (arith, length-append (decimal_u32 len) (codes "\r\n\r\n"), length-decimal_u32 len h)

-- The header of a part is sent whole: it fits in its buffer for every 32-bit length.
header_whole :
    (hdr : List ℕ) (len : ℕ)
    → length hdr ≡ hdr_size
    → len < 2 ^ 32
    → header_chunk hdr len ≡ part_header len
unfolding snprintf
header_whole hdr len size h =
    let text = part_header len in
    let short = length-part_header len h in
    let whole : take 95 text ≡ text =
      take_whole 95 text (omega (arith, length-take 95 text, short)) in
    rw (
      whole,
      overwrite_lem (text ++ 0 ∷ []) hdr (omega (arith, length-append text (0 ∷ []), short, size)),
      append_assoc text (0 ∷ []) (drop (length (text ++ 0 ∷ [])) hdr),
      take-append text (0 ∷ drop (length (text ++ 0 ∷ [])) hdr),
    )

-- The milliseconds that a list of calls waits.
abbrev pub waited : List StreamCall → ℕ
waited [] = 0
waited (task_delay ms ∷ calls) = ms + waited calls
waited (fb_return a ∷ calls) = waited calls
waited (resp_set_type ∷ calls) = waited calls
waited (resp_set_hdr ∷ calls) = waited calls
waited (set_nodelay ∷ calls) = waited calls
waited (send_chunk bs ∷ calls) = waited calls

-- A turn moves the due time on by a frame's share, or to the present if that is later, and waits
-- up to less than a millisecond before it.
pub paced :
    (next now : ℕ)
    → ((pace next now).1 ≡ next + frame_us ⊎ (pace next now).1 ≡ now)
      × (next + frame_us ≤ (pace next now).1)
      × (waited (pace next now).0 * 1000 + now ≤ (pace next now).1)
      × ((pace next now).1 < waited (pace next now).0 * 1000 + now + 1000)
unfolding pace
paced next now = elim (Bool-cases (ltb now (next + frame_us))) [
  | inl early ↦
      let before = ltb→lt now (next + frame_us) early in
      rw early (inl refl, omega arith, omega (arith, before), omega (arith, before))
  | inr late ↦
      let behind : next + frame_us ≤ now = ground arith in
      rw late (inr refl, behind, omega arith, omega arith)
]

running_on-inj : {a b : ℕ} → running_on a ≡ running_on b → a ≡ b
running_on-inj e = cc

-- While a stream goes on, the time that the next frame is due moves on by at least a frame's share
-- of a second for every frame that was sent.
pub rate_bound :
    (hdr : List ℕ) (turns : List Turn) (next : ℕ) {next' : ℕ}
    → (stream_loop hdr next turns).1 ≡ running_on next'
    → next + length turns * frame_us ≤ next'
unfolding stream_loop
rate_bound hdr [] next on = omega (arith, running_on-inj on)
rate_bound hdr (t ∷ turns) next {next'} on =
    by_frame t.frame refl (rate_bound hdr turns (pace next t.now).1)
  where
    by_frame :
        (o : Option Frame)
        → t.frame ≡ o
        → ((stream_loop hdr (pace next t.now).1 turns).1 ≡ running_on next'
            → (pace next t.now).1 + length turns * frame_us ≤ next')
        → next + length (t ∷ turns) * frame_us ≤ next'
    by_frame none e ih = absurd (cc (rw e at on))
    by_frame (some fb) e ih = elim (Bool-cases (t.header_sent && t.body_sent)) [
      | inl ok ↦ omega (arith, ih (rw (e, ok) at on), (paced next t.now).1)
      | inr broken ↦ absurd (cc (rw (e, broken) at on))
    ]
