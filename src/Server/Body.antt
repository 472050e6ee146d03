-- ===== src/Server/Body.antt =====
-- The bytes that the server's handlers take for a body (server/src/handlers/data_handler.c,
-- server/src/handlers/image_handler.c), however the connection hands them out.
use mathlib.Core.List.{append-nil, append_assoc}
use esp_mo_net.Base.{
  [], ◌∷◌, ◌++◌, refl, zero, suc, none, some, List, ℕ, All, ◌≡◌, ◌<◌, length, ◌≤◌, arith, ◌+◌, drop,
  take, length-drop, ap, take-drop, length-take, false, min, ltb, sym, ◌-◌, ◌∙◌, take-append,
  if◌then◌else◌, length-append, ◌==◌, true, Bool-cases, inl, inr, take_whole,
}
use esp_mo_net.Server.{
  read_loop, ssl_read, Received, rx_buf, data_body, data_handler, image_handler, data_ok, Request,
  data_limit, have_bytes, length_required, bad_request, image_limit, too_large, image_result,
}

-- The bytes of all records.
abbrev pub stream : List (List ℕ) → List ℕ
stream [] = []
stream (r ∷ rs) = r ++ stream rs

-- No record is empty.
abbrev pub AllFull : List (List ℕ) → Type 0
AllFull = All (λ r. 0 < length r)

-- A read loses nothing, and hands out something as long as there is a record.
abbrev Read : ℕ → List (List ℕ) → List ℕ × List (List ℕ) → Type 0
Read todo rs (got, rest) =
    (got ++ stream rest ≡ stream rs)
    × AllFull rest
    × (length got ≤ todo)
    × ((length got ≡ 0) → stream rs ≡ [])

ssl_read-Read :
    (todo : ℕ) (rs : List (List ℕ)) → 0 < todo → AllFull rs → Read todo rs (ssl_read todo rs)
ssl_read-Read todo [] some_todo full = (refl, tt, omega arith, λ e. refl)
ssl_read-Read todo (r ∷ rs) some_todo (f, fs) = by_rest (drop todo r) refl
  where
    by_rest :
        (d : List ℕ)
        → drop todo r ≡ d
        → Read todo (r ∷ rs) (elim d [ [] ↦ (r, rs) | b ∷ bytes ↦ (take todo r, (b ∷ bytes) ∷ rs) ])
    by_rest [] e =
        (refl, fs, omega (arith, length-drop {0} todo r, ap length e), λ z. absurd (omega arith))
    by_rest (b ∷ bytes) e = (
      rw (← append_assoc (take todo r) (b ∷ bytes) (stream rs), ← e, take-drop todo r) refl,
      (omega arith, fs),
      omega (arith, length-take {0} todo r),
      λ z. absurd (omega (arith, length-take {0} todo r)),
    )

-- The first `len` bytes, and whether there were fewer.
abbrev pub first_bytes : ℕ → List ℕ → Received
first_bytes len bytes = record { body = take len bytes; ended_early = ltb (length bytes) len }

-- A body that has its length is the first bytes of whatever it goes on with.
whole_lem :
    (len : ℕ) (body more : List ℕ)
    → length body ≡ len
    → record { body = body; ended_early = false } ≡ first_bytes len (body ++ more)
whole_lem len body more e =
    let taken : take len (body ++ more) ≡ body =
      ap (λ n. take n (body ++ more)) (sym e) ∙ take-append body more in
    let long : ltb (length (body ++ more)) len ≡ false = ground (arith, length-append body more) in
    rw (taken, long) refl

stopped_lem :
    (len : ℕ) (body : List ℕ)
    → length body < len
    → record { body = body; ended_early = true } ≡ first_bytes len body
stopped_lem len body more =
    let all : take len body ≡ body =
      take_whole len body (omega (arith, length-take {0} len body)) in
    let early : ltb (length body) len ≡ true = ground arith in rw (all, early) refl

-- With as much fuel as there are bytes wanted, the loop ends with the first `len` bytes.
read_loop_lem :
    (fuel len : ℕ) (body : List ℕ) (rs : List (List ℕ))
    → AllFull rs
    → length body ≤ len
    → len ≤ length body + fuel
    → read_loop fuel len body rs ≡ first_bytes len (body ++ stream rs)
unfolding read_loop
read_loop_lem zero len body rs full short enough = whole_lem len body (stream rs) (omega arith)
read_loop_lem (suc fuel) len body rs full short enough = elim (Bool-cases (ltb (length body) len)) [
  | inr done ↦ rw done (whole_lem len body (stream rs) (ground arith))
  | inl more ↦ rw more (
      go (ssl_read (min (len - length body) rx_buf) rs)
        (ssl_read-Read (min (len - length body) rx_buf) rs (ground arith) full) (ground arith)
        (λ body' rs' f s e. read_loop_lem fuel len body' rs' f s e))
]
  where
    go :
        (p : List ℕ × List (List ℕ))
        → Read (min (len - length body) rx_buf) rs p
        → length body < len
        → ((body' : List ℕ) (rs' : List (List ℕ))
            → AllFull rs'
            → length body' ≤ len
            → len ≤ length body' + fuel
            → read_loop fuel len body' rs' ≡ first_bytes len (body' ++ stream rs'))
        → (if length p.0 == 0
            then record { body = body; ended_early = true }
            else read_loop fuel len (body ++ p.0) p.1)
          ≡ first_bytes len (body ++ stream rs)
    go (got, rest) (same, full', bound, nothing) more ih = elim (Bool-cases (length got == 0)) [
      | inl ended ↦ rw (ended, nothing (ground arith), append-nil body) (stopped_lem len body more)
      | inr read ↦
          rw (read, ← same, ← append_assoc body got (stream rest))
            (ih (body ++ got) rest full' (omega (arith, length-append {0} body got))
              (ground (arith, length-append {0} body got)))
    ]

take-append_le : (n : ℕ) (xs ys : List ℕ) → n ≤ length xs → take n (xs ++ ys) ≡ take n xs
take-append_le zero xs ys h = refl
take-append_le (suc n) [] ys h = absurd (omega arith)
take-append_le (suc n) (x ∷ xs) ys h = ap (◌∷◌ x) (take-append_le n xs ys (omega arith))

-- What is cut before the rest is read is cut once.
take-take-append : (n : ℕ) (xs ys : List ℕ) → take n (take n xs ++ ys) ≡ take n (xs ++ ys)
take-take-append zero xs ys = refl
take-take-append (suc n) [] ys = refl
take-take-append (suc n) (x ∷ xs) ys = ap (◌∷◌ x) (take-take-append n xs ys)

data_body_lem :
    (len : ℕ) (bytes : List ℕ) (rs : List (List ℕ))
    → AllFull rs
    → data_body true len bytes rs ≡ data_ok (take (min len data_limit) (bytes ++ stream rs))
data_body_lem len bytes rs full =
    let cap = min len data_limit in
    let first = take cap bytes in
    let read =
      read_loop_lem (cap - length first) cap first rs full
        (omega (arith, length-take {0} cap bytes)) (omega arith) in
    ap (λ r. data_ok r.body) read ∙ ap data_ok (take-take-append cap bytes (stream rs))

-- Where memory suffices, data_handler takes for the body the first bytes of what came with the
-- headers and what follows on the connection, however the connection splits them into records, as
-- many as the header says or, without a length, as came with the headers, and at most one
-- megabyte; with neither it answers that the request is bad. No record is empty.
pub data_handler_lem :
    (req : Request) (rs : List (List ℕ))
    → AllFull rs
    → let bytes = have_bytes req in
      let len = if req.content_len == 0 then length bytes else req.content_len in
      data_handler true req rs
      ≡ (if len == 0 then bad_request else data_ok (take (min len data_limit) (bytes ++ stream rs)))
unfolding data_handler
data_handler_lem req rs full = elim (Bool-cases (req.content_len == 0)) [
  | inr said ↦ simp said (data_body_lem req.content_len (have_bytes req) rs full)
  | inl unsaid ↦ elim (Bool-cases (length (have_bytes req) == 0)) [
    | inl nothing ↦ simp (unsaid, nothing)
    | inr some_bytes ↦
        simp (unsaid, some_bytes) (data_body_lem (length (have_bytes req)) (have_bytes req) rs full)
  ]
]

-- Where memory suffices, image_handler refuses a missing length and one above ten megabytes,
-- writes beyond its buffer when more came with the headers than the length says, and else takes
-- exactly the first bytes that the length says of what came and follows, however the connection
-- splits them, or fails if there are fewer. No record is empty.
pub image_handler_lem :
    (req : Request) (rs : List (List ℕ))
    → AllFull rs
    → image_handler true req rs ≡ (
        if req.content_len == 0
        then some length_required
        else if ltb image_limit req.content_len
        then some too_large
        else if ltb req.content_len (length (have_bytes req))
        then none
        else some (image_result (first_bytes req.content_len (have_bytes req ++ stream rs))))
unfolding image_handler
image_handler_lem req rs full = elim (Bool-cases (ltb req.content_len (length (have_bytes req)))) [
  | inl over ↦ simp over
  | inr fits ↦ simp (
    fits,
    read_loop_lem (req.content_len - length (have_bytes req)) req.content_len (have_bytes req) rs
        full (ground arith) (ground arith),
  )
]
