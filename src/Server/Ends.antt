-- ===== src/Server/Ends.antt =====
-- The loop of data_handler and image_handler that reads a body ends by itself.
use esp_mo_net.Base.{
  ◌++◌, refl, zero, suc, true, false, List, ℕ, ◌≤◌, length, ◌+◌, ◌≡◌, ltb, arith, if◌then◌else◌,
  ◌==◌, Bool-cases, inl, inr, length-append, min, ◌-◌,
}
use esp_mo_net.Server.{read_loop, ssl_read, rx_buf}

-- The loop that reads a body ends by itself: with at least as many rounds as there are bytes still
-- wanted, the number of rounds makes no difference to what it reads, whatever records the
-- connection delivers, empty ones included.
pub read_loop_ends :
    (rounds more len : ℕ) (body : List ℕ) (incoming : List (List ℕ))
    → len ≤ length body + rounds
    → len ≤ length body + more
    → read_loop rounds len body incoming ≡ read_loop more len body incoming
unfolding read_loop
read_loop_ends zero zero len body incoming h k = refl
read_loop_ends zero (suc more) len body incoming h k =
    let whole : ltb (length body) len ≡ false = ground arith in rw whole
read_loop_ends (suc rounds) zero len body incoming h k =
    let whole : ltb (length body) len ≡ false = ground arith in rw whole
read_loop_ends (suc rounds) (suc more) len body incoming h k =
    elim (Bool-cases (ltb (length body) len)) [
      | inr whole ↦ rw whole
      | inl wanted ↦ rw wanted (
          go (ssl_read (min (len - length body) rx_buf) incoming)
            (λ body' rest a b. read_loop_ends rounds more len body' rest a b))
    ]
  where
    go :
        (p : List ℕ × List (List ℕ))
        → ((body' : List ℕ) (rest : List (List ℕ))
            → len ≤ length body' + rounds
            → len ≤ length body' + more
            → read_loop rounds len body' rest ≡ read_loop more len body' rest)
        → (if length p.0 == 0
            then record { body = body; ended_early = true }
            else read_loop rounds len (body ++ p.0) p.1)
          ≡ (if length p.0 == 0
              then record { body = body; ended_early = true }
              else read_loop more len (body ++ p.0) p.1)
    go (got, rest) ih = elim (Bool-cases (length got == 0)) [
      | inl ended ↦ rw ended
      | inr some_read ↦
          let grown = length-append body got in
          rw some_read (ih (body ++ got) rest (ground (arith, grown)) (ground (arith, grown)))
    ]
