-- ===== src/Ota/Resume.antt =====
-- What a device gets from server/src/handlers/ota_handler.c, in one download or in two.
use esp_mo_net.Ota.{
  no_range, send_loop, ota_handler, Range, from, range_start, header_for, chunk_size,
}
use esp_mo_net.Base.{
  [], ◌∷◌, ◌++◌, refl, zero, suc, some, List, ℕ, length, ◌<◌, ◌≤◌, ◌≡◌, take, ◌+◌, arith, leb,
  Bool-cases, drop, false, length-drop, take-drop, ◌==◌, inl, ap, inr, length-append, true, ◌-◌,
}

-- With enough writes everything that is left is sent.
send_loop_lem :
    (fuel writes : ℕ) (left : List ℕ)
    → length left ≤ fuel
    → length left ≤ writes
    → send_loop fuel writes left ≡ left
unfolding send_loop
send_loop_lem zero writes [] h k = refl
send_loop_lem zero writes (b ∷ left) h k = absurd (omega arith)
send_loop_lem (suc fuel) zero [] h k = refl
send_loop_lem (suc fuel) zero (b ∷ left) h k = absurd (omega arith)
send_loop_lem (suc fuel) (suc writes) left h k = elim (Bool-cases (length left == 0)) [
  | inl done ↦ simp done (none_left left (ground arith))
  | inr more ↦
      let n = length-drop chunk_size left in
      let some_left : (length left == 0) ≡ false = more in
      simp (
        more,
        send_loop_lem fuel writes (drop chunk_size left) (ground (arith, n)) (ground (arith, n)),
        take-drop chunk_size left,
      )
]
  where
    none_left : (xs : List ℕ) → length xs ≡ 0 → [] ≡ xs
    none_left [] e = refl
    none_left (x ∷ xs) e = absurd (omega arith)

-- Where the connection takes enough chunks, an answer has the header for the start that the
-- request's range leads to, and exactly the file's bytes from there on, whatever the range is.
pub ota_handler_lem :
    (file : List ℕ) (range : Range) (writes : ℕ)
    → length file ≤ writes
    → let start = range_start (length file) range in
      ota_handler (some file) range writes ≡ (header_for (length file) start, drop start file)
unfolding ota_handler
ota_handler_lem file range writes h =
    let start = range_start (length file) range in
    let n = length-drop start file in
    ap (λ body. (header_for (length file) start, body))
      (send_loop_lem (length (drop start file)) writes (drop start file) (omega arith)
        (omega (arith, n)))

-- A download of the firmware that broke off after k bytes, continued by a request for the range
-- from k, gives the whole file, for every k below the file's size; the connection takes every
-- chunk of both answers that is counted.
pub resume_completes :
    (file : List ℕ) (k writes : ℕ)
    → k < length file
    → length file ≤ writes
    → take k (ota_handler (some file) no_range writes).1
        ++ (ota_handler (some file) (from k) writes).1
      ≡ file
resume_completes file k writes inside h =
    let past : leb (length file) k ≡ false = ground arith in
    rw (ota_handler_lem file no_range writes h, ota_handler_lem file (from k) writes h, past)
      (take-drop k file)

drop-append : (xs ys : List ℕ) → drop (length xs) (xs ++ ys) ≡ ys
drop-append [] ys = refl
drop-append (x ∷ xs) ys = drop-append xs ys

-- A request to continue at the end of a file that is not empty is answered with the file's last
-- byte; the connection takes enough chunks.
resume_at_end :
    (file : List ℕ) (b writes : ℕ)
    → length file < writes
    → (ota_handler (some (file ++ b ∷ [])) (from (length file + 1)) writes).1 ≡ b ∷ []
resume_at_end file b writes h =
    let n = length-append {0} file (b ∷ []) in
    let past : leb (length (file ++ b ∷ [])) (length file + 1) ≡ true = ground (arith, n) in
    let last : length (file ++ b ∷ []) - 1 ≡ length file = omega (arith, n) in
    rw
      (
        ota_handler_lem (file ++ b ∷ []) (from (length file + 1)) writes (omega (arith, n)),
        past,
        last,
      )
      (drop-append file (b ∷ []))
