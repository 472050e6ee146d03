-- ===== src/Https/Calls.antt =====
-- How the posts of components/net/src/https_post_hal.c treat their client and what their answers mean.
use mathlib.Core.List.{cons-ne-nil}
use esp_mo_net.Base.{
  [], ◌∷◌, ◌++◌, refl, some, true, false, List, ℕ, Bool, ◌≡◌, if◌then◌else◌, All, length, ◌<◌, ◌^◌,
  ◌↔◌, ◌≢◌, ◌≤◌, ap, arith, Bool-cases, inr, inl, ◌==◌, ◌%◌,
}
use esp_mo_net.Https.{
  client_init, client_perform, client_close, client_cleanup, ClientCall, http_post_send,
  http_post_image, set_header, Answers, set_post_field, client_open, client_write, post_opened,
}

abbrev is_cleanup : ClientCall → Bool
is_cleanup client_cleanup = true
is_cleanup client_init = false
is_cleanup client_perform = false
is_cleanup client_close = false
is_cleanup (set_header k v) = false
is_cleanup (set_post_field json) = false
is_cleanup (client_open len) = false
is_cleanup (client_write bytes) = false

-- A client is made and given back: what stands between does not give it back.
abbrev Uses : List ClientCall → List ClientCall → Type 0
Uses calls middle =
    (calls ≡ client_init ∷ (middle ++ client_cleanup ∷ [])) × All (λ c. is_cleanup c ≡ false) middle

-- Whatever happens, a client that was made is given back at the end and only there.
abbrev pub GivesBack : Bool → List ClientCall → Type 0
GivesBack made calls =
    if made then ((middle : List ClientCall) × Uses calls middle) else (calls ≡ client_init ∷ [])

-- The same of a text's post.
http_post_send-GivesBack :
    (a : Answers) (json : List ℕ) → GivesBack a.made (http_post_send a json).1
unfolding http_post_send
http_post_send-GivesBack a json = by_made a.made refl
  where
    by_made : (b : Bool) → a.made ≡ b → GivesBack b (http_post_send a json).1
    by_made true made = rw made (
      set_header "Content-Type" "application/json"
          ∷ set_post_field json
          ∷ set_header "Connection" "close"
          ∷ client_perform
          ∷ [],
      (refl, (refl, (refl, (refl, (refl, tt))))),
    )
    by_made false failed = rw failed

opened_gives_back :
    (a : Answers) (bytes : List ℕ)
    → (middle : List ClientCall) × ((post_opened a bytes).1 ≡ middle ++ client_cleanup ∷ [])
      × All (λ c. is_cleanup c ≡ false) middle
opened_gives_back a bytes = elim (Bool-cases a.opened) [
  | inr refused ↦ rw refused (client_open (length bytes) ∷ [], refl, (refl, tt))
  | inl opened ↦ elim (Bool-cases (a.written == length bytes % 2 ^ 32)) [
    | inl all ↦ rw (opened, all) (whole, refl, whole_keeps)
    | inr short ↦ rw (opened, short) (whole, refl, whole_keeps)
  ]
]
  where
    whole : List ClientCall
    whole = client_open (length bytes) ∷ client_write bytes ∷ client_close ∷ []

    whole_keeps : All (λ c. is_cleanup c ≡ false) whole
    whole_keeps = (refl, (refl, (refl, tt)))

-- On every path of http_post_image with a frame that is not empty, failures included, a client
-- that was made is given back as the last call and by no call before it; a client that could not
-- be made is the only call.
pub http_post_image-GivesBack :
    (a : Answers) (b : ℕ) (bytes : List ℕ)
    → GivesBack a.made (http_post_image a (some (b ∷ bytes))).1
unfolding http_post_image
http_post_image-GivesBack a b bytes = by_made a.made refl
  where
    by_made : (x : Bool) → a.made ≡ x → GivesBack x (http_post_image a (some (b ∷ bytes))).1
    by_made true made =
        let (middle, same, keeps) = opened_gives_back a (b ∷ bytes) in
        rw made (
          set_header "Content-Type" "image/jpeg" ∷ middle,
          (
            ap (λ cs. client_init ∷ set_header "Content-Type" "image/jpeg" ∷ cs) same,
            (refl, keeps),
          ),
        )
    by_made false failed = rw failed

-- http_post_image answers true for bytes that a 32-bit length counts exactly when there is a byte,
-- a client could be made and opened, all bytes were written, and the status is one of 200 to 299.
image_answer :
    (a : Answers) (bytes : List ℕ)
    → length bytes < 2 ^ 32
    → ((http_post_image a (some bytes)).0 ≡ true) ↔ (
        (bytes ≢ [])
        × (a.made ≡ true)
        × (a.opened ≡ true)
        × (a.written ≡ length bytes)
        × (200 ≤ a.status)
        × (a.status < 300))
unfolding http_post_image
image_answer a [] fits = (λ e. absurd (cc), λ h. absurd (h.0 refl))
image_answer a (b ∷ bytes) fits = ground (arith, cons-ne-nil b bytes)
