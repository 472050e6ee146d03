-- ===== src/Cpp/Logger.antt =====
-- components/monet_core/src_cpp/Logger.cpp. A virtual call is a case of the object's class, and what `fwrite` gets
-- is appended to the console's bytes. A pointer is `none` where it is nullptr.
use mathlib.Core.List.{append-nil}
use esp_mo_net.Base.{
  suc, refl, false, [], ◌∷◌, ◌++◌, none, some, Option, Bool, List, if◌then◌else◌, ℕ, ◌==◌, length,
  ◌≡◌, take, Bool-cases, inl, sym, inr, take_whole, arith, length-take,
}

-- The classes over `LoggerBackend`.
pub data LoggerBackend : Type 0 where
  uart usb : LoggerBackend

-- `write` of so many bytes from the pointer on.
unfoldable pub write : LoggerBackend → Option (List ℕ) → ℕ → List ℕ → List ℕ
write uart none len console = console
write uart (some bytes) len console = if len == 0 then console else console ++ take len bytes
write usb none len console = console
write usb (some bytes) len console = if len == 0 then console else console ++ take len bytes

-- `write` of a C string
unfoldable pub write_str : LoggerBackend → Option (List ℕ) → List ℕ → List ℕ
unfolding write
write_str backend none console = console
write_str backend (some text) console = write backend (some text) (length text) console

-- `logger_default_backend`: whether the configuration chooses USB.
abbrev pub logger_default_backend : Bool → LoggerBackend
logger_default_backend usb_chosen = if usb_chosen then usb else uart

-- Both backends write the same, and a text is written whole.
pub write_whole :
    (usb_chosen : Bool) (text console : List ℕ)
    → write_str (logger_default_backend usb_chosen) (some text) console ≡ console ++ text
unfolding write_str write
write_whole usb_chosen [] console = elim (Bool-cases usb_chosen) [
  | inl on ↦ rw on (sym (append-nil console))
  | inr off ↦ rw off (sym (append-nil console))
]
write_whole usb_chosen (b ∷ text) console =
    let whole : take (length text) text ≡ text =
      take_whole (length text) text (omega (arith, length-take (length text) text)) in
    let more : (suc (length text) == 0) ≡ false = ground arith in
    elim (Bool-cases usb_chosen) [
      | inl on ↦ rw (on, more, whole) refl
      | inr off ↦ rw (off, more, whole) refl
    ]
