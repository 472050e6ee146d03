-- ===== src/Uart/Closed.antt =====
-- What the registry (components/monet_core/src/service_registry.c) makes of components/service/src/uart_service.c:
-- it runs its own dispatcher over the sink, and never the task that sets the line up.
use Prim.Native.String.{String}
use esp_mo_net.Base.{[], ◌∷◌, none, some, Bool-cases, ap, ◌==◌, inl, Ensures-found, inr}
use esp_mo_net.Registry.{State, start, started, start_subscriber, subscribed, subscriber_task}
use esp_mo_net.Camera.{dispatch}
use esp_mo_net.Service.{find, fresh_entry, ServiceDesc, is_subscriber}
use esp_mo_net.Uart.{Line, DriverCall, write_bytes, uart_hal_write_bytes}
use esp_mo_net.Uart.Service.{Picture, uart_sink_handler, uart_service_desc, text_of}
use esp_mo_net.Base.{
  refl, List, ℕ, Option, All, Bool, ◌>>=◌, ◌∷◌, Ensures, ◌≡◌, some, Ensures-bind, ◌++◌, All-append,
  ap, false, true,
}
use esp_mo_net.Rtos.{Rtos}
use esp_mo_net.Registry.{State, start_subscriber, started}
use esp_mo_net.Message.{Msg, sensor_jpeg, jpeg_fb}
use esp_mo_net.Camera.{dispatch}
use esp_mo_net.Service.{ServiceEntry}
use esp_mo_net.Bus.{Bus}

-- A call that only sends.
abbrev pub IsWrite : DriverCall → Type 0
IsWrite (write_bytes port bytes) = Unit {0}
IsWrite call = ⊥

module _ (line : Line) (crc32 : List ℕ → ℕ) (fb_at : ℕ → Option Picture) where
  -- What the sink does to the calls of the driver so far; a fault is the end.
  abbrev pub sink_effect : Msg → Option (List DriverCall) → Option (List DriverCall)
  sink_effect m w = w >>= λ calls.
      uart_sink_handler line crc32 fb_at m >>= λ (handled, more). some (calls ++ more)

  bytes-IsWrite : (bytes : List ℕ) → All IsWrite (uart_hal_write_bytes line bytes)
  bytes-IsWrite [] = tt
  bytes-IsWrite (b ∷ bytes) = (tt, tt)

  sink-IsWrite :
      (m : Msg)
      → Ensures (λ (handled, calls). All IsWrite calls) (uart_sink_handler line crc32 fb_at m)
  unfolding uart_sink_handler
  sink-IsWrite m = elim (Bool-cases (m.topic == sensor_jpeg)) [
    | inl frame ↦ rw frame (
        Ensures-found _ _ (fb_at (jpeg_fb m))
          (λ p at. All-append IsWrite _ _ (bytes-IsWrite _) (bytes-IsWrite p.bytes)))
    | inr other ↦
        rw other
          (Ensures-found _ _ (text_of line crc32 fb_at m) (λ text at. (tt, (tt, (tt, (tt, tt))))))
  ]

  dispatch-IsWrite :
      (ms : List Msg) (w : Option (List DriverCall))
      → Ensures (All IsWrite) w
      → Ensures (All IsWrite) (dispatch (some sink_effect) ms w).1
  unfolding dispatch
  dispatch-IsWrite [] w h = h
  dispatch-IsWrite (m ∷ ms) w h = dispatch-IsWrite ms (sink_effect m w) (
      Ensures-bind (All IsWrite) (All IsWrite) _ w h (λ calls all.
        Ensures-bind _ (All IsWrite) _ (uart_sink_handler line crc32 fb_at m) (sink-IsWrite m)
          (λ (handled, more) writes. All-append IsWrite calls more all writes)))

module _ (os : Rtos) where
  -- What a start does to the bus and to the operating system, and whether it passes.
  abbrev pub effect : Option (Bool × State os) → Option (Bool × Bus × os.World)
  effect r = r >>= λ (passed, st). some (passed, st.bus, st.world)

  started_alike :
      (st st' : State os) (i j : ℕ) (e e' : ServiceEntry) (c : Option ℕ × os.World)
      → st.bus ≡ st'.bus
      → effect (some (started os st i e c)) ≡ effect (some (started os st' j e' c))
  started_alike st st' i j e e' (none, w) bus = ap (λ b. some (false, b, w)) bus
  started_alike st st' i j e e' (some h, w) bus = ap (λ b. some (true, b, w)) bus

  start_alike :
      (st : State os) (entries' : List ServiceEntry) (name : String) (i j : ℕ) (desc : ServiceDesc)
      (f : ℕ) (topics : List ℕ)
      → desc.topics ≡ some topics
      → is_subscriber desc.role ≡ true
      → find name st.entries ≡ some (i, fresh_entry desc)
      → find name entries' ≡ some (j, fresh_entry (record desc { task_fn = f }))
      → effect (start os (record st { entries = entries' }) name) ≡ effect (start os st name)
  unfolding start start_subscriber
  start_alike st entries' name i j desc f topics t r found found' =
      let st' : State os = record st { entries = entries' } in
      elim (Bool-cases (os.heap_has_room st.world)) [
        | inr full ↦ rw (found, found', t, r, full) refl
        | inl room ↦
            rw (found, found', t, r, room)
              (started_alike (subscribed os st' topics) (subscribed os st topics) j i
                (fresh_entry (record desc { task_fn = f })) (fresh_entry desc)
                (os.task_create (subscribed os st topics).world (subscriber_task os st desc)) refl)
      ]

-- The service's entry, for the address of its task.
abbrev pub uart_entry : ℕ → List ℕ → ℕ → ServiceEntry
uart_entry task topics sink = fresh_entry (uart_service_desc task topics sink)

-- The start of uart_service answers the same and does the same to the bus and to the operating
-- system whatever the address of its task is, and the registry's dispatcher, run over any messages
-- with the sink of uart_service, calls the driver of the line for nothing but writes, unless the
-- sink meets a fault. Two registries are compared that have the service under its name, each with
-- an address of its own, over the same bus and operating system.
pub line_stays_closed :
    (os : Rtos) (line : Line) (crc32 : List ℕ → ℕ) (fb_at : ℕ → Option Picture) (st : State os)
    (entries' : List ServiceEntry) (i j task task' sink : ℕ) (topics : List ℕ) (ms : List Msg)
    → find "uart_service" st.entries ≡ some (i, uart_entry task topics sink)
    → find "uart_service" entries' ≡ some (j, uart_entry task' topics sink)
    → (effect os (start os (record st { entries = entries' }) "uart_service")
        ≡ effect os (start os st "uart_service"))
      × Ensures (All IsWrite) (dispatch (some (sink_effect line crc32 fb_at)) ms (some [])).1
line_stays_closed os line crc32 fb_at st entries' i j task task' sink topics ms found found' = (
  start_alike os st entries' "uart_service" i j (uart_service_desc task topics sink) task' topics
      refl refl found found',
  dispatch-IsWrite line crc32 fb_at ms (some []) tt,
)
