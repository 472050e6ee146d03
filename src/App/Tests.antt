-- ===== src/App/Tests.antt =====
-- The start of the program at concrete answers.
use esp_mo_net.Base.{
  [], ◌∷◌, refl, some, true, false, Bool, arith, ◌≡◌, All, if◌then◌else◌, List, length, none, ◌<◌,
  ◌^◌, length-append, Option,
}
use esp_mo_net.Registry.{State}
use esp_mo_net.Service.{running}
use esp_mo_net.Registry.Find.{descs}
use esp_mo_net.Wifi.{init, sta_start, got_ip}
use esp_mo_net.App.{new_version_found, Addresses, http_topics, nvs_setup, Boot, app_main}
use esp_mo_net.App.Start.{AreSet, services, app_main_starts}
use esp_mo_net.Rtos.Simple.{SimpleWorld, simple, quiet}
use esp_mo_net.Registry.Ample.{IsAmple}
use esp_mo_net.Message.{sensor_light, sensor_max}
use mathlib.Core.List.{append-nil}
use esp_mo_net.Https.{ClientCall, Answers, Link, https_net}
use esp_mo_net.Uploader.{http_sink_handler, leave}
use esp_mo_net.Cache.{Config, init as cache_init}
use esp_mo_net.Codec.Decode.{decode_light}
use esp_mo_net.Server.{data_ok}
use esp_mo_net.Server.Body.{AllFull, stream}
use esp_mo_net.Server.Client.{client_thread, data_answered}
use esp_mo_net.Server.Posts.{Headers, FitsRead, data_line, post_head}
use esp_mo_net.Server.Lines.{IsOther, lines_before, crlf}
use esp_mo_net.Base.{ap}
use esp_mo_net.App.Reading.{posted_field, Transport, reading_reaches_server}
use esp_mo_net.Sensors.{Adc, light_turn, light_msg, adc_hal_read}
use esp_mo_net.App.Routes.{copies}
use esp_mo_net.App.Wired.{boot_wires_uploader}
use esp_mo_net.Bus.Delivery.{room}
use esp_mo_net.Base.{replicate, min, ◌++◌, ℕ, ◌≢◌}
use esp_mo_net.Server.Router.{after_nocase}
use esp_mo_net.Format.{codes, decimal_u32}
use esp_mo_net.Format.Size.{length-decimal_u32}
use esp_mo_net.Bus

abbrev addresses : Addresses
addresses = record { light_sensor_task = 5; http_sink_handler = 6; mjpeg_service_task = 7 }

addresses-AreSet : AreSet addresses
addresses-AreSet = record { light = (omega arith); sink = (omega arith); stream = (omega arith) }

abbrev boot : Bool → Boot
boot wifi = record {
  uploader_enabled = true;
  topics = http_topics false true false;
  nvs = new_version_found;
  erased = true;
  again = true;
  wifi = init;
  wifi_events = if wifi then sta_start ∷ got_ip ∷ [] else sta_start ∷ [];
}

abbrev blank : State simple
blank = record { entries = []; bus = Bus.init; world = quiet }

simple-IsAmple : IsAmple simple
simple-IsAmple = record {
  queue_made = λ w n. (omega arith);
  task_made = λ w t e. cc;
  room = λ w. refl;
}

topics_run : http_topics false true false ≡ sensor_light ∷ sensor_max ∷ []
unfolding http_topics
topics_run = refl

flash_runs : nvs_setup new_version_found true true ≡ true
unfolding nvs_setup
flash_runs = refl

app_main_starts_example :
    (st' : State simple) × (app_main simple addresses (boot true) blank ≡ some st')
    × All (λ e. e.state ≡ running) st'.entries
    × (descs st'.entries ≡ services addresses true (http_topics false true false))
app_main_starts_example =
    app_main_starts simple addresses addresses-AreSet (boot true) blank simple-IsAmple refl
      flash_runs refl

-- A converter that reads its own state.
abbrev echo : Adc ℕ
echo = record { config_width = λ w. w; config_channel_atten = λ w c. w; get_raw = λ w c. (w, w) }

boot_wires_uploader_example :
    (st' : State simple) × (q : ℕ) × (app_main simple addresses (boot true) blank ≡ some st')
    × (q ≢ 0)
    × ((driver latest chan_cfg now : ℕ) (w : SimpleWorld)
        → simple.pending
            (light_turn echo simple chan_cfg now
              (record { latest_adc = latest; driver = driver; bus = st'.bus; world = w })).world
            q
          ≡ w.queue q
            ++ replicate
                (min (copies false true) (room simple w q))
                (light_msg (adc_hal_read echo chan_cfg driver).0 now))
boot_wires_uploader_example =
    boot_wires_uploader simple addresses addresses-AreSet echo (boot true) blank false true false
      simple-IsAmple refl refl flash_runs refl refl refl

-- A connection that delivers the body in one record.
abbrev one_record : List ℕ → List (List ℕ)
one_record [] = []
one_record (b ∷ body) = (b ∷ body) ∷ []

device_lines : All IsOther (
    codes "User-Agent: ESP32 HTTP Client/1.0"
    ∷ codes "Host: 192.168.1.7:8443"
    ∷ codes "Content-Type: application/json"
    ∷ codes "Connection: close"
    ∷ [])
unfolding after_nocase
device_lines = (
  ((λ e. cc, ground arith), refl),
  (
    ((λ e. cc, ground arith), refl),
    (((λ e. cc, ground arith), refl), (((λ e. cc, ground arith), refl), tt)),
  ),
)

abbrev device_headers : Headers
device_headers = record {
  before =
      codes "User-Agent: ESP32 HTTP Client/1.0"
      ∷ codes "Host: 192.168.1.7:8443"
      ∷ codes "Content-Type: application/json"
      ∷ codes "Connection: close"
      ∷ [];
  after = [];
  before_other = device_lines;
  after_lines = tt;
}

abbrev carried : Option (List ℕ) → List (List ℕ)
carried none = []
carried (some field) = post_head data_line device_headers (length field) ∷ one_record field

abbrev carry : Answers → List ClientCall → List (List ℕ)
carry a calls = carried (posted_field none calls)

one_record_lem : (body : List ℕ) → AllFull (one_record body) × (stream (one_record body) ≡ body)
one_record_lem [] = (tt, refl)
one_record_lem (b ∷ body) = (ground arith, append-nil (b ∷ body))

device_short : (n : ℕ) → n < 2 ^ 32 → FitsRead data_line device_headers n
unfolding lines_before
device_short n h =
    omega (arith, length-append (decimal_u32 n) (crlf ++ crlf), length-decimal_u32 n h)

carries :
    (a : Answers) (calls : List ClientCall) (field : List ℕ)
    → a.made ≡ true
    → a.performed ≡ true
    → posted_field none calls ≡ some field
    → (records : List (List ℕ)) × (carry a calls
        ≡ post_head data_line device_headers (length field) ∷ records)
      × AllFull records
      × (stream records ≡ field)
carries a calls field made done posted =
    (one_record field, ap carried posted, (one_record_lem field).0, (one_record_lem field).1)

abbrev transport : Transport
transport = record {
  headers = device_headers;
  short = device_short;
  on_wire = carry;
  delivers = carries;
}

abbrev accepted : Answers
accepted = record { made = true; performed = true; opened = true; written = 0; status = 200 }

abbrev link : Link
link = record { up = true; answers = accepted ∷ []; log = []; frame = [] }

abbrev small : Config
small = record { max_items = 2; item_size = 128 }

reading_reaches_server_example :
    (calls : List ClientCall) × (text : List ℕ) × (http_sink_handler small https_net
        (cache_init small)
        link
        (light_msg 512 7000)
      ≡ leave small https_net true true
          (cache_init small)
          (record link { answers = []; log = calls ∷ [] }))
    × (client_thread true true (carry accepted calls) ≡ data_answered (data_ok text))
    × (decode_light text ≡ some (512, 7000))
reading_reaches_server_example =
    reading_reaches_server transport small (cache_init small) link accepted [] 512 7000 refl refl
      refl refl (omega arith) (omega arith)
