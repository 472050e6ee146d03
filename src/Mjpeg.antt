-- ===== src/Mjpeg.antt =====
-- components/service/src/mjpeg_service.c: the live stream. The camera's driver, the HTTP server and the
-- clock are not part of the repository: what they answer in a turn of the loop is an argument, and the
-- calls that the code makes of them are the result.
pub mod Stream
mod Tests
use esp_mo_net.Base.{
  [], ◌∷◌, ◌++◌, refl, zero, suc, none, some, true, false, List, ℕ, ◌/◌, Option, take, ◌+◌, Bool,
  if◌then◌else◌, length, ltb, ◌&&◌, not, ◌-◌,
}
use esp_mo_net.Service.{ServiceDesc, no_role}
use esp_mo_net.Format.{codes, decimal_u32, snprintf}

abbrev mjpeg_target_fps : ℕ
mjpeg_target_fps = 12

abbrev pub frame_us : ℕ
frame_us = 1000000 / mjpeg_target_fps

-- `camera_fb_t`: its address and its bytes.
pub record Frame : Type 0 where
  pub address : ℕ
  pub bytes : List ℕ

-- What a turn meets: `esp_camera_fb_get`, whether the two chunks are sent, `esp_timer_get_time`.
pub record Turn : Type 0 where
  pub frame : Option Frame
  pub header_sent : Bool
  pub body_sent : Bool
  pub now : ℕ

pub data StreamCall : Type 0 where
  resp_set_type resp_set_hdr set_nodelay : StreamCall
  send_chunk : List ℕ → StreamCall
  fb_return : ℕ → StreamCall
  task_delay : ℕ → StreamCall

unfoldable pub part_header : ℕ → List ℕ
part_header len =
    codes "\r\n--monetframe\r\nContent-Type: image/jpeg\r\nContent-Length: "
    ++ (decimal_u32 len ++ codes "\r\n\r\n")

abbrev pub hdr_size : ℕ
hdr_size = 96

-- The header's chunk: as many bytes of `hdr` as `snprintf` returned; `hdr` is not initialised before.
abbrev pub header_chunk : List ℕ → ℕ → List ℕ
header_chunk hdr len = take (length (part_header len)) (snprintf hdr hdr_size (part_header len))

-- How a stream ends: `res` is ESP_OK or not; a script of turns may end before the stream does.
pub data Stop : Type 0 where
  failed : Stop
  running_on : ℕ → Stop

-- The calls of the pacing, and `next` after it.
unfoldable pub pace : ℕ → ℕ → List StreamCall × ℕ
pace next now =
    let next' = next + frame_us in
    if ltb now next' then (task_delay ((next' - now) / 1000) ∷ [], next') else ([], now)

-- The chunks of a frame: the body follows only if the header was sent.
abbrev pub chunks : List ℕ → Frame → Bool → List StreamCall
chunks hdr fb header_sent =
    send_chunk (header_chunk hdr (length fb.bytes))
    ∷ (if header_sent then send_chunk fb.bytes ∷ [] else [])

-- The loop of `stream_handler`.
unfoldable pub stream_loop : List ℕ → ℕ → List Turn → List StreamCall × Stop
unfolding pace
stream_loop hdr next [] = ([], running_on next)
stream_loop hdr next (t ∷ turns) = elim t.frame [
  | none ↦ ([], failed)
  | some fb ↦
      let sent = chunks hdr fb t.header_sent ++ fb_return fb.address ∷ [] in
      let (paced, next') = pace next t.now in
      let (rest, stop) = stream_loop hdr next' turns in
      if t.header_sent && t.body_sent then (sent ++ (paced ++ rest), stop) else (sent, failed)
]

-- `stream_handler`: whether the type was set, the time as the loop starts, and the turns.
unfoldable stream_handler : Bool → List ℕ → ℕ → List Turn → List StreamCall × Stop
unfolding stream_loop
stream_handler type_set hdr start turns =
    let (calls, stop) = stream_loop hdr start turns in
    if type_set
    then (resp_set_type ∷ resp_set_hdr ∷ resp_set_hdr ∷ set_nodelay ∷ calls, stop)
    else (resp_set_type ∷ [], failed)

-- What `mjpeg_service_task` does: it ends itself in every case.
pub data Setup : Type 0 where
  power_save_off httpd_start register_index register_stream task_delete : Setup

unfoldable pub mjpeg_service_task : Bool → Bool → List Setup
mjpeg_service_task camera_ok httpd_ok =
    if not camera_ok
    then task_delete ∷ []
    else if not httpd_ok
    then power_save_off ∷ httpd_start ∷ task_delete ∷ []
    else power_save_off ∷ httpd_start ∷ register_index ∷ register_stream ∷ task_delete ∷ []

-- The descriptor; `task` is the address of `mjpeg_service_task`.
abbrev pub mjpeg_service_desc : ℕ → ServiceDesc
mjpeg_service_desc task = record {
  name = some "mjpeg_service";
  task_fn = task;
  task_name = some "mjpeg_service_task";
  stack_size = 4096;
  priority = 5;
  role = no_role;
  topics = none;
  sink_cb = 0;
}
