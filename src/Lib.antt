-- ===== src/Lib.antt =====
-- ESP-MoNet: an ESP32 firmware of small services around an in-memory message bus.
--
-- The parts and how they interact. Producers (light sensor, DHT22, UART, camera) publish messages on
-- the bus (components/monet_core/src/msg_bus.c); each subscriber owns a FreeRTOS queue that the bus
-- copies messages into. The registry (components/monet_core/src/service_registry.c) knows every
-- service by name, starts and stops its task, and subscribes the queue of a subscriber. Uploaders
-- keep what they could not send in a ring of entries (components/utils/src/cache.c). The BLE service
-- (components/service/src/ble_service.c) is a GATT server that takes long writes in fragments.
--
-- Which file models which part:
--   * Base and its children: Boolean tests, lists with C's array accesses, C strings, and results
--     that may be a fault. `none` of an operation that C leaves undefined is that fault.
--   * Cache: cache.c. `cache_buf`, `head`, `tail` and `count` are the record `Cache`; the macros
--     MAX_CACHE_ITEMS and MAX_ITEM_LENGTH are the record `Config`, any values of the ranges that
--     components/utils/Kconfig gives. A sender is a function on the caller's world. Cache/Invariant
--     has the ring's shape, Cache/Queue the bounded queue that it stands for, Cache/Refine and
--     Cache/Run the refinement of calls and histories, Cache/Text what a sender of strings reads.
--   * Message: `msg_t` of components/monet_core/include/monet_core/msg_bus.h. Its union is 128
--     bytes, which value_int, json_str and the frame pointer share.
--   * Rtos: what the code asks of FreeRTOS and of the heap, as a record of operations on a world and
--     of the laws that are documented: a queue holds what fits, in order, and a send to one queue
--     leaves the others alone. Rtos/Simple is an instance of it.
--   * Bus: msg_bus.c. A queue handle is a number and NULL is 0. Bus/Shape has the arrays' sizes and
--     the packed group array, Bus/Subscribe which queues are accepted, Bus/Delivery what a publish
--     puts into which queue. Bus/Race has the creation of the mutex by interleaved calls.
--   * Service: components/monet_core/include/monet_core/service_registry.h, and the registration and
--     the subscriptions of service_registry.c, which need no operating system.
--   * Registry: service_registry.c. A state is the entries, the bus and the world. Registry/Find,
--     Invariant, Lifecycle, Passing and Startup are about registering, starting and stopping;
--     Registry/Stop, Histories, Slots and Leak about what a stop leaves behind, Registry/AutoSubscribe about the unused
--     _auto_subscribe.
--   * Ble: ble_service.c. Ble/Prepare has the prepared writes and their buffer, Ble/LongWrite and
--     Ble/Execute what they store and what their execution reads. Ble/Profile has the table of
--     profiles and the events, Ble/AdvData what is advertised, Ble/Handlers the handlers of both profiles, the dispatch and GAP's
--     callback. What the handlers ask of the stack is a list of calls. Ble/Answers and Ble/Dispatch
--     are about who handles an event and where the answers go, Ble/Links and Ble/Ready about what
--     the service knows of the link, Ble/Advertise about when it advertises. Ble/Setup has the calls of
--     the set-up, and components/utils/src/ble_format_utils.c.
--   * Wifi: the event handler of components/monet_hal/src/wifi_hal.c and the connected bit that
--     components/service/src/wifi_service.c reads. Wifi/History has the state as a function of the
--     events that came, Wifi/Station the credentials and the wait for the connection.
--   * Uploader: components/service/src/http_uploader_service.c, the sink over the cache and over a
--     network and a camera driver that are parameters, the record `Net`. Uploader/Sink is about what
--     is queued without Wi-Fi and which sender a queued payload goes to, Uploader/Flush about what the
--     flushes leave.
--   * Camera: the frames of components/service/src/camera_service.c, and the dispatcher of
--     service_registry.c that calls a message's release hook. Camera/Ownership counts how often a
--     frame is given back.
--   * Format: the conversions of printf that the code uses, and snprintf's truncation. Format/Digits,
--     Size and Read have what a decimal text is made of, how long it is, and readers of it.
--   * Codec: components/monet_codec/src/json_encoder.c and components/utils/src/json_utils.c.
--     Codec/Decode has a reader of the light sample's JSON, Codec/Fit what stands in the buffer.
--   * Sensors: components/monet_hal/src/adc_hal.c and components/service/src/light_sensor_service.c;
--     Sensors/Climate has dht22_hal.c and dht22_service.c beside them. Sensors/Posted follows a light
--     sample from the converter to the server.
--   * Https: components/net/src/https_post_hal.c; what esp_http_client answers is an argument and the
--     calls of it are results. `https_net` makes it the uploader's network. Https/Calls is about the
--     client that is given back and the answers, Https/Lost about a text that the server refuses.
--   * Uart: components/monet_hal/src/uart_hal.c, and in Uart/Service
--     components/service/src/uart_service.c. Uart/Frames has the reader of camera_uart_test.py and
--     the set-up of the line, Uart/Received the lines that come in and the texts that go out;
--     Uart/Tasks has the task that forwards messages, Uart/Closed what the registry runs in its place.
--   * DataUploader: components/service/src/data_uploader_service.c, the older uploaders.
--     DataUploader/Turns is about their tasks, DataUploader/Idle about them under the registry.
--   * Mjpeg: components/service/src/mjpeg_service.c, the stream's loop over a script of what camera,
--     HTTP server and clock answer. Mjpeg/Stream is about frames, headers and time.
--   * App: main/main.c. App/Start has the services that run behind app_main,
--     App/Routes the subscriptions by the configured routes, App/Wired what a light sample then reaches,
--     App/Reading a sample's way over the HTTPS client to the server's handler;
--     Registry/Steps has the starts one at a time.
--   * Server: the companion server's handlers server/src/handlers/data_handler.c and
--     image_handler.c, up to the answer and the save. A connection is the list of records that SSL_read hands out.
--     Server/Body has the bytes that a handler takes for the body. Server/Router is router.c with the
--     routines of the C library that it calls, Server/Client the connection's thread of
--     server/src/net/ssl_server.c, Server/Heads, Lines, Posts, Arrives and FrameArrives posts that reach their
--     handlers, Server/Ends the loop that reads a body, Server/Answers status_handler.c and
--     sha256_handler.c, Server/Kept the end of image_handler with the store behind it.
--     Server/Process has the start, the accept loop and the threads' calls, Server/Closing what they
--     leave open.
--   * Cpp: components/monet_core/src_cpp and include_cpp, the optional layer in C++. Cpp/MessageBus has
--     the bus and the guard of its mutex, Cpp/Agreement sets it beside the C bus; Cpp/CameraFrame the
--     owner of a frame, CameraFrame/Owned how often frames are returned; Cpp/Queue the typed queue,
--     Cpp/Button the interrupt and its task, Button/Debounce what they make of presses at any times;
--     Cpp/Logger the loggers, Cpp/Demo the demos.
--   * Store: server/src/storage/file_store.c. A directory is a list of files; what opendir, fopen,
--     fwrite and unlink answer are arguments. Store/Files is about lists of files with distinct
--     names, Store/Quota about the space that a save finds.
--   * Ota: server/src/handlers/ota_handler.c, the download of the firmware over the file's bytes and
--     the number of writes that the connection takes. Ota/Resume is about whole and continued
--     downloads. Ota/Device is components/OTA/src/https_ota_service.c, whose esp_https_ota is a
--     parameter.
--
-- Bounds and fuel. Every loop runs over a list, and `start_from` takes the number of entries,
-- which a start does not change. The loop that reads a body has as fuel the number of bytes that
-- are still wanted; every read that goes on gets one. The loop that sends the firmware has the
-- number of bytes that are left, and sends one at least with each turn. The bus has eight slots
-- for each topic and for the group, the registry 16 entries, the prepare buffer 1024 bytes, the
-- cache what its configuration says, each as its macro says. Counts are bounded by those sizes.
-- Only `prepare_len` is not: what logs the buffer reads its length modulo 2 ^ 16, and the int
-- itself is taken to be unbounded.
--
-- A decimal text of 32 bits takes at most ten rounds, that of a float's integer part 39.
--
-- Not modelled: logs, the configuration structures
-- that only go to drivers, ESP-IDF's macro for its CI in ble_service.c, which replaces the device's name,
-- and what is inside sockets and TLS. Operations take their mutex as a whole, so a run is a sequence of them. A task's
-- endless loop is a function per turn, or a function of a list of turns.
pub mod Base
pub mod Cache
pub mod Format
pub mod Codec
pub mod Message
pub mod Rtos
pub mod Bus
pub mod Service
pub mod Registry
pub mod Ble
pub mod Wifi
pub mod Ota
pub mod Store
pub mod Server
pub mod Camera
pub mod Mjpeg
pub mod Sensors
pub mod Uploader
pub mod DataUploader
pub mod Uart
pub mod Cpp
pub mod Https
pub mod App
