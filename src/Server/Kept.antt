-- ===== src/Server/Kept.antt =====
-- image_handler (server/src/handlers/image_handler.c) from the read body on, with the file store of
-- server/src/storage/file_store.c behind it.
use esp_mo_net.Base.{
  refl, ◌≡◌, ◌≢◌, ◌≤◌, List, ℕ, Bool, Option, none, some, true, length, [], if◌then◌else◌, ◌++◌,
  All, ◌∷◌, arith, ◌<◌, ap, ◌∙◌,
}
use esp_mo_net.Store.{File, Store, scan_total, file_store_save}
use esp_mo_net.Store.Files.{Has}
use esp_mo_net.Store.Quota.{IsValid, save_in_quota}
use esp_mo_net.Server.{ImageAnswer, image_read, image_limit, length_required, too_large, failed}
use esp_mo_net.Server.Client.{
  Outcome, client_thread, image_answered, silent, answered_400, answered_404, data_answered,
  passed_on,
}
use esp_mo_net.Server.FrameArrives.{frame_arrives}
use esp_mo_net.Server.Body.{AllFull, stream}
use esp_mo_net.Server.Heads.{length_pos}
use esp_mo_net.Server.Posts.{Headers, FitsRead, image_line, post_head}

-- What the file system answers: the quota is `FILE_STORE_MAX_BYTES`.
pub record Disk : Type 0 where
  pub max : ℕ
  pub unlinks : File → Bool
  pub opens : Bool
  pub creates : Bool
  -- The new file, with the size that `fwrite` wrote.
  pub file : File

-- `inited`, and the store.
pub record Images : Type 0 where
  pub inited : Bool
  pub store : Store

-- What the connection is answered once the store has been asked.
pub data Reply : Type 0 where
  replied : Outcome → Reply
  created : (name : ℕ) → Reply
  server_error : Reply

module _ (disk : Disk) where
  -- `file_store_init` at the first call, where the directory is there or can be made.
  abbrev pub entered : Images → Store
  entered st =
      if st.inited then st.store else if disk.opens then scan_total st.store.files else st.store

  unfoldable store_image : List ℕ → Store → Reply × Images
  unfolding file_store_save
  store_image body st =
      let (saved, st') =
        file_store_save disk.max disk.unlinks disk.opens disk.creates (length body) disk.file st in
      (
        if saved then created disk.file.name else server_error,
        record { inited = true; store = st' },
      )

  -- The rest of `image_handler`.
  abbrev finish_image : ImageAnswer → Images → Reply × Images
  finish_image (image_read body) st = store_image body (entered st)
  finish_image length_required st = (
    replied (image_answered (some length_required)),
    record { inited = true; store = entered st },
  )
  finish_image too_large st =
      (replied (image_answered (some too_large)), record { inited = true; store = entered st })
  finish_image failed st =
      (replied (image_answered (some failed)), record { inited = true; store = entered st })

  -- What a connection leaves; `none` is image_handler's copy beyond its buffer.
  unfoldable pub finish : Outcome → Images → Option (Reply × Images)
  unfolding store_image
  finish (image_answered none) st = none
  finish (image_answered (some answer)) st = some (finish_image answer st)
  finish silent st = some (replied silent, st)
  finish answered_400 st = some (replied answered_400, st)
  finish answered_404 st = some (replied answered_404, st)
  finish (data_answered answer) st = some (replied (data_answered answer), st)
  finish (passed_on handler) st = some (replied (passed_on handler), st)

-- A file system that does what it is asked.
abbrev pub willing : ℕ → File → Disk
willing max file = record {
  max = max;
  unlinks = λ g. true;
  opens = true;
  creates = true;
  file = file;
}

-- The frame is saved whole.
stored :
    (max : ℕ) (f : File) (frame : List ℕ) (st : Store)
    → f.size ≡ length frame
    → 0 < length frame
    → length frame ≤ max
    → IsValid st
    → All (λ g. g.name ≢ f.name) st.files
    → (st' : Store) × (store_image (willing max f) frame st
        ≡ (created f.name, record { inited = true; store = st' }))
      × IsValid st'
      × Has st'.files f
      × (st'.total ≤ max)
unfolding store_image
stored max f frame st size pos small valid fresh =
    let (saved, valid', here, quota) =
      save_in_quota max f st (omega (arith, size)) (omega (arith, size)) valid fresh in
    (
      (file_store_save max (λ g. true) true true f.size f st).1,
      rw (← size, saved) refl,
      valid',
      here,
      quota,
    )

-- A connection that delivers the head of a frame's post, with any header lines besides the length,
-- and then the frame, is answered that the file was created; the store is then valid, has a file
-- of that name and of the frame's size, and is within its quota. Memory suffices, the head fits in
-- the first read, the frame is not empty, and not larger than ten megabytes or the quota; no
-- record is empty; the store is valid once it is initialised, and has no file of that name; the
-- directory opens, files can be unlinked, and the new one can be created and is written whole.
pub frame_kept :
    (max : ℕ) (f : File) (p : Headers) (frame later : List ℕ) (incoming : List (List ℕ))
    (st : Images)
    → FitsRead image_line p (length frame)
    → frame ≢ []
    → length frame ≤ image_limit
    → length frame ≤ max
    → AllFull incoming
    → stream incoming ≡ frame ++ later
    → f.size ≡ length frame
    → IsValid (entered (willing max f) st)
    → All (λ g. g.name ≢ f.name) (entered (willing max f) st).files
    → (st' : Store) × (finish
          (willing max f)
          (client_thread true true (post_head image_line p (length frame) ∷ incoming))
          st
        ≡ some (created f.name, record { inited = true; store = st' }))
      × IsValid st'
      × Has st'.files f
      × (st'.total ≤ max)
unfolding finish
frame_kept max f p frame later incoming st short some_bytes fits small full arrives size valid
      fresh =
    let (st', saved, kept₁, kept₂, kept₃) =
      stored max f frame (entered (willing max f) st) size (length_pos frame some_bytes) small valid
        fresh in
    (
      st',
      ap (λ o. finish (willing max f) o st)
            (frame_arrives p frame later incoming short some_bytes fits full arrives)
          ∙ ap some saved,
      kept₁,
      kept₂,
      kept₃,
    )
