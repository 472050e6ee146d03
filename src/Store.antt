-- ===== src/Store.antt =====
-- The companion server's store of images: server/src/storage/file_store.c.
use esp_mo_net.Base.{
  [], ◌∷◌, ◌++◌, refl, zero, suc, none, some, ℕ, List, Bool, if◌then◌else◌, ◌+◌, leb, ◌==◌, ltb,
  ◌-◌, ◌||◌, true, false, ◌^◌, not,
}
pub mod Files
pub mod Quota
pub mod Tests

-- A regular file of the directory, with a number for its name.
pub record File : Type 0 where
  pub name : ℕ
  pub mtime : ℕ
  pub size : ℕ

-- The directory, and `s_total`.
pub record Store : Type 0 where
  pub files : List File
  pub total : ℕ

-- The result of a call, and the store.
abbrev pub Outcome : Type 0
Outcome = Bool × Store

-- `total -= size` of two size_t
abbrev pub sub_size : ℕ → ℕ → ℕ
sub_size a b = if leb b a then a - b else a + 2 ^ 64 - b

abbrev pub sizes : List File → ℕ
sizes [] = 0
sizes (f ∷ fs) = f.size + sizes fs

-- `scan_total`
unfoldable pub scan_total : List File → Store
scan_total fs = record { files = fs; total = sizes fs }

-- `unlink`, when it passes.
abbrev pub remove : ℕ → List File → List File
remove n [] = []
remove n (f ∷ fs) = let rest = remove n fs in if f.name == n then rest else f ∷ rest

-- `qsort` by `mtime`, the oldest first; the difference of two times fits an int.
abbrev pub insert : File → List File → List File
insert f [] = f ∷ []
insert f (g ∷ gs) = let rest = insert f gs in if leb f.mtime g.mtime then f ∷ g ∷ gs else g ∷ rest

abbrev pub sort : List File → List File
sort [] = []
sort (f ∷ fs) = insert f (sort fs)

-- `FILE_STORE_MAX_BYTES` is `max`, and `unlinks` says for which file `unlink` passes.
module _ (max : ℕ) (unlinks : File → Bool) where
  -- A turn of the loop: the file is removed, if it can be.
  abbrev purge_file : File → Store → Store
  purge_file f st =
      if unlinks f
      then record { files = remove f.name st.files; total = sub_size st.total f.size }
      else st

  -- The loop over the sorted list.
  unfoldable pub purge_list : ℕ → List File → Store → Store
  purge_list need [] st = st
  purge_list need (f ∷ fs) st =
      let next = purge_list need fs (purge_file f st) in
      if ltb max (st.total + need) then next else st

  -- `purge_if_needed`; nothing is done where the directory does not open.
  unfoldable pub purge_if_needed : Bool → ℕ → Store → Store
  unfolding purge_list
  purge_if_needed opens need st =
      if leb (st.total + need) max || not opens then st else purge_list need (sort st.files) st

  -- The file once `fopen` passed and `written` bytes are in it; an incomplete one is unlinked.
  abbrev pub write_file : ℕ → File → Store → Outcome
  write_file len f st =
      if f.size == len
      then (true, record { files = f ∷ remove f.name st.files; total = st.total + f.size })
      else (false, record st { files = remove f.name st.files })

  -- `file_store_save` of `len` bytes under the new name of `f`, whose size is what `fwrite` wrote.
  unfoldable pub file_store_save : Bool → Bool → ℕ → File → Store → Outcome
  file_store_save opens creates len f st =
      if len == 0
      then (false, st)
      else (let st₁ = purge_if_needed opens len st in
          if creates then write_file len f st₁ else (false, st₁))
