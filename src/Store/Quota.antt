-- ===== src/Store/Quota.antt =====
-- The quota of server/src/storage/file_store.c.
use esp_mo_net.Base.{
  [], ◌∷◌, refl, List, ℕ, ◌≡◌, ◌≤◌, ◌<◌, ◌+◌, All, ◌≢◌, true, arith, Bool-cases, ltb, leb, inl, inr,
  ◌∙◌, sym, ◌==◌, false, ap,
}
use esp_mo_net.Store.{
  scan_total, Store, file_store_save, File, sizes, remove, purge_list, purge_if_needed, sub_size,
  sort, write_file,
}
use esp_mo_net.Store.Files.{
  Distinct, Has, Has-remove, sizes-remove, remove-Distinct, All-remove, sort-Distinct, All-sort,
  All-self, sizes-sort, remove_fresh,
}

-- The total is that of the directory, whose files have different names.
pub record IsValid (st : Store) : Type 0 where
  pub exact : st.total ≡ sizes st.files
  pub distinct : Distinct st.files

-- What the scan of a directory leaves is valid, and has its files.
pub scan_total-IsValid : (fs : List File) → Distinct fs → IsValid (scan_total fs)
unfolding scan_total
scan_total-IsValid fs distinct = record { exact = refl; distinct = distinct }

pub scan_total_files : (fs : List File) → (scan_total fs).files ≡ fs
unfolding scan_total
scan_total_files fs = refl

-- Where the loop stands: the files that are left to purge are those of the directory.
record Left (fs : List File) (st : Store) : Type 0 where
  valid : IsValid st
  names : Distinct fs
  here : All (Has st.files) fs
  whole : sizes fs ≡ st.total

module _ (max need n : ℕ) (small : need ≤ max) where
  -- What a purge that can unlink leaves: room, and a valid store without the name `n`.
  abbrev Purged : Store → Type 0
  Purged st = IsValid st × (st.total + need ≤ max) × All (λ f. f.name ≢ n) st.files

  unlinked-Left :
      (f : File) (fs : List File) (st : Store)
      → Left (f ∷ fs) st
      → Left fs (record { files = remove f.name st.files; total = sub_size st.total f.size })
  unlinked-Left f fs st l =
      let taken = sizes-remove st.files f l.valid.distinct l.here.0 in
      let rest : sub_size st.total f.size ≡ sizes (remove f.name st.files) =
        ground (arith, taken, l.valid.exact) in
      record {
        valid = record {
          exact = rest;
          distinct = remove-Distinct f.name st.files l.valid.distinct;
        };
        names = l.names.1;
        here = still fs l.names.0 l.here.1;
        whole = omega (arith, rest, taken, l.whole, l.valid.exact);
      }
    where
      still :
          (gs : List File)
          → All (λ g. g.name ≢ f.name) gs
          → All (Has st.files) gs
          → All (Has (remove f.name st.files)) gs
      still [] a h = tt
      still (g ∷ gs) a h = (Has-remove st.files f.name g a.0 h.0, still gs a.1 h.1)

  purge_list-Purged :
      (fs : List File) (st : Store)
      → Left fs st
      → All (λ f. f.name ≢ n) st.files
      → Purged (purge_list max (λ f. true) need fs st)
  unfolding purge_list
  purge_list-Purged [] st l fresh = (l.valid, omega (arith, l.whole), fresh)
  purge_list-Purged (f ∷ fs) st l fresh = elim (Bool-cases (ltb max (st.total + need))) [
    | inl full ↦ rw full (
        purge_list-Purged fs _ (unlinked-Left f fs st l)
          (All-remove (λ g. g.name ≢ n) f.name st.files fresh))
    | inr room ↦ rw room (l.valid, ground arith, fresh)
  ]

  purge_if_needed-Purged :
      (st : Store)
      → IsValid st
      → All (λ f. f.name ≢ n) st.files
      → Purged (purge_if_needed max (λ f. true) true need st)
  unfolding purge_if_needed
  purge_if_needed-Purged st v fresh = elim (Bool-cases (leb (st.total + need) max)) [
    | inl room ↦ rw room (v, ground arith, fresh)
    | inr full ↦ rw full (
        purge_list-Purged (sort st.files) st
          (record {
            valid = v;
            names = sort-Distinct st.files v.distinct;
            here = All-sort (Has st.files) st.files (All-self st.files);
            whole = sizes-sort st.files ∙ sym v.exact;
          })
          fresh)
  ]

  -- The file that is written then fits.
  write_file-IsValid :
      (f : File) (st : Store)
      → f.size ≡ need
      → f.name ≡ n
      → Purged st
      → let (saved, st') = write_file max (λ g. true) f.size f st in
        (saved ≡ true) × IsValid st' × Has st'.files f × (st'.total ≤ max)
  write_file-IsValid f st size_is name_is (v, room, fresh) =
      let same : (f.size == f.size) ≡ true = ground arith in
      let absent : All (λ g. g.name ≢ f.name) st.files = rw name_is fresh in
      let kept = remove_fresh f.name st.files absent in
      simp same (
        refl,
        record {
          exact = omega (arith, v.exact, ap sizes kept);
          distinct = (
            All-remove (λ g. g.name ≢ f.name) f.name st.files absent,
            remove-Distinct f.name st.files v.distinct,
          );
        },
        inl refl,
        omega (arith, room, size_is),
      )

-- In a valid store whose directory opens and whose files can be unlinked, a save of an image that
-- is not empty and not larger than the quota, under a name that no file has and with a file that
-- can be created and is written whole, passes, keeps the image, keeps the count exact, and leaves
-- the store within the quota.
pub save_in_quota :
    (max : ℕ) (f : File) (st : Store)
    → 0 < f.size
    → f.size ≤ max
    → IsValid st
    → All (λ g. g.name ≢ f.name) st.files
    → let (saved, st') = file_store_save max (λ g. true) true true f.size f st in
      (saved ≡ true) × IsValid st' × Has st'.files f × (st'.total ≤ max)
unfolding file_store_save
save_in_quota max f st some_bytes small v fresh =
    let written : (f.size == 0) ≡ false = ground arith in
    simp written (
      write_file-IsValid max f.size f.name small f (purge_if_needed max (λ g. true) true f.size st)
        refl refl (purge_if_needed-Purged max f.size f.name small st v fresh))
