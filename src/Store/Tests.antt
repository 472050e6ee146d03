-- ===== src/Store/Tests.antt =====
-- A save into a full store (server/src/storage/file_store.c).
use esp_mo_net.Store.Quota.{IsValid}
use esp_mo_net.Base.{[], ◌∷◌, refl, arith}
use esp_mo_net.Store.{Store, File}

-- A full store of 10 bytes, the older file last in the directory.
abbrev pub full_store : Store
full_store = record {
  files = record { name = 1; mtime = 8; size = 6 } ∷ record { name = 2; mtime = 7; size = 4 } ∷ [];
  total = 10;
}

pub full_store-IsValid : IsValid full_store
full_store-IsValid = record { exact = refl; distinct = ground arith }

abbrev pub image : File
image = record { name = 3; mtime = 9; size = 3 }
