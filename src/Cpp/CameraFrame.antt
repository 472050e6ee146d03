-- ===== src/Cpp/CameraFrame.antt =====
-- components/monet_core/src_cpp/CameraFrame.cpp and the class in
-- components/monet_core/include_cpp/monet_core_cpp/CameraFrame.hpp. An object holds its pointer `fb_`, where 0 is nullptr.
pub mod Owned
use mathlib.Core.Option
use esp_mo_net.Base.{
  [], ◌∷◌, refl, zero, suc, List, ℕ, Option, set, some, if◌then◌else◌, ◌++◌, ◌>>=◌, ◌==◌, get_elem?,
}

-- The objects in the order of their construction, the frames that `esp_camera_fb_return` was given, and the ones
-- that `release` handed to its callers.
pub record Frames : Type 0 where
  pub objects : List ℕ
  pub returned : List ℕ
  pub handed : List ℕ

unfoldable pub no_frames : Frames
no_frames = record { objects = []; returned = []; handed = [] }

-- `CameraFrame::reset` of the object `i`, which holds `old`.
unfoldable pub reset : ℕ → ℕ → ℕ → Frames → Frames
reset i old fb st = record st {
  objects = set st.objects i fb;
  returned = if old == 0 then st.returned else old ∷ st.returned;
}

-- `CameraFrame::release`
unfoldable pub release : ℕ → ℕ → Frames → Frames
release i old st = record st {
  objects = set st.objects i 0;
  handed = if old == 0 then st.handed else old ∷ st.handed;
}

-- What a program does with frames. An object is named by its place in the order of construction.
pub data Op : Type 0 where
  adopt : (fb : ℕ) → Op
  move_construct : (from : ℕ) → Op
  move_assign : (to from : ℕ) → Op
  release_of : (i : ℕ) → Op
  reset_of : (i fb : ℕ) → Op
  destroy : (i : ℕ) → Op

-- `operator=` of two different objects: the target gives back what it held.
abbrev pub assign : ℕ → ℕ → ℕ → ℕ → Frames → Frames
assign to old from fb st =
    let st' = reset to old fb st in record st' { objects = set st'.objects from 0 }

-- An operation on an object that there is not is none of a program's.
unfoldable pub perform : Op → Frames → Option Frames
unfolding reset release
perform (adopt fb) st = some (record st { objects = st.objects ++ fb ∷ [] })
perform (move_construct from) st =
    Option.map (λ fb. record st { objects = set st.objects from 0 ++ fb ∷ [] })
      (get_elem? st.objects from)
perform (move_assign to from) st = do
  old ← get_elem? st.objects to
  fb ← get_elem? st.objects from
  some (if to == from then st else assign to old from fb st)
perform (release_of i) st = Option.map (λ old. release i old st) (get_elem? st.objects i)
perform (reset_of i fb) st = Option.map (λ old. reset i old fb st) (get_elem? st.objects i)
perform (destroy i) st = Option.map (λ old. reset i old 0 st) (get_elem? st.objects i)

unfoldable pub perform_all : List Op → Frames → Option Frames
perform_all [] st = some st
perform_all (op ∷ ops) st = perform op st >>= λ st'. perform_all ops st'

-- The destructors at the end of a scope, the last object first.
abbrev pub destroy_each : List ℕ → List ℕ → List ℕ
destroy_each [] returned = returned
destroy_each (fb ∷ objects) returned =
    let later = destroy_each objects returned in if fb == 0 then later else fb ∷ later

unfoldable pub end_scope : Frames → Frames
end_scope st = record {
  objects = [];
  returned = destroy_each st.objects st.returned;
  handed = st.handed;
}

-- The frames that a program puts into the hands of its objects.
abbrev pub adopted : Op → ℕ
adopted (adopt fb) = fb
adopted (reset_of i fb) = fb
adopted (move_construct from) = 0
adopted (move_assign to from) = 0
adopted (release_of i) = 0
adopted (destroy i) = 0
