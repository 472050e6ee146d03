-- ===== src/Cpp/CameraFrame/Owned.antt =====
-- How often a frame is returned, whatever a program does with its owners
-- (components/monet_core/src_cpp/CameraFrame.cpp).
use esp_mo_net.Base.{
  some, [], ◌∷◌, zero, suc, ℕ, List, ◌+◌, ◌≢◌, if◌then◌else◌, get_elem?, ◌==◌, ◌++◌, ◌≡◌, arith,
  some, set, ap, Ensures, Bool-cases, inl, inr, ◌∙◌, Ensures-map, get_elem?-set_ne, map,
  Ensures-found, Ensures-bind, Ensures-some,
}
use esp_mo_net.Bus.Delivery.{count}
use esp_mo_net.Cpp.CameraFrame.{
  Frames, Op, perform, reset, release, adopted, adopt, move_construct, move_assign, assign,
  release_of, reset_of, destroy, perform_all, destroy_each, end_scope, no_frames,
}

-- One, if it is that frame.
abbrev one : ℕ → ℕ → ℕ
one h fb = if fb == h then 1 else 0

count-append : (h : ℕ) (xs ys : List ℕ) → count h (xs ++ ys) ≡ count h xs + count h ys
count-append h [] ys = omega arith
count-append h (x ∷ xs) ys = omega (arith, count-append h xs ys)

count-set :
    (h : ℕ) (xs : List ℕ) (i v : ℕ) {x : ℕ}
    → get_elem? xs i ≡ some x
    → count h (set xs i v) + one h x ≡ count h xs + one h v
count-set h [] i v e = absurd (cc)
count-set h (y ∷ xs) zero v {x} e = let same : y ≡ x = cc in omega (arith, ap (one h) same)
count-set h (y ∷ xs) (suc i) v {x} e = omega (arith, count-set h xs i v {x = x} e)

-- How often a frame is held, returned or handed on.
abbrev counted : ℕ → Frames → ℕ
counted h st = count h st.objects + count h st.returned + count h st.handed

count-unless_null :
    (h old : ℕ) (xs : List ℕ)
    → h ≢ 0
    → count h (if old == 0 then xs else old ∷ xs) ≡ count h xs + one h old
count-unless_null h old xs nz = ground arith

counted-reset :
    (h i old fb : ℕ) (st : Frames)
    → h ≢ 0
    → get_elem? st.objects i ≡ some old
    → counted h (reset i old fb st) ≡ counted h st + one h fb
unfolding reset
counted-reset h i old fb st nz e =
    omega (arith, count-set h st.objects i fb {x = old} e, count-unless_null h old st.returned nz)

counted-release :
    (h i old : ℕ) (st : Frames)
    → h ≢ 0
    → get_elem? st.objects i ≡ some old
    → counted h (release i old st) ≡ counted h st
unfolding release
counted-release h i old st nz e =
    let null : one h 0 ≡ 0 = ground (arith, nz) in
    omega
      (arith, null, count-set h st.objects i 0 {x = old} e, count-unless_null h old st.handed nz)

-- An operation adds to the count what it adopts.
perform-counted :
    (h : ℕ) (op : Op) (st : Frames)
    → h ≢ 0
    → Ensures (λ st'. counted h st' ≡ counted h st + one h (adopted op)) (perform op st)
unfolding perform
perform-counted h (adopt fb) st nz = omega (arith, count-append h st.objects (fb ∷ []))
perform-counted h (move_construct from) st nz =
    Ensures-map (λ st'. counted h st' ≡ counted h st + one h 0) _ (get_elem? st.objects from)
      λ fb e.
        let null : one h 0 ≡ 0 = ground (arith, nz) in
        omega (
          arith,
          null,
          count-set h st.objects from 0 {x = fb} e,
          count-append h (set st.objects from 0) (fb ∷ []),
        )
perform-counted h (move_assign to from) st nz = Ensures-found P _ (get_elem? st.objects to) λ old e.
    Ensures-found P _ (get_elem? st.objects from) λ fb e'. elim (Bool-cases (to == from)) [
      | inl self ↦ rw self null
      | inr other ↦ rw other (assign_counted old fb e e' (ground arith))
    ]
  where
    P : Frames → Type 0
    P st' = counted h st' ≡ counted h st + one h 0

    null : counted h st ≡ counted h st + one h 0
    null = ground (arith, nz)

    assign_counted :
        (old fb : ℕ)
        → get_elem? st.objects to ≡ some old
        → get_elem? st.objects from ≡ some fb
        → to ≢ from
        → P (assign to old from fb st)
    assign_counted old fb e e' apart =
        let kept = get_elem?-set_ne st.objects fb apart ∙ e' in
        omega (
          arith,
          counted-reset h to old fb st nz e,
          count-set h (set st.objects to fb) from 0 {x = fb} kept,
        )
perform-counted h (release_of i) st nz =
    Ensures-map (λ st'. counted h st' ≡ counted h st + one h 0) _ (get_elem? st.objects i)
      λ old e.
        let null : one h 0 ≡ 0 = ground (arith, nz) in
        omega (arith, null, counted-release h i old st nz e)
perform-counted h (reset_of i fb) st nz =
    Ensures-map (λ st'. counted h st' ≡ counted h st + one h fb) _ (get_elem? st.objects i)
      λ old e. counted-reset h i old fb st nz e
perform-counted h (destroy i) st nz =
    Ensures-map (λ st'. counted h st' ≡ counted h st + one h 0) _ (get_elem? st.objects i)
      λ old e. counted-reset h i old 0 st nz e

perform_all-counted :
    (h : ℕ) (ops : List Op) (st : Frames) (total : ℕ)
    → h ≢ 0
    → counted h st + count h (map adopted ops) ≡ total
    → Ensures (λ st'. counted h st' ≡ total) (perform_all ops st)
unfolding perform_all
perform_all-counted h [] st total nz e = omega arith
perform_all-counted h (op ∷ ops) st total nz e =
    Ensures-bind (λ st'. counted h st' ≡ counted h st + one h (adopted op))
      (λ st'. counted h st' ≡ total) (perform_all ops) (perform op st) (perform-counted h op st nz)
      λ st' adds. perform_all-counted h ops st' total nz (omega arith)

count-destroy_each :
    (h : ℕ) (objects returned : List ℕ)
    → h ≢ 0
    → count h (destroy_each objects returned) ≡ count h objects + count h returned
count-destroy_each h [] returned nz = omega arith
count-destroy_each h (fb ∷ objects) returned nz = omega (
  arith,
  count-destroy_each h objects returned nz,
  count-unless_null h fb (destroy_each objects returned) nz,
)

-- Whatever a program does with its frame objects, at the end of their scope a frame has been
-- returned to the driver or handed on as often as the program adopted it. The program names only
-- objects that it has made, and the frame is not nullptr.
pub frames_returned_once :
    (ops : List Op) (st : Frames) (h : ℕ)
    → perform_all ops no_frames ≡ some st
    → h ≢ 0
    → count h (end_scope st).returned + count h (end_scope st).handed ≡ count h (map adopted ops)
unfolding end_scope no_frames
frames_returned_once ops st h runs nz =
    let total = count h (map adopted ops) in
    let all =
      Ensures-some (λ st'. counted h st' ≡ total) (perform_all ops no_frames)
        (perform_all-counted h ops no_frames total nz (omega arith)) runs in
    omega (arith, all, count-destroy_each h st.objects st.returned nz)
