-- ===== src/Diff/Context.antt =====
-- A place inside a value: the frames from the root down to it. A change at a longer path works
-- inside the place that its first segments lead to, and leaves the rest of the value alone.
use letopis.Prelude.{
  ℕ, ◌<◌, ◌≡◌, refl, ap, Str, false, List, [], ◌∷◌, ◌++◌, str_eq_refl, leb, arith,
}
use letopis.Json.{Value, arr, obj, Items, cons, Fields}
use letopis.Json.Slice
use letopis.Json.Slice.{◌+++◌}
use letopis.Json.Object.{put, lookup-put, put-put}
use letopis.Diff.Model.{Op, add, change, remove, other, Change, ok}
use letopis.Diff.Path.{PathSeg, key, index, sign_bit}
use letopis.Diff.Apply.{apply_step, apply_segs, apply_root, apply_key, apply_index}

-- A step from a composite value to one of its parts, with what stands round the part.
pub data Frame : Type 0 where
  in_key : Str → Fields → Frame
  in_index : Items → Items → Frame

abbrev pub plug_frame : Frame → Value → Value
plug_frame (in_key k m) v = obj (put k v m)
plug_frame (in_index pre post) v = arr (pre +++ cons v post)

abbrev pub plug : List Frame → Value → Value
plug [] v = v
plug (f ∷ fs) v = plug_frame f (plug fs v)

abbrev pub seg : Frame → PathSeg
seg (in_key k m) = key k
seg (in_index pre post) = index (Slice.length pre)

abbrev pub segs : List Frame → List PathSeg
segs [] = []
segs (f ∷ fs) = seg f ∷ segs fs

-- Every index on the way is an int that is not negative.
abbrev pub IsNarrow : List Frame → Type 0
IsNarrow [] = Unit {0}
IsNarrow (in_key k m ∷ fs) = IsNarrow fs
IsNarrow (in_index pre post ∷ fs) = (Slice.length pre < sign_bit) × IsNarrow fs

pub plug-append :
    (fs : List Frame) (f : Frame) (v : Value) → plug (fs ++ f ∷ []) v ≡ plug fs (plug_frame f v)
plug-append [] f v = refl
plug-append (g ∷ fs) f v = ap (plug_frame g) (plug-append fs f v)

pub segs-append : (fs : List Frame) (f : Frame) → segs (fs ++ f ∷ []) ≡ segs fs ++ seg f ∷ []
segs-append [] f = refl
segs-append (g ∷ fs) f = ap (λ r. seg g ∷ r) (segs-append fs f)

pub IsNarrow-key :
    (fs : List Frame) (k : Str) (m : Fields) → IsNarrow fs → IsNarrow (fs ++ in_key k m ∷ [])
IsNarrow-key [] k m h = tt
IsNarrow-key (in_key j n ∷ fs) k m h = IsNarrow-key fs k m h
IsNarrow-key (in_index xs ys ∷ fs) k m h = (h.0, IsNarrow-key fs k m h.1)

pub IsNarrow-index :
    (fs : List Frame) (pre post : Items)
    → Slice.length pre < sign_bit
    → IsNarrow fs
    → IsNarrow (fs ++ in_index pre post ∷ [])
IsNarrow-index [] pre post p h = (p, tt)
IsNarrow-index (in_key j n ∷ fs) pre post p h = IsNarrow-index fs pre post p h
IsNarrow-index (in_index xs ys ∷ fs) pre post p h = (h.0, IsNarrow-index fs pre post p h.1)

in_range :
    (pre post : Items) (v : Value)
    → Slice.length pre < sign_bit
    → (leb sign_bit (Slice.length pre) ≡ false)
      × (leb (Slice.length (pre +++ cons v post)) (Slice.length pre) ≡ false)
in_range pre post v p = (ground arith, ground (arith, Slice.length-+++ pre (cons v post)))

module _ (format_float : ℕ → Str) (ch : Change) where
  leaf_key :
      (op : Op) (k : Str) (m : Fields) (v nv : Value)
      → apply_root ch op ≡ ok nv
      → apply_key k (put k v m) ch op ≡ ok (put k nv m)
  unfolding apply_key
  leaf_key add k m v nv h = ground arith
  leaf_key change k m v nv h = ground (arith, put-put k v ch.new m)
  leaf_key remove k m v nv h = ground arith
  leaf_key (other o) k m v nv h = ground arith

  leaf_index :
      (op : Op) (pre post : Items) (v nv : Value)
      → Slice.length pre < sign_bit
      → apply_root ch op ≡ ok nv
      → apply_index (Slice.length pre) (pre +++ cons v post) ch op ≡ ok (pre +++ cons nv post)
  unfolding apply_index
  leaf_index add pre post v nv p h = ground arith
  leaf_index change pre post v nv p h =
      let (low, high) = in_range pre post v p in
      ground (arith, low, high, Slice.set-length pre v ch.new post)
  leaf_index remove pre post v nv p h = ground arith
  leaf_index (other o) pre post v nv p h = ground arith

  step_key :
      (s : PathSeg) (ss : List PathSeg) (k : Str) (m : Fields) (v nv : Value)
      → apply_step format_float s ss v ch ≡ ok nv
      → apply_step format_float (key k) (s ∷ ss) (obj (put k v m)) ch ≡ ok (obj (put k nv m))
  unfolding apply_step
  step_key s ss k m v nv h =
      rw (lookup-put k k v m) (rw (str_eq_refl k) (rw h (rw (put-put k v nv m))))

  step_index :
      (s : PathSeg) (ss : List PathSeg) (pre post : Items) (v nv : Value)
      → Slice.length pre < sign_bit
      → apply_step format_float s ss v ch ≡ ok nv
      → apply_step format_float (index (Slice.length pre)) (s ∷ ss) (arr (pre +++ cons v post)) ch
        ≡ ok (arr (pre +++ cons nv post))
  unfolding apply_step
  step_index s ss pre post v nv p h =
      let (low, high) = in_range pre post v p in
      rw low (
        rw high
          (rw (Slice.get_elem?-length pre v post) (rw h (rw (Slice.set-length pre v nv post)))))

  step_frame :
      (f : Frame) (ts : List PathSeg) (v nv : Value)
      → IsNarrow (f ∷ [])
      → apply_segs format_float ts v ch ≡ ok nv
      → apply_segs format_float (seg f ∷ ts) (plug_frame f v) ch ≡ ok (plug_frame f nv)
  unfolding apply_segs apply_step
  step_frame (in_key k m) [] v nv n h = rw (leaf_key ch.op k m v nv h)
  step_frame (in_key k m) (s ∷ ss) v nv n h = step_key s ss k m v nv h
  step_frame (in_index pre post) [] v nv n h = rw (leaf_index ch.op pre post v nv n.0 h)
  step_frame (in_index pre post) (s ∷ ss) v nv n h = step_index s ss pre post v nv n.0 h

  -- A change that works on a value works on it at its place inside a larger value.
  pub apply_segs-plug :
      (fs : List Frame) (ts : List PathSeg) (v nv : Value)
      → IsNarrow fs
      → apply_segs format_float ts v ch ≡ ok nv
      → apply_segs format_float (segs fs ++ ts) (plug fs v) ch ≡ ok (plug fs nv)
  apply_segs-plug [] ts v nv n h = h
  apply_segs-plug (in_key k m ∷ fs) ts v nv n h =
      step_frame (in_key k m) (segs fs ++ ts) (plug fs v) (plug fs nv) tt
        (apply_segs-plug fs ts v nv n h)
  apply_segs-plug (in_index pre post ∷ fs) ts v nv n h =
      step_frame (in_index pre post) (segs fs ++ ts) (plug fs v) (plug fs nv) (n.0, tt)
        (apply_segs-plug fs ts v nv n.1 h)
