-- ===== src/Inspectors/Leak/Snapshots.antt =====
-- inspector_leak.go: take_heap_snapshot and compare_heap_snapshots. What runtime/metrics reads is an
-- argument; its values are below 2^63, so int64 of them is the same number. The order of a range over
-- the types is that of the maps' entries, and sort.Slice a parameter.
use go_debug_agent.Prelude.{
  ℕ, ◌+◌, ◌-◌, Bool, true, false, ◌||◌, List, [], ◌∷◌, ◌++◌, map, Option, none, some, if◌then◌else◌,
  length, drop, ltb, leb, is_empty, ◌==◌,
}
use go_debug_agent.Prelude.Map
use go_debug_agent.Prelude.Map.{text_key}
use go_debug_agent.Prelude.Int.{ℤ, pos, negsuc}
use go_debug_agent.Prelude.Text.{Text, ascii, text_eq, decimal}
use go_debug_agent.Registry.Value.{Value, str, int}
use go_debug_agent.Inspectors.Base.{Format, object, array, count_value}
use go_debug_agent.Inspectors.Ring.{ring_push}

pub record HeapSnapshot : Type 0 where
  pub id : Text
  pub timestamp : ℕ
  pub heap_in_use : ℕ
  pub heap_alloc : ℕ
  pub heap_objects : ℕ
  pub total_alloc : ℕ
  pub type_bytes : List (Text × ℕ)
  pub type_counts : List (Text × ℕ)

-- heapSnapshots and heapSnapshotSeq.
pub record HeapState : Type 0 where
  pub snapshots : List HeapSnapshot
  pub seq : ℕ

-- runtime.MemStats, and the samples of runtime/metrics with their names: memory classes and those of
-- the collector. A sample of another kind than uint64 is `none`.
pub record MemStats : Type 0 where
  pub heap_in_use : ℕ
  pub heap_alloc : ℕ
  pub heap_objects : ℕ
  pub total_alloc : ℕ
  pub class_samples : List (Text × Option ℕ)
  pub gc_samples : List (Text × Option ℕ)

-- trimAfter
unfoldable pub trim_after : Text → ℕ → Text
trim_after [] ch = []
trim_after (c ∷ s) ch = if c == ch then [] else c ∷ trim_after s ch

-- The name of a class: what follows a prefix of n bytes, up to a colon.
unfoldable pub class_name : ℕ → Text → Text
class_name n name = trim_after (if ltb n (length name) then drop n name else name) 58

-- TypeBytes and TypeCounts.
abbrev pub TypeMaps : Type 0
TypeMaps = List (Text × ℕ) × List (Text × ℕ)

unfoldable pub put_samples : ℕ → List (Text × Option ℕ) → TypeMaps → TypeMaps
put_samples n [] maps = maps
put_samples n ((name, none) ∷ samples) maps = put_samples n samples maps
put_samples n ((name, some val) ∷ samples) maps =
    put_samples n samples
      ((Map.insert (class_name n name) val maps.0, Map.insert (class_name n name) 1 maps.1))

-- fmt's %03d
unfoldable pub three_digits : ℕ → Text
three_digits n =
    (if ltb n 10 then ascii "00" else (if ltb n 100 then ascii "0" else [])) ++ decimal n

unfoldable pub capture_heap_snapshot : ℕ → MemStats → ℕ → HeapSnapshot
capture_heap_snapshot seq m time =
    let maps = put_samples 4 m.gc_samples (put_samples 16 m.class_samples ([], [])) in
    record {
      id = ascii "heap-" ++ three_digits seq;
      timestamp = time;
      heap_in_use = m.heap_in_use;
      heap_alloc = m.heap_alloc;
      heap_objects = m.heap_objects;
      total_alloc = m.total_alloc;
      type_bytes = maps.0;
      type_counts = maps.1;
    }

abbrev pub heap_snapshots_max : ℕ
heap_snapshots_max = 50

unfoldable pub push_heap_snapshot : HeapSnapshot → HeapState → HeapState
push_heap_snapshot snap s = record s { snapshots = ring_push heap_snapshots_max snap s.snapshots }

-- x - y
unfoldable pub minus : ℕ → ℕ → ℤ
minus x y = if leb y x then pos (x - y) else negsuc (y - x - 1)

-- m[t], which is 0 where it is missing.
unfoldable pub bytes_at : Text → List (Text × ℕ) → ℕ
bytes_at t m = Map.value_or_zero (λ n. n) (Map.lookup t m)

unfoldable pub add_types : List (Text × ℕ) → List (Text × Bool) → List (Text × Bool)
add_types [] types = types
add_types ((t, n) ∷ m) types = add_types m (Map.insert t true types)

-- The last snapshot with an id.
unfoldable pub find_snapshot : Text → List HeapSnapshot → Option HeapSnapshot → Option HeapSnapshot
find_snapshot id [] found = found
find_snapshot id (s ∷ snapshots) found =
    find_snapshot id snapshots (if text_eq s.id id then some s else found)

pub record TypeDelta : Type 0 where
  pub type : Text
  pub bytes_before : ℕ
  pub bytes_after : ℕ
  pub bytes_delta : ℤ
  pub count_delta : ℤ

unfoldable pub type_delta : HeapSnapshot → HeapSnapshot → Text × Bool → TypeDelta
type_delta s1 s2 (t, b) = record {
  type = t;
  bytes_before = bytes_at t s1.type_bytes;
  bytes_after = bytes_at t s2.type_bytes;
  bytes_delta = minus (bytes_at t s2.type_bytes) (bytes_at t s1.type_bytes);
  count_delta = minus (bytes_at t s2.type_counts) (bytes_at t s1.type_counts);
}

-- i > j
unfoldable pub int_gt : ℤ → ℤ → Bool
int_gt (pos m) (pos n) = ltb n m
int_gt (pos m) (negsuc n) = true
int_gt (negsuc m) (pos n) = false
int_gt (negsuc m) (negsuc n) = ltb m n

unfoldable pub larger_delta : TypeDelta → TypeDelta → Bool
larger_delta y x = int_gt y.bytes_delta x.bytes_delta

unfoldable pub type_deltas :
    (List TypeDelta → List TypeDelta) → HeapSnapshot → HeapSnapshot → List TypeDelta
type_deltas sort s1 s2 =
    sort (map (type_delta s1 s2) (add_types s2.type_bytes (add_types s1.type_bytes [])))

module _ {X : Type 0} where
  unfoldable pub take_heap_snapshot : Format → MemStats → ℕ → HeapState → Value X × HeapState
  take_heap_snapshot format m time s =
      let snap = capture_heap_snapshot (s.seq + 1) m time in
      (
        object (
            (ascii "snapshot_id", str snap.id)
            ∷ (ascii "timestamp", str (format.rfc3339_nano snap.timestamp))
            ∷ (ascii "heap_inuse", count_value snap.heap_in_use)
            ∷ (ascii "heap_alloc", count_value snap.heap_alloc)
            ∷ (ascii "heap_objects", count_value snap.heap_objects)
            ∷ (ascii "total_alloc", count_value snap.total_alloc)
            ∷ (ascii "type_count", count_value (length snap.type_bytes))
            ∷ []),
        push_heap_snapshot snap (record s { seq = s.seq + 1 }),
      )

-- The growth from b1 to b2 in percent of b1, or 100 where only b1 is 0, or 0: a float64.
module _ {X : Type 0} (growth : ℕ → ℕ → Value X) (sort : List TypeDelta → List TypeDelta) where
  unfoldable pub delta_value : TypeDelta → Value X
  delta_value d = object (
      (ascii "type", str d.type)
      ∷ (ascii "bytes_delta", int d.bytes_delta)
      ∷ (ascii "count_delta", int d.count_delta)
      ∷ (ascii "growth_percentage", growth d.bytes_before d.bytes_after)
      ∷ [])

  unfoldable pub compare_found : Text → Text → Option HeapSnapshot → Option HeapSnapshot → Value X
  compare_found id1 id2 (some s1) (some s2) =
      let deltas = type_deltas sort s1 s2 in
      object (
        (ascii "snapshot1", str id1)
        ∷ (ascii "snapshot2", str id2)
        ∷ (ascii "heap_inuse_delta", int (minus s2.heap_in_use s1.heap_in_use))
        ∷ (ascii "heap_alloc_delta", int (minus s2.heap_alloc s1.heap_alloc))
        ∷ (ascii "heap_objects_delta", int (minus s2.heap_objects s1.heap_objects))
        ∷ (ascii "type_count", count_value (length deltas))
        ∷ (ascii "deltas", array (map delta_value deltas))
        ∷ [])
  compare_found id1 id2 _ _ =
      object ((ascii "error", str (ascii "One or both snapshot IDs not found")) ∷ [])

  -- The ids are "" where they are missing.
  unfoldable pub compare_heap_snapshots : Text → Text → HeapState → Value X
  compare_heap_snapshots id1 id2 s =
      if is_empty id1 || is_empty id2
      then object
          ((ascii "error", str (ascii "Both snapshot1_id and snapshot2_id are required")) ∷ [])
      else compare_found id1 id2 (find_snapshot id1 s.snapshots none)
          (find_snapshot id2 s.snapshots none)
