-- ===== src/Iterators/Merge.antt =====
-- crates/storage/src/iterators/merge_iter.rs: `MergeIter`, over any number of iterators.
--
-- The methods of the two directions differ in the order of the keys alone, so each is written once,
-- for the direction that it is called in. A binary heap is a list here: its top is the one element
-- above all others in the order of the wrappers, which the loop of `top` looks for.
pub mod Merged
pub mod Heap
pub mod Lists
pub mod Seeks
pub mod Front
pub mod Steps
pub mod Scans
pub mod Clients
use todb.Prelude.{
  ℕ, suc, ◌+◌, Bool, true, false, List, [], ◌∷◌, ◌++◌, Option, none, some, Run, ok, unwrap, ◌>>=◌,
  if◌then◌else◌, ltb,
}
use todb.Bytes.{Bytes}
use todb.Iterators.Traits.{Iter, forward, backward}

pub record HeapWrap (I : Type 0) : Type 0 where
  pub level : ℕ
  pub iter : I

pub data Direction : Type 0 where
  forward_scan reverse_scan : Direction

-- which methods of the trait, or which variant of the heap
abbrev pub same_direction : Direction → Direction → Bool
same_direction forward_scan forward_scan = true
same_direction forward_scan reverse_scan = false
same_direction reverse_scan forward_scan = false
same_direction reverse_scan reverse_scan = true

-- the order in which a direction meets the keys
abbrev pub order_of : Direction → Bytes → Bytes → Bool
order_of forward_scan = forward
order_of reverse_scan = backward

-- the enum: the variant, and the wrappers in the heap
pub record MergeHeap (I : Type 0) : Type 0 where
  pub direction : Direction
  pub wraps : List (HeapWrap I)

pub record MergeIter (I : Type 0) : Type 0 where
  pub items : List (HeapWrap I)
  pub heap : MergeHeap I

-- whether a wrapper with the first key and level lies above one with the second in the heap: its
-- key comes first in the scan, or the keys are equal and its level is lower
abbrev pub above : (Bytes → Bytes → Bool) → Bytes → ℕ → Bytes → ℕ → Bool
above ahead a i b j = if ahead a b then true else if ahead b a then false else ltb i j

-- the comparison of `HeapWrap` and `MaxHeapWrap`; an invalid iterator sinks
abbrev pub is_above : (Bytes → Bytes → Bool) → Option Bytes → ℕ → Option Bytes → ℕ → Bool
is_above ahead none i b j = false
is_above ahead (some a) i none j = true
is_above ahead (some a) i (some b) j = above ahead a i b j

module _ {I : Type 0} where
  unfoldable pub enumerate : ℕ → List I → List (HeapWrap I)
  enumerate level [] = []
  enumerate level (x ∷ xs) = record { level = level; iter = x } ∷ enumerate (suc level) xs

  unfoldable pub new : List I → MergeIter I
  unfolding enumerate
  new iters = record {
    items = enumerate 0 iters;
    heap = record { direction = forward_scan; wraps = [] };
  }

  unfoldable pub drain_to_items : MergeIter I → List (HeapWrap I)
  drain_to_items s = s.items ++ s.heap.wraps

  -- the loop over `items` in the two seeks
  unfoldable pub step_all : (I → Run I) → List (HeapWrap I) → Run (List (HeapWrap I))
  step_all step [] = ok []
  step_all step (w ∷ ws) = do
    x ← step w.iter
    rest ← step_all step ws
    ok (record w { iter = x } ∷ rest)

module _ {I V : Type 0} (ops : Iter I V) where
  -- the top of the heap and what is left without it
  unfoldable pub top : Direction → List (HeapWrap I) → Run (Option (HeapWrap I × List (HeapWrap I)))
  top direction [] = ok none
  top direction (w ∷ ws) = do
    best ← top direction ws
    elim best [
      | none ↦ ok (some (w, ws))
      | some (t, rest) ↦ do
        wk ← ops.key w.iter
        tk ← ops.key t.iter
        ok (
            if is_above (order_of direction) wk w.level tk t.level
            then some (w, ws)
            else some (t, w ∷ rest))
    ]

  -- the wrappers that go into the heap, and those that stay
  unfoldable pub actives : List (HeapWrap I) → List (HeapWrap I)
  actives [] = []
  actives (w ∷ ws) = if ops.valid w.iter then w ∷ actives ws else actives ws

  unfoldable pub inactives : List (HeapWrap I) → List (HeapWrap I)
  inactives [] = []
  inactives (w ∷ ws) = if ops.valid w.iter then inactives ws else w ∷ inactives ws

  -- what `read` gives of the iterator on top
  unfoldable pub peek : {T : Type 0} → (I → Run (Option T)) → MergeIter I → Run (Option T)
  peek read s = do
    best ← top s.heap.direction s.heap.wraps
    elim best [ none ↦ ok none | some (t, rest) ↦ read t.iter ]

module _ {I V : Type 0} (ops : Iter I V) (direction : Direction) where
  -- `build_forward_heap` and `build_reverse_heap`
  unfoldable pub build_heap : List (HeapWrap I) → MergeIter I
  build_heap ws = record {
    items = inactives ops ws;
    heap = record { direction = direction; wraps = actives ops ws };
  }

  unfoldable pub seek_to_first : MergeIter I → Run (MergeIter I)
  seek_to_first s = do ws ← step_all ops.seek_to_first (drain_to_items s); ok (build_heap ws)

  unfoldable pub seek : MergeIter I → Bytes → Run (MergeIter I)
  seek s target = do ws ← step_all (λ x. ops.seek x target) (drain_to_items s); ok (build_heap ws)

  -- `next` on the popped top of the heap
  unfoldable pub advance : MergeIter I → Option (HeapWrap I × List (HeapWrap I)) → Run (MergeIter I)
  advance s none = ok s
  advance s (some (w, rest)) = do
    x ← ops.next w.iter
    ok (
        if ops.valid x
        then record s { heap = record s.heap { wraps = record w { iter = x } ∷ rest } }
        else record {
          items = s.items ++ record w { iter = x } ∷ [];
          heap = record s.heap { wraps = rest };
        })

  unfoldable pub next : MergeIter I → Run (MergeIter I)
  next s = elim (same_direction s.heap.direction direction) [
    | false ↦ ok s
    | true ↦ do popped ← top ops s.heap.direction s.heap.wraps; advance s popped
  ]

  unfoldable pub valid : MergeIter I → Bool
  valid s = elim s.heap.wraps [ [] ↦ false | w ∷ ws ↦ true ]

  unfoldable pub key : MergeIter I → Run (Option Bytes)
  key s = peek ops ops.key s

  unfoldable pub value : MergeIter I → Run (Option V)
  value s = peek ops ops.value s

  -- `MergeIter` as an iterator of this direction
  abbrev pub merge_iter : Iter (MergeIter I) V
  merge_iter = record {
    valid = valid;
    key = key;
    value = value;
    seek_to_first = seek_to_first;
    seek = seek;
    next = next;
  }
