-- ===== src/Wal/Compact.antt =====
-- wal/src/lib.rs: `compact_below` of `WriteAheadLog`, which deletes the segments that hold no record
-- above a threshold. `dir` is the directory, the numbers of the segments in it, `list_fails` the error
-- of listing it, if there is one, and `remove_file` the file system's answer for each segment.
pub mod Safe
use blipmq.Prelude.{
  ℕ, ◌+◌, Bool, true, false, not, ◌&&◌, ◌||◌, ltb, leb, ◌==◌, List, [], ◌∷◌, ◌++◌, Option, none,
  some, is_some, if◌then◌else◌, Outcome, ok, err,
}
use blipmq.Core.LogError.{LogError, io}
use blipmq.Core.TagMap.{get, insert}
use blipmq.Wal.Record.{RecordLocation}

abbrev pub Index : Type 0
Index = List (ℕ × RecordLocation)

pub data Removal : Type 0 where
  removed not_found failed : Removal

-- `entry(seq).or_insert(0)`, raised to `id`.
greater : ℕ → Option ℕ → ℕ
greater id none = id
greater id (some old) = if ltb old id then id else old

raise_max : ℕ → ℕ → List (ℕ × ℕ) → List (ℕ × ℕ)
unfolding greater
raise_max seq id m = insert seq (greater id (get seq m)) m

-- The greatest id of each segment.
max_id_per_segment : Index → List (ℕ × ℕ) → List (ℕ × ℕ)
unfolding raise_max
max_id_per_segment [] m = m
max_id_per_segment ((id, loc) ∷ index) m = max_id_per_segment index (raise_max loc.segment_seq id m)

below_threshold : ℕ → ℕ → List (ℕ × ℕ) → List ℕ
below_threshold active_seq safe_threshold [] = []
below_threshold active_seq safe_threshold ((seq, max_id) ∷ m) =
    let rest = below_threshold active_seq safe_threshold m in
    if not (seq == active_seq) && leb max_id safe_threshold then seq ∷ rest else rest

-- The segments without a record in the index.
stragglers : ℕ → List (ℕ × ℕ) → List ℕ → List ℕ
stragglers active_seq m [] = []
stragglers active_seq m (seq ∷ seqs) =
    let rest = stragglers active_seq m seqs in
    if seq == active_seq || is_some (get seq m) then rest else seq ∷ rest

-- `sort_unstable` and `dedup`.
place : ℕ → List ℕ → List ℕ
place seq [] = seq ∷ []
place seq (x ∷ xs) =
    let rest = place seq xs in
    if seq == x then x ∷ xs else if ltb seq x then seq ∷ x ∷ xs else x ∷ rest

sort_dedup : List ℕ → List ℕ
unfolding place
sort_dedup [] = []
sort_dedup (seq ∷ seqs) = place seq (sort_dedup seqs)

unfoldable pub contains : ℕ → List ℕ → Bool
contains seq [] = false
contains seq (x ∷ xs) = x == seq || contains seq xs

remove_seq : ℕ → List ℕ → List ℕ
remove_seq seq [] = []
remove_seq seq (x ∷ xs) = if x == seq then remove_seq seq xs else x ∷ remove_seq seq xs

-- The loop over the segments: the directory that is left, and how many were deleted. An error ends it.
delete_all : (ℕ → Removal) → List ℕ → ℕ → List ℕ → List ℕ × Outcome LogError ℕ
unfolding remove_seq
delete_all remove_file [] deleted dir = (dir, ok deleted)
delete_all remove_file (seq ∷ seqs) deleted dir = elim (remove_file seq) [
  | removed ↦ delete_all remove_file seqs (deleted + 1) (remove_seq seq dir)
  | not_found ↦ delete_all remove_file seqs deleted dir
  | failed ↦ (dir, err io)
]

retain : List ℕ → Index → Index
unfolding contains
retain deleted_set [] = []
retain deleted_set ((id, loc) ∷ index) =
    let rest = retain deleted_set index in
    if contains loc.segment_seq deleted_set then rest else (id, loc) ∷ rest

to_delete : ℕ → ℕ → Index → List ℕ → List ℕ
unfolding max_id_per_segment below_threshold stragglers sort_dedup
to_delete active_seq safe_threshold index dir =
    let m = max_id_per_segment index [] in
    sort_dedup (below_threshold active_seq safe_threshold m ++ stragglers active_seq m dir)

drop_entries : List ℕ → Index → Outcome LogError ℕ → Index
unfolding retain
drop_entries seqs index (ok deleted) = if ltb 0 deleted then retain seqs index else index
drop_entries seqs index stopped = index

-- The index and the directory afterwards, and the answer.
pub compact_below :
    (ℕ → Removal) → Option LogError → ℕ → ℕ → Index → List ℕ → Index × List ℕ × Outcome LogError ℕ
unfolding to_delete delete_all drop_entries
compact_below remove_file (some e) active_seq safe_threshold index dir = (index, dir, err e)
compact_below remove_file none active_seq safe_threshold index dir =
    let seqs = to_delete active_seq safe_threshold index dir in
    let (left, answer) = delete_all remove_file seqs 0 dir in
    (drop_entries seqs index answer, left, answer)
