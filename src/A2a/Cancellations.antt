-- ===== src/A2a/Cancellations.antt =====
-- packages/server/src/a2a/cancellations.ts: the tasks that peers canceled, in the order in which a
-- JavaScript `Set` keeps them.
pub mod Bounds
use infinite_kanban.Prelude.{
  ℕ, String, Bool, List, [], ◌∷◌, ◌++◌, string_eq, leb, length, contains, if◌then◌else◌,
}

abbrev pub max_tracked_cancellations : ℕ
max_tracked_cancellations = 500

abbrev pub without_oldest : List String → List String
without_oldest [] = []
without_oldest (x ∷ xs) = xs

abbrev pub add_id : String → List String → List String
add_id id ids = if contains ids id then ids else ids ++ id ∷ []

unfoldable pub mark : String → List String → List String
mark id ids =
    add_id id (if leb max_tracked_cancellations (length ids) then without_oldest ids else ids)

unfoldable pub is_marked : String → List String → Bool
is_marked id ids = contains ids id

-- The log after these marks, from a fresh server on.
unfoldable pub log_of : List String → List String
unfolding mark
log_of [] = []
log_of (id ∷ earlier) = mark id (log_of earlier)
