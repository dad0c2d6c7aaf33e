-- ===== src/Executors/TaskList.antt =====
-- The part of Go's container/list that the executor uses: a list of tasks, whose elements are known
-- by their addresses. `init` empties a list, but the elements that it drops still point to it.
use go_fw.Prelude.{
  ℕ, ◌+◌, Bool, false, ◌||◌, Option, none, some, List, [], ◌∷◌, ◌++◌, ◌==◌, if◌then◌else◌, length,
}

pub record TaskList : Type 0 where
  pub items : List (ℕ × ℕ)
  pub dropped : List ℕ
  pub next_element : ℕ

abbrev pub empty_list : TaskList
empty_list = record { items = []; dropped = []; next_element = 0 }

abbrev pub length_list : TaskList → ℕ
length_list l = length l.items

abbrev pub ids : List (ℕ × ℕ) → List ℕ
ids [] = []
ids ((_, id) ∷ r) = id ∷ ids r

abbrev pub task_ids : TaskList → List ℕ
task_ids l = ids l.items

-- The list, and the address of the new element.
unfoldable pub push_back : TaskList → ℕ → TaskList × ℕ
push_back l id = (
  record l { items = l.items ++ (l.next_element, id) ∷ []; next_element = l.next_element + 1 },
  l.next_element,
)

abbrev pub has : List ℕ → ℕ → Bool
has [] a = false
has (b ∷ r) a = b == a || has r a

abbrev pub without : ℕ → List (ℕ × ℕ) → List (ℕ × ℕ)
without a [] = []
without a ((b, id) ∷ r) = if b == a then r else (b, id) ∷ without a r

-- An element that was removed before is no longer of the list, and nothing happens. To unlink one
-- that `init` dropped would damage the list: `none`.
unfoldable pub remove_element : TaskList → ℕ → Option TaskList
remove_element l a = if has l.dropped a then none else some (record l { items = without a l.items })

abbrev pub elements : List (ℕ × ℕ) → List ℕ
elements [] = []
elements ((a, _) ∷ r) = a ∷ elements r

unfoldable pub init : TaskList → TaskList
init l = record l { items = []; dropped = elements l.items ++ l.dropped }
