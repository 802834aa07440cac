-- ===== src/Paths.antt =====
-- Slash-separated paths: Go's lexical `filepath.Clean` on a Unix system, the guards that keep a path
-- inside a directory in server/internal/handlers/backup_run.go (UpdateStatus) and
-- agent/internal/agent/restore.go (extracting an archive; links on the disk are not modelled).
pub mod Parts
pub mod Inside
use db_backup_app.Base.{
  ℕ, Option, none, some, Bool, false, ◌||◌, not, List, [], ◌∷◌, ◌++◌, ◌==◌, if◌then◌else◌, Text,
  text_eq, is_empty, has_prefix,
}
use mathlib.Core.List.{reverse}

abbrev pub slash : ℕ
slash = 47

-- The parts between slashes; there is always at least one.
pub record Split : Type 0 where
  pub first : Text
  pub rest : List Text

unfoldable pub split : Text → Split
split [] = record { first = []; rest = [] }
split (c ∷ s) =
    let r = split s in
    if c == slash
    then record { first = []; rest = r.first ∷ r.rest }
    else record { first = c ∷ r.first; rest = r.rest }

unfoldable pub parts : Text → List Text
unfolding split
parts s = (split s).first ∷ (split s).rest

abbrev pub is_dot : Text → Bool
is_dot s = text_eq s (b'.' ∷ [])

abbrev pub is_dot_dot : Text → Bool
is_dot_dot s = text_eq s (b'.' ∷ b'.' ∷ [])

-- One part onto the stack of the parts kept, the last of them on top. At the root `..` is dropped.
unfoldable pub push : Bool → List Text → Text → List Text
push rooted stack s =
    if is_empty s || is_dot s then stack else if not (is_dot_dot s) then s ∷ stack else elim stack [
      | [] ↦ if rooted then [] else s ∷ []
      | top ∷ below ↦ if is_dot_dot top then s ∷ top ∷ below else below
    ]

unfoldable pub push_all : Bool → List Text → List Text → List Text
push_all rooted stack [] = stack
push_all rooted stack (s ∷ rest) = push_all rooted (push rooted stack s) rest

unfoldable pub is_rooted : Text → Bool
is_rooted [] = false
is_rooted (c ∷ s) = c == slash

-- A cleaned path: if it starts at the root, and its parts in order.
pub record Clean : Type 0 where
  pub rooted : Bool
  pub segments : List Text

unfoldable pub clean : Text → Clean
clean s = record { rooted = is_rooted s; segments = reverse (push_all (is_rooted s) [] (parts s)) }

-- The parts of a relative path with slashes between them.
unfoldable pub join_parts : List Text → Text
join_parts [] = []
join_parts (s ∷ []) = s
join_parts (s ∷ t ∷ rest) = s ++ slash ∷ join_parts (t ∷ rest)

-- `filepath.Clean` writes `/…`, a relative path, or `.` for no part.
unfoldable pub render : Clean → Text
render c =
    if c.rooted
    then slash ∷ join_parts c.segments
    else elim c.segments [ [] ↦ b'.' ∷ [] | s ∷ rest ↦ join_parts (s ∷ rest) ]

-- strings.HasPrefix(clean, base+"/") || clean == base
unfoldable pub is_within : Text → Text → Bool
is_within path dir =
    let p = render (clean path) in
    let base = render (clean dir) in has_prefix p (base ++ slash ∷ []) || text_eq p base

-- filepath.Join of two names.
unfoldable pub join : Text → Text → Text
join a b =
    if is_empty a
    then (if is_empty b then [] else render (clean b))
    else if is_empty b
    then render (clean a)
    else render (clean (a ++ slash ∷ b))

-- The elements that are not empty, with slashes between them.
unfoldable pub joined : List Text → Text
joined [] = []
joined (e ∷ es) =
    let rest = joined es in
    if is_empty e then rest else if is_empty rest then e else e ++ slash ∷ rest

-- path.Join: nothing at all stays empty.
unfoldable pub join_all : List Text → Text
join_all es = if is_empty (joined es) then [] else render (clean (joined es))

-- Where an archive entry is written; none if the entry is refused.
unfoldable pub entry_target : Text → Text → Option Text
entry_target dest name =
    let target = join dest name in if is_within target dest then some target else none
