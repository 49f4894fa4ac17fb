-- ===== src/Fs/Paths.antt =====
-- Paths in kernel/fs.c. A path is the list of its characters before the NUL, a name a buffer; the
-- process's `cwd` is an entry of the inode cache. `none` is a panic.
pub mod Elements
pub mod Walk
mod Tests
use my_oslab.Base.{
  ℕ, zero, suc, ◌+◌, Bool, true, false, not, ◌&&◌, Option, none, some, List, [], ◌∷◌, length, take,
  get_elem?, ltb, ◌==◌, if◌then◌else◌,
}
use my_oslab.Kalloc.{Kmem}
use my_oslab.Strings.{Bytes, put}
use my_oslab.Fs.{Superblock}
use my_oslab.Fs.Icache.{Inode, iget, idup}
use my_oslab.Fs.Inode.{FsState, ilock, iput}
use my_oslab.Fs.Dirs.{t_dir, dirsiz, dirlookup, with_inode_at}

abbrev pub PathText : Type 0
PathText = List ℕ

-- `while (*path == '/') path++;`
abbrev pub skip_slashes : PathText → PathText
skip_slashes [] = []
skip_slashes (c ∷ path) = if c == b'/' then skip_slashes path else c ∷ path

-- `while (*path != '/' && *path != 0) path++;`: the characters passed, and those left.
abbrev pub elem_chars : PathText → PathText
elem_chars [] = []
elem_chars (c ∷ path) = if c == b'/' then [] else c ∷ elem_chars path

abbrev pub after_elem : PathText → PathText
after_elem [] = []
after_elem (c ∷ path) = if c == b'/' then c ∷ path else after_elem path

-- `memmove` of characters of the path to `name + i`.
abbrev pub move_chars : ℕ → PathText → Bytes → Bytes
move_chars i [] name = name
move_chars i (c ∷ cs) name = move_chars (i + 1) cs (put name i c)

-- The name as `skipelem` stores it.
abbrev pub store_name : PathText → Bytes → Bytes
store_name s name =
    let len = length s in
    if ltb len dirsiz then put (move_chars 0 s name) len 0 else move_chars 0 (take dirsiz s) name

unfoldable pub skipelem : PathText → Bytes → Option (PathText × Bytes)
skipelem path name = elim (skip_slashes path) [
  | [] ↦ none
  | c ∷ rest ↦ some (skip_slashes (after_elem (c ∷ rest)), store_name (elem_chars (c ∷ rest)) name)
]

abbrev pub starts_slash : PathText → Bool
starts_slash [] = false
starts_slash (c ∷ path) = c == b'/'

-- The entry found, if any, the name and the state.
abbrev pub Found : Type 0
Found = Option ℕ × (Bytes × FsState)

module _ (sb : Superblock) (table : ℕ) (k : Kmem) (nameiparent : Bool) where
  -- `iput(ip)` or `iunlockput(ip)`, and `return 0`.
  abbrev pub give_up : ℕ → Bytes → FsState → Option Found
  give_up i name s = elim (iput sb i s) [ none ↦ none | some s' ↦ some (none, (name, s')) ]

  -- The end of `namex`.
  abbrev pub at_end : ℕ → Bytes → FsState → Option Found
  at_end i name s = if nameiparent then give_up i name s else some (some i, (name, s))

  -- `iunlockput(ip); ip = next;`
  abbrev pub step_to :
      (ℕ → FsState → Option Found) → ℕ → Bytes → Option (Option (ℕ × ℕ) × FsState) → Option Found
  step_to go i name none = none
  step_to go i name (some (none, s)) = give_up i name s
  step_to go i name (some (some (next, off), s)) = elim (iput sb i s) [
    | none ↦ none
    | some s' ↦ go next s'
  ]

  -- The body of the loop, with the turns behind it as `go`.
  abbrev pub look_in :
      (ℕ → FsState → Option Found) → ℕ → PathText → Bytes → Option FsState → Option Found
  look_in go i rest name none = none
  look_in go i rest name (some s) = with_inode_at sb table k i s (λ ip.
      if not (ip.copy.type == t_dir)
      then give_up i name s
      else if nameiparent && length rest == 0
      then some (some i, (name, s))
      else step_to go i name (dirlookup sb table k i name s))

  abbrev pub next_elem :
      (ℕ → PathText → Bytes → FsState → Option Found)
      → ℕ
      → Bytes
      → FsState
      → Option (PathText × Bytes)
      → Option Found
  next_elem go i name s none = at_end i name s
  next_elem go i name s (some (rest, name')) =
      look_in (λ next s'. go next rest name' s') i rest name' (ilock sb i s)

  -- The loop of `namex`: each turn takes a character of the path at least, and at the end of the
  -- path there is no further turn.
  unfoldable pub namex_loop : ℕ → ℕ → PathText → Bytes → FsState → Option Found
  unfolding skipelem ilock iput dirlookup
  namex_loop zero i path name s = at_end i name s
  namex_loop (suc fuel) i path name s =
      next_elem (λ next rest name' s'. namex_loop fuel next rest name' s') i name s
        (skipelem path name)

  -- `namex` for a process whose current directory is entry `cwd`; ROOTDEV and ROOTINO are 1.
  unfoldable pub namex : ℕ → PathText → Bytes → FsState → Option Found
  unfolding namex_loop iget idup
  namex cwd path name s =
      if starts_slash path
      then elim (iget 1 1 s.icache) [
        | none ↦ none
        | some (i, c) ↦ namex_loop (length path) i path name (record s { icache = c })
      ]
      else namex_loop (length path) cwd path name (record s { icache = idup cwd s.icache })

unfoldable pub namei : Superblock → ℕ → Kmem → ℕ → PathText → FsState → Option Found
unfolding namex
namei sb table k cwd path s = namex sb table k false cwd path (λ i. 0) s

-- `nameiparent`
unfoldable pub find_parent : Superblock → ℕ → Kmem → ℕ → PathText → Bytes → FsState → Option Found
unfolding namex
find_parent sb table k cwd path name s = namex sb table k true cwd path name s
