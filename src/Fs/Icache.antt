-- ===== src/Fs/Icache.antt =====
-- The inode cache of kernel/fs.c: its entries and their reference counts.
pub mod Unique
pub mod Room
use my_oslab.Base.{
  ℕ, zero, suc, ◌+◌, ◌-◌, ◌≤◌, ◌<◌, ◌≡◌, ◌≢◌, ◌⊎◌, inl, inr, refl, sym, ap, ap₂, subst, ◌∙◌, Bool,
  true, false, not, ◌&&◌, Option, none, some, List, [], ◌∷◌, length, get_elem?, get_elem?-set_self,
  get_elem?-set_ne, lt-of_get_elem?, get_elem?-ne_none, set, ltb, ◌==◌, if◌then◌else◌, Bool-cases,
  arith,
}

-- What an inode has on the disk, `struct dinode`.
pub record Dinode : Type 0 where
  pub type : ℕ
  pub major : ℕ
  pub minor : ℕ
  pub nlink : ℕ
  pub size : ℕ
  pub addrs : List ℕ

-- `struct inode`, with the copy of the disk's fields in `copy`.
pub record Inode : Type 0 where
  pub dev : ℕ
  pub inum : ℕ
  pub ref : ℕ
  pub valid : ℕ
  pub copy : Dinode

-- `icache.inode`
abbrev pub Icache : Type 0
Icache = List Inode

module _ (dev inum : ℕ) where
  -- The entry holds the inode.
  abbrev pub holds : Inode → Bool
  holds ip = ltb 0 ip.ref && ip.dev == dev && ip.inum == inum

  -- How the loop of `iget` ends: at the inode's entry, or behind the table with the first empty
  -- entry.
  pub data Looked : Type 0 where
    hit : ℕ → Looked
    miss : Option ℕ → Looked

  -- `if (empty == 0 && ip->ref == 0) empty = ip;`
  abbrev pub remember : ℕ → Inode → Option ℕ → Option ℕ
  remember i ip (some e) = some e
  remember i ip none = if ip.ref == 0 then some i else none

  -- The loop of `iget` from entry `i` on.
  unfoldable pub iget_loop : ℕ → Option ℕ → Icache → Looked
  iget_loop i empty [] = Looked.miss empty
  iget_loop i empty (ip ∷ ips) =
      let rest = iget_loop (i + 1) (remember i ip empty) ips in
      if holds ip then Looked.hit i else rest

  -- `ip->ref++` at the entry found.
  abbrev pub take_entry : ℕ → Icache → Option (ℕ × Icache)
  take_entry i c = elim (get_elem? c i) [
    | none ↦ none
    | some ip ↦ some (i, set c i (record ip { ref = ip.ref + 1 }))
  ]

  -- The entry that is recycled.
  abbrev pub recycle : ℕ → Icache → Option (ℕ × Icache)
  recycle i c = elim (get_elem? c i) [
    | none ↦ none
    | some ip ↦ some (i, set c i (record ip { dev = dev; inum = inum; ref = 1; valid = 0 }))
  ]

  -- `iget`; `none` is the panic.
  unfoldable pub iget : Icache → Option (ℕ × Icache)
  unfolding iget_loop
  iget c = elim (iget_loop 0 none c) [
    | hit i ↦ take_entry i c
    | miss none ↦ none
    | miss (some i) ↦ recycle i c
  ]

unfoldable pub idup : ℕ → Icache → Icache
idup i c = elim (get_elem? c i) [ none ↦ c | some ip ↦ set c i (record ip { ref = ip.ref + 1 }) ]
