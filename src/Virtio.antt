-- ===== src/Virtio.antt =====
-- The disk driver, kernel/virtio_disk.c, but for the start of the device. `free` is a list of
-- Booleans, since each is 0 or 1. The lock makes each stretch between two sleeps a step; what the
-- device has used is an argument of the interrupt. `none` is a panic.
pub mod Chain
mod Tests
use my_oslab.Base.{
  ℕ, zero, suc, ◌+◌, ◌*◌, ◌/◌, ◌%◌, ◌^◌, Bool, true, false, not, ◌&&◌, ◌||◌, Option, none, some,
  List, [], ◌∷◌, replicate, get_elem?, get_or, set, ltb, ◌==◌, if◌then◌else◌,
}
use my_oslab.Proc.{Chan, Table, wakeup}

-- NUM
abbrev pub num : ℕ
num = 8

-- `struct VRingDesc`
pub record Desc : Type 0 where
  pub addr : ℕ
  pub len : ℕ
  pub flags : ℕ
  pub next : ℕ

-- An entry of `disk.info`; `b` is the address of the buffer.
pub record Info : Type 0 where
  pub b : ℕ
  pub status : ℕ

-- `disk`, with the `disk` fields of the buffers by their address, and the processes.
pub record Disk : Type 0 where
  pub desc : ℕ → Desc
  pub free : List Bool
  pub avail : ℕ → ℕ
  pub avail_idx : ℕ
  pub used_idx : ℕ
  pub info : ℕ → Info
  pub owned : ℕ → ℕ
  pub procs : Table

abbrev pub put_at {ℓ} : {A : Type ℓ} → (ℕ → A) → ℕ → A → ℕ → A
put_at f i v j = if j == i then v else f j

-- The loop of `alloc_desc` from descriptor `i` on: the descriptor, or `none` for -1.
unfoldable pub take_free : ℕ → List Bool → Option ℕ × List Bool
take_free i [] = (none, [])
take_free i (true ∷ free) = (some i, false ∷ free)
take_free i (false ∷ free) = let (r, free') = take_free (i + 1) free in (r, false ∷ free')

unfoldable pub alloc_desc : Disk → Option ℕ × Disk
unfolding take_free
alloc_desc d = let (r, free) = take_free 0 d.free in (r, record d { free = free })

abbrev pub released : ℕ → ℕ → Disk → Disk
released chan i d = record d {
  desc = put_at d.desc i (record (d.desc i) { addr = 0 });
  free = set d.free i true;
  procs = wakeup (Chan.of_addr chan) d.procs;
}

-- `free_desc`; a sleeper on `disk.free[0]`, at the address `chan`, is woken.
unfoldable pub free_desc : ℕ → ℕ → Disk → Option Disk
unfolding wakeup
free_desc chan i d = elim (get_elem? d.free i) [
  | none ↦ none
  | some true ↦ none
  | some false ↦ some (released chan i d)
]

-- VRING_DESC_F_NEXT and VRING_DESC_F_WRITE
abbrev pub has_next : ℕ → Bool
has_next flags = flags % 2 == 1

-- What follows `free_desc` in a turn of `free_chain`.
abbrev pub chain_on : (ℕ → Disk → Option Disk) → Desc → Disk → Option Disk
chain_on go x d = elim (has_next x.flags) [ true ↦ go x.next d | false ↦ some d ]

abbrev pub chain_next : (ℕ → Disk → Option Disk) → ℕ → Option Disk → Option Disk
chain_next go i none = none
chain_next go i (some d) = chain_on go (d.desc i) d

-- The loop of `free_chain`. A chain is at most `num` long, since a descriptor that is free already
-- is a panic.
unfoldable pub free_chain : ℕ → ℕ → ℕ → Disk → Option Disk
unfolding free_desc
free_chain chan zero i d = none
free_chain chan (suc fuel) i d =
    chain_next (λ next d'. free_chain chan fuel next d') i (free_desc chan i d)

abbrev pub free_next : (Disk → Option Disk) → Option Disk → Option Disk
free_next go none = none
free_next go (some d) = go d

-- `free_desc` of the descriptors allocated before.
abbrev pub free_all : ℕ → List ℕ → Disk → Option Disk
free_all chan [] d = some d
free_all chan (i ∷ is) d = free_next (free_all chan is) (free_desc chan i d)

-- Three descriptors.
abbrev pub Three : Type 0
Three = ℕ × (ℕ × ℕ)

abbrev pub given_back : Option Disk → Option (Option Three × Disk)
given_back none = none
given_back (some d) = some (none, d)

abbrev pub give_back : ℕ → List ℕ → Disk → Option (Option Three × Disk)
give_back chan is d = given_back (free_all chan is d)

-- The turns of the loop of `alloc3_desc`.
abbrev pub third_desc : ℕ → ℕ → ℕ → Option ℕ × Disk → Option (Option Three × Disk)
third_desc chan a b (none, d) = give_back chan (a ∷ (b ∷ [])) d
third_desc chan a b (some c, d) = some (some (a, (b, c)), d)

abbrev pub second_desc : ℕ → ℕ → Option ℕ × Disk → Option (Option Three × Disk)
second_desc chan a (none, d) = give_back chan (a ∷ []) d
second_desc chan a (some b, d) = third_desc chan a b (alloc_desc d)

abbrev pub first_desc : ℕ → Option ℕ × Disk → Option (Option Three × Disk)
first_desc chan (none, d) = some (none, d)
first_desc chan (some a, d) = second_desc chan a (alloc_desc d)

unfoldable pub alloc3_desc : ℕ → Disk → Option (Option Three × Disk)
unfolding alloc_desc free_desc
alloc3_desc chan d = first_desc chan (alloc_desc d)

-- `struct virtio_blk_outhdr`, and `buf0` for a block; the sector is computed as a `uint`.
pub record Outhdr : Type 0 where
  pub type : ℕ
  pub reserved : ℕ
  pub sector : ℕ

unfoldable pub buf0 : Bool → ℕ → Outhdr
buf0 write blockno = record {
  type = if write then 1 else 0;
  reserved = 0;
  sector = blockno * (1024 / 512) % 2 ^ 32;
}

-- The descriptors that `virtio_disk_rw` formats. `header` is the address of `buf0`, `block` that of
-- the buffer's bytes, and `status` that of the status byte.
unfoldable pub format : ℕ → ℕ → ℕ → Bool → Three → Disk → Disk
format header block status write (a, (b, c)) d =
    let first : Desc = record { addr = header; len = 16; flags = 1; next = b } in
    let second : Desc = record {
      addr = block;
      len = 1024;
      flags = (if write then 0 else 2) + 1;
      next = c;
    } in
    let third : Desc = record { addr = status; len = 1; flags = 2; next = 0 } in
    record d {
      desc = put_at (put_at (put_at d.desc a first) b second) c third;
      info = put_at d.info a (record (d.info a) { status = 0 });
    }

-- `virtio_disk_rw` behind `alloc3_desc` up to its wait for the buffer `buf`: the device is told of
-- the chain.
unfoldable pub submit : ℕ → ℕ → ℕ → ℕ → Bool → Three → Disk → Disk
unfolding format
submit header block status buf write (a, bc) d =
    let d1 = format header block status write (a, bc) d in
    record d1 {
      owned = put_at d1.owned buf 1;
      info = put_at d1.info a (record (d1.info a) { b = buf });
      avail = put_at d1.avail (d1.avail_idx % num) a;
      avail_idx = (d1.avail_idx + 1) % 2 ^ 16;
    }

abbrev pub with_three :
    (Three → Disk → Disk) → Option (Option Three × Disk) → Option (Option Three × Disk)
with_three go none = none
with_three go (some (none, d)) = some (none, d)
with_three go (some (some t, d)) = some (some t, go t d)

-- `virtio_disk_rw` up to its wait for the buffer, or to its sleep on `chan` where it found no three
-- descriptors.
unfoldable pub start_rw : ℕ → ℕ → ℕ → ℕ → ℕ → Bool → Disk → Option (Option Three × Disk)
unfolding alloc3_desc submit
start_rw chan header block status buf write d =
    with_three (submit header block status buf write) (alloc3_desc chan d)

-- The test of the wait, and what follows it.
abbrev pub waits : ℕ → Disk → Bool
waits buf d = d.owned buf == 1

unfoldable pub finish : ℕ → Three → Disk → Option Disk
unfolding free_chain
finish chan (a, bc) d =
    free_chain chan num a (record d { info = put_at d.info a (record (d.info a) { b = 0 }) })

-- A turn of the loop of `virtio_disk_intr`, for the descriptor `id` that the device has used.
unfoldable pub complete : ℕ → Disk → Option Disk
unfolding wakeup
complete id d =
    let buf = (d.info id).b in
    if not ((d.info id).status == 0)
    then none
    else some record d {
      owned = put_at d.owned buf 0;
      procs = wakeup (Chan.of_addr buf) d.procs;
      used_idx = (d.used_idx + 1) % num;
    }

-- The loop of `virtio_disk_intr` for a device that has come to `used_id` and has used the
-- descriptors `elems`; the distance between the two is less than `num`.
unfoldable pub virtio_disk_intr : ℕ → ℕ → (ℕ → ℕ) → Disk → Option Disk
unfolding complete
virtio_disk_intr zero used_id elems d = some d
virtio_disk_intr (suc fuel) used_id elems d = elim (d.used_idx % num == used_id % num) [
  | true ↦ some d
  | false ↦ elim (complete (elems d.used_idx) d) [
    | none ↦ none
    | some d' ↦ virtio_disk_intr fuel used_id elems d'
  ]
]
