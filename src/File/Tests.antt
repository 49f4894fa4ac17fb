-- ===== src/File/Tests.antt =====
-- A table of two files over a world that records the calls.
use my_oslab.Base.{ℕ, ◌+◌, ◌-◌, ◌^◌, ◌≡◌, refl, true, none, some, List, [], ◌∷◌, arith, pos}
use my_oslab.File.{File, FileType, Ftable, FileOps, filedup, close_last, filewrite}
use my_oslab.File.Refs.{closes, closes_lem}
use my_oslab.File.Write.{Wrote, filewrite-Wrote}

-- The log's calls, the inode's release, and how much each `writei` writes.
abbrev pub ops : FileOps
ops = record {
  World = List ℕ;
  pipeclose = λ p wr w. (9000 + p) ∷ w;
  piperead = λ p a n w. (pos 0, w);
  pipewrite = λ p a n w. (pos 0, w);
  begin_op = λ w. 10001 ∷ w;
  end_op = λ w. 10002 ∷ w;
  iput = λ ip w. (8000 + ip) ∷ w;
  ilock = λ ip w. w;
  iunlock = λ ip w. w;
  readi = λ ip a off n w. some (pos n, w);
  writei = λ ip a off n w. some (pos n, n ∷ w);
  stati = λ ip w. ip;
  copy_stat = λ a st w. (true, w);
  dev_read = λ k. none;
  dev_write = λ k. none;
}

abbrev pub inode : File
inode = record {
  type = FileType.fd_inode;
  ref = 2;
  readable = 1;
  writable = 1;
  pipe = 0;
  ip = 5;
  off = 2 ^ 32 - 100;
  major = pos 0;
}

abbrev pub free : File
free = record inode { ref = 0; type = FileType.fd_none }

abbrev pub table : Ftable
table = inode ∷ free ∷ []

dup_twice : filedup 0 table ≡ some (record inode { ref = 3 } ∷ free ∷ [])
unfolding filedup
dup_twice = refl

closes_lem_example : closes ops 2 0 table [] ≡ some (free ∷ free ∷ [], close_last ops inode [])
closes_lem_example = closes_lem ops 1 0 table inode [] refl refl

filewrite-Wrote_example : Wrote ops inode 0 7000 [] (filewrite ops inode 0 7000 [])
filewrite-Wrote_example =
    filewrite-Wrote ops inode 0 7000 [] (omega arith) (λ e. omega (arith, e)) refl

-- 7000 bytes are written in three transactions.
three_transactions :
    filewrite ops inode 0 7000 []
    ≡ some (
      pos 7000,
      (
        record inode { off = 6900 },
        10002 ∷ 856 ∷ 10001 ∷ 10002 ∷ 3072 ∷ 10001 ∷ 10002 ∷ 3072 ∷ 10001 ∷ [],
      ),
    )
unfolding filewrite
three_transactions = refl
