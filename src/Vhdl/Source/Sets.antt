-- ===== src/Vhdl/Source/Sets.antt =====
-- A set of files gives every position to one file.
use jcore_soc.Base.{
  ℕ, ◌+◌, ◌≤◌, ◌<◌, ◌≡◌, refl, ◌&&◌, some, List, [], ◌∷◌, ◌++◌, arith, leb, if◌then◌else◌, All,
  All-append, Bytes,
}
use jcore_soc.Vhdl.Source.{File, FileSet, add_file, find_file}

-- The positions of the files of a set lie below its next base.
abbrev pub IsBelow : FileSet → Type 0
IsBelow s = All (λ (f : File). f.base + f.size < s.base) s.files

weaken :
    (fs : List File) (b c : ℕ)
    → b ≤ c
    → All (λ (f : File). f.base + f.size < b) fs
    → All (λ (f : File). f.base + f.size < c) fs
weaken [] b c le h = tt
weaken (f ∷ fs) b c le (x, h) = (omega (arith, x), weaken fs b c le h)

find_file-last :
    (fs : List File) (g : File) (p : ℕ)
    → All (λ (f : File). f.base + f.size < g.base) fs
    → find_file (fs ++ g ∷ []) p
      ≡ (if leb g.base p && leb p (g.base + g.size) then some g else find_file fs p)
unfolding find_file
find_file-last [] g p h = refl
find_file-last (f ∷ fs) g p (below, h) = ground (arith, find_file-last fs g p h, below)

-- A file that is added takes the positions from the base of the set on, one for each byte and one for
-- the end; every other position is found as before, and the files stay below the next base.
pub find_file-add_file :
    (s : FileSet) (name : Bytes) (size p : ℕ)
    → IsBelow s
    → (find_file (add_file s name size).1.files p ≡ (
        if leb s.base p && leb p (s.base + size)
        then some (add_file s name size).0
        else find_file s.files p))
      × IsBelow (add_file s name size).1
unfolding add_file
find_file-add_file s name size p h =
    let f : File = record { name = name; base = s.base; size = size; lines = 0 ∷ [] } in
    (
      find_file-last s.files f p h,
      All-append (λ (g : File). g.base + g.size < s.base + size + 1) s.files (f ∷ [])
          (weaken s.files s.base (s.base + size + 1) (omega arith) h) (omega arith, tt),
    )
