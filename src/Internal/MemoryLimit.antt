-- ===== src/Internal/MemoryLimit.antt =====
-- The memory limit of the process, internal/memory_limit.go.
use oida.Prelude.{
  ltb, ◌==◌, if◌then◌else◌, All, ℤ, pos, pos_part, ltb_ℤ, Text, bytes, text_eq, split, ℕ, ◌-◌, ◌*◌,
  ◌%◌, ◌^◌, ◌≤◌, min, not, ◌&&◌, Option, none, some, List, [], ◌∷◌, ◌++◌, arith,
}

-- What the runtime, the operating system and package strings answer: the soft limit, a file's
-- content, and the fields of a line. ParseUint refuses what is not a number of 64 bits.
pub record System : Type 0 where
  pub soft_limit : ℤ
  pub read_file : Text → Option Text
  pub trim : Text → Text
  pub words : Text → List Text
  pub parse_uint : Text → Option ℕ

abbrev cgroup_files : List Text
cgroup_files =
    bytes "/sys/fs/cgroup/memory.max" ∷ bytes "/sys/fs/cgroup/memory/memory.limit_in_bytes" ∷ []

abbrev max_int64 : ℕ
max_int64 = 2 ^ 63 - 1

module _ (s : System) where
  -- math.MaxInt64 stands for no limit.
  abbrev runtime_limits : List ℕ
  runtime_limits =
      if ltb_ℤ (pos 0) s.soft_limit && not (pos_part s.soft_limit == max_int64)
      then pos_part s.soft_limit ∷ []
      else []

  positive_limit : Option ℕ → List ℕ
  positive_limit none = []
  positive_limit (some limit) = if ltb 0 limit then limit ∷ [] else []

  -- The body of the loop over the files.
  file_limit : Option Text → List ℕ
  unfolding positive_limit text_eq
  file_limit none = []
  file_limit (some value) =
      if text_eq (s.trim value) (bytes "max")
      then []
      else positive_limit (s.parse_uint (s.trim value))

  file_limits : List Text → List ℕ
  unfolding file_limit
  file_limits [] = []
  file_limits (path ∷ paths) = file_limit (s.read_file path) ++ file_limits paths

  -- A line of /proc/meminfo: `none` if it is not the one looked for, and its limit, if it has one.
  total_line : List Text → Option (List ℕ)
  unfolding text_eq
  total_line [] = none
  total_line (name ∷ []) = none
  total_line (name ∷ size ∷ more) =
      if text_eq name (bytes "MemTotal:")
      then elim (s.parse_uint size) [
        | none ↦ some []
        | some kib ↦ some ((kib * 1024) % 2 ^ 64 ∷ [])
      ]
      else none

  total_limits : List Text → List ℕ
  unfolding total_line
  total_limits [] = []
  total_limits (line ∷ lines) =
      let rest = total_limits lines in
      elim (total_line (s.words line)) [ none ↦ rest | some found ↦ found ]

  physical_limits : Option Text → List ℕ
  unfolding total_limits split
  physical_limits none = []
  physical_limits (some value) = total_limits (split b'\n' value)

  pub limits : List ℕ
  unfolding file_limits physical_limits
  limits =
      runtime_limits
      ++ file_limits cgroup_files
      ++ physical_limits (s.read_file (bytes "/proc/meminfo"))

  -- slices.Min
  smallest : ℕ → List ℕ → ℕ
  smallest low [] = low
  smallest low (n ∷ ns) = smallest (min low n) ns

  pub least : List ℕ → ℕ
  unfolding smallest
  least [] = 0
  least (n ∷ ns) = smallest n ns

  memory_limit : ℕ
  unfolding limits least
  memory_limit = least limits

  smallest-le :
      (low : ℕ) (ns : List ℕ) → (smallest low ns ≤ low) × All (λ n. smallest low ns ≤ n) ns
  unfolding smallest
  smallest-le low [] = (omega arith, tt)
  smallest-le low (n ∷ ns) =
      let (l, all) = smallest-le (min low n) ns in (omega (arith, l), (omega (arith, l), all))

  -- The limit is at most every limit that is found.
  memory_limit-le : All (λ n. memory_limit ≤ n) limits
  unfolding memory_limit
  memory_limit-le = elim limits as (λ ns. All (λ n. least ns ≤ n) ns) [
    | [] ↦ tt
    | n ∷ ns ↦ smallest-le n ns
  ]
