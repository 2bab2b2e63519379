-- ===== src/Vfs/Runlist.antt =====
-- kernel-core/src/vfs/ntfs/runlist.rs: the packed list of cluster runs of an NTFS attribute. Every
-- failure is the one error `NtfsErr::RunList`, which is none here. A delta is in two's complement.
pub mod Chain
use fantuan_kernel.Base.{
  ℕ, zero, suc, ◌+◌, ◌-◌, ◌*◌, ◌/◌, ◌%◌, ◌^◌, Bool, true, false, ◌&&◌, ◌||◌, not, Option, none,
  some, List, [], ◌∷◌, if◌then◌else◌, ◌==◌, ltb, leb,
}

abbrev pub max_runs : ℕ
max_runs = 24

pub record Run : Type 0 where
  pub vcn : ℕ
  pub len : ℕ
  pub lcn : Option ℕ

pub record RunList : Type 0 where
  pub runs : List Run
  pub clusters : ℕ

-- `read_uint` with the bytes behind the field.
unfoldable pub read_uint : ℕ → List ℕ → Option (ℕ × List ℕ)
read_uint zero bytes = some (0, bytes)
read_uint (suc n) [] = none
read_uint (suc n) (b ∷ bytes) = elim (read_uint n bytes) [
  | none ↦ none
  | some (v, rest) ↦ some (b + 256 * v, rest)
]

-- `lcn.checked_add(delta)`, for the delta that `read_int` reads from `bits` bits, and none of a
-- negative sum.
unfoldable pub add_delta : ℕ → ℕ → ℕ → Option ℕ
add_delta lcn v bits =
    if ltb v (2 ^ (bits - 1))
    then (if ltb (lcn + v) (2 ^ 63) then some (lcn + v) else none)
    else if ltb lcn (2 ^ bits - v)
    then none
    else some (lcn - (2 ^ bits - v))

-- The start of a run: none of the field is a sparse run. With it go the LCN to count on from and the
-- bytes behind.
unfoldable pub read_lcn : ℕ → List ℕ → ℕ → Option (Option ℕ × ℕ × List ℕ)
read_lcn zero bytes lcn = some (none, lcn, bytes)
read_lcn (suc n) bytes lcn = elim (read_uint (suc n) bytes) [
  | none ↦ none
  | some (v, rest) ↦ elim (add_delta lcn v (8 * suc n)) [
    | none ↦ none
    | some start ↦ some (some start, start, rest)
  ]
]

-- One run: its length, its start, the LCN to count on from and the bytes behind.
unfoldable pub read_run : ℕ → List ℕ → ℕ → Option (ℕ × Option ℕ × ℕ × List ℕ)
read_run h bytes lcn =
    if (h % 16 == 0 || ltb 8 (h % 16)) || ltb 8 (h / 16)
    then none
    else elim (read_uint (h % 16) bytes) [
      | none ↦ none
      | some (len, rest) ↦ if len == 0 then none else elim (read_lcn (h / 16) rest lcn) [
        | none ↦ none
        | some (start, next, rest') ↦ some (len, start, next, rest')
      ]
    ]

-- The loop of `decode` when `left` more runs fit in the list.
unfoldable pub decode_from : ℕ → List ℕ → ℕ → ℕ → Option RunList
decode_from left [] lcn vcn = none
decode_from zero (h ∷ bytes) lcn vcn =
    if h == 0 then some (record { runs = []; clusters = vcn }) else none
decode_from (suc left) (h ∷ bytes) lcn vcn =
    if h == 0 then some (record { runs = []; clusters = vcn }) else elim (read_run h bytes lcn) [
      | none ↦ none
      | some (len, start, next, rest) ↦
          if leb (2 ^ 64) (vcn + len) then none else elim (decode_from left rest next (vcn + len)) [
            | none ↦ none
            | some l ↦ some (record {
              runs = record { vcn = vcn; len = len; lcn = start } ∷ l.runs;
              clusters = l.clusters;
            })
          ]
    ]

abbrev pub not_empty : RunList → Option RunList
not_empty l = elim l.runs [ [] ↦ none | r ∷ rs ↦ some l ]

unfoldable pub decode : List ℕ → Option RunList
decode bytes = elim (decode_from max_runs bytes 0 0) [ none ↦ none | some l ↦ not_empty l ]

abbrev pub covers : Run → ℕ → Bool
covers r vcn = leb r.vcn vcn && ltb (vcn - r.vcn) r.len

unfoldable pub run_at : List Run → ℕ → Option Run
run_at [] vcn = none
run_at (r ∷ rs) vcn = if covers r vcn then some r else run_at rs vcn

-- The outer option is the error, the inner one a sparse run.
unfoldable pub lcn_of : List Run → ℕ → Option (Option ℕ)
lcn_of runs vcn = elim (run_at runs vcn) [
  | none ↦ none
  | some r ↦ elim r.lcn [
    | none ↦ some none
    | some base ↦
        if leb (2 ^ 64) (base + (vcn - r.vcn)) then none else some (some (base + (vcn - r.vcn)))
  ]
]
