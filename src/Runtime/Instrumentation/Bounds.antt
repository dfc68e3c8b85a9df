-- ===== src/Runtime/Instrumentation/Bounds.antt =====
-- What a snapshot builder of src/runtime/instrumentation.rs keeps within its bounds.
use apex_exec.Prelude.{
  ℕ, ◌+◌, ◌-◌, ◌≤◌, ◌<◌, ◌≡◌, refl, ◌∙◌, ◌⊎◌, inl, inr, true, false, List, [], ◌∷◌, ◌++◌, length,
  All, All-append, min, ltb, arith, if◌then◌else◌, length-append, Bool-cases,
}
use apex_exec.Prelude.Text.{Text}
use apex_exec.Span.{Span}
use apex_exec.Runtime.Instrumentation.Truncation.{truncate_utf8}
use apex_exec.Runtime.Instrumentation.Cuts.{truncate_utf8_cut}
use apex_exec.Runtime.Instrumentation.Builder.{
  Sizes, DebugVariable, DebugFrame, DebugSnapshot, DebugSnapshotBuilder, saturating_add,
  max_debug_retained_bytes, mark_truncated, reserve_structure, retain_text, add_variable, add_frame,
  max_debug_variables_per_snapshot, max_debug_frames_per_snapshot, max_debug_metadata_bytes,
  max_debug_rendered_value_bytes,
}

-- Each text within its own limit.
abbrev pub IsShortFrame : DebugFrame → Type 0
IsShortFrame f = length f.name ≤ max_debug_metadata_bytes

abbrev pub IsShortVariable : DebugVariable → Type 0
IsShortVariable v =
    (length v.name ≤ max_debug_metadata_bytes)
    × (length v.type_name ≤ max_debug_metadata_bytes)
    × (length v.value ≤ max_debug_rendered_value_bytes)

abbrev pub IsBounded : DebugSnapshot → Type 0
IsBounded s =
    (length s.frames ≤ max_debug_frames_per_snapshot)
    × (length s.variables ≤ max_debug_variables_per_snapshot)
    × (All IsShortFrame s.frames × All IsShortVariable s.variables)

-- The rest of the structure and the texts.
abbrev pub sum_of {ℓ} : {A : Type ℓ} → (A → ℕ) → List A → ℕ
sum_of f [] = 0
sum_of f (x ∷ xs) = f x + sum_of f xs

pub sum_of-append {ℓ} :
    {A : Type ℓ} (f : A → ℕ) (xs ys : List A) → sum_of f (xs ++ ys) ≡ sum_of f xs + sum_of f ys
sum_of-append f [] ys = omega arith
sum_of-append f (x ∷ xs) ys = omega (arith, sum_of-append f xs ys)

module _ (z : Sizes) where
  abbrev pub frame_weight : DebugFrame → ℕ
  frame_weight f = z.frame_size + length f.name

  abbrev pub variable_weight : DebugVariable → ℕ
  variable_weight v = z.variable_size + length v.name + length v.type_name + length v.value

  -- The bytes that a snapshot holds: its structures and its texts.
  abbrev pub snapshot_weight : DebugSnapshot → ℕ
  snapshot_weight s =
      z.snapshot_size + sum_of frame_weight s.frames + sum_of variable_weight s.variables

  abbrev pub IsKept : ℕ → DebugSnapshotBuilder → Type 0
  IsKept budget b =
      (b.retained_byte_budget ≡ budget)
      × (b.retained_bytes ≤ budget)
      × (b.retained_bytes ≡ snapshot_weight b.snapshot)
      × IsBounded b.snapshot

-- Room in the budget, which is itself bounded.
abbrev pub HasRoom : DebugSnapshotBuilder → Type 0
HasRoom b =
    (b.retained_bytes ≤ b.retained_byte_budget)
    × (b.retained_byte_budget ≤ max_debug_retained_bytes)

kept_text-le : (t : Text) (l : ℕ) → length (if ltb l (length t) then truncate_utf8 t l else t) ≤ l
kept_text-le t l = ground (arith, (truncate_utf8_cut t l).0)

retain_text-snapshot :
    (t : Text) (l : ℕ) (b : DebugSnapshotBuilder) → (retain_text t l b).1.snapshot ≡ b.snapshot
unfolding retain_text
retain_text-snapshot t l b = refl

retain_text-budget :
    (t : Text) (l : ℕ) (b : DebugSnapshotBuilder)
    → (retain_text t l b).1.retained_byte_budget ≡ b.retained_byte_budget
unfolding retain_text
retain_text-budget t l b = refl

-- The text that is kept fits both limits, and its bytes are counted.
retain_text-counts :
    (t : Text) (l : ℕ) (b : DebugSnapshotBuilder)
    → HasRoom b
    → (length (retain_text t l b).0 ≤ l)
      × ((retain_text t l b).1.retained_bytes ≡ b.retained_bytes + length (retain_text t l b).0)
      × HasRoom (retain_text t l b).1
unfolding retain_text
retain_text-counts t l b (room, small) =
    let fits = kept_text-le t (min (b.retained_byte_budget - b.retained_bytes) l) in
    (omega arith, ground arith, (ground arith, small))

pub reserve-cases :
    (n : ℕ) (b : DebugSnapshotBuilder)
    → HasRoom b
    → (reserve_structure n b ≡ (false, b))
      ⊎ ((reserve_structure n b ≡ (true, record b { retained_bytes = b.retained_bytes + n }))
          × (b.retained_bytes + n ≤ b.retained_byte_budget))
unfolding reserve_structure
reserve-cases n b (room, small) =
    elim (Bool-cases (ltb b.retained_byte_budget (saturating_add b.retained_bytes n))) [
      | inl over ↦ inl (rw over refl)
      | inr fits ↦
          let fit : b.retained_bytes + n ≤ b.retained_byte_budget = ground arith in
          let exact : saturating_add b.retained_bytes n ≡ b.retained_bytes + n = ground arith in
          inr (rw fits (rw exact refl), fit)
    ]

pub mark_truncated-IsKept :
    (z : Sizes) (budget : ℕ) (b : DebugSnapshotBuilder)
    → IsKept z budget b
    → IsKept z budget (mark_truncated b)
unfolding mark_truncated
mark_truncated-IsKept z budget b k = k

-- A snapshot with one frame more, or one variable more.
frame-IsBounded :
    (s : DebugSnapshot) (f : DebugFrame)
    → IsBounded s
    → length s.frames < max_debug_frames_per_snapshot
    → IsShortFrame f
    → IsBounded (record s { frames = s.frames ++ f ∷ [] })
frame-IsBounded s f (frames, variables, (fs, vs)) few short = (
  omega (arith, length-append s.frames (f ∷ [])),
  variables,
  (All-append IsShortFrame s.frames (f ∷ []) fs (short, tt), vs),
)

variable-IsBounded :
    (s : DebugSnapshot) (v : DebugVariable)
    → IsBounded s
    → length s.variables < max_debug_variables_per_snapshot
    → IsShortVariable v
    → IsBounded (record s { variables = s.variables ++ v ∷ [] })
variable-IsBounded s v (frames, variables, (fs, vs)) few short = (
  frames,
  omega (arith, length-append s.variables (v ∷ [])),
  (fs, All-append IsShortVariable s.variables (v ∷ []) vs (short, tt)),
)

frame-IsKept :
    (z : Sizes) (budget : ℕ) (b : DebugSnapshotBuilder) (f : DebugFrame)
    → b.retained_byte_budget ≡ budget
    → b.retained_bytes ≤ budget
    → b.retained_bytes ≡ snapshot_weight z b.snapshot + frame_weight z f
    → IsBounded b.snapshot
    → length b.snapshot.frames < max_debug_frames_per_snapshot
    → IsShortFrame f
    → IsKept z budget
        (record b { snapshot = record b.snapshot { frames = b.snapshot.frames ++ f ∷ [] } })
frame-IsKept z budget b f same under counted bounded few short = (
  same,
  under,
  omega (arith, sum_of-append (frame_weight z) b.snapshot.frames (f ∷ [])),
  frame-IsBounded b.snapshot f bounded few short,
)

variable-IsKept :
    (z : Sizes) (budget : ℕ) (b : DebugSnapshotBuilder) (v : DebugVariable)
    → b.retained_byte_budget ≡ budget
    → b.retained_bytes ≤ budget
    → b.retained_bytes ≡ snapshot_weight z b.snapshot + variable_weight z v
    → IsBounded b.snapshot
    → length b.snapshot.variables < max_debug_variables_per_snapshot
    → IsShortVariable v
    → IsKept z budget
        (record b { snapshot = record b.snapshot { variables = b.snapshot.variables ++ v ∷ [] } })
variable-IsKept z budget b v same under counted bounded few short = (
  same,
  under,
  omega (arith, sum_of-append (variable_weight z) b.snapshot.variables (v ∷ [])),
  variable-IsBounded b.snapshot v bounded few short,
)

-- A frame whose structure is reserved.
pub add_frame-IsKept :
    (z : Sizes) (budget : ℕ) (name : Text) (span : Span) (c : DebugSnapshotBuilder)
    → budget ≤ max_debug_retained_bytes
    → c.retained_byte_budget ≡ budget
    → c.retained_bytes ≤ budget
    → c.retained_bytes ≡ snapshot_weight z c.snapshot + z.frame_size
    → IsBounded c.snapshot
    → length c.snapshot.frames < max_debug_frames_per_snapshot
    → IsKept z budget (add_frame name span c)
add_frame-IsKept z budget name span c small same under counted bounded few =
    let (short, more, (within, cap)) =
      retain_text-counts name max_debug_metadata_bytes c (omega arith, omega arith) in
    let budgets = retain_text-budget name max_debug_metadata_bytes c in
    let keeps = retain_text-snapshot name max_debug_metadata_bytes c in
    frame-IsKept z budget (retain_text name max_debug_metadata_bytes c).1 _ (omega arith)
      (omega arith) (rw keeps (omega arith)) (rw keeps bounded) (rw keeps few) short

-- The three texts of a variable.
retain_three :
    (n t v : Text) (c : DebugSnapshotBuilder)
    → HasRoom c
    → let (n1, c1) = retain_text n max_debug_metadata_bytes c in
      let (t1, c2) = retain_text t max_debug_metadata_bytes c1 in
      let (v1, c3) = retain_text v max_debug_rendered_value_bytes c2 in
      IsShortVariable (record { name = n1; type_name = t1; value = v1 })
      × (c3.retained_bytes ≡ c.retained_bytes + length n1 + length t1 + length v1)
      × (c3.retained_bytes ≤ c.retained_byte_budget)
      × (c3.retained_byte_budget ≡ c.retained_byte_budget)
      × (c3.snapshot ≡ c.snapshot)
retain_three n t v c room =
    let (n1, c1) = retain_text n max_debug_metadata_bytes c in
    let (t1, c2) = retain_text t max_debug_metadata_bytes c1 in
    let (short1, more1, room1) = retain_text-counts n max_debug_metadata_bytes c room in
    let (short2, more2, room2) = retain_text-counts t max_debug_metadata_bytes c1 room1 in
    let (short3, more3, (room3, cap3)) =
      retain_text-counts v max_debug_rendered_value_bytes c2 room2 in
    let b1 = retain_text-budget n max_debug_metadata_bytes c in
    let b2 = retain_text-budget t max_debug_metadata_bytes c1 in
    let b3 = retain_text-budget v max_debug_rendered_value_bytes c2 in
    (
      (short1, short2, short3),
      omega arith,
      omega arith,
      omega arith,
      retain_text-snapshot v max_debug_rendered_value_bytes c2
          ∙ retain_text-snapshot t max_debug_metadata_bytes c1
          ∙ retain_text-snapshot n max_debug_metadata_bytes c,
    )

-- A variable whose structure is reserved.
pub add_variable-IsKept :
    (z : Sizes) (budget : ℕ) (n t v : Text) (c : DebugSnapshotBuilder)
    → budget ≤ max_debug_retained_bytes
    → c.retained_byte_budget ≡ budget
    → c.retained_bytes ≤ budget
    → c.retained_bytes ≡ snapshot_weight z c.snapshot + z.variable_size
    → IsBounded c.snapshot
    → length c.snapshot.variables < max_debug_variables_per_snapshot
    → IsKept z budget (add_variable n t v c)
add_variable-IsKept z budget n t v c small same under counted bounded few =
    let (short, more, within, budgets, keeps) = retain_three n t v c (omega arith, omega arith) in
    let last : DebugSnapshotBuilder =
      (retain_text v max_debug_rendered_value_bytes
        (retain_text t max_debug_metadata_bytes
          (retain_text n max_debug_metadata_bytes c).1).1).1 in
    variable-IsKept z budget last _ (omega arith) (omega arith) (rw keeps (omega arith))
      (rw keeps bounded) (rw keeps few) short
