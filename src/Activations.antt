-- ===== src/Activations.antt =====
-- `Activations` of timely/src/scheduling/activate.rs: the paths of the operators to run next. The
-- channel between threads is the list of what was sent, the heap of delayed activations the list of
-- its entries in the order in which they are popped, and a duration a number.
pub mod Paths
use timely_dataflow.Prelude.{
  ℕ, zero, suc, ◌+◌, ◌-◌, Bool, true, false, List, [], ◌∷◌, ◌++◌, Option, none, some, if◌then◌else◌,
  ◌==◌, leb, is_nil, ◌&&◌, ◌||◌, not, length, take, drop, map, compare, Ordering,
}
use timely_dataflow.Sort.{sort_by, insert_by}
use timely_dataflow.Order.Product.{then as chain}

pub record Activations : Type 0 where
  pub clean : ℕ
  pub bounds : List (ℕ × ℕ)
  pub slices : List ℕ
  pub rx : List (List ℕ)
  pub timer : Bool
  pub queue : List (ℕ × List ℕ)

unfoldable pub new : Bool → Activations
new timer = record { clean = 0; bounds = []; slices = []; rx = []; timer = timer; queue = [] }

-- `&slices[offset .. (offset + length)]`, at bounds in the storage; at others the code panics.
abbrev pub slice : List ℕ → ℕ × ℕ → List ℕ
slice slices b = take b.1 (drop b.0 slices)

-- The order of slices, lexicographic.
abbrev pub cmp_path : List ℕ → List ℕ → Ordering
cmp_path [] [] = Ordering.eq
cmp_path [] (y ∷ ys) = Ordering.lt
cmp_path (x ∷ xs) [] = Ordering.gt
cmp_path (x ∷ xs) (y ∷ ys) = chain (compare x y) (cmp_path xs ys)

abbrev pub same_path : List ℕ → List ℕ → Bool
same_path [] [] = true
same_path [] (y ∷ ys) = false
same_path (x ∷ xs) [] = false
same_path (x ∷ xs) (y ∷ ys) = x == y && same_path xs ys

unfoldable pub activate : Activations → List ℕ → Activations
activate a path = record a {
  bounds = a.bounds ++ (length a.slices, length path) ∷ [];
  slices = a.slices ++ path;
}

-- The order of the heap's entries, `(Duration, Vec<usize>)`.
abbrev pub cmp_entry : ℕ × List ℕ → ℕ × List ℕ → Ordering
cmp_entry x y = chain (compare x.0 y.0) (cmp_path x.1 y.1)

-- `activate_after`, where `elapsed` is what the timer says.
unfoldable pub activate_after : ℕ → Activations → List ℕ → ℕ → Activations
activate_after elapsed a path delay =
    if a.timer && not (delay == 0)
    then record a { queue = insert_by cmp_entry (elapsed + delay, path) a.queue }
    else activate a path

unfoldable pub activate_all : Activations → List (List ℕ) → Activations
activate_all a [] = a
activate_all a (path ∷ paths) = activate_all (activate a path) paths

-- The entries that are due, and the others.
abbrev pub due : ℕ → List (ℕ × List ℕ) → List (List ℕ) × List (ℕ × List ℕ)
due now [] = ([], [])
due now ((t, path) ∷ queue) =
    let (paths, later) = due now queue in
    if leb t now then (path ∷ paths, later) else ([], (t, path) ∷ queue)

-- `dedup_by_key`: of equal neighbours the first stays.
unfoldable pub dedup_from {ℓ} : {A : Type ℓ} → (A → A → Bool) → A → List A → List A
dedup_from same x [] = x ∷ []
dedup_from same x (y ∷ ys) = elim (same y x) [
  | true ↦ dedup_from same x ys
  | false ↦ x ∷ dedup_from same y ys
]

unfoldable pub dedup {ℓ} : {A : Type ℓ} → (A → A → Bool) → List A → List A
dedup same [] = []
dedup same (x ∷ xs) = dedup_from same x xs

-- The loop that copies the slices to the buffer, and their new bounds.
unfoldable pub compact_slices : List ℕ → List ℕ → List (ℕ × ℕ) → List (ℕ × ℕ) × List ℕ
compact_slices slices buffer [] = ([], buffer)
compact_slices slices buffer ((offset, len) ∷ rest) =
    let buffer' = buffer ++ slice slices (offset, len) in
    let (bounds, final) = compact_slices slices buffer' rest in
    ((length buffer' - len, len) ∷ bounds, final)

-- The draining at the start of `advance`.
unfoldable pub receive : ℕ → Activations → Activations
receive now a =
    let a' = activate_all (record a { rx = [] }) a.rx in
    let (paths, later) = due now a'.queue in
    if a'.timer then activate_all (record a' { queue = later }) paths else a'

-- The rest of `advance`: sort, deduplicate, compact. Where there are fewer bounds than `clean`,
-- at which `drain(..clean)` panics, none are left.
unfoldable pub settle : Activations → Activations
settle a =
    let fresh = drop a.clean a.bounds in
    let sorted = sort_by (λ x y. cmp_path (slice a.slices x) (slice a.slices y)) fresh in
    let unique = dedup (λ x y. same_path (slice a.slices x) (slice a.slices y)) sorted in
    let (bounds, slices) = compact_slices a.slices [] unique in
    record a { clean = length bounds; bounds = bounds; slices = slices }

unfoldable pub advance : ℕ → Activations → Activations
advance now a = settle (receive now a)

-- What `map_active` shows to its function.
unfoldable pub map_active : Activations → List (List ℕ)
map_active a = map (slice a.slices) a.bounds

-- `empty_for`: no duration if there is nothing to wait for.
unfoldable pub empty_for : ℕ → Activations → Option ℕ
empty_for elapsed a =
    if not (is_nil a.bounds) || not a.timer
    then some 0
    else (elim a.queue [ [] ↦ none | (t, path) ∷ rest ↦ some (t - elapsed) ])
