-- ===== src/Activations/Paths.antt =====
-- Activations as lists of paths, which are offsets into shared storage.
use timely_dataflow.Prelude.{
  ℕ, zero, suc, ◌+◌, ◌-◌, ◌≤◌, ◌≡◌, refl, sym, ap, ◌∙◌, Bool, List, [], ◌∷◌, ◌++◌, map, All, length,
  length-append, take, drop, take-append, take-length, length-take, append_assoc, append-nil,
  Ordering, Bool-cases, inl, inr, arith,
}
use timely_dataflow.Sort.{sort_by, insert_by, All-sort_by}
use timely_dataflow.Activations.{
  Activations, slice, cmp_path, same_path, activate, dedup_from, dedup, compact_slices, settle,
  map_active,
}

-- All bounds lie in the storage.
abbrev pub Within : List ℕ → List (ℕ × ℕ) → Type 0
Within slices bounds = All (λ b. b.0 + b.1 ≤ length slices) bounds

drop-append : (xs ys : List ℕ) → drop (length xs) (xs ++ ys) ≡ ys
drop-append [] ys = refl
drop-append (x ∷ xs) ys = drop-append xs ys

slice-middle :
    (before path after : List ℕ)
    → slice (before ++ (path ++ after)) (length before, length path) ≡ path
slice-middle before path after =
    ap (take (length path)) (drop-append before (path ++ after))
    ∙ take-append (length path) path after (omega arith)
    ∙ take-length path

slice-append :
    (xs ys : List ℕ) (o l : ℕ) → o + l ≤ length xs → slice (xs ++ ys) (o, l) ≡ slice xs (o, l)
slice-append xs ys zero l h = take-append l xs ys (omega arith)
slice-append [] ys (suc o) l h = absurd (omega arith)
slice-append (x ∷ xs) ys (suc o) l h = slice-append xs ys o l (omega arith)

length-slice : (xs : List ℕ) (o l : ℕ) → o + l ≤ length xs → length (slice xs (o, l)) ≡ l
length-slice xs zero l h = length-take l xs (omega arith)
length-slice [] (suc o) l h = absurd (omega arith)
length-slice (x ∷ xs) (suc o) l h = length-slice xs o l (omega arith)

-- The storage that the loop ends with extends the buffer it starts with.
compact_slices-extends :
    (slices buffer : List ℕ) (bounds : List (ℕ × ℕ))
    → (more : List ℕ) × ((compact_slices slices buffer bounds).1 ≡ buffer ++ more)
unfolding compact_slices
compact_slices-extends slices buffer [] = ([], sym (append-nil buffer))
compact_slices-extends slices buffer ((o, l) ∷ rest) =
    let (more, e) = compact_slices-extends slices (buffer ++ slice slices (o, l)) rest in
    (slice slices (o, l) ++ more, e ∙ append_assoc buffer (slice slices (o, l)) more)

-- The copied slices read what the old ones read.
compact_slices-reads :
    (slices buffer : List ℕ) (bounds : List (ℕ × ℕ))
    → Within slices bounds
    → let (bounds', slices') = compact_slices slices buffer bounds in
      map (slice slices') bounds' ≡ map (slice slices) bounds
unfolding compact_slices
compact_slices-reads slices buffer [] h = refl
compact_slices-reads slices buffer ((o, l) ∷ rest) h =
    let path = slice slices (o, l) in
    let (more, e) = compact_slices-extends slices (buffer ++ path) rest in
    let measured : length path ≡ l = length-slice slices o l h.0 in
    let start : length (buffer ++ path) - l ≡ length buffer =
      omega (arith, length-append buffer path, measured) in
    let copied : slice (compact_slices slices (buffer ++ path) rest).1
          (length (buffer ++ path) - l, l)
        ≡ path =
      ap (λ i. slice (compact_slices slices (buffer ++ path) rest).1 (i, l)) start
      ∙ ap (λ n. slice (compact_slices slices (buffer ++ path) rest).1 (length buffer, n))
          (sym measured)
      ∙ ap (λ xs. slice xs (length buffer, length path)) (e ∙ append_assoc buffer path more)
      ∙ slice-middle buffer path more in
    ap
      (λ x.
        x
        ∷ map (slice (compact_slices slices (buffer ++ path) rest).1)
            (compact_slices slices (buffer ++ path) rest).0)
      copied
    ∙ ap (◌∷◌ path) (compact_slices-reads slices (buffer ++ path) rest h.1)

compact_slices-Within :
    (slices buffer : List ℕ) (bounds : List (ℕ × ℕ))
    → Within slices bounds
    → let (bounds', slices') = compact_slices slices buffer bounds in Within slices' bounds'
unfolding compact_slices
compact_slices-Within slices buffer [] h = tt
compact_slices-Within slices buffer ((o, l) ∷ rest) h =
    let path = slice slices (o, l) in
    let (more, e) = compact_slices-extends slices (buffer ++ path) rest in
    (
      omega (
        arith,
        length-append buffer path,
        length-slice slices o l h.0,
        ap length e ∙ length-append (buffer ++ path) more,
      ),
      compact_slices-Within slices (buffer ++ path) rest h.1,
    )

module _ {ℓ κ} {A : Type ℓ} {B : Type κ} (f : A → B) where
  insert_by-step :
      (cmp : B → B → Ordering) (x y : A) (ys : List A) (r : Ordering)
      → cmp (f x) (f y) ≡ r
      → map f (insert_by (λ a b. cmp (f a) (f b)) x ys) ≡ insert_by cmp (f x) (map f ys)
      → map f (insert_by (λ a b. cmp (f a) (f b)) x (y ∷ ys)) ≡ insert_by cmp (f x) (map f (y ∷ ys))
  unfolding insert_by
  insert_by-step cmp x y ys Ordering.lt e h = rw (e, insert_by) refl
  insert_by-step cmp x y ys Ordering.eq e h = rw (e, insert_by) refl
  insert_by-step cmp x y ys Ordering.gt e h = rw (e, insert_by) (ap (◌∷◌ (f y)) h)

  insert_by-map :
      (cmp : B → B → Ordering) (x : A) (xs : List A)
      → map f (insert_by (λ a b. cmp (f a) (f b)) x xs) ≡ insert_by cmp (f x) (map f xs)
  unfolding insert_by
  insert_by-map cmp x [] = refl
  insert_by-map cmp x (y ∷ ys) =
      insert_by-step cmp x y ys (cmp (f x) (f y)) refl (insert_by-map cmp x ys)

  sort_by-map :
      (cmp : B → B → Ordering) (xs : List A)
      → map f (sort_by (λ a b. cmp (f a) (f b)) xs) ≡ sort_by cmp (map f xs)
  unfolding sort_by
  sort_by-map cmp [] = refl
  sort_by-map cmp (x ∷ xs) =
      insert_by-map cmp x (sort_by (λ a b. cmp (f a) (f b)) xs)
      ∙ ap (insert_by cmp (f x)) (sort_by-map cmp xs)

  dedup_from-map :
      (same : B → B → Bool) (x : A) (xs : List A)
      → map f (dedup_from (λ a b. same (f a) (f b)) x xs) ≡ dedup_from same (f x) (map f xs)
  unfolding dedup_from
  dedup_from-map same x [] = refl
  dedup_from-map same x (y ∷ ys) = elim (Bool-cases (same (f y) (f x))) [
    | inl equal ↦ rw (equal, dedup_from) (dedup_from-map same x ys)
    | inr other ↦ rw (other, dedup_from) (ap (◌∷◌ (f x)) (dedup_from-map same y ys))
  ]

  dedup-map :
      (same : B → B → Bool) (xs : List A)
      → map f (dedup (λ a b. same (f a) (f b)) xs) ≡ dedup same (map f xs)
  unfolding dedup
  dedup-map same [] = refl
  dedup-map same (x ∷ xs) = dedup_from-map same x xs

  drop-map : (n : ℕ) (xs : List A) → map f (drop n xs) ≡ drop n (map f xs)
  drop-map zero xs = refl
  drop-map (suc n) [] = refl
  drop-map (suc n) (x ∷ xs) = drop-map n xs

module _ {ℓ κ} {A : Type ℓ} (P : A → Type κ) where
  All-drop : (n : ℕ) (xs : List A) → All P xs → All P (drop n xs)
  All-drop zero xs h = h
  All-drop (suc n) [] h = tt
  All-drop (suc n) (x ∷ xs) h = All-drop n xs h.1

  All-dedup_from :
      (same : A → A → Bool) (x : A) (xs : List A) → P x → All P xs → All P (dedup_from same x xs)
  unfolding dedup_from
  All-dedup_from same x [] h k = (h, tt)
  All-dedup_from same x (y ∷ ys) h k = elim (Bool-cases (same y x)) [
    | inl equal ↦ rw (equal, dedup_from) (All-dedup_from same x ys h k.1)
    | inr other ↦ rw (other, dedup_from) (h, All-dedup_from same y ys k.0 k.1)
  ]

  All-dedup : (same : A → A → Bool) (xs : List A) → All P xs → All P (dedup same xs)
  unfolding dedup
  All-dedup same [] h = tt
  All-dedup same (x ∷ xs) h = All-dedup_from same x xs h.0 h.1

map-same :
    {A : Type 0} {B : Type 0} (f g : A → B) (xs : List A)
    → All (λ x. f x ≡ g x) xs
    → map f xs ≡ map g xs
map-same f g [] h = refl
map-same f g (x ∷ xs) h = ap (λ y. y ∷ map f xs) h.0 ∙ ap (◌∷◌ (g x)) (map-same f g xs h.1)

length-map {ℓ κ} :
    {A : Type ℓ} {B : Type κ} (f : A → B) (xs : List A) → length (map f xs) ≡ length xs
length-map f [] = refl
length-map f (x ∷ xs) = ap suc (length-map f xs)

slices-append_reads :
    (slices path : List ℕ) (bounds : List (ℕ × ℕ))
    → Within slices bounds
    → map (slice (slices ++ path)) (bounds ++ (length slices, length path) ∷ [])
      ≡ map (slice slices) bounds ++ path ∷ []
slices-append_reads slices path [] h =
    ap (λ x. x ∷ [])
      (ap (λ xs. slice (slices ++ xs) (length slices, length path)) (sym (append-nil path))
        ∙ slice-middle slices path [])
slices-append_reads slices path ((o, l) ∷ rest) h =
    ap (λ x. x ∷ map (slice (slices ++ path)) (rest ++ (length slices, length path) ∷ []))
      (slice-append slices path o l h.0)
    ∙ ap (◌∷◌ (slice slices (o, l))) (slices-append_reads slices path rest h.1)

Within-append :
    (slices path : List ℕ) (bounds : List (ℕ × ℕ))
    → Within slices bounds
    → Within (slices ++ path) (bounds ++ (length slices, length path) ∷ [])
Within-append slices path [] h = (omega (arith, length-append slices path), tt)
Within-append slices path ((o, l) ∷ rest) h =
    (omega (arith, length-append slices path, h.0), Within-append slices path rest h.1)

-- If all bounds lie in the storage, `activate` puts its path behind those that are active, and
-- leaves them as they are, though all share one storage.
pub activate_correct :
    (a : Activations) (path : List ℕ)
    → Within a.slices a.bounds
    → (map_active (activate a path) ≡ map_active a ++ path ∷ [])
      × Within (activate a path).slices (activate a path).bounds
unfolding activate map_active
activate_correct a path h =
    (slices-append_reads a.slices path a.bounds h, Within-append a.slices path a.bounds h)

-- If all bounds lie in the storage, the end of `advance` drops the paths that were presented
-- before, sorts the others, leaves one of those that are equal, and compacts the storage so that it
-- reads the same; all that is left is clean.
pub settle_correct :
    (a : Activations)
    → Within a.slices a.bounds
    → (map_active (settle a) ≡ dedup same_path (sort_by cmp_path (drop a.clean (map_active a))))
      × Within (settle a).slices (settle a).bounds
      × ((settle a).clean ≡ length (map_active (settle a)))
unfolding settle map_active
settle_correct a h =
    let sorted =
      sort_by (λ x y. cmp_path (slice a.slices x) (slice a.slices y)) (drop a.clean a.bounds) in
    let unique = dedup (λ x y. same_path (slice a.slices x) (slice a.slices y)) sorted in
    let inside =
      All-dedup (λ b. b.0 + b.1 ≤ length a.slices)
        (λ x y. same_path (slice a.slices x) (slice a.slices y)) sorted
        (All-sort_by (λ x y. cmp_path (slice a.slices x) (slice a.slices y))
          (λ b. b.0 + b.1 ≤ length a.slices) (drop a.clean a.bounds)
          (All-drop (λ b. b.0 + b.1 ≤ length a.slices) a.clean a.bounds h)) in
    (
      compact_slices-reads a.slices [] unique inside
          ∙ dedup-map (slice a.slices) same_path sorted
          ∙ ap (dedup same_path) (
              sort_by-map (slice a.slices) cmp_path (drop a.clean a.bounds)
              ∙ ap (sort_by cmp_path) (drop-map (slice a.slices) a.clean a.bounds)),
      compact_slices-Within a.slices [] unique inside,
      sym (
          length-map (slice (compact_slices a.slices [] unique).1)
            (compact_slices a.slices [] unique).0),
    )
