-- ===== src/Reachability/Edges.antt =====
-- `add_edge` on a wired graph.
use timely_dataflow.Prelude.{
  ℕ, ◌≡◌, refl, sym, subst, true, false, ltb, ◌⊎◌, inl, inr, List, [], ◌∷◌, ◌++◌, some,
  Option-cases, get_elem?, modify, modify_before, modify_after, All, All-append,
}
use timely_dataflow.Location.{Source, Target, new_target, new_source, from_target, from_source}
use timely_dataflow.Reachability.Ports.{some-of-bind}
use timely_dataflow.Reachability.Builder.{Builder, add_edge}
use timely_dataflow.Reachability.Wiring.{has_place, IsPlace, at_both, IsWired}

module _ {ℓ} {A : Type ℓ} (a b : ℕ) (f : A → A) where
  -- A write at both indices leaves something at every index at which something was.
  at_both-modify :
      (xss : List (List A)) (n i : ℕ) (x : A)
      → at_both xss n i ≡ some x
      → (y : A) × (at_both (modify a (modify b f) xss) n i ≡ some y)
  at_both-modify xss n i x h =
      let (xs, outer, inner) = some-of-bind (get_elem? xss n) _ x h in
      elim (modify_after a n (modify b f) xss xs outer) [
        | inl kept ↦ (x, rw kept inner)
        | inr (written, same) ↦ elim (modify_after b i f xs x inner) [
          | inl kept ↦ (x, rw written kept)
          | inr (changed, at) ↦ (f x, rw written changed)
        ]
      ]

  -- What stands at both indices after it stood there before or is what was written.
  at_both-of-modify :
      (xss : List (List A)) (n i : ℕ) (y : A)
      → at_both (modify a (modify b f) xss) n i ≡ some y
      → (at_both xss n i ≡ some y) ⊎ ((x : A) × (at_both xss n i ≡ some x) × (f x ≡ y))
  at_both-of-modify xss n i y h =
      let (ys, outer, inner) = some-of-bind (get_elem? (modify a (modify b f) xss) n) _ y h in
      elim (modify_before a n (modify b f) xss ys outer) [
        | inl kept ↦ inl (rw kept inner)
        | inr (xs, was, written, same) ↦
            elim (modify_before b i f xs y (rw (sym written) at inner)) [
              | inl kept ↦ inl (rw was kept)
              | inr (x, there, value, at) ↦ inr (x, rw was there, value)
            ]
      ]

source_place :
    (shape : List (ℕ × ℕ)) (n i : ℕ)
    → IsPlace shape (new_source n i)
    → (io : ℕ × ℕ) × (get_elem? shape n ≡ some io) × (ltb i io.1 ≡ true)
unfolding has_place
source_place shape n i h = elim (Option-cases (get_elem? shape n)) [
  | inl missing ↦ let gone : false ≡ true = rw missing at h in cc
  | inr (io, found) ↦ (io, found, rw found at h)
]

target_place :
    (shape : List (ℕ × ℕ)) (n i : ℕ)
    → IsPlace shape (new_target n i)
    → (io : ℕ × ℕ) × (get_elem? shape n ≡ some io) × (ltb i io.0 ≡ true)
unfolding has_place
target_place shape n i h = elim (Option-cases (get_elem? shape n)) [
  | inl missing ↦ let gone : false ≡ true = rw missing at h in cc
  | inr (io, found) ↦ (io, found, rw found at h)
]

module _ {κ} {TS : Type κ} where
  with_edge : Builder TS → Source → Target → Builder TS
  with_edge b at to = record b {
    edges = modify at.node (modify at.port (λ tos. tos ++ to ∷ [])) b.edges;
  }

  with_edge-IsWired :
      (b : Builder TS) (at : Source) (to : Target)
      → IsWired b
      → IsPlace b.shape (from_target to)
      → IsWired (with_edge b at to)
  unfolding with_edge
  with_edge-IsWired b at to w place = record {
    inner = w.inner;
    inner_at = w.inner_at;
    outer = λ n i h.
        let (tos, found) = w.outer n i h in
        at_both-modify at.node at.port (λ tos. tos ++ to ∷ []) b.edges n i tos found;
    outer_at = λ n i tos h.
        elim (at_both-of-modify at.node at.port (λ tos. tos ++ to ∷ []) b.edges n i tos h) [
          | inl kept ↦ w.outer_at n i tos kept
          | inr (us, was, value) ↦
              let (source_in, targets_in) = w.outer_at n i us was in
              (
                source_in,
                subst (All (λ t. IsPlace b.shape (from_target t))) value (
                    All-append (λ t. IsPlace b.shape (from_target t)) us (to ∷ []) targets_in
                      (place, tt)),
              )
        ];
  }

  -- On a wired graph `add_edge` between two of its ports does not panic, keeps the shape and the
  -- summaries, adds the target behind those of the source, and leaves the graph wired.
  pub add_edge_correct :
      (b : Builder TS) (at : Source) (to : Target)
      → IsWired b
      → IsPlace b.shape (from_source at)
      → IsPlace b.shape (from_target to)
      → (b' : Builder TS) × (add_edge b at to ≡ some b')
        × (b'.shape ≡ b.shape)
        × (b'.nodes ≡ b.nodes)
        × (b'.edges ≡ modify at.node (modify at.port (λ tos. tos ++ to ∷ [])) b.edges)
        × IsWired b'
  unfolding add_edge with_edge
  add_edge_correct b at to w from_in to_in =
      let (from_shape, at_from, from_lt) = source_place b.shape at.node at.port from_in in
      let (to_shape, at_to, to_lt) = target_place b.shape to.node to.port to_in in
      let (tos, found) = w.outer at.node at.port from_in in
      let (ports, at_node, at_port) = some-of-bind (get_elem? b.edges at.node) _ tos found in
      (
        with_edge b at to,
        rw (at_from, at_to, at_node, at_port, from_lt, to_lt) refl,
        refl,
        refl,
        refl,
        with_edge-IsWired b at to w to_in,
      )
