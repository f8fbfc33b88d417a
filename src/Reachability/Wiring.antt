-- ===== src/Reachability/Wiring.antt =====
-- A graph whose edges and summaries lead to ports only, and what is found on it walking back from the
-- outputs of the scope.
use timely_dataflow.Prelude.{
  ℕ, suc, ◌+◌, ◌≡◌, refl, sym, subst, Bool, true, false, Bool-cases, ◌==◌, ltb, List, [], ◌∷◌,
  add_zero, zero_add, add_suc, Option, none, some, get_elem?, All, inl, inr,
}
use mathlib.Core.Option.{some-injective}
use timely_dataflow.Location.{
  Port, Location, Target, new_target, new_source, from_target, location_eq,
}
use timely_dataflow.Location.Port.{target, source}
use timely_dataflow.Antichain.{Antichain}
use timely_dataflow.Connectivity.{PortConnectivity, put}
use timely_dataflow.Timestamp.{◌>>=◌}
use timely_dataflow.Reachability.Builder.{Builder, find, store, upsert}
use timely_dataflow.Reachability.Summaries.{reverse_targets, reverse_ports, reverse_edges}

-- Whether a location is a port of the shape.
abbrev pub in_shape : Port → Option (ℕ × ℕ) → Bool
in_shape port none = false
in_shape (target i) (some io) = ltb i io.0
in_shape (source i) (some io) = ltb i io.1

unfoldable pub has_place : List (ℕ × ℕ) → Location → Bool
has_place shape l = in_shape l.port (get_elem? shape l.node)

abbrev pub IsPlace : List (ℕ × ℕ) → Location → Type 0
IsPlace shape l = has_place shape l ≡ true

-- `v[n][i]`.
abbrev pub at_both {ℓ} : {A : Type ℓ} → List (List A) → ℕ → ℕ → Option A
at_both xss n i = get_elem? xss n >>= λ xs. get_elem? xs i

-- The ports of the shape are those that have edges or summaries, and these lead to ports only.
pub record IsWired {κ} {TS : Type κ} (b : Builder TS) : Type κ where
  pub inner :
      (n i : ℕ)
      → IsPlace b.shape (new_target n i)
      → (c : PortConnectivity TS) × (at_both b.nodes n i ≡ some c)
  pub inner_at :
      (n i : ℕ) (c : PortConnectivity TS)
      → at_both b.nodes n i ≡ some c
      → IsPlace b.shape (new_target n i)
        × All (λ (x : ℕ × Antichain TS). IsPlace b.shape (new_source n x.0)) c.tree
  pub outer :
      (n i : ℕ)
      → IsPlace b.shape (new_source n i)
      → (tos : List Target) × (at_both b.edges n i ≡ some tos)
  pub outer_at :
      (n i : ℕ) (tos : List Target)
      → at_both b.edges n i ≡ some tos
      → IsPlace b.shape (new_source n i) × All (λ to. IsPlace b.shape (from_target to)) tos

module _ {ℓ κ} {V : Type ℓ} (Q : Location × V → Type κ) where
  pub All-store :
      (l : Location) (value : V) (entries : List (Location × V))
      → Q (l, value)
      → All Q entries
      → All Q (store l value entries)
  unfolding store
  All-store l value [] q h = (q, tt)
  All-store l value ((k, v) ∷ rest) q h = elim (Bool-cases (location_eq.equal k l)) [
    | inl hit ↦ rw hit (q, h.1)
    | inr miss ↦ rw miss (h.0, All-store l value rest q h.1)
  ]

  pub All-upsert :
      (l : Location) (default : V) (f : V → V) (entries : List (Location × V))
      → Q (l, f default)
      → ((v : V) → Q (l, v) → Q (l, f v))
      → All Q entries
      → All Q (upsert l default f entries)
  unfolding upsert
  All-upsert l default f [] q g h = (q, tt)
  All-upsert l default f ((k, v) ∷ rest) q g h = elim (Bool-cases (location_eq.equal k l)) [
    | inl hit ↦
        let same = location_eq.eq_of_equal k l hit in
        rw hit (subst (λ j. Q (j, f v)) (sym same) (g v (subst (λ j. Q (j, v)) same h.0)), h.1)
    | inr miss ↦ rw miss (h.0, All-upsert l default f rest q g h.1)
  ]

  pub find-All :
      (l : Location) (entries : List (Location × V)) (v : V)
      → All Q entries
      → find l entries ≡ some v
      → Q (l, v)
  unfolding find
  find-All l [] v h e = cc
  find-All l ((k, w) ∷ rest) v h e = elim (Bool-cases (location_eq.equal k l)) [
    | inl hit ↦
        let e' : some w ≡ some v = rw hit at e in
        subst Q (λ i. (location_eq.eq_of_equal k l hit i, some-injective w v e' i)) h.0
    | inr miss ↦ find-All l rest v h.1 (rw miss at e)
  ]

-- The keys of a tree after a write.
pub put-All {ℓ} :
    {V : Type ℓ} (P : ℕ → Type 0) (key : ℕ) (value : V) (entries : List (ℕ × V))
    → P key
    → All (λ (x : ℕ × V). P x.0) entries
    → All (λ (x : ℕ × V). P x.0) (put key value entries)
unfolding put
put-All P key value [] q h = (q, tt)
put-All P key value ((k, v) ∷ rest) q h = elim (Bool-cases (k == key)) [
  | inl hit ↦ rw hit (q, h.1)
  | inr miss ↦ elim (Bool-cases (ltb key k)) [
    | inl before ↦ rw (miss, before) (q, h)
    | inr behind ↦ rw (miss, behind) (h.0, put-All P key value rest q h.1)
  ]
]

module _ (P : Location → Type 0) where
  reverse_targets-All :
      (at : Location) (tos : List Target) (reverse : List (Location × Location))
      → P at
      → All (λ (e : Location × Location). P e.1) reverse
      → All (λ (e : Location × Location). P e.1) (reverse_targets at tos reverse)
  unfolding reverse_targets
  reverse_targets-All at [] reverse q h = h
  reverse_targets-All at (to ∷ tos) reverse q h =
      reverse_targets-All at tos _ q (All-store (λ e. P e.1) (from_target to) at reverse q h)

  reverse_ports-All :
      (node output : ℕ) (ports : List (List Target)) (reverse : List (Location × Location))
      → ((i : ℕ) (tos : List Target)
          → get_elem? ports i ≡ some tos
          → P (new_source node (output + i)))
      → All (λ (e : Location × Location). P e.1) reverse
      → All (λ (e : Location × Location). P e.1) (reverse_ports node output ports reverse)
  unfolding reverse_ports
  reverse_ports-All node output [] reverse q h = h
  reverse_ports-All node output (tos ∷ ports) reverse q h =
      reverse_ports-All node (suc output) ports _
        (λ i us at. subst (λ j. P (new_source node j)) (add_suc output i) (q (suc i) us at))
        (reverse_targets-All (new_source node output) tos reverse
          (subst (λ j. P (new_source node j)) (add_zero output) (q 0 tos refl)) h)

  pub reverse_edges-All :
      (node : ℕ) (edges : List (List (List Target))) (reverse : List (Location × Location))
      → ((n i : ℕ) (tos : List Target) → at_both edges n i ≡ some tos → P (new_source (node + n) i))
      → All (λ (e : Location × Location). P e.1) reverse
      → All (λ (e : Location × Location). P e.1) (reverse_edges node edges reverse)
  unfolding reverse_edges
  reverse_edges-All node [] reverse q h = h
  reverse_edges-All node (ports ∷ rest) reverse q h =
      reverse_edges-All (suc node) rest _
        (λ n i us at. subst (λ m. P (new_source m i)) (add_suc node n) (q (suc n) i us at))
        (reverse_ports-All node 0 ports reverse
          (λ i us at.
            subst (λ m. P m) (λ x. new_source (add_zero node x) (sym (zero_add i) x)) (q 0 i us at))
          h)
