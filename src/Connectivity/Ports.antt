-- ===== src/Connectivity/Ports.antt =====
-- Port connectivity as a map from ports to antichains.
use timely_dataflow.Prelude.{
  ℕ, ◌≡◌, ◌⊎◌, inl, inr, refl, false, not, ◌&&◌, List, [], ◌∷◌, none, some, if◌then◌else◌, ◌==◌,
  ltb, is_nil, arith, Bool-cases, Option-cases,
}
use timely_dataflow.Order.{PartialOrder}
use timely_dataflow.Antichain.{Antichain}
use timely_dataflow.Antichain
use timely_dataflow.Connectivity.{PortConnectivity, lookup, put, or_default, get, insert, add_port}

-- What a later write leaves of an earlier one.
lookup-put {ℓ} :
    {V : Type ℓ} (key : ℕ) (value : V) (query : ℕ) (entries : List (ℕ × V))
    → lookup query (put key value entries)
      ≡ (if key == query then some value else lookup query entries)
unfolding put
lookup-put key value query [] = refl
lookup-put key value query ((k, v) ∷ rest) = elim (Bool-cases (k == key)) [
  | inl same ↦ rw same (elim (Bool-cases (key == query)) [
    | inl hit ↦ rw hit refl
    | inr miss ↦ let past : (k == query) ≡ false = ground arith in rw (miss, past) refl
  ])
  | inr other ↦ elim (Bool-cases (ltb key k)) [
    | inl before ↦ rw (other, before) refl
    | inr behind ↦
        rw (other, behind)
          (elim (Bool-cases (k == query)) [
            | inl hit ↦ let past : (key == query) ≡ false = ground arith in rw (hit, past) refl
            | inr miss ↦ rw miss (lookup-put key value query rest)
          ])
  ]
]

module _ {ℓ} {TS : Type ℓ} ⦃p : PartialOrder TS⦄ where
  -- `insert` changes the antichain of its port, which it creates where it is missing, by the
  -- insertion of the element, and that of no other port; it answers what that insertion answers.
  pub insert_port_correct :
      (c : PortConnectivity TS) (index : ℕ) (element : TS) (query : ℕ)
      → let (c', added) = insert c index element in
        let (antichain, grown) =
          Antichain.insert (or_default Antichain.new (get c index)) element in
        (get c' query ≡ (if index == query then some antichain else get c query)) × (added ≡ grown)
  unfolding insert get
  insert_port_correct c index element query = (lookup-put index _ query c.tree, refl)

  -- `add_port` panics if and only if the port has a summary; else it adds the summary, or nothing
  -- if the summary is empty, and changes no other port.
  pub add_port_correct :
      (c : PortConnectivity TS) (port : ℕ) (summary : Antichain TS)
      → ((prior : Antichain TS) × (get c port ≡ some prior) × (add_port c port summary ≡ none))
        ⊎ ((get c port ≡ none)
            × (c' : PortConnectivity TS) × (add_port c port summary ≡ some c')
            × ((query : ℕ)
                → get c' query ≡ (
                    if not (is_nil summary.elements) && port == query
                    then some summary
                    else get c query)))
  unfolding get add_port
  add_port_correct c port summary = elim (Option-cases (lookup port c.tree)) [
    | inr (prior, taken) ↦ inl (prior, taken, rw (taken, add_port) refl)
    | inl free ↦ inr (
      free,
      (if is_nil summary.elements then c else record { tree = put port summary c.tree }),
      rw (free, add_port) refl,
      λ query. elim (Bool-cases (is_nil summary.elements)) [
        | inl empty ↦ rw empty refl
        | inr full ↦ rw full (lookup-put port summary query c.tree)
      ],
    )
  ]
