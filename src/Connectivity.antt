-- ===== src/Connectivity.antt =====
-- `PortConnectivity` of timely/src/progress/operate.rs: for each port the antichain of the
-- summaries of the paths to it. The `BTreeMap` is the list of its entries, in ascending order of
-- keys.
pub mod Ports
use timely_dataflow.Prelude.{
  ℕ, Bool, true, false, not, List, [], ◌∷◌, Option, none, some, if◌then◌else◌, ◌==◌, ltb, is_nil,
}
use timely_dataflow.Order.{PartialOrder}
use timely_dataflow.Antichain.{Antichain}
use timely_dataflow.Antichain

module _ {ℓ} {V : Type ℓ} where
  -- `BTreeMap::get`.
  abbrev pub lookup : ℕ → List (ℕ × V) → Option V
  lookup key [] = none
  lookup key ((k, v) ∷ rest) = let later = lookup key rest in if k == key then some v else later

  -- `BTreeMap::insert`, and the write to an entry.
  unfoldable pub put : ℕ → V → List (ℕ × V) → List (ℕ × V)
  put key value [] = (key, value) ∷ []
  put key value ((k, v) ∷ rest) =
      let later = put key value rest in
      if k == key
      then (key, value) ∷ rest
      else (if ltb key k then (key, value) ∷ (k, v) ∷ rest else (k, v) ∷ later)

  -- `Option::unwrap_or_default`.
  abbrev pub or_default : V → Option V → V
  or_default d none = d
  or_default d (some v) = v

pub record PortConnectivity {ℓ} (TS : Type ℓ) : Type ℓ where
  pub tree : List (ℕ × Antichain TS)

module _ {ℓ} {TS : Type ℓ} where
  unfoldable pub default : PortConnectivity TS
  default = record { tree = [] }

  unfoldable pub get : PortConnectivity TS → ℕ → Option (Antichain TS)
  get c index = lookup index c.tree

  unfoldable pub iter_ports : PortConnectivity TS → List (ℕ × Antichain TS)
  iter_ports c = c.tree

  unfoldable pub insert :
      ⦃p : PartialOrder TS⦄ → PortConnectivity TS → ℕ → TS → PortConnectivity TS × Bool
  insert c index element =
      let (antichain, added) =
        Antichain.insert (or_default Antichain.new (lookup index c.tree)) element in
      (record { tree = put index antichain c.tree }, added)

  -- `add_port`; none is the failed assertion that no summary was there.
  unfoldable pub add_port : PortConnectivity TS → ℕ → Antichain TS → Option (PortConnectivity TS)
  add_port c port summary = elim (lookup port c.tree) [
    | some prior ↦ none
    | none ↦ some (if is_nil summary.elements then c else record { tree = put port summary c.tree })
  ]

  -- `FromIterator`: the entries that are not empty, each put over those before it.
  unfoldable pub collect :
      List (ℕ × Antichain TS) → List (ℕ × Antichain TS) → List (ℕ × Antichain TS)
  collect tree [] = tree
  collect tree ((port, summary) ∷ rest) =
      collect (if is_nil summary.elements then tree else put port summary tree) rest

  unfoldable pub from_iter : List (ℕ × Antichain TS) → PortConnectivity TS
  from_iter entries = record { tree = collect [] entries }
