-- ===== src/Capability.antt =====
-- timely/src/dataflow/operators/capability.rs: permits to send at a time, each counted in the
-- change batch of its output. Batches are shared, so they stand in a store under the identity of
-- their `Rc`.
pub mod Balance
pub mod Sets
pub mod Insert
pub mod Input
use timely_dataflow.Prelude.{
  ℕ, zero, suc, Bool, true, false, ◌&&◌, List, [], ◌∷◌, ◌++◌, Option, none, some, if◌then◌else◌,
  any, drop, length, ◌==◌, minus,
}
use timely_dataflow.Order.{Eq, PartialOrder, Ord}
use timely_dataflow.ChangeBatch.{ChangeBatch}
use timely_dataflow.ChangeBatch

-- `Capability`; `internal` is the identity of its change batch.
pub record Capability {ℓ} (T : Type ℓ) : Type ℓ where
  pub time : T
  pub internal : ℕ

abbrev pub Store {ℓ} : Type ℓ → Type ℓ
Store T = ℕ → ChangeBatch T

module _ {ℓ} {T : Type ℓ} ⦃e : Eq T⦄ ⦃p : PartialOrder T⦄ where
  -- The impls of `PartialEq` and `PartialOrder`.
  unfoldable pub equal : Capability T → Capability T → Bool
  equal c d = e.equal c.time d.time && c.internal == d.internal

  unfoldable pub less_equal : Capability T → Capability T → Bool
  less_equal c d = p.less_equal c.time d.time && c.internal == d.internal

module _ {ℓ} {T : Type ℓ} ⦃e : Eq T⦄ ⦃o : Ord T⦄ where
  -- `internal.borrow_mut().update(time, delta)`.
  unfoldable pub note : Store T → ℕ → T → ℕ → Store T
  note store internal time delta i =
      if i == internal then ChangeBatch.update (store i) time delta else store i

  unfoldable pub new : Store T → T → ℕ → Store T × Capability T
  new store time internal =
      (note store internal time 1, record { time = time; internal = internal })

  -- `drop` of a capability.
  unfoldable pub release : Store T → Capability T → Store T
  release store c = note store c.internal c.time (minus 1)

  unfoldable pub clone : Store T → Capability T → Store T × Capability T
  clone store c = new store c.time c.internal

  -- `elements.drain(..count)`, and `drop` of what it removes.
  unfoldable pub release_front : Store T → ℕ → List (Capability T) → Store T × List (Capability T)
  release_front store zero cs = (store, cs)
  release_front store (suc n) [] = (store, [])
  release_front store (suc n) (c ∷ cs) = release_front (release store c) n cs

module _ {ℓ} {T : Type ℓ} ⦃e : Eq T⦄ ⦃p : PartialOrder T⦄ ⦃o : Ord T⦄ where
  unfoldable pub try_delayed : Store T → Capability T → T → Option (Store T × Capability T)
  try_delayed store c new_time =
      if p.less_equal c.time new_time then some (new store new_time c.internal) else none

  -- `try_downgrade`: the store and the capability after it, and whether it succeeded. The
  -- assignment to `*self` drops the old capability.
  unfoldable pub try_downgrade : Store T → Capability T → T → Store T × Capability T × Bool
  try_downgrade store c new_time = elim (try_delayed store c new_time) [
    | some (store', c') ↦ (release store' c, c', true)
    | none ↦ (store, c, false)
  ]

  -- `retain(|c| !capability.less_equal(c))`, with the drops of what is not retained.
  unfoldable pub retain_not_above :
      Store T → Capability T → List (Capability T) → Store T × List (Capability T)
  retain_not_above store capability [] = (store, [])
  retain_not_above store capability (c ∷ cs) =
      let above = less_equal capability c in
      let (store', kept) =
        retain_not_above (if above then release store c else store) capability cs in
      (store', (if above then kept else c ∷ kept))

  -- `CapabilitySet::insert`: the set takes the capability, or drops it.
  unfoldable pub insert :
      Store T → List (Capability T) → Capability T → Store T × List (Capability T)
  insert store elements capability =
      let (store', kept) = retain_not_above store capability elements in
      if any (λ c. less_equal c capability) elements
      then (release store capability, elements)
      else (store', kept ++ capability ∷ [])

  -- `CapabilitySet::try_delayed`: by the first capability that allows it.
  unfoldable pub set_try_delayed :
      Store T → List (Capability T) → T → Option (Store T × Capability T)
  set_try_delayed store [] time = none
  set_try_delayed store (c ∷ cs) time =
      let rest = set_try_delayed store cs time in
      if p.less_equal c.time time then try_delayed store c time else rest

  -- The loop of `CapabilitySet::try_downgrade` over the frontier, and whether it went through.
  unfoldable pub delay_all :
      Store T → List (Capability T) → List T → Store T × List (Capability T) × Bool
  delay_all store elements [] = (store, elements, true)
  delay_all store elements (time ∷ frontier) = elim (set_try_delayed store elements time) [
    | none ↦ (store, elements, false)
    | some (store', c) ↦ delay_all store' (elements ++ c ∷ []) frontier
  ]

  -- `CapabilitySet::try_downgrade`: on an error what was pushed stays.
  unfoldable pub set_try_downgrade :
      Store T → List (Capability T) → List T → Store T × List (Capability T) × Bool
  set_try_downgrade store elements frontier =
      let (store', elements', ok) = delay_all store elements frontier in
      let (store'', elements'') = release_front store' (length elements) elements' in
      if ok then (store'', elements'', true) else (store', elements', false)
